-- ===== src/SendQueue/Order.antt =====
-- What is put into the three lists, and in which order it is taken out.
use rv_receive.Base.{
  ℕ, ◌+◌, ◌<◌, ◌≡◌, refl, sym, ap, ◌∙◌, inl, inr, Bool, true, false, not, ◌||◌, List, [], ◌∷◌, ◌++◌,
  append-nil, append_assoc, arith, ltb, ◌==◌, if◌then◌else◌, length, length-append, Bool-cases,
}
use rv_receive.Message.{type_media_audiodata, type_media_videodata}
use rv_receive.SendQueue.{ThreadSendData, SendCacheManager, element, put_send_data}
use rv_receive.SendQueue.Lists.{taken, found, taken_lists, put, put_all}

abbrev pub is_video : ℕ → Bool
is_video type = type == type_media_videodata

abbrev pub is_audio : ℕ → Bool
is_audio type = type == type_media_audiodata

abbrev pub is_command : ℕ → Bool
is_command type = not (is_video type || is_audio type)

-- The elements of one kind, in the order of the calls.
abbrev pub of_kind : (ℕ → Bool) → List (ℕ × List ℕ × ℕ) → List ThreadSendData
of_kind f [] = []
of_kind f (x ∷ xs) = if f x.0 then element x.0 x.1 x.2 ∷ of_kind f xs else of_kind f xs

-- The lists with more behind what they have.
abbrev filled : SendCacheManager → List (ℕ × List ℕ × ℕ) → SendCacheManager
filled m xs = record {
  cmd_list = m.cmd_list ++ of_kind is_command xs;
  audio_list = m.audio_list ++ of_kind is_audio xs;
  video_list = m.video_list ++ of_kind is_video xs;
}

put_one :
    (m : SendCacheManager) (type : ℕ) (bytes : List ℕ) (now : ℕ)
    → length m.video_list < 30
    → put m type bytes now ≡ filled m ((type, bytes, now) ∷ [])
unfolding put_send_data
put_one m type bytes now h =
    let short : ltb (length m.video_list) 30 ≡ true = ground (arith, h) in
    let shorter : ltb (length m.video_list) 200 ≡ true = ground (arith, h) in
    let cs = append-nil m.cmd_list in
    let rest = append-nil m.audio_list in
    let vs = append-nil m.video_list in
    elim (Bool-cases (is_video type)) [
      | inl v ↦ let a : is_audio type ≡ false = ground (arith, v) in rw (v, a, short, cs, rest) refl
      | inr v ↦ elim (Bool-cases (is_audio type)) [
        | inl a ↦ rw (v, a, shorter, cs, vs) refl
        | inr a ↦ rw (v, a, short, rest, vs) refl
      ]
    ]

of_kind_cons :
    (f : ℕ → Bool) (x : ℕ × List ℕ × ℕ) (xs : List (ℕ × List ℕ × ℕ))
    → of_kind f (x ∷ []) ++ of_kind f xs ≡ of_kind f (x ∷ xs)
of_kind_cons f x xs = elim (Bool-cases (f x.0)) [ inl e ↦ rw e refl | inr e ↦ rw e refl ]

behind :
    (ds : List ThreadSendData) (f : ℕ → Bool) (x : ℕ × List ℕ × ℕ) (xs : List (ℕ × List ℕ × ℕ))
    → (ds ++ of_kind f (x ∷ [])) ++ of_kind f xs ≡ ds ++ of_kind f (x ∷ xs)
behind ds f x xs =
    append_assoc ds (of_kind f (x ∷ [])) (of_kind f xs) ∙ ap (◌++◌ ds) (of_kind_cons f x xs)

put_all-filled :
    (m : SendCacheManager) (xs : List (ℕ × List ℕ × ℕ))
    → length m.video_list + length (of_kind is_video xs) < 30
    → put_all m xs ≡ filled m xs
unfolding put_all
put_all-filled m [] h =
    rw (append-nil m.cmd_list, append-nil m.audio_list, append-nil m.video_list) refl
put_all-filled m (x ∷ xs) h =
    let few : length m.video_list < 30 = omega (arith, h) in
    let m' = filled m (x ∷ []) in
    let same = ap length (behind m.video_list is_video x xs) in
    let still : length m'.video_list + length (of_kind is_video xs) < 30 = omega (
      arith,
      h,
      same,
      length-append m'.video_list (of_kind is_video xs),
      length-append m.video_list (of_kind is_video (x ∷ xs)),
    ) in
    ap (λ q. put_all q xs) (put_one m x.0 x.1 x.2 few)
    ∙ put_all-filled m' xs still
    ∙ rw
        (
          behind m.cmd_list is_command x xs,
          behind m.audio_list is_audio x xs,
          behind m.video_list is_video x xs,
        )
        refl

abbrev pub in_order : List (ℕ × List ℕ × ℕ) → List ThreadSendData
in_order xs = of_kind is_command xs ++ (of_kind is_audio xs ++ of_kind is_video xs)

length_kinds :
    (xs : List (ℕ × List ℕ × ℕ))
    → length (of_kind is_command xs) + (length (of_kind is_audio xs) + length (of_kind is_video xs))
      ≡ length xs
length_kinds [] = refl
length_kinds (x ∷ xs) =
    let rest = length_kinds xs in
    elim (Bool-cases (is_video x.0)) [
      | inl v ↦ let a : is_audio x.0 ≡ false = ground (arith, v) in rw (v, a) (omega (arith, rest))
      | inr v ↦ elim (Bool-cases (is_audio x.0)) [
        | inl a ↦ rw (v, a) (omega (arith, rest))
        | inr a ↦ rw (v, a) (omega (arith, rest))
      ]
    ]

length-in_order : (xs : List (ℕ × List ℕ × ℕ)) → length (in_order xs) ≡ length xs
length-in_order xs = omega (
  arith,
  length_kinds xs,
  length-append (of_kind is_command xs) (of_kind is_audio xs ++ of_kind is_video xs),
  length-append (of_kind is_audio xs) (of_kind is_video xs),
)

abbrev pub nothing : SendCacheManager
nothing = record { cmd_list = []; audio_list = []; video_list = [] }

-- Of what is put into empty lists, with fewer than thirty pieces of video data, nothing is lost: taking as
-- many elements yields the commands, then the audio, then the video data, each in the order in which
-- they were put.
pub taken-put_all :
    (xs : List (ℕ × List ℕ × ℕ))
    → length (of_kind is_video xs) < 30
    → taken (length xs) (put_all nothing xs) ≡ found (in_order xs)
taken-put_all xs h =
    ap (λ m. taken (length xs) m) (put_all-filled nothing xs (omega (arith, h)))
    ∙ ap (λ k. taken k (filled nothing xs)) (sym (length-in_order xs))
    ∙ taken_lists (of_kind is_command xs) (of_kind is_audio xs) (of_kind is_video xs)
