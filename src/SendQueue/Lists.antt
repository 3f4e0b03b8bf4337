-- ===== src/SendQueue/Lists.antt =====
-- The order in which the elements leave, and how long the lists become.
use rv_receive.Base.{
  ℕ, zero, suc, ◌+◌, ◌≤◌, ◌<◌, ◌≡◌, refl, sym, ap, ◌∙◌, Option, some, List, [], ◌∷◌, ◌++◌, arith,
  length, length-append,
}
use rv_receive.Message.{type_media_audiodata}
use rv_receive.SendQueue.{ThreadSendData, SendCacheManager, element, put_send_data, get_send_data}

-- So many calls of `GetSendData`, without the waits.
pub taken : ℕ → SendCacheManager → List (Option ThreadSendData)
taken zero m = []
taken (suc k) m = let r = get_send_data m in r.0 ∷ taken k r.1

abbrev pub found : List ThreadSendData → List (Option ThreadSendData)
found [] = []
found (d ∷ ds) = some d ∷ found ds

pub taken_lists :
    (cs rest vs : List ThreadSendData)
    → taken
        (length (cs ++ (rest ++ vs)))
        (record { cmd_list = cs; audio_list = rest; video_list = vs })
      ≡ found (cs ++ (rest ++ vs))
unfolding taken get_send_data
taken_lists (c ∷ cs) rest vs = ap (◌∷◌ (some c)) (taken_lists cs rest vs)
taken_lists [] (a ∷ rest) vs = ap (◌∷◌ (some a)) (taken_lists [] rest vs)
taken_lists [] [] (v ∷ vs) = ap (◌∷◌ (some v)) (taken_lists [] [] vs)
taken_lists [] [] [] = refl

abbrev pub put : SendCacheManager → ℕ → List ℕ → ℕ → SendCacheManager
put m type bytes now = (put_send_data m type bytes now).1

-- The calls of `PutSendData` one after the other.
unfoldable pub put_all : SendCacheManager → List (ℕ × List ℕ × ℕ) → SendCacheManager
put_all m [] = m
put_all m (x ∷ xs) = put_all (put m x.0 x.1 x.2) xs

put_video :
    (m : SendCacheManager) (type : ℕ) (bytes : List ℕ) (now : ℕ)
    → length m.video_list ≤ 30
    → length (put m type bytes now).video_list ≤ 30
unfolding put_send_data
put_video m type bytes now h =
    ground (arith, length-append m.video_list (element type bytes now ∷ []))

-- The video list never has more than thirty elements, whatever is put in.
pub put_all_short :
    (m : SendCacheManager) (xs : List (ℕ × List ℕ × ℕ))
    → length m.video_list ≤ 30
    → length (put_all m xs).video_list ≤ 30
unfolding put_all
put_all_short m [] h = h
put_all_short m (x ∷ xs) h = put_all_short (put m x.0 x.1 x.2) xs (put_video m x.0 x.1 x.2 h)

abbrev pub AllAudio : List (ℕ × List ℕ × ℕ) → Type 0
AllAudio [] = Unit {0}
AllAudio (x ∷ xs) = (x.0 ≡ type_media_audiodata) × AllAudio xs

put_audio :
    (m : SendCacheManager) (bytes : List ℕ) (now : ℕ)
    → length m.video_list < 200
    → ((put m type_media_audiodata bytes now).video_list ≡ m.video_list)
      × (length (put m type_media_audiodata bytes now).audio_list ≡ suc (length m.audio_list))
unfolding put_send_data
put_audio m bytes now h = (
  ground (arith, h),
  ground (arith, h, length-append m.audio_list (element type_media_audiodata bytes now ∷ [])),
)

-- While few video elements wait, every audio element is taken: the audio list has no bound.
pub put_all_audio :
    (m : SendCacheManager) (xs : List (ℕ × List ℕ × ℕ))
    → length m.video_list < 200
    → AllAudio xs
    → length (put_all m xs).audio_list ≡ length m.audio_list + length xs
unfolding put_all
put_all_audio m [] h a = omega arith
put_all_audio m (x ∷ xs) h a =
    let one = put_audio m x.1 x.2 h in
    let is : put m type_media_audiodata x.1 x.2 ≡ put m x.0 x.1 x.2 =
      ap (λ t. put m t x.1 x.2) (sym a.0) in
    ap (λ q. length (put_all q xs).audio_list) (sym is)
    ∙ put_all_audio (put m type_media_audiodata x.1 x.2) xs (omega (arith, h, ap length one.0)) a.1
    ∙ omega (arith, one.1)
