-- ===== src/Decoder/Rounds.antt =====
-- The rounds of decode_one_pkt: what becomes of every frame, and when the loop ends.
use mathlib.Core.Option
use rv_receive.Base.{
  ℕ, zero, suc, ◌≡◌, refl, ap, ◌∙◌, inl, inr, Bool, true, false, ◌||◌, none, some, List, [], ◌∷◌,
  ◌++◌, arith, if◌then◌else◌, Bool-cases, Option-cases, pick_then, pick_else,
}
use rv_receive.Base.Int.{ℤ, pos}
use rv_receive.Decoder.{
  Frame, Reply, timeout, mpp_err, no_frame, got_frame, Step, info_ready, show_frame, deinit_frame,
  DecoderState, Done, times, is_ok, set_group, info_changed, use_frame, with_steps, get_frames,
  decode_one_pkt,
}

-- The calls for the group of buffers of a frame that tells of a change succeed.
abbrev pub Usable : Frame → Type 0
Usable f =
    f.info_change ≡ true
    → (is_ok f.group_ret ≡ true) × (is_ok f.ext_ret ≡ true) × (is_ok f.limit_ret ≡ true)

-- Frames, none of them the last of a stream, with at most `t` timeouts between.
abbrev pub Quick : ℕ → List Reply → Type 0
Quick t [] = Unit {0}
Quick zero (timeout ∷ rs) = ⊥
Quick (suc t) (timeout ∷ rs) = Quick t rs
Quick t (mpp_err e ∷ rs) = ⊥
Quick t (no_frame ∷ rs) = ⊥
Quick t (got_frame f ∷ rs) = Usable f × (f.eos ≡ false) × Quick t rs

abbrev pub frame_steps : Bool → Frame → List Step
frame_steps display f =
    (if f.info_change then info_ready ∷ [] else if display then show_frame f.id ∷ [] else [])
    ++ (deinit_frame f.id ∷ [])

-- What is done with the frames of a round, in order.
abbrev pub round_steps : Bool → List Reply → List Step
round_steps display [] = []
round_steps display (timeout ∷ rs) = round_steps display rs
round_steps display (mpp_err e ∷ rs) = round_steps display rs
round_steps display (no_frame ∷ rs) = round_steps display rs
round_steps display (got_frame f ∷ rs) = frame_steps display f ++ round_steps display rs

-- Whether there is a group after the replies.
abbrev pub grouped : Bool → List Reply → Bool
grouped g [] = g
grouped g (timeout ∷ rs) = grouped g rs
grouped g (mpp_err e ∷ rs) = grouped g rs
grouped g (no_frame ∷ rs) = grouped g rs
grouped g (got_frame f ∷ rs) = grouped (g || f.info_change) rs

-- The result of a round, or of all of them.
abbrev pub done_with : DecoderState → List Step → Bool → List Reply → Done
done_with d steps g left = record {
  steps = steps;
  ret = pos 0;
  state = record { display = d.display; has_group = g };
  left = left;
}

use_frame-Usable :
    (d : DecoderState) (f : Frame)
    → Usable f
    → (is_ok (use_frame d f).0 ≡ true)
      × ((use_frame d f).1 ++ (deinit_frame f.id ∷ []) ≡ frame_steps d.display f)
      × ((use_frame d f).2
          ≡ record { display = d.display; has_group = d.has_group || f.info_change })
unfolding use_frame info_changed set_group
use_frame-Usable d f u = elim (Bool-cases f.info_change) [
  | inl change ↦ ground (arith, change, u change)
  | inr same ↦ ground (arith, same)
]

get_frames-got :
    (t : ℕ) (d : DecoderState) (f : Frame) (rs : List Reply)
    → get_frames t d (got_frame f ∷ rs) ≡ (
        let u = use_frame d f in
        let used = u.1 ++ (deinit_frame f.id ∷ []) in
        if is_ok u.0
        then if f.eos
          then some (record { steps = used; ret = pos 0; state = u.2; left = rs })
          else Option.map (with_steps used) (get_frames t u.2 rs)
        else some (record { steps = u.1; ret = u.0; state = u.2; left = rs }))
unfolding get_frames
get_frames-got zero d f rs = refl
get_frames-got (suc t) d f rs = refl

-- A frame that can be used, and the replies behind it.
got_one :
    (t : ℕ) (d : DecoderState) (f : Frame) (rs : List Reply) (r : Done)
    → Usable f
    → f.eos ≡ false
    → get_frames t (record { display = d.display; has_group = d.has_group || f.info_change }) rs
      ≡ some r
    → get_frames t d (got_frame f ∷ rs) ≡ some (with_steps (frame_steps d.display f) r)
got_one t d f rs r u more e =
    let (ok, steps, state) = use_frame-Usable d f u in
    get_frames-got t d f rs
    ∙ pick_then (is_ok (use_frame d f).0) _ _ ok
    ∙ pick_else f.eos _ _ more
    ∙ ap (Option.map (with_steps ((use_frame d f).1 ++ (deinit_frame f.id ∷ []))))
        (ap (λ d. get_frames t d rs) state ∙ e)
    ∙ ap (λ ss. some (with_steps ss r)) steps

get_frames-round :
    (t : ℕ) (d : DecoderState) (rs rest : List Reply)
    → Quick t rs
    → get_frames t d (rs ++ (no_frame ∷ rest))
      ≡ some (done_with d (round_steps d.display rs) (grouped d.has_group rs) rest)
unfolding get_frames
get_frames-round zero d [] rest h = refl
get_frames-round (suc t) d [] rest h = refl
get_frames-round zero d (timeout ∷ rs) rest h = absurd h
get_frames-round (suc t) d (timeout ∷ rs) rest h = get_frames-round t d rs rest h
get_frames-round zero d (mpp_err e ∷ rs) rest h = absurd h
get_frames-round (suc t) d (mpp_err e ∷ rs) rest h = absurd h
get_frames-round zero d (no_frame ∷ rs) rest h = absurd h
get_frames-round (suc t) d (no_frame ∷ rs) rest h = absurd h
get_frames-round zero d (got_frame f ∷ rs) rest h =
    let d' : DecoderState = record {
      display = d.display;
      has_group = d.has_group || f.info_change;
    } in
    got_one zero d f (rs ++ (no_frame ∷ rest)) _ h.0 h.1 (get_frames-round zero d' rs rest h.2)
get_frames-round (suc t) d (got_frame f ∷ rs) rest h =
    let d' : DecoderState = record {
      display = d.display;
      has_group = d.has_group || f.info_change;
    } in
    got_one (suc t) d f (rs ++ (no_frame ∷ rest)) _ h.0 h.1
      (get_frames-round (suc t) d' rs rest h.2)

-- Rounds in which the packet is not taken, each with what `decode_put_packet` returns.
abbrev pub Refused : List (ℤ × List Reply) → Type 0
Refused [] = Unit {0}
Refused ((put, rs) ∷ l) = (is_ok put ≡ false) × Quick times rs × Refused l

abbrev pub puts : List (ℤ × List Reply) → List ℤ
puts [] = []
puts ((put, rs) ∷ l) = put ∷ puts l

-- All replies, where each round ends with no frame.
abbrev pub replies : List (ℤ × List Reply) → List Reply → List Reply
replies [] rest = rest
replies ((put, rs) ∷ l) rest = rs ++ (no_frame ∷ replies l rest)

abbrev pub all_steps : Bool → List (ℤ × List Reply) → List Step → List Step
all_steps display [] ss = ss
all_steps display ((put, rs) ∷ l) ss = round_steps display rs ++ all_steps display l ss

abbrev pub all_grouped : Bool → List (ℤ × List Reply) → Bool
all_grouped g [] = g
all_grouped g ((put, rs) ∷ l) = all_grouped (grouped g rs) l

-- None of the calls takes the packet.
abbrev pub NeverTaken : List ℤ → Type 0
NeverTaken [] = Unit {0}
NeverTaken (put ∷ l) = (is_ok put ≡ false) × NeverTaken l

decode_one_pkt-taken :
    (d : DecoderState) (l : List (ℤ × List Reply)) (put : ℤ) (more : List ℤ)
    (last rest : List Reply)
    → Refused l
    → is_ok put ≡ true
    → Quick times last
    → decode_one_pkt d (puts l ++ (put ∷ more)) (replies l (last ++ (no_frame ∷ rest)))
      ≡ some (
          done_with d
            (all_steps d.display l (round_steps d.display last))
            (grouped (all_grouped d.has_group l) last)
            rest)
unfolding decode_one_pkt Option.bind
decode_one_pkt-taken d [] put more last rest refused taken h =
    rw (get_frames-round times d last rest h) (pick_then (is_ok put) _ _ taken)
decode_one_pkt-taken d ((put', rs) ∷ l) put more last rest refused taken h =
    let d' : DecoderState = record { display = d.display; has_group = grouped d.has_group rs } in
    rw (get_frames-round times d rs (replies l (last ++ (no_frame ∷ rest))) refused.1) (
      pick_else (is_ok put') _ _ refused.0
      ∙ ap (Option.map (with_steps (round_steps d.display rs)))
          (decode_one_pkt-taken d' l put more last rest refused.2 taken h))

decode_one_pkt-NeverTaken :
    (d : DecoderState) (l : List ℤ) (rs : List Reply) → NeverTaken l → decode_one_pkt d l rs ≡ none
unfolding decode_one_pkt Option.bind
decode_one_pkt-NeverTaken d [] rs h = refl
decode_one_pkt-NeverTaken d (put ∷ l) rs h = elim (Option-cases (get_frames times d rs)) [
  | inl e ↦ rw e refl
  | inr (r, e) ↦ rw e (
      pick_else (is_ok put) _ _ h.0
      ∙ ap (Option.map (with_steps r.steps)) (decode_one_pkt-NeverTaken r.state l r.left h.1))
]

Refused-NeverTaken : (l : List (ℤ × List Reply)) → Refused l → NeverTaken (puts l)
Refused-NeverTaken [] h = tt
Refused-NeverTaken ((put, rs) ∷ l) h = (h.0, Refused-NeverTaken l h.2)

-- Rounds in which the packet is refused, and one in which it is taken, each with frames that can be used,
-- none of them the last of a stream, with at most five timeouts between, and then no frame: with that
-- round decode_one_pkt ends and returns 0, and every frame of all rounds was shown, if that is set, or,
-- if it tells of a change, let the decoder go on, and was then released, in the order in which they came.
-- Before that, while the packet is refused, the loop goes on, whatever the replies are.
pub decode_one_pkt-rounds :
    (d : DecoderState) (l : List (ℤ × List Reply)) (put : ℤ) (more : List ℤ)
    (last rest any : List Reply)
    → Refused l
    → is_ok put ≡ true
    → Quick times last
    → (decode_one_pkt d (puts l ++ (put ∷ more)) (replies l (last ++ (no_frame ∷ rest)))
        ≡ some (
            done_with d
              (all_steps d.display l (round_steps d.display last))
              (grouped (all_grouped d.has_group l) last)
              rest))
      × (decode_one_pkt d (puts l) any ≡ none)
decode_one_pkt-rounds d l put more last rest any refused taken h = (
  decode_one_pkt-taken d l put more last rest refused taken h,
  decode_one_pkt-NeverTaken d (puts l) any (Refused-NeverTaken l refused),
)
