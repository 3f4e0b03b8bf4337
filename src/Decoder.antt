-- ===== src/Decoder.antt =====
-- mpp/mpp_decoder_h264.cpp, Codec::decode_one_pkt: a packet goes to the vendor's decoder, and the frames
-- that are ready come back. What that decoder returns is a list of replies for each of its two calls;
-- `none` is a loop that has had all of them and goes on. What becomes of a shown frame is Picture.
pub mod Rounds
mod Tests
use mathlib.Core.Option
use rv_receive.Base.Int.{ℤ, pos, negsuc, is_num}
use rv_receive.Base.{
  ℕ, zero, suc, Bool, true, false, Option, none, some, List, [], ◌∷◌, ◌++◌, if◌then◌else◌,
}

-- What the code reads of a frame. For a frame that tells of a change, `group_ret`, `ext_ret` and
-- `limit_ret` are what the calls on the group of buffers return.
pub record Frame : Type 0 where
  pub id : ℕ
  pub info_change : Bool
  pub eos : Bool
  pub group_ret : ℤ
  pub ext_ret : ℤ
  pub limit_ret : ℤ

-- What `decode_get_frame` returns; `mpp_err` is an error other than the end of the time.
pub data Reply : Type 0 where
  timeout : Reply
  mpp_err : ℤ → Reply
  no_frame : Reply
  got_frame : Frame → Reply

-- What the code does with a frame. `info_ready` is MPP_DEC_SET_INFO_CHANGE_READY.
pub data Step : Type 0 where
  info_ready : Step
  show_frame : ℕ → Step
  deinit_frame : ℕ → Step

-- The decoder's own part of `Codec`.
pub record DecoderState : Type 0 where
  pub display : Bool
  pub has_group : Bool

-- What a round leaves: what was done, `ret`, the state and the replies that are left.
pub record Done : Type 0 where
  pub steps : List Step
  pub ret : ℤ
  pub state : DecoderState
  pub left : List Reply

-- `MPP_ERR_TIMEOUT`, -8.
abbrev pub mpp_err_timeout : ℤ
mpp_err_timeout = negsuc 7

-- `ret == MPP_OK`.
abbrev pub is_ok : ℤ → Bool
is_ok ret = is_num ret 0

abbrev pub times : ℕ
times = 5

-- The group of buffers is made, or cleared: `ret`, and whether there is one.
unfoldable pub set_group : DecoderState → Frame → ℤ × Bool
set_group d f =
    if d.has_group
    then (f.group_ret, true)
    else if is_ok f.group_ret
    then (f.ext_ret, true)
    else (f.group_ret, false)

-- The frame that tells of a change; 0 lets the decoder go on.
unfoldable pub info_changed : DecoderState → Frame → ℤ × DecoderState
unfolding set_group
info_changed d f =
    let g = set_group d f in (if is_ok g.0 then f.limit_ret else g.0, record d { has_group = g.1 })

-- `MPP_OK`, as long as there is a frame to use.
unfoldable pub use_frame : DecoderState → Frame → ℤ × List Step × DecoderState
unfolding info_changed
use_frame d f =
    if f.info_change
    then (let r = info_changed d f in (r.0, (if is_ok r.0 then info_ready ∷ [] else []), r.1))
    else (pos 0, (if d.display then show_frame f.id ∷ [] else []), d)

abbrev pub with_steps : List Step → Done → Done
with_steps ss r = record r { steps = ss ++ r.steps }

-- The inner loop, with `t` tries left. A frame whose group fails is not released.
unfoldable pub get_frames : ℕ → DecoderState → List Reply → Option Done
unfolding use_frame
get_frames t d [] = none
get_frames zero d (timeout ∷ rs) =
    some (record { steps = []; ret = mpp_err_timeout; state = d; left = rs })
get_frames (suc t) d (timeout ∷ rs) = get_frames t d rs
get_frames t d (mpp_err e ∷ rs) = some (record { steps = []; ret = e; state = d; left = rs })
get_frames t d (no_frame ∷ rs) = some (record { steps = []; ret = pos 0; state = d; left = rs })
get_frames t d (got_frame f ∷ rs) =
    let u = use_frame d f in
    let used = u.1 ++ (deinit_frame f.id ∷ []) in
    let rest = get_frames t u.2 rs in
    if is_ok u.0
    then if f.eos
      then some (record { steps = used; ret = pos 0; state = u.2; left = rs })
      else Option.map (with_steps used) rest
    else some (record { steps = u.1; ret = u.0; state = u.2; left = rs })

-- The outer loop: until a put succeeds, each round puts the packet and gets frames.
unfoldable pub decode_one_pkt : DecoderState → List ℤ → List Reply → Option Done
decode_one_pkt d [] rs = none
decode_one_pkt d (put ∷ puts) rs = Option.bind (get_frames times d rs) (λ r.
    let rest = decode_one_pkt r.state puts r.left in
    if is_ok put then some r else Option.map (with_steps r.steps) rest)
