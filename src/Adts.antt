-- ===== src/Adts.antt =====
-- faad/rv1108_aad.cpp, AAC2PCM::getADTSframe: the next frame of an AAC stream in a buffer. None of the
-- pointers is null, and the place that the frame is copied to is large enough.
pub mod Frames
mod Tests
use Prim.Native.Nat.{bit_and}
use rv_receive.Base.{
  ℕ, ◌+◌, ◌*◌, ◌/◌, ◌^◌, Bool, false, ◌&&◌, List, [], ◌∷◌, ltb, ◌==◌, if◌then◌else◌, length, take,
}

-- The results -1, 1 and 0, the last with the frame.
pub data Search : Type 0 where
  no_header : Search
  incomplete : Search
  found : List ℕ → Search

-- Twelve bits that are set begin a frame.
unfoldable pub is_sync : List ℕ → Bool
is_sync [] = false
is_sync (b₀ ∷ []) = false
is_sync (b₀ ∷ b₁ ∷ bs) = (b₀ == 255) && (bit_and b₁ 240 == 240)

-- The thirteen bits of the length; the parts that the code joins by `|` have no bit in common.
unfoldable pub frame_length : List ℕ → ℕ
frame_length (b₀ ∷ b₁ ∷ b₂ ∷ b₃ ∷ b₄ ∷ b₅ ∷ bs) =
    bit_and b₃ 3 * 2 ^ 11 + b₄ * 2 ^ 3 + bit_and b₅ 224 / 2 ^ 5
frame_length _ = 0

-- The frame at the start of the buffer.
unfoldable pub cut_frame : List ℕ → Search
cut_frame bs =
    if ltb (length bs) (frame_length bs) then incomplete else found (take (frame_length bs) bs)

unfoldable pub get_adts_frame : List ℕ → Search
get_adts_frame [] = no_header
get_adts_frame (b ∷ bs) =
    let rest = get_adts_frame bs in
    if ltb (length (b ∷ bs)) 7
    then no_header
    else if is_sync (b ∷ bs)
    then cut_frame (b ∷ bs)
    else rest
