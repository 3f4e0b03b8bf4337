-- ===== src/Mask.antt =====
-- The masks of socket/CombinePackage.cpp: one bit for each of 256 slices, in eight 32-bit words.
pub mod Laws
use Prim.Native.Nat.{bit_and, bit_or}
use rv_receive.Base.{
  ℕ, ◌-◌, ◌/◌, ◌%◌, ◌^◌, Bool, true, false, not, Option, none, some, List, map, leb, ◌==◌,
  if◌then◌else◌, get_or, set, replicate,
}

-- `uint32_t mSlicesMask[8]`.
abbrev pub Masks : Type 0
Masks = List ℕ

-- `masks[idx] |= (1 << bit)`; the bit is below 32, and the word is unsigned.
unfoldable pub add_slice_mask : ℕ → Masks → Masks
add_slice_mask slice masks =
    set masks (slice / 32) (bit_or (get_or masks (slice / 32) 0) (2 ^ (slice % 32)))

-- No masks at all (a null pointer) is every slice.
unfoldable pub is_slice_mask : ℕ → Option Masks → Bool
is_slice_mask slice none = true
is_slice_mask slice (some masks) =
    if leb 8 (slice / 32)
    then false
    else not (bit_and (get_or masks (slice / 32) 0) (2 ^ (slice % 32)) == 0)

abbrev pub no_masks : Masks
no_masks = replicate 8 0

-- `~w` of a 32-bit word, for each of the eight.
unfoldable pub request_masks : Masks → Masks
request_masks = map (λ w. 2 ^ 32 - 1 - w)
