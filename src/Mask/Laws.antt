-- ===== src/Mask/Laws.antt =====
-- The masks as a set of slice numbers.
use Prim.Native.Nat.{bit_and, bit_or}
use native.Mathlib.Nat.{pow-suc}
use rv_receive.Base.{
  ℕ, zero, suc, ◌-◌, ◌*◌, ◌/◌, ◌%◌, ◌^◌, ◌≤◌, ◌<◌, ◌≡◌, refl, sym, ap, ◌∙◌, inl, inr, not, ◌||◌,
  some, List, [], ◌∷◌, map, arith, ◌==◌, if◌then◌else◌, ==_iff, Bool-cases, length, get_or, set,
  length-set, get_or-set_self, get_or-set_ne,
}
use rv_receive.Base.Bits.{bit, bit-le-one, bit_and-bit, bit-bit_or, bit_or-lt, bit-complement}
use rv_receive.Mask.{Masks, add_slice_mask, is_slice_mask, no_masks, request_masks}

-- Every word is below 2 ^ 32.
abbrev pub Words : List ℕ → Type 0
Words [] = Unit {0}
Words (w ∷ ws) = (w < 2 ^ 32) × Words ws

pub record IsMasks (masks : Masks) : Type 0 where
  pub eight : length masks ≡ 8
  pub words : Words masks

-- The bit of a slice.
abbrev pub slice_bit : ℕ → Masks → ℕ
slice_bit slice masks = bit (get_or masks (slice / 32) 0) (slice % 32)

pow_pos : (b : ℕ) → 0 < 2 ^ b
pow_pos zero = omega arith
pow_pos (suc b) = omega (arith, pow-suc 2 b, pow_pos b)

nonzero : (x p : ℕ) → x ≤ 1 → 0 < p → not (x * p == 0) ≡ (x == 1)
nonzero zero p h l = ground arith
nonzero (suc zero) p h l = ground arith
nonzero (suc (suc x)) p h l = absurd (omega arith)

pub is_slice_mask-bit :
    (slice : ℕ) (masks : Masks)
    → slice < 256
    → is_slice_mask slice (some masks) ≡ (slice_bit slice masks == 1)
unfolding is_slice_mask
is_slice_mask-bit slice masks h =
    looked_up
    ∙ ap (λ x. not (x == 0)) (bit_and-bit word (slice % 32))
    ∙ nonzero (bit word (slice % 32)) (2 ^ (slice % 32)) (bit-le-one word (slice % 32))
        (pow_pos (slice % 32))
  where
    word : ℕ
    word = get_or masks (slice / 32) 0

    looked_up : is_slice_mask slice (some masks) ≡ not (bit_and word (2 ^ (slice % 32)) == 0)
    looked_up = ground arith

pub slice_bit-add_slice_mask :
    (s t : ℕ) (masks : Masks)
    → s < 256
    → length masks ≡ 8
    → slice_bit t (add_slice_mask s masks) ≡ (if s == t then 1 else slice_bit t masks)
unfolding add_slice_mask
slice_bit-add_slice_mask s t masks h e = elim (Bool-cases (s / 32 == t / 32)) [
  | inl same ↦
      let e' : s / 32 ≡ t / 32 = (==_iff (s / 32) (t / 32)).0 same in
      ap (λ i. bit (get_or written i 0) (t % 32)) (sym e')
      ∙ ap (λ x. bit x (t % 32)) (get_or-set_self masks (s / 32) word 0 (omega (arith, e)))
      ∙ bit-bit_or (get_or masks (s / 32) 0) (s % 32) (t % 32)
      ∙ rw e' (ground arith)
  | inr other ↦
      ap (λ x. bit x (t % 32)) (get_or-set_ne masks (s / 32) (t / 32) word 0 (ground arith))
      ∙ ground arith
]
  where
    word : ℕ
    word = bit_or (get_or masks (s / 32) 0) (2 ^ (s % 32))

    written : List ℕ
    written = set masks (s / 32) word

-- Adding a slice adds that slice and no other.
pub is_slice_mask-add_slice_mask :
    (s t : ℕ) (masks : Masks)
    → s < 256
    → t < 256
    → length masks ≡ 8
    → is_slice_mask t (some (add_slice_mask s masks)) ≡ ((s == t) || is_slice_mask t (some masks))
is_slice_mask-add_slice_mask s t masks hs ht e =
    is_slice_mask-bit t (add_slice_mask s masks) ht
    ∙ ap (λ x. x == 1) (slice_bit-add_slice_mask s t masks hs e)
    ∙ either (slice_bit t masks)
    ∙ ap (λ b. (s == t) || b) (sym (is_slice_mask-bit t masks ht))
  where
    either : (x : ℕ) → ((if s == t then 1 else x) == 1) ≡ ((s == t) || (x == 1))
    either x = ground arith

Words-set : (ws : List ℕ) (i w : ℕ) → Words ws → w < 2 ^ 32 → Words (set ws i w)
Words-set [] i w h l = tt
Words-set (x ∷ ws) zero w h l = (l, h.1)
Words-set (x ∷ ws) (suc i) w h l = (h.0, Words-set ws i w h.1 l)

Words-get_or : (ws : List ℕ) (i : ℕ) → Words ws → get_or ws i 0 < 2 ^ 32
Words-get_or [] i h = omega arith
Words-get_or (x ∷ ws) zero h = h.0
Words-get_or (x ∷ ws) (suc i) h = Words-get_or ws i h.1

pub add_slice_mask-IsMasks :
    (s : ℕ) {masks : Masks} → IsMasks masks → IsMasks (add_slice_mask s masks)
unfolding add_slice_mask
add_slice_mask-IsMasks s {masks} v = record {
  eight = length-set masks (s / 32) _ ∙ v.eight;
  words =
      Words-set masks (s / 32) _ v.words
        (bit_or-lt _ (s % 32) 32 (omega arith) (Words-get_or masks (s / 32) v.words));
}

pub no_masks-IsMasks : IsMasks no_masks
no_masks-IsMasks = record { eight = refl; words = omega arith }

get_or-map :
    (ws : List ℕ) (i : ℕ)
    → i < length ws
    → get_or (map (λ w. 2 ^ 32 - 1 - w) ws) i 0 ≡ 2 ^ 32 - 1 - get_or ws i 0
get_or-map [] i h = elim h [ ]
get_or-map (x ∷ ws) zero h = refl
get_or-map (x ∷ ws) (suc i) h = get_or-map ws i (omega arith)

-- The masks to request ask for exactly the slices that are not there.
pub is_slice_mask-request_masks :
    (s : ℕ) {masks : Masks}
    → IsMasks masks
    → s < 256
    → is_slice_mask s (some (request_masks masks)) ≡ not (is_slice_mask s (some masks))
unfolding request_masks
is_slice_mask-request_masks s {masks} v h =
    is_slice_mask-bit s (request_masks masks) h
    ∙ ap (λ x. bit x (s % 32) == 1) (get_or-map masks (s / 32) (omega (arith, v.eight)))
    ∙ ap (λ x. x == 1)
        (bit-complement 32 word (s % 32) (omega arith) (Words-get_or masks (s / 32) v.words))
    ∙ flipped (bit word (s % 32)) (bit-le-one word (s % 32))
    ∙ ap not (sym (is_slice_mask-bit s masks h))
  where
    word : ℕ
    word = get_or masks (s / 32) 0

    flipped : (x : ℕ) → x ≤ 1 → (1 - x == 1) ≡ not (x == 1)
    flipped x h = ground arith
