-- ===== src/Combine/Reassembly.antt =====
-- The slices of one message, collected from the first that comes: order and repetition do not
-- matter, and the packet is done exactly when every slice has come.
use mathlib.Core.Option
use native.Mathlib.Nat.{div-add-mod'}
use rv_receive.Base.{
  ℕ, zero, suc, ◌+◌, ◌*◌, ◌/◌, ◌%◌, ◌≤◌, ◌<◌, ◌≡◌, ◌↔◌, refl, sym, ap, ◌∙◌, Bool, true, false, ◌||◌,
  Option, some, List, [], ◌∷◌, arith, tests, ◌==◌, if◌then◌else◌, length, get_or, take, replicate,
}
use rv_receive.Base.Bits.{bit}
use rv_receive.Message.{Packet}
use rv_receive.Mask.{no_masks}
use rv_receive.Mask.Laws.{slice_bit, no_masks-IsMasks}
use rv_receive.Combine.{Combine, PackData, is_done, put_package, start_package, init_package}
use rv_receive.Combine.Copy.{take-eq}
use rv_receive.Combine.Sum.{sum_to_ones, sum_to_zero, chunk}
use rv_receive.Combine.Collect.{IsSlice, Collecting, whole, whole_size}
use rv_receive.Combine.Put.{put_package-Collecting}

-- A receiver's calls of `PutPackage`.
pub collect : Combine → List Packet → Option Combine
collect c [] = some c
collect c (p ∷ ps) = Option.bind (put_package c p) (λ r. collect r.1 ps)

-- Whether slice `i` is among the packets.
abbrev pub has : ℕ → List Packet → Bool
has i [] = false
has i (p ∷ ps) = (p.cur_slice == i) || has i ps

abbrev pub Slices : ℕ → ℕ → ℕ → List ℕ → List Packet → Type 0
Slices seq n one msg [] = Unit {0}
Slices seq n one msg (p ∷ ps) = IsSlice seq n one msg p × Slices seq n one msg ps

abbrev pub AddsAll : List Packet → Combine → Combine → Type 0
AddsAll ps c c' =
    (t : ℕ) → slice_bit t c'.slices_mask ≡ (if has t ps then 1 else slice_bit t c.slices_mask)

get_or-zeros : (n i : ℕ) → ◌≡◌ {A = ℕ} (get_or (replicate n 0) i 0) 0
get_or-zeros zero i = refl
get_or-zeros (suc n) zero = refl
get_or-zeros (suc n) (suc i) = get_or-zeros n i

bit-zero : (b : ℕ) → bit 0 b ≡ 0
bit-zero zero = refl
bit-zero (suc b) = bit-zero b

pub slice_bit-no_masks : (t : ℕ) → slice_bit t no_masks ≡ 0
slice_bit-no_masks t = ap (λ w. bit w (t % 32)) (get_or-zeros 8 (t / 32)) ∙ bit-zero (t % 32)

slice_below : (j n one : ℕ) → j < n * one → j / one < n
slice_below j n one h = grind (arith, div-add-mod' j one)

module _ {seq n one : ℕ} {msg : List ℕ} (few : n ≤ 256) (covers : length msg ≤ n * one) where
  pub collect-Collecting :
      (ps : List Packet) {c : Combine}
      → Collecting seq n one msg c
      → Slices seq n one msg ps
      → (c' : Combine) × (collect c ps ≡ some c') × Collecting seq n one msg c' × AddsAll ps c c'
  unfolding collect Option.bind
  collect-Collecting [] {c} v s = (c, refl, v, λ t. refl)
  collect-Collecting (p ∷ ps) {c} v s =
      let (c', e, v', adds) = put_package-Collecting few covers v s.0 in
      let (c'', e', v'', rest) = collect-Collecting ps v' s.1 in
      (c'', rw e e', v'', λ t. ground (arith, rest t, adds t))

  pub finished :
      {c : Combine}
      → Collecting seq n one msg c
      → is_done c ≡ true
      → (c.pack.data_size ≡ length msg) × (take (length msg) c.pack.body ≡ msg)
  finished {c} v h = (
    whole_size covers v h,
    take-eq c.pack.body msg (omega (arith, v.room))
        (λ j l. v.there j l (whole covers v h (j / one) (slice_below j n one (omega arith)))),
  )

  pub all_there :
      {c : Combine}
      → Collecting seq n one msg c
      → ((i : ℕ) → i < n → slice_bit i c.slices_mask ≡ 1)
      → is_done c ≡ true
  unfolding is_done
  all_there v h = omega (tests, v.its_slices, v.counted, sum_to_ones n _ h)

pub bits_of_start :
    (new_buffer : ℕ → PackData) (c : Combine) (p : Packet) (one t : ℕ)
    → slice_bit t (start_package new_buffer c p one).slices_mask ≡ 0
unfolding start_package
bits_of_start new_buffer c p one t = slice_bit-no_masks t

module _ (new_buffer : ℕ → PackData) {seq n one : ℕ} {msg : List ℕ} where
  pub start_package-Collecting :
      (c : Combine) {p : Packet}
      → IsSlice seq n one msg p
      → n * one + 4 ≤ length (start_package new_buffer c p one).pack.body
      → Collecting seq n one msg (start_package new_buffer c p one)
  unfolding start_package
  start_package-Collecting c s r = record {
    its_seq = s.same_seq;
    its_slices = s.same_slices;
    its_size = refl;
    masks = no_masks-IsMasks;
    counted = sym (sum_to_zero n _ slice_bit-no_masks);
    summed = sym (
        sum_to_zero n _
          (λ i. ap (λ b. b * length (chunk msg one i)) (slice_bit-no_masks i) ∙ omega arith));
    room = r;
    there = λ j l b. absurd (omega (arith, slice_bit-no_masks (j / one)));
  }

  -- Whatever slices of a message of at most 256 are collected after `InitPackage` on one of them,
  -- in any order and with repetitions, none is lost to a fault: the packet is done exactly when every
  -- slice number has come, and then its data are the message, in full length and from the start of
  -- the buffer. The buffer must have room for the slices and the four bytes of zeros.
  pub init_package-collect :
      (c : Combine) (p : Packet) (ps : List Packet)
      → n ≤ 256
      → length msg ≤ n * one
      → n * one + 4 ≤ length (start_package new_buffer c p one).pack.body
      → Slices seq n one msg (p ∷ ps)
      → (c' : Combine) × (Option.bind (init_package new_buffer c p one) (λ c₁. collect c₁ ps)
          ≡ some c')
        × ((is_done c' ≡ true) ↔ ((i : ℕ) → i < n → has i (p ∷ ps) ≡ true))
        × (is_done c' ≡ true
            → (c'.pack.data_size ≡ length msg) × (take (length msg) c'.pack.body ≡ msg))
  unfolding init_package Option.bind
  init_package-collect c p ps few covers room slices =
      let (c₁, e₁, v₁, adds₁) =
        put_package-Collecting few covers (start_package-Collecting c slices.0 room) slices.0 in
      let (c', e, v, adds) = collect-Collecting few covers ps v₁ slices.1 in
      let bits : (i : ℕ) → slice_bit i c'.slices_mask ≡ (if has i (p ∷ ps) then 1 else 0) =
        λ i. ground (arith, adds i, adds₁ i, bits_of_start new_buffer c p one i) in
      (
        c',
        rw e₁ e,
        (
          λ h i l. ground (arith, bits i, whole covers v h i l),
          λ h. all_there few covers v (λ i l. bits i ∙ rw (h i l)),
        ),
        finished few covers v,
      )
