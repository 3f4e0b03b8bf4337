-- ===== src/Combine/Put.antt =====
-- `PutPackage` on the slices of one message, in any order and as often as they come.
use mathlib.Core.Option
use rv_receive.Base.{
  ℕ, ◌+◌, ◌*◌, ◌/◌, ◌%◌, ◌≤◌, ◌<◌, ◌≡◌, ◌≢◌, refl, sym, ap, ◌∙◌, inl, inr, true, false, some, List,
  arith, ◌==◌, if◌then◌else◌, ==_iff, Bool-cases, length, get_or,
}
use rv_receive.Base.Bits.{bit-le-one}
use rv_receive.Message.{Packet}
use rv_receive.Mask.{is_slice_mask, add_slice_mask}
use rv_receive.Mask.Laws.{
  slice_bit, is_slice_mask-bit, slice_bit-add_slice_mask, add_slice_mask-IsMasks,
}
use rv_receive.Combine.{Combine, is_done, count_new, count_slice, store_slice, put_package}
use rv_receive.Combine.Sum.{sum_to_update, chunk}
use rv_receive.Combine.Collect.{
  IsSlice, Collecting, terminate-Collecting, put_package_lem, store_slice-Collecting,
  store_slice_new,
}

-- After a slice `s` the slices there are those from before and it.
abbrev pub Adds : ℕ → Combine → Combine → Type 0
Adds s c c' =
    (t : ℕ) → slice_bit t c'.slices_mask ≡ (if s == t then 1 else slice_bit t c.slices_mask)

module _ {seq n one : ℕ} {msg : List ℕ} (few : n ≤ 256) (covers : length msg ≤ n * one)
    {c : Combine} {p : Packet} (v : Collecting seq n one msg c) (s : IsSlice seq n one msg p)
    (new_there : (j : ℕ)
      → j < length msg
      → j / one ≡ p.cur_slice
      → get_or c.pack.body j 0 ≡ get_or msg j 0) where
  added : Adds p.cur_slice c (count_new c p)
  unfolding count_new
  added t =
      slice_bit-add_slice_mask p.cur_slice t c.slices_mask (omega (arith, s.in_range)) v.masks.eight

  count_new-Collecting :
      slice_bit p.cur_slice c.slices_mask ≡ 0 → Collecting seq n one msg (count_new c p)
  unfolding count_new
  count_new-Collecting fresh = record {
    its_seq = v.its_seq;
    its_slices = v.its_slices;
    its_size = v.its_size;
    masks = add_slice_mask-IsMasks p.cur_slice v.masks;
    counted =
        rw
          (sum_to_update n p.cur_slice 1 (λ i. slice_bit i c.slices_mask) _ s.in_range
            (self_bit ∙ ap (λ t. t + 1) (sym fresh)) other_bit)
          (ap (λ t. t + 1) v.counted);
    summed =
        rw
          (sum_to_update n p.cur_slice p.data_size
            (λ i. slice_bit i c.slices_mask * length (chunk msg one i)) _ s.in_range
            (ap (λ b. b * length (chunk msg one p.cur_slice)) self_bit
              ∙ omega (arith, s.sized, ap (λ b. b * length (chunk msg one p.cur_slice)) fresh))
            (λ i ne. ap (λ b. b * length (chunk msg one i)) (other_bit i ne)))
          (ap (λ t. t + p.data_size) v.summed);
    room = v.room;
    there = λ j h b. elim (Bool-cases (p.cur_slice == j / one)) [
      | inl same ↦ new_there j h (sym ((==_iff p.cur_slice (j / one)).0 same))
      | inr other ↦ v.there j h (sym (other_bit (j / one) (ground arith)) ∙ b)
    ];
  }
    where
      self_bit : slice_bit p.cur_slice (add_slice_mask p.cur_slice c.slices_mask) ≡ 1
      self_bit = added p.cur_slice ∙ ground arith

      other_bit :
          (i : ℕ)
          → p.cur_slice ≢ i
          → slice_bit i (add_slice_mask p.cur_slice c.slices_mask) ≡ slice_bit i c.slices_mask
      other_bit i ne = added i ∙ ground arith

  count_slice-Collecting :
      (c' : Combine) × (count_slice c p ≡ some c')
      × Collecting seq n one msg c'
      × Adds p.cur_slice c c'
  unfolding count_slice
  count_slice-Collecting = elim (Bool-cases (is_slice_mask p.cur_slice (some c.slices_mask))) [
    | inl old ↦
        rw old
          (c, refl, v, λ t. ground (arith, set_already old, ap (λ i. slice_bit i c.slices_mask)))
    | inr new ↦ elim (Bool-cases (is_done (count_new c p))) [
      | inl last ↦
          let (c', e, v', same) =
            terminate-Collecting covers (count_new-Collecting (unset new)) last in
          rw (new, last) (c', e, v', λ t. ap (slice_bit t) same ∙ added t)
      | inr more ↦ rw (new, more) (count_new c p, refl, count_new-Collecting (unset new), added)
    ]
  ]
    where
      at :
          is_slice_mask p.cur_slice (some c.slices_mask)
          ≡ (slice_bit p.cur_slice c.slices_mask == 1)
      at = is_slice_mask-bit p.cur_slice c.slices_mask (omega (arith, s.in_range))

      set_already :
          is_slice_mask p.cur_slice (some c.slices_mask) ≡ true
          → slice_bit p.cur_slice c.slices_mask ≡ 1
      set_already h = ground (arith, at)

      unset :
          is_slice_mask p.cur_slice (some c.slices_mask) ≡ false
          → slice_bit p.cur_slice c.slices_mask ≡ 0
      unset h =
          ground
            (arith, at, bit-le-one (get_or c.slices_mask (p.cur_slice / 32) 0) (p.cur_slice % 32))

-- While a message is collected, each of its slices is accepted: its bytes come to their place, it is
-- counted once, and the others stay.
pub put_package-Collecting :
    {seq n one : ℕ} {msg : List ℕ} {c : Combine} {p : Packet}
    → n ≤ 256
    → length msg ≤ n * one
    → Collecting seq n one msg c
    → IsSlice seq n one msg p
    → (c' : Combine) × (put_package c p ≡ some (true, c'))
      × Collecting seq n one msg c'
      × Adds p.cur_slice c c'
unfolding store_slice
put_package-Collecting {c = c} {p = p} few covers v s =
    let (c', e, v', adds) =
      count_slice-Collecting few covers (store_slice-Collecting covers v s) s
        (store_slice_new covers v s) in
    (c', put_package_lem covers v s ∙ ap (Option.map (λ c'. (true, c'))) e, v', adds)
