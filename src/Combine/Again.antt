-- ===== src/Combine/Again.antt =====
-- A packet in one slice put in again after `ResetData`, which leaves the size as it is.
use rv_receive.Base.{
  ◌+◌, ◌*◌, ◌≤◌, ◌≡◌, refl, true, false, some, arith, length, take, Option-cases, inl, inr,
}
use rv_receive.Message.{Packet}
use rv_receive.Mask.{no_masks, is_slice_mask}
use rv_receive.Combine.{
  Combine, is_done, put_package, reset_data, count_slice, store_slice, count_new, terminate,
}
use rv_receive.Combine.Copy.{length-copy_to}

fresh_mask : is_slice_mask 0 (some no_masks) ≡ false
unfolding is_slice_mask
fresh_mask = refl

again_stored :
    (c : Combine) (p : Packet)
    → c.recv_packages ≡ 0
    → c.slices_mask ≡ no_masks
    → c.pack.slices ≡ 1
    → p.cur_slice ≡ 0
    → c.pack.data_size + p.data_size + 4 ≤ length c.pack.body
    → (c' : Combine) × (count_slice c p ≡ some c')
      × (is_done c' ≡ true)
      × (c'.pack.data_size ≡ c.pack.data_size + p.data_size)
unfolding count_slice count_new terminate is_done
again_stored c p none_yet no_mask one first room =
    let new : is_slice_mask p.cur_slice (some c.slices_mask) ≡ false =
      rw (first, no_mask) fresh_mask in
    elim (Option-cases (count_slice c p)) [
      | inl fault ↦ ground (arith, new, fault)
      | inr (c', e) ↦ (c', e, ground (arith, new, e), ground (arith, new, e))
    ]

-- The last packet put in again, after the state was made ready for a next one.
pub put_package-reset_data :
    (c : Combine) (p : Packet)
    → c.pack.seq ≡ p.seq
    → c.pack.slices ≡ 1
    → p.slices ≡ 1
    → p.cur_slice ≡ 0
    → c.pack.data_size + p.data_size + 4 ≤ length c.pack.body
    → (c' : Combine) × (put_package (reset_data c) p ≡ some (true, c'))
      × (is_done c' ≡ true)
      × (c'.pack.data_size ≡ c.pack.data_size + p.data_size)
unfolding put_package reset_data store_slice
put_package-reset_data c p same one one' first room =
    let (c', e, done, twice) = again_stored (store_slice (reset_data c) p) p refl refl one first (
      omega (
        arith,
        length-copy_to c.pack.body (p.cur_slice * c.one_pack_size) (take p.data_size p.payload),
      )) in
    (c', ground (arith, e), done, twice)
