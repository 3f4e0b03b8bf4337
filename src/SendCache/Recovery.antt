-- ===== src/SendCache/Recovery.antt =====
-- What is requested again, from the sender's side.
use rv_receive.Base.{
  ℕ, ◌*◌, ◌≤◌, ◌<◌, ◌≡◌, ap, inl, inr, true, false, not, ◌&&◌, ◌||◌, some, List, arith, ltb, ◌==◌,
  Bool-cases, length, take,
}
use rv_receive.Base.Int.{ℤ}
use rv_receive.Message.{Packet, maxsize_sockpackage}
use rv_receive.Mask.{Masks, is_slice_mask, request_masks}
use rv_receive.Mask.Laws.{IsMasks, slice_bit, is_slice_mask-request_masks, is_slice_mask-bit}
use rv_receive.Combine.{Combine, is_done}
use rv_receive.Combine.Collect.{Collecting}
use rv_receive.Combine.Reassembly.{has, collect, collect-Collecting, finished, all_there}
use rv_receive.SendCache.{SendCache, slice_count, make_package, send_l}
use rv_receive.SendCache.Slicing.{Accepts}
use rv_receive.SendCache.Count.{slice_count_le, slice_count_lem, send_l-AllAsked}

several : (n z len : ℕ) → z < len → len ≤ n * z → (n == 1) ≡ false
several n z len many enough = elim (Bool-cases (n == 1)) [
  | inl one ↦ absurd (omega (arith, ap (λ k. k * z) {x = n} {y = 1} (ground (arith, one))))
  | inr other ↦ other
]

module _ (n i : ℕ) (masks : Masks) (ps : List Packet) (v : IsMasks masks) where
  requested :
      i < 256
      → i < n
      → (n == 1) ≡ false
      → has i ps ≡ (ltb i n && ((n == 1) || is_slice_mask i (some (request_masks masks))))
      → has i ps ≡ not (slice_bit i masks == 1)
  requested below h more e =
      ground
        (arith, e, h, more, is_slice_mask-request_masks i v below, is_slice_mask-bit i masks below)

  only :
      n ≤ 255
      → has i ps ≡ (ltb i n && ((n == 1) || is_slice_mask i (some (request_masks masks))))
      → (n == 1) ≡ false
      → has i ps ≡ true
      → is_slice_mask i (some masks) ≡ false
  only le e more h =
      let inside : i < n = ground (arith, e, h) in
      let flip = is_slice_mask-request_masks i v (omega (arith, inside, le)) in
      ground (arith, e, h, more, flip)

-- While a receiver collects the message of a kept packet of 2 to 255 slices, sending those that its
-- masks request, over a socket that takes them, completes the packet: none is missing then, and the
-- data are the message. Only slices that are missing are sent.
pub send_l-recovers :
    (sent : ℕ → ℤ) (s : SendCache) (type now slice_size : ℕ) (msg : List ℕ) (c : Combine)
    → Accepts sent
    → 0 < slice_size
    → slice_size ≤ maxsize_sockpackage
    → slice_size < length msg
    → length msg ≤ 255 * slice_size
    → Collecting s.seq (slice_count (length msg) slice_size) slice_size msg c
    → (r : List Packet × ℤ) × (c' : Combine) × (send_l sent slice_size
          (make_package s type msg slice_size now)
          (some (request_masks c.slices_mask))
        ≡ some r)
      × ((i : ℕ) → has i r.0 ≡ true → is_slice_mask i (some c.slices_mask) ≡ false)
      × (collect c r.0 ≡ some c')
      × (is_done c' ≡ true)
      × (c'.pack.data_size ≡ length msg)
      × (take (length msg) c'.pack.body ≡ msg)
send_l-recovers sent s type now slice_size msg c ok pos_z small many few v =
    let n = slice_count (length msg) slice_size in
    let masks = some (request_masks c.slices_mask) in
    let (r, e, (sl, hs, up)) =
      send_l-AllAsked s type now slice_size msg sent masks ok pos_z small few in
    let count = slice_count_lem (length msg) slice_size pos_z (omega arith) in
    let le = slice_count_le (length msg) slice_size pos_z 255 (omega arith) few in
    let more : (n == 1) ≡ false = several n slice_size (length msg) many count.0 in
    let (c', e', v', adds) = collect-Collecting {n = n} (omega (arith, le)) count.0 r.0 v sl in
    let missing : (i : ℕ) → i < n → has i r.0 ≡ not (slice_bit i c.slices_mask == 1) =
      λ i h. requested n i c.slices_mask r.0 v.masks (omega (arith, le, h)) h more (hs i) in
    let done =
      all_there {n = n} (omega (arith, le)) count.0 v'
        (λ i h. ground (arith, adds i, missing i h)) in
    let f = finished {n = n} (omega (arith, le)) count.0 v' done in
    (r, c', e, (λ i h. only n i c.slices_mask r.0 v.masks le (hs i) more h), e', done, f.0, f.1)
