-- ===== src/SendCache/Count.antt =====
-- The number of slices, and the packet that `AddPackageData` makes, sent.
use native.Mathlib.Nat.{div-mul-le_self, lt-div-mul-add, div-lt_iff_lt-mul}
use rv_receive.Base.{
  ℕ, suc, ◌+◌, ◌-◌, ◌*◌, ◌/◌, ◌≤◌, ◌<◌, ◌≡◌, ◌≢◌, refl, sym, ap, ◌∙◌, inl, inr, false, ◌&&◌, ◌||◌,
  Option, some, List, [], ◌∷◌, arith, ltb, ◌==◌, Bool-cases, length, take, drop, take-length,
}
use rv_receive.Base.Int.{ℤ, pos}
use rv_receive.Message.{Packet, maxsize_sockpackage}
use rv_receive.Mask.{Masks, is_slice_mask}
use rv_receive.Combine.Sum.{length-chunk}
use rv_receive.Combine.Collect.{IsSlice}
use rv_receive.Combine.Reassembly.{has, Slices}
use rv_receive.SendCache.{SendCache, slice_count, make_package, send_slices, send_l}
use rv_receive.SendCache.Slicing.{Accepts, Rising, send_slices-Asked}

module _ (len z : ℕ) (pos_z : 0 < z) where
  pub slice_count_one : len ≡ 0 → slice_count len z ≡ 1
  slice_count_one e = ground (arith, e)

  pub slice_count_lem :
      0 < len
      → (len ≤ slice_count len z * z)
        × (0 < slice_count len z)
        × ((slice_count len z - 1) * z < len)
  slice_count_lem some_bytes =
      let q = (len + z - 1) / z in
      let is : slice_count len z ≡ q = ground arith in
      let above = lt-div-mul-add {a = len + z - 1} pos_z in
      let below = div-mul-le_self (len + z - 1) z in
      let some_slices : 0 < q = grind (arith, above) in
      let split : (q - 1) * z + z ≡ q * z = grind arith in
      rw is (omega (arith, above), some_slices, omega (arith, below, split))

  pub slice_count_le : (k : ℕ) → 0 < k → len ≤ k * z → slice_count len z ≤ k
  slice_count_le k pos_k h =
      let fits = (div-lt_iff_lt-mul {k = z} {x = len + z - 1} {y = k + 1} pos_z).1 in
      let split : (k + 1) * z ≡ k * z + z = grind arith in ground (arith, fits, split)

-- The slices of a message, of its first so many numbers those that are asked for, and a single slice
-- always.
abbrev pub AllAsked : ℕ → ℕ → ℕ → List ℕ → Option Masks → List Packet → Type 0
AllAsked seq n slice_size msg masks ps =
    Slices seq n slice_size msg ps
    × ((i : ℕ) → has i ps ≡ (ltb i n && ((n == 1) || is_slice_mask i masks)))
    × Rising 0 ps

module _ (sent : ℕ → ℤ) (pack : Packet) (z : ℕ) (masks : Option Masks) where
  same_slices_sent :
      {a n l len : ℕ} {d msg : List ℕ}
      → a ≡ n
      → d ≡ msg
      → l ≡ len
      → send_slices sent pack z masks a 0 d (pos l)
        ≡ send_slices sent pack z masks n 0 msg (pos len)
  same_slices_sent e e' e'' = rw (e, e', e'') refl

  send_l_many :
      {n : ℕ} {r : List Packet × ℕ}
      → pack.slices ≡ n
      → 1 < n
      → send_slices sent pack z masks n 0 pack.payload (pos pack.data_size) ≡ some r
      → send_l sent z pack masks ≡ some (r.0, pos r.1)
  unfolding send_l
  send_l_many its more e = rw its (ground (arith, more, e))

module _ (s : SendCache) (type now slice_size : ℕ) (msg : List ℕ) where
  abbrev pub count : ℕ
  count = slice_count (length msg) slice_size

  abbrev pub made : Packet
  made = make_package s type msg slice_size now

  fits_one : 0 < slice_size → count ≡ 1 → length msg ≤ slice_size
  fits_one pos_z one = elim (Bool-cases (length msg == 0)) [
    | inl empty ↦ ground (arith, empty)
    | inr some_bytes ↦
        let enough = slice_count_lem (length msg) slice_size pos_z (ground (arith, some_bytes)) in
        omega (arith, enough.0, ap (λ c. c * slice_size) {x = count} {y = 1} one)
  ]

  made-IsSlice : 0 < slice_size → count ≡ 1 → IsSlice s.seq count slice_size msg made
  unfolding make_package
  made-IsSlice pos_z one = record {
    same_seq = refl;
    same_slices = omega (arith, one);
    in_range = omega (arith, one);
    sized = omega (arith, length-chunk msg slice_size 0, fits_one pos_z one);
    bytes =
        take-length msg (length msg) (omega arith)
        ∙ sym (take-length msg slice_size (fits_one pos_z one))
        ∙ ap (λ k. take slice_size (drop k msg)) {x = 0} {y = 0 * slice_size} (omega arith);
  }

  one_slice :
      (sent : ℕ → ℤ) (masks : Option Masks)
      → 0 < slice_size
      → count ≡ 1
      → (r : List Packet × ℤ) × (send_l sent slice_size made masks ≡ some r)
        × AllAsked s.seq count slice_size msg masks r.0
  unfolding send_l make_package
  one_slice sent masks pos_z one = (
    (made ∷ [], sent 0),
    ground (arith, one),
    ((made-IsSlice pos_z one, tt), (λ i. ground (arith, one)), (omega arith, tt)),
  )

  whole_message :
      (sent : ℕ → ℤ) (masks : Option Masks)
      → Accepts sent
      → slice_size ≤ maxsize_sockpackage
      → count ≤ 255
      → 0 < count
      → (count - 1) * slice_size < length msg
      → (r : List Packet × ℕ) × (send_slices sent made slice_size masks count 0 msg
            (pos (length msg))
          ≡ some r)
        × Slices s.seq count slice_size msg r.0
        × ((i : ℕ) → has i r.0 ≡ (ltb i count && is_slice_mask i masks))
        × Rising 0 r.0
  unfolding make_package
  whole_message sent masks ok small few some_slices inside =
      let its : made.slices ≡ count = omega (arith, few) in
      let last : (0 + (count - 1)) * slice_size < length msg = omega (
        arith,
        inside,
        ap (λ c. c * slice_size) {x = 0 + (count - 1)} {y = count - 1} (omega arith),
      ) in
      let (r, e, (sl, hs, up)) =
        send_slices-Asked made slice_size count msg its (omega (arith, few)) small sent masks
          (count - 1) 0 ok (omega (arith, some_slices)) last in
      (
        r,
        same_slices_sent sent made slice_size masks {a = count} {n = suc (count - 1)}
              {l = length msg} {len = length msg - 0 * slice_size} {d = msg}
              {msg = drop (0 * slice_size) msg} (omega (arith, some_slices))
              (ap (λ k. drop k msg) {x = 0} {y = 0 * slice_size} (omega arith)) (omega arith)
            ∙ e,
        sl,
        (λ i. ground (arith, hs i, some_slices)),
        up,
      )

  more_slices :
      (sent : ℕ → ℤ) (masks : Option Masks)
      → Accepts sent
      → 0 < slice_size
      → slice_size ≤ maxsize_sockpackage
      → length msg ≤ 255 * slice_size
      → 1 < count
      → (r : List Packet × ℤ) × (send_l sent slice_size made masks ≡ some r)
        × AllAsked s.seq count slice_size msg masks r.0
  unfolding send_l make_package
  more_slices sent masks ok pos_z small few more =
      let some_bytes : 0 < length msg = elim (Bool-cases (length msg == 0)) [
        | inl empty ↦ absurd (
            omega
              (arith, slice_count_one (length msg) slice_size pos_z (ground (arith, empty)), more))
        | inr e ↦ ground (arith, e)
      ] in
      let c = slice_count_lem (length msg) slice_size pos_z some_bytes in
      let le = slice_count_le (length msg) slice_size pos_z 255 (omega arith) few in
      let (r, e, sl, hs, up) = whole_message sent masks ok small le c.1 c.2 in
      let its : made.slices ≡ count = omega (arith, le) in
      (
        (r.0, pos r.1),
        send_l_many sent made slice_size masks its more e,
        (sl, (λ i. ground (arith, hs i, more)), up),
      )

  other_count : (count == 1) ≡ false → count ≢ 1
  other_count h = ground (arith, h)

  pub some_count : 0 < slice_size → 0 < count
  some_count pos_z = elim (Bool-cases (length msg == 0)) [
    | inl empty ↦
        omega (arith, slice_count_one (length msg) slice_size pos_z (ground (arith, empty)))
    | inr e ↦ (slice_count_lem (length msg) slice_size pos_z (ground (arith, e))).1
  ]

  -- What `Send_l` sends of a packet that `AddPackageData` makes of at most 255 slices of at most
  -- 256 KiB: the slices that the masks ask for, a single slice always, each with its part of the
  -- message, and in ascending order.
  pub send_l-AllAsked :
      (sent : ℕ → ℤ) (masks : Option Masks)
      → Accepts sent
      → 0 < slice_size
      → slice_size ≤ maxsize_sockpackage
      → length msg ≤ 255 * slice_size
      → (r : List Packet × ℤ) × (send_l sent slice_size made masks ≡ some r)
        × AllAsked s.seq count slice_size msg masks r.0
  send_l-AllAsked sent masks ok pos_z small few = elim (Bool-cases (count == 1)) [
    | inl one ↦ one_slice sent masks pos_z (ground (arith, one))
    | inr other ↦
        more_slices sent masks ok pos_z small few
          (omega (arith, other_count other, some_count pos_z))
  ]
