-- ===== src/SendCache/Slicing.antt =====
-- The slices that `Send_l` makes of a packet: those that the masks ask for, each with its part of
-- the message.
use rv_receive.Base.{
  ℕ, zero, suc, ◌+◌, ◌-◌, ◌*◌, ◌%◌, ◌^◌, ◌≤◌, ◌<◌, ◌≡◌, refl, sym, ap, ◌∙◌, inl, inr, true, false,
  ◌&&◌, Option, some, List, [], ◌∷◌, arith, ltb, leb, ltb→lt, not-ltb→le, Bool-cases, length, take,
  drop, take-length, length-drop, length-take-min, drop-drop, take-take,
}
use rv_receive.Base.Int.{ℤ, pos, pos_part, sub_from, ltb_ℤ}
use rv_receive.Message.{Packet, maxsize_sockpackage}
use rv_receive.Mask.{Masks, is_slice_mask}
use rv_receive.Combine.Collect.{IsSlice}
use rv_receive.Combine.Reassembly.{has, Slices}
use rv_receive.SendCache.{leave_of, slice_package, send_slices}

-- The socket takes every packet.
abbrev pub Accepts : (ℕ → ℤ) → Type 0
Accepts sent = (i : ℕ) → ltb_ℤ (sent i) (pos 0) ≡ false

-- Slice numbers that rise, from `lo` on.
abbrev pub Rising : ℕ → List Packet → Type 0
Rising lo [] = Unit {0}
Rising lo (p ∷ ps) = (lo ≤ p.cur_slice) × Rising (suc p.cur_slice) ps

Rising-mono : (lo lo' : ℕ) (ps : List Packet) → lo' ≤ lo → Rising lo ps → Rising lo' ps
Rising-mono lo lo' [] h r = tt
Rising-mono lo lo' (p ∷ ps) h r = (omega (arith, r.0), r.1)

leave_lem :
    (k slice_size : ℕ) (msg : List ℕ)
    → k < length msg
    → slice_size ≤ maxsize_sockpackage
    → (leave : ℕ) × (leave_of (pos (length msg - k)) slice_size ≡ pos leave)
      × (leave ≤ maxsize_sockpackage)
      × (leave ≡ length (take slice_size (drop k msg)))
      × (take leave (take leave (drop k msg)) ≡ take slice_size (drop k msg))
leave_lem k slice_size msg h small = elim (Bool-cases (ltb (length msg - k) slice_size)) [
  | inl last ↦ (
    length msg - k,
    ground (arith, last),
    ground arith,
    omega (arith, ltb→lt _ _ last, length-take-min slice_size (drop k msg), length-drop k msg),
    take-take (length msg - k) (drop k msg)
        ∙ take-length (drop k msg) (length msg - k) (omega (arith, length-drop k msg))
        ∙ sym (
            take-length (drop k msg) slice_size
              (omega (arith, ltb→lt _ _ last, length-drop k msg))),
  )
  | inr full ↦ (
    slice_size,
    ground (arith, full),
    small,
    omega (arith, not-ltb→le _ _ full, length-take-min slice_size (drop k msg), length-drop k msg),
    take-take slice_size (drop k msg),
  )
]

module _ (pack : Packet) (slice_size n : ℕ) (msg : List ℕ) (its : pack.slices ≡ n) (few : n ≤ 256)
    (small : slice_size ≤ maxsize_sockpackage) where
  slice_package-IsSlice :
      (s : ℕ)
      → s < n
      → s * slice_size < length msg
      → IsSlice pack.seq n slice_size msg (
          slice_package pack slice_size s
            (drop (s * slice_size) msg)
            (pos (length msg - s * slice_size)))
  slice_package-IsSlice s h inside =
      let (leave, is, below, size, bytes) =
        leave_lem (s * slice_size) slice_size msg inside small in
      let same : s % 2 ^ 8 ≡ s = omega (arith, h, few) in
      let whole : leave % 2 ^ 32 ≡ leave = omega (arith, below) in
      rw is (record {
        same_seq = refl;
        same_slices = its;
        in_range = omega (arith, h, few);
        sized = rw (same, whole) size;
        bytes = rw (same, whole) bytes;
      })

  -- From the `s`-th slice on, those that the masks ask for.
  abbrev pub Asked : Option Masks → ℕ → ℕ → List Packet → Type 0
  Asked masks s k ps =
      Slices pack.seq n slice_size msg ps
      × ((i : ℕ) → has i ps ≡ (leb s i && ltb i (s + k) && is_slice_mask i masks))
      × Rising s ps

  fits_buffer :
      (s : ℕ)
      → s * slice_size < length msg
      → ltb maxsize_sockpackage (pos_part (leave_of (pos (length msg - s * slice_size)) slice_size))
        ≡ false
  fits_buffer s inside =
      let l = leave_lem (s * slice_size) slice_size msg inside small in rw l.1 (ground (arith, l.2))

  skipped_slice :
      (masks : Option Masks) (s k : ℕ) (ps : List Packet)
      → is_slice_mask s masks ≡ false
      → Asked masks (s + 1) k ps
      → Asked masks s (suc k) ps
  skipped_slice masks s k ps skip (sl, hs, up) = (
    sl,
    λ i. ground (arith, hs i, skip, ap (λ j. is_slice_mask j masks) {x = s} {y = i}),
    Rising-mono (s + 1) s ps (omega arith) up,
  )

  taken_slice :
      (masks : Option Masks) (s k : ℕ) (p : Packet) (ps : List Packet)
      → p.cur_slice ≡ s
      → IsSlice pack.seq n slice_size msg p
      → is_slice_mask s masks ≡ true
      → Asked masks (s + 1) k ps
      → Asked masks s (suc k) (p ∷ ps)
  taken_slice masks s k p ps cur is asks (sl, hs, up) = (
    (is, sl),
    λ i. ground (arith, cur, hs i, asks, ap (λ j. is_slice_mask j masks) {x = s} {y = i}),
    (omega (arith, cur), Rising-mono (s + 1) (suc p.cur_slice) ps (omega (arith, cur)) up),
  )

  one_more :
      (sent : ℕ → ℤ) (masks : Option Masks) (k s : ℕ) (r : List Packet × ℕ)
      → Accepts sent
      → s < n
      → s * slice_size < length msg
      → send_slices sent pack slice_size masks k
          (s + 1)
          (drop slice_size (drop (s * slice_size) msg))
          (sub_from (pos (length msg - s * slice_size)) slice_size)
        ≡ some r
      → Asked masks (s + 1) k r.0
      → (r' : List Packet × ℕ) × (send_slices sent pack slice_size masks
            (suc k)
            s
            (drop (s * slice_size) msg)
            (pos (length msg - s * slice_size))
          ≡ some r')
        × Asked masks s (suc k) r'.0
  unfolding send_slices
  one_more sent masks k s r ok h inside rest a =
      let piece =
        slice_package pack slice_size s (drop (s * slice_size) msg)
          (pos (length msg - s * slice_size)) in
      elim (Bool-cases (is_slice_mask s masks)) [
        | inl asks ↦ (
          (piece ∷ r.0, pos_part (sent s) + r.1),
          rw (asks, fits_buffer s inside, ok s, rest) refl,
          taken_slice masks s k piece r.0 (omega (arith, h, few)) (slice_package-IsSlice s h inside)
              asks a,
        )
        | inr skip ↦ (r, rw (skip, rest) refl, skipped_slice masks s k r.0 skip a)
      ]

  next_place : (s : ℕ) → (s + 1) * slice_size ≡ s * slice_size + slice_size
  next_place s = grind arith

  later_place : (s k : ℕ) → (s + 1) * slice_size ≤ (s + suc k) * slice_size
  later_place s k = grind arith

  moved :
      (sent : ℕ → ℤ) (masks : Option Masks) (k s : ℕ)
      → (s + 1) * slice_size < length msg
      → send_slices sent pack slice_size masks k
          (s + 1)
          (drop slice_size (drop (s * slice_size) msg))
          (sub_from (pos (length msg - s * slice_size)) slice_size)
        ≡ send_slices sent pack slice_size masks k
            (s + 1)
            (drop ((s + 1) * slice_size) msg)
            (pos (length msg - (s + 1) * slice_size))
  moved sent masks k s inside =
      let len : sub_from (pos (length msg - s * slice_size)) slice_size
          ≡ pos (length msg - (s + 1) * slice_size) =
        ground (arith, next_place s, inside) in
      rw (len, next_place s, drop-drop (s * slice_size) slice_size msg) refl

  pub send_slices-Asked :
      (sent : ℕ → ℤ) (masks : Option Masks) (k s : ℕ)
      → Accepts sent
      → s + suc k ≤ n
      → (s + k) * slice_size < length msg
      → (r : List Packet × ℕ) × (send_slices sent pack slice_size masks
            (suc k)
            s
            (drop (s * slice_size) msg)
            (pos (length msg - s * slice_size))
          ≡ some r)
        × Asked masks s (suc k) r.0
  unfolding send_slices
  send_slices-Asked sent masks zero s ok h inside =
      one_more sent masks zero s ([], 0) ok (omega arith)
        (omega (arith, inside, ap (λ t. t * slice_size) {x = s + 0} {y = s} (omega arith))) refl
        (tt, (λ i. ground arith), tt)
  send_slices-Asked sent masks (suc k) s ok h inside =
      let next = send_slices-Asked sent masks k (s + 1) ok (omega arith) (
        omega (
          arith,
          inside,
          ap (λ t. t * slice_size) {x = s + suc k} {y = s + 1 + k} (omega arith),
        )) in
      let (r, e, a) = next in
      one_more sent masks (suc k) s r ok (omega arith)
        (omega (arith, inside, later_place s k, next_place s))
        (moved sent masks (suc k) s (omega (arith, inside, later_place s k)) ∙ e) a
