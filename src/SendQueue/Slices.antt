-- ===== src/SendQueue/Slices.antt =====
-- The slices of an element: all of it, in ascending order.
use rv_receive.Base.{
  ℕ, zero, suc, ◌+◌, ◌-◌, ◌*◌, ◌%◌, ◌^◌, ◌≤◌, ◌<◌, ◌≡◌, refl, sym, ap, ◌∙◌, inl, inr, true, ◌&&◌,
  List, [], ◌∷◌, arith, ltb, leb, Bool-cases, length, take, drop, take-length, length-drop, min,
  length-take-min, drop-drop, take-take,
}
use mathlib.Core.Path.{subst}
use rv_receive.Base.Int.{ℤ, pos, ltb_ℤ}
use rv_receive.Message.{Packet, maxsize_sendsockpackage}
use rv_receive.Combine.Collect.{IsSlice}
use rv_receive.Combine.Reassembly.{has, Slices}
use rv_receive.SendCache.Slicing.{Rising}
use rv_receive.SendQueue.{send_leave, send_loop}

-- `send` takes every packet.
abbrev pub Takes : (ℕ → ℤ) → Type 0
Takes sent = (i : ℕ) → ltb_ℤ (pos 0) (sent i) ≡ true

abbrev pub z : ℕ
z = maxsize_sendsockpackage

send_leave-min :
    (len : ℕ)
    → (send_leave len ≤ len)
      × (send_leave len ≤ z)
      × (z ≤ len → send_leave len ≡ z)
      × (len ≤ z → send_leave len ≡ len)
send_leave-min len = (ground arith, ground arith, (λ h. ground (arith, h)), λ h. ground (arith, h))

take_leave : (d : List ℕ) → take (send_leave (length d)) d ≡ take z d
take_leave d = elim (Bool-cases (leb z (length d))) [
  | inl full ↦ ap (λ k. take k d) ((send_leave-min (length d)).2 (ground (arith, full)))
  | inr last ↦
      ap (λ k. take k d) ((send_leave-min (length d)).3 (ground (arith, last)))
      ∙ take-length d (length d) (omega arith)
      ∙ sym (take-length d z (ground (arith, last)))
]

leave_min : (n : ℕ) → send_leave n ≡ min z n
leave_min n = ground arith

leave_length : (d : List ℕ) → send_leave (length d) ≡ length (take z d)
leave_length d = leave_min (length d) ∙ sym (length-take-min z d)

loop_cons :
    (sent : ℕ → ℤ) (pack : Packet) (n s : ℕ) (d : List ℕ) (len : ℕ)
    → Takes sent
    → send_loop sent pack (suc n) s d len
      ≡ record pack {
        cur_slice = s % 2 ^ 8;
        data_size = send_leave len;
        payload = take (send_leave len) d;
      }
        ∷ send_loop sent pack n (s + 1) (drop (send_leave len) d) (len - send_leave len)
unfolding send_loop
loop_cons sent pack n s d len takes = rw (takes s) refl

loop_nil :
    (sent : ℕ → ℤ) (pack : Packet) (s : ℕ) (d : List ℕ) (len : ℕ)
    → send_loop sent pack zero s d len ≡ []
unfolding send_loop
loop_nil sent pack s d len = refl

pub same_loop :
    (sent : ℕ → ℤ) (pack : Packet) (n s : ℕ) {d d' : List ℕ} {len len' : ℕ}
    → d ≡ d'
    → len ≡ len'
    → send_loop sent pack n s d len ≡ send_loop sent pack n s d' len'
same_loop sent pack n s e e' = rw (e, e') refl

module _ (sent : ℕ → ℤ) (takes : Takes sent) (pack : Packet) (n : ℕ) (msg : List ℕ)
    (its : pack.slices ≡ n) (few : n ≤ 256) where
  abbrev piece : ℕ → List ℕ → Packet
  piece s d = record pack {
    cur_slice = s % 2 ^ 8;
    data_size = send_leave (length d);
    payload = take (send_leave (length d)) d;
  }

  piece-IsSlice : (s : ℕ) → s < n → IsSlice pack.seq n z msg (piece s (drop (s * z) msg))
  piece-IsSlice s h =
      let d = drop (s * z) msg in
      let same : s % 2 ^ 8 ≡ s = omega (arith, h, few) in
      record {
        same_seq = refl;
        same_slices = its;
        in_range = omega (arith, h, few);
        sized = rw same (leave_length d);
        bytes = rw same (take-take (send_leave (length d)) d ∙ take_leave d);
      }

  abbrev pub From : ℕ → ℕ → List Packet → Type 0
  From s k ps =
      Slices pack.seq n z msg ps × ((i : ℕ) → has i ps ≡ (leb s i && ltb i (s + k))) × Rising s ps

  one_before :
      (s k : ℕ) (p : Packet) (ps : List Packet)
      → p.cur_slice ≡ s
      → IsSlice pack.seq n z msg p
      → From (s + 1) k ps
      → From s (suc k) (p ∷ ps)
  one_before s k p ps cur is (sl, hs, up) = (
    (is, sl),
    (λ i. ground (arith, cur, hs i)),
    (omega (arith, cur), subst (λ lo. Rising lo ps) (omega (arith, cur)) up),
  )

  pub send_loop-From :
      (k s : ℕ)
      → s + suc k ≤ n
      → (s + k) * z ≤ length msg
      → From s
          (suc k)
          (send_loop sent pack (suc k) s (drop (s * z) msg) (length (drop (s * z) msg)))
  send_loop-From zero s h inside =
      let d = drop (s * z) msg in
      rw
        (
          loop_cons sent pack zero s d (length d) takes,
          loop_nil sent pack (s + 1) (drop (send_leave (length d)) d)
              (length d - send_leave (length d)),
        )
        (one_before s zero (piece s d) [] (omega (arith, h, few))
          (piece-IsSlice s (omega (arith, h))) (tt, (λ i. ground arith), tt))
  send_loop-From (suc k) s h inside =
      let d = drop (s * z) msg in
      let full : send_leave (length d) ≡ z =
        (send_leave-min (length d)).2 (omega (arith, inside, length-drop (s * z) msg)) in
      let next : drop (send_leave (length d)) d ≡ drop ((s + 1) * z) msg =
        ap (λ j. drop j d) full
        ∙ drop-drop (s * z) z msg
        ∙ ap (λ j. drop j msg) {x = s * z + z} {y = (s + 1) * z} (omega arith) in
      let len : length d - send_leave (length d) ≡ length (drop ((s + 1) * z) msg) =
        omega (arith, full, length-drop (s * z) msg, length-drop ((s + 1) * z) msg) in
      let rest = send_loop-From k (s + 1) (omega (arith, h)) (omega (arith, inside)) in
      rw
        (
          loop_cons sent pack (suc k) s d (length d) takes,
          same_loop sent pack (suc k) (s + 1) next len,
        )
        (one_before s (suc k) (piece s d) _ (omega (arith, h, few))
          (piece-IsSlice s (omega (arith, h))) rest)
