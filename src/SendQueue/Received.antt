-- ===== src/SendQueue/Received.antt =====
-- An element of the sender's lists, sent and received over TCP.
use mathlib.Core.Path.{subst}
use rv_receive.Base.{
  ℕ, suc, ◌+◌, ◌-◌, ◌*◌, ◌≤◌, ◌<◌, ◌≡◌, ◌≢◌, sym, ap, ◌∙◌, inl, inr, true, false, ◌&&◌, some, List,
  [], ◌∷◌, arith, ltb, leb, ◌==◌, Bool-cases, length, drop,
}
use rv_receive.Base.Int.{ℤ}
use rv_receive.Message.{Packet, maxsize_sendsockpackage}
use rv_receive.Combine.{Combine, PackData}
use rv_receive.Combine.Sum.{length-chunk}
use rv_receive.Combine.Reassembly.{has, Slices}
use rv_receive.Combine.Room.{Allocates}
use rv_receive.SendCache.Slicing.{Rising}
use rv_receive.SendCache.Count.{slice_count_lem, slice_count_le}
use rv_receive.SendQueue.{
  ThreadSendData, SendCacheManager, element, get_send_data, send_slice_count, send_head, send_loop,
  thread_send_data,
}
use rv_receive.SendQueue.Slices.{Takes, From, send_loop-From, z}
use rv_receive.SendQueue.Deliver.{Delivered, comes_first}
use rv_receive.SendQueue.Transfer.{all_handled, narrow, Ready, room_full, room_one}
use rv_receive.Stream.Drain.{handle_all}

module _ (sent : ℕ → ℤ) (takes : Takes sent) (seq type now : ℕ) (msg : List ℕ)
    (fits : length msg ≤ 255 * z) where
  abbrev n : ℕ
  n = send_slice_count (length msg)

  abbrev pack : Packet
  pack = send_head seq (element type msg now)

  n_few : n ≤ 255
  n_few = slice_count_le (length msg) z (omega arith) 255 (omega arith) fits

  -- The slices are enough, and but for the last one full.
  n_lem : (0 < n) × (length msg ≤ n * z) × ((n - 1) * z ≤ length msg)
  n_lem = elim (Bool-cases (length msg == 0)) [
    | inl empty ↦ ground (arith, empty)
    | inr some_bytes ↦
        let c = slice_count_lem (length msg) z (omega arith) (ground (arith, some_bytes)) in
        (c.1, c.0, omega (arith, c.2))
  ]

  its : pack.slices ≡ n
  unfolding send_head
  its = omega (arith, n_few)

  sent_slices :
      From sent takes pack n msg its
        (omega (arith, n_few))
        0
        n
        (send_loop sent pack n 0 msg (length msg))
  sent_slices =
      let l = n_lem in
      let got =
        send_loop-From sent takes pack n msg its (omega (arith, n_few)) (n - 1) 0
          (omega (arith, l.0)) (omega (arith, l.2)) in
      let back : suc (n - 1) ≡ n = omega (arith, l.0) in
      let loop : send_loop sent pack (suc (n - 1)) 0 (drop (0 * z) msg) (length (drop (0 * z) msg))
          ≡ send_loop sent pack n 0 msg (length msg) =
        ap (λ k. send_loop sent pack k 0 msg (length msg)) back in
      (
        subst (Slices pack.seq n z msg) loop got.0,
        (λ i. ap (has i) (sym loop) ∙ got.1 i ∙ ground (arith, back)),
        subst (Rising 0) loop got.2,
      )

  is_one_slice : (n == 1) ≡ true → n ≡ 1
  is_one_slice e = ground (arith, e)

  other_count : (n == 1) ≡ false → n ≢ 1
  other_count e = ground (arith, e)

  same_range : (i : ℕ) → (leb 0 i && ltb i (0 + n)) ≡ (leb 0 i && ltb i n)
  same_range i = ap (λ k. leb 0 i && ltb i k) {x = 0 + n} {y = n} (omega arith)

  one_handled :
      (new_buffer : ℕ → PackData) (c : Combine) (p : Packet) (ps : List Packet)
      → Allocates new_buffer
      → Ready c
      → n ≡ 1
      → Slices seq 1 z msg (p ∷ ps)
      → Rising 0 (p ∷ ps)
      → Delivered seq msg (handle_all new_buffer c (p ∷ ps))
  one_handled new_buffer c p [] allocates ready one sl up =
      let small : length msg ≤ z = omega (arith, n_lem.1, ap (λ k. k * z) {x = n} {y = 1} one) in
      let (s, size) = narrow p small sl.0 in
      let room = room_one new_buffer allocates c ready p (length msg) s.same_slices small in
      all_handled new_buffer seq 1 (length msg) msg (omega arith) (omega arith) p [] c
        ((s, tt), up, λ i. ground (arith, s.in_range)) size room
  one_handled new_buffer c p (p' ∷ ps) allocates ready one sl up =
      absurd (omega (arith, sl.1.0.in_range, up.1.0))

  more_handled :
      (new_buffer : ℕ → PackData) (c : Combine) (p : Packet) (ps : List Packet)
      → Allocates new_buffer
      → Ready c
      → 1 < n
      → Slices seq n z msg (p ∷ ps)
      → Rising 0 (p ∷ ps)
      → ((i : ℕ) → has i (p ∷ ps) ≡ (leb 0 i && ltb i n))
      → Delivered seq msg (handle_all new_buffer c (p ∷ ps))
  more_handled new_buffer c p ps allocates ready more sl up hs =
      let l = n_lem in
      let first =
        comes_first new_buffer seq n z msg (omega (arith, n_few)) l.1 0 p ps (sl, up, hs) in
      let full : z ≤ (n - 1) * z = omega (arith, more) in
      let size : p.data_size ≡ z =
        omega (arith, sl.0.sized, length-chunk msg z p.cur_slice, first, full, l.2) in
      all_handled new_buffer seq n z msg (omega (arith, n_few)) l.1 p ps c (sl, up, hs) size
        (room_full new_buffer allocates c ready p n sl.0.same_slices)

  -- The slices of an element, handled one after the other.
  slices_handled :
      (new_buffer : ℕ → PackData) (c : Combine) (ps : List Packet)
      → Allocates new_buffer
      → Ready c
      → From sent takes pack n msg its (omega (arith, n_few)) 0 n ps
      → Delivered seq msg (handle_all new_buffer c ps)
  unfolding send_head
  slices_handled new_buffer c [] allocates ready (sl, hs, up) = absurd (ground (arith, hs 0, n_lem))
  slices_handled new_buffer c (p ∷ ps) allocates ready (sl, hs, up) = elim (Bool-cases (n == 1)) [
    | inl one ↦
        let is_one : n ≡ 1 = is_one_slice one in
        one_handled new_buffer c p ps allocates ready is_one
          (subst (λ k. Slices seq k z msg (p ∷ ps)) is_one sl) up
    | inr other ↦
        more_handled new_buffer c p ps allocates ready (omega (arith, n_lem.0, other_count other))
          sl up (λ i. hs i ∙ same_range i)
  ]

thread_send_data_lem :
    (sent : ℕ → ℤ) (seq : ℕ) (m : SendCacheManager) {d : ThreadSendData} {m' : SendCacheManager}
    → get_send_data m ≡ (some d, m')
    → (thread_send_data sent seq m).0
      ≡ send_loop sent (send_head seq d) (send_slice_count d.data_size) 0 d.body d.data_size
unfolding thread_send_data
thread_send_data_lem sent seq m e = ground (arith, e)

-- What a round of the sending thread takes from the lists, of at most 255 slices of 64 KiB, is sent
-- over a socket that takes all of it, and handled in order by a receiving loop that is ready, with
-- an allocator that keeps its promise: exactly that data is reported, once.
pub thread_send_data-handle_all :
    (new_buffer : ℕ → PackData) (sent : ℕ → ℤ) (seq : ℕ) (m m' : SendCacheManager) (type now : ℕ)
    (msg : List ℕ) (c : Combine)
    → Allocates new_buffer
    → Takes sent
    → get_send_data m ≡ (some (element type msg now), m')
    → length msg ≤ 255 * maxsize_sendsockpackage
    → Ready c
    → Delivered seq msg (handle_all new_buffer c (thread_send_data sent seq m).0)
thread_send_data-handle_all new_buffer sent seq m m' type now msg c allocates takes first fits
      ready =
    rw (thread_send_data_lem sent seq m first) (
      slices_handled sent takes seq type now msg fits new_buffer c _ allocates ready
        (sent_slices sent takes seq type now msg fits))
