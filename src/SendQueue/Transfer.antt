-- ===== src/SendQueue/Transfer.antt =====
-- An element from the sender's lists to the report of the receiving loop.
use mathlib.Core.Option
use rv_receive.Base.{
  ℕ, ◌+◌, ◌-◌, ◌*◌, ◌%◌, ◌≤◌, ◌≡◌, refl, sym, ap, ◌∙◌, inl, inr, Bool, some, List, [], ◌∷◌, arith,
  ltb, Bool-cases, length, take, drop, take-length,
}
use rv_receive.Message.{Packet, maxsize_sendsockpackage}
use rv_receive.Combine.{Combine, PackData, start_package, init_package, reset_data}
use rv_receive.Combine.Sum.{chunk}
use rv_receive.Combine.Collect.{IsSlice, Collecting}
use rv_receive.Combine.Reassembly.{finished, bits_of_start, start_package-Collecting}
use rv_receive.Combine.Room.{Allocates, room-start_package}
use rv_receive.SendQueue.Slices.{z}
use rv_receive.SendQueue.Deliver.{
  Delivered, Left, Upto, comes_first, one_fewer, after_put, last_done, not_yet_done, from_slice,
  handle_first, handle_all_last, handle_all_one,
}
use rv_receive.Stream.{handle}
use rv_receive.Stream.Drain.{handle_all}

module _ (new_buffer : ℕ → PackData) (seq n one : ℕ) (msg : List ℕ) (few : n ≤ 256)
    (covers : length msg ≤ n * one) where
  first_put :
      (p : Packet) (ps : List Packet) (c : Combine)
      → Left new_buffer seq n one msg few covers 0 p ps
      → p.data_size ≡ one
      → n * one + 4 ≤ length (start_package new_buffer c p one).pack.body
      → (c' : Combine) × (init_package new_buffer c p p.data_size ≡ some c')
        × Collecting seq n one msg c'
        × Upto new_buffer seq n one msg few covers 1 c'
  unfolding init_package
  first_put p ps c l size room =
      let started = start_package-Collecting new_buffer c l.0.0 room in
      let (c', e, v, upto) =
        after_put new_buffer seq n one msg few covers 0 p (start_package new_buffer c p one)
          (comes_first new_buffer seq n one msg few covers 0 p ps l) l.0.0 started
          (λ i. bits_of_start new_buffer c p one i ∙ ground arith) in
      (
        c',
        ap (init_package new_buffer c p) size ∙ ap (Option.map (λ (r : Bool × Combine). r.1)) e,
        v,
        upto,
      )

  pub all_handled :
      (p : Packet) (ps : List Packet) (c : Combine)
      → Left new_buffer seq n one msg few covers 0 p ps
      → p.data_size ≡ one
      → n * one + 4 ≤ length (start_package new_buffer c p one).pack.body
      → Delivered seq msg (handle_all new_buffer c (p ∷ ps))
  all_handled p [] c l size room =
      let (c', e, v, upto) = first_put p [] c l size room in
      let done = last_done new_buffer seq n one msg few covers 0 p c' l v upto in
      let f = finished few covers v done in
      let step : handle new_buffer c p ≡ some (c'.pack ∷ [], reset_data c') =
        handle_first new_buffer c p (comes_first new_buffer seq n one msg few covers 0 p [] l) e
        ∙ rw done refl in
      (c'.pack, reset_data c', handle_all_last new_buffer c p step, (v.its_seq, f.0, f.1))
  all_handled p (p' ∷ ps) c l size room =
      let (c', e, v, upto) = first_put p (p' ∷ ps) c l size room in
      let more = not_yet_done new_buffer seq n one msg few covers 0 p p' ps c' l v upto in
      let step : handle new_buffer c p ≡ some ([], c') =
        handle_first new_buffer c p
          (comes_first new_buffer seq n one msg few covers 0 p (p' ∷ ps) l) e
        ∙ rw more refl in
      let (d, c'', rest, r) =
        from_slice new_buffer seq n one msg few covers 1 p' ps c' (omega arith) v upto
          (one_fewer new_buffer seq n one msg few covers 0 p p' ps l) in
      (d, c'', handle_all_one new_buffer c p (p' ∷ ps) step rest, r)

-- A slice that is the whole message, by the size of the message.
pub narrow :
    {seq : ℕ} {msg : List ℕ} (p : Packet)
    → length msg ≤ z
    → IsSlice seq 1 z msg p
    → IsSlice seq 1 (length msg) msg p × (p.data_size ≡ length msg)
narrow {seq} {msg} p h s =
    let first : p.cur_slice ≡ 0 = omega (arith, s.in_range) in
    let whole : chunk msg z p.cur_slice ≡ msg =
      ap (λ i. take z (drop i msg)) {x = p.cur_slice * z} {y = 0} (omega (arith, first))
      ∙ take-length msg z h in
    let whole' : chunk msg (length msg) p.cur_slice ≡ msg =
      ap (λ i. take (length msg) (drop (i * length msg) msg)) first
      ∙ ap (λ i. take (length msg) (drop i msg)) {x = 0 * length msg} {y = 0} (omega arith)
      ∙ take-length msg (length msg) (omega arith) in
    (
      record {
        same_seq = s.same_seq;
        same_slices = s.same_slices;
        in_range = s.in_range;
        sized = s.sized ∙ ap length (whole ∙ sym whole');
        bytes = s.bytes ∙ whole ∙ sym whole';
      },
      s.sized ∙ ap length whole,
    )

-- What the loop's combination is from the start on: a buffer of whole pages, of which the slices of a
-- packet never fill all, with room for one slice at least.
pub record Ready (c : Combine) : Type 0 where
  pub its_body : length c.pack.body ≡ c.all_buf_size - 24
  pub page_over : c.all_buf_size % maxsize_sendsockpackage ≡ 4096
  pub one_slice : maxsize_sendsockpackage + 28 ≤ c.all_buf_size

module _ (new_buffer : ℕ → PackData) (allocates : Allocates new_buffer) (c : Combine)
    (ready : Ready c) where
  pub room_full :
      (p : Packet) (n : ℕ)
      → p.slices ≡ n
      → n * z + 4 ≤ length (start_package new_buffer c p z).pack.body
  room_full p n e =
      let (fresh, old) = room-start_package new_buffer allocates c p z ready.its_body in
      elim (Bool-cases (ltb c.all_buf_size (p.slices * z))) [
        | inl more ↦ omega (arith, e, (fresh (ground (arith, more))).1 (omega arith))
        | inr fits ↦ omega (
          arith,
          e,
          (old (ground (arith, fits))).1
              (omega (arith, ready.page_over, not_same p.slices (ground (arith, fits)))),
        )
      ]
    where
      not_same : (k : ℕ) → k * z ≤ c.all_buf_size → k * z + 28 ≤ c.all_buf_size
      not_same k h = omega (arith, ready.page_over, h)

  pub room_one :
      (p : Packet) (len : ℕ)
      → p.slices ≡ 1
      → len ≤ z
      → 1 * len + 4 ≤ length (start_package new_buffer c p len).pack.body
  room_one p len e h =
      let (fresh, old) = room-start_package new_buffer allocates c p len ready.its_body in
      let size : p.slices * len ≡ len = ap (λ k. k * len) e ∙ omega arith in
      omega (
        arith,
        size,
        (old (omega (arith, size, h, ready.one_slice))).1 (omega (arith, size, h, ready.one_slice)),
      )
