-- ===== src/Ring/Write.antt =====
-- `RingBuffer::Write` against the queue of packets.
use mathlib.Core.Path.{subst}
use rv_receive.Base.{
  false, ℕ, ◌+◌, ◌%◌, ◌≤◌, ◌<◌, ◌≡◌, sym, ap, ◌∙◌, inl, inr, List, [], ◌∷◌, ◌++◌, arith, tests, leb,
  Bool-cases, length,
}
use rv_receive.Base.Int.{pos, sub_ℕ}
use rv_receive.Ring.{Ring, write, write_inner, encode_size}
use rv_receive.Ring.Bytes.{
  window, write_round, window-write_round, write_round_mod, write_round-append, length-write_round,
  mod_add,
}
use rv_receive.Ring.Inner.{write_inner-write_round, write_inner_ptr}
use rv_receive.Ring.Header.{length-encode_size}
use rv_receive.Ring.Queue
use rv_receive.Ring.Queue.{Packets, stored}
use rv_receive.Ring.Rep.{Rep, frame, frames, frames-append, stored-append, length-frame}

module _ {r : Ring} {ps : Packets} (v : Rep r ps) (bs : List ℕ)
    (fit : r.used_size + (4 + length bs) ≤ r.capacity) where
  open r use {capacity, buffer, read_ptr, write_ptr, used_size}

  abbrev header : List ℕ
  header = encode_size (length bs)

  abbrev head : List ℕ × ℕ
  head = write_inner capacity buffer write_ptr header

  abbrev body : List ℕ × ℕ
  body = write_inner capacity head.0 head.1 bs

  header_short : length header ≤ capacity
  header_short = omega (arith, length-encode_size (length bs))

  head_round : head.0 ≡ write_round capacity buffer write_ptr header
  head_round =
      write_inner-write_round capacity buffer write_ptr v.sized v.write_in header header_short

  head_ptr : (head.1 ≤ capacity) × (head.1 % capacity ≡ (write_ptr + length header) % capacity)
  head_ptr = write_inner_ptr capacity buffer write_ptr v.sized v.write_in header header_short

  head_sized : length head.0 ≡ capacity
  head_sized = ap length head_round ∙ length-write_round capacity buffer write_ptr header ∙ v.sized

  -- The two writes are one write of the whole frame behind what is stored.
  body_round : body.0 ≡ write_round capacity buffer (read_ptr + used_size) (frame bs)
  body_round =
      write_inner-write_round capacity head.0 head.1 head_sized head_ptr.0 bs (omega arith)
      ∙ ap (λ t. write_round capacity t head.1 bs) head_round
      ∙ write_round_mod capacity (write_round capacity buffer write_ptr header) head.1
          (write_ptr + length header) bs head_ptr.1
      ∙ sym (write_round-append capacity buffer write_ptr header bs)
      ∙ write_round_mod capacity buffer write_ptr (read_ptr + used_size) (frame bs) v.ends

  body_ptr :
      (body.1 ≤ capacity)
      × (body.1 % capacity ≡ (read_ptr + (used_size + (4 + length bs))) % capacity)
  body_ptr = (
    step.0,
    step.1 ∙ mod_add capacity head.1 (write_ptr + length header) (length bs) head_ptr.1 ∙ regroup,
  )
    where
      step : (body.1 ≤ capacity) × (body.1 % capacity ≡ (head.1 + length bs) % capacity)
      step = write_inner_ptr capacity head.0 head.1 head_sized head_ptr.0 bs (omega arith)

      regroup :
          (write_ptr + length header + length bs) % capacity
          ≡ (read_ptr + (used_size + (4 + length bs))) % capacity
      regroup =
          ap (λ t. t % capacity) {x = write_ptr + length header + length bs}
            {y = write_ptr + (4 + length bs)} (omega (arith, length-encode_size (length bs)))
          ∙ mod_add capacity write_ptr (read_ptr + used_size) (4 + length bs) v.ends
          ∙ ap (λ t. t % capacity) (omega arith)

  body_holds :
      window capacity body.0 read_ptr (used_size + (4 + length bs)) ≡ frames (ps ++ bs ∷ [])
  body_holds =
      ap (λ t. window capacity t read_ptr (used_size + (4 + length bs))) body_round
      ∙ ap
          (λ t.
            window capacity (write_round capacity buffer (read_ptr + used_size) (frame bs)) read_ptr
              (used_size + t))
          (sym (length-frame bs))
      ∙ window-write_round capacity buffer read_ptr used_size (frame bs) v.sized
          (omega (arith, length-frame bs))
      ∙ ap (λ t. t ++ frame bs) v.holds
      ∙ sym (frames-append ps bs)

  body_sized : length body.0 ≡ capacity
  body_sized =
      ap length body_round
      ∙ length-write_round capacity buffer (read_ptr + used_size) (frame bs)
      ∙ v.sized

  write_fits : write r bs ≡ (
    pos (length bs),
    record r { buffer = body.0; write_ptr = body.1; used_size = used_size + (4 + length bs) },
  )
  unfolding write
  write_fits = ground arith

  write-Rep : Rep (write r bs).1 (ps ++ bs ∷ [])
  write-Rep =
      subst (λ t. Rep t.1 (ps ++ bs ∷ [])) (sym write_fits)
        (record {
          sized = body_sized;
          small = v.small;
          read_in = v.read_in;
          write_in = body_ptr.0;
          fits = fit;
          counted = omega (arith, stored-append ps bs, v.counted);
          ends = body_ptr.1;
          holds = body_holds;
        })

write_refused :
    (r : Ring) (bs : List ℕ)
    → r.capacity < r.used_size + (4 + length bs)
    → write r bs ≡ (sub_ℕ r.capacity (r.used_size + (4 + length bs)), r)
unfolding write
write_refused r bs h = ground arith

queue_full :
    (capacity : ℕ) (ps : Packets) (bs : List ℕ)
    → leb (stored ps + (4 + length bs)) capacity ≡ false
    → Queue.write capacity ps bs ≡ (sub_ℕ capacity (stored ps + (4 + length bs)), ps)
unfolding Queue.write
queue_full capacity ps bs h = ground arith

-- `Write` returns what the queue of packets returns, the length of the packet or minus the number
-- of bytes that are missing, and leaves the ring representing that queue: with the packet at its
-- end, or as it was.
pub write_refines :
    {r : Ring} {ps : Packets} (bs : List ℕ)
    → Rep r ps
    → ((write r bs).0 ≡ (Queue.write r.capacity ps bs).0)
      × Rep (write r bs).1 (Queue.write r.capacity ps bs).1
unfolding Queue.write
write_refines {r} {ps} bs v = elim (Bool-cases (leb (stored ps + (4 + length bs)) r.capacity)) [
  | inl e ↦
      let fit : r.used_size + (4 + length bs) ≤ r.capacity = omega (tests, v.counted) in
      rw e (ap (λ t. t.0) (write_fits v bs fit), write-Rep v bs fit)
  | inr e ↦
      let full : write r bs ≡ _ = write_refused r bs (omega (tests, v.counted)) in
      rw (full, queue_full r.capacity ps bs e)
        (ap (λ t. sub_ℕ r.capacity (t + (4 + length bs))) v.counted, v)
]

pub capacity-write : (r : Ring) (bs : List ℕ) → (write r bs).1.capacity ≡ r.capacity
unfolding write
capacity-write r bs = ground arith
