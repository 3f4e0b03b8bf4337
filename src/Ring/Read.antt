-- ===== src/Ring/Read.antt =====
-- `RingBuffer::Read` against the queue of packets.
use rv_receive.Base.{
  ℕ, ◌+◌, ◌-◌, ◌%◌, ◌^◌, ◌≤◌, ◌<◌, ◌≡◌, refl, sym, ap, ◌∙◌, inl, inr, List, [], ◌∷◌, ◌++◌, arith,
  false, leb, tests, Bool-cases, length, length-append, append_assoc,
}
use rv_receive.Base.Int.{pos, sub_ℕ}
use rv_receive.Ring.{Ring, read, read_packet, read_inner, encode_size, decode_size}
use rv_receive.Ring.Bytes.{window, window_mod, mod_add}
use rv_receive.Ring.Inner.{read_inner-window, read_inner_ptr}
use rv_receive.Ring.Header.{decode_size-encode_size}
use rv_receive.Ring.Queue
use rv_receive.Ring.Queue.{Packets, stored}
use rv_receive.Ring.Rep.{Rep, frames, length-frames, window_split}

packet_fits :
    (r : Ring) (size packed ptr : ℕ)
    → packed < 2 ^ 31
    → packed ≤ size
    → let body = read_inner r.capacity r.buffer ptr packed in
      read_packet r size packed ptr
      ≡ (pos packed, body.0, record r { read_ptr = body.1; used_size = r.used_size - (packed + 4) })
unfolding read_packet
packet_fits r size packed ptr h k = ground arith

packet_refused :
    (r : Ring) (size packed ptr : ℕ)
    → packed < 2 ^ 31
    → size < packed
    → read_packet r size packed ptr ≡ (sub_ℕ 0 packed, [], r)
unfolding read_packet
packet_refused r size packed ptr h k = ground arith

module _ {r : Ring} {p : List ℕ} {ps : Packets} (v : Rep r (p ∷ ps)) where
  open r use {capacity, buffer, read_ptr, used_size}

  abbrev pub header : List ℕ
  header = encode_size (length p)

  head : List ℕ × ℕ
  head = read_inner capacity buffer read_ptr 4

  body : List ℕ × ℕ
  body = read_inner capacity buffer head.1 (length p)

  -- The header stands at `readPtr`, the data and then the other packets behind it.
  pub parts :
      (window capacity buffer read_ptr 4 ≡ header)
      × (window capacity buffer (read_ptr + 4) (length p) ≡ p)
      × (window capacity buffer (read_ptr + 4 + length p) (stored ps) ≡ frames ps)
  unfolding encode_size
  parts = (front.0, back.0, back.1)
    where
      front :
          (window capacity buffer read_ptr 4 ≡ header)
          × (window capacity buffer (read_ptr + 4) (length (p ++ frames ps)) ≡ p ++ frames ps)
      front = window_split capacity buffer read_ptr header (p ++ frames ps) (
          ap (window capacity buffer read_ptr)
            (omega (arith, v.counted, length-append p (frames ps), length-frames ps))
          ∙ v.holds
          ∙ append_assoc header p (frames ps))

      back :
          (window capacity buffer (read_ptr + 4) (length p) ≡ p)
          × (window capacity buffer (read_ptr + 4 + length p) (stored ps) ≡ frames ps)
      back = rw (length-frames ps) at (
          window_split capacity buffer (read_ptr + 4) p (frames ps) (
            ap (window capacity buffer (read_ptr + 4)) (sym (length-append p (frames ps)))
            ∙ front.1))

  -- A ring whose read pointer stands behind the oldest packet represents the others.
  pub advance-Rep :
      (q : ℕ)
      → q ≤ capacity
      → q % capacity ≡ (read_ptr + 4 + length p) % capacity
      → Rep (record r { read_ptr = q; used_size = used_size - (length p + 4) }) ps
  advance-Rep q inside same = record {
    sized = v.sized;
    small = v.small;
    read_in = inside;
    write_in = v.write_in;
    fits = omega (arith, v.fits);
    counted = omega (arith, v.counted);
    ends = v.ends ∙ behind;
    holds =
        window_mod capacity buffer q (read_ptr + 4 + length p) (used_size - (length p + 4)) same
        ∙ ap (window capacity buffer (read_ptr + 4 + length p)) (omega (arith, v.counted))
        ∙ parts.2;
  }
    where
      behind : (read_ptr + used_size) % capacity ≡ (q + (used_size - (length p + 4))) % capacity
      behind =
          ap (λ t. t % capacity) (omega (arith, v.counted))
          ∙ sym (mod_add capacity q (read_ptr + 4 + length p) (used_size - (length p + 4)) same)

  head_ptr : (head.1 ≤ capacity) × (head.1 % capacity ≡ (read_ptr + 4) % capacity)
  unfolding head
  head_ptr = read_inner_ptr capacity buffer read_ptr v.sized v.read_in 4 (omega (arith, v.counted))

  packed : decode_size head.0 ≡ length p
  unfolding head
  packed =
      ap decode_size (
        read_inner-window capacity buffer read_ptr v.sized v.read_in 4 (omega (arith, v.counted))
        ∙ parts.0)
      ∙ decode_size-encode_size (length p) (omega (arith, v.counted, v.small))

  body_data : body.0 ≡ p
  unfolding body
  body_data =
      read_inner-window capacity buffer head.1 v.sized head_ptr.0 (length p)
        (omega (arith, v.counted))
      ∙ window_mod capacity buffer head.1 (read_ptr + 4) (length p) head_ptr.1
      ∙ parts.1

  body_ptr : (body.1 ≤ capacity) × (body.1 % capacity ≡ (read_ptr + 4 + length p) % capacity)
  unfolding body
  body_ptr = (step.0, step.1 ∙ mod_add capacity head.1 (read_ptr + 4) (length p) head_ptr.1)
    where
      step : (body.1 ≤ capacity) × (body.1 % capacity ≡ (head.1 + length p) % capacity)
      step =
          read_inner_ptr capacity buffer head.1 v.sized head_ptr.0 (length p)
            (omega (arith, v.counted))

  rest : Ring
  rest = record r { read_ptr = body.1; used_size = used_size - (length p + 4) }

  rest-Rep : Rep rest ps
  unfolding rest
  rest-Rep = advance-Rep body.1 body_ptr.0 body_ptr.1

  nonempty : (size : ℕ) → read r size ≡ read_packet r size (length p) head.1
  unfolding read head
  nonempty size = rw (← packed) (ground (arith, v.counted))

  read_fits : (size : ℕ) → length p ≤ size → read r size ≡ (pos (length p), p, rest)
  unfolding rest body
  read_fits size h =
      nonempty size
      ∙ packet_fits r size (length p) head.1 (omega (arith, v.counted, v.small)) h
      ∙ ap (λ t. (pos (length p), t, rest)) body_data

  read_refused : (size : ℕ) → size < length p → read r size ≡ (sub_ℕ 0 (length p), [], r)
  read_refused size h =
      nonempty size ∙ packet_refused r size (length p) head.1 (omega (arith, v.counted, v.small)) h

read_empty : (r : Ring) (size : ℕ) → r.used_size ≡ 0 → read r size ≡ (pos 0, [], r)
unfolding read
read_empty r size h = ground arith

queue_refused :
    (p : List ℕ) (ps : Packets) (size : ℕ)
    → leb (length p) size ≡ false
    → Queue.read (p ∷ ps) size ≡ (sub_ℕ 0 (length p), [], p ∷ ps)
unfolding Queue.read
queue_refused p ps size h = ground arith

-- `Read` returns what the queue of packets returns: 0 for the empty ring, the oldest packet with
-- its length if it fits in `size` bytes, else minus that length. What is copied is the packet, and
-- the ring then represents what the queue leaves.
pub read_refines :
    {r : Ring} {ps : Packets} (size : ℕ)
    → Rep r ps
    → ((read r size).0 ≡ (Queue.read ps size).0)
      × ((read r size).1 ≡ (Queue.read ps size).1)
      × Rep (read r size).2 (Queue.read ps size).2
unfolding Queue.read
read_refines {r} {ps = []} size v = rw (read_empty r size v.counted) (refl, refl, v)
read_refines {r} {ps = p ∷ ps} size v = elim (Bool-cases (leb (length p) size)) [
  | inl e ↦ rw (e, read_fits v size (omega tests)) (refl, refl, rest-Rep v)
  | inr e ↦ rw (queue_refused p ps size e, read_refused v size (omega tests)) (refl, refl, v)
]

pub capacity-read : (r : Ring) (size : ℕ) → (read r size).2.capacity ≡ r.capacity
unfolding read read_packet
capacity-read r size = ground arith
