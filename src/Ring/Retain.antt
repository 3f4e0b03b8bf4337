-- ===== src/Ring/Retain.antt =====
-- `RingBuffer::Retain` against the queue of packets. It reads the header at `readPtr` in place, so
-- it works only while that header lies wholly before END.
use rv_receive.Base.{
  ℕ, zero, suc, ◌+◌, ◌-◌, ◌%◌, ◌≤◌, ◌<◌, ◌≡◌, ◌⊎◌, ◌↔◌, refl, sym, ap, ◌∙◌, inl, inr, List, [], ◌∷◌,
  arith, leb, if◌then◌else◌, tests, Bool-cases, length,
}
use native.Mathlib.Nat.{mod-eq-sub-mod}
use rv_receive.Ring.{
  Ring, Outcome, done, outside, no_fuel, retain, retain_loop, drop_packet, decode_size, slice,
  get_free_size,
}
use rv_receive.Ring.Bytes.{slice-window}
use rv_receive.Ring.Header.{decode_size-encode_size}
use rv_receive.Ring.Queue
use rv_receive.Ring.Queue.{Packets, stored}
use rv_receive.Ring.Rep.{Rep}
use rv_receive.Ring.Read.{parts, advance-Rep}

module _ {r : Ring} {p : List ℕ} {ps : Packets} (v : Rep r (p ∷ ps))
    (whole : r.read_ptr + 4 ≤ r.capacity) where
  open r use {capacity, buffer, read_ptr, used_size}

  size_there : decode_size (slice buffer read_ptr 4) ≡ length p
  size_there =
      ap decode_size (slice-window capacity buffer read_ptr 4 v.sized whole ∙ (parts v).0)
      ∙ decode_size-encode_size (length p) (omega (arith, v.counted, v.small))

  abbrev behind : ℕ
  behind = read_ptr + (length p + 4)

  abbrev moved : ℕ
  moved = if leb capacity behind then behind - capacity else behind

  drop_packet_lem :
      drop_packet r ≡ record r { read_ptr = moved; used_size = used_size - (length p + 4) }
  unfolding drop_packet
  drop_packet_lem = rw size_there

  moved_in : moved ≤ capacity
  moved_in = ground (arith, v.counted, v.fits, v.read_in)

  moved_same : moved % capacity ≡ (read_ptr + 4 + length p) % capacity
  moved_same = ground (arith, wrap, plain)
    where
      plain : behind % capacity ≡ (read_ptr + 4 + length p) % capacity
      plain = ap (λ t. t % capacity) (omega arith)

      wrap : capacity ≤ behind → (behind - capacity) % capacity ≡ behind % capacity
      wrap h = sym (mod-eq-sub-mod {n = behind} {m = capacity} h)

  -- A round of the loop drops the oldest packet and nothing else.
  advanced-Rep : Rep (record r { read_ptr = moved; used_size = used_size - (length p + 4) }) ps
  advanced-Rep = advance-Rep v moved moved_in moved_same

module _ (fuel size : ℕ) (r : Ring) where
  loop_stop : size ≤ r.capacity - r.used_size → retain_loop (suc fuel) size r ≡ done r
  unfolding retain_loop get_free_size
  loop_stop h = ground arith

  loop_step :
      r.capacity - r.used_size < size
      → r.read_ptr + 4 ≤ r.capacity
      → retain_loop (suc fuel) size r ≡ retain_loop fuel size (drop_packet r)
  unfolding retain_loop get_free_size
  loop_step h k = ground arith

  loop_fault :
      r.capacity - r.used_size < size
      → r.capacity < r.read_ptr + 4
      → retain_loop (suc fuel) size r ≡ outside
  unfolding retain_loop get_free_size
  loop_fault h k = ground arith

-- What `Retain` has to come to: a header across END, or a ring with the queue's packets.
abbrev pub Retained : ℕ → Packets → Outcome → Type 0
Retained size ps (done r) = Rep r ps × (size ≤ get_free_size r)
Retained size ps outside = ⊥
Retained size ps no_fuel = ⊥

-- No header on the way through the packets lies across END.
abbrev pub Whole : ℕ → ℕ → Packets → Type 0
Whole capacity ptr [] = Unit {0}
Whole capacity ptr (p ∷ ps) =
    (ptr + 4 ≤ capacity)
    × Whole capacity (let q = ptr + (length p + 4) in if leb capacity q then q - capacity else q) ps

retain_loop-Retained :
    (fuel size : ℕ) {r : Ring} {ps : Packets}
    → Rep r ps
    → size ≤ r.capacity
    → r.used_size < fuel
    → Whole r.capacity r.read_ptr ps
    → Retained size (Queue.make_room r.capacity ps size) (retain_loop fuel size r)
unfolding Queue.make_room get_free_size
retain_loop-Retained zero size v h f w = elim f [ ]
retain_loop-Retained (suc fuel) size {r} {ps = []} v h f w =
    let free_enough : size ≤ r.capacity - r.used_size = omega (arith, v.counted) in
    rw (loop_stop fuel size r free_enough) (v, free_enough)
retain_loop-Retained (suc fuel) size {r} {ps = p ∷ ps} v h f w =
    elim (Bool-cases (leb size (r.capacity - stored (p ∷ ps)))) [
      | inl e ↦
          let free_enough : size ≤ r.capacity - r.used_size = omega (tests, v.counted) in
          rw (loop_stop fuel size r free_enough, e) (v, free_enough)
      | inr e ↦
          rw (loop_step fuel size r (omega (tests, v.counted)) w.0, drop_packet_lem v w.0, e)
            (retain_loop-Retained fuel size (advanced-Rep v w.0) h (omega (arith, v.counted)) w.1)
    ]

retain_cases :
    (r : Ring) (size : ℕ)
    → ((r.capacity < size) × (retain r size ≡ done r))
      ⊎ ((size ≤ r.capacity) × (size ≤ r.capacity - r.used_size) × (retain r size ≡ done r))
      ⊎ ((size ≤ r.capacity)
          × (r.capacity - r.used_size < size)
          × (retain r size ≡ retain_loop (suc r.used_size) size r))
unfolding retain get_free_size
retain_cases r size = ground arith

make_room_enough :
    (capacity : ℕ) (ps : Packets) (size : ℕ)
    → size ≤ capacity - stored ps
    → Queue.make_room capacity ps size ≡ ps
unfolding Queue.make_room
make_room_enough capacity [] size h = refl
make_room_enough capacity (p ∷ ps) size h = ground arith

queue_unchanged :
    {capacity size : ℕ} (ps : Packets) → capacity < size → Queue.retain capacity ps size ≡ ps
unfolding Queue.retain
queue_unchanged ps h = ground arith

queue_makes_room :
    {capacity size : ℕ} (ps : Packets)
    → size ≤ capacity
    → Queue.retain capacity ps size ≡ Queue.make_room capacity ps size
unfolding Queue.retain
queue_makes_room ps h = ground arith

-- What the loop comes to, as a ring.
retained :
    (size : ℕ) (ps : Packets) (o : Outcome)
    → Retained size ps o
    → (r : Ring) × (o ≡ done r) × Rep r ps × (size ≤ get_free_size r)
retained size ps (done r) h = (r, refl, h.0, h.1)
retained size ps outside h = elim h [ ]
retained size ps no_fuel h = elim h [ ]

-- While no header lies across END, `Retain` ends without fault with a ring that represents what the
-- queue keeps: the packets as they were if the capacity is below `size`, else what is left when the
-- oldest packets are dropped, one by one, until `size` bytes are free. In the second case that many
-- bytes are free in the end.
pub retain_refines :
    {r : Ring} {ps : Packets} (size : ℕ)
    → Rep r ps
    → Whole r.capacity r.read_ptr ps
    → (r' : Ring) × (retain r size ≡ done r')
      × Rep r' (Queue.retain r.capacity ps size)
      × (size ≤ r.capacity → size ≤ get_free_size r')
unfolding get_free_size
retain_refines {r} {ps} size v w = elim (retain_cases r size) [
  | inl (small, e) ↦ (r, e, rw (queue_unchanged ps small) v, λ h. absurd (omega arith))
  | inr (inl (h, enough, e)) ↦ (
    r,
    e,
    rw (queue_makes_room ps h, make_room_enough r.capacity ps size (omega (arith, v.counted))) v,
    λ _. enough,
  )
  | inr (inr (h, _, e)) ↦
      let (r', done_r', kept, free_enough) =
        retained size (Queue.make_room r.capacity ps size) _
          (retain_loop-Retained (suc r.used_size) size v h (omega arith) w) in
      (r', e ∙ done_r', rw (queue_makes_room ps h) kept, λ _. free_enough)
]

-- If the header at `readPtr` lies across END, `Retain` reads past the array exactly when the
-- capacity allows `size` bytes and fewer are free.
pub retain_outside :
    (r : Ring) (size : ℕ)
    → r.capacity < r.read_ptr + 4
    → (retain r size ≡ outside) ↔ ((size ≤ r.capacity) × (get_free_size r < size))
unfolding get_free_size
retain_outside r size across = elim (retain_cases r size) [
  | inl (small, e) ↦ (λ o. cc, λ h. absurd (omega arith))
  | inr (inl (h, enough, e)) ↦ (λ o. cc, λ h. absurd (omega arith))
  | inr (inr (h, short, e)) ↦ (λ _. (h, short), λ _. e ∙ loop_fault r.used_size size r short across)
]
