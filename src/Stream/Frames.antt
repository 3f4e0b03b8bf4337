-- ===== src/Stream/Frames.antt =====
-- A packet in memory, read back from the start of a buffer.
use native.Mathlib.Nat.{pow-suc}
use rv_receive.Base.{
  ℕ, zero, suc, ◌+◌, ◌/◌, ◌^◌, ◌<◌, ◌≡◌, refl, sym, ap, ◌∙◌, inl, inr, true, false, List, ◌++◌,
  append_assoc, arith, ltb, Bool-cases, length, length-append, take, drop, take-append, drop-append,
  split_at,
}
use rv_receive.Base.Int.{pos, ltb_ℤ}
use rv_receive.Message.{Packet, sockpackagehead_size}
use rv_receive.Stream.{to_bytes, of_bytes, head, frame, size_at, packet_at, size_int, waits}

-- A packet whose fields are within their types, with all its data, and of a size that an `int` holds.
pub record Framed (p : Packet) : Type 0 where
  pub magic_fits : p.magic < 2 ^ 32
  pub seq_fits : p.seq < 2 ^ 32
  pub type_fits : p.type < 2 ^ 16
  pub slices_fits : p.slices < 2 ^ 8
  pub cur_slice_fits : p.cur_slice < 2 ^ 8
  pub data_size_fits : p.data_size + 24 < 2 ^ 31
  pub time_fits : p.time < 2 ^ 64
  pub whole : length p.payload ≡ p.data_size

pub of_bytes-to_bytes : (k n : ℕ) → n < 256 ^ k → of_bytes (to_bytes k n) ≡ n
of_bytes-to_bytes zero n h = omega arith
of_bytes-to_bytes (suc k) n h =
    omega (arith, of_bytes-to_bytes k (n / 256) (omega (arith, pow-suc 256 k)))

pub length-head : (p : Packet) → length (head p) ≡ 24
unfolding head
length-head p = refl

pub length-frame : {p : Packet} → Framed p → length (frame p) ≡ p.data_size + 24
unfolding frame
length-frame {p} f = omega (arith, length-append (head p) p.payload, length-head p, f.whole)

-- The head alone tells the size.
pub size_at-head :
    (p : Packet) (t : List ℕ) → p.data_size + 24 < 2 ^ 31 → size_at (head p ++ t) ≡ p.data_size
unfolding size_at head
size_at-head p t h = of_bytes-to_bytes 4 p.data_size (omega arith)

pub packet_at-frame : (p : Packet) (t : List ℕ) → Framed p → packet_at (frame p ++ t) ≡ p
unfolding packet_at frame size_at head
packet_at-frame p t f =
    rw
      (
        of_bytes-to_bytes 4 p.magic f.magic_fits,
        of_bytes-to_bytes 4 p.seq f.seq_fits,
        of_bytes-to_bytes 2 p.type f.type_fits,
        of_bytes-to_bytes 1 p.slices f.slices_fits,
        of_bytes-to_bytes 1 p.cur_slice f.cur_slice_fits,
        of_bytes-to_bytes 4 p.data_size (omega (arith, f.data_size_fits)),
        of_bytes-to_bytes 8 p.time f.time_fits,
      )
      (ap (λ l. record p { payload = l })
        (ap (λ n. take n (p.payload ++ t)) (sym f.whole) ∙ take-append p.payload t))

frame_split : (p : Packet) (t : List ℕ) → frame p ++ t ≡ head p ++ (p.payload ++ t)
unfolding frame
frame_split p t = append_assoc (head p) p.payload t

pub size_at-frame : (p : Packet) (t : List ℕ) → Framed p → size_at (frame p ++ t) ≡ p.data_size
size_at-frame p t f =
    ap size_at (frame_split p t) ∙ size_at-head p (p.payload ++ t) f.data_size_fits

pub drop-frame :
    (p : Packet) (t : List ℕ)
    → Framed p
    → drop (size_at (frame p ++ t) + sockpackagehead_size) (frame p ++ t) ≡ t
drop-frame p t f =
    ap (λ n. drop n (frame p ++ t)) {y = length (frame p)}
      (omega (arith, size_at-frame p t f, length-frame f))
    ∙ drop-append (frame p) t

size_int_lem :
    (buf : List ℕ) (n : ℕ) → size_at buf ≡ n → n + 24 < 2 ^ 31 → size_int buf ≡ pos (n + 24)
size_int_lem buf n e h = rw e (ground (arith, h))

-- The loop does not wait once the packet is there, and its size is an `int`.
pub waits-frame :
    (p : Packet) (t : List ℕ)
    → Framed p
    → (waits (frame p ++ t) ≡ false) × (ltb_ℤ (size_int (frame p ++ t)) (pos 0) ≡ false)
unfolding waits
waits-frame p t f =
    let int = size_int_lem (frame p ++ t) p.data_size (size_at-frame p t f) f.data_size_fits in
    let len = length-append (frame p) t in
    (rw int (ground (arith, len, length-frame f)), rw int (ground arith))

-- It waits as long as the packet is not whole.
pub waits-part :
    (p : Packet) (buf ys rest : List ℕ)
    → Framed p
    → buf ++ ys ≡ frame p ++ rest
    → length buf < p.data_size + 24
    → waits buf ≡ true
unfolding waits
waits-part p buf ys rest f e h = elim (Bool-cases (ltb (length buf) 24)) [
  | inl no_head ↦ rw no_head refl
  | inr has_head ↦
      let (t, is, _) =
        split_at (head p) buf ys (p.payload ++ rest) (e ∙ frame_split p rest)
          (ground (arith, has_head, length-head p)) in
      let int =
        size_int_lem buf p.data_size (ap size_at is ∙ size_at-head p t f.data_size_fits)
          f.data_size_fits in
      rw (has_head, int) (ground (arith, h))
]
