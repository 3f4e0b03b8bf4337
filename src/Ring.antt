-- ===== src/Ring.antt =====
-- socket/RingBuffer.cpp: packets behind a four-byte length header in a circular byte array.
-- A pointer into BUFFER is its offset from BUFFER, so END is CAPACITY; a byte is a number.
-- The mutex has no part in the model: each operation is one step.
pub mod Bytes
pub mod Inner
pub mod Header
pub mod Queue
pub mod Rep
pub mod Read
pub mod Write
pub mod Retain
pub mod Run
mod Tests
use rv_receive.Base.{
  ℕ, zero, suc, ◌+◌, ◌-◌, ◌*◌, ◌/◌, ◌%◌, ◌^◌, Bool, true, false, List, [], ◌∷◌, ◌++◌, ltb, leb,
  ◌==◌, if◌then◌else◌, length, get_or, set, take, drop, replicate,
}
use rv_receive.Base.Int.{ℤ, pos, negsuc, sub_ℕ, ltb_ℤ, signed32}

pub record Ring : Type 0 where
  pub capacity : ℕ
  pub buffer : List ℕ
  pub read_ptr : ℕ
  pub write_ptr : ℕ
  pub used_size : ℕ

-- `sizeof(Pack)`: the header alone, since its data array has no length.
abbrev pub size_ringhead : ℕ
size_ringhead = 4

-- The four bytes of `Pack::size`, the lowest first.
unfoldable pub encode_size : ℕ → List ℕ
encode_size n = n % 256 ∷ n / 256 % 256 ∷ n / 65536 % 256 ∷ n / 16777216 % 256 ∷ []

unfoldable pub decode_size : List ℕ → ℕ
decode_size bs =
    get_or bs 0 0 + get_or bs 1 0 * 256 + get_or bs 2 0 * 65536 + get_or bs 3 0 * 16777216

pub create : ℕ → Ring
create size = record {
  capacity = size;
  buffer = replicate size 0;
  read_ptr = 0;
  write_ptr = 0;
  used_size = 0;
}

-- The capacity less what is used; the invariant keeps the second within the first.
pub get_free_size : Ring → ℕ
get_free_size r = r.capacity - r.used_size

pub free : Ring → Ring
free r = record r { read_ptr = 0; write_ptr = 0; used_size = 0 }

-- `memcpy(buf + i, data, len)`.
pub copy_to : List ℕ → ℕ → List ℕ → List ℕ
copy_to buf i [] = buf
copy_to buf i (b ∷ bs) = copy_to (set buf i b) (suc i) bs

-- What `memcpy(dest, buf + i, len)` copies.
abbrev pub slice : List ℕ → ℕ → ℕ → List ℕ
slice buf i len = take len (drop i buf)

-- The array afterwards and the pointer that is returned.
pub write_inner : ℕ → List ℕ → ℕ → List ℕ → List ℕ × ℕ
write_inner cap buf ptr bs =
    let first = cap - ptr in
    if leb (length bs) first
    then (copy_to buf ptr bs, ptr + length bs)
    else (copy_to (copy_to buf ptr (take first bs)) 0 (drop first bs), length bs - first)

pub read_inner : ℕ → List ℕ → ℕ → ℕ → List ℕ × ℕ
read_inner cap buf ptr len =
    let first = cap - ptr in
    if leb len first
    then (slice buf ptr len, ptr + len)
    else (slice buf ptr first ++ slice buf 0 (len - first), len - first)

-- `len` is the length of the data given.
pub write : Ring → List ℕ → ℤ × Ring
write r bs =
    let srcsize = size_ringhead + length bs in
    if ltb r.capacity (r.used_size + srcsize)
    then (sub_ℕ r.capacity (r.used_size + srcsize), r)
    else (
      pos (length bs),
      record r { buffer = body.0; write_ptr = body.1; used_size = r.used_size + srcsize },
    )
  where
    head : List ℕ × ℕ
    head = write_inner r.capacity r.buffer r.write_ptr (encode_size (length bs))

    body : List ℕ × ℕ
    body = write_inner r.capacity head.0 head.1 bs

-- `Read` once the header is read: `packed` is the length there, and the data start at `ptr`.
read_packet : Ring → ℕ → ℕ → ℕ → ℤ × List ℕ × Ring
read_packet r size packed ptr =
    if ltb_ℤ (pos size) (signed32 packed) then (signed32 ((2 ^ 32 - packed) % 2 ^ 32), [], r) else (
      signed32 packed,
      body.0,
      record r { read_ptr = body.1; used_size = r.used_size - (packed + size_ringhead) },
    )
  where
    body : List ℕ × ℕ
    body = read_inner r.capacity r.buffer ptr packed

-- The value returned, what is copied to `dest`, and the ring afterwards.
pub read : Ring → ℕ → ℤ × List ℕ × Ring
read r size =
    let head = read_inner r.capacity r.buffer r.read_ptr size_ringhead in
    if r.used_size == 0 then (pos 0, [], r) else read_packet r size (decode_size head.0) head.1

-- How the loop of `Retain` ends: with a ring, at a header that is not wholly inside BUFFER, or
-- without fuel.
pub data Outcome : Type 0 where
  done : Ring → Outcome
  outside : Outcome
  no_fuel : Outcome

-- One round of the loop: the packet at `readPtr` is dropped.
pub drop_packet : Ring → Ring
drop_packet r = record r {
  read_ptr = if leb r.capacity moved then moved - r.capacity else moved;
  used_size = r.used_size - packsize;
}
  where
    packsize : ℕ
    packsize = decode_size (slice r.buffer r.read_ptr size_ringhead) + size_ringhead

    moved : ℕ
    moved = r.read_ptr + packsize

pub retain_loop : ℕ → ℕ → Ring → Outcome
retain_loop zero size r = no_fuel
retain_loop (suc fuel) size r =
    let rest = retain_loop fuel size (drop_packet r) in
    if ltb (get_free_size r) size
    then (if ltb r.capacity (r.read_ptr + size_ringhead) then outside else rest)
    else done r

-- Each round takes at least the header off `usedSize`, which is fuel enough.
pub retain : Ring → ℕ → Outcome
retain r size =
    if ltb r.capacity size
    then done r
    else if leb size (get_free_size r)
    then done r
    else retain_loop (suc r.used_size) size r
