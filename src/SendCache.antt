-- ===== src/SendCache.antt =====
-- socket/SendPackageCache: packets kept for sending, by one slice or again, and the sender's thread.
-- `timestamp()` is an argument; what `sendto` and `send` return is the function `sent` of the slice.
-- A packet that is handed to them is in the result, in order. A write past a buffer is `none`.
pub mod Slicing
pub mod Count
pub mod Kept
pub mod Transfer
pub mod Pieces
pub mod Delivery
pub mod Recovery
pub mod Ranges
mod Tests
use mathlib.Core.Option
use rv_receive.Base.{
  ℕ, zero, suc, ◌+◌, ◌-◌, ◌*◌, ◌/◌, ◌%◌, ◌^◌, Bool, true, false, not, ◌&&◌, ◌||◌, Option, none,
  some, List, [], ◌∷◌, ◌++◌, ltb, leb, ◌==◌, if◌then◌else◌, length, take, drop, replicate, map,
}
use rv_receive.Base.Int.{ℤ, pos, negsuc, pos_part, sub_from, ltb_ℤ, word32}
use rv_receive.Message.{
  Packet, sockmagic_head, sockpackage_size, maxsize_sockpackage, udprange_start, udprange_end,
}
use Prim.Native.Nat.{bit_and}
use rv_receive.Mask.{Masks, is_slice_mask}

-- `struct sockaddr_in`.
pub record SockAddr : Type 0 where
  pub sin_port : ℕ
  pub s_addr : ℕ

pub record SendData : Type 0 where
  pub socket_fd : ℤ
  pub addr : SockAddr
  pub slice_size : ℕ
  pub seq : ℕ
  pub slices_mask : Masks

pub record SendCache : Type 0 where
  pub seq : ℕ
  pub pack_list : List Packet
  pub send_list : List SendData

abbrev pub max_size : ℕ
max_size = 30

abbrev pub all_masks : Masks
all_masks = replicate 8 (2 ^ 32 - 1)

abbrev pub zero_addr : SockAddr
zero_addr = record { sin_port = 0; s_addr = 0 }

-- `len <= 0 ? 1 : (len + sliceSize - 1) / sliceSize`.
abbrev pub slice_count : ℕ → ℕ → ℕ
slice_count len slice_size = if len == 0 then 1 else (len + slice_size - 1) / slice_size

unfoldable pub free_all : SendCache → SendCache
free_all s = record s { pack_list = [] }

-- `while (packList.size() >= MAX_SIZE)`: the oldest go.
pub drop_oldest : List Packet → List Packet
drop_oldest [] = []
drop_oldest (p ∷ ps) = if leb max_size (length (p ∷ ps)) then drop_oldest ps else p ∷ ps

-- The packet that is kept of the bytes of a call.
unfoldable pub make_package : SendCache → ℕ → List ℕ → ℕ → ℕ → Packet
make_package s type bytes slice_size now = record {
  magic = sockmagic_head;
  seq = s.seq;
  type = type % 2 ^ 16;
  slices = slice_count (length bytes) slice_size % 2 ^ 8;
  cur_slice = 0;
  data_size = length bytes;
  time = now;
  payload = bytes;
}

unfoldable pub add_package_data : SendCache → ℕ → List ℕ → ℕ → ℕ → Packet × SendCache
unfolding make_package
add_package_data s type bytes slice_size now =
    let pack = make_package s type bytes slice_size now in
    (
      pack,
      record s { seq = (s.seq + 1) % 2 ^ 32; pack_list = drop_oldest s.pack_list ++ (pack ∷ []) },
    )

abbrev pub or_else : {A : Type 0} → Option A → A → A
or_else none d = d
or_else (some a) d = a

-- What `Send` puts into the list; with no mask it is all slices.
abbrev pub send_data : ℤ → Option SockAddr → ℕ → ℕ → Option Masks → SendData
send_data fd addr slice_size seq masks = record {
  socket_fd = fd;
  addr = or_else addr zero_addr;
  slice_size = slice_size;
  seq = seq;
  slices_mask = or_else masks all_masks;
}

unfoldable pub send : SendCache → ℤ → Option SockAddr → ℕ → ℕ → Option Masks → SendCache
send s fd addr slice_size seq masks = record s {
  send_list = s.send_list ++ (send_data fd addr slice_size seq masks ∷ []);
}

-- `SendRange`: whether a kept packet is asked for, where the flags put the ends of the list in place
-- of those of the range.
abbrev pub first_seq : List Packet → ℕ → ℕ
first_seq [] d = d
first_seq (p ∷ ps) d = p.seq

abbrev pub last_seq : List Packet → ℕ → ℕ
last_seq [] d = d
last_seq (p ∷ ps) d = last_seq ps p.seq

abbrev pub range_start : List Packet → ℕ → ℕ → ℕ
range_start ps seq_start flag =
    if bit_and flag udprange_start == 0 then seq_start else first_seq ps seq_start

abbrev pub range_end : List Packet → ℕ → ℕ → ℕ
range_end ps seq_end flag =
    if bit_and flag udprange_end == 0 then seq_end else (last_seq ps seq_end + 1) % 2 ^ 32

pub range_data : (ℕ → SendData) → ℕ → ℕ → List Packet → List SendData
range_data mk a b [] = []
range_data mk a b (p ∷ ps) =
    if leb a p.seq && ltb p.seq b then mk p.seq ∷ range_data mk a b ps else range_data mk a b ps

unfoldable pub send_range : SendCache → ℤ → Option SockAddr → ℕ → ℕ → ℕ → ℕ → SendCache
unfolding range_data
send_range s fd addr slice_size seq_start seq_end flag = record s {
  send_list =
      s.send_list
      ++ range_data (λ seq. send_data fd addr slice_size seq none)
          (range_start s.pack_list seq_start flag) (range_end s.pack_list seq_end flag) s.pack_list;
}

-- `len >= sliceSize ? sliceSize : len`.
abbrev pub leave_of : ℤ → ℕ → ℤ
leave_of len slice_size = if ltb_ℤ len (pos slice_size) then len else pos slice_size

-- One slice: nothing is copied if no bytes are left.
abbrev pub slice_package : Packet → ℕ → ℕ → List ℕ → ℤ → Packet
slice_package pack slice_size s d len = record pack {
  cur_slice = s % 2 ^ 8;
  data_size = word32 (leave_of len slice_size);
  payload = take (pos_part (leave_of len slice_size)) d;
}

-- The loop over the slices, from the `s`-th on, with the bytes and the length that are left.
module _ (sent : ℕ → ℤ) (pack : Packet) (slice_size : ℕ) (masks : Option Masks) where
  pub send_slices : ℕ → ℕ → List ℕ → ℤ → Option (List Packet × ℕ)
  send_slices zero s d len = some ([], 0)
  send_slices (suc n) s d len =
      let rest = send_slices n (s + 1) (drop slice_size d) (sub_from len slice_size) in
      let piece = slice_package pack slice_size s d len in
      if not (is_slice_mask s masks)
      then rest
      else if ltb maxsize_sockpackage (pos_part (leave_of len slice_size))
      then none
      else if ltb_ℤ (sent s) (pos 0)
      then some (piece ∷ [], 0)
      else Option.map (λ r. (piece ∷ r.0, pos_part (sent s) + r.1)) rest

-- The packets handed to the socket, and the number of bytes.
unfoldable pub send_l : (ℕ → ℤ) → ℕ → Packet → Option Masks → Option (List Packet × ℤ)
unfolding send_slices
send_l sent slice_size pack masks =
    if leb pack.slices 1
    then some (pack ∷ [], sent 0)
    else Option.map (λ r. (r.0, pos r.1))
        (send_slices sent pack slice_size masks pack.slices 0 pack.payload (pos pack.data_size))

-- `SendDirect` keeps nothing but the number; the loop is the same with all slices.
unfoldable pub send_direct :
    (ℕ → ℤ) → SendCache → ℕ → ℕ → List ℕ → ℕ → Option ((List Packet × ℕ) × SendCache)
unfolding send_slices make_package
send_direct sent s slice_size type bytes now =
    Option.map (λ r. (r, record s { seq = (s.seq + 1) % 2 ^ 32 }))
      (send_slices sent (make_package s type bytes slice_size now) slice_size none
        (slice_count (length bytes) slice_size) 0 bytes (pos (length bytes)))

unfoldable pub find_pack : ℕ → List Packet → Option Packet
find_pack seq [] = none
find_pack seq (p ∷ ps) = if p.seq == seq then some p else find_pack seq ps

-- `uint8_t *buffer = new uint8_t[2*1024*1024]`.
abbrev pub thread_buffer : ℕ
thread_buffer = 2 * 1024 * 1024

-- One round of `threadSend`: what is first in the list is sent, if its packet is still kept.
pub send_first : (ℕ → ℤ) → List Packet → SendData → Option (List Packet × ℤ)
unfolding send_l
send_first sent packs d = elim (find_pack d.seq packs) [
  | none ↦ some ([], pos 0)
  | some pack ↦
      if ltb thread_buffer (sockpackage_size pack)
      then none
      else send_l sent d.slice_size pack (some d.slices_mask)
]

pub thread_send : (ℕ → ℤ) → SendCache → Option (List Packet × SendCache)
thread_send sent s = elim s.send_list [
  | [] ↦ some ([], s)
  | d ∷ ds ↦ Option.map (λ r. (r.0, record s { send_list = ds })) (send_first sent s.pack_list d)
]
