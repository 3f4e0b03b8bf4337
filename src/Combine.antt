-- ===== src/Combine.antt =====
-- socket/CombinePackage: the slices of one packet, collected in any order into one buffer.
-- A write outside the buffer is `none`. Offsets and sizes stay below 2 ^ 31, as `int` has them.
pub mod Copy
pub mod Sum
pub mod Collect
pub mod Put
pub mod Reassembly
pub mod Room
pub mod Again
mod Tests
use mathlib.Core.Option
use rv_receive.Base.{
  ℕ, ◌+◌, ◌-◌, ◌*◌, ◌/◌, ◌^◌, Bool, true, false, not, ◌||◌, Option, none, some, List, [], ◌∷◌, ltb,
  leb, ◌==◌, if◌then◌else◌, length, set, take,
}
use rv_receive.Message.{Packet, sockpackagehead_size}
use rv_receive.Mask.{Masks, add_slice_mask, is_slice_mask, no_masks, request_masks}

-- What `mAllPackData` points to: the head of the whole packet, and all the bytes of `mAllBuffers`
-- behind it.
pub record PackData : Type 0 where
  pub seq : ℕ
  pub type : ℕ
  pub slices : ℕ
  pub data_size : ℕ
  pub time : ℕ
  pub body : List ℕ

pub record Combine : Type 0 where
  pub all_buf_size : ℕ
  pub pack : PackData
  pub one_pack_size : ℕ
  pub recv_packages : ℕ
  pub slices_mask : Masks

-- `memcpy(data + i, src, len)`.
unfoldable pub copy_to : List ℕ → ℕ → List ℕ → List ℕ
copy_to buf i [] = buf
copy_to buf i (b ∷ bs) = copy_to (set buf i b) (i + 1) bs

-- `(size + 4096 - 1) & ~(4096 - 1)`.
abbrev pub align : ℕ → ℕ
align size = (size + 4095) / 4096 * 4096

unfoldable pub is_done : Combine → Bool
is_done c = leb c.pack.slices c.recv_packages

unfoldable pub reset_data : Combine → Combine
reset_data c = record c { recv_packages = 0; slices_mask = no_masks }

-- The four bytes of zeros behind the data of a finished packet.
pub terminate : Combine → Option Combine
terminate c =
    if ltb (length c.pack.body) (c.pack.data_size + 4)
    then none
    else some (record c {
      pack = record c.pack { body = copy_to c.pack.body c.pack.data_size (0 ∷ 0 ∷ 0 ∷ 0 ∷ []) };
    })

-- The state with a slice that is new counted.
pub count_new : Combine → Packet → Combine
count_new c p = record c {
  recv_packages = c.recv_packages + 1;
  slices_mask = add_slice_mask p.cur_slice c.slices_mask;
  pack = record c.pack { data_size = c.pack.data_size + p.data_size };
}

-- A slice that is new is counted, and the last of them ends the packet.
pub count_slice : Combine → Packet → Option Combine
count_slice c p =
    let counted = count_new c p in
    if is_slice_mask p.cur_slice (some c.slices_mask)
    then some c
    else if is_done counted
    then terminate counted
    else some counted

-- The state with the bytes of a slice copied to their place.
pub store_slice : Combine → Packet → Combine
store_slice c p = record c {
  pack = record c.pack {
    body = copy_to c.pack.body (p.cur_slice * c.one_pack_size) (take p.data_size p.payload);
  };
}

-- Whether the slice belongs to the packet, and the state with it. Its data are copied whether or
-- not it was there before.
unfoldable pub put_package : Combine → Packet → Option (Bool × Combine)
unfolding count_slice terminate count_new store_slice copy_to
put_package c p =
    if not (c.pack.seq == p.seq) || not (c.pack.slices == p.slices)
    then some (false, c)
    else if ltb (length c.pack.body) (p.cur_slice * c.one_pack_size + p.data_size)
    then none
    else Option.map (λ c'. (true, c')) (count_slice (store_slice c p) p)

-- `new uint8_t[n]` hands back bytes that the code has not written: those of the head, and the rest.
module _ (new_buffer : ℕ → PackData) where
  unfoldable pub alloc_buffer : Combine → ℕ → Combine
  alloc_buffer c size =
      let total = align (size + sockpackagehead_size) in
      record c { all_buf_size = total; pack = record (new_buffer total) { seq = 2 ^ 32 - 1 } }

  -- The state before the first slice is put in.
  unfoldable pub start_package : Combine → Packet → ℕ → Combine
  start_package c p one_pack_size =
      let size = p.slices * one_pack_size in
      let room = if ltb c.all_buf_size size then alloc_buffer c size else c in
      record room {
        one_pack_size = one_pack_size;
        recv_packages = 0;
        slices_mask = no_masks;
        pack = record (room.pack) {
          seq = p.seq;
          type = p.type;
          slices = p.slices;
          time = p.time;
          data_size = 0;
        };
      }

  unfoldable pub init_package : Combine → Packet → ℕ → Option Combine
  init_package c p one_pack_size =
      Option.map (λ r. r.1) (put_package (start_package c p one_pack_size) p)
