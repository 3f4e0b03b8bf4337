-- ===== src/Combine/Tests.antt =====
-- A message of five bytes in three slices of two, and the theorems at it.
use mathlib.Core.Option
use rv_receive.Base.{
  ℕ, ◌-◌, ◌%◌, ◌≤◌, ◌<◌, ◌≡◌, ◌↔◌, refl, true, ◌||◌, ◌==◌, some, List, [], ◌∷◌, arith, length, take,
  replicate, length-replicate,
}
use rv_receive.Message.{Packet, sockmagic_head, type_media_videodata}
use rv_receive.Mask.{no_masks, add_slice_mask, is_slice_mask}
use rv_receive.Mask.Laws.{is_slice_mask-add_slice_mask}
use rv_receive.Combine.{Combine, PackData, is_done, put_package, init_package, start_package}
use rv_receive.Combine.Collect.{IsSlice, Collecting}
use rv_receive.Combine.Put.{Adds, put_package-Collecting}
use rv_receive.Combine.Reassembly.{
  collect, has, Slices, start_package-Collecting, init_package-collect,
}
use rv_receive.Combine.Room.{Allocates, room-start_package}

abbrev blank : ℕ → PackData
blank total = record {
  seq = 0;
  type = 0;
  slices = 0;
  data_size = 0;
  time = 0;
  body = replicate (total - 24) 0;
}

blank-Allocates : Allocates blank
blank-Allocates total = length-replicate (total - 24) 0

abbrev small : Combine
small = record {
  all_buf_size = 40;
  pack = blank 40;
  one_pack_size = 0;
  recv_packages = 0;
  slices_mask = no_masks;
}

abbrev slice_of : ℕ → List ℕ → Packet
slice_of i bs = record {
  magic = sockmagic_head;
  seq = 9;
  type = type_media_videodata;
  slices = 3;
  cur_slice = i;
  data_size = length bs;
  time = 0;
  payload = bs;
}

abbrev message : List ℕ
message = 1 ∷ 2 ∷ 3 ∷ 4 ∷ 5 ∷ []

abbrev first : Packet
first = slice_of 2 (5 ∷ [])

abbrev others : List Packet
others = slice_of 0 (1 ∷ 2 ∷ []) ∷ slice_of 2 (5 ∷ []) ∷ slice_of 1 (3 ∷ 4 ∷ []) ∷ []

first-IsSlice : IsSlice 9 3 2 message first
first-IsSlice = record {
  same_seq = refl;
  same_slices = refl;
  in_range = omega arith;
  sized = refl;
  bytes = refl;
}

others-Slices : Slices 9 3 2 message (first ∷ others)
others-Slices = (
  first-IsSlice,
  (
    record {
      same_seq = refl;
      same_slices = refl;
      in_range = omega arith;
      sized = refl;
      bytes = refl;
    },
    (
      first-IsSlice,
      (
        record {
          same_seq = refl;
          same_slices = refl;
          in_range = omega arith;
          sized = refl;
          bytes = refl;
        },
        tt,
      ),
    ),
  ),
)

init_package-collect_example :
    (c : Combine) × (Option.bind (init_package blank small first 2) (λ c₁. collect c₁ others)
      ≡ some c)
    × ((is_done c ≡ true) ↔ ((i : ℕ) → i < 3 → has i (first ∷ others) ≡ true))
    × (is_done c ≡ true → (c.pack.data_size ≡ 5) × (take 5 c.pack.body ≡ message))
unfolding start_package
init_package-collect_example =
    init_package-collect blank small first others (omega arith) (omega arith) (omega arith)
      others-Slices

put_package-Collecting_example :
    (c : Combine) × (put_package (start_package blank small first 2) first ≡ some (true, c))
    × Collecting 9 3 2 message c
    × Adds 2 (start_package blank small first 2) c
unfolding start_package
put_package-Collecting_example =
    put_package-Collecting (omega arith) (omega arith)
      (start_package-Collecting blank small first-IsSlice (omega arith)) first-IsSlice

is_slice_mask-add_slice_mask_example :
    is_slice_mask 40 (some (add_slice_mask 33 no_masks))
    ≡ ((33 == 40) || is_slice_mask 40 (some no_masks))
is_slice_mask-add_slice_mask_example =
    is_slice_mask-add_slice_mask 33 40 no_masks (omega arith) (omega arith) refl

-- Three slices of 1360 bytes and the head are 4104 bytes, and the new buffer has 8192.
room-start_package_example :
    let p = slice_of 0 (1 ∷ []) in
    let room = length (start_package blank small p 1360).pack.body in
    (40 < 4080 → (4084 ≤ room) ↔ ((1 ≤ 4104 % 4096) × (4104 % 4096 ≤ 4092)))
    × (4080 ≤ 40 → (4084 ≤ room) ↔ (4108 ≤ 40))
room-start_package_example =
    room-start_package blank blank-Allocates small (slice_of 0 (1 ∷ [])) 1360 refl
