-- ===== src/SendCache/Tests.antt =====
-- A cache with nothing in it, a message of five bytes in slices of two, and the theorems at them.
use rv_receive.Base.{
  ℕ, ◌+◌, ◌-◌, ◌≤◌, ◌≡◌, refl, true, false, ◌&&◌, ◌||◌, none, some, List, [], ◌∷◌, arith, ltb, leb,
  if◌then◌else◌, length, take, replicate, length-replicate, get_elem?,
}
use rv_receive.Base.Int.{ℤ, pos}
use rv_receive.Message.{Packet, sockmagic_head, type_media_videodata}
use rv_receive.Mask.{is_slice_mask, no_masks, request_masks}
use rv_receive.Combine.{Combine, PackData, is_done, start_package}
use rv_receive.Combine.Collect.{IsSlice, Collecting}
use rv_receive.Combine.Put.{put_package-Collecting}
use rv_receive.Combine.Reassembly.{has, collect, start_package-Collecting}
use rv_receive.Combine.Room.{Allocates}
use rv_receive.UdpCombine.{CombineCache}
use rv_receive.SendCache.{SendCache, SockAddr, make_package, send_l, send_range, find_pack}
use rv_receive.SendCache.Count.{AllAsked, send_l-AllAsked}
use rv_receive.SendCache.Kept.{Add, add_all, packs, find_pack-add_all}
use rv_receive.SendCache.Recovery.{send_l-recovers}
use rv_receive.SendCache.{add_package_data, drop_oldest}
use rv_receive.SendCache.Ranges.{queued, is_some, is_set, queued-send_range}
use rv_receive.Message.{udprange_start, udprange_end}

abbrev empty_cache : SendCache
empty_cache = record { seq = 7; pack_list = []; send_list = [] }

abbrev all_sent : ℕ → ℤ
all_sent i = pos 26

abbrev message : List ℕ
message = 1 ∷ 2 ∷ 3 ∷ 4 ∷ 5 ∷ []

abbrev peer : SockAddr
peer = record { sin_port = 53000; s_addr = 1 }

abbrev blank : ℕ → PackData
blank total = record {
  seq = 0;
  type = 0;
  slices = 0;
  data_size = 0;
  time = 0;
  body = replicate (total - 24) 0;
}

blank-Allocates : Allocates blank
blank-Allocates total = length-replicate (total - 24) 0

send_l-AllAsked_example :
    (r : List Packet × ℤ) × (send_l all_sent 2
        (make_package empty_cache type_media_videodata message 2 9)
        none
      ≡ some r)
    × AllAsked 7 3 2 message none r.0
send_l-AllAsked_example =
    send_l-AllAsked empty_cache type_media_videodata 9 2 message all_sent none (λ i. refl)
      (omega arith) (omega arith) (omega arith)

abbrev one_call : Add
one_call = record { type = type_media_videodata; bytes = message; slice_size = 2; now = 9 }

find_pack-add_all_example :
    find_pack (7 + 1) (add_all empty_cache (replicate 31 one_call)).pack_list
    ≡ (if ltb (1 + 30) 31 then none else get_elem? (packs empty_cache (replicate 31 one_call)) 1)
find_pack-add_all_example =
    find_pack-add_all empty_cache (replicate 31 one_call) 1 refl (omega arith)

abbrev waiting_cache : CombineCache
waiting_cache = record {
  data_type = type_media_videodata;
  seq_report = 7;
  retry_count = 0;
  resend_timestamp = 0;
  pack_list = [];
}

abbrev small : Combine
small = record {
  all_buf_size = 40;
  pack = blank 40;
  one_pack_size = 0;
  recv_packages = 0;
  slices_mask = no_masks;
}

abbrev middle : Packet
middle = record {
  magic = sockmagic_head;
  seq = 7;
  type = type_media_videodata;
  slices = 3;
  cur_slice = 1;
  data_size = 2;
  time = 9;
  payload = 3 ∷ 4 ∷ [];
}

middle-IsSlice : IsSlice 7 3 2 message middle
middle-IsSlice = record {
  same_seq = refl;
  same_slices = refl;
  in_range = omega arith;
  sized = refl;
  bytes = refl;
}

small_room : 10 ≤ length (start_package blank small middle 2).pack.body
unfolding start_package
small_room = omega arith

-- The middle slice has come, the others are missing.
with_middle : (c : Combine) × Collecting 7 3 2 message c
with_middle =
    let (c, e, v, adds) =
      put_package-Collecting (omega arith) (omega arith)
        (start_package-Collecting blank small middle-IsSlice small_room) middle-IsSlice in
    (c, v)

send_l-recovers_example :
    (r : List Packet × ℤ) × (c' : Combine) × (send_l all_sent 2
        (make_package empty_cache type_media_videodata message 2 9)
        (some (request_masks with_middle.0.slices_mask))
      ≡ some r)
    × ((i : ℕ) → has i r.0 ≡ true → is_slice_mask i (some with_middle.0.slices_mask) ≡ false)
    × (collect with_middle.0 r.0 ≡ some c')
    × (is_done c' ≡ true)
    × (c'.pack.data_size ≡ 5)
    × (take 5 c'.pack.body ≡ message)
send_l-recovers_example =
    send_l-recovers all_sent empty_cache type_media_videodata 9 2 message with_middle.0 (λ i. refl)
      (omega arith) (omega arith) (omega arith) (omega arith) with_middle.1

abbrev kept_two : SendCache
kept_two = add_all empty_cache (replicate 2 one_call)

-- The kept packets have the numbers 7 and 8; END is set.
queued-send_range_example :
    queued 8 (send_range kept_two (pos 3) (some peer) 2 7 7 udprange_end).send_list ≡ (
      queued 8 kept_two.send_list
      || ((is_set udprange_end udprange_start || leb 7 8)
          && (is_set udprange_end udprange_end || ltb 8 7)
          && is_some (find_pack 8 kept_two.pack_list)))
unfolding add_all add_package_data drop_oldest
queued-send_range_example =
    queued-send_range kept_two (pos 3) (some peer) 2 7 7 udprange_end 0 8
      ((omega arith, omega arith), ((omega arith, omega arith), tt))
