-- ===== src/UdpCombine.antt =====
-- socket/UdpCombinePackage: UDP slices brought back to whole packets. Video packets wait in a list
-- sorted by sequence number, and what is missing is requested again; audio has one packet at a time.
-- `timestamp()` is an argument; sequence numbers are `uint32_t`. What the code sends or reports is a
-- list of events; the client's handling of them does not come back to this state.
pub mod Order
pub mod Steps
pub mod Reports
pub mod Run
pub mod Deliver
pub mod Gaps
pub mod Requests
pub mod Audio
pub mod Types
mod Tests
use mathlib.Core.Option
use rv_receive.Base.{
  ℕ, ◌+◌, ◌-◌, ◌*◌, ◌%◌, ◌^◌, Bool, true, false, not, ◌&&◌, ◌||◌, Option, none, some, List, [], ◌∷◌,
  ltb, leb, ◌==◌, if◌then◌else◌, length,
}
use rv_receive.Base.Int.{ℤ, pos, negsuc}
use rv_receive.Message.{
  Packet, UdpPackageReply, UdpPackageReply2, udp_packength, type_media_videodata,
  type_media_audiodata,
}
use rv_receive.Mask.{no_masks, request_masks}
use rv_receive.Combine.{
  Combine, PackData, put_package, init_package, alloc_buffer, is_done, reset_data,
}

-- `(int32_t)(b) - (int32_t)(a) < 0`, where the subtraction wraps.
abbrev pub time_after : ℕ → ℕ → Bool
time_after a b = leb (2 ^ 31) ((b + 2 ^ 32 - a) % 2 ^ 32)

abbrev pub next_seq : ℕ → ℕ
next_seq s = (s + 1) % 2 ^ 32

-- What leaves: the two requests to the sender, and a packet reported to the client.
pub data Event : Type 0 where
  request : UdpPackageReply → Event
  request_range : UdpPackageReply2 → Event
  report : PackData → Event
  report_slice : Packet → Event

pub record CombineCache : Type 0 where
  pub data_type : ℕ
  pub seq_report : ℕ
  pub retry_count : ℕ
  pub resend_timestamp : ℕ
  pub pack_list : List Combine

pub record UdpCombine : Type 0 where
  pub video_cache : CombineCache
  pub combine_audio : Combine

abbrev pub count_retry : ℕ
count_retry = 5

abbrev pub interval_retry : ℕ
interval_retry = 100 * 1000

abbrev pub has_seq : ℕ → List Combine → Bool
has_seq s [] = false
has_seq s (c ∷ cs) = (c.pack.seq == s) || has_seq s cs

-- The slice goes to the first packet with its sequence number.
pub put_in : List Combine → Packet → Option (List Combine)
put_in [] p = some []
put_in (c ∷ cs) p =
    let rest = Option.map (◌∷◌ c) (put_in cs p) in
    if c.pack.seq == p.seq then Option.map (λ r. r.1 ∷ cs) (put_package c p) else rest

-- `while (packList.size() >= 15)`: the oldest go.
pub trim : List Combine → List Combine
trim [] = []
trim (c ∷ cs) = if leb 15 (length (c ∷ cs)) then trim cs else c ∷ cs

-- Before the first packet that is later.
pub insert : Combine → List Combine → List Combine
insert n [] = n ∷ []
insert n (c ∷ cs) = if time_after c.pack.seq n.pack.seq then n ∷ c ∷ cs else c ∷ insert n cs

find_from : ℕ → List Combine → ℤ
find_from i [] = negsuc 0
find_from i (c ∷ cs) = if is_done c then pos i else find_from (i + 1) cs

-- The index of the first packet that is done, or -1.
pub find_full_package : List Combine → ℤ
find_full_package cs = find_from 0 cs

abbrev pub is_pos : ℤ → Bool
is_pos (pos i) = ltb 0 i
is_pos (negsuc i) = false

abbrev pub is_empty : List Combine → Bool
is_empty [] = true
is_empty (c ∷ cs) = false

-- The packets that are done, from the front on, are reported.
pub flush : List Combine → CombineCache → List Event × CombineCache
flush [] cache = ([], record cache { pack_list = [] })
flush (c ∷ cs) cache =
    let rest = flush cs (record cache { seq_report = next_seq c.pack.seq; retry_count = 0 }) in
    if is_done c
    then (report c.pack ∷ rest.0, rest.1)
    else ([], record cache { pack_list = c ∷ cs })

-- After too many requests the packets that are not done are dropped, up to the first that is.
pub give_up : List Combine → CombineCache → CombineCache
give_up [] cache = record cache { pack_list = [] }
give_up (c ∷ cs) cache =
    let moved = record cache { seq_report = next_seq c.pack.seq } in
    if is_done c then record moved { pack_list = c ∷ cs } else give_up cs moved

-- A request is sent at most once in an interval, and counts as a try.
abbrev pub due : CombineCache → ℕ → Bool
due cache now = leb (cache.resend_timestamp + interval_retry) now

abbrev pub tried : CombineCache → ℕ → CombineCache
tried cache now = record cache { resend_timestamp = now; retry_count = cache.retry_count + 1 }

-- The first packet is not the next one, so that packets before it are missing.
pub ask_range : Combine → CombineCache → ℕ → List Event × CombineCache
ask_range c cache now =
    if due cache now
    then (
      request_range (record {
        type = cache.data_type;
        seq_start = cache.seq_report;
        seq_end = c.pack.seq;
        flag = 0;
      })
          ∷ [],
      tried cache now,
    )
    else ([], cache)

abbrev pub slices_request : Combine → Event
slices_request c =
    request
      (record { type = c.pack.type; seq = c.pack.seq; slices_mask = request_masks c.slices_mask })

-- What follows on a slice that was put into the list. It is never empty there.
pub respond : List Combine → CombineCache → ℕ → List Event × CombineCache
respond [] cache now = ([], cache)
respond (c ∷ cs) cache now =
    if ltb cache.retry_count count_retry
    then (if not (cache.seq_report == c.pack.seq)
        then ask_range c cache now
        else if is_pos (find_full_package (c ∷ cs)) && due cache now
        then (slices_request c ∷ [], tried cache now)
        else flush (c ∷ cs) cache)
    else (let left = record (give_up (c ∷ cs) cache) { retry_count = 0 } in
        flush left.pack_list left)

module _ (new_buffer : ℕ → PackData) where
  -- `new CombinePackage()`, whose fields are all set before they are read.
  pub blank_combine : Combine
  blank_combine = record {
    all_buf_size = 0;
    pack = new_buffer 0;
    one_pack_size = 0;
    recv_packages = 0;
    slices_mask = no_masks;
  }

  pub new_package : Packet → Option Combine
  new_package p =
      init_package new_buffer (alloc_buffer new_buffer blank_combine (p.slices * udp_packength)) p
        udp_packength

  -- `CombineCache::OnUdpSliceReceived`.
  pub on_video_slice : CombineCache → Packet → ℕ → Option (List Event × CombineCache)
  on_video_slice cache p now =
      let kept = trim cache.pack_list in
      if has_seq p.seq cache.pack_list
      then Option.map (λ l. respond l (record cache { pack_list = l }) now)
          (put_in cache.pack_list p)
      else if not (is_empty kept) && time_after cache.seq_report p.seq
      then some ([], record cache { pack_list = kept })
      else Option.map (λ c. let l = insert c kept in respond l (record cache { pack_list = l }) now)
          (new_package p)

  -- One audio packet at a time: a later one replaces it, an earlier one is dropped.
  pub take_audio : Combine → Packet → Option Combine
  take_audio c p =
      if not (c.pack.seq == p.seq)
      then if time_after p.seq c.pack.seq then init_package new_buffer c p udp_packength else some c
      else Option.map (λ r. r.1) (put_package c p)

  pub on_audio_slice : Combine → Packet → Option (List Event × Combine)
  on_audio_slice c p =
      Option.map (λ c'. if is_done c' then (report c'.pack ∷ [], reset_data c') else ([], c'))
        (take_audio c p)

  -- `UdpCombinePackage::OnUdpSliceReceived`, by the type of the packet.
  unfoldable pub on_slice : UdpCombine → Packet → ℕ → Option (List Event × UdpCombine)
  on_slice u p now =
      if p.type == type_media_videodata
      then Option.map (λ r. (r.0, record u { video_cache = r.1 }))
          (on_video_slice u.video_cache p now)
      else if p.type == type_media_audiodata
      then Option.map (λ r. (r.0, record u { combine_audio = r.1 }))
          (on_audio_slice u.combine_audio p)
      else some (if p.slices == 1 then report_slice p ∷ [] else [], u)
