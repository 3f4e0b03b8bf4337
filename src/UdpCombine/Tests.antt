-- ===== src/UdpCombine/Tests.antt =====
-- Single packets and a packet in two slices, and the theorems at them.
use rv_receive.Base.{
  ℕ, ◌+◌, ◌-◌, ◌*◌, ◌≤◌, ◌≡◌, ◌≢◌, refl, true, false, some, List, [], ◌∷◌, arith, length, replicate,
  length-replicate,
}
use rv_receive.Message.{
  Packet, udp_packength, sockmagic_head, type_media_videodata, type_media_audiodata,
}
use rv_receive.Mask.{no_masks, add_slice_mask, is_slice_mask}
use rv_receive.Combine.{
  put_package, Combine, PackData, is_done, start_package, reset_data, alloc_buffer,
}
use rv_receive.Combine.Room.{Allocates, room_udp}
use rv_receive.Combine.Reassembly.{all_there}
use rv_receive.UdpCombine.{
  CombineCache, Event, report, time_after, new_package, on_video_slice, on_audio_slice, put_in,
  respond, find_full_package, find_from, flush,
}
use rv_receive.UdpCombine.Order.{seq-new_package}
use rv_receive.UdpCombine.Steps.{InOrder, Follows}
use rv_receive.UdpCombine.Reports.{on_video_slice-Follows}
use rv_receive.UdpCombine.Run.{run_video, reported}
use rv_receive.UdpCombine.Deliver.{Reports, new_package-Collecting}
use rv_receive.UdpCombine.Gaps.{reports, on_video_slice_over_gap, on_video_slice_late}
use rv_receive.UdpCombine.Audio.{Single, Single-IsSlice, on_audio_slice-order, on_audio_slice_twice}

abbrev buffer_of : ℕ → PackData
buffer_of n = record {
  seq = 0;
  type = 0;
  slices = 0;
  data_size = 0;
  time = 0;
  body = replicate n 0;
}

abbrev blank : ℕ → PackData
blank total = buffer_of (total - 24)

blank-Allocates : Allocates blank
blank-Allocates total = length-replicate (total - 24) 0

abbrev packet : ℕ → ℕ → ℕ → ℕ → List ℕ → Packet
packet type seq slices i bs = record {
  magic = sockmagic_head;
  seq = seq;
  type = type;
  slices = slices;
  cur_slice = i;
  data_size = length bs;
  time = 0;
  payload = bs;
}

abbrev single : ℕ → Packet
single seq = packet type_media_videodata seq 1 0 (seq ∷ [])

single-Single : (seq : ℕ) → Single (single seq)
single-Single seq = record { one = refl; first = refl; sized = refl; small = omega arith }

-- The packet that is made of a single slice is done.
single_made :
    (seq : ℕ) → (c : Combine) × (new_package blank (single seq) ≡ some c) × (is_done c ≡ true)
single_made seq =
    let (c, e, v, came) =
      new_package-Collecting blank blank-Allocates {msg = seq ∷ []} (omega arith) (omega arith)
        (single seq) (Single-IsSlice (single-Single seq)) in
    (c, e, all_there (omega arith) (omega arith) v (λ i h. ground (arith, came i)))

-- Packet 5 with the second of its two slices of four bytes missing.
abbrev half : Combine
half = record {
  all_buf_size = 64;
  pack = record (buffer_of 40) { seq = 5; type = type_media_videodata; slices = 2; data_size = 4 };
  one_pack_size = 4;
  recv_packages = 1;
  slices_mask = add_slice_mask 0 no_masks;
}

abbrev cache_of : List Combine → CombineCache
cache_of l = record {
  data_type = type_media_videodata;
  seq_report = 5;
  retry_count = 0;
  resend_timestamp = 0;
  pack_list = l;
}

abbrev second_slice : Packet
second_slice = packet type_media_videodata 5 2 1 (9 ∷ [])

abbrev filled : PackData
filled = record (half.pack) { data_size = 5; body = 0 ∷ 0 ∷ 0 ∷ 0 ∷ 9 ∷ replicate 35 0 }

half-InOrder : InOrder (cache_of (half ∷ []))
half-InOrder = record {
  ahead = (omega arith, omega arith, tt);
  short = omega arith;
  low = omega arith;
}

completes :
    on_video_slice blank (cache_of (half ∷ [])) second_slice 7
    ≡ some (report filled ∷ [], reported (cache_of []) 5)
unfolding on_video_slice put_in put_package respond find_full_package find_from flush is_done
    is_slice_mask add_slice_mask
completes = refl

on_video_slice-Follows_example : Follows 5 (report filled ∷ [], reported (cache_of []) 5)
on_video_slice-Follows_example =
    on_video_slice-Follows blank (cache_of (half ∷ [])) second_slice 7 half-InOrder (omega arith)
      (λ h. absurd (cc)) completes

abbrev behind : Combine
behind = (single_made 8).0

on_video_slice_over_gap_example :
    on_video_slice blank (cache_of (behind ∷ [])) (single 5) 1
    ≡ some (
      report (single_made 5).0.pack ∷ report behind.pack ∷ [],
      reported (cache_of []) behind.pack.seq,
    )
on_video_slice_over_gap_example =
    on_video_slice_over_gap blank (cache_of (behind ∷ [])) behind (single 5) 1 refl (omega arith)
      refl (omega (arith, seq-new_package blank (single 8) (single_made 8).1))
      (omega (arith, seq-new_package blank (single 8) (single_made 8).1)) (single_made 8).2
      (single_made 5).1 (single_made 5).2

on_video_slice_late_example :
    (r : List Event × CombineCache) × (run_video blank
        (cache_of [])
        ((single 3, 1) ∷ (single 5, 2) ∷ [])
      ≡ some r)
    × (reports r.0 ≡ [])
    × (r.1.pack_list ≡ (single_made 3).0 ∷ (single_made 5).0 ∷ [])
    × (r.1.seq_report ≡ 5)
on_video_slice_late_example =
    on_video_slice_late blank (cache_of []) (single 3) (single 5) 1 2 refl (omega arith)
      (omega arith) (omega arith) refl (single_made 3).1 (single_made 5).1

abbrev sound : Packet
sound = packet type_media_audiodata 2 1 0 (7 ∷ 8 ∷ [])

sound-Single : Single sound
sound-Single = record { one = refl; first = refl; sized = refl; small = omega arith }

-- As the constructor leaves it: nothing has come, and the number is -1.
abbrev idle_audio : Combine
idle_audio = alloc_buffer blank half (sound.slices * udp_packength)

idle_room :
    udp_packength + 4 ≤ length (start_package blank idle_audio sound udp_packength).pack.body
idle_room = room_udp blank blank-Allocates half sound

sound_later : time_after sound.seq idle_audio.pack.seq ≡ true
unfolding alloc_buffer
sound_later = refl

on_audio_slice-order_example :
    (time_after 2 idle_audio.pack.seq ≡ true
      → (c' : Combine) × (on_audio_slice blank idle_audio sound
          ≡ some (report c'.pack ∷ [], reset_data c'))
        × Reports 2 (7 ∷ 8 ∷ []) c'.pack)
    × (idle_audio.pack.seq ≢ 2
        → time_after 2 idle_audio.pack.seq ≡ false
        → is_done idle_audio ≡ false
        → on_audio_slice blank idle_audio sound ≡ some ([], idle_audio))
on_audio_slice-order_example = on_audio_slice-order blank idle_audio sound sound-Single idle_room

on_audio_slice_twice_example :
    (c₁ : Combine) × (c₂ : Combine) × (on_audio_slice blank idle_audio sound
      ≡ some (report c₁.pack ∷ [], reset_data c₁))
    × (on_audio_slice blank (reset_data c₁) sound ≡ some (report c₂.pack ∷ [], reset_data c₂))
    × (c₁.pack.data_size ≡ 2)
    × (c₂.pack.data_size ≡ 4)
on_audio_slice_twice_example =
    on_audio_slice_twice blank idle_audio sound sound-Single sound_later idle_room (omega arith)
