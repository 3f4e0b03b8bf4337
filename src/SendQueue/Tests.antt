-- ===== src/SendQueue/Tests.antt =====
-- Lists with a few elements, a message of three bytes, and the theorems at them.
use rv_receive.Base.{
  ℕ, ◌+◌, ◌-◌, ◌≤◌, ◌≡◌, refl, List, [], ◌∷◌, arith, length, replicate, length-replicate,
}
use rv_receive.Base.Int.{pos}
use rv_receive.Message.{type_socket_heartbeat, type_media_videodata, type_media_audiodata}
use rv_receive.Mask.{no_masks}
use rv_receive.Combine.{Combine, PackData}
use rv_receive.Combine.Room.{Allocates}
use rv_receive.SendQueue.{SendCacheManager, element, get_send_data, thread_send_data}
use rv_receive.SendQueue.Order.{nothing, taken-put_all}
use rv_receive.SendQueue.Lists.{taken, found, put_all, put_all_short, put_all_audio}
use rv_receive.SendQueue.Deliver.{Delivered}
use rv_receive.SendQueue.Transfer.{Ready}
use rv_receive.SendQueue.Received.{thread_send_data-handle_all}
use rv_receive.Stream.Drain.{handle_all}

abbrev blank : ℕ → PackData
blank total = record {
  seq = 0;
  type = 0;
  slices = 0;
  data_size = 0;
  time = 0;
  body = replicate (total - 24) 0;
}

blank-Allocates : Allocates blank
blank-Allocates total = length-replicate (total - 24) 0

abbrev bytes : List ℕ
bytes = 7 ∷ 8 ∷ 9 ∷ []

abbrev two_wait : SendCacheManager
two_wait = record {
  cmd_list = element type_socket_heartbeat bytes 1 ∷ [];
  audio_list = [];
  video_list = element type_media_videodata bytes 0 ∷ [];
}

abbrev mixed_calls : List (ℕ × List ℕ × ℕ)
mixed_calls =
    (type_media_videodata, bytes, 1)
    ∷ (type_socket_heartbeat, [], 2)
    ∷ (type_media_videodata, [], 3)
    ∷ (type_media_audiodata, bytes, 4)
    ∷ []

taken-put_all_example :
    taken 4 (put_all nothing mixed_calls)
    ≡ found (
        element type_socket_heartbeat [] 2
        ∷ element type_media_audiodata bytes 4
        ∷ element type_media_videodata bytes 1
        ∷ element type_media_videodata [] 3
        ∷ [])
taken-put_all_example = taken-put_all mixed_calls (omega arith)

put_all_short_example :
    length (put_all two_wait (replicate 40 (type_media_videodata, bytes, 2))).video_list ≤ 30
put_all_short_example =
    put_all_short two_wait (replicate 40 (type_media_videodata, bytes, 2)) (omega arith)

put_all_audio_example :
    length (put_all two_wait (replicate 2 (type_media_audiodata, bytes, 2))).audio_list ≡ 0 + 2
put_all_audio_example =
    put_all_audio two_wait (replicate 2 (type_media_audiodata, bytes, 2)) (omega arith)
      (refl, (refl, tt))

-- The loop's combination as its buffer of 2 MiB is made.
abbrev fresh : Combine
fresh = record {
  all_buf_size = 2101248;
  pack = blank 2101248;
  one_pack_size = 0;
  recv_packages = 0;
  slices_mask = no_masks;
}

fresh-Ready : Ready fresh
fresh-Ready = record {
  its_body = blank-Allocates 2101248;
  page_over = refl;
  one_slice = omega arith;
}

thread_send_data-handle_all_example :
    Delivered 4 bytes (handle_all blank fresh (thread_send_data (λ i. pos 27) 4 two_wait).0)
unfolding get_send_data
thread_send_data-handle_all_example =
    thread_send_data-handle_all blank (λ i. pos 27) 4 two_wait (record two_wait { cmd_list = [] })
      type_socket_heartbeat 1 bytes fresh blank-Allocates (λ i. refl) refl (omega arith) fresh-Ready
