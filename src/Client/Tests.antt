-- ===== src/Client/Tests.antt =====
-- A client and its server's counters, and the theorems at them.
use rv_receive.Base.{◌≡◌, ◌≤◌, inl, refl, true, none, [], ◌∷◌, ◌++◌, arith, ℕ, List, length}
use rv_receive.Base.Int.{pos, negsuc}
use rv_receive.Message.{
  type_mirror_stop, type_socket_heartbeat, type_udp_support, type_media_videodata,
}
use rv_receive.Combine.{PackData}
use rv_receive.SendCache.{SendCache}
use rv_receive.SendQueue.{ThreadSendData}
use rv_receive.Client.{Client, Players}
use rv_receive.Client.Messages.{do_recv_message}
use rv_receive.Client.Counting.{Counted, do_recv_message-Counted, do_recv_message_uncounted}
use rv_receive.Client.Commands.{OnTcp, queued}
use rv_receive.Client.Heartbeat.{heartbeat, IsHeartbeat, wants_info, do_recv_message-heartbeat}
use rv_receive.Client.Support.{udp_support_msg}
use rv_receive.Client.Processor.{video, Round, h264, report_rounds}
use rv_receive.Client.Processor.Order.{report_rounds-order}
use rv_receive.Client.Processor.Live.{waiting}
use rv_receive.Client.Processor.Changed.{IsBehind, report_rounds-IsBehind}

abbrev empty_cache : SendCache
empty_cache = record { seq = 0; pack_list = []; send_list = [] }

abbrev client : Client
client = record {
  client_id = 1;
  running = true;
  fd_socket = 5;
  addr = record { sin_port = 4000; s_addr = 9 };
  working = true;
  media_decoder_ready = true;
  new_client_reported = true;
  heartbeat_flags = 0;
  recv_timeout_counter = 0;
  len_buf_video = 2097152;
  len_buf_audio = 2048;
  received_audio = [];
  received_video = [];
  udp_client = none;
  udp_support_type = 0;
  send_cache_manager = record { cmd_list = []; audio_list = []; video_list = [] };
  send_video_cache = empty_cache;
  send_audio_cache = empty_cache;
  send_cmd_cache = empty_cache;
  src_w = 1920;
  src_h = 1080;
  m_num = pos 1;
}

abbrev stop : PackData
stop = record {
  seq = 3;
  type = type_mirror_stop;
  slices = 1;
  data_size = 0;
  time = 0;
  body = 0 ∷ 0 ∷ 0 ∷ 0 ∷ [];
}

abbrev playing : Players
playing = record { client_player_num = pos 1; client_player_list = 1 ∷ [] }

abbrev no_players : Players
no_players = record { client_player_num = pos 0; client_player_list = [] }

do_recv_message-Counted_example : Counted (do_recv_message client playing stop 10 0).2
do_recv_message-Counted_example = do_recv_message-Counted client playing stop 10 0 refl (λ e. refl)

do_recv_message_uncounted_example :
    let after = (do_recv_message client no_players stop 10 0).2 in
    (after.client_player_list ≡ []) × (after.client_player_num ≡ negsuc 0)
do_recv_message_uncounted_example =
    do_recv_message_uncounted client no_players stop 10 0 refl refl refl

abbrev heartbeat_of : List ℕ → PackData
heartbeat_of bytes = record {
  seq = 4;
  type = type_socket_heartbeat;
  slices = 1;
  data_size = 16;
  time = 0;
  body = bytes;
}

abbrev begun : IsHeartbeat (heartbeat_of (heartbeat 7 0 0 ++ (0 ∷ []))) 7 0 0
begun = record {
  rest = 0 ∷ [];
  of_type = refl;
  of_size = refl;
  of_body = refl;
  id_fits = omega arith;
  rid_fits = omega arith;
  flags_fit = omega arith;
}

abbrev back : IsHeartbeat (heartbeat_of (heartbeat 7 7 1)) 7 7 1
back = record {
  rest = [];
  of_type = refl;
  of_size = refl;
  of_body = refl;
  id_fits = omega arith;
  rid_fits = omega arith;
  flags_fit = omega arith;
}

abbrev asking : Client
asking = record client { heartbeat_flags = 1; recv_timeout_counter = 3 }

asking-OnTcp : OnTcp asking
asking-OnTcp = record {
  running = refl;
  connected = λ e. omega (arith, e);
  not_udp = inl refl;
  short = omega arith;
}

do_recv_message-heartbeat_example :
    (do_recv_message asking playing (heartbeat_of (heartbeat 7 0 0 ++ (0 ∷ []))) 20 0 ≡ (
      [],
      queued
          (record asking { recv_timeout_counter = 0 })
          type_socket_heartbeat
          (heartbeat 7 7 1)
          20,
      playing,
    ))
    × (do_recv_message client no_players (heartbeat_of (heartbeat 7 7 1)) 30 0
        ≡ (wants_info 1, record client { recv_timeout_counter = 0 }, no_players))
do_recv_message-heartbeat_example =
    do_recv_message-heartbeat asking client playing no_players
      (heartbeat_of (heartbeat 7 0 0 ++ (0 ∷ []))) (heartbeat_of (heartbeat 7 7 1)) 7 0 20 30 0 0
      asking-OnTcp begun back (omega arith)

abbrev support : PackData
support = record {
  seq = 1;
  type = type_udp_support;
  slices = 1;
  data_size = 16;
  time = 0;
  body = udp_support_msg 30001 1 ++ (0 ∷ []);
}

abbrev data_of : List ℕ → ThreadSendData
data_of bytes = record {
  type = type_media_videodata;
  data_size = length bytes;
  time = 0;
  body = bytes;
}

abbrev loaded : Client
loaded = record client { received_video = data_of (1 ∷ 2 ∷ []) ∷ data_of (3 ∷ []) ∷ [] }

abbrev picture_data : PackData
picture_data = record {
  seq = 5;
  type = type_media_videodata;
  slices = 1;
  data_size = 2;
  time = 0;
  body = 4 ∷ 5 ∷ 0 ∷ [];
}

abbrev two_rounds : List Round
two_rounds =
    record { put = picture_data ∷ []; during = []; now = 1; still = true }
    ∷ record { put = []; during = picture_data ∷ picture_data ∷ []; now = 2; still = true }
    ∷ []

report_rounds-order_example :
    let q = report_rounds video loaded playing two_rounds in
    (q.0 ++ waiting q.1.received_video
      ≡ h264 (1 ∷ 2 ∷ [])
        ∷ h264 (3 ∷ [])
        ∷ h264 (4 ∷ 5 ∷ [])
        ∷ h264 (4 ∷ 5 ∷ [])
        ∷ h264 (4 ∷ 5 ∷ [])
        ∷ [])
    × (2 ≤ 2 → length q.0 ≡ 2)
report_rounds-order_example =
    report_rounds-order loaded playing two_rounds
      (record { running = refl; working = refl; ready = refl; same_num = refl }) (refl, (refl, tt))
      ((refl, tt), ((refl, (refl, tt)), tt))

report_rounds-IsBehind_example :
    let q = report_rounds video loaded no_players two_rounds in
    (q.0 ≡ h264 (4 ∷ 5 ∷ []) ∷ []) × IsBehind q.1 no_players
report_rounds-IsBehind_example =
    report_rounds-IsBehind video loaded no_players two_rounds
      (record { running = refl; working = refl; other_num = refl })
