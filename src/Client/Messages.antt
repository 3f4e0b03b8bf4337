-- ===== src/Client/Messages.antt =====
-- socket/TcpClient.cpp: what a client does on each message (DoRecvMessage).
use Prim.Native.Nat.{bit_and}
use rv_receive.Base.{
  ℕ, ◌-◌, ◌%◌, ◌^◌, min, Bool, true, ◌&&◌, ◌||◌, none, some, List, [], ◌∷◌, ◌++◌, ltb, leb, ◌==◌,
  if◌then◌else◌, take, drop,
}
use rv_receive.Message.{
  type_client_name, type_client_info, type_media_videodata, type_media_audiodata,
  type_socket_heartbeat, type_udp_support, type_udp_request, type_udp_request2,
  type_mirror_resolution, type_mirror_resolution2, type_mirror_stop, type_network_echotest,
  type_request_clientinfo,
}
use rv_receive.Base.Int.{signed32}
use rv_receive.Mask.{Masks}
use rv_receive.Combine.{PackData}
use rv_receive.Stream.{to_bytes}
use rv_receive.Client.Playing.{put_data, stop_ctrl, start_mirror}
use rv_receive.Client.{
  UdpClient, Client, Players, Report, hbflag_clientinfo, field, re_send, re_send_range, send,
  new_client, message,
}

-- The heartbeat is answered by one that carries its number, or is an answer itself.
unfoldable pub answer_heartbeat : Client → List ℕ → ℕ → List Report × Client
answer_heartbeat c hb now =
    if field hb 8 4 == 0
    then (
      [],
      send c type_socket_heartbeat
          (to_bytes 4 (field hb 0 4)
            ++ (to_bytes 4 (field hb 4 4)
                ++ (to_bytes 4 (field hb 4 4) ++ to_bytes 4 c.heartbeat_flags)))
          now,
    )
    else (
      if bit_and (field hb 12 4) hbflag_clientinfo == 0
          then []
          else message type_request_clientinfo [] ∷ [],
      c,
    )

unfoldable pub on_heartbeat : Client → PackData → ℕ → List Report × Client
on_heartbeat c p now = answer_heartbeat c (take (min 16 p.data_size) p.body) now

-- The client is new until it is reported.
abbrev pub report_new : Client → List Report
report_new c = if c.new_client_reported then [] else new_client c.addr ∷ []

unfoldable pub on_client_info : Client → PackData → List Report × Client
on_client_info c p = (
  report_new c ++ (message type_client_name (take 64 (drop 112 p.body)) ∷ []),
  record c {
    new_client_reported = true;
    heartbeat_flags = c.heartbeat_flags - c.heartbeat_flags % 2;
  },
)

-- There is a buffer, and the data fit in it.
abbrev pub fits : ℕ → PackData → Bool
fits len p = ltb 0 len && leb p.data_size len

-- The port is an `int` of which `htons` keeps sixteen bits, and the size of a slice an `int`.
unfoldable pub on_udp_support : Client → PackData → ℕ → Client
on_udp_support c p new_fd =
    let made : UdpClient = record {
      fd_socket = new_fd;
      addr = record { sin_port = field p.body 4 4 % 2 ^ 16; s_addr = c.addr.s_addr };
      slice_size = signed32 (field p.body 8 4);
    } in
    record c {
      udp_client = some (elim c.udp_client [ some u ↦ u | none ↦ made ]);
      udp_support_type = field p.body 12 4;
    }

abbrev pub masks_at : List ℕ → Masks
masks_at bs =
    field bs 12 4
    ∷ field bs 16 4
    ∷ field bs 20 4
    ∷ field bs 24 4
    ∷ field bs 28 4
    ∷ field bs 32 4
    ∷ field bs 36 4
    ∷ field bs 40 4
    ∷ []

unfoldable pub on_udp_request : Client → PackData → Client
unfolding re_send
on_udp_request c p = elim c.udp_client [
  | none ↦ c
  | some u ↦ re_send c u (field p.body 4 4) (field p.body 8 4) (masks_at p.body)
]

unfoldable pub on_udp_request2 : Client → PackData → Client
unfolding re_send_range
on_udp_request2 c p = elim c.udp_client [
  | none ↦ c
  | some u ↦
      re_send_range c u (field p.body 4 4) (field p.body 8 4) (field p.body 12 4)
        (field p.body 16 4)
]

-- An echo is answered by its times, unless it is an answer.
unfoldable pub on_echo : Client → PackData → ℕ → Client
unfolding send
on_echo c p now =
    if field p.body 8 4 == 0
    then (send c type_network_echotest
        (to_bytes 4 32
          ++ (to_bytes 4 0
              ++ (to_bytes 4 (field p.body 4 4)
                  ++ (to_bytes 4 0
                      ++ (to_bytes 8 (field p.body 16 8) ++ to_bytes 8 (field p.body 24 8))))))
        now)
    else c

abbrev pub is_start : ℕ → Bool
is_start type = (type == type_mirror_resolution) || (type == type_mirror_resolution2)

abbrev pub passed_on : PackData → List Report
passed_on p = message p.type (take p.data_size p.body) ∷ []

-- `DoRecvMessage`. What `socket` returns is `new_fd`.
unfoldable pub do_recv_message :
    Client → Players → PackData → ℕ → ℕ → List Report × Client × Players
do_recv_message client ps p now new_fd =
    let c = record client { recv_timeout_counter = 0 } in
    if p.type == type_client_name
    then (
      report_new c ++ (message type_client_name (take p.data_size p.body) ∷ []),
      record c { new_client_reported = true },
      ps,
    )
    else if p.type == type_client_info
    then (let r = on_client_info c p in (r.0, r.1, ps))
    else if p.type == type_media_videodata
    then (
      [],
      if fits c.len_buf_video p
          then record c { received_video = put_data c.received_video p }
          else c,
      ps,
    )
    else if p.type == type_media_audiodata
    then (
      [],
      if fits c.len_buf_audio p
          then record c { received_audio = put_data c.received_audio p }
          else c,
      ps,
    )
    else if p.type == type_socket_heartbeat
    then (let r = on_heartbeat c p now in (r.0, r.1, ps))
    else if p.type == type_udp_support
    then ([], on_udp_support c p new_fd, ps)
    else if p.type == type_udp_request
    then ([], on_udp_request c p, ps)
    else if p.type == type_udp_request2
    then ([], on_udp_request2 c p, ps)
    else if p.type == type_network_echotest
    then ([], on_echo c p now, ps)
    else if is_start p.type
    then (let r = start_mirror c ps now in ([], r.0, r.1))
    else if p.type == type_mirror_stop
    then (let r = stop_ctrl c ps in (passed_on p, r.0, r.1))
    else (passed_on p, c, ps)
