-- ===== src/Client/Address.antt =====
-- A client keeps its address and its socket, whatever message it handles.
use rv_receive.Base.{
  Bool-cases, inl, inr, ℕ, ◌≡◌, refl, Bool, true, false, List, [], ◌∷◌, ◌++◌, arith, ◌==◌,
  if◌then◌else◌,
}
use rv_receive.Combine.{PackData}
use rv_receive.Message.{
  type_request_quality, type_client_name, type_client_info, type_media_videodata,
  type_media_audiodata, type_socket_heartbeat, type_udp_support, type_udp_request,
  type_udp_request2, type_network_echotest, type_mirror_stop,
}
use rv_receive.Stream.{to_bytes}
use rv_receive.SendQueue.{clear_audio_data, clear_video_data}
use rv_receive.SendCache.{SendCache}
use rv_receive.Client.{
  Client, UdpClient, Players, Report, send, set_cache, udp_send, re_send, re_send_range,
}
use rv_receive.Client.Playing.{
  put_data, quality_of, succ_ℤ, send_request_quality, stop_ctrl, start_mirror,
}
use rv_receive.Client.Messages.{
  fits, is_start, answer_heartbeat, on_heartbeat, on_client_info, on_udp_support, on_udp_request,
  on_udp_request2, on_echo, do_recv_message,
}

abbrev pub SameAddr : Client → Client → Type 0
SameAddr c d = (d.addr ≡ c.addr) × (d.fd_socket ≡ c.fd_socket)

-- Either of two outcomes, of which `get` is the client.
either :
    {A : Type 0} (get : A → Client) (c : Client) (b : Bool) (x y : A)
    → SameAddr c (get x)
    → SameAddr c (get y)
    → SameAddr c (get (if b then x else y))
either get c true x y h k = h
either get c false x y h k = k

set_cache-SameAddr : (c : Client) (type : ℕ) (s : SendCache) → SameAddr c (set_cache c type s)
set_cache-SameAddr c type s = (ground arith, ground arith)

udp_send-SameAddr :
    (c : Client) (u : UdpClient) (type : ℕ) (bytes : List ℕ) (now : ℕ)
    → SameAddr c (udp_send c u type bytes now)
unfolding udp_send
udp_send-SameAddr c u type bytes now = (ground arith, ground arith)

pub send-SameAddr :
    (c : Client) (type : ℕ) (bytes : List ℕ) (now : ℕ) → SameAddr c (send c type bytes now)
unfolding send
send-SameAddr c type bytes now =
    (ground (arith, udp_send-SameAddr c), ground (arith, udp_send-SameAddr c))

request_quality-SameAddr :
    (c : Client) (ps : Players) (now : ℕ) → SameAddr c (send_request_quality c ps now)
unfolding send_request_quality
request_quality-SameAddr c ps now =
    let q = quality_of ps.client_player_num in
    let s =
      send-SameAddr (record c { src_w = q.1; src_h = q.2 }) type_request_quality
        (to_bytes 4 20 ++ (to_bytes 4 q.1 ++ (to_bytes 4 q.2 ++ (to_bytes 4 q.0 ++ to_bytes 4 0))))
        now in
    (s.0, s.1)

heartbeat-SameAddr : (c : Client) (p : PackData) (now : ℕ) → SameAddr c (on_heartbeat c p now).1
unfolding on_heartbeat answer_heartbeat
heartbeat-SameAddr c p now =
    either (λ (r : List Report × Client). r.1) c _ _ _ (send-SameAddr c _ _ _) (refl, refl)

support-SameAddr : (c : Client) (p : PackData) (new_fd : ℕ) → SameAddr c (on_udp_support c p new_fd)
unfolding on_udp_support
support-SameAddr c p new_fd = (refl, refl)

re_send-SameAddr : (c : Client) (p : PackData) → SameAddr c (on_udp_request c p)
unfolding on_udp_request re_send
re_send-SameAddr c p = (ground arith, ground arith)

re_send_range-SameAddr : (c : Client) (p : PackData) → SameAddr c (on_udp_request2 c p)
unfolding on_udp_request2 re_send_range
re_send_range-SameAddr c p = (ground arith, ground arith)

echo-SameAddr : (c : Client) (p : PackData) (now : ℕ) → SameAddr c (on_echo c p now)
unfolding on_echo
echo-SameAddr c p now = (ground (arith, send-SameAddr c), ground (arith, send-SameAddr c))

start-SameAddr : (c : Client) (ps : Players) (now : ℕ) → SameAddr c (start_mirror c ps now).0
unfolding start_mirror
start-SameAddr c ps now =
    let cleared : Client = record c {
      send_cache_manager = clear_video_data (clear_audio_data c.send_cache_manager);
    } in
    let joined : Players = record {
      client_player_num = succ_ℤ ps.client_player_num;
      client_player_list = ps.client_player_list ++ (c.client_id ∷ []);
    } in
    let s = request_quality-SameAddr cleared joined now in
    either (λ (r : Client × Players). r.0) c c.working _ _ (refl, refl) (s.0, s.1)

stop-SameAddr : (c : Client) (ps : Players) → SameAddr c (stop_ctrl c ps).0
unfolding stop_ctrl
stop-SameAddr c ps = (refl, refl)

pub do_recv_message-SameAddr :
    (c : Client) (ps : Players) (p : PackData) (now new_fd : ℕ)
    → SameAddr c (do_recv_message c ps p now new_fd).1
unfolding do_recv_message on_client_info
do_recv_message-SameAddr client ps p now new_fd =
    let c : Client = record client { recv_timeout_counter = 0 } in
    elim (Bool-cases (p.type == type_client_name)) [
      | inl e ↦ rw e ((refl, refl))
      | inr n0 ↦ elim (Bool-cases (p.type == type_client_info)) [
        | inl e ↦ rw (n0, e) ((refl, refl))
        | inr n1 ↦ elim (Bool-cases (p.type == type_media_videodata)) [
          | inl e ↦
              rw (n0, n1, e)
                (either (λ (x : Client). x) client (fits c.len_buf_video p)
                  (record c { received_video = put_data c.received_video p }) c (refl, refl)
                  (refl, refl))
          | inr n2 ↦ elim (Bool-cases (p.type == type_media_audiodata)) [
            | inl e ↦
                rw (n0, n1, n2, e)
                  (either (λ (x : Client). x) client (fits c.len_buf_audio p)
                    (record c { received_audio = put_data c.received_audio p }) c (refl, refl)
                    (refl, refl))
            | inr n3 ↦ elim (Bool-cases (p.type == type_socket_heartbeat)) [
              | inl e ↦ rw (n0, n1, n2, n3, e) (heartbeat-SameAddr c p now)
              | inr n4 ↦ elim (Bool-cases (p.type == type_udp_support)) [
                | inl e ↦ rw (n0, n1, n2, n3, n4, e) (support-SameAddr c p new_fd)
                | inr n5 ↦ elim (Bool-cases (p.type == type_udp_request)) [
                  | inl e ↦ rw (n0, n1, n2, n3, n4, n5, e) (re_send-SameAddr c p)
                  | inr n6 ↦ elim (Bool-cases (p.type == type_udp_request2)) [
                    | inl e ↦ rw (n0, n1, n2, n3, n4, n5, n6, e) (re_send_range-SameAddr c p)
                    | inr n7 ↦ elim (Bool-cases (p.type == type_network_echotest)) [
                      | inl e ↦ rw (n0, n1, n2, n3, n4, n5, n6, n7, e) (echo-SameAddr c p now)
                      | inr n8 ↦ elim (Bool-cases (is_start p.type)) [
                        | inl e ↦
                            rw (n0, n1, n2, n3, n4, n5, n6, n7, n8, e) (start-SameAddr c ps now)
                        | inr n9 ↦ elim (Bool-cases (p.type == type_mirror_stop)) [
                          | inl e ↦
                              rw (n0, n1, n2, n3, n4, n5, n6, n7, n8, n9, e) (stop-SameAddr c ps)
                          | inr n10 ↦ rw (n0, n1, n2, n3, n4, n5, n6, n7, n8, n9, n10) (refl, refl)
                        ]
                      ]
                    ]
                  ]
                ]
              ]
            ]
          ]
        ]
      ]
    ]
