-- ===== src/Client/Heartbeat.antt =====
-- socket/TcpClient.cpp: the heartbeats of a client that connected (DoHeartbeatLoop), and how a
-- heartbeat is answered.
use Prim.Native.Nat.{bit_and}
use rv_receive.Base.{
  ℕ, ◌+◌, ◌%◌, ◌^◌, ◌<◌, ◌≡◌, refl, false, not, ◌||◌, Option, none, some, List, [], ◌∷◌, ◌++◌,
  arith, ◌==◌, if◌then◌else◌, take, min, ap, ◌∙◌,
}
use rv_receive.Message.{type_socket_heartbeat, type_request_clientinfo}
use rv_receive.Combine.{PackData}
use rv_receive.Stream.{to_bytes}
use rv_receive.Stream.Frames.{of_bytes-to_bytes}
use rv_receive.Client.{Client, Players, Report, message, send, hbflag_clientinfo, field}
use rv_receive.Client.Commands.{OnTcp, queued, send_queued}
use rv_receive.Client.Messages.{on_heartbeat, answer_heartbeat, do_recv_message}

-- `SocketHeartbeat` in memory.
abbrev pub heartbeat : ℕ → ℕ → ℕ → List ℕ
heartbeat id rid flags = to_bytes 4 16 ++ (to_bytes 4 id ++ (to_bytes 4 rid ++ to_bytes 4 flags))

-- One round of the loop, after its second of sleep: `hb_token` is the client's own token by then, and
-- `token` and `fd` are what the loop began with. It ends with `none`.
unfoldable pub beat : Client → ℕ → ℕ → ℕ → ℕ → ℕ → Option (ℕ × Client)
beat c hb_token token fd id now =
    if not (token == hb_token) || not c.running || not (fd == c.fd_socket)
    then none
    else (let next = (id + 1) % 2 ^ 32 in
        some (next, send c type_socket_heartbeat (heartbeat next 0 0) now))

-- A heartbeat as a message, with whatever stands behind it in the buffer.
pub record IsHeartbeat (p : PackData) (id rid flags : ℕ) : Type 0 where
  pub rest : List ℕ
  pub of_type : p.type ≡ type_socket_heartbeat
  pub of_size : p.data_size ≡ 16
  pub of_body : p.body ≡ heartbeat id rid flags ++ rest
  pub id_fits : id < 2 ^ 32
  pub rid_fits : rid < 2 ^ 32
  pub flags_fit : flags < 2 ^ 32

not_zero : (n : ℕ) → 0 < n → (n == 0) ≡ false
not_zero n h = ground arith

heartbeat_message :
    (c : Client) (ps : Players) (p : PackData) (now new_fd : ℕ)
    → p.type ≡ type_socket_heartbeat
    → do_recv_message c ps p now new_fd
      ≡ (let r = on_heartbeat (record c { recv_timeout_counter = 0 }) p now in (r.0, r.1, ps))
unfolding do_recv_message
heartbeat_message c ps p now new_fd e = rw e refl

heartbeat_bytes :
    (p : PackData) (id rid flags : ℕ)
    → IsHeartbeat p id rid flags
    → take (min 16 p.data_size) p.body ≡ heartbeat id rid flags
heartbeat_bytes p id rid flags h = rw (h.of_size, h.of_body) refl

-- One that was sent first is answered, and one that is an answer is not.
asked :
    (c : Client) (p : PackData) (id flags now : ℕ)
    → IsHeartbeat p id 0 flags
    → on_heartbeat c p now
      ≡ ([], send c type_socket_heartbeat (heartbeat id id c.heartbeat_flags) now)
unfolding on_heartbeat answer_heartbeat
asked c p id flags now h =
    ap (λ hb. answer_heartbeat c hb now) (heartbeat_bytes p id 0 flags h)
    ∙ ap (λ t. ([], send c type_socket_heartbeat (heartbeat t t c.heartbeat_flags) now))
        {x = field (heartbeat id 0 flags) 4 4} (of_bytes-to_bytes 4 id h.id_fits)

abbrev pub wants_info : ℕ → List Report
wants_info flags =
    if bit_and flags hbflag_clientinfo == 0 then [] else message type_request_clientinfo [] ∷ []

answered :
    (c : Client) (p : PackData) (id rid flags now : ℕ)
    → IsHeartbeat p id rid flags
    → 0 < rid
    → on_heartbeat c p now ≡ (wants_info flags, c)
unfolding on_heartbeat answer_heartbeat
answered c p id rid flags now h l =
    ap (λ hb. answer_heartbeat c hb now) (heartbeat_bytes p id rid flags h)
    ∙ rw (of_bytes-to_bytes 4 rid h.rid_fits, of_bytes-to_bytes 4 flags h.flags_fit, not_zero rid l)
        refl

-- A heartbeat that a peer began is answered by a client that runs, is connected and sends its commands
-- over TCP, with fewer than thirty video packets waiting: one message, with the heartbeat's number and
-- with what the receiver still wants to know, goes last into its list of commands, and nothing else
-- changes but its counter of timeouts. A peer that gets an answer to a number other than 0 sends
-- nothing, changes nothing but its counter of timeouts, and reports the request for its information if
-- that is wanted.
pub do_recv_message-heartbeat :
    (c d : Client) (ps qs : Players) (p q : PackData) (id flags now later fd fd' : ℕ)
    → OnTcp c
    → IsHeartbeat p id 0 flags
    → IsHeartbeat q id id c.heartbeat_flags
    → 0 < id
    → (do_recv_message c ps p now fd ≡ (
      [],
      queued
          (record c { recv_timeout_counter = 0 })
          type_socket_heartbeat
          (heartbeat id id c.heartbeat_flags)
          now,
      ps,
    ))
      × (do_recv_message d qs q later fd'
          ≡ (wants_info c.heartbeat_flags, record d { recv_timeout_counter = 0 }, qs))
do_recv_message-heartbeat c d ps qs p q id flags now later fd fd' t h k l =
    let c' = record c { recv_timeout_counter = 0 } in
    let t' : OnTcp c' = record {
      running = t.running;
      connected = t.connected;
      not_udp = t.not_udp;
      short = t.short;
    } in
    (
      heartbeat_message c ps p now fd h.of_type
          ∙ ap (λ r. (r.0, r.1, ps)) (asked c' p id flags now h)
          ∙ ap (λ x. ([], x, ps))
              (send_queued type_socket_heartbeat refl refl c' (heartbeat id id c.heartbeat_flags)
                now t'),
      heartbeat_message d qs q later fd' k.of_type
          ∙ ap (λ r. (r.0, r.1, qs))
              (answered (record d { recv_timeout_counter = 0 }) q id id c.heartbeat_flags later k
                l),
    )
