-- ===== src/Server.antt =====
-- socket/Tcp.cpp and socket/UdpServer.cpp: the server's table of clients, who comes in and who goes, and
-- the way of a UDP datagram to the client that it is from. A client's part of the UDP protocol is
-- UdpCombine; what that reports or requests goes to Client at once. `fd` 0 stands for every descriptor
-- that is not above 0. What `new` hands back is `new_buffer`; sockets are I/O.
pub mod Table
pub mod Accept
pub mod Route
pub mod Quiet
pub mod Delivery
pub mod Sent
pub mod Others
pub mod Mixed
pub mod Datagram
mod Tests
use mathlib.Core.Option
use rv_receive.Base.{
  ℕ, suc, ◌+◌, ◌*◌, ◌^◌, Bool, true, false, not, ◌&&◌, ◌||◌, Option, none, some, List, [], ◌∷◌,
  ◌++◌, ltb, ◌==◌, if◌then◌else◌, length, take, drop, replicate, map,
}
use rv_receive.Base.Int.{ℤ, pos}
use rv_receive.Message.{
  Packet, UdpPackageReply, UdpPackageReply2, type_udp_request, type_udp_request2,
  type_media_videodata,
}
use rv_receive.Combine.{Combine, PackData, alloc_buffer}
use rv_receive.UdpCombine.{
  UdpCombine, Event, request, request_range, report, report_slice, blank_combine, on_slice,
}
use rv_receive.Stream.{to_bytes, packet_at}
use rv_receive.SendCache.{SendCache, SockAddr}
use rv_receive.SendQueue.{SendCacheManager}
use rv_receive.Client.{Client, Players, Report, hbflag_clientinfo, send}
use rv_receive.Client.Playing.{pred_ℤ, succ_ℤ}
use rv_receive.Client.Messages.{do_recv_message}

-- `TcpClient` with its `mUdpCombinePackage`.
pub record Peer : Type 0 where
  pub client : Client
  pub combine : UdpCombine

-- `clients` has a place for each of `MAX_CLIENTS`.
pub record Tcp : Type 0 where
  pub clients : List (Option Peer)
  pub client_num : ℤ
  pub players : Players

abbrev pub max_clients : ℕ
max_clients = 12

-- A server that has just been made. Neither of the two numbers is set by the constructor.
abbrev pub new_tcp : ℤ → ℤ → Tcp
new_tcp client_num player_num = record {
  clients = replicate max_clients none;
  client_num = client_num;
  players = record { client_player_num = player_num; client_player_list = [] };
}

abbrev pub new_send_cache : SendCache
new_send_cache = record { seq = 0; pack_list = []; send_list = [] }

abbrev pub is_valid : Peer → Bool
is_valid p = not (p.client.fd_socket == 0)

abbrev pub is_client : ℕ → Peer → Bool
is_client a p = a == p.client.addr.s_addr

module _ (new_buffer : ℕ → PackData) where
  -- `UdpCombinePackage::UdpCombinePackage`.
  unfoldable pub new_udp_combine : UdpCombine
  new_udp_combine = record {
    video_cache = record {
      data_type = type_media_videodata;
      seq_report = 0;
      retry_count = 0;
      resend_timestamp = 0;
      pack_list = [];
    };
    combine_audio = alloc_buffer new_buffer (blank_combine new_buffer) (32 * 1024);
  }

  -- `TcpClient::TcpClient` for a connection that was accepted. `mNum` is not set there, nor are
  -- `srcW` and `srcH`, which nothing reads before they are.
  unfoldable pub new_peer : ℤ → ℕ → SockAddr → ℕ → Peer
  unfolding new_udp_combine
  new_peer m_num fd addr id = record {
    client = record {
      client_id = id;
      running = true;
      fd_socket = fd;
      addr = addr;
      working = false;
      media_decoder_ready = false;
      new_client_reported = false;
      heartbeat_flags = hbflag_clientinfo;
      recv_timeout_counter = 0;
      len_buf_video = 2 * 1024 * 1024;
      len_buf_audio = 2 * 1024;
      received_audio = [];
      received_video = [];
      udp_client = none;
      udp_support_type = 0;
      send_cache_manager = record { cmd_list = []; audio_list = []; video_list = [] };
      send_video_cache = new_send_cache;
      send_audio_cache = new_send_cache;
      send_cmd_cache = new_send_cache;
      src_w = 0;
      src_h = 0;
      m_num = m_num;
    };
    combine = new_udp_combine;
  }

-- `delete client`, by way of `Release`, which does nothing on a client that is not valid.
unfoldable pub release : Peer → ℤ → ℤ
release p n = if is_valid p then pred_ℤ n else n

-- A client that is not valid goes, and so does one from the address that connects again.
unfoldable pub goes : ℕ → Peer → Bool
goes a p = not (is_valid p) || is_client a p

-- `FreeClient`.
unfoldable pub free_client : ℕ → List (Option Peer) → ℤ → List (Option Peer) × ℤ
free_client a [] n = ([], n)
free_client a (none ∷ cs) n = let r = free_client a cs n in (none ∷ r.0, r.1)
free_client a (some p ∷ cs) n =
    let r = free_client a cs (if goes a p then release p n else n) in
    ((if goes a p then none else some p) ∷ r.0, r.1)

-- A client made at the first free place, from the `i`-th on.
unfoldable pub place : ℕ → (ℕ → Peer) → List (Option Peer) → Option (List (Option Peer))
place i make [] = none
place i make (none ∷ cs) = some (some (make i) ∷ cs)
place i make (some p ∷ cs) = Option.map (λ l. some p ∷ l) (place (suc i) make cs)

-- The client that was made, if there was a place, is counted.
unfoldable pub settle : Tcp → List (Option Peer) × ℤ → Option (List (Option Peer)) → Tcp
settle t r none = record t { clients = r.0; client_num = r.1 }
settle t r (some cs) = record t { clients = cs; client_num = succ_ℤ r.1 }

-- One round of `doStartListen`, on what `accept` returns. With no free place the descriptor is lost.
unfoldable pub accept : (ℕ → PackData) → ℤ → Tcp → ℕ → SockAddr → Tcp
accept new_buffer m_num t fd addr =
    let r = free_client addr.s_addr t.clients t.client_num in
    settle t r (place 0 (new_peer new_buffer m_num fd addr) r.0)

-- `UdpPackageReply` and `UdpPackageReply2` in memory.
abbrev pub masks_bytes : List ℕ → List ℕ
masks_bytes [] = []
masks_bytes (w ∷ ws) = to_bytes 4 w ++ masks_bytes ws

abbrev pub reply_bytes : UdpPackageReply → List ℕ
reply_bytes r =
    to_bytes 4 44 ++ (to_bytes 4 r.type ++ (to_bytes 4 r.seq ++ masks_bytes r.slices_mask))

abbrev pub reply2_bytes : UdpPackageReply2 → List ℕ
reply2_bytes r =
    to_bytes 4 20
    ++ (to_bytes 4 r.type
        ++ (to_bytes 4 r.seq_start ++ (to_bytes 4 r.seq_end ++ to_bytes 4 r.flag)))

abbrev pub pack_of : Packet → PackData
pack_of p = record {
  seq = p.seq;
  type = p.type;
  slices = p.slices;
  data_size = p.data_size;
  time = p.time;
  body = p.payload;
}

-- What UdpCombine reports goes to `DoRecvMessage`, and its requests are sent.
unfoldable pub handle_event : Client → Players → ℕ → ℕ → Event → List Report × Client × Players
handle_event c ps now new_fd (report p) = do_recv_message c ps p now new_fd
handle_event c ps now new_fd (report_slice p) = do_recv_message c ps (pack_of p) now new_fd
handle_event c ps now new_fd (request r) = ([], send c type_udp_request (reply_bytes r) now, ps)
handle_event c ps now new_fd (request_range r) =
    ([], send c type_udp_request2 (reply2_bytes r) now, ps)

unfoldable pub handle_events :
    Client → Players → ℕ → ℕ → List Event → List Report × Client × Players
handle_events c ps now new_fd [] = ([], c, ps)
handle_events c ps now new_fd (e ∷ es) =
    let r = handle_event c ps now new_fd e in
    let q = handle_events r.1 r.2 now new_fd es in (r.0 ++ q.0, q.1, q.2)

module _ (new_buffer : ℕ → PackData) where
  unfoldable pub peer_slice :
      Peer → Players → Packet → ℕ → ℕ → Option (List Report × Peer × Players)
  peer_slice p ps pack now new_fd =
      Option.map
        (λ r.
          let q = handle_events p.client ps now new_fd r.0 in
          (q.0, record { client = q.1; combine = r.1 }, q.2))
        (on_slice new_buffer p.combine pack now)

  -- `Tcp::OnUdpSliceReceived`: the first valid client with the address gets the slice.
  unfoldable pub on_udp_slice :
      List (Option Peer)
      → Players
      → ℕ
      → Packet
      → ℕ
      → ℕ
      → Option (List Report × List (Option Peer) × Players)
  on_udp_slice [] ps a pack now new_fd = some ([], [], ps)
  on_udp_slice (none ∷ cs) ps a pack now new_fd =
      Option.map (λ r. (r.0, none ∷ r.1, r.2)) (on_udp_slice cs ps a pack now new_fd)
  on_udp_slice (some p ∷ cs) ps a pack now new_fd =
      let rest = on_udp_slice cs ps a pack now new_fd in
      if is_client a p && is_valid p
      then Option.map (λ r. (r.0, some (r.1) ∷ cs, r.2)) (peer_slice p ps pack now new_fd)
      else Option.map (λ r. (r.0, some p ∷ r.1, r.2)) rest
