-- ===== src/Client.antt =====
-- socket/TcpClient.cpp: what a client of the receiver does on a message (DoRecvMessage, StopCtrl), and
-- on which way it sends (Send, UdpClient), on a server's client. The counters of the server (Tcp)
-- go along. What is handed to the layer above (JniMessageReport) is in the result. `timestamp()` is an
-- argument; printing, the file for pictures and zeroing the video buffer are left out.
pub mod Playing
pub mod Messages
pub mod Counting
pub mod Commands
pub mod Heartbeat
pub mod Address
pub mod Support
pub mod Processor
mod Tests
use Prim.Native.Nat.{bit_and}
use rv_receive.Base.{
  ℕ, zero, suc, ◌+◌, ◌-◌, ◌*◌, ◌%◌, ◌^◌, min, Bool, true, false, not, ◌&&◌, ◌||◌, Option, none,
  some, List, [], ◌∷◌, ◌++◌, ltb, leb, ◌==◌, if◌then◌else◌, length, take, drop,
}
use rv_receive.Base.Int.{ℤ, pos, negsuc, pos_part}
use rv_receive.Message.{
  type_new_client, type_client_name, type_client_info, type_media_videodata, type_media_audiodata,
  type_socket_heartbeat, type_udp_support, type_udp_request, type_udp_request2,
  type_mirror_resolution, type_mirror_resolution2, type_mirror_stop, type_network_echotest,
  type_request_clientinfo, type_request_quality, udpsupport_videodata, udpsupport_audiodata,
  udpsupport_otherdata, udp_packength,
}
use rv_receive.Mask.{Masks}
use rv_receive.Combine.{PackData}
use rv_receive.Stream.{to_bytes, of_bytes}
use rv_receive.SendCache.{SendCache, SockAddr, add_package_data}
use rv_receive.SendCache
use rv_receive.SendQueue.{
  ThreadSendData, SendCacheManager, element, put_send_data, clear_audio_data, clear_video_data,
}

-- The size of a slice is an `int`; the caches, which divide by it, are modelled for sizes from 1 on,
-- and below that this model gives them 0.
pub record UdpClient : Type 0 where
  pub fd_socket : ℕ
  pub addr : SockAddr
  pub slice_size : ℤ

pub record Client : Type 0 where
  pub client_id : ℕ
  pub running : Bool
  pub fd_socket : ℕ
  pub addr : SockAddr
  pub working : Bool
  pub media_decoder_ready : Bool
  pub new_client_reported : Bool
  pub heartbeat_flags : ℕ
  pub recv_timeout_counter : ℕ
  pub len_buf_video : ℕ
  pub len_buf_audio : ℕ
  pub received_audio : List ThreadSendData
  pub received_video : List ThreadSendData
  pub udp_client : Option UdpClient
  pub udp_support_type : ℕ
  pub send_cache_manager : SendCacheManager
  pub send_video_cache : SendCache
  pub send_audio_cache : SendCache
  pub send_cmd_cache : SendCache
  pub src_w : ℕ
  pub src_h : ℕ
  pub m_num : ℤ

-- The counters of `Tcp` that its clients change.
pub record Players : Type 0 where
  pub client_player_num : ℤ
  pub client_player_list : List ℕ

-- `JniMessageReport`: a new client with its address, or a message's type and its text or data.
pub data Report : Type 0 where
  new_client : SockAddr → Report
  message : ℕ → List ℕ → Report

abbrev pub hbflag_clientinfo : ℕ
hbflag_clientinfo = 1

-- A field of a message in memory; behind the end of the data it is taken for 0.
abbrev pub field : List ℕ → ℕ → ℕ → ℕ
field bs at size = of_bytes (take size (drop at bs))

abbrev pub set_cache : Client → ℕ → SendCache → Client
set_cache c type s =
    if type == type_media_videodata
    then record c { send_video_cache = s }
    else if type == type_media_audiodata
    then record c { send_audio_cache = s }
    else record c { send_cmd_cache = s }

unfoldable pub get_send_package_cache : Client → ℕ → SendCache
get_send_package_cache c type =
    if type == type_media_videodata
    then c.send_video_cache
    else if type == type_media_audiodata
    then c.send_audio_cache
    else c.send_cmd_cache

-- `UdpClient::Send`: the packet is kept and put into the list of the cache of its type.
unfoldable pub udp_send : Client → UdpClient → ℕ → List ℕ → ℕ → Client
unfolding get_send_package_cache
udp_send c u type bytes now =
    if u.fd_socket == 0
    then c
    else (let r =
          add_package_data (get_send_package_cache c type) type bytes (pos_part u.slice_size) now in
        set_cache c type (
          SendCache.send r.1 (pos u.fd_socket) (some u.addr) (pos_part u.slice_size) (r.0.seq)
            none))

unfoldable pub re_send : Client → UdpClient → ℕ → ℕ → Masks → Client
unfolding get_send_package_cache
re_send c u type seq masks = set_cache c type (
    SendCache.send (get_send_package_cache c type) (pos u.fd_socket) (some u.addr)
      (pos_part u.slice_size) seq (some masks))

unfoldable pub re_send_range : Client → UdpClient → ℕ → ℕ → ℕ → ℕ → Client
unfolding get_send_package_cache
re_send_range c u type seq_start seq_end flag = set_cache c type (
    SendCache.send_range (get_send_package_cache c type) (pos u.fd_socket) (some u.addr)
      (pos_part u.slice_size) seq_start seq_end flag)

-- Whether data of a type go over UDP.
abbrev pub udp_bit : ℕ → ℕ
udp_bit type =
    if type == type_media_videodata
    then udpsupport_videodata
    else if type == type_media_audiodata
    then udpsupport_audiodata
    else udpsupport_otherdata

abbrev pub udp_way : Client → ℕ → Option UdpClient
udp_way c type =
    if (c.udp_support_type == 0) || (bit_and c.udp_support_type (udp_bit type) == 0)
    then none
    else c.udp_client

-- `TcpClient::Send`.
unfoldable pub send : Client → ℕ → List ℕ → ℕ → Client
unfolding udp_send
send c type bytes now = if not c.running || (c.fd_socket == 0) then c else elim (udp_way c type) [
  | some u ↦ udp_send c u type bytes now
  | none ↦ record c { send_cache_manager = (put_send_data c.send_cache_manager type bytes now).1 }
]
