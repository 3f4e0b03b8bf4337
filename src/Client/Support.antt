-- ===== src/Client/Support.antt =====
-- socket/TcpClient.cpp, SetUdpSupport: the server tells a client which data it takes over UDP, and what
-- the client makes of that.
use rv_receive.Base.{ℕ, Option, none, some, List, ◌++◌}
use rv_receive.Message.{type_udp_support, udp_packength}
use rv_receive.Stream.{to_bytes}
use rv_receive.Client.{Client, UdpClient, send, set_cache, get_send_package_cache}
use rv_receive.Base.Int.{pos}
use rv_receive.SendCache
use rv_receive.SendCache.{add_package_data}

-- `UdpSupportMsg` in memory.
abbrev pub udp_support_msg : ℕ → ℕ → List ℕ
udp_support_msg port support =
    to_bytes 4 16 ++ (to_bytes 4 port ++ (to_bytes 4 udp_packength ++ to_bytes 4 support))

-- `SetUdpSupport`; a server's client also sends it, with the port that the server listens on.
unfoldable pub set_udp_support : Client → Option ℕ → ℕ → ℕ → Client
set_udp_support client listen_port support now =
    let c = record client { udp_support_type = support } in
    elim listen_port [
      | none ↦ c
      | some port ↦ send c type_udp_support (udp_support_msg port support) now
    ]

-- The UDP client that a support message makes, for a port below 2 ^ 16.
abbrev pub udp_client_of : Client → ℕ → ℕ → UdpClient
udp_client_of c port new_fd = record {
  fd_socket = new_fd;
  addr = record { sin_port = port; s_addr = c.addr.s_addr };
  slice_size = pos udp_packength;
}

-- The peer's state after the message.
abbrev pub supported : Client → ℕ → ℕ → ℕ → Client
supported d port support new_fd = record d {
  recv_timeout_counter = 0;
  udp_client = some (udp_client_of d port new_fd);
  udp_support_type = support;
}

-- What the client puts into the sending cache of the data's type, as `UdpClient::Send` does.
abbrev pub over_udp : Client → UdpClient → ℕ → List ℕ → ℕ → Client
over_udp d u type bytes now =
    let r = add_package_data (get_send_package_cache d type) type bytes udp_packength now in
    set_cache d type (SendCache.send r.1 (pos u.fd_socket) (some u.addr) udp_packength r.0.seq none)
