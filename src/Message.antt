-- ===== src/Message.antt =====
-- socket/Message.h and native.h: the packet that TCP and UDP carry, the message types that the code
-- tests, and the sizes.
use rv_receive.Base.{ℕ, ◌+◌, ◌*◌, ◌^◌, List}

abbrev pub type_new_client : ℕ
type_new_client = 0x0001

abbrev pub type_client_name : ℕ
type_client_name = 0x0003

abbrev pub type_socket_heartbeat : ℕ
type_socket_heartbeat = 0x0007

abbrev pub type_tv_screen_stop : ℕ
type_tv_screen_stop = 0x0009

abbrev pub type_client_info : ℕ
type_client_info = 0x0010

abbrev pub type_udp_support : ℕ
type_udp_support = 0x0020

abbrev pub type_udp_request : ℕ
type_udp_request = 0x0022

abbrev pub type_udp_request2 : ℕ
type_udp_request2 = 0x0023

abbrev pub type_mirror_resolution : ℕ
type_mirror_resolution = 0x2001

abbrev pub type_media_videodata : ℕ
type_media_videodata = 0x2002

abbrev pub type_media_audiodata : ℕ
type_media_audiodata = 0x2003

abbrev pub type_mirror_stop : ℕ
type_mirror_stop = 0x2007

abbrev pub type_mirror_resolution2 : ℕ
type_mirror_resolution2 = 0x200B

abbrev pub type_request_quality : ℕ
type_request_quality = 0x200E

abbrev pub type_request_clientinfo : ℕ
type_request_clientinfo = 0x200F

abbrev pub type_network_echotest : ℕ
type_network_echotest = 0x4200

abbrev pub sockmagic_head : ℕ
sockmagic_head = 0x21000012

-- `SocketPackageData`; `payload` is what stands in its data array.
pub record Packet : Type 0 where
  pub magic : ℕ
  pub seq : ℕ
  pub type : ℕ
  pub slices : ℕ
  pub cur_slice : ℕ
  pub data_size : ℕ
  pub time : ℕ
  pub payload : List ℕ

-- `sizeof(SocketPackageData)`: 4 + 4 + 2 + 1 + 1 + 4 + 8.
abbrev pub sockpackagehead_size : ℕ
sockpackagehead_size = 24

abbrev pub sockpackage_size : Packet → ℕ
sockpackage_size p = p.data_size + sockpackagehead_size

abbrev pub udp_packength : ℕ
udp_packength = 32 * 1024

abbrev pub maxsize_sockpackage : ℕ
maxsize_sockpackage = 256 * 1024

abbrev pub maxsize_sendsockpackage : ℕ
maxsize_sendsockpackage = 64 * 1024

abbrev pub udpsupport_videodata : ℕ
udpsupport_videodata = 2 ^ 0

abbrev pub udpsupport_audiodata : ℕ
udpsupport_audiodata = 2 ^ 1

abbrev pub udpsupport_otherdata : ℕ
udpsupport_otherdata = 2 ^ 2

-- `UDPRANGE_START` and `UDPRANGE_END`.
abbrev pub udprange_start : ℕ
udprange_start = 2 ^ 0

abbrev pub udprange_end : ℕ
udprange_end = 2 ^ 1

-- `UdpPackageReply`, less its version: the slices of one packet to send again.
pub record UdpPackageReply : Type 0 where
  pub type : ℕ
  pub seq : ℕ
  pub slices_mask : List ℕ

-- `UdpPackageReply2`, less its version: a range of packets to send again.
pub record UdpPackageReply2 : Type 0 where
  pub type : ℕ
  pub seq_start : ℕ
  pub seq_end : ℕ
  pub flag : ℕ
