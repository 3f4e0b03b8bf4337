-- ===== src/SendQueue.antt =====
-- socket/TcpClient.cpp, SendCacheManager: what is to be sent over TCP, in three lists by urgency, and
-- its slices in the stream. The client is running and its socket open. `timestamp()` is an argument,
-- what `send` returns is the function `sent` of the slice. The bytes of a call are a list.
pub mod Lists
pub mod Order
pub mod Slices
pub mod Deliver
pub mod Transfer
pub mod Received
mod Tests
use rv_receive.Base.{
  ℕ, zero, suc, ◌+◌, ◌-◌, ◌*◌, ◌/◌, ◌%◌, ◌^◌, Bool, true, false, Option, none, some, List, [], ◌∷◌,
  ◌++◌, ltb, leb, ◌==◌, if◌then◌else◌, length, take, drop,
}
use rv_receive.Base.Int.{ℤ, pos, ltb_ℤ}
use rv_receive.Message.{
  Packet, sockmagic_head, maxsize_sendsockpackage, type_media_videodata, type_media_audiodata,
}

pub record ThreadSendData : Type 0 where
  pub type : ℕ
  pub data_size : ℕ
  pub time : ℕ
  pub body : List ℕ

pub record SendCacheManager : Type 0 where
  pub cmd_list : List ThreadSendData
  pub audio_list : List ThreadSendData
  pub video_list : List ThreadSendData

abbrev pub element : ℕ → List ℕ → ℕ → ThreadSendData
element type bytes now = record { type = type; data_size = length bytes; time = now; body = bytes }

-- The length is returned whether or not there was room. All three tests are on the video list.
unfoldable pub put_send_data : SendCacheManager → ℕ → List ℕ → ℕ → ℕ × SendCacheManager
put_send_data m type bytes now =
    let ele = element type bytes now in
    (
      length bytes,
      if type == type_media_videodata
          then (if ltb (length m.video_list) 30
              then record m { video_list = m.video_list ++ (ele ∷ []) }
              else m)
          else if type == type_media_audiodata
          then (if ltb (length m.video_list) 200
              then record m { audio_list = m.audio_list ++ (ele ∷ []) }
              else m)
          else if ltb (length m.video_list) 30
          then record m { cmd_list = m.cmd_list ++ (ele ∷ []) }
          else m,
    )

-- The first of the commands, else of the audio, else of the video data.
unfoldable pub get_send_data : SendCacheManager → Option ThreadSendData × SendCacheManager
get_send_data m = elim m.cmd_list [
  | c ∷ cs ↦ (some c, record m { cmd_list = cs })
  | [] ↦ elim m.audio_list [
    | a ∷ rest ↦ (some a, record m { audio_list = rest })
    | [] ↦ elim m.video_list [ v ∷ vs ↦ (some v, record m { video_list = vs }) | [] ↦ (none, m) ]
  ]
]

unfoldable pub clear_audio_data : SendCacheManager → SendCacheManager
clear_audio_data m = record m { audio_list = [] }

unfoldable pub clear_video_data : SendCacheManager → SendCacheManager
clear_video_data m = record m { video_list = [] }

-- `len <= 0 ? 1 : (len + MAXSIZE_SENDSOCKPACKAGE - 1) / MAXSIZE_SENDSOCKPACKAGE`.
abbrev pub send_slice_count : ℕ → ℕ
send_slice_count len =
    if len == 0 then 1 else (len + maxsize_sendsockpackage - 1) / maxsize_sendsockpackage

-- The head that all slices of an element share.
unfoldable pub send_head : ℕ → ThreadSendData → Packet
send_head seq d = record {
  magic = sockmagic_head;
  seq = seq;
  type = d.type % 2 ^ 16;
  slices = send_slice_count d.data_size % 2 ^ 8;
  cur_slice = 0;
  data_size = 0;
  time = d.time;
  payload = [];
}

abbrev pub send_leave : ℕ → ℕ
send_leave len = if leb maxsize_sendsockpackage len then maxsize_sendsockpackage else len

-- The loop over the slices, from the `s`-th on, with the bytes and the length that are left.
module _ (sent : ℕ → ℤ) (pack : Packet) where
  unfoldable pub send_loop : ℕ → ℕ → List ℕ → ℕ → List Packet
  send_loop zero s d len = []
  send_loop (suc n) s d len =
      let leave = send_leave len in
      let piece = record pack {
        cur_slice = s % 2 ^ 8;
        data_size = leave;
        payload = take leave d;
      } in
      if ltb_ℤ (pos 0) (sent s)
      then piece ∷ send_loop n (s + 1) (drop leave d) (len - leave)
      else piece ∷ []

-- One round of `DoThreadSendData`: the packets handed to `send`, and the number of the next.
unfoldable pub thread_send_data :
    (ℕ → ℤ) → ℕ → SendCacheManager → List Packet × ℕ × SendCacheManager
unfolding send_loop send_head
thread_send_data sent seq m =
    let r = get_send_data m in
    elim r.0 [
      | none ↦ ([], seq, r.1)
      | some d ↦ (
        send_loop sent (send_head seq d) (send_slice_count d.data_size) 0 d.body d.data_size,
        (seq + 1) % 2 ^ 32,
        r.1,
      )
    ]
