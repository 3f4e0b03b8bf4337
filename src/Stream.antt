-- ===== src/Stream.antt =====
-- socket/TcpClient.cpp, DoRecvLoop: packets out of a TCP stream, which cuts and joins them.
-- What `recv` returns is a list of outcomes. A packet goes to the one CombinePackage of the loop, and
-- what is whole is reported (DoRecvMessage). A read or write outside a buffer is `none`.
pub mod Frames
pub mod Drain
pub mod Chunks
mod Tests
use mathlib.Core.Option
use rv_receive.Base.{
  ℕ, zero, suc, ◌+◌, ◌-◌, ◌*◌, ◌/◌, ◌%◌, ◌^◌, Bool, true, false, not, ◌||◌, Option, none, some,
  List, [], ◌∷◌, ◌++◌, ltb, leb, ◌==◌, if◌then◌else◌, length, take, drop,
}
use rv_receive.Base.Int.{ℤ, pos, ltb_ℤ, signed32}
use rv_receive.Message.{Packet, sockpackagehead_size, maxsize_sockpackage}
use rv_receive.Combine.{Combine, PackData, init_package, put_package, is_done, reset_data}

-- Numbers in memory, the lowest byte first.
abbrev pub to_bytes : ℕ → ℕ → List ℕ
to_bytes zero n = []
to_bytes (suc k) n = n % 256 ∷ to_bytes k (n / 256)

abbrev pub of_bytes : List ℕ → ℕ
of_bytes [] = 0
of_bytes (b ∷ bs) = b + of_bytes bs * 256

-- `SocketPackageData` in memory: the head, and the data behind it.
unfoldable pub head : Packet → List ℕ
head p =
    to_bytes 4 p.magic
    ++ (to_bytes 4 p.seq
        ++ (to_bytes 2 p.type
            ++ (to_bytes 1 p.slices
                ++ (to_bytes 1 p.cur_slice ++ (to_bytes 4 p.data_size ++ to_bytes 8 p.time)))))

unfoldable pub frame : Packet → List ℕ
frame p = head p ++ p.payload

-- `packageData->dataSize` and the packet at the start of the buffer.
unfoldable pub size_at : List ℕ → ℕ
size_at buf = of_bytes (take 4 (drop 12 buf))

unfoldable pub packet_at : List ℕ → Packet
unfolding size_at
packet_at buf = record {
  magic = of_bytes (take 4 buf);
  seq = of_bytes (take 4 (drop 4 buf));
  type = of_bytes (take 2 (drop 8 buf));
  slices = of_bytes (take 1 (drop 10 buf));
  cur_slice = of_bytes (take 1 (drop 11 buf));
  data_size = size_at buf;
  time = of_bytes (take 8 (drop 16 buf));
  payload = take (size_at buf) (drop sockpackagehead_size buf);
}

-- `SOCKPACKAGE_SIZE(packageData)`, an `int`.
abbrev pub size_int : List ℕ → ℤ
size_int buf = signed32 ((size_at buf + sockpackagehead_size) % 2 ^ 32)

-- `pos < SOCKPACKAGEHEAD_SIZE || pos < SOCKPACKAGE_SIZE(packageData)`.
unfoldable pub waits : List ℕ → Bool
unfolding size_at
waits buf = ltb (length buf) sockpackagehead_size || ltb_ℤ (pos (length buf)) (size_int buf)

module _ (new_buffer : ℕ → PackData) where
  -- The packet given to `combinePackage`.
  unfoldable pub combine_packet : Combine → Packet → Option Combine
  combine_packet c p =
      if p.cur_slice == 0
      then init_package new_buffer c p p.data_size
      else Option.map (λ r. r.1) (put_package c p)

  -- With the report of what is whole.
  unfoldable pub handle : Combine → Packet → Option (List PackData × Combine)
  unfolding combine_packet
  handle c p =
      Option.map (λ c'. if is_done c' then (c'.pack ∷ [], reset_data c') else ([], c'))
        (combine_packet c p)

  -- The rounds of the loop that read nothing: whole packets are handled and go from the buffer.
  -- Each takes a head at least, so the length of the buffer is fuel enough.
  unfoldable pub drain : ℕ → List ℕ → Combine → Option (List PackData × List ℕ × Combine)
  drain zero buf c = some ([], buf, c)
  drain (suc fuel) buf c =
      let rest = drain fuel (drop (size_at buf + sockpackagehead_size) buf) in
      if waits buf
      then some ([], buf, c)
      else if ltb_ℤ (size_int buf) (pos 0)
      then none
      else Option.bind (handle c (packet_at buf))
          (λ r. Option.map (λ q. (r.0 ++ q.0, q.1, q.2)) (rest r.1))

-- What `recv` returns: bytes (none if it is asked for none), 0 at the end of the stream, or an error: EAGAIN or EINTR, or another.
pub data Recv : Type 0 where
  received : List ℕ → Recv
  closed : Recv
  again : Recv
  failed : Recv

pub record RecvState : Type 0 where
  pub buffer : List ℕ
  pub combine : Combine
  pub recv_timeout_counter : ℕ
  pub running : Bool

abbrev pub stopped : RecvState → RecvState
stopped s = record s { running = false }

-- `RECV_BUFSIZE`, and how many bytes `recv` is asked for, which hands out no more.
abbrev pub recv_bufsize : ℕ
recv_bufsize = maxsize_sockpackage + sockpackagehead_size

abbrev pub recv_room : RecvState → ℕ
recv_room s = recv_bufsize - length s.buffer

module _ (new_buffer : ℕ → PackData) where
  -- One `recv` and what follows on it.
  unfoldable pub on_recv : RecvState → Recv → Option (List PackData × RecvState)
  on_recv s (received bs) =
      let got = take (recv_room s) bs in
      let buf = s.buffer ++ got in
      if length got == 0
      then some ([], stopped (record s { recv_timeout_counter = 0 }))
      else Option.map
          (λ r. (r.0, record s { buffer = r.1; combine = r.2; recv_timeout_counter = 0 }))
          (drain new_buffer (length buf) buf s.combine)
  on_recv s closed = some ([], stopped (record s { recv_timeout_counter = 0 }))
  on_recv s again =
      let counted = record s { recv_timeout_counter = s.recv_timeout_counter + 1 } in
      some ([], if leb 15 counted.recv_timeout_counter then stopped counted else counted)
  on_recv s failed =
      let counted = record s { recv_timeout_counter = s.recv_timeout_counter + 1 } in
      some (
        [],
        stopped (
            if leb 15 counted.recv_timeout_counter
            then counted
            else record counted { recv_timeout_counter = 0 }),
      )

  unfoldable pub recv_loop : RecvState → List Recv → Option (List PackData × RecvState)
  recv_loop s [] = some ([], s)
  recv_loop s (x ∷ xs) =
      if not s.running
      then some ([], s)
      else Option.bind (on_recv s x) (λ r. Option.map (λ q. (r.0 ++ q.0, q.1)) (recv_loop r.1 xs))
