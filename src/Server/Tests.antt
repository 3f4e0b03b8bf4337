-- ===== src/Server/Tests.antt =====
-- A server's table, and the theorems at it.
use mathlib.Core.Option
use rv_receive.Server.Mixed.{
  Arrival, arrivals, on_arrivals, on_arrivals-arrivals, on_arrivals-Holds,
}
use rv_receive.Server.Route.{Outcome}
use rv_receive.Combine.Collect.{IsSlice}
use rv_receive.Combine.Sum.{chunk}
use rv_receive.UdpCombine.{on_slice}
use rv_receive.Client.{message}
use rv_receive.Client.Messages.{do_recv_message}
use rv_receive.Base.{
  take, ◌++◌, ◌<◌, ◌^◌, ℕ, ◌-◌, ◌≡◌, refl, none, some, List, [], ◌∷◌, arith, Option, replicate,
  length-replicate, length,
}
use rv_receive.Base.Int.{ℤ, pos}
use rv_receive.Message.{udp_packength, Packet, sockmagic_head, type_media_videodata}
use rv_receive.Combine.{PackData}
use rv_receive.Combine.Room.{Allocates}
use rv_receive.SendCache.{SendCache, SockAddr, thread_send, find_pack}
use rv_receive.SendCache.Transfer.{stamp, queue_video}
use rv_receive.Server.{
  on_udp_slice, peer_slice, handle_event, handle_events, Peer, Tcp, new_tcp, accept, new_peer,
  new_send_cache, new_udp_combine,
}
use rv_receive.Server.Table.{find_client}
use rv_receive.Server.Accept.{IsTable, Accepted, accept-Accepted}
use rv_receive.Server.Delivery.{Holds, on_udp_slices, Delivered, on_udp_slices-Delivered}
use rv_receive.Server.Sent.{queue_video-on_datagrams}
use rv_receive.Server.Datagram.{
  fill, fill_all, datagrams, device_message, answer_radio_broadcast, on_datagrams, str_len, IsSent,
  served_by, on_datagrams-frame, datagrams_of, slices_of, stamped,
}
use rv_receive.Stream.{frame}

abbrev new_buffer : ℕ → PackData
new_buffer n = record {
  seq = 0;
  type = 0;
  slices = 0;
  data_size = 0;
  time = 0;
  body = replicate (n - 24) 7;
}

new_buffer-Allocates : Allocates new_buffer
new_buffer-Allocates total = length-replicate (total - 24) 7

abbrev phone : SockAddr
phone = record { sin_port = 4000; s_addr = 9 }

abbrev tablet : SockAddr
tablet = record { sin_port = 4100; s_addr = 10 }

-- The phone is in the table, and an old client of the tablet.
abbrev two_clients : Tcp
two_clients = record (new_tcp (pos 2) (pos 0)) {
  clients =
      some (new_peer new_buffer (pos 0) 5 phone 0)
      ∷ some (new_peer new_buffer (pos 0) 6 tablet 1)
      ∷ replicate 10 none;
}

two_clients-IsTable : IsTable two_clients
unfolding new_peer
two_clients-IsTable = record {
  twelve = refl;
  numbered = (refl, (refl, tt));
  distinct = (((λ e. omega (arith, e)), tt), (tt, tt));
  valid = ((λ e. omega (arith, e)), ((λ e. omega (arith, e)), tt));
  counted = refl;
}

accept-Accepted_example :
    Accepted new_buffer
      (pos 3)
      two_clients
      8
      tablet
      (accept new_buffer (pos 3) two_clients 8 tablet)
accept-Accepted_example =
    accept-Accepted new_buffer (pos 3) two_clients 8 tablet (λ e. omega (arith, e))
      two_clients-IsTable

abbrev phone_peer : Peer
phone_peer = new_peer new_buffer (pos 0) 5 phone 0

phone_found : find_client 9 two_clients.clients ≡ some phone_peer
unfolding find_client new_peer
phone_found = refl

-- A message of one byte in two slices, of which the second is empty and comes first.
abbrev in_two : ℕ → List ℕ → Packet
in_two i bs = record {
  magic = sockmagic_head;
  seq = 0;
  type = type_media_videodata;
  slices = 2;
  cur_slice = i;
  data_size = length bs;
  time = 0;
  payload = bs;
}

in_two-IsSent : (i : ℕ) (bs : List ℕ) → i < 2 ^ 8 → length bs < 2000 → IsSent (in_two i bs)
in_two-IsSent i bs h l = record {
  framed = record {
    magic_fits = omega arith;
    seq_fits = omega arith;
    type_fits = omega arith;
    slices_fits = omega arith;
    cur_slice_fits = h;
    data_size_fits = omega (arith, l);
    time_fits = omega arith;
    whole = refl;
  };
  of_magic = refl;
  short = omega (arith, l);
}

one_byte-IsSlice :
    (i : ℕ) (bs : List ℕ)
    → i < 2
    → length bs ≡ length (chunk (9 ∷ []) udp_packength i)
    → take (length bs) bs ≡ chunk (9 ∷ []) udp_packength i
    → IsSlice 0 2 udp_packength (9 ∷ []) (in_two i bs)
one_byte-IsSlice i bs h size bytes = record {
  same_seq = refl;
  same_slices = refl;
  in_range = h;
  sized = size;
  bytes = bytes;
}

on_udp_slices-Delivered_example :
    (cs' : List (Option Peer)) × (on_udp_slices new_buffer two_clients.clients two_clients.players 9
        ((in_two 1 [], 1) ∷ (in_two 0 (9 ∷ []), 2) ∷ [])
        0
      ≡ some ([], cs', two_clients.players))
    × Delivered 9 0 (9 ∷ []) phone_peer two_clients.clients cs'
unfolding new_peer new_udp_combine
on_udp_slices-Delivered_example =
    on_udp_slices-Delivered new_buffer {seq = 0} {n = 2} two_clients.clients two_clients.players 9
      ((in_two 1 [], 1) ∷ []) (in_two 0 (9 ∷ [])) 2 0 phone_peer new_buffer-Allocates (omega arith)
      (omega arith) (omega arith) (omega arith) phone_found refl (omega arith) refl
      (refl, (refl, tt)) (one_byte-IsSlice 1 [] (omega arith) refl refl, tt)
      (one_byte-IsSlice 0 (9 ∷ []) (omega arith) refl refl) refl (λ i h ne. ground arith)

-- The same, for the run with slices of others.
on_udp_slices-Delivered_at_phone :
    (cs' : List (Option Peer)) × (on_udp_slices new_buffer two_clients.clients two_clients.players 9
        ((in_two 1 [], 1) ∷ (in_two 0 (9 ∷ []), 2) ∷ [])
        0
      ≡ some ([], cs', two_clients.players))
    × Delivered 9 0 (9 ∷ []) phone_peer two_clients.clients cs'
unfolding new_peer new_udp_combine
on_udp_slices-Delivered_at_phone =
    on_udp_slices-Delivered new_buffer {seq = 0} {n = 2} two_clients.clients two_clients.players 9
      ((in_two 1 [], 1) ∷ []) (in_two 0 (9 ∷ [])) 2 0 phone_peer new_buffer-Allocates (omega arith)
      (omega arith) (omega arith) (omega arith) phone_found refl (omega arith) refl
      (refl, (refl, tt)) (one_byte-IsSlice 1 [] (omega arith) refl refl, tt)
      (one_byte-IsSlice 0 (9 ∷ []) (omega arith) refl refl) refl (λ i h ne. ground arith)

-- A packet of a type that is only reported, from the tablet, before the phone's slices.
abbrev note : Packet
note = record {
  magic = sockmagic_head;
  seq = 3;
  type = 5;
  slices = 1;
  cur_slice = 0;
  data_size = 0;
  time = 0;
  payload = [];
}

note_handled :
    on_udp_slice new_buffer two_clients.clients two_clients.players 10 note 1 0
    ≡ some (message 5 [] ∷ [], two_clients.clients, two_clients.players)
unfolding on_udp_slice peer_slice on_slice handle_events handle_event do_recv_message new_peer
note_handled = refl

abbrev mixed : List Arrival
mixed =
    record { from = 10; pack = note; now = 1 }
    ∷ arrivals 9 ((in_two 1 [], 1) ∷ (in_two 0 (9 ∷ []), 2) ∷ [])

mixed_run :
    (o : Outcome) × (on_arrivals new_buffer two_clients.clients two_clients.players mixed 0
      ≡ some o)
unfolding on_arrivals Option.bind
mixed_run =
    let (cs', e, d) = on_udp_slices-Delivered_at_phone in
    (
      (message 5 [] ∷ [], cs', two_clients.players),
      rw
          (
            note_handled,
            on_arrivals-arrivals new_buffer two_clients.clients two_clients.players 9
                ((in_two 1 [], 1) ∷ (in_two 0 (9 ∷ []), 2) ∷ []) 0,
            e,
          )
          refl,
    )

on_arrivals-Holds_example : Holds 9 0 (9 ∷ []) phone_peer mixed_run.0.1
unfolding new_peer new_udp_combine
on_arrivals-Holds_example =
    on_arrivals-Holds new_buffer {seq = 0} {n = 2} two_clients.clients two_clients.players 9 mixed
      ((in_two 1 [], 1) ∷ []) (in_two 0 (9 ∷ [])) 2 0 phone_peer mixed_run.0 new_buffer-Allocates
      (omega arith) (omega arith) (omega arith) (omega arith) phone_found refl (omega arith) refl
      refl (refl, (refl, tt)) (one_byte-IsSlice 1 [] (omega arith) refl refl, tt)
      (one_byte-IsSlice 0 (9 ∷ []) (omega arith) refl refl) refl (λ i h ne. ground arith)
      mixed_run.1

abbrev all_sent : ℕ → ℤ
all_sent i = pos 26

abbrev video_buffer : List ℕ
video_buffer = replicate 65536 0

queue_video-on_datagrams_example :
    (r : List Packet × SendCache) × (cs' : List (Option Peer)) × (thread_send all_sent
        (queue_video new_send_cache (pos 3) phone (1 ∷ 2 ∷ 3 ∷ []) 9)
      ≡ some r)
    × (on_datagrams new_buffer video_buffer two_clients.clients two_clients.players
          (datagrams 9 [] (stamp 10 r.0))
          0
        ≡ some (record {
          answers = [];
          reports = [];
          buffer = fill_all video_buffer (stamp 10 r.0);
          clients = cs';
          players = two_clients.players;
        }))
    × Delivered 9 0 (1 ∷ 2 ∷ 3 ∷ []) phone_peer two_clients.clients cs'
unfolding find_pack new_peer new_udp_combine
queue_video-on_datagrams_example =
    queue_video-on_datagrams new_buffer all_sent new_send_cache (pos 3) phone (1 ∷ 2 ∷ 3 ∷ []) 9 10
      video_buffer two_clients.clients two_clients.players 9 [] 0 phone_peer new_buffer-Allocates
      (λ i. refl) refl refl (omega arith) (omega arith) (omega arith) (omega arith) (omega arith)
      phone_found refl (omega arith) refl

-- A slice from the tablet between those from the phone, with other bytes behind the answer.
abbrev three_slices : List (Arrival × List ℕ)
three_slices =
    (record { from = 9; pack = in_two 1 []; now = 1 }, 4 ∷ 0 ∷ [])
    ∷ (record { from = 10; pack = in_two 0 (5 ∷ []); now = 2 }, [])
    ∷ (record { from = 9; pack = in_two 0 (9 ∷ []); now = 3 }, 6 ∷ [])
    ∷ []

on_datagrams-frame_example :
    on_datagrams new_buffer video_buffer two_clients.clients two_clients.players
      (datagrams_of three_slices)
      0
    ≡ Option.map
        (served_by (fill_all video_buffer (stamped three_slices)))
        (on_arrivals new_buffer two_clients.clients two_clients.players (slices_of three_slices) 0)
on_datagrams-frame_example =
    on_datagrams-frame new_buffer 0 video_buffer two_clients.clients two_clients.players
      three_slices
      (
        in_two-IsSent 1 [] (omega arith) (omega arith),
        (
          in_two-IsSent 0 (5 ∷ []) (omega arith) (omega arith),
          (in_two-IsSent 0 (9 ∷ []) (omega arith) (omega arith), tt),
        ),
      )

-- A search is answered: the message, and what stands in the array up to the first zero.
answers : answer_radio_broadcast (7 ∷ 0 ∷ 5 ∷ []) ≡ some (36 ∷ 17 ∷ 32 ∷ device_message ++ (7 ∷ []))
unfolding answer_radio_broadcast str_len
answers = refl

-- After an error of `recvfrom` the packet before is handled again.
again :
    fill (fill video_buffer (some (frame (in_two 0 (9 ∷ []))))) none
    ≡ fill video_buffer (some (frame (in_two 0 (9 ∷ []))))
unfolding fill
again = refl
