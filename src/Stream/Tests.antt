-- ===== src/Stream/Tests.antt =====
-- Two packets whose bytes come in two pieces, with a timeout between.
use mathlib.Core.Option
use rv_receive.Base.{
  ℕ, ◌-◌, ◌≡◌, refl, sym, ◌∙◌, some, true, List, [], ◌∷◌, arith, length, take, drop, replicate,
}
use rv_receive.Message.{Packet, sockmagic_head, type_client_name, type_socket_heartbeat}
use rv_receive.Mask.{no_masks}
use rv_receive.Combine.{PackData}
use rv_receive.Stream.{
  frame, head, waits, Recv, received, again, RecvState, on_recv, drain, recv_loop,
}
use rv_receive.Stream.Frames.{Framed}
use rv_receive.Stream.Drain.{frames, handle_all}
use rv_receive.Stream.Chunks.{view, handled, Lively, recv_loop-frames}
use mathlib.Core.Path.{subst}

abbrev blank : ℕ → PackData
blank total = record {
  seq = 0;
  type = 0;
  slices = 0;
  data_size = 0;
  time = 0;
  body = replicate (total - 24) 0;
}

abbrev packet : ℕ → ℕ → List ℕ → Packet
packet type seq bs = record {
  magic = sockmagic_head;
  seq = seq;
  type = type;
  slices = 1;
  cur_slice = 0;
  data_size = length bs;
  time = 1000;
  payload = bs;
}

abbrev name_packet : Packet
name_packet = packet type_client_name 0 (112 ∷ 99 ∷ 0 ∷ [])

abbrev heartbeat : Packet
heartbeat = packet type_socket_heartbeat 1 (1 ∷ 0 ∷ [])

name_packet-Framed : Framed name_packet
name_packet-Framed = record {
  magic_fits = omega arith;
  seq_fits = omega arith;
  type_fits = omega arith;
  slices_fits = omega arith;
  cur_slice_fits = omega arith;
  data_size_fits = omega arith;
  time_fits = omega arith;
  whole = refl;
}

heartbeat-Framed : Framed heartbeat
heartbeat-Framed = record {
  magic_fits = omega arith;
  seq_fits = omega arith;
  type_fits = omega arith;
  slices_fits = omega arith;
  cur_slice_fits = omega arith;
  data_size_fits = omega arith;
  time_fits = omega arith;
  whole = refl;
}

abbrev sent : List ℕ
sent = frames (name_packet ∷ heartbeat ∷ [])

abbrev pieces : List Recv
pieces = received (take 10 sent) ∷ again ∷ received (drop 10 sent) ∷ []

abbrev fresh : RecvState
fresh = record {
  buffer = [];
  combine = record {
    all_buf_size = 64;
    pack = blank 64;
    one_pack_size = 0;
    recv_packages = 0;
    slices_mask = no_masks;
  };
  recv_timeout_counter = 0;
  running = true;
}

abbrev begun : RecvState
begun = record fresh { buffer = take 10 sent }

-- No packet is whole after the first piece.
first_piece : on_recv blank fresh (received (take 10 sent)) ≡ some ([], begun)
unfolding on_recv drain frame head waits
first_piece = refl

same_result : {x y : List PackData × RecvState} → some x ≡ some y → x ≡ y
same_result e = cc e

pieces-Lively : Lively blank fresh pieces
unfolding frame head
pieces-Lively = (
  (omega arith, λ _. omega arith),
  λ r e.
      subst
        (λ (r : List PackData × RecvState). Lively blank r.1 (again ∷ received (drop 10 sent) ∷ []))
        (same_result (sym first_piece ∙ e))
        (omega arith, ((omega arith, λ _. omega arith), λ r e. tt)),
)

recv_loop-frames_example :
    Option.map view (recv_loop blank fresh pieces)
    ≡ Option.map handled (handle_all blank fresh.combine (name_packet ∷ heartbeat ∷ []))
unfolding frame head waits
recv_loop-frames_example =
    recv_loop-frames blank pieces fresh (name_packet ∷ heartbeat ∷ [])
      (name_packet-Framed, (heartbeat-Framed, tt)) (omega arith, (omega arith, tt)) refl refl
      pieces-Lively refl
