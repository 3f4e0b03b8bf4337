-- ===== src/Server/Others.antt =====
-- A slice from one address leaves the clients from the others.
use mathlib.Core.Option
use mathlib.Core.Path.{subst}
use rv_receive.Base.{
  ℕ, ◌≡◌, ◌≢◌, refl, sym, ap, ◌∙◌, inl, inr, Option, some, List, [], ◌∷◌, arith, Option-cases,
}
use rv_receive.Message.{Packet}
use rv_receive.Combine.{PackData}
use rv_receive.UdpCombine.{Event, request, request_range, report, report_slice, on_slice}
use rv_receive.Client.{Client, Players, Report}
use rv_receive.Client.Address.{SameAddr, send-SameAddr, do_recv_message-SameAddr}
use rv_receive.Server.{Peer, handle_event, handle_events, peer_slice, on_udp_slice}
use rv_receive.Server.Table.{find_client}
use rv_receive.Server.Route.{
  Outcome, put_client, IsAt, find_client-IsAt, find-put_client-other, on_udp_slice-found,
  on_udp_slice-none,
}

handle_event-SameAddr :
    (c : Client) (ps : Players) (now new_fd : ℕ) (e : Event)
    → SameAddr c (handle_event c ps now new_fd e).1
unfolding handle_event
handle_event-SameAddr c ps now new_fd (request r) = send-SameAddr c _ _ _
handle_event-SameAddr c ps now new_fd (request_range r) = send-SameAddr c _ _ _
handle_event-SameAddr c ps now new_fd (report d) = do_recv_message-SameAddr c ps _ now new_fd
handle_event-SameAddr c ps now new_fd (report_slice p) = do_recv_message-SameAddr c ps _ now new_fd

handle_events-SameAddr :
    (c : Client) (ps : Players) (now new_fd : ℕ) (es : List Event)
    → SameAddr c (handle_events c ps now new_fd es).1
unfolding handle_events
handle_events-SameAddr c ps now new_fd [] = (refl, refl)
handle_events-SameAddr c ps now new_fd (e ∷ es) =
    let r = handle_event c ps now new_fd e in
    let s = handle_event-SameAddr c ps now new_fd e in
    let k = handle_events-SameAddr r.1 r.2 now new_fd es in (k.0 ∙ s.0, k.1 ∙ s.1)

pub same_some : {x y : Outcome} → some x ≡ some y → x ≡ y
same_some e = cc e

module _ (new_buffer : ℕ → PackData) where
  -- A client is at its address whatever comes.
  peer_slice-IsAt :
      (a : ℕ) (p : Peer) (ps : Players) (pack : Packet) (now new_fd : ℕ)
      {r : List Report × Peer × Players}
      → IsAt a p
      → peer_slice new_buffer p ps pack now new_fd ≡ some r
      → IsAt a r.1
  unfolding peer_slice
  peer_slice-IsAt a p ps pack now new_fd {r = r} h e =
      elim (Option-cases (on_slice new_buffer p.combine pack now)) [
        | inl fault ↦ absurd (cc (fault, e))
        | inr (q, step) ↦
            let h' = handle_events-SameAddr p.client ps now new_fd q.0 in
            let after : Peer = record {
              client = (handle_events p.client ps now new_fd q.0).1;
              combine = q.1;
            } in
            let is : after ≡ r.1 = ground (arith, e, step) in subst (IsAt a) is (rw (h'.0, h'.1) h)
      ]

  -- A slice from another address leaves the client that is found.
  pub other-slice :
      (a b : ℕ) (cs : List (Option Peer)) (ps : Players) (pack : Packet) (now new_fd : ℕ)
      {r : Outcome}
      → a ≢ b
      → on_udp_slice new_buffer cs ps b pack now new_fd ≡ some r
      → find_client a r.1 ≡ find_client a cs
  other-slice a b cs ps pack now new_fd {r = r} ne e = elim (Option-cases (find_client b cs)) [
    | inl nobody ↦
        let is : ([], cs, ps) ≡ r =
          same_some (sym (on_udp_slice-none new_buffer b cs ps pack now new_fd nobody) ∙ e) in
        ap (λ (r : Outcome). find_client a r.1) (sym is)
    | inr (p, found) ↦
        let routed = on_udp_slice-found new_buffer b cs ps pack now new_fd {p = p} found in
        elim (Option-cases (peer_slice new_buffer p ps pack now new_fd)) [
          | inl fault ↦ absurd (cc (sym routed ∙ e, fault))
          | inr (q, step) ↦
              let is : (q.0, put_client b q.1 cs, q.2) ≡ r = same_some (
                sym (
                  routed
                  ∙ ap (Option.map {B = Outcome} (λ x. (x.0, put_client b x.1 cs, x.2))) step)
                ∙ e) in
              ap (λ (r : Outcome). find_client a r.1) (sym is)
              ∙ find-put_client-other b a q.1 cs ne (
                  peer_slice-IsAt b p ps pack now new_fd {r = q} (find_client-IsAt b cs found) step)
        ]
  ]
