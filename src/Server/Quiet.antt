-- ===== src/Server/Quiet.antt =====
-- What a client makes of slices that only bring about reports of video packets.
use mathlib.Core.Option
use rv_receive.Base.{pick_then, ◌==◌, ℕ, ◌≤◌, ◌<◌, ◌≡◌, refl, ap, some, List, [], ◌∷◌, ◌++◌, arith}
use rv_receive.Message.{Packet, type_media_videodata}
use rv_receive.Combine.{PackData}
use rv_receive.UdpCombine.{
  UdpCombine, CombineCache, Event, request, request_range, report, report_slice, on_video_slice,
  on_slice,
}
use rv_receive.Client.{Client, Players}
use rv_receive.Client.Playing.{put_data}
use rv_receive.Client.Messages.{fits, do_recv_message}
use rv_receive.Server.{Peer, handle_event, handle_events, peer_slice}
use rv_receive.Server.Route.{IsAt}

-- Reports of video packets that fit in `len` bytes, and nothing else.
abbrev pub Quiet : ℕ → List Event → Type 0
Quiet len [] = Unit {0}
Quiet len (request r ∷ es) = ⊥
Quiet len (request_range r ∷ es) = ⊥
Quiet len (report d ∷ es) = (d.type ≡ type_media_videodata) × (d.data_size ≤ len) × Quiet len es
Quiet len (report_slice p ∷ es) = ⊥

unfoldable pub take_video : Client → PackData → Client
take_video c d = record c { recv_timeout_counter = 0; received_video = put_data c.received_video d }

-- The client with what is reported.
unfoldable pub received : Client → List Event → Client
received c [] = c
received c (request r ∷ es) = received c es
received c (request_range r ∷ es) = received c es
received c (report d ∷ es) = received (take_video c d) es
received c (report_slice p ∷ es) = received c es

pub split-Quiet :
    (len : ℕ) (es es' : List Event) → Quiet len (es ++ es') → Quiet len es × Quiet len es'
split-Quiet len [] es' h = (tt, h)
split-Quiet len (request r ∷ es) es' h = absurd h
split-Quiet len (request_range r ∷ es) es' h = absurd h
split-Quiet len (report d ∷ es) es' h =
    let (q, q') = split-Quiet len es es' h.2 in ((h.0, h.1, q), q')
split-Quiet len (report_slice p ∷ es) es' h = absurd h

received-append :
    (len : ℕ) (c : Client) (es es' : List Event)
    → Quiet len es
    → received (received c es) es' ≡ received c (es ++ es')
unfolding received
received-append len c [] es' h = refl
received-append len c (request r ∷ es) es' h = absurd h
received-append len c (request_range r ∷ es) es' h = absurd h
received-append len c (report d ∷ es) es' h = received-append len (take_video c d) es es' h.2
received-append len c (report_slice p ∷ es) es' h = absurd h

pub received_same :
    (c : Client) (es : List Event)
    → ((received c es).addr ≡ c.addr)
      × ((received c es).fd_socket ≡ c.fd_socket)
      × ((received c es).len_buf_video ≡ c.len_buf_video)
unfolding received take_video
received_same c [] = (refl, refl, refl)
received_same c (request r ∷ es) = received_same c es
received_same c (request_range r ∷ es) = received_same c es
received_same c (report d ∷ es) = received_same (take_video c d) es
received_same c (report_slice p ∷ es) = received_same c es

report_video :
    (c : Client) (ps : Players) (d : PackData) (now new_fd : ℕ)
    → d.type ≡ type_media_videodata
    → 0 < c.len_buf_video
    → d.data_size ≤ c.len_buf_video
    → do_recv_message c ps d now new_fd ≡ ([], take_video c d, ps)
unfolding do_recv_message take_video
report_video c ps d now new_fd e some_buffer small = rw e (
    ap (λ x. ([], x, ps))
      (pick_then (fits c.len_buf_video d) _ _ (ground (arith, some_buffer, small))))

handle_events-Quiet :
    (c : Client) (ps : Players) (now new_fd : ℕ) (es : List Event)
    → 0 < c.len_buf_video
    → Quiet c.len_buf_video es
    → handle_events c ps now new_fd es ≡ ([], received c es, ps)
unfolding handle_events handle_event received take_video
handle_events-Quiet c ps now new_fd [] some_buffer h = refl
handle_events-Quiet c ps now new_fd (request r ∷ es) some_buffer h = absurd h
handle_events-Quiet c ps now new_fd (request_range r ∷ es) some_buffer h = absurd h
handle_events-Quiet c ps now new_fd (report d ∷ es) some_buffer h =
    rw (report_video c ps d now new_fd h.0 some_buffer h.1)
      (handle_events-Quiet (take_video c d) ps now new_fd es some_buffer h.2)
handle_events-Quiet c ps now new_fd (report_slice p ∷ es) some_buffer h = absurd h

-- The client after the events, with the state of its video packets.
unfoldable pub after : Peer → List Event → CombineCache → Peer
after p es cache = record {
  client = received p.client es;
  combine = record (p.combine) { video_cache = cache };
}

module _ (new_buffer : ℕ → PackData) where
  on_slice-video :
      (u : UdpCombine) (p : Packet) (now : ℕ)
      → p.type ≡ type_media_videodata
      → on_slice new_buffer u p now
        ≡ Option.map {B = List Event × UdpCombine}
            (λ r. (r.0, record u { video_cache = r.1 }))
            (on_video_slice new_buffer u.video_cache p now)
  unfolding on_slice
  on_slice-video u p now e = pick_then (p.type == type_media_videodata) _ _ (ground (arith, e))

  pub peer_slice-Quiet :
      (p : Peer) (ps : Players) (pack : Packet) (now new_fd : ℕ) (r : List Event × CombineCache)
      → pack.type ≡ type_media_videodata
      → 0 < p.client.len_buf_video
      → Quiet p.client.len_buf_video r.0
      → on_video_slice new_buffer p.combine.video_cache pack now ≡ some r
      → peer_slice new_buffer p ps pack now new_fd ≡ some ([], after p r.0 r.1, ps)
  unfolding peer_slice after
  peer_slice-Quiet p ps pack now new_fd r e some_buffer h step =
      rw
        (
          on_slice-video p.combine pack now e,
          step,
          handle_events-Quiet p.client ps now new_fd r.0 some_buffer h,
        )
        refl

pub still-IsAt :
    (a : ℕ) (p : Peer) (es : List Event) (cache : CombineCache)
    → IsAt a p
    → IsAt a (after p es cache)
unfolding after
still-IsAt a p es cache h = let s = received_same p.client es in rw (s.0, s.1) h

pub after_none : (p : Peer) → after p [] p.combine.video_cache ≡ p
unfolding after received
after_none p = refl

pub after-append :
    (len : ℕ) (p : Peer) (es es' : List Event) (cache cache' : CombineCache)
    → Quiet len es
    → after (after p es cache) es' cache' ≡ after p (es ++ es') cache'
unfolding after
after-append len p es es' cache cache' h =
    ap
      (λ c.
        let q : Peer = record {
          client = c;
          combine = record (p.combine) { video_cache = cache' };
        } in
        q)
      (received-append len p.client es es' h)
