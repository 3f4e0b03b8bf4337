-- ===== src/Server/Delivery.antt =====
-- The datagrams of a video message, from the server's socket to the data that wait for the decoder.
use mathlib.Core.Option
use mathlib.Core.Path.{subst}
use rv_receive.Base.{
  ℕ, ◌*◌, ◌≤◌, ◌<◌, ◌≡◌, ◌≢◌, refl, sym, ap, ◌∙◌, inl, inr, true, false, Option, some, List, [],
  ◌∷◌, ◌++◌, arith, length, Option-cases,
}
use rv_receive.Message.{Packet, udp_packength, type_media_videodata}
use rv_receive.Combine.{PackData}
use rv_receive.Combine.Collect.{IsSlice}
use rv_receive.Combine.Reassembly.{has, Slices}
use rv_receive.Combine.Room.{Allocates}
use rv_receive.UdpCombine.{CombineCache, Event, report, count_retry, on_video_slice}
use rv_receive.UdpCombine.Run.{packets, run_video, reported}
use rv_receive.UdpCombine.Deliver.{run_video-deliver, Reports}
use rv_receive.Server.Quiet.{
  Quiet, take_video, received, split-Quiet, received_same, after, still-IsAt, after_none,
  after-append, peer_slice-Quiet,
}
use rv_receive.UdpCombine.Types.{AllVideo, VideoSlices, run_video-IsVideo}
use rv_receive.SendQueue.{ThreadSendData}
use rv_receive.Client.{Players}
use rv_receive.Client.Playing.{put_data}
use rv_receive.Server.{Peer, on_udp_slice}
use rv_receive.Server.Table.{find_client}
use rv_receive.Server.Route.{
  Outcome, put_client, find_client-IsAt, find-put_client, find-put_client-other, on_udp_slice-found,
}

-- Datagrams from one address, one after the other.
unfoldable pub on_udp_slices :
    (ℕ → PackData) → List (Option Peer) → Players → ℕ → List (Packet × ℕ) → ℕ → Option Outcome
on_udp_slices new_buffer cs ps a [] new_fd = some ([], cs, ps)
on_udp_slices new_buffer cs ps a ((p, now) ∷ l) new_fd =
    Option.bind (on_udp_slice new_buffer cs ps a p now new_fd) (λ r.
      Option.map {B = Outcome} (λ q. (r.0 ++ q.0, q.1, q.2))
        (on_udp_slices new_buffer r.1 r.2 a l new_fd))

-- The client that is found gets what is reported, and the others are as they were.
pub record Arrived (a : ℕ) (cs cs' : List (Option Peer)) (p : Peer) : Type 0 where
  pub found : find_client a cs' ≡ some p
  pub others : (b : ℕ) → b ≢ a → find_client b cs' ≡ find_client b cs

module _ (new_buffer : ℕ → PackData) (a : ℕ) (ps : Players) (new_fd : ℕ) where
  pub one_slice :
      (cs : List (Option Peer)) (p : Peer) (pack : Packet) (now : ℕ) (r : List Event × CombineCache)
      → find_client a cs ≡ some p
      → pack.type ≡ type_media_videodata
      → 0 < p.client.len_buf_video
      → Quiet p.client.len_buf_video r.0
      → on_video_slice new_buffer p.combine.video_cache pack now ≡ some r
      → (cs' : List (Option Peer)) × (on_udp_slice new_buffer cs ps a pack now new_fd
          ≡ some ([], cs', ps))
        × Arrived a cs cs' (after p r.0 r.1)
  one_slice cs p pack now r f e some_buffer h step =
      let at = still-IsAt a p r.0 r.1 (find_client-IsAt a cs f) in
      (
        put_client a (after p r.0 r.1) cs,
        on_udp_slice-found new_buffer a cs ps pack now new_fd f
            ∙ ap (Option.map {B = Outcome} (λ x. (x.0, put_client a x.1 cs, x.2)))
                (peer_slice-Quiet new_buffer p ps pack now new_fd r e some_buffer h step),
        record {
          found = find-put_client a (after p r.0 r.1) cs {p = p} at f;
          others = λ b ne. find-put_client-other a b (after p r.0 r.1) cs ne at;
        },
      )

  all_slices :
      (cs : List (Option Peer)) (l : List (Packet × ℕ)) (p : Peer) (r : List Event × CombineCache)
      → find_client a cs ≡ some p
      → VideoSlices l
      → 0 < p.client.len_buf_video
      → Quiet p.client.len_buf_video r.0
      → run_video new_buffer p.combine.video_cache l ≡ some r
      → (cs' : List (Option Peer)) × (on_udp_slices new_buffer cs ps a l new_fd
          ≡ some ([], cs', ps))
        × Arrived a cs cs' (after p r.0 r.1)
  unfolding on_udp_slices run_video Option.bind after
  all_slices cs [] p r f v some_buffer h run =
      let is : ([], p.combine.video_cache) ≡ r = ground (arith, run) in
      subst
        (λ r.
          (cs' : List (Option Peer)) × (◌≡◌ {A = Option Outcome} (some ([], cs, ps))
            (some ([], cs', ps)))
          × Arrived a cs cs' (after p r.0 r.1))
        is (cs, refl, record { found = f ∙ ap some (sym (after_none p)); others = λ b ne. refl })
  all_slices cs ((pack, now) ∷ l) p r f v some_buffer h run =
      elim (Option-cases (on_video_slice new_buffer p.combine.video_cache pack now)) [
        | inl fault ↦ ground (arith, fault)
        | inr (r₁, first) ↦ elim (Option-cases (run_video new_buffer r₁.1 l)) [
          | inl fault ↦ ground (arith, first, fault)
          | inr (q, then_l) ↦
              let len = p.client.len_buf_video in
              let is : (r₁.0 ++ q.0, q.1) ≡ r = ground (arith, first, then_l) in
              let ok = split-Quiet len r₁.0 q.0 (subst (λ r. Quiet len r.0) (sym is) h) in
              let (cs₁, e₁, w₁) = one_slice cs p pack now r₁ f v.0 some_buffer ok.0 first in
              let same = sym (received_same p.client r₁.0).2 in
              let (cs₂, e₂, w₂) =
                all_slices cs₁ l (after p r₁.0 r₁.1) q w₁.found v.1
                  (subst (λ n. 0 < n) same some_buffer) (subst (λ n. Quiet n q.0) same ok.1)
                  then_l in
              let reached =
                after-append len p r₁.0 q.0 r₁.1 q.1 ok.0 ∙ ap (λ r. after p r.0 r.1) is in
              (
                cs₂,
                rw (e₁, e₂) refl,
                record {
                  found = w₂.found ∙ ap some reached;
                  others = λ b ne. w₂.others b ne ∙ w₁.others b ne;
                },
              )
        ]
      ]

-- The client from `a` has a video message last in its list and waits for the next one.
pub record Holds (a seq : ℕ) (msg : List ℕ) (p : Peer) (cs' : List (Option Peer)) : Type 0 where
  pub peer : Peer
  pub time : ℕ
  pub found : find_client a cs' ≡ some peer
  pub queued :
      peer.client.received_video
      ≡ p.client.received_video
        ++ (record { type = type_media_videodata; data_size = length msg; time = time; body = msg }
            ∷ [])
  pub waits : peer.combine.video_cache ≡ reported p.combine.video_cache seq

-- So it has, and a search for another address finds the same as before.
pub record Delivered (a seq : ℕ) (msg : List ℕ) (p : Peer) (cs cs' : List (Option Peer))
    : Type 0 where
  pub holds : Holds a seq msg p cs'
  pub others : (b : ℕ) → b ≢ a → find_client b cs' ≡ find_client b cs

put_reported :
    (ds : List ThreadSendData) (d : PackData) {seq : ℕ} {msg : List ℕ}
    → d.type ≡ type_media_videodata
    → Reports seq msg d
    → put_data ds d
      ≡ ds
        ++ (record {
          type = type_media_videodata;
          data_size = length msg;
          time = d.time;
          body = msg;
        }
            ∷ [])
unfolding put_data
put_reported ds d {msg = msg} t r = rw (t, r.1, r.2) refl

pub reported-Holds :
    (a : ℕ) {seq : ℕ} {msg : List ℕ} {cs' : List (Option Peer)} (p : Peer) (d : PackData)
    → find_client a cs' ≡ some (after p (report d ∷ []) (reported p.combine.video_cache seq))
    → d.type ≡ type_media_videodata
    → Reports seq msg d
    → Holds a seq msg p cs'
unfolding after received take_video
reported-Holds a {seq = seq} p d found t r = record {
  peer = after p (report d ∷ []) (reported p.combine.video_cache seq);
  time = d.time;
  found = found;
  queued = put_reported p.client.received_video d t r;
  waits = refl;
}

-- A run that reports just the message.
pub run-Delivered :
    (new_buffer : ℕ → PackData) {seq : ℕ} {msg : List ℕ} (cs : List (Option Peer)) (ps : Players)
    (a : ℕ) (l : List (Packet × ℕ)) (new_fd : ℕ) (p : Peer) (d : PackData)
    → 0 < p.client.len_buf_video
    → length msg ≤ p.client.len_buf_video
    → find_client a cs ≡ some p
    → p.combine.video_cache.pack_list ≡ []
    → VideoSlices l
    → run_video new_buffer p.combine.video_cache l
      ≡ some (report d ∷ [], reported p.combine.video_cache seq)
    → Reports seq msg d
    → (cs' : List (Option Peer)) × (on_udp_slices new_buffer cs ps a l new_fd ≡ some ([], cs', ps))
      × Delivered a seq msg p cs cs'
run-Delivered new_buffer {seq = seq} cs ps a l new_fd p d some_buffer small f empty v run r =
    let cache = p.combine.video_cache in
    let of_video = run_video-IsVideo new_buffer cache l (subst AllVideo (sym empty) tt) v run in
    let fitting : d.data_size ≤ p.client.len_buf_video = omega (arith, r.1, small) in
    let (cs', e, w) =
      all_slices new_buffer a ps new_fd cs l p _ f v some_buffer (of_video.0.0, fitting, tt) run in
    (cs', e, record { holds = reported-Holds a p d (w.found) of_video.0.0 r; others = w.others })

-- A video message of at most 256 slices that fits in the buffer of the client from an address, and
-- whose number is the next one that this client's packets wait for, with nothing else waiting: its
-- slices come from that address as datagrams, in any order, also repeatedly, until one that was missing
-- is the last. Then the message is last in the list of video data of that client, once, nothing is
-- reported, and the other clients are as they were.
pub on_udp_slices-Delivered :
    (new_buffer : ℕ → PackData) {seq n : ℕ} {msg : List ℕ} (cs : List (Option Peer)) (ps : Players)
    (a : ℕ) (l : List (Packet × ℕ)) (pack : Packet) (now new_fd : ℕ) (p : Peer)
    → Allocates new_buffer
    → n ≤ 256
    → length msg ≤ n * udp_packength
    → 0 < p.client.len_buf_video
    → length msg ≤ p.client.len_buf_video
    → find_client a cs ≡ some p
    → p.combine.video_cache.pack_list ≡ []
    → p.combine.video_cache.retry_count < count_retry
    → p.combine.video_cache.seq_report ≡ seq
    → VideoSlices (l ++ ((pack, now) ∷ []))
    → Slices seq n udp_packength msg (packets l)
    → IsSlice seq n udp_packength msg pack
    → has pack.cur_slice (packets l) ≡ false
    → ((i : ℕ) → i < n → i ≢ pack.cur_slice → has i (packets l) ≡ true)
    → (cs' : List (Option Peer)) × (on_udp_slices new_buffer cs ps a
          (l ++ ((pack, now) ∷ []))
          new_fd
        ≡ some ([], cs', ps))
      × Delivered a seq msg p cs cs'
on_udp_slices-Delivered new_buffer cs ps a l pack now new_fd p allocates few covers some_buffer
      small f empty tries next v ss s new all =
    let (d, run, r) =
      run_video-deliver new_buffer allocates few covers p.combine.video_cache l pack now empty tries
        next ss s new all in
    run-Delivered new_buffer cs ps a (l ++ ((pack, now) ∷ [])) new_fd p d some_buffer small f empty
      v run r
