-- ===== src/Server/Mixed.antt =====
-- Slices of several clients, in whatever order they come: what one client has of its video message.
use mathlib.Core.Option
use mathlib.Core.Path.{subst}
use rv_receive.Base.{
  ℕ, ◌*◌, ◌≤◌, ◌<◌, ◌≡◌, ◌≢◌, refl, sym, ap, ◌∙◌, inl, inr, true, false, Option, some, List, [],
  ◌∷◌, ◌++◌, arith, ◌==◌, if◌then◌else◌, length, Bool-cases, Option-cases, pick_then, pick_else,
}
use rv_receive.Message.{Packet, udp_packength, type_media_videodata}
use rv_receive.Combine.{PackData}
use rv_receive.Combine.Collect.{IsSlice}
use rv_receive.Combine.Reassembly.{has, Slices}
use rv_receive.Combine.Room.{Allocates}
use rv_receive.UdpCombine.{CombineCache, Event, report, count_retry, on_video_slice}
use rv_receive.UdpCombine.Run.{packets, run_video, reported}
use rv_receive.Client.{Players}
use rv_receive.Server.{Peer, on_udp_slice}
use rv_receive.UdpCombine.Deliver.{run_video-deliver}
use rv_receive.UdpCombine.Types.{AllVideo, VideoSlices, run_video-IsVideo}
use rv_receive.Server.Quiet.{Quiet, received_same, split-Quiet, after, after_none, after-append}
use rv_receive.Server.Delivery.{on_udp_slices, one_slice, Holds, reported-Holds}
use rv_receive.Server.Table.{find_client}
use rv_receive.Server.Route.{Outcome}
use rv_receive.Server.Others.{same_some, other-slice}

-- A slice, with the address that it comes from and its time.
pub record Arrival : Type 0 where
  pub from : ℕ
  pub pack : Packet
  pub now : ℕ

unfoldable pub on_arrivals :
    (ℕ → PackData) → List (Option Peer) → Players → List Arrival → ℕ → Option Outcome
on_arrivals new_buffer cs ps [] new_fd = some ([], cs, ps)
on_arrivals new_buffer cs ps (x ∷ l) new_fd =
    Option.bind (on_udp_slice new_buffer cs ps x.from x.pack x.now new_fd) (λ r.
      Option.map {B = Outcome} (λ q. (r.0 ++ q.0, q.1, q.2))
        (on_arrivals new_buffer r.1 r.2 l new_fd))

-- Those from one address.
abbrev pub from_one : ℕ → List Arrival → List (Packet × ℕ)
from_one a [] = []
from_one a (x ∷ l) = if x.from == a then (x.pack, x.now) ∷ from_one a l else from_one a l

abbrev pub arrivals : ℕ → List (Packet × ℕ) → List Arrival
arrivals a [] = []
arrivals a ((pack, now) ∷ l) = record { from = a; pack = pack; now = now } ∷ arrivals a l

-- With no slices of others it is the run of one client.
pub on_arrivals-arrivals :
    (new_buffer : ℕ → PackData) (cs : List (Option Peer)) (ps : Players) (a : ℕ)
    (l : List (Packet × ℕ)) (new_fd : ℕ)
    → on_arrivals new_buffer cs ps (arrivals a l) new_fd ≡ on_udp_slices new_buffer cs ps a l new_fd
unfolding on_arrivals on_udp_slices Option.bind
on_arrivals-arrivals new_buffer cs ps a [] new_fd = refl
on_arrivals-arrivals new_buffer cs ps a ((pack, now) ∷ l) new_fd =
    elim (Option-cases (on_udp_slice new_buffer cs ps a pack now new_fd)) [
      | inl fault ↦ rw fault refl
      | inr (r, first) ↦ rw (first, on_arrivals-arrivals new_buffer r.1 r.2 a l new_fd) refl
    ]

module _ (new_buffer : ℕ → PackData) (a new_fd : ℕ) where
  -- The first slice, and the others on what it leaves.
  first_arrival :
      (cs : List (Option Peer)) (ps : Players) (x : Arrival) (l : List Arrival) {o : Outcome}
      → on_arrivals new_buffer cs ps (x ∷ l) new_fd ≡ some o
      → (r : Outcome) × (o' : Outcome) × (on_udp_slice new_buffer cs ps x.from x.pack x.now new_fd
          ≡ some r)
        × (on_arrivals new_buffer r.1 r.2 l new_fd ≡ some o')
        × (o.1 ≡ o'.1)
  unfolding on_arrivals Option.bind
  first_arrival cs ps x l {o = o} e =
      elim (Option-cases (on_udp_slice new_buffer cs ps x.from x.pack x.now new_fd)) [
        | inl fault ↦ ground (arith, fault)
        | inr (r, first) ↦ elim (Option-cases (on_arrivals new_buffer r.1 r.2 l new_fd)) [
          | inl fault ↦ ground (arith, first, fault)
          | inr (o', rest) ↦ (r, o', first, rest, ground (arith, first, rest))
        ]
      ]

  -- The first slice of a run, handled by the client that is found.
  first_mine :
      (cs : List (Option Peer)) (ps : Players) (x : Arrival) (l : List (Packet × ℕ)) (p : Peer)
      (r : List Event × CombineCache) (r₁ : Outcome)
      → x.from ≡ a
      → find_client a cs ≡ some p
      → x.pack.type ≡ type_media_videodata
      → 0 < p.client.len_buf_video
      → Quiet p.client.len_buf_video r.0
      → run_video new_buffer p.combine.video_cache ((x.pack, x.now) ∷ l) ≡ some r
      → on_udp_slice new_buffer cs ps x.from x.pack x.now new_fd ≡ some r₁
      → (s : List Event × CombineCache) × (q : List Event × CombineCache) × (find_client a r₁.1
          ≡ some (after p s.0 s.1))
        × (0 < (after p s.0 s.1).client.len_buf_video)
        × Quiet (after p s.0 s.1).client.len_buf_video q.0
        × (run_video new_buffer s.1 l ≡ some q)
        × (after (after p s.0 s.1) q.0 q.1 ≡ after p r.0 r.1)
  unfolding run_video Option.bind after
  first_mine cs ps x l p r r₁ eq f v some_buffer h run first =
      let len = p.client.len_buf_video in
      elim (Option-cases (on_video_slice new_buffer p.combine.video_cache x.pack x.now)) [
        | inl fault ↦ ground (arith, fault)
        | inr (s, step) ↦ elim (Option-cases (run_video new_buffer s.1 l)) [
          | inl fault ↦ ground (arith, step, fault)
          | inr (q, then_l) ↦
              let is : (s.0 ++ q.0, q.1) ≡ r = ground (arith, step, then_l) in
              let ok = split-Quiet len s.0 q.0 (subst (λ r. Quiet len r.0) (sym is) h) in
              let (cs₁, e₁, w₁) =
                one_slice new_buffer a ps new_fd cs p x.pack x.now s f v some_buffer ok.0 step in
              let here =
                ap (λ b. on_udp_slice new_buffer cs ps b x.pack x.now new_fd) (sym eq) ∙ first in
              let left : cs₁ ≡ r₁.1 = ap (λ (o : Outcome). o.1) (same_some (sym e₁ ∙ here)) in
              let same = sym (received_same p.client s.0).2 in
              (
                s,
                q,
                ap (find_client a) (sym left) ∙ w₁.found,
                subst (λ n. 0 < n) same some_buffer,
                subst (λ n. Quiet n q.0) same ok.1,
                then_l,
                after-append len p s.0 q.0 s.1 q.1 ok.0 ∙ ap (λ r. after p r.0 r.1) is,
              )
        ]
      ]

  all_arrivals :
      (cs : List (Option Peer)) (ps : Players) (l : List Arrival) (p : Peer)
      (r : List Event × CombineCache) (o : Outcome)
      → find_client a cs ≡ some p
      → VideoSlices (from_one a l)
      → 0 < p.client.len_buf_video
      → Quiet p.client.len_buf_video r.0
      → run_video new_buffer p.combine.video_cache (from_one a l) ≡ some r
      → on_arrivals new_buffer cs ps l new_fd ≡ some o
      → find_client a o.1 ≡ some (after p r.0 r.1)
  unfolding run_video Option.bind on_arrivals after
  all_arrivals cs ps [] p r o f v some_buffer h run e =
      let is : ([], p.combine.video_cache) ≡ r = ground (arith, run) in
      ap (λ (o : Outcome). find_client a o.1) (sym (same_some e))
      ∙ f
      ∙ ap some (sym (after_none p) ∙ ap (λ r. after p r.0 r.1) is)
  all_arrivals cs ps (x ∷ l) p r o f v some_buffer h run e =
      let (r₁, o', first, rest, same) = first_arrival cs ps x l e in
      ap (find_client a) same ∙ elim (Bool-cases (x.from == a)) [
        | inl mine ↦
            let here =
              pick_then (x.from == a) ((x.pack, x.now) ∷ from_one a l) (from_one a l) mine in
            let v' = subst VideoSlices here v in
            let (s, q, found, some', quiet, then_l, reached) =
              first_mine cs ps x (from_one a l) p r r₁ (ground (arith, mine)) f v'.0 some_buffer h
                (ap (run_video new_buffer p.combine.video_cache) (sym here) ∙ run) first in
            all_arrivals r₁.1 r₁.2 l (after p s.0 s.1) q o' found v'.1 some' quiet then_l rest
            ∙ ap some reached
        | inr other ↦
            let only =
              pick_else (x.from == a) ((x.pack, x.now) ∷ from_one a l) (from_one a l) other in
            let left =
              other-slice new_buffer a x.from cs ps x.pack x.now new_fd {r = r₁}
                (ground (arith, other)) first in
            all_arrivals r₁.1 r₁.2 l p r o' (left ∙ f) (subst VideoSlices only v) some_buffer h
              (ap (run_video new_buffer p.combine.video_cache) (sym only) ∙ run) rest
      ]

-- Slices of any clients come in any order, and no access is outside a buffer. If those from one
-- address are a video message of at most 256 slices, also in any order and repeatedly until one that
-- was missing is the last, which fits in the buffer of the client from there and whose number is the
-- next one that its packets wait for, with nothing else waiting, then that client has the message
-- last in its list of video data, once, and waits for the next number: what the others send does not
-- change that.
pub on_arrivals-Holds :
    (new_buffer : ℕ → PackData) {seq n : ℕ} {msg : List ℕ} (cs : List (Option Peer)) (ps : Players)
    (a : ℕ) (l : List Arrival) (front : List (Packet × ℕ)) (pack : Packet) (now new_fd : ℕ)
    (p : Peer) (o : Outcome)
    → Allocates new_buffer
    → n ≤ 256
    → length msg ≤ n * udp_packength
    → 0 < p.client.len_buf_video
    → length msg ≤ p.client.len_buf_video
    → find_client a cs ≡ some p
    → p.combine.video_cache.pack_list ≡ []
    → p.combine.video_cache.retry_count < count_retry
    → p.combine.video_cache.seq_report ≡ seq
    → from_one a l ≡ front ++ ((pack, now) ∷ [])
    → VideoSlices (front ++ ((pack, now) ∷ []))
    → Slices seq n udp_packength msg (packets front)
    → IsSlice seq n udp_packength msg pack
    → has pack.cur_slice (packets front) ≡ false
    → ((i : ℕ) → i < n → i ≢ pack.cur_slice → has i (packets front) ≡ true)
    → on_arrivals new_buffer cs ps l new_fd ≡ some o
    → Holds a seq msg p o.1
on_arrivals-Holds new_buffer {seq = seq} cs ps a l front pack now new_fd p o allocates few covers
      some_buffer small f empty tries next mine v ss s new all e =
    let cache = p.combine.video_cache in
    let (d, run, r) =
      run_video-deliver new_buffer allocates few covers cache front pack now empty tries next ss s
        new all in
    let of_video =
      run_video-IsVideo new_buffer cache (front ++ ((pack, now) ∷ []))
        (subst AllVideo (sym empty) tt) v run in
    let fitting : d.data_size ≤ p.client.len_buf_video = omega (arith, r.1, small) in
    let found =
      all_arrivals new_buffer a new_fd cs ps l p (report d ∷ [], reported cache seq) o f
        (subst VideoSlices (sym mine) v) some_buffer (of_video.0.0, fitting, tt)
        (ap (run_video new_buffer cache) mine ∙ run) e in
    reported-Holds a p d found of_video.0.0 r
