-- ===== src/Server/Datagram.antt =====
-- socket/UdpServer.cpp: a datagram that comes in, from its bytes to the client that it is for, and the
-- answer to a search by broadcast. The buffer keeps what the datagram before left in it. Where a head
-- tells of more data than the buffer has, the code reads behind it, which is a fault.
use mathlib.Core.Option
use rv_receive.Base.{
  ℕ, ◌+◌, ◌*◌, ◌≤◌, ◌≡◌, refl, sym, ap, ◌∙◌, inl, inr, pick_else, Bool, false, not, leb, le→leb,
  length-append, ◌||◌, ◌&&◌, Option, none, some, List, [], ◌∷◌, ◌++◌, arith, ◌==◌, if◌then◌else◌,
  length, take, drop, take-length, get_elem?, Option-cases,
}
use rv_receive.Message.{Packet, sockmagic_head, sockpackagehead_size}
use rv_receive.Combine.{PackData}
use rv_receive.Stream.{head, frame, packet_at, size_at}
use rv_receive.Stream.Frames.{Framed, packet_at-frame, size_at-frame, length-frame}
use rv_receive.Client.{Players, Report}
use rv_receive.Server.{Peer, is_client, is_valid, on_udp_slice}
use rv_receive.Server.Route.{Outcome}
use rv_receive.Server.Delivery.{on_udp_slices}
use rv_receive.Server.Mixed.{Arrival, on_arrivals, arrivals, on_arrivals-arrivals}
use mathlib.Core.Path.{subst}

abbrev pub udp_maxlength : ℕ
udp_maxlength = 64 * 1024

-- What a call of `recvfrom` leaves in the buffer; `none` is an error.
unfoldable pub fill : List ℕ → Option (List ℕ) → List ℕ
fill buffer none = buffer
fill buffer (some bytes) = let got = take udp_maxlength bytes in got ++ drop (length got) buffer

abbrev pub is_byte : List ℕ → ℕ → ℕ → Bool
is_byte buffer i b = elim (get_elem? buffer i) [ none ↦ false | some x ↦ x == b ]

-- The test for a search, which starts with `$`.
abbrev pub is_search : List ℕ → Bool
is_search buffer =
    is_byte buffer 0 36
    && is_byte buffer 1 16
    && is_byte buffer 2 1
    && is_byte buffer 3 0
    && is_byte buffer 4 0
    && is_byte buffer 5 0

-- The device's name and its hardware address, in ASCII.
abbrev pub device_message : List ℕ
device_message =
    82 ∷ 86 ∷ 49 ∷ 49 ∷ 48 ∷ 56 ∷ 95 ∷ 114 ∷ 101 ∷ 99 ∷ 101 ∷ 105 ∷ 118 ∷ 101 ∷ 38 ∷ 66 ∷ 48 ∷ 58
    ∷ 67 ∷ 53 ∷ 58 ∷ 67 ∷ 65 ∷ 58 ∷ 55 ∷ 53 ∷ 58 ∷ 56 ∷ 69 ∷ 58 ∷ 69 ∷ 68 ∷ []

-- `strlen`; `none` reads past the array.
unfoldable pub str_len : List ℕ → Option ℕ
str_len [] = none
str_len (b ∷ bs) =
    let rest = Option.map (λ n. n + 1) (str_len bs) in if b == 0 then some 0 else rest

-- `AnswerRadioBroadcast`; `behind` is what stands in the array behind the message.
unfoldable pub answer_radio_broadcast : List ℕ → Option (List ℕ)
unfolding str_len
answer_radio_broadcast behind =
    let message = 36 ∷ 17 ∷ length device_message ∷ device_message ++ behind in
    Option.map (λ n. take n message) (str_len message)

pub record Datagram : Type 0 where
  pub from : ℕ
  pub bytes : Option (List ℕ)
  pub behind : List ℕ
  pub now : ℕ

pub record Served : Type 0 where
  pub answers : List (List ℕ)
  pub reports : List Report
  pub buffer : List ℕ
  pub clients : List (Option Peer)
  pub players : Players

abbrev pub answers_to : List ℕ → List ℕ → Option (List (List ℕ))
answers_to buffer behind =
    if is_search buffer then Option.map (λ x. x ∷ []) (answer_radio_broadcast behind) else some []

-- The buffer holds all the data that the packet's head tells of.
abbrev pub holds_packet : List ℕ → Bool
holds_packet buffer = leb (size_at buffer + sockpackagehead_size) (length buffer)

-- A slice from the address is for a client.
unfoldable pub is_known : ℕ → List (Option Peer) → Bool
is_known a [] = false
is_known a (none ∷ cs) = is_known a cs
is_known a (some p ∷ cs) = (is_client a p && is_valid p) || is_known a cs

module _ (new_buffer : ℕ → PackData) where
  -- One round of `doStartListen`. A client's slice whose head tells of more data than the buffer has is
  -- a fault, as the code reads behind the buffer (also where it would drop the slice unread).
  unfoldable pub on_datagram : List ℕ → List (Option Peer) → Players → Datagram → ℕ → Option Served
  on_datagram buffer cs ps g new_fd =
      let b = fill buffer g.bytes in
      Option.bind (answers_to b g.behind) (λ out.
        let handled =
          Option.map
            (λ r. record { answers = out; reports = r.0; buffer = b; clients = r.1; players = r.2 })
            (on_udp_slice new_buffer cs ps g.from (packet_at b) g.now new_fd) in
        if not (holds_packet b) && is_known g.from cs then none else handled)

  unfoldable pub on_datagrams :
      List ℕ → List (Option Peer) → Players → List Datagram → ℕ → Option Served
  on_datagrams buffer cs ps [] new_fd =
      some (record { answers = []; reports = []; buffer = buffer; clients = cs; players = ps })
  on_datagrams buffer cs ps (g ∷ gs) new_fd = Option.bind (on_datagram buffer cs ps g new_fd) (λ r.
      Option.map {A = Served}
        (λ q. record q { answers = r.answers ++ q.answers; reports = r.reports ++ q.reports })
        (on_datagrams r.buffer r.clients r.players gs new_fd))

-- A packet as the sender makes it, of a size that a datagram has.
pub record IsSent (p : Packet) : Type 0 where
  pub framed : Framed p
  pub of_magic : p.magic ≡ sockmagic_head
  pub short : p.data_size + 24 ≤ udp_maxlength

abbrev pub AllSent : List (Packet × ℕ) → Type 0
AllSent [] = Unit {0}
AllSent ((p, now) ∷ l) = IsSent p × AllSent l

-- The datagrams of packets, from one address.
abbrev pub datagrams : ℕ → List ℕ → List (Packet × ℕ) → List Datagram
datagrams a behind [] = []
datagrams a behind ((p, now) ∷ l) =
    record { from = a; bytes = some (frame p); behind = behind; now = now } ∷ datagrams a behind l

-- Slices as datagrams, each with what stands behind the message of the answer then; and what there is
-- of them besides.
abbrev pub datagrams_of : List (Arrival × List ℕ) → List Datagram
datagrams_of [] = []
datagrams_of ((x, behind) ∷ l) =
    record { from = x.from; bytes = some (frame x.pack); behind = behind; now = x.now }
    ∷ datagrams_of l

abbrev pub slices_of : List (Arrival × List ℕ) → List Arrival
slices_of [] = []
slices_of ((x, behind) ∷ l) = x ∷ slices_of l

abbrev pub stamped : List (Arrival × List ℕ) → List (Packet × ℕ)
stamped [] = []
stamped ((x, behind) ∷ l) = (x.pack, x.now) ∷ stamped l

abbrev pub fill_all : List ℕ → List (Packet × ℕ) → List ℕ
fill_all buffer [] = buffer
fill_all buffer ((p, now) ∷ l) = fill_all (fill buffer (some (frame p))) l

fill-frame :
    (buffer : List ℕ) (p : Packet)
    → IsSent p
    → fill buffer (some (frame p)) ≡ frame p ++ drop (length (frame p)) buffer
unfolding fill
fill-frame buffer p s =
    ap (λ got. got ++ drop (length got) buffer)
      (take-length (frame p) udp_maxlength (omega (arith, length-frame s.framed, s.short)))

not_search : (p : Packet) (t : List ℕ) → p.magic ≡ sockmagic_head → is_search (frame p ++ t) ≡ false
unfolding frame head
not_search p t e = rw e refl

abbrev pub served_by : List ℕ → Outcome → Served
served_by buffer r = record {
  answers = [];
  reports = r.0;
  buffer = buffer;
  clients = r.1;
  players = r.2;
}

module _ (new_buffer : ℕ → PackData) (new_fd : ℕ) where
  on_datagram-frame :
      (a : ℕ) (behind buffer : List ℕ) (cs : List (Option Peer)) (ps : Players) (p : Packet)
      (now : ℕ)
      → IsSent p
      → on_datagram new_buffer buffer cs ps
          (record { from = a; bytes = some (frame p); behind = behind; now = now })
          new_fd
        ≡ Option.map
            (served_by (fill buffer (some (frame p))))
            (on_udp_slice new_buffer cs ps a p now new_fd)
  unfolding on_datagram Option.bind
  on_datagram-frame a behind buffer cs ps p now s =
      let b = fill buffer (some (frame p)) in
      let is = fill-frame buffer p s in
      let quiet : answers_to b behind ≡ some [] =
        pick_else (is_search b) _ _ (ap is_search is ∙ not_search p _ s.of_magic) in
      let same : packet_at b ≡ p = ap packet_at is ∙ packet_at-frame p _ s.framed in
      let whole : (not (holds_packet b) && is_known a cs) ≡ false =
        ap (λ h. not h && is_known a cs)
          (le→leb (size_at b + sockpackagehead_size) (length b) (
            omega (
              arith,
              ap length is,
              ap size_at is ∙ size_at-frame p _ s.framed,
              length-frame s.framed,
              length-append (frame p) (drop (length (frame p)) buffer),
            ))) in
      rw (quiet, whole, same) refl

  -- Datagrams from any addresses that are packets as the sender makes them: the server handles exactly
  -- these packets, each as a slice from the address that its datagram is from, and answers nothing,
  -- whatever stands behind the message of the answer; the buffer is left with their bytes.
  pub on_datagrams-frame :
      (buffer : List ℕ) (cs : List (Option Peer)) (ps : Players) (l : List (Arrival × List ℕ))
      → AllSent (stamped l)
      → on_datagrams new_buffer buffer cs ps (datagrams_of l) new_fd
        ≡ Option.map
            (served_by (fill_all buffer (stamped l)))
            (on_arrivals new_buffer cs ps (slices_of l) new_fd)
  unfolding on_datagrams on_arrivals Option.bind
  on_datagrams-frame buffer cs ps [] s = refl
  on_datagrams-frame buffer cs ps ((x, behind) ∷ l) s =
      let one = on_datagram-frame x.from behind buffer cs ps x.pack x.now s.0 in
      elim (Option-cases (on_udp_slice new_buffer cs ps x.from x.pack x.now new_fd)) [
        | inl fault ↦ rw (one, fault) refl
        | inr (r, first) ↦
            let later = on_datagrams-frame (fill buffer (some (frame x.pack))) r.1 r.2 l s.1 in
            elim (Option-cases (on_arrivals new_buffer r.1 r.2 (slices_of l) new_fd)) [
              | inl fault ↦ rw (one, first, later, fault) refl
              | inr (q, rest) ↦ rw (one, first, later, rest) refl
            ]
      ]

-- The datagrams of packets, from one address.
abbrev pub arrived : ℕ → List ℕ → List (Packet × ℕ) → List (Arrival × List ℕ)
arrived a behind [] = []
arrived a behind ((p, now) ∷ l) =
    (record { from = a; pack = p; now = now }, behind) ∷ arrived a behind l

module _ (a : ℕ) (behind : List ℕ) where
  datagrams_of-arrived :
      (l : List (Packet × ℕ)) → datagrams_of (arrived a behind l) ≡ datagrams a behind l
  datagrams_of-arrived [] = refl
  datagrams_of-arrived ((p, now) ∷ l) = rw (datagrams_of-arrived l) refl

  slices_of-arrived : (l : List (Packet × ℕ)) → slices_of (arrived a behind l) ≡ arrivals a l
  slices_of-arrived [] = refl
  slices_of-arrived ((p, now) ∷ l) = rw (slices_of-arrived l) refl

  stamped-arrived : (l : List (Packet × ℕ)) → stamped (arrived a behind l) ≡ l
  stamped-arrived [] = refl
  stamped-arrived ((p, now) ∷ l) = ap (◌∷◌ (p, now)) (stamped-arrived l)

  -- So for packets from one address.
  pub on_datagrams_from :
      (new_buffer : ℕ → PackData) (new_fd : ℕ) (buffer : List ℕ) (cs : List (Option Peer))
      (ps : Players) (l : List (Packet × ℕ))
      → AllSent l
      → on_datagrams new_buffer buffer cs ps (datagrams a behind l) new_fd
        ≡ Option.map (served_by (fill_all buffer l)) (on_udp_slices new_buffer cs ps a l new_fd)
  on_datagrams_from new_buffer new_fd buffer cs ps l s =
      ap (λ gs. on_datagrams new_buffer buffer cs ps gs new_fd) (sym (datagrams_of-arrived l))
      ∙ on_datagrams-frame new_buffer new_fd buffer cs ps (arrived a behind l)
          (subst AllSent (sym (stamped-arrived l)) s)
      ∙ ap
          (λ k.
            Option.map (served_by (fill_all buffer k))
              (on_arrivals new_buffer cs ps (slices_of (arrived a behind l)) new_fd))
          (stamped-arrived l)
      ∙ ap (λ k. Option.map (served_by (fill_all buffer l)) (on_arrivals new_buffer cs ps k new_fd))
          (slices_of-arrived l)
      ∙ ap (Option.map (served_by (fill_all buffer l)))
          (on_arrivals-arrivals new_buffer cs ps a l new_fd)
