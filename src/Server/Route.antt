-- ===== src/Server/Route.antt =====
-- Which client a datagram is for, and that the others are left as they are.
use mathlib.Core.Option
use rv_receive.Base.{
  pick_then, ℕ, ◌≡◌, ◌≢◌, refl, sym, ap, ◌∙◌, inl, inr, true, false, ◌&&◌, Option, none, some, List,
  [], ◌∷◌, arith, if◌then◌else◌, Bool-cases,
}
use rv_receive.Message.{Packet}
use rv_receive.Combine.{PackData}
use rv_receive.Client.{Players, Report}
use rv_receive.Server.{Peer, is_valid, is_client, peer_slice, on_udp_slice}
use rv_receive.Server.Table.{find_client}

-- The table with the first valid client from `a` replaced.
unfoldable pub put_client : ℕ → Peer → List (Option Peer) → List (Option Peer)
put_client a p' [] = []
put_client a p' (none ∷ cs) = none ∷ put_client a p' cs
put_client a p' (some p ∷ cs) =
    if is_client a p && is_valid p then some p' ∷ cs else some p ∷ put_client a p' cs

-- A client that is valid and from the address.
abbrev pub IsAt : ℕ → Peer → Type 0
IsAt a p = (is_client a p && is_valid p) ≡ true

not_both : (a b : ℕ) (p : Peer) → b ≢ a → IsAt a p → (is_client b p && is_valid p) ≡ false
not_both a b p h e = ground (arith, h, e)

pub find_client-IsAt :
    (a : ℕ) (cs : List (Option Peer)) {p : Peer} → find_client a cs ≡ some p → IsAt a p
unfolding find_client
find_client-IsAt a [] e = absurd (cc e)
find_client-IsAt a (none ∷ cs) e = find_client-IsAt a cs e
find_client-IsAt a (some q ∷ cs) {p = p} e = elim (Bool-cases (is_client a q && is_valid q)) [
  | inl hit ↦
      let is : q ≡ p = ground (arith, hit) in ap (λ q. is_client a q && is_valid q) (sym is) ∙ hit
  | inr miss ↦ find_client-IsAt a cs {p = p} (ground (arith, miss))
]

pub find-put_client :
    (a : ℕ) (p' : Peer) (cs : List (Option Peer)) {p : Peer}
    → IsAt a p'
    → find_client a cs ≡ some p
    → find_client a (put_client a p' cs) ≡ some p'
unfolding find_client put_client
find-put_client a p' [] h e = absurd (cc e)
find-put_client a p' (none ∷ cs) h e = find-put_client a p' cs h e
find-put_client a p' (some q ∷ cs) {p = p} h e = elim (Bool-cases (is_client a q && is_valid q)) [
  | inl hit ↦ rw hit (pick_then (is_client a p' && is_valid p') (some p') (find_client a cs) h)
  | inr miss ↦ rw (miss, miss) (find-put_client a p' cs {p = p} h (ground (arith, miss)))
]

pub find-put_client-other :
    (a b : ℕ) (p' : Peer) (cs : List (Option Peer))
    → b ≢ a
    → IsAt a p'
    → find_client b (put_client a p' cs) ≡ find_client b cs
unfolding find_client put_client
find-put_client-other a b p' [] ne h = refl
find-put_client-other a b p' (none ∷ cs) ne h = find-put_client-other a b p' cs ne h
find-put_client-other a b p' (some q ∷ cs) ne h = elim (Bool-cases (is_client a q && is_valid q)) [
  | inl hit ↦ rw (hit, not_both a b p' ne h, not_both a b q ne hit) refl
  | inr miss ↦ rw miss (
      ap (λ t. if is_client b q && is_valid q then some q else t)
        (find-put_client-other a b p' cs ne h))
]

-- What a datagram makes of the table.
abbrev pub Outcome : Type 0
Outcome = List Report × List (Option Peer) × Players

keep_front :
    (a : ℕ) (c : Option Peer) (cs : List (Option Peer)) (o : Option (List Report × Peer × Players))
    → Option.map {B = Outcome}
        (λ r. (r.0, c ∷ r.1, r.2))
        (Option.map {B = Outcome} (λ r. (r.0, put_client a r.1 cs, r.2)) o)
      ≡ Option.map {B = Outcome} (λ r. (r.0, c ∷ put_client a r.1 cs, r.2)) o
keep_front a c cs none = refl
keep_front a c cs (some r) = refl

module _ (new_buffer : ℕ → PackData) where
  -- The slice goes to the client that is found.
  pub on_udp_slice-found :
      (a : ℕ) (cs : List (Option Peer)) (ps : Players) (pack : Packet) (now new_fd : ℕ) {p : Peer}
      → find_client a cs ≡ some p
      → on_udp_slice new_buffer cs ps a pack now new_fd
        ≡ Option.map {B = Outcome}
            (λ r. (r.0, put_client a r.1 cs, r.2))
            (peer_slice new_buffer p ps pack now new_fd)
  unfolding on_udp_slice find_client put_client
  on_udp_slice-found a [] ps pack now new_fd e = absurd (cc e)
  on_udp_slice-found a (none ∷ cs) ps pack now new_fd {p = p} e =
      rw (on_udp_slice-found a cs ps pack now new_fd e)
        (keep_front a none cs (peer_slice new_buffer p ps pack now new_fd))
  on_udp_slice-found a (some q ∷ cs) ps pack now new_fd {p = p} e =
      elim (Bool-cases (is_client a q && is_valid q)) [
        | inl hit ↦
            let is : q ≡ p = ground (arith, hit) in
            rw hit (
              ap
                (λ x.
                  Option.map {B = Outcome} (λ r. (r.0, some (r.1) ∷ cs, r.2))
                    (peer_slice new_buffer x ps pack now new_fd))
                is)
        | inr miss ↦
            let later : find_client a cs ≡ some p = ground (arith, miss) in
            rw (miss, on_udp_slice-found a cs ps pack now new_fd later)
              (keep_front a (some q) cs (peer_slice new_buffer p ps pack now new_fd))
      ]

  -- With no such client, nothing happens.
  pub on_udp_slice-none :
      (a : ℕ) (cs : List (Option Peer)) (ps : Players) (pack : Packet) (now new_fd : ℕ)
      → find_client a cs ≡ none
      → on_udp_slice new_buffer cs ps a pack now new_fd ≡ some ([], cs, ps)
  unfolding on_udp_slice find_client
  on_udp_slice-none a [] ps pack now new_fd e = refl
  on_udp_slice-none a (none ∷ cs) ps pack now new_fd e =
      rw (on_udp_slice-none a cs ps pack now new_fd e) refl
  on_udp_slice-none a (some q ∷ cs) ps pack now new_fd e =
      elim (Bool-cases (is_client a q && is_valid q)) [
        | inl hit ↦ ground (arith, hit)
        | inr miss ↦
            rw (miss, on_udp_slice-none a cs ps pack now new_fd (ground (arith, miss))) refl
      ]
