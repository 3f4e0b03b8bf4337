-- ===== src/Server/Table.antt =====
-- The table of clients: what every new connection leaves of it.
use rv_receive.Base.{
  ℕ, suc, ◌+◌, ◌≡◌, ◌≢◌, refl, ap, ◌∙◌, inl, inr, true, false, ◌&&◌, Option, none, some, List, [],
  ◌∷◌, arith, if◌then◌else◌, length, Bool-cases,
}
use rv_receive.Base.Int.{ℤ, pos}
use rv_receive.Server.{Peer, is_valid, is_client, goes, release, free_client}

abbrev pub peer_addr : Peer → ℕ
peer_addr p = p.client.addr.s_addr

-- No client is from the address.
abbrev pub Fresh : ℕ → List (Option Peer) → Type 0
Fresh a [] = Unit {0}
Fresh a (none ∷ cs) = Fresh a cs
Fresh a (some p ∷ cs) = (a ≢ peer_addr p) × Fresh a cs

-- No two clients are from one address.
abbrev pub Distinct : List (Option Peer) → Type 0
Distinct [] = Unit {0}
Distinct (none ∷ cs) = Distinct cs
Distinct (some p ∷ cs) = Fresh (peer_addr p) cs × Distinct cs

abbrev pub AllValid : List (Option Peer) → Type 0
AllValid [] = Unit {0}
AllValid (none ∷ cs) = AllValid cs
AllValid (some p ∷ cs) = (p.client.fd_socket ≢ 0) × AllValid cs

-- A client's number is its place, from `i` on.
abbrev pub Numbered : ℕ → List (Option Peer) → Type 0
Numbered i [] = Unit {0}
Numbered i (none ∷ cs) = Numbered (suc i) cs
Numbered i (some p ∷ cs) = (p.client.client_id ≡ i) × Numbered (suc i) cs

abbrev pub count_clients : List (Option Peer) → ℕ
count_clients [] = 0
count_clients (none ∷ cs) = count_clients cs
count_clients (some p ∷ cs) = suc (count_clients cs)

-- The first valid client from an address.
unfoldable pub find_client : ℕ → List (Option Peer) → Option Peer
find_client a [] = none
find_client a (none ∷ cs) = find_client a cs
find_client a (some p ∷ cs) = if is_client a p && is_valid p then some p else find_client a cs

-- The clients that stay are valid and from another address.
stays : (a : ℕ) (p : Peer) → goes a p ≡ false → (a ≢ peer_addr p) × (p.client.fd_socket ≢ 0)
unfolding goes
stays a p e = (ground (arith, e), ground (arith, e))

gone :
    (a b : ℕ) (p : Peer)
    → goes a p ≡ true
    → p.client.fd_socket ≢ 0
    → b ≢ a
    → (is_client b p && is_valid p) ≡ false
unfolding goes
gone a b p e v h = ground (arith, e, v, h)

counted_off :
    (k : ℕ) (p : Peer) (n : ℕ) → p.client.fd_socket ≢ 0 → release p (pos (k + suc n)) ≡ pos (k + n)
unfolding release
counted_off k p n h = ground (arith, h)

add_suc_move : (k n : ℕ) → k + suc n ≡ suc k + n
add_suc_move k n = omega arith

module _ (a : ℕ) where
  pub length-free_client :
      (cs : List (Option Peer)) (n : ℤ) → length (free_client a cs n).0 ≡ length cs
  unfolding free_client
  length-free_client [] n = refl
  length-free_client (none ∷ cs) n = ap suc (length-free_client cs n)
  length-free_client (some p ∷ cs) n =
      ap suc (length-free_client cs (if goes a p then release p n else n))

  pub free_client-Fresh : (cs : List (Option Peer)) (n : ℤ) → Fresh a (free_client a cs n).0
  unfolding free_client
  free_client-Fresh [] n = tt
  free_client-Fresh (none ∷ cs) n = free_client-Fresh cs n
  free_client-Fresh (some p ∷ cs) n = elim (Bool-cases (goes a p)) [
    | inl e ↦ rw e (free_client-Fresh cs (release p n))
    | inr e ↦ rw e ((stays a p e).0, free_client-Fresh cs n)
  ]

  kept-Fresh :
      (b : ℕ) (cs : List (Option Peer)) (n : ℤ) → Fresh b cs → Fresh b (free_client a cs n).0
  unfolding free_client
  kept-Fresh b [] n h = tt
  kept-Fresh b (none ∷ cs) n h = kept-Fresh b cs n h
  kept-Fresh b (some p ∷ cs) n h = elim (Bool-cases (goes a p)) [
    | inl e ↦ rw e (kept-Fresh b cs (release p n) h.1)
    | inr e ↦ rw e (h.0, kept-Fresh b cs n h.1)
  ]

  pub free_client-Distinct :
      (cs : List (Option Peer)) (n : ℤ) → Distinct cs → Distinct (free_client a cs n).0
  unfolding free_client
  free_client-Distinct [] n h = tt
  free_client-Distinct (none ∷ cs) n h = free_client-Distinct cs n h
  free_client-Distinct (some p ∷ cs) n h = elim (Bool-cases (goes a p)) [
    | inl e ↦ rw e (free_client-Distinct cs (release p n) h.1)
    | inr e ↦ rw e (kept-Fresh (peer_addr p) cs n h.0, free_client-Distinct cs n h.1)
  ]

  pub free_client-AllValid : (cs : List (Option Peer)) (n : ℤ) → AllValid (free_client a cs n).0
  unfolding free_client
  free_client-AllValid [] n = tt
  free_client-AllValid (none ∷ cs) n = free_client-AllValid cs n
  free_client-AllValid (some p ∷ cs) n = elim (Bool-cases (goes a p)) [
    | inl e ↦ rw e (free_client-AllValid cs (release p n))
    | inr e ↦ rw e ((stays a p e).1, free_client-AllValid cs n)
  ]

  pub free_client-Numbered :
      (i : ℕ) (cs : List (Option Peer)) (n : ℤ) → Numbered i cs → Numbered i (free_client a cs n).0
  unfolding free_client
  free_client-Numbered i [] n h = tt
  free_client-Numbered i (none ∷ cs) n h = free_client-Numbered (suc i) cs n h
  free_client-Numbered i (some p ∷ cs) n h = elim (Bool-cases (goes a p)) [
    | inl e ↦ rw e (free_client-Numbered (suc i) cs (release p n) h.1)
    | inr e ↦ rw e (h.0, free_client-Numbered (suc i) cs n h.1)
  ]

  -- Each valid client that goes is counted off.
  pub free_client-counts :
      (k : ℕ) (cs : List (Option Peer))
      → AllValid cs
      → (free_client a cs (pos (k + count_clients cs))).1
        ≡ pos (k + count_clients (free_client a cs (pos (k + count_clients cs))).0)
  unfolding free_client
  free_client-counts k [] v = refl
  free_client-counts k (none ∷ cs) v = free_client-counts k cs v
  free_client-counts k (some p ∷ cs) v = elim (Bool-cases (goes a p)) [
    | inl e ↦ rw (e, counted_off k p (count_clients cs) v.0) (free_client-counts k cs v.1)
    | inr e ↦
        rw (e, add_suc_move k (count_clients cs))
          ((free_client-counts (suc k) cs v.1 ∙ ap pos (omega arith)))
  ]

  pub find-free_client :
      (b : ℕ) (cs : List (Option Peer)) (n : ℤ)
      → AllValid cs
      → b ≢ a
      → find_client b (free_client a cs n).0 ≡ find_client b cs
  unfolding free_client find_client
  find-free_client b [] n v h = refl
  find-free_client b (none ∷ cs) n v h = find-free_client b cs n v h
  find-free_client b (some p ∷ cs) n v h = elim (Bool-cases (goes a p)) [
    | inl e ↦ rw (e, gone a b p e v.0 h) (find-free_client b cs (release p n) v.1 h)
    | inr e ↦ rw e (
        ap (λ t. if is_client b p && is_valid p then some p else t) (find-free_client b cs n v.1 h))
  ]
