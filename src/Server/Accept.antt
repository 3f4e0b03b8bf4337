-- ===== src/Server/Accept.antt =====
-- A new connection finds its place in the table.
use rv_receive.Base.{
  ℕ, suc, ◌+◌, ◌≡◌, ◌≢◌, refl, sym, false, true, ap, ◌∙◌, ◌⊎◌, inl, inr, ◌&&◌, Option, none, some,
  List, [], ◌∷◌, arith, if◌then◌else◌, length,
}
use rv_receive.Base.Int.{ℤ, pos}
use rv_receive.Combine.{PackData}
use rv_receive.Client.Playing.{succ_ℤ}
use rv_receive.SendCache.{SockAddr}
use rv_receive.Server.{
  Peer, Tcp, max_clients, is_valid, is_client, new_peer, free_client, place, settle, accept,
}
use rv_receive.Server.Table.{
  peer_addr, Fresh, Distinct, AllValid, Numbered, count_clients, find_client, length-free_client,
  free_client-Fresh, free_client-Distinct, free_client-AllValid, free_client-Numbered,
  free_client-counts, find-free_client,
}

module _ (a : ℕ) (make : ℕ → Peer) where
  -- What a new client from the address `a` changes in the table, from place `i` on.
  record Placed (i : ℕ) (cs cs' : List (Option Peer)) : Type 0 where
    same_length : length cs' ≡ length cs
    counted : count_clients cs' ≡ suc (count_clients cs)
    numbered : Numbered i cs → Numbered i cs'
    valid : AllValid cs → AllValid cs'
    fresh : (b : ℕ) → b ≢ a → Fresh b cs → Fresh b cs'
    distinct : Fresh a cs → Distinct cs → Distinct cs'
    others : (b : ℕ) → b ≢ a → find_client b cs' ≡ find_client b cs
    found : Fresh a cs → (j : ℕ) × (find_client a cs' ≡ some (make j))

  -- The clients that are made are valid, from that address, and know their place.
  record Makes : Type 0 where
    its_addr : (j : ℕ) → peer_addr (make j) ≡ a
    its_id : (j : ℕ) → (make j).client.client_id ≡ j
    its_fd : (j : ℕ) → (make j).client.fd_socket ≢ 0

  not_found : (p : Peer) (b : ℕ) → b ≢ peer_addr p → (is_client b p && is_valid p) ≡ false
  not_found p b h = ground (arith, h)

  was_found :
      (p : Peer) (b : ℕ)
      → b ≡ peer_addr p
      → p.client.fd_socket ≢ 0
      → (is_client b p && is_valid p) ≡ true
  was_found p b h v = ground (arith, h, v)

  place_here : (i : ℕ) (cs : List (Option Peer)) → Makes → Placed i (none ∷ cs) (some (make i) ∷ cs)
  unfolding find_client
  place_here i cs m = record {
    same_length = refl;
    counted = refl;
    numbered = λ h. (m.its_id i, h);
    valid = λ h. (m.its_fd i, h);
    fresh = λ b ne h. (λ e. ne (e ∙ m.its_addr i), h);
    distinct = λ f h. (rw (m.its_addr i) f, h);
    others = λ b ne. rw (not_found (make i) b (λ e. ne (e ∙ m.its_addr i))) refl;
    found = λ f. (i, rw (was_found (make i) a (sym (m.its_addr i)) (m.its_fd i)) refl);
  }

  place_behind :
      (i : ℕ) (p : Peer) (cs cs' : List (Option Peer))
      → Placed (suc i) cs cs'
      → Placed i (some p ∷ cs) (some p ∷ cs')
  unfolding find_client
  place_behind i p cs cs' v = record {
    same_length = ap suc v.same_length;
    counted = ap suc v.counted;
    numbered = λ h. (h.0, v.numbered h.1);
    valid = λ h. (h.0, v.valid h.1);
    fresh = λ b ne h. (h.0, v.fresh b ne h.1);
    distinct = λ f h. (v.fresh (peer_addr p) (λ e. f.0 (sym e)) h.0, v.distinct f.1 h.1);
    others = λ b ne. ap (λ t. if is_client b p && is_valid p then some p else t) (v.others b ne);
    found = λ f. let (j, e) = v.found f.1 in (j, rw (not_found p a f.0) e);
  }

  place_cases :
      (i : ℕ) (cs : List (Option Peer))
      → Makes
      → ((place i make cs ≡ none) × (count_clients cs ≡ length cs))
        ⊎ ((cs' : List (Option Peer)) × (place i make cs ≡ some cs') × Placed i cs cs')
  unfolding place
  place_cases i [] m = inl (refl, refl)
  place_cases i (none ∷ cs) m = inr (some (make i) ∷ cs, refl, place_here i cs m)
  place_cases i (some p ∷ cs) m = elim (place_cases (suc i) cs m) [
    | inl (e, full) ↦ inl (rw e refl, ap suc full)
    | inr (cs', e, v) ↦ inr (some p ∷ cs', rw e refl, place_behind i p cs cs' v)
  ]

-- Twelve places; a client knows its place, is valid and is the only one from its address; and the
-- number of clients is right.
pub record IsTable (t : Tcp) : Type 0 where
  pub twelve : length t.clients ≡ max_clients
  pub numbered : Numbered 0 t.clients
  pub distinct : Distinct t.clients
  pub valid : AllValid t.clients
  pub counted : t.client_num ≡ pos (count_clients t.clients)

-- What a connection from `addr` makes of the table.
pub record Accepted (new_buffer : ℕ → PackData) (m_num : ℤ) (t : Tcp) (fd : ℕ) (addr : SockAddr)
    (t' : Tcp) : Type 0 where
  pub table : IsTable t'
  pub others : (b : ℕ) → b ≢ addr.s_addr → find_client b t'.clients ≡ find_client b t.clients
  pub found :
      ((id : ℕ) × (find_client addr.s_addr t'.clients
          ≡ some (new_peer new_buffer m_num fd addr id)))
      ⊎ (Fresh addr.s_addr t'.clients × (count_clients t'.clients ≡ max_clients))
  pub same_players : t'.players ≡ t.players

new_peer-Makes :
    (new_buffer : ℕ → PackData) (m_num : ℤ) (fd : ℕ) (addr : SockAddr)
    → fd ≢ 0
    → Makes addr.s_addr (new_peer new_buffer m_num fd addr)
unfolding new_peer
new_peer-Makes new_buffer m_num fd addr h = record {
  its_addr = λ j. refl;
  its_id = λ j. refl;
  its_fd = λ j. h;
}

-- The table once the old clients are gone.
freed : Tcp → ℕ → Tcp
freed t a =
    let r = free_client a t.clients t.client_num in record t { clients = r.0; client_num = r.1 }

counted_from :
    (a k : ℕ) (cs : List (Option Peer)) (m : ℕ)
    → AllValid cs
    → m ≡ k + count_clients cs
    → (free_client a cs (pos m)).1 ≡ pos (k + count_clients (free_client a cs (pos m)).0)
counted_from a k cs m v e = rw e (free_client-counts a k cs v)

freed-counted :
    (cs : List (Option Peer)) (n : ℤ) (a : ℕ)
    → AllValid cs
    → n ≡ pos (count_clients cs)
    → (free_client a cs n).1 ≡ pos (count_clients (free_client a cs n).0)
freed-counted cs n a v e =
    rw e (counted_from a 0 cs (count_clients cs) v (omega arith) ∙ ap pos (omega arith))

freed-IsTable : (t : Tcp) (a : ℕ) → IsTable t → IsTable (freed t a)
unfolding freed
freed-IsTable t a h = record {
  twelve = length-free_client a t.clients t.client_num ∙ h.twelve;
  numbered = free_client-Numbered a 0 t.clients t.client_num h.numbered;
  distinct = free_client-Distinct a t.clients t.client_num h.distinct;
  valid = free_client-AllValid a t.clients t.client_num;
  counted = freed-counted t.clients t.client_num a h.valid h.counted;
}

joined-IsTable :
    (a : ℕ) (make : ℕ → Peer) (t : Tcp) (cs : List (Option Peer))
    → Fresh a t.clients
    → IsTable t
    → Placed a make 0 t.clients cs
    → IsTable (record t { clients = cs; client_num = succ_ℤ t.client_num })
joined-IsTable a make t cs f h v = record {
  twelve = v.same_length ∙ h.twelve;
  numbered = v.numbered h.numbered;
  distinct = v.distinct f h.distinct;
  valid = v.valid h.valid;
  counted = ap succ_ℤ h.counted ∙ ap pos (omega (arith, v.counted));
}

module _ (new_buffer : ℕ → PackData) (m_num : ℤ) (t : Tcp) (fd : ℕ) (addr : SockAddr)
    (w : IsTable t) where
  -- The table has no place left.
  settle-none :
      count_clients (freed t addr.s_addr).clients ≡ length (freed t addr.s_addr).clients
      → Accepted new_buffer m_num t fd addr
          (settle t (free_client addr.s_addr t.clients t.client_num) none)
  unfolding settle freed
  settle-none full = record {
    table = freed-IsTable t addr.s_addr w;
    others = λ b ne. find-free_client addr.s_addr b t.clients t.client_num w.valid ne;
    found = inr (
      free_client-Fresh addr.s_addr t.clients t.client_num,
      full ∙ (freed-IsTable t addr.s_addr w).twelve,
    );
    same_players = refl;
  }

  -- The client has its place.
  settle-some :
      (cs : List (Option Peer))
      → Placed addr.s_addr (new_peer new_buffer m_num fd addr) 0 (freed t addr.s_addr).clients cs
      → Accepted new_buffer m_num t fd addr
          (settle t (free_client addr.s_addr t.clients t.client_num) (some cs))
  unfolding settle freed
  settle-some cs v =
      let a = addr.s_addr in
      let f = free_client-Fresh a t.clients t.client_num in
      let make = new_peer new_buffer m_num fd addr in
      record {
        table = joined-IsTable a make (freed t a) cs f (freed-IsTable t a w) v;
        others = λ b ne. v.others b ne ∙ find-free_client a b t.clients t.client_num w.valid ne;
        found = inl (v.found f);
        same_players = refl;
      }

-- A connection that is accepted keeps the table in order: a new client from the address is in it, or
-- twelve clients from other addresses are; what a search for another address finds is unchanged, and
-- the list of those who play is too.
pub accept-Accepted :
    (new_buffer : ℕ → PackData) (m_num : ℤ) (t : Tcp) (fd : ℕ) (addr : SockAddr)
    → fd ≢ 0
    → IsTable t
    → Accepted new_buffer m_num t fd addr (accept new_buffer m_num t fd addr)
unfolding accept freed
accept-Accepted new_buffer m_num t fd addr h w =
    let cs = (freed t addr.s_addr).clients in
    elim (place_cases addr.s_addr _ 0 cs (new_peer-Makes new_buffer m_num fd addr h)) [
      | inl (e, full) ↦ rw e (settle-none new_buffer m_num t fd addr w full)
      | inr (cs', e, v) ↦ rw e (settle-some new_buffer m_num t fd addr w cs' v)
    ]
