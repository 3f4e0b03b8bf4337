-- ===== src/UdpCombine/Steps.antt =====
-- What the loops of a call report, and where they leave the list.
use rv_receive.Base.{
  ℕ, suc, ◌^◌, ◌≤◌, ◌<◌, ◌≡◌, ◌⊎◌, inl, inr, true, false, not, ◌&&◌, List, [], ◌∷◌, arith, ltb,
  ◌==◌, Bool-cases, length,
}
use rv_receive.Combine.{Combine, is_done}
use rv_receive.UdpCombine.{
  CombineCache, Event, request, request_range, report, report_slice, next_seq, flush, give_up,
  respond, ask_range, find_full_package, is_pos, due, count_retry,
}
use rv_receive.UdpCombine.Order.{Asc, Asc-mono}

-- The numbers of the packets that are reported ascend, from `lo` on and below `hi`.
abbrev pub InSequence : ℕ → List Event → ℕ → Type 0
InSequence lo [] hi = lo ≤ hi
InSequence lo (request r ∷ es) hi = InSequence lo es hi
InSequence lo (request_range r ∷ es) hi = InSequence lo es hi
InSequence lo (report d ∷ es) hi = (lo ≤ d.seq) × InSequence (suc d.seq) es hi
InSequence lo (report_slice p ∷ es) hi = InSequence lo es hi

-- Every packet that waits is to be reported yet, and there are fifteen at most.
pub record InOrder (cache : CombineCache) : Type 0 where
  pub ahead : Asc cache.seq_report cache.pack_list
  pub short : length cache.pack_list ≤ 15
  pub low : cache.seq_report ≤ 2 ^ 31

abbrev pub Follows : ℕ → List Event × CombineCache → Type 0
Follows lo r = InSequence lo r.0 r.1.seq_report × InOrder r.1

abbrev pub FrontDone : List Combine → Type 0
FrontDone [] = ⊥
FrontDone (c ∷ cs) = is_done c ≡ true

next_seq_low : (s : ℕ) → s < 2 ^ 31 → next_seq s ≡ suc s
next_seq_low s h = omega (arith, h)

front_keep :
    (lo : ℕ) (c : Combine) (cs : List Combine)
    → is_done c ≡ false
    → Asc lo (c ∷ cs) ⊎ FrontDone (c ∷ cs)
    → Asc lo (c ∷ cs)
front_keep lo c cs e (inl a) = a
front_keep lo c cs e (inr done) = absurd (cc)

-- The reports of `flush` follow on `lo`, if the list does, and the packets that stay are ahead: they
-- were, or the first is reported.
pub flush-Follows :
    (lo : ℕ) (cs : List Combine) (cache : CombineCache)
    → lo ≤ cache.seq_report
    → cache.seq_report ≤ 2 ^ 31
    → length cs ≤ 15
    → Asc lo cs
    → Asc cache.seq_report cs ⊎ FrontDone cs
    → Follows lo (flush cs cache)
unfolding flush
flush-Follows lo [] cache h l n a d = (h, record { ahead = tt; short = n; low = l })
flush-Follows lo (c ∷ cs) cache h l n a d = elim (Bool-cases (is_done c)) [
  | inl done ↦
      let eq = next_seq_low c.pack.seq a.1 in
      let rest =
        flush-Follows (suc c.pack.seq) cs
          (record cache { seq_report = next_seq c.pack.seq; retry_count = 0 }) (omega (arith, eq))
          (omega (arith, eq, a.1)) (omega (arith, n)) a.2
          (inl (Asc-mono (suc c.pack.seq) (next_seq c.pack.seq) cs (omega (arith, eq)) a.2)) in
      rw done ((a.0, rest.0), rest.1)
  | inr open_front ↦
      rw open_front
        (h, record { ahead = front_keep cache.seq_report c cs open_front d; short = n; low = l })
]

-- What `give_up` leaves is ahead of `lo`, and its front is done.
abbrev pub GaveUp : ℕ → CombineCache → Type 0
GaveUp lo cache =
    (lo ≤ cache.seq_report)
    × (cache.seq_report ≤ 2 ^ 31)
    × (length cache.pack_list ≤ 15)
    × Asc lo cache.pack_list
    × (Asc cache.seq_report cache.pack_list ⊎ FrontDone cache.pack_list)

pub give_up-GaveUp :
    (lo : ℕ) (cs : List Combine) (cache : CombineCache)
    → lo ≤ cache.seq_report
    → cache.seq_report ≤ 2 ^ 31
    → length cs ≤ 15
    → Asc lo cs
    → GaveUp lo (give_up cs cache)
unfolding give_up
give_up-GaveUp lo [] cache h l n a = (h, l, n, tt, inl tt)
give_up-GaveUp lo (c ∷ cs) cache h l n a = elim (Bool-cases (is_done c)) [
  | inl done ↦
      let eq = next_seq_low c.pack.seq a.1 in
      rw done (omega (arith, eq, a.0), omega (arith, eq, a.1), n, a, inr done)
  | inr open_front ↦
      let eq = next_seq_low c.pack.seq a.1 in
      let moved = record cache { seq_report = next_seq c.pack.seq } in
      rw open_front (
        give_up-GaveUp lo cs moved (omega (arith, eq, a.0)) (omega (arith, eq, a.1))
          (omega (arith, n)) (Asc-mono (suc c.pack.seq) lo cs (omega (arith, a.0)) a.2))
]

pub ask_range-Follows :
    (c : Combine) (cache : CombineCache) (now : ℕ)
    → InOrder cache
    → Follows cache.seq_report (ask_range c cache now)
unfolding ask_range
ask_range-Follows c cache now ok = elim (Bool-cases (due cache now)) [
  | inl timely ↦
      rw timely (omega arith, record { ahead = ok.ahead; short = ok.short; low = ok.low })
  | inr early ↦ rw early (omega arith, ok)
]

-- The answer to a slice that waits in the list reports in sequence.
pub respond-Follows :
    (l : List Combine) (cache : CombineCache) (now : ℕ)
    → InOrder (record cache { pack_list = l })
    → Follows cache.seq_report (respond l (record cache { pack_list = l }) now)
unfolding respond
respond-Follows [] cache now ok = (omega arith, ok)
respond-Follows (c ∷ cs) cache now ok =
    let here = record cache { pack_list = c ∷ cs } in
    elim (Bool-cases (ltb cache.retry_count count_retry)) [
      | inl few ↦ elim (Bool-cases (not (cache.seq_report == c.pack.seq))) [
        | inl gap ↦ rw (few, gap) (ask_range-Follows c here now ok)
        | inr next ↦ elim (Bool-cases (is_pos (find_full_package (c ∷ cs)) && due cache now)) [
          | inl ask ↦
              rw (few, next, ask)
                (omega arith, record { ahead = ok.ahead; short = ok.short; low = ok.low })
          | inr quiet ↦
              rw (few, next, quiet)
                (flush-Follows cache.seq_report (c ∷ cs) here (omega arith) ok.low ok.short ok.ahead
                  (inl ok.ahead))
        ]
      ]
      | inr many ↦
          let left = give_up (c ∷ cs) here in
          let g =
            give_up-GaveUp cache.seq_report (c ∷ cs) here (omega arith) ok.low ok.short ok.ahead in
          rw many (
            flush-Follows cache.seq_report left.pack_list (record left { retry_count = 0 }) g.0 g.1
              g.2 g.3 g.4)
    ]
