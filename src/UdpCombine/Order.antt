-- ===== src/UdpCombine/Order.antt =====
-- The list of waiting packets is in order of their sequence numbers, each operation on it keeps that.
-- Sequence numbers are taken below 2 ^ 31, where `time_after` is the plain order.
use mathlib.Core.Path.{subst}
use rv_receive.Base.{
  ℕ, suc, ◌*◌, ◌^◌, ◌≤◌, ◌<◌, ◌≡◌, ◌⊎◌, refl, ap, inl, inr, Bool, false, some, List, [], ◌∷◌, arith,
  ltb, ◌==◌, Bool-cases, Option-cases, length,
}
use rv_receive.Message.{Packet, udp_packength}
use rv_receive.Combine.{Combine, PackData, put_package, init_package, start_package, alloc_buffer}
use rv_receive.UdpCombine.{time_after, has_seq, blank_combine, put_in, trim, insert, new_package}

-- Sequence numbers that ascend, from `lo` on.
abbrev pub Asc : ℕ → List Combine → Type 0
Asc lo [] = Unit {0}
Asc lo (c ∷ cs) = (lo ≤ c.pack.seq) × (c.pack.seq < 2 ^ 31) × Asc (suc c.pack.seq) cs

pub Asc-mono : (lo lo' : ℕ) (cs : List Combine) → lo' ≤ lo → Asc lo cs → Asc lo' cs
Asc-mono lo lo' [] h a = tt
Asc-mono lo lo' (c ∷ cs) h a = (omega arith, a.1, a.2)

pub time_after_lt : (a b : ℕ) → a < 2 ^ 31 → b < 2 ^ 31 → time_after a b ≡ ltb b a
time_after_lt a b ha hb = ground arith

pub seq-put_package :
    (c : Combine) (p : Packet) {b : Bool} {c' : Combine}
    → put_package c p ≡ some (b, c')
    → c'.pack.seq ≡ c.pack.seq
unfolding put_package
seq-put_package c p e = ground arith

-- What `put_in` leaves: one packet changed, and not in its number.
put_in_cons :
    (c : Combine) (cs : List Combine) (p : Packet) {cs' : List Combine}
    → put_in (c ∷ cs) p ≡ some cs'
    → ((c' : Combine) × (c'.pack.seq ≡ c.pack.seq) × (cs' ≡ c' ∷ cs))
      ⊎ ((rest : List Combine) × (put_in cs p ≡ some rest) × (cs' ≡ c ∷ rest))
unfolding put_in
put_in_cons c cs p e = elim (Bool-cases (c.pack.seq == p.seq)) [
  | inl hit ↦ elim (Option-cases (put_package c p)) [
    | inl fault ↦ ground (arith, fault)
    | inr ((b, c'), put) ↦ inl (c', seq-put_package c p put, ground arith)
  ]
  | inr miss ↦ elim (Option-cases (put_in cs p)) [
    | inl fault ↦ ground (arith, fault)
    | inr (rest, put) ↦ inr (rest, put, ground arith)
  ]
]

put_in_nil : (p : Packet) → put_in [] p ≡ some []
unfolding put_in
put_in_nil p = refl

pub put_in-Asc :
    (lo : ℕ) (cs : List Combine) (p : Packet) {cs' : List Combine}
    → put_in cs p ≡ some cs'
    → Asc lo cs
    → Asc lo cs' × (length cs' ≡ length cs)
put_in-Asc lo [] p {cs' = cs'} e a =
    let is_nil : [] ≡ cs' = cc (put_in_nil p) in
    subst (λ l. Asc lo l × (length l ≡ 0)) is_nil (tt, refl)
put_in-Asc lo (c ∷ cs) p e a = elim (put_in_cons c cs p e) [
  | inl (c', same, is) ↦ rw (is, same) ((a.0, a.1, a.2), refl)
  | inr (rest, put, is) ↦
      let (a', n) = put_in-Asc (suc c.pack.seq) cs p put a.2 in rw is ((a.0, a.1, a'), ap suc n)
]

pub trim-Asc : (lo : ℕ) (cs : List Combine) → Asc lo cs → Asc lo (trim cs) × (length (trim cs) ≤ 14)
unfolding trim
trim-Asc lo [] a = (tt, omega arith)
trim-Asc lo (c ∷ cs) a =
    ground (arith, trim-Asc (suc c.pack.seq) cs a.2, Asc-mono (suc c.pack.seq) lo (trim cs))

pub has_seq-trim : (s : ℕ) (cs : List Combine) → has_seq s cs ≡ false → has_seq s (trim cs) ≡ false
unfolding trim
has_seq-trim s [] h = refl
has_seq-trim s (c ∷ cs) h = ground (arith, has_seq-trim s cs)

pub insert-Asc :
    (lo : ℕ) (n : Combine) (cs : List Combine)
    → lo ≤ n.pack.seq
    → n.pack.seq < 2 ^ 31
    → has_seq n.pack.seq cs ≡ false
    → Asc lo cs
    → Asc lo (insert n cs) × (length (insert n cs) ≡ suc (length cs))
unfolding insert
insert-Asc lo n [] h l f a = ((h, l, tt), refl)
insert-Asc lo n (c ∷ cs) h l f a =
    rw (time_after_lt c.pack.seq n.pack.seq a.1 l)
      (ground (arith, insert-Asc (suc c.pack.seq) n cs))

pub seq-new_package :
    (new_buffer : ℕ → PackData) (p : Packet) {c : Combine}
    → new_package new_buffer p ≡ some c
    → c.pack.seq ≡ p.seq
unfolding new_package init_package start_package
seq-new_package new_buffer p e = elim (Option-cases (put_package started p)) [
  | inl fault ↦ ground (arith, fault)
  | inr ((b, c'), put) ↦ ground (arith, put, seq-put_package started p put)
]
  where
    started : Combine
    started =
        start_package new_buffer
          (alloc_buffer new_buffer (blank_combine new_buffer) (p.slices * udp_packength)) p
          udp_packength
