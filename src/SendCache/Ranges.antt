-- ===== src/SendCache/Ranges.antt =====
-- socket/SendPackageCache.cpp, SendRange: which packets a request of a range sends again.
use Prim.Native.Nat.{bit_and}
use rv_receive.Base.{
  ℕ, ◌+◌, ◌^◌, ◌≤◌, ◌<◌, ◌≡◌, refl, ap, ◌∙◌, inl, inr, Bool, true, false, not, ◌&&◌, ◌||◌, Option,
  none, some, List, [], ◌∷◌, ◌++◌, arith, ltb, leb, ◌==◌, Bool-cases,
}
use rv_receive.Base.Int.{ℤ}
use rv_receive.Message.{Packet, udprange_start, udprange_end}
use rv_receive.SendCache.{
  SendCache, SendData, find_pack, range_data, SockAddr, send_range, send_data, range_start,
  range_end, first_seq, last_seq,
}

abbrev pub queued : ℕ → List SendData → Bool
queued x [] = false
queued x (d ∷ ds) = (d.seq == x) || queued x ds

abbrev pub is_some : Option Packet → Bool
is_some none = false
is_some (some p) = true

-- `SendRange` puts exactly the packets into the list whose number is in the range and that are kept.
queued-range_data :
    (mk : ℕ → SendData) (a b x : ℕ) (ps : List Packet)
    → ((y : ℕ) → (mk y).seq ≡ y)
    → queued x (range_data mk a b ps) ≡ (leb a x && ltb x b && is_some (find_pack x ps))
unfolding range_data find_pack
queued-range_data mk a b x [] own = ground arith
queued-range_data mk a b x (p ∷ ps) own =
    ground (arith, own p.seq, queued-range_data mk a b x ps own)

queued-append : (x : ℕ) (ds es : List SendData) → queued x (ds ++ es) ≡ (queued x ds || queued x es)
queued-append x [] es = refl
queued-append x (d ∷ ds) es = ground (arith, queued-append x ds es)

-- Between the ends of the range, as the flags put them.
queued_between :
    (s : SendCache) (fd : ℤ) (addr : Option SockAddr) (slice_size a b flag x : ℕ)
    → queued x (send_range s fd addr slice_size a b flag).send_list ≡ (
        queued x s.send_list
        || (leb (range_start s.pack_list a flag) x
            && ltb x (range_end s.pack_list b flag)
            && is_some (find_pack x s.pack_list)))
unfolding send_range
queued_between s fd addr slice_size a b flag x =
    let start = range_start s.pack_list a flag in
    let end = range_end s.pack_list b flag in
    let mk = λ (seq : ℕ). send_data fd addr slice_size seq none in
    queued-append x s.send_list (range_data mk start end s.pack_list)
    ∙ ap (◌||◌ (queued x s.send_list)) (queued-range_data mk start end x s.pack_list (λ y. refl))

-- Packets from a number on, in the order of their numbers, none of which is the last of all numbers.
abbrev pub Ascending : ℕ → List Packet → Type 0
Ascending m [] = Unit {0}
Ascending m (p ∷ ps) = ((m ≤ p.seq) × (p.seq + 1 < 2 ^ 32)) × Ascending p.seq ps

kept_from : (m x : ℕ) (ps : List Packet) → Ascending m ps → is_some (find_pack x ps) ≡ true → m ≤ x
unfolding find_pack
kept_from m x [] v k = ground (arith, k)
kept_from m x (p ∷ ps) v k = elim (Bool-cases (p.seq == x)) [
  | inl here ↦ ground (arith, v.0.0, here)
  | inr other ↦ omega (arith, v.0.0, kept_from p.seq x ps v.1 (ground (arith, k, other)))
]

kept_first :
    (m a x : ℕ) (ps : List Packet)
    → Ascending m ps
    → is_some (find_pack x ps) ≡ true
    → first_seq ps a ≤ x
unfolding find_pack
kept_first m a x [] v k = ground (arith, k)
kept_first m a x (p ∷ ps) v k = kept_from p.seq x (p ∷ ps) ((omega arith, v.0.1), v.1) k

last_high : (m : ℕ) (ps : List Packet) → Ascending m ps → m ≤ last_seq ps m
last_high m [] v = omega arith
last_high m (p ∷ ps) v = omega (arith, v.0.0, last_high p.seq ps v.1)

last_low :
    (m d : ℕ) (ps : List Packet) → Ascending m ps → d + 1 < 2 ^ 32 → last_seq ps d + 1 < 2 ^ 32
last_low m d [] v h = h
last_low m d (p ∷ ps) v h = last_low p.seq p.seq ps v.1 v.0.1

kept_last :
    (m d x : ℕ) (ps : List Packet)
    → Ascending m ps
    → is_some (find_pack x ps) ≡ true
    → (x ≤ last_seq ps d) × (last_seq ps d + 1 < 2 ^ 32)
unfolding find_pack
kept_last m d x [] v k = ground (arith, k)
kept_last m d x (p ∷ ps) v k = (
  elim (Bool-cases (p.seq == x)) [
    | inl here ↦ ground (arith, here, last_high p.seq ps v.1)
    | inr other ↦ (kept_last p.seq p.seq x ps v.1 (ground (arith, k, other))).0
  ],
  last_low p.seq p.seq ps v.1 v.0.1,
)

-- Whether a flag is set.
abbrev pub is_set : ℕ → ℕ → Bool
is_set flag bit = not (bit_and flag bit == 0)

module _ (m a b flag x : ℕ) (ps : List Packet) (v : Ascending m ps)
    (k : is_some (find_pack x ps) ≡ true) where
  from_start : leb (range_start ps a flag) x ≡ (is_set flag udprange_start || leb a x)
  from_start = elim (Bool-cases (bit_and flag udprange_start == 0)) [
    | inl clear ↦ rw clear refl
    | inr set ↦ rw set (ground (arith, kept_first m a x ps v k))
  ]

  to_end : ltb x (range_end ps b flag) ≡ (is_set flag udprange_end || ltb x b)
  to_end = elim (Bool-cases (bit_and flag udprange_end == 0)) [
    | inl clear ↦ rw clear refl
    | inr set ↦ rw set (ground (arith, kept_last m b x ps v k))
  ]

-- After `SendRange`, of a cache whose packets are in the order of their numbers and before these wrap
-- round, a number is in the list exactly if it was before, or if its packet is kept and the number is
-- neither below the start of the range, unless the flag START is set, nor at or behind its end, unless
-- the flag END is set.
pub queued-send_range :
    (s : SendCache) (fd : ℤ) (addr : Option SockAddr) (slice_size a b flag m x : ℕ)
    → Ascending m s.pack_list
    → queued x (send_range s fd addr slice_size a b flag).send_list ≡ (
        queued x s.send_list
        || ((is_set flag udprange_start || leb a x)
            && (is_set flag udprange_end || ltb x b)
            && is_some (find_pack x s.pack_list)))
queued-send_range s fd addr slice_size a b flag m x v =
    let ps = s.pack_list in
    queued_between s fd addr slice_size a b flag x
    ∙ ap (◌||◌ (queued x s.send_list)) (elim (Bool-cases (is_some (find_pack x ps))) [
      | inl kept ↦ rw (from_start m a b flag x ps v kept, to_end m a b flag x ps v kept) refl
      | inr gone ↦ rw gone (
          last_false (leb (range_start ps a flag) x) (ltb x (range_end ps b flag))
            (is_set flag udprange_start || leb a x) (is_set flag udprange_end || ltb x b))
    ])
  where
    last_false : (p q r t : Bool) → (p && q && false) ≡ (r && t && false)
    last_false p q r t = ground arith
