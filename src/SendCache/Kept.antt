-- ===== src/SendCache/Kept.antt =====
-- Which packets are kept, and found again by their number: the last thirty.
use mathlib.Core.Path.{subst}
use rv_receive.Base.{
  ℕ, zero, suc, ◌+◌, ◌-◌, ◌%◌, ◌^◌, ◌<◌, ◌≡◌, refl, sym, ap, ◌∙◌, inl, inr, none, List, [], ◌∷◌,
  ◌++◌, append_assoc, append-nil, arith, ltb, leb, if◌then◌else◌, Bool-cases, length, length-append,
  drop, drop-drop, length-drop, get_elem?, get_elem?-drop, last_of, drop_append_one,
}
use rv_receive.Message.{Packet}
use rv_receive.SendCache.{
  SendCache, max_size, drop_oldest, make_package, add_package_data, find_pack,
}

-- The arguments of a call of `AddPackageData`.
pub record Add : Type 0 where
  pub type : ℕ
  pub bytes : List ℕ
  pub slice_size : ℕ
  pub now : ℕ

abbrev pub add : SendCache → Add → SendCache
add s a = (add_package_data s a.type a.bytes a.slice_size a.now).1

abbrev pub pack_of : SendCache → Add → Packet
pack_of s a = make_package s a.type a.bytes a.slice_size a.now

unfoldable pub add_all : SendCache → List Add → SendCache
add_all s [] = s
add_all s (a ∷ calls) = add_all (add s a) calls

-- The packets that the calls make, in order.
pub packs : SendCache → List Add → List Packet
packs s [] = []
packs s (a ∷ calls) = pack_of s a ∷ packs (add s a) calls

drop_oldest_last : (ps : List Packet) → drop_oldest ps ≡ last_of 29 ps
unfolding drop_oldest
drop_oldest_last [] = refl
drop_oldest_last (p ∷ ps) = elim (Bool-cases (leb max_size (length (p ∷ ps)))) [
  | inl long ↦ rw long (
      drop_oldest_last ps
      ∙ ap (λ k. drop k (p ∷ ps)) {x = suc (length ps - 29)} (ground (arith, long)))
  | inr short ↦ rw short (ap (λ k. drop k (p ∷ ps)) {x = 0} (ground (arith, short)))
]

last_of_last : (xs : List Packet) → last_of 29 (last_of 30 xs) ≡ drop (length xs - 29) xs
last_of_last xs =
    let n = length xs - 30 in
    drop-drop n (length (drop n xs) - 29) xs
    ∙ ap (λ k. drop k xs) {x = n + (length (drop n xs) - 29)} {y = length xs - 29}
        (omega (arith, length-drop n xs))

kept_step :
    (s : SendCache) (a : Add) (all : List Packet)
    → s.pack_list ≡ last_of 30 all
    → (add s a).pack_list ≡ last_of 30 (all ++ (pack_of s a ∷ []))
unfolding add_package_data
kept_step s a all e =
    let p = pack_of s a in
    ap (λ l. l ++ (p ∷ [])) (drop_oldest_last s.pack_list ∙ ap (last_of 29) e ∙ last_of_last all)
    ∙ drop_append_one (length all - 29) all p (omega arith)
    ∙ ap (λ k. drop k (all ++ (p ∷ []))) {x = length all - 29}
        (omega (arith, length-append all (p ∷ [])))

kept_all :
    (s : SendCache) (calls : List Add) (all : List Packet)
    → s.pack_list ≡ last_of 30 all
    → (add_all s calls).pack_list ≡ last_of 30 (all ++ packs s calls)
unfolding add_all packs
kept_all s [] all e = e ∙ ap (last_of 30) (sym (append-nil all))
kept_all s (a ∷ calls) all e =
    kept_all (add s a) calls (all ++ (pack_of s a ∷ [])) (kept_step s a all e)
    ∙ ap (last_of 30) (append_assoc all (pack_of s a ∷ []) (packs (add s a) calls))

-- Numbers that count up from `lo`.
abbrev Numbered : ℕ → List Packet → Type 0
Numbered lo [] = Unit {0}
Numbered lo (p ∷ ps) = (p.seq ≡ lo) × Numbered (suc lo) ps

Numbered-drop : (k lo : ℕ) (ps : List Packet) → Numbered lo ps → Numbered (lo + k) (drop k ps)
Numbered-drop zero lo ps n = subst (λ l. Numbered l ps) (omega arith) n
Numbered-drop (suc k) lo [] n = tt
Numbered-drop (suc k) lo (p ∷ ps) n =
    subst (λ l. Numbered l (drop k ps)) (omega arith) (Numbered-drop k (suc lo) ps n.1)

find_counted :
    (lo j : ℕ) (ps : List Packet) → Numbered lo ps → find_pack (lo + j) ps ≡ get_elem? ps j
unfolding find_pack
find_counted lo j [] n = refl
find_counted lo zero (p ∷ ps) n = ground (arith, n.0)
find_counted lo (suc j) (p ∷ ps) n = ground (
  arith,
  n.0,
  find_counted (suc lo) j ps n.1,
  ap (λ x. find_pack x ps) {x = suc lo + j} {y = lo + suc j} (omega arith),
)

find_before : (x lo : ℕ) (ps : List Packet) → x < lo → Numbered lo ps → find_pack x ps ≡ none
unfolding find_pack
find_before x lo [] h n = refl
find_before x lo (p ∷ ps) h n = ground (arith, n.0, h, find_before x (suc lo) ps (omega arith) n.1)

packs-Numbered :
    (s : SendCache) (calls : List Add)
    → s.seq + length calls < 2 ^ 32
    → Numbered s.seq (packs s calls) × (length (packs s calls) ≡ length calls)
unfolding packs add_package_data make_package
packs-Numbered s [] h = (tt, refl)
packs-Numbered s (a ∷ calls) h =
    let next : (s.seq + 1) % 2 ^ 32 ≡ suc s.seq = omega (arith, h) in
    let (n, l) = packs-Numbered (add s a) calls (omega (arith, h, next)) in
    ((refl, subst (λ q. Numbered q (packs (add s a) calls)) next n), ap suc l)

-- After any calls of `AddPackageData` on an empty cache, with fewer than 2 ^ 32 numbers used: the
-- packet of each of the last thirty calls is found by its number, as it was made, and no other.
pub find_pack-add_all :
    (s : SendCache) (calls : List Add) (i : ℕ)
    → s.pack_list ≡ []
    → s.seq + length calls < 2 ^ 32
    → find_pack (s.seq + i) (add_all s calls).pack_list
      ≡ (if ltb (i + 30) (length calls) then none else get_elem? (packs s calls) i)
find_pack-add_all s calls i empty h =
    let (n, l) = packs-Numbered s calls h in
    let ps = packs s calls in
    let k = length ps - 30 in
    let n' = Numbered-drop k s.seq ps n in
    ap (find_pack (s.seq + i)) (kept_all s calls [] empty)
    ∙ elim (Bool-cases (ltb (i + 30) (length calls))) [
      | inl old ↦
          rw old (find_before (s.seq + i) (s.seq + k) (drop k ps) (ground (arith, old, l)) n')
      | inr kept ↦ rw kept (
          ap (λ x. find_pack x (drop k ps)) {x = s.seq + i} {y = s.seq + k + (i - k)}
            (ground (arith, kept, l))
          ∙ find_counted (s.seq + k) (i - k) (drop k ps) n'
          ∙ get_elem?-drop k (i - k) ps
          ∙ ap (get_elem? ps) {x = k + (i - k)} {y = i} (ground (arith, kept, l)))
    ]
