-- ===== src/Combine/Copy.antt =====
-- What `memcpy` into a buffer leaves at each place.
use mathlib.Core.Path.{ap₂}
use rv_receive.Base.{
  ℕ, zero, suc, ◌+◌, ◌≤◌, ◌<◌, ◌≡◌, refl, ap, ◌∙◌, List, [], ◌∷◌, arith, length, get_or, set, take,
  drop, length-set, get_or-set_self, get_or-set_ne,
}
use rv_receive.Combine.{copy_to}

pub length-copy_to : (buf : List ℕ) (i : ℕ) (bs : List ℕ) → length (copy_to buf i bs) ≡ length buf
unfolding copy_to
length-copy_to buf i [] = refl
length-copy_to buf i (b ∷ bs) = length-copy_to (set buf i b) (i + 1) bs ∙ length-set buf i b

pub get_or-copy_to_before :
    (buf : List ℕ) (i : ℕ) (bs : List ℕ) (j : ℕ)
    → j < i
    → get_or (copy_to buf i bs) j 0 ≡ get_or buf j 0
unfolding copy_to
get_or-copy_to_before buf i [] j h = refl
get_or-copy_to_before buf i (b ∷ bs) j h =
    get_or-copy_to_before (set buf i b) (i + 1) bs j (omega arith)
    ∙ get_or-set_ne buf i j b 0 (omega arith)

pub get_or-copy_to_after :
    (buf : List ℕ) (i : ℕ) (bs : List ℕ) (j : ℕ)
    → i + length bs ≤ j
    → get_or (copy_to buf i bs) j 0 ≡ get_or buf j 0
unfolding copy_to
get_or-copy_to_after buf i [] j h = refl
get_or-copy_to_after buf i (b ∷ bs) j h =
    get_or-copy_to_after (set buf i b) (i + 1) bs j (omega arith)
    ∙ get_or-set_ne buf i j b 0 (omega arith)

pub get_or-copy_to_in :
    (buf : List ℕ) (i : ℕ) (bs : List ℕ) (k : ℕ)
    → k < length bs
    → i + length bs ≤ length buf
    → get_or (copy_to buf i bs) (i + k) 0 ≡ get_or bs k 0
unfolding copy_to
get_or-copy_to_in buf i [] k h l = elim h [ ]
get_or-copy_to_in buf i (b ∷ bs) zero h l =
    ap (λ t. get_or (copy_to (set buf i b) (i + 1) bs) t 0) (omega arith)
    ∙ get_or-copy_to_before (set buf i b) (i + 1) bs i (omega arith)
    ∙ get_or-set_self buf i b 0 (omega arith)
get_or-copy_to_in buf i (b ∷ bs) (suc k) h l =
    ap (λ t. get_or (copy_to (set buf i b) (i + 1) bs) t 0) (omega arith)
    ∙ get_or-copy_to_in (set buf i b) (i + 1) bs k (omega arith) (omega (arith, length-set buf i b))

pub get_or-take : (n : ℕ) (xs : List ℕ) (k : ℕ) → k < n → get_or (take n xs) k 0 ≡ get_or xs k 0
get_or-take zero xs k h = elim h [ ]
get_or-take (suc n) [] k h = refl
get_or-take (suc n) (x ∷ xs) zero h = refl
get_or-take (suc n) (x ∷ xs) (suc k) h = get_or-take n xs k (omega arith)

pub get_or-drop : (n : ℕ) (xs : List ℕ) (k : ℕ) → get_or (drop n xs) k 0 ≡ get_or xs (n + k) 0
get_or-drop zero xs k = ap (λ t. get_or xs t 0) (omega arith)
get_or-drop (suc n) [] k = refl
get_or-drop (suc n) (x ∷ xs) k =
    get_or-drop n xs k ∙ ap (λ t. get_or (x ∷ xs) t 0) {x = suc (n + k)} (omega arith)

-- Two lists that agree at each place of the second agree there.
pub take-eq :
    (xs ys : List ℕ)
    → length ys ≤ length xs
    → ((j : ℕ) → j < length ys → get_or xs j 0 ≡ get_or ys j 0)
    → take (length ys) xs ≡ ys
take-eq xs [] h e = refl
take-eq [] (y ∷ ys) h e = elim h [ ]
take-eq (x ∷ xs) (y ∷ ys) h e =
    ap₂ ◌∷◌ (e 0 (omega arith)) (take-eq xs ys (omega arith) (λ j l. e (suc j) (omega arith)))
