-- ===== src/Combine/Sum.antt =====
-- Sums over the slice numbers below a bound.
use rv_receive.Base.{
  ℕ, zero, suc, ◌+◌, ◌-◌, ◌*◌, ◌≤◌, ◌<◌, ◌≡◌, ◌≢◌, refl, ap, ◌∙◌, inl, inr, List, arith, min, ◌==◌,
  ==_iff, Bool-cases, length, take, drop, length-drop, length-take-min,
}

pub sum_to : ℕ → (ℕ → ℕ) → ℕ
sum_to zero f = 0
sum_to (suc n) f = sum_to n f + f n

pub sum_to-le : (n k : ℕ) (f : ℕ → ℕ) → ((i : ℕ) → f i ≤ k) → sum_to n f ≤ n * k
unfolding sum_to
sum_to-le zero k f h = omega arith
sum_to-le (suc n) k f h = omega (arith, sum_to-le n k f h, h n)

pub sum_to-eq : (n : ℕ) (f g : ℕ → ℕ) → ((i : ℕ) → i < n → f i ≡ g i) → sum_to n f ≡ sum_to n g
unfolding sum_to
sum_to-eq zero f g h = refl
sum_to-eq (suc n) f g h =
    omega (arith, sum_to-eq n f g (λ i l. h i (omega arith)), h n (omega arith))

-- One summand grows by `d`, the others stay.
pub sum_to_update :
    (n s d : ℕ) (f g : ℕ → ℕ)
    → s < n
    → g s ≡ f s + d
    → ((i : ℕ) → s ≢ i → g i ≡ f i)
    → sum_to n g ≡ sum_to n f + d
unfolding sum_to
sum_to_update zero s d f g h e o = elim h [ ]
sum_to_update (suc n) s d f g h e o = elim (Bool-cases (s == n)) [
  | inl same ↦
      let s_is_n : s ≡ n = (==_iff s n).0 same in
      omega (arith, sum_to-eq n g f (λ i l. o i (omega arith)), (rw s_is_n at e))
  | inr other ↦
      let s_ne_n : s ≢ n = ground arith in
      omega (arith, sum_to_update n s d f g (omega arith) e o, o n s_ne_n)
]

-- Summands of at most one that reach the bound are all one.
pub sum_to_full :
    (n : ℕ) (f : ℕ → ℕ) → ((i : ℕ) → f i ≤ 1) → n ≤ sum_to n f → (i : ℕ) → i < n → f i ≡ 1
unfolding sum_to
sum_to_full zero f h full i l = elim l [ ]
sum_to_full (suc n) f h full i l = elim (Bool-cases (i == n)) [
  | inl same ↦
      let i_is_n : i ≡ n = (==_iff i n).0 same in rw i_is_n (omega (arith, sum_to-le n 1 f h, h n))
  | inr other ↦
      let i_ne_n : i ≢ n = ground arith in sum_to_full n f h (omega (arith, h n)) i (omega arith)
]

-- The `i`th slice of a message that is cut every `one` bytes.
abbrev pub chunk : List ℕ → ℕ → ℕ → List ℕ
chunk msg one i = take one (drop (i * one) msg)

pub length-chunk :
    (msg : List ℕ) (one i : ℕ) → length (chunk msg one i) ≡ min one (length msg - i * one)
length-chunk msg one i =
    length-take-min one (drop (i * one) msg) ∙ ap (min one) (length-drop (i * one) msg)

-- The slices together are as long as the message, as far as they reach.
pub sum_to-chunk :
    (msg : List ℕ) (one n : ℕ)
    → sum_to n (λ i. length (chunk msg one i)) ≡ min (n * one) (length msg)
unfolding sum_to
sum_to-chunk msg one zero = omega arith
sum_to-chunk msg one (suc n) = omega (arith, sum_to-chunk msg one n, length-chunk msg one n)

pub sum_to_ones : (n : ℕ) (f : ℕ → ℕ) → ((i : ℕ) → i < n → f i ≡ 1) → sum_to n f ≡ n
unfolding sum_to
sum_to_ones zero f h = refl
sum_to_ones (suc n) f h =
    omega (arith, sum_to_ones n f (λ i l. h i (omega arith)), h n (omega arith))

pub sum_to_zero : (n : ℕ) (f : ℕ → ℕ) → ((i : ℕ) → f i ≡ 0) → sum_to n f ≡ 0
unfolding sum_to
sum_to_zero zero f h = refl
sum_to_zero (suc n) f h = omega (arith, sum_to_zero n f h, h n)
