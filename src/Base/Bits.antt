-- ===== src/Base/Bits.antt =====
-- Single bits of a word: what `w & (1 << b)`, `w |= 1 << b` and `~w` do to them.
use Prim.Native.Nat.{
  ℕ, zero, suc, ◌+◌, ◌-◌, ◌*◌, ◌/◌, ◌%◌, ◌^◌, ◌≤◌, ◌<◌, min, max, bit_and, bit_or, digits,
  bit_and-bitwise, bit_or-bitwise,
}
use native.Mathlib.Nat.{pow-suc}
use mathlib.Core.Path.{◌≡◌, refl, ap, ◌∙◌}
use native.Mathlib.Omega.{arith}
use rv_receive.Base.Tests.{◌==◌, if◌then◌else◌}

module _ (ends : ℕ → ℕ) (joins : ℕ → ℕ → ℕ) where
  -- More digits than the number has change nothing, if `ends` agrees with `joins` there.
  digits_fuel : (n m a b : ℕ) → a ≤ n → a ≤ m → digits ends joins n a b ≡ digits ends joins m a b
  digits_fuel zero zero a b p q = refl
  digits_fuel zero (suc m) zero b p q = refl
  digits_fuel zero (suc m) (suc a) b p q = elim p [ ]
  digits_fuel (suc n) zero zero b p q = refl
  digits_fuel (suc n) zero (suc a) b p q = elim q [ ]
  digits_fuel (suc n) (suc m) zero b p q = refl
  digits_fuel (suc n) (suc m) (suc a) b p q =
      ap (λ t. t * 2 + joins (suc a % 2) (b % 2))
        (digits_fuel n m (suc a / 2) (b / 2) (omega arith) (omega arith))

bit_and_step : (a b : ℕ) → bit_and a b ≡ bit_and (a / 2) (b / 2) * 2 + min (a % 2) (b % 2)
bit_and_step zero b = omega (arith, bit_and-bitwise 0 b, bit_and-bitwise 0 (b / 2))
bit_and_step (suc a) b = omega (
  arith,
  bit_and-bitwise (suc a) b,
  bit_and-bitwise (suc a / 2) (b / 2),
  digits_fuel (λ b. 0) min a (suc a / 2) (suc a / 2) (b / 2) (omega arith) (omega arith),
)

bit_or_step : (a b : ℕ) → bit_or a b ≡ bit_or (a / 2) (b / 2) * 2 + max (a % 2) (b % 2)
bit_or_step zero b = omega (arith, bit_or-bitwise 0 b, bit_or-bitwise 0 (b / 2))
bit_or_step (suc a) b = omega (
  arith,
  bit_or-bitwise (suc a) b,
  bit_or-bitwise (suc a / 2) (b / 2),
  digits_fuel (λ b. b) max a (suc a / 2) (suc a / 2) (b / 2) (omega arith) (omega arith),
)

-- Bit `b` of `w`, counted from the lowest.
abbrev pub bit : ℕ → ℕ → ℕ
bit w zero = w % 2
bit w (suc b) = bit (w / 2) b

pub bit-le-one : (w b : ℕ) → bit w b ≤ 1
bit-le-one w zero = omega arith
bit-le-one w (suc b) = bit-le-one (w / 2) b

bit_and-zero : (n a : ℕ) → a ≤ n → bit_and a 0 ≡ 0
bit_and-zero zero zero h = bit_and-bitwise 0 0
bit_and-zero zero (suc a) h = elim h [ ]
bit_and-zero (suc n) a h = omega (arith, bit_and_step a 0, bit_and-zero n (a / 2))

bit_or-zero : (n a : ℕ) → a ≤ n → bit_or a 0 ≡ a
bit_or-zero zero zero h = bit_or-bitwise 0 0
bit_or-zero zero (suc a) h = elim h [ ]
bit_or-zero (suc n) a h = omega (arith, bit_or_step a 0, bit_or-zero n (a / 2))

half_pow : (b : ℕ) → 2 ^ suc b / 2 ≡ 2 ^ b
half_pow b = omega (arith, pow-suc 2 b)

even_pow : (b : ℕ) → 2 ^ suc b % 2 ≡ 0
even_pow b = omega (arith, pow-suc 2 b)

or_half : (w b : ℕ) → bit_or w (2 ^ suc b) / 2 ≡ bit_or (w / 2) (2 ^ b)
or_half w b = omega (arith, bit_or_step w (2 ^ suc b), ap (bit_or (w / 2)) (half_pow b), even_pow b)

or_one_half : (w : ℕ) → bit_or w 1 / 2 ≡ w / 2
or_one_half w = omega (arith, bit_or_step w 1, bit_or-zero (w / 2) (w / 2))

-- Testing a word against one bit gives that bit in its place.
pub bit_and-bit : (w b : ℕ) → bit_and w (2 ^ b) ≡ bit w b * 2 ^ b
bit_and-bit w zero = omega (arith, bit_and_step w 1, bit_and-zero (w / 2) (w / 2))
bit_and-bit w (suc b) = omega (
  arith,
  bit_and_step w (2 ^ suc b),
  ap (bit_and (w / 2)) (half_pow b),
  even_pow b,
  bit_and-bit (w / 2) b,
  ap (λ t. bit (w / 2) b * t) (pow-suc 2 b),
)

pub bit-bit_or : (w b c : ℕ) → bit (bit_or w (2 ^ b)) c ≡ (if b == c then 1 else bit w c)
bit-bit_or w zero zero = omega (arith, bit_or_step w 1)
bit-bit_or w zero (suc c) = ap (λ t. bit t c) (or_one_half w) ∙ ground arith
bit-bit_or w (suc b) zero = ground (arith, bit_or_step w (2 ^ suc b), even_pow b)
bit-bit_or w (suc b) (suc c) =
    ap (λ t. bit t c) (or_half w b) ∙ bit-bit_or (w / 2) b c ∙ ground arith

pub bit_or-lt : (w b k : ℕ) → b < k → w < 2 ^ k → bit_or w (2 ^ b) < 2 ^ k
bit_or-lt w b zero h l = elim h [ ]
bit_or-lt w zero (suc k) h l = omega (arith, bit_or_step w 1, or_one_half w, pow-suc 2 k)
bit_or-lt w (suc b) (suc k) h l = omega (arith, or_half w b, bit_or-lt (w / 2) b k, pow-suc 2 k)

halved : (k w : ℕ) → w < 2 ^ suc k → (2 ^ suc k - 1 - w) / 2 ≡ 2 ^ k - 1 - w / 2
halved k w l = omega (arith, pow-suc 2 k)

-- The complement within `k` bits turns each of them round.
pub bit-complement : (k w c : ℕ) → c < k → w < 2 ^ k → bit (2 ^ k - 1 - w) c ≡ 1 - bit w c
bit-complement zero w c h l = elim h [ ]
bit-complement (suc k) w zero h l = omega (arith, pow-suc 2 k)
bit-complement (suc k) w (suc c) h l =
    ap (λ t. bit t c) (halved k w l)
    ∙ bit-complement k (w / 2) c (omega arith) (omega (arith, pow-suc 2 k))
