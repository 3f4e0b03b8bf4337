-- ===== src/Picture/Rows.antt =====
-- What ReadYUV leaves at each place of the buffer.
use mathlib.Core.Option
use rv_receive.Base.{
  ℕ, zero, suc, ◌+◌, ◌*◌, ◌≤◌, ◌<◌, ◌≡◌, refl, ap, ◌∙◌, ◌⊎◌, inl, inr, some, List, arith, le→leb,
  length, get_or, take, drop, length-take, length-drop,
}
use rv_receive.Combine.{copy_to}
use rv_receive.Combine.Copy.{
  length-copy_to, get_or-copy_to_before, get_or-copy_to_after, get_or-copy_to_in, get_or-take,
  get_or-drop,
}
use rv_receive.Picture.{read_yuv}

-- `n` rows of `size` bytes, `offset` apart from `at` on, lie in the buffer.
abbrev pub RowsIn : List ℕ → ℕ → ℕ → ℕ → ℕ → Type 0
RowsIn buf at offset size n = (k : ℕ) → k < n → at + k * offset + size ≤ length buf

-- The place `i` lies in none of the rows.
abbrev pub OffRows : ℕ → ℕ → ℕ → ℕ → ℕ → Type 0
OffRows at offset size n i = (k : ℕ) → k < n → (i < at + k * offset) ⊎ (at + k * offset + size ≤ i)

pub record Copied (res pre r : List ℕ) (at from offset pitch size n : ℕ) : Type 0 where
  pub same_length : length r ≡ length res
  pub outside : (i : ℕ) → OffRows at offset size n i → get_or r i 0 ≡ get_or res i 0
  pub inside :
      (k j : ℕ)
      → k < n
      → j < size
      → get_or r (at + k * offset + j) 0 ≡ get_or pre (from + k * pitch + j) 0

pub next_row : (at offset k : ℕ) → at + suc k * offset ≡ at + offset + k * offset
next_row at offset k = omega arith

module _ (res pre : List ℕ) (at from size : ℕ) (l : from + size ≤ length pre) where
  length_row : length (take size (drop from pre)) ≡ size
  length_row = length-take size (drop from pre) (omega (arith, length-drop from pre))

  get_or_row :
      (j : ℕ)
      → at + size ≤ length res
      → j < size
      → get_or (copy_to res at (take size (drop from pre))) (at + j) 0 ≡ get_or pre (from + j) 0
  get_or_row j m h =
      get_or-copy_to_in res at (take size (drop from pre)) j (omega (arith, length_row))
        (omega (arith, length_row))
      ∙ get_or-take size (drop from pre) j h
      ∙ get_or-drop from pre j

  get_or_off :
      (i : ℕ)
      → (i < at) ⊎ (at + size ≤ i)
      → get_or (copy_to res at (take size (drop from pre))) i 0 ≡ get_or res i 0
  get_or_off i (inl h) = get_or-copy_to_before res at (take size (drop from pre)) i h
  get_or_off i (inr h) =
      get_or-copy_to_after res at (take size (drop from pre)) i (omega (arith, length_row))

-- The first row is below those behind it, which leave it alone.
inside_rows :
    (first pre r : List ℕ) (at from offset pitch size n k j : ℕ)
    → size ≤ offset
    → Copied first pre r (at + offset) (from + pitch) offset pitch size n
    → get_or first (at + j) 0 ≡ get_or pre (from + j) 0
    → k < suc n
    → j < size
    → get_or r (at + k * offset + j) 0 ≡ get_or pre (from + k * pitch + j) 0
inside_rows first pre r at from offset pitch size n zero j w c row q s =
    ap (λ t. get_or r t 0) {x = at + 0 * offset + j} {y = at + j} (omega arith)
    ∙ c.outside (at + j) (λ k q. inl (omega arith))
    ∙ row
    ∙ ap (λ t. get_or pre t 0) {x = from + j} {y = from + 0 * pitch + j} (omega arith)
inside_rows first pre r at from offset pitch size n (suc k) j w c row q s =
    ap (λ t. get_or r (t + j) 0) (next_row at offset k)
    ∙ c.inside k j (omega arith) s
    ∙ ap (λ t. get_or pre (t + j) 0) {y = from + suc k * pitch}
        (omega (arith, next_row from pitch k))

-- Rows that do not overlap and lie in both buffers are copied, and nothing else changes.
pub read_yuv-Copied :
    (res pre : List ℕ) (at from offset pitch size n : ℕ)
    → size ≤ offset
    → RowsIn res at offset size n
    → RowsIn pre from pitch size n
    → (r : List ℕ) × (read_yuv res pre at from offset pitch size n ≡ some r)
      × Copied res pre r at from offset pitch size n
unfolding read_yuv Option.bind
read_yuv-Copied res pre at from offset pitch size zero w h l =
    (res, refl, record { same_length = refl; outside = λ i o. refl; inside = λ k j h. elim h [ ] })
read_yuv-Copied res pre at from offset pitch size (suc n) w h l =
    let fits : at + size ≤ length res = omega (arith, h 0) in
    let held : from + size ≤ length pre = omega (arith, l 0) in
    let first = copy_to res at (take size (drop from pre)) in
    let same : length first ≡ length res = length-copy_to res at (take size (drop from pre)) in
    let (r, done, c) =
      read_yuv-Copied first pre (at + offset) (from + pitch) offset pitch size n w
        (λ k q. omega (arith, h (suc k), next_row at offset k, same))
        (λ k q. omega (arith, l (suc k), next_row from pitch k)) in
    (
      r,
      rw (le→leb _ _ fits, le→leb _ _ held) done,
      record {
        same_length = c.same_length ∙ same;
        outside = λ i o.
            c.outside i (λ k q. ground (arith, o (suc k) (omega arith), next_row at offset k))
            ∙ get_or_off res pre at from size held i (ground (arith, o 0 (omega arith)));
        inside = λ k j q s.
            inside_rows first pre r at from offset pitch size n k j w c
              (get_or_row res pre at from size held j fits s) q s;
      },
    )
