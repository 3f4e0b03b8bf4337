-- ===== src/Ring/Inner.antt =====
-- `WriteInner` and `ReadInner`, which split a copy at END, against the circle.
use native.Mathlib.Nat.{mod-eq-sub-mod, mod_self, zero-mod}
use mathlib.Core.Path.{ap₂}
use rv_receive.Base.{
  ℕ, ◌+◌, ◌-◌, ◌%◌, ◌≤◌, ◌<◌, ◌≡◌, sym, ap, ◌∙◌, List, ◌++◌, arith, length, take, drop, inl, inr,
  Bool-cases, false, leb, tests, length-take, length-drop, take-append-drop,
}
use rv_receive.Ring.{copy_to, write_inner, read_inner}
use rv_receive.Ring.Bytes.{
  window, write_round, window_mod, window-append, write_round_mod, copy_to-write_round,
  write_round-append, slice-window,
}

module _ (capacity : ℕ) (buf : List ℕ) (p : ℕ) (sized : length buf ≡ capacity)
    (inside : p ≤ capacity) where
  -- The room up to END.
  abbrev first : ℕ
  first = capacity - p

  end_is_start : 0 % capacity ≡ (p + first) % capacity
  end_is_start = omega (arith, mod_self capacity, ap (λ t. t % capacity) whole, zero-mod capacity)
    where
      whole : p + first ≡ capacity
      whole = omega arith

  wrapped_ptr : (n : ℕ) → n ≤ capacity → first < n → (n - first) % capacity ≡ (p + n) % capacity
  wrapped_ptr n h o =
      ap (λ t. t % capacity) {x = n - first} {y = p + n - capacity} (omega arith)
      ∙ sym (mod-eq-sub-mod {n = p + n} {m = capacity} (omega arith))

  -- `WriteInner` writes round the circle, with the branch for the end of the array or without.
  pub write_inner-write_round :
      (bs : List ℕ)
      → length bs ≤ capacity
      → (write_inner capacity buf p bs).0 ≡ write_round capacity buf p bs
  unfolding write_inner
  write_inner-write_round bs h = elim (Bool-cases (leb (length bs) first)) [
    | inl e ↦ rw e (copy_to-write_round capacity buf p bs (omega tests))
    | inr e ↦ rw e (
        copy_to-write_round capacity (copy_to buf p near) 0 far
          (omega (tests, length-drop first bs))
        ∙ ap (λ t. write_round capacity t 0 far)
            (copy_to-write_round capacity buf p near (omega (tests, length_near e)))
        ∙ write_round_mod capacity (write_round capacity buf p near) 0 (p + length near) far
            (start e ∙ ap (λ t. (p + t) % capacity) (sym (length_near e)))
        ∙ sym (write_round-append capacity buf p near far)
        ∙ ap (write_round capacity buf p) (take-append-drop first bs))
  ]
    where
      near : List ℕ
      near = take first bs

      far : List ℕ
      far = drop first bs

      length_near : leb (length bs) first ≡ false → length near ≡ first
      length_near e = length-take first bs (omega tests)

      start : leb (length bs) first ≡ false → 0 % capacity ≡ (p + first) % capacity
      start e = end_is_start

  -- The pointer that it returns is the place behind the data, END included.
  pub write_inner_ptr :
      (bs : List ℕ)
      → length bs ≤ capacity
      → ((write_inner capacity buf p bs).1 ≤ capacity)
        × ((write_inner capacity buf p bs).1 % capacity ≡ (p + length bs) % capacity)
  unfolding write_inner
  write_inner_ptr bs h = ground (arith, wrapped_ptr (length bs))

  -- `ReadInner` reads round the circle.
  pub read_inner-window :
      (n : ℕ) → n ≤ capacity → (read_inner capacity buf p n).0 ≡ window capacity buf p n
  unfolding read_inner
  read_inner-window n h = elim (Bool-cases (leb n first)) [
    | inl e ↦ rw e (slice-window capacity buf p n sized (omega tests))
    | inr e ↦ rw e (
        ap₂ ◌++◌ (slice-window capacity buf p first sized (omega arith)) (
          slice-window capacity buf 0 (n - first) sized (omega arith)
          ∙ window_mod capacity buf 0 (p + first) (n - first) end_is_start)
        ∙ sym (window-append capacity buf p first (n - first))
        ∙ ap (window capacity buf p) (omega tests))
  ]

  pub read_inner_ptr :
      (n : ℕ)
      → n ≤ capacity
      → ((read_inner capacity buf p n).1 ≤ capacity)
        × ((read_inner capacity buf p n).1 % capacity ≡ (p + n) % capacity)
  unfolding read_inner
  read_inner_ptr n h = ground (arith, wrapped_ptr n)
