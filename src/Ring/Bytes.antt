-- ===== src/Ring/Bytes.antt =====
-- The array of the ring as a circle: what lies in a stretch of it, and what a write leaves there.
use Prim.Native.Nat.add
use native.Mathlib.Nat.{add-zero, add-suc, mod-add-mod, mod-eq_of_lt}
use mathlib.Core.Path.{ap₂}
use native.Mathlib.Numerals.{add-one}
use rv_receive.Base.{
  ℕ, zero, suc, ◌+◌, ◌%◌, ◌≤◌, ◌<◌, ◌≡◌, ◌≢◌, refl, sym, ap, ◌∙◌, List, [], ◌∷◌, ◌++◌, arith,
  append-nil, append_assoc, length, get_or, set, drop, length-set, get_or-set_self, get_or-set_ne,
}
use rv_receive.Ring.{copy_to, slice}

-- Places less than once round apart are different places.
mod_ne : (capacity p i n : ℕ) → i < n → n < capacity → (p + n) % capacity ≢ (p + i) % capacity
mod_ne capacity p i n hi hn e = grind arith

mod-lt_capacity : (capacity p : ℕ) → 0 < capacity → p % capacity < capacity
mod-lt_capacity capacity p h = omega arith

pub mod_add :
    (capacity p q k : ℕ) → p % capacity ≡ q % capacity → (p + k) % capacity ≡ (q + k) % capacity
mod_add capacity p q k e =
    sym (mod-add-mod p capacity k) ∙ ap (λ t. (t + k) % capacity) e ∙ mod-add-mod q capacity k

drop_step : (buf : List ℕ) (p : ℕ) → p < length buf → drop p buf ≡ get_or buf p 0 ∷ drop (suc p) buf
drop_step [] p h = elim h [ ]
drop_step (b ∷ bs) zero h = refl
drop_step (b ∷ bs) (suc p) h = drop_step bs p (omega arith)

module _ (capacity : ℕ) where
  -- The `n` bytes from place `p` on, going round at `capacity`.
  pub window : List ℕ → ℕ → ℕ → List ℕ
  window buf p zero = []
  window buf p (suc n) = get_or buf (p % capacity) 0 ∷ window buf (suc p) n

  -- A write byte by byte, going round at `capacity`.
  pub write_round : List ℕ → ℕ → List ℕ → List ℕ
  write_round buf p [] = buf
  write_round buf p (b ∷ bs) = write_round (set buf (p % capacity) b) (suc p) bs

  pub length-window : (buf : List ℕ) (p n : ℕ) → length (window buf p n) ≡ n
  unfolding window
  length-window buf p zero = refl
  length-window buf p (suc n) = ap suc (length-window buf (suc p) n)

  pub length-write_round :
      (buf : List ℕ) (p : ℕ) (bs : List ℕ) → length (write_round buf p bs) ≡ length buf
  unfolding write_round
  length-write_round buf p [] = refl
  length-write_round buf p (b ∷ bs) =
      length-write_round (set buf (p % capacity) b) (suc p) bs ∙ length-set buf (p % capacity) b

  pub window-zero : (buf : List ℕ) (p : ℕ) → window buf p 0 ≡ []
  unfolding window
  window-zero buf p = refl

  pub window_mod :
      (buf : List ℕ) (p q n : ℕ) → p % capacity ≡ q % capacity → window buf p n ≡ window buf q n
  unfolding window
  window_mod buf p q zero e = refl
  window_mod buf p q (suc n) e = rw (
    e,
    window_mod buf (suc p) (suc q) n (rw (← add-one p, ← add-one q) (mod_add capacity p q 1 e)),
  )

  pub window-append :
      (buf : List ℕ) (p n k : ℕ) → window buf p (n + k) ≡ window buf p n ++ window buf (p + n) k
  unfolding window
  window-append buf p zero k = rw (add.zero, add-zero)
  window-append buf p (suc n) k =
      rw (add.suc n k, add-suc, ← add.suc p n) (rw (window-append buf (suc p) n k))

  -- A write at a place outside a stretch leaves the stretch as it was.
  window-set_ne :
      (buf : List ℕ) (p i k n b : ℕ)
      → i + k ≤ n
      → n < capacity
      → window (set buf ((p + n) % capacity) b) (p + i) k ≡ window buf (p + i) k
  unfolding window
  window-set_ne buf p i zero n b h hn = refl
  window-set_ne buf p i (suc k) n b h hn =
      rw
        (
          get_or-set_ne buf ((p + n) % capacity) ((p + i) % capacity) b 0
              (mod_ne capacity p i n (omega arith) hn),
          ← add-suc,
        )
        (rw (window-set_ne buf p (suc i) k n b (omega arith) hn))

  window-set :
      (buf : List ℕ) (p n b : ℕ)
      → length buf ≡ capacity
      → n < capacity
      → window (set buf ((p + n) % capacity) b) p (suc n) ≡ window buf p n ++ b ∷ []
  unfolding window
  window-set buf p n b e hn =
      ap (window written p) (sym (add-one n))
      ∙ window-append written p n 1
      ∙ ap₂ ◌++◌ ahead (
          ap (λ v. v ∷ [])
            (get_or-set_self buf ((p + n) % capacity) b 0 (omega (arith, mod-lt_capacity))))
    where
      written : List ℕ
      written = set buf ((p + n) % capacity) b

      ahead : window (set buf ((p + n) % capacity) b) p n ≡ window buf p n
      ahead =
          ap (λ t. window (set buf ((p + n) % capacity) b) t n) (sym (add-zero p))
          ∙ window-set_ne buf p 0 n n b (omega arith) hn
          ∙ ap (λ t. window buf t n) (add-zero p)

  -- A write just past a stretch extends it by what is written, if both fit once round.
  pub window-write_round :
      (buf : List ℕ) (p n : ℕ) (bs : List ℕ)
      → length buf ≡ capacity
      → n + length bs ≤ capacity
      → window (write_round buf (p + n) bs) p (n + length bs) ≡ window buf p n ++ bs
  unfolding write_round
  window-write_round buf p n [] e h = rw (add-zero, append-nil)
  window-write_round buf p n (b ∷ bs) e h =
      rw (add-suc, ← add.suc n (length bs), ← add-suc)
        (window-write_round (set buf ((p + n) % capacity) b) p (suc n) bs
            (length-set buf ((p + n) % capacity) b ∙ e) (omega arith)
          ∙ rw (window-set buf p n b e (omega arith), append_assoc))

  pub write_round_mod :
      (buf : List ℕ) (p q : ℕ) (bs : List ℕ)
      → p % capacity ≡ q % capacity
      → write_round buf p bs ≡ write_round buf q bs
  unfolding write_round
  write_round_mod buf p q [] e = refl
  write_round_mod buf p q (b ∷ bs) e = rw (
    e,
    write_round_mod (set buf (q % capacity) b) (suc p) (suc q) bs
        (rw (← add-one p, ← add-one q) (mod_add capacity p q 1 e)),
  )

  pub copy_to-write_round :
      (buf : List ℕ) (p : ℕ) (bs : List ℕ)
      → p + length bs ≤ capacity
      → copy_to buf p bs ≡ write_round buf p bs
  unfolding write_round copy_to
  copy_to-write_round buf p [] h = refl
  copy_to-write_round buf p (b ∷ bs) h =
      rw (mod-eq_of_lt {n = p} {m = capacity} (omega arith))
        (copy_to-write_round (set buf p b) (suc p) bs (omega arith))

  pub write_round-append :
      (buf : List ℕ) (p : ℕ) (xs ys : List ℕ)
      → write_round buf p (xs ++ ys) ≡ write_round (write_round buf p xs) (p + length xs) ys
  unfolding write_round
  write_round-append buf p [] ys = rw add-zero
  write_round-append buf p (x ∷ xs) ys =
      rw (add-suc, ← add.suc p (length xs))
        (write_round-append (set buf (p % capacity) x) (suc p) xs ys)

  pub slice-window :
      (buf : List ℕ) (p n : ℕ)
      → length buf ≡ capacity
      → p + n ≤ capacity
      → slice buf p n ≡ window buf p n
  unfolding window
  slice-window buf p zero e h = refl
  slice-window buf p (suc n) e h = rw (
    drop_step buf p (omega arith),
    mod-eq_of_lt {n = p} {m = capacity} (omega arith),
    slice-window buf (suc p) n e (omega arith),
  )
