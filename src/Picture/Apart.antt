-- ===== src/Picture/Apart.antt =====
-- Two players share the screen: what a picture leaves of the other one's half.
use native.Mathlib.Nat.{mul-le-mul_right}
use native.Mathlib.Decide.{dec_lt}
use rv_receive.Base.{
  ℕ, ◌+◌, ◌*◌, ◌/◌, ◌%◌, ◌≤◌, ◌<◌, ◌≡◌, ◌⊎◌, inl, inr, arith, ap, length, get_or, some, List,
}
use rv_receive.Picture.{Screen, Codec, area, sections, put_picture}
use rv_receive.Picture.Rows.{OffRows}
use rv_receive.Picture.Place.{IsTv, Fits, Seat, gap_left, gap_above, chroma_gap}
use rv_receive.Picture.Bounds.{
  seat_in, quarter_mul, half_mul, luma_row, chroma_row, cell_in, chroma_cell,
}
use rv_receive.Picture.Shown.{Shown, luma_at, u_at, under_u, under_v, area_five, put_picture-Shown}

-- In rows of width `w`, a place beside the columns from `col` to `col + size` is in none of them.
beside :
    (w base above col size n row x : ℕ)
    → col + size ≤ w
    → x < w
    → (x < col) ⊎ (col + size ≤ x)
    → OffRows (base + above * w + col) w size n (base + row * w + x)
beside w base above col size n row x l lx (inl h) k q = elim (dec_lt row (above + k + 1)) [
  | yes p ↦ inl (omega (arith, mul-le-mul_right {m = row} {n = above + k} w (omega arith)))
  | no p ↦ inr (omega (arith, mul-le-mul_right {m = above + k + 1} {n = row} w (omega arith)))
]
beside w base above col size n row x l lx (inr h) k q = elim (dec_lt row (above + k)) [
  | yes p ↦ inl (omega (arith, mul-le-mul_right {m = row + 1} {n = above + k} w (omega arith)))
  | no p ↦ inr (omega (arith, mul-le-mul_right {m = above + k} {n = row} w (omega arith)))
]

move_off :
    {at at' i i' : ℕ} (offset size n : ℕ)
    → at ≡ at'
    → i ≡ i'
    → OffRows at offset size n i
    → OffRows at' offset size n i'
move_off offset size n e e' o = rw (← e, ← e') o

-- The bytes of the screen whose columns are not those of the player's canvas are as they were.
pub record Spared (s : Screen) (c : Codec) (left : ℕ) (r : List ℕ) : Type 0 where
  pub luma :
      (row x : ℕ)
      → row < s.tv_screen_height
      → x < s.tv_screen_width
      → (x < left) ⊎ (left + c.tv_canvas_width ≤ x)
      → get_or r (row * s.tv_screen_width + x) 0
        ≡ get_or s.yuv_splicing_buffer (row * s.tv_screen_width + x) 0
  pub chroma_u :
      (row x : ℕ)
      → row < s.tv_screen_height / 2
      → x < s.tv_screen_width / 2
      → (x < left / 2) ⊎ (left / 2 + c.tv_canvas_width / 2 ≤ x)
      → get_or r (area s + row * (s.tv_screen_width / 2) + x) 0
        ≡ get_or s.yuv_splicing_buffer (area s + row * (s.tv_screen_width / 2) + x) 0
  pub chroma_v :
      (row x : ℕ)
      → row < s.tv_screen_height / 2
      → x < s.tv_screen_width / 2
      → (x < left / 2) ⊎ (left / 2 + c.tv_canvas_width / 2 ≤ x)
      → get_or r (area s * 5 / 4 + row * (s.tv_screen_width / 2) + x) 0
        ≡ get_or s.yuv_splicing_buffer (area s * 5 / 4 + row * (s.tv_screen_width / 2) + x) 0

module _ (s : Screen) (c : Codec) (player left : ℕ) (tv : IsTv s) (v : Fits s c)
    (seat : Seat c player left) (scaled : List ℕ)
    (l : length scaled ≡ c.displayer_width * c.displayer_height * 3 / 2) where
  over_luma :
      (i : ℕ)
      → area s ≤ i
      → OffRows (luma_at s c left) s.tv_screen_width c.displayer_width c.displayer_height i
  over_luma i h k q = inr (omega (arith, luma_row s c player left tv v seat k q))

  over_u :
      (i : ℕ)
      → area s * 5 / 4 ≤ i
      → OffRows
          (u_at s c left)
          (s.tv_screen_width / 2)
          (c.displayer_width / 2)
          (c.displayer_height / 2)
          i
  over_u i h k q = inr (
      omega (
        arith,
        chroma_row s c player left tv v seat k q,
        area_five s c player left tv v seat scaled l,
      ))

  chroma_place :
      (row x : ℕ)
      → row < s.tv_screen_height / 2
      → x < s.tv_screen_width / 2
      → row * (s.tv_screen_width / 2) + x < area s / 4
  chroma_place row x h q = omega (
    arith,
    chroma_cell s.tv_screen_width s.tv_screen_height 0 row (x + 1) tv.quarters (omega arith)
        (omega arith),
  )

  even_gap :
      gap_above s c % 2 ≡ 0
      → gap_above s c * s.tv_screen_width / 4 ≡ gap_above s c / 2 * (s.tv_screen_width / 2)
  even_gap e = omega (
    arith,
    quarter_mul (gap_above s c) s.tv_screen_width tv.quarters,
    half_mul (gap_above s c / 2) s.tv_screen_width tv.quarters,
    ap (λ t. t * (s.tv_screen_width / 4)) {x = gap_above s c} {y = 2 * (gap_above s c / 2)}
        (omega arith),
  )

  beside_luma :
      (row x : ℕ)
      → x < s.tv_screen_width
      → (x < left) ⊎ (left + c.tv_canvas_width ≤ x)
      → OffRows
          (luma_at s c left)
          s.tv_screen_width
          c.displayer_width
          c.displayer_height
          (row * s.tv_screen_width + x)
  beside_luma row x h o =
      move_off s.tv_screen_width c.displayer_width c.displayer_height (omega arith) (omega arith) (
        beside s.tv_screen_width 0 (gap_above s c) (left + gap_left s c) c.displayer_width
          c.displayer_height row x (omega (arith, v.narrower, seat_in s c player left tv v seat)) h
          (ground (arith, o, v.narrower)))

  beside_chroma :
      (base row x : ℕ)
      → gap_above s c % 2 ≡ 0
      → x < s.tv_screen_width / 2
      → (x < left / 2) ⊎ (left / 2 + c.tv_canvas_width / 2 ≤ x)
      → OffRows
          (base + left / 2 + chroma_gap s c)
          (s.tv_screen_width / 2)
          (c.displayer_width / 2)
          (c.displayer_height / 2)
          (base + row * (s.tv_screen_width / 2) + x)
  beside_chroma base row x e h o =
      move_off (s.tv_screen_width / 2) (c.displayer_width / 2) (c.displayer_height / 2)
        (omega (arith, even_gap e)) (omega arith)
        (beside (s.tv_screen_width / 2) base (gap_above s c / 2) (left / 2 + gap_left s c / 2)
          (c.displayer_width / 2) (c.displayer_height / 2) row x
          (omega (arith, v.narrower, seat_in s c player left tv v seat)) h
          (ground (arith, o, v.narrower)))

  Shown-Spared : (r : List ℕ) → gap_above s c % 2 ≡ 0 → Shown s c left scaled r → Spared s c left r
  Shown-Spared r e shown =
      let under_u' = under_u s c player left tv v seat scaled l in
      let under_v' = under_v s c player left tv v seat scaled l in
      let five = area_five s c player left tv v seat scaled l in
      record {
        luma = λ row x h q o.
            let i : row * s.tv_screen_width + x < area s =
              omega
                (arith, cell_in row (x + 1) s.tv_screen_width s.tv_screen_height h (omega arith)) in
            shown.kept _ (beside_luma row x q o) (under_u' _ i)
              (under_v' _ (omega (arith, i, five)));
        chroma_u = λ row x h q o.
            shown.kept _ (over_luma _ (omega arith)) (beside_chroma (area s) row x e q o)
              (under_v' _ (omega (arith, five, chroma_place row x h q)));
        chroma_v = λ row x h q o.
            shown.kept _ (over_luma _ (omega (arith, five))) (over_u _ (omega arith))
              (beside_chroma (area s * 5 / 4) row x e q o);
      }

  -- Where the lines above a picture are even in number, it spares what is beside its canvas.
  pub put_picture-Spared :
      gap_above s c % 2 ≡ 0
      → (r : List ℕ) × (put_picture s c (sections s c player) scaled ≡ some r) × Spared s c left r
  put_picture-Spared e =
      let (r, done, shown) = put_picture-Shown s c player left tv v seat scaled l in
      (r, done, Shown-Spared r e shown)
