-- ===== src/Picture/Bounds.antt =====
-- The three planes of a picture lie in the three planes of the screen.
use native.Mathlib.Nat.{mul-le-mul_right}
use rv_receive.Base.{ℕ, ◌+◌, ◌*◌, ◌/◌, ◌%◌, ◌≤◌, ◌<◌, ◌≡◌, inl, inr, arith, ap, length, List}
use rv_receive.Base.Int.{pos}
use rv_receive.Picture.{Screen, Codec, area}
use rv_receive.Picture.Rows.{RowsIn}
use rv_receive.Picture.Place.{
  IsTv, Fits, Seat, single, first, second, gap_left, gap_above, chroma_gap,
}

pub cell_in : (r c w h : ℕ) → r < h → c ≤ w → r * w + c ≤ h * w
cell_in r c w h p q = grind arith

-- A quarter of a width that has whole quarters.
pub quarter_mul : (n w : ℕ) → w % 4 ≡ 0 → n * w ≡ 4 * (n * (w / 4))
quarter_mul n w e = omega (arith, ap (λ t. n * t) {x = w} {y = 4 * (w / 4)} (omega arith))

pub half_mul : (n w : ℕ) → w % 4 ≡ 0 → n * (w / 2) ≡ 2 * (n * (w / 4))
half_mul n w e = omega (arith, ap (λ t. n * t) {x = w / 2} {y = 2 * (w / 4)} (omega arith))

-- The column of a chroma row is at most half the width, and its place in the plane below a quarter of
-- the area.
pub chroma_cell :
    (w h above k x : ℕ)
    → w % 4 ≡ 0
    → x ≤ w / 2
    → above + (2 * k + 2) ≤ h
    → above * w / 4 + k * (w / 2) + x ≤ w * h / 4
chroma_cell w h above k x e q l = omega (
  arith,
  quarter_mul above w e,
  quarter_mul h w e,
  half_mul k w e,
  mul-le-mul_right {m = above + (2 * k + 2)} {n = h} (w / 4) l,
)

module _ (s : Screen) (c : Codec) (player left : ℕ) (tv : IsTv s) (v : Fits s c)
    (seat : Seat c player left) where
  pub two_in : c.m_num ≡ pos 2 → c.tv_canvas_width ≡ s.tv_screen_width / 2
  two_in m = elim v.wide [ inl (m', w) ↦ absurd (cc) | inr (m', w) ↦ w ]

  pub seat_in : left + c.tv_canvas_width ≤ s.tv_screen_width
  seat_in = elim seat [
    | single m p l ↦ ground (arith, v.wide)
    | first m p l ↦ ground (arith, v.wide)
    | second m p l ↦ omega (arith, two_in m)
  ]

  pub luma_row :
      (k : ℕ)
      → k < c.displayer_height
      → left
          + gap_left s c
          + gap_above s c * s.tv_screen_width
          + k * s.tv_screen_width
          + c.displayer_width
        ≤ area s
  luma_row k h = omega (
    arith,
    cell_in (gap_above s c + k) (left + gap_left s c + c.displayer_width) s.tv_screen_width
        s.tv_screen_height (omega (arith, v.lower, v.high)) (omega (arith, v.narrower, seat_in)),
  )

  pub chroma_row :
      (k : ℕ)
      → k < c.displayer_height / 2
      → left / 2 + chroma_gap s c + k * (s.tv_screen_width / 2) + c.displayer_width / 2 ≤ area s / 4
  chroma_row k h = omega (
    arith,
    chroma_cell s.tv_screen_width s.tv_screen_height (gap_above s c) k
        (left / 2 + gap_left s c / 2 + c.displayer_width / 2) tv.quarters
        (omega (arith, v.narrower, seat_in)) (omega (arith, v.lower, v.high)),
  )

  luma_in :
      RowsIn s.yuv_splicing_buffer
        (left + gap_left s c + gap_above s c * s.tv_screen_width)
        s.tv_screen_width
        c.displayer_width
        c.displayer_height
  luma_in k h = omega (arith, luma_row k h, tv.planes)

-- The planes of the scaled picture.
even_area : (w h : ℕ) → w % 2 ≡ 0 → h % 2 ≡ 0 → w * h ≡ 4 * (h / 2 * (w / 2))
even_area w h e e' = omega (
  arith,
  ap (λ t. t * h) {x = w} {y = 2 * (w / 2)} (omega arith),
  ap (λ t. t * (w / 2)) {x = h} {y = 2 * (h / 2)} (omega arith),
)

module _ (c : Codec) (scaled : List ℕ) (w_even : c.displayer_width % 2 ≡ 0)
    (h_even : c.displayer_height % 2 ≡ 0)
    (l : length scaled ≡ c.displayer_width * c.displayer_height * 3 / 2) where
  pub luma_held : RowsIn scaled 0 c.displayer_width c.displayer_width c.displayer_height
  luma_held k h =
      omega
        (arith, l, cell_in k c.displayer_width c.displayer_width c.displayer_height h (omega arith))

  chroma_held :
      (k : ℕ)
      → k < c.displayer_height / 2
      → k * (c.displayer_width / 2) + c.displayer_width / 2
        ≤ c.displayer_width * c.displayer_height / 4
  chroma_held k h = omega (
    arith,
    even_area c.displayer_width c.displayer_height w_even h_even,
    cell_in k (c.displayer_width / 2) (c.displayer_width / 2) (c.displayer_height / 2) h
        (omega arith),
  )

  pub u_held :
      RowsIn scaled
        (c.displayer_width * c.displayer_height)
        (c.displayer_width / 2)
        (c.displayer_width / 2)
        (c.displayer_height / 2)
  u_held k h =
      omega
        (arith, l, chroma_held k h, even_area c.displayer_width c.displayer_height w_even h_even)

  pub v_held :
      RowsIn scaled
        (c.displayer_width * c.displayer_height * 5 / 4)
        (c.displayer_width / 2)
        (c.displayer_width / 2)
        (c.displayer_height / 2)
  v_held k h =
      omega
        (arith, l, chroma_held k h, even_area c.displayer_width c.displayer_height w_even h_even)
