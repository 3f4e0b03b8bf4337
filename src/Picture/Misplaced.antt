-- ===== src/Picture/Misplaced.antt =====
-- Pictures that do not stand where they should: the chroma of a first player, and three or four players.
use mathlib.Core.Option
use rv_receive.Base.{
  ℕ, ◌+◌, ◌*◌, ◌/◌, ◌%◌, ◌≤◌, ◌<◌, ◌≡◌, refl, ◌∙◌, ◌⊎◌, inl, inr, arith, ap, length, get_or, some,
  List,
}
use rv_receive.Base.Int.{pos}
use rv_receive.Picture.{Screen, Codec, area, sections, put_picture}
use rv_receive.Picture.Rows.{read_yuv-Copied}
use rv_receive.Picture.Place.{IsTv, Fits, first, gap_above}
use rv_receive.Picture.Bounds.{quarter_mul, half_mul, cell_in, luma_held, u_held, v_held}
use rv_receive.Picture.Shown.{u_at, put_picture-Shown}

-- The first of two players, whose picture is as wide as the canvas and has an odd number of lines
-- above: its first chroma row stands in the columns of the second player.
pub put_picture_odd :
    (s : Screen) (c : Codec) (scaled : List ℕ)
    → IsTv s
    → Fits s c
    → c.m_num ≡ pos 2
    → c.displayer_width ≡ c.tv_canvas_width
    → gap_above s c % 2 ≡ 1
    → 1 < c.displayer_height
    → length scaled ≡ c.displayer_width * c.displayer_height * 3 / 2
    → (r : List ℕ) × (put_picture s c (sections s c 1) scaled ≡ some r)
      × ((j : ℕ)
          → j < c.displayer_width / 2
          → get_or r
              (area s + gap_above s c / 2 * (s.tv_screen_width / 2) + s.tv_screen_width / 4 + j)
              0
            ≡ get_or scaled (c.displayer_width * c.displayer_height + j) 0)
put_picture_odd s c scaled tv v two wide odd high l =
    let (r, done, shown) = put_picture-Shown s c 1 0 tv v (first two refl refl) scaled l in
    let at : u_at s c 0
        ≡ area s + gap_above s c / 2 * (s.tv_screen_width / 2) + s.tv_screen_width / 4 =
      omega (
        arith,
        quarter_mul (gap_above s c) s.tv_screen_width tv.quarters,
        half_mul (gap_above s c / 2) s.tv_screen_width tv.quarters,
        ap (λ t. t * (s.tv_screen_width / 4)) {x = gap_above s c} {y = 2 * (gap_above s c / 2) + 1}
            (omega arith),
      ) in
    (
      r,
      done,
      λ j h.
          ap (λ t. get_or r (t + j) 0) {y = u_at s c 0 + 0 * (s.tv_screen_width / 2)}
            (omega (arith, at))
          ∙ shown.chroma_u 0 j (omega arith) h
          ∙ ap (λ t. get_or scaled (t + j) 0) {y = c.displayer_width * c.displayer_height}
              (omega arith),
    )

module _ (s : Screen) (c : Codec) where
  quarters_at_zero :
      (player : ℕ) → (c.m_num ≡ pos 3) ⊎ (c.m_num ≡ pos 4) → sections s c player ≡ (0, 0, 0)
  unfolding sections
  quarters_at_zero player (inl m) = rw m
  quarters_at_zero player (inr m) = rw m

-- With three or four players, the V plane of any player's picture ends up on the luma at the top left.
pub put_picture_quarters :
    (s : Screen) (c : Codec) (player : ℕ) (scaled : List ℕ)
    → IsTv s
    → (c.m_num ≡ pos 3) ⊎ (c.m_num ≡ pos 4)
    → c.displayer_width ≤ s.tv_screen_width / 2
    → c.displayer_height ≤ s.tv_screen_height / 2
    → c.displayer_width % 2 ≡ 0
    → c.displayer_height % 2 ≡ 0
    → length scaled ≡ c.displayer_width * c.displayer_height * 3 / 2
    → (r : List ℕ) × (put_picture s c (sections s c player) scaled ≡ some r)
      × ((k j : ℕ)
          → k < c.displayer_height / 2
          → j < c.displayer_width / 2
          → get_or r (k * (s.tv_screen_width / 2) + j) 0
            ≡ get_or scaled
                (c.displayer_width * c.displayer_height * 5 / 4 + k * (c.displayer_width / 2) + j)
                0)
unfolding put_picture Option.bind
put_picture_quarters s c player scaled tv m w h we he l =
    let row : (k : ℕ)
        → k < c.displayer_height / 2
        → 0 + k * (s.tv_screen_width / 2) + c.displayer_width / 2 ≤ length s.yuv_splicing_buffer =
      λ k q. omega (
        arith,
        tv.planes,
        cell_in k (c.displayer_width / 2) (s.tv_screen_width / 2) s.tv_screen_height (omega arith)
            (omega arith),
        quarter_mul s.tv_screen_height s.tv_screen_width tv.quarters,
        half_mul s.tv_screen_height s.tv_screen_width tv.quarters,
      ) in
    let (y, y_done, cy) =
      read_yuv-Copied s.yuv_splicing_buffer scaled 0 0 s.tv_screen_width c.displayer_width
        c.displayer_width c.displayer_height (omega arith)
        (λ k q. omega (
          arith,
          tv.planes,
          cell_in k c.displayer_width s.tv_screen_width s.tv_screen_height (omega arith)
              (omega arith),
        ))
        (luma_held c scaled we he l) in
    let (u, u_done, cu) =
      read_yuv-Copied y scaled 0 (c.displayer_width * c.displayer_height) (s.tv_screen_width / 2)
        (c.displayer_width / 2) (c.displayer_width / 2) (c.displayer_height / 2) (omega arith)
        (λ k q. omega (arith, row k q, cy.same_length)) (u_held c scaled we he l) in
    let (r, v_done, cv) =
      read_yuv-Copied u scaled 0 (c.displayer_width * c.displayer_height * 5 / 4)
        (s.tv_screen_width / 2) (c.displayer_width / 2) (c.displayer_width / 2)
        (c.displayer_height / 2) (omega arith)
        (λ k q. omega (arith, row k q, cy.same_length, cu.same_length)) (v_held c scaled we he l) in
    (
      r,
      rw (quarters_at_zero s c player m, y_done, u_done) v_done,
      λ k j q p.
          ap (λ t. get_or r (t + j) 0) {y = 0 + k * (s.tv_screen_width / 2)} (omega arith)
          ∙ cv.inside k j q p,
    )
