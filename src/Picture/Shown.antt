-- ===== src/Picture/Shown.antt =====
-- What the screen shows after a picture is put on it.
use mathlib.Core.Option
use rv_receive.Base.{
  ℕ, ◌+◌, ◌*◌, ◌/◌, ◌≤◌, ◌<◌, ◌≡◌, ◌∙◌, inl, arith, ap, length, get_or, some, List,
}
use rv_receive.Picture.{Screen, Codec, area, sections, put_picture}
use rv_receive.Picture.Rows.{OffRows, read_yuv-Copied}
use rv_receive.Picture.Place.{IsTv, Fits, Seat, gap_left, gap_above, chroma_gap, sections-Seat}
use rv_receive.Picture.Bounds.{
  seat_in, luma_row, chroma_row, luma_held, u_held, v_held, quarter_mul,
}

module _ (s : Screen) (c : Codec) (left : ℕ) where
  abbrev pub luma_at : ℕ
  luma_at = left + gap_left s c + gap_above s c * s.tv_screen_width

  abbrev pub u_at : ℕ
  u_at = area s + left / 2 + chroma_gap s c

  abbrev pub v_at : ℕ
  v_at = area s * 5 / 4 + left / 2 + chroma_gap s c

-- The picture's rows of luma and chroma stand one under the other, and all else is as it was.
pub record Shown (s : Screen) (c : Codec) (left : ℕ) (scaled r : List ℕ) : Type 0 where
  pub same_length : length r ≡ length s.yuv_splicing_buffer
  pub luma :
      (k j : ℕ)
      → k < c.displayer_height
      → j < c.displayer_width
      → get_or r (luma_at s c left + k * s.tv_screen_width + j) 0
        ≡ get_or scaled (k * c.displayer_width + j) 0
  pub chroma_u :
      (k j : ℕ)
      → k < c.displayer_height / 2
      → j < c.displayer_width / 2
      → get_or r (u_at s c left + k * (s.tv_screen_width / 2) + j) 0
        ≡ get_or scaled (c.displayer_width * c.displayer_height + k * (c.displayer_width / 2) + j) 0
  pub chroma_v :
      (k j : ℕ)
      → k < c.displayer_height / 2
      → j < c.displayer_width / 2
      → get_or r (v_at s c left + k * (s.tv_screen_width / 2) + j) 0
        ≡ get_or scaled
            (c.displayer_width * c.displayer_height * 5 / 4 + k * (c.displayer_width / 2) + j)
            0
  pub kept :
      (i : ℕ)
      → OffRows (luma_at s c left) s.tv_screen_width c.displayer_width c.displayer_height i
      → OffRows
          (u_at s c left)
          (s.tv_screen_width / 2)
          (c.displayer_width / 2)
          (c.displayer_height / 2)
          i
      → OffRows
          (v_at s c left)
          (s.tv_screen_width / 2)
          (c.displayer_width / 2)
          (c.displayer_height / 2)
          i
      → get_or r i 0 ≡ get_or s.yuv_splicing_buffer i 0

module _ (s : Screen) (c : Codec) (player left : ℕ) (tv : IsTv s) (v : Fits s c)
    (seat : Seat c player left) (scaled : List ℕ)
    (l : length scaled ≡ c.displayer_width * c.displayer_height * 3 / 2) where
  pub area_five : area s * 5 / 4 ≡ area s + area s / 4
  area_five = omega (arith, quarter_mul s.tv_screen_height s.tv_screen_width tv.quarters)

  wide_enough : c.displayer_width ≤ s.tv_screen_width
  wide_enough = omega (arith, seat_in s c player left tv v seat, v.narrower)

  -- Below the chroma planes there is no chroma.
  pub under_u :
      (i : ℕ)
      → i < area s
      → OffRows
          (u_at s c left)
          (s.tv_screen_width / 2)
          (c.displayer_width / 2)
          (c.displayer_height / 2)
          i
  under_u i h k q = inl (omega arith)

  pub under_v :
      (i : ℕ)
      → i < area s * 5 / 4
      → OffRows
          (v_at s c left)
          (s.tv_screen_width / 2)
          (c.displayer_width / 2)
          (c.displayer_height / 2)
          i
  under_v i h k q = inl (omega arith)

  luma_below :
      (k j : ℕ)
      → k < c.displayer_height
      → j < c.displayer_width
      → luma_at s c left + k * s.tv_screen_width + j < area s
  luma_below k j h q = omega (arith, luma_row s c player left tv v seat k h)

  u_below :
      (k j : ℕ)
      → k < c.displayer_height / 2
      → j < c.displayer_width / 2
      → u_at s c left + k * (s.tv_screen_width / 2) + j < area s * 5 / 4
  u_below k j h q = omega (arith, chroma_row s c player left tv v seat k h, area_five)

  -- A picture that fits in its player's canvas is shown there, without a fault.
  pub put_picture-Shown :
      (r : List ℕ) × (put_picture s c (sections s c player) scaled ≡ some r)
      × Shown s c left scaled r
  unfolding put_picture Option.bind
  put_picture-Shown =
      let (y, y_done, cy) =
        read_yuv-Copied s.yuv_splicing_buffer scaled (luma_at s c left) 0 s.tv_screen_width
          c.displayer_width c.displayer_width c.displayer_height wide_enough
          (λ k h. omega (arith, luma_row s c player left tv v seat k h, tv.planes))
          (luma_held c scaled v.even_width v.even_height l) in
      let (u, u_done, cu) =
        read_yuv-Copied y scaled (u_at s c left) (c.displayer_width * c.displayer_height)
          (s.tv_screen_width / 2) (c.displayer_width / 2) (c.displayer_width / 2)
          (c.displayer_height / 2) (omega (arith, wide_enough))
          (λ k h.
            omega (arith, chroma_row s c player left tv v seat k h, tv.planes, cy.same_length))
          (u_held c scaled v.even_width v.even_height l) in
      let (r, v_done, cv) =
        read_yuv-Copied u scaled (v_at s c left) (c.displayer_width * c.displayer_height * 5 / 4)
          (s.tv_screen_width / 2) (c.displayer_width / 2) (c.displayer_width / 2)
          (c.displayer_height / 2) (omega (arith, wide_enough))
          (λ k h. omega (
            arith,
            chroma_row s c player left tv v seat k h,
            tv.planes,
            cy.same_length,
            cu.same_length,
            area_five,
          ))
          (v_held c scaled v.even_width v.even_height l) in
      (
        r,
        rw (sections-Seat s c v player left seat, y_done, u_done) v_done,
        record {
          same_length = cv.same_length ∙ cu.same_length ∙ cy.same_length;
          luma = λ k j h q.
              cv.outside _ (under_v _ (omega (arith, luma_below k j h q, area_five)))
              ∙ cu.outside _ (under_u _ (luma_below k j h q))
              ∙ cy.inside k j h q
              ∙ ap (λ t. get_or scaled (t + j) 0) {x = 0 + k * c.displayer_width} (omega arith);
          chroma_u = λ k j h q. cv.outside _ (under_v _ (u_below k j h q)) ∙ cu.inside k j h q;
          chroma_v = cv.inside;
          kept = λ i o o' o''. cv.outside i o'' ∙ cu.outside i o' ∙ cy.outside i o;
        },
      )
