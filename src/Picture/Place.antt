-- ===== src/Picture/Place.antt =====
-- The places of the three planes, as rows and columns of the screen.
use rv_receive.Base.{ℕ, ◌+◌, ◌-◌, ◌*◌, ◌/◌, ◌%◌, ◌≤◌, ◌≡◌, ◌⊎◌, inl, inr, arith, ap, length, some}
use rv_receive.Base.Int.{pos}
use rv_receive.Picture.{Screen, Codec, area, black_offset, black_chroma, sections}

-- The screen has whole quarters of rows and pairs of lines, and the buffer holds its three planes.
pub record IsTv (s : Screen) : Type 0 where
  pub quarters : s.tv_screen_width % 4 ≡ 0
  pub pairs : s.tv_screen_height % 2 ≡ 0
  pub planes : length s.yuv_splicing_buffer ≡ area s + area s / 2

-- A picture that fits in its canvas and touches it on two sides. The canvas of one player is the
-- screen, that of one of two is half of it, as wide as `half`.
pub record Fits (s : Screen) (c : Codec) : Type 0 where
  pub wide :
      ((c.m_num ≡ pos 1) × (c.tv_canvas_width ≡ s.tv_screen_width))
      ⊎ ((c.m_num ≡ pos 2) × (c.tv_canvas_width ≡ s.tv_screen_width / 2))
  pub high : c.tv_canvas_height ≡ s.tv_screen_height
  pub narrower : c.displayer_width ≤ c.tv_canvas_width
  pub lower : c.displayer_height ≤ c.tv_canvas_height
  pub even_width : c.displayer_width % 2 ≡ 0
  pub even_height : c.displayer_height % 2 ≡ 0
  pub touching : (c.tv_canvas_height ≡ c.displayer_height) ⊎ (c.tv_canvas_width ≡ c.displayer_width)

-- The player's canvas begins at column `left`.
pub data Seat (c : Codec) (player left : ℕ) : Type 0 where
  single : c.m_num ≡ pos 1 → player ≡ 1 → left ≡ 0 → Seat c player left
  first : c.m_num ≡ pos 2 → player ≡ 1 → left ≡ 0 → Seat c player left
  second : c.m_num ≡ pos 2 → player ≡ 2 → left ≡ c.tv_canvas_width → Seat c player left

module _ (s : Screen) (c : Codec) where
  abbrev pub gap_left : ℕ
  gap_left = (c.tv_canvas_width - c.displayer_width) / 2

  abbrev pub gap_above : ℕ
  gap_above = (c.tv_canvas_height - c.displayer_height) / 2

  abbrev pub chroma_gap : ℕ
  chroma_gap = gap_left / 2 + gap_above * s.tv_screen_width / 4

module _ (s : Screen) (c : Codec) (v : Fits s c) where
  no_gap_above : c.tv_canvas_height ≡ c.displayer_height → gap_above s c * s.tv_screen_width ≡ 0
  no_gap_above e =
      omega (arith, ap (λ t. t * s.tv_screen_width) {x = gap_above s c} {y = 0} (omega arith))

  black_offset_lem : black_offset s c ≡ gap_left s c + gap_above s c * s.tv_screen_width
  unfolding black_offset
  black_offset_lem = elim v.touching [
    | inl e ↦ ground (arith, no_gap_above e)
    | inr e ↦ ground (arith, no_gap_above)
  ]

  black_chroma_lem : black_chroma c (black_offset s c) ≡ some (chroma_gap s c)
  unfolding black_chroma
  black_chroma_lem = elim v.touching [
    | inl e ↦ ground (arith, no_gap_above e, black_offset_lem)
    | inr e ↦ ground (arith, no_gap_above, black_offset_lem)
  ]

  pub sections-Seat :
      (player left : ℕ)
      → Seat c player left
      → sections s c player ≡ (
        left + gap_left s c + gap_above s c * s.tv_screen_width,
        area s + left / 2 + chroma_gap s c,
        area s * 5 / 4 + left / 2 + chroma_gap s c,
      )
  unfolding sections
  sections-Seat player left (single m p l) =
      rw (black_chroma_lem, black_offset_lem, m, p, l) (ground arith)
  sections-Seat player left (first m p l) =
      rw (black_chroma_lem, black_offset_lem, m, p, l) (ground arith)
  sections-Seat player left (second m p l) =
      rw (black_chroma_lem, black_offset_lem, m, p, l) (ground arith)
