-- ===== src/Picture/Black.antt =====
-- The black screen that a new size or a new number of players starts with.
use rv_receive.Base.{
  ℕ, zero, suc, ◌+◌, ◌-◌, ◌*◌, ◌/◌, ◌≤◌, ◌<◌, ◌≡◌, refl, ap, ◌∙◌, inl, inr, arith, length, get_or,
  List, replicate, length-replicate, Bool, true, false, ◌&&◌, ◌==◌, ltb, Bool-cases,
}
use rv_receive.Combine.{copy_to}
use rv_receive.Combine.Copy.{length-copy_to, get_or-copy_to_before, get_or-copy_to_in}
use rv_receive.Picture.{
  Float, Screen, Codec, Frame, area, blank, get_displayer_resolving_power, renew,
}
use rv_receive.Base.Int.{ℤ, pos, negsuc, eq_ℤ}
use rv_receive.Picture.Place.{IsTv}
use rv_receive.Picture.Bounds.{quarter_mul}

-- All luma is 0, and all chroma, of both planes, is 128.
pub record IsBlack (s : Screen) (b : List ℕ) : Type 0 where
  pub same_length : length b ≡ length s.yuv_splicing_buffer
  pub luma : (i : ℕ) → i < area s → get_or b i 0 ≡ 0
  pub chroma : (i : ℕ) → area s ≤ i → i < area s + area s / 2 → get_or b i 0 ≡ 128

get_or-replicate : (n b i : ℕ) → i < n → get_or (replicate n b) i 0 ≡ b
get_or-replicate zero b i h = elim h [ ]
get_or-replicate (suc n) b zero h = refl
get_or-replicate (suc n) b (suc i) h = get_or-replicate n b i (omega arith)

-- `memset` sets each byte of its part.
get_or-memset :
    (buf : List ℕ) (at n b i : ℕ)
    → at + n ≤ length buf
    → at ≤ i
    → i < at + n
    → get_or (copy_to buf at (replicate n b)) i 0 ≡ b
get_or-memset buf at n b i l h q =
    let len = length-replicate n b in
    ap (λ t. get_or (copy_to buf at (replicate n b)) t 0) {x = i} {y = at + (i - at)} (omega arith)
    ∙ get_or-copy_to_in buf at (replicate n b) (i - at) (omega (arith, len)) (omega (arith, len))
    ∙ get_or-replicate n b (i - at) (omega arith)

module _ (s : Screen) (tv : IsTv s) where
  abbrev dark : List ℕ
  dark = copy_to s.yuv_splicing_buffer 0 (replicate (area s) 0)

  abbrev grey_u : List ℕ
  grey_u = copy_to dark (area s) (replicate (area s / 4) 128)

  length-dark : length dark ≡ area s + area s / 2
  length-dark = length-copy_to _ _ _ ∙ tv.planes

  length-grey_u : length grey_u ≡ area s + area s / 2
  length-grey_u = length-copy_to _ _ _ ∙ length-dark

  fours : area s ≡ 4 * (area s / 4)
  fours = omega (arith, quarter_mul s.tv_screen_height s.tv_screen_width tv.quarters)

  pub blank-IsBlack : IsBlack s (blank s)
  unfolding blank
  blank-IsBlack = record {
    same_length = length-copy_to _ _ _ ∙ length-copy_to _ _ _ ∙ length-copy_to _ _ _;
    luma = λ i h.
        get_or-copy_to_before grey_u (area s * 5 / 4) (replicate (area s / 4) 128) i (omega arith)
        ∙ get_or-copy_to_before dark (area s) (replicate (area s / 4) 128) i h
        ∙ get_or-memset s.yuv_splicing_buffer 0 (area s) 0 i (omega (arith, tv.planes))
            (omega arith) (omega arith);
    chroma = λ i h l. elim (Bool-cases (ltb i (area s * 5 / 4))) [
      | inl first ↦
          get_or-copy_to_before grey_u (area s * 5 / 4) (replicate (area s / 4) 128) i
            (ground (arith, first))
          ∙ get_or-memset dark (area s) (area s / 4) 128 i (omega (arith, length-dark)) h
              (ground (arith, first, fours))
      | inr second ↦
          get_or-memset grey_u (area s * 5 / 4) (area s / 4) 128 i
            (omega (arith, length-grey_u, fours)) (ground (arith, second)) (omega (arith, l, fours))
    ];
  }

-- The client's last picture had this size, and as many players.
abbrev pub is_same : Codec → Frame → Bool
is_same c frame =
    eq_ℤ c.m_num c.old_m_num && (c.old_src_w == frame.width) && (c.old_src_h == frame.height)

-- The screen and the codec that a frame is put on: as they were, or a black screen, and a codec that
-- knows of the frame's size and the number of players.
pub record Starts (s : Screen) (c : Codec) (frame : Frame) (s' : Screen) (c' : Codec) : Type 0 where
  pub kept : is_same c frame ≡ true → (s' ≡ s) × (c' ≡ c)
  pub black : is_same c frame ≡ false → IsBlack s s'.yuv_splicing_buffer
  pub same_screen : s' ≡ record s { yuv_splicing_buffer = s'.yuv_splicing_buffer }
  pub same_client : c'.client_id ≡ c.client_id
  pub same_num : c'.m_num ≡ c.m_num
  pub knows : is_same c' frame ≡ true

eq_self : (m : ℤ) → eq_ℤ m m ≡ true
eq_self (pos n) = ground arith
eq_self (negsuc n) = ground arith

num_self : (n : ℕ) → (n == n) ≡ true
num_self n = ground arith

not_both : {A : Type 0} {b : Bool} → b ≡ true → b ≡ false → A
not_both p q = absurd (cc)

pub renew-Starts :
    (f : Float) (s : Screen) (c : Codec) (frame : Frame)
    → IsTv s
    → Starts s c frame (renew f s c frame).0 (renew f s c frame).1
unfolding renew get_displayer_resolving_power
renew-Starts f s c frame tv = elim (Bool-cases (is_same c frame)) [
  | inl same ↦ rw same (record {
    kept = λ e. (refl, refl);
    black = λ e. not_both same e;
    same_screen = refl;
    same_client = refl;
    same_num = refl;
    knows = same;
  })
  | inr new ↦ rw new (record {
    kept = λ e. not_both e new;
    black = λ e. blank-IsBlack s tv;
    same_screen = refl;
    same_client = refl;
    same_num = refl;
    knows = rw (eq_self c.m_num, num_self frame.width, num_self frame.height) refl;
  })
]
