-- ===== src/Picture/Renew.antt =====
-- The size of the pictures of one or two players, and what is kept from frame to frame.
use rv_receive.Base.{
  ℕ, ◌/◌, ◌%◌, ◌^◌, ◌≤◌, ◌<◌, ◌≡◌, refl, ◌∙◌, ◌⊎◌, inl, inr, arith, length, Bool, true, false, ◌&&◌,
  ◌==◌, Bool-cases,
}
use rv_receive.Base.Int.{pos, eq_ℤ}
use rv_receive.Combine.Copy.{length-copy_to}
use rv_receive.Picture.{
  Float, Screen, Codec, Frame, canvas, fit, get_displayer_resolving_power, blank, renew,
}
use rv_receive.Picture.Place.{IsTv, Fits, Seat, single, first, second}

abbrev pub IsSize : ℕ → Type 0
IsSize n = (0 < n) × (n < 2 ^ 16)

-- What the floats are relied on for: a picture that is wider in proportion than the canvas and is made
-- as wide as it is no higher, and otherwise one that is made as high is no wider.
pub record KeepsRatio (f : Float) : Type 0 where
  pub narrow :
      (w h a b : ℕ)
      → IsSize w
      → IsSize h
      → IsSize a
      → IsSize b
      → f.lt (f.div (f.of_int w) (f.of_int h)) (f.div (f.of_int a) (f.of_int b)) ≡ true
      → f.to_int (f.div (f.of_int w) (f.div (f.of_int a) (f.of_int b))) ≤ h
  pub wide :
      (w h a b : ℕ)
      → IsSize w
      → IsSize h
      → IsSize a
      → IsSize b
      → f.lt (f.div (f.of_int w) (f.of_int h)) (f.div (f.of_int a) (f.of_int b)) ≡ false
      → f.to_int (f.mul (f.of_int h) (f.div (f.of_int a) (f.of_int b))) ≤ w

abbrev pub OneOrTwo : Codec → Type 0
OneOrTwo c = (c.m_num ≡ pos 1) ⊎ (c.m_num ≡ pos 2)

-- What is kept from frame to frame.
pub record Ready (s : Screen) (c : Codec) : Type 0 where
  pub tv : IsTv s
  pub size_w : IsSize s.tv_screen_width
  pub size_h : IsSize s.tv_screen_height
  pub fits : eq_ℤ c.m_num c.old_m_num ≡ true → Fits s c

module _ (f : Float) (laws : KeepsRatio f) (s : Screen) (c : Codec) (tv : IsTv s)
    (sw : IsSize s.tv_screen_width) (sh : IsSize s.tv_screen_height) where
  canvas_lem : OneOrTwo c → (canvas s c).1 ≡ s.tv_screen_height
  unfolding canvas
  canvas_lem (inl m) = rw m
  canvas_lem (inr m) = rw m

  canvas_wide :
      OneOrTwo c
      → ((c.m_num ≡ pos 1) × ((canvas s c).0 ≡ s.tv_screen_width))
        ⊎ ((c.m_num ≡ pos 2) × ((canvas s c).0 ≡ s.tv_screen_width / 2))
  unfolding canvas
  canvas_wide (inl m) = inl (m, rw m)
  canvas_wide (inr m) = inr (m, rw m)

  canvas_even : OneOrTwo c → IsSize (canvas s c).0 × ((canvas s c).0 % 2 ≡ 0)
  canvas_even o = elim (canvas_wide o) [
    | inl (m, e) ↦ omega (arith, e, sw, tv.quarters)
    | inr (m, e) ↦ omega (arith, e, sw, tv.quarters)
  ]

  fit_lem :
      (cw ch mw mh : ℕ)
      → IsSize cw
      → IsSize ch
      → IsSize mw
      → IsSize mh
      → let r = fit f (cw, ch) mw mh in (r.0 ≤ cw) × (r.1 ≤ ch) × ((ch ≡ r.1) ⊎ (cw ≡ r.0))
  unfolding fit
  fit_lem cw ch mw mh a b d e =
      elim (Bool-cases
        (f.lt (f.div (f.of_int cw) (f.of_int ch)) (f.div (f.of_int mw) (f.of_int mh)))) [
          | inl t ↦ rw t (omega arith, laws.narrow cw ch mw mh a b d e t, inr refl)
          | inr t ↦ rw t (laws.wide cw ch mw mh a b d e t, omega arith, inl refl)
        ]

  displayer-Fits :
      (mw mh : ℕ)
      → OneOrTwo c
      → IsSize mw
      → IsSize mh
      → Fits s (get_displayer_resolving_power f s c mw mh)
  unfolding get_displayer_resolving_power
  displayer-Fits mw mh o a b =
      let (w, even) = canvas_even o in
      let high = canvas_lem o in
      let (n, l, t) = fit_lem (canvas s c).0 (canvas s c).1 mw mh w (rw high sh) a b in
      record {
        wide = canvas_wide o;
        high = high;
        narrower = omega (arith, n, even);
        lower = omega (arith, l, high, tv.pairs);
        even_width = omega arith;
        even_height = omega arith;
        touching = elim t [
          | inl e ↦ inl (omega (arith, e, high, tv.pairs))
          | inr e ↦ inr (omega (arith, e, even))
        ];
      }

-- The frame's client is one of the players that are shown.
abbrev pub IsSeated : Codec → ℕ → Type 0
IsSeated c n = ((c.m_num ≡ pos 1) × (n ≡ 1)) ⊎ ((c.m_num ≡ pos 2) × ((n ≡ 1) ⊎ (n ≡ 2)))

pub seated : (c : Codec) (n : ℕ) → IsSeated c n → (left : ℕ) × Seat c n left
seated c n (inl (m, p)) = (0, single m p refl)
seated c n (inr (m, inl p)) = (0, first m p refl)
seated c n (inr (m, inr p)) = (c.tv_canvas_width, second m p refl)

pub one_or_two : (c : Codec) (n : ℕ) → IsSeated c n → OneOrTwo c
one_or_two c n (inl h) = inl h.0
one_or_two c n (inr h) = inr h.0

length-blank : (s : Screen) → length (blank s) ≡ length s.yuv_splicing_buffer
unfolding blank
length-blank s = length-copy_to _ _ _ ∙ length-copy_to _ _ _ ∙ length-copy_to _ _ _

and_left : (a b : Bool) → (a && b) ≡ true → a ≡ true
and_left true b h = refl
and_left false b h = h

-- What the renewed state is good for.
pub record Renewed (s : Screen) (c : Codec) (s' : Screen) (c' : Codec) : Type 0 where
  pub ready : Ready s' c'
  pub fits : Fits s' c'
  pub same_num : c'.m_num ≡ c.m_num
  pub same_id : c'.client_id ≡ c.client_id
  pub same_list : s'.client_player_list ≡ s.client_player_list

pub renew-Renewed :
    (f : Float) (s : Screen) (c : Codec) (frame : Frame)
    → KeepsRatio f
    → Ready s c
    → OneOrTwo c
    → IsSize frame.width
    → IsSize frame.height
    → Renewed s c (renew f s c frame).0 (renew f s c frame).1
unfolding renew
renew-Renewed f s c frame laws ready o w h =
    elim (Bool-cases
      (eq_ℤ c.m_num c.old_m_num && (c.old_src_w == frame.width) && (c.old_src_h == frame.height))) [
        | inl same ↦ rw same (record {
          ready = ready;
          fits = ready.fits (and_left _ _ (and_left _ _ same));
          same_num = refl;
          same_id = refl;
          same_list = refl;
        })
        | inr new ↦ rw new (
            let d =
              displayer-Fits f laws s c ready.tv ready.size_w ready.size_h frame.width frame.height
                o w h in
            let tv' : IsTv (record s { yuv_splicing_buffer = blank s }) = record {
              quarters = ready.tv.quarters;
              pairs = ready.tv.pairs;
              planes = length-blank s ∙ ready.tv.planes;
            } in
            let fits' : Fits (record s { yuv_splicing_buffer = blank s })
                (record (get_displayer_resolving_power f s c frame.width frame.height) {
                  old_m_num = c.m_num;
                  old_src_w = frame.width;
                  old_src_h = frame.height;
                }) =
              record {
                wide = d.wide;
                high = d.high;
                narrower = d.narrower;
                lower = d.lower;
                even_width = d.even_width;
                even_height = d.even_height;
                touching = d.touching;
              } in
            record {
              ready = record {
                tv = tv';
                size_w = ready.size_w;
                size_h = ready.size_h;
                fits = λ e. fits';
              };
              fits = fits';
              same_num = refl;
              same_id = refl;
              same_list = refl;
            })
      ]
