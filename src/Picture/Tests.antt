-- ===== src/Picture/Tests.antt =====
-- A small screen with two players, exact fractions for floats, and the theorems at them.
use mathlib.Core.Option
use rv_receive.Combine.{copy_to}
use native.Mathlib.Nat.{div-le_of_le-mul}
use rv_receive.Base.{
  ℕ, ◌+◌, ◌*◌, ◌/◌, ◌<◌, ◌≡◌, refl, inl, inr, arith, some, List, [], ◌∷◌, ltb, ltb→lt, not-ltb→le,
  length, take, length-replicate, length-append, length-take, ◌++◌, replicate, get_or,
}
use rv_receive.Base.Int.{pos}
use rv_receive.Picture.{
  Float, LibYuv, Screen, Codec, Frame, area, sections, put_picture, read_yuv, player_id,
}
use rv_receive.Picture.Place.{IsTv, Fits, second}
use rv_receive.Picture.Apart.{Spared, put_picture-Spared}
use rv_receive.Picture.Misplaced.{put_picture_odd, put_picture_quarters}
use rv_receive.Picture.Planes.{KeepsSizes}
use rv_receive.Picture.Renew.{KeepsRatio, Ready}
use rv_receive.Picture.Dump.{IsFrame, Dumped, dump_mpp_frame-Dumped}

-- Fractions, as a numerator and a denominator.
abbrev fractions : Float
fractions = record {
  Num = ℕ × ℕ;
  of_int = λ n. (n, 1);
  to_int = λ p. p.0 / p.1;
  div = λ p q. (p.0 * q.1, p.1 * q.0);
  mul = λ p q. (p.0 * q.0, p.1 * q.1);
  lt = λ p q. ltb (p.0 * q.1) (q.0 * p.1);
}

fractions-KeepsRatio : KeepsRatio fractions
fractions-KeepsRatio = record {
  narrow = λ w h a b _ _ _ _ e.
      div-le_of_le-mul (1 * (a * 1)) (omega (arith, ltb→lt (w * 1 * (1 * b)) (a * 1 * (1 * h)) e));
  wide = λ w h a b _ _ _ _ e.
      div-le_of_le-mul (1 * (1 * b))
        (omega (arith, not-ltb→le (w * 1 * (1 * b)) (a * 1 * (1 * h)) e));
}

-- The first bytes, or zeros where there are none.
abbrev padded : ℕ → List ℕ → List ℕ
padded n bs = take n (bs ++ replicate n 0)

length-padded : (n : ℕ) (bs : List ℕ) → length (padded n bs) ≡ n
length-padded n bs =
    length-take n (bs ++ replicate n 0)
      (omega (arith, length-append bs (replicate n 0), length-replicate {A = ℕ} n 0))

abbrev lib_yuv : LibYuv
lib_yuv = record {
  nv12_to_i420 = λ w h y uv. (padded (w * h) y, padded (w * h / 4) uv, padded (w * h / 4) uv);
  i420_scale =
      λ w h y u v w' h'. (padded (w' * h') y, padded (w' * h' / 4) u, padded (w' * h' / 4) v);
}

lib_yuv-KeepsSizes : KeepsSizes lib_yuv
lib_yuv-KeepsSizes = record {
  nv12 = λ w h y uv.
      (length-padded (w * h) y, length-padded (w * h / 4) uv, length-padded (w * h / 4) uv);
  scale = λ w h y u v w' h'.
      (length-padded (w' * h') y, length-padded (w' * h' / 4) u, length-padded (w' * h' / 4) v);
}

abbrev new_bytes : ℕ → List ℕ
new_bytes n = replicate n 0

length-new_bytes : (n : ℕ) → length (new_bytes n) ≡ n
length-new_bytes n = length-replicate n 0

abbrev screen : Screen
screen = record {
  tv_screen_width = 8;
  tv_screen_height = 6;
  yuv_splicing_buffer = replicate 72 7;
  client_player_list = 4 ∷ 5 ∷ [];
}

-- The second of two players, before its first picture.
abbrev codec : Codec
codec = record {
  client_id = 5;
  m_num = pos 2;
  old_m_num = pos 0;
  old_src_w = 0;
  old_src_h = 0;
  displayer_width = 0;
  displayer_height = 0;
  tv_canvas_width = 0;
  tv_canvas_height = 0;
}

-- The same with a picture of 4 times 4, below one line of black.
abbrev set_codec : Codec
set_codec = record codec {
  displayer_width = 4;
  displayer_height = 4;
  tv_canvas_width = 4;
  tv_canvas_height = 6;
}

-- A picture that is narrower than the canvas.
abbrev narrow_codec : Codec
narrow_codec = record set_codec { displayer_width = 2; displayer_height = 6 }

abbrev frame : Frame
frame = record { width = 4; height = 4; h_stride = 5; v_stride = 4; base = some (replicate 30 9) }

screen-IsTv : IsTv screen
screen-IsTv = record { quarters = refl; pairs = refl; planes = refl }

set_codec-Fits : Fits screen set_codec
set_codec-Fits = record {
  wide = inr (refl, refl);
  high = refl;
  narrower = omega arith;
  lower = omega arith;
  even_width = refl;
  even_height = refl;
  touching = inr refl;
}

narrow_codec-Fits : Fits screen narrow_codec
narrow_codec-Fits = record {
  wide = inr (refl, refl);
  high = refl;
  narrower = omega arith;
  lower = omega arith;
  even_width = refl;
  even_height = refl;
  touching = inl refl;
}

codec-Ready : Ready screen codec
codec-Ready = record {
  tv = screen-IsTv;
  size_w = omega arith;
  size_h = omega arith;
  fits = λ e. absurd (cc);
}

frame-IsFrame : IsFrame frame (replicate 30 9)
frame-IsFrame = record {
  has_base = refl;
  wide = omega arith;
  high = omega arith;
  even_width = refl;
  even_height = refl;
  luma = λ k h. omega arith;
  chroma = λ k h. omega arith;
}

second_player : player_id 5 (4 ∷ 5 ∷ []) ≡ 2
unfolding player_id
second_player = refl

dump_mpp_frame-Dumped_example :
    Dumped lib_yuv new_bytes fractions screen codec frame (replicate 30 9)
dump_mpp_frame-Dumped_example =
    dump_mpp_frame-Dumped lib_yuv new_bytes length-new_bytes lib_yuv-KeepsSizes fractions screen
      codec frame (replicate 30 9) fractions-KeepsRatio codec-Ready (inr (refl, inr second_player))
      frame-IsFrame

put_picture-Spared_example :
    (r : List ℕ) × (put_picture screen narrow_codec
        (sections screen narrow_codec 2)
        (replicate 18 9)
      ≡ some r)
    × Spared screen narrow_codec 4 r
put_picture-Spared_example =
    put_picture-Spared screen narrow_codec 2 4 screen-IsTv narrow_codec-Fits (second refl refl refl)
      (replicate 18 9) refl refl

put_picture_odd_example :
    (r : List ℕ) × (put_picture screen set_codec (sections screen set_codec 1) (replicate 24 9)
      ≡ some r)
    × ((j : ℕ)
        → j < 2
        → get_or r (area screen + 0 * 4 + 2 + j) 0 ≡ get_or (replicate 24 9) (16 + j) 0)
put_picture_odd_example =
    put_picture_odd screen set_codec (replicate 24 9) screen-IsTv set_codec-Fits refl refl refl
      (omega arith) refl

abbrev quarter_codec : Codec
quarter_codec = record codec { m_num = pos 4; displayer_width = 4; displayer_height = 2 }

put_picture_quarters_example :
    (r : List ℕ) × (put_picture screen quarter_codec
        (sections screen quarter_codec 3)
        (replicate 12 9)
      ≡ some r)
    × ((k j : ℕ)
        → k < 1
        → j < 2
        → get_or r (k * 4 + j) 0 ≡ get_or (replicate 12 9) (10 + k * 2 + j) 0)
put_picture_quarters_example =
    put_picture_quarters screen quarter_codec 3 (replicate 12 9) screen-IsTv (inr refl)
      (omega arith) (omega arith) refl refl refl

-- Rows of two bytes go three bytes apart.
rows_test :
    read_yuv (replicate 8 0) (1 ∷ 2 ∷ 3 ∷ 4 ∷ []) 1 0 3 2 2 2
    ≡ some (0 ∷ 1 ∷ 2 ∷ 0 ∷ 3 ∷ 4 ∷ 0 ∷ 0 ∷ [])
unfolding read_yuv Option.bind copy_to
rows_test = refl
