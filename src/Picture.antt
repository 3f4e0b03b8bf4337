-- ===== src/Picture.antt =====
-- mpp/mpp_decoder_h264.cpp: where the picture of a client goes on the screen that all clients share.
-- A decoded frame is brought together row by row, scaled and copied into the splicing buffer of the
-- server (Tcp), three planes one behind the other. Floats and libyuv are parameters; memory that
-- `malloc` hands back is `new_bytes`. A read or write outside a buffer is `none`.
pub mod Rows
pub mod Place
pub mod Bounds
pub mod Shown
pub mod Apart
pub mod Misplaced
pub mod Renew
pub mod Planes
pub mod Black
pub mod Dump
mod Tests
use mathlib.Core.Option
use rv_receive.Base.{
  ℕ, zero, suc, ◌+◌, ◌-◌, ◌*◌, ◌/◌, ◌%◌, Bool, true, false, not, ◌&&◌, ◌||◌, Option, none, some,
  List, [], ◌∷◌, ◌++◌, leb, ◌==◌, if◌then◌else◌, length, take, drop, replicate,
}
use rv_receive.Base.Int.{ℤ, eq_ℤ, is_num}
use rv_receive.Combine.{copy_to}

-- `float`, with the conversions from and to `int`.
pub record Float : Type 1 where
  pub Num : Type 0
  pub of_int : ℕ → Num
  pub to_int : Num → ℕ
  pub div : Num → Num → Num
  pub mul : Num → Num → Num
  pub lt : Num → Num → Bool

-- The two functions of libyuv that are called, from planes to planes.
pub record LibYuv : Type 0 where
  pub nv12_to_i420 : ℕ → ℕ → List ℕ → List ℕ → List ℕ × List ℕ × List ℕ
  pub i420_scale : ℕ → ℕ → List ℕ → List ℕ → List ℕ → ℕ → ℕ → List ℕ × List ℕ × List ℕ

-- What the clients share of `Tcp`.
pub record Screen : Type 0 where
  pub tv_screen_width : ℕ
  pub tv_screen_height : ℕ
  pub yuv_splicing_buffer : List ℕ
  pub client_player_list : List ℕ

pub record Codec : Type 0 where
  pub client_id : ℕ
  pub m_num : ℤ
  pub old_m_num : ℤ
  pub old_src_w : ℕ
  pub old_src_h : ℕ
  pub displayer_width : ℕ
  pub displayer_height : ℕ
  pub tv_canvas_width : ℕ
  pub tv_canvas_height : ℕ

-- What the decoder hands over; `base` is the bytes of the frame's buffer, if it has one.
pub record Frame : Type 0 where
  pub width : ℕ
  pub height : ℕ
  pub h_stride : ℕ
  pub v_stride : ℕ
  pub base : Option (List ℕ)

-- `memmove` between two buffers.
abbrev pub move : List ℕ → List ℕ → ℕ → ℕ → ℕ → Option (List ℕ)
move res pre at from size =
    if leb (at + size) (length res) && leb (from + size) (length pre)
    then some (copy_to res at (take size (drop from pre)))
    else none

-- `ReadYUV`: row after row, each one `res_offset` behind the last in one and `pre_offset` in the other.
unfoldable pub read_yuv : List ℕ → List ℕ → ℕ → ℕ → ℕ → ℕ → ℕ → ℕ → Option (List ℕ)
read_yuv res pre res_start pre_start res_offset pre_offset size zero = some res
read_yuv res pre res_start pre_start res_offset pre_offset size (suc height) =
    Option.bind (move res pre res_start pre_start size) (λ r.
      read_yuv r pre (res_start + res_offset) (pre_start + pre_offset) res_offset pre_offset size
        height)

-- `TVCanvaswidth` and `TVCanvasheight`, by the number of players.
unfoldable pub canvas : Screen → Codec → ℕ × ℕ
canvas s c =
    if is_num c.m_num 1
    then (s.tv_screen_width, s.tv_screen_height)
    else if is_num c.m_num 2
    then (s.tv_screen_width / 2, s.tv_screen_height)
    else if is_num c.m_num 3 || is_num c.m_num 4
    then (s.tv_screen_width / 2, s.tv_screen_height / 2)
    else (c.tv_canvas_width, c.tv_canvas_height)

-- `(n + 1) & ~0x01`.
abbrev pub to_even : ℕ → ℕ
to_even n = (n + 1) - (n + 1) % 2

abbrev pub area : Screen → ℕ
area s = s.tv_screen_width * s.tv_screen_height

-- `memset` of the three planes, which lie in the buffer that `Tcp` makes: a black screen.
unfoldable pub blank : Screen → List ℕ
blank s =
    let black = copy_to s.yuv_splicing_buffer 0 (replicate (area s) 0) in
    let grey_u = copy_to black (area s) (replicate (area s / 4) 128) in
    copy_to grey_u (area s * 5 / 4) (replicate (area s / 4) 128)

module _ (f : Float) where
  open f use {of_int, to_int, div, mul, lt}

  -- The size of a picture that keeps the proportions and fits in the canvas.
  unfoldable pub fit : ℕ × ℕ → ℕ → ℕ → ℕ × ℕ
  fit tv mirror_width mirror_height =
      let scale_mirror = div (of_int mirror_width) (of_int mirror_height) in
      if lt (div (of_int tv.0) (of_int tv.1)) scale_mirror
      then (tv.0, to_int (div (of_int tv.0) scale_mirror))
      else (to_int (mul (of_int tv.1) scale_mirror), tv.1)

  unfoldable pub get_displayer_resolving_power : Screen → Codec → ℕ → ℕ → Codec
  unfolding canvas fit
  get_displayer_resolving_power s c mirror_width mirror_height =
      let tv = canvas s c in
      let size = fit tv mirror_width mirror_height in
      record c {
        tv_canvas_width = tv.0;
        tv_canvas_height = tv.1;
        displayer_width = to_even size.0;
        displayer_height = to_even size.1;
      }

  -- The numbers of players and pixels that the last picture had, and what follows on a change.
  unfoldable pub renew : Screen → Codec → Frame → Screen × Codec
  unfolding get_displayer_resolving_power blank
  renew s c frame =
      if eq_ℤ c.m_num c.old_m_num && (c.old_src_w == frame.width) && (c.old_src_h == frame.height)
      then (s, c)
      else (
        record s { yuv_splicing_buffer = blank s },
        record (get_displayer_resolving_power s c frame.width frame.height) {
          old_m_num = c.m_num;
          old_src_w = frame.width;
          old_src_h = frame.height;
        },
      )

-- The position in the list of players, from 1 on; for a client that is not in it, its length.
unfoldable pub player_id : ℕ → List ℕ → ℕ
player_id id [] = 0
player_id id (x ∷ xs) = if x == id then 1 else suc (player_id id xs)

-- `blackoffset`. A picture is at most one wider or higher than its canvas, where C has -1 / 2 = 0.
unfoldable pub black_offset : Screen → Codec → ℕ
black_offset s c =
    if c.tv_canvas_height == c.displayer_height
    then (c.tv_canvas_width - c.displayer_width) / 2
    else if c.tv_canvas_width == c.displayer_width
    then (c.tv_canvas_height - c.displayer_height) / 2 * s.tv_screen_width
    else 0

-- The chroma's part of the offset.
unfoldable pub black_chroma : Codec → ℕ → Option ℕ
black_chroma c black =
    if c.tv_canvas_height == c.displayer_height
    then some (black / 2)
    else if c.tv_canvas_width == c.displayer_width
    then some (black / 4)
    else none

abbrev pub or_zero : Option ℕ → ℕ
or_zero none = 0
or_zero (some n) = n

-- `Y_start_section`, `U_start_section` and `V_start_section`.
unfoldable pub sections : Screen → Codec → ℕ → ℕ × ℕ × ℕ
sections s c player =
    let black = black_offset s c in
    let chroma =
      λ (left : ℕ). or_zero (Option.map (λ b. area s + left + b) (black_chroma c black)) in
    let chroma_v =
      λ (left : ℕ). or_zero (Option.map (λ b. area s * 5 / 4 + left + b) (black_chroma c black)) in
    if (is_num c.m_num 1 || is_num c.m_num 2) && (player == 1)
    then (black, chroma 0, chroma_v 0)
    else if is_num c.m_num 2 && (player == 2)
    then (
      c.tv_canvas_width + black,
      chroma (c.tv_canvas_width / 2),
      chroma_v (c.tv_canvas_width / 2),
    )
    else (0, 0, 0)

-- The three planes of a picture go to their sections.
unfoldable pub put_picture : Screen → Codec → ℕ × ℕ × ℕ → List ℕ → Option (List ℕ)
unfolding read_yuv
put_picture s c at scaled =
    let w = c.displayer_width in
    let h = c.displayer_height in
    let row = s.tv_screen_width in
    Option.bind (read_yuv s.yuv_splicing_buffer scaled at.0 0 row w w h) (λ y.
      Option.bind (read_yuv y scaled at.1 (w * h) (row / 2) (w / 2) (w / 2) (h / 2))
        (λ u. read_yuv u scaled at.2 (w * h * 5 / 4) (row / 2) (w / 2) (w / 2) (h / 2)))

-- `height` rows of `width` bytes, `stride` apart from `at` on.
unfoldable pub gather : List ℕ → ℕ → ℕ → ℕ → ℕ → Option (List ℕ)
gather base at stride width zero = some []
gather base at stride width (suc height) =
    let rest = gather base (at + stride) stride width height in
    if leb (at + width) (length base)
    then Option.map (λ bs. take width (drop at base) ++ bs) rest
    else none

module _ (yuv : LibYuv) (new_bytes : ℕ → List ℕ) where
  abbrev pub planes_at : List ℕ → ℕ → List ℕ × List ℕ × List ℕ → List ℕ
  planes_at buf n p = copy_to (copy_to (copy_to buf 0 p.0) n p.1) (n * 5 / 4) p.2

  -- `libyuv_scale`.
  unfoldable pub libyuv_scale : List ℕ → ℕ → ℕ → List ℕ → ℕ → ℕ → List ℕ
  libyuv_scale src src_w src_h dst dst_w dst_h =
      let n = src_w * src_h in
      let i420 =
        planes_at (new_bytes (n * 3 / 2)) n (yuv.nv12_to_i420 src_w src_h src (drop n src)) in
      planes_at dst (dst_w * dst_h)
        (yuv.i420_scale src_w src_h i420 (drop n i420) (drop (n * 5 / 4) i420) dst_w dst_h)

  -- The rows of both planes of the frame, and the scaled picture.
  unfoldable pub scaled_picture : Codec → Frame → List ℕ → Option (List ℕ)
  unfolding gather libyuv_scale
  scaled_picture c frame base =
      Option.bind (gather base 0 frame.h_stride frame.width frame.height) (λ y.
        Option.map
          (λ uv.
            libyuv_scale (y ++ uv) frame.width frame.height
              (new_bytes (c.displayer_width * c.displayer_height * 3 / 2)) c.displayer_width
              c.displayer_height)
          (gather base (frame.h_stride * frame.v_stride) frame.h_stride frame.width
            (frame.height / 2)))

  -- `dump_mpp_frame_to_file`, with the file open: the screen is what is written to it.
  unfoldable pub dump_mpp_frame : Float → Screen → Codec → Frame → Option (Screen × Codec)
  unfolding renew scaled_picture put_picture
  dump_mpp_frame f s c frame = elim frame.base [
    | none ↦ some (s, c)
    | some base ↦
        let r = renew f s c frame in
        Option.bind (scaled_picture r.1 frame base) (λ scaled.
          Option.map (λ screen. (record (r.0) { yuv_splicing_buffer = screen }, r.1))
            (put_picture r.0 r.1 (sections r.0 r.1 (player_id r.1.client_id r.0.client_player_list))
              scaled))
  ]
