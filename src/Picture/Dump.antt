-- ===== src/Picture/Dump.antt =====
-- A frame from the decoder to the screen (dump_mpp_frame_to_file), for one or two players.
use mathlib.Core.Option
use rv_receive.Base.{ℕ, ◌*◌, ◌/◌, ◌%◌, ◌≡◌, refl, ◌∙◌, length, some, List, ◌++◌}
use rv_receive.Combine.Copy.{length-copy_to}
use rv_receive.Picture.{
  Float, LibYuv, Screen, Codec, Frame, libyuv_scale, scaled_picture, renew, player_id,
  dump_mpp_frame, sections, put_picture,
}
use rv_receive.Picture.Rows.{RowsIn}
use rv_receive.Picture.Place.{Fits, Seat}
use rv_receive.Picture.Shown.{Shown, put_picture-Shown}
use rv_receive.Picture.Planes.{
  KeepsSizes, picture_of, libyuv_scale-joined, Gathered, gather-Gathered,
}
use rv_receive.Picture.Black.{Starts, renew-Starts}
use native.Mathlib.Nat.{mul_comm}
use rv_receive.Picture.Renew.{
  IsSize, KeepsRatio, IsSeated, Ready, seated, one_or_two, renew-Renewed,
}

abbrev pub Allocates : (ℕ → List ℕ) → Type 0
Allocates new_bytes = (n : ℕ) → length (new_bytes n) ≡ n

-- The rows of both planes lie in the frame's buffer.
pub record IsFrame (frame : Frame) (base : List ℕ) : Type 0 where
  pub has_base : frame.base ≡ some base
  pub wide : IsSize frame.width
  pub high : IsSize frame.height
  pub even_width : frame.width % 2 ≡ 0
  pub even_height : frame.height % 2 ≡ 0
  pub luma : RowsIn base 0 frame.h_stride frame.width frame.height
  pub chroma :
      RowsIn base (frame.h_stride * frame.v_stride) frame.h_stride frame.width (frame.height / 2)

-- What a frame leaves: `shown_on` and `codec` are what it starts from, `luma_rows` and `chroma_rows` its
-- rows brought together, and `scaled` is what libyuv makes of these.
pub record Dumped (yuv : LibYuv) (new_bytes : ℕ → List ℕ) (f : Float) (s : Screen) (c : Codec)
    (frame : Frame) (base : List ℕ) : Type 0 where
  pub shown_on : Screen
  pub codec : Codec
  pub left : ℕ
  pub luma_rows : List ℕ
  pub chroma_rows : List ℕ
  pub scaled : List ℕ
  pub screen : List ℕ
  pub done :
      dump_mpp_frame yuv new_bytes f s c frame
      ≡ some (record shown_on { yuv_splicing_buffer = screen }, codec)
  pub starts : Starts s c frame shown_on codec
  pub luma : Gathered base 0 frame.h_stride frame.width frame.height luma_rows
  pub chroma :
      Gathered base
        (frame.h_stride * frame.v_stride)
        frame.h_stride
        frame.width
        (frame.height / 2)
        chroma_rows
  pub is_scaled :
      scaled
      ≡ picture_of yuv frame.width frame.height luma_rows chroma_rows codec.displayer_width
          codec.displayer_height
  pub seat : Seat codec (player_id c.client_id s.client_player_list) left
  pub shown : Shown shown_on codec left scaled screen
  pub ready : Ready (record shown_on { yuv_splicing_buffer = screen }) codec
  pub fits : Fits shown_on codec

module _ (yuv : LibYuv) (new_bytes : ℕ → List ℕ) (alloc : Allocates new_bytes)
    (sizes : KeepsSizes yuv) where
  length-libyuv_scale :
      (src : List ℕ) (w h : ℕ) (dst : List ℕ) (w' h' : ℕ)
      → length (libyuv_scale yuv new_bytes src w h dst w' h') ≡ length dst
  unfolding libyuv_scale
  length-libyuv_scale src w h dst w' h' =
      length-copy_to _ _ _ ∙ length-copy_to _ _ _ ∙ length-copy_to _ _ _

  -- The scaled picture, of the rows that are brought together.
  record MadeFrom (c : Codec) (frame : Frame) (base : List ℕ) : Type 0 where
    luma_rows : List ℕ
    chroma_rows : List ℕ
    scaled : List ℕ
    done : scaled_picture yuv new_bytes c frame base ≡ some scaled
    luma : Gathered base 0 frame.h_stride frame.width frame.height luma_rows
    chroma :
        Gathered base
          (frame.h_stride * frame.v_stride)
          frame.h_stride
          frame.width
          (frame.height / 2)
          chroma_rows
    is_scaled :
        scaled
        ≡ picture_of yuv frame.width frame.height luma_rows chroma_rows c.displayer_width
            c.displayer_height
    same_length : length scaled ≡ c.displayer_width * c.displayer_height * 3 / 2

  scaled_picture-MadeFrom :
      (c : Codec) (frame : Frame) (base : List ℕ)
      → IsFrame frame base
      → c.displayer_width % 2 ≡ 0
      → c.displayer_height % 2 ≡ 0
      → MadeFrom c frame base
  unfolding scaled_picture Option.bind
  scaled_picture-MadeFrom c frame base v even_w even_h =
      let (y, ey, gy) = gather-Gathered base 0 frame.h_stride frame.width frame.height v.luma in
      let (uv, euv, guv) =
        gather-Gathered base (frame.h_stride * frame.v_stride) frame.h_stride frame.width
          (frame.height / 2) v.chroma in
      let dst = new_bytes (c.displayer_width * c.displayer_height * 3 / 2) in
      record {
        luma_rows = y;
        chroma_rows = uv;
        scaled =
            libyuv_scale yuv new_bytes (y ++ uv) frame.width frame.height dst c.displayer_width
              c.displayer_height;
        done = rw (ey, euv) refl;
        luma = gy;
        chroma = guv;
        is_scaled =
            libyuv_scale-joined yuv new_bytes alloc sizes frame.width frame.height c.displayer_width
              c.displayer_height y uv dst v.even_width v.even_height even_w even_h
              (gy.size ∙ mul_comm frame.height frame.width) (alloc _);
        same_length = length-libyuv_scale _ _ _ _ _ _ ∙ alloc _;
      }

  dump_lem :
      (f : Float) (s : Screen) (c : Codec) (frame : Frame) (base scaled screen : List ℕ)
      → let r = renew f s c frame in
        frame.base ≡ some base
        → scaled_picture yuv new_bytes r.1 frame base ≡ some scaled
        → put_picture r.0 r.1
            (sections r.0 r.1 (player_id r.1.client_id r.0.client_player_list))
            scaled
          ≡ some screen
        → dump_mpp_frame yuv new_bytes f s c frame
          ≡ some (record (r.0) { yuv_splicing_buffer = screen }, r.1)
  unfolding dump_mpp_frame Option.bind
  dump_lem f s c frame base scaled screen b e e' = rw (b, e, e') refl

  -- A frame of even size whose rows lie in its buffer, of a client that is the only player or one of two,
  -- on a screen below 2 ^ 16 each way with a width in fours and an even height, with floats that keep
  -- proportions, a libyuv that writes planes of the sizes it is told and an allocator that keeps its
  -- promise: there is no fault. The screen is as it was if the frame's size and the number of players
  -- are those of the client's last frame, and else black. On it, on the player's canvas, stands what
  -- libyuv makes of the frame's rows, its luma and chroma rows one under the other; nothing else of the
  -- screen changes, the picture fits in its canvas, and the state is ready for the next frame.
  pub dump_mpp_frame-Dumped :
      (f : Float) (s : Screen) (c : Codec) (frame : Frame) (base : List ℕ)
      → KeepsRatio f
      → Ready s c
      → IsSeated c (player_id c.client_id s.client_player_list)
      → IsFrame frame base
      → Dumped yuv new_bytes f s c frame base
  dump_mpp_frame-Dumped f s c frame base laws ready seat v =
      let o = one_or_two c _ seat in
      let new = renew-Renewed f s c frame laws ready o v.wide v.high in
      let r = renew f s c frame in
      let (left, here) = seated r.1 _ (rw new.same_num seat) in
      let p = scaled_picture-MadeFrom r.1 frame base v new.fits.even_width new.fits.even_height in
      let (screen, e', shown) =
        put_picture-Shown r.0 r.1 (player_id c.client_id s.client_player_list) left new.ready.tv
          new.fits here p.scaled p.same_length in
      record {
        shown_on = r.0;
        codec = r.1;
        left = left;
        luma_rows = p.luma_rows;
        chroma_rows = p.chroma_rows;
        scaled = p.scaled;
        screen = screen;
        done =
            dump_lem f s c frame base p.scaled screen v.has_base p.done
              (rw (new.same_id, new.same_list) e');
        starts = renew-Starts f s c frame ready.tv;
        luma = p.luma;
        chroma = p.chroma;
        is_scaled = p.is_scaled;
        seat = here;
        shown = shown;
        ready = record {
          tv = record {
            quarters = new.ready.tv.quarters;
            pairs = new.ready.tv.pairs;
            planes = shown.same_length ∙ new.ready.tv.planes;
          };
          size_w = new.ready.size_w;
          size_h = new.ready.size_h;
          fits = λ q.
              let g = new.fits in
              record {
                wide = g.wide;
                high = g.high;
                narrower = g.narrower;
                lower = g.lower;
                even_width = g.even_width;
                even_height = g.even_height;
                touching = g.touching;
              };
        };
        fits = new.fits;
      }
