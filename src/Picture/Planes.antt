-- ===== src/Picture/Planes.antt =====
-- The three planes of a picture, as `libyuv_scale` leaves them one behind the other.
use mathlib.Core.Path.{ap₂}
use rv_receive.Base.{
  ℕ, zero, suc, ◌+◌, ◌*◌, ◌/◌, ◌%◌, ◌≤◌, ◌<◌, ◌≡◌, refl, sym, ap, ◌∙◌, some, List, [], ◌∷◌, ◌++◌,
  append-nil, append_assoc, arith, le→leb, length, length-append, get_or, set, take, drop,
  length-take, length-drop, drop-append,
}
use rv_receive.Combine.{copy_to}
use rv_receive.Combine.Copy.{get_or-take, get_or-drop}
use rv_receive.Picture.{LibYuv, gather, planes_at, libyuv_scale}
use rv_receive.Picture.Rows.{RowsIn, next_row}

set-append :
    (pre : List ℕ) (y b : ℕ) (ys : List ℕ)
    → set (pre ++ (y ∷ ys)) (length pre) b ≡ (pre ++ (b ∷ [])) ++ ys
set-append [] y b ys = refl
set-append (x ∷ pre) y b ys = ap (◌∷◌ x) (set-append pre y b ys)

copy_to-append :
    (bs ys pre : List ℕ)
    → length bs ≤ length ys
    → copy_to (pre ++ ys) (length pre) bs ≡ pre ++ (bs ++ drop (length bs) ys)
unfolding copy_to
copy_to-append [] ys pre h = refl
copy_to-append (b ∷ bs) [] pre h = elim h [ ]
copy_to-append (b ∷ bs) (y ∷ ys) pre h =
    let one_on : length pre + 1 ≡ length (pre ++ (b ∷ [])) =
      omega (arith, length-append pre (b ∷ [])) in
    ap₂ (λ t i. copy_to t i bs) (set-append pre y b ys) one_on
    ∙ copy_to-append bs ys (pre ++ (b ∷ [])) (omega arith)
    ∙ append_assoc pre (b ∷ []) (bs ++ drop (length bs) ys)

empty : (xs : List ℕ) → length xs ≡ 0 → xs ≡ []
empty [] e = refl
empty (x ∷ xs) e = absurd (omega arith)

-- Planes of `n`, `q` and `q` bytes in a buffer of this size.
planes-joined :
    (yuv : LibYuv) (new_bytes : ℕ → List ℕ) (buf : List ℕ) (n q : ℕ) (p : List ℕ × List ℕ × List ℕ)
    → length p.0 ≡ n
    → length p.1 ≡ q
    → length p.2 ≡ q
    → n ≡ 4 * q
    → length buf ≡ n + (q + q)
    → planes_at yuv new_bytes buf n p ≡ p.0 ++ (p.1 ++ p.2)
planes-joined yuv new_bytes buf n q p l₀ l₁ l₂ four l =
    let r₁ = drop (length p.0) buf in
    let r₂ = drop (length p.1) r₁ in
    let len₁ = length-drop (length p.0) buf in
    let len₂ = length-drop (length p.1) r₁ in
    let first : copy_to buf 0 p.0 ≡ p.0 ++ r₁ = copy_to-append p.0 buf [] (omega (arith, l, l₀)) in
    let second : copy_to (p.0 ++ r₁) n p.1 ≡ p.0 ++ (p.1 ++ r₂) =
      ap (λ i. copy_to (p.0 ++ r₁) i p.1) (sym l₀)
      ∙ copy_to-append p.1 r₁ p.0 (omega (arith, l, l₀, l₁, len₁)) in
    let both : n * 5 / 4 ≡ length (p.0 ++ p.1) =
      omega (arith, four, l₀, l₁, length-append p.0 p.1) in
    let third : copy_to (p.0 ++ (p.1 ++ r₂)) (n * 5 / 4) p.2
        ≡ (p.0 ++ p.1) ++ (p.2 ++ drop (length p.2) r₂) =
      ap₂ (λ t i. copy_to t i p.2) (sym (append_assoc p.0 p.1 r₂)) both
      ∙ copy_to-append p.2 r₂ (p.0 ++ p.1) (omega (arith, l, l₀, l₁, l₂, len₁, len₂)) in
    ap (λ t. copy_to (copy_to t n p.1) (n * 5 / 4) p.2) first
    ∙ ap (λ t. copy_to t (n * 5 / 4) p.2) second
    ∙ third
    ∙ ap (λ t. (p.0 ++ p.1) ++ (p.2 ++ t))
        (empty (drop (length p.2) r₂)
          (omega (arith, l, l₀, l₁, l₂, len₁, len₂, length-drop (length p.2) r₂)))
    ∙ ap (λ t. (p.0 ++ p.1) ++ t) (append-nil p.2)
    ∙ append_assoc p.0 p.1 p.2

-- Planes of a picture of `w` times `h`: a byte for each pixel, and one in four twice.
abbrev pub ArePlanes : ℕ → ℕ → List ℕ × List ℕ × List ℕ → Type 0
ArePlanes w h p = (length p.0 ≡ w * h) × (length p.1 ≡ w * h / 4) × (length p.2 ≡ w * h / 4)

-- What libyuv is relied on for: it writes planes of the size that it is told.
pub record KeepsSizes (yuv : LibYuv) : Type 0 where
  pub nv12 : (w h : ℕ) (y uv : List ℕ) → ArePlanes w h (yuv.nv12_to_i420 w h y uv)
  pub scale :
      (w h : ℕ) (y u v : List ℕ) (w' h' : ℕ) → ArePlanes w' h' (yuv.i420_scale w h y u v w' h')

-- The picture that libyuv makes of a plane of luma and one of chroma.
abbrev pub picture_of : LibYuv → ℕ → ℕ → List ℕ → List ℕ → ℕ → ℕ → List ℕ
picture_of yuv w h y uv w' h' =
    let p = yuv.nv12_to_i420 w h (y ++ uv) uv in
    let q = yuv.i420_scale w h (p.0 ++ (p.1 ++ p.2)) (p.1 ++ p.2) p.2 w' h' in q.0 ++ (q.1 ++ q.2)

pub even_area : (w h : ℕ) → w % 2 ≡ 0 → h % 2 ≡ 0 → w * h ≡ 4 * (w * h / 4)
even_area w h e f =
    let w_even : w ≡ w / 2 * 2 = omega (arith, e) in
    let h_even : h ≡ h / 2 * 2 = omega (arith, f) in
    let twice : w * h ≡ 4 * (w / 2 * (h / 2)) = ap₂ (λ a b. a * b) w_even h_even ∙ grind arith in
    omega (arith, twice)

drop_first : (xs ys : List ℕ) (n : ℕ) → length xs ≡ n → drop n (xs ++ ys) ≡ ys
drop_first xs ys n l = ap (λ k. drop k (xs ++ ys)) (sym l) ∙ drop-append xs ys

module _ (yuv : LibYuv) (new_bytes : ℕ → List ℕ) (alloc : (n : ℕ) → length (new_bytes n) ≡ n)
    (sizes : KeepsSizes yuv) where
  pub libyuv_scale-joined :
      (w h w' h' : ℕ) (y uv dst : List ℕ)
      → w % 2 ≡ 0
      → h % 2 ≡ 0
      → w' % 2 ≡ 0
      → h' % 2 ≡ 0
      → length y ≡ w * h
      → length dst ≡ w' * h' * 3 / 2
      → libyuv_scale yuv new_bytes (y ++ uv) w h dst w' h' ≡ picture_of yuv w h y uv w' h'
  unfolding libyuv_scale
  libyuv_scale-joined w h w' h' y uv dst e f e' f' ly ld =
      let n = w * h in
      let q = w * h / 4 in
      let four = even_area w h e f in
      let four' = even_area w' h' e' f' in
      let p = yuv.nv12_to_i420 w h (y ++ uv) uv in
      let s = sizes.nv12 w h (y ++ uv) uv in
      let src : drop n (y ++ uv) ≡ uv = drop_first y uv n ly in
      let i420 : planes_at yuv new_bytes (new_bytes (n * 3 / 2)) n p ≡ p.0 ++ (p.1 ++ p.2) =
        planes-joined yuv new_bytes (new_bytes (n * 3 / 2)) n q p s.0 s.1 s.2 four
          (omega (arith, alloc (n * 3 / 2), four)) in
      let us : drop n (p.0 ++ (p.1 ++ p.2)) ≡ p.1 ++ p.2 = drop_first p.0 (p.1 ++ p.2) n s.0 in
      let vs : drop (n * 5 / 4) (p.0 ++ (p.1 ++ p.2)) ≡ p.2 =
        ap (drop (n * 5 / 4)) (sym (append_assoc p.0 p.1 p.2))
        ∙ drop_first (p.0 ++ p.1) p.2 (n * 5 / 4)
            (omega (arith, four, s.0, s.1, length-append p.0 p.1)) in
      let r = yuv.i420_scale w h (p.0 ++ (p.1 ++ p.2)) (p.1 ++ p.2) p.2 w' h' in
      let t = sizes.scale w h (p.0 ++ (p.1 ++ p.2)) (p.1 ++ p.2) p.2 w' h' in
      rw (src, i420, us, vs)
        (planes-joined yuv new_bytes dst (w' * h') (w' * h' / 4) r t.0 t.1 t.2 four'
          (omega (arith, ld, four')))

-- `n` rows of `width` bytes each, brought together from `base`, where they are `stride` apart.
pub record Gathered (base : List ℕ) (at stride width n : ℕ) (bs : List ℕ) : Type 0 where
  pub size : length bs ≡ n * width
  pub byte :
      (k j : ℕ)
      → k < n
      → j < width
      → get_or bs (k * width + j) 0 ≡ get_or base (at + k * stride + j) 0

get_or-append_in : (xs ys : List ℕ) (j : ℕ) → j < length xs → get_or (xs ++ ys) j 0 ≡ get_or xs j 0
get_or-append_in [] ys j h = elim h [ ]
get_or-append_in (x ∷ xs) ys zero h = refl
get_or-append_in (x ∷ xs) ys (suc j) h = get_or-append_in xs ys j (omega arith)

get_or-append_behind :
    (xs ys : List ℕ) (j : ℕ) → get_or (xs ++ ys) (length xs + j) 0 ≡ get_or ys j 0
get_or-append_behind xs ys j =
    sym (get_or-drop (length xs) (xs ++ ys) j) ∙ ap (λ t. get_or t j 0) (drop-append xs ys)

first_row :
    (base : List ℕ) (at width : ℕ)
    → at + width ≤ length base
    → (j : ℕ) → j < width
    → get_or (take width (drop at base)) j 0 ≡ get_or base (at + j) 0
first_row base at width h j l = get_or-take width (drop at base) j l ∙ get_or-drop at base j

joined :
    (base row bs : List ℕ) (at stride width n : ℕ)
    → length row ≡ width
    → ((j : ℕ) → j < width → get_or row j 0 ≡ get_or base (at + j) 0)
    → Gathered base (at + stride) stride width n bs
    → (k j : ℕ) → k < suc n
    → j < width
    → get_or (row ++ bs) (k * width + j) 0 ≡ get_or base (at + k * stride + j) 0
joined base row bs at stride width n len first g zero j q l =
    ap (λ t. get_or (row ++ bs) t 0) {x = 0 * width + j} {y = j} (omega arith)
    ∙ get_or-append_in row bs j (omega (arith, len))
    ∙ first j l
    ∙ ap (λ t. get_or base t 0) {x = at + j} {y = at + 0 * stride + j} (omega arith)
joined base row bs at stride width n len first g (suc k) j q l =
    ap (λ t. get_or (row ++ bs) t 0) {x = suc k * width + j} {y = length row + (k * width + j)}
      (omega (arith, len))
    ∙ get_or-append_behind row bs (k * width + j)
    ∙ g.byte k j (omega arith) l
    ∙ ap (λ t. get_or base (t + j) 0) (sym (next_row at stride k))

pub gather-Gathered :
    (base : List ℕ) (at stride width n : ℕ)
    → RowsIn base at stride width n
    → (bs : List ℕ) × (gather base at stride width n ≡ some bs) × Gathered base at stride width n bs
unfolding gather
gather-Gathered base at stride width zero h =
    ([], refl, record { size = omega arith; byte = λ k j h. elim h [ ] })
gather-Gathered base at stride width (suc n) h =
    let (bs, e, g) =
      gather-Gathered base (at + stride) stride width n
        (λ k q. omega (arith, h (suc k), next_row at stride k)) in
    let row = take width (drop at base) in
    let len : length row ≡ width =
      length-take width (drop at base) (omega (arith, h 0, length-drop at base)) in
    (
      row ++ bs,
      rw (le→leb (at + width) (length base) (omega (arith, h 0)), e) refl,
      record {
        size = omega (arith, len, g.size, length-append row bs);
        byte =
            joined base row bs at stride width n len (first_row base at width (omega (arith, h 0)))
              g;
      },
    )
