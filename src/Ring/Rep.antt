-- ===== src/Ring/Rep.antt =====
-- When a ring represents a queue of packets: the stretch of `usedSize` bytes from `readPtr` on is
-- the packets, each behind its header.
use rv_receive.Base.{
  ℕ, ◌+◌, ◌%◌, ◌^◌, ◌≤◌, ◌<◌, ◌≡◌, refl, sym, ap, ◌∙◌, List, [], ◌∷◌, ◌++◌, append-nil,
  append_assoc, arith, length, replicate, take, drop, length-append, length-replicate, take-append,
  drop-append,
}
use rv_receive.Ring.{Ring, encode_size, create, free}
use rv_receive.Ring.Bytes.{window, window-zero, window-append, length-window}
use rv_receive.Ring.Header.{length-encode_size}
use rv_receive.Ring.Queue.{Packets, stored}

abbrev pub frame : List ℕ → List ℕ
frame p = encode_size (length p) ++ p

abbrev pub frames : Packets → List ℕ
frames [] = []
frames (p ∷ ps) = frame p ++ frames ps

pub record Rep (r : Ring) (ps : Packets) : Type 0 where
  pub sized : length r.buffer ≡ r.capacity
  pub small : r.capacity < 2 ^ 31
  pub read_in : r.read_ptr ≤ r.capacity
  pub write_in : r.write_ptr ≤ r.capacity
  pub fits : r.used_size ≤ r.capacity
  pub counted : r.used_size ≡ stored ps
  pub ends : r.write_ptr % r.capacity ≡ (r.read_ptr + r.used_size) % r.capacity
  pub holds : window r.capacity r.buffer r.read_ptr r.used_size ≡ frames ps

pub length-frame : (p : List ℕ) → length (frame p) ≡ 4 + length p
length-frame p =
    length-append (encode_size (length p)) p
    ∙ ap (λ t. t + length p) (length-encode_size (length p))

pub length-frames : (ps : Packets) → length (frames ps) ≡ stored ps
length-frames [] = refl
length-frames (p ∷ ps) =
    omega (arith, length-append (frame p) (frames ps), length-frame p, length-frames ps)

pub frames-append : (ps : Packets) (p : List ℕ) → frames (ps ++ p ∷ []) ≡ frames ps ++ frame p
frames-append [] p = append-nil (frame p)
frames-append (q ∷ ps) p =
    ap (◌++◌ (frame q)) (frames-append ps p) ∙ sym (append_assoc (frame q) (frames ps) (frame p))

pub stored-append : (ps : Packets) (p : List ℕ) → stored (ps ++ p ∷ []) ≡ stored ps + (4 + length p)
stored-append [] p = omega arith
stored-append (q ∷ ps) p = omega (arith, stored-append ps p)

-- A stretch that is known is taken apart where its parts meet.
pub window_split :
    (capacity : ℕ) (buf : List ℕ) (p : ℕ) (xs ys : List ℕ)
    → window capacity buf p (length xs + length ys) ≡ xs ++ ys
    → (window capacity buf p (length xs) ≡ xs)
      × (window capacity buf (p + length xs) (length ys) ≡ ys)
window_split capacity buf p xs ys e = (front, back)
  where
    near : List ℕ
    near = window capacity buf p (length xs)

    far : List ℕ
    far = window capacity buf (p + length xs) (length ys)

    same : near ++ far ≡ xs ++ ys
    same = sym (window-append capacity buf p (length xs) (length ys)) ∙ e

    front : near ≡ xs
    front =
        sym (take-append near far)
        ∙ ap (λ t. take t (near ++ far)) (length-window capacity buf p (length xs))
        ∙ ap (take (length xs)) same
        ∙ take-append xs ys

    back : far ≡ ys
    back =
        sym (drop-append near far)
        ∙ ap (λ t. drop t (near ++ far)) (length-window capacity buf p (length xs))
        ∙ ap (drop (length xs)) same
        ∙ drop-append xs ys

-- A new ring holds nothing.
pub create-Rep : (size : ℕ) → size < 2 ^ 31 → Rep (create size) []
unfolding create
create-Rep size h = record {
  sized = length-replicate size 0;
  small = h;
  read_in = omega arith;
  write_in = omega arith;
  fits = omega arith;
  counted = refl;
  ends = refl;
  holds = window-zero size (replicate size 0) 0;
}

-- `Free` drops whatever the ring holds.
pub free-Rep : {r : Ring} {ps : Packets} → Rep r ps → Rep (free r) []
unfolding free
free-Rep {r} v = record {
  sized = v.sized;
  small = v.small;
  read_in = omega arith;
  write_in = omega arith;
  fits = omega arith;
  counted = refl;
  ends = refl;
  holds = window-zero r.capacity r.buffer 0;
}
