-- ===== src/Combine/Collect.antt =====
-- One slice put in: what is there of the message afterwards.
use mathlib.Core.Option
use native.Mathlib.Nat.{div-add-mod', mod-lt, mul-zero}
use rv_receive.Base.Bits.{bit-le-one}
use rv_receive.Base.{
  ℕ, zero, suc, ◌+◌, ◌*◌, ◌/◌, ◌%◌, ◌≤◌, ◌<◌, ◌≡◌, ◌≢◌, refl, sym, ap, ◌∙◌, inl, inr, true, some,
  List, [], ◌∷◌, arith, tests, ltb, ◌==◌, ==_iff, Bool-cases, not-ltb→le, length, get_or, take,
  drop,
}
use rv_receive.Message.{Packet}
use rv_receive.Mask.Laws.{IsMasks, slice_bit}
use rv_receive.Combine.{Combine, copy_to, is_done, terminate, count_slice, store_slice, put_package}
use rv_receive.Combine.Copy.{
  length-copy_to, get_or-copy_to_before, get_or-copy_to_after, get_or-copy_to_in, get_or-take,
  get_or-drop,
}
use rv_receive.Combine.Sum.{
  sum_to, sum_to-le, sum_to-eq, sum_to_full, chunk, length-chunk, sum_to-chunk,
}

-- A packet that carries its part of the message: the bytes from `cur_slice * one` on, at most `one`.
pub record IsSlice (seq n one : ℕ) (msg : List ℕ) (p : Packet) : Type 0 where
  pub same_seq : p.seq ≡ seq
  pub same_slices : p.slices ≡ n
  pub in_range : p.cur_slice < n
  pub sized : p.data_size ≡ length (chunk msg one p.cur_slice)
  pub bytes : take p.data_size p.payload ≡ chunk msg one p.cur_slice

-- What holds between two slices: the counts are those of the masks, and the bytes of every slice
-- that is there are the message's.
pub record Collecting (seq n one : ℕ) (msg : List ℕ) (c : Combine) : Type 0 where
  pub its_seq : c.pack.seq ≡ seq
  pub its_slices : c.pack.slices ≡ n
  pub its_size : c.one_pack_size ≡ one
  pub masks : IsMasks c.slices_mask
  pub counted : c.recv_packages ≡ sum_to n (λ i. slice_bit i c.slices_mask)
  pub summed :
      c.pack.data_size ≡ sum_to n (λ i. slice_bit i c.slices_mask * length (chunk msg one i))
  pub room : n * one + 4 ≤ length c.pack.body
  pub there :
      (j : ℕ)
      → j < length msg
      → slice_bit (j / one) c.slices_mask ≡ 1
      → get_or c.pack.body j 0 ≡ get_or msg j 0

-- From one slice's place to the next.
next_slice : (j one cur : ℕ) → 0 < one → cur * one ≤ j → cur ≢ j / one → cur * one + one ≤ j
next_slice j one cur pos h e = grind (arith, div-add-mod' j one)

slice_in : (cur n one : ℕ) → cur < n → cur * one + one ≤ n * one
slice_in cur n one h = grind arith

module _ (one : ℕ) (msg body : List ℕ) (cur : ℕ)
    (fit : cur * one + length (chunk msg one cur) ≤ length body) where
  abbrev piece : List ℕ
  piece = chunk msg one cur

  abbrev written : List ℕ
  written = copy_to body (cur * one) piece

  piece_there :
      (j : ℕ) → j < length msg → 0 < one → j / one ≡ cur → get_or written j 0 ≡ get_or msg j 0
  piece_there j h pos e =
      ap (λ t. get_or written t 0) (sym at)
      ∙ get_or-copy_to_in body (cur * one) piece (j % one)
          (omega (arith, at, mod-lt j {m = one}, length-chunk msg one cur)) fit
      ∙ get_or-take one (drop (cur * one) msg) (j % one) (omega (arith, mod-lt j {m = one}))
      ∙ get_or-drop (cur * one) msg (j % one)
      ∙ ap (λ t. get_or msg t 0) at
    where
      at : cur * one + j % one ≡ j
      at = ap (λ t. t * one + j % one) (sym e) ∙ div-add-mod' j one

  others_stay : (j : ℕ) → 0 < one → cur ≢ j / one → get_or written j 0 ≡ get_or body j 0
  others_stay j pos e = elim (Bool-cases (ltb j (cur * one))) [
    | inl less ↦ get_or-copy_to_before body (cur * one) piece j (ground arith)
    | inr more ↦ get_or-copy_to_after body (cur * one) piece j (
        omega (
          arith,
          next_slice j one cur pos (not-ltb→le j (cur * one) more) e,
          length-chunk msg one cur,
        ))
  ]

size_pos : (j len n one : ℕ) → j < len → len ≤ n * one → 0 < one
size_pos j len n zero h c = absurd (omega (arith, mul-zero n))
size_pos j len n (suc one) h c = omega arith

bit_times : (b l one : ℕ) → b ≤ 1 → l ≤ one → b * l ≤ one
bit_times zero l one h k = omega arith
bit_times (suc zero) l one h k = omega arith
bit_times (suc (suc b)) l one h k = absurd (omega arith)

module _ {seq n one : ℕ} {msg : List ℕ} (covers : length msg ≤ n * one) {c : Combine}
    (v : Collecting seq n one msg c) where
  -- A packet that counts as done has every slice, and so the length of the message.
  pub whole : is_done c ≡ true → (i : ℕ) → i < n → slice_bit i c.slices_mask ≡ 1
  unfolding is_done
  whole h = sum_to_full n _ (λ i. bit-le-one _ (i % 32)) (omega (tests, v.its_slices, v.counted))

  pub whole_size : is_done c ≡ true → c.pack.data_size ≡ length msg
  whole_size h =
      v.summed
      ∙ sum_to-eq n _ _ (λ i l. ap (λ b. b * length (chunk msg one i)) (whole h i l) ∙ omega arith)
      ∙ sum_to-chunk msg one n
      ∙ omega arith

  size_bound : c.pack.data_size ≤ n * one
  size_bound = omega (
    arith,
    v.summed,
    sum_to-le n one (λ i. slice_bit i c.slices_mask * length (chunk msg one i)) bound,
  )
    where
      bound : (i : ℕ) → slice_bit i c.slices_mask * length (chunk msg one i) ≤ one
      bound i =
          bit_times _ _ one (bit-le-one (get_or c.slices_mask (i / 32) 0) (i % 32))
            (omega (arith, length-chunk msg one i))

  pub terminate-Collecting :
      is_done c ≡ true
      → (c' : Combine) × (terminate c ≡ some c')
        × Collecting seq n one msg c'
        × (c'.slices_mask ≡ c.slices_mask)
  unfolding terminate
  terminate-Collecting h = (
    record c {
      pack = record c.pack { body = copy_to c.pack.body c.pack.data_size (0 ∷ 0 ∷ 0 ∷ 0 ∷ []) };
    },
    ground (arith, v.room, size_bound),
    record {
      its_seq = v.its_seq;
      its_slices = v.its_slices;
      its_size = v.its_size;
      masks = v.masks;
      counted = v.counted;
      summed = v.summed;
      room =
          omega (arith, v.room, length-copy_to c.pack.body c.pack.data_size (0 ∷ 0 ∷ 0 ∷ 0 ∷ []));
      there = λ j l b.
          get_or-copy_to_before c.pack.body c.pack.data_size _ j (omega (arith, whole_size h))
          ∙ v.there j l b;
    },
    refl,
  )

module _ {seq n one : ℕ} {msg : List ℕ} (covers : length msg ≤ n * one) {c : Combine} {p : Packet}
    (v : Collecting seq n one msg c) (s : IsSlice seq n one msg p) where
  fits : p.cur_slice * one + length (chunk msg one p.cur_slice) ≤ length c.pack.body
  fits =
      omega (arith, v.room, length-chunk msg one p.cur_slice, slice_in p.cur_slice n one s.in_range)

  pub put_package_lem :
      put_package c p ≡ Option.map (λ c'. (true, c')) (count_slice (store_slice c p) p)
  unfolding put_package
  put_package_lem = ground (
    arith,
    v.its_seq,
    v.its_slices,
    s.same_seq,
    s.same_slices,
    s.sized,
    fits,
    ap (λ t. p.cur_slice * t) v.its_size,
  )

  body-store_slice : (store_slice c p).pack.body ≡ written one msg c.pack.body p.cur_slice fits
  unfolding store_slice
  body-store_slice = rw (v.its_size, s.bytes)

  pub store_slice_new :
      (j : ℕ)
      → j < length msg
      → j / one ≡ p.cur_slice
      → get_or (store_slice c p).pack.body j 0 ≡ get_or msg j 0
  store_slice_new j h e =
      ap (λ t. get_or t j 0) body-store_slice
      ∙ piece_there one msg c.pack.body p.cur_slice fits j h
          (size_pos j (length msg) n one h covers) e

  -- The new bytes are there, whether or not the slice was.
  pub store_slice-Collecting : Collecting seq n one msg (store_slice c p)
  unfolding store_slice
  store_slice-Collecting = record {
    its_seq = v.its_seq;
    its_slices = v.its_slices;
    its_size = v.its_size;
    masks = v.masks;
    counted = v.counted;
    summed = v.summed;
    room = omega (
      arith,
      v.room,
      length-copy_to c.pack.body (p.cur_slice * c.one_pack_size) (take p.data_size p.payload),
    );
    there = λ j h b. elim (Bool-cases (p.cur_slice == j / one)) [
      | inl same ↦ store_slice_new j h (sym ((==_iff p.cur_slice (j / one)).0 same))
      | inr other ↦
          ap (λ t. get_or t j 0) body-store_slice
          ∙ others_stay one msg c.pack.body p.cur_slice fits j
              (size_pos j (length msg) n one h covers) (ground arith)
          ∙ v.there j h b
    ];
  }
