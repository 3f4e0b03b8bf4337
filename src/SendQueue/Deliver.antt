-- ===== src/SendQueue/Deliver.antt =====
-- An element from the list of the sender to the report of the receiving loop.
use mathlib.Core.Option
use mathlib.Core.Path.{subst}
use rv_receive.Base.{
  ℕ, suc, ◌*◌, ◌≤◌, ◌<◌, ◌≡◌, refl, ◌∙◌, inl, inr, Bool, true, false, ◌&&◌, Option, some, List, [],
  ◌∷◌, ◌++◌, arith, ltb, leb, if◌then◌else◌, Bool-cases, length,
}
use rv_receive.Message.{Packet}
use rv_receive.Combine.{Combine, PackData, is_done, put_package, init_package, reset_data}
use rv_receive.Combine.Collect.{IsSlice, Collecting, whole}
use rv_receive.Combine.Put.{put_package-Collecting}
use rv_receive.Combine.Reassembly.{has, Slices, finished, all_there}
use rv_receive.Mask.Laws.{slice_bit}
use rv_receive.UdpCombine.Deliver.{Reports}
use rv_receive.SendCache.Slicing.{Rising}
use rv_receive.SendCache.Transfer.{below_first}
use rv_receive.Stream.{combine_packet, handle}
use rv_receive.Stream.Drain.{handle_all}

module _ (new_buffer : ℕ → PackData) where
  -- A later slice of the packet that is combined.
  pub handle_more :
      (c : Combine) (p : Packet) {b : Bool} {c' : Combine}
      → 0 < p.cur_slice
      → put_package c p ≡ some (b, c')
      → handle new_buffer c p
        ≡ some (if is_done c' then (c'.pack ∷ [], reset_data c') else ([], c'))
  unfolding handle combine_packet
  handle_more c p later put = ground (arith, later, put)

  pub handle_first :
      (c : Combine) (p : Packet) {c' : Combine}
      → p.cur_slice ≡ 0
      → init_package new_buffer c p p.data_size ≡ some c'
      → handle new_buffer c p
        ≡ some (if is_done c' then (c'.pack ∷ [], reset_data c') else ([], c'))
  unfolding handle combine_packet
  handle_first c p first init = ground (arith, first, init)

  pub handle_all_none : (c : Combine) → handle_all new_buffer c [] ≡ some ([], c)
  unfolding handle_all
  handle_all_none c = refl

  pub handle_all_one :
      (c : Combine) (p : Packet) (ps : List Packet) {c' : Combine}
      → handle new_buffer c p ≡ some ([], c')
      → {r : List PackData × Combine} → handle_all new_buffer c' ps ≡ some r
      → handle_all new_buffer c (p ∷ ps) ≡ some r
  unfolding handle_all Option.bind
  handle_all_one c p ps e {r} e' = rw (e, e') refl

  pub handle_all_last :
      (c : Combine) (p : Packet) {ds : List PackData} {c' : Combine}
      → handle new_buffer c p ≡ some (ds, c')
      → handle_all new_buffer c (p ∷ []) ≡ some (ds ++ [], c')
  unfolding handle_all Option.bind
  handle_all_last c p e = rw e refl

-- What comes of a message: it is reported once.
abbrev pub Delivered : ℕ → List ℕ → Option (List PackData × Combine) → Type 0
Delivered seq msg o = (d : PackData) × (c : Combine) × (o ≡ some (d ∷ [], c)) × Reports seq msg d

module _ (new_buffer : ℕ → PackData) (seq n one : ℕ) (msg : List ℕ) (few : n ≤ 256)
    (covers : length msg ≤ n * one) where
  done_or_not :
      (c : Combine) (i : ℕ)
      → i < n
      → Collecting seq n one msg c
      → slice_bit i c.slices_mask ≡ 0
      → is_done c ≡ false
  done_or_not c i h v missing = elim (Bool-cases (is_done c)) [
    | inl done ↦ absurd (omega (arith, whole covers v done i h, missing))
    | inr more ↦ more
  ]

  -- The slices from `k` on are the `k`-th and those behind it.
  abbrev pub Left : ℕ → Packet → List Packet → Type 0
  Left k p ps =
      Slices seq n one msg (p ∷ ps)
      × Rising k (p ∷ ps)
      × ((i : ℕ) → has i (p ∷ ps) ≡ (leb k i && ltb i n))

  pub comes_first : (k : ℕ) (p : Packet) (ps : List Packet) → Left k p ps → p.cur_slice ≡ k
  comes_first k p ps (sl, up, hs) =
      let not_behind =
        λ (h : k < p.cur_slice). below_first k (suc p.cur_slice) ps (omega (arith, h)) up.1 in
      ground (arith, hs k, up.0, not_behind, sl.0.in_range)

  pub one_fewer :
      (k : ℕ) (p p' : Packet) (ps : List Packet) → Left k p (p' ∷ ps) → Left (suc k) p' ps
  one_fewer k p p' ps (sl, up, hs) =
      let first = comes_first k p (p' ∷ ps) (sl, up, hs) in
      let behind = subst (λ q. Rising (suc q) (p' ∷ ps)) first up.1 in
      (sl.1, behind, λ i. ground (arith, hs i, first, below_first i (suc k) (p' ∷ ps), behind))

  abbrev pub Upto : ℕ → Combine → Type 0
  Upto k c = (i : ℕ) → slice_bit i c.slices_mask ≡ (if ltb i k then 1 else 0)

  pub after_put :
      (k : ℕ) (p : Packet) (c : Combine)
      → p.cur_slice ≡ k
      → IsSlice seq n one msg p
      → Collecting seq n one msg c
      → Upto k c
      → (c' : Combine) × (put_package c p ≡ some (true, c'))
        × Collecting seq n one msg c'
        × Upto (suc k) c'
  after_put k p c cur s v upto =
      let (c', e, v', adds) = put_package-Collecting few covers v s in
      (c', e, v', λ i. ground (arith, adds i, upto i, cur))

  pub last_done :
      (k : ℕ) (p : Packet) (c : Combine)
      → Left k p []
      → Collecting seq n one msg c
      → Upto (suc k) c
      → is_done c ≡ true
  last_done k p c l v upto =
      let first = comes_first k p [] l in
      let end : n ≤ suc k = ground (arith, l.2 (suc k), first) in
      all_there few covers v (λ i h. ground (arith, upto i, end, h))

  pub not_yet_done :
      (k : ℕ) (p p' : Packet) (ps : List Packet) (c : Combine)
      → Left k p (p' ∷ ps)
      → Collecting seq n one msg c
      → Upto (suc k) c
      → is_done c ≡ false
  not_yet_done k p p' ps c l v upto =
      let next = one_fewer k p p' ps l in
      let cur' = comes_first (suc k) p' ps next in
      done_or_not c p'.cur_slice next.0.0.in_range v (ground (arith, upto p'.cur_slice, cur'))

  -- The slices from `k` on, where those before have come.
  pub from_slice :
      (k : ℕ) (p : Packet) (ps : List Packet) (c : Combine)
      → 0 < k
      → Collecting seq n one msg c
      → Upto k c
      → Left k p ps
      → Delivered seq msg (handle_all new_buffer c (p ∷ ps))
  from_slice k p [] c pos_k v upto l =
      let cur = comes_first k p [] l in
      let (c', e, v', upto') = after_put k p c cur l.0.0 v upto in
      let done = last_done k p c' l v' upto' in
      let f = finished few covers v' done in
      let step : handle new_buffer c p ≡ some (c'.pack ∷ [], reset_data c') =
        handle_more new_buffer c p (omega (arith, cur, pos_k)) e ∙ rw done refl in
      (c'.pack, reset_data c', handle_all_last new_buffer c p step, (v'.its_seq, f.0, f.1))
  from_slice k p (p' ∷ ps) c pos_k v upto l =
      let cur = comes_first k p (p' ∷ ps) l in
      let (c', e, v', upto') = after_put k p c cur l.0.0 v upto in
      let more = not_yet_done k p p' ps c' l v' upto' in
      let step : handle new_buffer c p ≡ some ([], c') =
        handle_more new_buffer c p (omega (arith, cur, pos_k)) e ∙ rw more refl in
      let (d, c'', rest, r) =
        from_slice (suc k) p' ps c' (omega arith) v' upto' (one_fewer k p p' ps l) in
      (d, c'', handle_all_one new_buffer c p (p' ∷ ps) step rest, r)
