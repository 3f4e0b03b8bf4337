-- ===== src/UdpCombine/Deliver.antt =====
-- A message from its first slice to its report: the packets of a run of `OnUdpSliceReceived`.
use mathlib.Core.Option
use rv_receive.Base.{
  ℕ, ◌*◌, ◌≤◌, ◌<◌, ◌≡◌, ◌≢◌, refl, sym, ap, ◌∙◌, inl, inr, true, false, some, List, [], ◌∷◌, ◌++◌,
  arith, if◌then◌else◌, Bool-cases, length, take,
}
use rv_receive.Message.{Packet, udp_packength}
use rv_receive.Combine.{Combine, PackData, is_done, init_package, alloc_buffer}
use rv_receive.Combine.Collect.{IsSlice, Collecting, whole}
use rv_receive.Combine.Put.{put_package-Collecting}
use rv_receive.Combine.Reassembly.{
  has, Slices, AddsAll, finished, all_there, bits_of_start, start_package-Collecting,
}
use rv_receive.Combine.Room.{Allocates, room_udp}
use rv_receive.Mask.Laws.{slice_bit}
use rv_receive.UdpCombine.{CombineCache, report, count_retry, blank_combine, new_package}
use rv_receive.UdpCombine.Run.{
  packets, run_video, run_video-append, holding, reported, more_alone, first_alone,
}

-- The slices that are there are those that came.
abbrev pub Came : List Packet → Combine → Type 0
Came ps c = (t : ℕ) → slice_bit t c.slices_mask ≡ (if has t ps then 1 else 0)

module _ (new_buffer : ℕ → PackData) (allocates : Allocates new_buffer) {seq n : ℕ} {msg : List ℕ}
    (few : n ≤ 256) (covers : length msg ≤ n * udp_packength) where
  pub new_package-Collecting :
      (p : Packet)
      → IsSlice seq n udp_packength msg p
      → (c : Combine) × (new_package new_buffer p ≡ some c)
        × Collecting seq n udp_packength msg c
        × Came (p ∷ []) c
  unfolding new_package init_package
  new_package-Collecting p s =
      let blank = blank_combine new_buffer in
      let ready = alloc_buffer new_buffer blank (p.slices * udp_packength) in
      let room = room_udp new_buffer allocates blank p in
      let started = start_package-Collecting new_buffer ready s (rw (sym s.same_slices) room) in
      let (c, e, v, adds) = put_package-Collecting few covers started s in
      (
        c,
        rw e refl,
        v,
        λ t. adds t ∙ ground (arith, bits_of_start new_buffer ready p udp_packength t),
      )

  -- While a slice is missing, what has come waits and nothing is reported.
  waiting :
      (i : ℕ) (cache : CombineCache) (l : List (Packet × ℕ)) (c : Combine)
      → i < n
      → cache.retry_count < count_retry
      → cache.seq_report ≡ seq
      → Collecting seq n udp_packength msg c
      → Slices seq n udp_packength msg (packets l)
      → slice_bit i c.slices_mask ≡ 0
      → has i (packets l) ≡ false
      → (c' : Combine) × (run_video new_buffer (holding cache c) l ≡ some ([], holding cache c'))
        × Collecting seq n udp_packength msg c'
        × AddsAll (packets l) c c'
  unfolding run_video Option.bind
  waiting i cache [] c h few_tries next v s missing never = (c, refl, v, λ t. refl)
  waiting i cache ((p, now) ∷ l) c h few_tries next v s missing never =
      let (c₁, e₁, v₁, adds₁) = put_package-Collecting few covers v s.0 in
      let missing₁ : slice_bit i c₁.slices_mask ≡ 0 = ground (arith, adds₁ i, missing, never) in
      let open_still : is_done c₁ ≡ false = elim (Bool-cases (is_done c₁)) [
        | inl done ↦ absurd (omega (arith, whole covers v₁ done i h, missing₁))
        | inr more ↦ more
      ] in
      let step =
        more_alone new_buffer cache c p now few_tries (next ∙ sym v₁.its_seq)
          (v.its_seq ∙ sym s.0.same_seq) e₁ in
      let (c', e, v', adds) =
        waiting i cache l c₁ h few_tries next v₁ s.1 missing₁ (ground (arith, never)) in
      (c', rw (step, open_still, e) refl, v', λ t. ground (arith, adds t, adds₁ t))

-- What is reported of a message.
abbrev pub Reports : ℕ → List ℕ → PackData → Type 0
Reports seq msg d = (d.seq ≡ seq) × (d.data_size ≡ length msg) × (take (length msg) d.body ≡ msg)

module _ (new_buffer : ℕ → PackData) (allocates : Allocates new_buffer) {seq n : ℕ} {msg : List ℕ}
    (few : n ≤ 256) (covers : length msg ≤ n * udp_packength) where
  -- The message of a packet that is whole.
  done_Reports :
      {c : Combine}
      → Collecting seq n udp_packength msg c
      → is_done c ≡ true
      → Reports seq msg c.pack
  done_Reports v h = let f = finished few covers v h in (v.its_seq, f.0, f.1)

  -- The last slice, where the others wait.
  last_slice :
      (cache : CombineCache) (c : Combine) (p : Packet) (now : ℕ)
      → cache.retry_count < count_retry
      → cache.seq_report ≡ seq
      → Collecting seq n udp_packength msg c
      → IsSlice seq n udp_packength msg p
      → ((i : ℕ) → i < n → i ≢ p.cur_slice → slice_bit i c.slices_mask ≡ 1)
      → (d : PackData) × (run_video new_buffer (holding cache c) ((p, now) ∷ [])
          ≡ some (report d ∷ [], reported cache seq))
        × Reports seq msg d
  unfolding run_video Option.bind
  last_slice cache c p now few_tries next v s others =
      let (c', e, v', adds) = put_package-Collecting few covers v s in
      let done : is_done c' ≡ true =
        all_there few covers v' (λ i h. ground (arith, adds i, others i h)) in
      let step =
        more_alone new_buffer cache c p now few_tries (next ∙ sym v'.its_seq)
          (v.its_seq ∙ sym s.same_seq) e in
      (
        c'.pack,
        rw (step, done) (ap (λ s. some (report c'.pack ∷ [], reported cache s)) v'.its_seq),
        done_Reports v' done,
      )

  -- A message of at most 256 slices whose number is the next one to report, with nothing else
  -- waiting: its slices come in any order, also repeatedly, until one that was missing is the last.
  -- Then exactly that message is reported, and nothing before.
  pub run_video-deliver :
      (cache : CombineCache) (l : List (Packet × ℕ)) (p : Packet) (now : ℕ)
      → cache.pack_list ≡ []
      → cache.retry_count < count_retry
      → cache.seq_report ≡ seq
      → Slices seq n udp_packength msg (packets l)
      → IsSlice seq n udp_packength msg p
      → has p.cur_slice (packets l) ≡ false
      → ((i : ℕ) → i < n → i ≢ p.cur_slice → has i (packets l) ≡ true)
      → (d : PackData) × (run_video new_buffer cache (l ++ ((p, now) ∷ []))
          ≡ some (report d ∷ [], reported cache seq))
        × Reports seq msg d
  unfolding run_video Option.bind
  run_video-deliver cache [] p now empty few_tries next ss s new others =
      let (c, e, v, came) = new_package-Collecting new_buffer allocates few covers p s in
      let done : is_done c ≡ true =
        all_there few covers v (λ i h. ground (arith, came i, others i h)) in
      let step = first_alone new_buffer cache p now few_tries empty (next ∙ sym v.its_seq) e in
      (
        c.pack,
        rw (step, done) (ap (λ s. some (report c.pack ∷ [], reported cache s)) v.its_seq),
        done_Reports v done,
      )
  run_video-deliver cache ((p₀, now₀) ∷ l) p now empty few_tries next ss s new others =
      let (c, e, v, came) = new_package-Collecting new_buffer allocates few covers p₀ ss.0 in
      let missing : slice_bit p.cur_slice c.slices_mask ≡ 0 =
        ground (arith, came p.cur_slice, new) in
      let open_still : is_done c ≡ false = elim (Bool-cases (is_done c)) [
        | inl done ↦ absurd (omega (arith, whole covers v done p.cur_slice s.in_range, missing))
        | inr more ↦ more
      ] in
      let step = first_alone new_buffer cache p₀ now₀ few_tries empty (next ∙ sym v.its_seq) e in
      let (c', e', v', adds) =
        waiting new_buffer allocates few covers p.cur_slice cache l c s.in_range few_tries next v
          ss.1 missing (ground (arith, new)) in
      let all : (i : ℕ) → i < n → i ≢ p.cur_slice → slice_bit i c'.slices_mask ≡ 1 =
        λ i h ne. ground (arith, adds i, came i, others i h ne) in
      let (d, e'', r) = last_slice cache c' p now few_tries next v' s all in
      (
        d,
        rw
            (
              step,
              open_still,
              run_video-append new_buffer (holding cache c) l ((p, now) ∷ []) e',
              e'',
            )
            refl,
        r,
      )
