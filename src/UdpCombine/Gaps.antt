-- ===== src/UdpCombine/Gaps.antt =====
-- What the tests on the order leave open: a packet behind a gap, and one that comes too late.
use mathlib.Core.Option
use rv_receive.Base.{
  ℕ, suc, ◌+◌, ◌^◌, ◌≤◌, ◌<◌, ◌≡◌, ◌≢◌, refl, sym, ◌∙◌, inl, inr, true, some, List, [], ◌∷◌, ◌++◌,
  arith, Bool-cases,
}
use rv_receive.Message.{Packet}
use rv_receive.Combine.{Combine, PackData, is_done}
use rv_receive.UdpCombine.{
  CombineCache, Event, request, request_range, report, report_slice, count_retry, trim, insert,
  find_from, find_full_package, flush, ask_range, due, respond, new_package, on_video_slice,
}
use rv_receive.UdpCombine.Order.{time_after_lt, seq-new_package}
use rv_receive.UdpCombine.Run.{reported, run_video}

abbrev pub reports : List Event → List Event
reports [] = []
reports (request r ∷ es) = reports es
reports (request_range r ∷ es) = reports es
reports (report d ∷ es) = report d ∷ reports es
reports (report_slice p ∷ es) = report_slice p ∷ reports es

reports-append :
    (es es' : List Event) → reports es ≡ [] → reports es' ≡ [] → reports (es ++ es') ≡ []
reports-append [] es' h h' = h'
reports-append (request r ∷ es) es' h h' = reports-append es es' h h'
reports-append (request_range r ∷ es) es' h h' = reports-append es es' h h'
reports-append (report d ∷ es) es' h h' = absurd (cc)
reports-append (report_slice p ∷ es) es' h h' = absurd (cc)

-- Two packets that are done are both reported, whatever the second's number is.
flush_both :
    (c₁ c₂ : Combine) (cache : CombineCache) (now : ℕ)
    → cache.retry_count < count_retry
    → cache.seq_report ≡ c₁.pack.seq
    → is_done c₁ ≡ true
    → is_done c₂ ≡ true
    → respond (c₁ ∷ c₂ ∷ []) (record cache { pack_list = c₁ ∷ c₂ ∷ [] }) now
      ≡ (report c₁.pack ∷ report c₂.pack ∷ [], reported cache c₂.pack.seq)
unfolding respond find_full_package find_from flush
flush_both c₁ c₂ cache now few next done₁ done₂ = ground (arith, few, next, done₁, done₂)

-- A packet that waits with the next one to report not there: nothing is reported.
waits_behind :
    (c : Combine) (cs : List Combine) (cache : CombineCache) (now : ℕ)
    → cache.retry_count < count_retry
    → cache.seq_report ≢ c.pack.seq
    → let r = respond (c ∷ cs) (record cache { pack_list = c ∷ cs }) now in
      (reports r.0 ≡ [])
      × (r.1.pack_list ≡ c ∷ cs)
      × (r.1.seq_report ≡ cache.seq_report)
      × (r.1.retry_count ≤ suc cache.retry_count)
unfolding respond ask_range
waits_behind c cs cache now few gap = elim (Bool-cases (due cache now)) [
  | inl timely ↦ ground (arith, timely, few, gap)
  | inr early ↦ ground (arith, early, few, gap)
]

module _ (new_buffer : ℕ → PackData) where
  -- The next packet is whole with its first slice while a later one that is done waits: both are
  -- reported, also if packets between them are missing, and these will be too late.
  pub on_video_slice_over_gap :
      (cache : CombineCache) (c₂ : Combine) (p : Packet) (now : ℕ) {c₁ : Combine}
      → cache.pack_list ≡ c₂ ∷ []
      → cache.retry_count < count_retry
      → cache.seq_report ≡ p.seq
      → p.seq + 1 < c₂.pack.seq
      → c₂.pack.seq < 2 ^ 31
      → is_done c₂ ≡ true
      → new_package new_buffer p ≡ some c₁
      → is_done c₁ ≡ true
      → on_video_slice new_buffer cache p now
        ≡ some (report c₁.pack ∷ report c₂.pack ∷ [], reported cache c₂.pack.seq)
  unfolding on_video_slice trim insert
  on_video_slice_over_gap cache c₂ p now {c₁ = c₁} only few next gap low done₂ made done₁ =
      let same = seq-new_package new_buffer p made in
      let order = time_after_lt c₂.pack.seq c₁.pack.seq low (omega (arith, same)) in
      let fine = time_after_lt cache.seq_report p.seq (omega (arith, next)) (omega arith) in
      ground (
        arith,
        only,
        next,
        gap,
        made,
        same,
        order,
        fine,
        flush_both c₁ c₂ cache now few (next ∙ sym same) done₁ done₂,
      )

  late_first :
      (cache : CombineCache) (p : Packet) (now : ℕ) {c : Combine}
      → cache.pack_list ≡ []
      → new_package new_buffer p ≡ some c
      → on_video_slice new_buffer cache p now
        ≡ some (respond (c ∷ []) (record cache { pack_list = c ∷ [] }) now)
  unfolding on_video_slice trim insert
  late_first cache p now empty made = ground (arith, empty, made)

  then_next :
      (cache : CombineCache) (c : Combine) (p' : Packet) (now' : ℕ) {c' : Combine}
      → cache.pack_list ≡ c ∷ []
      → c.pack.seq < cache.seq_report
      → cache.seq_report < 2 ^ 31
      → p'.seq ≡ cache.seq_report
      → new_package new_buffer p' ≡ some c'
      → on_video_slice new_buffer cache p' now'
        ≡ some (respond (c ∷ c' ∷ []) (record cache { pack_list = c ∷ c' ∷ [] }) now')
  unfolding on_video_slice trim insert
  then_next cache c p' now' {c' = c'} only late low next made =
      let same = seq-new_package new_buffer p' made in
      let order = time_after_lt c.pack.seq c'.pack.seq (omega arith) (omega (arith, same, next)) in
      let fine = time_after_lt cache.seq_report p'.seq low (omega (arith, next)) in
      ground (arith, only, late, next, made, same, order, fine)

  -- A packet before the next one to report, when none waits: it is taken for a new one, so that the
  -- next one, whole with its first slice, is not reported either.
  pub on_video_slice_late :
      (cache : CombineCache) (p p' : Packet) (now now' : ℕ) {c c' : Combine}
      → cache.pack_list ≡ []
      → suc cache.retry_count < count_retry
      → p.seq < cache.seq_report
      → cache.seq_report < 2 ^ 31
      → p'.seq ≡ cache.seq_report
      → new_package new_buffer p ≡ some c
      → new_package new_buffer p' ≡ some c'
      → (r : List Event × CombineCache) × (run_video new_buffer cache ((p, now) ∷ (p', now') ∷ [])
          ≡ some r)
        × (reports r.0 ≡ [])
        × (r.1.pack_list ≡ c ∷ c' ∷ [])
        × (r.1.seq_report ≡ cache.seq_report)
  unfolding run_video Option.bind
  on_video_slice_late cache p p' now now' {c = c} {c' = c'} empty few late low next made made' =
      let same = seq-new_package new_buffer p made in
      let first = waits_behind c [] cache now (omega arith) (omega (arith, same)) in
      let r₁ = respond (c ∷ []) (record cache { pack_list = c ∷ [] }) now in
      let second =
        waits_behind c (c' ∷ []) r₁.1 now' (omega (arith, first.3))
          (omega (arith, same, first.2)) in
      let r₂ = respond (c ∷ c' ∷ []) (record (r₁.1) { pack_list = c ∷ c' ∷ [] }) now' in
      let step₁ = late_first cache p now empty made in
      let step₂ =
        then_next r₁.1 c p' now' first.1 (omega (arith, same, first.2)) (omega (arith, first.2))
          (next ∙ sym first.2) made' in
      (
        (r₁.0 ++ (r₂.0 ++ []), r₂.1),
        rw (step₁, step₂) refl,
        reports-append r₁.0 (r₂.0 ++ []) first.0 (reports-append r₂.0 [] second.0 refl),
        second.1,
        second.2 ∙ first.2,
      )
