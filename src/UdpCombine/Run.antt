-- ===== src/UdpCombine/Run.antt =====
-- A run of `OnUdpSliceReceived`, and its steps while one packet waits alone.
use mathlib.Core.Option
use rv_receive.Base.{
  ℕ, ◌<◌, ◌≡◌, refl, ap, ◌∙◌, inl, inr, Bool, Option, none, some, List, [], ◌∷◌, ◌++◌, arith,
  if◌then◌else◌, Option-cases,
}
use rv_receive.Message.{Packet}
use rv_receive.Combine.{Combine, PackData, is_done, put_package}
use rv_receive.UdpCombine.{
  CombineCache, Event, report, next_seq, count_retry, put_in, trim, insert, find_from,
  find_full_package, flush, respond, new_package, on_video_slice,
}

abbrev pub packets : List (Packet × ℕ) → List Packet
packets [] = []
packets ((p, now) ∷ l) = p ∷ packets l

unfoldable pub run_video :
    (ℕ → PackData) → CombineCache → List (Packet × ℕ) → Option (List Event × CombineCache)
run_video new_buffer cache [] = some ([], cache)
run_video new_buffer cache ((p, now) ∷ l) =
    Option.bind (on_video_slice new_buffer cache p now)
      (λ r. Option.map (λ q. (r.0 ++ q.0, q.1)) (run_video new_buffer r.1 l))

-- The cache with the packet `c` alone, and after its report.
abbrev pub holding : CombineCache → Combine → CombineCache
holding cache c = record cache { pack_list = c ∷ [] }

abbrev pub reported : CombineCache → ℕ → CombineCache
reported cache seq = record cache { seq_report = next_seq seq; retry_count = 0; pack_list = [] }

abbrev pub answer : CombineCache → Combine → List Event × CombineCache
answer cache c =
    if is_done c then (report c.pack ∷ [], reported cache c.pack.seq) else ([], holding cache c)

respond_alone :
    (cache : CombineCache) (c : Combine) (now : ℕ)
    → cache.retry_count < count_retry
    → cache.seq_report ≡ c.pack.seq
    → respond (c ∷ []) (holding cache c) now ≡ answer cache c
unfolding respond find_full_package find_from flush
respond_alone cache c now few next = ground arith

module _ (new_buffer : ℕ → PackData) where
  pub more_alone :
      (cache : CombineCache) (c : Combine) (p : Packet) (now : ℕ) {b : Bool} {c' : Combine}
      → cache.retry_count < count_retry
      → cache.seq_report ≡ c'.pack.seq
      → c.pack.seq ≡ p.seq
      → put_package c p ≡ some (b, c')
      → on_video_slice new_buffer (holding cache c) p now ≡ some (answer cache c')
  unfolding on_video_slice put_in
  more_alone cache c p now {c' = c'} few next same put =
      ground (arith, put, respond_alone cache c' now few next)

  pub first_alone :
      (cache : CombineCache) (p : Packet) (now : ℕ) {c' : Combine}
      → cache.retry_count < count_retry
      → cache.pack_list ≡ []
      → cache.seq_report ≡ c'.pack.seq
      → new_package new_buffer p ≡ some c'
      → on_video_slice new_buffer cache p now ≡ some (answer cache c')
  unfolding on_video_slice trim insert
  first_alone cache p now {c' = c'} few none_there next made =
      ground (arith, none_there, made, respond_alone cache c' now few next)

append_nothing : (es es' : List Event) → es ++ es' ≡ [] → (es ≡ []) × (es' ≡ [])
append_nothing [] es' e = (refl, e)
append_nothing (x ∷ es) es' e = absurd (cc)

same_pair :
    (q : List Event × CombineCache) {cache : CombineCache}
    → q.0 ≡ []
    → q.1 ≡ cache
    → q ≡ ([], cache)
same_pair q e e' = rw (e, e') refl

map_same : (r : Option (List Event × CombineCache)) → Option.map (λ q. ([] ++ q.0, q.1)) r ≡ r
map_same none = refl
map_same (some q) = refl

-- A run that reports nothing, and what comes behind it.
pub run_video-append :
    (new_buffer : ℕ → PackData) (cache : CombineCache) (l m : List (Packet × ℕ))
    {cache' : CombineCache}
    → run_video new_buffer cache l ≡ some ([], cache')
    → run_video new_buffer cache (l ++ m) ≡ run_video new_buffer cache' m
unfolding run_video Option.bind
run_video-append new_buffer cache [] m e = ap (λ c. run_video new_buffer c m) (cc)
run_video-append new_buffer cache ((p, now) ∷ l) m {cache' = cache'} e =
    elim (Option-cases (on_video_slice new_buffer cache p now)) [
      | inl fault ↦ ground (arith, fault)
      | inr (r, first) ↦ elim (Option-cases (run_video new_buffer r.1 l)) [
        | inl fault ↦ ground (arith, first, fault)
        | inr (q, then_l) ↦
            let both : (r.0 ++ q.0, q.1) ≡ ([], cache') = ground (arith, first, then_l) in
            let quiet = append_nothing r.0 q.0 (ap (λ (x : List Event × CombineCache). x.0) both) in
            let rest : run_video new_buffer r.1 l ≡ some ([], cache') =
              then_l
              ∙ ap some (same_pair q quiet.1 (ap (λ (x : List Event × CombineCache). x.1) both)) in
            rw (first, quiet.0, run_video-append new_buffer r.1 l m rest)
              (map_same (run_video new_buffer cache' m))
      ]
    ]
