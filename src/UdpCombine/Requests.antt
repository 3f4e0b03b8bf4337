-- ===== src/UdpCombine/Requests.antt =====
-- When the sender is asked again: once in an interval, five times for the next packet, and for
-- what is missing.
use rv_receive.Base.{ℕ, suc, ◌+◌, ◌≤◌, ◌<◌, ◌≡◌, ◌≢◌, ◌⊎◌, Bool, true, false, ◌||◌, List, [], ◌∷◌}
use rv_receive.Combine.{Combine, is_done}
use rv_receive.UdpCombine.{
  CombineCache, Event, request, request_range, report, report_slice, count_retry, interval_retry,
  slices_request,
}

abbrev pub requests : List Event → List Event
requests [] = []
requests (request r ∷ es) = request r ∷ requests es
requests (request_range r ∷ es) = request_range r ∷ requests es
requests (report d ∷ es) = requests es
requests (report_slice p ∷ es) = requests es

-- Whether some packet of a list is done.
abbrev pub some_done : List Combine → Bool
some_done [] = false
some_done (c ∷ cs) = is_done c || some_done cs

-- The one request to make about a list of packets, in a state that expects `cache.seq_report`: for
-- the packets before the first, or for the slices that the first misses while a later one is done.
abbrev pub Wants : CombineCache → List Combine → Event → Type 0
Wants cache [] ev = ⊥
Wants cache (c ∷ cs) ev =
    ((cache.seq_report ≢ c.pack.seq)
      × (ev
          ≡ request_range (record {
            type = cache.data_type;
            seq_start = cache.seq_report;
            seq_end = c.pack.seq;
            flag = 0;
          })))
    ⊎ ((cache.seq_report ≡ c.pack.seq)
        × (is_done c ≡ false)
        × (some_done cs ≡ true)
        × (ev ≡ slices_request c))

-- A call makes no request, and then its time and number stay or the number starts anew; or it makes
-- one, and does nothing else.
abbrev pub Asks : CombineCache → ℕ → List Event × CombineCache → Type 0
Asks cache now r =
    ((requests r.0 ≡ [])
      × (r.1.resend_timestamp ≡ cache.resend_timestamp)
      × ((r.1.retry_count ≡ cache.retry_count) ⊎ (r.1.retry_count ≡ 0)))
    ⊎ ((ev : Event) × (r.0 ≡ ev ∷ [])
        × Wants cache r.1.pack_list ev
        × (cache.resend_timestamp + interval_retry ≤ now)
        × (r.1.resend_timestamp ≡ now)
        × (cache.retry_count < count_retry)
        × (r.1.retry_count ≡ suc cache.retry_count)
        × (r.1.seq_report ≡ cache.seq_report))
