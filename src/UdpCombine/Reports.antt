-- ===== src/UdpCombine/Reports.antt =====
-- What a video slice brings about: packets are reported in sequence, and the next one at once.
use mathlib.Core.Path.{subst}
use rv_receive.Base.{
  ℕ, ◌^◌, ◌≤◌, ◌<◌, ◌≡◌, refl, inl, inr, true, false, not, ◌&&◌, some, List, [], ◌∷◌, arith,
  Bool-cases, Option-cases,
}
use rv_receive.Message.{Packet}
use rv_receive.Combine.{Combine, PackData}
use rv_receive.UdpCombine.{
  CombineCache, Event, time_after, has_seq, put_in, trim, insert, is_empty, respond, new_package,
  on_video_slice,
}
use rv_receive.UdpCombine.Order.{
  Asc, time_after_lt, put_in-Asc, trim-Asc, has_seq-trim, insert-Asc, seq-new_package,
}
use rv_receive.UdpCombine.Steps.{InOrder, Follows, respond-Follows}

-- Whether a packet is not before the next one to report, where the code does not test it.
abbrev pub NotBefore : CombineCache → Packet → Type 0
NotBefore cache p = is_empty cache.pack_list ≡ true → cache.seq_report ≤ p.seq

is_empty-trim : (cs : List Combine) → is_empty (trim cs) ≡ true → is_empty cs ≡ true
unfolding trim
is_empty-trim [] h = refl
is_empty-trim (c ∷ cs) h = ground (arith, is_empty-trim cs)

-- A new packet that is not dropped belongs at or behind the next one to report.
kept_ahead :
    (s q : ℕ) (cs : List Combine)
    → q < 2 ^ 31
    → Asc s cs
    → (is_empty cs ≡ true → s ≤ q)
    → (not (is_empty cs) && time_after s q) ≡ false
    → s ≤ q
kept_ahead s q [] l a nb h = nb refl
kept_ahead s q (c ∷ cs) l a nb h = ground (arith, time_after_lt s q (omega (arith, a.0, a.1)) l)

module _ (new_buffer : ℕ → PackData) where
  -- A packet whose number is new joins the list in order.
  joined-Follows :
      (cache : CombineCache) (p : Packet) (c : Combine) (now : ℕ)
      → InOrder cache
      → p.seq < 2 ^ 31
      → cache.seq_report ≤ p.seq
      → has_seq p.seq cache.pack_list ≡ false
      → c.pack.seq ≡ p.seq
      → Follows cache.seq_report (
          respond
            (insert c (trim cache.pack_list))
            (record cache { pack_list = insert c (trim cache.pack_list) })
            now)
  joined-Follows cache p c now ok l ahead fresh same =
      let kept = trim-Asc cache.seq_report cache.pack_list ok.ahead in
      let new = has_seq-trim p.seq cache.pack_list fresh in
      let joined =
        insert-Asc cache.seq_report c (trim cache.pack_list) (omega (arith, same))
          (omega (arith, same)) (rw same new) kept.0 in
      respond-Follows (insert c (trim cache.pack_list)) cache now
        (record { ahead = joined.0; short = omega (arith, joined.1, kept.1); low = ok.low })

  pub on_video_slice-Follows :
      (cache : CombineCache) (p : Packet) (now : ℕ) {r : List Event × CombineCache}
      → InOrder cache
      → p.seq < 2 ^ 31
      → NotBefore cache p
      → on_video_slice new_buffer cache p now ≡ some r
      → Follows cache.seq_report r
  unfolding on_video_slice
  on_video_slice-Follows cache p now {r = r} ok l nb e =
      elim (Bool-cases (has_seq p.seq cache.pack_list)) [
        | inl there ↦ elim (Option-cases (put_in cache.pack_list p)) [
          | inl fault ↦ ground (arith, there, fault)
          | inr (cs', put) ↦
              let (a, n) = put_in-Asc cache.seq_report cache.pack_list p put ok.ahead in
              let is : respond cs' (record cache { pack_list = cs' }) now ≡ r =
                ground (arith, there, put) in
              subst (Follows cache.seq_report) is (
                respond-Follows cs' cache now
                  (record { ahead = a; short = omega (arith, n, ok.short); low = ok.low }))
        ]
        | inr fresh ↦
            elim (Bool-cases
              (not (is_empty (trim cache.pack_list)) && time_after cache.seq_report p.seq)) [
                | inl drop ↦
                    let kept = trim-Asc cache.seq_report cache.pack_list ok.ahead in
                    let is : ([], record cache { pack_list = trim cache.pack_list }) ≡ r =
                      ground (arith, fresh, drop) in
                    subst (Follows cache.seq_report) is (
                      omega arith,
                      record { ahead = kept.0; short = omega (arith, kept.1); low = ok.low },
                    )
                | inr keep ↦ elim (Option-cases (new_package new_buffer p)) [
                  | inl fault ↦ ground (arith, fresh, keep, fault)
                  | inr (c, made) ↦
                      let l' = insert c (trim cache.pack_list) in
                      let is : respond l' (record cache { pack_list = l' }) now ≡ r =
                        ground (arith, fresh, keep, made) in
                      subst (Follows cache.seq_report) is (
                        joined-Follows cache p c now ok l
                          (kept_ahead cache.seq_report p.seq (trim cache.pack_list) l
                            (trim-Asc cache.seq_report cache.pack_list ok.ahead).0
                            (λ h. nb (is_empty-trim cache.pack_list h)) keep)
                          fresh (seq-new_package new_buffer p made))
                ]
              ]
      ]
