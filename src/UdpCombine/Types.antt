-- ===== src/UdpCombine/Types.antt =====
-- Of video slices come video packets: the type of a packet on its way through the list that waits.
use mathlib.Core.Path.{subst}
use mathlib.Core.Option
use rv_receive.UdpCombine.Run.{run_video}
use rv_receive.Base.{
  ◌++◌, ℕ, ◌*◌, ◌≡◌, ◌∙◌, inl, inr, Bool, not, ◌&&◌, some, List, [], ◌∷◌, arith, ltb, ◌==◌,
  Bool-cases, Option-cases,
}
use rv_receive.Message.{Packet, udp_packength, type_media_videodata}
use rv_receive.Combine.{
  Combine, PackData, put_package, init_package, start_package, alloc_buffer, is_done,
}
use rv_receive.UdpCombine.{
  CombineCache, Event, request, request_range, report, report_slice, time_after, has_seq,
  blank_combine, put_in, trim, insert, new_package, flush, give_up, respond, ask_range,
  find_full_package, is_pos, due, count_retry, is_empty, next_seq, on_video_slice,
}

-- All packets that wait are video.
abbrev pub AllVideo : List Combine → Type 0
AllVideo [] = Unit {0}
AllVideo (c ∷ cs) = (c.pack.type ≡ type_media_videodata) × AllVideo cs

-- Whatever is reported is video, and no slice is.
abbrev pub VideoReports : List Event → Type 0
VideoReports [] = Unit {0}
VideoReports (request r ∷ es) = VideoReports es
VideoReports (request_range r ∷ es) = VideoReports es
VideoReports (report d ∷ es) = (d.type ≡ type_media_videodata) × VideoReports es
VideoReports (report_slice p ∷ es) = ⊥

abbrev pub IsVideo : List Event × CombineCache → Type 0
IsVideo r = VideoReports r.0 × AllVideo r.1.pack_list

type-put_package :
    (c : Combine) (p : Packet) {b : Bool} {c' : Combine}
    → put_package c p ≡ some (b, c')
    → c'.pack.type ≡ c.pack.type
unfolding put_package
type-put_package c p e = ground arith

put_in-AllVideo :
    (cs : List Combine) (p : Packet) {cs' : List Combine}
    → put_in cs p ≡ some cs'
    → AllVideo cs
    → AllVideo cs'
unfolding put_in
put_in-AllVideo [] p {cs' = cs'} e a = let is_nil : [] ≡ cs' = cc e in subst AllVideo is_nil tt
put_in-AllVideo (c ∷ cs) p {cs' = cs'} e a = elim (Bool-cases (c.pack.seq == p.seq)) [
  | inl hit ↦ elim (Option-cases (put_package c p)) [
    | inl fault ↦ ground (arith, fault)
    | inr ((b, c'), put) ↦
        let is : c' ∷ cs ≡ cs' = ground arith in
        subst AllVideo is (type-put_package c p put ∙ a.0, a.1)
  ]
  | inr miss ↦ elim (Option-cases (put_in cs p)) [
    | inl fault ↦ ground (arith, fault)
    | inr (rest, put) ↦
        let is : c ∷ rest ≡ cs' = ground arith in
        subst AllVideo is (a.0, put_in-AllVideo cs p put a.1)
  ]
]

trim-AllVideo : (cs : List Combine) → AllVideo cs → AllVideo (trim cs)
unfolding trim
trim-AllVideo [] a = tt
trim-AllVideo (c ∷ cs) a = ground (arith, trim-AllVideo cs a.1)

insert-AllVideo :
    (n : Combine) (cs : List Combine)
    → n.pack.type ≡ type_media_videodata
    → AllVideo cs
    → AllVideo (insert n cs)
unfolding insert
insert-AllVideo n [] h a = (h, tt)
insert-AllVideo n (c ∷ cs) h a = elim (Bool-cases (time_after c.pack.seq n.pack.seq)) [
  | inl later ↦ rw later (h, a)
  | inr earlier ↦ rw earlier (a.0, insert-AllVideo n cs h a.1)
]

type-new_package :
    (new_buffer : ℕ → PackData) (p : Packet) {c : Combine}
    → new_package new_buffer p ≡ some c
    → c.pack.type ≡ p.type
unfolding new_package init_package start_package
type-new_package new_buffer p e = elim (Option-cases (put_package started p)) [
  | inl fault ↦ ground (arith, fault)
  | inr ((b, c'), put) ↦ ground (arith, put, type-put_package started p put)
]
  where
    started : Combine
    started =
        start_package new_buffer
          (alloc_buffer new_buffer (blank_combine new_buffer) (p.slices * udp_packength)) p
          udp_packength

flush-IsVideo : (cs : List Combine) (cache : CombineCache) → AllVideo cs → IsVideo (flush cs cache)
unfolding flush
flush-IsVideo [] cache a = (tt, tt)
flush-IsVideo (c ∷ cs) cache a = elim (Bool-cases (is_done c)) [
  | inl done ↦
      let rest =
        flush-IsVideo cs (record cache { seq_report = next_seq c.pack.seq; retry_count = 0 }) a.1 in
      rw done ((a.0, rest.0), rest.1)
  | inr more ↦ rw more (tt, a)
]

give_up-AllVideo :
    (cs : List Combine) (cache : CombineCache) → AllVideo cs → AllVideo (give_up cs cache).pack_list
unfolding give_up
give_up-AllVideo [] cache a = tt
give_up-AllVideo (c ∷ cs) cache a = elim (Bool-cases (is_done c)) [
  | inl done ↦ rw done a
  | inr more ↦ rw more (give_up-AllVideo cs (record cache { seq_report = next_seq c.pack.seq }) a.1)
]

ask_range-IsVideo :
    (c : Combine) (cache : CombineCache) (now : ℕ)
    → AllVideo cache.pack_list
    → IsVideo (ask_range c cache now)
unfolding ask_range
ask_range-IsVideo c cache now a = elim (Bool-cases (due cache now)) [
  | inl timely ↦ rw timely (tt, a)
  | inr early ↦ rw early (tt, a)
]

respond-IsVideo :
    (l : List Combine) (cache : CombineCache) (now : ℕ)
    → AllVideo l
    → IsVideo (respond l (record cache { pack_list = l }) now)
unfolding respond
respond-IsVideo [] cache now a = (tt, tt)
respond-IsVideo (c ∷ cs) cache now a =
    let here = record cache { pack_list = c ∷ cs } in
    elim (Bool-cases (ltb cache.retry_count count_retry)) [
      | inl few ↦ elim (Bool-cases (not (cache.seq_report == c.pack.seq))) [
        | inl gap ↦ rw (few, gap) (ask_range-IsVideo c here now a)
        | inr next ↦ elim (Bool-cases (is_pos (find_full_package (c ∷ cs)) && due cache now)) [
          | inl ask ↦ rw (few, next, ask) (tt, a)
          | inr quiet ↦ rw (few, next, quiet) (flush-IsVideo (c ∷ cs) here a)
        ]
      ]
      | inr many ↦
          let left = record (give_up (c ∷ cs) here) { retry_count = 0 } in
          rw many (flush-IsVideo left.pack_list left (give_up-AllVideo (c ∷ cs) here a))
    ]

-- A video slice keeps the packets that wait video, and what it makes the code report is video.
pub on_video_slice-IsVideo :
    (new_buffer : ℕ → PackData) (cache : CombineCache) (p : Packet) (now : ℕ)
    {r : List Event × CombineCache}
    → AllVideo cache.pack_list
    → p.type ≡ type_media_videodata
    → on_video_slice new_buffer cache p now ≡ some r
    → IsVideo r
unfolding on_video_slice
on_video_slice-IsVideo new_buffer cache p now {r = r} a h e =
    elim (Bool-cases (has_seq p.seq cache.pack_list)) [
      | inl there ↦ elim (Option-cases (put_in cache.pack_list p)) [
        | inl fault ↦ ground (arith, there, fault)
        | inr (cs', put) ↦
            let is : respond cs' (record cache { pack_list = cs' }) now ≡ r =
              ground (arith, there, put) in
            subst IsVideo is
              (respond-IsVideo cs' cache now (put_in-AllVideo cache.pack_list p put a))
      ]
      | inr fresh ↦
          elim (Bool-cases
            (not (is_empty (trim cache.pack_list)) && time_after cache.seq_report p.seq)) [
              | inl drop ↦
                  let is : ([], record cache { pack_list = trim cache.pack_list }) ≡ r =
                    ground (arith, fresh, drop) in
                  subst IsVideo is (tt, trim-AllVideo cache.pack_list a)
              | inr keep ↦ elim (Option-cases (new_package new_buffer p)) [
                | inl fault ↦ ground (arith, fresh, keep, fault)
                | inr (c, made) ↦
                    let l' = insert c (trim cache.pack_list) in
                    let is : respond l' (record cache { pack_list = l' }) now ≡ r =
                      ground (arith, fresh, keep, made) in
                    subst IsVideo is (
                      respond-IsVideo l' cache now (
                        insert-AllVideo c (trim cache.pack_list)
                          (type-new_package new_buffer p made ∙ h)
                          (trim-AllVideo cache.pack_list a)))
              ]
            ]
    ]

-- Video slices, with their times.
abbrev pub VideoSlices : List (Packet × ℕ) → Type 0
VideoSlices [] = Unit {0}
VideoSlices ((p, now) ∷ l) = (p.type ≡ type_media_videodata) × VideoSlices l

append-VideoReports :
    (es es' : List Event) → VideoReports es → VideoReports es' → VideoReports (es ++ es')
append-VideoReports [] es' v v' = v'
append-VideoReports (request r ∷ es) es' v v' = append-VideoReports es es' v v'
append-VideoReports (request_range r ∷ es) es' v v' = append-VideoReports es es' v v'
append-VideoReports (report d ∷ es) es' v v' = (v.0, append-VideoReports es es' v.1 v')
append-VideoReports (report_slice p ∷ es) es' v v' = absurd v

pub run_video-IsVideo :
    (new_buffer : ℕ → PackData) (cache : CombineCache) (l : List (Packet × ℕ))
    {r : List Event × CombineCache}
    → AllVideo cache.pack_list
    → VideoSlices l
    → run_video new_buffer cache l ≡ some r
    → IsVideo r
unfolding run_video Option.bind
run_video-IsVideo new_buffer cache [] {r = r} a h e =
    let is : ([], cache) ≡ r = ground (arith, e) in subst IsVideo is (tt, a)
run_video-IsVideo new_buffer cache ((p, now) ∷ l) {r = r} a h e =
    elim (Option-cases (on_video_slice new_buffer cache p now)) [
      | inl fault ↦ ground (arith, fault)
      | inr (r₁, first) ↦ elim (Option-cases (run_video new_buffer r₁.1 l)) [
        | inl fault ↦ ground (arith, first, fault)
        | inr (q, then_l) ↦
            let v = on_video_slice-IsVideo new_buffer cache p now {r = r₁} a h.0 first in
            let w = run_video-IsVideo new_buffer r₁.1 l {r = q} v.1 h.1 then_l in
            let is : (r₁.0 ++ q.0, q.1) ≡ r = ground (arith, first, then_l) in
            subst IsVideo is (append-VideoReports r₁.0 q.0 v.0 w.0, w.1)
      ]
    ]
