-- ===== src/Stream/Drain.antt =====
-- What the loop takes out of the buffer: the packets that are whole, in order.
use mathlib.Core.Option
use rv_receive.Base.{
  ℕ, zero, suc, ◌+◌, ◌≤◌, ◌≡◌, refl, sym, ap, ◌∙◌, inl, inr, true, Option, some, List, [], ◌∷◌,
  ◌++◌, append_assoc, arith, ltb, Bool-cases, Option-cases, length, length-append, split_at,
}
use rv_receive.Message.{Packet}
use rv_receive.Combine.{Combine, PackData}
use rv_receive.Stream.{frame, waits, handle, drain}
use rv_receive.Stream.Frames.{
  Framed, length-frame, packet_at-frame, drop-frame, waits-frame, waits-part,
}

-- The bytes of packets sent one behind the other.
abbrev pub frames : List Packet → List ℕ
frames [] = []
frames (p ∷ ps) = frame p ++ frames ps

abbrev pub AllFramed : List Packet → Type 0
AllFramed [] = Unit {0}
AllFramed (p ∷ ps) = Framed p × AllFramed ps

pub AllFramed-append : (ps qs : List Packet) → AllFramed (ps ++ qs) → AllFramed qs
AllFramed-append [] qs a = a
AllFramed-append (p ∷ ps) qs a = AllFramed-append ps qs a.1

module _ (new_buffer : ℕ → PackData) where
  -- The packets handled one after the other.
  unfoldable pub handle_all : Combine → List Packet → Option (List PackData × Combine)
  handle_all c [] = some ([], c)
  handle_all c (p ∷ ps) =
      Option.bind (handle new_buffer c p)
        (λ r. Option.map (λ q. (r.0 ++ q.0, q.1)) (handle_all r.1 ps))

  pub handle_all-append :
      (c : Combine) (ps qs : List Packet)
      → handle_all c (ps ++ qs)
        ≡ Option.bind
            (handle_all c ps)
            (λ r. Option.map (λ q. (r.0 ++ q.0, q.1)) (handle_all r.1 qs))
  unfolding handle_all Option.bind
  handle_all-append c [] qs = elim (Option-cases (handle_all c qs)) [
    | inl fault ↦ rw fault refl
    | inr (q, e) ↦ rw e refl
  ]
  handle_all-append c (p ∷ ps) qs = elim (Option-cases (handle new_buffer c p)) [
    | inl fault ↦ rw fault refl
    | inr (r, e) ↦
        rw (e, handle_all-append r.1 ps qs)
          (elim (Option-cases (handle_all r.1 ps)) [
            | inl fault ↦ rw fault refl
            | inr (r', e') ↦ rw e' (elim (Option-cases (handle_all r'.1 qs)) [
              | inl fault ↦ rw fault refl
              | inr (q, e'') ↦ rw e'' (ap (λ l. some (l, q.1)) (sym (append_assoc r.0 r'.0 q.0)))
            ])
          ])
  ]

  drain_wait :
      (fuel : ℕ) (buf : List ℕ) (c : Combine)
      → waits buf ≡ true
      → drain new_buffer fuel buf c ≡ some ([], buf, c)
  unfolding drain
  drain_wait zero buf c w = refl
  drain_wait (suc fuel) buf c w = rw w refl

  drain_one :
      (fuel : ℕ) (p : Packet) (t : List ℕ) (c : Combine)
      → Framed p
      → drain new_buffer (suc fuel) (frame p ++ t) c
        ≡ Option.bind
            (handle new_buffer c p)
            (λ r. Option.map (λ q. (r.0 ++ q.0, q.1, q.2)) (drain new_buffer fuel t r.1))
  unfolding drain
  drain_one fuel p t c f =
      let w = waits-frame p t f in rw (w.0, w.1, packet_at-frame p t f, drop-frame p t f) refl

  -- The packets that are handled, those that are not, and the part of one that stays in the buffer.
  abbrev pub Cut : ℕ → List ℕ → List ℕ → List Packet → Type 0
  Cut fuel buf rest ps =
      (done : List Packet) × (todo : List Packet) × (buf' : List ℕ) × (ps ≡ done ++ todo)
      × (buf' ++ rest ≡ frames todo)
      × (waits buf' ≡ true)
      × ((c : Combine)
          → drain new_buffer fuel buf c ≡ Option.map (λ r. (r.0, buf', r.1)) (handle_all c done))

  keep_all :
      (fuel : ℕ) (buf rest : List ℕ) (ps : List Packet)
      → buf ++ rest ≡ frames ps
      → waits buf ≡ true
      → Cut fuel buf rest ps
  unfolding handle_all
  keep_all fuel buf rest ps e w = ([], ps, buf, refl, e, w, λ c. drain_wait fuel buf c w)

  hand_one :
      (fuel : ℕ) (p : Packet) (t rest : List ℕ) (ps : List Packet)
      → Framed p
      → Cut fuel t rest ps
      → Cut (suc fuel) (frame p ++ t) rest (p ∷ ps)
  unfolding handle_all Option.bind
  hand_one fuel p t rest ps f (done, todo, buf', is, left, w, runs) = (
    p ∷ done,
    todo,
    buf',
    ap (◌∷◌ p) is,
    left,
    w,
    λ c. drain_one fuel p t c f ∙ elim (Option-cases (handle new_buffer c p)) [
      | inl fault ↦ rw fault refl
      | inr (r, e) ↦
          rw (e, runs r.1)
            (elim (Option-cases (handle_all r.1 done)) [
              | inl fault ↦ rw fault refl
              | inr (q, e') ↦ rw e' refl
            ])
    ],
  )

  nil_waits : (buf : List ℕ) → length buf ≤ 0 → waits buf ≡ true
  unfolding waits
  nil_waits [] h = refl
  nil_waits (b ∷ buf) h = absurd (omega arith)

  pub drain-frames :
      (ps : List Packet) (fuel : ℕ) (buf rest : List ℕ)
      → AllFramed ps
      → buf ++ rest ≡ frames ps
      → length buf ≤ fuel
      → Cut fuel buf rest ps
  drain-frames [] fuel buf rest a e h =
      keep_all fuel buf rest [] e
        (nil_waits buf (omega (arith, ap length e, length-append buf rest)))
  drain-frames (p ∷ ps) zero buf rest a e h = keep_all zero buf rest (p ∷ ps) e (nil_waits buf h)
  drain-frames (p ∷ ps) (suc fuel) buf rest a e h =
      elim (Bool-cases (ltb (length buf) (p.data_size + 24))) [
        | inl part ↦
            keep_all (suc fuel) buf rest (p ∷ ps) e
              (waits-part p buf rest (frames ps) a.0 e (ground (arith, part)))
        | inr enough ↦
            let (t, is, left) =
              split_at (frame p) buf rest (frames ps) e
                (ground (arith, enough, length-frame a.0)) in
            rw is (
              hand_one fuel p t rest ps a.0 (
                drain-frames ps fuel t rest a.1 left
                  (omega (arith, ap length is, length-append (frame p) t, length-frame a.0))))
      ]
