-- ===== src/Stream/Chunks.antt =====
-- However the stream is cut into pieces, the packets are handled as they were sent.
use mathlib.Core.Option
use rv_receive.Base.{
  ℕ, ◌+◌, ◌<◌, ◌≡◌, refl, sym, ap, ◌∙◌, inl, inr, Bool, true, false, Option, none, some, List, [],
  ◌∷◌, ◌++◌, append_assoc, append-nil, arith, leb, Option-cases, length, length-append, ltb, ◌==◌,
  ◌≤◌, Bool-cases, split_at, take-length,
}
use mathlib.Core.Path.{subst}
use rv_receive.Message.{Packet, maxsize_sockpackage}
use rv_receive.Combine.{Combine, PackData}
use rv_receive.Stream.{
  frame, recv_room, waits, drain, Recv, received, closed, again, failed, RecvState, on_recv,
  recv_loop,
}
use rv_receive.Stream.Frames.{waits-frame, length-frame}
use rv_receive.Stream.Drain.{
  frames, AllFramed, AllFramed-append, handle_all, handle_all-append, drain-frames,
}

-- The bytes of a stream.
abbrev pub stream : List Recv → List ℕ
stream [] = []
stream (received bs ∷ xs) = bs ++ stream xs
stream (closed ∷ xs) = stream xs
stream (again ∷ xs) = stream xs
stream (failed ∷ xs) = stream xs

-- What `recv` keeps to: it hands out no more bytes than it is asked for, and some if it is asked for some.
abbrev pub Handed : RecvState → List ℕ → Type 0
Handed s bs = (length bs ≤ recv_room s) × (0 < recv_room s → 0 < length bs)

-- A stream that does not end, is never silent for fifteen timeouts, and keeps to that.
abbrev pub Lively : (ℕ → PackData) → RecvState → List Recv → Type 0
Lively new_buffer s [] = Unit {0}
Lively new_buffer s (received bs ∷ xs) =
    Handed s bs
    × ((r : List PackData × RecvState)
        → on_recv new_buffer s (received bs) ≡ some r
        → Lively new_buffer r.1 xs)
Lively new_buffer s (closed ∷ xs) = ⊥
Lively new_buffer s (again ∷ xs) =
    (s.recv_timeout_counter + 1 < 15)
    × Lively new_buffer (record s { recv_timeout_counter = s.recv_timeout_counter + 1 }) xs
Lively new_buffer s (failed ∷ xs) = ⊥

-- Packets of at most 256 KiB.
abbrev pub AllSmall : List Packet → Type 0
AllSmall [] = Unit {0}
AllSmall (p ∷ ps) = (p.data_size ≤ maxsize_sockpackage) × AllSmall ps

AllSmall-append : (ps qs : List Packet) → AllSmall (ps ++ qs) → AllSmall qs
AllSmall-append [] qs a = a
AllSmall-append (p ∷ ps) qs a = AllSmall-append ps qs a.1

not_both : true ≡ false → ⊥
not_both h = cc

-- So a buffer that waits has room.
waits-room :
    (ps : List Packet) (s : RecvState) (rest : List ℕ)
    → AllFramed ps
    → AllSmall ps
    → s.buffer ++ rest ≡ frames ps
    → waits s.buffer ≡ true
    → 0 < recv_room s
waits-room [] s rest a small e w = omega (arith, ap length e, length-append s.buffer rest)
waits-room (p ∷ ps) s rest a small e w =
    elim (Bool-cases (ltb (length s.buffer) (p.data_size + 24))) [
      | inl part ↦ ground (arith, part, small.0)
      | inr enough ↦
          let (t, is, _) =
            split_at (frame p) s.buffer rest (frames ps) e
              (ground (arith, enough, length-frame a.0)) in
          absurd (not_both (sym w ∙ ap waits is ∙ (waits-frame p t a.0).0))
    ]

abbrev pub View : Type 0
View = List PackData × Combine × List ℕ × Bool

abbrev pub view : List PackData × RecvState → View
view r = (r.0, r.1.combine, r.1.buffer, r.1.running)

abbrev pub handled : List PackData × Combine → View
handled r = (r.0, r.1, [], true)

abbrev before : List PackData → View → View
before ds v = (ds ++ v.0, v.1, v.2, v.3)

-- A buffer that waits and holds all of some packets holds none.
nothing_left :
    (ps : List Packet) (buf : List ℕ)
    → AllFramed ps
    → buf ≡ frames ps
    → waits buf ≡ true
    → (ps ≡ []) × (buf ≡ [])
nothing_left [] buf a e w = (refl, e)
nothing_left (p ∷ ps) buf a e w =
    absurd (not_both (sym w ∙ ap waits e ∙ (waits-frame p (frames ps) a.0).0))

not_yet : (k : ℕ) → k < 15 → leb 15 k ≡ false
not_yet k h = ground (arith, h)

view_early :
    (ds : List PackData) (x : Option (List PackData × RecvState))
    → Option.map view (Option.map (λ q. (ds ++ q.0, q.1)) x)
      ≡ Option.map (before ds) (Option.map view x)
view_early ds none = refl
view_early ds (some q) = refl

handled_early :
    (ds : List PackData) (x : Option (List PackData × Combine))
    → Option.map handled (Option.map (λ q. (ds ++ q.0, q.1)) x)
      ≡ Option.map (before ds) (Option.map handled x)
handled_early ds none = refl
handled_early ds (some q) = refl

before_nothing : (x : Option View) → Option.map (before []) x ≡ x
before_nothing none = refl
before_nothing (some v) = refl

module _ (new_buffer : ℕ → PackData) where
  recv_end :
      (s : RecvState) (ps : List Packet)
      → AllFramed ps
      → s.running ≡ true
      → waits s.buffer ≡ true
      → s.buffer ≡ frames ps
      → Option.map view (recv_loop new_buffer s [])
        ≡ Option.map handled (handle_all new_buffer s.combine ps)
  unfolding recv_loop handle_all
  recv_end s ps a run w e = let n = nothing_left ps s.buffer a e w in rw (n.0, n.1, run) refl

  recv_again :
      (s : RecvState) (xs : List Recv)
      → s.running ≡ true
      → s.recv_timeout_counter + 1 < 15
      → recv_loop new_buffer s (again ∷ xs)
        ≡ Option.map
            (λ q. ([] ++ q.0, q.1))
            (recv_loop new_buffer
              (record s { recv_timeout_counter = s.recv_timeout_counter + 1 })
              xs)
  unfolding recv_loop on_recv Option.bind
  recv_again s xs run few = rw run (rw (not_yet (s.recv_timeout_counter + 1) few) refl)

  on_recv_bytes :
      (s : RecvState) (bs : List ℕ)
      → length bs ≤ recv_room s
      → 0 < length bs
      → on_recv new_buffer s (received bs)
        ≡ Option.map
            (λ r. (r.0, record s { buffer = r.1; combine = r.2; recv_timeout_counter = 0 }))
            (drain new_buffer (length (s.buffer ++ bs)) (s.buffer ++ bs) s.combine)
  unfolding on_recv
  on_recv_bytes s bs fit some_bytes =
      let all = take-length bs (recv_room s) fit in
      let any : (length bs == 0) ≡ false = ground (arith, some_bytes) in rw (all, any) refl

  recv_step :
      (s : RecvState) (x : Recv) (xs : List Recv)
      → s.running ≡ true
      → recv_loop new_buffer s (x ∷ xs)
        ≡ Option.bind
            (on_recv new_buffer s x)
            (λ r. Option.map (λ q. (r.0 ++ q.0, q.1)) (recv_loop new_buffer r.1 xs))
  unfolding recv_loop
  recv_step s x xs run = rw run refl

  -- After a piece the packets that are whole are handled, and the rest goes on.
  handled_piece :
      (s : RecvState) (bs : List ℕ) (xs : List Recv) (done todo : List Packet) (buf' : List ℕ)
      → s.running ≡ true
      → on_recv new_buffer s (received bs)
        ≡ Option.map
            (λ r. (r.0, record s { buffer = buf'; combine = r.1; recv_timeout_counter = 0 }))
            (handle_all new_buffer s.combine done)
      → ((r : List PackData × Combine)
          → handle_all new_buffer s.combine done ≡ some r
          → Option.map view (
              recv_loop new_buffer
                (record s { buffer = buf'; combine = r.1; recv_timeout_counter = 0 })
                xs)
            ≡ Option.map handled (handle_all new_buffer r.1 todo))
      → Option.map view (recv_loop new_buffer s (received bs ∷ xs))
        ≡ Option.map handled (handle_all new_buffer s.combine (done ++ todo))
  unfolding Option.bind
  handled_piece s bs xs done todo buf' run runs goes_on =
      ap (Option.map view) (recv_step s (received bs) xs run)
      ∙ elim (Option-cases (handle_all new_buffer s.combine done)) [
        | inl fault ↦ rw (runs, handle_all-append new_buffer s.combine done todo, fault) refl
        | inr (r, e) ↦
            rw (runs, handle_all-append new_buffer s.combine done todo, e)
              (view_early r.0 _
                ∙ ap (Option.map (before r.0)) (goes_on r e)
                ∙ sym (handled_early r.0 _))
      ]

  -- What the loop takes out of the buffer after a piece.
  on_recv_cut :
      (s : RecvState) (bs : List ℕ) (done : List Packet) (buf' : List ℕ)
      → length bs ≤ recv_room s
      → 0 < length bs
      → drain new_buffer (length (s.buffer ++ bs)) (s.buffer ++ bs) s.combine
        ≡ Option.map (λ r. (r.0, buf', r.1)) (handle_all new_buffer s.combine done)
      → on_recv new_buffer s (received bs)
        ≡ Option.map
            (λ r. (r.0, record s { buffer = buf'; combine = r.1; recv_timeout_counter = 0 }))
            (handle_all new_buffer s.combine done)
  on_recv_cut s bs done buf' fit some_bytes runs =
      on_recv_bytes s bs fit some_bytes
      ∙ elim (Option-cases (handle_all new_buffer s.combine done)) [
        | inl fault ↦ rw (runs, fault) refl
        | inr (r, e) ↦ rw (runs, e) refl
      ]

  -- Packets whose fields are within their types, of at most 256 KiB of data each, that are sent one
  -- behind the other arrive, whatever the pieces in which `recv` hands out their bytes, if it hands out
  -- no more than it is asked for and some if it is asked for some, and with fewer than fifteen timeouts
  -- in a row between them: the receive buffer always has room, and the loop reports what handling the
  -- packets one by one reports, faults if that faults, and is left with the same combination, an empty
  -- buffer, and running.
  pub recv_loop-frames :
      (xs : List Recv) (s : RecvState) (ps : List Packet)
      → AllFramed ps
      → AllSmall ps
      → s.running ≡ true
      → waits s.buffer ≡ true
      → Lively new_buffer s xs
      → s.buffer ++ stream xs ≡ frames ps
      → Option.map view (recv_loop new_buffer s xs)
        ≡ Option.map handled (handle_all new_buffer s.combine ps)
  recv_loop-frames [] s ps a small run w live e =
      recv_end s ps a run w (sym (append-nil s.buffer) ∙ e)
  recv_loop-frames (received bs ∷ xs) s ps a small run w live e =
      let buf = s.buffer ++ bs in
      let cut =
        drain-frames new_buffer ps (length buf) buf (stream xs) a
          (append_assoc s.buffer bs (stream xs) ∙ e) (omega arith) in
      let (done, todo, buf', is, left, w', runs) = cut in
      let room = waits-room ps s (bs ++ stream xs) a small e w in
      let step = on_recv_cut s bs done buf' live.0.0 (live.0.1 room) (runs s.combine) in
      rw is (
        handled_piece s bs xs done todo buf' run step (λ r f.
          recv_loop-frames xs (record s { buffer = buf'; combine = r.1; recv_timeout_counter = 0 })
            todo (AllFramed-append done todo (subst AllFramed is a))
            (AllSmall-append done todo (subst AllSmall is small)) run w'
            (live.1 (r.0, record s { buffer = buf'; combine = r.1; recv_timeout_counter = 0 })
              (step ∙ rw f refl))
            left))
  recv_loop-frames (closed ∷ xs) s ps a small run w live e = absurd live
  recv_loop-frames (again ∷ xs) s ps a small run w live e =
      ap (Option.map view) (recv_again s xs run live.0)
      ∙ view_early [] _
      ∙ before_nothing _
      ∙ recv_loop-frames xs (record s { recv_timeout_counter = s.recv_timeout_counter + 1 }) ps a
          small run w live.1 e
  recv_loop-frames (failed ∷ xs) s ps a small run w live e = absurd live
