-- ===== src/Decoder/Tests.antt =====
-- A decoder that refuses a packet once, and the theorem at it.
use rv_receive.Base.{ℕ, ◌≡◌, refl, Bool, true, false, none, some, [], ◌∷◌}
use rv_receive.Base.Int.{pos, negsuc}
use rv_receive.Decoder.{
  Frame, timeout, no_frame, got_frame, info_ready, show_frame, deinit_frame, DecoderState, times,
  mpp_err_timeout, get_frames, decode_one_pkt,
}
use rv_receive.Decoder.Rounds.{done_with, decode_one_pkt-rounds}

abbrev frame_of : ℕ → Bool → Frame
frame_of id change = record {
  id = id;
  info_change = change;
  eos = false;
  group_ret = pos 0;
  ext_ret = pos 0;
  limit_ret = pos 0;
}

abbrev fresh : DecoderState
fresh = record { display = true; has_group = false }

decode_one_pkt-rounds_example :
    (decode_one_pkt fresh (negsuc 0 ∷ pos 0 ∷ []) (
        timeout
        ∷ got_frame (frame_of 1 true)
        ∷ no_frame
        ∷ got_frame (frame_of 2 false)
        ∷ no_frame
        ∷ [])
      ≡ some (
          done_with fresh
            (info_ready ∷ deinit_frame 1 ∷ show_frame 2 ∷ deinit_frame 2 ∷ [])
            true
            []))
    × (decode_one_pkt fresh (negsuc 0 ∷ []) (no_frame ∷ []) ≡ none)
decode_one_pkt-rounds_example =
    decode_one_pkt-rounds fresh ((negsuc 0, timeout ∷ got_frame (frame_of 1 true) ∷ []) ∷ [])
      (pos 0) [] (got_frame (frame_of 2 false) ∷ []) [] (no_frame ∷ [])
      (refl, ((λ e. (refl, refl, refl)), refl, tt), tt) refl ((λ e. (refl, refl, refl)), refl, tt)

-- The sixth timeout ends the round.
too_late :
    get_frames times fresh
      (timeout ∷ timeout ∷ timeout ∷ timeout ∷ timeout ∷ timeout ∷ no_frame ∷ [])
    ≡ some (record { steps = []; ret = mpp_err_timeout; state = fresh; left = no_frame ∷ [] })
unfolding get_frames
too_late = refl

-- A frame whose group of buffers fails is not released.
not_released :
    get_frames times fresh (got_frame (record (frame_of 1 true) { limit_ret = negsuc 0 }) ∷ [])
    ≡ some (record {
      steps = [];
      ret = negsuc 0;
      state = record fresh { has_group = true };
      left = [];
    })
unfolding get_frames
not_released = refl
