-- ===== src/Adts/Tests.antt =====
-- A frame of eight bytes, and the theorem at it.
use rv_receive.Base.{ℕ, ◌≡◌, refl, List, [], ◌∷◌}
use rv_receive.Adts.{found, is_sync, frame_length, cut_frame, get_adts_frame}

abbrev eight : List ℕ
eight = 255 ∷ 241 ∷ 80 ∷ 128 ∷ 1 ∷ 31 ∷ 252 ∷ 9 ∷ []

-- A head that tells of no byte at all passes for a frame.
empty_frame : get_adts_frame (255 ∷ 241 ∷ 80 ∷ 128 ∷ 0 ∷ 0 ∷ 252 ∷ []) ≡ found []
unfolding get_adts_frame is_sync cut_frame frame_length
empty_frame = refl
