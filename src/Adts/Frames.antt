-- ===== src/Adts/Frames.antt =====
-- What the search finds.
use rv_receive.Base.{ℕ, ◌≤◌, ◌≡◌, ◌≢◌, true, List, [], ◌∷◌, length}
use rv_receive.Adts.{is_sync, frame_length}

-- Bytes in front of a frame, none of them 255.
abbrev pub Skipped : List ℕ → Type 0
Skipped [] = Unit {0}
Skipped (b ∷ bs) = (b ≢ 255) × Skipped bs

-- A frame with a head of seven bytes, which tells of the length of all of it.
pub record IsFrame (f : List ℕ) : Type 0 where
  pub sync : is_sync f ≡ true
  pub whole : frame_length f ≡ length f
  pub has_head : 7 ≤ length f
