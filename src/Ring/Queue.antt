-- ===== src/Ring/Queue.antt =====
-- What a client may expect of `RingBuffer`: a first-in first-out queue of packets, each of which
-- costs four bytes more than its data.
use rv_receive.Base.{ltb, ℕ, ◌+◌, ◌-◌, List, [], ◌∷◌, ◌++◌, leb, if◌then◌else◌, length}
use rv_receive.Base.Int.{ℤ, pos, sub_ℕ}

abbrev pub Packets : Type 0
Packets = List (List ℕ)

abbrev pub stored : Packets → ℕ
stored [] = 0
stored (p ∷ ps) = 4 + length p + stored ps

-- A packet that does not fit is refused with minus the number of bytes that are missing.
unfoldable pub write : ℕ → Packets → List ℕ → ℤ × Packets
write capacity ps bs =
    let need = stored ps + (4 + length bs) in
    if leb need capacity then (pos (length bs), ps ++ bs ∷ []) else (sub_ℕ capacity need, ps)

-- A packet larger than the destination stays, and minus its length is returned.
unfoldable pub read : Packets → ℕ → ℤ × List ℕ × Packets
read [] size = (pos 0, [], [])
read (p ∷ ps) size =
    if leb (length p) size then (pos (length p), p, ps) else (sub_ℕ 0 (length p), [], p ∷ ps)

-- The oldest packets go until `size` bytes are free.
unfoldable pub make_room : ℕ → Packets → ℕ → Packets
make_room capacity [] size = []
make_room capacity (p ∷ ps) size =
    if leb size (capacity - stored (p ∷ ps)) then p ∷ ps else make_room capacity ps size

-- Nothing goes where the capacity itself is too small.
unfoldable pub retain : ℕ → Packets → ℕ → Packets
retain capacity ps size = if ltb capacity size then ps else make_room capacity ps size
