-- ===== src/Ring/Run.antt =====
-- A client's calls in order: no sequence of them tells the ring from the queue of packets.
use rv_receive.Base.{ℕ, ◌≡◌, refl, List, [], ◌∷◌}
use rv_receive.Base.Int.{ℤ, pos}
use rv_receive.Ring.{Ring, write, read, free}
use rv_receive.Ring.Queue
use rv_receive.Ring.Queue.{Packets}
use rv_receive.Ring.Rep.{Rep, free-Rep}
use rv_receive.Ring.Write.{write_refines, capacity-write}
use rv_receive.Ring.Read.{read_refines, capacity-read}

pub data Op : Type 0 where
  put : List ℕ → Op
  get : ℕ → Op
  clear : Op

-- The value returned and the bytes copied out.
abbrev pub Reply : Type 0
Reply = ℤ × List ℕ

unfoldable pub run : Ring → List Op → List Reply
run r [] = []
run r (put bs ∷ ops) = let (v, r') = write r bs in (v, []) ∷ run r' ops
run r (get size ∷ ops) = let (v, bs, r') = read r size in (v, bs) ∷ run r' ops
run r (clear ∷ ops) = (pos 0, []) ∷ run (free r) ops

-- The same calls on the queue of packets.
pub run_queue : ℕ → Packets → List Op → List Reply
run_queue capacity ps [] = []
run_queue capacity ps (put bs ∷ ops) =
    let (v, ps') = Queue.write capacity ps bs in (v, []) ∷ run_queue capacity ps' ops
run_queue capacity ps (get size ∷ ops) =
    let (v, bs, ps') = Queue.read ps size in (v, bs) ∷ run_queue capacity ps' ops
run_queue capacity ps (clear ∷ ops) = (pos 0, []) ∷ run_queue capacity [] ops

capacity-free : (r : Ring) → (free r).capacity ≡ r.capacity
unfolding free
capacity-free r = refl

-- Every sequence of writes, reads and clearings returns from a ring what it returns from the queue
-- of the packets that the ring represents, at the ring's capacity.
pub run_refines :
    (ops : List Op) {r : Ring} {ps : Packets} → Rep r ps → run r ops ≡ run_queue r.capacity ps ops
unfolding run run_queue
run_refines [] v = refl
run_refines (put bs ∷ ops) {r} v =
    let (value, kept) = write_refines bs v in rw (run_refines ops kept, value, capacity-write r bs)
run_refines (get size ∷ ops) {r} v =
    let (value, bytes, kept) = read_refines size v in
    rw (run_refines ops kept, value, bytes, capacity-read r size)
run_refines (clear ∷ ops) {r} v = rw (run_refines ops (free-Rep v), capacity-free r)
