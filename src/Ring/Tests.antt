-- ===== src/Ring/Tests.antt =====
-- Runs of the ring buffer, and the theorems at rings that writes and reads build.
use rv_receive.Base.{◌≤◌, ◌≡◌, refl, List, [], ◌∷◌, arith}
use rv_receive.Base.Int.{pos, negsuc}
use rv_receive.Ring.{
  Ring, done, outside, create, write, write_inner, copy_to, encode_size, decode_size, read,
  read_packet, read_inner, retain, get_free_size,
}
use rv_receive.Ring.Queue
use rv_receive.Ring.Rep.{Rep, create-Rep}
use rv_receive.Ring.Header.{decode_size-encode_size}
use rv_receive.Ring.Write.{write_refines}
use rv_receive.Ring.Retain.{retain_refines, retain_outside}
use rv_receive.Ring.Run.{Op, put, get, run, run_queue, run_refines}

abbrev script : List Op
script =
    put (7 ∷ 8 ∷ [])
    ∷ put (9 ∷ [])
    ∷ put (1 ∷ [])
    ∷ get 1
    ∷ get 2
    ∷ put (5 ∷ 6 ∷ [])
    ∷ get 4
    ∷ get 4
    ∷ get 4
    ∷ []

-- The third packet does not fit, the first read has too little room, and the fourth packet goes
-- round END.
run-script :
    run (create 12) script
    ≡ (pos 2, [])
      ∷ (pos 1, [])
      ∷ (negsuc 3, [])
      ∷ (negsuc 1, [])
      ∷ (pos 2, 7 ∷ 8 ∷ [])
      ∷ (pos 2, [])
      ∷ (pos 1, 9 ∷ [])
      ∷ (pos 2, 5 ∷ 6 ∷ [])
      ∷ (pos 0, [])
      ∷ []
unfolding run create write write_inner copy_to encode_size decode_size read read_packet read_inner
run-script = refl

-- A packet of two bytes in twelve.
abbrev loaded : Ring
loaded = (write (create 12) (7 ∷ 8 ∷ [])).1

loaded-Rep : Rep loaded ((7 ∷ 8 ∷ []) ∷ [])
unfolding create Queue.write
loaded-Rep = (write_refines (7 ∷ 8 ∷ []) (create-Rep 12 (omega arith))).1

decode_size-encode_size_example : decode_size (encode_size 70000) ≡ 70000
decode_size-encode_size_example = decode_size-encode_size 70000 (omega arith)

retain_refines_example :
    (r : Ring) × (retain loaded 8 ≡ done r) × Rep r [] × (8 ≤ 12 → 8 ≤ get_free_size r)
unfolding Queue.retain Queue.make_room create write write_inner
retain_refines_example = retain_refines 8 loaded-Rep (omega arith)

run_refines_example : run (create 12) script ≡ run_queue 12 [] script
unfolding create
run_refines_example = run_refines script (create-Rep 12 (omega arith))

-- Two packets of two bytes fill the array; when the first has gone out and a third has come in, and
-- the second has gone out too, the read pointer is END.
abbrev at_end : Ring
at_end = (read (write (read (write loaded (5 ∷ 6 ∷ [])).1 2).2 (9 ∷ [])).1 2).2

-- `Retain` reads past the array there: the header at the read pointer lies across END.
retain-at_end : retain at_end 12 ≡ outside
unfolding create write write_inner copy_to encode_size decode_size read read_packet read_inner
    get_free_size
retain-at_end = (retain_outside at_end 12 (omega arith)).1 (omega arith)
