-- ===== src/Client/Processor/Order.antt =====
-- The order in which received video is decoded.
use rv_receive.Base.{
  ◌≡◌, refl, ap, ◌∙◌, Bool, List, [], ◌∷◌, ◌++◌, arith, suc, ◌<◌, ◌≤◌, length, length-append,
}
use rv_receive.SendQueue.{ThreadSendData}
use rv_receive.Client.{Client, Players}
use rv_receive.Client.Processor.{
  video, get_data, serve, report_round, Round, put_all, report_rounds,
}
use rv_receive.Client.Processor.Live.{
  IsLive, AllVideo, AllPut, RoundsPut, all_put, waiting, arriving, live_round, decode_live,
  put_all_live, put-IsLive, round_put, round_live, rounds_live,
}

length-waiting : (l : List ThreadSendData) → length (waiting l) ≡ length l
length-waiting [] = refl
length-waiting (d ∷ ds) = ap suc (length-waiting ds)

serve_busy :
    (c : Client) (ps : Players) (l : List ThreadSendData) (still : Bool)
    → IsLive c ps
    → AllVideo l
    → 0 < length l
    → length (serve video c (get_data l) still).0 ≡ 1
unfolding serve get_data
serve_busy c ps [] still v a h = absurd (omega arith)
serve_busy c ps (d ∷ ds) still v a h = ap length (decode_live c ps d still v a.0)

-- A round that finds data decodes one piece of them.
round_busy :
    (c : Client) (ps : Players) (r : Round)
    → IsLive c ps
    → AllVideo c.received_video
    → AllPut (round_put r)
    → 0 < length c.received_video
    → length (report_round video (put_all video c r.put) ps r.during r.now r.still).0 ≡ 1
round_busy c ps r v a h some_wait =
    let c' = put_all video c (round_put r) in
    let k = put_all_live c ps (round_put r) v a h in
    let more : 0 < length c'.received_video = omega (
      arith,
      ap length k.order,
      length-waiting c'.received_video,
      length-waiting c.received_video,
      length-append (waiting c.received_video) (arriving (round_put r)),
    ) in
    rw (live_round c ps r (put-IsLive c ps r v a h))
      (serve_busy c' ps c'.received_video r.still k.live k.all_video more)

rounds_busy :
    (c : Client) (ps : Players) (rs : List Round)
    → IsLive c ps
    → AllVideo c.received_video
    → RoundsPut rs
    → length rs ≤ length c.received_video
    → length (report_rounds video c ps rs).0 ≡ length rs
unfolding report_rounds
rounds_busy c ps [] v a h l = refl
rounds_busy c ps (r ∷ rs) v a h l =
    let k = round_live c ps r v a h.0 in
    let q = report_round video (put_all video c r.put) ps r.during r.now r.still in
    let one = round_busy c ps r v a h.0 (omega arith) in
    let enough : length rs ≤ length q.1.received_video = omega (
      arith,
      one,
      ap length k.order,
      length-append q.0 (waiting q.1.received_video),
      length-waiting q.1.received_video,
      length-waiting c.received_video,
      length-append (waiting c.received_video) (arriving (round_put r)),
    ) in
    length-append q.0 (report_rounds video q.1 ps rs).0
    ∙ omega (arith, one, rounds_busy q.1 ps rs k.live k.all_video h.1 enough)

-- As long as the client works for as many players as its decoder knows of and the decoder is ready, the
-- video data that wait and those that come, in any number of rounds, go to the decoder in the order in
-- which they came, each once and none left out, and what is not decoded yet is what waits; and if there
-- is as much waiting at the start as there are rounds, each round decodes one.
pub report_rounds-order :
    (c : Client) (ps : Players) (rs : List Round)
    → IsLive c ps
    → AllVideo c.received_video
    → RoundsPut rs
    → let q = report_rounds video c ps rs in
      (q.0 ++ waiting q.1.received_video ≡ waiting c.received_video ++ arriving (all_put rs))
      × (length rs ≤ length c.received_video → length q.0 ≡ length rs)
report_rounds-order c ps rs v a h = ((rounds_live c ps rs v a h).order, rounds_busy c ps rs v a h)
