-- ===== src/Client/Processor/Live.antt =====
-- A client that works, with its decoder ready: what a round hands to the decoder.
use mathlib.Core.List.{map-append}
use rv_receive.Base.{
  pick_then, pick_else, ℕ, ◌≡◌, refl, sym, ap, ◌∙◌, Bool, true, false, not, ◌&&◌, List, [], ◌∷◌,
  ◌++◌, append_assoc, append-nil, map, arith, ◌==◌, if◌then◌else◌, take,
}
use rv_receive.Base.Int.{ℤ, pos, negsuc, eq_ℤ}
use rv_receive.Message.{type_media_videodata, type_media_audiodata}
use rv_receive.Combine.{PackData}
use rv_receive.SendQueue.{ThreadSendData}
use rv_receive.Client.{Client, Players}
use rv_receive.Client.Playing.{put_data}
use rv_receive.Client.Processor.{
  Processor, video, thread_data_list, set_thread_data_list, get_data, Decoding, h264, ask_again,
  decode, serve, report_round, Round, put_all, report_rounds,
}

-- The client works for as many players as its decoder knows of, and the decoder is ready.
pub record IsLive (c : Client) (ps : Players) : Type 0 where
  pub running : c.running ≡ true
  pub working : c.working ≡ true
  pub ready : c.media_decoder_ready ≡ true
  pub same_num : c.m_num ≡ ps.client_player_num

abbrev pub AllVideo : List ThreadSendData → Type 0
AllVideo [] = Unit {0}
AllVideo (d ∷ ds) = (d.type ≡ type_media_videodata) × AllVideo ds

abbrev pub AllPut : List PackData → Type 0
AllPut [] = Unit {0}
AllPut (p ∷ ps) = (p.type ≡ type_media_videodata) × AllPut ps

-- What is put in for a round.
abbrev pub round_put : Round → List PackData
round_put r = r.put ++ r.during

abbrev pub RoundsPut : List Round → Type 0
RoundsPut [] = Unit {0}
RoundsPut (r ∷ rs) = AllPut (round_put r) × RoundsPut rs

abbrev pub all_put : List Round → List PackData
all_put [] = []
all_put (r ∷ rs) = round_put r ++ all_put rs

abbrev pub waiting : List ThreadSendData → List Decoding
waiting = map (λ d. h264 d.body)

abbrev pub arriving : List PackData → List Decoding
arriving = map (λ p. h264 (take p.data_size p.body))

eq_ℤ_refl : (a : ℤ) → eq_ℤ a a ≡ true
eq_ℤ_refl (pos n) = ground arith
eq_ℤ_refl (negsuc n) = ground arith

same_players : (w : Bool) (a b : ℤ) → a ≡ b → (w && not (eq_ℤ a b)) ≡ false
same_players w a b e = rw (e, eq_ℤ_refl b) (and_false w)
  where
    and_false : (w : Bool) → (w && false) ≡ false
    and_false true = refl
    and_false false = refl

put_all-append :
    (k : Processor) (c : Client) (xs ys : List PackData)
    → put_all k (put_all k c xs) ys ≡ put_all k c (xs ++ ys)
unfolding put_all
put_all-append k c [] ys = refl
put_all-append k c (x ∷ xs) ys =
    put_all-append k (set_thread_data_list k c (put_data (thread_data_list k c) x)) xs ys

AllPut-append : (xs ys : List PackData) → AllPut (xs ++ ys) → AllPut xs
AllPut-append [] ys h = tt
AllPut-append (x ∷ xs) ys h = (h.0, AllPut-append xs ys h.1)

-- The round serves out of all that is put in by then.
pub live_round :
    (c : Client) (ps : Players) (r : Round)
    → IsLive (put_all video c r.put) ps
    → let c' = put_all video c (round_put r) in
      report_round video (put_all video c r.put) ps r.during r.now r.still
      ≡ serve video c' (get_data c'.received_video) r.still
unfolding report_round ask_again thread_data_list
live_round c ps r v =
    let d = put_all video c r.put in
    let serve_from : Client → List Decoding × Client =
      λ x. serve video x (get_data x.received_video) r.still in
    pick_else (not d.running) _ _ (ap not v.running)
    ∙ ap (λ x. serve_from (put_all video x r.during))
        (pick_else (d.working && not (eq_ℤ d.m_num ps.client_player_num)) _ d
          (same_players d.working d.m_num ps.client_player_num v.same_num))
    ∙ ap serve_from (put_all-append video c r.put r.during)

is_video :
    (t : ℕ)
    → t ≡ type_media_videodata
    → ((t == type_media_audiodata) ≡ false) × ((t == type_media_videodata) ≡ true)
is_video t e = (ground arith, ground arith)

pub decode_live :
    (c : Client) (ps : Players) (d : ThreadSendData) (still : Bool)
    → IsLive c ps
    → d.type ≡ type_media_videodata
    → decode c d still ≡ h264 d.body ∷ []
unfolding decode
decode_live c ps d still v e =
    let t = is_video d.type e in
    pick_else (d.type == type_media_audiodata) _ _ t.0
    ∙ pick_then (d.type == type_media_videodata) _ _ t.1
    ∙ pick_then (if c.media_decoder_ready then c.working else still) _ _
        (pick_then c.media_decoder_ready c.working still v.ready ∙ v.working)

-- What one operation leaves of the video data, with what it handed to the decoder.
pub record Keeps (before : List Decoding) (done : List Decoding) (c : Client) (ps : Players)
    : Type 0 where
  pub order : done ++ waiting c.received_video ≡ before
  pub live : IsLive c ps
  pub all_video : AllVideo c.received_video

serve_live :
    (c : Client) (ps : Players) (l : List ThreadSendData) (still : Bool)
    → IsLive c ps
    → c.received_video ≡ l
    → AllVideo l
    → let q = serve video c (get_data l) still in Keeps (waiting l) q.0 q.1 ps
unfolding serve get_data set_thread_data_list
serve_live c ps [] still v e a = record { order = ap waiting e; live = v; all_video = rw e a }
serve_live c ps (d ∷ ds) still v e a = record {
  order = ap (λ t. t ++ waiting ds) (decode_live c ps d still v a.0);
  live = record {
    running = v.running;
    working = v.working;
    ready = v.ready;
    same_num = v.same_num;
  };
  all_video = a.1;
}

AllVideo-append :
    (xs : List ThreadSendData) (y : ThreadSendData)
    → AllVideo xs
    → y.type ≡ type_media_videodata
    → AllVideo (xs ++ (y ∷ []))
AllVideo-append [] y a e = (e, tt)
AllVideo-append (x ∷ xs) y a e = (a.0, AllVideo-append xs y a.1 e)

pub put_all_live :
    (c : Client) (ps : Players) (l : List PackData)
    → IsLive c ps
    → AllVideo c.received_video
    → AllPut l
    → Keeps (waiting c.received_video ++ arriving l) [] (put_all video c l) ps
unfolding put_all set_thread_data_list thread_data_list put_data
put_all_live c ps [] v a h = record {
  order = sym (append-nil (waiting c.received_video));
  live = v;
  all_video = a;
}
put_all_live c ps (p ∷ l) v a h =
    let ele : ThreadSendData = record {
      type = p.type;
      data_size = p.data_size;
      time = p.time;
      body = take p.data_size p.body;
    } in
    let c' = record c { received_video = c.received_video ++ (ele ∷ []) } in
    let k =
      put_all_live c' ps l
        (record {
          running = v.running;
          working = v.working;
          ready = v.ready;
          same_num = v.same_num;
        })
        (AllVideo-append c.received_video ele a h.0) h.1 in
    record {
      order =
          k.order
          ∙ ap (λ t. t ++ arriving l) (map-append (λ d. h264 d.body) c.received_video (ele ∷ []))
          ∙ append_assoc (waiting c.received_video) (h264 ele.body ∷ []) (arriving l);
      live = k.live;
      all_video = k.all_video;
    }

pub put-IsLive :
    (c : Client) (ps : Players) (r : Round)
    → IsLive c ps
    → AllVideo c.received_video
    → AllPut (round_put r)
    → IsLive (put_all video c r.put) ps
put-IsLive c ps r v a h = (put_all_live c ps r.put v a (AllPut-append r.put r.during h)).live

pub round_live :
    (c : Client) (ps : Players) (r : Round)
    → IsLive c ps
    → AllVideo c.received_video
    → AllPut (round_put r)
    → let q = report_round video (put_all video c r.put) ps r.during r.now r.still in
      Keeps (waiting c.received_video ++ arriving (round_put r)) q.0 q.1 ps
round_live c ps r v a h =
    let k = put_all_live c ps (round_put r) v a h in
    let c' = put_all video c (round_put r) in
    let s = serve_live c' ps c'.received_video r.still k.live refl k.all_video in
    rw (live_round c ps r (put-IsLive c ps r v a h))
      (record { order = s.order ∙ k.order; live = s.live; all_video = s.all_video })

pub rounds_live :
    (c : Client) (ps : Players) (rs : List Round)
    → IsLive c ps
    → AllVideo c.received_video
    → RoundsPut rs
    → let q = report_rounds video c ps rs in
      Keeps (waiting c.received_video ++ arriving (all_put rs)) q.0 q.1 ps
unfolding report_rounds
rounds_live c ps [] v a h = record {
  order = sym (append-nil (waiting c.received_video));
  live = v;
  all_video = a;
}
rounds_live c ps (r ∷ rs) v a h =
    let k = round_live c ps r v a h.0 in
    let q = report_round video (put_all video c r.put) ps r.during r.now r.still in
    let rest = report_rounds video q.1 ps rs in
    let s = rounds_live q.1 ps rs k.live k.all_video h.1 in
    record {
      order =
          append_assoc q.0 rest.0 (waiting rest.1.received_video)
          ∙ ap (λ t. q.0 ++ t) s.order
          ∙ sym (append_assoc q.0 (waiting q.1.received_video) (arriving (all_put rs)))
          ∙ ap (λ t. t ++ arriving (all_put rs)) k.order
          ∙ append_assoc (waiting c.received_video) (arriving (round_put r)) (arriving (all_put rs))
          ∙ ap (λ t. waiting c.received_video ++ t)
              (sym (map-append (λ p. h264 (take p.data_size p.body)) (round_put r) (all_put rs)));
      live = s.live;
      all_video = s.all_video;
    }
