-- ===== src/Client/Processor/Changed.antt =====
-- What becomes of received video after the number of players has changed.
use rv_receive.Base.{
  pick_then, pick_else, ℕ, ◌≡◌, refl, ap, ◌∙◌, Bool, true, false, not, ◌&&◌, List, [], ◌∷◌, ◌++◌,
  arith, sym, append-nil, append_assoc, map, take, ◌==◌, if◌then◌else◌,
}
use rv_receive.Base.Int.{eq_ℤ}
use rv_receive.Combine.{PackData}
use rv_receive.Client.{Client, Players, UdpClient, send, set_cache, udp_send}
use rv_receive.SendCache.{SendCache}
use rv_receive.Client.Playing.{quality_of, send_request_quality, put_data}
use rv_receive.Message.{type_request_quality, type_media_audiodata, type_media_videodata}
use rv_receive.Stream.{to_bytes}
use rv_receive.SendQueue.{ThreadSendData}
use rv_receive.Client.Processor.{
  Processor, audio, video, thread_data_list, set_thread_data_list, get_data, free_list, ask_again,
  serve, decode, Decoding, aac, h264, report_round, Round, put_all, report_rounds,
}

-- The client works, for another number of players than its decoder knows of.
pub record IsBehind (c : Client) (ps : Players) : Type 0 where
  pub running : c.running ≡ true
  pub working : c.working ≡ true
  pub other_num : eq_ℤ c.m_num ps.client_player_num ≡ false

-- The parts of a client that sending leaves alone.
record SameWork (c d : Client) : Type 0 where
  same_running : d.running ≡ c.running
  same_working : d.working ≡ c.working
  same_num : d.m_num ≡ c.m_num
  same_ready : d.media_decoder_ready ≡ c.media_decoder_ready

set_cache-SameWork : (c : Client) (type : ℕ) (s : SendCache) → SameWork c (set_cache c type s)
set_cache-SameWork c type s = ground arith

udp_send-SameWork :
    (c : Client) (u : UdpClient) (type : ℕ) (bytes : List ℕ) (now : ℕ)
    → SameWork c (udp_send c u type bytes now)
unfolding udp_send
udp_send-SameWork c u type bytes now = ground arith

send-SameWork :
    (c : Client) (type : ℕ) (bytes : List ℕ) (now : ℕ) → SameWork c (send c type bytes now)
unfolding send
send-SameWork c type bytes now = ground (arith, udp_send-SameWork c)

ask-SameWork : (c : Client) (ps : Players) (now : ℕ) → SameWork c (send_request_quality c ps now)
unfolding send_request_quality
ask-SameWork c ps now =
    let q = quality_of ps.client_player_num in
    let s =
      send-SameWork (record c { src_w = q.1; src_h = q.2 }) type_request_quality
        (to_bytes 4 20 ++ (to_bytes 4 q.1 ++ (to_bytes 4 q.2 ++ (to_bytes 4 q.0 ++ to_bytes 4 0))))
        now in
    record {
      same_running = s.same_running;
      same_working = s.same_working;
      same_num = s.same_num;
      same_ready = s.same_ready;
    }

free_list-SameWork : (k : Processor) (c : Client) → SameWork c (free_list k c)
unfolding free_list
free_list-SameWork audio c = record {
  same_running = refl;
  same_working = refl;
  same_num = refl;
  same_ready = refl;
}
free_list-SameWork video c = record {
  same_running = refl;
  same_working = refl;
  same_num = refl;
  same_ready = refl;
}

put_all-SameWork : (k : Processor) (c : Client) (l : List PackData) → SameWork c (put_all k c l)
unfolding put_all set_thread_data_list
put_all-SameWork k c [] = record {
  same_running = refl;
  same_working = refl;
  same_num = refl;
  same_ready = refl;
}
put_all-SameWork audio c (p ∷ l) =
    let s =
      put_all-SameWork audio (set_thread_data_list audio c (put_data (thread_data_list audio c) p))
        l in
    record {
      same_running = s.same_running;
      same_working = s.same_working;
      same_num = s.same_num;
      same_ready = s.same_ready;
    }
put_all-SameWork video c (p ∷ l) =
    let s =
      put_all-SameWork video (set_thread_data_list video c (put_data (thread_data_list video c) p))
        l in
    record {
      same_running = s.same_running;
      same_working = s.same_working;
      same_num = s.same_num;
      same_ready = s.same_ready;
    }

-- What a round leaves of a client that is behind.
abbrev asked : Processor → Client → Players → ℕ → Client
asked k c ps now =
    free_list k (send_request_quality (record c { media_decoder_ready = false }) ps now)

thread_data_list-free_list : (k : Processor) (c : Client) → thread_data_list k (free_list k c) ≡ []
unfolding thread_data_list free_list
thread_data_list-free_list audio c = refl
thread_data_list-free_list video c = refl

asked-SameWork :
    (k : Processor) (c : Client) (ps : Players) (now : ℕ)
    → SameWork (record c { media_decoder_ready = false }) (asked k c ps now)
asked-SameWork k c ps now =
    let a =
      free_list-SameWork k
        (send_request_quality (record c { media_decoder_ready = false }) ps now) in
    let b = ask-SameWork (record c { media_decoder_ready = false }) ps now in
    record {
      same_running = a.same_running ∙ b.same_running;
      same_working = a.same_working ∙ b.same_working;
      same_num = a.same_num ∙ b.same_num;
      same_ready = a.same_ready ∙ b.same_ready;
    }

keep-IsBehind : (c d : Client) (ps : Players) → SameWork c d → IsBehind c ps → IsBehind d ps
keep-IsBehind c d ps s v = record {
  running = s.same_running ∙ v.running;
  working = s.same_working ∙ v.working;
  other_num = ap (λ n. eq_ℤ n ps.client_player_num) s.same_num ∙ v.other_num;
}

asked-IsBehind :
    (k : Processor) (c : Client) (ps : Players) (now : ℕ)
    → IsBehind c ps
    → IsBehind (asked k c ps now) ps
asked-IsBehind k c ps now v =
    keep-IsBehind (record c { media_decoder_ready = false }) (asked k c ps now) ps
      (asked-SameWork k c ps now)
      (record { running = v.running; working = v.working; other_num = v.other_num })

-- A piece of data as it waits.
abbrev piece : PackData → ThreadSendData
piece p = record {
  type = p.type;
  data_size = p.data_size;
  time = p.time;
  body = take p.data_size p.body;
}

put_all_list :
    (k : Processor) (c : Client) (l : List PackData)
    → thread_data_list k (put_all k c l) ≡ thread_data_list k c ++ map piece l
unfolding put_all thread_data_list set_thread_data_list put_data
put_all_list audio c [] = sym (append-nil c.received_audio)
put_all_list audio c (p ∷ l) =
    put_all_list audio (record c { received_audio = c.received_audio ++ (piece p ∷ []) }) l
    ∙ append_assoc c.received_audio (piece p ∷ []) (map piece l)
put_all_list video c [] = sym (append-nil c.received_video)
put_all_list video c (p ∷ l) =
    put_all_list video (record c { received_video = c.received_video ++ (piece p ∷ []) }) l
    ∙ append_assoc c.received_video (piece p ∷ []) (map piece l)

-- What a piece hands to a decoder that is not ready: audio, and video if the client still works after the
-- wait for the decoder.
abbrev pub handed : Bool → PackData → List Decoding
handed still p =
    if p.type == type_media_audiodata
    then aac (take p.data_size p.body) ∷ []
    else if p.type == type_media_videodata
    then (if still then h264 (take p.data_size p.body) ∷ [] else [])
    else []

-- The first piece that comes in each round.
abbrev pub first_handed : Bool → List PackData → List Decoding
first_handed still [] = []
first_handed still (p ∷ l) = handed still p

abbrev pub all_handed : List Round → List Decoding
all_handed [] = []
all_handed (r ∷ rs) = first_handed r.still r.during ++ all_handed rs

decode_unready :
    (c : Client) (p : PackData) (still : Bool)
    → c.media_decoder_ready ≡ false
    → decode c (piece p) still ≡ handed still p
unfolding decode
decode_unready c p still e = rw e refl

set-IsBehind :
    (k : Processor) (c : Client) (ps : Players) (l : List ThreadSendData)
    → IsBehind c ps
    → IsBehind (set_thread_data_list k c l) ps
unfolding set_thread_data_list
set-IsBehind audio c ps l v = record {
  running = v.running;
  working = v.working;
  other_num = v.other_num;
}
set-IsBehind video c ps l v = record {
  running = v.running;
  working = v.working;
  other_num = v.other_num;
}

serve_unready :
    (k : Processor) (c : Client) (ps : Players) (during : List PackData) (l : List ThreadSendData)
    (still : Bool)
    → c.media_decoder_ready ≡ false
    → IsBehind c ps
    → l ≡ map piece during
    → let q = serve k c (get_data l) still in (q.0 ≡ first_handed still during) × IsBehind q.1 ps
unfolding serve get_data
serve_unready k c ps [] l still unready v e = rw e (refl, v)
serve_unready k c ps (p ∷ rest) l still unready v e =
    rw e (decode_unready c p still unready, set-IsBehind k c ps (map piece rest) v)

behind_round :
    (k : Processor) (c : Client) (ps : Players) (during : List PackData) (now : ℕ) (still : Bool)
    → IsBehind c ps
    → let c' = put_all k (asked k c ps now) during in
      report_round k c ps during now still ≡ serve k c' (get_data (thread_data_list k c')) still
unfolding report_round ask_again
behind_round k c ps during now still v =
    pick_else (not c.running) _ _ (ap not v.running)
    ∙ ap (λ x. let c' = put_all k x during in serve k c' (get_data (thread_data_list k c')) still)
        (pick_then (c.working && not (eq_ℤ c.m_num ps.client_player_num)) (asked k c ps now) c
          (both v.working (ap not v.other_num)))
  where
    both : {a b : Bool} → a ≡ true → b ≡ true → (a && b) ≡ true
    both p q = rw (p, q) refl

round-IsBehind :
    (k : Processor) (c : Client) (ps : Players) (during : List PackData) (now : ℕ) (still : Bool)
    → IsBehind c ps
    → let q = report_round k c ps during now still in
      (q.0 ≡ first_handed still during) × IsBehind q.1 ps
round-IsBehind k c ps during now still v =
    let a = asked k c ps now in
    let c' = put_all k a during in
    let s = put_all-SameWork k a during in
    rw (behind_round k c ps during now still v) (
      serve_unready k c' ps during _ still (s.same_ready ∙ (asked-SameWork k c ps now).same_ready)
        (keep-IsBehind a c' ps s (asked-IsBehind k c ps now v))
        (put_all_list k a during
          ∙ ap (λ t. t ++ map piece during) (thread_data_list-free_list k _)))

-- While a client works for another number of players than its decoder knows of, a round decodes nothing
-- of what waits at its start, and of what comes in it, before GetData takes the first of the data, no
-- more than the first piece: audio, or video if the client still works after the wait for the decoder. In
-- any number of rounds nothing else is decoded, and it stays so.
pub report_rounds-IsBehind :
    (k : Processor) (c : Client) (ps : Players) (rs : List Round)
    → IsBehind c ps
    → let q = report_rounds k c ps rs in (q.0 ≡ all_handed rs) × IsBehind q.1 ps
unfolding report_rounds
report_rounds-IsBehind k c ps [] v = (refl, v)
report_rounds-IsBehind k c ps (r ∷ rs) v =
    let c' = put_all k c r.put in
    let v' = keep-IsBehind c c' ps (put_all-SameWork k c r.put) v in
    let one = round-IsBehind k c' ps r.during r.now r.still v' in
    let q = report_round k c' ps r.during r.now r.still in
    let rest = report_rounds-IsBehind k q.1 ps rs one.1 in
    (
      ap (λ t. t ++ (report_rounds k q.1 ps rs).0) one.0
          ∙ ap (λ t. first_handed r.still r.during ++ t) rest.0,
      rest.1,
    )
