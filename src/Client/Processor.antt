-- ===== src/Client/Processor.antt =====
-- socket/TcpClient.cpp, ThreadDataProcessor and DoThreadReportData: what has been received goes to the
-- decoders, in a thread for each of audio and video. What the decoders are handed is in the result.
pub mod Live
pub mod Order
pub mod Changed
use rv_receive.Base.{
  ℕ, ◌≡◌, ◌≢◌, refl, sym, ap, ◌∙◌, Bool, true, false, not, ◌&&◌, Option, none, some, List, [], ◌∷◌,
  ◌++◌, append_assoc, append-nil, map, arith, ◌==◌, if◌then◌else◌, take,
}
use rv_receive.Base.Int.{ℤ, pos, negsuc, eq_ℤ}
use rv_receive.Message.{type_media_videodata, type_media_audiodata}
use rv_receive.Combine.{PackData}
use rv_receive.SendQueue.{ThreadSendData}
use rv_receive.Client.{Client, Players}
use rv_receive.Client.Playing.{send_request_quality, put_data}

pub data Processor : Type 0 where
  audio video : Processor

unfoldable pub thread_data_list : Processor → Client → List ThreadSendData
thread_data_list audio c = c.received_audio
thread_data_list video c = c.received_video

unfoldable pub set_thread_data_list : Processor → Client → List ThreadSendData → Client
set_thread_data_list audio c l = record c { received_audio = l }
set_thread_data_list video c l = record c { received_video = l }

-- `GetData`, after its wait.
unfoldable pub get_data : List ThreadSendData → Option ThreadSendData × List ThreadSendData
get_data [] = (none, [])
get_data (d ∷ ds) = (some d, ds)

-- `FreeList`.
unfoldable pub free_list : Processor → Client → Client
unfolding set_thread_data_list
free_list k c = set_thread_data_list k c []

-- What is handed to `faad_decode_frame` or `decode_one_pkt`.
pub data Decoding : Type 0 where
  aac : List ℕ → Decoding
  h264 : List ℕ → Decoding

-- Another number of players than the decoder knows: the client is asked for another quality, and what
-- waits is dropped.
unfoldable pub ask_again : Processor → Client → Players → ℕ → Client
ask_again k c ps now =
    if c.working && not (eq_ℤ c.m_num ps.client_player_num)
    then free_list k (send_request_quality (record c { media_decoder_ready = false }) ps now)
    else c

-- Video waits for the decoder for a while, by the end of which the client works, or does not, as
-- `still` has it.
unfoldable pub decode : Client → ThreadSendData → Bool → List Decoding
decode c d still =
    if d.type == type_media_audiodata
    then aac d.body ∷ []
    else if d.type == type_media_videodata
    then (if (if c.media_decoder_ready then c.working else still) then h264 d.body ∷ [] else [])
    else []

unfoldable pub serve :
    Processor → Client → Option ThreadSendData × List ThreadSendData → Bool → List Decoding × Client
serve k c (none, ds) still = ([], c)
serve k c (some d, ds) still = (decode c d still, set_thread_data_list k c ds)

unfoldable pub put_all : Processor → Client → List PackData → Client
put_all k c [] = c
put_all k c (p ∷ ps) = put_all k (set_thread_data_list k c (put_data (thread_data_list k c) p)) ps

-- One round of the loop. `GetData` waits for a while if there is nothing: `during` comes in before it
-- takes the first of the data.
unfoldable pub report_round :
    Processor → Client → Players → List PackData → ℕ → Bool → List Decoding × Client
unfolding put_all
report_round k client ps during now still =
    let c = put_all k (ask_again k client ps now) during in
    if not client.running then ([], client) else serve k c (get_data (thread_data_list k c)) still

-- What is put in before a round and in it, and its time.
pub record Round : Type 0 where
  pub put : List PackData
  pub during : List PackData
  pub now : ℕ
  pub still : Bool

unfoldable pub report_rounds : Processor → Client → Players → List Round → List Decoding × Client
report_rounds k c ps [] = ([], c)
report_rounds k c ps (r ∷ rs) =
    let q = report_round k (put_all k c r.put) ps r.during r.now r.still in
    let rest = report_rounds k q.1 ps rs in (q.0 ++ rest.0, rest.1)
