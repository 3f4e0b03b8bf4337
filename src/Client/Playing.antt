-- ===== src/Client/Playing.antt =====
-- socket/TcpClient.cpp: a client begins and ends to play (StopCtrl, SendRequestQuality), and the data that
-- it receives meanwhile.
use rv_receive.Base.{ℕ, zero, suc, ◌+◌, true, false, List, [], ◌∷◌, ◌++◌, ◌==◌, if◌then◌else◌, take}
use rv_receive.Base.Int.{ℤ, pos, negsuc, is_num}
use rv_receive.Message.{type_request_quality}
use rv_receive.Combine.{PackData}
use rv_receive.Stream.{to_bytes}
use rv_receive.SendQueue.{ThreadSendData, clear_audio_data, clear_video_data}
use rv_receive.Client.{Client, Players, send}

-- The quality, width and height that a client is asked for, by the number of players.
abbrev pub quality_of : ℤ → ℕ × ℕ × ℕ
quality_of n =
    if is_num n 1
    then (5, 1920, 1080)
    else if is_num n 2
    then (4, 1600, 900)
    else if is_num n 3
    then (3, 1600, 900)
    else if is_num n 4
    then (2, 1366, 768)
    else (0, 0, 0)

unfoldable pub send_request_quality : Client → Players → ℕ → Client
unfolding send
send_request_quality c ps now =
    let q = quality_of ps.client_player_num in
    send (record c { src_w = q.1; src_h = q.2 }) type_request_quality
      (to_bytes 4 20 ++ (to_bytes 4 q.1 ++ (to_bytes 4 q.2 ++ (to_bytes 4 q.0 ++ to_bytes 4 0))))
      now

-- `ThreadDataProcessor::PutData`; the list has no limit.
unfoldable pub put_data : List ThreadSendData → PackData → List ThreadSendData
put_data ds p =
    ds
    ++ (record {
      type = p.type;
      data_size = p.data_size;
      time = p.time;
      body = take p.data_size p.body;
    }
        ∷ [])

abbrev pub succ_ℤ : ℤ → ℤ
succ_ℤ (pos n) = pos (n + 1)
succ_ℤ (negsuc zero) = pos 0
succ_ℤ (negsuc (suc n)) = negsuc n

abbrev pub pred_ℤ : ℤ → ℤ
pred_ℤ (pos zero) = negsuc 0
pred_ℤ (pos (suc n)) = pos n
pred_ℤ (negsuc n) = negsuc (n + 1)

-- The first element that is `id` goes.
unfoldable pub erase : ℕ → List ℕ → List ℕ
erase id [] = []
erase id (x ∷ xs) = if x == id then xs else x ∷ erase id xs

-- The player leaves the list, if it is there, and the number goes down in any case.
unfoldable pub stop_ctrl : Client → Players → Client × Players
unfolding erase
stop_ctrl c ps =
    let num = pred_ℤ ps.client_player_num in
    (
      record c {
        working = false;
        media_decoder_ready = false;
        received_video = [];
        m_num = num;
        send_cache_manager = clear_video_data (clear_audio_data c.send_cache_manager);
      },
      record {
        client_player_num = num;
        client_player_list = erase c.client_id ps.client_player_list;
      },
    )

-- `TYPE_MIRROR_RESOLUTION`: a client that does not work yet becomes a player.
unfoldable pub start_mirror : Client → Players → ℕ → Client × Players
unfolding send_request_quality
start_mirror c ps now =
    let cleared : Client = record c {
      send_cache_manager = clear_video_data (clear_audio_data c.send_cache_manager);
    } in
    let num = succ_ℤ ps.client_player_num in
    let joined : Players = record {
      client_player_num = num;
      client_player_list = ps.client_player_list ++ (c.client_id ∷ []);
    } in
    if c.working
    then (
      record cleared { m_num = ps.client_player_num; working = true; media_decoder_ready = true },
      ps,
    )
    else (
      record (send_request_quality cleared joined now) {
        m_num = num;
        working = true;
        media_decoder_ready = true;
      },
      joined,
    )
