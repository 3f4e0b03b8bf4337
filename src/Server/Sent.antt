-- ===== src/Server/Sent.antt =====
-- A video message from the sender's Send, over datagrams, to the data that wait for the decoder of the
-- receiver's client.
use mathlib.Core.Path.{subst}
use rv_receive.Base.{
  ℕ, ◌+◌, ◌^◌, ◌≤◌, ◌<◌, ◌≡◌, refl, sym, ap, ◌∙◌, Option, none, some, List, [], ◌∷◌, arith, length,
  length-take-min,
}
use rv_receive.Base.Int.{ℤ}
use rv_receive.Message.{Packet, udp_packength, type_media_videodata, sockmagic_head}
use rv_receive.Combine.{PackData}
use rv_receive.Combine.Sum.{length-chunk}
use rv_receive.Combine.Collect.{IsSlice}
use rv_receive.Combine.Reassembly.{Slices}
use rv_receive.Combine.Room.{Allocates}
use rv_receive.UdpCombine.{count_retry}
use rv_receive.SendCache.{
  SendCache, SockAddr, thread_send, find_pack, thread_buffer, make_package, slice_count,
}
use rv_receive.SendCache.Count.{slice_count_le}
use rv_receive.SendCache.Slicing.{Accepts}
use rv_receive.SendCache.Pieces.{IsPiece, AllPieces, queue_video-AllPieces, VideoSlices-AllPieces}
use rv_receive.SendCache.Transfer.{stamp, queue_video, queued_sent}
use rv_receive.SendCache.Delivery.{queue_video-run_video}
use rv_receive.Client.{Players}
use rv_receive.Server.{Peer}
use rv_receive.Server.Table.{find_client}
use rv_receive.Server.Delivery.{Delivered, run-Delivered}
use rv_receive.Server.Datagram.{
  IsSent, AllSent, datagrams, fill_all, on_datagrams, on_datagrams_from,
}

module _ {seq n : ℕ} (msg : List ℕ) (pack : Packet) (magic : pack.magic ≡ sockmagic_head)
    (video : pack.type ≡ type_media_videodata) (time_fits : pack.time < 2 ^ 64) (low : seq < 2 ^ 32)
    (few : n < 2 ^ 8) where
  piece-IsSent : (p : Packet) → IsSlice seq n udp_packength msg p → IsPiece pack p → IsSent p
  piece-IsSent p s i =
      let short = length-chunk msg udp_packength p.cur_slice in
      let has_all = sym (length-take-min p.data_size p.payload) ∙ ap length s.bytes ∙ sym s.sized in
      record {
        framed = record {
          magic_fits = omega (arith, i.same_magic, magic);
          seq_fits = omega (arith, s.same_seq, low);
          type_fits = omega (arith, i.same_type, video);
          slices_fits = omega (arith, s.same_slices, few);
          cur_slice_fits = omega (arith, s.in_range, few);
          data_size_fits = omega (arith, s.sized, short);
          time_fits = omega (arith, i.same_time, time_fits);
          whole = omega (arith, has_all, i.held);
        };
        of_magic = i.same_magic ∙ magic;
        short = omega (arith, s.sized, short);
      }

  all-AllSent :
      (t : ℕ) (ps : List Packet)
      → Slices seq n udp_packength msg ps
      → AllPieces pack ps
      → AllSent (stamp t ps)
  all-AllSent t [] s i = tt
  all-AllSent t (p ∷ ps) s i = (piece-IsSent p s.0 i.0, all-AllSent t ps s.1 i.1)

-- What the thread sends of a video message goes into datagrams.
queue_video-AllSent :
    (sent : ℕ → ℤ) (s : SendCache) (fd : ℤ) (addr : SockAddr) (msg : List ℕ) (now t : ℕ)
    {r : List Packet × SendCache}
    → Accepts sent
    → s.send_list ≡ []
    → find_pack s.seq s.pack_list ≡ none
    → length msg + 24 ≤ thread_buffer
    → s.seq < 2 ^ 32
    → now < 2 ^ 64
    → thread_send sent (queue_video s fd addr msg now) ≡ some r
    → AllSent (stamp t r.0)
unfolding make_package
queue_video-AllSent sent s fd addr msg now t {r = r} ok idle unused fits low in_time e =
    let (r', e', (sl, hs, up)) = queued_sent sent s fd addr msg now ok idle unused fits in
    let same : r' ≡ r = cc (e, e') in
    let few =
      slice_count_le (length msg) udp_packength (omega arith) 255 (omega arith)
        (omega (arith, fits)) in
    all-AllSent msg (make_package s type_media_videodata msg udp_packength now) refl refl in_time
      low (omega (arith, few)) t r.0
      (subst (λ q. Slices s.seq (slice_count (length msg) udp_packength) udp_packength msg q.0) same
        sl)
      (queue_video-AllPieces sent s fd addr msg now {r = r} ok idle unused fits e)

type_of :
    (s : SendCache) (msg : List ℕ) (now : ℕ)
    → (make_package s type_media_videodata msg udp_packength now).type ≡ type_media_videodata
unfolding make_package
type_of s msg now = refl

-- A video message that fits in the sender's buffer and in that of the receiver's client, put into the
-- idle sender's cache under a number that is not in use, and sent with all slices over a socket that takes
-- them: the datagrams with what the next round of the thread sends, from an address whose client waits
-- for that number and for nothing else, put the message last in the list of video data of exactly that
-- client, once; nothing is answered or reported, and the other clients are as they were.
pub queue_video-on_datagrams :
    (new_buffer : ℕ → PackData) (sent : ℕ → ℤ) (s : SendCache) (fd : ℤ) (addr : SockAddr)
    (msg : List ℕ) (now t : ℕ) (buffer : List ℕ) (cs : List (Option Peer)) (ps : Players) (a : ℕ)
    (behind : List ℕ) (new_fd : ℕ) (p : Peer)
    → Allocates new_buffer
    → Accepts sent
    → s.send_list ≡ []
    → find_pack s.seq s.pack_list ≡ none
    → length msg + 24 ≤ thread_buffer
    → s.seq < 2 ^ 32
    → now < 2 ^ 64
    → 0 < p.client.len_buf_video
    → length msg ≤ p.client.len_buf_video
    → find_client a cs ≡ some p
    → p.combine.video_cache.pack_list ≡ []
    → p.combine.video_cache.retry_count < count_retry
    → p.combine.video_cache.seq_report ≡ s.seq
    → (r : List Packet × SendCache) × (cs' : List (Option Peer)) × (thread_send sent
          (queue_video s fd addr msg now)
        ≡ some r)
      × (on_datagrams new_buffer buffer cs ps (datagrams a behind (stamp t r.0)) new_fd
          ≡ some (record {
            answers = [];
            reports = [];
            buffer = fill_all buffer (stamp t r.0);
            clients = cs';
            players = ps;
          }))
      × Delivered a s.seq msg p cs cs'
queue_video-on_datagrams new_buffer sent s fd addr msg now t buffer cs ps a behind new_fd p
      allocates ok idle unused fits low in_time some_buffer small f empty tries next =
    let (r, d, e, run, is) =
      queue_video-run_video new_buffer sent s fd addr msg now t p.combine.video_cache allocates ok
        idle unused fits empty tries next in
    let pieces = queue_video-AllPieces sent s fd addr msg now {r = r} ok idle unused fits e in
    let v = VideoSlices-AllPieces _ t r.0 (type_of s msg now) pieces in
    let (cs', got, w) =
      run-Delivered new_buffer cs ps a (stamp t r.0) new_fd p d some_buffer small f empty v run
        is in
    let all =
      queue_video-AllSent sent s fd addr msg now t {r = r} ok idle unused fits low in_time e in
    (
      r,
      cs',
      e,
      on_datagrams_from a behind new_buffer new_fd buffer cs ps (stamp t r.0) all ∙ rw got refl,
      w,
    )
