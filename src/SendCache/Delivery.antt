-- ===== src/SendCache/Delivery.antt =====
-- A message from the sender's cache over a network that loses nothing to the receiver's report.
use rv_receive.Base.{
  ℕ, ◌+◌, ◌*◌, ◌≤◌, ◌<◌, ◌≡◌, sym, ap, ◌∙◌, true, none, some, List, [], ◌∷◌, arith, length,
}
use mathlib.Core.Path.{subst}
use rv_receive.Base.Int.{ℤ}
use rv_receive.Message.{Packet, udp_packength, type_media_videodata}
use rv_receive.Combine.{PackData}
use rv_receive.Combine.Reassembly.{has, Slices}
use rv_receive.Combine.Room.{Allocates}
use rv_receive.UdpCombine.{CombineCache, report, count_retry}
use rv_receive.UdpCombine.Run.{run_video, reported}
use rv_receive.UdpCombine.Deliver.{run_video-deliver, Reports}
use rv_receive.SendCache.{SendCache, SockAddr, slice_count, thread_send, find_pack, thread_buffer}
use rv_receive.SendCache.Slicing.{Accepts, Rising}
use rv_receive.SendCache.Count.{slice_count_le, slice_count_lem, some_count}
use rv_receive.SendCache.Transfer.{
  stamp, packets-stamp, stamp-append, ends, split_last, asks_all, queue_video, queued_sent,
}

module _ (new_buffer : ℕ → PackData) (allocates : Allocates new_buffer) {seq n : ℕ} {msg : List ℕ}
    (few : n ≤ 256) (covers : length msg ≤ n * udp_packength) where
  -- All slices, each once and in order, are a message that the receiver reports.
  all_received :
      (cache : CombineCache) (t : ℕ) (p : Packet) (ps : List Packet)
      → cache.pack_list ≡ []
      → cache.retry_count < count_retry
      → cache.seq_report ≡ seq
      → Slices seq n udp_packength msg (p ∷ ps)
      → Rising 0 (p ∷ ps)
      → ((i : ℕ) → i < n → has i (p ∷ ps) ≡ true)
      → (d : PackData) × (run_video new_buffer cache (stamp t (p ∷ ps))
          ≡ some (report d ∷ [], reported cache seq))
        × Reports seq msg d
  all_received cache t p ps empty tries next sl up all =
      let (front, q, is, new, others, above) = ends p ps 0 up in
      let both = split_last front q (subst (Slices seq n udp_packength msg) is sl) in
      let same = packets-stamp t front in
      let got =
        run_video-deliver new_buffer allocates few covers cache (stamp t front) q t empty tries next
          (subst (Slices seq n udp_packength msg) (sym same) both.0) both.1
          (ap (has q.cur_slice) same ∙ new)
          (λ i h ne. ap (has i) same ∙ sym (others i ne) ∙ all i h) in
      (
        got.0,
        ap (run_video new_buffer cache) (ap (stamp t) is ∙ stamp-append t front (q ∷ [])) ∙ got.1,
        got.2,
      )

  some_received :
      (cache : CombineCache) (t : ℕ) (ps : List Packet)
      → 0 < n
      → cache.pack_list ≡ []
      → cache.retry_count < count_retry
      → cache.seq_report ≡ seq
      → Slices seq n udp_packength msg ps
      → Rising 0 ps
      → ((i : ℕ) → i < n → has i ps ≡ true)
      → (d : PackData) × (run_video new_buffer cache (stamp t ps)
          ≡ some (report d ∷ [], reported cache seq))
        × Reports seq msg d
  some_received cache t [] some_slices empty tries next sl up all = absurd (cc (all 0 some_slices))
  some_received cache t (p ∷ ps) some_slices empty tries next sl up all =
      all_received cache t p ps empty tries next sl up all

-- A video message that fits in the thread's buffer, put into the idle sender's cache under a number
-- that is not in use, and sent with all slices over a socket that takes them: what the next round of
-- the thread sends makes a receiver that waits for that number, and for nothing else, report exactly
-- the message.
pub queue_video-run_video :
    (new_buffer : ℕ → PackData) (sent : ℕ → ℤ) (s : SendCache) (fd : ℤ) (addr : SockAddr)
    (msg : List ℕ) (now t : ℕ) (cache : CombineCache)
    → Allocates new_buffer
    → Accepts sent
    → s.send_list ≡ []
    → find_pack s.seq s.pack_list ≡ none
    → length msg + 24 ≤ thread_buffer
    → cache.pack_list ≡ []
    → cache.retry_count < count_retry
    → cache.seq_report ≡ s.seq
    → (r : List Packet × SendCache) × (d : PackData) × (thread_send sent
          (queue_video s fd addr msg now)
        ≡ some r)
      × (run_video new_buffer cache (stamp t r.0) ≡ some (report d ∷ [], reported cache s.seq))
      × Reports s.seq msg d
queue_video-run_video new_buffer sent s fd addr msg now t cache allocates ok idle unused fits empty
      tries next =
    let (r, e, (sl, hs, up)) = queued_sent sent s fd addr msg now ok idle unused fits in
    let n = slice_count (length msg) udp_packength in
    let few =
      slice_count_le (length msg) udp_packength (omega arith) 255 (omega arith)
        (omega (arith, fits)) in
    let covers : length msg ≤ n * udp_packength =
      ground (arith, slice_count_lem (length msg) udp_packength (omega arith)) in
    let got =
      some_received new_buffer allocates {n = n} (omega (arith, few)) covers cache t r.0
        (some_count s type_media_videodata now udp_packength msg (omega arith)) empty tries next sl
        up (λ i h. ground (arith, hs i, h, asks_all i (omega (arith, few, h)))) in
    (r, got.0, e, got.1, got.2)
