-- ===== src/SendCache/Transfer.antt =====
-- A message from `AddPackageData` over the network to the receiver's report.
use mathlib.Core.Option
use rv_receive.Base.{
  ℕ, suc, ◌+◌, ◌≤◌, ◌<◌, ◌≡◌, ◌≢◌, refl, ap, ◌∙◌, true, false, not, none, some, List, [], ◌∷◌, ◌++◌,
  arith, ◌==◌, length,
}
use rv_receive.Base.Int.{ℤ}
use rv_receive.Message.{Packet, udp_packength, type_media_videodata, sockpackage_size}
use rv_receive.Mask.{is_slice_mask, request_masks, no_masks}
use rv_receive.Mask.Laws.{is_slice_mask-request_masks, is_slice_mask-bit, no_masks-IsMasks}
use rv_receive.Combine.Collect.{IsSlice}
use rv_receive.Combine.Reassembly.{has, Slices, slice_bit-no_masks}
use rv_receive.UdpCombine.Run.{packets}
use rv_receive.SendCache.{
  SendCache, SockAddr, SendData, all_masks, slice_count, drop_oldest, make_package,
  add_package_data, send, send_l, send_data, send_first, thread_send, find_pack, thread_buffer,
}
use rv_receive.SendCache.Slicing.{Accepts, Rising}
use rv_receive.SendCache.Count.{AllAsked, send_l-AllAsked}

-- All packets of a call as they come, at one time.
abbrev pub stamp : ℕ → List Packet → List (Packet × ℕ)
stamp now [] = []
stamp now (p ∷ ps) = (p, now) ∷ stamp now ps

pub packets-stamp : (now : ℕ) (ps : List Packet) → packets (stamp now ps) ≡ ps
packets-stamp now [] = refl
packets-stamp now (p ∷ ps) = ap (◌∷◌ p) (packets-stamp now ps)

pub stamp-append :
    (now : ℕ) (ps qs : List Packet) → stamp now (ps ++ qs) ≡ stamp now ps ++ stamp now qs
stamp-append now [] qs = refl
stamp-append now (p ∷ ps) qs = ap (◌∷◌ (p, now)) (stamp-append now ps qs)

pub below_first : (i lo : ℕ) (ps : List Packet) → i < lo → Rising lo ps → has i ps ≡ false
below_first i lo [] h r = refl
below_first i lo (p ∷ ps) h r =
    ground (arith, r.0, below_first i (suc p.cur_slice) ps (omega (arith, r.0)) r.1)

-- A list of rising slices with its last packet apart, which brings a number of its own.
pub ends :
    (p : Packet) (ps : List Packet) (lo : ℕ)
    → Rising lo (p ∷ ps)
    → (front : List Packet) × (q : Packet) × (p ∷ ps ≡ front ++ (q ∷ []))
      × (has q.cur_slice front ≡ false)
      × ((i : ℕ) → i ≢ q.cur_slice → has i (p ∷ ps) ≡ has i front)
      × (lo ≤ q.cur_slice)
ends p [] lo r = ([], p, refl, refl, (λ i ne. ground arith), r.0)
ends p (p' ∷ ps) lo r =
    let (front, q, is, new, others, above) = ends p' ps (suc p.cur_slice) r.1 in
    (
      p ∷ front,
      q,
      ap (◌∷◌ p) is,
      ground (arith, above, new),
      (λ i ne. ground (arith, others i ne)),
      omega (arith, above, r.0),
    )

pub split_last :
    {seq n one : ℕ} {msg : List ℕ} (front : List Packet) (q : Packet)
    → Slices seq n one msg (front ++ (q ∷ []))
    → Slices seq n one msg front × IsSlice seq n one msg q
split_last [] q s = (tt, s.0)
split_last (p ∷ front) q s = let (sf, sq) = split_last front q s.1 in ((s.0, sf), sq)

find_none_left :
    (x : ℕ) (ps : List Packet) → find_pack x ps ≡ none → find_pack x (drop_oldest ps) ≡ none
unfolding find_pack drop_oldest
find_none_left x [] h = refl
find_none_left x (p ∷ ps) h = ground (arith, find_none_left x ps)

find_last :
    (ps : List Packet) (p : Packet)
    → find_pack p.seq ps ≡ none
    → find_pack p.seq (ps ++ (p ∷ [])) ≡ some p
unfolding find_pack
find_last [] p h = ground arith
find_last (q ∷ ps) p h = ground (arith, find_last ps p)

pub asks_all : (i : ℕ) → i < 256 → is_slice_mask i (some all_masks) ≡ true
unfolding request_masks
asks_all i h =
    is_slice_mask-request_masks i {masks = no_masks} no_masks-IsMasks h
    ∙ ap not (is_slice_mask-bit i no_masks h ∙ ap (λ b. b == 1) (slice_bit-no_masks i))

thread_send_first :
    (sent : ℕ → ℤ) (s : SendCache) (d : SendData) (ds : List SendData)
    → s.send_list ≡ d ∷ ds
    → thread_send sent s
      ≡ Option.map (λ r. (r.0, record s { send_list = ds })) (send_first sent s.pack_list d)
unfolding thread_send
thread_send_first sent s d ds h = rw h refl

send_first_lem :
    (sent : ℕ → ℤ) (ps : List Packet) (d : SendData) {p : Packet}
    → find_pack d.seq ps ≡ some p
    → sockpackage_size p ≤ thread_buffer
    → send_first sent ps d ≡ send_l sent d.slice_size p (some d.slices_mask)
unfolding send_first
send_first_lem sent ps d found fits = ground (arith, found, fits)

-- The sender's part: the packet is kept, put into the list, and sent by the thread in the next round.
abbrev pub queue_video : SendCache → ℤ → SockAddr → List ℕ → ℕ → SendCache
queue_video s fd addr msg now =
    let r = add_package_data s type_media_videodata msg udp_packength now in
    send r.1 fd (some addr) udp_packength r.0.seq none

module _ (sent : ℕ → ℤ) (s : SendCache) (fd : ℤ) (addr : SockAddr) (msg : List ℕ) (now : ℕ)
    (ok : Accepts sent) (idle : s.send_list ≡ []) (unused : find_pack s.seq s.pack_list ≡ none)
    (fits : length msg + 24 ≤ thread_buffer) where
  abbrev pack : Packet
  pack = make_package s type_media_videodata msg udp_packength now

  abbrev slices : ℕ
  slices = slice_count (length msg) udp_packength

  kept : find_pack s.seq (drop_oldest s.pack_list ++ (pack ∷ [])) ≡ some pack
  unfolding make_package
  kept = find_last (drop_oldest s.pack_list) pack (find_none_left s.seq s.pack_list unused)

  pack_fits : sockpackage_size pack ≤ thread_buffer
  unfolding make_package
  pack_fits = fits

  -- The next round sends the packet that was kept.
  pub queue_video-send_l :
      thread_send sent (queue_video s fd addr msg now)
      ≡ Option.map
          (λ r. (r.0, record (queue_video s fd addr msg now) { send_list = [] }))
          (send_l sent udp_packength pack (some all_masks))
  unfolding add_package_data send
  queue_video-send_l =
      let q = queue_video s fd addr msg now in
      let d = send_data fd (some addr) udp_packength s.seq none in
      thread_send_first sent q d [] (rw idle refl)
      ∙ rw (send_first_lem sent q.pack_list d kept pack_fits) refl

  pub queued_sent :
      (r : List Packet × SendCache) × (thread_send sent (queue_video s fd addr msg now) ≡ some r)
      × AllAsked s.seq slices udp_packength msg (some all_masks) r.0
  queued_sent =
      let (r, e, a) =
        send_l-AllAsked s type_media_videodata now udp_packength msg sent (some all_masks) ok
          (omega arith) (omega arith) (omega (arith, fits)) in
      (
        (r.0, record (queue_video s fd addr msg now) { send_list = [] }),
        queue_video-send_l ∙ rw e refl,
        a,
      )
