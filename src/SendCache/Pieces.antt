-- ===== src/SendCache/Pieces.antt =====
-- What is sent of a packet: its head's type, magic number and time, and the size of its data.
use rv_receive.Base.{
  ℕ, zero, suc, ◌+◌, ◌≤◌, ◌≡◌, refl, inl, inr, not, Option, none, some, List, [], ◌∷◌, arith, ltb,
  leb, Bool-cases, Option-cases, length, drop, take, length-take-min, ◌∙◌, ◌<◌, ◌^◌,
}
use mathlib.Core.Path.{subst}
use rv_receive.Base.Int.{ℤ, pos, pos_part, word32, negsuc, sub_from, ltb_ℤ}
use rv_receive.Message.{Packet, udp_packength, type_media_videodata, maxsize_sockpackage}
use rv_receive.Mask.{Masks, is_slice_mask}
use rv_receive.UdpCombine.Types.{VideoSlices}
use rv_receive.SendCache.{
  SendCache, SockAddr, thread_send, find_pack, thread_buffer, send_slices, slice_package, send_l,
  make_package, all_masks, leave_of,
}
use rv_receive.SendCache.Slicing.{Accepts}
use rv_receive.SendCache.Transfer.{stamp, queue_video, queue_video-send_l}

-- A packet that carries a part of another, with no more data than its head tells of.
pub record IsPiece (pack p : Packet) : Type 0 where
  pub same_magic : p.magic ≡ pack.magic
  pub same_type : p.type ≡ pack.type
  pub same_time : p.time ≡ pack.time
  pub held : length p.payload ≤ p.data_size

abbrev pub AllPieces : Packet → List Packet → Type 0
AllPieces pack [] = Unit {0}
AllPieces pack (p ∷ ps) = IsPiece pack p × AllPieces pack ps

held_leave :
    (len : ℤ) (one : ℕ) (d : List ℕ)
    → one < 2 ^ 32
    → length (take (pos_part (leave_of len one)) d) ≤ word32 (leave_of len one)
held_leave (pos n) one d h = ground (arith, h, length-take-min n d, length-take-min one d)
held_leave (negsuc n) one d h = ground (arith, length-take-min 0 d, length-take-min one d)

slice_package-IsPiece :
    (pack : Packet) (one s : ℕ) (d : List ℕ) (len : ℤ)
    → one < 2 ^ 32
    → IsPiece pack (slice_package pack one s d len)
slice_package-IsPiece pack one s d len h = record {
  same_magic = refl;
  same_type = refl;
  same_time = refl;
  held = held_leave len one d h;
}

module _ (sent : ℕ → ℤ) (pack : Packet) (one : ℕ) (masks : Option Masks) (small : one < 2 ^ 32)
    (full : length pack.payload ≡ pack.data_size) where
  -- Whatever is sent of a packet is a piece of it.
  send_slices-AllPieces :
      (k s : ℕ) (d : List ℕ) (len : ℤ) {r : List Packet × ℕ}
      → send_slices sent pack one masks k s d len ≡ some r
      → AllPieces pack r.0
  unfolding send_slices
  send_slices-AllPieces zero s d len {r = r} e =
      let is : ([], 0) ≡ r = ground (arith, e) in subst (λ r. AllPieces pack r.0) is tt
  send_slices-AllPieces (suc k) s d len {r = r} e =
      let piece = slice_package-IsPiece pack one s d len small in
      elim (Bool-cases (not (is_slice_mask s masks))) [
        | inl skip ↦
            send_slices-AllPieces k (s + 1) (drop one d) (sub_from len one) {r = r}
              (ground (arith, skip))
        | inr asks ↦ elim (Bool-cases (ltb maxsize_sockpackage (pos_part (leave_of len one)))) [
          | inl large ↦ ground (arith, asks, large)
          | inr small ↦ elim (Bool-cases (ltb_ℤ (sent s) (pos 0))) [
            | inl fails ↦
                let is : (slice_package pack one s d len ∷ [], 0) ≡ r =
                  ground (arith, asks, small, fails) in
                subst (λ r. AllPieces pack r.0) is (piece, tt)
            | inr goes ↦
                elim (Option-cases
                  (send_slices sent pack one masks k (s + 1) (drop one d) (sub_from len one))) [
                    | inl fault ↦ ground (arith, asks, small, goes, fault)
                    | inr (q, rest) ↦
                        let is : (slice_package pack one s d len ∷ q.0, pos_part (sent s) + q.1)
                            ≡ r =
                          ground (arith, asks, small, goes, rest) in
                        subst (λ r. AllPieces pack r.0) is
                          (
                            piece,
                            send_slices-AllPieces k (s + 1) (drop one d) (sub_from len one) {r = q}
                                rest,
                          )
                  ]
          ]
        ]
      ]

  whole-IsPiece : IsPiece pack pack
  whole-IsPiece = record {
    same_magic = refl;
    same_type = refl;
    same_time = refl;
    held = omega (arith, full);
  }

  pub send_l-AllPieces :
      {r : List Packet × ℤ} → send_l sent one pack masks ≡ some r → AllPieces pack r.0
  unfolding send_l
  send_l-AllPieces {r = r} e = elim (Bool-cases (leb pack.slices 1)) [
    | inl single ↦
        let is : (pack ∷ [], sent 0) ≡ r = ground (arith, single) in
        subst (λ r. AllPieces pack r.0) is (whole-IsPiece, tt)
    | inr several ↦
        elim (Option-cases
          (send_slices sent pack one masks pack.slices 0 pack.payload (pos pack.data_size))) [
            | inl fault ↦ ground (arith, several, fault)
            | inr (q, all) ↦
                let is : (q.0, pos q.1) ≡ r = ground (arith, several, all) in
                subst (λ r. AllPieces pack r.0) is
                  (send_slices-AllPieces pack.slices 0 pack.payload (pos pack.data_size) {r = q}
                    all)
          ]
  ]

-- What the sender's thread sends of a video message.
pub queue_video-AllPieces :
    (sent : ℕ → ℤ) (s : SendCache) (fd : ℤ) (addr : SockAddr) (msg : List ℕ) (now : ℕ)
    {r : List Packet × SendCache}
    → Accepts sent
    → s.send_list ≡ []
    → find_pack s.seq s.pack_list ≡ none
    → length msg + 24 ≤ thread_buffer
    → thread_send sent (queue_video s fd addr msg now) ≡ some r
    → AllPieces (make_package s type_media_videodata msg udp_packength now) r.0
unfolding make_package
queue_video-AllPieces sent s fd addr msg now {r = r} ok idle unused fits e =
    let pack = make_package s type_media_videodata msg udp_packength now in
    let is = queue_video-send_l sent s fd addr msg now ok idle unused fits in
    elim (Option-cases (send_l sent udp_packength pack (some all_masks))) [
      | inl fault ↦ ground (arith, is, fault)
      | inr (q, all) ↦
          let same : q.0 ≡ r.0 = ground (arith, is, all) in
          subst (AllPieces pack) same (
            send_l-AllPieces sent pack udp_packength (some all_masks) (omega arith) refl {r = q}
              all)
    ]

-- The pieces of a video packet are video.
pub VideoSlices-AllPieces :
    (pack : Packet) (t : ℕ) (ps : List Packet)
    → pack.type ≡ type_media_videodata
    → AllPieces pack ps
    → VideoSlices (stamp t ps)
VideoSlices-AllPieces pack t [] h a = tt
VideoSlices-AllPieces pack t (p ∷ ps) h a =
    (a.0.same_type ∙ h, VideoSlices-AllPieces pack t ps h a.1)
