-- ===== src/UdpCombine/Audio.antt =====
-- Audio packets: a later one is reported at once, an earlier one is dropped, the same one is not
-- told from a new one.
use rv_receive.Base.{
  ℕ, ◌+◌, ◌*◌, ◌≤◌, ◌≡◌, ◌≢◌, refl, sym, ◌∙◌, true, false, some, [], ◌∷◌, arith, length,
  take-length,
}
use rv_receive.Message.{Packet, udp_packength}
use rv_receive.Combine.{
  Combine, PackData, is_done, put_package, init_package, start_package, reset_data,
}
use rv_receive.Combine.Collect.{IsSlice, Collecting}
use rv_receive.Combine.Sum.{length-chunk}
use rv_receive.Combine.Put.{put_package-Collecting}
use rv_receive.Combine.Again.{put_package-reset_data}
use rv_receive.Combine.Reassembly.{finished, all_there, start_package-Collecting}
use rv_receive.UdpCombine.{report, time_after, take_audio, on_audio_slice}
use rv_receive.UdpCombine.Deliver.{Reports}

-- A packet in one slice, with its data.
pub record Single (p : Packet) : Type 0 where
  pub one : p.slices ≡ 1
  pub first : p.cur_slice ≡ 0
  pub sized : p.data_size ≡ length p.payload
  pub small : p.data_size ≤ udp_packength

pub Single-IsSlice : {p : Packet} → Single p → IsSlice p.seq 1 udp_packength p.payload p
Single-IsSlice {p} s = record {
  same_seq = refl;
  same_slices = s.one;
  in_range = omega (arith, s.first);
  sized =
      omega (arith, s.first, s.sized, s.small, length-chunk p.payload udp_packength p.cur_slice);
  bytes =
      take-length p.payload p.data_size (omega (arith, s.sized))
      ∙ sym (take-length p.payload udp_packength (omega (arith, s.sized, s.small)))
      ∙ rw s.first refl;
}

module _ (new_buffer : ℕ → PackData) where
  on_audio_slice-later :
      (c : Combine) (p : Packet)
      → Single p
      → time_after p.seq c.pack.seq ≡ true
      → udp_packength + 4 ≤ length (start_package new_buffer c p udp_packength).pack.body
      → (c' : Combine) × (on_audio_slice new_buffer c p ≡ some (report c'.pack ∷ [], reset_data c'))
        × Collecting p.seq 1 udp_packength p.payload c'
        × Reports p.seq p.payload c'.pack
  unfolding on_audio_slice take_audio init_package
  on_audio_slice-later c p s later room =
      let slice = Single-IsSlice s in
      let covers : length p.payload ≤ 1 * udp_packength = omega (arith, s.sized, s.small) in
      let (c', e, v, adds) =
        put_package-Collecting (omega arith) covers
          (start_package-Collecting new_buffer c slice room) slice in
      let done : is_done c' ≡ true =
        all_there (omega arith) covers v (λ i h. ground (arith, adds i, s.first)) in
      let f = finished (omega arith) covers v done in
      (c', ground (arith, e, done, later), v, (v.its_seq, f.0, f.1))

  -- A packet in one slice, by its number: a later one is reported with its data; another one that is
  -- not later is dropped, if the packet before was reported.
  pub on_audio_slice-order :
      (c : Combine) (p : Packet)
      → Single p
      → udp_packength + 4 ≤ length (start_package new_buffer c p udp_packength).pack.body
      → (time_after p.seq c.pack.seq ≡ true
          → (c' : Combine) × (on_audio_slice new_buffer c p
              ≡ some (report c'.pack ∷ [], reset_data c'))
            × Reports p.seq p.payload c'.pack)
        × (c.pack.seq ≢ p.seq
            → time_after p.seq c.pack.seq ≡ false
            → is_done c ≡ false
            → on_audio_slice new_buffer c p ≡ some ([], c))
  unfolding on_audio_slice take_audio
  on_audio_slice-order c p s room = (
    λ later. let (c', e, v, r) = on_audio_slice-later c p s later room in (c', e, r),
    λ other earlier waits. ground (arith, other, earlier, waits),
  )

  same_put :
      (c : Combine) (p : Packet) {c' : Combine}
      → c.pack.seq ≡ p.seq
      → put_package c p ≡ some (true, c')
      → is_done c' ≡ true
      → on_audio_slice new_buffer c p ≡ some (report c'.pack ∷ [], reset_data c')
  unfolding on_audio_slice take_audio
  same_put c p same put done = ground (arith, same, put, done)

  -- A packet in one slice that comes twice is reported twice, the second time with twice the size.
  pub on_audio_slice_twice :
      (c : Combine) (p : Packet)
      → Single p
      → time_after p.seq c.pack.seq ≡ true
      → udp_packength + 4 ≤ length (start_package new_buffer c p udp_packength).pack.body
      → p.data_size + p.data_size ≤ udp_packength
      → (c₁ : Combine) × (c₂ : Combine) × (on_audio_slice new_buffer c p
          ≡ some (report c₁.pack ∷ [], reset_data c₁))
        × (on_audio_slice new_buffer (reset_data c₁) p ≡ some (report c₂.pack ∷ [], reset_data c₂))
        × (c₁.pack.data_size ≡ length p.payload)
        × (c₂.pack.data_size ≡ length p.payload + length p.payload)
  unfolding reset_data
  on_audio_slice_twice c p s later room h =
      let (c₁, e₁, v, r) = on_audio_slice-later c p s later room in
      let same : (reset_data c₁).pack.seq ≡ p.seq = v.its_seq in
      let (c₂, put, done, twice) =
        put_package-reset_data c₁ p v.its_seq v.its_slices s.one s.first
          (omega (arith, r.1, v.room, s.sized)) in
      (
        c₁,
        c₂,
        e₁,
        same_put (reset_data c₁) p same put done,
        r.1,
        omega (arith, twice, r.1, s.sized),
      )
