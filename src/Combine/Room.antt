-- ===== src/Combine/Room.antt =====
-- When the buffer has room for the slices of a packet and the zeros behind them.
use rv_receive.Base.{ℕ, ◌+◌, ◌-◌, ◌*◌, ◌%◌, ◌≤◌, ◌<◌, ◌≡◌, ◌↔◌, ap, arith, length}
use rv_receive.Message.{Packet, udp_packength}
use rv_receive.Combine.{Combine, PackData, start_package, alloc_buffer, align}

-- What an allocator promises of `new uint8_t[total]`: that many bytes, of which the head is 24.
abbrev pub Allocates : (ℕ → PackData) → Type 0
Allocates new_buffer = (total : ℕ) → length (new_buffer total).body ≡ total - 24

module _ (new_buffer : ℕ → PackData) (allocates : Allocates new_buffer) where
  room_new :
      (c : Combine) (p : Packet) (one : ℕ)
      → c.all_buf_size < p.slices * one
      → length (start_package new_buffer c p one).pack.body ≡ align (p.slices * one + 24) - 24
  unfolding start_package alloc_buffer
  room_new c p one h = ground (arith, allocates (align (p.slices * one + 24)))

  room_old :
      (c : Combine) (p : Packet) (one : ℕ)
      → p.slices * one ≤ c.all_buf_size
      → (start_package new_buffer c p one).pack.body ≡ c.pack.body
  unfolding start_package
  room_old c p one h = ground arith

  -- `InitPackage` compares the slices alone with the size of the whole buffer, and `AllocBuffer` adds
  -- the head but not the zeros. So the slices with the zeros have room exactly when: in a new buffer,
  -- rounding up to 4096 leaves four bytes at least; in the old one, head and zeros fit beside them.
  pub room-start_package :
      (c : Combine) (p : Packet) (one : ℕ)
      → length c.pack.body ≡ c.all_buf_size - 24
      → let size = p.slices * one in
        let room = length (start_package new_buffer c p one).pack.body in
        (c.all_buf_size < size
          → (size + 4 ≤ room) ↔ ((1 ≤ (size + 24) % 4096) × ((size + 24) % 4096 ≤ 4092)))
        × (size ≤ c.all_buf_size → (size + 4 ≤ room) ↔ (size + 28 ≤ c.all_buf_size))
  room-start_package c p one e = (
    λ h. (λ r. omega (arith, room_new c p one h), λ r. omega (arith, room_new c p one h)),
    λ h. (
      λ r. omega (arith, ap length (room_old c p one h)),
      λ r. omega (arith, ap length (room_old c p one h)),
    ),
  )

  -- A buffer that `AllocBuffer` made for UDP slices of 32 KiB always has room for as many.
  pub room_udp :
      (c : Combine) (p : Packet)
      → let room =
          length
            (start_package new_buffer
              (alloc_buffer new_buffer c (p.slices * udp_packength))
              p
              udp_packength).pack.body in
        p.slices * udp_packength + 4 ≤ room
  unfolding alloc_buffer
  room_udp c p = omega (
    arith,
    ap length (
        room_old (alloc_buffer new_buffer c (p.slices * udp_packength)) p udp_packength
          (omega arith)),
    allocates (align (p.slices * udp_packength + 24)),
  )
