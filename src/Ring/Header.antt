-- ===== src/Ring/Header.antt =====
-- The length header of a packet (`Pack::size`), as bytes and back.
use rv_receive.Base.{ℕ, ◌<◌, ◌^◌, ◌≡◌, refl, length, arith}
use rv_receive.Ring.{encode_size, decode_size}

-- Every length that an `uint32_t` holds is read back from its four bytes.
pub decode_size-encode_size : (n : ℕ) → n < 2 ^ 32 → decode_size (encode_size n) ≡ n
unfolding decode_size encode_size
decode_size-encode_size n h = omega arith

pub length-encode_size : (n : ℕ) → length (encode_size n) ≡ 4
unfolding encode_size
length-encode_size n = refl
