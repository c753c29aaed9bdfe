-- ===== src/Commline/Crc.antt =====
-- src/commline/pcap_util.c: `crc16_add` and `crc16_data`, the checksum of a captured frame.
--
-- `acc` is an unsigned short: C computes each right side as an int, and the store keeps 16 bits.
pub mod Table
pub mod Serial
use whitefield.Base.{ℕ, ◌+◌, ◌*◌, ◌/◌, ◌%◌, ◌^◌, bit_and, bit_or, bit_xor, [], ◌∷◌, Bytes}

abbrev pub u16 : ℕ → ℕ
u16 n = n % 2 ^ 16

-- The statements below `acc ^= b`.
unfoldable pub mix : ℕ → ℕ
mix a0 =
    let a1 : ℕ = u16 (bit_or (a0 / 2 ^ 8) (a0 * 2 ^ 8)) in
    let a2 : ℕ = u16 (bit_xor a1 (bit_and a1 0xff00 * 2 ^ 4)) in
    let a3 : ℕ = bit_xor a2 (a2 / 2 ^ 8 / 2 ^ 4) in bit_xor a3 (bit_and a3 0xff00 / 2 ^ 5)

unfoldable pub crc16_add : ℕ → ℕ → ℕ
unfolding mix
crc16_add b acc = mix (bit_xor acc b)

-- The loop over `data`, with the bytes still to come as the list.
unfoldable pub crc16_data : Bytes → ℕ → ℕ
crc16_data [] acc = acc
crc16_data (b ∷ data_bytes) acc = crc16_data data_bytes (crc16_add b acc)
