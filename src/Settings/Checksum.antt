-- ===== src/Settings/Checksum.antt =====
-- The checksum of the settings frames and records (src/infrastructure/crc32.cpp).
pub mod Errors
use bmw_e9x_remote_control.Common.{ℕ, zero, suc, ◌/◌, List, [], ◌∷◌, bit_and, bit_xor, sub32}

-- One turn of the inner loop: `0xEDB88320U & mask`, where `mask` is all ones if the lowest bit is set.
unfoldable pub crc_bit : ℕ → ℕ
crc_bit crc = bit_xor (crc / 2) (bit_and 3988292384 (sub32 0 (bit_and crc 1)))

-- The inner loop, `n` turns of it.
unfoldable pub crc_bits : ℕ → ℕ → ℕ
unfolding crc_bit
crc_bits zero crc = crc
crc_bits (suc n) crc = crc_bits n (crc_bit crc)

-- One turn of the outer loop.
unfoldable pub crc_byte : ℕ → ℕ → ℕ
unfolding crc_bits
crc_byte crc byte = crc_bits 8 (bit_xor crc byte)

-- The outer loop.
abbrev pub crc_bytes : ℕ → List ℕ → ℕ
crc_bytes crc [] = crc
crc_bytes crc (b ∷ bs) = crc_bytes (crc_byte crc b) bs

-- `crc32`, of the bytes from `data` to `data + size`.
unfoldable pub crc32 : List ℕ → ℕ
unfolding crc_byte
crc32 bytes = bit_xor (crc_bytes 4294967295 bytes) 4294967295
