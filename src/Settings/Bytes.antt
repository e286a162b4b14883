-- ===== src/Settings/Bytes.antt =====
-- The little-endian words that every settings format repeats: `writeU16`, `readU16`, `writeU32`,
-- `readU32`, `writeU64` and `readU64` of src/infrastructure/settings_payload.cpp. A buffer is the
-- list of its bytes.
pub mod Words
pub mod Buffers
use mathlib.Core.Path.{subst}
use bmw_e9x_remote_control.Common.{
  ℕ, zero, suc, ◌+◌, ◌*◌, ◌/◌, ◌%◌, ◌^◌, ◌<◌, ◌≤◌, ◌≡◌, ◌∙◌, refl, List, [], ◌∷◌, ◌++◌, get_or,
  length, take, drop, suc_add, get_or-append, ap, bit_and, bit_or, bit_and-low, bit_or-shifted,
  u32_mod, u64_mod, arith, shifted,
}

-- `static_cast<std::uint8_t>((value >> shift) & 0xFFU)`, with `place` for 2 ^ shift.
unfoldable pub byte_at : ℕ → ℕ → ℕ
byte_at value place = bit_and (value / place) 255 % 256

abbrev pub write_u16 : ℕ → List ℕ
write_u16 value = byte_at value 1 ∷ byte_at value (2 ^ 8) ∷ []

abbrev pub write_u32 : ℕ → List ℕ
write_u32 value =
    byte_at value 1 ∷ byte_at value (2 ^ 8) ∷ byte_at value (2 ^ 16) ∷ byte_at value (2 ^ 24) ∷ []

abbrev pub write_u64 : ℕ → List ℕ
write_u64 value = write_u32 (bit_and value 4294967295) ++ write_u32 (value / 2 ^ 32)

-- The bytes of a word, joined as the readers do.
unfoldable pub join16 : ℕ → ℕ → ℕ
join16 a b = bit_or a (b * 2 ^ 8)

unfoldable pub join32 : ℕ → ℕ → ℕ → ℕ → ℕ
join32 a b c d = bit_or (bit_or (bit_or a (b * 2 ^ 8)) (c * 2 ^ 16)) (d * 2 ^ 24)

unfoldable pub join64 : ℕ → ℕ → ℕ
join64 low high = bit_or low (high * 2 ^ 32)

-- A word is read from the offset on. A read past the buffer, which no caller makes, gives 0.
abbrev pub read_u16 : List ℕ → ℕ → ℕ
read_u16 bytes offset = join16 (get_or bytes offset 0) (get_or bytes (offset + 1) 0)

abbrev pub read_u32 : List ℕ → ℕ → ℕ
read_u32 bytes offset =
    join32 (get_or bytes offset 0) (get_or bytes (offset + 1) 0) (get_or bytes (offset + 2) 0)
      (get_or bytes (offset + 3) 0)

abbrev pub read_u64 : List ℕ → ℕ → ℕ
read_u64 bytes offset = join64 (read_u32 bytes offset) (read_u32 bytes (offset + 4))
