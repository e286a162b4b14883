-- ===== src/Settings/Bytes/Words.antt =====
-- Words survive being written and read, and so do their bytes.
use bmw_e9x_remote_control.Common.{
  ℕ, ◌+◌, ◌*◌, ◌/◌, ◌%◌, ◌^◌, ◌<◌, ◌≡◌, refl, [], ◌∷◌, bit_and, bit_or, bit_and-low, bit_or-shifted,
  u32_mod, u64_mod, arith, shifted,
}
use bmw_e9x_remote_control.Settings.Bytes.{
  byte_at, write_u16, write_u32, join16, join32, join64, read_u32,
}

bit_and-byte : (x : ℕ) → bit_and x 255 ≡ x % 256
bit_and-byte x =
    let split : x % 256 + shifted 8 (x / 256) ≡ x = omega arith in
    let low = bit_and-low 8 (x % 256) (x / 256) (omega arith) in cc

pub bit_and-word : (x : ℕ) → bit_and x 4294967295 ≡ x % u32_mod
bit_and-word x =
    let split : x % u32_mod + shifted 32 (x / u32_mod) ≡ x = omega arith in
    let low = bit_and-low 32 (x % u32_mod) (x / u32_mod) (omega arith) in cc

pub byte_at_lem : (value place : ℕ) → byte_at value place ≡ value / place % 256
unfolding byte_at
byte_at_lem value place = omega (arith, bit_and-byte (value / place))

join_at_8 : (a b : ℕ) → a < 2 ^ 8 → bit_or a (b * 2 ^ 8) ≡ a + b * 256
join_at_8 a b h =
    let s : shifted 8 b ≡ b * 2 ^ 8 = omega arith in
    let j = bit_or-shifted 8 a b (omega arith) in cc

join_at_16 : (a b : ℕ) → a < 2 ^ 16 → bit_or a (b * 2 ^ 16) ≡ a + b * 65536
join_at_16 a b h =
    let s : shifted 16 b ≡ b * 2 ^ 16 = omega arith in
    let j = bit_or-shifted 16 a b (omega arith) in cc

join_at_24 : (a b : ℕ) → a < 2 ^ 24 → bit_or a (b * 2 ^ 24) ≡ a + b * 16777216
join_at_24 a b h =
    let s : shifted 24 b ≡ b * 2 ^ 24 = omega arith in
    let j = bit_or-shifted 24 a b (omega arith) in cc

join_at_32 : (a b : ℕ) → a < 2 ^ 32 → bit_or a (b * 2 ^ 32) ≡ a + b * u32_mod
join_at_32 a b h =
    let s : shifted 32 b ≡ b * 2 ^ 32 = omega arith in
    let j = bit_or-shifted 32 a b (omega arith) in cc

pub join16_lem : (a b : ℕ) → a < 256 → join16 a b ≡ a + b * 256
unfolding join16
join16_lem a b ha = join_at_8 a b ha

pub join32_lem :
    (a b c d : ℕ)
    → a < 256
    → b < 256
    → c < 256
    → join32 a b c d ≡ a + b * 256 + c * 65536 + d * 16777216
unfolding join32
join32_lem a b c d ha hb hc =
    rw
      (
        join_at_8 a b ha,
        join_at_16 (a + b * 256) c (omega arith),
        join_at_24 (a + b * 256 + c * 65536) d (omega arith),
      )
      refl

pub join64_lem : (low high : ℕ) → low < u32_mod → join64 low high ≡ low + high * u32_mod
unfolding join64
join64_lem low high h = join_at_32 low high h

pub join16-byte_at : (v : ℕ) → v < 65536 → join16 (byte_at v 1) (byte_at v 256) ≡ v
join16-byte_at v h =
    rw (byte_at_lem v 1, byte_at_lem v 256, join16_lem (v / 1 % 256) (v / 256 % 256) (omega arith))
      (omega arith)

pub join32-byte_at :
    (v : ℕ)
    → v < u32_mod
    → join32 (byte_at v 1) (byte_at v 256) (byte_at v 65536) (byte_at v 16777216) ≡ v
join32-byte_at v h =
    rw (byte_at_lem v 1, byte_at_lem v 256, byte_at_lem v 65536, byte_at_lem v 16777216)
      (rw
        (join32_lem (v / 1 % 256) (v / 256 % 256) (v / 65536 % 256) (v / 16777216 % 256)
          (omega arith) (omega arith) (omega arith))
        (omega arith))

pub join64-read_u32 :
    (v : ℕ)
    → v < u64_mod
    → join64 (read_u32 (write_u32 (bit_and v 4294967295)) 0) (read_u32 (write_u32 (v / 2 ^ 32)) 0)
      ≡ v
join64-read_u32 v h =
    rw (bit_and-word v, join32-byte_at (v % u32_mod) (omega arith))
      (rw
        (
          join32-byte_at (v / 2 ^ 32) (omega arith),
          join64_lem (v % u32_mod) (v / 2 ^ 32) (omega arith),
        )
        (omega arith))

-- The bytes of a joined word are the ones that it was joined from.
pub write_u16-join16 : (a b : ℕ) → a < 256 → b < 256 → write_u16 (join16 a b) ≡ a ∷ b ∷ []
write_u16-join16 a b ha hb =
    let j = join16_lem a b ha in
    let b0 : byte_at (join16 a b) 1 ≡ a = omega (arith, byte_at_lem (join16 a b) 1) in
    let b1 : byte_at (join16 a b) 256 ≡ b = omega (arith, byte_at_lem (join16 a b) 256) in
    rw (b0, b1) refl

pub write_u32-join32 :
    (a b c d : ℕ)
    → a < 256
    → b < 256
    → c < 256
    → d < 256
    → write_u32 (join32 a b c d) ≡ a ∷ b ∷ c ∷ d ∷ []
write_u32-join32 a b c d ha hb hc hd =
    let w = join32 a b c d in
    let j = join32_lem a b c d ha hb hc in
    let b0 : byte_at w 1 ≡ a = omega (arith, byte_at_lem w 1) in
    let b1 : byte_at w 256 ≡ b = omega (arith, byte_at_lem w 256) in
    let b2 : byte_at w 65536 ≡ c = omega (arith, byte_at_lem w 65536) in
    let b3 : byte_at w 16777216 ≡ d = omega (arith, byte_at_lem w 16777216) in
    rw (b0, b1, b2, b3) refl
