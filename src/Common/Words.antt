-- ===== src/Common/Words.antt =====
-- `std::uint32_t` arithmetic, and the serial-number order that the C++ calls `strictlyNewer`.
use Prim.Native.Nat.{ℕ, ◌+◌, ◌-◌, ◌%◌, ◌<◌}
use mathlib.Core.Path.{◌≡◌}
use mathlib.Core.Bool.{Bool, true, false, not, ◌&&◌}
use native.Mathlib.Omega.{arith}
use bmw_e9x_remote_control.Common.Tests.{ltb, ◌==◌}

abbrev pub u32_mod : ℕ
u32_mod = 4294967296

abbrev pub u64_mod : ℕ
u64_mod = 18446744073709551616

-- The difference of two `std::uint32_t`, which wraps.
abbrev pub sub32 : ℕ → ℕ → ℕ
sub32 a b = (a + u32_mod - b) % u32_mod

-- `HalfCounterRange`.
abbrev pub half_counter_range : ℕ
half_counter_range = 2147483648

unfoldable pub strictly_newer : ℕ → ℕ → Bool
strictly_newer candidate previous =
    not (sub32 candidate previous == 0) && ltb (sub32 candidate previous) half_counter_range

-- The order is asymmetric on words.
pub strictly_newer-asymm :
    (a b : ℕ) → a < u32_mod → b < u32_mod → strictly_newer a b ≡ true → strictly_newer b a ≡ false
unfolding strictly_newer
strictly_newer-asymm a b ha hb h = ground arith
