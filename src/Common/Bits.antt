-- ===== src/Common/Bits.antt =====
-- Laws of `&` and `|` on masks, from the binary digits of the native operations.
use Prim.Native.Nat.{
  ℕ, zero, suc, ◌+◌, ◌*◌, ◌/◌, ◌%◌, ◌≤◌, min, max, bit_and, bit_or, bit_xor, differ, digits,
  bitwise, ◌<◌, bit_and-bitwise, bit_or-bitwise, bit_xor-bitwise,
}
use mathlib.Core.Path.{◌≡◌, refl}
use mathlib.Core.Bool.{Bool, not, ◌&&◌, ◌||◌}
use native.Mathlib.Omega.{arith}
use bmw_e9x_remote_control.Common.Tests.{◌==◌}

module _ (rest : ℕ → ℕ) (op : ℕ → ℕ → ℕ) where
  -- The count of digits to go does not matter once it is large enough.
  digits_enough : (j k x y : ℕ) → x ≤ j → x ≤ k → digits rest op j x y ≡ digits rest op k x y
  digits_enough zero zero x y hj hk = refl
  digits_enough zero (suc k) zero y hj hk = refl
  digits_enough (suc j) zero zero y hj hk = refl
  digits_enough (suc j) (suc k) zero y hj hk = refl
  digits_enough zero _ (suc x) y hj hk = absurd (omega arith)
  digits_enough (suc j) zero (suc x) y hj hk = absurd (omega arith)
  digits_enough (suc j) (suc k) (suc x) y hj hk =
      rw (digits_enough j k (suc x / 2) (y / 2) (omega arith) (omega arith))

  bitwise_head :
      (x y : ℕ)
      → bitwise rest op (suc x) y ≡ bitwise rest op (suc x / 2) (y / 2) * 2 + op (suc x % 2) (y % 2)
  bitwise_head x y =
      rw (digits_enough x (suc x / 2) (suc x / 2) (y / 2) (omega arith) (omega arith))

bit_or-head : (x y : ℕ) → bit_or x y ≡ bit_or (x / 2) (y / 2) * 2 + max (x % 2) (y % 2)
bit_or-head zero y = simp bit_or-bitwise (omega arith)
bit_or-head (suc x) y = simp bit_or-bitwise (bitwise_head (λ y. y) max x y)

pub bit_and-head : (x y : ℕ) → bit_and x y ≡ bit_and (x / 2) (y / 2) * 2 + min (x % 2) (y % 2)
bit_and-head zero y = simp bit_and-bitwise (omega arith)
bit_and-head (suc x) y = simp bit_and-bitwise (bitwise_head (λ y. 0) min x y)

bit_or-half : (x y : ℕ) → bit_or x y / 2 ≡ bit_or (x / 2) (y / 2)
bit_or-half x y = omega (arith, bit_or-head x y)

bit_or-parity : (x y : ℕ) → bit_or x y % 2 ≡ max (x % 2) (y % 2)
bit_or-parity x y = omega (arith, bit_or-head x y)

bit_and-half : (x y : ℕ) → bit_and x y / 2 ≡ bit_and (x / 2) (y / 2)
bit_and-half x y = omega (arith, bit_and-head x y)

bit_and-parity : (x y : ℕ) → bit_and x y % 2 ≡ min (x % 2) (y % 2)
bit_and-parity x y = omega (arith, bit_and-head x y)

-- A union of masks is empty only if both are.
bit_or-eq-zero_fuel : (n x y : ℕ) → x ≤ n → y ≤ n → bit_or x y ≡ 0 → (x ≡ 0) × (y ≡ 0)
bit_or-eq-zero_fuel zero x y hx hy e = omega arith
bit_or-eq-zero_fuel (suc n) x y hx hy e =
    let (p, q) =
      bit_or-eq-zero_fuel n (x / 2) (y / 2) (omega arith) (omega arith)
        (omega (arith, bit_or-head x y)) in
    omega (arith, bit_or-head x y)

pub bit_or-eq-zero : (x y : ℕ) → bit_or x y ≡ 0 → (x ≡ 0) × (y ≡ 0)
bit_or-eq-zero x y e = bit_or-eq-zero_fuel (x + y) x y (omega arith) (omega arith) e

-- Intersection distributes over union.
bit_and-bit_or_fuel :
    (n x y z : ℕ) → x ≤ n → y ≤ n → bit_and (bit_or x y) z ≡ bit_or (bit_and x z) (bit_and y z)
bit_and-bit_or_fuel zero zero zero z hx hy = simp bit_and-bitwise
bit_and-bit_or_fuel zero (suc x) y z hx hy = absurd (omega arith)
bit_and-bit_or_fuel zero zero (suc y) z hx hy = absurd (omega arith)
bit_and-bit_or_fuel (suc n) x y z hx hy =
    let ih = bit_and-bit_or_fuel n (x / 2) (y / 2) (z / 2) (omega arith) (omega arith) in
    rw (bit_and-head (bit_or x y) z, bit_or-half, bit_or-parity, ih)
      (rw (bit_or-head (bit_and x z) (bit_and y z)) (
        rw (bit_and-half x z, bit_and-half y z, bit_and-parity x z, bit_and-parity y z)
          (omega arith)))

pub bit_and-bit_or : (x y z : ℕ) → bit_and (bit_or x y) z ≡ bit_or (bit_and x z) (bit_and y z)
bit_and-bit_or x y z = bit_and-bit_or_fuel (x + y) x y z (omega arith) (omega arith)

-- The test `(m & bits) != 0`.
unfoldable pub has_bits : ℕ → ℕ → Bool
has_bits m bits = not (bit_and m bits == 0)

bit_or-nonzero : (x y : ℕ) → not (bit_or x y == 0) ≡ (not (x == 0) || not (y == 0))
bit_or-nonzero zero zero = refl
bit_or-nonzero zero (suc y) = ground (arith, bit_or-eq-zero 0 (suc y))
bit_or-nonzero (suc x) y = ground (arith, bit_or-eq-zero (suc x) y)

-- A bit is in a union if it is in one of its parts.
pub has_bits-bit_or :
    (x y bits : ℕ) → has_bits (bit_or x y) bits ≡ (has_bits x bits || has_bits y bits)
unfolding has_bits
has_bits-bit_or x y bits =
    rw (bit_and-bit_or x y bits) (bit_or-nonzero (bit_and x bits) (bit_and y bits))

-- A union is empty if both parts are.
pub bit_or-is_zero : (x y : ℕ) → (bit_or x y == 0) ≡ ((x == 0) && (y == 0))
bit_or-is_zero zero zero = refl
bit_or-is_zero zero (suc y) = ground (arith, bit_or-eq-zero 0 (suc y))
bit_or-is_zero (suc x) y = ground (arith, bit_or-eq-zero (suc x) y)

-- The number of `k` ones.
abbrev pub ones : ℕ → ℕ
ones zero = 0
ones (suc k) = ones k * 2 + 1

-- `&` with `k` ones changes no number of `k` digits.
pub bit_and-ones : (k x : ℕ) → x ≤ ones k → bit_and x (ones k) ≡ x
bit_and-ones zero zero h = refl
bit_and-ones zero (suc x) h = absurd (omega arith)
bit_and-ones (suc k) x h =
    let half : ones (suc k) / 2 ≡ ones k = omega arith in
    let step : bit_and (x / 2) (ones (suc k) / 2) ≡ x / 2 =
      rw half (bit_and-ones k (x / 2) (omega arith)) in
    omega (arith, bit_and-head x (ones (suc k)))

pub zero-bit_and : (x : ℕ) → bit_and 0 x ≡ 0
zero-bit_and x = bit_and-bitwise 0 x

bit_and-zero_fuel : (n x : ℕ) → x ≤ n → bit_and x 0 ≡ 0
bit_and-zero_fuel n zero h = refl
bit_and-zero_fuel zero (suc x) h = absurd (omega arith)
bit_and-zero_fuel (suc n) (suc x) h =
    omega (arith, bit_and-head (suc x) 0, bit_and-zero_fuel n (suc x / 2) (omega arith))

-- The lowest digit.
pub bit_and-one : (x : ℕ) → bit_and x 1 ≡ x % 2
bit_and-one x = omega (arith, bit_and-head x 1, bit_and-zero_fuel (x / 2) (x / 2) (omega arith))

pub one-bit_and : (x : ℕ) → bit_and 1 x ≡ x % 2
one-bit_and x = omega (arith, bit_and-head 1 x, zero-bit_and (x / 2))

-- A number shifted by `k` digits.
abbrev pub shifted : ℕ → ℕ → ℕ
shifted zero y = y
shifted (suc k) y = shifted k y * 2

-- `&` with `k` ones keeps the `k` lowest digits.
pub bit_and-low : (k x y : ℕ) → x ≤ ones k → bit_and (x + shifted k y) (ones k) ≡ x
bit_and-low zero x y h = omega (arith, bit_and-zero_fuel (x + y) (x + y) (omega arith))
bit_and-low (suc k) x y h =
    let half : ones (suc k) / 2 ≡ ones k = omega arith in
    let tail : (x + shifted (suc k) y) / 2 ≡ x / 2 + shifted k y = omega arith in
    let ih = bit_and-low k (x / 2) y (omega arith) in
    let head = bit_and-head (x + shifted (suc k) y) (ones (suc k)) in
    let step : bit_and ((x + shifted (suc k) y) / 2) (ones (suc k) / 2) ≡ x / 2 =
      rw (half, tail) ih in
    omega arith

-- `|` adds numbers that share no digit.
pub bit_or-shifted : (k x y : ℕ) → x ≤ ones k → bit_or x (shifted k y) ≡ x + shifted k y
bit_or-shifted zero zero y h = simp bit_or-bitwise (omega arith)
bit_or-shifted zero (suc x) y h = absurd (omega arith)
bit_or-shifted (suc k) x y h =
    let half : shifted (suc k) y / 2 ≡ shifted k y = omega arith in
    let ih = bit_or-shifted k (x / 2) y (omega arith) in
    let head = bit_or-head x (shifted (suc k) y) in
    let step : bit_or (x / 2) (shifted (suc k) y / 2) ≡ x / 2 + shifted k y = rw half ih in
    omega arith

-- Exclusive or.
bit_xor-zero_left : (y : ℕ) → bit_xor 0 y ≡ y
bit_xor-zero_left y = bit_xor-bitwise 0 y

pub bit_xor-head : (x y : ℕ) → bit_xor x y ≡ bit_xor (x / 2) (y / 2) * 2 + differ (x % 2) (y % 2)
bit_xor-head zero y = simp bit_xor-bitwise (omega arith)
bit_xor-head (suc x) y = simp bit_xor-bitwise (bitwise_head (λ y. y) differ x y)

-- The digit of an exclusive or.
differ-digits : (a b : ℕ) → a < 2 → b < 2 → (differ a b ≡ (a + b) % 2)
differ-digits zero b ha hb = omega arith
differ-digits (suc zero) zero ha hb = omega arith
differ-digits (suc zero) (suc zero) ha hb = omega arith
differ-digits (suc zero) (suc (suc b)) ha hb = absurd (omega arith)
differ-digits (suc (suc a)) b ha hb = absurd (omega arith)

pub bit_xor-half : (x y : ℕ) → bit_xor x y / 2 ≡ bit_xor (x / 2) (y / 2)
bit_xor-half x y =
    omega (arith, bit_xor-head x y, differ-digits (x % 2) (y % 2) (omega arith) (omega arith))

pub bit_xor-parity : (x y : ℕ) → bit_xor x y % 2 ≡ (x + y) % 2
bit_xor-parity x y =
    omega (arith, bit_xor-head x y, differ-digits (x % 2) (y % 2) (omega arith) (omega arith))

bit_xor-cancel_fuel : (n x y z : ℕ) → x ≤ n → y ≤ n → bit_xor x z ≡ bit_xor y z → x ≡ y
bit_xor-cancel_fuel zero x y z hx hy e = omega arith
bit_xor-cancel_fuel (suc n) x y z hx hy e =
    let hxz = bit_xor-half x z in
    let hyz = bit_xor-half y z in
    let px = bit_xor-parity x z in
    let py = bit_xor-parity y z in
    let tails : bit_xor (x / 2) (z / 2) ≡ bit_xor (y / 2) (z / 2) = omega arith in
    let ih = bit_xor-cancel_fuel n (x / 2) (y / 2) (z / 2) (omega arith) (omega arith) tails in
    omega arith

-- Exclusive or with one number is one to one.
pub bit_xor-cancel : (x y z : ℕ) → bit_xor x z ≡ bit_xor y z → x ≡ y
bit_xor-cancel x y z e = bit_xor-cancel_fuel (x + y) x y z (omega arith) (omega arith) e

bit_xor_comm_fuel : (n x y : ℕ) → x ≤ n → y ≤ n → bit_xor x y ≡ bit_xor y x
bit_xor_comm_fuel zero x y hx hy =
    let ex : x ≡ 0 = omega arith in let ey : y ≡ 0 = omega arith in rw (ex, ey) refl
bit_xor_comm_fuel (suc n) x y hx hy =
    let ih = bit_xor_comm_fuel n (x / 2) (y / 2) (omega arith) (omega arith) in
    omega (arith, bit_xor-half x y, bit_xor-half y x, bit_xor-parity x y, bit_xor-parity y x)

pub bit_xor_comm : (x y : ℕ) → bit_xor x y ≡ bit_xor y x
bit_xor_comm x y = bit_xor_comm_fuel (x + y) x y (omega arith) (omega arith)

pub bit_xor-ones : (k x y : ℕ) → x ≤ ones k → y ≤ ones k → bit_xor x y ≤ ones k
bit_xor-ones zero x y hx hy =
    let ex : x ≡ 0 = omega arith in rw ex (omega (arith, bit_xor-zero_left y))
bit_xor-ones (suc k) x y hx hy =
    let ih = bit_xor-ones k (x / 2) (y / 2) (omega arith) (omega arith) in
    omega (arith, bit_xor-half x y)

-- The number without its `k` lowest digits.
abbrev pub halved : ℕ → ℕ → ℕ
halved zero x = x
halved (suc k) x = halved k (x / 2)

pub halved-bit_xor : (k x y : ℕ) → halved k (bit_xor x y) ≡ bit_xor (halved k x) (halved k y)
halved-bit_xor zero x y = refl
halved-bit_xor (suc k) x y = rw (bit_xor-half x y) (halved-bit_xor k (x / 2) (y / 2))

pub bit_and-ones_left : (k x y : ℕ) → x ≤ ones k → bit_and x y ≤ ones k
bit_and-ones_left zero x y hx = let e : x ≡ 0 = omega arith in rw (e, zero-bit_and y) (omega arith)
bit_and-ones_left (suc k) x y hx =
    let ih = bit_and-ones_left k (x / 2) (y / 2) (omega arith) in omega (arith, bit_and-half x y)
