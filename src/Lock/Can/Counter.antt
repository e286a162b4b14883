-- ===== src/Lock/Can/Counter.antt =====
-- The rolling counter: the bits under its mask, side by side.
use bmw_e9x_remote_control.Common.{
  ℕ, zero, suc, ◌+◌, ◌*◌, ◌/◌, ◌%◌, ◌^◌, ◌≤◌, ◌<◌, ◌≡◌, refl, ap, ◌∙◌, false, get_or, leb, ◌==◌,
  if◌then◌else◌, Bool-cases, inl, inr, bit_and, bit_and-head, bit_and-one, bit_or-shifted, shifted,
  halved, ones, arith,
}
use native.Mathlib.Nat.{pow-succ'}
use bmw_e9x_remote_control.Lock.Can.{
  CanFrame, CanCounterField, count_bits, bit_count, extract_bits, extract,
}

-- The first `n` digits of `value` under the digits 1 of `mask`, without gaps.
abbrev pub packed : ℕ → ℕ → ℕ → ℕ
packed zero value mask = 0
packed (suc n) value mask =
    let rest = packed n (value / 2) (mask / 2) in
    if mask % 2 == 0 then rest else value % 2 + 2 * rest

-- The number of digits 1 among the first `n`.
abbrev pub digit_sum : ℕ → ℕ → ℕ
digit_sum zero mask = 0
digit_sum (suc n) mask = mask % 2 + digit_sum n (mask / 2)

shifted-add : (k a b : ℕ) → shifted k (a + b) ≡ shifted k a + shifted k b
shifted-add zero a b = refl
shifted-add (suc k) a b = omega (arith, shifted-add k a b)

shifted-double : (k a : ℕ) → shifted k (2 * a) ≡ shifted k a * 2
shifted-double zero a = omega arith
shifted-double (suc k) a = omega (arith, shifted-double k a)

shifted-zero : (k : ℕ) → shifted k 0 ≡ 0
shifted-zero zero = refl
shifted-zero (suc k) = omega (arith, shifted-zero k)

shifted-one : (k : ℕ) → shifted k 1 ≡ ones k + 1
shifted-one zero = refl
shifted-one (suc k) = omega (arith, shifted-one k)

halved-half : (k x : ℕ) → halved k (x / 2) ≡ halved k x / 2
halved-half zero x = refl
halved-half (suc k) x = halved-half k (x / 2)

-- A test of one bit.
bit_and-place : (i m : ℕ) → bit_and m (shifted i 1) ≡ shifted i (halved i m % 2)
bit_and-place zero m = bit_and-one m
bit_and-place (suc i) m =
    let half : shifted i 1 * 2 / 2 ≡ shifted i 1 = omega arith in
    let head = bit_and-head m (shifted i 1 * 2) in
    let ih = bit_and-place i (m / 2) in
    let step : bit_and (m / 2) (shifted i 1 * 2 / 2) ≡ shifted i (halved i (m / 2) % 2) =
      rw half ih in
    omega arith

place_test : (i m : ℕ) → (bit_and m (shifted i 1) == 0) ≡ (halved i m % 2 == 0)
place_test i m = elim (Bool-cases (halved i m % 2 == 0)) [
  | inl clear ↦
      let digit : halved i m % 2 ≡ 0 = ground arith in
      let none_set : bit_and m (shifted i 1) ≡ 0 =
        bit_and-place i m ∙ ap (shifted i) digit ∙ shifted-zero i in
      rw (none_set, digit) refl
  | inr set ↦
      let digit : halved i m % 2 ≡ 1 = ground arith in
      let one_set : bit_and m (shifted i 1) ≡ ones i + 1 =
        bit_and-place i m ∙ ap (shifted i) digit ∙ shifted-one i in
      rw (one_set, digit) (ground arith)
]

-- The loop, from the bit `i` on, with `k` bits packed so far.
extract_bits-packed :
    (n i k value mask p : ℕ)
    → p ≤ ones k
    → extract_bits n (shifted i 1) (shifted k 1) value mask p
      ≡ p + shifted k (packed n (halved i value) (halved i mask))
extract_bits-packed zero i k value mask p h = omega (arith, shifted-zero k)
extract_bits-packed (suc n) i k value mask p h =
    let rest = packed n (halved i value / 2) (halved i mask / 2) in
    let same_value = halved-half i value in
    let same_mask = halved-half i mask in
    let used = place_test i mask in
    let set = place_test i value in
    elim (Bool-cases (halved i mask % 2 == 0)) [
      | inl skip ↦
          rw (used, skip)
            (extract_bits-packed n (suc i) k value mask p h ∙ rw (same_value, same_mask) refl)
      | inr takes ↦ elim (Bool-cases (halved i value % 2 == 0)) [
        | inl clear ↦
            let digit : halved i value % 2 ≡ 0 = ground arith in
            let later = extract_bits-packed n (suc i) (suc k) value mask p (omega arith) in
            rw (used, takes, set, clear, digit)
              (later
                ∙ rw (same_value, same_mask)
                    (omega
                      (arith, shifted-double k rest, shifted-add k 0 (2 * rest), shifted-zero k)))
        | inr one ↦
            let digit : halved i value % 2 ≡ 1 = ground arith in
            let joined = bit_or-shifted k p 1 h in
            let later =
              extract_bits-packed n (suc i) (suc k) value mask (p + shifted k 1)
                (omega (arith, shifted-one k)) in
            rw (used, takes, set, one, digit, joined)
              (later
                ∙ rw (same_value, same_mask)
                    (omega (arith, shifted-double k rest, shifted-add k 1 (2 * rest))))
      ]
    ]

digit_sum-zero : (n : ℕ) → digit_sum n 0 ≡ 0
digit_sum-zero zero = refl
digit_sum-zero (suc n) = let rest : digit_sum n (0 / 2) ≡ 0 = digit_sum-zero n in omega arith

count_bits-digit_sum : (n m : ℕ) → count_bits n m ≡ digit_sum n m
count_bits-digit_sum zero m = refl
count_bits-digit_sum (suc n) zero =
    let rest : digit_sum n (0 / 2) ≡ 0 = digit_sum-zero n in omega arith
count_bits-digit_sum (suc n) (suc m) =
    ground (arith, count_bits-digit_sum n (suc m / 2), bit_and-one (suc m))

pow-one_add : (s : ℕ) → 2 ^ (1 + s) ≡ 2 * 2 ^ s
pow-one_add s = let e : 1 + s ≡ suc s = omega arith in rw e (pow-succ' 2 s)

packed-bound : (n value mask : ℕ) → packed n value mask < 2 ^ digit_sum n mask
packed-bound zero value mask = omega arith
packed-bound (suc n) value mask =
    let ih = packed-bound n (value / 2) (mask / 2) in
    let total = digit_sum n (mask / 2) in
    elim (Bool-cases (mask % 2 == 0)) [
      | inl skip ↦ let same : mask % 2 + total ≡ total = ground arith in rw (skip, same) ih
      | inr takes ↦
          let more : mask % 2 + total ≡ 1 + total = ground arith in
          rw (takes, more, pow-one_add total) (omega arith)
    ]

-- The counter that is read from a byte of the frame is the number whose digits are those of the byte
-- under the eight bits of the mask, without the gaps; it is below 2 to the number of these bits.
pub extract-packed :
    (c : CanCounterField) (f : CanFrame)
    → c.byte_index < f.data_length
    → c.byte_index < 8
    → (extract c f ≡ packed 8 (get_or f.data_bytes c.byte_index 0) c.mask)
      × (bit_count c ≡ digit_sum 8 c.mask)
      × (extract c f < 2 ^ bit_count c)
unfolding extract bit_count
extract-packed c f present within =
    let there : leb f.data_length c.byte_index ≡ false = ground arith in
    let inside : leb 8 c.byte_index ≡ false = ground arith in
    let value = get_or f.data_bytes c.byte_index 0 in
    let loop : extract_bits 8 1 1 value c.mask 0 ≡ packed 8 value c.mask =
      extract_bits-packed 8 0 0 value c.mask 0 (omega arith) ∙ omega arith in
    let count = count_bits-digit_sum 8 c.mask in
    (rw (there, inside) loop, count, rw (there, inside, loop, count) (packed-bound 8 value c.mask))
