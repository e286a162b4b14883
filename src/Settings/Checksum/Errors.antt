-- ===== src/Settings/Checksum/Errors.antt =====
-- What the checksum detects.
use bmw_e9x_remote_control.Common.{
  ℕ, zero, suc, ◌/◌, ◌%◌, ◌≤◌, ◌<◌, ◌≡◌, ◌≢◌, ◌⊎◌, inl, inr, ◌∙◌, sym, ap, refl, List, [], ◌∷◌,
  ◌++◌, bit_and, bit_xor, sub32, u32_mod, ones, halved, halved-bit_xor, bit_xor-cancel,
  bit_xor_comm, bit_xor-ones, bit_and-ones_left, bit_and-one, arith,
}
use bmw_e9x_remote_control.Settings.Bytes.Buffers.{AllBytes}
use bmw_e9x_remote_control.Settings.Checksum.{crc_bit, crc_bits, crc_byte, crc_bytes, crc32}

crc_bit-even : (c : ℕ) → c < u32_mod → c % 2 ≡ 0 → crc_bit c ≡ bit_xor (c / 2) 0
unfolding crc_bit
crc_bit-even c h e = rw (bit_and-one c, e) refl

crc_bit-odd : (c : ℕ) → c < u32_mod → c % 2 ≡ 1 → crc_bit c ≡ bit_xor (c / 2) 3988292384
unfolding crc_bit
crc_bit-odd c h e = rw (bit_and-one c, e) refl

halved-ones : (k x : ℕ) → x ≤ ones k → halved k x ≡ 0
halved-ones zero x h = omega arith
halved-ones (suc k) x h = halved-ones k (x / 2) (omega arith)

-- The highest bit after a turn is the lowest one before it.
highest_bit : (c p : ℕ) → c < u32_mod → halved 31 (bit_xor (c / 2) p) ≡ bit_xor 0 (halved 31 p)
highest_bit c p h =
    halved-bit_xor 31 (c / 2) p
    ∙ ap (λ x. bit_xor x (halved 31 p)) (halved-ones 31 (c / 2) (omega arith))

parity-cases : (c : ℕ) → (c % 2 ≡ 0) ⊎ (c % 2 ≡ 1)
parity-cases c = ground arith

even-not-odd : (c d : ℕ) → c < u32_mod → d < u32_mod → c % 2 ≡ 0 → d % 2 ≡ 1 → crc_bit c ≢ crc_bit d
even-not-odd c d hc hd ec ed e =
    let top_c = highest_bit c 0 hc in
    let top_d = highest_bit d 3988292384 hd in
    let shown : bit_xor (c / 2) 0 ≡ bit_xor (d / 2) 3988292384 =
      sym (crc_bit-even c hc ec) ∙ e ∙ crc_bit-odd d hd ed in
    let tops : bit_xor 0 (halved 31 0) ≡ bit_xor 0 (halved 31 3988292384) =
      sym top_c ∙ ap (halved 31) shown ∙ top_d in
    omega arith

crc_bit-injective : (c d : ℕ) → c < u32_mod → d < u32_mod → crc_bit c ≡ crc_bit d → c ≡ d
crc_bit-injective c d hc hd e = elim (parity-cases c) [
  | inl ec ↦ elim (parity-cases d) [
    | inl ed ↦
        let halves =
          bit_xor-cancel (c / 2) (d / 2) 0
            (sym (crc_bit-even c hc ec) ∙ e ∙ crc_bit-even d hd ed) in
        omega arith
    | inr od ↦ absurd (even-not-odd c d hc hd ec od e)
  ]
  | inr oc ↦ elim (parity-cases d) [
    | inl ed ↦ absurd (even-not-odd d c hd hc ed oc (sym e))
    | inr od ↦
        let halves =
          bit_xor-cancel (c / 2) (d / 2) 3988292384
            (sym (crc_bit-odd c hc oc) ∙ e ∙ crc_bit-odd d hd od) in
        omega arith
  ]
]

crc_bit-bound : (c : ℕ) → c < u32_mod → crc_bit c < u32_mod
unfolding crc_bit
crc_bit-bound c h =
    let mask = sub32 0 (bit_and c 1) in
    let b = bit_and-ones_left 32 3988292384 mask (omega arith) in
    omega (arith, bit_xor-ones 32 (c / 2) (bit_and 3988292384 mask) (omega arith) b)

crc_bits-bound : (n c : ℕ) → c < u32_mod → crc_bits n c < u32_mod
unfolding crc_bits
crc_bits-bound zero c h = h
crc_bits-bound (suc n) c h = crc_bits-bound n (crc_bit c) (crc_bit-bound c h)

crc_bits-injective : (n c d : ℕ) → c < u32_mod → d < u32_mod → crc_bits n c ≡ crc_bits n d → c ≡ d
unfolding crc_bits
crc_bits-injective zero c d hc hd e = e
crc_bits-injective (suc n) c d hc hd e =
    crc_bit-injective c d hc hd
      (crc_bits-injective n (crc_bit c) (crc_bit d) (crc_bit-bound c hc) (crc_bit-bound d hd) e)

xor-bound : (c b : ℕ) → c < u32_mod → b < u32_mod → bit_xor c b < u32_mod
xor-bound c b hc hb = omega (arith, bit_xor-ones 32 c b (omega arith) (omega arith))

crc_byte-bound : (c b : ℕ) → c < u32_mod → b < 256 → crc_byte c b < u32_mod
unfolding crc_byte
crc_byte-bound c b hc hb = crc_bits-bound 8 (bit_xor c b) (xor-bound c b hc (omega arith))

crc_bytes-bound : (c : ℕ) (bs : List ℕ) → c < u32_mod → AllBytes bs → crc_bytes c bs < u32_mod
crc_bytes-bound c [] hc hb = hc
crc_bytes-bound c (b ∷ bs) hc (h, hb) =
    crc_bytes-bound (crc_byte c b) bs (crc_byte-bound c b hc h) hb

-- The states of the loop do not meet again once they differ.
crc_bytes-injective :
    (c d : ℕ) (bs : List ℕ)
    → c < u32_mod
    → d < u32_mod
    → AllBytes bs
    → crc_bytes c bs ≡ crc_bytes d bs
    → c ≡ d
unfolding crc_byte
crc_bytes-injective c d [] hc hd hb e = e
crc_bytes-injective c d (b ∷ bs) hc hd (h, hb) e =
    let states =
      crc_bytes-injective (crc_byte c b) (crc_byte d b) bs (crc_byte-bound c b hc h)
        (crc_byte-bound d b hd h) hb e in
    let xors =
      crc_bits-injective 8 (bit_xor c b) (bit_xor d b) (xor-bound c b hc (omega arith))
        (xor-bound d b hd (omega arith)) states in
    bit_xor-cancel c d b xors

crc_bytes-append :
    (c : ℕ) (before after : List ℕ)
    → crc_bytes c (before ++ after) ≡ crc_bytes (crc_bytes c before) after
crc_bytes-append c [] after = refl
crc_bytes-append c (b ∷ before) after = crc_bytes-append (crc_byte c b) before after

-- The checksum of bytes is a 32-bit word.
pub crc32-bound : (bs : List ℕ) → AllBytes bs → crc32 bs < u32_mod
unfolding crc32
crc32-bound bs hb =
    xor-bound (crc_bytes 4294967295 bs) 4294967295 (crc_bytes-bound 4294967295 bs (omega arith) hb)
      (omega arith)

-- Two buffers of bytes that differ in exactly one place have different checksums: no error within one
-- byte goes undetected.
pub crc32-one_byte :
    (before after : List ℕ) (a b : ℕ)
    → AllBytes before
    → AllBytes after
    → a < 256
    → b < 256
    → a ≢ b
    → crc32 (before ++ a ∷ after) ≢ crc32 (before ++ b ∷ after)
unfolding crc32 crc_byte
crc32-one_byte before after a b hbefore hafter ha hb differ e =
    let s = crc_bytes 4294967295 before in
    let hs = crc_bytes-bound 4294967295 before (omega arith) hbefore in
    let states =
      bit_xor-cancel (crc_bytes 4294967295 (before ++ a ∷ after))
        (crc_bytes 4294967295 (before ++ b ∷ after)) 4294967295 e in
    let split =
      sym (crc_bytes-append 4294967295 before (a ∷ after))
      ∙ states
      ∙ crc_bytes-append 4294967295 before (b ∷ after) in
    let there =
      crc_bytes-injective (crc_byte s a) (crc_byte s b) after (crc_byte-bound s a hs ha)
        (crc_byte-bound s b hs hb) hafter split in
    let xors =
      crc_bits-injective 8 (bit_xor s a) (bit_xor s b) (xor-bound s a hs (omega arith))
        (xor-bound s b hs (omega arith)) there in
    differ (bit_xor-cancel a b s (bit_xor_comm a s ∙ xors ∙ bit_xor_comm s b))
