-- ===== src/Settings/Protocol/Corruption.antt =====
-- A damaged frame is not taken for another one.
use mathlib.Core.Path.{subst}
use bmw_e9x_remote_control.Common.{
  ℕ, suc, ◌+◌, ◌-◌, ◌≤◌, ◌<◌, ◌≡◌, ◌≢◌, ◌⊎◌, inl, inr, Bool-cases, ltb, refl, sym, ap, ◌∙◌, List,
  ◌∷◌, ◌++◌, get_or, length, take, length-append, get_or-append, take-append_past,
  take-append_within, arith,
}
use bmw_e9x_remote_control.Settings.Bytes.{read_u16, read_u32, join32}
use bmw_e9x_remote_control.Settings.Bytes.Words.{join32_lem}
use bmw_e9x_remote_control.Settings.Bytes.Buffers.{
  AllBytes, take-AllBytes, append-AllBytes, get_or-AllBytes,
}
use bmw_e9x_remote_control.Settings.Checksum.{crc32}
use bmw_e9x_remote_control.Settings.Checksum.Errors.{crc32-one_byte}
use bmw_e9x_remote_control.Settings.Protocol.{decode, SettingsFrameDecodeStatus}
use bmw_e9x_remote_control.Settings.Protocol.RoundTrip.{IsAccepted, IsAccepted-decode}

-- Equal words have equal bytes.
join32-injective :
    (a b c d p q r s : ℕ)
    → a < 256
    → b < 256
    → c < 256
    → d < 256
    → p < 256
    → q < 256
    → r < 256
    → s < 256
    → join32 a b c d ≡ join32 p q r s
    → (a ≡ p) × (b ≡ q) × (c ≡ r) × (d ≡ s)
join32-injective a b c d p q r s ha hb hc hd hp hq hr hs e =
    omega (arith, join32_lem a b c d ha hb hc, join32_lem p q r s hp hq hr)

-- The checksum stands in the last four bytes and is that of the bytes before.
checked : (e : List ℕ) (k : ℕ) → k + 4 ≡ length e → IsAccepted e → read_u32 e k ≡ crc32 (take k e)
checked e k h a =
    let same : 12 + read_u16 e 10 ≡ k = omega (arith, a.sized) in
    subst (λ j. read_u32 e j ≡ crc32 (take j e)) same a.summed

module _ (before after : List ℕ) where
  read_past : (x j : ℕ) → read_u32 (before ++ x ∷ after) (length before + suc j) ≡ read_u32 after j
  read_past x j =
      rw (get_or-append before (x ∷ after) (suc j) 0, get_past 1, get_past 2, get_past 3) refl
    where
      get_past :
          (i : ℕ)
          → get_or (before ++ x ∷ after) (length before + suc j + i) 0 ≡ get_or after (j + i) 0
      get_past i =
          let place : length before + suc j + i ≡ length before + suc (j + i) = omega arith in
          ap (λ n. get_or (before ++ x ∷ after) n 0) place
          ∙ get_or-append before (x ∷ after) (suc (j + i)) 0

  -- The checksum that the last four bytes state, where the bytes before it are `before`, `x` and the
  -- first `j` of `after`.
  stated :
      (x j : ℕ)
      → length after ≡ j + 4
      → IsAccepted (before ++ x ∷ after)
      → crc32 (before ++ x ∷ take j after) ≡ read_u32 after j
  stated x j h w =
      let size : length before + suc j + 4 ≡ length (before ++ x ∷ after) =
        omega (arith, length-append before (x ∷ after)) in
      sym (ap crc32 (take-append_past before (x ∷ after) (suc j)))
      ∙ sym (checked (before ++ x ∷ after) (length before + suc j) size w)
      ∙ read_past x j

  -- The byte after `before` is not covered twice: it is one of the checksum's, at `k` or later.
  stated_there :
      (x k : ℕ)
      → length before + suc (length after) ≡ k + 4
      → k ≤ length before
      → IsAccepted (before ++ x ∷ after)
      → read_u32 (before ++ x ∷ after) k ≡ crc32 (take k before)
  stated_there x k h hk w =
      checked (before ++ x ∷ after) k (omega (arith, length-append before (x ∷ after))) w
      ∙ ap crc32 (take-append_within k before (x ∷ after) hk)

  here : (x n : ℕ) → length before ≡ n → get_or (before ++ x ∷ after) n 0 ≡ x
  here x n h =
      let place : n ≡ length before + 0 = omega arith in
      ap (λ m. get_or (before ++ x ∷ after) m 0) place ∙ get_or-append before (x ∷ after) 0 0

-- An error in the bytes of the checksum.
module _ (before after : List ℕ) (a b k : ℕ) (hbefore : AllBytes before) (hafter : AllBytes after)
    (ha : a < 256) (hb : b < 256) (h : length before + suc (length after) ≡ k + 4)
    (hk : k ≤ length before) (wa : IsAccepted (before ++ a ∷ after))
    (wb : IsAccepted (before ++ b ∷ after)) where
  same_bytes :
      (get_or (before ++ a ∷ after) k 0 ≡ get_or (before ++ b ∷ after) k 0)
      × (get_or (before ++ a ∷ after) (k + 1) 0 ≡ get_or (before ++ b ∷ after) (k + 1) 0)
      × (get_or (before ++ a ∷ after) (k + 2) 0 ≡ get_or (before ++ b ∷ after) (k + 2) 0)
      × (get_or (before ++ a ∷ after) (k + 3) 0 ≡ get_or (before ++ b ∷ after) (k + 3) 0)
  same_bytes =
      let ea = append-AllBytes before (a ∷ after) hbefore (ha, hafter) in
      let eb = append-AllBytes before (b ∷ after) hbefore (hb, hafter) in
      join32-injective _ _ _ _ _ _ _ _ (get_or-AllBytes _ k ea) (get_or-AllBytes _ (k + 1) ea)
        (get_or-AllBytes _ (k + 2) ea) (get_or-AllBytes _ (k + 3) ea) (get_or-AllBytes _ k eb)
        (get_or-AllBytes _ (k + 1) eb) (get_or-AllBytes _ (k + 2) eb) (get_or-AllBytes _ (k + 3) eb)
        (stated_there before after a k h hk wa ∙ sym (stated_there before after b k h hk wb))

  place-cases :
      (length before ≡ k)
      ⊎ (length before ≡ k + 1)
      ⊎ (length before ≡ k + 2)
      ⊎ (length before ≡ k + 3)
  place-cases = ground arith

  checksum_error : a ≡ b
  checksum_error =
      let (s0, s1, s2, s3) = same_bytes in
      let at =
        λ (n : ℕ) (e : length before ≡ n)
            (s : get_or (before ++ a ∷ after) n 0 ≡ get_or (before ++ b ∷ after) n 0).
          sym (here before after a n e) ∙ s ∙ here before after b n e in
      elim place-cases [
        | inl e ↦ at k e s0
        | inr (inl e) ↦ at (k + 1) e s1
        | inr (inr (inl e)) ↦ at (k + 2) e s2
        | inr (inr (inr e)) ↦ at (k + 3) e s3
      ]

-- If a frame is decoded, no frame that differs from it in exactly one byte is, whether that byte
-- stands in the header, the payload or the checksum.
pub decode-one_byte :
    (before after : List ℕ) (a b : ℕ)
    → AllBytes before
    → AllBytes after
    → a < 256
    → b < 256
    → a ≢ b
    → (decode (before ++ a ∷ after)).status ≡ SettingsFrameDecodeStatus.ok
    → (decode (before ++ b ∷ after)).status ≢ SettingsFrameDecodeStatus.ok
decode-one_byte before after a b hbefore hafter ha hb different oka okb =
    let wa = IsAccepted-decode (before ++ a ∷ after) oka in
    let wb = IsAccepted-decode (before ++ b ∷ after) okb in
    elim (Bool-cases (ltb (length after) 4)) [
      | inl near ↦
          let size = length-append before (a ∷ after) in
          let k = length before + suc (length after) - 4 in
          let long : 16 ≤ length (before ++ a ∷ after) = omega (arith, wa.sized) in
          let short : length after < 4 = ground arith in
          different (
            checksum_error before after a b k hbefore hafter ha hb (omega arith) (omega arith) wa
              wb)
      | inr far ↦
          let j = length after - 4 in
          let h : length after ≡ j + 4 = ground arith in
          crc32-one_byte before (take j after) a b hbefore (take-AllBytes j after hafter) ha hb
            different (stated before after a j h wa ∙ sym (stated before after b j h wb))
    ]
