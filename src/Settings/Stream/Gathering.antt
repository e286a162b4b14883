-- ===== src/Settings/Stream/Gathering.antt =====
-- What the receiver does with each byte of a well-formed frame.
use bmw_e9x_remote_control.Common.{
  ℕ, zero, suc, ◌+◌, ◌≤◌, ◌<◌, ◌≡◌, inl, inr, refl, sym, ap, ◌∙◌, true, false, List, [], ◌∷◌, ◌++◌,
  get_or, length, length-append, ltb, leb, ◌==◌, if◌then◌else◌, arith, Bool-cases, ==_iff, ◌≢◌,
}
use bmw_e9x_remote_control.Settings.Bytes.{read_u16, join16}
use bmw_e9x_remote_control.Settings.Protocol.{decode, has_magic}
use bmw_e9x_remote_control.Settings.Protocol.RoundTrip.{IsAccepted}
use bmw_e9x_remote_control.Settings.Stream.{
  SettingsStreamReceiver, SettingsStreamEvent, consume_synchronized, no_event, reset, magic_at,
  event_of_result,
}

-- The size that the receiver expects once the bytes `d` of a frame of `n` bytes are there.
abbrev pub expected : List ℕ → ℕ → ℕ
expected d n = if ltb (length d) 12 then 0 else n

get_or-within : (d rest : List ℕ) (i : ℕ) → i < length d → get_or (d ++ rest) i 0 ≡ get_or d i 0
get_or-within [] rest i h = absurd (omega arith)
get_or-within (x ∷ d) rest zero h = refl
get_or-within (x ∷ d) rest (suc i) h = get_or-within d rest i (omega arith)

pub append_assoc : (xs ys zs : List ℕ) → (xs ++ ys) ++ zs ≡ xs ++ (ys ++ zs)
append_assoc [] ys zs = refl
append_assoc (x ∷ xs) ys zs = ap (λ t. x ∷ t) (append_assoc xs ys zs)

next_byte : (d rest : List ℕ) (b : ℕ) → get_or (d ++ b ∷ rest) (length d) 0 ≡ b
next_byte [] rest b = refl
next_byte (x ∷ d) rest b = next_byte d rest b

magic_byte : (e : List ℕ) (i : ℕ) → has_magic e ≡ true → i < 4 → get_or e i 0 ≡ magic_at i
magic_byte e zero h hi = ground arith
magic_byte e (suc zero) h hi = ground arith
magic_byte e (suc (suc zero)) h hi = ground arith
magic_byte e (suc (suc (suc zero))) h hi = ground arith
magic_byte e (suc (suc (suc (suc i)))) h hi = absurd (omega arith)

module _ (timeout : ℕ) where
  -- The receiver that has the bytes `d` of a frame of `n` bytes.
  abbrev pub holding : List ℕ → ℕ → ℕ → SettingsStreamReceiver
  holding d n t = record {
    inter_byte_timeout_ms = timeout;
    buffer = d;
    expected_size = expected d n;
    last_byte_time_ms = t;
  }

  -- What the next byte should do, with more bytes to come and as the last one.
  abbrev pub gathered : List ℕ → ℕ → ℕ → ℕ → SettingsStreamReceiver × SettingsStreamEvent
  gathered d b t n =
      if ltb (length (d ++ b ∷ [])) n
      then (holding (d ++ b ∷ []) n t, no_event)
      else (reset (holding (d ++ b ∷ []) n t), event_of_result (decode (d ++ b ∷ [])))

  module _ (d rest : List ℕ) (b t n : ℕ) (w : IsAccepted (d ++ b ∷ rest))
      (size : length (d ++ b ∷ rest) ≡ n) where
    pub length_so_far : length (d ++ b ∷ []) ≡ suc (length d)
    length_so_far = omega (arith, length-append d (b ∷ []))

    in_magic :
        length d < 4
        → consume_synchronized (holding d n t) b ≡ (holding (d ++ b ∷ []) n t, no_event)
    unfolding consume_synchronized
    in_magic h =
        let here : b ≡ magic_at (length d) =
          sym (next_byte d rest b) ∙ magic_byte (d ++ b ∷ rest) (length d) w.magic h in
        let near : ltb (length d) 4 ≡ true = ground arith in
        let matches : (b == magic_at (length d)) ≡ true = (==_iff b (magic_at (length d))).1 here in
        let early : ltb (length d) 12 ≡ true = ground arith in
        let still_early : ltb (length (d ++ b ∷ [])) 12 ≡ true = ground (arith, length_so_far) in
        rw (near, matches, early, still_early) refl

    -- The read of the payload's size, once the header is there.
    header_size : length d ≡ 11 → 16 + read_u16 (d ++ b ∷ []) 10 ≡ n
    header_size h =
        let assoc : (d ++ b ∷ []) ++ rest ≡ d ++ b ∷ rest = append_assoc d (b ∷ []) rest in
        let low =
          ap (λ e. get_or e 10 0) (sym assoc)
          ∙ get_or-within (d ++ b ∷ []) rest 10 (omega (arith, length_so_far)) in
        let high =
          ap (λ e. get_or e 11 0) (sym assoc)
          ∙ get_or-within (d ++ b ∷ []) rest 11 (omega (arith, length_so_far)) in
        let same : read_u16 (d ++ b ∷ rest) 10 ≡ read_u16 (d ++ b ∷ []) 10 =
          ap (λ x. join16 x (get_or (d ++ b ∷ rest) 11 0)) low
          ∙ ap (λ y. join16 (get_or (d ++ b ∷ []) 10 0) y) high in
        omega (arith, w.sized)

    at_header : length d ≡ 11 → consume_synchronized (holding d n t) b ≡ gathered d b t n
    unfolding consume_synchronized
    at_header h =
        let far : ltb (length d) 4 ≡ false = ground arith in
        let small : leb 56 (length d) ≡ false = ground arith in
        let whole : (length (d ++ b ∷ []) == 12) ≡ true = ground (arith, length_so_far) in
        let not_early : ltb (length (d ++ b ∷ [])) 12 ≡ false = ground (arith, length_so_far) in
        let measured = header_size h in
        let bound : read_u16 (d ++ b ∷ []) 10 ≤ 40 = omega (arith, w.fits, w.sized) in
        let fits : ltb 40 (read_u16 (d ++ b ∷ []) 10) ≡ false = ground arith in
        let expect : 12 + read_u16 (d ++ b ∷ []) 10 + 4 ≡ n = omega arith in
        let some_size : (n == 0) ≡ false = ground arith in
        rw (far, small, whole, fits, expect, not_early) (rw some_size refl)

    past_header :
        4 ≤ length d → length d ≢ 11 → consume_synchronized (holding d n t) b ≡ gathered d b t n
    unfolding consume_synchronized
    past_header h1 h2 =
        let far : ltb (length d) 4 ≡ false = ground arith in
        let total = length-append d (b ∷ rest) in
        let small : leb 56 (length d) ≡ false = ground (arith, w.fits, w.sized) in
        let whole : (length (d ++ b ∷ []) == 12) ≡ false = ground (arith, length_so_far) in
        let long : 16 ≤ n = omega (arith, w.sized) in
        let some_size : (n == 0) ≡ false = ground arith in
        elim (Bool-cases (ltb (length d) 12)) [
          | inl early ↦
              let still : ltb (length (d ++ b ∷ [])) 12 ≡ true = ground (arith, length_so_far) in
              let more : ltb (length (d ++ b ∷ [])) n ≡ true = ground (arith, length_so_far) in
              rw (far, small, whole, early, still, more) refl
          | inr later ↦
              let still : ltb (length (d ++ b ∷ [])) 12 ≡ false = ground (arith, length_so_far) in
              rw (far, small, whole, later, still, some_size) refl
        ]

    pub step : consume_synchronized (holding d n t) b ≡ gathered d b t n
    step = elim (Bool-cases (ltb (length d) 4)) [
      | inl near ↦
          let total = length-append d (b ∷ rest) in
          let more : ltb (length (d ++ b ∷ [])) n ≡ true = ground (arith, length_so_far, w.sized) in
          in_magic (ground arith) ∙ rw more refl
      | inr far ↦ elim (Bool-cases (length d == 11)) [
        | inl header ↦ at_header (ground arith)
        | inr other ↦ past_header (ground arith) (λ e. ground arith)
      ]
    ]
