-- ===== src/Lock/Can/Conditions.antt =====
-- What the adapter looks for in its configuration and in a frame, stated of their fields.
use bmw_e9x_remote_control.Common.{
  ℕ, ◌+◌, ◌-◌, ◌%◌, ◌^◌, ◌≤◌, ◌<◌, ◌≡◌, ◌≢◌, ◌↔◌, ◌⊎◌, Bool, true, false, ◌&&◌, leb, get_or,
  bit_and, ◌/◌, sub32, u32_mod, if◌then◌else◌, arith,
}
use bmw_e9x_remote_control.Lock.Can.{
  CanFrame, CanBitMatcher, CanLockCommandAdapter, CanLockCommandAdapterConfig, matches, bit_count,
  extract, counter_is_valid, adapter_config_is_valid, matcher_is_valid, are_independent,
  maximum_identifier, CanCounterField,
}

-- The masked bits of the matcher's byte, which the frame has, are those expected.
pub record Shows (m : CanBitMatcher) (f : CanFrame) : Type 0 where
  pub present : m.byte_index < f.data_length
  pub within : m.byte_index < 8
  pub masked : m.mask ≢ 0
  pub expected : bit_and (get_or f.data_bytes m.byte_index 0) m.mask ≡ m.expected_value

pub matches_iff : (m : CanBitMatcher) (f : CanFrame) → (matches m f ≡ true) ↔ Shows m f
matches_iff m f = ground arith

-- A matcher reads a byte of the frame and expects no bit outside its mask.
pub record Fits (m : CanBitMatcher) (data_length : ℕ) : Type 0 where
  pub place : m.byte_index < data_length
  pub masked : m.mask ≢ 0
  pub inside : bit_and m.expected_value (255 - m.mask) ≡ 0

matcher_iff : (m : CanBitMatcher) (n : ℕ) → (matcher_is_valid m n ≡ true) ↔ Fits m n
matcher_iff m n = ground arith

-- Two fields share no bit.
abbrev pub Apart : ℕ → ℕ → ℕ → ℕ → Type 0
Apart index1 mask1 index2 mask2 = (index1 ≢ index2) ⊎ (bit_and mask1 mask2 ≡ 0)

independent_iff :
    (index1 mask1 index2 mask2 : ℕ)
    → (are_independent index1 mask1 index2 mask2 ≡ true) ↔ Apart index1 mask1 index2 mask2
independent_iff index1 mask1 index2 mask2 = ground arith

-- A configuration on which the adapter can work.
pub record IsUsable (c : CanLockCommandAdapterConfig) : Type 0 where
  pub identifier : c.identifier ≤ (if c.extended then 536870911 else 2047)
  pub length_set : 1 ≤ c.data_length
  pub length_bound : c.data_length ≤ 8
  pub command : Fits c.lock_command c.data_length
  pub secured : Fits c.vehicle_secured c.data_length
  pub counter_place : c.rolling_counter.byte_index < c.data_length
  pub counter_bits : 2 ≤ bit_count c.rolling_counter
  pub command_counter :
      Apart c.lock_command.byte_index c.lock_command.mask c.rolling_counter.byte_index
        c.rolling_counter.mask
  pub secured_counter :
      Apart c.vehicle_secured.byte_index c.vehicle_secured.mask c.rolling_counter.byte_index
        c.rolling_counter.mask
  pub command_secured :
      Apart c.lock_command.byte_index c.lock_command.mask c.vehicle_secured.byte_index
        c.vehicle_secured.mask

-- The nine tests of the configuration, one by one.
tests_iff :
    (a b c d e f g h i : Bool)
    → ((a && b && c && d && e && f && g && h && i) ≡ true) ↔ (
        (a ≡ true)
        × (b ≡ true)
        × (c ≡ true)
        × (d ≡ true)
        × (e ≡ true)
        × (f ≡ true)
        × (g ≡ true)
        × (h ≡ true)
        × (i ≡ true))
tests_iff a b c d e f g h i = ground arith

counter_iff :
    (r : CanCounterField) (n : ℕ)
    → (counter_is_valid r n ≡ true) ↔ ((r.byte_index < n) × (2 ≤ bit_count r))
unfolding counter_is_valid
counter_iff r n = ground arith

identifier_iff :
    (identifier : ℕ) (extended : Bool)
    → (leb identifier (maximum_identifier extended) ≡ true)
      ↔ (identifier ≤ (if extended then 536870911 else 2047))
identifier_iff identifier true = ground arith
identifier_iff identifier false = ground arith

pub config_iff : (c : CanLockCommandAdapterConfig) → (adapter_config_is_valid c ≡ true) ↔ IsUsable c
unfolding adapter_config_is_valid
config_iff c =
    let m = c.lock_command in
    let s = c.vehicle_secured in
    let r = c.rolling_counter in
    let n = c.data_length in
    let tests = tests_iff _ _ _ _ _ _ _ _ _ in
    let is_id = identifier_iff c.identifier c.extended in
    let m_fits = matcher_iff m n in
    let s_fits = matcher_iff s n in
    let counts = counter_iff r n in
    let m_r = independent_iff m.byte_index m.mask r.byte_index r.mask in
    let s_r = independent_iff s.byte_index s.mask r.byte_index r.mask in
    let m_s = independent_iff m.byte_index m.mask s.byte_index s.mask in
    (
      λ h.
          let (known, some_length, short, one, two, three, four, five, six) = tests.0 h in
          let (place, bits) = counts.0 three in
          record {
            identifier = is_id.0 known;
            length_set = ground arith;
            length_bound = ground arith;
            command = m_fits.0 one;
            secured = s_fits.0 two;
            counter_place = place;
            counter_bits = bits;
            command_counter = m_r.0 four;
            secured_counter = s_r.0 five;
            command_secured = m_s.0 six;
          },
      λ u. tests.1 (
        is_id.1 u.identifier,
        ground (arith, u.length_set),
        ground (arith, u.length_bound),
        m_fits.1 u.command,
        s_fits.1 u.secured,
        counts.1 (u.counter_place, u.counter_bits),
        m_r.1 u.command_counter,
        s_r.1 u.secured_counter,
        m_s.1 u.command_secured,
      ),
    )

-- By how much the rolling counter of the frame is past the one seen last, in its range.
abbrev pub moved_by : CanLockCommandAdapter → CanFrame → ℕ
moved_by a f =
    let range = 2 ^ bit_count a.config.rolling_counter in
    (extract a.config.rolling_counter f + range - a.last_raw_counter) % range

-- The time of the frame in milliseconds, in 32 bits.
abbrev pub seen_ms : CanFrame → ℕ
seen_ms f = (f.timestamp_us / 1000) % u32_mod

-- The frame is no older than the last one seen: its time is less than half the range of 32 bits
-- past that one's.
abbrev pub IsInTime : CanLockCommandAdapter → CanFrame → Type 0
IsInTime a f =
    (seen_ms f ≡ a.last_timestamp_ms)
    ⊎ (1 ≤ sub32 (seen_ms f) a.last_timestamp_ms)
      × (sub32 (seen_ms f) a.last_timestamp_ms < 2147483648)
