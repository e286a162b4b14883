-- ===== src/Settings/Payload/Laws.antt =====
-- Settings and payloads determine each other.
use mathlib.Core.Path.{subst}
use bmw_e9x_remote_control.Common.{
  ℕ, sym, ◌≡◌, ◌↔◌, ◌<◌, refl, Bool, true, false, some, List, [], ◌∷◌, get_or, length, drop,
  drop-length, ◌≤◌, ltb, ◌==◌, if◌then◌else◌, arith, u64_mod,
}
use bmw_e9x_remote_control.Settings.{UserSettings, validate_user_settings, valid}
use bmw_e9x_remote_control.Settings.Validation.{IsValid, valid-validate_user_settings}
use bmw_e9x_remote_control.Settings.Bytes.Words.{join16-byte_at, join32-byte_at, join64-read_u32}
use bmw_e9x_remote_control.Settings.Bytes.Buffers.{AllBytes, after_u16, after_u32, after_u64}
use bmw_e9x_remote_control.Settings.Payload.{
  payload_of, decoded_settings, encode_user_settings_payload, decode_user_settings_payload,
  user_settings_equal,
}

flag : (b : Bool) → ((if b then 1 else 0) == 1) ≡ b
flag b = ground arith

flag_bound : (b : Bool) → ltb 1 (if b then 1 else 0) ≡ false
flag_bound b = ground arith

decoded_settings-payload_of :
    (s : UserSettings) → IsValid s → s.features.mask < u64_mod → decoded_settings (payload_of s) ≡ s
decoded_settings-payload_of s v h =
    let run = join32-byte_at s.maximum_remote_run_time_ms (omega (arith, v.run_time)) in
    let takeover = join32-byte_at s.driver_takeover_timeout_ms (omega (arith, v.takeover)) in
    let minimum = join32-byte_at s.lock_minimum_gap_ms (omega (arith, v.minimum_gap)) in
    let maximum = join32-byte_at s.lock_maximum_gap_ms (omega (arith, v.maximum_gap)) in
    let sequence = join32-byte_at s.lock_maximum_sequence_ms (omega (arith, v.sequence)) in
    let mask = join64-read_u32 s.features.mask h in
    let rpm = join16-byte_at s.cold_engine_maximum_rpm (omega (arith, v.rpm)) in
    let warm = join16-byte_at s.engine_warm_temperature_c (omega (arith, v.warm)) in
    let hot = join16-byte_at s.transmission_overheat_temperature_c (omega (arith, v.overheat)) in
    let band = join16-byte_at s.temperature_alert_hysteresis_c (omega (arith, v.hysteresis)) in
    rw (run, takeover, minimum, maximum, sequence, mask, rpm, warm, hot, band)
      (rw (flag s.remote_start_enabled) refl)

first_bytes :
    (p t : List ℕ)
    → 4 ≤ length p
    → ltb 1 (get_or p 0 0) ≡ false
    → t ≡ drop 4 p
    → ((if get_or p 0 0 == 1 then 1 else 0) ∷ get_or p 1 0 ∷ get_or p 2 0 ∷ get_or p 3 0 ∷ t) ≡ p
first_bytes (a ∷ b ∷ c ∷ d ∷ p) t h flag e =
    let kept : (if a == 1 then 1 else 0) ≡ a = ground arith in rw (e, kept) refl
first_bytes [] t h flag e = absurd (omega arith)
first_bytes (a ∷ []) t h flag e = absurd (omega arith)
first_bytes (a ∷ b ∷ []) t h flag e = absurd (omega arith)
first_bytes (a ∷ b ∷ c ∷ []) t h flag e = absurd (omega arith)

payload_of-decoded_settings :
    (p : List ℕ)
    → length p ≡ 40
    → AllBytes p
    → ltb 1 (get_or p 0 0) ≡ false
    → payload_of (decoded_settings p) ≡ p
payload_of-decoded_settings p len hp flag =
    let hysteresis = after_u16 38 p [] hp (omega arith) (sym (drop-length 40 p (omega arith))) in
    let overheat = after_u16 36 p _ hp (omega arith) hysteresis in
    let warm = after_u16 34 p _ hp (omega arith) overheat in
    let rpm = after_u16 32 p _ hp (omega arith) warm in
    let mask = after_u64 24 p _ hp (omega arith) rpm in
    let sequence = after_u32 20 p _ hp (omega arith) mask in
    let maximum = after_u32 16 p _ hp (omega arith) sequence in
    let minimum = after_u32 12 p _ hp (omega arith) maximum in
    let takeover = after_u32 8 p _ hp (omega arith) minimum in
    let run = after_u32 4 p _ hp (omega arith) takeover in first_bytes p _ (omega arith) flag run

length-payload_of : (s : UserSettings) → length (payload_of s) ≡ 40
length-payload_of s = refl

-- Valid settings with a 64-bit feature mask are encoded, in 40 bytes from which the decoder gives the
-- same settings back.
pub decode-encode_user_settings :
    (s : UserSettings)
    → valid (validate_user_settings s) ≡ true
    → s.features.mask < u64_mod
    → (p : List ℕ) × (encode_user_settings_payload s ≡ some p)
      × (length p ≡ 40)
      × (decode_user_settings_payload p 40 ≡ some s)
unfolding encode_user_settings_payload decode_user_settings_payload
decode-encode_user_settings s ok h =
    let v = (valid-validate_user_settings s).0 ok in
    let back = decoded_settings-payload_of s v h in
    (
      payload_of s,
      rw ok refl,
      length-payload_of s,
      rw (back, ok) (rw (flag_bound s.remote_start_enabled) refl),
    )

-- A payload of 40 bytes that the decoder accepts is the only one that the encoder writes for the
-- settings in it, which are valid.
pub encode-decode_user_settings :
    (p : List ℕ) (size : ℕ) (s : UserSettings)
    → length p ≡ 40
    → AllBytes p
    → decode_user_settings_payload p size ≡ some s
    → (size ≡ 40)
      × (valid (validate_user_settings s) ≡ true)
      × (encode_user_settings_payload s ≡ some p)
unfolding encode_user_settings_payload decode_user_settings_payload
encode-decode_user_settings p size s len hp e =
    let same : decoded_settings p ≡ s = ground arith in
    let flag : ltb 1 (get_or p 0 0) ≡ false = ground arith in
    let ok : valid (validate_user_settings (decoded_settings p)) ≡ true = ground arith in
    let whole = payload_of-decoded_settings p len hp flag in
    let ok_s : valid (validate_user_settings s) ≡ true =
      subst (λ x. valid (validate_user_settings x) ≡ true) same ok in
    let whole_s : payload_of s ≡ p = subst (λ x. payload_of x ≡ p) same whole in
    (ground arith, ok_s, rw (ok_s, whole_s) refl)

user_settings_equal-≡ : (l r : UserSettings) → user_settings_equal l r ≡ true → l ≡ r
unfolding user_settings_equal
user_settings_equal-≡ l r h =
    let remote_start_enabled : l.remote_start_enabled ≡ r.remote_start_enabled = ground arith in
    let hood_monitoring : l.hood_monitoring ≡ r.hood_monitoring = ground arith in
    let driver_entry_mode : l.driver_entry_mode ≡ r.driver_entry_mode = ground arith in
    let maximum_remote_run_time_ms : l.maximum_remote_run_time_ms ≡ r.maximum_remote_run_time_ms =
      ground arith in
    let driver_takeover_timeout_ms : l.driver_takeover_timeout_ms ≡ r.driver_takeover_timeout_ms =
      ground arith in
    let lock_press_count : l.lock_press_count ≡ r.lock_press_count = ground arith in
    let lock_minimum_gap_ms : l.lock_minimum_gap_ms ≡ r.lock_minimum_gap_ms = ground arith in
    let lock_maximum_gap_ms : l.lock_maximum_gap_ms ≡ r.lock_maximum_gap_ms = ground arith in
    let lock_maximum_sequence_ms : l.lock_maximum_sequence_ms ≡ r.lock_maximum_sequence_ms =
      ground arith in
    let features : l.features.mask ≡ r.features.mask = ground arith in
    let cold_engine_maximum_rpm : l.cold_engine_maximum_rpm ≡ r.cold_engine_maximum_rpm =
      ground arith in
    let engine_warm_temperature_c : l.engine_warm_temperature_c ≡ r.engine_warm_temperature_c =
      ground arith in
    let transmission_overheat_temperature_c : l.transmission_overheat_temperature_c
        ≡ r.transmission_overheat_temperature_c =
      ground arith in
    let temperature_alert_hysteresis_c : l.temperature_alert_hysteresis_c
        ≡ r.temperature_alert_hysteresis_c =
      ground arith in
    λ i. record {
      remote_start_enabled = remote_start_enabled i;
      hood_monitoring = hood_monitoring i;
      driver_entry_mode = driver_entry_mode i;
      maximum_remote_run_time_ms = maximum_remote_run_time_ms i;
      driver_takeover_timeout_ms = driver_takeover_timeout_ms i;
      lock_press_count = lock_press_count i;
      lock_minimum_gap_ms = lock_minimum_gap_ms i;
      lock_maximum_gap_ms = lock_maximum_gap_ms i;
      lock_maximum_sequence_ms = lock_maximum_sequence_ms i;
      features = record { mask = features i };
      cold_engine_maximum_rpm = cold_engine_maximum_rpm i;
      engine_warm_temperature_c = engine_warm_temperature_c i;
      transmission_overheat_temperature_c = transmission_overheat_temperature_c i;
      temperature_alert_hysteresis_c = temperature_alert_hysteresis_c i;
    }

-- `userSettingsEqual` is equality of the settings.
pub user_settings_equal_iff : (l r : UserSettings) → (user_settings_equal l r ≡ true) ↔ (l ≡ r)
unfolding user_settings_equal
user_settings_equal_iff l r = (user_settings_equal-≡ l r, λ e. rw e same_settings)
  where
    same_settings : user_settings_equal r r ≡ true
    same_settings = ground arith
