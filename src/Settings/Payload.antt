-- ===== src/Settings/Payload.antt =====
-- The settings payload (src/infrastructure/settings_payload.cpp): 40 bytes for the user settings,
-- little-endian.
pub mod Laws
pub mod Bytes
use bmw_e9x_remote_control.Common.{
  ℕ, Bool, true, false, not, same_bool, ◌&&◌, Option, none, some, List, [], ◌∷◌, ◌++◌, get_or, ltb,
  ◌==◌, if◌then◌else◌,
}
use bmw_e9x_remote_control.Features.{FeatureRequests}
use bmw_e9x_remote_control.Settings.{UserSettings, validate_user_settings, valid}
use bmw_e9x_remote_control.Settings.Bytes.{
  write_u16, write_u32, write_u64, read_u16, read_u32, read_u64,
}

-- `UserSettingsPayloadSize`.
abbrev pub user_settings_payload_size : ℕ
user_settings_payload_size = 40

-- What `encodeUserSettingsPayload` writes: the fields in the order of their offsets, which leave no
-- gap.
abbrev pub payload_of : UserSettings → List ℕ
payload_of s =
    (if s.remote_start_enabled then 1 else 0)
      ∷ s.hood_monitoring
      ∷ s.driver_entry_mode
      ∷ s.lock_press_count
      ∷ write_u32 s.maximum_remote_run_time_ms
    ++ write_u32 s.driver_takeover_timeout_ms
    ++ write_u32 s.lock_minimum_gap_ms
    ++ write_u32 s.lock_maximum_gap_ms
    ++ write_u32 s.lock_maximum_sequence_ms
    ++ write_u64 s.features.mask
    ++ write_u16 s.cold_engine_maximum_rpm
    ++ write_u16 s.engine_warm_temperature_c
    ++ write_u16 s.transmission_overheat_temperature_c
    ++ write_u16 s.temperature_alert_hysteresis_c

-- `encodeUserSettingsPayload`; `none` stands for the answer `false`, which leaves the buffer as it
-- was.
unfoldable pub encode_user_settings_payload : UserSettings → Option (List ℕ)
encode_user_settings_payload s =
    if not (valid (validate_user_settings s)) then none else some (payload_of s)

-- The settings that `decodeUserSettingsPayload` reads, before it validates them.
abbrev pub decoded_settings : List ℕ → UserSettings
decoded_settings p = record {
  remote_start_enabled = get_or p 0 0 == 1;
  hood_monitoring = get_or p 1 0;
  driver_entry_mode = get_or p 2 0;
  lock_press_count = get_or p 3 0;
  maximum_remote_run_time_ms = read_u32 p 4;
  driver_takeover_timeout_ms = read_u32 p 8;
  lock_minimum_gap_ms = read_u32 p 12;
  lock_maximum_gap_ms = read_u32 p 16;
  lock_maximum_sequence_ms = read_u32 p 20;
  features = record { mask = read_u64 p 24 };
  cold_engine_maximum_rpm = read_u16 p 32;
  engine_warm_temperature_c = read_u16 p 34;
  transmission_overheat_temperature_c = read_u16 p 36;
  temperature_alert_hysteresis_c = read_u16 p 38;
}

-- `decodeUserSettingsPayload(payload, payloadSize, settings)`; `none` stands for the answer `false`,
-- which leaves the settings as they were.
unfoldable pub decode_user_settings_payload : List ℕ → ℕ → Option UserSettings
decode_user_settings_payload p payload_size =
    if not (payload_size == user_settings_payload_size)
    then none
    else if ltb 1 (get_or p 0 0)
    then none
    else if not (valid (validate_user_settings (decoded_settings p)))
    then none
    else some (decoded_settings p)

-- `userSettingsEqual`.
unfoldable pub user_settings_equal : UserSettings → UserSettings → Bool
user_settings_equal l r =
    same_bool l.remote_start_enabled r.remote_start_enabled
    && l.hood_monitoring == r.hood_monitoring
    && l.driver_entry_mode == r.driver_entry_mode
    && l.maximum_remote_run_time_ms == r.maximum_remote_run_time_ms
    && l.driver_takeover_timeout_ms == r.driver_takeover_timeout_ms
    && l.lock_press_count == r.lock_press_count
    && l.lock_minimum_gap_ms == r.lock_minimum_gap_ms
    && l.lock_maximum_gap_ms == r.lock_maximum_gap_ms
    && l.lock_maximum_sequence_ms == r.lock_maximum_sequence_ms
    && l.features.mask == r.features.mask
    && l.cold_engine_maximum_rpm == r.cold_engine_maximum_rpm
    && l.engine_warm_temperature_c == r.engine_warm_temperature_c
    && l.transmission_overheat_temperature_c == r.transmission_overheat_temperature_c
    && l.temperature_alert_hysteresis_c == r.temperature_alert_hysteresis_c
