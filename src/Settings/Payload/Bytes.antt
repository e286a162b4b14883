-- ===== src/Settings/Payload/Bytes.antt =====
-- The payload of valid settings is made of bytes.
use bmw_e9x_remote_control.Common.{
  ℕ, ◌<◌, ◌≡◌, Bool, true, some, List, [], ◌++◌, if◌then◌else◌, arith,
}
use bmw_e9x_remote_control.Settings.{UserSettings, valid, validate_user_settings}
use bmw_e9x_remote_control.Settings.Validation.{valid-validate_user_settings}
use bmw_e9x_remote_control.Settings.Bytes.{write_u16, write_u32, write_u64}
use bmw_e9x_remote_control.Settings.Bytes.Buffers.{
  AllBytes, write_u16-AllBytes, write_u32-AllBytes, write_u64-AllBytes,
}
use bmw_e9x_remote_control.Settings.Payload.{encode_user_settings_payload, payload_of}

flag_byte : (b : Bool) → (if b then 1 else 0) < 256
flag_byte b = ground arith

pub payload_of-AllBytes :
    (s : UserSettings) → valid (validate_user_settings s) ≡ true → AllBytes (payload_of s)
payload_of-AllBytes s ok =
    let v = (valid-validate_user_settings s).0 ok in
    let hysteresis = write_u16 s.temperature_alert_hysteresis_c ++ [] in
    let hysteresis_bytes = write_u16-AllBytes s.temperature_alert_hysteresis_c [] tt in
    let overheat = write_u16 s.transmission_overheat_temperature_c ++ hysteresis in
    let overheat_bytes =
      write_u16-AllBytes s.transmission_overheat_temperature_c hysteresis hysteresis_bytes in
    let warm = write_u16 s.engine_warm_temperature_c ++ overheat in
    let warm_bytes = write_u16-AllBytes s.engine_warm_temperature_c overheat overheat_bytes in
    let rpm = write_u16 s.cold_engine_maximum_rpm ++ warm in
    let rpm_bytes = write_u16-AllBytes s.cold_engine_maximum_rpm warm warm_bytes in
    let mask = write_u64 s.features.mask ++ rpm in
    let mask_bytes = write_u64-AllBytes s.features.mask rpm rpm_bytes in
    let sequence = write_u32 s.lock_maximum_sequence_ms ++ mask in
    let sequence_bytes = write_u32-AllBytes s.lock_maximum_sequence_ms mask mask_bytes in
    let maximum = write_u32 s.lock_maximum_gap_ms ++ sequence in
    let maximum_bytes = write_u32-AllBytes s.lock_maximum_gap_ms sequence sequence_bytes in
    let minimum = write_u32 s.lock_minimum_gap_ms ++ maximum in
    let minimum_bytes = write_u32-AllBytes s.lock_minimum_gap_ms maximum maximum_bytes in
    let takeover = write_u32 s.driver_takeover_timeout_ms ++ minimum in
    let takeover_bytes = write_u32-AllBytes s.driver_takeover_timeout_ms minimum minimum_bytes in
    let run = write_u32 s.maximum_remote_run_time_ms ++ takeover in
    let run_bytes = write_u32-AllBytes s.maximum_remote_run_time_ms takeover takeover_bytes in
    (
      flag_byte s.remote_start_enabled,
      (ground (arith, v.hood), (ground (arith, v.entry), (omega (arith, v.presses), run_bytes))),
    )

pub encode-payload_of :
    (s : UserSettings) (p : List ℕ)
    → encode_user_settings_payload s ≡ some p
    → (valid (validate_user_settings s) ≡ true) × (payload_of s ≡ p)
unfolding encode_user_settings_payload
encode-payload_of s p e = ground arith
