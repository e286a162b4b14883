-- ===== src/Tests/Settings.antt =====
-- Features, alerts, settings and their storage on concrete inputs.
use bmw_e9x_remote_control.Common.{
  ℕ, ◌<◌, ◌≤◌, ◌≡◌, ◌≢◌, ◌↔◌, refl, true, none, some, List, [], ◌∷◌, ◌++◌, arith, length, replicate,
  u32_mod,
}
use bmw_e9x_remote_control.Settings.{
  default_settings, valid, validate_user_settings, make_user_configuration,
}
use bmw_e9x_remote_control.Settings.Bytes.{byte_at, join16, join32, join64}
use bmw_e9x_remote_control.Settings.Bytes.Buffers.{AllBytes}
use bmw_e9x_remote_control.Settings.Payload.{
  decode_user_settings_payload, encode_user_settings_payload,
}
use bmw_e9x_remote_control.Settings.Payload.Laws.{encode-decode_user_settings}
use bmw_e9x_remote_control.Settings.Validation.{IsValid, valid-validate_user_settings}
use bmw_e9x_remote_control.Settings.Configuration.{make_user_configuration-consistent, Follows}
use bmw_e9x_remote_control.Settings.Checksum.{crc32}
use bmw_e9x_remote_control.Settings.Protocol.{
  SettingsProtocolFrame, SettingsFrameDecodeStatus, default_frame, encode, decode, read_request,
}
use bmw_e9x_remote_control.Settings.Protocol.RoundTrip.{
  IsFrame, decode-encode, cleared, decoded_frame,
}
use bmw_e9x_remote_control.Settings.Protocol.Corruption.{decode-one_byte}
use bmw_e9x_remote_control.Settings.Stream.{no_event, frame_event}
use bmw_e9x_remote_control.Settings.Stream.Reception.{feed, feed-encode, bytes_of, Timely, waiting}
use bmw_e9x_remote_control.Lock.Sequence.{sequence_config_is_valid}
use bmw_e9x_remote_control.Features.{
  requests_are_valid, FeatureId, FeatureRequests, FeatureRuntimeContext, default_context, effective,
  resolve_feature,
}
use bmw_e9x_remote_control.Features.Resolution.{effective-resolve_feature, MayTakeEffect}
use bmw_e9x_remote_control.Telemetry.{
  telemetry_is_valid, evaluate, new_monitor, default_telemetry, TelemetryConditionState,
  TelemetryAlertType,
}
use bmw_e9x_remote_control.Telemetry.Alerts.{evaluate-alerts, ReportsEdges}
use bmw_e9x_remote_control.Tests.Data.{parked}

valid-validate_user_settings_example :
    (valid (validate_user_settings default_settings) ≡ true) ↔ IsValid default_settings
valid-validate_user_settings_example = valid-validate_user_settings default_settings

abbrev whole_payload : ℕ
whole_payload = 40

-- The payload of the default settings.
abbrev pub default_payload : List ℕ
default_payload =
    1 ∷ 0 ∷ 0 ∷ 3 ∷ 160 ∷ 187 ∷ 13 ∷ 0 ∷ 96 ∷ 234 ∷ 0 ∷ 0 ∷ 80 ∷ 0 ∷ 0 ∷ 0 ∷ 220 ∷ 5 ∷ 0 ∷ 0 ∷ 184
    ∷ 11 ∷ 0 ∷ 0 ∷ 0 ∷ 0 ∷ 0 ∷ 0 ∷ 0 ∷ 0 ∷ 0 ∷ 0 ∷ 152 ∷ 8 ∷ 75 ∷ 0 ∷ 110 ∷ 0 ∷ 5 ∷ 0 ∷ []

pub default_payload-AllBytes : AllBytes default_payload
default_payload-AllBytes = ground arith

default_payload_decodes : decode_user_settings_payload default_payload 40 ≡ some default_settings
unfolding decode_user_settings_payload valid validate_user_settings requests_are_valid join16 join32
    join64
default_payload_decodes = refl

encode-decode_user_settings_example :
    (whole_payload ≡ 40)
    × (valid (validate_user_settings default_settings) ≡ true)
    × (encode_user_settings_payload default_settings ≡ some default_payload)
encode-decode_user_settings_example =
    encode-decode_user_settings default_payload whole_payload default_settings refl
      default_payload-AllBytes default_payload_decodes

-- A request to read the settings.
abbrev pub reading : SettingsProtocolFrame
reading = record default_frame { type = read_request; request_id = 7 }

reading-IsFrame : IsFrame reading
reading-IsFrame = record {
  type_byte = omega arith;
  status_byte = omega arith;
  id_word = omega arith;
  size = omega arith;
  whole = refl;
  bytes = ground arith;
}

decode-encode_example :
    (e : List ℕ) × (encode reading ≡ some e)
    × (length e ≡ 16)
    × (decode e ≡ decoded_frame (cleared reading))
decode-encode_example = decode-encode reading reading-IsFrame

-- The bytes of the request around the low byte of its identifier.
abbrev before_id : List ℕ
before_id = 66 ∷ 77 ∷ 67 ∷ 70 ∷ 1 ∷ 1 ∷ 0 ∷ 0 ∷ []

abbrev after_id : List ℕ
after_id = 0 ∷ 0 ∷ 0 ∷ 85 ∷ 78 ∷ 94 ∷ 149 ∷ []

abbrev id_sent : ℕ
id_sent = 7

abbrev id_received : ℕ
id_received = 8

seven_not_eight : id_sent ≢ id_received
seven_not_eight e = omega arith

before_id-AllBytes : AllBytes before_id
before_id-AllBytes = ground arith

after_id-AllBytes : AllBytes after_id
after_id-AllBytes = ground arith

seven_is_byte : 7 < 256
seven_is_byte = omega arith

eight_is_byte : 8 < 256
eight_is_byte = omega arith

reading_decodes : (decode (before_id ++ 7 ∷ after_id)).status ≡ SettingsFrameDecodeStatus.ok
unfolding decode crc32 join16 join32
reading_decodes = refl

decode-one_byte_example : (decode (before_id ++ 8 ∷ after_id)).status ≢ SettingsFrameDecodeStatus.ok
decode-one_byte_example =
    decode-one_byte before_id after_id id_sent id_received before_id-AllBytes after_id-AllBytes
      seven_is_byte eight_is_byte seven_not_eight reading_decodes

-- The same request, a byte every 10 ms.
abbrev later_bytes : List (ℕ × ℕ)
later_bytes =
    (77, 110)
    ∷ (67, 120)
    ∷ (70, 130)
    ∷ (1, 140)
    ∷ (1, 150)
    ∷ (0, 160)
    ∷ (0, 170)
    ∷ (7, 180)
    ∷ (0, 190)
    ∷ (0, 200)
    ∷ (0, 210)
    ∷ (85, 220)
    ∷ (78, 230)
    ∷ (94, 240)
    ∷ (149, 250)
    ∷ []

reading_encoded : encode reading ≡ some (66 ∷ bytes_of later_bytes)
unfolding encode crc32 byte_at
reading_encoded = refl

later_bytes-Timely : Timely 250 100 later_bytes
later_bytes-Timely = ground arith

feed-encode_example :
    feed (waiting 250) ((66, 100) ∷ later_bytes)
    ≡ (waiting 250, replicate 15 no_event ++ frame_event (cleared reading) ∷ [])
feed-encode_example =
    feed-encode reading 250 66 100 later_bytes reading-IsFrame reading_encoded later_bytes-Timely

make_user_configuration-consistent_example :
    let c = make_user_configuration default_settings none in
    (sequence_config_is_valid c.lock_sequence ≡ true)
    × (telemetry_is_valid c.telemetry ≡ true)
    × (c.controller.vehicle_profile ≡ none)
    × Follows (valid (validate_user_settings default_settings)) default_settings c.controller
make_user_configuration-consistent_example =
    make_user_configuration-consistent default_settings none

-- The first feature is asked for, on a bench where it is implemented and the state can be read.
abbrev first_feature : FeatureRequests
first_feature = record { mask = 1 }

abbrev bench : FeatureRuntimeContext
bench = record default_context {
  implemented_features = 1;
  available_capabilities = 1;
  vehicle_signals_qualified = true;
}

cold_engine_known : FeatureId.cold_engine_guard ≢ FeatureId.count
cold_engine_known e = cc

bench_word : bench.available_capabilities < u32_mod
bench_word = omega arith

effective-resolve_feature_example :
    (effective (resolve_feature first_feature FeatureId.cold_engine_guard bench) ≡ true)
    ↔ MayTakeEffect first_feature FeatureId.cold_engine_guard bench
effective-resolve_feature_example =
    effective-resolve_feature first_feature FeatureId.cold_engine_guard bench cold_engine_known
      bench_word

evaluate-alerts_example :
    let (m', report) = evaluate (new_monitor default_telemetry) parked in
    ReportsEdges TelemetryConditionState.unavailable report.cold_engine_guard
      TelemetryAlertType.cold_engine_high_rpm TelemetryAlertType.cold_engine_recovered report.alerts
    × ReportsEdges TelemetryConditionState.unavailable report.dpf_regeneration
        TelemetryAlertType.dpf_regeneration_started TelemetryAlertType.dpf_regeneration_stopped
        report.alerts
    × ReportsEdges TelemetryConditionState.unavailable report.transmission_overheat
        TelemetryAlertType.transmission_overheat
        TelemetryAlertType.transmission_temperature_recovered report.alerts
    × (length report.alerts ≤ 3)
    × (m'.previous_cold_engine ≡ report.cold_engine_guard)
    × (m'.previous_dpf ≡ report.dpf_regeneration)
    × (m'.previous_transmission ≡ report.transmission_overheat)
evaluate-alerts_example = evaluate-alerts (new_monitor default_telemetry) parked

-- A buffer of 57 bytes is longer than any frame; one of 56 is read on.
longer_than_a_frame : (decode (replicate 57 0)).status ≡ SettingsFrameDecodeStatus.too_long
unfolding decode
longer_than_a_frame = refl

as_long_as_a_frame : (decode (replicate 56 0)).status ≡ SettingsFrameDecodeStatus.invalid_magic
unfolding decode
as_long_as_a_frame = refl
