-- ===== src/Settings.antt =====
-- User settings (include/bmw_remote/application/user_settings.hpp and
-- src/application/user_settings.cpp): their limits, and the configuration that they give the
-- controller, the lock sequence detector and the telemetry monitor. The child modules model the
-- settings payload, frames, streams and storage of src/infrastructure.
pub mod Validation
pub mod Configuration
pub mod Bytes
pub mod Payload
pub mod Checksum
pub mod Identity
pub mod Protocol
pub mod Ports
pub mod Service
pub mod Storage
pub mod Stream
use bmw_e9x_remote_control.Common.{
  ℕ, ◌*◌, ◌-◌, ◌^◌, ◌%◌, Bool, true, false, not, ◌&&◌, ◌||◌, Option, ltb, leb, ◌==◌, if◌then◌else◌,
  bit_or, has_bits, ℤ, pos, to_int16,
}
use bmw_e9x_remote_control.Domain.{VehicleProfile}
use bmw_e9x_remote_control.Controller
use bmw_e9x_remote_control.Controller.Types.{ControllerConfig, DriverEntryMode}
use bmw_e9x_remote_control.Lock
use bmw_e9x_remote_control.Lock.Sequence.{LockSequenceConfig}
use bmw_e9x_remote_control.Features.{FeatureRequests, requests_are_valid}
use bmw_e9x_remote_control.Telemetry.{TelemetryMonitorConfig, default_telemetry}

-- The values of `HoodMonitoringMode`. A settings payload is cast to it without a check, so that a
-- field of this type holds any byte.
abbrev pub hood_required : ℕ
hood_required = 0

abbrev pub hood_disabled : ℕ
hood_disabled = 1

-- The values of `DriverEntryMode`, as bytes for the same reason.
abbrev pub entry_require_takeover : ℕ
entry_require_takeover = 0

abbrev pub entry_stop_immediately : ℕ
entry_stop_immediately = 1

pub record UserSettings : Type 0 where
  pub remote_start_enabled : Bool
  pub hood_monitoring : ℕ  -- uint8_t
  pub driver_entry_mode : ℕ  -- uint8_t
  pub maximum_remote_run_time_ms : ℕ  -- uint32_t
  pub driver_takeover_timeout_ms : ℕ  -- uint32_t
  pub lock_press_count : ℕ  -- uint8_t
  pub lock_minimum_gap_ms : ℕ  -- uint32_t
  pub lock_maximum_gap_ms : ℕ  -- uint32_t
  pub lock_maximum_sequence_ms : ℕ  -- uint32_t
  pub features : FeatureRequests
  pub cold_engine_maximum_rpm : ℕ  -- uint16_t
  pub engine_warm_temperature_c : ℕ  -- uint16_t
  pub transmission_overheat_temperature_c : ℕ  -- uint16_t
  pub temperature_alert_hysteresis_c : ℕ  -- uint16_t

-- `UserSettings{}`.
abbrev pub default_settings : UserSettings
default_settings = record {
  remote_start_enabled = true;
  hood_monitoring = hood_required;
  driver_entry_mode = entry_require_takeover;
  maximum_remote_run_time_ms = 15 * 60 * 1000;
  driver_takeover_timeout_ms = 60000;
  lock_press_count = 3;
  lock_minimum_gap_ms = 80;
  lock_maximum_gap_ms = 1500;
  lock_maximum_sequence_ms = 3000;
  features = record { mask = 0 };
  cold_engine_maximum_rpm = 2200;
  engine_warm_temperature_c = 75;
  transmission_overheat_temperature_c = 110;
  temperature_alert_hysteresis_c = 5;
}

pub data UserSettingsReason : Type 0 where
  none unsupported_hood_mode unsupported_driver_entry_mode : UserSettingsReason
  remote_run_time_out_of_range takeover_timeout_out_of_range : UserSettingsReason
  lock_press_count_out_of_range lock_minimum_gap_out_of_range : UserSettingsReason
  lock_maximum_gap_out_of_range lock_sequence_time_out_of_range : UserSettingsReason
  inconsistent_lock_timing invalid_feature_mask : UserSettingsReason
  cold_engine_maximum_rpm_out_of_range engine_warm_temperature_out_of_range : UserSettingsReason
  transmission_overheat_temperature_out_of_range : UserSettingsReason
  temperature_alert_hysteresis_out_of_range : UserSettingsReason

abbrev pub user_settings_mask : UserSettingsReason → ℕ
user_settings_mask none = 0
user_settings_mask unsupported_hood_mode = 2 ^ 0
user_settings_mask unsupported_driver_entry_mode = 2 ^ 1
user_settings_mask remote_run_time_out_of_range = 2 ^ 2
user_settings_mask takeover_timeout_out_of_range = 2 ^ 3
user_settings_mask lock_press_count_out_of_range = 2 ^ 4
user_settings_mask lock_minimum_gap_out_of_range = 2 ^ 5
user_settings_mask lock_maximum_gap_out_of_range = 2 ^ 6
user_settings_mask lock_sequence_time_out_of_range = 2 ^ 7
user_settings_mask inconsistent_lock_timing = 2 ^ 8
user_settings_mask invalid_feature_mask = 2 ^ 9
user_settings_mask cold_engine_maximum_rpm_out_of_range = 2 ^ 10
user_settings_mask engine_warm_temperature_out_of_range = 2 ^ 11
user_settings_mask transmission_overheat_temperature_out_of_range = 2 ^ 12
user_settings_mask temperature_alert_hysteresis_out_of_range = 2 ^ 13

-- The `std::uint16_t` of reasons. `|` of two such words is one, so the cast back changes nothing.
pub record UserSettingsValidation : Type 0 where
  pub reasons : ℕ

abbrev pub no_reasons : UserSettingsValidation
no_reasons = record { reasons = user_settings_mask none }

unfoldable pub valid : UserSettingsValidation → Bool
valid v = v.reasons == user_settings_mask none

unfoldable pub contains : UserSettingsValidation → UserSettingsReason → Bool
unfolding has_bits
contains v r = has_bits v.reasons (user_settings_mask r)

unfoldable pub add : UserSettingsValidation → UserSettingsReason → UserSettingsValidation
add v r = record { reasons = bit_or v.reasons (user_settings_mask r) }

-- `if (found) validation.add(reason);`
unfoldable pub add_if : Bool → UserSettingsReason → UserSettingsValidation → UserSettingsValidation
unfolding add
add_if found r v = if found then add v r else v

abbrev pub outside : ℕ → ℕ → ℕ → Bool
outside value minimum maximum = ltb value minimum || ltb maximum value

-- The `switch` on a mode: every value but the two enumerators is unsupported.
abbrev pub unsupported : ℕ → Bool
unsupported mode = not (mode == 0 || mode == 1)

-- The product is of a byte and a 32-bit word, which 64 bits hold.
abbrev pub minimum_sequence_time : UserSettings → ℕ
minimum_sequence_time s =
    let required_intervals = if s.lock_press_count == 0 then 0 else s.lock_press_count - 1 in
    required_intervals * s.lock_minimum_gap_ms

abbrev pub lock_timing_is_inconsistent : UserSettings → Bool
lock_timing_is_inconsistent s =
    ltb s.lock_maximum_gap_ms s.lock_minimum_gap_ms
    || ltb s.lock_maximum_sequence_ms s.lock_maximum_gap_ms
    || ltb s.lock_maximum_sequence_ms (minimum_sequence_time s)

-- `validateUserSettings`, with the numbers of `UserSettingsLimits`.
unfoldable pub validate_user_settings : UserSettings → UserSettingsValidation
unfolding add_if
validate_user_settings s =
    let v1 = add_if (unsupported s.hood_monitoring) unsupported_hood_mode no_reasons in
    let v2 = add_if (unsupported s.driver_entry_mode) unsupported_driver_entry_mode v1 in
    let v3 =
      add_if (outside s.maximum_remote_run_time_ms 60000 3600000) remote_run_time_out_of_range v2 in
    let v4 =
      add_if (outside s.driver_takeover_timeout_ms 10000 300000) takeover_timeout_out_of_range v3 in
    let v5 = add_if (outside s.lock_press_count 2 5) lock_press_count_out_of_range v4 in
    let v6 = add_if (outside s.lock_minimum_gap_ms 50 5000) lock_minimum_gap_out_of_range v5 in
    let v7 = add_if (outside s.lock_maximum_gap_ms 50 5000) lock_maximum_gap_out_of_range v6 in
    let v8 =
      add_if (outside s.lock_maximum_sequence_ms 500 15000) lock_sequence_time_out_of_range v7 in
    let v9 = add_if (lock_timing_is_inconsistent s) inconsistent_lock_timing v8 in
    let v10 = add_if (not (requests_are_valid s.features)) invalid_feature_mask v9 in
    let v11 =
      add_if (outside s.cold_engine_maximum_rpm 1000 4500) cold_engine_maximum_rpm_out_of_range
        v10 in
    let v12 =
      add_if (outside s.engine_warm_temperature_c 40 110) engine_warm_temperature_out_of_range
        v11 in
    let v13 =
      add_if (outside s.transmission_overheat_temperature_c 80 150)
        transmission_overheat_temperature_out_of_range v12 in
    add_if (outside s.temperature_alert_hysteresis_c 1 20) temperature_alert_hysteresis_out_of_range
      v13

pub record UserConfiguration : Type 0 where
  pub validation : UserSettingsValidation
  pub controller : ControllerConfig
  pub lock_sequence : LockSequenceConfig
  pub telemetry : TelemetryMonitorConfig

-- The enumerator of a byte, which valid settings alone reach.
abbrev pub driver_entry : ℕ → DriverEntryMode
driver_entry mode =
    if mode == entry_require_takeover
    then DriverEntryMode.require_takeover
    else DriverEntryMode.stop_immediately

-- `makeUserConfiguration`; the profile is a pointer, which may be null.
unfoldable pub make_user_configuration : UserSettings → Option VehicleProfile → UserConfiguration
unfolding validate_user_settings valid to_int16
make_user_configuration s profile =
    let validation = validate_user_settings s in
    let controller : ControllerConfig = record Controller.Types.default_config {
      vehicle_profile = profile;
    } in
    if not (valid validation)
    then record {
      validation = validation;
      controller = record controller { remote_start_enabled = false };
      lock_sequence = Lock.Sequence.default_config;
      telemetry = default_telemetry;
    }
    else record {
      validation = validation;
      controller = record controller {
        remote_start_enabled = s.remote_start_enabled;
        driver_entry_mode = driver_entry s.driver_entry_mode;
        safety_config = record controller.safety_config {
          require_hood_closed = s.hood_monitoring == hood_required;
        };
        maximum_remote_run_time_ms = s.maximum_remote_run_time_ms;
        driver_takeover_timeout_ms = s.driver_takeover_timeout_ms;
      };
      lock_sequence = record {
        required_presses = s.lock_press_count;
        minimum_gap_ms = s.lock_minimum_gap_ms;
        maximum_gap_ms = s.lock_maximum_gap_ms;
        maximum_sequence_ms = s.lock_maximum_sequence_ms;
      };
      telemetry = record default_telemetry {
        requested_features = s.features;
        cold_engine_maximum_rpm = s.cold_engine_maximum_rpm;
        engine_warm_temperature_c = to_int16 (pos s.engine_warm_temperature_c);
        transmission_overheat_temperature_c = to_int16 (pos s.transmission_overheat_temperature_c);
        temperature_hysteresis_c = s.temperature_alert_hysteresis_c % 256;
      };
    }
