-- ===== src/Settings/Configuration.antt =====
-- Valid settings configure the program consistently.
use bmw_e9x_remote_control.Common.{
  ◌≡◌, ◌↔◌, refl, Bool, true, false, arith, to_int16, to_int16-pos, pos, ◌%◌, Bool-cases, inl, inr,
  Option,
}
use bmw_e9x_remote_control.Domain.{VehicleProfile}
use bmw_e9x_remote_control.Controller.Types.{ControllerConfig}
use bmw_e9x_remote_control.Lock.Sequence.{sequence_config_is_valid}
use bmw_e9x_remote_control.Telemetry.{telemetry_is_valid, default_telemetry}
use bmw_e9x_remote_control.Features.{requests_are_valid}
use bmw_e9x_remote_control.Settings.{
  UserSettings, valid, validate_user_settings, make_user_configuration,
}
use bmw_e9x_remote_control.Settings.Validation.{IsValid, valid-validate_user_settings}

sequence-IsValid :
    (s : UserSettings)
    → IsValid s
    → sequence_config_is_valid (record {
      required_presses = s.lock_press_count;
      minimum_gap_ms = s.lock_minimum_gap_ms;
      maximum_gap_ms = s.lock_maximum_gap_ms;
      maximum_sequence_ms = s.lock_maximum_sequence_ms;
    })
      ≡ true
sequence-IsValid s v = ground (arith, v.presses, v.gaps, v.gap_in_sequence, v.presses_in_sequence)

default_telemetry_lem : telemetry_is_valid default_telemetry ≡ true
unfolding telemetry_is_valid requests_are_valid
default_telemetry_lem = refl

telemetry-IsValid :
    (s : UserSettings)
    → IsValid s
    → telemetry_is_valid (record default_telemetry {
      requested_features = s.features;
      cold_engine_maximum_rpm = s.cold_engine_maximum_rpm;
      engine_warm_temperature_c = to_int16 (pos s.engine_warm_temperature_c);
      transmission_overheat_temperature_c = to_int16 (pos s.transmission_overheat_temperature_c);
      temperature_hysteresis_c = s.temperature_alert_hysteresis_c % 256;
    })
      ≡ true
unfolding telemetry_is_valid
telemetry-IsValid s v =
    let warm = to_int16-pos s.engine_warm_temperature_c (omega (arith, v.warm)) in
    let hot = to_int16-pos s.transmission_overheat_temperature_c (omega (arith, v.overheat)) in
    rw (warm, hot) (ground (arith, v.warm, v.overheat, v.features, v.rpm, v.hysteresis))

-- What a controller configuration takes from settings that passed validation, and from others.
abbrev pub Follows : Bool → UserSettings → ControllerConfig → Type 0
Follows false s c = c.remote_start_enabled ≡ false
Follows true s c =
    (c.remote_start_enabled ≡ s.remote_start_enabled)
    × ((c.safety_config.require_hood_closed ≡ true) ↔ (s.hood_monitoring ≡ 0))
    × (c.maximum_remote_run_time_ms ≡ s.maximum_remote_run_time_ms)
    × (c.driver_takeover_timeout_ms ≡ s.driver_takeover_timeout_ms)

-- Whatever the settings, the configuration's lock sequence and telemetry thresholds are valid ones;
-- settings that fail validation leave remote start disabled, and those that pass it set remote start,
-- the hood interlock and the two time limits as requested.
pub make_user_configuration-consistent :
    (s : UserSettings) (profile : Option VehicleProfile)
    → let c = make_user_configuration s profile in
      (sequence_config_is_valid c.lock_sequence ≡ true)
      × (telemetry_is_valid c.telemetry ≡ true)
      × (c.controller.vehicle_profile ≡ profile)
      × Follows (valid (validate_user_settings s)) s c.controller
unfolding make_user_configuration
make_user_configuration-consistent s profile =
    elim (Bool-cases (valid (validate_user_settings s))) [
      | inl ok ↦
          let v = (valid-validate_user_settings s).0 ok in
          rw ok
            (sequence-IsValid s v, telemetry-IsValid s v, refl, (refl, ground arith, refl, refl))
      | inr bad ↦ rw bad (refl, default_telemetry_lem, refl, refl)
    ]
