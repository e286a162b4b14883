-- ===== src/Telemetry.antt =====
-- The telemetry monitor (include/bmw_remote/application/telemetry_monitor.hpp and
-- src/application/telemetry_monitor.cpp): three conditions of the running car, each with an alert
-- when it starts and when it ends.
pub mod Alerts
use bmw_e9x_remote_control.Common.{
  ℕ, Bool, true, false, not, ◌&&◌, ◌||◌, List, [], ◌∷◌, ◌++◌, ltb, leb, ◌==◌, if◌then◌else◌, length,
  ℤ, pos, ◌-ℤ◌, ltb_ℤ, leb_ℤ, to_int16,
}
use bmw_e9x_remote_control.Domain.{Observed, is_fresh, VehicleState}
use bmw_e9x_remote_control.Features.{
  FeatureId, FeatureRequests, FeatureRuntimeContext, FeatureResolution, FeatureResolutionStatus,
  default_context, requests_are_valid, effective, resolve_feature,
}

pub data TelemetryConditionState : Type 0 where
  disabled unavailable normal active : TelemetryConditionState

pub data TelemetryAlertType : Type 0 where
  cold_engine_high_rpm cold_engine_recovered dpf_regeneration_started : TelemetryAlertType
  dpf_regeneration_stopped transmission_overheat : TelemetryAlertType
  transmission_temperature_recovered : TelemetryAlertType

-- The underlying value of the enumeration.
abbrev pub alert_index : TelemetryAlertType → ℕ
alert_index cold_engine_high_rpm = 0
alert_index cold_engine_recovered = 1
alert_index dpf_regeneration_started = 2
alert_index dpf_regeneration_stopped = 3
alert_index transmission_overheat = 4
alert_index transmission_temperature_recovered = 5

-- The temperatures are `std::int16_t`.
pub record TelemetryMonitorConfig : Type 0 where
  pub requested_features : FeatureRequests
  pub runtime : FeatureRuntimeContext
  pub cold_engine_maximum_rpm : ℕ
  pub engine_warm_temperature_c : ℤ
  pub transmission_overheat_temperature_c : ℤ
  pub temperature_hysteresis_c : ℕ

-- `TelemetryMonitorConfig{}`.
abbrev pub default_telemetry : TelemetryMonitorConfig
default_telemetry = record {
  requested_features = record { mask = 0 };
  runtime = default_context;
  cold_engine_maximum_rpm = 2200;
  engine_warm_temperature_c = pos 75;
  transmission_overheat_temperature_c = pos 110;
  temperature_hysteresis_c = 5;
}

-- `validTelemetryMonitorConfig`, with the numbers of `TelemetryMonitorLimits`.
unfoldable pub telemetry_is_valid : TelemetryMonitorConfig → Bool
telemetry_is_valid c =
    requests_are_valid c.requested_features
    && leb 1000 c.cold_engine_maximum_rpm
    && leb c.cold_engine_maximum_rpm 4500
    && leb_ℤ (pos 40) c.engine_warm_temperature_c
    && leb_ℤ c.engine_warm_temperature_c (pos 110)
    && leb_ℤ (pos 80) c.transmission_overheat_temperature_c
    && leb_ℤ c.transmission_overheat_temperature_c (pos 150)
    && leb 1 c.temperature_hysteresis_c
    && leb c.temperature_hysteresis_c 20

-- `TelemetryReport::MaximumAlerts`.
abbrev pub maximum_alerts : ℕ
maximum_alerts = 6

-- `alerts` holds the first `alertCount` entries of the array.
pub record TelemetryReport : Type 0 where
  pub cold_engine_guard : TelemetryConditionState
  pub dpf_regeneration : TelemetryConditionState
  pub transmission_overheat : TelemetryConditionState
  pub cold_engine_feature : FeatureResolution
  pub dpf_feature : FeatureResolution
  pub transmission_feature : FeatureResolution
  pub alerts : List TelemetryAlertType

-- `addAlert`; its answer is discarded by the only caller.
abbrev pub add_alert : List TelemetryAlertType → TelemetryAlertType → List TelemetryAlertType
add_alert alerts type = if leb maximum_alerts (length alerts) then alerts else alerts ++ type ∷ []

-- `TelemetryReport::contains`.
abbrev pub contains_alert : List TelemetryAlertType → TelemetryAlertType → Bool
contains_alert [] type = false
contains_alert (a ∷ rest) type = alert_index a == alert_index type || contains_alert rest type

pub record TelemetryMonitor : Type 0 where
  pub config : TelemetryMonitorConfig
  pub config_valid : Bool
  pub previous_cold_engine : TelemetryConditionState
  pub previous_dpf : TelemetryConditionState
  pub previous_transmission : TelemetryConditionState

-- The constructor.
abbrev pub new_monitor : TelemetryMonitorConfig → TelemetryMonitor
new_monitor config = record {
  config = config;
  config_valid = telemetry_is_valid config;
  previous_cold_engine = disabled;
  previous_dpf = disabled;
  previous_transmission = disabled;
}

abbrev pub reset_monitor : TelemetryMonitor → TelemetryMonitor
reset_monitor m = record m {
  previous_cold_engine = disabled;
  previous_dpf = disabled;
  previous_transmission = disabled;
}

-- A condition whose feature has no effect.
abbrev pub ineffective : FeatureResolutionStatus → TelemetryConditionState
ineffective FeatureResolutionStatus.disabled_by_user = disabled
ineffective _ = unavailable

abbrev pub state_if : Bool → TelemetryConditionState
state_if found = if found then active else normal

abbrev pub is_active : TelemetryConditionState → Bool
is_active active = true
is_active _ = false

abbrev pub is_normal : TelemetryConditionState → Bool
is_normal normal = true
is_normal _ = false

unfoldable pub evaluate_cold_engine :
    TelemetryMonitor → VehicleState → FeatureResolution → TelemetryConditionState
evaluate_cold_engine m v r =
    let oil_available = is_fresh v.engine_oil_temperature_c in
    let coolant_available = is_fresh v.coolant_temperature_c in
    let warm = m.config.engine_warm_temperature_c in
    let oil_cold = oil_available && ltb_ℤ v.engine_oil_temperature_c.value warm in
    let engine_cold = oil_cold || coolant_available && ltb_ℤ v.coolant_temperature_c.value warm in
    if not m.config_valid || not (effective r)
    then ineffective r.status
    else if not (is_fresh v.engine_rpm)
    then unavailable
    else if not (oil_available || coolant_available)
    then unavailable
    else state_if (engine_cold && ltb m.config.cold_engine_maximum_rpm v.engine_rpm.value)

unfoldable pub evaluate_dpf :
    TelemetryMonitor → VehicleState → FeatureResolution → TelemetryConditionState
evaluate_dpf m v r =
    if not m.config_valid || not (effective r)
    then ineffective r.status
    else if not (is_fresh v.dpf_regeneration_active)
    then unavailable
    else state_if v.dpf_regeneration_active.value

-- The threshold of the overheat alert, lower while it is active.
unfoldable pub overheat_threshold : TelemetryMonitor → ℤ
overheat_threshold m =
    let limit = m.config.transmission_overheat_temperature_c in
    if is_active m.previous_transmission
    then to_int16 (limit -ℤ pos m.config.temperature_hysteresis_c)
    else limit

unfoldable pub evaluate_transmission :
    TelemetryMonitor → VehicleState → FeatureResolution → TelemetryConditionState
unfolding overheat_threshold
evaluate_transmission m v r =
    if not m.config_valid || not (effective r)
    then ineffective r.status
    else if not (is_fresh v.transmission_oil_temperature_c)
    then unavailable
    else state_if (leb_ℤ (overheat_threshold m) v.transmission_oil_temperature_c.value)

-- `appendTransitionAlerts`.
unfoldable pub append_transition_alerts :
    TelemetryConditionState
    → TelemetryConditionState
    → TelemetryAlertType
    → TelemetryAlertType
    → List TelemetryAlertType
    → List TelemetryAlertType
append_transition_alerts previous current activated recovered alerts =
    if is_active current && not (is_active previous)
    then add_alert alerts activated
    else if is_normal current && is_active previous
    then add_alert alerts recovered
    else alerts

unfoldable pub evaluate : TelemetryMonitor → VehicleState → TelemetryMonitor × TelemetryReport
evaluate m v =
    let resolve =
      λ (id : FeatureId). resolve_feature m.config.requested_features id m.config.runtime in
    let cold_feature = resolve FeatureId.cold_engine_guard in
    let dpf_feature = resolve FeatureId.dpf_regeneration_indicator in
    let transmission_feature = resolve FeatureId.transmission_overheat_alert in
    let cold = evaluate_cold_engine m v cold_feature in
    let dpf = evaluate_dpf m v dpf_feature in
    let transmission = evaluate_transmission m v transmission_feature in
    let alerts1 =
      append_transition_alerts m.previous_cold_engine cold cold_engine_high_rpm
        cold_engine_recovered [] in
    let alerts2 =
      append_transition_alerts m.previous_dpf dpf dpf_regeneration_started dpf_regeneration_stopped
        alerts1 in
    let alerts3 =
      append_transition_alerts m.previous_transmission transmission
        TelemetryAlertType.transmission_overheat transmission_temperature_recovered alerts2 in
    (
      record m {
        previous_cold_engine = cold;
        previous_dpf = dpf;
        previous_transmission = transmission;
      },
      record {
        cold_engine_guard = cold;
        dpf_regeneration = dpf;
        transmission_overheat = transmission;
        cold_engine_feature = cold_feature;
        dpf_feature = dpf_feature;
        transmission_feature = transmission_feature;
        alerts = alerts3;
      },
    )
