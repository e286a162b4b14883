-- ===== src/Telemetry/Alerts.antt =====
-- Which alerts an evaluation reports, and the hysteresis of the overheat alert.
use bmw_e9x_remote_control.Common.{
  ◌+◌, ◌≤◌, ◌≡◌, ◌↔◌, refl, true, false, not, ◌&&◌, List, [], arith, length, ◌≤ℤ◌, pos_part,
  neg_part, to_int16,
}
use bmw_e9x_remote_control.Domain.{VehicleState, is_fresh}
use bmw_e9x_remote_control.Features.{FeatureResolution, effective}
use bmw_e9x_remote_control.Telemetry.{
  TelemetryConditionState, TelemetryAlertType, TelemetryMonitor, contains_alert, is_active,
  is_normal, evaluate, append_transition_alerts, evaluate_transmission, telemetry_is_valid,
}

-- The alerts of one condition are reported exactly on its edges.
abbrev pub ReportsEdges :
    TelemetryConditionState
    → TelemetryConditionState
    → TelemetryAlertType
    → TelemetryAlertType
    → List TelemetryAlertType
    → Type 0
ReportsEdges previous current activated recovered alerts =
    (contains_alert alerts activated ≡ (is_active current && not (is_active previous)))
    × (contains_alert alerts recovered ≡ (is_normal current && is_active previous))

three_edges :
    (p1 c1 p2 c2 p3 c3 : TelemetryConditionState)
    → let alerts =
        append_transition_alerts p3 c3 TelemetryAlertType.transmission_overheat
          TelemetryAlertType.transmission_temperature_recovered
          (append_transition_alerts p2 c2 TelemetryAlertType.dpf_regeneration_started
            TelemetryAlertType.dpf_regeneration_stopped
            (append_transition_alerts p1 c1 TelemetryAlertType.cold_engine_high_rpm
              TelemetryAlertType.cold_engine_recovered [])) in
      ReportsEdges p1 c1 TelemetryAlertType.cold_engine_high_rpm
        TelemetryAlertType.cold_engine_recovered alerts
      × ReportsEdges p2 c2 TelemetryAlertType.dpf_regeneration_started
          TelemetryAlertType.dpf_regeneration_stopped alerts
      × ReportsEdges p3 c3 TelemetryAlertType.transmission_overheat
          TelemetryAlertType.transmission_temperature_recovered alerts
      × (length alerts ≤ 3)
unfolding append_transition_alerts
three_edges p1 c1 p2 c2 p3 c3 = ground arith

-- An evaluation reports the start of each condition exactly where it is active and was not before,
-- and its end exactly where it is normal and was active before; no alert is lost, and the monitor
-- remembers the conditions reported.
pub evaluate-alerts :
    (m : TelemetryMonitor) (v : VehicleState)
    → let (m', report) = evaluate m v in
      ReportsEdges m.previous_cold_engine report.cold_engine_guard
        TelemetryAlertType.cold_engine_high_rpm TelemetryAlertType.cold_engine_recovered
        report.alerts
      × ReportsEdges m.previous_dpf report.dpf_regeneration
          TelemetryAlertType.dpf_regeneration_started TelemetryAlertType.dpf_regeneration_stopped
          report.alerts
      × ReportsEdges m.previous_transmission report.transmission_overheat
          TelemetryAlertType.transmission_overheat
          TelemetryAlertType.transmission_temperature_recovered report.alerts
      × (length report.alerts ≤ 3)
      × (m'.previous_cold_engine ≡ report.cold_engine_guard)
      × (m'.previous_dpf ≡ report.dpf_regeneration)
      × (m'.previous_transmission ≡ report.transmission_overheat)
unfolding evaluate
evaluate-alerts m v =
    let (cold, dpf, transmission, few) =
      three_edges m.previous_cold_engine (evaluate m v).1.cold_engine_guard m.previous_dpf
        (evaluate m v).1.dpf_regeneration m.previous_transmission
        (evaluate m v).1.transmission_overheat in
    (cold, dpf, transmission, few, refl, refl, refl)

-- With a valid configuration, an effective feature and a fresh oil temperature, the overheat alert
-- starts at the limit, and once active it ends only below the limit less the hysteresis.
pub overheat_hysteresis :
    (m : TelemetryMonitor) (v : VehicleState) (r : FeatureResolution)
    → telemetry_is_valid m.config ≡ true
    → m.config_valid ≡ true
    → effective r ≡ true
    → is_fresh v.transmission_oil_temperature_c ≡ true
    → let limit = m.config.transmission_overheat_temperature_c in
      let reading = v.transmission_oil_temperature_c.value in
      (is_active m.previous_transmission ≡ false
        → (is_active (evaluate_transmission m v r) ≡ true) ↔ (limit ≤ℤ reading))
      × (is_active m.previous_transmission ≡ true
          → (is_active (evaluate_transmission m v r) ≡ true) ↔ (
              pos_part limit + neg_part reading
              ≤ pos_part reading + neg_part limit + m.config.temperature_hysteresis_c))
unfolding evaluate_transmission telemetry_is_valid to_int16
overheat_hysteresis m v r valid h e f = ground arith
