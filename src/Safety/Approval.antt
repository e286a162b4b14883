-- ===== src/Safety/Approval.antt =====
-- Each assessment is approved exactly when the vehicle meets its conditions.
use bmw_e9x_remote_control.Common.{ℕ, ◌≡◌, ◌↔◌, ◌<◌, ◌≤◌, true, false, ◌&&◌, leb, ltb, arith}
use bmw_e9x_remote_control.Domain.{Observed, is_fresh, VehicleState}
use bmw_e9x_remote_control.Safety.{
  SafetyAssessment, SafetyPolicyConfig, SafetyReason, approved, add_if, require_fresh, assess_start,
  assess_cranking, assess_remote_run, assess_driver_takeover, assess_common,
}
use bmw_e9x_remote_control.Safety.Conditions.{
  IsKnown, IsStartSafe, IsCrankingSafe, IsRemoteRunSafe, IsTakeoverSafe,
}
use bmw_e9x_remote_control.Safety.CommonTests.{
  approved-add_if, approved-require_fresh, assess_common-IsSecured,
}

below_approved :
    (a : SafetyAssessment) (o : Observed ℕ) (n : ℕ)
    → (approved (
          add_if
            (is_fresh o && leb n o.value)
            SafetyReason.engine_already_running
            (require_fresh a o))
        ≡ true)
      ↔ ((approved a ≡ true) × IsKnown o × (o.value < n))
below_approved a o n = rw (approved-add_if, approved-require_fresh) (ground arith)

at_least_approved :
    (a : SafetyAssessment) (o : Observed ℕ) (n : ℕ)
    → (approved
          (add_if (is_fresh o && ltb o.value n) SafetyReason.engine_not_running (require_fresh a o))
        ≡ true)
      ↔ ((approved a ≡ true) × IsKnown o × (n ≤ o.value))
at_least_approved a o n = rw (approved-add_if, approved-require_fresh) (ground arith)

IsKnown-approved :
    (a : SafetyAssessment) (o : Observed ℕ)
    → (approved (require_fresh a o) ≡ true) ↔ ((approved a ≡ true) × IsKnown o)
IsKnown-approved a o = rw approved-require_fresh (ground arith)

-- A start is approved exactly for a secured vehicle whose engine is known to be off.
pub assess_start-approved :
    (c : SafetyPolicyConfig) (v : VehicleState)
    → (approved (assess_start c v) ≡ true) ↔ IsStartSafe c v
unfolding assess_start
assess_start-approved c v =
    let common =
      assess_common-IsSecured c v c.require_vehicle_secured c.require_vehicle_secured true in
    let engine =
      below_approved (assess_common c v c.require_vehicle_secured c.require_vehicle_secured true)
        v.engine_rpm c.running_rpm_threshold in
    (
      λ h. let (a, k, l) = engine.0 h in (common.0 a, k, l),
      λ (s, k, l). engine.1 (common.1 s, k, l),
    )

-- Cranking is approved exactly for a secured vehicle whose engine speed is known.
pub assess_cranking-approved :
    (c : SafetyPolicyConfig) (v : VehicleState)
    → (approved (assess_cranking c v) ≡ true) ↔ IsCrankingSafe c v
unfolding assess_cranking
assess_cranking-approved c v =
    let common =
      assess_common-IsSecured c v c.require_vehicle_secured c.require_vehicle_secured true in
    let engine =
      IsKnown-approved (assess_common c v c.require_vehicle_secured c.require_vehicle_secured true)
        v.engine_rpm in
    (λ h. let (a, k) = engine.0 h in (common.0 a, k), λ (s, k). engine.1 (common.1 s, k))

-- A remote run is approved exactly for a secured vehicle whose engine is known to run.
pub assess_remote_run-approved :
    (c : SafetyPolicyConfig) (v : VehicleState)
    → (approved (assess_remote_run c v) ≡ true) ↔ IsRemoteRunSafe c v
unfolding assess_remote_run
assess_remote_run-approved c v =
    let common =
      assess_common-IsSecured c v c.require_vehicle_secured c.require_vehicle_secured true in
    let engine =
      at_least_approved (assess_common c v c.require_vehicle_secured c.require_vehicle_secured true)
        v.engine_rpm c.running_rpm_threshold in
    (
      λ h. let (a, k, l) = engine.0 h in (common.0 a, k, l),
      λ (s, k, l). engine.1 (common.1 s, k, l),
    )

-- A driver takeover is approved exactly where the engine is known to run and the vehicle is
-- secured but for its doors and brake pedal.
pub assess_driver_takeover-approved :
    (c : SafetyPolicyConfig) (v : VehicleState)
    → (approved (assess_driver_takeover c v) ≡ true) ↔ IsTakeoverSafe c v
unfolding assess_driver_takeover
assess_driver_takeover-approved c v =
    let common = assess_common-IsSecured c v false c.require_vehicle_secured false in
    let engine =
      at_least_approved (assess_common c v false c.require_vehicle_secured false) v.engine_rpm
        c.running_rpm_threshold in
    (
      λ h. let (a, k, l) = engine.0 h in (common.0 a, k, l),
      λ (s, k, l). engine.1 (common.1 s, k, l),
    )

-- Cranking is approved exactly for a secured vehicle whose engine speed is known, a remote run exactly
-- for a secured vehicle whose engine is known to run, and a driver takeover exactly where the engine is
-- known to run and the vehicle is secured but for its doors and brake pedal.
pub later_assessments-approved :
    (c : SafetyPolicyConfig) (v : VehicleState)
    → ((approved (assess_cranking c v) ≡ true) ↔ IsCrankingSafe c v)
      × ((approved (assess_remote_run c v) ≡ true) ↔ IsRemoteRunSafe c v)
      × ((approved (assess_driver_takeover c v) ≡ true) ↔ IsTakeoverSafe c v)
later_assessments-approved c v = (
  assess_cranking-approved c v,
  assess_remote_run-approved c v,
  assess_driver_takeover-approved c v,
)
