-- ===== src/Safety/Reasons.antt =====
-- Which reasons an assessment reports.
use bmw_e9x_remote_control.Common.{
  ◌≡◌, refl, Bool, true, false, not, ◌&&◌, ◌||◌, leb, ltb, arith, has_bits, has_bits-bit_or,
  if◌then◌else◌, any_true, [], ◌∷◌, units,
}
use bmw_e9x_remote_control.Domain.{Observed, is_fresh, VehicleState}
use bmw_e9x_remote_control.Safety.{
  SafetyAssessment, SafetyPolicyConfig, SafetyReason, mask, contains, add_if, require_fresh,
  no_reasons, transmission_is_safe, assess_start, assess_remote_run, assess_driver_takeover,
  assess_common,
}

same : SafetyReason → SafetyReason → Bool
unfolding has_bits
same r q = has_bits (mask r) (mask q)

contains-add_if :
    (found : Bool) (r : SafetyReason) (a : SafetyAssessment) (q : SafetyReason)
    → contains (add_if found r a) q ≡ ((found && same r q) || contains a q)
unfolding contains add_if same
contains-add_if true r a q = rw (has_bits-bit_or a.reasons (mask r) (mask q)) (ground arith)
contains-add_if false r a q = refl

contains-require_fresh :
    {A : Type 0} (a : SafetyAssessment) (o : Observed A) (q : SafetyReason)
    → contains (require_fresh a o) q
      ≡ ((not (is_fresh o) && same SafetyReason.signal_unavailable q) || contains a q)
unfolding require_fresh
contains-require_fresh a o q = contains-add_if _ _ a q

contains-require_fresh_if :
    {A : Type 0} (needed : Bool) (a : SafetyAssessment) (o : Observed A) (q : SafetyReason)
    → contains (if needed then require_fresh a o else a) q
      ≡ ((needed && not (is_fresh o) && same SafetyReason.signal_unavailable q) || contains a q)
contains-require_fresh_if true a o q = contains-require_fresh a o q
contains-require_fresh_if false a o q = refl

contains-no_reasons : (q : SafetyReason) → contains no_reasons q ≡ false
unfolding contains
contains-no_reasons SafetyReason.none = refl
contains-no_reasons _ = refl

ruleset reports =
    (contains-add_if, contains-require_fresh, contains-require_fresh_if, contains-no_reasons)

-- When each reason is reported, stated reason by reason.
abbrev common_cause : SafetyPolicyConfig → VehicleState → Bool → Bool → Bool → SafetyReason → Bool
common_cause c v doors trunk brake SafetyReason.none = false
common_cause c v doors trunk brake SafetyReason.signal_unavailable = any_true (
    (trunk && not (is_fresh v.trunk_closed))
    ∷ (doors && not (is_fresh v.doors_closed))
    ∷ (c.require_hood_closed && not (is_fresh v.hood_closed))
    ∷ (brake && not (is_fresh v.brake_pressed))
    ∷ not (is_fresh v.critical_fault_present)
    ∷ not (is_fresh v.gear)
    ∷ not (is_fresh v.transmission)
    ∷ not (is_fresh v.parking_brake_applied)
    ∷ not (is_fresh v.battery_millivolts)
    ∷ [])
common_cause c v doors trunk brake SafetyReason.battery_too_low =
    is_fresh v.battery_millivolts && ltb v.battery_millivolts.value c.minimum_battery_millivolts
common_cause c v doors trunk brake SafetyReason.hood_open =
    c.require_hood_closed && is_fresh v.hood_closed && not v.hood_closed.value
common_cause c v doors trunk brake SafetyReason.door_open =
    doors && is_fresh v.doors_closed && not v.doors_closed.value
common_cause c v doors trunk brake SafetyReason.trunk_open =
    trunk && is_fresh v.trunk_closed && not v.trunk_closed.value
common_cause c v doors trunk brake SafetyReason.brake_pressed =
    brake && is_fresh v.brake_pressed && v.brake_pressed.value
common_cause c v doors trunk brake SafetyReason.parking_brake_released =
    is_fresh v.parking_brake_applied && not v.parking_brake_applied.value
common_cause c v doors trunk brake SafetyReason.transmission_unsafe =
    is_fresh v.transmission
    && is_fresh v.gear
    && not (transmission_is_safe c v.transmission.value v.gear.value)
common_cause c v doors trunk brake SafetyReason.engine_already_running = false
common_cause c v doors trunk brake SafetyReason.engine_not_running = false
common_cause c v doors trunk brake SafetyReason.critical_vehicle_fault =
    is_fresh v.critical_fault_present && v.critical_fault_present.value

contains-assess_common :
    (c : SafetyPolicyConfig) (v : VehicleState) (doors trunk brake : Bool) (q : SafetyReason)
    → contains (assess_common c v doors trunk brake) q ≡ common_cause c v doors trunk brake q
unfolding assess_common same
contains-assess_common c v doors trunk brake SafetyReason.none = simp (reports, units)
contains-assess_common c v doors trunk brake _ = simp (reports, units)

abbrev start_cause : SafetyPolicyConfig → VehicleState → SafetyReason → Bool
start_cause c v SafetyReason.engine_already_running =
    is_fresh v.engine_rpm && leb c.running_rpm_threshold v.engine_rpm.value
start_cause c v SafetyReason.signal_unavailable =
    not (is_fresh v.engine_rpm)
    || common_cause c v c.require_vehicle_secured c.require_vehicle_secured true
        SafetyReason.signal_unavailable
start_cause c v q = common_cause c v c.require_vehicle_secured c.require_vehicle_secured true q

contains-assess_start :
    (c : SafetyPolicyConfig) (v : VehicleState) (q : SafetyReason)
    → contains (assess_start c v) q ≡ start_cause c v q
unfolding assess_start same
contains-assess_start c v SafetyReason.none = simp (reports, contains-assess_common, units)
contains-assess_start c v _ = simp (reports, contains-assess_common, units)

abbrev running_cause : SafetyPolicyConfig → VehicleState → Bool → Bool → SafetyReason → Bool
running_cause c v doors brake SafetyReason.engine_not_running =
    is_fresh v.engine_rpm && ltb v.engine_rpm.value c.running_rpm_threshold
running_cause c v doors brake SafetyReason.signal_unavailable =
    not (is_fresh v.engine_rpm)
    || common_cause c v doors c.require_vehicle_secured brake SafetyReason.signal_unavailable
running_cause c v doors brake q = common_cause c v doors c.require_vehicle_secured brake q

contains-assess_remote_run :
    (c : SafetyPolicyConfig) (v : VehicleState) (q : SafetyReason)
    → contains (assess_remote_run c v) q ≡ running_cause c v c.require_vehicle_secured true q
unfolding assess_remote_run same
contains-assess_remote_run c v SafetyReason.none = simp (reports, contains-assess_common, units)
contains-assess_remote_run c v _ = simp (reports, contains-assess_common, units)

contains-assess_driver_takeover :
    (c : SafetyPolicyConfig) (v : VehicleState) (q : SafetyReason)
    → contains (assess_driver_takeover c v) q ≡ running_cause c v false false q
unfolding assess_driver_takeover same
contains-assess_driver_takeover c v SafetyReason.none =
    simp (reports, contains-assess_common, units)
contains-assess_driver_takeover c v _ = simp (reports, contains-assess_common, units)

-- A start assessment, an assessment of a remotely run engine and one of a takeover report each reason
-- exactly where its cause is observed; a takeover ignores the doors and the brake pedal.
pub contains-assessments :
    (c : SafetyPolicyConfig) (v : VehicleState) (q : SafetyReason)
    → (contains (assess_start c v) q ≡ start_cause c v q)
      × (contains (assess_remote_run c v) q ≡ running_cause c v c.require_vehicle_secured true q)
      × (contains (assess_driver_takeover c v) q ≡ running_cause c v false false q)
contains-assessments c v q = (
  contains-assess_start c v q,
  contains-assess_remote_run c v q,
  contains-assess_driver_takeover c v q,
)
