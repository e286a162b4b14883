-- ===== src/Safety/CommonTests.antt =====
-- `assessCommon` approves exactly the vehicles that meet the common conditions.
use bmw_e9x_remote_control.Common.{
  ℕ, ◌≡◌, ◌↔◌, refl, Bool, true, false, not, ◌&&◌, ◌||◌, arith, ltb, leb, ◌==◌, bit_or-is_zero,
  if◌then◌else◌, List, [], ◌∷◌, all_true, AllTrue, all_true_iff, &&-true_right, ◌≤◌, ◌<◌,
}
use bmw_e9x_remote_control.Domain.{Observed, is_fresh, VehicleState}
use bmw_e9x_remote_control.Safety.{
  SafetyAssessment, SafetyPolicyConfig, SafetyReason, mask, approved, add_if, require_fresh,
  assess_common, transmission_is_safe,
}
use bmw_e9x_remote_control.Safety.Conditions.{IsKnown, Reads, GearIsSafe, IsSecured}

pub approved-add_if :
    (found : Bool) (r : SafetyReason) (a : SafetyAssessment)
    → approved (add_if found r a) ≡ (not (found && not (mask r == 0)) && approved a)
unfolding approved add_if
approved-add_if true r a = rw (bit_or-is_zero a.reasons (mask r)) (ground arith)
approved-add_if false r a = refl

pub approved-require_fresh :
    {A : Type 0} (a : SafetyAssessment) (o : Observed A)
    → approved (require_fresh a o) ≡ (is_fresh o && approved a)
unfolding require_fresh
approved-require_fresh a o =
    ground (arith, approved-add_if (not (is_fresh o)) SafetyReason.signal_unavailable a)

approved-require_fresh_if :
    {A : Type 0} (needed : Bool) (a : SafetyAssessment) (o : Observed A)
    → approved (if needed then require_fresh a o else a)
      ≡ ((not needed || is_fresh o) && approved a)
approved-require_fresh_if true a o = approved-require_fresh a o
approved-require_fresh_if false a o = refl

ruleset approvals =
    (approved-add_if, approved-require_fresh, approved-require_fresh_if, &&-true_right)

-- The tests of `assessCommon`, the last one first.
abbrev common_tests : SafetyPolicyConfig → VehicleState → Bool → Bool → Bool → List Bool
common_tests c v doors trunk brake =
    not (
      is_fresh v.transmission
      && is_fresh v.gear
      && not (transmission_is_safe c v.transmission.value v.gear.value))
    ∷ not (is_fresh v.critical_fault_present && v.critical_fault_present.value)
    ∷ not (is_fresh v.parking_brake_applied && not v.parking_brake_applied.value)
    ∷ not (brake && is_fresh v.brake_pressed && v.brake_pressed.value)
    ∷ not (trunk && is_fresh v.trunk_closed && not v.trunk_closed.value)
    ∷ not (doors && is_fresh v.doors_closed && not v.doors_closed.value)
    ∷ not (c.require_hood_closed && is_fresh v.hood_closed && not v.hood_closed.value)
    ∷ not (
        is_fresh v.battery_millivolts
        && ltb v.battery_millivolts.value c.minimum_battery_millivolts)
    ∷ (not trunk || is_fresh v.trunk_closed)
    ∷ (not doors || is_fresh v.doors_closed)
    ∷ (not c.require_hood_closed || is_fresh v.hood_closed)
    ∷ (not brake || is_fresh v.brake_pressed)
    ∷ is_fresh v.critical_fault_present
    ∷ is_fresh v.gear
    ∷ is_fresh v.transmission
    ∷ is_fresh v.parking_brake_applied
    ∷ is_fresh v.battery_millivolts
    ∷ []

approved-assess_common :
    (c : SafetyPolicyConfig) (v : VehicleState) (doors trunk brake : Bool)
    → approved (assess_common c v doors trunk brake) ≡ all_true (common_tests c v doors trunk brake)
unfolding assess_common approved
approved-assess_common c v doors trunk brake = simp approvals

Reads-true :
    (o : Observed Bool)
    → ((is_fresh o ≡ true) × (not (is_fresh o && not o.value) ≡ true)) ↔ Reads o true
Reads-true o = ground arith

Reads-false :
    (o : Observed Bool)
    → ((is_fresh o ≡ true) × (not (is_fresh o && o.value) ≡ true)) ↔ Reads o false
Reads-false o = ground arith

Reads-true_if :
    (b : Bool) (o : Observed Bool)
    → (((not b || is_fresh o) ≡ true) × (not (b && is_fresh o && not o.value) ≡ true))
      ↔ (b ≡ true → Reads o true)
Reads-true_if b o = ground arith

Reads-false_if :
    (b : Bool) (o : Observed Bool)
    → (((not b || is_fresh o) ≡ true) × (not (b && is_fresh o && o.value) ≡ true))
      ↔ (b ≡ true → Reads o false)
Reads-false_if b o = ground arith

IsKnown-at_least :
    (o : Observed ℕ) (n : ℕ)
    → ((is_fresh o ≡ true) × (not (is_fresh o && ltb o.value n) ≡ true))
      ↔ (IsKnown o × (n ≤ o.value))
IsKnown-at_least o n = ground arith

IsKnown-below :
    (o : Observed ℕ) (n : ℕ)
    → ((is_fresh o ≡ true) × (not (is_fresh o && leb n o.value) ≡ true))
      ↔ (IsKnown o × (o.value < n))
IsKnown-below o n = ground arith

known : {A : Type 0} (o : Observed A) → (is_fresh o ≡ true) ↔ IsKnown o
known o = ground arith

gear_iff :
    (c : SafetyPolicyConfig) (v : VehicleState)
    → ((is_fresh v.transmission ≡ true)
        × (is_fresh v.gear ≡ true)
        × (not (
              is_fresh v.transmission
              && is_fresh v.gear
              && not (transmission_is_safe c v.transmission.value v.gear.value))
            ≡ true))
      ↔ GearIsSafe c v
gear_iff c v = ground arith

common_tests-IsSecured :
    (c : SafetyPolicyConfig) (v : VehicleState) (doors trunk brake : Bool)
    → AllTrue (common_tests c v doors trunk brake) ↔ IsSecured c v doors trunk brake
common_tests-IsSecured c v doors trunk brake = (to, from)
  where
    to : AllTrue (common_tests c v doors trunk brake) → IsSecured c v doors trunk brake
    to
          (
            gear_ok,
            (
              fault_ok,
              (
                park_ok,
                (
                  brake_ok,
                  (
                    trunk_ok,
                    (
                      doors_ok,
                      (
                        hood_ok,
                        (
                          charge_ok,
                          (
                            trunk_seen,
                            (
                              doors_seen,
                              (
                                hood_seen,
                                (
                                  brake_seen,
                                  (
                                    fault_seen,
                                    (gear_seen, (box_seen, (park_seen, (charge_seen, (rest))))),
                                  ),
                                ),
                              ),
                            ),
                          ),
                        ),
                      ),
                    ),
                  ),
                ),
              ),
            ),
          ) =
        record {
          battery = (known v.battery_millivolts).0 charge_seen;
          charged =
              ((IsKnown-at_least v.battery_millivolts c.minimum_battery_millivolts).0
                (charge_seen, charge_ok)).1;
          parking = (Reads-true v.parking_brake_applied).0 (park_seen, park_ok);
          no_fault = (Reads-false v.critical_fault_present).0 (fault_seen, fault_ok);
          gear = (gear_iff c v).0 (box_seen, gear_seen, gear_ok);
          brake_free = (Reads-false_if brake v.brake_pressed).0 (brake_seen, brake_ok);
          hood = (Reads-true_if c.require_hood_closed v.hood_closed).0 (hood_seen, hood_ok);
          doors_shut = (Reads-true_if doors v.doors_closed).0 (doors_seen, doors_ok);
          trunk_shut = (Reads-true_if trunk v.trunk_closed).0 (trunk_seen, trunk_ok);
        }

    from : IsSecured c v doors trunk brake → AllTrue (common_tests c v doors trunk brake)
    from s = (
      ((gear_iff c v).1 s.gear).2,
      (
        ((Reads-false v.critical_fault_present).1 s.no_fault).1,
        (
          ((Reads-true v.parking_brake_applied).1 s.parking).1,
          (
            ((Reads-false_if brake v.brake_pressed).1 s.brake_free).1,
            (
              ((Reads-true_if trunk v.trunk_closed).1 s.trunk_shut).1,
              (
                ((Reads-true_if doors v.doors_closed).1 s.doors_shut).1,
                (
                  ((Reads-true_if c.require_hood_closed v.hood_closed).1 s.hood).1,
                  (
                    ((IsKnown-at_least v.battery_millivolts c.minimum_battery_millivolts).1
                        (s.battery, s.charged)).1,
                    (
                      ((Reads-true_if trunk v.trunk_closed).1 s.trunk_shut).0,
                      (
                        ((Reads-true_if doors v.doors_closed).1 s.doors_shut).0,
                        (
                          ((Reads-true_if c.require_hood_closed v.hood_closed).1 s.hood).0,
                          (
                            ((Reads-false_if brake v.brake_pressed).1 s.brake_free).0,
                            (
                              ((Reads-false v.critical_fault_present).1 s.no_fault).0,
                              (
                                ((gear_iff c v).1 s.gear).1,
                                (
                                  ((gear_iff c v).1 s.gear).0,
                                  (
                                    ((Reads-true v.parking_brake_applied).1 s.parking).0,
                                    (
                                      ((IsKnown-at_least v.battery_millivolts
                                            c.minimum_battery_millivolts).1
                                          (s.battery, s.charged)).0,
                                      (tt),
                                    ),
                                  ),
                                ),
                              ),
                            ),
                          ),
                        ),
                      ),
                    ),
                  ),
                ),
              ),
            ),
          ),
        ),
      ),
    )

pub assess_common-IsSecured :
    (c : SafetyPolicyConfig) (v : VehicleState) (doors trunk brake : Bool)
    → (approved (assess_common c v doors trunk brake) ≡ true) ↔ IsSecured c v doors trunk brake
assess_common-IsSecured c v doors trunk brake =
    let tests = common_tests c v doors trunk brake in
    rw (approved-assess_common c v doors trunk brake) (
      (λ h. (common_tests-IsSecured c v doors trunk brake).0 ((all_true_iff tests).0 h)),
      (λ s. (all_true_iff tests).1 ((common_tests-IsSecured c v doors trunk brake).1 s)),
    )
