-- ===== src/Readiness/Laws.antt =====
-- A profile is ready exactly when everything that a remote start reads is verified.
use bmw_e9x_remote_control.Common.{
  get_or, ◌≡◌, ◌↔◌, ◌≢◌, ◌⊎◌, refl, ◌∙◌, Bool, true, false, not, ◌&&◌, Option, some, List, [], ◌∷◌,
  ◌==◌, if◌then◌else◌, bit_or-is_zero, arith, &&-true_right, &&-false_right, units,
}
use mathlib.Core.Path.{subst}
use bmw_e9x_remote_control.Domain.{
  Transmission, VehicleSignal, VehicleProfile, QualificationStage, SignalSupport,
  HoodInterlockSource, support, signal_index,
}
use bmw_e9x_remote_control.Readiness.{
  ProfileReadinessReason, ProfileReadinessAssessment, ProfileReadinessPolicy, mask, ready, add,
  add_if, core_required_signals, report_support, assess_signal, assess_signals, hood_source_missing,
  check_transmission, no_reasons, assess_remote_start_readiness, assess_selected,
}

-- The entry of the signal in the profile's table says so; an entry that is missing does not.
abbrev pub IsVerified : VehicleProfile → VehicleSignal → Type 0
IsVerified p s =
    get_or p.signals (signal_index s) SignalSupport.unavailable ≡ SignalSupport.verified

-- The signals that every remote start reads are verified.
pub record CoreVerified (p : VehicleProfile) : Type 0 where
  pub battery : IsVerified p VehicleSignal.battery_millivolts
  pub rpm : IsVerified p VehicleSignal.engine_rpm
  pub brake : IsVerified p VehicleSignal.brake_pressed
  pub parking_brake : IsVerified p VehicleSignal.parking_brake_applied
  pub transmission : IsVerified p VehicleSignal.transmission
  pub gear : IsVerified p VehicleSignal.gear
  pub critical_fault : IsVerified p VehicleSignal.critical_fault_present

-- What a remote start asks of a profile, signal by signal.
pub record IsReady (p : VehicleProfile) (policy : ProfileReadinessPolicy) (hood : Bool)
    : Type 0 where
  pub core : CoreVerified p
  pub hood_signal : hood ≡ true → IsVerified p VehicleSignal.hood_closed
  pub hood_source :
      hood ≡ true
      → (p.hood_interlock_source ≢ HoodInterlockSource.unspecified)
        × (p.hood_interlock_source ≢ HoodInterlockSource.not_available)
  pub doors : policy.require_vehicle_secured ≡ true → IsVerified p VehicleSignal.doors_closed
  pub trunk : policy.require_vehicle_secured ≡ true → IsVerified p VehicleSignal.trunk_closed
  pub qualified : p.qualification ≢ QualificationStage.discovery
  pub gearbox :
      (p.transmission ≡ Transmission.automatic)
      ⊎ (p.transmission ≡ Transmission.manual) × (policy.allow_manual_transmission ≡ true)

abbrev is_verified : SignalSupport → Bool
is_verified SignalSupport.verified = true
is_verified _ = false

ready-add :
    (a : ProfileReadinessAssessment) (r : ProfileReadinessReason)
    → ready (add a r) ≡ (ready a && (mask r == 0))
unfolding ready add
ready-add a r = bit_or-is_zero a.reasons (mask r)

ready-add_if :
    (found : Bool) (r : ProfileReadinessReason) (a : ProfileReadinessAssessment)
    → ready (add_if found r a) ≡ (not (found && not (mask r == 0)) && ready a)
unfolding add_if
ready-add_if true r a = rw (ready-add a r) (ground arith)
ready-add_if false r a = refl

ready-report_support :
    (a : ProfileReadinessAssessment) (s : SignalSupport)
    → ready (report_support a s) ≡ (is_verified s && ready a)
unfolding report_support
ready-report_support a SignalSupport.unavailable =
    rw (ready-add a ProfileReadinessReason.missing_required_signal) (ground arith)
ready-report_support a SignalSupport.candidate =
    rw (ready-add a ProfileReadinessReason.unverified_required_signal) (ground arith)
ready-report_support a SignalSupport.verified = refl

ready-assess_signal :
    (a : ProfileReadinessAssessment) (p : VehicleProfile) (s : VehicleSignal)
    → ready (assess_signal a p s) ≡ (is_verified (support p s) && ready a)
unfolding assess_signal
ready-assess_signal a p s = ready-report_support a (support p s)

ready-if :
    (needed : Bool) (a b : ProfileReadinessAssessment)
    → ready (if needed then a else b) ≡ (if needed then ready a else ready b)
ready-if true a b = refl
ready-if false a b = refl

transmission_allowed : Transmission → ProfileReadinessPolicy → Bool
transmission_allowed Transmission.unknown policy = false
transmission_allowed Transmission.manual policy = policy.allow_manual_transmission
transmission_allowed Transmission.automatic policy = true

ready-check_transmission :
    (t : Transmission) (policy : ProfileReadinessPolicy) (a : ProfileReadinessAssessment)
    → ready (check_transmission t policy a) ≡ (transmission_allowed t policy && ready a)
unfolding check_transmission transmission_allowed
ready-check_transmission Transmission.unknown policy a =
    ready-add a ProfileReadinessReason.transmission_unknown ∙ &&-false_right (ready a)
ready-check_transmission Transmission.manual policy a =
    ground (arith, ready-add a ProfileReadinessReason.manual_transmission_not_allowed)
ready-check_transmission Transmission.automatic policy a = refl

all_verified : VehicleProfile → List VehicleSignal → Bool
all_verified p [] = true
all_verified p (s ∷ ss) = is_verified (support p s) && all_verified p ss

&&-swap : (a b c : Bool) → (a && (b && c)) ≡ ((b && a) && c)
&&-swap true b c = rw &&-true_right
&&-swap false b c = rw &&-false_right

ready-assess_signals :
    (a : ProfileReadinessAssessment) (p : VehicleProfile) (ss : List VehicleSignal)
    → ready (assess_signals a p ss) ≡ (all_verified p ss && ready a)
unfolding assess_signals all_verified
ready-assess_signals a p [] = refl
ready-assess_signals a p (s ∷ ss) =
    rw (ready-assess_signals (assess_signal a p s) p ss, ready-assess_signal a p s)
      (&&-swap (all_verified p ss) (is_verified (support p s)) (ready a))

ready-no_reasons : ready no_reasons ≡ true
unfolding ready
ready-no_reasons = refl

ruleset verdicts = (
  ready-add_if, ready-assess_signal, ready-assess_signals, ready-if, ready-check_transmission,
  ready-no_reasons, units,
)

core_signals_iff :
    (p : VehicleProfile) → (all_verified p core_required_signals ≡ true) ↔ CoreVerified p
unfolding all_verified support
core_signals_iff p = (
  λ h. record {
    battery = ground arith;
    rpm = ground arith;
    brake = ground arith;
    parking_brake = ground arith;
    transmission = ground arith;
    gear = ground arith;
    critical_fault = ground arith;
  },
  λ c.
      rw (c.battery, c.rpm, c.brake, c.parking_brake, c.transmission, c.gear, c.critical_fault)
        refl,
)

hood_source_iff :
    (source : HoodInterlockSource)
    → (hood_source_missing source ≡ false)
      ↔ ((source ≢ HoodInterlockSource.unspecified) × (source ≢ HoodInterlockSource.not_available))
hood_source_iff HoodInterlockSource.unspecified = (λ h. cc, λ h. absurd (h.0 refl))
hood_source_iff HoodInterlockSource.not_available = (λ h. cc, λ h. absurd (h.1 refl))
hood_source_iff _ = (λ h. (λ e. cc, λ e. cc), λ h. refl)

-- A profile is ready exactly when every signal that a remote start reads is verified, the profile
-- has left discovery, its hood contact is known where the hood matters, and its gearbox is allowed.
pub ready-assess_remote_start :
    (p : VehicleProfile) (policy : ProfileReadinessPolicy) (hood : Bool)
    → (ready (assess_remote_start_readiness p policy hood) ≡ true) ↔ IsReady p policy hood
unfolding assess_remote_start_readiness transmission_allowed support
ready-assess_remote_start p policy hood =
    let core = core_signals_iff p in
    let source = hood_source_iff p.hood_interlock_source in
    simp verdicts (
      λ h. record {
        core = core.0 (ground arith);
        hood_signal = λ e. ground arith;
        hood_source = λ e. source.0 (ground arith);
        doors = λ e. ground arith;
        trunk = λ e. ground arith;
        qualified = λ e. ground arith;
        gearbox = ground arith;
      },
      λ s.
          let known = core.1 s.core in
          ground (arith, s.hood_signal, λ (e : hood ≡ true). source.1 (s.hood_source e)),
    )

-- The assessment finds readiness exactly where a profile is selected of which battery, engine
-- speed, brake, parking brake, transmission, gear and critical fault are verified, and, where
-- the hood or a secured vehicle is required, the hood, the doors and the trunk; which has left
-- discovery; whose hood contact is known where the hood is required; and whose gearbox is
-- automatic, or manual where that is allowed.
pub ready-assess_selected :
    (o : Option VehicleProfile) (policy : ProfileReadinessPolicy) (hood : Bool)
    → (ready (assess_selected o policy hood) ≡ true)
      ↔ ((p : VehicleProfile) × (o ≡ some p) × IsReady p policy hood)
unfolding assess_selected
ready-assess_selected (some p) policy hood =
    let iff = ready-assess_remote_start p policy hood in
    (
      λ h. (p, refl, iff.0 h),
      λ (q, e, r).
          iff.1
            (let same_profile : q ≡ p = cc in subst (λ x. IsReady x policy hood) same_profile r),
    )
ready-assess_selected Option.none policy hood = (λ h. absurd (refused h), λ (q, e, r). cc)
  where
    refused : ready (assess_selected Option.none policy hood) ≡ true → ⊥
    refused h = ground (arith, ready-add no_reasons ProfileReadinessReason.profile_not_selected)
