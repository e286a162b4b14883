-- ===== src/Readiness.antt =====
-- Profile readiness (include/bmw_remote/application/profile_readiness.hpp and
-- src/application/profile_readiness.cpp): whether a vehicle profile is known well enough for a
-- remote start.
pub mod Laws
use bmw_e9x_remote_control.Common.{
  ℕ, ◌^◌, Bool, true, false, not, ◌&&◌, ◌||◌, Option, some, List, [], ◌∷◌, ltb, ◌==◌, if◌then◌else◌,
  bit_or, has_bits,
}
use bmw_e9x_remote_control.Domain.{
  Transmission, VehicleSignal, VehicleProfile, QualificationStage, SignalSupport,
  HoodInterlockSource, support,
}

pub data ProfileReadinessReason : Type 0 where
  none missing_required_signal unverified_required_signal : ProfileReadinessReason
  qualification_too_low transmission_unknown : ProfileReadinessReason
  manual_transmission_not_allowed profile_not_selected : ProfileReadinessReason
  hood_interlock_unavailable : ProfileReadinessReason

abbrev pub mask : ProfileReadinessReason → ℕ
mask ProfileReadinessReason.none = 0
mask missing_required_signal = 2 ^ 0
mask unverified_required_signal = 2 ^ 1
mask qualification_too_low = 2 ^ 2
mask transmission_unknown = 2 ^ 3
mask manual_transmission_not_allowed = 2 ^ 4
mask profile_not_selected = 2 ^ 5
mask hood_interlock_unavailable = 2 ^ 6

-- The `std::uint8_t` of reasons; seven bits are used, so the cast in `add` changes nothing.
pub record ProfileReadinessAssessment : Type 0 where
  pub reasons : ℕ

abbrev pub no_reasons : ProfileReadinessAssessment
no_reasons = record { reasons = mask ProfileReadinessReason.none }

unfoldable pub ready : ProfileReadinessAssessment → Bool
ready a = a.reasons == mask ProfileReadinessReason.none

unfoldable pub contains : ProfileReadinessAssessment → ProfileReadinessReason → Bool
unfolding has_bits
contains a r = has_bits a.reasons (mask r)

unfoldable pub add :
    ProfileReadinessAssessment → ProfileReadinessReason → ProfileReadinessAssessment
add a r = record { reasons = bit_or a.reasons (mask r) }

pub record ProfileReadinessPolicy : Type 0 where
  pub require_vehicle_secured : Bool
  pub allow_manual_transmission : Bool

abbrev pub default_policy : ProfileReadinessPolicy
default_policy = record { require_vehicle_secured = true; allow_manual_transmission = false }

-- `CoreRequiredSignals`.
abbrev pub core_required_signals : List VehicleSignal
core_required_signals =
    VehicleSignal.battery_millivolts ∷ VehicleSignal.engine_rpm ∷ VehicleSignal.brake_pressed
    ∷ VehicleSignal.parking_brake_applied ∷ VehicleSignal.transmission ∷ VehicleSignal.gear
    ∷ VehicleSignal.critical_fault_present ∷ []

-- The `switch` of `assessSignal`.
report_support : ProfileReadinessAssessment → SignalSupport → ProfileReadinessAssessment
unfolding add
report_support a SignalSupport.unavailable = add a missing_required_signal
report_support a SignalSupport.candidate = add a unverified_required_signal
report_support a SignalSupport.verified = a

unfoldable pub assess_signal :
    ProfileReadinessAssessment → VehicleProfile → VehicleSignal → ProfileReadinessAssessment
unfolding report_support
assess_signal a p s = report_support a (support p s)

-- The loop over the core signals.
unfoldable pub assess_signals :
    ProfileReadinessAssessment → VehicleProfile → List VehicleSignal → ProfileReadinessAssessment
assess_signals a p [] = a
assess_signals a p (s ∷ ss) = assess_signals (assess_signal a p s) p ss

-- The underlying value of the enumeration, by which stages are ordered.
abbrev pub stage_index : QualificationStage → ℕ
stage_index QualificationStage.discovery = 0
stage_index QualificationStage.read_only_validated = 1
stage_index QualificationStage.bench_validated = 2
stage_index QualificationStage.vehicle_qualified = 3

abbrev pub hood_source_missing : HoodInterlockSource → Bool
hood_source_missing HoodInterlockSource.unspecified = true
hood_source_missing HoodInterlockSource.not_available = true
hood_source_missing _ = false

-- `if (found) assessment.add(reason);`
unfoldable pub add_if :
    Bool → ProfileReadinessReason → ProfileReadinessAssessment → ProfileReadinessAssessment
unfolding add
add_if found r a = if found then add a r else a

-- The last test of the assessment, on the profile's gearbox.
unfoldable pub check_transmission :
    Transmission → ProfileReadinessPolicy → ProfileReadinessAssessment → ProfileReadinessAssessment
unfolding add
check_transmission Transmission.unknown policy a = add a transmission_unknown
check_transmission Transmission.manual policy a =
    if not policy.allow_manual_transmission then add a manual_transmission_not_allowed else a
check_transmission Transmission.automatic policy a = a

unfoldable pub assess_remote_start_readiness :
    VehicleProfile → ProfileReadinessPolicy → Bool → ProfileReadinessAssessment
assess_remote_start_readiness p policy require_hood_closed =
    let a1 = assess_signals no_reasons p core_required_signals in
    let a2 = if require_hood_closed then assess_signal a1 p VehicleSignal.hood_closed else a1 in
    let a3 =
      if policy.require_vehicle_secured
      then assess_signal (assess_signal a2 p VehicleSignal.doors_closed) p
          VehicleSignal.trunk_closed
      else a2 in
    let a4 =
      add_if
        (ltb (stage_index p.qualification) (stage_index QualificationStage.read_only_validated))
        qualification_too_low a3 in
    let a5 =
      add_if (require_hood_closed && hood_source_missing p.hood_interlock_source)
        hood_interlock_unavailable a4 in
    check_transmission p.transmission policy a5

-- The overload on a pointer, which is null where no profile is selected.
unfoldable pub assess_selected :
    Option VehicleProfile → ProfileReadinessPolicy → Bool → ProfileReadinessAssessment
unfolding add
assess_selected (some p) policy require_hood_closed =
    assess_remote_start_readiness p policy require_hood_closed
assess_selected Option.none policy require_hood_closed = add no_reasons profile_not_selected
