-- ===== src/Safety.antt =====
-- The safety policy (include/bmw_remote/application/safety_policy.hpp and
-- src/application/safety_policy.cpp): which vehicle states allow a remote start, cranking, a
-- remote run and a driver takeover, and the reasons reported where they do not.
pub mod Conditions
mod CommonTests
pub mod Approval
pub mod Reasons
use bmw_e9x_remote_control.Common.{
  ℕ, ◌^◌, Bool, true, false, not, ◌&&◌, ltb, leb, ◌==◌, if◌then◌else◌, bit_or, has_bits,
}
use bmw_e9x_remote_control.Domain.{Observed, is_fresh, Transmission, Gear, VehicleState}

pub data SafetyReason : Type 0 where
  none signal_unavailable battery_too_low hood_open door_open trunk_open : SafetyReason
  brake_pressed parking_brake_released transmission_unsafe engine_already_running : SafetyReason
  engine_not_running critical_vehicle_fault : SafetyReason

abbrev pub mask : SafetyReason → ℕ
mask none = 0
mask signal_unavailable = 2 ^ 0
mask battery_too_low = 2 ^ 1
mask hood_open = 2 ^ 2
mask door_open = 2 ^ 3
mask trunk_open = 2 ^ 4
mask brake_pressed = 2 ^ 5
mask parking_brake_released = 2 ^ 6
mask transmission_unsafe = 2 ^ 7
mask engine_already_running = 2 ^ 8
mask engine_not_running = 2 ^ 9
mask critical_vehicle_fault = 2 ^ 10

-- The `std::uint16_t` of reasons. `|` of two such words is one, so the cast back changes nothing.
pub record SafetyAssessment : Type 0 where
  pub reasons : ℕ

abbrev pub no_reasons : SafetyAssessment
no_reasons = record { reasons = mask none }

unfoldable pub approved : SafetyAssessment → Bool
approved a = a.reasons == mask none

unfoldable pub contains : SafetyAssessment → SafetyReason → Bool
unfolding has_bits
contains a r = has_bits a.reasons (mask r)

unfoldable pub add : SafetyAssessment → SafetyReason → SafetyAssessment
add a r = record { reasons = bit_or a.reasons (mask r) }

pub record SafetyPolicyConfig : Type 0 where
  pub minimum_battery_millivolts : ℕ
  pub running_rpm_threshold : ℕ
  pub require_vehicle_secured : Bool
  pub require_hood_closed : Bool
  pub allow_manual_transmission : Bool

-- `SafetyPolicyConfig{}`.
abbrev pub default_config : SafetyPolicyConfig
default_config = record {
  minimum_battery_millivolts = 11800;
  running_rpm_threshold = 500;
  require_vehicle_secured = true;
  require_hood_closed = true;
  allow_manual_transmission = false;
}

-- `if (found) assessment.add(reason);`
unfoldable pub add_if : Bool → SafetyReason → SafetyAssessment → SafetyAssessment
unfolding add
add_if found r a = if found then add a r else a

unfoldable pub require_fresh : {A : Type 0} → SafetyAssessment → Observed A → SafetyAssessment
unfolding add_if
require_fresh a signal = add_if (not (is_fresh signal)) signal_unavailable a

abbrev pub is_park : Gear → Bool
is_park Gear.park = true
is_park _ = false

abbrev pub is_neutral : Gear → Bool
is_neutral Gear.neutral = true
is_neutral _ = false

-- The `switch` on `vehicle.transmission.value`.
abbrev pub transmission_is_safe : SafetyPolicyConfig → Transmission → Gear → Bool
transmission_is_safe c Transmission.automatic gear = is_park gear
transmission_is_safe c Transmission.manual gear = c.allow_manual_transmission && is_neutral gear
transmission_is_safe c Transmission.unknown gear = false

-- The first half of `assessCommon`: the signals that must be fresh.
unfoldable pub require_common_signals :
    SafetyPolicyConfig → VehicleState → Bool → Bool → Bool → SafetyAssessment → SafetyAssessment
require_common_signals c v require_doors_closed require_trunk_closed prohibit_brake a =
    let a1 = require_fresh a v.battery_millivolts in
    let a2 = require_fresh a1 v.parking_brake_applied in
    let a3 = require_fresh a2 v.transmission in
    let a4 = require_fresh a3 v.gear in
    let a5 = require_fresh a4 v.critical_fault_present in
    let a6 = if prohibit_brake then require_fresh a5 v.brake_pressed else a5 in
    let a7 = if c.require_hood_closed then require_fresh a6 v.hood_closed else a6 in
    let a8 = if require_doors_closed then require_fresh a7 v.doors_closed else a7 in
    if require_trunk_closed then require_fresh a8 v.trunk_closed else a8

-- The second half: what the fresh values must be.
unfoldable pub check_common_values :
    SafetyPolicyConfig → VehicleState → Bool → Bool → Bool → SafetyAssessment → SafetyAssessment
check_common_values c v require_doors_closed require_trunk_closed prohibit_brake a =
    let a1 =
      add_if
        (is_fresh v.battery_millivolts
          && ltb v.battery_millivolts.value c.minimum_battery_millivolts)
        battery_too_low a in
    let a2 =
      add_if (c.require_hood_closed && is_fresh v.hood_closed && not v.hood_closed.value) hood_open
        a1 in
    let a3 =
      add_if (require_doors_closed && is_fresh v.doors_closed && not v.doors_closed.value) door_open
        a2 in
    let a4 =
      add_if (require_trunk_closed && is_fresh v.trunk_closed && not v.trunk_closed.value)
        trunk_open a3 in
    let a5 =
      add_if (prohibit_brake && is_fresh v.brake_pressed && v.brake_pressed.value) brake_pressed
        a4 in
    let a6 =
      add_if (is_fresh v.parking_brake_applied && not v.parking_brake_applied.value)
        parking_brake_released a5 in
    let a7 =
      add_if (is_fresh v.critical_fault_present && v.critical_fault_present.value)
        critical_vehicle_fault a6 in
    add_if
      (is_fresh v.transmission
        && is_fresh v.gear
        && not (transmission_is_safe c v.transmission.value v.gear.value))
      transmission_unsafe a7

unfoldable pub assess_common :
    SafetyPolicyConfig → VehicleState → Bool → Bool → Bool → SafetyAssessment
unfolding require_common_signals check_common_values
assess_common c v doors trunk brake =
    check_common_values c v doors trunk brake
      (require_common_signals c v doors trunk brake no_reasons)

unfoldable pub assess_start : SafetyPolicyConfig → VehicleState → SafetyAssessment
assess_start c v =
    let a1 = assess_common c v c.require_vehicle_secured c.require_vehicle_secured true in
    let a2 = require_fresh a1 v.engine_rpm in
    add_if (is_fresh v.engine_rpm && leb c.running_rpm_threshold v.engine_rpm.value)
      engine_already_running a2

unfoldable pub assess_cranking : SafetyPolicyConfig → VehicleState → SafetyAssessment
assess_cranking c v =
    let a1 = assess_common c v c.require_vehicle_secured c.require_vehicle_secured true in
    require_fresh a1 v.engine_rpm

unfoldable pub assess_remote_run : SafetyPolicyConfig → VehicleState → SafetyAssessment
assess_remote_run c v =
    let a1 = assess_common c v c.require_vehicle_secured c.require_vehicle_secured true in
    let a2 = require_fresh a1 v.engine_rpm in
    add_if (is_fresh v.engine_rpm && ltb v.engine_rpm.value c.running_rpm_threshold)
      engine_not_running a2

unfoldable pub assess_driver_takeover : SafetyPolicyConfig → VehicleState → SafetyAssessment
assess_driver_takeover c v =
    let a1 = assess_common c v false c.require_vehicle_secured false in
    let a2 = require_fresh a1 v.engine_rpm in
    add_if (is_fresh v.engine_rpm && ltb v.engine_rpm.value c.running_rpm_threshold)
      engine_not_running a2
