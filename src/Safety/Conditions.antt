-- ===== src/Safety/Conditions.antt =====
-- What the safety policy promises, stated of the vehicle and not of the reason mask.
use bmw_e9x_remote_control.Common.{◌<◌, ◌≤◌, ◌≡◌, ◌⊎◌, Bool, true, false}
use bmw_e9x_remote_control.Domain.{Observed, SignalQuality, Transmission, Gear, VehicleState}
use bmw_e9x_remote_control.Safety.{SafetyPolicyConfig}

abbrev pub IsKnown : {A : Type 0} → Observed A → Type 0
IsKnown o = o.quality ≡ SignalQuality.fresh

-- The signal is fresh and reads `a`.
abbrev pub Reads : {A : Type 0} → Observed A → A → Type 0
Reads o a = IsKnown o × (o.value ≡ a)

-- An automatic gearbox in park, or, where the policy allows one, a manual gearbox in neutral.
abbrev pub GearIsSafe : SafetyPolicyConfig → VehicleState → Type 0
GearIsSafe c v =
    (Reads v.transmission Transmission.automatic × Reads v.gear Gear.park)
    ⊎ (Reads v.transmission Transmission.manual
        × (c.allow_manual_transmission ≡ true)
        × Reads v.gear Gear.neutral)

pub record IsSecured (c : SafetyPolicyConfig) (v : VehicleState) (doors trunk brake : Bool)
    : Type 0 where
  pub battery : IsKnown v.battery_millivolts
  pub charged : c.minimum_battery_millivolts ≤ v.battery_millivolts.value
  pub parking : Reads v.parking_brake_applied true
  pub no_fault : Reads v.critical_fault_present false
  pub gear : GearIsSafe c v
  pub brake_free : brake ≡ true → Reads v.brake_pressed false
  pub hood : c.require_hood_closed ≡ true → Reads v.hood_closed true
  pub doors_shut : doors ≡ true → Reads v.doors_closed true
  pub trunk_shut : trunk ≡ true → Reads v.trunk_closed true

abbrev pub IsStartSafe : SafetyPolicyConfig → VehicleState → Type 0
IsStartSafe c v =
    IsSecured c v c.require_vehicle_secured c.require_vehicle_secured true
    × IsKnown v.engine_rpm
    × (v.engine_rpm.value < c.running_rpm_threshold)

abbrev pub IsCrankingSafe : SafetyPolicyConfig → VehicleState → Type 0
IsCrankingSafe c v =
    IsSecured c v c.require_vehicle_secured c.require_vehicle_secured true × IsKnown v.engine_rpm

abbrev pub IsRemoteRunSafe : SafetyPolicyConfig → VehicleState → Type 0
IsRemoteRunSafe c v =
    IsSecured c v c.require_vehicle_secured c.require_vehicle_secured true
    × IsKnown v.engine_rpm
    × (c.running_rpm_threshold ≤ v.engine_rpm.value)

abbrev pub IsTakeoverSafe : SafetyPolicyConfig → VehicleState → Type 0
IsTakeoverSafe c v =
    IsSecured c v false c.require_vehicle_secured false
    × IsKnown v.engine_rpm
    × (c.running_rpm_threshold ≤ v.engine_rpm.value)
