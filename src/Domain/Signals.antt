-- ===== src/Domain/Signals.antt =====
-- include/bmw_remote/domain/vehicle_state.hpp: the observed signals, each with a quality.
use bmw_e9x_remote_control.Common.{ℕ, Bool, true, false, ℤ, pos}

pub data SignalQuality : Type 0 where
  unavailable stale fresh : SignalQuality

-- `Observed<T>`: a value and how far it can be relied on.
pub record Observed (A : Type 0) : Type 0 where
  pub value : A
  pub quality : SignalQuality

abbrev pub quality_is_fresh : SignalQuality → Bool
quality_is_fresh SignalQuality.fresh = true
quality_is_fresh _ = false

abbrev pub is_fresh : {A : Type 0} → Observed A → Bool
is_fresh o = quality_is_fresh o.quality

-- `Observed::fresh`.
abbrev pub observed_fresh : {A : Type 0} → A → Observed A
observed_fresh v = record { value = v; quality = SignalQuality.fresh }

pub data Transmission : Type 0 where
  unknown automatic manual : Transmission

pub data Gear : Type 0 where
  unknown park neutral reverse drive : Gear

-- The `std::uint16_t` fields are numbers, the `std::int16_t` fields integers.
pub record VehicleState : Type 0 where
  pub battery_millivolts : Observed ℕ
  pub engine_rpm : Observed ℕ
  pub coolant_temperature_c : Observed ℤ
  pub engine_oil_temperature_c : Observed ℤ
  pub transmission_oil_temperature_c : Observed ℤ
  pub dpf_regeneration_active : Observed Bool
  pub hood_closed : Observed Bool
  pub doors_closed : Observed Bool
  pub trunk_closed : Observed Bool
  pub brake_pressed : Observed Bool
  pub parking_brake_applied : Observed Bool
  pub transmission : Observed Transmission
  pub gear : Observed Gear
  pub critical_fault_present : Observed Bool

-- `VehicleState{}`: nothing observed yet, each value at its type's zero.
abbrev pub unobserved : {A : Type 0} → A → Observed A
unobserved v = record { value = v; quality = SignalQuality.unavailable }

abbrev pub initial_vehicle_state : VehicleState
initial_vehicle_state = record {
  battery_millivolts = unobserved 0;
  engine_rpm = unobserved 0;
  coolant_temperature_c = unobserved (pos 0);
  engine_oil_temperature_c = unobserved (pos 0);
  transmission_oil_temperature_c = unobserved (pos 0);
  dpf_regeneration_active = unobserved false;
  hood_closed = unobserved false;
  doors_closed = unobserved false;
  trunk_closed = unobserved false;
  brake_pressed = unobserved false;
  parking_brake_applied = unobserved false;
  transmission = unobserved Transmission.unknown;
  gear = unobserved Gear.unknown;
  critical_fault_present = unobserved false;
}
