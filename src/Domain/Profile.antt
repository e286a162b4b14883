-- ===== src/Domain/Profile.antt =====
-- include/bmw_remote/domain/vehicle_signal.hpp and vehicle_profile.hpp, with
-- src/domain/vehicle_profile.cpp: what is known of a vehicle type, and the profile registry.
use Prim.Native.String.{String}
use text.Mathlib.Text.{◌==◌ as str_eq}
use bmw_e9x_remote_control.Common.{
  ℕ, Bool, false, Option, none, some, List, [], ◌∷◌, if◌then◌else◌, get_or,
}
use bmw_e9x_remote_control.Domain.Signals.{Transmission}

pub data VehicleSignal : Type 0 where
  battery_millivolts engine_rpm coolant_temperature_c engine_oil_temperature_c : VehicleSignal
  transmission_oil_temperature_c dpf_regeneration_active hood_closed doors_closed : VehicleSignal
  trunk_closed brake_pressed parking_brake_applied transmission gear : VehicleSignal
  critical_fault_present count : VehicleSignal

-- The underlying value of the enumeration.
abbrev pub signal_index : VehicleSignal → ℕ
signal_index battery_millivolts = 0
signal_index engine_rpm = 1
signal_index coolant_temperature_c = 2
signal_index engine_oil_temperature_c = 3
signal_index transmission_oil_temperature_c = 4
signal_index dpf_regeneration_active = 5
signal_index hood_closed = 6
signal_index doors_closed = 7
signal_index trunk_closed = 8
signal_index brake_pressed = 9
signal_index parking_brake_applied = 10
signal_index transmission = 11
signal_index gear = 12
signal_index critical_fault_present = 13
signal_index count = 14

abbrev pub vehicle_signal_count : ℕ
vehicle_signal_count = signal_index count

pub data VehiclePlatform : Type 0 where
  unknown bmw_e9x : VehiclePlatform

pub data BodyVariant : Type 0 where
  unknown e90 e91 e92 e93 : BodyVariant

pub data FuelType : Type 0 where
  unknown gasoline diesel : FuelType

pub data QualificationStage : Type 0 where
  discovery read_only_validated bench_validated vehicle_qualified : QualificationStage

pub data SignalSupport : Type 0 where
  unavailable candidate verified : SignalSupport

pub data HoodInterlockSource : Type 0 where
  unspecified not_available vehicle_signal external_discrete_input synthetic : HoodInterlockSource

-- A C string is `none` where the pointer is null. `signals` has `vehicle_signal_count` entries.
pub record VehicleProfile : Type 0 where
  pub id : Option String
  pub display_name : Option String
  pub platform : VehiclePlatform
  pub body : BodyVariant
  pub first_model_year : ℕ
  pub last_model_year : ℕ
  pub engine_code : Option String
  pub fuel : FuelType
  pub transmission : Transmission
  pub qualification : QualificationStage
  pub hood_interlock_source : HoodInterlockSource
  pub signals : List SignalSupport

-- An index past the end reads as `unavailable`.
unfoldable pub support : VehicleProfile → VehicleSignal → SignalSupport
support p s = get_or p.signals (signal_index s) SignalSupport.unavailable

-- `profiles_[index].id != nullptr && std::strcmp(profiles_[index].id, id) == 0`.
unfoldable pub id_matches : Option String → String → Bool
id_matches none wanted = false
id_matches (some id) wanted = str_eq id wanted

find_from : List VehicleProfile → String → Option VehicleProfile
find_from [] wanted = none
find_from (p ∷ ps) wanted = if id_matches p.id wanted then some p else find_from ps wanted

-- `VehicleProfileRegistry::find`. The registry is the list that `profiles_` and `profileCount_`
-- delimit, `none` where `profiles_` is null.
unfoldable pub find : Option (List VehicleProfile) → Option String → Option VehicleProfile
unfolding find_from
find none id = none
find (some ps) none = none
find (some ps) (some wanted) = find_from ps wanted
