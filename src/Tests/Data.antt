-- ===== src/Tests/Data.antt =====
-- A parked car, a profile of it, and configurations for the tests.
use bmw_e9x_remote_control.Common.{ℕ, refl, inl, true, false, some, [], ◌∷◌, pos, arith}
use bmw_e9x_remote_control.Domain.{
  observed_fresh, Transmission, Gear, VehicleState, VehicleProfile, VehiclePlatform, BodyVariant,
  FuelType, QualificationStage, SignalSupport, HoodInterlockSource,
}
use bmw_e9x_remote_control.Safety.{default_config as default_safety}
use bmw_e9x_remote_control.Safety.Conditions.{IsSecured, IsStartSafe, IsCrankingSafe}
use bmw_e9x_remote_control.Controller.Types.{ControllerConfig, default_config as default_controller}

-- A secured car whose engine turns at `rpm`.
abbrev pub car_at : ℕ → VehicleState
car_at rpm = record {
  battery_millivolts = observed_fresh 12500;
  engine_rpm = observed_fresh rpm;
  coolant_temperature_c = observed_fresh (pos 20);
  engine_oil_temperature_c = observed_fresh (pos 20);
  transmission_oil_temperature_c = observed_fresh (pos 20);
  dpf_regeneration_active = observed_fresh false;
  hood_closed = observed_fresh true;
  doors_closed = observed_fresh true;
  trunk_closed = observed_fresh true;
  brake_pressed = observed_fresh false;
  parking_brake_applied = observed_fresh true;
  transmission = observed_fresh Transmission.automatic;
  gear = observed_fresh Gear.park;
  critical_fault_present = observed_fresh false;
}

abbrev pub parked : VehicleState
parked = car_at 0

abbrev pub running_car : VehicleState
running_car = car_at 800

pub parked-IsSecured : (rpm : ℕ) → IsSecured default_safety (car_at rpm) true true true
parked-IsSecured rpm = record {
  battery = refl;
  charged = omega arith;
  parking = (refl, refl);
  no_fault = (refl, refl);
  gear = inl ((refl, refl), (refl, refl));
  brake_free = λ h. (refl, refl);
  hood = λ h. (refl, refl);
  doors_shut = λ h. (refl, refl);
  trunk_shut = λ h. (refl, refl);
}

pub parked-IsStartSafe : IsStartSafe default_safety parked
parked-IsStartSafe = (parked-IsSecured 0, refl, omega arith)

pub running-IsCrankingSafe : IsCrankingSafe default_safety running_car
running-IsCrankingSafe = (parked-IsSecured 800, refl)

abbrev pub verified_profile : VehicleProfile
verified_profile = record {
  id = some "e90-test";
  display_name = some "E90";
  platform = VehiclePlatform.bmw_e9x;
  body = BodyVariant.e90;
  first_model_year = 2005;
  last_model_year = 2011;
  engine_code = some "N52";
  fuel = FuelType.gasoline;
  transmission = Transmission.automatic;
  qualification = QualificationStage.vehicle_qualified;
  hood_interlock_source = HoodInterlockSource.vehicle_signal;
  signals =
      SignalSupport.verified ∷ SignalSupport.verified ∷ SignalSupport.verified
      ∷ SignalSupport.verified ∷ SignalSupport.verified ∷ SignalSupport.verified
      ∷ SignalSupport.verified ∷ SignalSupport.verified ∷ SignalSupport.verified
      ∷ SignalSupport.verified ∷ SignalSupport.verified ∷ SignalSupport.verified
      ∷ SignalSupport.verified ∷ SignalSupport.verified ∷ [];
}

abbrev pub car_config : ControllerConfig
car_config = record default_controller { vehicle_profile = some verified_profile }
