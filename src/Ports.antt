-- ===== src/Ports.antt =====
-- include/bmw_remote/infrastructure/ports.hpp: the interfaces behind which the hardware stands. An
-- implementation is a state and functions on it, so that any answers, and any dependence of them
-- on earlier calls, are covered.
use bmw_e9x_remote_control.Common.{ℕ, Bool}

pub record VehicleGateway : Type 1 where
  pub State : Type 0
  pub request_state : State → State × Bool

pub record ActuatorPort : Type 1 where
  pub State : Type 0
  pub enable_ignition : State → State × Bool
  pub engage_starter : State → State × Bool
  pub disengage_starter : State → State × Bool
  pub release_remote_control : State → State × Bool
  pub secure_outputs : State → State × Bool

pub record TimerPort : Type 1 where
  pub State : Type 0
  pub arm : ℕ → State → State × Bool
  pub cancel : State → State × Bool
