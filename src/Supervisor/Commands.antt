-- ===== src/Supervisor/Commands.antt =====
-- The actuator commands of the supervisor, its constructor, and the supervisor as an
-- `ActuatorPort` in front of the driver.
use bmw_e9x_remote_control.Common.{Bool, true, false, not, ◌&&◌, ◌||◌, if◌then◌else◌}
use bmw_e9x_remote_control.Ports.{ActuatorPort}
use bmw_e9x_remote_control.Supervisor.Types.{
  ActuatorSafetyConfig, ActuatorSupervisorFault, config_is_valid, Supervisor,
}
use bmw_e9x_remote_control.Supervisor.Device.{safe_downstream, trip, can_energize}

module _ (driver : ActuatorPort) where
  -- `if (!driver_.…()) { trip(DriverFailure); return false; }`, then the change of the flags.
  abbrev commanded :
      Supervisor driver.State
      → driver.State × Bool
      → (Supervisor driver.State → Supervisor driver.State)
      → Supervisor driver.State × Bool
  commanded s (d, answer) note =
      let s1 = record s { downstream = d } in
      if not answer
      then (trip driver s1 ActuatorSupervisorFault.driver_failure, false)
      else (note s1, true)

  unfoldable pub enable_ignition : Supervisor driver.State → Supervisor driver.State × Bool
  enable_ignition s0 =
      let (s, allowed) = can_energize driver s0 in
      if not allowed
      then (s, false)
      else commanded s (driver.enable_ignition s.downstream) λ t. record t {
        ignition_commanded = true;
        ignition_feedback_confirmed = not t.config.require_feedback;
        last_output_change_ms = t.last_observed_ms;
      }

  unfoldable pub engage_starter : Supervisor driver.State → Supervisor driver.State × Bool
  engage_starter s0 =
      let (s, allowed) = can_energize driver s0 in
      if not allowed
      then (s, false)
      else if s.starter_commanded
          || not s.ignition_commanded
          || (s.config.require_feedback && not s.ignition_feedback_confirmed)
      then (trip driver s ActuatorSupervisorFault.command_sequence, false)
      else commanded s (driver.engage_starter s.downstream) λ t. record t {
        starter_commanded = true;
        starter_engaged_at_ms = t.last_observed_ms;
        last_output_change_ms = t.last_observed_ms;
      }

  unfoldable pub disengage_starter : Supervisor driver.State → Supervisor driver.State × Bool
  disengage_starter s =
      commanded s (driver.disengage_starter s.downstream)
        λ t. record t { starter_commanded = false; last_output_change_ms = t.last_observed_ms }

  unfoldable pub release_remote_control : Supervisor driver.State → Supervisor driver.State × Bool
  release_remote_control s0 =
      let (s, allowed) = can_energize driver s0 in
      if not allowed
      then (s, false)
      else if s.starter_commanded
      then (trip driver s ActuatorSupervisorFault.command_sequence, false)
      else commanded s (driver.release_remote_control s.downstream) λ t. record t {
        ignition_commanded = false;
        starter_commanded = false;
        ignition_feedback_confirmed = false;
        last_output_change_ms = t.last_observed_ms;
      }

  unfoldable pub secure_outputs : Supervisor driver.State → Supervisor driver.State × Bool
  secure_outputs s =
      let (s1, secured) = safe_downstream driver s in
      if not secured
      then (record s1 { fault = ActuatorSupervisorFault.safing_failure }, secured)
      else (s1, secured)

  -- The members before the constructor's body.
  abbrev blank : driver.State → ActuatorSafetyConfig → Supervisor driver.State
  blank downstream config = record {
    downstream = downstream;
    config = config;
    fault = ActuatorSupervisorFault.none;
    last_observed_ms = 0;
    last_heartbeat_ms = 0;
    starter_engaged_at_ms = 0;
    last_output_change_ms = 0;
    initialized = false;
    clock_initialized = false;
    heartbeat_initialized = false;
    hardware_start_permitted = false;
    ignition_commanded = false;
    starter_commanded = false;
    ignition_feedback_confirmed = false;
    safing_failed = false;
  }

  -- The constructor.
  unfoldable pub new_supervisor : driver.State → ActuatorSafetyConfig → Supervisor driver.State
  new_supervisor downstream config =
      let s = blank downstream config in
      let (s1, safed) = safe_downstream driver s in
      if not (config_is_valid config)
      then (safe_downstream driver
          (record s { fault = ActuatorSupervisorFault.invalid_configuration })).0
      else if not safed
      then record s1 { fault = ActuatorSupervisorFault.initialization_failure }
      else record s1 { initialized = true }

  -- `class ActuatorSafetySupervisor final : public ActuatorPort`.
  abbrev pub supervised : ActuatorPort
  supervised = record {
    State = Supervisor driver.State;
    enable_ignition = enable_ignition;
    engage_starter = engage_starter;
    disengage_starter = disengage_starter;
    release_remote_control = release_remote_control;
    secure_outputs = secure_outputs;
  }
