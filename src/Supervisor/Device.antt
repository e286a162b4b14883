-- ===== src/Supervisor/Device.antt =====
-- The operations of the supervisor. Each returns the new state, and its result where it has one.
use bmw_e9x_remote_control.Common.{
  ℕ, Bool, true, false, not, ◌&&◌, ◌||◌, ltb, ◌==◌, if◌then◌else◌, sub32, strictly_newer, xor,
}
use bmw_e9x_remote_control.Ports.{ActuatorPort}
use bmw_e9x_remote_control.Supervisor.Types.{
  ActuatorFeedback, ActuatorSupervisorFault, is_none, config_is_valid, Supervisor,
}

module _ (driver : ActuatorPort) where
  -- The driver's answers, and what is then known of the outputs.
  abbrev pub note_safing :
      Supervisor driver.State → driver.State → Bool → Bool → Supervisor driver.State × Bool
  note_safing s downstream starter_released outputs_secured =
      let s1 = record s {
        downstream = downstream;
        ignition_commanded = false;
        starter_commanded = false;
        ignition_feedback_confirmed = false;
        last_output_change_ms = s.last_observed_ms;
      } in
      if not starter_released || not outputs_secured
      then (record s1 { safing_failed = true }, false)
      else (s1, true)

  -- `safeDownstream`: both commands are sent, whatever the first answers.
  unfoldable pub safe_downstream : Supervisor driver.State → Supervisor driver.State × Bool
  safe_downstream s =
      let (d1, starter_released) = driver.disengage_starter s.downstream in
      let (d2, outputs_secured) = driver.secure_outputs d1 in
      note_safing s d2 starter_released outputs_secured

  -- `trip`: the first fault is kept.
  unfoldable pub trip : Supervisor driver.State → ActuatorSupervisorFault → Supervisor driver.State
  trip s fault = (safe_downstream (if is_none s.fault then record s { fault = fault } else s)).0

  -- `observeClock`.
  unfoldable pub observe_clock : Supervisor driver.State → ℕ → Supervisor driver.State × Bool
  observe_clock s now_ms =
      if s.clock_initialized
        && not (now_ms == s.last_observed_ms)
        && not (strictly_newer now_ms s.last_observed_ms)
      then (trip s ActuatorSupervisorFault.clock_regression, false)
      else (record s { last_observed_ms = now_ms; clock_initialized = true }, true)

  -- `canEnergize`.
  unfoldable pub can_energize : Supervisor driver.State → Supervisor driver.State × Bool
  can_energize s =
      if not s.initialized
      then (trip s ActuatorSupervisorFault.initialization_failure, false)
      else if not (is_none s.fault)
      then (s, false)
      else if not s.clock_initialized || not s.heartbeat_initialized
      then (trip s ActuatorSupervisorFault.watchdog_expired, false)
      else if not s.hardware_start_permitted
      then (trip s ActuatorSupervisorFault.hardware_interlock_lost, false)
      else if ltb s.config.watchdog_timeout_ms (sub32 s.last_observed_ms s.last_heartbeat_ms)
      then (trip s ActuatorSupervisorFault.watchdog_expired, false)
      else (s, true)

  abbrev pub outputs_active : Supervisor driver.State → Bool
  outputs_active s = s.ignition_commanded || s.starter_commanded

  abbrev beat : Supervisor driver.State → ℕ → Supervisor driver.State × Bool
  beat s now_ms =
      if not s.initialized || not (is_none s.fault)
      then (s, false)
      else if s.heartbeat_initialized
          && outputs_active s
          && ltb s.config.watchdog_timeout_ms (sub32 now_ms s.last_heartbeat_ms)
      then (trip s ActuatorSupervisorFault.watchdog_expired, false)
      else (record s { last_heartbeat_ms = now_ms; heartbeat_initialized = true }, true)

  unfoldable pub heartbeat : Supervisor driver.State → ℕ → Supervisor driver.State × Bool
  heartbeat s now_ms =
      let (s1, ok) = observe_clock s now_ms in if not ok then (s1, false) else beat s1 now_ms

  -- The feedback agrees with the commands.
  abbrev pub feedback_matches : Supervisor driver.State → ActuatorFeedback → Bool
  feedback_matches s f =
      not (xor f.ignition_active s.ignition_commanded)
      && not (xor f.starter_active s.starter_commanded)

  -- The last part of `poll`: the feedback.
  unfoldable pub check_feedback :
      Supervisor driver.State → ℕ → ActuatorFeedback → Supervisor driver.State
  check_feedback s now_ms f =
      let feedback_grace_elapsed =
        ltb s.config.feedback_grace_ms (sub32 now_ms s.last_output_change_ms) in
      if feedback_grace_elapsed && f.available && not (feedback_matches s f)
      then trip s ActuatorSupervisorFault.feedback_mismatch
      else if feedback_grace_elapsed
          && s.config.require_feedback
          && outputs_active s
          && not f.available
      then trip s ActuatorSupervisorFault.feedback_unavailable
      else if f.available && feedback_matches s f
      then record s { ignition_feedback_confirmed = s.ignition_commanded }
      else s

  -- The middle part of `poll`: the interlock and the timeouts.
  unfoldable pub check_limits :
      Supervisor driver.State → ℕ → Bool → ActuatorFeedback → Supervisor driver.State
  check_limits s0 now_ms hardware_start_permitted f =
      let s = record s0 { hardware_start_permitted = hardware_start_permitted } in
      if outputs_active s && not hardware_start_permitted
      then trip s ActuatorSupervisorFault.hardware_interlock_lost
      else if outputs_active s
          && (not s.heartbeat_initialized
              || ltb s.config.watchdog_timeout_ms (sub32 now_ms s.last_heartbeat_ms))
      then trip s ActuatorSupervisorFault.watchdog_expired
      else if s.starter_commanded
          && ltb s.config.maximum_starter_active_ms (sub32 now_ms s.starter_engaged_at_ms)
      then trip s ActuatorSupervisorFault.starter_timeout
      else check_feedback s now_ms f

  -- `poll`, whose result is the status of the new state.
  unfoldable pub poll :
      Supervisor driver.State → ℕ → Bool → ActuatorFeedback → Supervisor driver.State
  poll s now_ms hardware_start_permitted f =
      let (s1, ok) = observe_clock s now_ms in
      if not ok
      then s1
      else if not s1.initialized || not (is_none s1.fault)
      then s1
      else check_limits s1 now_ms hardware_start_permitted f

  -- The last part of `resetFault`, once the outputs are safe.
  abbrev pub accept_reset :
      Supervisor driver.State → ActuatorFeedback → Supervisor driver.State × Bool
  accept_reset s f =
      if (s.config.require_feedback && not f.available)
        || (f.available && (f.ignition_active || f.starter_active))
      then (
        record s {
          fault =
              if f.available
              then ActuatorSupervisorFault.feedback_mismatch
              else ActuatorSupervisorFault.feedback_unavailable;
        },
        false,
      )
      else (
        record s {
          fault = ActuatorSupervisorFault.none;
          safing_failed = false;
          heartbeat_initialized = false;
          hardware_start_permitted = false;
          initialized = true;
        },
        true,
      )

  abbrev pub safe_then_reset :
      Supervisor driver.State → ActuatorFeedback → Supervisor driver.State × Bool
  safe_then_reset s f =
      let (s1, safed) = safe_downstream s in
      if not safed
      then (record s1 { fault = ActuatorSupervisorFault.safing_failure }, false)
      else accept_reset s1 f

  unfoldable pub reset_fault :
      Supervisor driver.State → ℕ → ActuatorFeedback → Supervisor driver.State × Bool
  reset_fault s now_ms f =
      let (s1, ok) = observe_clock s now_ms in
      if not ok
      then (s1, false)
      else if not (config_is_valid s1.config)
      then (
        (safe_downstream (record s1 { fault = ActuatorSupervisorFault.invalid_configuration })).0,
        false,
      )
      else safe_then_reset s1 f
