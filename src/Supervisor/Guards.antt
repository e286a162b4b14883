-- ===== src/Supervisor/Guards.antt =====
-- What the supervisor checks before and while the outputs are energised.
use bmw_e9x_remote_control.Common.{ℕ, ◌≤◌, ◌≡◌, ◌↔◌, Bool, true, false, arith, sub32}
use bmw_e9x_remote_control.Ports.{ActuatorPort}
use bmw_e9x_remote_control.Supervisor.Types.{ActuatorFeedback, ActuatorSupervisorFault, Supervisor}
use bmw_e9x_remote_control.Supervisor.Device.{
  safe_downstream, trip, observe_clock, can_energize, check_feedback, check_limits, poll,
  outputs_active,
}
use bmw_e9x_remote_control.Supervisor.Commands.{engage_starter}
use bmw_e9x_remote_control.Supervisor.Invariant.{
  IsSafe, OutputsOff, can_energize_allows, observe_clock-IsSafe,
}

-- Everything that the supervisor requires before it energises an output.
pub record MayEnergize {D : Type 0} (s : Supervisor D) : Type 0 where
  pub initialized : s.initialized ≡ true
  pub no_fault : s.fault ≡ ActuatorSupervisorFault.none
  pub clock : s.clock_initialized ≡ true
  pub heartbeat : s.heartbeat_initialized ≡ true
  pub permitted : s.hardware_start_permitted ≡ true
  pub watched : sub32 s.last_observed_ms s.last_heartbeat_ms ≤ s.config.watchdog_timeout_ms

-- What it requires besides before the starter: the ignition is on, confirmed by feedback where that
-- is required, and the starter is off.
pub record MayEngage {D : Type 0} (s : Supervisor D) : Type 0 where
  pub energize : MayEnergize s
  pub ignition : s.ignition_commanded ≡ true
  pub starter : s.starter_commanded ≡ false
  pub confirmed : s.config.require_feedback ≡ true → s.ignition_feedback_confirmed ≡ true

module _ (driver : ActuatorPort) where
  pub can_energize_iff :
      (s : Supervisor driver.State) → ((can_energize driver s).1 ≡ true) ↔ MayEnergize s
  unfolding can_energize
  can_energize_iff s = ground arith

  -- The starter is engaged exactly when the supervisor's conditions hold and the driver obeys.
  pub engage_starter_iff :
      (s : Supervisor driver.State)
      → ((engage_starter driver s).1 ≡ true)
        ↔ (MayEngage s × ((driver.engage_starter s.downstream).1 ≡ true))
  unfolding engage_starter
  engage_starter_iff s =
      let allows = can_energize_allows driver s in let iff = can_energize_iff s in ground arith

  trip-OutputsOff :
      (s : Supervisor driver.State) (f : ActuatorSupervisorFault) → OutputsOff (trip driver s f)
  unfolding trip safe_downstream
  trip-OutputsOff s f = ground arith

  trip_lem :
      (s : Supervisor driver.State) (f : ActuatorSupervisorFault)
      → OutputsOff (trip driver s f) × ((trip driver s f).last_heartbeat_ms ≡ s.last_heartbeat_ms)
  unfolding trip safe_downstream
  trip_lem s f = ground arith

  check_feedback_active :
      (s : Supervisor driver.State) (now_ms : ℕ) (f : ActuatorFeedback)
      → outputs_active driver (check_feedback driver s now_ms f) ≡ true
      → let s' = check_feedback driver s now_ms f in
        (s'.ignition_commanded ≡ s.ignition_commanded)
        × (s'.starter_commanded ≡ s.starter_commanded)
        × (s'.last_heartbeat_ms ≡ s.last_heartbeat_ms)
        × (s'.starter_engaged_at_ms ≡ s.starter_engaged_at_ms)
        × (s'.config ≡ s.config)
  unfolding check_feedback
  check_feedback_active s now_ms f h = ground (
    arith,
    trip-OutputsOff s ActuatorSupervisorFault.feedback_mismatch,
    trip-OutputsOff s ActuatorSupervisorFault.feedback_unavailable,
  )

  check_limits_active :
      (s : Supervisor driver.State) (now_ms : ℕ) (permitted : Bool) (f : ActuatorFeedback)
      → outputs_active driver (check_limits driver s now_ms permitted f) ≡ true
      → let s' = check_limits driver s now_ms permitted f in
        (permitted ≡ true)
        × (sub32 now_ms s'.last_heartbeat_ms ≤ s'.config.watchdog_timeout_ms)
        × (s'.starter_commanded ≡ true
            → sub32 now_ms s'.starter_engaged_at_ms ≤ s'.config.maximum_starter_active_ms)
  unfolding check_limits
  check_limits_active s now_ms permitted f h =
      let s1 = record s { hardware_start_permitted = permitted } in
      ground (
        arith,
        trip-OutputsOff s1 ActuatorSupervisorFault.hardware_interlock_lost,
        trip-OutputsOff s1 ActuatorSupervisorFault.watchdog_expired,
        trip-OutputsOff s1 ActuatorSupervisorFault.starter_timeout,
        check_feedback_active s1 now_ms f,
      )

  observe_clock_refused :
      (s : Supervisor driver.State) (now_ms : ℕ)
      → (observe_clock driver s now_ms).1 ≡ false
      → OutputsOff (observe_clock driver s now_ms).0
  unfolding observe_clock
  observe_clock_refused s now_ms h =
      ground (arith, trip-OutputsOff s ActuatorSupervisorFault.clock_regression)

  -- An output that is still active after a poll of a supervisor that is safe has its hardware
  -- permission, a heartbeat no older than the watchdog timeout, and, if it is the starter, a time
  -- of activity within its maximum.
  pub poll_active :
      (s : Supervisor driver.State) (now_ms : ℕ) (permitted : Bool) (f : ActuatorFeedback)
      → IsSafe s
      → outputs_active driver (poll driver s now_ms permitted f) ≡ true
      → let s' = poll driver s now_ms permitted f in
        (permitted ≡ true)
        × (sub32 now_ms s'.last_heartbeat_ms ≤ s'.config.watchdog_timeout_ms)
        × (s'.starter_commanded ≡ true
            → sub32 now_ms s'.starter_engaged_at_ms ≤ s'.config.maximum_starter_active_ms)
  unfolding poll
  poll_active s now_ms permitted f safe h =
      let s1 = (observe_clock driver s now_ms).0 in
      let safe1 = observe_clock-IsSafe driver s now_ms safe in
      ground
        (arith, safe1, observe_clock_refused s now_ms, check_limits_active s1 now_ms permitted f)
