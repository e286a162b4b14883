-- ===== src/Supervisor/Invariant.antt =====
-- What holds of the supervisor between two operations.
use bmw_e9x_remote_control.Common.{if-either, ℕ, ◌≤◌, ◌≡◌, Bool, true, false, arith, sub32}
use bmw_e9x_remote_control.Ports.{ActuatorPort}
use bmw_e9x_remote_control.Supervisor.Types.{
  ActuatorFeedback, ActuatorSafetyConfig, ActuatorSupervisorFault, is_none, config_is_valid,
  Supervisor,
}
use bmw_e9x_remote_control.Supervisor.Device.{
  safe_downstream, trip, observe_clock, can_energize, heartbeat, check_feedback, check_limits, poll,
  reset_fault,
}
use bmw_e9x_remote_control.Supervisor.Commands.{
  enable_ignition, engage_starter, disengage_starter, release_remote_control, secure_outputs,
  new_supervisor,
}

-- Both outputs are commanded off.
abbrev pub OutputsOff : {D : Type 0} → Supervisor D → Type 0
OutputsOff s = (s.ignition_commanded ≡ false) × (s.starter_commanded ≡ false)

pub record IsSafe {D : Type 0} (s : Supervisor D) : Type 0 where
  -- A supervisor with a fault, or not initialised, holds its outputs off.
  pub faulted_off : is_none s.fault ≡ false → OutputsOff s
  pub uninitialized_off : s.initialized ≡ false → OutputsOff s
  -- The starter turns only with the ignition on.
  pub starter_ignition : s.starter_commanded ≡ true → s.ignition_commanded ≡ true
  -- It runs on a valid configuration only.
  pub valid : s.initialized ≡ true → config_is_valid s.config ≡ true
  -- It is confirmed by feedback only while the ignition is on.
  pub confirmed : s.ignition_feedback_confirmed ≡ true → s.ignition_commanded ≡ true

module _ (driver : ActuatorPort) where
  safe_downstream-IsSafe :
      (s : Supervisor driver.State) → IsSafe s → IsSafe (safe_downstream driver s).0
  unfolding safe_downstream
  safe_downstream-IsSafe s h = ground arith

  pub trip-IsSafe :
      (s : Supervisor driver.State) (f : ActuatorSupervisorFault)
      → (s.initialized ≡ true → config_is_valid s.config ≡ true)
      → IsSafe (trip driver s f)
  unfolding trip safe_downstream
  trip-IsSafe s f h = ground arith

  pub observe_clock-IsSafe :
      (s : Supervisor driver.State) (now_ms : ℕ)
      → IsSafe s
      → IsSafe (observe_clock driver s now_ms).0
  unfolding observe_clock
  observe_clock-IsSafe s now_ms h =
      ground (arith, trip-IsSafe s ActuatorSupervisorFault.clock_regression h.valid)

  can_energize-IsSafe : (s : Supervisor driver.State) → IsSafe s → IsSafe (can_energize driver s).0
  unfolding can_energize
  can_energize-IsSafe s h = ground (
    arith,
    trip-IsSafe s ActuatorSupervisorFault.initialization_failure h.valid,
    trip-IsSafe s ActuatorSupervisorFault.watchdog_expired h.valid,
    trip-IsSafe s ActuatorSupervisorFault.hardware_interlock_lost h.valid,
  )

  -- What is checked before an output is energised.
  pub can_energize_allows :
      (s : Supervisor driver.State)
      → (can_energize driver s).1 ≡ true
      → ((can_energize driver s).0 ≡ s)
        × (s.initialized ≡ true)
        × (s.fault ≡ ActuatorSupervisorFault.none)
        × (s.heartbeat_initialized ≡ true)
        × (s.hardware_start_permitted ≡ true)
        × (sub32 s.last_observed_ms s.last_heartbeat_ms ≤ s.config.watchdog_timeout_ms)
  unfolding can_energize
  can_energize_allows s h = ground arith

  pub heartbeat-IsSafe :
      (s : Supervisor driver.State) (now_ms : ℕ) → IsSafe s → IsSafe (heartbeat driver s now_ms).0
  unfolding heartbeat
  heartbeat-IsSafe s now_ms h =
      let s1 = (observe_clock driver s now_ms).0 in
      let h1 = observe_clock-IsSafe s now_ms h in
      ground (arith, h1, trip-IsSafe s1 ActuatorSupervisorFault.watchdog_expired h1.valid)

  check_feedback-IsSafe :
      (s : Supervisor driver.State) (now_ms : ℕ) (f : ActuatorFeedback)
      → IsSafe s
      → IsSafe (check_feedback driver s now_ms f)
  unfolding check_feedback
  check_feedback-IsSafe s now_ms f h = ground (
    arith,
    trip-IsSafe s ActuatorSupervisorFault.feedback_mismatch h.valid,
    trip-IsSafe s ActuatorSupervisorFault.feedback_unavailable h.valid,
  )

  permit-IsSafe :
      (s : Supervisor driver.State) (permitted : Bool)
      → IsSafe s
      → IsSafe (record s { hardware_start_permitted = permitted })
  permit-IsSafe s permitted h = ground arith

  check_limits-IsSafe :
      (s : Supervisor driver.State) (now_ms : ℕ) (permitted : Bool) (f : ActuatorFeedback)
      → IsSafe s
      → IsSafe (check_limits driver s now_ms permitted f)
  unfolding check_limits
  check_limits-IsSafe s now_ms permitted f h =
      let s1 = record s { hardware_start_permitted = permitted } in
      let h1 = permit-IsSafe s permitted h in
      let tripped = λ (fault : ActuatorSupervisorFault). trip-IsSafe s1 fault h1.valid in
      if-either IsSafe _ (tripped ActuatorSupervisorFault.hardware_interlock_lost) (
        if-either IsSafe _ (tripped ActuatorSupervisorFault.watchdog_expired) (
          if-either IsSafe _ (tripped ActuatorSupervisorFault.starter_timeout)
            (check_feedback-IsSafe s1 now_ms f h1)))

  pub poll-IsSafe :
      (s : Supervisor driver.State) (now_ms : ℕ) (permitted : Bool) (f : ActuatorFeedback)
      → IsSafe s
      → IsSafe (poll driver s now_ms permitted f)
  unfolding poll
  poll-IsSafe s now_ms permitted f h =
      let s1 = (observe_clock driver s now_ms).0 in
      let h1 = observe_clock-IsSafe s now_ms h in
      ground (arith, h1, check_limits-IsSafe s1 now_ms permitted f h1)

  pub reset_fault-IsSafe :
      (s : Supervisor driver.State) (now_ms : ℕ) (f : ActuatorFeedback)
      → IsSafe s
      → IsSafe (reset_fault driver s now_ms f).0
  unfolding reset_fault safe_downstream
  reset_fault-IsSafe s now_ms f h = let h1 = observe_clock-IsSafe s now_ms h in ground (arith, h1)

  pub enable_ignition-IsSafe :
      (s : Supervisor driver.State) → IsSafe s → IsSafe (enable_ignition driver s).0
  unfolding enable_ignition
  enable_ignition-IsSafe s h =
      let s1 = (can_energize driver s).0 in
      let h1 = can_energize-IsSafe s h in
      let s2 = record s1 { downstream = (driver.enable_ignition s1.downstream).0 } in
      ground (
        arith,
        h1,
        can_energize_allows s,
        trip-IsSafe s2 ActuatorSupervisorFault.driver_failure h1.valid,
      )

  pub engage_starter-IsSafe :
      (s : Supervisor driver.State) → IsSafe s → IsSafe (engage_starter driver s).0
  unfolding engage_starter
  engage_starter-IsSafe s h =
      let s1 = (can_energize driver s).0 in
      let h1 = can_energize-IsSafe s h in
      let s2 = record s1 { downstream = (driver.engage_starter s1.downstream).0 } in
      ground (
        arith,
        h1,
        can_energize_allows s,
        trip-IsSafe s1 ActuatorSupervisorFault.command_sequence h1.valid,
        trip-IsSafe s2 ActuatorSupervisorFault.driver_failure h1.valid,
      )

  pub disengage_starter-IsSafe :
      (s : Supervisor driver.State) → IsSafe s → IsSafe (disengage_starter driver s).0
  unfolding disengage_starter
  disengage_starter-IsSafe s h =
      let s2 = record s { downstream = (driver.disengage_starter s.downstream).0 } in
      ground (arith, h, trip-IsSafe s2 ActuatorSupervisorFault.driver_failure h.valid)

  pub release_remote_control-IsSafe :
      (s : Supervisor driver.State) → IsSafe s → IsSafe (release_remote_control driver s).0
  unfolding release_remote_control
  release_remote_control-IsSafe s h =
      let s1 = (can_energize driver s).0 in
      let h1 = can_energize-IsSafe s h in
      let s2 = record s1 { downstream = (driver.release_remote_control s1.downstream).0 } in
      ground (
        arith,
        h1,
        trip-IsSafe s1 ActuatorSupervisorFault.command_sequence h1.valid,
        trip-IsSafe s2 ActuatorSupervisorFault.driver_failure h1.valid,
      )

  pub secure_outputs-IsSafe :
      (s : Supervisor driver.State) → IsSafe s → IsSafe (secure_outputs driver s).0
  unfolding secure_outputs safe_downstream
  secure_outputs-IsSafe s h = ground (arith, h)

  pub new_supervisor-IsSafe :
      (d : driver.State) (c : ActuatorSafetyConfig) → IsSafe (new_supervisor driver d c)
  unfolding new_supervisor safe_downstream
  new_supervisor-IsSafe d c = ground arith
