-- ===== src/Supervisor/Wiring.antt =====
-- The supervisor's flags against the commands that its driver was given.
use bmw_e9x_remote_control.Common.{ℕ, ◌≡◌, Bool, true, false, List, [], ◌∷◌, arith}
use bmw_e9x_remote_control.Ports.{ActuatorPort}
use bmw_e9x_remote_control.Supervisor.Types.{
  ActuatorFeedback, ActuatorSafetyConfig, ActuatorSupervisorFault, Supervisor,
}
use bmw_e9x_remote_control.Supervisor.Device.{
  safe_downstream, trip, observe_clock, can_energize, heartbeat, check_feedback, check_limits, poll,
  reset_fault,
}
use bmw_e9x_remote_control.Supervisor.Commands.{
  enable_ignition, engage_starter, disengage_starter, release_remote_control, secure_outputs,
  new_supervisor,
}
use bmw_e9x_remote_control.Supervisor.Runs.{
  Call, calls_heartbeat, calls_poll, calls_reset_fault, calls_enable_ignition, calls_engage_starter,
  calls_disengage_starter, calls_release_remote_control, calls_secure_outputs, call, calls,
}

pub data Command : Type 0 where
  ignition_on starter_on starter_off remote_release outputs_secure : Command

-- A driver that records its commands, newest first, and answers by any function of all of them.
abbrev pub recorder : (List Command → Bool) → ActuatorPort
recorder answer = record {
  State = List Command;
  enable_ignition = λ log. (ignition_on ∷ log, answer (ignition_on ∷ log));
  engage_starter = λ log. (starter_on ∷ log, answer (starter_on ∷ log));
  disengage_starter = λ log. (starter_off ∷ log, answer (starter_off ∷ log));
  release_remote_control = λ log. (remote_release ∷ log, answer (remote_release ∷ log));
  secure_outputs = λ log. (outputs_secure ∷ log, answer (outputs_secure ∷ log));
}

-- What the commands leave on.
abbrev pub ignition_wire : List Command → Bool
ignition_wire [] = false
ignition_wire (ignition_on ∷ log) = true
ignition_wire (starter_on ∷ log) = ignition_wire log
ignition_wire (starter_off ∷ log) = ignition_wire log
ignition_wire (remote_release ∷ log) = false
ignition_wire (outputs_secure ∷ log) = false

abbrev pub starter_wire : List Command → Bool
starter_wire [] = false
starter_wire (ignition_on ∷ log) = starter_wire log
starter_wire (starter_on ∷ log) = true
starter_wire (starter_off ∷ log) = false
starter_wire (remote_release ∷ log) = false
starter_wire (outputs_secure ∷ log) = false

pub record WiresMatch (s : Supervisor (List Command)) : Type 0 where
  pub ignition : ignition_wire s.downstream ≡ s.ignition_commanded
  pub starter : starter_wire s.downstream ≡ s.starter_commanded

module _ (answer : List Command → Bool) where
  abbrev device : ActuatorPort
  device = recorder answer

  trip-WiresMatch :
      (s : Supervisor (List Command)) (f : ActuatorSupervisorFault) → WiresMatch (trip device s f)
  unfolding trip safe_downstream
  trip-WiresMatch s f = ground arith

  safe-WiresMatch : (s : Supervisor (List Command)) → WiresMatch (safe_downstream device s).0
  unfolding safe_downstream
  safe-WiresMatch s = ground arith

  observe_clock-WiresMatch :
      (s : Supervisor (List Command)) (now_ms : ℕ)
      → WiresMatch s
      → WiresMatch (observe_clock device s now_ms).0
  unfolding observe_clock
  observe_clock-WiresMatch s now_ms h =
      ground (arith, trip-WiresMatch s ActuatorSupervisorFault.clock_regression)

  can_energize-WiresMatch :
      (s : Supervisor (List Command)) → WiresMatch s → WiresMatch (can_energize device s).0
  unfolding can_energize
  can_energize-WiresMatch s h = ground (
    arith,
    trip-WiresMatch s ActuatorSupervisorFault.initialization_failure,
    trip-WiresMatch s ActuatorSupervisorFault.watchdog_expired,
    trip-WiresMatch s ActuatorSupervisorFault.hardware_interlock_lost,
  )

  check_feedback-WiresMatch :
      (s : Supervisor (List Command)) (now_ms : ℕ) (f : ActuatorFeedback)
      → WiresMatch s
      → WiresMatch (check_feedback device s now_ms f)
  unfolding check_feedback
  check_feedback-WiresMatch s now_ms f h = ground (
    arith,
    trip-WiresMatch s ActuatorSupervisorFault.feedback_mismatch,
    trip-WiresMatch s ActuatorSupervisorFault.feedback_unavailable,
  )

  permit-WiresMatch :
      (s : Supervisor (List Command)) (permitted : Bool)
      → WiresMatch s
      → WiresMatch (record s { hardware_start_permitted = permitted })
  permit-WiresMatch s permitted h = ground arith

  check_limits-WiresMatch :
      (s : Supervisor (List Command)) (now_ms : ℕ) (permitted : Bool) (f : ActuatorFeedback)
      → WiresMatch s
      → WiresMatch (check_limits device s now_ms permitted f)
  unfolding check_limits
  check_limits-WiresMatch s now_ms permitted f h =
      let s1 = record s { hardware_start_permitted = permitted } in
      ground (
        arith,
        trip-WiresMatch s1 ActuatorSupervisorFault.hardware_interlock_lost,
        trip-WiresMatch s1 ActuatorSupervisorFault.watchdog_expired,
        trip-WiresMatch s1 ActuatorSupervisorFault.starter_timeout,
        check_feedback-WiresMatch s1 now_ms f (permit-WiresMatch s permitted h),
      )

  -- After a command, whatever the driver answers.
  pub call-WiresMatch :
      (s : Supervisor (List Command)) (k : Call) → WiresMatch s → WiresMatch (call device s k)
  unfolding call heartbeat poll reset_fault enable_ignition engage_starter disengage_starter
      release_remote_control secure_outputs
  call-WiresMatch s (calls_heartbeat now_ms) h =
      let s1 = (observe_clock device s now_ms).0 in
      ground (
        arith,
        observe_clock-WiresMatch s now_ms h,
        trip-WiresMatch s1 ActuatorSupervisorFault.watchdog_expired,
      )
  call-WiresMatch s (calls_poll now_ms permitted f) h =
      let s1 = (observe_clock device s now_ms).0 in
      let h1 = observe_clock-WiresMatch s now_ms h in
      ground (arith, h1, check_limits-WiresMatch s1 now_ms permitted f h1)
  call-WiresMatch s (calls_reset_fault now_ms f) h =
      let s1 = (observe_clock device s now_ms).0 in
      ground (
        arith,
        observe_clock-WiresMatch s now_ms h,
        safe-WiresMatch s1,
        safe-WiresMatch (record s1 { fault = ActuatorSupervisorFault.invalid_configuration }),
      )
  call-WiresMatch s calls_enable_ignition h =
      let s1 = (can_energize device s).0 in
      ground (
        arith,
        can_energize-WiresMatch s h,
        trip-WiresMatch (record s1 { downstream = ignition_on ∷ s1.downstream })
            ActuatorSupervisorFault.driver_failure,
      )
  call-WiresMatch s calls_engage_starter h =
      let s1 = (can_energize device s).0 in
      ground (
        arith,
        can_energize-WiresMatch s h,
        trip-WiresMatch s1 ActuatorSupervisorFault.command_sequence,
        trip-WiresMatch (record s1 { downstream = starter_on ∷ s1.downstream })
            ActuatorSupervisorFault.driver_failure,
      )
  call-WiresMatch s calls_disengage_starter h = ground (
    arith,
    trip-WiresMatch (record s { downstream = starter_off ∷ s.downstream })
        ActuatorSupervisorFault.driver_failure,
  )
  call-WiresMatch s calls_release_remote_control h =
      let s1 = (can_energize device s).0 in
      ground (
        arith,
        can_energize-WiresMatch s h,
        trip-WiresMatch s1 ActuatorSupervisorFault.command_sequence,
        trip-WiresMatch (record s1 { downstream = remote_release ∷ s1.downstream })
            ActuatorSupervisorFault.driver_failure,
      )
  call-WiresMatch s calls_secure_outputs h = ground (arith, safe-WiresMatch s)

  calls-WiresMatch_from :
      (s : Supervisor (List Command)) (ks : List Call)
      → WiresMatch s
      → WiresMatch (calls device s ks)
  unfolding calls
  calls-WiresMatch_from s [] h = h
  calls-WiresMatch_from s (k ∷ ks) h =
      calls-WiresMatch_from (call device s k) ks (call-WiresMatch s k h)

  pub new_supervisor-WiresMatch :
      (c : ActuatorSafetyConfig) → WiresMatch (new_supervisor device [] c)
  unfolding new_supervisor safe_downstream
  new_supervisor-WiresMatch c = ground arith

  -- After any calls, whatever the driver answers, the commands sent to the driver leave the
  -- ignition and the starter on exactly where the supervisor says that they are commanded.
  pub calls-WiresMatch :
      (c : ActuatorSafetyConfig) (ks : List Call)
      → WiresMatch (calls device (new_supervisor device [] c) ks)
  calls-WiresMatch c ks =
      calls-WiresMatch_from (new_supervisor device [] c) ks (new_supervisor-WiresMatch c)
