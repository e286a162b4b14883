-- ===== src/Supervisor/Runs.antt =====
-- The supervisor under any sequence of calls.
use bmw_e9x_remote_control.Common.{ℕ, ◌≡◌, Bool, true, false, List, [], ◌∷◌, arith}
use bmw_e9x_remote_control.Ports.{ActuatorPort}
use bmw_e9x_remote_control.Supervisor.Types.{
  ActuatorFeedback, ActuatorSafetyConfig, ActuatorSupervisorFault, is_none, Supervisor,
}
use bmw_e9x_remote_control.Supervisor.Device.{
  heartbeat, poll, reset_fault, trip, observe_clock, can_energize, safe_downstream,
}
use bmw_e9x_remote_control.Supervisor.Commands.{
  enable_ignition, engage_starter, disengage_starter, release_remote_control, secure_outputs,
  new_supervisor,
}
use bmw_e9x_remote_control.Supervisor.Invariant.{
  IsSafe, OutputsOff, heartbeat-IsSafe, poll-IsSafe, reset_fault-IsSafe, enable_ignition-IsSafe,
  engage_starter-IsSafe, disengage_starter-IsSafe, release_remote_control-IsSafe,
  secure_outputs-IsSafe, new_supervisor-IsSafe,
}

-- One call of the supervisor, by its owner or by the runtime.
pub data Call : Type 0 where
  calls_heartbeat : ℕ → Call
  calls_poll : ℕ → Bool → ActuatorFeedback → Call
  calls_reset_fault : ℕ → ActuatorFeedback → Call
  calls_enable_ignition calls_engage_starter calls_disengage_starter : Call
  calls_release_remote_control calls_secure_outputs : Call

module _ (driver : ActuatorPort) where
  unfoldable pub call : Supervisor driver.State → Call → Supervisor driver.State
  call s (calls_heartbeat now_ms) = (heartbeat driver s now_ms).0
  call s (calls_poll now_ms permitted f) = poll driver s now_ms permitted f
  call s (calls_reset_fault now_ms f) = (reset_fault driver s now_ms f).0
  call s calls_enable_ignition = (enable_ignition driver s).0
  call s calls_engage_starter = (engage_starter driver s).0
  call s calls_disengage_starter = (disengage_starter driver s).0
  call s calls_release_remote_control = (release_remote_control driver s).0
  call s calls_secure_outputs = (secure_outputs driver s).0

  pub call-IsSafe : (s : Supervisor driver.State) (k : Call) → IsSafe s → IsSafe (call s k)
  unfolding call
  call-IsSafe s (calls_heartbeat now_ms) h = heartbeat-IsSafe driver s now_ms h
  call-IsSafe s (calls_poll now_ms permitted f) h = poll-IsSafe driver s now_ms permitted f h
  call-IsSafe s (calls_reset_fault now_ms f) h = reset_fault-IsSafe driver s now_ms f h
  call-IsSafe s calls_enable_ignition h = enable_ignition-IsSafe driver s h
  call-IsSafe s calls_engage_starter h = engage_starter-IsSafe driver s h
  call-IsSafe s calls_disengage_starter h = disengage_starter-IsSafe driver s h
  call-IsSafe s calls_release_remote_control h = release_remote_control-IsSafe driver s h
  call-IsSafe s calls_secure_outputs h = secure_outputs-IsSafe driver s h

  unfoldable pub calls : Supervisor driver.State → List Call → Supervisor driver.State
  calls s [] = s
  calls s (k ∷ ks) = calls (call s k) ks

  calls-IsSafe_from :
      (s : Supervisor driver.State) (ks : List Call) → IsSafe s → IsSafe (calls s ks)
  unfolding calls
  calls-IsSafe_from s [] h = h
  calls-IsSafe_from s (k ∷ ks) h = calls-IsSafe_from (call s k) ks (call-IsSafe s k h)

  -- After any calls, whatever the driver answers: a supervisor with a fault, or not initialised,
  -- holds both outputs off, and the starter is commanded only with the ignition.
  pub calls-IsSafe :
      (d : driver.State) (c : ActuatorSafetyConfig) (ks : List Call)
      → IsSafe (calls (new_supervisor driver d c) ks)
  calls-IsSafe d c ks =
      calls-IsSafe_from (new_supervisor driver d c) ks (new_supervisor-IsSafe driver d c)

abbrev pub is_reset : Call → Bool
is_reset (calls_reset_fault now_ms f) = true
is_reset _ = false

-- None of the calls is a reset of the fault.
abbrev pub NoReset : List Call → Type 0
NoReset [] = Unit {0}
NoReset (k ∷ ks) = (is_reset k ≡ false) × NoReset ks

module _ (driver : ActuatorPort) where
  trip-faulted :
      (s : Supervisor driver.State) (f : ActuatorSupervisorFault)
      → is_none s.fault ≡ false
      → is_none (trip driver s f).fault ≡ false
  unfolding trip safe_downstream
  trip-faulted s f h = ground arith

  observe_clock-faulted :
      (s : Supervisor driver.State) (now_ms : ℕ)
      → is_none s.fault ≡ false
      → is_none (observe_clock driver s now_ms).0.fault ≡ false
  unfolding observe_clock
  observe_clock-faulted s now_ms h =
      ground (arith, trip-faulted s ActuatorSupervisorFault.clock_regression h)

  can_energize-faulted :
      (s : Supervisor driver.State)
      → is_none s.fault ≡ false
      → (is_none (can_energize driver s).0.fault ≡ false) × ((can_energize driver s).1 ≡ false)
  unfolding can_energize
  can_energize-faulted s h =
      ground (arith, trip-faulted s ActuatorSupervisorFault.initialization_failure h)

  call-faulted :
      (s : Supervisor driver.State) (k : Call)
      → is_reset k ≡ false
      → is_none s.fault ≡ false
      → is_none (call driver s k).fault ≡ false
  unfolding call heartbeat poll enable_ignition engage_starter disengage_starter
      release_remote_control secure_outputs safe_downstream
  call-faulted s (calls_heartbeat now_ms) r h = ground (arith, observe_clock-faulted s now_ms h)
  call-faulted s (calls_poll now_ms permitted f) r h =
      ground (arith, observe_clock-faulted s now_ms h)
  call-faulted s (calls_reset_fault now_ms f) r h = cc
  call-faulted s calls_enable_ignition r h = ground (arith, can_energize-faulted s h)
  call-faulted s calls_engage_starter r h = ground (arith, can_energize-faulted s h)
  call-faulted s calls_disengage_starter r h = ground (
    arith,
    trip-faulted (record s { downstream = (driver.disengage_starter s.downstream).0 })
        ActuatorSupervisorFault.driver_failure h,
  )
  call-faulted s calls_release_remote_control r h = ground (arith, can_energize-faulted s h)
  call-faulted s calls_secure_outputs r h = ground arith

  calls-faulted :
      (s : Supervisor driver.State) (ks : List Call)
      → NoReset ks
      → is_none s.fault ≡ false
      → is_none (calls driver s ks).fault ≡ false
  unfolding calls
  calls-faulted s [] r h = h
  calls-faulted s (k ∷ ks) r h = calls-faulted (call driver s k) ks r.1 (call-faulted s k r.0 h)

  -- Once a supervisor that is safe has recorded a fault, its outputs are off after any calls but a
  -- reset of the fault, and every request to energise an output or to release control is refused.
  pub fault_latches :
      (s : Supervisor driver.State) (ks : List Call)
      → IsSafe s
      → is_none s.fault ≡ false
      → NoReset ks
      → let s' = calls driver s ks in
        OutputsOff s'
        × ((enable_ignition driver s').1 ≡ false)
        × ((engage_starter driver s').1 ≡ false)
        × ((release_remote_control driver s').1 ≡ false)
  unfolding enable_ignition engage_starter release_remote_control
  fault_latches s ks safe h r =
      let f = calls-faulted s ks r h in
      let off = (calls-IsSafe_from driver s ks safe).faulted_off f in
      let e = can_energize-faulted (calls driver s ks) f in
      (off, ground (arith, e), ground (arith, e), ground (arith, e))
