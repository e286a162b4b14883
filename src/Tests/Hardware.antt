-- ===== src/Tests/Hardware.antt =====
-- The supervisor on a driver that obeys.
use bmw_e9x_remote_control.Common.{
  ◌≤◌, ◌≡◌, ◌↔◌, refl, Bool, true, false, List, [], ◌∷◌, sub32, strictly_newer, arith,
}
use bmw_e9x_remote_control.Ports.{ActuatorPort}
use bmw_e9x_remote_control.Supervisor.Types.{
  ActuatorFeedback, ActuatorSupervisorFault, Supervisor, default_config,
}
use bmw_e9x_remote_control.Supervisor.Device.{
  poll, outputs_active, observe_clock, check_limits, check_feedback,
}
use bmw_e9x_remote_control.Supervisor.Commands.{
  new_supervisor, enable_ignition, engage_starter, release_remote_control,
}
use bmw_e9x_remote_control.Supervisor.Invariant.{IsSafe, OutputsOff}
use bmw_e9x_remote_control.Supervisor.Runs.{
  Call, calls_heartbeat, calls_poll, calls_enable_ignition, calls_engage_starter, calls,
  calls-IsSafe, fault_latches,
}
use bmw_e9x_remote_control.Supervisor.Guards.{MayEngage, engage_starter_iff, poll_active}
use bmw_e9x_remote_control.Supervisor.Wiring.{Command, recorder, WiresMatch, calls-WiresMatch}

abbrev obedient : ActuatorPort
obedient = recorder λ log. true

abbrev feedback_of : Bool → Bool → ActuatorFeedback
feedback_of ignition starter = record {
  available = true;
  ignition_active = ignition;
  starter_active = starter;
}

-- A heartbeat, permission, the ignition, and the starter once the ignition is confirmed.
abbrev cranks : List Call
cranks =
    calls_heartbeat 1000
    ∷ calls_poll 1000 true (feedback_of false false)
    ∷ calls_enable_ignition
    ∷ calls_poll 1200 true (feedback_of true false)
    ∷ calls_engage_starter
    ∷ []

abbrev fresh_supervisor : Supervisor (List Command)
fresh_supervisor = new_supervisor obedient [] default_config

abbrev cranking : Supervisor (List Command)
cranking = calls obedient fresh_supervisor cranks

calls-IsSafe_example : IsSafe cranking
calls-IsSafe_example = calls-IsSafe obedient [] default_config cranks

calls-WiresMatch_example : WiresMatch cranking
calls-WiresMatch_example = calls-WiresMatch (λ log. true) default_config cranks

engage_starter_iff_example :
    ((engage_starter obedient cranking).1 ≡ true)
    ↔ (MayEngage cranking × ((obedient.engage_starter cranking.downstream).1 ≡ true))
engage_starter_iff_example = engage_starter_iff obedient cranking

-- The supervisor while it cranks, written out.
abbrev cranking_now : Supervisor (List Command)
cranking_now = record {
  downstream = [];
  config = default_config;
  fault = ActuatorSupervisorFault.none;
  last_observed_ms = 1200;
  last_heartbeat_ms = 1000;
  starter_engaged_at_ms = 1200;
  last_output_change_ms = 1200;
  initialized = true;
  clock_initialized = true;
  heartbeat_initialized = true;
  hardware_start_permitted = true;
  ignition_commanded = true;
  starter_commanded = true;
  ignition_feedback_confirmed = true;
  safing_failed = false;
}

cranking_now-IsSafe : IsSafe cranking_now
cranking_now-IsSafe = ground arith

still_active :
    outputs_active obedient (poll obedient cranking_now 1400 true (feedback_of true true)) ≡ true
unfolding poll observe_clock check_limits check_feedback strictly_newer mathlib.Core.Bool.xor
still_active = refl

poll_active_example :
    let s' = poll obedient cranking_now 1400 true (feedback_of true true) in
    (true ≡ true)
    × (sub32 1400 s'.last_heartbeat_ms ≤ s'.config.watchdog_timeout_ms)
    × (s'.starter_commanded ≡ true
        → sub32 1400 s'.starter_engaged_at_ms ≤ s'.config.maximum_starter_active_ms)
poll_active_example =
    poll_active obedient cranking_now 1400 true (feedback_of true true) cranking_now-IsSafe
      still_active

abbrev tripped : Supervisor (List Command)
tripped = record cranking_now {
  fault = ActuatorSupervisorFault.watchdog_expired;
  ignition_commanded = false;
  starter_commanded = false;
  ignition_feedback_confirmed = false;
}

tripped-IsSafe : IsSafe tripped
tripped-IsSafe = ground arith

fault_latches_example :
    let s' = calls obedient tripped cranks in
    OutputsOff s'
    × ((enable_ignition obedient s').1 ≡ false)
    × ((engage_starter obedient s').1 ≡ false)
    × ((release_remote_control obedient s').1 ≡ false)
fault_latches_example =
    fault_latches obedient tripped cranks tripped-IsSafe refl
      (refl, (refl, (refl, (refl, (refl, tt)))))
