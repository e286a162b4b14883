-- ===== src/Runtime/Supervised.antt =====
-- The runtime with the supervisor as its actuator port: what the port keeps, `dispatch` keeps.
use bmw_e9x_remote_control.Common.{ℕ, Bool, List, [], ◌∷◌, if-either}
use bmw_e9x_remote_control.Domain.{VehicleState}
use bmw_e9x_remote_control.Controller.Types.{
  ActionType, Action, Event, Decision, FaultCode, infrastructure_failure_event,
}
use bmw_e9x_remote_control.Controller.Handler.{handle}
use bmw_e9x_remote_control.Journal.Records.{record_infrastructure_failure}
use bmw_e9x_remote_control.Ports.{VehicleGateway, ActuatorPort, TimerPort}
use bmw_e9x_remote_control.Supervisor.Types.{Supervisor}
use bmw_e9x_remote_control.Supervisor.Commands.{supervised}
use bmw_e9x_remote_control.Supervisor.Invariant.{IsSafe}
use bmw_e9x_remote_control.Supervisor.Runs.{
  call, call-IsSafe, calls_enable_ignition, calls_engage_starter, calls_disengage_starter,
  calls_release_remote_control, calls_secure_outputs,
}
use bmw_e9x_remote_control.Supervisor.Wiring.{Command, recorder, WiresMatch, call-WiresMatch}
use bmw_e9x_remote_control.Runtime.Dispatch.{
  Runtime, with_journal, execute_type, execute, safe_type, execute_safing, take_turn, fail_safe,
  dispatch,
}

-- Every command of the port keeps a property of its state.
pub record Preserves (A : ActuatorPort) (Q : A.State → Type 0) : Type 0 where
  pub ignition : (s : A.State) → Q s → Q (A.enable_ignition s).0
  pub engaging : (s : A.State) → Q s → Q (A.engage_starter s).0
  pub disengaging : (s : A.State) → Q s → Q (A.disengage_starter s).0
  pub release : (s : A.State) → Q s → Q (A.release_remote_control s).0
  pub securing : (s : A.State) → Q s → Q (A.secure_outputs s).0

module _ (G : VehicleGateway) (A : ActuatorPort) (T : TimerPort) (Q : A.State → Type 0)
    (p : Preserves A Q) where
  abbrev Machine : Type 0
  Machine = Runtime G.State A.State T.State

  execute_type-keeps :
      (type : ActionType) (ms : ℕ) (r : Machine) (d : Decision)
      → Q r.actuators
      → Q (execute_type G A T type ms r d).0.actuators
  unfolding execute_type
  execute_type-keeps ActionType.enable_ignition ms r d h = p.ignition r.actuators h
  execute_type-keeps ActionType.engage_starter ms r d h = p.engaging r.actuators h
  execute_type-keeps ActionType.disengage_starter ms r d h = p.disengaging r.actuators h
  execute_type-keeps ActionType.release_remote_control ms r d h = p.release r.actuators h
  execute_type-keeps ActionType.secure_outputs ms r d h = p.securing r.actuators h
  execute_type-keeps _ ms r d h = h

  execute-keeps :
      (actions : List Action) (r : Machine) (d : Decision)
      → Q r.actuators
      → Q (execute G A T actions r d).0.actuators
  unfolding execute
  execute-keeps [] r d h = h
  execute-keeps (a ∷ rest) r d h =
      let h1 = execute_type-keeps a.type a.duration_ms r d h in
      if-either (λ (x : Machine × FaultCode). Q x.0.actuators) _
        (execute-keeps rest (execute_type G A T a.type a.duration_ms r d).0 d h1) h1

  safe_type-keeps :
      (type : ActionType) (r : Machine) (d : Decision) (timestamp_ms : ℕ)
      → Q r.actuators
      → Q (safe_type G A T type r d timestamp_ms).actuators
  unfolding safe_type
  safe_type-keeps ActionType.cancel_timer r d timestamp_ms h =
      if-either (λ (x : Machine). Q x.actuators) _ h h
  safe_type-keeps ActionType.disengage_starter r d timestamp_ms h =
      let h1 = p.disengaging r.actuators h in if-either (λ (x : Machine). Q x.actuators) _ h1 h1
  safe_type-keeps ActionType.secure_outputs r d timestamp_ms h =
      let h1 = p.securing r.actuators h in if-either (λ (x : Machine). Q x.actuators) _ h1 h1
  safe_type-keeps _ r d timestamp_ms h = h

  execute_safing-keeps :
      (actions : List Action) (r : Machine) (d : Decision) (timestamp_ms : ℕ)
      → Q r.actuators
      → Q (execute_safing G A T actions r d timestamp_ms).actuators
  unfolding execute_safing
  execute_safing-keeps [] r d timestamp_ms h = h
  execute_safing-keeps (a ∷ rest) r d timestamp_ms h =
      execute_safing-keeps rest (safe_type G A T a.type r d timestamp_ms) d timestamp_ms
        (safe_type-keeps a.type r d timestamp_ms h)

  fail_safe-keeps :
      (r : Machine) (e : Event) (d : Decision) (code : FaultCode) (v : VehicleState)
      (timestamp_ms : ℕ)
      → Q r.actuators
      → Q (fail_safe G A T r e d code v timestamp_ms).0.actuators
  unfolding fail_safe take_turn
  fail_safe-keeps r e d code v timestamp_ms h =
      let failure = infrastructure_failure_event code in
      let r1 =
        with_journal G A T r
          λ j. record_infrastructure_failure j e.type d.state code timestamp_ms in
      let fault_decision = (handle r1.controller failure v).decision in
      execute_safing-keeps fault_decision.actions (take_turn G A T r1 failure v timestamp_ms)
        fault_decision timestamp_ms h

  -- `dispatch` keeps every property of the actuators that each command of their port keeps.
  pub dispatch-keeps :
      (r : Machine) (e : Event) (v : VehicleState) (timestamp_ms : ℕ)
      → Q r.actuators
      → Q (dispatch G A T r e v timestamp_ms).0.actuators
  unfolding dispatch take_turn
  dispatch-keeps r e v timestamp_ms h =
      let d = (handle r.controller e v).decision in
      let r1 = take_turn G A T r e v timestamp_ms in
      let h1 = execute-keeps d.actions r1 d h in
      let (r2, code) = execute G A T d.actions r1 d in
      if-either (λ (x : Machine × Decision). Q x.0.actuators) _ h1
        (fail_safe-keeps r2 e d code v timestamp_ms h1)

abbrev Guarded : Supervisor (List Command) → Type 0
Guarded s = IsSafe s × WiresMatch s

supervised-Preserves :
    (answer : List Command → Bool) → Preserves (supervised (recorder answer)) Guarded
unfolding call
supervised-Preserves answer =
    let D = recorder answer in
    record {
      ignition = λ s h. (
        call-IsSafe D s calls_enable_ignition h.0,
        call-WiresMatch answer s calls_enable_ignition h.1,
      );
      engaging = λ s h. (
        call-IsSafe D s calls_engage_starter h.0,
        call-WiresMatch answer s calls_engage_starter h.1,
      );
      disengaging = λ s h. (
        call-IsSafe D s calls_disengage_starter h.0,
        call-WiresMatch answer s calls_disengage_starter h.1,
      );
      release = λ s h. (
        call-IsSafe D s calls_release_remote_control h.0,
        call-WiresMatch answer s calls_release_remote_control h.1,
      );
      securing = λ s h. (
        call-IsSafe D s calls_secure_outputs h.0,
        call-WiresMatch answer s calls_secure_outputs h.1,
      );
    }

-- With the supervisor between the runtime and a driver that may fail at any command, `dispatch` keeps
-- the supervisor safe and keeps the wires as the supervisor says that they are commanded.
pub dispatch-supervised :
    (G : VehicleGateway) (T : TimerPort) (answer : List Command → Bool)
    (r : Runtime G.State (Supervisor (List Command)) T.State) (e : Event) (v : VehicleState)
    (timestamp_ms : ℕ)
    → IsSafe r.actuators
    → WiresMatch r.actuators
    → let s = (dispatch G (supervised (recorder answer)) T r e v timestamp_ms).0.actuators in
      IsSafe s × WiresMatch s
dispatch-supervised G T answer r e v timestamp_ms safe wires =
    dispatch-keeps G (supervised (recorder answer)) T Guarded (supervised-Preserves answer) r e v
      timestamp_ms (safe, wires)
