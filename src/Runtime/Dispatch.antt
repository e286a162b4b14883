-- ===== src/Runtime/Dispatch.antt =====
-- `Runtime`, over any ports. What is published to the notification sink, whose calls return
-- nothing, is kept as a list, newest first.
use bmw_e9x_remote_control.Common.{ℕ, Bool, true, false, Option, some, List, [], ◌∷◌, if◌then◌else◌}
use bmw_e9x_remote_control.Domain.{VehicleState}
use bmw_e9x_remote_control.Safety.{SafetyAssessment}
use bmw_e9x_remote_control.Readiness.{ProfileReadinessAssessment}
use bmw_e9x_remote_control.Controller.Types.{
  ControllerState, FaultCode, Event, ActionType, Action, Decision, Controller,
  infrastructure_failure_event,
}
use bmw_e9x_remote_control.Controller.Handler.{handle}
use bmw_e9x_remote_control.Ports.{VehicleGateway, ActuatorPort, TimerPort}
use bmw_e9x_remote_control.Journal.Ring.{DiagnosticJournal}
use bmw_e9x_remote_control.Journal.Records.{
  observe, record_infrastructure_failure, record_safing_failure,
}

-- The arguments of `NotificationSink::publish`.
pub record Notification : Type 0 where
  pub notification : ActionType
  pub state : ControllerState
  pub fault : FaultCode
  pub safety : SafetyAssessment
  pub profile_readiness : ProfileReadinessAssessment

-- The members of `Runtime`; `journal` is `none` where the pointer is null.
pub record Runtime (G A T : Type 0) : Type 0 where
  pub controller : Controller
  pub gateway : G
  pub actuators : A
  pub timer : T
  pub published : List Notification
  pub journal : Option DiagnosticJournal

abbrev pub is_no_fault : FaultCode → Bool
is_no_fault FaultCode.none = true
is_no_fault _ = false

-- `answer ? FaultCode::None : fault`.
abbrev pub code_unless : Bool → FaultCode → FaultCode
code_unless answer fault = if answer then FaultCode.none else fault

module _ (G : VehicleGateway) (A : ActuatorPort) (T : TimerPort) where
  abbrev Machine : Type 0
  Machine = Runtime G.State A.State T.State

  -- `if (diagnosticJournal_ != nullptr) …`.
  abbrev pub with_journal : Machine → (DiagnosticJournal → DiagnosticJournal) → Machine
  with_journal r write = record r {
    journal = elim r.journal [ Option.none ↦ Option.none | some j ↦ some (write j) ];
  }

  abbrev pub publish : Machine → ActionType → Decision → Machine
  publish r type d = record r {
    published =
        record {
          notification = type;
          state = d.state;
          fault = d.fault;
          safety = d.safety;
          profile_readiness = d.profile_readiness;
        }
        ∷ r.published;
  }

  -- A call of the actuator port.
  abbrev pub actuate : Machine → A.State × Bool → Machine × FaultCode
  actuate r (a, answer) =
      (record r { actuators = a }, code_unless answer FaultCode.actuator_failure)

  abbrev pub operate_timer : Machine → T.State × Bool → Machine × FaultCode
  operate_timer r (t, answer) = (record r { timer = t }, code_unless answer FaultCode.timer_failure)

  abbrev pub ask_gateway : Machine → G.State × Bool → Machine × FaultCode
  ask_gateway r (g, answer) =
      (record r { gateway = g }, code_unless answer FaultCode.vehicle_communication)

  -- `executeAction`: the `switch` on the type of the action.
  unfoldable pub execute_type : ActionType → ℕ → Machine → Decision → Machine × FaultCode
  execute_type ActionType.request_vehicle_state ms r d = ask_gateway r (G.request_state r.gateway)
  execute_type ActionType.enable_ignition ms r d = actuate r (A.enable_ignition r.actuators)
  execute_type ActionType.engage_starter ms r d = actuate r (A.engage_starter r.actuators)
  execute_type ActionType.disengage_starter ms r d = actuate r (A.disengage_starter r.actuators)
  execute_type ActionType.release_remote_control ms r d =
      actuate r (A.release_remote_control r.actuators)
  execute_type ActionType.secure_outputs ms r d = actuate r (A.secure_outputs r.actuators)
  execute_type ActionType.arm_timer ms r d = operate_timer r (T.arm ms r.timer)
  execute_type ActionType.cancel_timer ms r d = operate_timer r (T.cancel r.timer)
  execute_type type ms r d = (publish r type d, FaultCode.none)

  -- `execute`: the loop over the actions, which stops at the first fault.
  unfoldable pub execute : List Action → Machine → Decision → Machine × FaultCode
  execute [] r d = (r, FaultCode.none)
  execute (a ∷ rest) r d =
      let r1 = (execute_type a.type a.duration_ms r d).0 in
      let code = (execute_type a.type a.duration_ms r d).1 in
      let later = execute rest r1 d in if is_no_fault code then later else (r1, code)

  abbrev note_failure : Machine → Bool → Decision → FaultCode → ℕ → Machine
  note_failure r answer d code timestamp_ms =
      if answer then r else with_journal r λ j. record_safing_failure j d.state code timestamp_ms

  -- `executeSafing`: a failing port is recorded, and the next action follows.
  unfoldable pub safe_type : ActionType → Machine → Decision → ℕ → Machine
  safe_type ActionType.cancel_timer r d timestamp_ms =
      let (t, answer) = T.cancel r.timer in
      note_failure (record r { timer = t }) answer d FaultCode.timer_failure timestamp_ms
  safe_type ActionType.disengage_starter r d timestamp_ms =
      let (a, answer) = A.disengage_starter r.actuators in
      note_failure (record r { actuators = a }) answer d FaultCode.actuator_failure timestamp_ms
  safe_type ActionType.secure_outputs r d timestamp_ms =
      let (a, answer) = A.secure_outputs r.actuators in
      note_failure (record r { actuators = a }) answer d FaultCode.actuator_failure timestamp_ms
  safe_type ActionType.notify_fault r d timestamp_ms = publish r ActionType.notify_fault d
  safe_type _ r d timestamp_ms = r

  unfoldable pub execute_safing : List Action → Machine → Decision → ℕ → Machine
  execute_safing [] r d timestamp_ms = r
  execute_safing (a ∷ rest) r d timestamp_ms =
      execute_safing rest (safe_type a.type r d timestamp_ms) d timestamp_ms

  -- The controller's turn, and its record in the journal.
  unfoldable pub take_turn : Machine → Event → VehicleState → ℕ → Machine
  take_turn r e v timestamp_ms =
      let t = handle r.controller e v in
      with_journal (record r { controller = t.controller }) λ j. observe j e t.decision timestamp_ms

  -- The second half of `dispatch`, once an action has failed.
  unfoldable pub fail_safe :
      Machine → Event → Decision → FaultCode → VehicleState → ℕ → Machine × Decision
  fail_safe r e d code v timestamp_ms =
      let r1 =
        with_journal r λ j. record_infrastructure_failure j e.type d.state code timestamp_ms in
      let failure = infrastructure_failure_event code in
      let fault_decision = (handle r1.controller failure v).decision in
      let r2 = take_turn r1 failure v timestamp_ms in
      (execute_safing fault_decision.actions r2 fault_decision timestamp_ms, fault_decision)

  -- `dispatch`, with the decision that it returns.
  unfoldable pub dispatch : Machine → Event → VehicleState → ℕ → Machine × Decision
  dispatch r e v timestamp_ms =
      let d = (handle r.controller e v).decision in
      let r1 = take_turn r e v timestamp_ms in
      let (r2, code) = execute d.actions r1 d in
      if is_no_fault code then (r2, d) else fail_safe r2 e d code v timestamp_ms
