-- ===== src/Runtime/Safing.antt =====
-- The commands that reach the ports, against the controller's state.
use bmw_e9x_remote_control.Common.{
  ℕ, ◌≡◌, if◌then◌else◌, ◌∙◌, refl, sym, ap, Bool, true, false, Option, List, [], ◌∷◌, arith,
}
use bmw_e9x_remote_control.Domain.{VehicleState}
use bmw_e9x_remote_control.Controller.Types.{
  ControllerState, FaultCode, Event, ActionType, Action, Decision, Controller,
  infrastructure_failure_event,
}
use bmw_e9x_remote_control.Controller.Handler.{handle, failure_code}
use bmw_e9x_remote_control.Controller.Outputs.{
  apply_actions, outputs_of, handle-outputs, handle-decision,
}
use bmw_e9x_remote_control.Ports.{VehicleGateway}
use bmw_e9x_remote_control.Supervisor.Wiring.{Command, recorder}
use bmw_e9x_remote_control.Journal.Records.{record_infrastructure_failure}
use bmw_e9x_remote_control.Runtime.Execution.{
  timer_recorder, commanded, execute-commanded, execute-controller, take_turn_lem,
}
use bmw_e9x_remote_control.Runtime.Dispatch.{
  Runtime, is_no_fault, with_journal, execute, safe_type, execute_safing, take_turn, fail_safe,
  dispatch,
}

outputs_in_fault :
    (c : Controller)
    → c.state ≡ ControllerState.fault
    → outputs_of c ≡ record { ignition = false; starter = false; timer = Option.none }
outputs_in_fault c h = rw h

module _ (G : VehicleGateway) (obeys : List Command → Bool) (keeps : List (Option ℕ) → Bool) where
  abbrev Machine : Type 0
  Machine = Runtime G.State (List Command) (List (Option ℕ))

  failure_actions :
      (c : Controller) (code : FaultCode) (v : VehicleState)
      → let t = handle c (infrastructure_failure_event code) v in
        (t.decision.actions
          ≡ record { type = ActionType.cancel_timer; duration_ms = 0 }
            ∷ record { type = ActionType.disengage_starter; duration_ms = 0 }
            ∷ record { type = ActionType.secure_outputs; duration_ms = 0 }
            ∷ record { type = ActionType.notify_fault; duration_ms = 0 }
            ∷ [])
        × (t.controller.state ≡ ControllerState.fault)
        × (t.controller.fault ≡ failure_code code)
  unfolding handle
  failure_actions c code v = ground arith

  abbrev safing_actions : List Action
  safing_actions =
      record { type = ActionType.cancel_timer; duration_ms = 0 }
      ∷ record { type = ActionType.disengage_starter; duration_ms = 0 }
      ∷ record { type = ActionType.secure_outputs; duration_ms = 0 }
      ∷ record { type = ActionType.notify_fault; duration_ms = 0 }
      ∷ []

  execute_safing_lem :
      (r : Machine) (d : Decision) (timestamp_ms : ℕ)
      → let r' =
          execute_safing G
            (recorder obeys)
            (timer_recorder keeps)
            safing_actions
            r
            d
            timestamp_ms in
        (commanded G obeys keeps r'
          ≡ record { ignition = false; starter = false; timer = Option.none })
        × (r'.controller ≡ r.controller)
  unfolding execute_safing safe_type
  execute_safing_lem r d timestamp_ms = ground arith

  execute_safing_from :
      (actions : List Action) (r : Machine) (d : Decision) (timestamp_ms : ℕ)
      → actions ≡ safing_actions
      → let r' =
          execute_safing G (recorder obeys) (timer_recorder keeps) actions r d timestamp_ms in
        (commanded G obeys keeps r'
          ≡ record { ignition = false; starter = false; timer = Option.none })
        × (r'.controller ≡ r.controller)
  execute_safing_from actions r d timestamp_ms h = rw h (execute_safing_lem r d timestamp_ms)

  -- The whole of `fail_safe`: the controller is in the fault state, with the failure as its fault,
  -- and every output is off.
  pub fail_safe_lem :
      (r : Machine) (e : Event) (d : Decision) (code : FaultCode) (v : VehicleState)
      (timestamp_ms : ℕ)
      → let r' =
          (fail_safe G (recorder obeys) (timer_recorder keeps) r e d code v timestamp_ms).0 in
        (commanded G obeys keeps r'
          ≡ record { ignition = false; starter = false; timer = Option.none })
        × (r'.controller.state ≡ ControllerState.fault)
        × (r'.controller.fault ≡ failure_code code)
  unfolding fail_safe
  fail_safe_lem r e d code v timestamp_ms =
      let failure = infrastructure_failure_event code in
      let (emitted, in_fault, reported) = failure_actions r.controller code v in
      let r1 =
        with_journal G (recorder obeys) (timer_recorder keeps) r
          λ j. record_infrastructure_failure j e.type d.state code timestamp_ms in
      let (_, turned) = take_turn_lem G obeys keeps r1 failure v timestamp_ms in
      let fault_decision = (handle r1.controller failure v).decision in
      let r2 = take_turn G (recorder obeys) (timer_recorder keeps) r1 failure v timestamp_ms in
      let (off, kept) =
        execute_safing_from fault_decision.actions r2 fault_decision timestamp_ms emitted in
      let same = kept ∙ turned in
      (off, ap (λ c. c.state) same ∙ in_fault, ap (λ c. c.fault) same ∙ reported)

  pub fail_safe-decision :
      (r : Machine) (e : Event) (d : Decision) (code : FaultCode) (v : VehicleState)
      (timestamp_ms : ℕ)
      → let reported =
          (fail_safe G (recorder obeys) (timer_recorder keeps) r e d code v timestamp_ms).1 in
        (reported.state ≡ ControllerState.fault) × (reported.fault ≡ failure_code code)
  unfolding fail_safe
  fail_safe-decision r e d code v timestamp_ms =
      let failure = infrastructure_failure_event code in
      let (_, in_fault, reported) = failure_actions r.controller code v in
      let (_, _, _, as_state, as_fault, _, _, _) = handle-decision r.controller failure v in
      (as_state ∙ in_fault, as_fault ∙ reported)

  -- `fail_safe` leaves the outputs as its controller's state demands.
  fail_safe-commanded :
      (r : Machine) (e : Event) (d : Decision) (code : FaultCode) (v : VehicleState)
      (timestamp_ms : ℕ)
      → let r' =
          (fail_safe G (recorder obeys) (timer_recorder keeps) r e d code v timestamp_ms).0 in
        commanded G obeys keeps r' ≡ outputs_of r'.controller
  fail_safe-commanded r e d code v timestamp_ms =
      let r' = (fail_safe G (recorder obeys) (timer_recorder keeps) r e d code v timestamp_ms).0 in
      let (off, in_fault, reported) = fail_safe_lem r e d code v timestamp_ms in
      off ∙ sym (outputs_in_fault r'.controller in_fault)

  -- A property of both ends of `dispatch` is one of its result.
  dispatch_ends :
      (P : Machine × Decision → Type 0) (code : FaultCode) (r2 : Machine) (d : Decision)
      (failed : Machine × Decision)
      → (is_no_fault code ≡ true → P (r2, d))
      → (is_no_fault code ≡ false → P failed)
      → P (if is_no_fault code then (r2, d) else failed)
  dispatch_ends P FaultCode.none r2 d failed good bad = good refl
  dispatch_ends P _ r2 d failed good bad = bad refl

  -- Whatever the ports answer, `dispatch` leaves the outputs and the timer, as the commands sent
  -- set them, as the state of its controller demands, if they were so before.
  pub dispatch-commanded :
      (r : Machine) (e : Event) (v : VehicleState) (timestamp_ms : ℕ)
      → commanded G obeys keeps r ≡ outputs_of r.controller
      → let r' = (dispatch G (recorder obeys) (timer_recorder keeps) r e v timestamp_ms).0 in
        commanded G obeys keeps r' ≡ outputs_of r'.controller
  unfolding dispatch
  dispatch-commanded r e v timestamp_ms h =
      let t = handle r.controller e v in
      let r1 = take_turn G (recorder obeys) (timer_recorder keeps) r e v timestamp_ms in
      let (as_before, turned) = take_turn_lem G obeys keeps r e v timestamp_ms in
      let (r2, code) =
        execute G (recorder obeys) (timer_recorder keeps) t.decision.actions r1 t.decision in
      let kept = execute-controller G obeys keeps t.decision.actions r1 t.decision ∙ turned in
      dispatch_ends (λ result. commanded G obeys keeps result.0 ≡ outputs_of result.0.controller)
        code r2 t.decision
        (fail_safe G (recorder obeys) (timer_recorder keeps) r2 e t.decision code v timestamp_ms)
        (λ fine.
          execute-commanded G obeys keeps t.decision.actions r1 t.decision fine
          ∙ ap (λ o. apply_actions o t.decision.actions) (as_before ∙ h)
          ∙ handle-outputs r.controller e v
          ∙ sym (ap outputs_of kept))
        (λ failed. fail_safe-commanded r2 e t.decision code v timestamp_ms)
