-- ===== src/Runtime/Outcome.antt =====
-- How `dispatch` ends, by what the ports answer.
use mathlib.Core.Path.{subst}
use bmw_e9x_remote_control.Common.{
  ℕ, ◌≡◌, ◌⊎◌, inl, inr, ◌∙◌, refl, ap, sym, Bool, true, false, if◌then◌else◌, Bool-cases, Option,
  List, [], ◌∷◌,
}
use bmw_e9x_remote_control.Domain.{VehicleState}
use bmw_e9x_remote_control.Controller.Types.{
  ControllerState, FaultCode, Event, ActionType, Action, Decision,
}
use bmw_e9x_remote_control.Controller.Handler.{handle, failure_code}
use bmw_e9x_remote_control.Ports.{VehicleGateway, ActuatorPort, TimerPort}
use bmw_e9x_remote_control.Supervisor.Wiring.{Command, recorder}
use bmw_e9x_remote_control.Runtime.Dispatch.{
  Runtime, is_no_fault, execute_type, execute, take_turn, dispatch,
}
use bmw_e9x_remote_control.Runtime.Execution.{
  timer_recorder, commanded, execute-controller, take_turn_lem,
}
use bmw_e9x_remote_control.Runtime.Safing.{fail_safe_lem, fail_safe-decision}

-- The states of the three ports.
pub record PortStates (G A T : Type 0) : Type 0 where
  pub gateway : G
  pub actuators : A
  pub timer : T

-- The fault that stands for a port that did not accept an action.
abbrev pub fault_of : ActionType → FaultCode
fault_of ActionType.request_vehicle_state = FaultCode.vehicle_communication
fault_of ActionType.arm_timer = FaultCode.timer_failure
fault_of ActionType.cancel_timer = FaultCode.timer_failure
fault_of _ = FaultCode.actuator_failure

module _ (G : VehicleGateway) (A : ActuatorPort) (T : TimerPort) where
  abbrev States : Type 0
  States = PortStates G.State A.State T.State

  abbrev pub ports_of : Runtime G.State A.State T.State → States
  ports_of r = record { gateway = r.gateway; actuators = r.actuators; timer = r.timer }

  abbrev by_gateway : States → G.State × Bool → States × Bool
  by_gateway p (g, answer) = (record p { gateway = g }, answer)

  abbrev by_actuators : States → A.State × Bool → States × Bool
  by_actuators p (a, answer) = (record p { actuators = a }, answer)

  abbrev by_timer : States → T.State × Bool → States × Bool
  by_timer p (t, answer) = (record p { timer = t }, answer)

  -- The call of a port that an action stands for, and the port's answer. A notification calls no port.
  abbrev pub answer_to : ActionType → ℕ → States → States × Bool
  answer_to ActionType.request_vehicle_state ms p = by_gateway p (G.request_state p.gateway)
  answer_to ActionType.enable_ignition ms p = by_actuators p (A.enable_ignition p.actuators)
  answer_to ActionType.engage_starter ms p = by_actuators p (A.engage_starter p.actuators)
  answer_to ActionType.disengage_starter ms p = by_actuators p (A.disengage_starter p.actuators)
  answer_to ActionType.release_remote_control ms p =
      by_actuators p (A.release_remote_control p.actuators)
  answer_to ActionType.secure_outputs ms p = by_actuators p (A.secure_outputs p.actuators)
  answer_to ActionType.arm_timer ms p = by_timer p (T.arm ms p.timer)
  answer_to ActionType.cancel_timer ms p = by_timer p (T.cancel p.timer)
  answer_to _ ms p = (p, true)

  -- Called one after the other, every port answers true.
  abbrev pub AllAccept : List Action → States → Type 0
  AllAccept [] p = Unit {0}
  AllAccept (a ∷ rest) p =
      ((answer_to a.type a.duration_ms p).1 ≡ true)
      × AllAccept rest (answer_to a.type a.duration_ms p).0

  -- Called one after the other, the ports answer true up to one that answers false, and `code` is
  -- the fault of that one.
  abbrev pub FailsWith : FaultCode → List Action → States → Type 0
  FailsWith code [] p = ⊥
  FailsWith code (a ∷ rest) p =
      (((answer_to a.type a.duration_ms p).1 ≡ false) × (code ≡ fault_of a.type))
      ⊎ (((answer_to a.type a.duration_ms p).1 ≡ true)
          × FailsWith code rest (answer_to a.type a.duration_ms p).0)

  -- An action's call leaves the ports as it does, and gives no fault exactly where the answer is true.
  execute_type-answer :
      (type : ActionType) (ms : ℕ) (r : Runtime G.State A.State T.State) (d : Decision)
      → let (r1, code) = execute_type G A T type ms r d in
        (ports_of r1 ≡ (answer_to type ms (ports_of r)).0)
        × (code ≡ (if (answer_to type ms (ports_of r)).1 then FaultCode.none else fault_of type))
  unfolding execute_type
  execute_type-answer ActionType.request_vehicle_state ms r d = (refl, refl)
  execute_type-answer _ ms r d = (refl, refl)

  fault_of-fault : (type : ActionType) → is_no_fault (fault_of type) ≡ false
  fault_of-fault ActionType.request_vehicle_state = refl
  fault_of-fault _ = refl

  -- How a run of actions ends, by the answers.
  abbrev Ends : FaultCode → List Action → States → Type 0
  Ends code actions p =
      ((is_no_fault code ≡ true) × AllAccept actions p)
      ⊎ ((is_no_fault code ≡ false) × FailsWith code actions p)

  -- One turn of the loop, by the answer to its action.
  execute_turn :
      (a : Action) (rest : List Action) (p : States) (code : FaultCode)
      (r1 : Runtime G.State A.State T.State) (later : Runtime G.State A.State T.State × FaultCode)
      → code ≡ (if (answer_to a.type a.duration_ms p).1 then FaultCode.none else fault_of a.type)
      → Ends later.1 rest (answer_to a.type a.duration_ms p).0
      → Ends (if is_no_fault code then later else (r1, code)).1 (a ∷ rest) p
  execute_turn a rest p code r1 later e ends =
      let P = λ (c : FaultCode). Ends (if is_no_fault c then later else (r1, c)).1 (a ∷ rest) p in
      elim (Bool-cases (answer_to a.type a.duration_ms p).1) [
        | inl accepts ↦
            let fine : code ≡ FaultCode.none = e ∙ rw accepts refl in
            subst P (sym fine) (elim ends [
              | inl (none_failed, all) ↦ inl (none_failed, (accepts, all))
              | inr (failed, which) ↦ inr (failed, inr (accepts, which))
            ])
        | inr refuses ↦
            let failed : code ≡ fault_of a.type = e ∙ rw refuses refl in
            let stop = fault_of-fault a.type in
            let left : (if is_no_fault (fault_of a.type) then later else (r1, fault_of a.type)).1
                ≡ fault_of a.type =
              rw stop refl in
            subst P (sym failed) (inr (ap is_no_fault left ∙ stop, inl (refuses, left)))
      ]

  execute-Ends :
      (actions : List Action) (r : Runtime G.State A.State T.State) (d : Decision)
      → Ends (execute G A T actions r d).1 actions (ports_of r)
  unfolding execute
  execute-Ends [] r d = inl (refl, tt)
  execute-Ends (a ∷ rest) r d =
      let r1 = (execute_type G A T a.type a.duration_ms r d).0 in
      let (ports, code) = execute_type-answer a.type a.duration_ms r d in
      execute_turn a rest (ports_of r) (execute_type G A T a.type a.duration_ms r d).1 r1
        (execute G A T rest r1 d) code
        (subst (Ends (execute G A T rest r1 d).1 rest) ports (execute-Ends rest r1 d))

  take_turn-ports :
      (r : Runtime G.State A.State T.State) (e : Event) (v : VehicleState) (timestamp_ms : ℕ)
      → ports_of (take_turn G A T r e v timestamp_ms) ≡ ports_of r
  unfolding take_turn
  take_turn-ports r e v timestamp_ms = refl

  pub execute_turn-Ends :
      (r : Runtime G.State A.State T.State) (e : Event) (v : VehicleState) (timestamp_ms : ℕ)
      → let d = (handle r.controller e v).decision in
        let code = (execute G A T d.actions (take_turn G A T r e v timestamp_ms) d).1 in
        ((is_no_fault code ≡ true) × AllAccept d.actions (ports_of r))
        ⊎ ((is_no_fault code ≡ false) × FailsWith code d.actions (ports_of r))
  execute_turn-Ends r e v timestamp_ms =
      let d = (handle r.controller e v).decision in
      let r1 = take_turn G A T r e v timestamp_ms in
      subst (Ends (execute G A T d.actions r1 d).1 d.actions) (take_turn-ports r e v timestamp_ms)
        (execute-Ends d.actions r1 d)

failure_code-fault : (code : FaultCode) → is_no_fault code ≡ false → failure_code code ≡ code
failure_code-fault FaultCode.none h = cc
failure_code-fault _ h = refl

module _ (G : VehicleGateway) (obeys : List Command → Bool) (keeps : List (Option ℕ) → Bool) where
  -- `dispatch` ends in one of two ways. Every port, called for one action of the controller's
  -- decision after the other, answered true, and the controller and the decision returned are
  -- those of `handle`. Or one answered false, and the controller is in the fault state with the
  -- fault of the first that did so, every output is commanded off, and the decision returned says
  -- so.
  pub dispatch_outcome :
      (r : Runtime G.State (List Command) (List (Option ℕ))) (e : Event) (v : VehicleState)
      (timestamp_ms : ℕ)
      → let t = handle r.controller e v in
        let p = ports_of G (recorder obeys) (timer_recorder keeps) r in
        let (r', d) = dispatch G (recorder obeys) (timer_recorder keeps) r e v timestamp_ms in
        (AllAccept G (recorder obeys) (timer_recorder keeps) t.decision.actions p
          × (r'.controller ≡ t.controller)
          × (d ≡ t.decision))
        ⊎ ((code : FaultCode) × FailsWith G
              (recorder obeys)
              (timer_recorder keeps)
              code
              t.decision.actions
              p
            × (r'.controller.state ≡ ControllerState.fault)
            × (r'.controller.fault ≡ code)
            × (commanded G obeys keeps r'
                ≡ record { ignition = false; starter = false; timer = Option.none })
            × (d.state ≡ ControllerState.fault)
            × (d.fault ≡ code))
  unfolding dispatch
  dispatch_outcome r e v timestamp_ms =
      let A = recorder obeys in
      let T = timer_recorder keeps in
      let t = handle r.controller e v in
      let r1 = take_turn G A T r e v timestamp_ms in
      let turned = (take_turn_lem G obeys keeps r e v timestamp_ms).1 in
      let (r2, code) = execute G A T t.decision.actions r1 t.decision in
      elim (execute_turn-Ends G A T r e v timestamp_ms) [
        | inl (fine, all) ↦ rw fine (
            inl (
              all,
              execute-controller G obeys keeps t.decision.actions r1 t.decision ∙ turned,
              refl,
            ))
        | inr (failed, which) ↦
            let (off, in_fault, reported) =
              fail_safe_lem G obeys keeps r2 e t.decision code v timestamp_ms in
            let (state_is, fault_is) =
              fail_safe-decision G obeys keeps r2 e t.decision code v timestamp_ms in
            let same = failure_code-fault code failed in
            rw failed (inr (code, which, in_fault, reported ∙ same, off, state_is, fault_is ∙ same))
      ]
