-- ===== src/Runtime/Execution.antt =====
-- `Runtime::execute` and the controller's turn, on ports that record their commands.
use bmw_e9x_remote_control.Common.{
  ℕ, ◌≡◌, if◌then◌else◌, ◌∙◌, refl, ap, Bool, true, Option, some, List, [], ◌∷◌, arith,
}
use bmw_e9x_remote_control.Domain.{VehicleState}
use bmw_e9x_remote_control.Controller.Types.{FaultCode, Event, ActionType, Action, Decision}
use bmw_e9x_remote_control.Controller.Handler.{handle}
use bmw_e9x_remote_control.Controller.Outputs.{Outputs, apply_action, apply_actions}
use bmw_e9x_remote_control.Ports.{VehicleGateway, TimerPort}
use bmw_e9x_remote_control.Supervisor.Wiring.{Command, recorder, ignition_wire, starter_wire}
use bmw_e9x_remote_control.Runtime.Dispatch.{Runtime, is_no_fault, execute_type, execute, take_turn}

-- A timer that records its settings, newest first, and answers by any function of them.
abbrev pub timer_recorder : (List (Option ℕ) → Bool) → TimerPort
timer_recorder answer = record {
  State = List (Option ℕ);
  arm = λ ms log. (some ms ∷ log, answer (some ms ∷ log));
  cancel = λ log. (Option.none ∷ log, answer (Option.none ∷ log));
}

abbrev pub setting : List (Option ℕ) → Option ℕ
setting [] = Option.none
setting (s ∷ log) = s

module _ (G : VehicleGateway) (obeys : List Command → Bool) (keeps : List (Option ℕ) → Bool) where
  abbrev Machine : Type 0
  Machine = Runtime G.State (List Command) (List (Option ℕ))

  -- The outputs and the timer, as the commands sent leave them.
  abbrev pub commanded : Machine → Outputs
  commanded r = record {
    ignition = ignition_wire r.actuators;
    starter = starter_wire r.actuators;
    timer = setting r.timer;
  }

  abbrev run_type : ActionType → ℕ → Machine → Decision → Machine × FaultCode
  run_type = execute_type G (recorder obeys) (timer_recorder keeps)

  -- An action has its effect on the outputs, also where the port reports a failure.
  pub execute_type-commanded :
      (type : ActionType) (ms : ℕ) (r : Machine) (d : Decision)
      → (commanded (run_type type ms r d).0 ≡ apply_action (commanded r) type ms)
        × ((run_type type ms r d).0.controller ≡ r.controller)
  unfolding execute_type
  execute_type-commanded ActionType.request_vehicle_state ms r d = (refl, refl)
  execute_type-commanded _ ms r d = (refl, refl)

  -- The loop either goes on to `later` or stops at the fault.
  execute_step :
      (code : FaultCode) (r1 : Machine) (later : Machine × FaultCode) (target : Outputs)
      → (is_no_fault later.1 ≡ true → commanded later.0 ≡ target)
      → is_no_fault (if is_no_fault code then later else (r1, code)).1 ≡ true
      → (commanded (if is_no_fault code then later else (r1, code)).0 ≡ target)
  execute_step FaultCode.none r1 later target goes_on h = goes_on h
  execute_step _ r1 later target goes_on h = ground arith

  pub execute-commanded :
      (actions : List Action) (r : Machine) (d : Decision)
      → is_no_fault (execute G (recorder obeys) (timer_recorder keeps) actions r d).1 ≡ true
      → (commanded (execute G (recorder obeys) (timer_recorder keeps) actions r d).0
          ≡ apply_actions (commanded r) actions)
  unfolding execute
  execute-commanded [] r d h = refl
  execute-commanded (a ∷ rest) r d h =
      let (effect, same) = execute_type-commanded a.type a.duration_ms r d in
      let r1 = (run_type a.type a.duration_ms r d).0 in
      let later = execute-commanded rest r1 d in
      execute_step (run_type a.type a.duration_ms r d).1 r1
        (execute G (recorder obeys) (timer_recorder keeps) rest r1 d)
        (apply_actions (commanded r) (a ∷ rest))
        (λ fine. later fine ∙ ap (λ o. apply_actions o rest) effect) h

  pub execute-controller :
      (actions : List Action) (r : Machine) (d : Decision)
      → (execute G (recorder obeys) (timer_recorder keeps) actions r d).0.controller ≡ r.controller
  unfolding execute
  execute-controller [] r d = refl
  execute-controller (a ∷ rest) r d =
      let (effect, same) = execute_type-commanded a.type a.duration_ms r d in
      let later = execute-controller rest (run_type a.type a.duration_ms r d).0 d in
      ground (arith, same, later)

  pub take_turn_lem :
      (r : Machine) (e : Event) (v : VehicleState) (timestamp_ms : ℕ)
      → (commanded (take_turn G (recorder obeys) (timer_recorder keeps) r e v timestamp_ms)
          ≡ commanded r)
        × ((take_turn G (recorder obeys) (timer_recorder keeps) r e v timestamp_ms).controller
            ≡ (handle r.controller e v).controller)
  unfolding take_turn
  take_turn_lem r e v timestamp_ms = ground arith
