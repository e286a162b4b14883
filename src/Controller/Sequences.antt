-- ===== src/Controller/Sequences.antt =====
-- controller.cpp: `Decision::add`, `Controller::transition` and the action sequences of each
-- change of state. A handler changes the controller and the decision that it fills, so both are
-- threaded through as a `Turn`.
use bmw_e9x_remote_control.Common.{
  ℕ, Bool, false, ◌||◌, List, [], ◌∷◌, ◌++◌, ltb, ◌==◌, if◌then◌else◌, length,
}
use bmw_e9x_remote_control.Controller.Types.{
  ControllerState, FaultCode, ActionType, Action, Decision, Controller, action_index,
  maximum_actions,
}

pub record Turn : Type 0 where
  pub controller : Controller
  pub decision : Decision

-- `actions[index].type == type`.
abbrev pub is_action : ActionType → ActionType → Bool
is_action a b = action_index a == action_index b

-- `Decision::contains`: the loop over the actions.
abbrev pub contains_action : List Action → ActionType → Bool
contains_action [] t = false
contains_action (a ∷ rest) t = is_action a.type t || contains_action rest t

-- `Decision::add`, which drops an action past the eighth.
abbrev pub add_action : List Action → Action → List Action
add_action actions a = if ltb (length actions) maximum_actions then actions ++ a ∷ [] else actions

abbrev pub perform_for : Turn → ActionType → ℕ → Turn
perform_for t type ms = record t {
  decision = record t.decision {
    actions = add_action t.decision.actions (record { type = type; duration_ms = ms });
  };
}

-- `decision.add(type)`, whose duration defaults to 0.
abbrev pub perform : Turn → ActionType → Turn
perform t type = perform_for t type 0

abbrev pub transition : Turn → ControllerState → Turn
transition t next = record {
  controller = record t.controller { state = next };
  decision = record t.decision { state = next };
}

abbrev pub set_fault : Turn → FaultCode → Turn
set_fault t code = record t { controller = record t.controller { fault = code } }

unfoldable pub begin_preparing : Turn → Turn
begin_preparing t =
    let t1 = transition t ControllerState.preparing in
    let t2 = perform t1 ActionType.cancel_timer in
    let t3 = perform t2 ActionType.enable_ignition in
    let t4 = perform t3 ActionType.notify_start_accepted in
    perform_for t4 ActionType.arm_timer t.controller.config.preparation_delay_ms

unfoldable pub begin_cranking : Turn → Turn
begin_cranking t =
    let t1 = transition t ControllerState.cranking in
    let t2 = perform t1 ActionType.cancel_timer in
    let t3 = perform t2 ActionType.engage_starter in
    perform_for t3 ActionType.arm_timer t.controller.config.maximum_crank_time_ms

unfoldable pub begin_running : Turn → Turn
begin_running t =
    let t1 = transition t ControllerState.running in
    let t2 = perform t1 ActionType.cancel_timer in
    let t3 = perform t2 ActionType.disengage_starter in
    let t4 = perform t3 ActionType.notify_running in
    perform_for t4 ActionType.arm_timer t.controller.config.maximum_remote_run_time_ms

unfoldable pub begin_awaiting_takeover : Turn → Turn
begin_awaiting_takeover t =
    let t1 = transition t ControllerState.awaiting_takeover in
    let t2 = perform t1 ActionType.cancel_timer in
    let t3 = perform t2 ActionType.notify_takeover_pending in
    perform_for t3 ActionType.arm_timer t.controller.config.driver_takeover_timeout_ms

unfoldable pub complete_driver_takeover : Turn → Turn
complete_driver_takeover t =
    let t1 = transition t ControllerState.driver_control in
    let t2 = perform t1 ActionType.cancel_timer in
    let t3 = perform t2 ActionType.disengage_starter in
    let t4 = perform t3 ActionType.release_remote_control in
    perform t4 ActionType.notify_takeover_complete

unfoldable pub begin_stopping : Turn → Turn
begin_stopping t =
    let t1 = transition t ControllerState.stopping in
    let t2 = perform t1 ActionType.cancel_timer in
    let t3 = perform t2 ActionType.disengage_starter in
    let t4 = perform t3 ActionType.secure_outputs in
    let t5 = perform t4 ActionType.notify_stopping in
    perform_for t5 ActionType.arm_timer t.controller.config.stop_confirmation_timeout_ms

unfoldable pub complete_stop : Turn → Turn
complete_stop t =
    let t1 = set_fault (transition t ControllerState.idle) FaultCode.none in
    let t2 = perform t1 ActionType.cancel_timer in
    let t3 = perform t2 ActionType.disengage_starter in
    let t4 = perform t3 ActionType.secure_outputs in perform t4 ActionType.notify_stopped

unfoldable pub enter_fault : Turn → FaultCode → Turn
enter_fault t code =
    let t1 = set_fault (transition t ControllerState.fault) code in
    let t2 = perform t1 ActionType.cancel_timer in
    let t3 = perform t2 ActionType.disengage_starter in
    let t4 = perform t3 ActionType.secure_outputs in perform t4 ActionType.notify_fault
