-- ===== src/Controller/Handler.antt =====
-- controller.cpp: the event handlers and `Controller::handle`. Each handler is the `switch` on
-- the controller's state, one clause for each state.
use bmw_e9x_remote_control.Common.{Bool, true, false, not, ◌&&◌, [], leb, if◌then◌else◌}
use bmw_e9x_remote_control.Domain.{VehicleState, is_fresh}
use bmw_e9x_remote_control.Safety.{
  SafetyAssessment, approved, assess_start, assess_cranking, assess_remote_run,
  assess_driver_takeover, no_reasons as no_safety_reasons,
}
use bmw_e9x_remote_control.Readiness.{ready}
use bmw_e9x_remote_control.Controller.Types.{
  ControllerState, FaultCode, EventType, Event, ActionType, Decision, DriverEntryMode, Controller,
}
use bmw_e9x_remote_control.Controller.Sequences.{
  Turn, perform, perform_for, transition, set_fault, begin_preparing, begin_cranking, begin_running,
  begin_awaiting_takeover, complete_driver_takeover, begin_stopping, complete_stop, enter_fault,
}

abbrev pub engine_is_running : Controller → VehicleState → Bool
engine_is_running c v =
    is_fresh v.engine_rpm && leb c.config.safety_config.running_rpm_threshold v.engine_rpm.value

-- `vehicle.engineRpm.isFresh() && !engineIsRunning(vehicle)`.
abbrev pub engine_is_stopped : Controller → VehicleState → Bool
engine_is_stopped c v = is_fresh v.engine_rpm && not (engine_is_running c v)

abbrev pub driver_entry_detected : VehicleState → Bool
driver_entry_detected v = is_fresh v.doors_closed && not v.doors_closed.value

-- `decision.safety = …`.
abbrev pub set_safety : Turn → SafetyAssessment → Turn
set_safety t a = record t { decision = record t.decision { safety = a } }

-- `decision.safety = a; if (!decision.safety.approved()) enterFault(…) else …`.
fault_unless_approved : Turn → SafetyAssessment → (Turn → Turn) → Turn
fault_unless_approved t a continue =
    let t1 = set_safety t a in
    if approved a then continue t1 else enter_fault t1 FaultCode.safety_interlock

is_idle : ControllerState → Bool
is_idle ControllerState.idle = true
is_idle _ = false

handle_start_request : Turn → Turn
unfolding is_idle
handle_start_request t =
    if not (is_idle t.controller.state)
    then perform t ActionType.notify_request_ignored
    else if not t.controller.config.remote_start_enabled
    then perform (perform t ActionType.secure_outputs) ActionType.notify_remote_start_disabled
    else if not (ready t.controller.profile_readiness)
    then perform (perform t ActionType.secure_outputs) ActionType.notify_profile_rejected
    else let t1 = transition t ControllerState.authorizing in
      perform_for (perform t1 ActionType.request_vehicle_state) ActionType.arm_timer
        t.controller.config.authorization_timeout_ms

stop_in : ControllerState → Turn → Turn
stop_in ControllerState.authorizing t = complete_stop t
stop_in ControllerState.preparing t = complete_stop t
stop_in ControllerState.cranking t = complete_stop t
stop_in ControllerState.running t = begin_stopping t
stop_in ControllerState.awaiting_takeover t = begin_stopping t
stop_in ControllerState.driver_control t = perform t ActionType.notify_request_ignored
stop_in ControllerState.fault t =
    perform (perform t ActionType.secure_outputs) ActionType.notify_request_ignored
stop_in ControllerState.idle t = perform t ActionType.notify_stopped
stop_in ControllerState.stopping t = perform t ActionType.notify_request_ignored

handle_stop_request : Turn → Turn
unfolding stop_in
handle_stop_request t = stop_in t.controller.state t

enter_driver : DriverEntryMode → Turn → VehicleState → Turn
unfolding fault_unless_approved
enter_driver DriverEntryMode.require_takeover t v =
    fault_unless_approved t (assess_driver_takeover t.controller.config.safety_config v)
      begin_awaiting_takeover
enter_driver DriverEntryMode.stop_immediately t v = begin_stopping t

reject_start : Turn → Turn
reject_start t =
    let t1 = set_fault (transition t ControllerState.idle) FaultCode.none in
    let t2 = perform t1 ActionType.cancel_timer in
    perform (perform t2 ActionType.secure_outputs) ActionType.notify_start_rejected

update_in : ControllerState → Turn → VehicleState → Turn
unfolding fault_unless_approved enter_driver reject_start
update_in ControllerState.authorizing t v =
    let a = assess_start t.controller.config.safety_config v in
    let t1 = set_safety t a in if approved a then begin_preparing t1 else reject_start t1
update_in ControllerState.preparing t v =
    fault_unless_approved t (assess_start t.controller.config.safety_config v) λ u. u
update_in ControllerState.cranking t v =
    fault_unless_approved t (assess_cranking t.controller.config.safety_config v)
      λ u. if engine_is_running u.controller v then begin_running u else u
update_in ControllerState.running t v =
    if driver_entry_detected v
    then enter_driver t.controller.config.driver_entry_mode t v
    else fault_unless_approved t (assess_remote_run t.controller.config.safety_config v) λ u. u
update_in ControllerState.awaiting_takeover t v =
    fault_unless_approved t (assess_driver_takeover t.controller.config.safety_config v) λ u. u
update_in ControllerState.driver_control t v =
    if engine_is_stopped t.controller v
    then perform (transition t ControllerState.idle) ActionType.notify_ready
    else t
update_in ControllerState.stopping t v =
    if engine_is_stopped t.controller v then complete_stop t else t
update_in ControllerState.idle t v = t
update_in ControllerState.fault t v = t

handle_vehicle_update : Turn → VehicleState → Turn
unfolding update_in
handle_vehicle_update t v = update_in t.controller.state t v

timer_in : ControllerState → Turn → VehicleState → Turn
unfolding fault_unless_approved
timer_in ControllerState.authorizing t v = enter_fault t FaultCode.authorization_timeout
timer_in ControllerState.preparing t v =
    fault_unless_approved t (assess_start t.controller.config.safety_config v) begin_cranking
timer_in ControllerState.cranking t v = enter_fault t FaultCode.crank_timeout
timer_in ControllerState.running t v = begin_stopping t
timer_in ControllerState.awaiting_takeover t v = begin_stopping t
timer_in ControllerState.driver_control t v = t
timer_in ControllerState.stopping t v = enter_fault t FaultCode.stop_timeout
timer_in ControllerState.idle t v = t
timer_in ControllerState.fault t v = t

handle_timer : Turn → VehicleState → Turn
unfolding timer_in
handle_timer t v = timer_in t.controller.state t v

takeover_in : ControllerState → Turn → VehicleState → Turn
unfolding fault_unless_approved
takeover_in ControllerState.awaiting_takeover t v =
    fault_unless_approved t (assess_driver_takeover t.controller.config.safety_config v)
      complete_driver_takeover
takeover_in _ t v = perform t ActionType.notify_request_ignored

handle_driver_takeover : Turn → VehicleState → Turn
unfolding takeover_in
handle_driver_takeover t v = takeover_in t.controller.state t v

accept_reset : Turn → Turn
accept_reset t =
    let t1 = set_fault (transition t ControllerState.idle) FaultCode.none in
    let t2 = perform t1 ActionType.cancel_timer in
    perform (perform t2 ActionType.secure_outputs) ActionType.notify_ready

reset_in : ControllerState → Turn → VehicleState → Turn
unfolding accept_reset
reset_in ControllerState.fault t v =
    let engine_stopped = engine_is_stopped t.controller v in
    let no_critical_fault =
      is_fresh v.critical_fault_present && not v.critical_fault_present.value in
    if engine_stopped && no_critical_fault
    then accept_reset t
    else perform (perform t ActionType.secure_outputs) ActionType.notify_reset_rejected
reset_in _ t v = perform t ActionType.notify_request_ignored

handle_reset : Turn → VehicleState → Turn
unfolding reset_in
handle_reset t v = reset_in t.controller.state t v

-- `event.fault == FaultCode::None ? FaultCode::InternalError : event.fault`.
abbrev pub failure_code : FaultCode → FaultCode
failure_code FaultCode.none = FaultCode.internal_error
failure_code code = code

handle_event : EventType → FaultCode → Turn → VehicleState → Turn
unfolding handle_start_request handle_stop_request handle_vehicle_update handle_timer
    handle_driver_takeover handle_reset
handle_event EventType.remote_start_requested code t v = handle_start_request t
handle_event EventType.remote_stop_requested code t v = handle_stop_request t
handle_event EventType.vehicle_state_updated code t v = handle_vehicle_update t v
handle_event EventType.timer_elapsed code t v = handle_timer t v
handle_event EventType.driver_takeover_confirmed code t v = handle_driver_takeover t v
handle_event EventType.infrastructure_failure code t v = enter_fault t (failure_code code)
handle_event EventType.reset_requested code t v = handle_reset t v

-- The decision before the event is handled.
abbrev pub opening : Controller → Decision
opening c = record {
  previous_state = c.state;
  state = c.state;
  previous_fault = c.fault;
  fault = c.fault;
  safety = no_safety_reasons;
  profile_readiness = c.profile_readiness;
  actions = [];
}

unfoldable pub handle : Controller → Event → VehicleState → Turn
unfolding handle_event begin_preparing begin_cranking begin_running begin_awaiting_takeover
    complete_driver_takeover begin_stopping complete_stop enter_fault
handle c e v =
    let t = handle_event e.type e.fault_code (record { controller = c; decision = opening c }) v in
    record t {
      decision = record t.decision { state = t.controller.state; fault = t.controller.fault };
    }
