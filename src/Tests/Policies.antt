-- ===== src/Tests/Policies.antt =====
-- The policies and the controller on the parked car.
use bmw_e9x_remote_control.Common.{
  ◌≤◌, ◌≡◌, ◌↔◌, refl, true, false, some, List, [], ◌∷◌, length, arith,
}
use bmw_e9x_remote_control.Domain.{observed_fresh, VehicleState, VehicleProfile, support}
use bmw_e9x_remote_control.Safety.{
  SafetyReason, approved, contains, assess_start, assess_cranking, assess_remote_run,
  assess_driver_takeover, default_config as default_safety,
}
use bmw_e9x_remote_control.Safety.Conditions.{
  IsStartSafe, IsCrankingSafe, IsRemoteRunSafe, IsTakeoverSafe,
}
use bmw_e9x_remote_control.Safety.Approval.{assess_start-approved, later_assessments-approved}
use bmw_e9x_remote_control.Safety.Reasons.{contains-assessments}
use bmw_e9x_remote_control.Readiness.{
  ready, default_policy, assess_remote_start_readiness, assess_selected, assess_signal,
  assess_signals, check_transmission, add_if,
}
use bmw_e9x_remote_control.Readiness.Laws.{IsReady, ready-assess_selected}
use bmw_e9x_remote_control.Controller.Types.{
  ControllerState, FaultCode, EventType, Event, event_of, Controller, new_controller,
}
use bmw_e9x_remote_control.Controller.Handler.{handle}
use bmw_e9x_remote_control.Controller.Transitions.{Allows, handle-Allows}
use bmw_e9x_remote_control.Controller.Outputs.{outputs_of, FaultMatches, handle-decision}
use bmw_e9x_remote_control.Controller.Traces.{
  run, all_off, run-outputs_of, run-FaultMatches, stop_reaches_idle, start_reaches_running,
}
use bmw_e9x_remote_control.Tests.Data.{
  car_at, parked, running_car, parked-IsStartSafe, running-IsCrankingSafe, verified_profile,
  car_config,
}

assess_start-approved_example :
    (approved (assess_start default_safety parked) ≡ true) ↔ IsStartSafe default_safety parked
assess_start-approved_example = assess_start-approved default_safety parked

-- The door open, as when the driver gets in.
abbrev driver_enters : VehicleState
driver_enters = record running_car { doors_closed = observed_fresh false }

later_assessments-approved_example :
    ((approved (assess_cranking default_safety driver_enters) ≡ true)
      ↔ IsCrankingSafe default_safety driver_enters)
    × ((approved (assess_remote_run default_safety driver_enters) ≡ true)
        ↔ IsRemoteRunSafe default_safety driver_enters)
    × ((approved (assess_driver_takeover default_safety driver_enters) ≡ true)
        ↔ IsTakeoverSafe default_safety driver_enters)
later_assessments-approved_example = later_assessments-approved default_safety driver_enters

contains-assessments_example :
    (contains (assess_start default_safety driver_enters) SafetyReason.door_open ≡ true)
    × (contains (assess_remote_run default_safety driver_enters) SafetyReason.door_open ≡ true)
    × (contains (assess_driver_takeover default_safety driver_enters) SafetyReason.door_open
        ≡ false)
contains-assessments_example =
    contains-assessments default_safety driver_enters SafetyReason.door_open

ready-assess_selected_example :
    (ready (assess_selected (some verified_profile) default_policy true) ≡ true)
    ↔ ((p : VehicleProfile) × (some verified_profile ≡ some p) × IsReady p default_policy true)
ready-assess_selected_example = ready-assess_selected (some verified_profile) default_policy true

abbrev idle_controller : Controller
idle_controller = new_controller car_config

abbrev start : Event
start = event_of EventType.remote_start_requested

abbrev update : Event
update = event_of EventType.vehicle_state_updated

abbrev elapsed : Event
elapsed = event_of EventType.timer_elapsed

abbrev successful_start : List (Event × VehicleState)
successful_start =
    (start, parked) ∷ (update, parked) ∷ (elapsed, parked) ∷ (update, running_car) ∷ []

handle-Allows_example :
    Allows idle_controller EventType.remote_start_requested parked idle_controller.state
      (handle idle_controller start parked).controller.state
handle-Allows_example = handle-Allows idle_controller start parked

handle-decision_example :
    let t = handle idle_controller start parked in
    (length t.decision.actions ≤ 5)
    × (t.decision.previous_state ≡ idle_controller.state)
    × (t.decision.previous_fault ≡ idle_controller.fault)
    × (t.decision.state ≡ t.controller.state)
    × (t.decision.fault ≡ t.controller.fault)
    × (t.decision.profile_readiness ≡ idle_controller.profile_readiness)
    × (t.controller.config ≡ idle_controller.config)
    × (t.controller.profile_readiness ≡ idle_controller.profile_readiness)
handle-decision_example = handle-decision idle_controller start parked

run-outputs_of_example :
    let (c, o) = run (new_controller car_config) all_off successful_start in o ≡ outputs_of c
run-outputs_of_example = run-outputs_of car_config successful_start

run-FaultMatches_example : FaultMatches (run (new_controller car_config) all_off successful_start).0
run-FaultMatches_example = run-FaultMatches car_config successful_start

car_ready : ready idle_controller.profile_readiness ≡ true
unfolding new_controller assess_selected assess_remote_start_readiness assess_signals assess_signal
    check_transmission add_if ready support
car_ready = refl

start_reaches_running_example :
    let t0 = handle idle_controller start parked in
    let t1 = handle t0.controller update parked in
    let t2 = handle t1.controller elapsed parked in
    let t3 = handle t2.controller update running_car in
    t3.controller.state ≡ ControllerState.running
unfolding new_controller
start_reaches_running_example =
    start_reaches_running idle_controller parked parked parked running_car refl refl car_ready
      parked-IsStartSafe parked-IsStartSafe running-IsCrankingSafe (refl, omega arith)

abbrev cranking_controller : Controller
cranking_controller = record idle_controller { state = ControllerState.cranking }

stop_reaches_idle_example :
    let t = handle cranking_controller (event_of EventType.remote_stop_requested) (car_at 250) in
    let u = handle t.controller update parked in
    (u.controller.state ≡ ControllerState.idle) × (u.controller.fault ≡ FaultCode.none)
unfolding new_controller
stop_reaches_idle_example =
    stop_reaches_idle cranking_controller (car_at 250) parked (λ h. cc) (λ h. cc) refl
      (refl, omega arith)

abbrev faulted_controller : Controller
faulted_controller = record idle_controller {
  state = ControllerState.fault;
  fault = FaultCode.crank_timeout;
}
