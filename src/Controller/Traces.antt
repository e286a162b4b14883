-- ===== src/Controller/Traces.antt =====
-- What holds of the controller over every sequence of events.
use bmw_e9x_remote_control.Common.{
  ◌≡◌, ◌≢◌, refl, ◌∙◌, ap, true, false, Option, List, [], ◌∷◌, arith,
}
use bmw_e9x_remote_control.Domain.{VehicleState}
use bmw_e9x_remote_control.Readiness.{ready}
use bmw_e9x_remote_control.Safety.Conditions.{IsStartSafe, IsCrankingSafe}
use bmw_e9x_remote_control.Safety.Approval.{assess_start-approved, assess_cranking-approved}
use bmw_e9x_remote_control.Controller.Types.{
  ControllerState, FaultCode, EventType, Event, ControllerConfig, Controller, new_controller,
  event_of,
}
use bmw_e9x_remote_control.Controller.Handler.{handle}
use bmw_e9x_remote_control.Controller.Transitions.{EngineRuns, EngineStopped}
use bmw_e9x_remote_control.Controller.Outputs.{
  Outputs, apply_actions, outputs_of, handle-outputs, FaultMatches, handle-FaultMatches,
}

-- The controller and its outputs after a sequence of events, each with the vehicle then seen.
pub run : Controller → Outputs → List (Event × VehicleState) → Controller × Outputs
run c o [] = (c, o)
run c o ((e, v) ∷ rest) =
    let t = handle c e v in run t.controller (apply_actions o t.decision.actions) rest

run-outputs :
    (c : Controller) (o : Outputs) (es : List (Event × VehicleState))
    → o ≡ outputs_of c
    → (run c o es).1 ≡ outputs_of (run c o es).0
unfolding run
run-outputs c o [] h = h
run-outputs c o ((e, v) ∷ rest) h =
    run-outputs (handle c e v).controller (apply_actions o (handle c e v).decision.actions) rest
      (ap (λ x. apply_actions x (handle c e v).decision.actions) h ∙ handle-outputs c e v)

abbrev pub all_off : Outputs
all_off = record { ignition = false; starter = false; timer = Option.none }

-- After any events the outputs are those of the state, so that the starter is on in `cranking`
-- only.
pub run-outputs_of :
    (config : ControllerConfig) (es : List (Event × VehicleState))
    → let (c, o) = run (new_controller config) all_off es in o ≡ outputs_of c
run-outputs_of config es =
    run-outputs (new_controller config) all_off es (unfold new_controller in refl)

run-FaultMatches_from :
    (c : Controller) (o : Outputs) (es : List (Event × VehicleState))
    → FaultMatches c
    → FaultMatches (run c o es).0
unfolding run
run-FaultMatches_from c o [] m = m
run-FaultMatches_from c o ((e, v) ∷ rest) m =
    run-FaultMatches_from (handle c e v).controller
      (apply_actions o (handle c e v).decision.actions) rest (handle-FaultMatches c e v m)

-- After any events a fault is reported exactly in the fault state.
pub run-FaultMatches :
    (config : ControllerConfig) (es : List (Event × VehicleState))
    → FaultMatches (run (new_controller config) all_off es).0
unfolding new_controller
run-FaultMatches config es = run-FaultMatches_from (new_controller config) all_off es (ground arith)

-- From every state but `fault` and `driver_control`, a stop request, followed by news that the
-- engine has stopped, leads a controller that reports no fault to `idle`, still with no fault.
pub stop_reaches_idle :
    (c : Controller) (v w : VehicleState)
    → c.state ≢ ControllerState.fault
    → c.state ≢ ControllerState.driver_control
    → c.fault ≡ FaultCode.none
    → EngineStopped c w
    → let t = handle c (event_of EventType.remote_stop_requested) v in
      let u = handle t.controller (event_of EventType.vehicle_state_updated) w in
      (u.controller.state ≡ ControllerState.idle) × (u.controller.fault ≡ FaultCode.none)
unfolding handle
stop_reaches_idle c v w nf nd f e = ground arith

-- A controller that is idle, enabled and ready starts the engine: it is running after the request,
-- a safe state, the preparation delay with a safe state, and a state in which the engine turns.
pub start_reaches_running :
    (c : Controller) (v0 v1 v2 v3 : VehicleState)
    → c.state ≡ ControllerState.idle
    → c.config.remote_start_enabled ≡ true
    → ready c.profile_readiness ≡ true
    → IsStartSafe c.config.safety_config v1
    → IsStartSafe c.config.safety_config v2
    → IsCrankingSafe c.config.safety_config v3
    → EngineRuns c v3
    → let t0 = handle c (event_of EventType.remote_start_requested) v0 in
      let t1 = handle t0.controller (event_of EventType.vehicle_state_updated) v1 in
      let t2 = handle t1.controller (event_of EventType.timer_elapsed) v2 in
      let t3 = handle t2.controller (event_of EventType.vehicle_state_updated) v3 in
      t3.controller.state ≡ ControllerState.running
unfolding handle
start_reaches_running c v0 v1 v2 v3 s en rd p1 p2 p3 r =
    let a1 = (assess_start-approved c.config.safety_config v1).1 p1 in
    let a2 = (assess_start-approved c.config.safety_config v2).1 p2 in
    let a3 = (assess_cranking-approved c.config.safety_config v3).1 p3 in ground (arith, a1, a2, a3)
