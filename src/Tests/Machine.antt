-- ===== src/Tests/Machine.antt =====
-- The journal, and the runtime on ports that fail.
use bmw_e9x_remote_control.Common.{
  ℕ, ◌+◌, ◌-◌, ◌≤◌, ◌<◌, ◌≡◌, ◌⊎◌, refl, Bool, true, false, Option, some, List, [], ◌∷◌, get_elem?,
  arith,
}
use Prim.Native.Nat.{min}
use bmw_e9x_remote_control.Ports.{VehicleGateway}
use bmw_e9x_remote_control.Supervisor.Types.{Supervisor, default_config}
use bmw_e9x_remote_control.Supervisor.Commands.{new_supervisor}
use bmw_e9x_remote_control.Supervisor.Invariant.{IsSafe}
use bmw_e9x_remote_control.Supervisor.Runs.{calls, calls-IsSafe}
use bmw_e9x_remote_control.Supervisor.Wiring.{Command, recorder, WiresMatch, calls-WiresMatch}
use bmw_e9x_remote_control.Journal.Ring.{
  DiagnosticRecord, empty_record, read, maximum_records, empty_journal,
}
use bmw_e9x_remote_control.Journal.Window.{append_all, numbered_all, journal_window}
use bmw_e9x_remote_control.Controller.Types.{
  ControllerState, FaultCode, EventType, event_of, new_controller, Controller,
}
use bmw_e9x_remote_control.Controller.Handler.{handle}
use bmw_e9x_remote_control.Controller.Outputs.{outputs_of}
use bmw_e9x_remote_control.Runtime.Dispatch.{Runtime, dispatch}
use bmw_e9x_remote_control.Runtime.Execution.{timer_recorder, commanded}
use bmw_e9x_remote_control.Runtime.Safing.{dispatch-commanded}
use bmw_e9x_remote_control.Runtime.Outcome.{ports_of, AllAccept, FailsWith, dispatch_outcome}
use bmw_e9x_remote_control.Tests.Data.{parked, car_at, car_config}
use bmw_e9x_remote_control.Journal.Records.{observe}
use bmw_e9x_remote_control.Journal.Window.{IsRing}
use bmw_e9x_remote_control.Journal.Ring.{DiagnosticRecordType}
use bmw_e9x_remote_control.Common.{length, ◌==◌}
use bmw_e9x_remote_control.Journal.Faults.{fault_is_journaled}
use bmw_e9x_remote_control.Supervisor.Runs.{calls_heartbeat, calls_poll, calls_enable_ignition}
use bmw_e9x_remote_control.Runtime.System.{
  SystemStep, dispatches, supervises, WiresAreSafe, steps, steps-WiresAreSafe,
}

abbrev records : List DiagnosticRecord
records = record empty_record { timestamp_ms = 20 } ∷ record empty_record { timestamp_ms = 10 } ∷ []

journal_window_example :
    let j = append_all records in
    (j.size ≡ min maximum_records 2)
    × ((i : ℕ) → i < j.size → read j (j.size - 1 - i) ≡ get_elem? (numbered_all records) i)
    × ((i : ℕ) → j.size ≤ i → read j i ≡ Option.none)
journal_window_example = journal_window records

-- A gateway that refuses every request.
abbrev deaf_gateway : VehicleGateway
deaf_gateway = record { State = ℕ; request_state = λ n. (n + 1, false) }

abbrev machine : Runtime ℕ (List Command) (List (Option ℕ))
machine = record {
  controller = new_controller car_config;
  gateway = 0;
  actuators = [];
  timer = [];
  published = [];
  journal = some empty_journal;
}

machine_off :
    commanded deaf_gateway (λ log. true) (λ log. true) machine ≡ outputs_of machine.controller
unfolding new_controller
machine_off = refl

dispatch-commanded_example :
    let r' =
      (dispatch deaf_gateway
        (recorder λ log. true)
        (timer_recorder λ log. true)
        machine
        (event_of EventType.remote_start_requested)
        parked
        100).0 in
    commanded deaf_gateway (λ log. true) (λ log. true) r' ≡ outputs_of r'.controller
dispatch-commanded_example =
    dispatch-commanded deaf_gateway (λ log. true) (λ log. true) machine
      (event_of EventType.remote_start_requested) parked 100 machine_off

dispatch_outcome_example :
    let t = handle machine.controller (event_of EventType.remote_start_requested) parked in
    let p = ports_of deaf_gateway (recorder λ log. true) (timer_recorder λ log. true) machine in
    let (r', d) =
      dispatch deaf_gateway
        (recorder λ log. true)
        (timer_recorder λ log. true)
        machine
        (event_of EventType.remote_start_requested)
        parked
        100 in
    (AllAccept deaf_gateway (recorder λ log. true) (timer_recorder λ log. true) t.decision.actions p
      × (r'.controller ≡ t.controller)
      × (d ≡ t.decision))
    ⊎ ((code : FaultCode) × FailsWith deaf_gateway
          (recorder λ log. true)
          (timer_recorder λ log. true)
          code
          t.decision.actions
          p
        × (r'.controller.state ≡ ControllerState.fault)
        × (r'.controller.fault ≡ code)
        × (commanded deaf_gateway (λ log. true) (λ log. true) r'
            ≡ record { ignition = false; starter = false; timer = Option.none })
        × (d.state ≡ ControllerState.fault)
        × (d.fault ≡ code))
dispatch_outcome_example =
    dispatch_outcome deaf_gateway (λ log. true) (λ log. true) machine
      (event_of EventType.remote_start_requested) parked 100

empty-IsRing : IsRing empty_journal
empty-IsRing = record { size_bound = omega arith; index_bound = omega arith }

abbrev cranking_controller : Controller
cranking_controller = record (new_controller car_config) { state = ControllerState.cranking }

crank_times_out :
    (handle cranking_controller (event_of EventType.timer_elapsed) (car_at 250)).controller.state
    ≡ ControllerState.fault
unfolding handle new_controller
crank_times_out = ground arith

fault_is_journaled_example :
    let t = handle cranking_controller (event_of EventType.timer_elapsed) (car_at 250) in
    let j' = observe empty_journal (event_of EventType.timer_elapsed) t.decision 5000 in
    (q : DiagnosticRecord) × (read j' (j'.size - 1) ≡ some q)
    × (q.type ≡ DiagnosticRecordType.fault_entered)
    × (q.fault ≡ t.controller.fault)
    × (q.previous_state ≡ ControllerState.cranking)
    × (q.trigger ≡ EventType.timer_elapsed)
    × (q.timestamp_ms ≡ 5000)
fault_is_journaled_example =
    fault_is_journaled cranking_controller (event_of EventType.timer_elapsed) (car_at 250)
      empty_journal 5000 empty-IsRing (λ h. cc) crank_times_out

-- A driver that fails at its second command.
abbrev failing : List Command → Bool
failing log = length log == 1

abbrev supervised_machine : Runtime ℕ (Supervisor (List Command)) (List (Option ℕ))
supervised_machine = record {
  controller = new_controller car_config;
  gateway = 0;
  actuators = new_supervisor (recorder failing) [] default_config;
  timer = [];
  published = [];
  journal = some empty_journal;
}

supervised_machine-IsSafe :
    IsSafe supervised_machine.actuators × WiresMatch supervised_machine.actuators
unfolding calls
supervised_machine-IsSafe = (
  calls-IsSafe (recorder failing) [] default_config [],
  calls-WiresMatch failing default_config [],
)

-- A start that the gateway never answers, on a supervisor that is watched and permitted.
abbrev system_steps : List SystemStep
system_steps =
    supervises (calls_heartbeat 1000)
    ∷ supervises (
        calls_poll 1000 true
          (record { available = true; ignition_active = false; starter_active = false }))
    ∷ dispatches (event_of EventType.remote_start_requested) parked 1000
    ∷ supervises calls_enable_ignition
    ∷ dispatches (event_of EventType.vehicle_state_updated) parked 1100
    ∷ []

steps-WiresAreSafe_example :
    WiresAreSafe
      (steps deaf_gateway
        (timer_recorder λ log. true)
        failing
        supervised_machine
        system_steps).actuators
steps-WiresAreSafe_example =
    steps-WiresAreSafe deaf_gateway (timer_recorder λ log. true) failing supervised_machine
      default_config system_steps refl
