-- ===== src/Controller/Transitions.antt =====
-- The transition diagram of the controller, with what each edge requires of the vehicle.
use bmw_e9x_remote_control.Common.{◌≤◌, ◌<◌, ◌≡◌, ◌⊎◌, Bool, true, false, arith}
use bmw_e9x_remote_control.Domain.{VehicleState}
use bmw_e9x_remote_control.Safety.Conditions.{
  Reads, IsKnown, IsStartSafe, IsCrankingSafe, IsTakeoverSafe,
}
use bmw_e9x_remote_control.Safety.Approval.{
  assess_start-approved, assess_cranking-approved, assess_driver_takeover-approved,
}
use bmw_e9x_remote_control.Readiness.{ready}
use bmw_e9x_remote_control.Controller.Types.{
  ControllerState, EventType, Event, DriverEntryMode, Controller,
}
use bmw_e9x_remote_control.Controller.Handler.{handle}

-- The engine is known to turn at `running_rpm_threshold` or faster.
abbrev pub EngineRuns : Controller → VehicleState → Type 0
EngineRuns c v =
    IsKnown v.engine_rpm × (c.config.safety_config.running_rpm_threshold ≤ v.engine_rpm.value)

-- The engine is known to turn slower than that.
abbrev pub EngineStopped : Controller → VehicleState → Type 0
EngineStopped c v =
    IsKnown v.engine_rpm × (v.engine_rpm.value < c.config.safety_config.running_rpm_threshold)

-- The states from which a safety interlock or a timeout leads to `fault`.
abbrev pub is_supervised : ControllerState → Bool
is_supervised ControllerState.idle = false
is_supervised ControllerState.driver_control = false
is_supervised ControllerState.fault = false
is_supervised _ = true

-- What must hold for one event to lead from the first state to the second.
abbrev pub Allows :
    Controller → EventType → VehicleState → ControllerState → ControllerState → Type 0
Allows c e v ControllerState.idle ControllerState.authorizing =
    (e ≡ EventType.remote_start_requested)
    × (c.config.remote_start_enabled ≡ true)
    × (ready c.profile_readiness ≡ true)
Allows c e v ControllerState.authorizing ControllerState.preparing =
    (e ≡ EventType.vehicle_state_updated) × IsStartSafe c.config.safety_config v
Allows c e v ControllerState.authorizing ControllerState.idle =
    (e ≡ EventType.remote_stop_requested)
    ⊎ (e ≡ EventType.vehicle_state_updated) × ¬ IsStartSafe c.config.safety_config v
Allows c e v ControllerState.preparing ControllerState.cranking =
    (e ≡ EventType.timer_elapsed) × IsStartSafe c.config.safety_config v
Allows c e v ControllerState.preparing ControllerState.idle = e ≡ EventType.remote_stop_requested
Allows c e v ControllerState.cranking ControllerState.running =
    (e ≡ EventType.vehicle_state_updated) × IsCrankingSafe c.config.safety_config v × EngineRuns c v
Allows c e v ControllerState.cranking ControllerState.idle = e ≡ EventType.remote_stop_requested
Allows c e v ControllerState.running ControllerState.awaiting_takeover =
    (e ≡ EventType.vehicle_state_updated)
    × (c.config.driver_entry_mode ≡ DriverEntryMode.require_takeover)
    × Reads v.doors_closed false
    × IsTakeoverSafe c.config.safety_config v
Allows c e v ControllerState.running ControllerState.stopping =
    (e ≡ EventType.remote_stop_requested)
    ⊎ (e ≡ EventType.timer_elapsed)
    ⊎ (e ≡ EventType.vehicle_state_updated)
      × (c.config.driver_entry_mode ≡ DriverEntryMode.stop_immediately)
      × Reads v.doors_closed false
Allows c e v ControllerState.awaiting_takeover ControllerState.driver_control =
    (e ≡ EventType.driver_takeover_confirmed) × IsTakeoverSafe c.config.safety_config v
Allows c e v ControllerState.awaiting_takeover ControllerState.stopping =
    (e ≡ EventType.remote_stop_requested) ⊎ (e ≡ EventType.timer_elapsed)
Allows c e v ControllerState.driver_control ControllerState.idle =
    (e ≡ EventType.vehicle_state_updated) × EngineStopped c v
Allows c e v ControllerState.stopping ControllerState.idle =
    (e ≡ EventType.vehicle_state_updated) × EngineStopped c v
Allows c e v ControllerState.fault ControllerState.idle =
    (e ≡ EventType.reset_requested) × EngineStopped c v × Reads v.critical_fault_present false
Allows c e v ControllerState.fault ControllerState.fault = Unit {0}
Allows c e v s ControllerState.fault =
    (e ≡ EventType.infrastructure_failure) ⊎ (is_supervised s ≡ true)
Allows c e v s t = s ≡ t

-- Every event, in every state, leads along an edge whose conditions hold of the vehicle.
pub handle-Allows :
    (c : Controller) (e : Event) (v : VehicleState)
    → Allows c e.type v c.state (handle c e v).controller.state
unfolding handle
handle-Allows c e v = ground (
  arith,
  (assess_start-approved c.config.safety_config v).0,
  (assess_start-approved c.config.safety_config v).1,
  (assess_cranking-approved c.config.safety_config v).0,
  (assess_driver_takeover-approved c.config.safety_config v).0,
)
