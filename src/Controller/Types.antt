-- ===== src/Controller/Types.antt =====
-- controller.hpp: states, faults, events, actions, decisions, and the controller's own state.
use bmw_e9x_remote_control.Common.{ℕ, ◌*◌, Bool, true, Option, List}
use bmw_e9x_remote_control.Domain.{VehicleProfile}
use bmw_e9x_remote_control.Safety.{
  SafetyAssessment, SafetyPolicyConfig, default_config as default_safety,
}
use bmw_e9x_remote_control.Readiness.{
  ProfileReadinessAssessment, ProfileReadinessPolicy, default_policy, assess_selected,
}

pub data ControllerState : Type 0 where
  idle authorizing preparing cranking running awaiting_takeover : ControllerState
  driver_control stopping fault : ControllerState

pub data FaultCode : Type 0 where
  none safety_interlock vehicle_communication authorization_timeout crank_timeout : FaultCode
  stop_timeout actuator_failure timer_failure internal_error : FaultCode

pub data EventType : Type 0 where
  remote_start_requested remote_stop_requested vehicle_state_updated : EventType
  timer_elapsed driver_takeover_confirmed infrastructure_failure : EventType
  reset_requested : EventType

pub record Event : Type 0 where
  pub type : EventType
  pub fault_code : FaultCode

-- `Event{type}`, whose fault defaults to `None`.
abbrev pub event_of : EventType → Event
event_of t = record { type = t; fault_code = FaultCode.none }

-- `Event::infrastructureFailure`.
abbrev pub infrastructure_failure_event : FaultCode → Event
infrastructure_failure_event code = record {
  type = EventType.infrastructure_failure;
  fault_code = code;
}

pub data ActionType : Type 0 where
  request_vehicle_state enable_ignition engage_starter disengage_starter : ActionType
  release_remote_control secure_outputs arm_timer cancel_timer : ActionType
  notify_profile_rejected notify_remote_start_disabled notify_start_accepted : ActionType
  notify_start_rejected notify_running notify_takeover_pending : ActionType
  notify_takeover_complete notify_stopping notify_stopped notify_fault : ActionType
  notify_ready notify_request_ignored notify_reset_rejected : ActionType

-- The underlying value of the enumeration.
abbrev pub action_index : ActionType → ℕ
action_index ActionType.request_vehicle_state = 0
action_index ActionType.enable_ignition = 1
action_index ActionType.engage_starter = 2
action_index ActionType.disengage_starter = 3
action_index ActionType.release_remote_control = 4
action_index ActionType.secure_outputs = 5
action_index ActionType.arm_timer = 6
action_index ActionType.cancel_timer = 7
action_index ActionType.notify_profile_rejected = 8
action_index ActionType.notify_remote_start_disabled = 9
action_index ActionType.notify_start_accepted = 10
action_index ActionType.notify_start_rejected = 11
action_index ActionType.notify_running = 12
action_index ActionType.notify_takeover_pending = 13
action_index ActionType.notify_takeover_complete = 14
action_index ActionType.notify_stopping = 15
action_index ActionType.notify_stopped = 16
action_index ActionType.notify_fault = 17
action_index ActionType.notify_ready = 18
action_index ActionType.notify_request_ignored = 19
action_index ActionType.notify_reset_rejected = 20

pub record Action : Type 0 where
  pub type : ActionType
  pub duration_ms : ℕ

-- `Decision::MaximumActions`.
abbrev pub maximum_actions : ℕ
maximum_actions = 8

-- `actions` holds the first `actionCount` entries of the array.
pub record Decision : Type 0 where
  pub previous_state : ControllerState
  pub state : ControllerState
  pub previous_fault : FaultCode
  pub fault : FaultCode
  pub safety : SafetyAssessment
  pub profile_readiness : ProfileReadinessAssessment
  pub actions : List Action

pub data DriverEntryMode : Type 0 where
  require_takeover stop_immediately : DriverEntryMode

pub record ControllerConfig : Type 0 where
  pub vehicle_profile : Option VehicleProfile
  pub profile_policy : ProfileReadinessPolicy
  pub safety_config : SafetyPolicyConfig
  pub remote_start_enabled : Bool
  pub driver_entry_mode : DriverEntryMode
  pub authorization_timeout_ms : ℕ
  pub preparation_delay_ms : ℕ
  pub maximum_crank_time_ms : ℕ
  pub maximum_remote_run_time_ms : ℕ
  pub driver_takeover_timeout_ms : ℕ
  pub stop_confirmation_timeout_ms : ℕ

-- `ControllerConfig{}`.
abbrev pub default_config : ControllerConfig
default_config = record {
  vehicle_profile = Option.none;
  profile_policy = default_policy;
  safety_config = default_safety;
  remote_start_enabled = true;
  driver_entry_mode = DriverEntryMode.require_takeover;
  authorization_timeout_ms = 2000;
  preparation_delay_ms = 1500;
  maximum_crank_time_ms = 5000;
  maximum_remote_run_time_ms = 15 * 60 * 1000;
  driver_takeover_timeout_ms = 60000;
  stop_confirmation_timeout_ms = 3000;
}

-- The members of `Controller`. Its `safetyPolicy_` is `config.safety_config`.
pub record Controller : Type 0 where
  pub config : ControllerConfig
  pub profile_readiness : ProfileReadinessAssessment
  pub state : ControllerState
  pub fault : FaultCode

-- The constructor `Controller(config)`.
unfoldable pub new_controller : ControllerConfig → Controller
new_controller config = record {
  config = config;
  profile_readiness =
      assess_selected config.vehicle_profile config.profile_policy
        config.safety_config.require_hood_closed;
  state = ControllerState.idle;
  fault = FaultCode.none;
}
