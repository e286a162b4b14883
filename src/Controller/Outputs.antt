-- ===== src/Controller/Outputs.antt =====
-- What the emitted actions do to the actuators and the timer, against the state that they serve.
use bmw_e9x_remote_control.Common.{
  ℕ, ◌≤◌, ◌≡◌, ◌≢◌, Bool, true, false, Option, some, List, [], ◌∷◌, length, arith,
}
use bmw_e9x_remote_control.Domain.{VehicleState}
use bmw_e9x_remote_control.Controller.Types.{
  ControllerState, FaultCode, Event, ActionType, Action, ControllerConfig, Controller,
}
use bmw_e9x_remote_control.Controller.Handler.{handle}

-- The actuators and the one-shot timer, as the actions command them.
pub record Outputs : Type 0 where
  pub ignition : Bool
  pub starter : Bool
  pub timer : Option ℕ

abbrev pub apply_action : Outputs → ActionType → ℕ → Outputs
apply_action o ActionType.enable_ignition ms = record o { ignition = true }
apply_action o ActionType.engage_starter ms = record o { starter = true }
apply_action o ActionType.disengage_starter ms = record o { starter = false }
apply_action o ActionType.release_remote_control ms = record o { ignition = false; starter = false }
apply_action o ActionType.secure_outputs ms = record o { ignition = false; starter = false }
apply_action o ActionType.arm_timer ms = record o { timer = some ms }
apply_action o ActionType.cancel_timer ms = record o { timer = Option.none }
apply_action o _ ms = o

abbrev pub apply_actions : Outputs → List Action → Outputs
apply_actions o [] = o
apply_actions o (a ∷ rest) = apply_actions (apply_action o a.type a.duration_ms) rest

abbrev pub ignition_in : ControllerState → Bool
ignition_in ControllerState.preparing = true
ignition_in ControllerState.cranking = true
ignition_in ControllerState.running = true
ignition_in ControllerState.awaiting_takeover = true
ignition_in _ = false

abbrev pub starter_in : ControllerState → Bool
starter_in ControllerState.cranking = true
starter_in _ = false

abbrev pub timeout_in : ControllerConfig → ControllerState → Option ℕ
timeout_in config ControllerState.authorizing = some config.authorization_timeout_ms
timeout_in config ControllerState.preparing = some config.preparation_delay_ms
timeout_in config ControllerState.cranking = some config.maximum_crank_time_ms
timeout_in config ControllerState.running = some config.maximum_remote_run_time_ms
timeout_in config ControllerState.awaiting_takeover = some config.driver_takeover_timeout_ms
timeout_in config ControllerState.stopping = some config.stop_confirmation_timeout_ms
timeout_in config _ = Option.none

-- What the outputs must be in a state: the abstract specification of the actions.
abbrev pub outputs_of : Controller → Outputs
outputs_of c = record {
  ignition = ignition_in c.state;
  starter = starter_in c.state;
  timer = timeout_in c.config c.state;
}

-- Applied to the outputs of the old state, the actions of a decision give those of the new state:
-- the ignition is on from `preparing` to `awaiting_takeover` only, the starter in `cranking` only,
-- and the timer runs with the duration of the state, or not at all.
pub handle-outputs :
    (c : Controller) (e : Event) (v : VehicleState)
    → apply_actions (outputs_of c) (handle c e v).decision.actions
      ≡ outputs_of (handle c e v).controller
unfolding handle
handle-outputs c e v = ground arith

-- A decision holds at most 5 actions, of the 8 that its array takes, and it reports the states and
-- faults before and after; the configuration and the readiness never change.
pub handle-decision :
    (c : Controller) (e : Event) (v : VehicleState)
    → let t = handle c e v in
      (length t.decision.actions ≤ 5)
      × (t.decision.previous_state ≡ c.state)
      × (t.decision.previous_fault ≡ c.fault)
      × (t.decision.state ≡ t.controller.state)
      × (t.decision.fault ≡ t.controller.fault)
      × (t.decision.profile_readiness ≡ c.profile_readiness)
      × (t.controller.config ≡ c.config)
      × (t.controller.profile_readiness ≡ c.profile_readiness)
unfolding handle
handle-decision c e v = ground arith

-- A controller reports a fault exactly while it is in the fault state.
pub record FaultMatches (c : Controller) : Type 0 where
  pub fault_reported : c.state ≡ ControllerState.fault → c.fault ≢ FaultCode.none
  pub no_fault : c.state ≢ ControllerState.fault → c.fault ≡ FaultCode.none

pub handle-FaultMatches :
    (c : Controller) (e : Event) (v : VehicleState)
    → FaultMatches c
    → FaultMatches (handle c e v).controller
unfolding handle
handle-FaultMatches c e v m = ground arith
