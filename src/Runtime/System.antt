-- ===== src/Runtime/System.antt =====
-- The runtime, the supervisor and the driver together, under any interleaving of calls.
use bmw_e9x_remote_control.Common.{ℕ, ◌≡◌, Bool, true, List, [], ◌∷◌, arith}
use bmw_e9x_remote_control.Domain.{VehicleState}
use bmw_e9x_remote_control.Controller.Types.{Event}
use bmw_e9x_remote_control.Ports.{VehicleGateway, TimerPort}
use bmw_e9x_remote_control.Supervisor.Types.{
  Supervisor, ActuatorSafetyConfig, ActuatorSupervisorFault, config_is_valid,
}
use bmw_e9x_remote_control.Supervisor.Commands.{supervised, new_supervisor}
use bmw_e9x_remote_control.Supervisor.Invariant.{IsSafe, new_supervisor-IsSafe}
use bmw_e9x_remote_control.Supervisor.Runs.{Call, call, call-IsSafe}
use bmw_e9x_remote_control.Supervisor.Wiring.{
  Command, recorder, WiresMatch, call-WiresMatch, new_supervisor-WiresMatch, ignition_wire,
  starter_wire,
}
use bmw_e9x_remote_control.Runtime.Dispatch.{Runtime, dispatch}
use bmw_e9x_remote_control.Runtime.Supervised.{dispatch-supervised}

-- One step: an event for the runtime, or a call of the supervisor by its owner.
pub data SystemStep : Type 0 where
  dispatches : Event → VehicleState → ℕ → SystemStep
  supervises : Call → SystemStep

-- The wires after all commands that the driver was sent.
pub record WiresAreSafe (s : Supervisor (List Command)) : Type 0 where
  -- The starter turns only with the ignition on, and either only on a supervisor that is
  -- initialised, without a fault and on a valid configuration.
  pub with_ignition : starter_wire s.downstream ≡ true → ignition_wire s.downstream ≡ true
  pub without_fault : ignition_wire s.downstream ≡ true → s.fault ≡ ActuatorSupervisorFault.none
  pub initialized : ignition_wire s.downstream ≡ true → s.initialized ≡ true
  pub valid : ignition_wire s.downstream ≡ true → config_is_valid s.config ≡ true

module _ (G : VehicleGateway) (T : TimerPort) (answer : List Command → Bool) where
  abbrev pub System : Type 0
  System = Runtime G.State (Supervisor (List Command)) T.State

  unfoldable pub step : System → SystemStep → System
  step r (dispatches e v timestamp_ms) =
      (dispatch G (supervised (recorder answer)) T r e v timestamp_ms).0
  step r (supervises k) = record r { actuators = call (recorder answer) r.actuators k }

  unfoldable pub steps : System → List SystemStep → System
  steps r [] = r
  steps r (k ∷ ks) = steps (step r k) ks

  step-guarded :
      (r : System) (k : SystemStep)
      → IsSafe r.actuators × WiresMatch r.actuators
      → IsSafe (step r k).actuators × WiresMatch (step r k).actuators
  unfolding step
  step-guarded r (dispatches e v timestamp_ms) h =
      dispatch-supervised G T answer r e v timestamp_ms h.0 h.1
  step-guarded r (supervises k) h =
      (call-IsSafe (recorder answer) r.actuators k h.0, call-WiresMatch answer r.actuators k h.1)

  steps-guarded :
      (r : System) (ks : List SystemStep)
      → IsSafe r.actuators × WiresMatch r.actuators
      → IsSafe (steps r ks).actuators × WiresMatch (steps r ks).actuators
  unfolding steps
  steps-guarded r [] h = h
  steps-guarded r (k ∷ ks) h = steps-guarded (step r k) ks (step-guarded r k h)

  guarded-WiresAreSafe : (s : Supervisor (List Command)) → IsSafe s → WiresMatch s → WiresAreSafe s
  guarded-WiresAreSafe s h w = ground (arith, h, w)

  -- Whatever events, vehicle states, supervisor calls and answers of the ports come, in whatever
  -- order, the commands sent to the driver leave the starter on only with the ignition, and the
  -- ignition only while the supervisor is initialised, without a fault and on a valid configuration.
  pub steps-WiresAreSafe :
      (r : System) (c : ActuatorSafetyConfig) (ks : List SystemStep)
      → r.actuators ≡ new_supervisor (recorder answer) [] c
      → WiresAreSafe (steps r ks).actuators
  steps-WiresAreSafe r c ks fresh =
      let (safe, wires) = steps-guarded r ks (
        rw fresh (new_supervisor-IsSafe (recorder answer) [] c),
        rw fresh (new_supervisor-WiresMatch answer c),
      ) in
      guarded-WiresAreSafe (steps r ks).actuators safe wires
