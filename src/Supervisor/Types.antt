-- ===== src/Supervisor/Types.antt =====
-- The data of the supervisor, over any driver.
use bmw_e9x_remote_control.Common.{ℕ, Bool, true, false, not, ◌&&◌, leb, ◌==◌}

pub record ActuatorFeedback : Type 0 where
  pub available : Bool
  pub ignition_active : Bool
  pub starter_active : Bool

pub record ActuatorSafetyConfig : Type 0 where
  pub watchdog_timeout_ms : ℕ
  pub maximum_starter_active_ms : ℕ
  pub feedback_grace_ms : ℕ
  pub require_feedback : Bool

-- `MaximumWatchdogTimeoutMs`, `MaximumStarterActiveMs` and `MaximumFeedbackGraceMs`.
abbrev pub maximum_watchdog_timeout_ms : ℕ
maximum_watchdog_timeout_ms = 5000

abbrev pub maximum_starter_active_limit_ms : ℕ
maximum_starter_active_limit_ms = 10000

abbrev pub maximum_feedback_grace_ms : ℕ
maximum_feedback_grace_ms = 1000

-- `ActuatorSafetyConfig{}`.
abbrev pub default_config : ActuatorSafetyConfig
default_config = record {
  watchdog_timeout_ms = 500;
  maximum_starter_active_ms = 5000;
  feedback_grace_ms = 100;
  require_feedback = true;
}

pub data ActuatorSupervisorFault : Type 0 where
  none invalid_configuration initialization_failure clock_regression : ActuatorSupervisorFault
  watchdog_expired hardware_interlock_lost starter_timeout : ActuatorSupervisorFault
  command_sequence driver_failure feedback_unavailable : ActuatorSupervisorFault
  feedback_mismatch safing_failure : ActuatorSupervisorFault

abbrev pub is_none : ActuatorSupervisorFault → Bool
is_none ActuatorSupervisorFault.none = true
is_none _ = false

-- `configIsValid`.
abbrev pub config_is_valid : ActuatorSafetyConfig → Bool
config_is_valid c =
    not (c.watchdog_timeout_ms == 0)
    && leb c.watchdog_timeout_ms maximum_watchdog_timeout_ms
    && not (c.maximum_starter_active_ms == 0)
    && leb c.maximum_starter_active_ms maximum_starter_active_limit_ms
    && leb c.feedback_grace_ms maximum_feedback_grace_ms
    && leb c.feedback_grace_ms c.watchdog_timeout_ms

-- The members of `ActuatorSafetySupervisor`; `downstream` is the state of `driver_`.
pub record Supervisor (D : Type 0) : Type 0 where
  pub downstream : D
  pub config : ActuatorSafetyConfig
  pub fault : ActuatorSupervisorFault
  pub last_observed_ms : ℕ
  pub last_heartbeat_ms : ℕ
  pub starter_engaged_at_ms : ℕ
  pub last_output_change_ms : ℕ
  pub initialized : Bool
  pub clock_initialized : Bool
  pub heartbeat_initialized : Bool
  pub hardware_start_permitted : Bool
  pub ignition_commanded : Bool
  pub starter_commanded : Bool
  pub ignition_feedback_confirmed : Bool
  pub safing_failed : Bool

-- `status().healthy()`.
abbrev pub healthy : {D : Type 0} → Supervisor D → Bool
healthy s = s.initialized && is_none s.fault && not s.safing_failed
