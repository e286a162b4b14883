-- ===== src/Supervisor/Reset.antt =====
-- When the supervisor's fault may be reset, and what a reset leaves.
use bmw_e9x_remote_control.Common.{ℕ, ◌≤◌, ◌<◌, ◌≡◌, ◌⊎◌, true, false, sub32}
use bmw_e9x_remote_control.Ports.{ActuatorPort}
use bmw_e9x_remote_control.Supervisor.Types.{
  ActuatorFeedback, ActuatorSafetyConfig, ActuatorSupervisorFault, Supervisor,
}
use bmw_e9x_remote_control.Supervisor.Commands.{enable_ignition, engage_starter}
use bmw_e9x_remote_control.Supervisor.Invariant.{OutputsOff}

-- The limits of a configuration.
pub record WithinLimits (c : ActuatorSafetyConfig) : Type 0 where
  pub watchdog_set : 1 ≤ c.watchdog_timeout_ms
  pub watchdog_bound : c.watchdog_timeout_ms ≤ 5000
  pub starter_set : 1 ≤ c.maximum_starter_active_ms
  pub starter_bound : c.maximum_starter_active_ms ≤ 10000
  pub grace_bound : c.feedback_grace_ms ≤ 1000
  pub grace_within_watchdog : c.feedback_grace_ms ≤ c.watchdog_timeout_ms

-- Time has not gone backwards since the supervisor last saw the clock.
abbrev pub IsOnTime : (driver : ActuatorPort) → Supervisor driver.State → ℕ → Type 0
IsOnTime driver s now_ms =
    (s.clock_initialized ≡ false)
    ⊎ (now_ms ≡ s.last_observed_ms)
    ⊎ (1 ≤ sub32 now_ms s.last_observed_ms) × (sub32 now_ms s.last_observed_ms < 2147483648)

-- The driver makes the outputs safe, and the feedback does not contradict it.
abbrev pub IsSafed : (driver : ActuatorPort) → Supervisor driver.State → ActuatorFeedback → Type 0
IsSafed driver s f =
    ((driver.disengage_starter s.downstream).1 ≡ true)
    × ((driver.secure_outputs (driver.disengage_starter s.downstream).0).1 ≡ true)
    × (s.config.require_feedback ≡ true → f.available ≡ true)
    × (f.available ≡ true → (f.ignition_active ≡ false) × (f.starter_active ≡ false))

-- Everything that a reset of the fault requires, of the supervisor, the driver and the feedback.
pub record MayReset (driver : ActuatorPort) (s : Supervisor driver.State) (now_ms : ℕ)
    (f : ActuatorFeedback) : Type 0 where
  pub clock : IsOnTime driver s now_ms
  pub limits : WithinLimits s.config
  pub safed : IsSafed driver s f

-- The supervisor once it has seen the clock.
abbrev seen_at : {D : Type 0} → Supervisor D → ℕ → Supervisor D
seen_at s now_ms = record s { last_observed_ms = now_ms; clock_initialized = true }

module _ (driver : ActuatorPort) where
  -- The supervisor `s'` after a reset of `s`.
  pub record IsReset (s s' : Supervisor driver.State) : Type 0 where
    pub sent : s'.downstream ≡ (driver.secure_outputs (driver.disengage_starter s.downstream).0).0
    pub initialized : s'.initialized ≡ true
    pub no_fault : s'.fault ≡ ActuatorSupervisorFault.none
    pub safed : s'.safing_failed ≡ false
    pub off : OutputsOff s'
    pub unpermitted : s'.hardware_start_permitted ≡ false
    pub ignition_refused : (enable_ignition driver s').1 ≡ false
    pub starter_refused : (engage_starter driver s').1 ≡ false

  abbrev AfterReset : Supervisor driver.State → Supervisor driver.State → Type 0
  AfterReset s s' =
      (s'.downstream ≡ (driver.secure_outputs (driver.disengage_starter s.downstream).0).0)
      × (s'.initialized ≡ true)
      × (s'.fault ≡ ActuatorSupervisorFault.none)
      × (s'.safing_failed ≡ false)
      × OutputsOff s'
      × (s'.hardware_start_permitted ≡ false)
      × (s'.heartbeat_initialized ≡ false)
