-- ===== src/Supervisor.antt =====
-- The actuator safety supervisor
-- (include/bmw_remote/infrastructure/actuator_safety_supervisor.hpp and
-- src/infrastructure/actuator_safety_supervisor.cpp): a guard between the runtime and the
-- actuator driver, with a watchdog, a hardware interlock and feedback checks.
pub mod Types
pub mod Device
pub mod Commands
pub mod Invariant
pub mod Runs
pub mod Guards
pub mod Reset
pub mod Wiring
