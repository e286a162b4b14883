-- ===== src/Runtime.antt =====
-- The embedded runtime (include/bmw_remote/infrastructure/runtime.hpp and
-- src/infrastructure/runtime.cpp): it hands an event to the controller, executes the actions of
-- the decision through the ports, and enters a safe state where a port fails.
pub mod Dispatch
pub mod Execution
pub mod Safing
pub mod Outcome
pub mod Supervised
pub mod System
