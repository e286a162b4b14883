-- ===== src/Tests.antt =====
-- Runs on concrete inputs: default configurations, a parked car, and a start that succeeds.
pub mod Data
pub mod Policies
pub mod Presses
pub mod Hardware
pub mod Machine
pub mod Settings
pub mod Storage
