-- ===== src/Controller.antt =====
-- The remote-start controller (include/bmw_remote/application/controller.hpp and
-- src/application/controller.cpp): its state and decisions (`Types`), the action sequences
-- (`Sequences`), the event handlers (`Handler`), and their proofs.
pub mod Types
pub mod Sequences
pub mod Handler
pub mod Transitions
pub mod Outputs
pub mod Traces
