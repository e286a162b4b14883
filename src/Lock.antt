-- ===== src/Lock.antt =====
-- The trigger of a remote start: several presses of the lock button in time
-- (`Sequence`, from include/bmw_remote/application/lock_sequence_detector.hpp and
-- src/application/lock_sequence_detector.cpp), each admitted by a gate that checks its evidence
-- (`Gate`, from lock_command_gate.hpp and lock_command_gate.cpp). What holds of the detector is in
-- `Presses`, of the gate in `Admission` and `History`, and of everything presented in `Trace`. `Can`
-- makes the evidence from the frames of the CAN bus.
pub mod Sequence
pub mod Presses
pub mod Gate
pub mod Admission
pub mod History
pub mod Trace
pub mod Can
