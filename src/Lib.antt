-- ===== src/Lib.antt =====
-- The decision core of the BMW E9x remote-control firmware: which conditions lead to a remote
-- start, what the controller then commands, and what guards the hardware behind it.
--
-- How the parts interact. Presses of the car's lock button are read from the CAN bus (Lock/Can),
-- pass a gate that checks their evidence (Lock/Gate) and a detector that counts them in time
-- (Lock/Sequence). The last one becomes the event that `Runtime::dispatch` hands to
-- `Controller::handle` (Runtime/Dispatch). The controller (Controller/Handler) decides by its state,
-- the safety policy (Safety) and the readiness of the selected vehicle profile (Readiness), and
-- emits a list of actions. The runtime executes them through the ports, writes to the diagnostic
-- journal (Journal), and where a port fails it hands the failure to the controller and executes what
-- makes the car safe. Behind the actuator port stands a supervisor (Supervisor) with a watchdog, a
-- hardware interlock and feedback checks.
-- Beside them, user settings (Settings) arrive as frames over a serial line, are checked, kept in a
-- journal of two slots, and configure the controller, the lock detector and the telemetry monitor
-- (Telemetry), which evaluates the features (Features) that the settings ask for.
--
-- Files and code. The headers stand under include/bmw_remote, the implementations under src.
-- Common: Boolean tests, masks of bits, 32-bit words, integers and lists that the parts share.
-- Domain/Signals: domain/vehicle_state.hpp. Domain/Profile: domain/vehicle_signal.hpp,
--   domain/vehicle_profile.hpp and vehicle_profile.cpp (`VehicleProfileRegistry::find`).
-- Safety: application/safety_policy.hpp and .cpp (`assessCommon`, `assessStart`,
--   `assessCranking`, `assessRemoteRun`, `assessDriverTakeover`). Safety/Conditions states what an
--   approval promises of the car; Safety/CommonTests, Approval and Reasons hold the proofs.
-- Readiness: application/profile_readiness.hpp and .cpp (`assessRemoteStartReadiness`); the
--   proofs are in Readiness/Laws.
-- Controller: application/controller.hpp and .cpp. Types has the data, Sequences the functions
--   from `beginPreparing` to `enterFault`, Handler `handle` and the function for each event.
--   Transitions, Outputs and Traces hold the proofs. A `Turn` is the controller with the decision
--   under construction, which the C++ functions change in place.
-- Lock/Sequence: application/lock_sequence_detector.hpp and .cpp (`observe`, `reset`). Lock/Gate:
--   application/lock_command_gate.hpp and .cpp (`process`, `reset`). Presses, Admission, History
--   and Trace hold the proofs. Lock/Can: infrastructure/can_lock_command_adapter.hpp and .cpp, and
--   can_frame.hpp of libs/can-core. Conditions and Outcomes below it state what the adapter looks
--   for and what it may do; Counter, Edges and Passage hold the proofs.
-- Ports: infrastructure/ports.hpp. A port is a type of states and functions on it that answer
--   true or false, so that the theorems hold for any hardware behind it.
-- Supervisor: infrastructure/actuator_safety_supervisor.hpp and .cpp. Types has the data, Device
--   the guard itself (`heartbeat`, `poll`, `resetFault`, `trip`), Commands the five commands of the
--   actuator port. Invariant, Runs, Guards, Reset and Wiring hold the proofs.
-- Journal/Ring and Journal/Records: infrastructure/diagnostic_journal.hpp and .cpp; the proofs
--   are in Journal/Window and Journal/Faults.
-- Runtime/Dispatch: infrastructure/runtime.hpp and .cpp; the proofs are in Runtime/Execution,
--   Runtime/Safing and Runtime/Outcome, and in Runtime/Supervised and Runtime/System for the
--   runtime with the supervisor as its actuator port.
-- Features: application/feature_catalog.hpp and .cpp; proofs in Features/Resolution. Telemetry:
--   application/telemetry_monitor.hpp and .cpp; proofs in Telemetry/Alerts.
-- Settings: application/user_settings.hpp and .cpp; proofs in Settings/Validation. Its child
--   modules model the settings files under infrastructure: Bytes (the little-endian words that
--   each of them repeats), Payload (settings_payload), Checksum (crc32), Identity
--   (settings_identity), Protocol (the codec of settings_protocol), Ports (the two settings
--   interfaces of ports.hpp, and `SettingsByteStorage`), Service (`handle` of settings_protocol),
--   Storage (settings_storage) and Stream (settings_stream). The modules below these hold proofs.
-- Tests: runs on concrete inputs.
--
-- Conventions. A C++ object is a record, and a member function returns the new record with its
-- result. An unsigned 32-bit difference of times is `sub32`, which wraps; counters wrap or saturate
-- as in the code. A buffer of bytes is the list of its bytes. Enumerations are data types, but for
-- those to which the code casts a received byte without a check, which are numbers; where the code
-- compares or casts their underlying values, a function gives the value. A `Decision` holds its
-- actions as a list that takes at most 8 entries, as the array does. Every loop of this code runs over a list or a fixed number of times, so
-- no fuel is needed.
--
-- Not modelled: the tables of names (`toString`); the start observer; the other CAN adapters, the
-- replay and the rest of the can-core library; the ESP-IDF adapters, the entry point and the desktop tools, which are
-- input and output. The storage behind the settings journal is a parameter, and what the journal
-- relies on is the record `SlotStorage` (Settings/Storage/Reliability).
pub mod Common
pub mod Domain
pub mod Safety
pub mod Readiness
pub mod Controller
pub mod Lock
pub mod Ports
pub mod Supervisor
pub mod Journal
pub mod Runtime
pub mod Features
pub mod Telemetry
pub mod Settings
pub mod Tests
