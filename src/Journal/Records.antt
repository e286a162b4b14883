-- ===== src/Journal/Records.antt =====
-- The records that the journal keeps of a decision and of a failure.
use bmw_e9x_remote_control.Common.{ℕ, Bool, true, false, not, ◌&&◌, ◌==◌, if◌then◌else◌}
use bmw_e9x_remote_control.Controller.Types.{
  ControllerState, FaultCode, EventType, Event, ActionType, Decision,
}
use bmw_e9x_remote_control.Controller.Sequences.{contains_action}
use bmw_e9x_remote_control.Journal.Ring.{
  DiagnosticRecordType, DiagnosticReason, DiagnosticRecord, DiagnosticJournal, empty_record, append,
}

-- `isCommand`.
abbrev pub is_command : EventType → Bool
is_command EventType.remote_start_requested = true
is_command EventType.remote_stop_requested = true
is_command EventType.driver_takeover_confirmed = true
is_command EventType.reset_requested = true
is_command EventType.vehicle_state_updated = false
is_command EventType.timer_elapsed = false
is_command EventType.infrastructure_failure = false

-- `rejectionReason`.
unfoldable pub rejection_reason : Decision → DiagnosticReason
rejection_reason d =
    if contains_action d.actions ActionType.notify_remote_start_disabled
    then DiagnosticReason.remote_start_disabled
    else if contains_action d.actions ActionType.notify_profile_rejected
    then DiagnosticReason.profile_not_ready
    else if contains_action d.actions ActionType.notify_start_rejected
    then DiagnosticReason.safety_policy
    else if contains_action d.actions ActionType.notify_reset_rejected
    then DiagnosticReason.unsafe_reset
    else if contains_action d.actions ActionType.notify_request_ignored
    then DiagnosticReason.invalid_state
    else DiagnosticReason.none

-- `makeRecord`.
abbrev pub make_record :
    DiagnosticRecordType → EventType → Decision → DiagnosticReason → ℕ → DiagnosticRecord
make_record type trigger d reason timestamp_ms = record {
  sequence = 0;
  timestamp_ms = timestamp_ms;
  safety_reasons = d.safety.reasons;
  type = type;
  trigger = trigger;
  previous_state = d.previous_state;
  state = d.state;
  fault = d.fault;
  reason = reason;
  profile_reasons = d.profile_readiness.reasons;
}

-- The underlying value of the enumeration.
abbrev pub state_index : ControllerState → ℕ
state_index ControllerState.idle = 0
state_index ControllerState.authorizing = 1
state_index ControllerState.preparing = 2
state_index ControllerState.cranking = 3
state_index ControllerState.running = 4
state_index ControllerState.awaiting_takeover = 5
state_index ControllerState.driver_control = 6
state_index ControllerState.stopping = 7
state_index ControllerState.fault = 8

abbrev pub same_state : ControllerState → ControllerState → Bool
same_state s t = state_index s == state_index t

abbrev pub is_reason : DiagnosticReason → Bool
is_reason DiagnosticReason.none = false
is_reason _ = true

abbrev pub fault_reason : FaultCode → DiagnosticReason
fault_reason FaultCode.safety_interlock = DiagnosticReason.safety_policy
fault_reason _ = DiagnosticReason.none

-- The record of a command shows the state and fault before it.
abbrev pub command_record : Event → Decision → ℕ → DiagnosticRecord
command_record e d timestamp_ms =
    record (make_record DiagnosticRecordType.command_received e.type d DiagnosticReason.none
      timestamp_ms) { state = d.previous_state; fault = d.previous_fault }

-- `DiagnosticJournal::observe`.
unfoldable pub observe : DiagnosticJournal → Event → Decision → ℕ → DiagnosticJournal
observe j e d timestamp_ms =
    let j1 = if is_command e.type then append j (command_record e d timestamp_ms) else j in
    let j2 =
      if not (same_state d.previous_state d.state)
      then append j1 (
          make_record DiagnosticRecordType.state_transition e.type d DiagnosticReason.none
            timestamp_ms)
      else j1 in
    let rejected = rejection_reason d in
    let j3 =
      if is_reason rejected
      then append j2
          (make_record DiagnosticRecordType.request_rejected e.type d rejected timestamp_ms)
      else j2 in
    if same_state d.state ControllerState.fault
      && not (same_state d.previous_state ControllerState.fault)
    then append j3 (
        make_record DiagnosticRecordType.fault_entered e.type d (fault_reason d.fault) timestamp_ms)
    else j3

-- `recordFailure`.
unfoldable pub record_failure :
    DiagnosticJournal
    → DiagnosticRecordType
    → EventType
    → ControllerState
    → FaultCode
    → ℕ
    → DiagnosticJournal
record_failure j type trigger state fault timestamp_ms = append j (record empty_record {
  timestamp_ms = timestamp_ms;
  type = type;
  trigger = trigger;
  previous_state = state;
  state = state;
  fault = fault;
})

-- `recordInfrastructureFailure`.
unfoldable pub record_infrastructure_failure :
    DiagnosticJournal → EventType → ControllerState → FaultCode → ℕ → DiagnosticJournal
record_infrastructure_failure j trigger state fault timestamp_ms =
    record_failure j DiagnosticRecordType.infrastructure_failure trigger state fault timestamp_ms

-- `recordSafingFailure`.
unfoldable pub record_safing_failure :
    DiagnosticJournal → ControllerState → FaultCode → ℕ → DiagnosticJournal
record_safing_failure j state fault timestamp_ms =
    record_failure j DiagnosticRecordType.safing_failure EventType.infrastructure_failure state
      fault timestamp_ms
