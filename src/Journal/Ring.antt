-- ===== src/Journal/Ring.antt =====
-- `DiagnosticRecord` and the ring buffer of `DiagnosticJournal`. `std::array` of 32 records is a
-- function of the index, which the code always reduces modulo 32.
use bmw_e9x_remote_control.Common.{
  ℕ, ◌+◌, ◌%◌, Option, some, ltb, leb, ◌==◌, if◌then◌else◌, u32_mod,
}
use bmw_e9x_remote_control.Controller.Types.{ControllerState, FaultCode, EventType}

pub data DiagnosticRecordType : Type 0 where
  command_received state_transition request_rejected fault_entered : DiagnosticRecordType
  infrastructure_failure safing_failure : DiagnosticRecordType

pub data DiagnosticReason : Type 0 where
  none remote_start_disabled profile_not_ready safety_policy : DiagnosticReason
  invalid_state unsafe_reset : DiagnosticReason

pub record DiagnosticRecord : Type 0 where
  pub sequence : ℕ
  pub timestamp_ms : ℕ
  pub safety_reasons : ℕ
  pub type : DiagnosticRecordType
  pub trigger : EventType
  pub previous_state : ControllerState
  pub state : ControllerState
  pub fault : FaultCode
  pub reason : DiagnosticReason
  pub profile_reasons : ℕ

-- `DiagnosticRecord{}`.
abbrev pub empty_record : DiagnosticRecord
empty_record = record {
  sequence = 0;
  timestamp_ms = 0;
  safety_reasons = 0;
  type = command_received;
  trigger = EventType.vehicle_state_updated;
  previous_state = ControllerState.idle;
  state = ControllerState.idle;
  fault = FaultCode.none;
  reason = DiagnosticReason.none;
  profile_reasons = 0;
}

-- `MaximumRecords`.
abbrev pub maximum_records : ℕ
maximum_records = 32

pub record DiagnosticJournal : Type 0 where
  pub records : ℕ → DiagnosticRecord
  pub oldest_index : ℕ
  pub size : ℕ
  pub next_sequence : ℕ
  pub overwritten_count : ℕ

-- `clear`, and the members of a new journal.
abbrev pub empty_journal : DiagnosticJournal
empty_journal = record {
  records = λ i. empty_record;
  oldest_index = 0;
  size = 0;
  next_sequence = 1;
  overwritten_count = 0;
}

-- `records_[index] = record`.
abbrev pub store : (ℕ → DiagnosticRecord) → ℕ → DiagnosticRecord → ℕ → DiagnosticRecord
store records index r i = if i == index then r else records i

-- `append`. The sequence number wraps, the count of overwritten records saturates.
unfoldable pub append : DiagnosticJournal → DiagnosticRecord → DiagnosticJournal
append j r0 =
    let r = record r0 { sequence = j.next_sequence } in
    let next = (j.next_sequence + 1) % u32_mod in
    if ltb j.size maximum_records
    then record j {
      records = store j.records ((j.oldest_index + j.size) % maximum_records) r;
      size = j.size + 1;
      next_sequence = next;
    }
    else record j {
      records = store j.records j.oldest_index r;
      oldest_index = (j.oldest_index + 1) % maximum_records;
      overwritten_count =
          if ltb j.overwritten_count 4294967295
          then j.overwritten_count + 1
          else j.overwritten_count;
      next_sequence = next;
    }

-- `read`, which fails past the last record.
unfoldable pub read : DiagnosticJournal → ℕ → Option DiagnosticRecord
read j chronological_index =
    if leb j.size chronological_index
    then Option.none
    else some (j.records ((j.oldest_index + chronological_index) % maximum_records))

-- `clear`.
abbrev pub clear : DiagnosticJournal → DiagnosticJournal
clear j = empty_journal
