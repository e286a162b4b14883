-- ===== src/Tests/Presses.antt =====
-- Three presses of the lock button.
use bmw_e9x_remote_control.Common.{
  ℕ, ◌<◌, ◌^◌, ◌≡◌, refl, true, false, some, List, [], ◌∷◌, length, strictly_newer, arith,
}
use bmw_e9x_remote_control.Lock.Sequence.{
  LockSequenceDetector, default_config, new_detector, start_at, observe,
}
use bmw_e9x_remote_control.Lock.Presses.{Counts, IsSequence}
use bmw_e9x_remote_control.Lock.Gate.{
  LockCommandSource, LockCommandTrust, LockCommandEvidence, LockCommandStatus, LockCommandGate,
  default_gate_config, new_gate, status_accepted, process, check_evidence, check_order,
  take_evidence,
}
use bmw_e9x_remote_control.Lock.Admission.{
  IsAdmissible, Remembers, accepted-IsAdmissible, replay_rejected,
}
use bmw_e9x_remote_control.Lock.History.{GateCounts, GateExplains, process-GateExplains, times}
use bmw_e9x_remote_control.Lock.Trace.{after, Picks, request_needs_presses}
use bmw_e9x_remote_control.Lock.Can.{
  CanFrame, CanCounterField, CanLockCommandAdapterConfig, CanLockDecodeStatus,
  CanLockCommandPipeline, adapter_config_is_valid, counter_distance, counter_is_valid, bit_count,
  extract, process_frame, present, process_pipeline,
}
use bmw_e9x_remote_control.Lock.Can.Counter.{packed, digit_sum, extract-packed}
use bmw_e9x_remote_control.Lock.Can.Passage.{Passage, process_pipeline-Passage}

abbrev press : ℕ → ℕ → LockCommandEvidence
press n ms = record {
  source = LockCommandSource.vehicle_adapter;
  trust = LockCommandTrust.verified;
  source_sequence = n;
  observed_at_ms = ms;
  vehicle_secured = true;
}

abbrev one_press : LockSequenceDetector
one_press = start_at (new_detector default_config) 500

one_press-Counts : Counts one_press (500 ∷ [])
one_press-Counts = record {
  count = refl;
  unfinished = omega arith;
  byte = omega arith;
  latest = (refl, refl);
}

abbrev pressed_once : LockCommandGate
pressed_once = record (new_gate default_gate_config) {
  detector = one_press;
  last_now_ms = 500;
  last_source_sequence = 1;
  last_evidence_timestamp_ms = 500;
  clock_initialized = true;
  evidence_initialized = true;
}

press_taken : status_accepted (process pressed_once (press 2 1000) 1000).1 ≡ true
unfolding process check_evidence check_order take_evidence observe strictly_newer
press_taken = refl

accepted-IsAdmissible_example :
    IsAdmissible pressed_once (press 2 1000) 1000
    × Remembers (process pressed_once (press 2 1000) 1000).0 (press 2 1000)
accepted-IsAdmissible_example = accepted-IsAdmissible pressed_once (press 2 1000) 1000 press_taken

replay_rejected_example :
    status_accepted (process (process pressed_once (press 2 1000) 1000).0 (press 2 1000) 1200).1
    ≡ false
replay_rejected_example = replay_rejected pressed_once (press 2 1000) 1000 1200 press_taken

pressed_once-GateCounts : GateCounts pressed_once (press 1 500 ∷ [])
pressed_once-GateCounts = record { counts = one_press-Counts; same_config = refl; valid = refl }

process-GateExplains_example :
    let (g', status) = process pressed_once (press 2 1000) 1000 in
    GateExplains status pressed_once (press 2 1000) (press 1 500 ∷ []) g'
process-GateExplains_example =
    process-GateExplains pressed_once (press 2 1000) 1000 (press 1 500 ∷ []) pressed_once-GateCounts

abbrev two_presses : List (LockCommandEvidence × ℕ)
two_presses = (press 2 1000, 1000) ∷ (press 1 500, 500) ∷ []

third_press_requests :
    (process (after (new_gate default_gate_config) two_presses) (press 3 1500) 1500).1
    ≡ LockCommandStatus.remote_start_requested
unfolding after process check_evidence check_order take_evidence observe strictly_newer
third_press_requests = refl

request_needs_presses_example :
    (es : List LockCommandEvidence) × (first : ℕ) × Picks default_gate_config
      (press 3 1500 ∷ es)
      ((press 3 1500, 1500) ∷ two_presses)
    × IsSequence default_config first (times (press 3 1500 ∷ es))
    × (length (press 3 1500 ∷ es) ≡ 3)
request_needs_presses_example =
    request_needs_presses default_gate_config two_presses (press 3 1500) 1500 refl (omega arith)
      third_press_requests

-- Bit 0 of byte 0 is the lock command, bit 1 of it that the vehicle is secured, and the low half of
-- byte 1 counts.
abbrev lock_frames : CanLockCommandAdapterConfig
lock_frames = record {
  is_enabled = true;
  trust = LockCommandTrust.verified;
  identifier = 786;
  extended = false;
  data_length = 2;
  lock_command = record { byte_index = 0; mask = 1; expected_value = 1 };
  vehicle_secured = record { byte_index = 0; mask = 2; expected_value = 2 };
  rolling_counter = record { byte_index = 1; mask = 15 };
}

abbrev lock_frame : ℕ → ℕ → ℕ → CanFrame
lock_frame us bits count = record {
  timestamp_us = us;
  identifier = 786;
  data_length = 2;
  extended = false;
  data_bytes = bits ∷ count ∷ [];
}

-- One frame was seen, with the command bit inactive and the counter at its end.
abbrev watching : CanLockCommandPipeline
watching = record {
  adapter = record {
    config = lock_frames;
    last_timestamp_ms = 900;
    expanded_sequence = 1;
    last_raw_counter = 15;
    last_command_active = false;
    is_initialized = true;
  };
  gate = pressed_once;
}

edge_accepted : (process_pipeline watching (lock_frame 1000000 3 0) 1000).1 ≡ record {
  status = CanLockDecodeStatus.evidence_produced;
  command = some LockCommandStatus.press_accepted;
}
unfolding process_pipeline present process_frame adapter_config_is_valid counter_distance
    counter_is_valid bit_count extract process check_evidence check_order take_evidence observe
    strictly_newer
edge_accepted = refl

process_pipeline-Passage_example :
    Passage watching
      (lock_frame 1000000 3 0)
      1000
      (process_pipeline watching (lock_frame 1000000 3 0) 1000)
process_pipeline-Passage_example = process_pipeline-Passage watching (lock_frame 1000000 3 0) 1000

-- Three bits of a byte, two of them apart from the third.
abbrev scattered : CanCounterField
scattered = record { byte_index = 1; mask = 0x92 }

extract-packed_example :
    (extract scattered (lock_frame 1000000 3 0xd2) ≡ packed 8 0xd2 0x92)
    × (bit_count scattered ≡ digit_sum 8 0x92)
    × (extract scattered (lock_frame 1000000 3 0xd2) < 2 ^ bit_count scattered)
extract-packed_example =
    extract-packed scattered (lock_frame 1000000 3 0xd2) (omega arith) (omega arith)
