-- ===== src/Lock/Gate.antt =====
-- lock_command_gate.hpp and lock_command_gate.cpp: the checks on the evidence of a lock press.
use bmw_e9x_remote_control.Common.{
  ℕ, ◌-◌, ◌*◌, Bool, true, false, not, ◌&&◌, ◌||◌, ltb, leb, ◌==◌, if◌then◌else◌, sub32,
  strictly_newer,
}
use bmw_e9x_remote_control.Lock.Sequence.{
  LockSequenceConfig, LockSequenceDetector, LockPressResult, observe, reset_detector, new_detector,
  default_config,
}

pub data LockCommandSource : Type 0 where
  unspecified vehicle_adapter synthetic_test : LockCommandSource

pub data LockCommandTrust : Type 0 where
  unverified candidate verified : LockCommandTrust

pub record LockCommandEvidence : Type 0 where
  pub source : LockCommandSource
  pub trust : LockCommandTrust
  pub source_sequence : ℕ
  pub observed_at_ms : ℕ
  pub vehicle_secured : Bool

pub data LockCommandStatus : Type 0 where
  press_accepted sequence_restarted remote_start_requested : LockCommandStatus
  rejected_invalid_configuration rejected_untrusted_source : LockCommandStatus
  rejected_synthetic_source rejected_vehicle_not_secured : LockCommandStatus
  rejected_stale_evidence rejected_future_evidence : LockCommandStatus
  rejected_duplicate_sequence rejected_out_of_order_sequence : LockCommandStatus
  rejected_non_monotonic_evidence rejected_clock_regression rejected_timing : LockCommandStatus

-- `LockCommandDecision::accepted`. A decision is its status.
abbrev pub status_accepted : LockCommandStatus → Bool
status_accepted LockCommandStatus.press_accepted = true
status_accepted LockCommandStatus.sequence_restarted = true
status_accepted LockCommandStatus.remote_start_requested = true
status_accepted _ = false

pub record LockCommandGateConfig : Type 0 where
  pub sequence : LockSequenceConfig
  pub maximum_evidence_age_ms : ℕ
  pub allow_synthetic_source : Bool

-- `LockCommandGateConfig{}`.
abbrev pub default_gate_config : LockCommandGateConfig
default_gate_config = record {
  sequence = default_config;
  maximum_evidence_age_ms = 500;
  allow_synthetic_source = false;
}

-- `MaximumEvidenceAgeLimitMs`.
abbrev pub maximum_evidence_age_limit_ms : ℕ
maximum_evidence_age_limit_ms = 5000

pub record LockCommandGate : Type 0 where
  pub config : LockCommandGateConfig
  pub detector : LockSequenceDetector
  pub last_now_ms : ℕ
  pub last_source_sequence : ℕ
  pub last_evidence_timestamp_ms : ℕ
  pub clock_initialized : Bool
  pub evidence_initialized : Bool

-- The constructor.
abbrev pub new_gate : LockCommandGateConfig → LockCommandGate
new_gate config = record {
  config = config;
  detector = new_detector config.sequence;
  last_now_ms = 0;
  last_source_sequence = 0;
  last_evidence_timestamp_ms = 0;
  clock_initialized = false;
  evidence_initialized = false;
}

-- `isFuture`.
abbrev pub is_future : ℕ → ℕ → Bool
is_future timestamp now_ms = not (timestamp == now_ms) && strictly_newer timestamp now_ms

-- `configIsValid`, which repeats the detector's test.
abbrev pub gate_config_is_valid : LockCommandGateConfig → Bool
gate_config_is_valid c =
    let s = c.sequence in
    let required_intervals = if s.required_presses == 0 then 0 else s.required_presses - 1 in
    let minimum_sequence_time = required_intervals * s.minimum_gap_ms in
    not (s.required_presses == 0)
    && leb s.minimum_gap_ms s.maximum_gap_ms
    && leb s.maximum_gap_ms s.maximum_sequence_ms
    && leb minimum_sequence_time s.maximum_sequence_ms
    && not (c.maximum_evidence_age_ms == 0)
    && leb c.maximum_evidence_age_ms maximum_evidence_age_limit_ms

abbrev pub reset_gate : LockCommandGate → LockCommandGate
reset_gate g = record g {
  detector = reset_detector g.detector;
  last_now_ms = 0;
  last_source_sequence = 0;
  last_evidence_timestamp_ms = 0;
  clock_initialized = false;
  evidence_initialized = false;
}

-- `reject`: the presses counted so far are forgotten.
abbrev pub reject : LockCommandGate → LockCommandStatus → LockCommandGate × LockCommandStatus
reject g status = (record g { detector = reset_detector g.detector }, status)

abbrev pub is_verified : LockCommandTrust → Bool
is_verified LockCommandTrust.verified = true
is_verified _ = false

abbrev pub is_unspecified : LockCommandSource → Bool
is_unspecified LockCommandSource.unspecified = true
is_unspecified _ = false

abbrev pub is_synthetic : LockCommandSource → Bool
is_synthetic LockCommandSource.synthetic_test = true
is_synthetic _ = false

-- The `switch` on the detector's result.
abbrev pub conclude : LockCommandGate → LockPressResult → LockCommandGate × LockCommandStatus
conclude g LockPressResult.accepted = (g, LockCommandStatus.press_accepted)
conclude g LockPressResult.sequence_completed = (g, LockCommandStatus.remote_start_requested)
conclude g LockPressResult.sequence_restarted = (g, LockCommandStatus.sequence_restarted)
conclude g LockPressResult.ignored_debounce = (g, LockCommandStatus.rejected_timing)
conclude g LockPressResult.invalid_configuration =
    reject g LockCommandStatus.rejected_invalid_configuration

-- The last part of `process`: the evidence is taken, and its press is observed.
unfoldable pub take_evidence :
    LockCommandGate → LockCommandEvidence → LockCommandGate × LockCommandStatus
take_evidence g evidence =
    let (d, result) = observe g.detector evidence.observed_at_ms in
    conclude
      (record g {
        detector = d;
        last_source_sequence = evidence.source_sequence;
        last_evidence_timestamp_ms = evidence.observed_at_ms;
        evidence_initialized = true;
      })
      result

-- The part of `process` that compares with the last evidence taken.
unfoldable pub check_order :
    LockCommandGate → LockCommandEvidence → LockCommandGate × LockCommandStatus
check_order g evidence =
    if not g.evidence_initialized
    then take_evidence g evidence
    else if evidence.source_sequence == g.last_source_sequence
    then reject g LockCommandStatus.rejected_duplicate_sequence
    else if not (strictly_newer evidence.source_sequence g.last_source_sequence)
    then reject g LockCommandStatus.rejected_out_of_order_sequence
    else if evidence.observed_at_ms == g.last_evidence_timestamp_ms
        || not (strictly_newer evidence.observed_at_ms g.last_evidence_timestamp_ms)
    then reject g LockCommandStatus.rejected_non_monotonic_evidence
    else take_evidence g evidence

-- The part of `process` that judges the evidence by itself, once the clock is accepted.
unfoldable pub check_evidence :
    LockCommandGate → LockCommandEvidence → ℕ → LockCommandGate × LockCommandStatus
check_evidence g evidence now_ms =
    if not (is_verified evidence.trust) || is_unspecified evidence.source
    then reject g LockCommandStatus.rejected_untrusted_source
    else if is_synthetic evidence.source && not g.config.allow_synthetic_source
    then reject g LockCommandStatus.rejected_synthetic_source
    else if not evidence.vehicle_secured
    then reject g LockCommandStatus.rejected_vehicle_not_secured
    else if is_future evidence.observed_at_ms now_ms
    then reject g LockCommandStatus.rejected_future_evidence
    else if ltb g.config.maximum_evidence_age_ms (sub32 now_ms evidence.observed_at_ms)
    then reject g LockCommandStatus.rejected_stale_evidence
    else check_order g evidence

unfoldable pub process :
    LockCommandGate → LockCommandEvidence → ℕ → LockCommandGate × LockCommandStatus
process g evidence now_ms =
    if not (gate_config_is_valid g.config)
    then reject g LockCommandStatus.rejected_invalid_configuration
    else if g.clock_initialized
        && not (now_ms == g.last_now_ms)
        && not (strictly_newer now_ms g.last_now_ms)
    then reject g LockCommandStatus.rejected_clock_regression
    else check_evidence (record g { last_now_ms = now_ms; clock_initialized = true }) evidence
        now_ms
