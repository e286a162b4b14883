-- ===== src/Lock/History.antt =====
-- What a remote-start request says of the evidence presented so far.
use bmw_e9x_remote_control.Common.{ℕ, ◌≡◌, refl, ap, ◌∙◌, true, List, [], ◌∷◌, length, arith}
use mathlib.Core.Path.{subst}
use bmw_e9x_remote_control.Lock.Sequence.{
  LockSequenceDetector, LockPressResult, sequence_config_is_valid, observe, reset_detector,
  LockSequenceConfig,
}
use bmw_e9x_remote_control.Lock.Presses.{Counts, Explains, IsSequence, observe-Explains, began_at}
use bmw_e9x_remote_control.Lock.Gate.{
  LockCommandEvidence, LockCommandStatus, LockCommandGate, LockCommandGateConfig,
  gate_config_is_valid, process, conclude, take_evidence, check_order, check_evidence,
}

abbrev pub times : List LockCommandEvidence → List ℕ
times [] = []
times (e ∷ es) = e.observed_at_ms ∷ times es

-- The gate's detector has counted the presses of `es`, newest first.
pub record GateCounts (g : LockCommandGate) (es : List LockCommandEvidence) : Type 0 where
  pub counts : Counts g.detector (times es)
  pub same_config : g.detector.config ≡ g.config.sequence
  pub valid : gate_config_is_valid g.config ≡ true

-- What a status says of the presses counted before and after.
abbrev pub GateExplains :
    LockCommandStatus
    → LockCommandGate
    → LockCommandEvidence
    → List LockCommandEvidence
    → LockCommandGate
    → Type 0
GateExplains LockCommandStatus.press_accepted g e es g' = GateCounts g' (e ∷ es)
GateExplains LockCommandStatus.sequence_restarted g e es g' = GateCounts g' (e ∷ [])
GateExplains LockCommandStatus.rejected_timing g e es g' = GateCounts g' es
GateExplains LockCommandStatus.remote_start_requested g e es g' =
    GateCounts g' []
    × IsSequence g.config.sequence (began_at g.detector e.observed_at_ms (times es))
        (times (e ∷ es))
    × (length (e ∷ es) ≡ g.config.sequence.required_presses)
GateExplains _ g e es g' = GateCounts g' []

length-times : (es : List LockCommandEvidence) → length (times es) ≡ length es
length-times [] = refl
length-times (e ∷ es) = omega (arith, length-times es)

valid_sequence :
    (c : LockCommandGateConfig)
    → gate_config_is_valid c ≡ true
    → sequence_config_is_valid c.sequence ≡ true
valid_sequence c h = ground arith

observe-config : (d : LockSequenceDetector) (t : ℕ) → (observe d t).0.config ≡ d.config
unfolding observe
observe-config d t = ground arith

-- The gate once `e` is the last evidence taken and `d` the detector.
abbrev taking : LockCommandGate → LockCommandEvidence → LockSequenceDetector → LockCommandGate
taking g e d = record g {
  detector = d;
  last_source_sequence = e.source_sequence;
  last_evidence_timestamp_ms = e.observed_at_ms;
  evidence_initialized = true;
}

conclude-GateExplains :
    (result : LockPressResult) (g : LockCommandGate) (e : LockCommandEvidence)
    (es : List LockCommandEvidence) (d : LockSequenceDetector)
    → GateCounts g es
    → d.config ≡ g.config.sequence
    → Explains result g.detector e.observed_at_ms (times es) d
    → let (g', status) = conclude (taking g e d) result in GateExplains status g e es g'
conclude-GateExplains LockPressResult.accepted g e es d c same x = record {
  counts = x;
  same_config = same;
  valid = c.valid;
}
conclude-GateExplains LockPressResult.sequence_completed g e es d c same x = (
  record { counts = x.2; same_config = same; valid = c.valid },
  subst (λ k. IsSequence k (began_at g.detector e.observed_at_ms (times es)) (times (e ∷ es)))
      c.same_config x.0,
  omega (
    arith,
    x.1,
    length-times es,
    ap (λ (k : LockSequenceConfig). k.required_presses) c.same_config,
  ),
)
conclude-GateExplains LockPressResult.sequence_restarted g e es d c same x = record {
  counts = x.0;
  same_config = same;
  valid = c.valid;
}
conclude-GateExplains LockPressResult.ignored_debounce g e es d c same x = record {
  counts = rw x.0 c.counts;
  same_config = same;
  valid = c.valid;
}
conclude-GateExplains LockPressResult.invalid_configuration g e es d c same x = absurd x

take_evidence-GateExplains :
    (g : LockCommandGate) (e : LockCommandEvidence) (es : List LockCommandEvidence)
    → GateCounts g es
    → let (g', status) = take_evidence g e in GateExplains status g e es g'
unfolding take_evidence
take_evidence-GateExplains g e es c =
    conclude-GateExplains (observe g.detector e.observed_at_ms).1 g e es
      (observe g.detector e.observed_at_ms).0 c
      (observe-config g.detector e.observed_at_ms ∙ c.same_config)
      (observe-Explains g.detector e.observed_at_ms (times es)
        (rw c.same_config (valid_sequence g.config c.valid)) c.counts)

-- A gate whose presses are forgotten.
forgotten :
    (g : LockCommandGate) (es : List LockCommandEvidence)
    → GateCounts g es
    → GateCounts (record g { detector = reset_detector g.detector }) []
forgotten g es c = record {
  counts = record { count = refl; unfinished = omega arith; byte = c.counts.byte; latest = tt };
  same_config = c.same_config;
  valid = c.valid;
}

check_order-GateExplains :
    (g : LockCommandGate) (e : LockCommandEvidence) (es : List LockCommandEvidence)
    → GateCounts g es
    → let (g', status) = check_order g e in GateExplains status g e es g'
unfolding check_order
check_order-GateExplains g e es c =
    ground (arith, take_evidence-GateExplains g e es c, forgotten g es c)

check_evidence-GateExplains :
    (g : LockCommandGate) (e : LockCommandEvidence) (now_ms : ℕ) (es : List LockCommandEvidence)
    → GateCounts g es
    → let (g', status) = check_evidence g e now_ms in GateExplains status g e es g'
unfolding check_evidence
check_evidence-GateExplains g e now_ms es c =
    ground (arith, check_order-GateExplains g e es c, forgotten g es c)

GateCounts-at_time :
    (g : LockCommandGate) (now_ms : ℕ) (es : List LockCommandEvidence)
    → GateCounts g es
    → GateCounts (record g { last_now_ms = now_ms; clock_initialized = true }) es
GateCounts-at_time g now_ms es c = record {
  counts = c.counts;
  same_config = c.same_config;
  valid = c.valid;
}

-- Every status of a gate on a valid configuration is explained by the presses it has counted: a
-- remote start is requested only by the required number of presses in time, and every rejection but
-- the one for timing starts over.
pub process-GateExplains :
    (g : LockCommandGate) (e : LockCommandEvidence) (now_ms : ℕ) (es : List LockCommandEvidence)
    → GateCounts g es
    → let (g', status) = process g e now_ms in GateExplains status g e es g'
unfolding process
process-GateExplains g e now_ms es c = ground (
  arith,
  check_evidence-GateExplains (record g { last_now_ms = now_ms; clock_initialized = true }) e now_ms
      es (GateCounts-at_time g now_ms es c),
  forgotten g es c,
)
