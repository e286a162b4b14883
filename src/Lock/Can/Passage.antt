-- ===== src/Lock/Can/Passage.antt =====
-- How a frame passes through the pipeline of the adapter and the gate.
use bmw_e9x_remote_control.Common.{ℕ, ◌≡◌, ◌⊎◌, refl, true, false, Option, some}
use bmw_e9x_remote_control.Lock.Gate.{
  LockCommandEvidence, LockCommandGate, process, status_accepted,
}
use bmw_e9x_remote_control.Lock.Admission.{IsAdmissible, accepted-IsAdmissible}
use bmw_e9x_remote_control.Lock.Can.{
  CanFrame, CanLockCommandAdapter, CanLockDecodeResult, CanLockDecodeStatus, process_frame,
  requires_gesture_reset, present, process_pipeline, CanLockCommandPipeline, CanLockPipelineResult,
}
use bmw_e9x_remote_control.Lock.Can.Conditions.{Shows}
use bmw_e9x_remote_control.Lock.Can.Edges.{process_frame-Decoded}
use bmw_e9x_remote_control.Lock.Can.Outcomes.{
  IsRead, IsNext, Remembers, next_sequence, IsEdge, Skips, switched_off, other_frame, Rejects,
  unusable, malformed, other_length, late, repeated, far, restarted, Decoded,
}

-- The gate as it was made, on its configuration.
abbrev pub emptied : LockCommandGate → LockCommandGate
emptied g = record {
  config = g.config;
  detector = record {
    config = g.detector.config;
    first_press_timestamp_ms = 0;
    last_press_timestamp_ms = 0;
    press_count = 0;
  };
  last_now_ms = 0;
  last_source_sequence = 0;
  last_evidence_timestamp_ms = 0;
  clock_initialized = false;
  evidence_initialized = false;
}

-- The pipeline's answer for a frame that gives the gate nothing.
abbrev pub silent : CanLockDecodeStatus → CanLockPipelineResult
silent status = record { status = status; command = Option.none }

-- The ways in which a frame may pass through the pipeline.
pub data Passage (p : CanLockCommandPipeline) (f : CanFrame) (now_ms : ℕ)
    : CanLockCommandPipeline × CanLockPipelineResult → Type 0 where
  skipped :
      (status : CanLockDecodeStatus)
      → Skips p.adapter f status
      → Passage p f now_ms (p, silent status)
  cleared :
      (status : CanLockDecodeStatus)
      → Rejects p.adapter f status
      → Passage p f now_ms
          (record { adapter = restarted p.adapter; gate = emptied p.gate }, silent status)
  first :
      (a : CanLockCommandAdapter)
      → IsRead p.adapter f
      → p.adapter.is_initialized ≡ false
      → Remembers p.adapter f p.adapter.expanded_sequence a
      → Passage p f now_ms
          (record { adapter = a; gate = p.gate }, silent CanLockDecodeStatus.primed)
  quiet :
      (a : CanLockCommandAdapter)
      → IsNext p.adapter f
      → (p.adapter.last_command_active ≡ true) ⊎ (¬ Shows p.adapter.config.lock_command f)
      → Remembers p.adapter f (next_sequence p.adapter f) a
      → Passage p f now_ms
          (record { adapter = a; gate = p.gate }, silent CanLockDecodeStatus.no_command)
  pressed :
      (a : CanLockCommandAdapter) (e : LockCommandEvidence)
      → IsNext p.adapter f
      → IsEdge p.adapter f e
      → Remembers p.adapter f (next_sequence p.adapter f) a
      → (status_accepted (process p.gate e now_ms).1 ≡ true → IsAdmissible p.gate e now_ms)
      → Passage p f now_ms (
        record { adapter = a; gate = (process p.gate e now_ms).0 },
        record {
          status = CanLockDecodeStatus.evidence_produced;
          command = some (process p.gate e now_ms).1;
        },
      )

Skips-quiet :
    {a : CanLockCommandAdapter} {f : CanFrame} {status : CanLockDecodeStatus}
    → Skips a f status
    → requires_gesture_reset status ≡ false
Skips-quiet (switched_off h) = refl
Skips-quiet (other_frame h k l) = refl

Rejects-loud :
    {a : CanLockCommandAdapter} {f : CanFrame} {status : CanLockDecodeStatus}
    → Rejects a f status
    → requires_gesture_reset status ≡ true
Rejects-loud (unusable h k) = refl
Rejects-loud (malformed h k) = refl
Rejects-loud (other_length h k l m) = refl
Rejects-loud (late h k l) = refl
Rejects-loud (repeated h k l m) = refl
Rejects-loud (far h k l m n) = refl

present-Passage :
    (p : CanLockCommandPipeline) (f : CanFrame) (now_ms : ℕ)
    (d : CanLockCommandAdapter × CanLockDecodeResult)
    → Decoded p.adapter f d
    → Passage p f now_ms (
      record { adapter = d.0; gate = (present p.gate d.1 now_ms).0 },
      (present p.gate d.1 now_ms).1,
    )
unfolding present
present-Passage p f now_ms _ (Decoded.skipped status why) =
    rw (Skips-quiet why) (skipped status why)
present-Passage p f now_ms _ (Decoded.rejected status why) =
    rw (Rejects-loud why) (cleared status why)
present-Passage p f now_ms _ (Decoded.first a read unprimed remembers) =
    first a read unprimed remembers
present-Passage p f now_ms _ (Decoded.quiet a next unpressed remembers) =
    quiet a next unpressed remembers
present-Passage p f now_ms _ (Decoded.edge a e next is_edge remembers) =
    pressed a e next is_edge remembers (λ h. (accepted-IsAdmissible p.gate e now_ms h).0)

-- A frame passes in one of five ways. An adapter that is off, or a well-formed frame of another
-- identifier, leaves the pipeline as it is. An unusable configuration, a malformed frame, one of
-- another length than configured, a time that goes back, or a counter that repeats or moves by
-- half its range or more, resets the adapter and the gate together. The first frame read, and one
-- that follows in order without moving the command bit from inactive to active, are remembered by
-- the adapter and leave the gate as it is. One that follows in order and makes that move is
-- remembered as well, and the gate gets one piece of evidence, made of this frame, which it
-- accepts only where it is admissible.
pub process_pipeline-Passage :
    (p : CanLockCommandPipeline) (f : CanFrame) (now_ms : ℕ)
    → Passage p f now_ms (process_pipeline p f now_ms)
unfolding process_pipeline
process_pipeline-Passage p f now_ms =
    present-Passage p f now_ms (process_frame p.adapter f) (process_frame-Decoded p.adapter f)
