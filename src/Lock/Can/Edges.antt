-- ===== src/Lock/Can/Edges.antt =====
-- The adapter deals with every frame in one of these ways.
use bmw_e9x_remote_control.Common.{
  ◌/◌, ◌^◌, ◌≡◌, ◌↔◌, false, refl, true, not, ◌&&◌, leb, ◌==◌, if-known, if◌then◌else◌, arith,
  strictly_newer,
}
use bmw_e9x_remote_control.Lock.Can.{
  CanFrame, CanLockCommandAdapter, CanLockDecodeStatus, without_evidence, process_frame,
  adapter_config_is_valid, frame_is_valid, is_other_frame, is_regression, counter_distance,
  bit_count, matches, take_frame, advance, prime,
}
use bmw_e9x_remote_control.Lock.Can.Conditions.{matches_iff, config_iff, IsInTime}
use bmw_e9x_remote_control.Lock.Can.Outcomes.{
  IsWorking, IsWellFormed, IsOurs, IsRead, IsNext, switched_off, other_frame, unusable, malformed,
  other_length, late, repeated, far, restarted, Decoded, skipped, rejected, first, quiet, edge,
}

-- The last part of `process`, for a frame that passed the tests before it.
take_frame-Decoded :
    (a : CanLockCommandAdapter) (f : CanFrame) → IsNext a f → Decoded a f (take_frame a f)
unfolding counter_distance
take_frame-Decoded a f next =
    let shown = matches_iff a.config.lock_command f in
    if-known (Decoded a f) (not (matches a.config.lock_command f && not a.last_command_active))
      (λ no_edge. quiet _ next (ground arith) (record {
        same_config = refl;
        timestamp = refl;
        counter = refl;
        numbered = refl;
        command = shown;
        initialized = next.primed;
      }))
      (λ rising.
        edge _ _ next
          (record {
            was_inactive = ground arith;
            active = shown.0 (ground arith);
            from_vehicle = refl;
            trusted_as_configured = refl;
            dated = refl;
            numbered = refl;
            secured = matches_iff a.config.vehicle_secured f;
          })
          (record {
            same_config = refl;
            timestamp = refl;
            counter = refl;
            numbered = refl;
            command = shown;
            initialized = next.primed;
          }))

advance-Decoded :
    (a : CanLockCommandAdapter) (f : CanFrame)
    → IsRead a f
    → a.is_initialized ≡ true
    → IsInTime a f
    → Decoded a f (advance a f)
unfolding counter_distance
advance-Decoded a f read primed in_time =
    if-known (Decoded a f) (counter_distance a f == 0)
      (λ same. rejected _ (repeated read primed in_time (ground arith)))
      (λ moved.
        if-known (Decoded a f)
          (leb (2 ^ bit_count a.config.rolling_counter / 2) (counter_distance a f))
          (λ beyond. rejected _ (far read primed in_time (ground arith) (ground arith)))
          (λ near. take_frame-Decoded a f (record {
            read = read;
            primed = primed;
            in_time = in_time;
            moved = ground arith;
            not_far = ground arith;
          })))

-- The part of `process` after the tests of the frame's form.
ordered-Decoded :
    (a : CanLockCommandAdapter) (f : CanFrame)
    → IsRead a f
    → Decoded a f (
        if is_regression a f
        then (restarted a, without_evidence CanLockDecodeStatus.rejected_timestamp_regression)
        else if not a.is_initialized
        then prime a f
        else advance a f)
unfolding strictly_newer
ordered-Decoded a f read =
    if-known (Decoded a f) (is_regression a f)
      (λ regressed. rejected _ (late read (ground arith) (λ in_time. ground arith)))
      (λ ordered.
        if-known (Decoded a f) (not a.is_initialized)
          (λ unprimed. first _ read (ground arith) (record {
            same_config = refl;
            timestamp = refl;
            counter = refl;
            numbered = refl;
            command = matches_iff a.config.lock_command f;
            initialized = refl;
          }))
          (λ primed. advance-Decoded a f read (ground arith) (ground arith)))

form_iff : (f : CanFrame) → (frame_is_valid f ≡ true) ↔ IsWellFormed f
form_iff f = ground arith

other_frame_iff :
    (a : CanLockCommandAdapter) (f : CanFrame) → (is_other_frame a f ≡ false) ↔ IsOurs a f
other_frame_iff a f = ground arith

-- The part of `process` after the tests of the adapter.
working-Decoded :
    (a : CanLockCommandAdapter) (f : CanFrame)
    → IsWorking a
    → Decoded a f (
        if not (frame_is_valid f)
        then (restarted a, without_evidence CanLockDecodeStatus.rejected_invalid_frame)
        else if is_other_frame a f
        then (a, without_evidence CanLockDecodeStatus.ignored)
        else if not (f.data_length == a.config.data_length)
        then (restarted a, without_evidence CanLockDecodeStatus.rejected_invalid_frame)
        else if is_regression a f
        then (restarted a, without_evidence CanLockDecodeStatus.rejected_timestamp_regression)
        else if not a.is_initialized
        then prime a f
        else advance a f)
working-Decoded a f working =
    let form = form_iff f in
    let ours = other_frame_iff a f in
    if-known (Decoded a f) (not (frame_is_valid f))
      (λ bad. rejected _ (malformed working (λ w. ground arith)))
      (λ fine.
        let well_formed = form.0 (ground arith) in
        if-known (Decoded a f) (is_other_frame a f)
          (λ other. skipped _ (other_frame working well_formed (λ o. ground arith)))
          (λ same_frame.
            if-known (Decoded a f) (not (f.data_length == a.config.data_length))
              (λ other.
                rejected _
                  (other_length working well_formed (ours.0 same_frame) (λ e. ground arith)))
              (λ same_length. ordered-Decoded a f (record {
                working = working;
                well_formed = well_formed;
                ours = ours.0 same_frame;
                same_length = ground arith;
              }))))

pub process_frame-Decoded :
    (a : CanLockCommandAdapter) (f : CanFrame) → Decoded a f (process_frame a f)
unfolding process_frame
process_frame-Decoded a f =
    let usable = config_iff a.config in
    if-known (Decoded a f) (not a.config.is_enabled)
      (λ off. skipped _ (switched_off (ground arith)))
      (λ enabled.
        if-known (Decoded a f) (not (adapter_config_is_valid a.config))
          (λ bad. rejected _ (unusable (ground arith) (λ u. ground arith)))
          (λ fine.
            working-Decoded a f
              (record { switched_on = ground arith; usable = usable.0 (ground arith) })))
