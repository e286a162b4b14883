-- ===== src/Lock/Can.antt =====
-- Lock presses seen on the CAN bus (include/bmw_remote/infrastructure/can_lock_command_adapter.hpp and
-- src/infrastructure/can_lock_command_adapter.cpp): the adapter makes evidence of the rising edges of
-- one bit of one frame, guarded by a rolling counter, and the pipeline hands it to the gate.
pub mod Conditions
pub mod Counter
pub mod Outcomes
pub mod Edges
pub mod Passage
use bmw_e9x_remote_control.Common.{
  ℕ, zero, suc, ◌+◌, ◌-◌, ◌*◌, ◌/◌, ◌%◌, ◌^◌, Bool, true, false, not, ◌&&◌, ◌||◌, Option, some,
  List, [], ◌∷◌, get_or, ltb, leb, ◌==◌, same_bool, if◌then◌else◌, bit_and, bit_or, strictly_newer,
  u32_mod,
}
use bmw_e9x_remote_control.Lock.Gate.{
  LockCommandEvidence, LockCommandSource, LockCommandTrust, LockCommandStatus, LockCommandGate,
  process, reset_gate,
}

-- `can_core::CanFrame`, less its sequence, bitrate, channel and status, which the adapter does not read. The only
-- direction is `Rx`.
pub record CanFrame : Type 0 where
  pub timestamp_us : ℕ  -- uint64_t
  pub identifier : ℕ  -- uint32_t
  pub data_length : ℕ  -- uint8_t
  pub extended : Bool
  pub data_bytes : List ℕ  -- `data`, of 8 uint8_t

abbrev pub maximum_identifier : Bool → ℕ
maximum_identifier true = 536870911
maximum_identifier false = 2047

abbrev pub maximum_data_length : ℕ
maximum_data_length = 8

abbrev pub frame_is_valid : CanFrame → Bool
frame_is_valid f =
    leb f.data_length maximum_data_length && leb f.identifier (maximum_identifier f.extended)

abbrev pub timestamp_milliseconds : CanFrame → ℕ
timestamp_milliseconds f = (f.timestamp_us / 1000) % u32_mod

pub record CanBitMatcher : Type 0 where
  pub byte_index : ℕ  -- uint8_t
  pub mask : ℕ  -- uint8_t
  pub expected_value : ℕ  -- uint8_t

abbrev pub matcher_is_valid : CanBitMatcher → ℕ → Bool
matcher_is_valid m data_length =
    ltb m.byte_index data_length
    && not (m.mask == 0)
    && bit_and m.expected_value (255 - m.mask) == 0

abbrev pub matches : CanBitMatcher → CanFrame → Bool
matches m f =
    ltb m.byte_index f.data_length
    && ltb m.byte_index maximum_data_length
    && not (m.mask == 0)
    && bit_and (get_or f.data_bytes m.byte_index 0) m.mask == m.expected_value

pub record CanCounterField : Type 0 where
  pub byte_index : ℕ  -- uint8_t
  pub mask : ℕ  -- uint8_t

-- The loop of `CanCounterField::bitCount`, for at most `n` turns.
abbrev pub count_bits : ℕ → ℕ → ℕ
count_bits zero bits = 0
count_bits (suc n) bits =
    let rest = count_bits n (bits / 2) in if bits == 0 then 0 else bit_and bits 1 + rest

-- `CanCounterField::bitCount`: eight turns leave nothing of a byte.
unfoldable pub bit_count : CanCounterField → ℕ
bit_count c = count_bits 8 c.mask

unfoldable pub counter_is_valid : CanCounterField → ℕ → Bool
unfolding bit_count
counter_is_valid c data_length = ltb c.byte_index data_length && leb 2 (bit_count c)

-- The loop of `CanCounterField::extract`, for `n` turns: `place` is the input mask, and `out` the output
-- bit.
abbrev pub extract_bits : ℕ → ℕ → ℕ → ℕ → ℕ → ℕ → ℕ
extract_bits zero place out value mask packed = packed
extract_bits (suc n) place out value mask packed =
    let used = not (bit_and mask place == 0) in
    let set = not (bit_and value place == 0) in
    extract_bits n (place * 2) (if used then out * 2 else out) value mask
      (if used && set then bit_or packed out else packed)

unfoldable pub extract : CanCounterField → CanFrame → ℕ
extract c f =
    if leb f.data_length c.byte_index || leb maximum_data_length c.byte_index
    then 0
    else extract_bits 8 1 1 (get_or f.data_bytes c.byte_index 0) c.mask 0

pub record CanLockCommandAdapterConfig : Type 0 where
  pub is_enabled : Bool
  pub trust : LockCommandTrust
  pub identifier : ℕ  -- uint32_t
  pub extended : Bool
  pub data_length : ℕ  -- uint8_t
  pub lock_command : CanBitMatcher
  pub vehicle_secured : CanBitMatcher
  pub rolling_counter : CanCounterField

pub data CanLockDecodeStatus : Type 0 where
  disabled ignored primed no_command evidence_produced : CanLockDecodeStatus
  rejected_invalid_configuration rejected_invalid_frame : CanLockDecodeStatus
  rejected_duplicate_counter rejected_out_of_order_counter : CanLockDecodeStatus
  rejected_timestamp_regression : CanLockDecodeStatus

-- `CanLockDecodeResult`; the evidence stands in it exactly where the status is `EvidenceProduced`.
pub data CanLockDecodeResult : Type 0 where
  without_evidence : CanLockDecodeStatus → CanLockDecodeResult
  with_evidence : LockCommandEvidence → CanLockDecodeResult

abbrev pub decode_status : CanLockDecodeResult → CanLockDecodeStatus
decode_status (without_evidence status) = status
decode_status (with_evidence e) = evidence_produced

abbrev pub requires_gesture_reset : CanLockDecodeStatus → Bool
requires_gesture_reset rejected_invalid_configuration = true
requires_gesture_reset rejected_invalid_frame = true
requires_gesture_reset rejected_duplicate_counter = true
requires_gesture_reset rejected_out_of_order_counter = true
requires_gesture_reset rejected_timestamp_regression = true
requires_gesture_reset _ = false

pub record CanLockCommandAdapter : Type 0 where
  pub config : CanLockCommandAdapterConfig
  pub last_timestamp_ms : ℕ  -- uint32_t
  pub expanded_sequence : ℕ  -- uint32_t
  pub last_raw_counter : ℕ  -- uint8_t
  pub last_command_active : Bool
  pub is_initialized : Bool

abbrev pub reset_adapter : CanLockCommandAdapter → CanLockCommandAdapter
reset_adapter a = record a {
  last_timestamp_ms = 0;
  expanded_sequence = 0;
  last_raw_counter = 0;
  last_command_active = false;
  is_initialized = false;
}

abbrev pub are_independent : ℕ → ℕ → ℕ → ℕ → Bool
are_independent index1 mask1 index2 mask2 = not (index1 == index2) || bit_and mask1 mask2 == 0

-- `configIsValid`.
unfoldable pub adapter_config_is_valid : CanLockCommandAdapterConfig → Bool
unfolding counter_is_valid
adapter_config_is_valid c =
    let command = c.lock_command in
    let secured = c.vehicle_secured in
    let counter = c.rolling_counter in
    leb c.identifier (maximum_identifier c.extended)
    && not (c.data_length == 0)
    && leb c.data_length maximum_data_length
    && matcher_is_valid command c.data_length
    && matcher_is_valid secured c.data_length
    && counter_is_valid counter c.data_length
    && are_independent command.byte_index command.mask counter.byte_index counter.mask
    && are_independent secured.byte_index secured.mask counter.byte_index counter.mask
    && are_independent command.byte_index command.mask secured.byte_index secured.mask

-- `CanLockCommandAdapter::reject`.
abbrev pub reject_frame :
    CanLockCommandAdapter → CanLockDecodeStatus → CanLockCommandAdapter × CanLockDecodeResult
reject_frame a status = (reset_adapter a, without_evidence status)

-- The distance that the rolling counter moved, modulo its range. The last counter was extracted under
-- the same mask, so that nothing is cut off at 0.
unfoldable pub counter_distance : CanLockCommandAdapter → CanFrame → ℕ
unfolding bit_count extract
counter_distance a f =
    let modulus = 2 ^ bit_count a.config.rolling_counter in
    (extract a.config.rolling_counter f + modulus - a.last_raw_counter) % modulus

-- The end of `process`: the frame is taken.
abbrev pub take_frame :
    CanLockCommandAdapter → CanFrame → CanLockCommandAdapter × CanLockDecodeResult
take_frame a f =
    let command_active = matches a.config.lock_command f in
    let sequence = (a.expanded_sequence + counter_distance a f) % u32_mod in
    let a1 : CanLockCommandAdapter = record a {
      last_timestamp_ms = timestamp_milliseconds f;
      last_raw_counter = extract a.config.rolling_counter f;
      expanded_sequence = sequence;
      last_command_active = command_active;
    } in
    let rising_edge = command_active && not a.last_command_active in
    if not rising_edge then (a1, without_evidence no_command) else (
      a1,
      with_evidence (record {
        source = LockCommandSource.vehicle_adapter;
        trust = a.config.trust;
        source_sequence = sequence;
        observed_at_ms = timestamp_milliseconds f;
        vehicle_secured = matches a.config.vehicle_secured f;
      }),
    )

-- `process`, once the first frame was seen.
abbrev pub advance : CanLockCommandAdapter → CanFrame → CanLockCommandAdapter × CanLockDecodeResult
advance a f =
    let modulus = 2 ^ bit_count a.config.rolling_counter in
    if counter_distance a f == 0
    then reject_frame a rejected_duplicate_counter
    else if leb (modulus / 2) (counter_distance a f)
    then reject_frame a rejected_out_of_order_counter
    else take_frame a f

-- `process`, for the first frame.
abbrev pub prime : CanLockCommandAdapter → CanFrame → CanLockCommandAdapter × CanLockDecodeResult
prime a f = (
  record a {
    last_timestamp_ms = timestamp_milliseconds f;
    last_raw_counter = extract a.config.rolling_counter f;
    last_command_active = matches a.config.lock_command f;
    is_initialized = true;
  },
  without_evidence primed,
)

abbrev pub is_regression : CanLockCommandAdapter → CanFrame → Bool
is_regression a f =
    a.is_initialized
    && not (timestamp_milliseconds f == a.last_timestamp_ms)
    && not (strictly_newer (timestamp_milliseconds f) a.last_timestamp_ms)

abbrev pub is_other_frame : CanLockCommandAdapter → CanFrame → Bool
is_other_frame a f =
    not (f.identifier == a.config.identifier) || not (same_bool f.extended a.config.extended)

-- `CanLockCommandAdapter::process`.
unfoldable pub process_frame :
    CanLockCommandAdapter → CanFrame → CanLockCommandAdapter × CanLockDecodeResult
unfolding adapter_config_is_valid counter_distance strictly_newer
process_frame a f =
    if not a.config.is_enabled
    then (a, without_evidence disabled)
    else if not (adapter_config_is_valid a.config)
    then reject_frame a rejected_invalid_configuration
    else if not (frame_is_valid f)
    then reject_frame a rejected_invalid_frame
    else if is_other_frame a f
    then (a, without_evidence ignored)
    else if not (f.data_length == a.config.data_length)
    then reject_frame a rejected_invalid_frame
    else if is_regression a f
    then reject_frame a rejected_timestamp_regression
    else if not a.is_initialized
    then prime a f
    else advance a f

-- `command` is the status of the gate's decision, where it was evaluated.
pub record CanLockPipelineResult : Type 0 where
  pub status : CanLockDecodeStatus
  pub command : Option LockCommandStatus

pub record CanLockCommandPipeline : Type 0 where
  pub adapter : CanLockCommandAdapter
  pub gate : LockCommandGate

-- `CanLockCommandPipeline::process`, from what the adapter answered.
unfoldable pub present :
    LockCommandGate → CanLockDecodeResult → ℕ → LockCommandGate × CanLockPipelineResult
unfolding process
present g (without_evidence status) now = (
  if requires_gesture_reset status then reset_gate g else g,
  record { status = status; command = Option.none },
)
present g (with_evidence e) now =
    let (g1, command) = process g e now in
    (g1, record { status = evidence_produced; command = some command })

-- `CanLockCommandPipeline::process`.
unfoldable pub process_pipeline :
    CanLockCommandPipeline → CanFrame → ℕ → CanLockCommandPipeline × CanLockPipelineResult
unfolding process_frame present
process_pipeline p f now =
    let (a1, decoded) = process_frame p.adapter f in
    let (g1, result) = present p.gate decoded now in (record { adapter = a1; gate = g1 }, result)

abbrev pub reset_pipeline : CanLockCommandPipeline → CanLockCommandPipeline
reset_pipeline p = record { adapter = reset_adapter p.adapter; gate = reset_gate p.gate }
