-- ===== src/Lock/Sequence.antt =====
-- lock_sequence_detector.hpp and lock_sequence_detector.cpp. Timestamps are `std::uint32_t`, and
-- their differences wrap.
use bmw_e9x_remote_control.Common.{
  ℕ, ◌+◌, ◌-◌, ◌*◌, ◌%◌, Bool, true, false, not, ◌&&◌, ◌||◌, ltb, leb, ◌==◌, if◌then◌else◌, sub32,
}

pub record LockSequenceConfig : Type 0 where
  pub required_presses : ℕ  -- uint8_t
  pub minimum_gap_ms : ℕ
  pub maximum_gap_ms : ℕ
  pub maximum_sequence_ms : ℕ

abbrev pub default_config : LockSequenceConfig
default_config = record {
  required_presses = 3;
  minimum_gap_ms = 80;
  maximum_gap_ms = 1500;
  maximum_sequence_ms = 3000;
}

pub data LockPressResult : Type 0 where
  accepted sequence_completed sequence_restarted : LockPressResult
  ignored_debounce invalid_configuration : LockPressResult

pub record LockSequenceDetector : Type 0 where
  pub config : LockSequenceConfig
  pub first_press_timestamp_ms : ℕ
  pub last_press_timestamp_ms : ℕ
  pub press_count : ℕ  -- uint8_t

-- `configIsValid`. The product is of a byte and a 32-bit word, which 64 bits hold.
abbrev pub sequence_config_is_valid : LockSequenceConfig → Bool
sequence_config_is_valid c =
    let required_intervals = if c.required_presses == 0 then 0 else c.required_presses - 1 in
    let minimum_sequence_time = required_intervals * c.minimum_gap_ms in
    not (c.required_presses == 0)
    && leb c.minimum_gap_ms c.maximum_gap_ms
    && leb c.maximum_gap_ms c.maximum_sequence_ms
    && leb minimum_sequence_time c.maximum_sequence_ms

abbrev pub reset_detector : LockSequenceDetector → LockSequenceDetector
reset_detector d = record d {
  first_press_timestamp_ms = 0;
  last_press_timestamp_ms = 0;
  press_count = 0;
}

-- The constructor.
abbrev pub new_detector : LockSequenceConfig → LockSequenceDetector
new_detector c = record {
  config = c;
  first_press_timestamp_ms = 0;
  last_press_timestamp_ms = 0;
  press_count = 0;
}

-- The first press of a sequence.
abbrev pub start_at : LockSequenceDetector → ℕ → LockSequenceDetector
start_at d t = record d {
  first_press_timestamp_ms = t;
  last_press_timestamp_ms = t;
  press_count = 1;
}

-- The end of `observe`, after a press was counted.
abbrev pub settle : LockSequenceDetector → LockPressResult → LockSequenceDetector × LockPressResult
settle d result =
    if ltb d.press_count d.config.required_presses
    then (d, result)
    else (reset_detector d, LockPressResult.sequence_completed)

unfoldable pub observe : LockSequenceDetector → ℕ → LockSequenceDetector × LockPressResult
observe d t =
    let since_last_press = sub32 t d.last_press_timestamp_ms in
    let since_first_press = sub32 t d.first_press_timestamp_ms in
    if not (sequence_config_is_valid d.config)
    then (reset_detector d, LockPressResult.invalid_configuration)
    else if d.press_count == 0
    then settle (start_at d t) LockPressResult.accepted
    else if ltb since_last_press d.config.minimum_gap_ms
    then (d, LockPressResult.ignored_debounce)
    else if ltb d.config.maximum_gap_ms since_last_press
        || ltb d.config.maximum_sequence_ms since_first_press
    then settle (start_at d t) LockPressResult.sequence_restarted
    else settle (record d { last_press_timestamp_ms = t; press_count = (d.press_count + 1) % 256 })
        LockPressResult.accepted

-- `observeLockPress`.
unfoldable pub observe_lock_press : LockSequenceDetector → ℕ → LockSequenceDetector × Bool
unfolding observe
observe_lock_press d t =
    let (d', result) = observe d t in
    (d', elim result [ LockPressResult.sequence_completed ↦ true | _ ↦ false ])
