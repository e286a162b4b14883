-- ===== src/Lock/Can/Outcomes.antt =====
-- The ways in which the adapter may deal with a frame.
use bmw_e9x_remote_control.Common.{
  ℕ, ◌+◌, ◌/◌, ◌%◌, ◌^◌, ◌≤◌, ◌<◌, ◌≡◌, ◌≢◌, ◌↔◌, ◌⊎◌, true, false, if◌then◌else◌, u32_mod,
}
use bmw_e9x_remote_control.Lock.Gate.{LockCommandEvidence, LockCommandSource}
use bmw_e9x_remote_control.Lock.Can.{
  CanFrame, CanLockCommandAdapter, CanLockDecodeResult, CanLockDecodeStatus, without_evidence,
  with_evidence, bit_count, extract,
}
use bmw_e9x_remote_control.Lock.Can.Conditions.{Shows, IsUsable, moved_by, seen_ms, IsInTime}

-- The adapter works: it is switched on and its configuration is usable.
pub record IsWorking (a : CanLockCommandAdapter) : Type 0 where
  pub switched_on : a.config.is_enabled ≡ true
  pub usable : IsUsable a.config

-- The frame is one that a CAN bus can carry.
pub record IsWellFormed (f : CanFrame) : Type 0 where
  pub short : f.data_length ≤ 8
  pub identifier : f.identifier ≤ (if f.extended then 536870911 else 2047)

-- The frame has the identifier that the adapter listens to.
abbrev pub IsOurs : CanLockCommandAdapter → CanFrame → Type 0
IsOurs a f = (f.identifier ≡ a.config.identifier) × (f.extended ≡ a.config.extended)

-- The adapter works and reads the frame, which is the configured one.
pub record IsRead (a : CanLockCommandAdapter) (f : CanFrame) : Type 0 where
  pub working : IsWorking a
  pub well_formed : IsWellFormed f
  pub ours : IsOurs a f
  pub same_length : f.data_length ≡ a.config.data_length

-- It follows the frame seen before: no older, and with the counter moved by less than half its range.
pub record IsNext (a : CanLockCommandAdapter) (f : CanFrame) : Type 0 where
  pub read : IsRead a f
  pub primed : a.is_initialized ≡ true
  pub in_time : IsInTime a f
  pub moved : 1 ≤ moved_by a f
  pub not_far : moved_by a f < 2 ^ bit_count a.config.rolling_counter / 2

-- The adapter `a'` has the frame as its last one, under the sequence number given.
pub record Remembers (a : CanLockCommandAdapter) (f : CanFrame) (sequence : ℕ)
    (a' : CanLockCommandAdapter) : Type 0 where
  pub same_config : a'.config ≡ a.config
  pub timestamp : a'.last_timestamp_ms ≡ seen_ms f
  pub counter : a'.last_raw_counter ≡ extract a.config.rolling_counter f
  pub numbered : a'.expanded_sequence ≡ sequence
  pub command : (a'.last_command_active ≡ true) ↔ Shows a.config.lock_command f
  pub initialized : a'.is_initialized ≡ true

abbrev pub next_sequence : CanLockCommandAdapter → CanFrame → ℕ
next_sequence a f = (a.expanded_sequence + moved_by a f) % u32_mod

-- The frame moves the command bit from inactive to active, and the evidence is made of it.
pub record IsEdge (a : CanLockCommandAdapter) (f : CanFrame) (e : LockCommandEvidence)
    : Type 0 where
  pub was_inactive : a.last_command_active ≡ false
  pub active : Shows a.config.lock_command f
  pub from_vehicle : e.source ≡ LockCommandSource.vehicle_adapter
  pub trusted_as_configured : e.trust ≡ a.config.trust
  pub dated : e.observed_at_ms ≡ seen_ms f
  pub numbered : e.source_sequence ≡ next_sequence a f
  pub secured : (e.vehicle_secured ≡ true) ↔ Shows a.config.vehicle_secured f

-- Why a frame is passed over.
pub data Skips (a : CanLockCommandAdapter) (f : CanFrame) : CanLockDecodeStatus → Type 0 where
  switched_off : a.config.is_enabled ≡ false → Skips a f CanLockDecodeStatus.disabled
  other_frame : IsWorking a → IsWellFormed f → ¬ IsOurs a f → Skips a f CanLockDecodeStatus.ignored

-- Why a frame is rejected.
pub data Rejects (a : CanLockCommandAdapter) (f : CanFrame) : CanLockDecodeStatus → Type 0 where
  unusable :
      a.config.is_enabled ≡ true
      → ¬ IsUsable a.config
      → Rejects a f CanLockDecodeStatus.rejected_invalid_configuration
  malformed :
      IsWorking a → ¬ IsWellFormed f → Rejects a f CanLockDecodeStatus.rejected_invalid_frame
  other_length :
      IsWorking a
      → IsWellFormed f
      → IsOurs a f
      → f.data_length ≢ a.config.data_length
      → Rejects a f CanLockDecodeStatus.rejected_invalid_frame
  late :
      IsRead a f
      → a.is_initialized ≡ true
      → ¬ IsInTime a f
      → Rejects a f CanLockDecodeStatus.rejected_timestamp_regression
  repeated :
      IsRead a f
      → a.is_initialized ≡ true
      → IsInTime a f
      → moved_by a f ≡ 0
      → Rejects a f CanLockDecodeStatus.rejected_duplicate_counter
  far :
      IsRead a f
      → a.is_initialized ≡ true
      → IsInTime a f
      → 1 ≤ moved_by a f
      → 2 ^ bit_count a.config.rolling_counter / 2 ≤ moved_by a f
      → Rejects a f CanLockDecodeStatus.rejected_out_of_order_counter

-- The adapter as it was made, on its configuration.
abbrev pub restarted : CanLockCommandAdapter → CanLockCommandAdapter
restarted a = record {
  config = a.config;
  last_timestamp_ms = 0;
  expanded_sequence = 0;
  last_raw_counter = 0;
  last_command_active = false;
  is_initialized = false;
}

-- The ways in which the adapter may end.
pub data Decoded (a : CanLockCommandAdapter) (f : CanFrame)
    : CanLockCommandAdapter × CanLockDecodeResult → Type 0 where
  skipped :
      (status : CanLockDecodeStatus) → Skips a f status → Decoded a f (a, without_evidence status)
  rejected :
      (status : CanLockDecodeStatus)
      → Rejects a f status
      → Decoded a f (restarted a, without_evidence status)
  first :
      (a' : CanLockCommandAdapter)
      → IsRead a f
      → a.is_initialized ≡ false
      → Remembers a f a.expanded_sequence a'
      → Decoded a f (a', without_evidence CanLockDecodeStatus.primed)
  quiet :
      (a' : CanLockCommandAdapter)
      → IsNext a f
      → (a.last_command_active ≡ true) ⊎ (¬ Shows a.config.lock_command f)
      → Remembers a f (next_sequence a f) a'
      → Decoded a f (a', without_evidence CanLockDecodeStatus.no_command)
  edge :
      (a' : CanLockCommandAdapter) (e : LockCommandEvidence)
      → IsNext a f
      → IsEdge a f e
      → Remembers a f (next_sequence a f) a'
      → Decoded a f (a', with_evidence e)
