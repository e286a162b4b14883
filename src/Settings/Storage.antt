-- ===== src/Settings/Storage.antt =====
-- The journal of settings (include/bmw_remote/infrastructure/settings_storage.hpp and
-- src/infrastructure/settings_storage.cpp): two slots of a byte storage, of which a save overwrites the
-- older one.
pub mod Record
pub mod Slots
pub mod Reliability
pub mod PowerLoss
pub mod FailSafe
use bmw_e9x_remote_control.Common.{
  ℕ, ◌+◌, ◌*◌, ◌%◌, Bool, true, false, not, ◌&&◌, ◌||◌, Option, none, some, List, [], ◌∷◌, ◌++◌,
  get_or, take, drop, ltb, ◌==◌, if◌then◌else◌, sub32, u32_mod, half_counter_range,
}
use bmw_e9x_remote_control.Settings.{UserSettings, default_settings, validate_user_settings, valid}
use bmw_e9x_remote_control.Settings.Bytes.{write_u16, write_u32, read_u16, read_u32}
use bmw_e9x_remote_control.Settings.Payload.{
  user_settings_payload_size, encode_user_settings_payload, decode_user_settings_payload,
  user_settings_equal,
}
use bmw_e9x_remote_control.Settings.Checksum.{crc32}
use bmw_e9x_remote_control.Settings.Ports.{SettingsByteStorage, UserSettingsStore}

abbrev pub schema_version : ℕ
schema_version = 1

abbrev pub slot_size : ℕ
slot_size = 64

abbrev pub required_capacity : ℕ
required_capacity = 128

abbrev pub record_size : ℕ
record_size = 56

pub record DecodedRecord : Type 0 where
  pub settings : UserSettings
  pub generation : ℕ  -- uint32_t
  pub valid : Bool

-- `DecodedRecord{}`.
abbrev pub no_record : DecodedRecord
no_record = record { settings = default_settings; generation = 0; valid = false }

-- A record up to its checksum, with the magic bytes "BMRC".
abbrev pub record_body : List ℕ → ℕ → List ℕ
record_body payload generation =
    66 ∷ 77 ∷ 82 ∷ 67 ∷ write_u16 schema_version
    ++ write_u16 user_settings_payload_size
    ++ write_u32 generation
    ++ payload

abbrev pub record_of : List ℕ → ℕ → List ℕ
record_of payload generation =
    record_body payload generation ++ write_u32 (crc32 (record_body payload generation))

abbrev pub record_of_payload : Option (List ℕ) → ℕ → Option (List ℕ)
record_of_payload none generation = none
record_of_payload (some payload) generation = some (record_of payload generation)

-- `encodeRecord`. Every byte of the record is written, so that nothing of the fill value is left.
unfoldable pub encode_record : UserSettings → ℕ → Option (List ℕ)
encode_record s generation = record_of_payload (encode_user_settings_payload s) generation

-- The end of `decodeRecord`.
abbrev pub record_with : Option UserSettings → ℕ → DecodedRecord
record_with none generation = no_record
record_with (some s) generation = record { settings = s; generation = generation; valid = true }

-- The first loop of `decodeRecord`.
abbrev pub has_record_magic : List ℕ → Bool
has_record_magic r =
    get_or r 0 0 == 66 && get_or r 1 0 == 77 && get_or r 2 0 == 82 && get_or r 3 0 == 67

-- The second test of `decodeRecord`.
abbrev pub is_unusable : List ℕ → Bool
is_unusable r =
    let version = read_u16 r 4 in
    let stored_payload_size = read_u16 r 6 in
    let supported_version =
      version == schema_version && stored_payload_size == user_settings_payload_size in
    let stored_crc_offset = 12 + stored_payload_size in
    not supported_version
    || ltb record_size (stored_crc_offset + 4)
    || not (read_u32 r stored_crc_offset == crc32 (take stored_crc_offset r))

abbrev pub stored_settings : List ℕ → Option UserSettings
stored_settings r = decode_user_settings_payload (take (read_u16 r 6) (drop 12 r)) (read_u16 r 6)

-- `decodeRecord`.
unfoldable pub decode_record : List ℕ → DecodedRecord
decode_record r =
    if not (has_record_magic r)
    then no_record
    else if is_unusable r
    then no_record
    else record_with (stored_settings r) (read_u32 r 8)

-- `generationIsNewer`: the difference as a signed 32-bit number is positive.
unfoldable pub generation_is_newer : ℕ → ℕ → Bool
generation_is_newer candidate reference =
    not (sub32 candidate reference == 0) && ltb (sub32 candidate reference) half_counter_range

-- The record that `load` selects.
unfoldable pub selected : DecodedRecord → DecodedRecord → DecodedRecord
unfolding generation_is_newer
selected first second =
    if not first.valid
    then second
    else if not second.valid || not (generation_is_newer second.generation first.generation)
    then first
    else second

-- The slot that `save` overwrites.
unfoldable pub target_slot : DecodedRecord → DecodedRecord → ℕ
unfolding generation_is_newer
target_slot first second =
    if first.valid && second.valid
    then (if generation_is_newer second.generation first.generation then 0 else 1)
    else if first.valid
    then 1
    else 0

-- The generation that `save` writes.
unfoldable pub next_generation : DecodedRecord → DecodedRecord → ℕ
unfolding generation_is_newer
next_generation first second =
    if first.valid && second.valid
    then (if generation_is_newer second.generation first.generation
        then (second.generation + 1) % u32_mod
        else (first.generation + 1) % u32_mod)
    else if first.valid
    then (first.generation + 1) % u32_mod
    else if second.valid
    then (second.generation + 1) % u32_mod
    else 1

-- The answer of `readRecord` and the record that it stores.
abbrev pub reading_of : Option (List ℕ) → Bool × DecodedRecord
reading_of none = (false, no_record)
reading_of (some r) = (true, decode_record r)

module _ (B : SettingsByteStorage) where
  -- `readRecord`.
  abbrev pub read_record : ℕ → B.State → B.State × (Bool × DecodedRecord)
  read_record slot st =
      let (st1, bytes) = B.read (slot * slot_size) record_size st in (st1, reading_of bytes)

  -- `JournaledUserSettingsStore::load`.
  unfoldable pub load : B.State → B.State × Option UserSettings
  unfolding selected
  load st =
      if ltb (B.capacity st) required_capacity
      then (st, none)
      else (let (st1, (first_readable, first)) = read_record 0 st in
          let (st2, (second_readable, second)) = read_record 1 st1 in
          if (not first_readable || not first.valid) && (not second_readable || not second.valid)
          then (st2, none)
          else (st2, some (selected first second).settings))

  -- The end of `save`: the record is read back and compared.
  abbrev pub verify : UserSettings → ℕ → ℕ → B.State → B.State × Bool
  verify s slot generation st =
      let (st1, (readable, verified)) = read_record slot st in
      (
        st1,
        readable
            && verified.valid
            && verified.generation == generation
            && user_settings_equal verified.settings s,
      )

  -- `save`, once the record is encoded.
  abbrev pub write_record : UserSettings → ℕ → ℕ → Option (List ℕ) → B.State → B.State × Bool
  write_record s slot generation none st = (st, false)
  write_record s slot generation (some r) st =
      let (st1, written) = B.write (slot * slot_size) r st in
      let (st2, committed) = B.commit st1 in
      if not written
      then (st1, false)
      else if not committed
      then (st2, false)
      else verify s slot generation st2

  -- `JournaledUserSettingsStore::save`.
  unfoldable pub save : UserSettings → B.State → B.State × Bool
  unfolding target_slot next_generation encode_record
  save s st =
      if ltb (B.capacity st) required_capacity || not (valid (validate_user_settings s))
      then (st, false)
      else (let (st1, (first_readable, first)) = read_record 0 st in
          let (st2, (second_readable, second)) = read_record 1 st1 in
          if not first_readable
          then (st1, false)
          else if not second_readable
          then (st2, false)
          else (let slot = target_slot first second in
              let generation = next_generation first second in
              write_record s slot generation (encode_record s generation) st2))

  abbrev pub journaled_store : UserSettingsStore
  journaled_store = record { State = B.State; load = load; save = save }

-- `loadUserSettingsFailSafe`: its answer, and the settings that it gives.
module _ (Store : UserSettingsStore) where
  abbrev pub fail_safe_settings : Option UserSettings → Bool × UserSettings
  fail_safe_settings none = (false, record default_settings { remote_start_enabled = false })
  fail_safe_settings (some candidate) =
      if not (valid (validate_user_settings candidate))
      then (false, record default_settings { remote_start_enabled = false })
      else (true, candidate)

  unfoldable pub load_user_settings_fail_safe : Store.State → Store.State × (Bool × UserSettings)
  load_user_settings_fail_safe st =
      let (st1, loaded) = Store.load st in (st1, fail_safe_settings loaded)
