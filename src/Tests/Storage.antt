-- ===== src/Tests/Storage.antt =====
-- The settings service over a store in memory, and the journal over a storage in memory.
use bmw_e9x_remote_control.Common.{
  ℕ, zero, suc, ◌*◌, ◌%◌, ◌<◌, ◌≡◌, ◌≢◌, refl, true, false, Option, none, some, List, [], ◌∷◌,
  arith,
}
use bmw_e9x_remote_control.Controller.Types.{ControllerState}
use bmw_e9x_remote_control.Features.{requests_are_valid}
use bmw_e9x_remote_control.Settings.{UserSettings, default_settings, valid, validate_user_settings}
use bmw_e9x_remote_control.Settings.Bytes.{byte_at, join16, join32, join64}
use bmw_e9x_remote_control.Settings.Bytes.Buffers.{AllBytes}
use bmw_e9x_remote_control.Settings.Payload.{
  decode_user_settings_payload, encode_user_settings_payload, user_settings_equal,
}
use bmw_e9x_remote_control.Settings.Checksum.{crc32}
use bmw_e9x_remote_control.Settings.Identity.{settings_prototype_identity, target_host_simulation}
use bmw_e9x_remote_control.Settings.Protocol.{
  SettingsProtocolFrame, default_frame, write_request, status_ok,
}
use bmw_e9x_remote_control.Settings.Protocol.RoundTrip.{IsFrame}
use bmw_e9x_remote_control.Settings.Ports.{UserSettingsStore, SettingsByteStorage}
use bmw_e9x_remote_control.Settings.Service.{SettingsProtocolAccess, handle_request, serve}
use bmw_e9x_remote_control.Settings.Service.Access.{Effect, handle_request-Effect}
use bmw_e9x_remote_control.Settings.Service.ReadBack.{IsReliable, read-write}
use bmw_e9x_remote_control.Settings.Storage.{load, save, decode_record, target_slot, encode_record}
use bmw_e9x_remote_control.Settings.Storage.Reliability.{
  SlotStorage, record_in, journaled_store-IsReliable,
}
use bmw_e9x_remote_control.Settings.Storage.PowerLoss.{load-write_damaged}
use bmw_e9x_remote_control.Tests.Settings.{default_payload, default_payload-AllBytes, reading}

-- A store that keeps the last settings saved.
abbrev memory_store : UserSettingsStore
memory_store = record {
  State = Option UserSettings;
  load = λ kept. (kept, kept);
  save = λ s kept. (some s, true);
}

memory_store-IsReliable : IsReliable memory_store
memory_store-IsReliable s st kept = refl

-- A request to write the default settings.
abbrev writing : SettingsProtocolFrame
writing = record default_frame {
  type = write_request;
  request_id = 6;
  payload_size = 40;
  payload = default_payload;
}

writing-IsFrame : IsFrame writing
writing-IsFrame = record {
  type_byte = omega arith;
  status_byte = omega arith;
  id_word = omega arith;
  size = omega arith;
  whole = refl;
  bytes = default_payload-AllBytes;
}

abbrev owner : SettingsProtocolAccess
owner = record { authorized = true; controller_state = ControllerState.idle }

written :
    (handle_request memory_store
      (settings_prototype_identity target_host_simulation)
      writing
      owner
      none).1.status
    ≡ status_ok
unfolding handle_request serve decode_user_settings_payload valid validate_user_settings
    requests_are_valid join16 join32 join64
written = refl

handle_request-Effect_example :
    Effect memory_store writing owner none
      (handle_request memory_store
        (settings_prototype_identity target_host_simulation)
        writing
        owner
        none).0
handle_request-Effect_example =
    handle_request-Effect memory_store (settings_prototype_identity target_host_simulation) writing
      owner none

read-write_example :
    let identity = settings_prototype_identity target_host_simulation in
    let response =
      (handle_request memory_store identity reading owner
        (handle_request memory_store identity writing owner none).0).1 in
    (response.status ≡ status_ok)
    × (response.payload_size ≡ writing.payload_size)
    × (response.payload ≡ writing.payload)
read-write_example =
    read-write memory_store (settings_prototype_identity target_host_simulation) writing reading
      owner owner none memory_store-IsReliable writing-IsFrame refl written refl refl refl refl

-- Two slots in memory.
record Slots : Type 0 where
  first : List ℕ
  second : List ℕ

abbrev bytes_only : List ℕ → List ℕ
bytes_only [] = []
bytes_only (b ∷ bs) = b % 256 ∷ bytes_only bs

bytes_only-AllBytes : (bs : List ℕ) → AllBytes (bytes_only bs)
bytes_only-AllBytes [] = tt
bytes_only-AllBytes (b ∷ bs) = (omega arith, bytes_only-AllBytes bs)

abbrev slot_at : ℕ → Slots → List ℕ
slot_at zero s = bytes_only s.first
slot_at (suc n) s = bytes_only s.second

abbrev put_at : ℕ → List ℕ → Slots → Slots
put_at zero r s = record s { first = r }
put_at (suc n) r s = record s { second = r }

abbrev memory : SettingsByteStorage
memory = record {
  State = Slots;
  capacity = λ s. 128;
  read = λ offset size s. (s, some (slot_at offset s));
  write = λ offset r s. (put_at offset r s, true);
  commit = λ s. (s, true);
}

slot_at-AllBytes : (s : Slots) (k : ℕ) → AllBytes (slot_at k s)
slot_at-AllBytes s zero = bytes_only-AllBytes s.first
slot_at-AllBytes s (suc k) = bytes_only-AllBytes s.second

read_slot : (k : ℕ) (s : Slots) → k < 2 → memory.read (k * 64) 56 s ≡ (s, some (slot_at k s))
read_slot zero s h = refl
read_slot (suc zero) s h = refl
read_slot (suc (suc k)) s h = absurd (omega arith)

write_elsewhere :
    (k other : ℕ) (r : List ℕ) (s : Slots)
    → k < 2
    → other < 2
    → k ≢ other
    → slot_at other (memory.write (k * 64) r s).0 ≡ slot_at other s
write_elsewhere zero zero r s hk ho apart = absurd (apart refl)
write_elsewhere zero (suc other) r s hk ho apart = refl
write_elsewhere (suc zero) zero r s hk ho apart = refl
write_elsewhere (suc zero) (suc zero) r s hk ho apart = absurd (apart refl)
write_elsewhere (suc zero) (suc (suc other)) r s hk ho apart = absurd (omega arith)
write_elsewhere (suc (suc k)) other r s hk ho apart = absurd (omega arith)

abbrev memory-SlotStorage : SlotStorage memory
memory-SlotStorage = record {
  contents = λ s k. slot_at k s;
  all_bytes = slot_at-AllBytes;
  read_slot = read_slot;
  write_elsewhere = write_elsewhere;
  commit_keeps = λ k s. refl;
  write_capacity = λ offset r s. refl;
  commit_capacity = λ s. refl;
}

abbrev empty_slots : Slots
empty_slots = record { first = []; second = [] }

saved : (save memory default_settings empty_slots).1 ≡ true
unfolding save encode_record encode_user_settings_payload decode_record decode_user_settings_payload
    valid validate_user_settings requests_are_valid join16 join32 join64 crc32 byte_at
    user_settings_equal target_slot
saved = refl

journaled_store-IsReliable_example :
    (load memory (save memory default_settings empty_slots).0).1 ≡ some default_settings
journaled_store-IsReliable_example =
    journaled_store-IsReliable memory memory-SlotStorage default_settings empty_slots saved

abbrev kept : Slots
kept = (save memory default_settings empty_slots).0

kept_loads : (load memory kept).1 ≡ some default_settings
kept_loads = journaled_store-IsReliable memory memory-SlotStorage default_settings empty_slots saved

abbrev other_slot : ℕ
other_slot = 1

other_slot_is_target :
    other_slot
    ≡ target_slot
        (record_in memory memory-SlotStorage kept 0)
        (record_in memory memory-SlotStorage kept 1)
unfolding save encode_record encode_user_settings_payload decode_record decode_user_settings_payload
    valid validate_user_settings requests_are_valid join16 join32 join64 crc32 byte_at
    user_settings_equal target_slot
other_slot_is_target = refl

-- The first bytes of a record, after which the power failed.
abbrev torn : List ℕ
torn = 66 ∷ 77 ∷ 82 ∷ 67 ∷ 1 ∷ 0 ∷ []

torn_is_damaged :
    (record_in memory memory-SlotStorage
      (memory.write (other_slot * 64) torn kept).0
      other_slot).valid
    ≡ false
unfolding decode_record join16 join32
torn_is_damaged = refl

load-write_damaged_example :
    (load memory (memory.write (other_slot * 64) torn kept).0).1 ≡ some default_settings
load-write_damaged_example =
    load-write_damaged memory memory-SlotStorage kept torn default_settings other_slot
      other_slot_is_target kept_loads torn_is_damaged
