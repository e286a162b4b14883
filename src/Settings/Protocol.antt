-- ===== src/Settings/Protocol.antt =====
-- The frames of the settings protocol (include/bmw_remote/infrastructure/settings_protocol.hpp and
-- src/infrastructure/settings_protocol.cpp): a header of 12 bytes, a payload and a checksum.
pub mod RoundTrip
pub mod Corruption
use bmw_e9x_remote_control.Common.{
  ℕ, ◌+◌, Bool, true, false, not, ◌&&◌, Option, none, some, List, [], ◌∷◌, ◌++◌, get_or, length,
  take, drop, replicate, ltb, ◌==◌, ◌-◌, if◌then◌else◌,
}
use bmw_e9x_remote_control.Settings.Bytes.{write_u16, write_u32, read_u16, read_u32}
use bmw_e9x_remote_control.Settings.Payload.{user_settings_payload_size}
use bmw_e9x_remote_control.Settings.Checksum.{crc32}

-- `MaximumFrameSize`: a header, the largest payload and a checksum.
abbrev pub maximum_frame_size : ℕ
maximum_frame_size = 12 + user_settings_payload_size + 4

-- The values of `SettingsMessageType` and of `SettingsProtocolStatus`, to which a frame is cast without
-- a check, so that fields of these types hold any byte.
abbrev pub read_request : ℕ
read_request = 1

abbrev pub write_request : ℕ
write_request = 2

abbrev pub identify_request : ℕ
identify_request = 3

abbrev pub read_response : ℕ
read_response = 129

abbrev pub write_response : ℕ
write_response = 130

abbrev pub identify_response : ℕ
identify_response = 131

abbrev pub error_response : ℕ
error_response = 255

abbrev pub status_ok : ℕ
status_ok = 0

abbrev pub invalid_payload : ℕ
invalid_payload = 1

abbrev pub unsupported_message : ℕ
unsupported_message = 2

abbrev pub unauthorized : ℕ
unauthorized = 3

abbrev pub busy : ℕ
busy = 4

abbrev pub invalid_settings : ℕ
invalid_settings = 5

abbrev pub storage_failure : ℕ
storage_failure = 6

abbrev pub settings_unavailable : ℕ
settings_unavailable = 7

pub data SettingsFrameDecodeStatus : Type 0 where
  ok too_short too_long invalid_magic unsupported_version : SettingsFrameDecodeStatus
  reserved_field_set payload_too_large size_mismatch checksum_mismatch : SettingsFrameDecodeStatus

-- `payload` has `UserSettingsPayloadSize` bytes.
pub record SettingsProtocolFrame : Type 0 where
  pub type : ℕ  -- uint8_t
  pub status : ℕ  -- uint8_t
  pub request_id : ℕ  -- uint16_t
  pub payload_size : ℕ  -- uint16_t
  pub payload : List ℕ

abbrev pub empty_payload : List ℕ
empty_payload = replicate user_settings_payload_size 0

-- `SettingsProtocolFrame{}`.
abbrev pub default_frame : SettingsProtocolFrame
default_frame = record {
  type = error_response;
  status = status_ok;
  request_id = 0;
  payload_size = 0;
  payload = empty_payload;
}

pub record SettingsFrameDecodeResult : Type 0 where
  pub status : SettingsFrameDecodeStatus
  pub frame : SettingsProtocolFrame

-- The frame up to its checksum.
abbrev pub frame_body : SettingsProtocolFrame → List ℕ
frame_body f =
    66 ∷ 77 ∷ 67 ∷ 70 ∷ 1 ∷ f.type ∷ f.status ∷ 0 ∷ write_u16 f.request_id
    ++ write_u16 f.payload_size
    ++ take f.payload_size f.payload

-- `SettingsProtocolCodec::encode`: the first `encodedSize` bytes of the buffer, or `none` for the
-- answer `false`, where that size is 0.
unfoldable pub encode : SettingsProtocolFrame → Option (List ℕ)
encode f =
    if ltb user_settings_payload_size f.payload_size
    then none
    else some (frame_body f ++ write_u32 (crc32 (frame_body f)))

-- The loop that compares the first four bytes with "BMCF".
abbrev pub has_magic : List ℕ → Bool
has_magic e = get_or e 0 0 == 66 && get_or e 1 0 == 77 && get_or e 2 0 == 67 && get_or e 3 0 == 70

abbrev pub rejected : SettingsFrameDecodeStatus → SettingsFrameDecodeResult
rejected status = record { status = status; frame = default_frame }

-- The frame in bytes that passed the tests. The payload array is zero from `payloadSize` on.
abbrev pub accepted : List ℕ → SettingsFrameDecodeResult
accepted e =
    let payload_size = read_u16 e 10 in
    record {
      status = ok;
      frame = record {
        type = get_or e 5 0;
        status = get_or e 6 0;
        request_id = read_u16 e 8;
        payload_size = payload_size;
        payload =
            take payload_size (drop 12 e)
            ++ replicate (user_settings_payload_size - payload_size) 0;
      };
    }

-- `SettingsProtocolCodec::decode`, of a buffer of `encodedSize` bytes; a null pointer, for which the
-- answer is `TooShort` as well, is the empty one.
unfoldable pub decode : List ℕ → SettingsFrameDecodeResult
decode e =
    if ltb (length e) 16
    then rejected too_short
    else if ltb maximum_frame_size (length e)
    then rejected too_long
    else if not (has_magic e)
    then rejected invalid_magic
    else if not (get_or e 4 0 == 1)
    then rejected unsupported_version
    else if not (get_or e 7 0 == 0)
    then rejected reserved_field_set
    else if ltb user_settings_payload_size (read_u16 e 10)
    then rejected payload_too_large
    else if not (12 + read_u16 e 10 + 4 == length e)
    then rejected size_mismatch
    else if not (read_u32 e (12 + read_u16 e 10) == crc32 (take (12 + read_u16 e 10) e))
    then rejected checksum_mismatch
    else accepted e
