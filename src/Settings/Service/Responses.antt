-- ===== src/Settings/Service/Responses.antt =====
-- What the service answers.
use mathlib.Core.Path.{subst}
use bmw_e9x_remote_control.Common.{
  ℕ, ◌+◌, ◌<◌, ◌≡◌, ◌⊎◌, refl, sym, ap, not, ◌||◌, Option, none, some, List, ◌==◌, inl, inr,
  if-known, if-either, replicate, arith, length,
}
use bmw_e9x_remote_control.Settings.{UserSettings}
use bmw_e9x_remote_control.Settings.Bytes.Buffers.{AllBytes, write_u32-AllBytes}
use bmw_e9x_remote_control.Settings.Payload.{encode_user_settings_payload}
use bmw_e9x_remote_control.Settings.Payload.Bytes.{payload_of-AllBytes, encode-payload_of}
use bmw_e9x_remote_control.Settings.Identity.{
  SettingsDeviceIdentity, encode_settings_device_identity,
}
use bmw_e9x_remote_control.Settings.Protocol.{
  SettingsProtocolFrame, read_request, write_request, identify_request, error_response, status_ok,
  unsupported_message,
}
use bmw_e9x_remote_control.Settings.Protocol.RoundTrip.{IsFrame}
use bmw_e9x_remote_control.Settings.Ports.{UserSettingsStore}
use bmw_e9x_remote_control.Settings.Service.{
  SettingsProtocolAccess, controller_is_idle, handle_request, serve, respond, response_type_of,
  response_for, read_answer, read_reply, write_settings, identify, payload_size_is_valid,
}

-- What a response to the request has in any case.
pub record IsResponse (request response : SettingsProtocolFrame) : Type 0 where
  pub frame : IsFrame response
  pub same_id : response.request_id ≡ request.request_id
  pub type_of_request :
      (response.type ≡ request.type + 128)
      ⊎ (response.type ≡ error_response) × (response.status ≡ unsupported_message)

response_for-IsResponse :
    (request : SettingsProtocolFrame) (response_type status : ℕ)
    → request.request_id < 65536
    → response_type < 256
    → status < 256
    → (response_type ≡ request.type + 128)
      ⊎ (response_type ≡ error_response) × (status ≡ unsupported_message)
    → IsResponse request (response_for request response_type status)
response_for-IsResponse request response_type status hid htype hstatus h = record {
  frame = record {
    type_byte = htype;
    status_byte = hstatus;
    id_word = hid;
    size = omega arith;
    whole = refl;
    bytes = ground arith;
  };
  same_id = refl;
  type_of_request = h;
}

-- The ranges of the identity's fields.
pub record IsIdentity (i : SettingsDeviceIdentity) : Type 0 where
  pub target_byte : i.hardware_target < 256
  pub major_byte : i.firmware_major < 256
  pub minor_byte : i.firmware_minor < 256
  pub patch_byte : i.firmware_patch < 256

identity_bytes :
    (i : SettingsDeviceIdentity) → IsIdentity i → AllBytes (encode_settings_device_identity i)
identity_bytes i h = (
  omega arith,
  (
    omega arith,
    (
      omega arith,
      (
        omega arith,
        (
          h.target_byte,
          (
            h.major_byte,
            (
              h.minor_byte,
              (h.patch_byte, write_u32-AllBytes i.capabilities (replicate 28 0) (ground arith)),
            ),
          ),
        ),
      ),
    ),
  ),
)

module _ (Store : UserSettingsStore) (identity : SettingsDeviceIdentity) where
  read_reply-IsResponse :
      (request : SettingsProtocolFrame) (o : Option (List ℕ))
      → request.request_id < 65536
      → request.type ≡ read_request
      → ((p : List ℕ) → o ≡ some p → (length p ≡ 40) × AllBytes p)
      → IsResponse request (read_reply Store identity request o)
  read_reply-IsResponse request none hid h hp =
      response_for-IsResponse request _ _ hid (omega arith) (omega arith) (inl (omega arith))
  read_reply-IsResponse request (some p) hid h hp =
      let (whole, bytes) = hp p refl in
      record {
        frame = record {
          type_byte = omega arith;
          status_byte = omega arith;
          id_word = hid;
          size = omega arith;
          whole = whole;
          bytes = bytes;
        };
        same_id = refl;
        type_of_request = inl (omega arith);
      }

  read_answer-IsResponse :
      (request : SettingsProtocolFrame) (o : Option UserSettings)
      → request.request_id < 65536
      → request.type ≡ read_request
      → IsResponse request (read_answer Store identity request o)
  read_answer-IsResponse request none hid h = read_reply-IsResponse request none hid h (λ p e. cc)
  read_answer-IsResponse request (some s) hid h =
      read_reply-IsResponse request (encode_user_settings_payload s) hid h (λ p e.
        let (ok, same) = encode-payload_of s p e in
        (ap length (sym same), subst AllBytes same (payload_of-AllBytes s ok)))

  identify-IsResponse :
      (request : SettingsProtocolFrame)
      → request.request_id < 65536
      → IsIdentity identity
      → request.type ≡ identify_request
      → IsResponse request (identify Store identity request)
  identify-IsResponse request hid identified h = record {
    frame = record {
      type_byte = omega arith;
      status_byte = omega arith;
      id_word = hid;
      size = omega arith;
      whole = refl;
      bytes = identity_bytes identity identified;
    };
    same_id = refl;
    type_of_request = inl (omega arith);
  }

  write_settings-IsResponse :
      (request : SettingsProtocolFrame) (o : Option UserSettings) (st : Store.State)
      → request.request_id < 65536
      → request.type ≡ write_request
      → IsResponse request (write_settings Store identity request o st).1
  write_settings-IsResponse request none st hid h =
      response_for-IsResponse request _ _ hid (omega arith) (omega arith) (inl (omega arith))
  write_settings-IsResponse request (some s) st hid h =
      if-either (IsResponse request) (not (Store.save s st).1)
        (response_for-IsResponse request _ _ hid (omega arith) (omega arith) (inl (omega arith)))
        (response_for-IsResponse request _ _ hid (omega arith) (omega arith) (inl (omega arith)))

  serve-IsResponse :
      (request : SettingsProtocolFrame) (access : SettingsProtocolAccess) (st : Store.State)
      (response_type : ℕ)
      → request.request_id < 65536
      → IsIdentity identity
      → response_type_of request.type ≡ some response_type
      → IsResponse request (serve Store identity request access response_type st).1
  unfolding serve
  serve-IsResponse request access st response_type hid identified known =
      let Fine = λ (r : Store.State × SettingsProtocolFrame). IsResponse request r.1 in
      let malformed = not (request.status == status_ok) || not (payload_size_is_valid request) in
      let type_known : response_type ≡ request.type + 128 = ground arith in
      let type_small : response_type < 256 = ground arith in
      let answer = λ (status : ℕ) (h : status < 256).
        response_for-IsResponse request response_type status hid type_small h (inl type_known) in
      if-known Fine malformed (λ _. answer _ (omega arith))
        (λ formed.
          if-known Fine (not access.authorized) (λ _. answer _ (omega arith))
            (λ allowed.
              if-known Fine (request.type == identify_request)
                (λ identifying. identify-IsResponse request hid identified (ground arith))
                (λ other.
                  if-known Fine (request.type == read_request)
                    (λ read. read_answer-IsResponse request _ hid (ground arith))
                    (λ unread.
                      if-known Fine (not (controller_is_idle access.controller_state))
                        (λ _. answer _ (omega arith))
                        (λ idle.
                          let write : request.type ≡ write_request = ground arith in
                          write_settings-IsResponse request _ st hid write)))))

  -- Every response is a well-formed frame with the request's identifier, and its type is the one that
  -- answers the request's, or the error type for a message that the service does not support.
  pub handle_request-IsResponse :
      (request : SettingsProtocolFrame) (access : SettingsProtocolAccess) (st : Store.State)
      → request.request_id < 65536
      → IsIdentity identity
      → IsResponse request (handle_request Store identity request access st).1
  unfolding handle_request
  handle_request-IsResponse request access st hid identified =
      respond-IsResponse (response_type_of request.type) refl
    where
      respond-IsResponse :
          (o : Option ℕ)
          → response_type_of request.type ≡ o
          → IsResponse request (respond Store identity request access st o).1
      respond-IsResponse none known =
          response_for-IsResponse request _ _ hid (omega arith) (omega arith) (inr (refl, refl))
      respond-IsResponse (some response_type) known =
          serve-IsResponse request access st response_type hid identified known
