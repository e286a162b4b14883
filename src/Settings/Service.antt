-- ===== src/Settings/Service.antt =====
-- The settings service (`SettingsProtocolService::handle` of
-- src/infrastructure/settings_protocol.cpp): what it answers to a frame, and what it does to the store.
pub mod Access
pub mod Responses
pub mod ReadBack
use bmw_e9x_remote_control.Common.{
  ℕ, Bool, true, false, not, ◌&&◌, ◌||◌, Option, none, some, List, ◌==◌, if◌then◌else◌,
}
use bmw_e9x_remote_control.Controller.Types.{ControllerState}
use bmw_e9x_remote_control.Settings.{UserSettings}
use bmw_e9x_remote_control.Settings.Payload.{
  user_settings_payload_size, encode_user_settings_payload, decode_user_settings_payload,
}
use bmw_e9x_remote_control.Settings.Identity.{
  SettingsDeviceIdentity, encode_settings_device_identity, identity_payload_size,
}
use bmw_e9x_remote_control.Settings.Protocol.{
  SettingsProtocolFrame, default_frame, read_request, write_request, identify_request,
  read_response, write_response, identify_response, error_response, status_ok, invalid_payload,
  unsupported_message, unauthorized, busy, invalid_settings, storage_failure, settings_unavailable,
}
use bmw_e9x_remote_control.Settings.Ports.{UserSettingsStore}

pub record SettingsProtocolAccess : Type 0 where
  pub authorized : Bool
  pub controller_state : ControllerState

abbrev pub controller_is_idle : ControllerState → Bool
controller_is_idle ControllerState.idle = true
controller_is_idle _ = false

-- `responseFor`.
abbrev pub response_for : SettingsProtocolFrame → ℕ → ℕ → SettingsProtocolFrame
response_for request response_type status = record default_frame {
  type = response_type;
  status = status;
  request_id = request.request_id;
}

-- The `switch` on the type of the request; `none` is the default case.
abbrev pub response_type_of : ℕ → Option ℕ
response_type_of type =
    if type == read_request
    then some read_response
    else if type == write_request
    then some write_response
    else if type == identify_request
    then some identify_response
    else none

abbrev pub payload_size_is_valid : SettingsProtocolFrame → Bool
payload_size_is_valid request =
    if request.type == write_request
    then request.payload_size == user_settings_payload_size
    else request.payload_size == 0

module _ (Store : UserSettingsStore) (identity : SettingsDeviceIdentity) where
  -- `encodeSettingsDeviceIdentity` never fails.
  abbrev pub identify : SettingsProtocolFrame → SettingsProtocolFrame
  identify request = record (response_for request identify_response status_ok) {
    payload_size = identity_payload_size;
    payload = encode_settings_device_identity identity;
  }

  -- The response to a read request, from the payload of the settings that were loaded.
  abbrev pub read_reply : SettingsProtocolFrame → Option (List ℕ) → SettingsProtocolFrame
  read_reply request none = response_for request read_response settings_unavailable
  read_reply request (some payload) = record (response_for request read_response status_ok) {
    payload_size = user_settings_payload_size;
    payload = payload;
  }

  -- The response to a read request, from what the store answered.
  abbrev pub read_answer : SettingsProtocolFrame → Option UserSettings → SettingsProtocolFrame
  read_answer request none = read_reply request none
  read_answer request (some settings) = read_reply request (encode_user_settings_payload settings)

  -- The response to a write request in the idle state.
  abbrev pub write_settings :
      SettingsProtocolFrame
      → Option UserSettings
      → Store.State
      → Store.State × SettingsProtocolFrame
  write_settings request none st = (st, response_for request write_response invalid_settings)
  write_settings request (some settings) st =
      let (st1, saved) = Store.save settings st in
      (
        st1,
        if not saved
            then response_for request write_response storage_failure
            else response_for request write_response status_ok,
      )

  -- `handle`, after the type of the response is known.
  unfoldable pub serve :
      SettingsProtocolFrame
      → SettingsProtocolAccess
      → ℕ
      → Store.State
      → Store.State × SettingsProtocolFrame
  serve request access response_type st =
      if not (request.status == status_ok) || not (payload_size_is_valid request)
      then (st, response_for request response_type invalid_payload)
      else if not access.authorized
      then (st, response_for request response_type unauthorized)
      else if request.type == identify_request
      then (st, identify request)
      else if request.type == read_request
      then (let (st1, loaded) = Store.load st in (st1, read_answer request loaded))
      else if not (controller_is_idle access.controller_state)
      then (st, response_for request response_type busy)
      else write_settings request
          (decode_user_settings_payload request.payload request.payload_size) st

  -- `handle`, by the type of the response.
  abbrev pub respond :
      SettingsProtocolFrame
      → SettingsProtocolAccess
      → Store.State
      → Option ℕ
      → Store.State × SettingsProtocolFrame
  respond request access st none = (st, response_for request error_response unsupported_message)
  respond request access st (some response_type) = serve request access response_type st

  -- `handle`.
  unfoldable pub handle_request :
      SettingsProtocolFrame
      → SettingsProtocolAccess
      → Store.State
      → Store.State × SettingsProtocolFrame
  handle_request request access st = respond request access st (response_type_of request.type)
