-- ===== src/Settings/Service/Access.antt =====
-- What the service does to the store.
use mathlib.Core.Path.{subst}
use bmw_e9x_remote_control.Common.{
  ℕ, ◌≡◌, refl, true, not, ◌||◌, Option, none, some, List, ◌==◌, if-known, arith,
}
use bmw_e9x_remote_control.Controller.Types.{ControllerState}
use bmw_e9x_remote_control.Settings.{UserSettings, valid, validate_user_settings}
use bmw_e9x_remote_control.Settings.Payload.{decoded_settings, decode_user_settings_payload}
use bmw_e9x_remote_control.Settings.Identity.{SettingsDeviceIdentity}
use bmw_e9x_remote_control.Settings.Protocol.{
  SettingsProtocolFrame, read_request, write_request, identify_request, status_ok,
}
use bmw_e9x_remote_control.Settings.Ports.{UserSettingsStore}
use bmw_e9x_remote_control.Settings.Service.{
  SettingsProtocolAccess, controller_is_idle, handle_request, serve, response_type_of,
  write_settings, respond, payload_size_is_valid,
}

controller_is_idle-idle :
    (s : ControllerState) → controller_is_idle s ≡ true → s ≡ ControllerState.idle
controller_is_idle-idle s h = ground arith

decode-valid :
    (p : List ℕ) (n : ℕ) (s : UserSettings)
    → decode_user_settings_payload p n ≡ some s
    → valid (validate_user_settings s) ≡ true
unfolding decode_user_settings_payload
decode-valid p n s e =
    let same : decoded_settings p ≡ s = ground arith in
    subst (λ x. valid (validate_user_settings x) ≡ true) same (ground arith)

module _ (Store : UserSettingsStore) where
  -- The effects on the store that a request may have.
  pub data Effect (request : SettingsProtocolFrame) (access : SettingsProtocolAccess)
      (st : Store.State) : Store.State → Type 0 where
    untouched : Effect request access st st
    loaded :
        request.type ≡ read_request
        → access.authorized ≡ true
        → Effect request access st (Store.load st).0
    saved :
        (s : UserSettings)
        → request.type ≡ write_request
        → access.authorized ≡ true
        → access.controller_state ≡ ControllerState.idle
        → decode_user_settings_payload request.payload request.payload_size ≡ some s
        → valid (validate_user_settings s) ≡ true
        → Effect request access st (Store.save s st).0

  write_settings-Effect :
      (identity : SettingsDeviceIdentity) (request : SettingsProtocolFrame)
      (access : SettingsProtocolAccess) (st : Store.State) (o : Option UserSettings)
      → request.type ≡ write_request
      → access.authorized ≡ true
      → access.controller_state ≡ ControllerState.idle
      → decode_user_settings_payload request.payload request.payload_size ≡ o
      → Effect request access st (write_settings Store identity request o st).0
  write_settings-Effect identity request access st none write allowed idle e = untouched
  write_settings-Effect identity request access st (some s) write allowed idle e =
      saved s write allowed idle e (decode-valid request.payload request.payload_size s e)

  serve-Effect :
      (identity : SettingsDeviceIdentity) (request : SettingsProtocolFrame)
      (access : SettingsProtocolAccess) (st : Store.State) (response_type : ℕ)
      → response_type_of request.type ≡ some response_type
      → Effect request access st (serve Store identity request access response_type st).0
  unfolding serve
  serve-Effect identity request access st response_type known =
      let Fine = λ (r : Store.State × SettingsProtocolFrame). Effect request access st r.0 in
      let malformed = not (request.status == status_ok) || not (payload_size_is_valid request) in
      if-known Fine malformed (λ _. untouched)
        (λ formed.
          if-known Fine (not access.authorized) (λ _. untouched)
            (λ allowed.
              if-known Fine (request.type == identify_request) (λ _. untouched)
                (λ other.
                  if-known Fine (request.type == read_request)
                    (λ read. loaded (ground arith) (ground arith))
                    (λ unread.
                      if-known Fine (not (controller_is_idle access.controller_state))
                        (λ _. untouched)
                        (λ idle.
                          let write : request.type ≡ write_request = ground arith in
                          write_settings-Effect identity request access st _ write (ground arith)
                            (controller_is_idle-idle access.controller_state (ground arith))
                            refl)))))

  respond-Effect :
      (identity : SettingsDeviceIdentity) (request : SettingsProtocolFrame)
      (access : SettingsProtocolAccess) (st : Store.State) (o : Option ℕ)
      → response_type_of request.type ≡ o
      → Effect request access st (respond Store identity request access st o).0
  respond-Effect identity request access st none known = untouched
  respond-Effect identity request access st (some response_type) known =
      serve-Effect identity request access st response_type known

  -- The store is loaded only for an authorised read request, and saved to only for an authorised write
  -- request in the idle state, with valid settings that the request's payload holds; every other request
  -- leaves it alone.
  pub handle_request-Effect :
      (identity : SettingsDeviceIdentity) (request : SettingsProtocolFrame)
      (access : SettingsProtocolAccess) (st : Store.State)
      → Effect request access st (handle_request Store identity request access st).0
  unfolding handle_request
  handle_request-Effect identity request access st =
      respond-Effect identity request access st (response_type_of request.type) refl
