-- ===== src/Settings/Service/ReadBack.antt =====
-- Settings that were written are read back.
use mathlib.Core.Path.{subst}
use bmw_e9x_remote_control.Common.{
  ℕ, ◌≡◌, refl, sym, ap, ◌∙◌, true, not, ◌||◌, Option, none, some, Bool-cases, ◌==◌, inl, inr,
  if-known, arith,
}
use bmw_e9x_remote_control.Settings.{UserSettings}
use bmw_e9x_remote_control.Settings.Payload.{decode_user_settings_payload}
use bmw_e9x_remote_control.Settings.Payload.Laws.{encode-decode_user_settings}
use bmw_e9x_remote_control.Settings.Identity.{SettingsDeviceIdentity}
use bmw_e9x_remote_control.Settings.Protocol.{
  SettingsProtocolFrame, read_request, write_request, identify_request, read_response,
  write_response, status_ok,
}
use bmw_e9x_remote_control.Settings.Protocol.RoundTrip.{IsFrame}
use bmw_e9x_remote_control.Settings.Ports.{UserSettingsStore}
use bmw_e9x_remote_control.Settings.Service.{
  SettingsProtocolAccess, controller_is_idle, handle_request, serve, respond, response_type_of,
  read_answer, read_reply, write_settings, payload_size_is_valid,
}

-- A store gives back what it said it saved.
abbrev pub IsReliable : UserSettingsStore → Type 0
IsReliable Store =
    (s : UserSettings) (st : Store.State)
    → (Store.save s st).1 ≡ true
    → (Store.load (Store.save s st).0).1 ≡ some s

module _ (Store : UserSettingsStore) (identity : SettingsDeviceIdentity) where
  -- What a write that was answered with ok did.
  abbrev Written : SettingsProtocolFrame → Store.State → Store.State → Type 0
  Written request st st1 =
      (s : UserSettings) × (decode_user_settings_payload request.payload request.payload_size
        ≡ some s)
      × ((Store.save s st).1 ≡ true)
      × (st1 ≡ (Store.save s st).0)

  write_settings-Written :
      (request : SettingsProtocolFrame) (st : Store.State) (o : Option UserSettings)
      → decode_user_settings_payload request.payload request.payload_size ≡ o
      → (write_settings Store identity request o st).1.status ≡ status_ok
      → Written request st (write_settings Store identity request o st).0
  write_settings-Written request st none e h = absurd (omega arith)
  write_settings-Written request st (some s) e h = elim (Bool-cases (Store.save s st).1) [
    | inl kept ↦ (s, e, kept, refl)
    | inr lost ↦ absurd (ground arith)
  ]

  serve-Written :
      (request : SettingsProtocolFrame) (access : SettingsProtocolAccess) (st : Store.State)
      (response_type : ℕ)
      → request.type ≡ write_request
      → (serve Store identity request access response_type st).1.status ≡ status_ok
      → Written request st (serve Store identity request access response_type st).0
  unfolding serve
  serve-Written request access st response_type h =
      let Fine = λ (r : Store.State × SettingsProtocolFrame).
        r.1.status ≡ status_ok → Written request st r.0 in
      let malformed = not (request.status == status_ok) || not (payload_size_is_valid request) in
      if-known Fine malformed (λ _ e. absurd (omega arith))
        (λ formed.
          if-known Fine (not access.authorized) (λ _ e. absurd (omega arith))
            (λ allowed.
              if-known Fine (request.type == identify_request) (λ t e. absurd (ground arith))
                (λ other.
                  if-known Fine (request.type == read_request) (λ t e. absurd (ground arith))
                    (λ unread.
                      if-known Fine (not (controller_is_idle access.controller_state))
                        (λ _ e. absurd (omega arith))
                        (λ idle. write_settings-Written request st _ refl)))))

  handle_request-serve :
      (request : SettingsProtocolFrame) (access : SettingsProtocolAccess) (st : Store.State) (t : ℕ)
      → response_type_of request.type ≡ some t
      → handle_request Store identity request access st ≡ serve Store identity request access t st
  unfolding handle_request
  handle_request-serve request access st t known =
      ap (respond Store identity request access st) known

  handle_request-Written :
      (request : SettingsProtocolFrame) (access : SettingsProtocolAccess) (st : Store.State)
      → request.type ≡ write_request
      → (handle_request Store identity request access st).1.status ≡ status_ok
      → Written request st (handle_request Store identity request access st).0
  handle_request-Written request access st h ok =
      let known : response_type_of request.type ≡ some write_response = rw h refl in
      subst (λ r. r.1.status ≡ status_ok → Written request st r.0)
        (sym (handle_request-serve request access st write_response known))
        (serve-Written request access st write_response h) ok

  handle_request-read :
      (request : SettingsProtocolFrame) (access : SettingsProtocolAccess) (st : Store.State)
      → request.type ≡ read_request
      → request.status ≡ status_ok
      → request.payload_size ≡ 0
      → access.authorized ≡ true
      → (handle_request Store identity request access st).1
        ≡ read_answer Store identity request (Store.load st).1
  unfolding serve
  handle_request-read request access st h fine bare allowed =
      let known : response_type_of request.type ≡ some read_response = rw h refl in
      ap (λ r. r.1) (handle_request-serve request access st read_response known)
      ∙ rw (h, fine, bare, allowed) refl

  -- Where the store gives back what it saved: after a write request that was answered with ok, an
  -- authorised read request is answered with ok and with the payload of the write request, byte for byte.
  pub read-write :
      (write read : SettingsProtocolFrame) (writer reader : SettingsProtocolAccess)
      (st : Store.State)
      → IsReliable Store
      → IsFrame write
      → write.type ≡ write_request
      → (handle_request Store identity write writer st).1.status ≡ status_ok
      → read.type ≡ read_request
      → read.status ≡ status_ok
      → read.payload_size ≡ 0
      → reader.authorized ≡ true
      → let response =
          (handle_request Store identity read reader
            (handle_request Store identity write writer st).0).1 in
        (response.status ≡ status_ok)
        × (response.payload_size ≡ write.payload_size)
        × (response.payload ≡ write.payload)
  read-write write read writer reader st reliable frame hw done hr fine bare allowed =
      let (s, decoded, kept, stored) = handle_request-Written write writer st hw done in
      let (size, ok, back) =
        encode-decode_user_settings write.payload write.payload_size s frame.whole frame.bytes
          decoded in
      let loaded : (Store.load (handle_request Store identity write writer st).0).1 ≡ some s =
        ap (λ x. (Store.load x).1) stored ∙ reliable s st kept in
      let answer : (handle_request Store identity read reader
            (handle_request Store identity write writer st).0).1
          ≡ read_reply Store identity read (some write.payload) =
        handle_request-read read reader (handle_request Store identity write writer st).0 hr fine
          bare allowed
        ∙ ap (read_answer Store identity read) loaded
        ∙ ap (read_reply Store identity read) back in
      (
        ap (λ r. r.status) answer,
        ap (λ r. r.payload_size) answer ∙ sym size,
        ap (λ r. r.payload) answer,
      )
