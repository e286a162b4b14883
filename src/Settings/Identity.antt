-- ===== src/Settings/Identity.antt =====
-- The identity of the device (include/bmw_remote/infrastructure/settings_identity.hpp and
-- src/infrastructure/settings_identity.cpp), as the settings protocol reports it.
use bmw_e9x_remote_control.Common.{
  ℕ, ◌^◌, ◌<◌, ◌≡◌, refl, Bool, not, ◌&&◌, Option, none, some, List, ◌∷◌, ◌++◌, get_or, ◌==◌,
  if◌then◌else◌, bit_or, has_bits, replicate, u32_mod,
}
use bmw_e9x_remote_control.Settings.Bytes.{write_u32, read_u32}
use bmw_e9x_remote_control.Settings.Bytes.Words.{join32-byte_at}

-- `SettingsDeviceIdentityPayloadSize`.
abbrev pub identity_payload_size : ℕ
identity_payload_size = 12

-- The values of `SettingsHardwareTarget`, to which a payload is cast without a check.
abbrev pub target_unspecified : ℕ
target_unspecified = 0

abbrev pub target_esp32s3_devkit_c1 : ℕ
target_esp32s3_devkit_c1 = 1

abbrev pub target_host_simulation : ℕ
target_host_simulation = 254

pub data SettingsDeviceCapability : Type 0 where
  settings_read settings_write persistent_settings : SettingsDeviceCapability

abbrev pub capability_mask : SettingsDeviceCapability → ℕ
capability_mask settings_read = 2 ^ 0
capability_mask settings_write = 2 ^ 1
capability_mask persistent_settings = 2 ^ 2

pub record SettingsDeviceIdentity : Type 0 where
  pub hardware_target : ℕ  -- uint8_t
  pub firmware_major : ℕ  -- uint8_t
  pub firmware_minor : ℕ  -- uint8_t
  pub firmware_patch : ℕ  -- uint8_t
  pub capabilities : ℕ  -- uint32_t

unfoldable pub has_capability : SettingsDeviceIdentity → SettingsDeviceCapability → Bool
unfolding has_bits
has_capability i c = has_bits i.capabilities (capability_mask c)

-- `settingsPrototypeIdentity`.
abbrev pub settings_prototype_identity : ℕ → SettingsDeviceIdentity
settings_prototype_identity target = record {
  hardware_target = target;
  firmware_major = 0;
  firmware_minor = 3;
  firmware_patch = 0;
  capabilities =
      bit_or (bit_or (capability_mask settings_read) (capability_mask settings_write))
        (capability_mask persistent_settings);
}

-- `encodeSettingsDeviceIdentity`, which always answers `true`. The signature is "E9RC".
abbrev pub encode_settings_device_identity : SettingsDeviceIdentity → List ℕ
encode_settings_device_identity i =
    69
      ∷ 57
      ∷ 82
      ∷ 67
      ∷ i.hardware_target
      ∷ i.firmware_major
      ∷ i.firmware_minor
      ∷ i.firmware_patch
      ∷ write_u32 i.capabilities
    ++ replicate 28 0

-- `decodeSettingsDeviceIdentity`; `none` stands for the answer `false`.
unfoldable pub decode_settings_device_identity : List ℕ → ℕ → Option SettingsDeviceIdentity
decode_settings_device_identity p payload_size =
    if not (payload_size == identity_payload_size)
    then none
    else if not
        (get_or p 0 0 == 69 && get_or p 1 0 == 57 && get_or p 2 0 == 82 && get_or p 3 0 == 67)
    then none
    else some (record {
      hardware_target = get_or p 4 0;
      firmware_major = get_or p 5 0;
      firmware_minor = get_or p 6 0;
      firmware_patch = get_or p 7 0;
      capabilities = read_u32 p 8;
    })

-- An identity with a 32-bit set of capabilities is read back from the payload that announces it.
pub decode-encode_device_identity :
    (i : SettingsDeviceIdentity)
    → i.capabilities < u32_mod
    → decode_settings_device_identity (encode_settings_device_identity i) identity_payload_size
      ≡ some i
unfolding decode_settings_device_identity
decode-encode_device_identity i h = rw (join32-byte_at i.capabilities h) refl
