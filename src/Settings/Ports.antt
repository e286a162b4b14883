-- ===== src/Settings/Ports.antt =====
-- What the settings service stands on: `UserSettingsStore` and `SettingsTransportPort` of
-- include/bmw_remote/infrastructure/ports.hpp, and `SettingsByteStorage` of
-- include/bmw_remote/infrastructure/settings_storage.hpp. An implementation is a state and functions
-- on it; `none` stands for the answer `false` of a call that fills a buffer.
use bmw_e9x_remote_control.Common.{ℕ, Bool, Option, List}
use bmw_e9x_remote_control.Settings.{UserSettings}

pub record UserSettingsStore : Type 1 where
  pub State : Type 0
  pub load : State → State × Option UserSettings
  pub save : UserSettings → State → State × Bool

pub record SettingsTransportPort : Type 1 where
  pub State : Type 0
  pub send : List ℕ → State → State × Bool

-- `read` takes the offset and the size, `write` the offset and the bytes.
pub record SettingsByteStorage : Type 1 where
  pub State : Type 0
  pub capacity : State → ℕ
  pub read : ℕ → ℕ → State → State × Option (List ℕ)
  pub write : ℕ → List ℕ → State → State × Bool
  pub commit : State → State × Bool
