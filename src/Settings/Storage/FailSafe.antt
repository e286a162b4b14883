-- ===== src/Settings/Storage/FailSafe.antt =====
-- The settings that the program starts with.
use bmw_e9x_remote_control.Common.{
  ◌≡◌, ◌⊎◌, inl, inr, refl, Bool, true, false, not, Option, none, some, arith, if-known,
}
use bmw_e9x_remote_control.Settings.{UserSettings, default_settings, validate_user_settings, valid}
use bmw_e9x_remote_control.Features.{requests_are_valid}
use bmw_e9x_remote_control.Settings.Ports.{UserSettingsStore}
use bmw_e9x_remote_control.Settings.Storage.{fail_safe_settings, load_user_settings_fail_safe}

-- What the answer and the settings of a load have in common.
abbrev pub IsFailSafe : Option UserSettings → Bool × UserSettings → Type 0
IsFailSafe loaded (ok, s) =
    (valid (validate_user_settings s) ≡ true)
    × ((ok ≡ true) × (loaded ≡ some s) ⊎ (ok ≡ false) × (s.remote_start_enabled ≡ false))

abbrev disabled : UserSettings
disabled = record default_settings { remote_start_enabled = false }

defaults : valid (validate_user_settings disabled) ≡ true
unfolding valid validate_user_settings requests_are_valid
defaults = refl

module _ (Store : UserSettingsStore) where
  -- Whatever the store gives, the settings that `loadUserSettingsFailSafe` leaves are valid: those of the
  -- store if it answers `true`, and else ones with remote start disabled.
  pub load_user_settings_fail_safe-IsFailSafe :
      (st : Store.State) → IsFailSafe (Store.load st).1 (load_user_settings_fail_safe Store st).1
  unfolding load_user_settings_fail_safe
  load_user_settings_fail_safe-IsFailSafe st = of_answer (Store.load st).1
    where
      of_answer : (o : Option UserSettings) → IsFailSafe o (fail_safe_settings Store o)
      of_answer none = (defaults, inr (refl, refl))
      of_answer (some s) =
          if-known (IsFailSafe (some s)) (not (valid (validate_user_settings s)))
            (λ bad. (defaults, inr (refl, refl))) (λ good. (ground arith, inl (refl, refl)))
