-- ===== src/Settings/Validation.antt =====
-- Which settings are valid.
use bmw_e9x_remote_control.Common.{
  ℕ, ◌*◌, ◌-◌, ◌≤◌, ◌≡◌, ◌↔◌, ◌⊎◌, refl, Bool, true, false, not, ◌&&◌, [], ◌∷◌, ◌==◌, arith,
  bit_or-is_zero, all_true, List, all_true_iff, units,
}
use bmw_e9x_remote_control.Features.{requests_are_valid}
use bmw_e9x_remote_control.Settings.{
  UserSettings, UserSettingsReason, UserSettingsValidation, user_settings_mask, no_reasons, valid,
  add, add_if, outside, unsupported, lock_timing_is_inconsistent, validate_user_settings,
}

valid-add_if :
    (found : Bool) (r : UserSettingsReason) (v : UserSettingsValidation)
    → valid (add_if found r v) ≡ (not (found && not (user_settings_mask r == 0)) && valid v)
unfolding add_if add valid
valid-add_if true r v = rw (bit_or-is_zero v.reasons (user_settings_mask r)) (ground arith)
valid-add_if false r v = refl

valid-no_reasons : valid no_reasons ≡ true
unfolding valid
valid-no_reasons = refl

ruleset verdicts = (valid-add_if, valid-no_reasons, units)

abbrev pub InRange : ℕ → ℕ → ℕ → Type 0
InRange n low high = (low ≤ n) × (n ≤ high)

pub record IsValid (s : UserSettings) : Type 0 where
  pub hood : (s.hood_monitoring ≡ 0) ⊎ (s.hood_monitoring ≡ 1)
  pub entry : (s.driver_entry_mode ≡ 0) ⊎ (s.driver_entry_mode ≡ 1)
  pub run_time : InRange s.maximum_remote_run_time_ms 60000 3600000
  pub takeover : InRange s.driver_takeover_timeout_ms 10000 300000
  pub presses : InRange s.lock_press_count 2 5
  pub minimum_gap : InRange s.lock_minimum_gap_ms 50 5000
  pub maximum_gap : InRange s.lock_maximum_gap_ms 50 5000
  pub sequence : InRange s.lock_maximum_sequence_ms 500 15000
  pub gaps : s.lock_minimum_gap_ms ≤ s.lock_maximum_gap_ms
  pub gap_in_sequence : s.lock_maximum_gap_ms ≤ s.lock_maximum_sequence_ms
  pub presses_in_sequence :
      (s.lock_press_count - 1) * s.lock_minimum_gap_ms ≤ s.lock_maximum_sequence_ms
  pub features : requests_are_valid s.features ≡ true
  pub rpm : InRange s.cold_engine_maximum_rpm 1000 4500
  pub warm : InRange s.engine_warm_temperature_c 40 110
  pub overheat : InRange s.transmission_overheat_temperature_c 80 150
  pub hysteresis : InRange s.temperature_alert_hysteresis_c 1 20

outside_iff : (n low high : ℕ) → (not (outside n low high) ≡ true) ↔ InRange n low high
outside_iff n low high = ground arith

unsupported_iff : (mode : ℕ) → (not (unsupported mode) ≡ true) ↔ ((mode ≡ 0) ⊎ (mode ≡ 1))
unsupported_iff mode = ground arith

abbrev tests : UserSettings → List Bool
tests s =
    not (outside s.temperature_alert_hysteresis_c 1 20)
    ∷ not (outside s.transmission_overheat_temperature_c 80 150)
    ∷ not (outside s.engine_warm_temperature_c 40 110)
    ∷ not (outside s.cold_engine_maximum_rpm 1000 4500)
    ∷ requests_are_valid s.features
    ∷ not (lock_timing_is_inconsistent s)
    ∷ not (outside s.lock_maximum_sequence_ms 500 15000)
    ∷ not (outside s.lock_maximum_gap_ms 50 5000)
    ∷ not (outside s.lock_minimum_gap_ms 50 5000)
    ∷ not (outside s.lock_press_count 2 5)
    ∷ not (outside s.driver_takeover_timeout_ms 10000 300000)
    ∷ not (outside s.maximum_remote_run_time_ms 60000 3600000)
    ∷ not (unsupported s.driver_entry_mode)
    ∷ not (unsupported s.hood_monitoring)
    ∷ []

not-not : (b : Bool) → not (not b) ≡ b
not-not b = ground arith

valid-tests : (s : UserSettings) → valid (validate_user_settings s) ≡ all_true (tests s)
unfolding validate_user_settings
valid-tests s = simp (verdicts, not-not)

consistent_iff :
    (s : UserSettings)
    → 2 ≤ s.lock_press_count
    → (not (lock_timing_is_inconsistent s) ≡ true)
      ↔ (s.lock_minimum_gap_ms ≤ s.lock_maximum_gap_ms)
        × (s.lock_maximum_gap_ms ≤ s.lock_maximum_sequence_ms)
        × ((s.lock_press_count - 1) * s.lock_minimum_gap_ms ≤ s.lock_maximum_sequence_ms)
consistent_iff s h = ground arith

-- Settings pass `validateUserSettings` exactly when every field is in its range, the modes are known,
-- the lock timings agree with each other and no request is for an unknown feature.
pub valid-validate_user_settings :
    (s : UserSettings) → (valid (validate_user_settings s) ≡ true) ↔ IsValid s
valid-validate_user_settings s = rw (valid-tests s) (
  λ h.
      let t = (all_true_iff (tests s)).0 h in
      let (hysteresis, (overheat, (warm, (rpm, (features, (timing, rest)))))) = t in
      let (sequence, (maximum, (minimum, (presses, (takeover, (run, (entry, (hood, end)))))))) =
        rest in
      let in_presses = (outside_iff s.lock_press_count 2 5).0 presses in
      let (gaps, fits, all_fit) = (consistent_iff s in_presses.0).0 timing in
      record {
        hood = (unsupported_iff s.hood_monitoring).0 hood;
        entry = (unsupported_iff s.driver_entry_mode).0 entry;
        run_time = (outside_iff s.maximum_remote_run_time_ms 60000 3600000).0 run;
        takeover = (outside_iff s.driver_takeover_timeout_ms 10000 300000).0 takeover;
        presses = in_presses;
        minimum_gap = (outside_iff s.lock_minimum_gap_ms 50 5000).0 minimum;
        maximum_gap = (outside_iff s.lock_maximum_gap_ms 50 5000).0 maximum;
        sequence = (outside_iff s.lock_maximum_sequence_ms 500 15000).0 sequence;
        gaps = gaps;
        gap_in_sequence = fits;
        presses_in_sequence = all_fit;
        features = features;
        rpm = (outside_iff s.cold_engine_maximum_rpm 1000 4500).0 rpm;
        warm = (outside_iff s.engine_warm_temperature_c 40 110).0 warm;
        overheat = (outside_iff s.transmission_overheat_temperature_c 80 150).0 overheat;
        hysteresis = (outside_iff s.temperature_alert_hysteresis_c 1 20).0 hysteresis;
      },
  λ v. (all_true_iff (tests s)).1 (
    (outside_iff s.temperature_alert_hysteresis_c 1 20).1 v.hysteresis,
    (
      (outside_iff s.transmission_overheat_temperature_c 80 150).1 v.overheat,
      (
        (outside_iff s.engine_warm_temperature_c 40 110).1 v.warm,
        (
          (outside_iff s.cold_engine_maximum_rpm 1000 4500).1 v.rpm,
          (
            v.features,
            (
              (consistent_iff s v.presses.0).1 (v.gaps, v.gap_in_sequence, v.presses_in_sequence),
              (
                (outside_iff s.lock_maximum_sequence_ms 500 15000).1 v.sequence,
                (
                  (outside_iff s.lock_maximum_gap_ms 50 5000).1 v.maximum_gap,
                  (
                    (outside_iff s.lock_minimum_gap_ms 50 5000).1 v.minimum_gap,
                    (
                      (outside_iff s.lock_press_count 2 5).1 v.presses,
                      (
                        (outside_iff s.driver_takeover_timeout_ms 10000 300000).1 v.takeover,
                        (
                          (outside_iff s.maximum_remote_run_time_ms 60000 3600000).1 v.run_time,
                          (
                            (unsupported_iff s.driver_entry_mode).1 v.entry,
                            ((unsupported_iff s.hood_monitoring).1 v.hood, tt),
                          ),
                        ),
                      ),
                    ),
                  ),
                ),
              ),
            ),
          ),
        ),
      ),
    ),
  ),
)
