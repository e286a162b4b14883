-- ===== src/Lock/Presses.antt =====
-- The detector against the list of presses that it counts.
use bmw_e9x_remote_control.Common.{
  ℕ, ◌+◌, ◌≤◌, ◌<◌, ◌≡◌, ◌≢◌, ◌⊎◌, true, List, [], ◌∷◌, length, sub32, ◌==◌, if◌then◌else◌, arith,
}
use bmw_e9x_remote_control.Lock.Sequence.{
  LockSequenceConfig, LockSequenceDetector, LockPressResult, sequence_config_is_valid, observe,
}

-- Presses, newest first, that began at `first`: each follows the one before it after a gap within
-- the limits, and none comes too late after the first.
abbrev pub IsSequence : LockSequenceConfig → ℕ → List ℕ → Type 0
IsSequence c first [] = ⊥
IsSequence c first (t ∷ []) = t ≡ first
IsSequence c first (t ∷ s ∷ rest) =
    (c.minimum_gap_ms ≤ sub32 t s)
    × (sub32 t s ≤ c.maximum_gap_ms)
    × (sub32 t first ≤ c.maximum_sequence_ms)
    × IsSequence c first (s ∷ rest)

abbrev Latest : LockSequenceDetector → List ℕ → Type 0
Latest d [] = Unit {0}
Latest d (t ∷ rest) =
    (d.last_press_timestamp_ms ≡ t) × IsSequence d.config d.first_press_timestamp_ms (t ∷ rest)

-- The detector has counted the presses `ps`, fewer than complete a sequence.
pub record Counts (d : LockSequenceDetector) (ps : List ℕ) : Type 0 where
  pub count : d.press_count ≡ length ps
  pub unfinished : length ps < d.config.required_presses
  pub byte : d.config.required_presses < 256
  pub latest : Latest d ps

-- The time of the first press, once `t` is added to the presses.
abbrev pub began_at : LockSequenceDetector → ℕ → List ℕ → ℕ
began_at d t [] = t
began_at d t (p ∷ ps) = d.first_press_timestamp_ms

-- What a result says of the presses `ps` counted before, and of the press at `t`.
abbrev pub Explains :
    LockPressResult → LockSequenceDetector → ℕ → List ℕ → LockSequenceDetector → Type 0
Explains LockPressResult.accepted d t ps d' = Counts d' (t ∷ ps)
Explains LockPressResult.sequence_restarted d t ps d' =
    Counts d' (t ∷ [])
    × (ps ≢ [])
    × ((d.config.maximum_gap_ms < sub32 t d.last_press_timestamp_ms)
        ⊎ (d.config.maximum_sequence_ms < sub32 t d.first_press_timestamp_ms))
Explains LockPressResult.ignored_debounce d t ps d' =
    (d' ≡ d) × (ps ≢ []) × (sub32 t d.last_press_timestamp_ms < d.config.minimum_gap_ms)
Explains LockPressResult.sequence_completed d t ps d' =
    IsSequence d.config (began_at d t ps) (t ∷ ps)
    × (length (t ∷ ps) ≡ d.config.required_presses)
    × Counts d' []
Explains LockPressResult.invalid_configuration d t ps d' = ⊥

-- Every result of a detector on a valid configuration is explained by the presses it has counted: a
-- press is counted only in time after the one before it, and a sequence is completed exactly by the
-- required number of presses, each in time.
pub observe-Explains :
    (d : LockSequenceDetector) (t : ℕ) (ps : List ℕ)
    → sequence_config_is_valid d.config ≡ true
    → Counts d ps
    → let (d', result) = observe d t in Explains result d t ps d'
unfolding observe
observe-Explains d t [] valid c = ground arith
observe-Explains d t (p ∷ []) valid c = ground arith
observe-Explains d t (p ∷ q ∷ ps) valid c = ground arith

-- A press in time after one counted on a valid configuration is counted, and completes the sequence
-- exactly if it is the last one required.
pub observe_in_time :
    (d : LockSequenceDetector) (t p : ℕ) (ps : List ℕ)
    → sequence_config_is_valid d.config ≡ true
    → Counts d (p ∷ ps)
    → d.config.minimum_gap_ms ≤ sub32 t p
    → sub32 t p ≤ d.config.maximum_gap_ms
    → sub32 t d.first_press_timestamp_ms ≤ d.config.maximum_sequence_ms
    → (observe d t).1 ≡ (
        if length (p ∷ ps) + 1 == d.config.required_presses
        then LockPressResult.sequence_completed
        else LockPressResult.accepted)
unfolding observe
observe_in_time d t p ps valid c low high whole = ground arith
