-- ===== src/Settings/Storage/Slots.antt =====
-- Which slot the journal selects, and which one it overwrites.
use bmw_e9x_remote_control.Common.{ℕ, ◌+◌, ◌%◌, ◌<◌, ◌≡◌, true, false, ◌||◌, u32_mod, arith, ◌⊎◌}
use bmw_e9x_remote_control.Settings.Storage.{
  DecodedRecord, generation_is_newer, selected, target_slot, next_generation,
}

-- The next generation is newer than the one that it follows, and not the other way round.
newer_next :
    (g : ℕ)
    → g < u32_mod
    → (generation_is_newer ((g + 1) % u32_mod) g ≡ true)
      × (generation_is_newer g ((g + 1) % u32_mod) ≡ false)
unfolding generation_is_newer
newer_next g h = (ground arith, ground arith)

pub target_slot-cases :
    (first second : DecodedRecord) → (target_slot first second ≡ 0) ⊎ (target_slot first second ≡ 1)
unfolding target_slot
target_slot-cases first second = ground arith

module _ (first second : DecodedRecord) where
  pub valid-target_first :
      (first.valid || second.valid) ≡ true → target_slot first second ≡ 0 → second.valid ≡ true
  unfolding target_slot
  valid-target_first h t = ground arith

  pub valid-target_second :
      (first.valid || second.valid) ≡ true → target_slot first second ≡ 1 → first.valid ≡ true
  unfolding target_slot
  valid-target_second h t = ground arith

  -- The record that is overwritten is not the selected one.
  pub selected-damaged_first :
      (damaged : DecodedRecord)
      → damaged.valid ≡ false
      → (first.valid || second.valid) ≡ true
      → target_slot first second ≡ 0
      → selected damaged second ≡ selected first second
  unfolding selected target_slot
  selected-damaged_first damaged h some_valid t = ground arith

  pub selected-damaged_second :
      (damaged : DecodedRecord)
      → damaged.valid ≡ false
      → (first.valid || second.valid) ≡ true
      → target_slot first second ≡ 1
      → selected first damaged ≡ selected first second
  unfolding selected target_slot
  selected-damaged_second damaged h some_valid t = ground arith

  -- A record with the next generation is selected wherever it is written.
  pub selected-written_first :
      (new : DecodedRecord)
      → new.valid ≡ true
      → new.generation ≡ next_generation first second
      → second.generation < u32_mod
      → target_slot first second ≡ 0
      → selected new second ≡ new
  unfolding selected target_slot next_generation
  selected-written_first new h g bound t =
      let next = newer_next second.generation bound in ground arith

  pub selected-written_second :
      (new : DecodedRecord)
      → new.valid ≡ true
      → new.generation ≡ next_generation first second
      → first.generation < u32_mod
      → target_slot first second ≡ 1
      → selected first new ≡ new
  unfolding selected target_slot next_generation
  selected-written_second new h g bound t =
      let next = newer_next first.generation bound in ground arith
