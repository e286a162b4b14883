-- ===== src/Settings/Storage/PowerLoss.antt =====
-- A write that is cut off does not lose the settings that were saved before.
use mathlib.Core.Path.{subst}
use bmw_e9x_remote_control.Common.{
  ℕ, ◌*◌, ◌≡◌, inl, inr, refl, sym, ap, ◌∙◌, Bool, true, false, ◌||◌, Option, none, some, List, ltb,
  if◌then◌else◌, arith,
}
use bmw_e9x_remote_control.Settings.{UserSettings}
use bmw_e9x_remote_control.Settings.Ports.{SettingsByteStorage}
use bmw_e9x_remote_control.Settings.Storage.{
  DecodedRecord, decode_record, selected, target_slot, load,
}
use bmw_e9x_remote_control.Settings.Storage.Slots.{
  target_slot-cases, selected-damaged_first, selected-damaged_second, valid-target_first,
  valid-target_second,
}
use bmw_e9x_remote_control.Settings.Storage.Reliability.{
  SlotStorage, chosen, record_in, loaded_answer, load-slots,
}

chosen-valid :
    (first second : DecodedRecord) (s : UserSettings)
    → chosen first second ≡ some s
    → ((first.valid || second.valid) ≡ true) × ((selected first second).settings ≡ s)
chosen-valid first second s e = ground arith

chosen-selected :
    (first second : DecodedRecord) (s : UserSettings)
    → (first.valid || second.valid) ≡ true
    → (selected first second).settings ≡ s
    → chosen first second ≡ some s
chosen-selected first second s h e = ground arith

if-some :
    (b : Bool) (o : Option UserSettings) (s : UserSettings)
    → (if b then none else o) ≡ some s
    → b ≡ false
if-some b o s e = ground arith

||-true_right : (b : Bool) → (b || true) ≡ true
||-true_right b = ground arith

module _ (B : SettingsByteStorage) (laws : SlotStorage B) where
  load-room :
      (st : B.State) (s : UserSettings) → (load B st).1 ≡ some s → ltb (B.capacity st) 128 ≡ false
  load-room st s e =
      if-some (ltb (B.capacity st) 128) (chosen (record_in B laws st 0) (record_in B laws st 1)) s
        (sym (ap (λ r. r.1) (load-slots B laws st)) ∙ e)

  -- Whatever bytes a write leaves in the slot that a save overwrites, as long as they are no valid
  -- record, the settings that were loaded before are still the ones that are loaded.
  pub load-write_damaged :
      (st : B.State) (r : List ℕ) (s : UserSettings) (slot : ℕ)
      → slot ≡ target_slot (record_in B laws st 0) (record_in B laws st 1)
      → (load B st).1 ≡ some s
      → (record_in B laws (B.write (slot * 64) r st).0 slot).valid ≡ false
      → (load B (B.write (slot * 64) r st).0).1 ≡ some s
  load-write_damaged st r s slot target e damaged =
      let after = (B.write (slot * 64) r st).0 in
      let first = record_in B laws st 0 in
      let second = record_in B laws st 1 in
      let room = load-room st s e in
      let large : ltb (B.capacity after) 128 ≡ false =
        ap (λ c. ltb c 128) (laws.write_capacity (slot * 64) r st) ∙ room in
      let (some_valid, shown) =
        chosen-valid first second s (sym (loaded_answer B laws st room) ∙ e) in
      loaded_answer B laws after large ∙ elim (target_slot-cases first second) [
        | inl t ↦
            let here : slot ≡ 0 = target ∙ t in
            let kept : record_in B laws after 1 ≡ second =
              ap decode_record
                (laws.write_elsewhere slot 1 r st (omega arith) (omega arith) (λ x. omega arith)) in
            let bad : (record_in B laws after 0).valid ≡ false =
              subst (λ k. (record_in B laws after k).valid ≡ false) here damaged in
            rw kept (
              chosen-selected (record_in B laws after 0) second s
                (rw (valid-target_first first second some_valid t)
                  (||-true_right (record_in B laws after 0).valid))
                (ap (λ d. d.settings)
                    (selected-damaged_first first second (record_in B laws after 0) bad some_valid
                      t)
                  ∙ shown))
        | inr t ↦
            let here : slot ≡ 1 = target ∙ t in
            let kept : record_in B laws after 0 ≡ first =
              ap decode_record
                (laws.write_elsewhere slot 0 r st (omega arith) (omega arith) (λ x. omega arith)) in
            let bad : (record_in B laws after 1).valid ≡ false =
              subst (λ k. (record_in B laws after k).valid ≡ false) here damaged in
            rw kept (
              chosen-selected first (record_in B laws after 1) s
                (rw (valid-target_second first second some_valid t) refl)
                (ap (λ d. d.settings)
                    (selected-damaged_second first second (record_in B laws after 1) bad some_valid
                      t)
                  ∙ shown))
      ]
