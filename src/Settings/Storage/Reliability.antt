-- ===== src/Settings/Storage/Reliability.antt =====
-- The journal over a storage that keeps what is written to it.
use mathlib.Core.Path.{subst}
use bmw_e9x_remote_control.Common.{
  ℕ, ◌*◌, ◌<◌, ◌≡◌, ◌≢◌, inl, inr, refl, sym, ap, ◌∙◌, Bool, true, false, not, ◌&&◌, ◌||◌, Option,
  none, some, List, ltb, ◌==◌, if◌then◌else◌, if-known, if-either, &&-false_right, u32_mod, arith,
}
use bmw_e9x_remote_control.Settings.{UserSettings, valid, validate_user_settings}
use bmw_e9x_remote_control.Settings.Bytes.{read_u32}
use bmw_e9x_remote_control.Settings.Bytes.Buffers.{AllBytes, read_u32-bound}
use bmw_e9x_remote_control.Settings.Payload.{user_settings_equal}
use bmw_e9x_remote_control.Settings.Payload.Laws.{user_settings_equal_iff}
use bmw_e9x_remote_control.Settings.Ports.{SettingsByteStorage}
use bmw_e9x_remote_control.Settings.Service.ReadBack.{IsReliable}
use bmw_e9x_remote_control.Settings.Storage.{
  DecodedRecord, decode_record, no_record, record_with, selected, target_slot, next_generation,
  encode_record, read_record, reading_of, load, has_record_magic, is_unusable, stored_settings,
  save, verify, write_record, journaled_store,
}
use bmw_e9x_remote_control.Settings.Storage.Record.{stored}
use bmw_e9x_remote_control.Settings.Storage.Slots.{
  target_slot-cases, selected-written_first, selected-written_second,
}

-- What the journal relies on: a read of a slot gives the bytes in it and changes nothing, a write
-- changes at most the slot that it names, and a commit changes neither. A write or a commit may fail,
-- and a write that fails may leave anything in its slot.
pub record SlotStorage (B : SettingsByteStorage) : Type 0 where
  pub contents : B.State → ℕ → List ℕ
  pub all_bytes : (st : B.State) (slot : ℕ) → AllBytes (contents st slot)
  pub read_slot :
      (slot : ℕ) (st : B.State)
      → slot < 2
      → B.read (slot * 64) 56 st ≡ (st, some (contents st slot))
  pub write_elsewhere :
      (slot other : ℕ) (r : List ℕ) (st : B.State)
      → slot < 2
      → other < 2
      → slot ≢ other
      → contents (B.write (slot * 64) r st).0 other ≡ contents st other
  pub commit_keeps : (slot : ℕ) (st : B.State) → contents (B.commit st).0 slot ≡ contents st slot
  pub write_capacity :
      (offset : ℕ) (r : List ℕ) (st : B.State) → B.capacity (B.write offset r st).0 ≡ B.capacity st
  pub commit_capacity : (st : B.State) → B.capacity (B.commit st).0 ≡ B.capacity st

-- What `load` answers for the records in the slots.
abbrev pub chosen : DecodedRecord → DecodedRecord → Option UserSettings
chosen first second =
    if not first.valid && not second.valid then none else some (selected first second).settings

verified-stored :
    (d : DecodedRecord) (s : UserSettings) (generation : ℕ)
    → (d.valid && d.generation == generation && user_settings_equal d.settings s) ≡ true
    → d ≡ stored s generation
verified-stored d s generation e =
    let is_valid : d.valid ≡ true = ground arith in
    let number : d.generation ≡ generation = ground arith in
    let same = (user_settings_equal_iff d.settings s).0 (ground arith) in
    λ i. record { settings = same i; generation = number i; valid = is_valid i }

pair-if :
    {S A : Type 0} (b c : Bool) (st : S) (x y z : A)
    → ◌≡◌ {A = S × A}
        (if b then (st, x) else (if c then (st, y) else (st, z)))
        (st, (if b then x else (if c then y else z)))
pair-if true c st x y z = refl
pair-if false true st x y z = refl
pair-if false false st x y z = refl

record HasWord (d : DecodedRecord) : Type 0 where
  generation_word : d.generation < u32_mod

record_with-HasWord : (o : Option UserSettings) (g : ℕ) → g < u32_mod → HasWord (record_with o g)
record_with-HasWord none g h = record { generation_word = omega arith }
record_with-HasWord (some s) g h = record { generation_word = h }

decode_record-HasWord : (r : List ℕ) → AllBytes r → HasWord (decode_record r)
unfolding decode_record
decode_record-HasWord r h =
    let empty : HasWord no_record = record { generation_word = omega arith } in
    if-either HasWord (not (has_record_magic r)) empty (
      if-either HasWord (is_unusable r) empty
        (record_with-HasWord (stored_settings r) (read_u32 r 8) (read_u32-bound r 8 h)))

decode_record-bound : (r : List ℕ) → AllBytes r → (decode_record r).generation < u32_mod
decode_record-bound r h = (decode_record-HasWord r h).generation_word

module _ (B : SettingsByteStorage) (laws : SlotStorage B) where
  abbrev pub record_in : B.State → ℕ → DecodedRecord
  record_in st slot = decode_record (laws.contents st slot)

  read_record-slot :
      (slot : ℕ) (st : B.State) → slot < 2 → read_record B slot st ≡ (st, (true, record_in st slot))
  read_record-slot slot st h =
      ap (λ (r : B.State × Option (List ℕ)). (r.0, reading_of r.1)) (laws.read_slot slot st h)

  pub load-slots :
      (st : B.State)
      → load B st
        ≡ (st, (if ltb (B.capacity st) 128 then none else chosen (record_in st 0) (record_in st 1)))
  unfolding load
  load-slots st =
      let first = laws.read_slot 0 st (omega arith) in
      let second = laws.read_slot 1 st (omega arith) in
      rw (first, second) (pair-if (ltb (B.capacity st) 128) _ st none none _)

  verify-true :
      (s : UserSettings) (slot generation : ℕ) (st : B.State)
      → slot < 2
      → (verify B s slot generation st).1 ≡ true
      → ((verify B s slot generation st).0 ≡ st) × (record_in st slot ≡ stored s generation)
  verify-true s slot generation st h =
      rw (laws.read_slot slot st h)
        (λ e. (refl, verified-stored (record_in st slot) s generation e))

  -- What a save that answers `true` did to the slots.
  pub record Saved (s : UserSettings) (slot generation : ℕ) (before after : B.State) : Type 0 where
    pub written : record_in after slot ≡ stored s generation
    pub elsewhere :
        (other : ℕ) → other < 2 → slot ≢ other → record_in after other ≡ record_in before other
    pub same_capacity : B.capacity after ≡ B.capacity before

  write_record-Saved :
      (s : UserSettings) (slot generation : ℕ) (o : Option (List ℕ)) (st : B.State)
      → slot < 2
      → (write_record B s slot generation o st).1 ≡ true
      → Saved s slot generation st (write_record B s slot generation o st).0
  write_record-Saved s slot generation none st h = λ e. absurd (ground arith)
  write_record-Saved s slot generation (some r) st h =
      let st1 = (B.write (slot * 64) r st).0 in
      let st2 = (B.commit st1).0 in
      let Fine = λ (x : B.State × Bool). x.1 ≡ true → Saved s slot generation st x.0 in
      if-known Fine (not (B.write (slot * 64) r st).1) (λ _ e. absurd (ground arith))
        (λ _.
          if-known Fine (not (B.commit st1).1) (λ _ e. absurd (ground arith))
            (λ _ e.
              let (same, there) = verify-true s slot generation st2 h e in
              subst (Saved s slot generation st) (sym same) (record {
                written = there;
                elsewhere = λ other ho apart.
                    ap decode_record (
                      laws.commit_keeps other st1
                      ∙ laws.write_elsewhere slot other r st h ho apart);
                same_capacity = laws.commit_capacity st1 ∙ laws.write_capacity (slot * 64) r st;
              })))

  pub target_slot-bound : (first second : DecodedRecord) → target_slot first second < 2
  target_slot-bound first second = ground (arith, target_slot-cases first second)

  save-Saved :
      (s : UserSettings) (st : B.State)
      → (save B s st).1 ≡ true
      → (ltb (B.capacity st) 128 ≡ false)
        × Saved s
            (target_slot (record_in st 0) (record_in st 1))
            (next_generation (record_in st 0) (record_in st 1))
            st
            (save B s st).0
  unfolding save
  save-Saved s st =
      let slot = target_slot (record_in st 0) (record_in st 1) in
      let generation = next_generation (record_in st 0) (record_in st 1) in
      let refused = ltb (B.capacity st) 128 || not (valid (validate_user_settings s)) in
      let Fine = λ (x : B.State × Bool).
        x.1 ≡ true → (ltb (B.capacity st) 128 ≡ false) × Saved s slot generation st x.0 in
      rw (laws.read_slot 0 st (omega arith), laws.read_slot 1 st (omega arith))
        (if-known Fine refused (λ _ e. absurd (ground arith))
          (λ fine e. (
            ground arith,
            write_record-Saved s slot generation (encode_record s generation) st
                (target_slot-bound (record_in st 0) (record_in st 1)) e,
          )))

  -- The journal's selection after a save.
  selected-Saved :
      (s : UserSettings) (st after : B.State)
      → Saved s
          (target_slot (record_in st 0) (record_in st 1))
          (next_generation (record_in st 0) (record_in st 1))
          st
          after
      → chosen (record_in after 0) (record_in after 1) ≡ some s
  selected-Saved s st after saved =
      let first = record_in st 0 in
      let second = record_in st 1 in
      let new = stored s (next_generation first second) in
      elim (target_slot-cases first second) [
        | inl t ↦
            let written : record_in after 0 ≡ new = ap (record_in after) (sym t) ∙ saved.written in
            let kept : record_in after 1 ≡ second =
              saved.elsewhere 1 (omega arith) (λ e. omega arith) in
            rw (written, kept)
              (rw
                (selected-written_first first second new refl refl
                  (decode_record-bound (laws.contents st 1) (laws.all_bytes st 1)) t)
                refl)
        | inr t ↦
            let written : record_in after 1 ≡ new = ap (record_in after) (sym t) ∙ saved.written in
            let kept : record_in after 0 ≡ first =
              saved.elsewhere 0 (omega arith) (λ e. omega arith) in
            rw (written, kept)
              (rw
                (selected-written_second first second new refl refl
                  (decode_record-bound (laws.contents st 0) (laws.all_bytes st 0)) t)
                (rw (&&-false_right (not first.valid)) refl))
      ]

  pub loaded_answer :
      (st : B.State)
      → ltb (B.capacity st) 128 ≡ false
      → (load B st).1 ≡ chosen (record_in st 0) (record_in st 1)
  loaded_answer st h = ap (λ r. r.1) (load-slots st) ∙ rw h refl

  -- Over such a storage, the settings of a save that answered `true` are the ones that the next load
  -- gives.
  pub journaled_store-IsReliable : IsReliable (journaled_store B)
  journaled_store-IsReliable s st kept =
      let (large, saved) = save-Saved s st kept in
      let room : ltb (B.capacity (save B s st).0) 128 ≡ false =
        ap (λ c. ltb c 128) saved.same_capacity ∙ large in
      loaded_answer (save B s st).0 room ∙ selected-Saved s st (save B s st).0 saved
