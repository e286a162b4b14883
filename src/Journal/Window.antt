-- ===== src/Journal/Window.antt =====
-- The ring against the list of everything that was appended to it.
use bmw_e9x_remote_control.Common.{
  ℕ, zero, suc, ◌+◌, ◌-◌, ◌%◌, ◌≤◌, ◌<◌, ◌≡◌, refl, Option, some, List, [], ◌∷◌, length, get_elem?,
  ltb, if◌then◌else◌, arith, u32_mod,
}
use Prim.Native.Nat.{min}
use native.Mathlib.Nat.{sub-zero}
use bmw_e9x_remote_control.Journal.Ring.{
  DiagnosticRecord, DiagnosticJournal, empty_journal, append, read, maximum_records,
}

abbrev pub numbered : DiagnosticJournal → DiagnosticRecord → DiagnosticRecord
numbered j r = record r { sequence = j.next_sequence }

pub record IsRing (j : DiagnosticJournal) : Type 0 where
  pub size_bound : j.size ≤ maximum_records
  pub index_bound : j.oldest_index < maximum_records

pub append-IsRing : (j : DiagnosticJournal) (r : DiagnosticRecord) → IsRing j → IsRing (append j r)
unfolding append
append-IsRing j r h = ground arith

-- The last record read is the one just appended.
pub read-append_last :
    (j : DiagnosticJournal) (r : DiagnosticRecord)
    → IsRing j
    → read (append j r) ((append j r).size - 1) ≡ some (numbered j r)
unfolding append read
read-append_last j r h = ground arith

-- The older records keep their order; the oldest one goes once the ring is full.
read-append_older :
    (j : DiagnosticJournal) (r : DiagnosticRecord) (i : ℕ)
    → IsRing j
    → i + 1 < (append j r).size
    → read (append j r) i ≡ (if ltb j.size maximum_records then read j i else read j (i + 1))
unfolding append read
read-append_older j r i h lt = ground arith

size-append :
    (j : DiagnosticJournal) (r : DiagnosticRecord)
    → (append j r).size ≡ (if ltb j.size maximum_records then j.size + 1 else j.size)
unfolding append
size-append j r = ground arith

-- A journal after records were appended; the newest stands first in the list.
unfoldable pub append_all : List DiagnosticRecord → DiagnosticJournal
append_all [] = empty_journal
append_all (r ∷ older) = append (append_all older) r

-- The same records, newest first, with the sequence numbers that they got.
abbrev pub numbered_all : List DiagnosticRecord → List DiagnosticRecord
numbered_all [] = []
numbered_all (r ∷ older) = numbered (append_all older) r ∷ numbered_all older

append_all-IsRing : (rs : List DiagnosticRecord) → IsRing (append_all rs)
unfolding append_all
append_all-IsRing [] = omega arith
append_all-IsRing (r ∷ older) = append-IsRing (append_all older) r (append_all-IsRing older)

size-append_all :
    (rs : List DiagnosticRecord) → (append_all rs).size ≡ min maximum_records (length rs)
unfolding append_all
size-append_all [] = omega arith
size-append_all (r ∷ older) =
    ground (arith, size-append (append_all older) r, size-append_all older)

read_newest :
    (rs : List DiagnosticRecord) (i : ℕ)
    → i < (append_all rs).size
    → read (append_all rs) ((append_all rs).size - 1 - i) ≡ get_elem? (numbered_all rs) i
unfolding append_all
read_newest [] i lt = absurd (omega arith)
read_newest (r ∷ older) zero lt =
    rw sub-zero (read-append_last (append_all older) r (append_all-IsRing older))
read_newest (r ∷ older) (suc i) lt =
    let j = append_all older in
    ground (
      arith,
      append_all-IsRing older,
      size-append j r,
      read-append_older j r ((append j r).size - 1 - suc i) (append_all-IsRing older),
      read_newest older i,
    )

-- The journal holds the last 32 records appended, or all of them if they are fewer, and reads them
-- in the order in which they came, with the sequence numbers that they got.
pub journal_window :
    (rs : List DiagnosticRecord)
    → let j = append_all rs in
      (j.size ≡ min maximum_records (length rs))
      × ((i : ℕ) → i < j.size → read j (j.size - 1 - i) ≡ get_elem? (numbered_all rs) i)
      × ((i : ℕ) → j.size ≤ i → read j i ≡ Option.none)
unfolding read
journal_window rs = (size-append_all rs, read_newest rs, λ i h. ground arith)

-- Sequence numbers count the records from 1, modulo 2^32.
pub next_sequence-append_all :
    (rs : List DiagnosticRecord) → (append_all rs).next_sequence ≡ (length rs + 1) % u32_mod
unfolding append_all append
next_sequence-append_all [] = refl
next_sequence-append_all (r ∷ older) = ground (arith, next_sequence-append_all older)
