-- ===== src/Lock/Admission.antt =====
-- What the gate admits.
use bmw_e9x_remote_control.Common.{
  ℕ, ◌≤◌, ◌≡◌, ◌≢◌, ◌⊎◌, inl, inr, true, false, Bool-cases, sub32, strictly_newer, arith,
}
use bmw_e9x_remote_control.Lock.Gate.{
  LockCommandSource, LockCommandTrust, LockCommandEvidence, LockCommandGate, status_accepted,
  process, take_evidence, check_order, check_evidence,
}

-- Evidence that may count: verified, from a source the gate allows, of a secured vehicle, neither
-- from the future nor too old, and newer than the last evidence taken.
pub record IsAdmissible (g : LockCommandGate) (e : LockCommandEvidence) (now_ms : ℕ) : Type 0 where
  pub trusted : e.trust ≡ LockCommandTrust.verified
  pub known_source : e.source ≢ LockCommandSource.unspecified
  pub allowed_source :
      e.source ≡ LockCommandSource.synthetic_test → g.config.allow_synthetic_source ≡ true
  pub secured : e.vehicle_secured ≡ true
  pub not_future : (e.observed_at_ms ≡ now_ms) ⊎ (strictly_newer e.observed_at_ms now_ms ≡ false)
  pub recent : sub32 now_ms e.observed_at_ms ≤ g.config.maximum_evidence_age_ms
  pub newer :
      g.evidence_initialized ≡ true
      → (strictly_newer e.source_sequence g.last_source_sequence ≡ true)
        × (strictly_newer e.observed_at_ms g.last_evidence_timestamp_ms ≡ true)

-- The evidence is the last one taken.
pub record Remembers (g : LockCommandGate) (e : LockCommandEvidence) : Type 0 where
  pub sequence : g.last_source_sequence ≡ e.source_sequence
  pub timestamp : g.last_evidence_timestamp_ms ≡ e.observed_at_ms
  pub initialized : g.evidence_initialized ≡ true

take_evidence-Remembers :
    (g : LockCommandGate) (e : LockCommandEvidence) → Remembers (take_evidence g e).0 e
unfolding take_evidence
take_evidence-Remembers g e = ground arith

check_order_accepted :
    (g : LockCommandGate) (e : LockCommandEvidence)
    → status_accepted (check_order g e).1 ≡ true
    → Remembers (check_order g e).0 e
      × (g.evidence_initialized ≡ true
          → (strictly_newer e.source_sequence g.last_source_sequence ≡ true)
            × (strictly_newer e.observed_at_ms g.last_evidence_timestamp_ms ≡ true))
unfolding check_order
check_order_accepted g e h = ground (arith, take_evidence-Remembers g e)

check_evidence_accepted :
    (g : LockCommandGate) (e : LockCommandEvidence) (now_ms : ℕ)
    → status_accepted (check_evidence g e now_ms).1 ≡ true
    → (status_accepted (check_order g e).1 ≡ true)
      × (check_evidence g e now_ms ≡ check_order g e)
      × (e.trust ≡ LockCommandTrust.verified)
      × (e.source ≢ LockCommandSource.unspecified)
      × (e.source ≡ LockCommandSource.synthetic_test → g.config.allow_synthetic_source ≡ true)
      × (e.vehicle_secured ≡ true)
      × ((e.observed_at_ms ≡ now_ms) ⊎ (strictly_newer e.observed_at_ms now_ms ≡ false))
      × (sub32 now_ms e.observed_at_ms ≤ g.config.maximum_evidence_age_ms)
unfolding check_evidence
check_evidence_accepted g e now_ms h = ground arith

abbrev at_time : LockCommandGate → ℕ → LockCommandGate
at_time g now_ms = record g { last_now_ms = now_ms; clock_initialized = true }

process_accepted :
    (g : LockCommandGate) (e : LockCommandEvidence) (now_ms : ℕ)
    → status_accepted (process g e now_ms).1 ≡ true
    → (status_accepted (check_evidence (at_time g now_ms) e now_ms).1 ≡ true)
      × (process g e now_ms ≡ check_evidence (at_time g now_ms) e now_ms)
unfolding process
process_accepted g e now_ms h = ground arith

-- Evidence that is accepted was admissible, and it is remembered as the last evidence taken.
pub accepted-IsAdmissible :
    (g : LockCommandGate) (e : LockCommandEvidence) (now_ms : ℕ)
    → status_accepted (process g e now_ms).1 ≡ true
    → IsAdmissible g e now_ms × Remembers (process g e now_ms).0 e
accepted-IsAdmissible g e now_ms h =
    let (a, p) = process_accepted g e now_ms h in
    let (b, q, trusted, known_source, allowed, secured, not_future, recent) =
      check_evidence_accepted (at_time g now_ms) e now_ms a in
    let (remembers, newer) = check_order_accepted (at_time g now_ms) e b in
    (
      record {
        trusted = trusted;
        known_source = known_source;
        allowed_source = allowed;
        secured = secured;
        not_future = not_future;
        recent = recent;
        newer = newer;
      },
      rw (p, q) remembers,
    )

not-newer_self : (n : ℕ) → strictly_newer n n ≡ false
unfolding strictly_newer
not-newer_self n = ground arith

-- Evidence that was accepted once is rejected when it is presented again, at whatever time.
pub replay_rejected :
    (g : LockCommandGate) (e : LockCommandEvidence) (now_ms later_ms : ℕ)
    → status_accepted (process g e now_ms).1 ≡ true
    → status_accepted (process (process g e now_ms).0 e later_ms).1 ≡ false
replay_rejected g e now_ms later_ms h =
    let g' = (process g e now_ms).0 in
    let r = (accepted-IsAdmissible g e now_ms h).1 in
    elim (Bool-cases (status_accepted (process g' e later_ms).1)) [
      | inl again ↦
          let newer = ((accepted-IsAdmissible g' e later_ms again).0.newer r.initialized).0 in
          absurd (clash newer r.sequence)
      | inr refused ↦ refused
    ]
  where
    clash :
        strictly_newer e.source_sequence (process g e now_ms).0.last_source_sequence ≡ true
        → (process g e now_ms).0.last_source_sequence ≡ e.source_sequence
        → ⊥
    clash newer same = cc (not-newer_self e.source_sequence)
