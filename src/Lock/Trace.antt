-- ===== src/Lock/Trace.antt =====
-- A remote-start request, traced back through everything that was presented to the gate.
use bmw_e9x_remote_control.Common.{
  ℕ, ◌≤◌, ◌<◌, ◌≡◌, ◌∙◌, refl, true, List, [], ◌∷◌, length, sub32, arith,
}
use mathlib.Core.Path.{subst}
use bmw_e9x_remote_control.Lock.Presses.{IsSequence, began_at}
use bmw_e9x_remote_control.Lock.Gate.{
  LockCommandTrust, LockCommandEvidence, LockCommandStatus, LockCommandGate, LockCommandGateConfig,
  status_accepted, gate_config_is_valid, process, new_gate, take_evidence, check_order,
  check_evidence,
}
use bmw_e9x_remote_control.Lock.Admission.{accepted-IsAdmissible}
use bmw_e9x_remote_control.Lock.History.{times, GateCounts, GateExplains, process-GateExplains}

-- The gate after a history of evidence and times, newest first.
unfoldable pub after : LockCommandGate → List (LockCommandEvidence × ℕ) → LockCommandGate
after g [] = g
after g ((e, now_ms) ∷ older) = (process (after g older) e now_ms).0

-- Evidence that a gate may count at the time when it is presented.
pub record IsGenuine (c : LockCommandGateConfig) (e : LockCommandEvidence) (now_ms : ℕ)
    : Type 0 where
  pub trusted : e.trust ≡ LockCommandTrust.verified
  pub secured : e.vehicle_secured ≡ true
  pub recent : sub32 now_ms e.observed_at_ms ≤ c.maximum_evidence_age_ms

-- Evidence picked from a history in its order, each piece genuine.
pub data Picks (c : LockCommandGateConfig)
    : List LockCommandEvidence → List (LockCommandEvidence × ℕ) → Type 0 where
  done : {h : List (LockCommandEvidence × ℕ)} → Picks c [] h
  pick :
      {e : LockCommandEvidence} {now_ms : ℕ} {es : List LockCommandEvidence}
      {h : List (LockCommandEvidence × ℕ)}
      → IsGenuine c e now_ms
      → Picks c es h
      → Picks c (e ∷ es) ((e, now_ms) ∷ h)
  pass :
      {i : LockCommandEvidence × ℕ} {es : List LockCommandEvidence}
      {h : List (LockCommandEvidence × ℕ)}
      → Picks c es h
      → Picks c es (i ∷ h)

take_evidence-config :
    (g : LockCommandGate) (e : LockCommandEvidence) → (take_evidence g e).0.config ≡ g.config
unfolding take_evidence
take_evidence-config g e = ground arith

check_order-config :
    (g : LockCommandGate) (e : LockCommandEvidence) → (check_order g e).0.config ≡ g.config
unfolding check_order
check_order-config g e = ground (arith, take_evidence-config g e)

check_evidence-config :
    (g : LockCommandGate) (e : LockCommandEvidence) (now_ms : ℕ)
    → (check_evidence g e now_ms).0.config ≡ g.config
unfolding check_evidence
check_evidence-config g e now_ms = ground (arith, check_order-config g e)

process-config :
    (g : LockCommandGate) (e : LockCommandEvidence) (now_ms : ℕ)
    → (process g e now_ms).0.config ≡ g.config
unfolding process
process-config g e now_ms = ground (
  arith,
  check_evidence-config (record g { last_now_ms = now_ms; clock_initialized = true }) e now_ms,
)

IsGenuine-of_accepted :
    (g : LockCommandGate) (c : LockCommandGateConfig) (e : LockCommandEvidence) (now_ms : ℕ)
    → g.config ≡ c
    → status_accepted (process g e now_ms).1 ≡ true
    → IsGenuine c e now_ms
IsGenuine-of_accepted g c e now_ms same h =
    let a = (accepted-IsAdmissible g e now_ms h).0 in
    record {
      trusted = a.trusted;
      secured = a.secured;
      recent = subst (λ k. sub32 now_ms e.observed_at_ms ≤ k.maximum_evidence_age_ms) same a.recent;
    }

next_counted :
    (status : LockCommandStatus) (c : LockCommandGateConfig) (g g' : LockCommandGate)
    (e : LockCommandEvidence) (now_ms : ℕ) (es : List LockCommandEvidence)
    (h : List (LockCommandEvidence × ℕ))
    → GateExplains status g e es g'
    → (status_accepted status ≡ true → IsGenuine c e now_ms)
    → Picks c es h
    → (fs : List LockCommandEvidence) × GateCounts g' fs × Picks c fs ((e, now_ms) ∷ h)
next_counted LockCommandStatus.press_accepted c g g' e now_ms es h x genuine p =
    (e ∷ es, x, Picks.pick (genuine refl) p)
next_counted LockCommandStatus.sequence_restarted c g g' e now_ms es h x genuine p =
    (e ∷ [], x, Picks.pick (genuine refl) Picks.done)
next_counted LockCommandStatus.rejected_timing c g g' e now_ms es h x genuine p =
    (es, x, Picks.pass p)
next_counted LockCommandStatus.remote_start_requested c g g' e now_ms es h x genuine p =
    ([], x.0, Picks.done)
next_counted _ c g g' e now_ms es h x genuine p = ([], x, Picks.done)

after_counted :
    (c : LockCommandGateConfig) (h : List (LockCommandEvidence × ℕ))
    → gate_config_is_valid c ≡ true
    → c.sequence.required_presses < 256
    → (es : List LockCommandEvidence) × GateCounts (after (new_gate c) h) es
      × Picks c es h
      × ((after (new_gate c) h).config ≡ c)
unfolding after
after_counted c [] valid byte = (
  [],
  record {
    counts = record { count = refl; unfinished = ground arith; byte = byte; latest = tt };
    same_config = refl;
    valid = valid;
  },
  Picks.done,
  refl,
)
after_counted c ((e, now_ms) ∷ h) valid byte =
    let (es, counts, picks, same) = after_counted c h valid byte in
    let g = after (new_gate c) h in
    let (fs, more, picked) =
      next_counted (process g e now_ms).1 c g (process g e now_ms).0 e now_ms es h
        (process-GateExplains g e now_ms es counts) (IsGenuine-of_accepted g c e now_ms same)
        picks in
    (fs, more, picked, process-config g e now_ms ∙ same)

-- On a valid configuration whose number of presses fits a byte, a remote start is requested only
-- after the required number of genuine pieces of evidence were presented, the newest of them last,
-- whose press times form a sequence within the limits.
pub request_needs_presses :
    (c : LockCommandGateConfig) (h : List (LockCommandEvidence × ℕ)) (e : LockCommandEvidence)
    (now_ms : ℕ)
    → gate_config_is_valid c ≡ true
    → c.sequence.required_presses < 256
    → (process (after (new_gate c) h) e now_ms).1 ≡ LockCommandStatus.remote_start_requested
    → (es : List LockCommandEvidence) × (first : ℕ) × Picks c (e ∷ es) ((e, now_ms) ∷ h)
      × IsSequence c.sequence first (times (e ∷ es))
      × (length (e ∷ es) ≡ c.sequence.required_presses)
request_needs_presses c h e now_ms valid byte requested =
    let (es, counts, picks, same) = after_counted c h valid byte in
    let g = after (new_gate c) h in
    let x =
      subst (λ s. GateExplains s g e es (process g e now_ms).0) requested
        (process-GateExplains g e now_ms es counts) in
    let genuine = IsGenuine-of_accepted g c e now_ms same (rw requested refl) in
    (
      es,
      began_at g.detector e.observed_at_ms (times es),
      Picks.pick genuine picks,
      subst
          (λ (k : LockCommandGateConfig).
            IsSequence k.sequence (began_at g.detector e.observed_at_ms (times es))
              (times (e ∷ es)))
          same x.1,
      subst (λ (k : LockCommandGateConfig). length (e ∷ es) ≡ k.sequence.required_presses) same x.2,
    )
