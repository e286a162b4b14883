-- ===== src/Journal/Faults.antt =====
-- What the journal shows of a fault.
use bmw_e9x_remote_control.Common.{
  ℕ, ◌-◌, ◌≡◌, ◌≢◌, ◌∙◌, refl, sym, Bool, true, false, not, ◌&&◌, some, if◌then◌else◌, if-either,
  arith,
}
use bmw_e9x_remote_control.Domain.{VehicleState}
use bmw_e9x_remote_control.Controller.Types.{ControllerState, Event, Decision, Controller}
use bmw_e9x_remote_control.Controller.Handler.{handle}
use bmw_e9x_remote_control.Controller.Outputs.{handle-decision}
use bmw_e9x_remote_control.Journal.Ring.{
  DiagnosticRecord, DiagnosticRecordType, DiagnosticReason, DiagnosticJournal, append, read,
}
use bmw_e9x_remote_control.Journal.Records.{
  observe, make_record, fault_reason, same_state, rejection_reason, is_reason, is_command,
  command_record,
}
use bmw_e9x_remote_control.Journal.Window.{IsRing, append-IsRing, numbered, read-append_last}

append_if-IsRing :
    (found : Bool) (j : DiagnosticJournal) (q : DiagnosticRecord)
    → IsRing j
    → IsRing (if found then append j q else j)
append_if-IsRing found j q h = if-either IsRing found (append-IsRing j q h) h

read_appended :
    (found : Bool) (j : DiagnosticJournal) (q : DiagnosticRecord)
    → found ≡ true
    → IsRing j
    → let j' = if found then append j q else j in read j' (j'.size - 1) ≡ some (numbered j q)
read_appended true j q h ring = read-append_last j q ring
read_appended false j q h ring = cc

-- The record of a fault, among those that one decision leaves, comes last.
observe_fault :
    (j : DiagnosticJournal) (e : Event) (d : Decision) (timestamp_ms : ℕ)
    → IsRing j
    → (same_state d.state ControllerState.fault
        && not (same_state d.previous_state ControllerState.fault))
      ≡ true
    → (q : DiagnosticRecord) × (read
          (observe j e d timestamp_ms)
          ((observe j e d timestamp_ms).size - 1)
        ≡ some q)
      × (q.type ≡ DiagnosticRecordType.fault_entered)
      × (q.fault ≡ d.fault)
      × (q.previous_state ≡ d.previous_state)
      × (q.trigger ≡ e.type)
      × (q.timestamp_ms ≡ timestamp_ms)
unfolding observe
observe_fault j e d timestamp_ms h entered =
    let before = append_if-IsRing (is_command e.type) j (command_record e d timestamp_ms) h in
    let moved =
      append_if-IsRing (not (same_state d.previous_state d.state)) _
        (make_record DiagnosticRecordType.state_transition e.type d DiagnosticReason.none
          timestamp_ms)
        before in
    let rejected =
      append_if-IsRing (is_reason (rejection_reason d)) _
        (make_record DiagnosticRecordType.request_rejected e.type d (rejection_reason d)
          timestamp_ms)
        moved in
    let q =
      make_record DiagnosticRecordType.fault_entered e.type d (fault_reason d.fault) timestamp_ms in
    (_, read_appended _ _ q entered rejected, refl, refl, refl, refl, refl)

not_fault :
    (s : ControllerState) → s ≢ ControllerState.fault → same_state s ControllerState.fault ≡ false
not_fault ControllerState.fault h = absurd (h refl)
not_fault _ h = refl

-- Once an event has led the controller into the fault state, the newest record of a well-formed
-- journal is that of the fault, with its code, its trigger, the state before it and the time.
pub fault_is_journaled :
    (c : Controller) (e : Event) (v : VehicleState) (j : DiagnosticJournal) (timestamp_ms : ℕ)
    → IsRing j
    → c.state ≢ ControllerState.fault
    → (handle c e v).controller.state ≡ ControllerState.fault
    → let j' = observe j e (handle c e v).decision timestamp_ms in
      (q : DiagnosticRecord) × (read j' (j'.size - 1) ≡ some q)
      × (q.type ≡ DiagnosticRecordType.fault_entered)
      × (q.fault ≡ (handle c e v).controller.fault)
      × (q.previous_state ≡ c.state)
      × (q.trigger ≡ e.type)
      × (q.timestamp_ms ≡ timestamp_ms)
fault_is_journaled c e v j timestamp_ms ring outside inside =
    let d = (handle c e v).decision in
    let (_, same_previous, _, same_state_after, same_fault, _, _, _) = handle-decision c e v in
    let now_in : same_state d.state ControllerState.fault ≡ true =
      rw (same_state_after ∙ inside) refl in
    let was_out : same_state d.previous_state ControllerState.fault ≡ false =
      not_fault d.previous_state (λ h. outside (sym same_previous ∙ h)) in
    let entered : (same_state d.state ControllerState.fault
          && not (same_state d.previous_state ControllerState.fault))
        ≡ true =
      ground (arith, now_in, was_out) in
    let (q, newest, type_is, fault_is, previous_is, trigger_is, time_is) =
      observe_fault j e d timestamp_ms ring entered in
    (q, newest, type_is, fault_is ∙ same_fault, previous_is ∙ same_previous, trigger_is, time_is)
