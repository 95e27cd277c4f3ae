-- ===== src/Tool/Action/Stale.antt =====
-- Which records the coordinator of actions forgets or overwrites (src/ueaf/tool/action.py).
use agent_ueaf.Common.{
  ℕ, ◌+◌, Option_cases, inl, inr, String, ◌≡◌, ap, refl, ◌∙◌, ◌≤◌, Option, none, some, Dict.lookup,
  Dict.insert, Dict.lookup-insert_self, arith,
}
use agent_ueaf.Common.Exec.{ok, ◌>>=◌}
use agent_ueaf.Contract.{World}
use agent_ueaf.Tool.Action.Phase.{reserved, executing, terminal, validate_transition}
use agent_ueaf.Tool.Action.Record.{
  ActionRecord, ActionReceipt, ReceiptStatus, succeeded, failed, unknown, ResolvedStatus,
  validate_action,
}
use agent_ueaf.Tool.Action.State.{
  Actions, moment_of, read_clock, require, check_fencing, check_deadline, store, transition, moved,
}
use agent_ueaf.Tool.Action.Commands.{begin_execution}
use agent_ueaf.Tool.Action.Receipts.{
  record_receipt, keep_receipt, phase_after, after_receipt, with_receipt, reconcile, get,
}

record_receipt_writes :
    (w : World) (a u : ActionRecord) (r : ActionReceipt) (now : Option ℕ) (s s' : Actions)
    → record_receipt w a r now s ≡ (ok u, s')
    → (s'.records ≡ s.records) × (s'.receipts ≡ insert r.action_receipt_id r s.receipts)
unfolding record_receipt keep_receipt require moment_of read_clock validate_transition
    validate_action ◌>>=◌
record_receipt_writes w a u r now s s' h = ground arith

phase-after_receipt :
    (b : ActionRecord) (receipt_id : String) (status : ReceiptStatus)
    → (after_receipt b receipt_id status).phase ≡ phase_after status
unfolding after_receipt
phase-after_receipt b receipt_id succeeded = refl
phase-after_receipt b receipt_id failed = refl
phase-after_receipt b receipt_id unknown = refl

latest_receipt_ref-after_receipt :
    (a : ActionRecord) (r : ActionReceipt) (moment : ℕ) (status : ReceiptStatus)
    → (after_receipt (with_receipt a r moment) r.action_receipt_id status).latest_receipt_ref
      ≡ some r.action_receipt_id
unfolding after_receipt with_receipt
latest_receipt_ref-after_receipt a r moment succeeded = refl
latest_receipt_ref-after_receipt a r moment failed = refl
latest_receipt_ref-after_receipt a r moment unknown = refl

-- The moment that `now or _now()` gives.
abbrev moment_read : World → Option ℕ → ℕ → ℕ
moment_read w none reads = w.now reads
moment_read w (some t) reads = t

record_receipt_moves :
    (w : World) (a u : ActionRecord) (r : ActionReceipt) (now : Option ℕ) (s s' : Actions)
    → record_receipt w a r now s ≡ (ok u, s')
    → (u.latest_receipt_ref ≡ some r.action_receipt_id)
      × (u.phase ≡ phase_after r.status)
      × (validate_transition a.phase (phase_after r.status) ≡ ok tt)
unfolding record_receipt keep_receipt require moment_of read_clock ◌>>=◌
record_receipt_moves w a u r now s s' h =
    let m : ℕ = moment_read w now s.clock_reads in
    ground (
      arith,
      phase-after_receipt (with_receipt a r m) r.action_receipt_id r.status,
      latest_receipt_ref-after_receipt a r m r.status,
    )

-- `record_receipt` stores the receipt and nothing else: where it returns a record, that record names
-- the receipt as its latest and stands in the phase that the receipt's status asks for, a phase that
-- the given record may enter, but `get` still answers every id with what it answered before.
pub get-record_receipt :
    (w : World) (a u : ActionRecord) (r : ActionReceipt) (now : Option ℕ) (s s' : Actions)
    (action_id : String)
    → record_receipt w a r now s ≡ (ok u, s')
    → (get action_id s' ≡ get action_id s)
      × (s'.receipts ≡ insert r.action_receipt_id r s.receipts)
      × (u.latest_receipt_ref ≡ some r.action_receipt_id)
      × (u.phase ≡ phase_after r.status)
      × (validate_transition a.phase (phase_after r.status) ≡ ok tt)
unfolding get
get-record_receipt w a u r now s s' action_id h =
    let (q, l) = record_receipt_writes w a u r now s s' h in
    let (m, p, v) = record_receipt_moves w a u r now s s' h in (ap (lookup action_id) q, l, m, p, v)

-- `reconcile` stores nothing: where it returns a record, that record has ended, and `get` still
-- answers every id with what it answered before.
get-reconcile :
    (w : World) (a u : ActionRecord) (status : ResolvedStatus) (evidence action_id : String)
    (s s' : Actions)
    → reconcile w a status evidence s ≡ (ok u, s')
    → (u.phase ≡ terminal) × (get action_id s' ≡ get action_id s)
unfolding reconcile require get read_clock validate_transition validate_action ◌>>=◌
get-reconcile w a u status evidence action_id s s' h = ground arith

not_stale :
    (a : ActionRecord) (token : ℕ)
    → ((held : ℕ) → a.lease_fencing_token ≡ some held → held ≤ token)
    → check_fencing a (some token) ≡ ok tt
unfolding check_fencing
not_stale a token h = elim (Option_cases a.lease_fencing_token) [
  | inl e ↦ ground arith
  | inr (held, e) ↦ ground (arith, h held e)
]

-- `begin_execution` never reads the record that the coordinator stores: given a reserved record a
-- that its constructor accepts, with no deadline set and a token not below a's, it returns and stores
-- a in the phase executing with that token, at its next revision and the moment read from the clock,
-- all else as in a, whatever record x stands under that id, one that has ended included.
pub begin_execution_overwrites :
    (w : World) (a x : ActionRecord) (token : ℕ) (t : ℕ) (s : Actions)
    → a.phase ≡ reserved
    → validate_action a ≡ none
    → 1 ≤ token
    → ((held : ℕ) → a.lease_fencing_token ≡ some held → held ≤ token)
    → lookup a.action_id s.records ≡ some x
    → lookup a.action_id s.deadlines ≡ none
    → let u : ActionRecord = record a {
      phase = executing;
      lease_fencing_token = some token;
      revision = a.revision + 1;
      updated_at = some (w.now s.clock_reads);
    } in
      ((begin_execution w a (some token) (some t) s).0 ≡ ok u)
      × (get a.action_id (begin_execution w a (some token) (some t) s).1 ≡ some u)
unfolding begin_execution require moment_of check_deadline validate_transition transition store
    read_clock validate_action get ◌>>=◌
begin_execution_overwrites w a x token t s p v o held l d =
    let f = not_stale a token held in
    let u : ActionRecord = record (moved a executing (λ v. v) (w.now s.clock_reads)) {
      lease_fencing_token = some token;
    } in
    let written : get a.action_id (begin_execution w a (some token) (some t) s).1
        ≡ lookup a.action_id (insert a.action_id u s.records) =
      ground arith in
    let returned : (begin_execution w a (some token) (some t) s).0 ≡ ok u = ground arith in
    (returned, written ∙ lookup-insert_self a.action_id u s.records)
