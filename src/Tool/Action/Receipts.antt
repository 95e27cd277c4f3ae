-- ===== src/Tool/Action/Receipts.antt =====
-- Receipts and reconciliation of an action (src/ueaf/tool/action.py).
use agent_ueaf.Common.{
  ℕ, ◌+◌, String, Option, some, [], ◌∷◌, ◌++◌, str_eq, Dict.lookup, Dict.insert,
}
use agent_ueaf.Common.Exec.{ok, lift, require_that, ◌>>=◌, ◌>>◌}
use agent_ueaf.Contract.{World}
use agent_ueaf.Tool.Action.Phase
use agent_ueaf.Tool.Action.Phase.{
  ActionPhase, reconciling, terminal, ActionDisposition, executed, Error, value_error,
  validate_transition,
}
use agent_ueaf.Tool.Action.Record.{
  ActionRecord, ActionReceipt, ReceiptStatus, succeeded, failed, unknown, unknown_outcome,
  resolved_as, validate_action, checked, ResolvedStatus, resolved_succeeded, resolved_failed,
}
use agent_ueaf.Tool.Action.State.{Actions, M, moment_of, read_clock, require}

unfoldable pub keep_receipt : ActionReceipt → M (Unit {0})
keep_receipt r s = (ok tt, record s { receipts = insert r.action_receipt_id r s.receipts })

-- The first of the two records that `record_receipt` builds.
unfoldable pub with_receipt : ActionRecord → ActionReceipt → ℕ → ActionRecord
with_receipt a r moment = record a {
  receipt_refs = a.receipt_refs ++ r.action_receipt_id ∷ [];
  latest_receipt_ref = some r.action_receipt_id;
  revision = a.revision + 1;
  updated_at = some moment;
}

abbrev pub phase_after : ReceiptStatus → ActionPhase
phase_after unknown = reconciling
phase_after _ = terminal

-- The second of them, by the status of the receipt.
unfoldable pub after_receipt : ActionRecord → String → ReceiptStatus → ActionRecord
after_receipt b receipt_id unknown = record b {
  phase = reconciling;
  reconciliation_state = some (unknown_outcome receipt_id);
}
after_receipt b receipt_id succeeded = record b {
  phase = terminal;
  disposition = some executed;
  terminal_reason_codes = [];
}
after_receipt b receipt_id failed = record b {
  phase = terminal;
  disposition = some Phase.failed;
  terminal_reason_codes = [];
}

-- `record_receipt`
unfoldable pub record_receipt : World → ActionRecord → ActionReceipt → Option ℕ → M ActionRecord
unfolding keep_receipt
record_receipt w a r now = do
  require a
  lift (
      require_that (str_eq r.action_key a.action_key)
        (value_error "receipt.action_key must match ActionRecord.action_key"))
  keep_receipt r
  moment ← moment_of w now
  b ← lift (checked (with_receipt a r moment) (validate_action (with_receipt a r moment)))
  lift (validate_transition a.phase (phase_after r.status))
  lift (
      checked (after_receipt b r.action_receipt_id r.status)
        (validate_action (after_receipt b r.action_receipt_id r.status)))

abbrev disposition_of : ResolvedStatus → ActionDisposition
disposition_of resolved_succeeded = executed
disposition_of resolved_failed = Phase.failed

-- The record that `reconcile` builds.
abbrev pub reconciled : ActionRecord → ResolvedStatus → String → ℕ → ActionRecord
reconciled a status evidence_ref moment = record a {
  phase = terminal;
  disposition = some (disposition_of status);
  reconciliation_state = some (resolved_as status evidence_ref);
  revision = a.revision + 1;
  updated_at = some moment;
}

-- `reconcile`
unfoldable pub reconcile : World → ActionRecord → ResolvedStatus → String → M ActionRecord
reconcile w a status evidence_ref = do
  require a
  lift (validate_transition a.phase terminal)
  moment ← read_clock w
  lift (
      checked (reconciled a status evidence_ref moment)
        (validate_action (reconciled a status evidence_ref moment)))

-- `get`
unfoldable pub get : String → Actions → Option ActionRecord
get action_id s = lookup action_id s.records
