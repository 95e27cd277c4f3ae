-- ===== src/Tool/Action/Record.antt =====
-- The objects of an action (src/ueaf/tool/action.py): the record and the receipt, with the checks of
-- their constructors.
use agent_ueaf.Common.{
  ℕ, String, Bool, false, not, ◌&&◌, ◌||◌, Option, none, some, List, ltb, is_some, str_eq,
  if◌then◌else◌, Dict.Dict,
}
use agent_ueaf.Common.Exec.{Result, ok, err}
use agent_ueaf.Contract.{ContractMeta}
use agent_ueaf.Tool.Action.Phase.{
  ActionPhase, terminal, ActionDisposition, Error, value_error, same_phase,
}

-- `resolved_status`
pub data ResolvedStatus : Type 0 where
  resolved_succeeded resolved_failed : ResolvedStatus

-- `reconciliation_state`: the two dictionaries that the coordinator writes.
pub data Reconciliation : Type 0 where
  unknown_outcome : String → Reconciliation
  resolved_as : ResolvedStatus → String → Reconciliation

pub record ActionRecord : Type 0 where
  pub meta : ContractMeta
  pub action_id : String
  pub action_key : String
  pub action_fingerprint : String
  pub tool_intent_ref : String
  pub run_id : String
  pub turn_id : Option String
  pub capability_ref : String
  pub phase : ActionPhase
  pub disposition : Option ActionDisposition
  pub policy_decision_ref : Option String
  pub approval_request_ref : Option String
  pub idempotency_reservation_ref : Option String
  pub receipt_refs : List String
  pub latest_receipt_ref : Option String
  pub reconciliation_state : Option Reconciliation
  pub terminal_reason_codes : List String
  pub attempt : ℕ
  pub revision : ℕ
  pub sequence : ℕ
  pub lease_fencing_token : Option ℕ
  pub created_at : Option ℕ
  pub updated_at : Option ℕ

abbrev below_one : Option ℕ → Bool
below_one none = false
below_one (some n) = ltb n 1

-- `ActionRecord.__post_init__`
unfoldable pub validate_action : ActionRecord → Option String
validate_action a =
    if not (str_eq a.action_id a.meta.object_id)
    then some "ActionRecord.meta.object_id must equal action_id"
    else if is_some a.disposition && not (same_phase a.phase terminal)
    then some "ActionRecord.disposition is only valid in terminal phase"
    else if same_phase a.phase terminal && not (is_some a.disposition)
    then some "terminal ActionRecord MUST set disposition"
    else if ltb a.attempt 1 || ltb a.revision 1
    then some "ActionRecord attempt/revision must be >= 1"
    else if below_one a.lease_fencing_token
    then some "ActionRecord.lease_fencing_token must be a positive integer"
    else none

-- `replace` builds a record and so runs its checks.
abbrev pub checked : ActionRecord → Option String → Result Error ActionRecord
checked a none = ok a
checked a (some message) = err (value_error message)

pub data ReceiptStatus : Type 0 where
  succeeded failed unknown : ReceiptStatus

-- The dictionaries of a receipt, which the coordinator does not read, hold texts here.
pub record ActionReceipt : Type 0 where
  pub action_receipt_id : String
  pub action_key : String
  pub action_fingerprint : String
  pub tool_intent_ref : String
  pub capability_ref : String
  pub executor_ref : String
  pub status : ReceiptStatus
  pub attempt : ℕ
  pub started_at : Option ℕ
  pub finished_at : Option ℕ
  pub external_reference : Option String
  pub result_digest : Option String
  pub error : Option (Dict String)
  pub reconciliation : Option (Dict String)
  pub integrity_ref : Option String

-- `ActionReceipt.__post_init__`
unfoldable pub validate_receipt : ActionReceipt → Option String
validate_receipt r = if ltb r.attempt 1 then some "ActionReceipt.attempt must be >= 1" else none
