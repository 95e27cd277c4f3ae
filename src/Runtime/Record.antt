-- ===== src/Runtime/Record.antt =====
-- The persisted objects of a run (src/ueaf/runtime/objects.py): the lease, the record, the task
-- state and the checkpoint, with the checks of their constructors. `dataclasses.replace` builds a
-- new object, so it runs the checks again: here, `checked` on the record that it would build.
pub mod Facts
use agent_ueaf.Common.{
  ℕ, String, Bool, true, false, not, ◌&&◌, ◌||◌, Option, none, some, List, [], ◌∷◌, ltb, leb,
  truthy, is_some, is_empty, str_eq, if◌then◌else◌, Dict.Dict,
}
use agent_ueaf.Common.Exec.{Result, ok, err}
use agent_ueaf.Contract.{ContractMeta}
use agent_ueaf.Runtime.Phase.{
  RunPhase, queued, waiting, paused, terminal, CompletionDisposition, WaitReason, WaitOrigin, Error,
  value_error, same_phase, in_phases,
}

-- A dataclass: the object, or the `ValueError` of its checks.
abbrev pub checked : {A : Type 0} → A → Option String → Result Error A
checked a none = ok a
checked a (some message) = err (value_error message)

pub record RunLease : Type 0 where
  pub lease_id : String
  pub holder_id : String
  pub fencing_token : ℕ
  pub acquired_at : ℕ
  pub heartbeat_at : ℕ
  pub expires_at : ℕ

-- `RunLease.__post_init__`
unfoldable pub validate_lease : RunLease → Option String
validate_lease l =
    if not (truthy l.lease_id) || not (truthy l.holder_id)
    then some "RunLease.lease_id/holder_id must not be empty"
    else if ltb l.fencing_token 1
    then some "RunLease.fencing_token must be a positive integer"
    else if not (leb l.acquired_at l.heartbeat_at && ltb l.heartbeat_at l.expires_at)
    then some "RunLease must satisfy acquired_at <= heartbeat_at < expires_at"
    else none

unfoldable pub is_held_at : RunLease → ℕ → Bool
is_held_at l moment = leb l.acquired_at moment && ltb moment l.expires_at

pub record RunRecord : Type 0 where
  pub meta : ContractMeta
  pub run_id : String
  pub task_id : String
  pub agent_ref : String
  pub runtime_adapter_ref : String
  pub release_id : String
  pub phase : RunPhase
  pub completion_disposition : Option CompletionDisposition
  pub wait_reason : Option WaitReason
  pub wait_condition_refs : List String
  pub attempt : ℕ
  pub budget_snapshot_ref : Option String
  pub checkpoint_ref : Option String
  pub pending_action_refs : List String
  pub result_ref : Option String
  pub error_ref : Option String
  pub terminal_reason_codes : List String
  pub revision : ℕ
  pub sequence : ℕ
  pub lease : Option RunLease
  pub deadline_at : Option ℕ
  pub parent_run_id : Option String
  pub wait_origin : Option WaitOrigin
  pub created_at : Option ℕ
  pub updated_at : Option ℕ

-- `RunRecord.__post_init__`
unfoldable pub validate_record : RunRecord → Option String
validate_record r =
    if not (str_eq r.run_id r.meta.object_id)
    then some "RunRecord.meta.object_id must equal run_id"
    else if is_some r.completion_disposition && not (same_phase r.phase terminal)
    then some "completion_disposition is only valid when phase=terminal (RUN-002)"
    else if same_phase r.phase terminal && not (is_some r.completion_disposition)
    then some "terminal RunRecord MUST set completion_disposition (RUN-002)"
    else if is_some r.wait_reason && not (same_phase r.phase waiting)
    then some "wait_reason is only valid when phase=waiting"
    else if same_phase r.phase waiting && is_empty r.wait_condition_refs
    then some "waiting RunRecord MUST set wait_condition_refs"
    else if is_some r.completion_disposition && is_empty r.terminal_reason_codes
    then some "terminal RunRecord MUST set terminal_reason_codes"
    else if ltb r.attempt 1
    then some "RunRecord.attempt must be >= 1"
    else if ltb r.revision 1
    then some "RunRecord.revision must be >= 1"
    else if is_some r.lease && in_phases r.phase (queued ∷ waiting ∷ paused ∷ [])
    then some "RunLease is not valid while phase"
    else if is_some r.wait_origin && not (same_phase r.phase waiting)
    then some "wait_origin is only valid when phase=waiting"
    else none

-- `RunRecord.is_terminal`
unfoldable pub is_terminal : RunRecord → Bool
is_terminal r = same_phase r.phase terminal

-- The values of `completion_criteria_state`, which the runtime never reads, are texts here.
pub record TaskState : Type 0 where
  pub meta : ContractMeta
  pub task_id : String
  pub completion_criteria_state : Dict String
  pub confirmed_facts : List String
  pub pending_conditions : List String
  pub derived_summary_ref : Option String
  pub revision : ℕ

-- `TaskState.__post_init__`
unfoldable pub validate_task_state : TaskState → Option String
validate_task_state t =
    if not (str_eq t.task_id t.meta.object_id)
    then some "TaskState.meta.object_id must equal task_id"
    else if ltb t.revision 1
    then some "TaskState.revision must be >= 1"
    else none

pub record Checkpoint : Type 0 where
  pub meta : ContractMeta
  pub checkpoint_id : String
  pub run_id : String
  pub state_schema_version : String
  pub runtime_native_checkpoint_ref : Option String
  pub pending_condition_refs : List String
  pub in_flight_action_refs : List String
  pub frozen_release_id : Option String
  pub concurrency_token : Option ℕ
  pub integrity_ref : Option String

-- `Checkpoint.__post_init__`
unfoldable pub validate_checkpoint : Checkpoint → Option String
validate_checkpoint c =
    if not (str_eq c.checkpoint_id c.meta.object_id)
    then some "Checkpoint.meta.object_id must equal checkpoint_id"
    else none
