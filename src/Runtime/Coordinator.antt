-- ===== src/Runtime/Coordinator.antt =====
-- The creation and the admission of runs by `RunCoordinator` (src/ueaf/runtime/coordinator.py), each
-- command an action on the store,
-- as it runs on the repositories in memory: `_transactional` adds nothing to it there.
use agent_ueaf.Common.{
  ℕ, String, Option, none, some, List, [], ◌∷◌, truthy, if◌then◌else◌, Dict.lookup,
}
use agent_ueaf.Common.Exec.{pure, lift, gets, require_that, ◌>>=◌, ◌>>◌}
use agent_ueaf.Contract.{World, new_meta, validate_meta}
use agent_ueaf.Admission.Task.{TaskEnvelope}
use agent_ueaf.Admission.Result.{
  AdmissionOutcome, RunAdmissionResult, admitted, rejected, deferred, is_valid_at,
}
use agent_ueaf.Runtime.Phase
use agent_ueaf.Runtime.Phase.{
  RunPhase, queued, admitting, running, waiting, retrying, paused, terminal, CompletionDisposition,
  cancelled, WaitReason, dependency, WaitOrigin, admission_deferred, Error, value_error,
  state_machine_error, same_phase, in_phases, validate_transition,
}
use agent_ueaf.Runtime.Record.{RunRecord, TaskState, checked, validate_record, validate_task_state}
use agent_ueaf.Runtime.Outbox.{
  run_created, run_admitted, run_phase_changed, created, admitted_by, phase_changed,
}
use agent_ueaf.Runtime.Store.{
  M, read_clock, new_object_id, require, create_record, create_task, create_admission,
}
use agent_ueaf.Runtime.Writer.{emit, transition, register_wait, commit_terminal}

pub record RunCreateInput : Type 0 where
  pub task_envelope : TaskEnvelope
  pub agent_ref : String
  pub runtime_adapter_ref : String
  pub release_id : String
  pub budget_snapshot_ref : String
  pub trace_id : Option String
  pub parent_run_id : Option String
  pub deadline_at : Option ℕ
  pub correlation_id : Option String
  pub actor_ref : Option String

-- `get_run`
unfoldable pub get_run : String → M (Option RunRecord)
get_run run_id = gets (λ s. lookup run_id s.runs)

abbrev first_ref : List String → Option String
first_ref [] = none
first_ref (r ∷ rs) = some r

-- `input_.trace_id or new_object_id("trace")`
unfoldable pub trace_of : World → Option String → M String
trace_of w none = new_object_id w "trace"
trace_of w (some t) = if truthy t then pure t else new_object_id w "trace"

abbrev task_state_of : TaskEnvelope → String → ℕ → TaskState
task_state_of task trace_id moment = record {
  meta =
      let m =
        new_meta "TaskState" task.task_id task.meta.tenant_id moment "ueaf-runtime-coordinator"
          "0.1.0" in
      record m { task_id = some task.task_id; trace_id = some trace_id };
  task_id = task.task_id;
  completion_criteria_state = [];
  confirmed_facts = [];
  pending_conditions = [];
  derived_summary_ref = none;
  revision = 1;
}

abbrev pub queued_record : RunCreateInput → String → String → ℕ → RunRecord
queued_record input run_id trace_id moment =
    let task = input.task_envelope in
    record {
      meta =
          let m =
            new_meta "RunRecord" run_id task.meta.tenant_id moment "ueaf-runtime-coordinator"
              "0.1.0" in
          record m {
            request_id = first_ref task.request_refs;
            task_id = some task.task_id;
            run_id = some run_id;
            trace_id = some trace_id;
            release_id = some input.release_id;
          };
      run_id = run_id;
      task_id = task.task_id;
      agent_ref = input.agent_ref;
      runtime_adapter_ref = input.runtime_adapter_ref;
      release_id = input.release_id;
      phase = queued;
      completion_disposition = none;
      wait_reason = none;
      wait_condition_refs = [];
      attempt = 1;
      budget_snapshot_ref = some input.budget_snapshot_ref;
      checkpoint_ref = none;
      pending_action_refs = [];
      result_ref = none;
      error_ref = none;
      terminal_reason_codes = [];
      revision = 1;
      sequence = 0;
      lease = none;
      deadline_at = input.deadline_at;
      parent_run_id = input.parent_run_id;
      wait_origin = none;
      created_at = some moment;
      updated_at = some moment;
    }

-- `create_run`. A dataclass checks its `meta`, which is built first, and then itself.
unfoldable pub create_run : World → RunCreateInput → M RunRecord
unfolding trace_of
create_run w input = do
  moment ← read_clock w
  run_id ← new_object_id w "run"
  trace_id ← trace_of w input.trace_id
  let task_state = task_state_of input.task_envelope trace_id moment
  lift (checked task_state.meta (validate_meta task_state.meta))
  lift (checked task_state (validate_task_state task_state))
  create_task task_state
  let queued_run = queued_record input run_id trace_id moment
  lift (checked queued_run.meta (validate_meta queued_run.meta))
  r ← lift (checked queued_run (validate_record queued_run))
  create_record r
  emit w r run_created input.correlation_id input.actor_ref
      (created run_id input.task_envelope.task_id input.release_id input.runtime_adapter_ref)
  pure r

-- `begin_admission`
unfoldable pub begin_admission : World → String → Option String → M RunRecord
begin_admission w run_id actor_ref =
    transition w run_id admitting none (phase_changed queued admitting ("admission_started" ∷ []))
      actor_ref

-- The event that `apply_admission` writes before it moves the run, by the outcome.
unfoldable pub announce_admission :
    World → RunRecord → AdmissionOutcome → RunAdmissionResult → Option String → M (Unit {0})
announce_admission w r admitted result actor_ref =
    emit w r run_admitted none actor_ref
      (admitted_by result.run_admission_result_id result.budget_snapshot_ref)
announce_admission w r _ result actor_ref =
    emit w r run_phase_changed none actor_ref (phase_changed admitting terminal result.reason_codes)

-- `result.validation_refs or ("admission_deferred",)`
abbrev deferral_refs : List String → List String
deferral_refs [] = "admission_deferred" ∷ []
deferral_refs (r ∷ rs) = r ∷ rs

-- The move that the outcome asks for.
unfoldable pub move_admitted :
    World → RunRecord → String → AdmissionOutcome → RunAdmissionResult → Option String → M RunRecord
move_admitted w r run_id admitted result actor_ref =
    transition w run_id running (some r.revision)
      (phase_changed admitting running result.reason_codes) actor_ref
move_admitted w r run_id deferred result actor_ref =
    register_wait w run_id dependency (deferral_refs result.validation_refs) result.retry_after
      (some admission_deferred) actor_ref
move_admitted w r run_id rejected result actor_ref =
    commit_terminal w run_id Phase.rejected result.reason_codes none none actor_ref

-- `apply_admission`
unfoldable pub apply_admission : World → String → RunAdmissionResult → Option String → M RunRecord
unfolding announce_admission move_admitted
apply_admission w run_id result actor_ref = do
  r ← require run_id
  lift (require_that (same_phase r.phase admitting) (state_machine_error r.phase running ""))
  moment ← read_clock w
  lift (
      require_that (is_valid_at result moment)
        (value_error "expired_result: admission result expired"))
  create_admission result
  announce_admission w r result.outcome result actor_ref
  move_admitted w r run_id result.outcome result actor_ref
