-- ===== src/Runtime/Writer.antt =====
-- The internal helpers of `RunCoordinator` (src/ueaf/runtime/coordinator.py), whose names begin with
-- an underscore in the source: actions on the store.
use agent_ueaf.Common.{
  ℕ, ◌+◌, String, Bool, false, not, ◌&&◌, ◌||◌, Option, none, some, List, [], ◌∷◌, is_empty,
  or_text, if◌then◌else◌,
}
use agent_ueaf.Common.Exec.{Result, ok, err, pure, raise, lift, require_that, ◌>>=◌, ◌>>◌}
use agent_ueaf.Contract.{World}
use agent_ueaf.Runtime.Phase.{
  RunPhase, queued, admitting, running, waiting, retrying, paused, terminal, CompletionDisposition,
  completed, WaitReason, WaitOrigin, Error, state_machine_error, same_phase, same_disposition,
  in_phases, validate_transition,
}
use agent_ueaf.Runtime.Record.{RunRecord, checked, validate_record}
use agent_ueaf.Runtime.Outbox.{
  OutboxEntry, EventName, run_created, run_admitted, run_phase_changed, run_wait_registered,
  run_resumed, run_retry_scheduled, run_paused, run_terminal_committed, Payload, wait_registered,
  terminal_committed,
}
use agent_ueaf.Runtime.Store.{M, read_clock, new_object_id, require, update, append}

-- `_schema_ref`, whose text is the last part of the event's name with its underscores, but for the
-- two names that it maps.
abbrev pub schema_ref : EventName → String
schema_ref run_created = "schema://run-created/1.0.0"
schema_ref run_phase_changed = "schema://run-phase-changed/1.0.0"
schema_ref run_admitted = "schema://admitted/1.0.0"
schema_ref run_wait_registered = "schema://wait_registered/1.0.0"
schema_ref run_resumed = "schema://resumed/1.0.0"
schema_ref run_retry_scheduled = "schema://retry_scheduled/1.0.0"
schema_ref run_paused = "schema://paused/1.0.0"
schema_ref run_terminal_committed = "schema://terminal_committed/1.0.0"

-- `_entry`
unfoldable pub make_entry :
    World → RunRecord → EventName → Option String → Option String → Payload → M OutboxEntry
make_entry w r name correlation_id actor_ref payload = do
  moment ← read_clock w
  outbox_id ← new_object_id w "outbox"
  event_id ← new_object_id w "evt"
  pure (record {
    outbox_id = outbox_id;
    event_id = event_id;
    event_name = name;
    event_version = "1.0.0";
    tenant_id = r.meta.tenant_id;
    aggregate_type = "RunRecord";
    aggregate_id = r.run_id;
    aggregate_version = r.revision;
    sequence = r.sequence + 1;
    correlation_id = or_text correlation_id (or_text r.meta.request_id r.run_id);
    trace_id = or_text r.meta.trace_id r.run_id;
    payload_schema_ref = schema_ref name;
    payload = payload;
    created_at = moment;
    release_id = some r.release_id;
    principal_ref = actor_ref;
    causation_id = none;
    classification = r.meta.classification;
    purpose = r.meta.purpose;
    integrity_ref = none;
    published_at = none;
    attempt_count = 0;
  })

-- `self._outbox.append(self._entry(...))`
unfoldable pub emit :
    World → RunRecord → EventName → Option String → Option String → Payload → M (Unit {0})
emit w r name correlation_id actor_ref payload = do
  entry ← make_entry w r name correlation_id actor_ref payload
  append entry

-- The record that `_apply` builds.
abbrev pub applied : RunRecord → RunPhase → Bool → ℕ → RunRecord
applied r to_phase clear_wait moment =
    let drop_wait = clear_wait || not (same_phase to_phase waiting) in
    record r {
      phase = to_phase;
      revision = r.revision + 1;
      updated_at = some moment;
      completion_disposition =
          if same_phase to_phase terminal then r.completion_disposition else none;
      wait_reason = if drop_wait then none else r.wait_reason;
      wait_condition_refs = if drop_wait then [] else r.wait_condition_refs;
      wait_origin = if drop_wait then none else r.wait_origin;
      lease =
          if in_phases to_phase (queued ∷ waiting ∷ paused ∷ terminal ∷ []) then none else r.lease;
    }

-- `_apply`
unfoldable pub apply : World → RunRecord → RunPhase → Bool → Option ℕ → M RunRecord
apply w r to_phase clear_wait expected = do
  moment ← read_clock w
  updated ← lift (
      checked (applied r to_phase clear_wait moment)
        (validate_record (applied r to_phase clear_wait moment)))
  update updated expected none

-- `_transition`
unfoldable pub transition :
    World → String → RunPhase → Option ℕ → Payload → Option String → M RunRecord
transition w run_id to_phase expected payload actor_ref = do
  r ← require run_id
  lift (validate_transition r.phase to_phase)
  updated ← apply w r to_phase false expected
  emit w updated run_phase_changed none actor_ref payload
  pure updated

-- The record that `_register_wait` builds.
abbrev pub waiting_record : RunRecord → WaitReason → List String → Option WaitOrigin → ℕ → RunRecord
waiting_record r reason condition_refs origin moment = record r {
  phase = waiting;
  wait_reason = some reason;
  wait_condition_refs = condition_refs;
  wait_origin = origin;
  revision = r.revision + 1;
  updated_at = some moment;
  lease = none;
}

-- `_register_wait`, and `register_wait`, which calls it with its own arguments
unfoldable pub register_wait :
    World
    → String
    → WaitReason
    → List String
    → Option ℕ
    → Option WaitOrigin
    → Option String
    → M RunRecord
register_wait w run_id reason condition_refs expires_at origin actor_ref = do
  r ← require run_id
  lift (
      require_that (in_phases r.phase (admitting ∷ running ∷ retrying ∷ []))
        (state_machine_error r.phase waiting ""))
  moment ← read_clock w
  updated ← lift (
      checked (waiting_record r reason condition_refs origin moment)
        (validate_record (waiting_record r reason condition_refs origin moment)))
  update updated (some r.revision) none
  emit w updated run_wait_registered none actor_ref
      (wait_registered reason condition_refs expires_at)
  pure updated

-- The record that `_commit_terminal` builds.
abbrev pub terminal_record :
    RunRecord → CompletionDisposition → List String → Option String → Option String → ℕ → RunRecord
terminal_record r disposition reason_codes result_ref error_ref moment = record r {
  phase = terminal;
  completion_disposition = some disposition;
  terminal_reason_codes = reason_codes;
  result_ref = result_ref;
  error_ref = error_ref;
  revision = r.revision + 1;
  updated_at = some moment;
  lease = none;
}

-- `run.completion_disposition == disposition`
abbrev pub disposed_as : RunRecord → CompletionDisposition → Bool
disposed_as r d = elim r.completion_disposition [ none ↦ false | some e ↦ same_disposition e d ]

-- The two tests that `_commit_terminal` makes for the disposition `completed`.
unfoldable pub completion_allowed : RunRecord → CompletionDisposition → Result Error (Unit {0})
completion_allowed r disposition =
    if same_disposition disposition completed
      && not (in_phases r.phase (running ∷ waiting ∷ retrying ∷ []))
    then err (state_machine_error r.phase terminal "completed requires an executed run")
    else if same_disposition disposition completed && not (is_empty r.pending_action_refs)
    then err (state_machine_error r.phase terminal "completed must not leave unresolved actions")
    else ok tt

unfoldable pub write_terminal :
    World
    → RunRecord
    → CompletionDisposition
    → List String
    → Option String
    → Option String
    → Option String
    → M RunRecord
write_terminal w r disposition reason_codes result_ref error_ref actor_ref = do
  lift (completion_allowed r disposition)
  moment ← read_clock w
  updated ← lift (
      checked (terminal_record r disposition reason_codes result_ref error_ref moment)
        (validate_record (terminal_record r disposition reason_codes result_ref error_ref moment)))
  update updated (some r.revision) none
  emit w updated run_terminal_committed none actor_ref
      (terminal_committed disposition reason_codes result_ref error_ref)
  pure updated

-- `_commit_terminal`, and `commit_terminal`, which calls it with its own arguments
unfoldable pub commit_terminal :
    World
    → String
    → CompletionDisposition
    → List String
    → Option String
    → Option String
    → Option String
    → M RunRecord
unfolding write_terminal
commit_terminal w run_id disposition reason_codes result_ref error_ref actor_ref = do
  r ← require run_id
  if same_phase r.phase terminal
      then (if disposed_as r disposition
          then pure r
          else raise (state_machine_error r.phase terminal "terminal_conflict"))
      else write_terminal w r disposition reason_codes result_ref error_ref actor_ref
