-- ===== src/Runtime/Lifecycle.antt =====
-- The commands of `RunCoordinator` on an existing run (src/ueaf/runtime/coordinator.py): leases,
-- resumption, retries, pauses and cancellation.
use agent_ueaf.Common.{
  ℕ, ◌+◌, String, true, false, not, ◌&&◌, Option, none, some, List, [], ◌∷◌, ltb, is_some, is_empty,
  or_text, str_eq, if◌then◌else◌,
}
use agent_ueaf.Common.Exec.{Result, ok, err, pure, raise, lift, require_that, ◌>>=◌, ◌>>◌}
use agent_ueaf.Contract.{World}
use agent_ueaf.Runtime.Phase.{
  RunPhase, admitting, running, retrying, paused, terminal, cancelled, Error, value_error,
  state_machine_error, same_phase, in_phases, validate_transition,
}
use agent_ueaf.Runtime.Record.{
  RunRecord, RunLease, checked, validate_record, validate_lease, is_held_at,
}
use agent_ueaf.Runtime.Outbox.{
  run_phase_changed, run_resumed, run_retry_scheduled, run_paused, phase_changed, resumed,
  retry_scheduled, paused_by,
}
use agent_ueaf.Runtime.Store.{M, read_clock, new_object_id, require, update}
use agent_ueaf.Runtime.Writer.{emit, apply, commit_terminal}

-- `timedelta(seconds=120)` in microseconds
abbrev pub lease_span : ℕ
lease_span = 120_000_000

abbrev pub token_of : Option RunLease → ℕ
token_of none = 0
token_of (some l) = l.fencing_token

-- The lease and the record that `acquire_lease` builds.
abbrev pub new_lease : RunRecord → String → String → ℕ → RunLease
new_lease r lease_id holder_id moment = record {
  lease_id = lease_id;
  holder_id = holder_id;
  fencing_token = token_of r.lease + 1;
  acquired_at = moment;
  heartbeat_at = moment;
  expires_at = moment + lease_span;
}

abbrev pub leased_record : RunRecord → RunLease → ℕ → RunRecord
leased_record r lease moment = record r {
  lease = some lease;
  attempt =
      if not (is_some r.lease) && same_phase r.phase retrying then r.attempt + 1 else r.attempt;
  revision = r.revision + 1;
  updated_at = some moment;
}

-- `acquire_lease`
unfoldable pub acquire_lease : World → String → String → Option String → M RunRecord
acquire_lease w run_id holder_id actor_ref = do
  r ← require run_id
  lift (
      require_that (in_phases r.phase (admitting ∷ running ∷ retrying ∷ []))
        (state_machine_error r.phase running "lease requires an executing phase"))
  moment ← read_clock w
  lease_id ← new_object_id w "lease"
  let lease = new_lease r lease_id holder_id moment
  lift (checked lease (validate_lease lease))
  let leased = leased_record r lease moment
  updated ← lift (checked leased (validate_record leased))
  update updated (some r.revision) none
  emit w updated run_phase_changed none actor_ref
      (phase_changed r.phase r.phase ("lease_acquired" ∷ []))
  pure updated

-- `_ensure_lease`: the lease that the caller holds, or the refusal of a stale writer
unfoldable pub ensure_lease : RunRecord → String → ℕ → Result Error RunLease
ensure_lease r lease_id fencing_token = elim r.lease [
  | none ↦ err (value_error "stale_fencing_token: no active lease")
  | some l ↦
      if not (str_eq l.lease_id lease_id)
      then err (state_machine_error r.phase r.phase "lease_id does not match holder")
      else if ltb fencing_token l.fencing_token
      then err (value_error "stale_fencing_token")
      else ok l
]

abbrev pub beaten_lease : RunLease → ℕ → RunLease
beaten_lease l moment = record l { heartbeat_at = moment; expires_at = moment + lease_span }

abbrev pub beaten_record : RunRecord → RunLease → ℕ → RunRecord
beaten_record r l moment = record r {
  lease = some l;
  revision = r.revision + 1;
  updated_at = some moment;
}

-- `heartbeat`
unfoldable pub heartbeat : World → String → String → ℕ → M RunRecord
heartbeat w run_id lease_id fencing_token = do
  r ← require run_id
  l ← lift (ensure_lease r lease_id fencing_token)
  moment ← read_clock w
  lift (require_that (is_held_at l moment) (value_error "stale_fencing_token: lease expired"))
  let beaten = beaten_lease l moment
  lift (checked beaten (validate_lease beaten))
  let kept = beaten_record r beaten moment
  updated ← lift (checked kept (validate_record kept))
  update updated (some r.revision) none

-- The two phases that `resume` accepts.
pub data ResumePhase : Type 0 where
  to_running to_admitting : ResumePhase

abbrev pub resume_phase : ResumePhase → RunPhase
resume_phase to_running = running
resume_phase to_admitting = admitting

-- `resume`
unfoldable pub resume :
    World → String → ResumePhase → String → List String → Option String → M RunRecord
resume w run_id to_phase resume_signal_ref validation_refs actor_ref = do
  r ← require run_id
  lift (validate_transition r.phase (resume_phase to_phase))
  updated ← apply w r (resume_phase to_phase) true (some r.revision)
  emit w updated run_resumed none actor_ref (resumed r.phase resume_signal_ref validation_refs)
  pure updated

-- `schedule_retry`
unfoldable pub schedule_retry :
    World → String → String → String → Option ℕ → Option String → M RunRecord
schedule_retry w run_id failure_ref policy_ref not_before actor_ref = do
  r ← require run_id
  lift (validate_transition r.phase retrying)
  updated ← apply w r retrying false (some r.revision)
  emit w updated run_retry_scheduled none actor_ref
      (retry_scheduled updated.attempt not_before failure_ref policy_ref)
  pure updated

-- `pause`
unfoldable pub pause : World → String → List String → Option String → Option String → M RunRecord
pause w run_id reason_codes checkpoint_ref actor_ref = do
  r ← require run_id
  lift (validate_transition r.phase paused)
  updated ← apply w r paused false (some r.revision)
  emit w updated run_paused none actor_ref
      (paused_by (or_text actor_ref updated.meta.producer) reason_codes checkpoint_ref)
  pure updated

-- `cancel`
unfoldable pub cancel : World → String → Option String → M RunRecord
cancel w run_id actor_ref = do
  r ← require run_id
  if same_phase r.phase terminal
      then pure r
      else if same_phase r.phase running && not (is_empty r.pending_action_refs)
      then raise (state_machine_error r.phase terminal "in-flight actions pending")
      else commit_terminal w run_id cancelled ("cancelled_by_actor" ∷ []) none none actor_ref
