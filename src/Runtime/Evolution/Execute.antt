-- ===== src/Runtime/Evolution/Execute.antt =====
-- Every command of the coordinator writes at most one record, and as the relation allows.
use agent_ueaf.Common.{
  ℕ, String, ◌≡◌, refl, ap, subst, inl, inr, Option, none, some, Bool_cases, Option_cases, truthy,
  Dict.Dict, Dict.lookup, Dict.insert,
}
use agent_ueaf.Common.Exec.Rules.{Triple, Always}
use agent_ueaf.Contract.{World}
use agent_ueaf.Admission.Result.{RunAdmissionResult, AdmissionOutcome, admitted, rejected, deferred}
use agent_ueaf.Runtime.Phase.{admitting, running}
use agent_ueaf.Runtime.Record.{RunRecord, validate_record}
use agent_ueaf.Runtime.Store.{read_clock, new_object_id, create_record}
use agent_ueaf.Runtime.Coordinator.{
  RunCreateInput, queued_record, trace_of, create_run, begin_admission, announce_admission,
  move_admitted, apply_admission,
}
use agent_ueaf.Runtime.Command.{Command, execute}
use agent_ueaf.Runtime.Evolution.Rules.{
  IsNew, unchanged, created, IsKept, Quiet, Quiet-read_clock, Quiet-new_object_id, Quiet-pure,
  Quiet-then, Quiet-create_admission, Quiet-create_task, Quiet-emit, checked-ok, Before, After,
  quiet_first, quiet_last, check_first, read_first,
}
use agent_ueaf.Runtime.Evolution.Helpers.{
  transition-Writes, register_wait-Writes, commit_terminal-Writes,
}
use agent_ueaf.Runtime.Evolution.Commands.{
  acquire_lease-Writes, heartbeat-Writes, resume-Writes, schedule_retry-Writes, pause-Writes,
  cancel-Writes,
}

queued_record-IsNew :
    (input : RunCreateInput) (run_id trace_id : String) (moment : ℕ)
    → validate_record (queued_record input run_id trace_id moment) ≡ none
    → IsNew (queued_record input run_id trace_id moment)
queued_record-IsNew input run_id trace_id moment valid = record {
  starts = refl;
  revised = refl;
  attempted = refl;
  sequenced = refl;
  valid = valid;
}

create_record-Writes :
    (d : Dict RunRecord) (b : RunRecord)
    → IsNew b
    → Triple (Before d) (create_record b) (Always (After d))
unfolding create_record
create_record-Writes d b new = record {
  at = λ s e. elim (Option_cases (lookup b.run_id s.runs)) [
    | inl free ↦
        rw free
          (created b (subst (λ t. lookup b.run_id t ≡ none) e free) new (ap (insert b.run_id b) e))
    | inr (r, taken) ↦ rw taken (unchanged e)
  ];
}

module _ (w : World) where
  Quiet-trace_of : (t : Option String) → Quiet (trace_of w t)
  unfolding trace_of
  Quiet-trace_of none = Quiet-new_object_id w "trace"
  Quiet-trace_of (some t) = elim (Bool_cases (truthy t)) [
    | inl h ↦ rw h (Quiet-pure t)
    | inr h ↦ rw h (Quiet-new_object_id w "trace")
  ]

  Quiet-announce_admission :
      (a : RunRecord) (o : AdmissionOutcome) (result : RunAdmissionResult) (actor : Option String)
      → Quiet (announce_admission w a o result actor)
  unfolding announce_admission
  Quiet-announce_admission a admitted result actor = Quiet-emit w a _ _ _ _
  Quiet-announce_admission a _ result actor = Quiet-emit w a _ _ _ _

  module _ (d : Dict RunRecord) where
    create_run-Writes :
        (input : RunCreateInput) → Triple (Before d) (create_run w input) (Always (After d))
    unfolding create_run
    create_run-Writes input = quiet_first d (read_clock w) _ (Quiet-read_clock w) λ moment.
        quiet_first d (new_object_id w "run") _ (Quiet-new_object_id w "run") λ run_id.
          quiet_first d (trace_of w input.trace_id) _ (Quiet-trace_of input.trace_id) λ trace_id.
            check_first d _ _ λ _ _. check_first d _ _ λ _ _.
              quiet_first d _ _ (Quiet-create_task _) λ _. check_first d _ _ λ _ _.
                check_first d _ _ λ r e.
                  let (valid, built) =
                    checked-ok (queued_record input run_id trace_id moment) _ e in
                  quiet_last d (create_record r) _
                    (create_record-Writes d r
                      (subst IsNew built (queued_record-IsNew input run_id trace_id moment valid)))
                    (λ _. Quiet-then _ _ (Quiet-emit w r _ _ _ _) (Quiet-pure r))

  module _ (d : Dict RunRecord) (kept : IsKept d) where
    move_admitted-Writes :
        (a : RunRecord) (k : String) (o : AdmissionOutcome) (result : RunAdmissionResult)
        (actor : Option String)
        → Triple (Before d) (move_admitted w a k o result actor) (Always (After d))
    unfolding move_admitted
    move_admitted-Writes a k admitted result actor =
        transition-Writes w d kept k running (some a.revision) _ actor
    move_admitted-Writes a k deferred result actor = register_wait-Writes w d kept k _ _ _ _ actor
    move_admitted-Writes a k rejected result actor = commit_terminal-Writes w d kept k _ _ _ _ actor

    apply_admission-Writes :
        (k : String) (result : RunAdmissionResult) (actor : Option String)
        → Triple (Before d) (apply_admission w k result actor) (Always (After d))
    unfolding apply_admission
    apply_admission-Writes k result actor = read_first d k _ λ a found. check_first d _ _ λ _ _.
        quiet_first d (read_clock w) _ (Quiet-read_clock w) λ moment. check_first d _ _ λ _ _.
          quiet_first d _ _ (Quiet-create_admission result) λ _.
            quiet_first d _ _ (Quiet-announce_admission a result.outcome result actor)
              λ _. move_admitted-Writes a k result.outcome result actor

    -- The command changes the run records by one legal write, or not at all.
    pub execute-Writes : (c : Command) → Triple (Before d) (execute w c) (Always (After d))
    unfolding execute begin_admission
    execute-Writes (Command.create_run input) = create_run-Writes d input
    execute-Writes (Command.begin_admission k actor) =
        transition-Writes w d kept k admitting none _ actor
    execute-Writes (Command.apply_admission k result actor) = apply_admission-Writes k result actor
    execute-Writes (Command.acquire_lease k holder actor) =
        acquire_lease-Writes w d kept k holder actor
    execute-Writes (Command.heartbeat k lease token) = heartbeat-Writes w d kept k lease token
    execute-Writes (Command.register_wait k reason refs expires origin actor) =
        register_wait-Writes w d kept k reason refs expires origin actor
    execute-Writes (Command.resume k to_phase signal refs actor) =
        resume-Writes w d kept k to_phase signal refs actor
    execute-Writes (Command.schedule_retry k failure policy after actor) =
        schedule_retry-Writes w d kept k failure policy after actor
    execute-Writes (Command.pause k codes checkpoint actor) =
        pause-Writes w d kept k codes checkpoint actor
    execute-Writes (Command.cancel k actor) = cancel-Writes w d kept k actor
    execute-Writes (Command.commit_terminal k disposition codes result error actor) =
        commit_terminal-Writes w d kept k disposition codes result error actor
