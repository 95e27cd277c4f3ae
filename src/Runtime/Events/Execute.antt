-- ===== src/Runtime/Events/Execute.antt =====
-- Every command keeps the invariant on events, so every event that is ever written can be
-- delivered, and carries the same sequence number.
use agent_ueaf.Common.{
  ℕ, String, refl, subst, inl, inr, Bool, true, false, not, ◌&&◌, Option, none, some, List, [], ◌∷◌,
  arith, truthy, is_empty, Bool_cases,
}
use agent_ueaf.Common.Exec.{lift, pure, raise, ◌>>=◌}
use agent_ueaf.Common.Exec.Rules.{Triple-if}
use agent_ueaf.Contract.{World}
use agent_ueaf.Admission.Result.{RunAdmissionResult, AdmissionOutcome, admitted, rejected, deferred}
use agent_ueaf.Runtime.Phase.{
  RunPhase, admitting, running, retrying, paused, terminal, cancelled, state_machine_error,
  same_phase, validate_transition,
}
use agent_ueaf.Runtime.Record.{RunRecord}
use agent_ueaf.Runtime.Store.{Store, M, read_clock, new_object_id, require, create_record}
use agent_ueaf.Runtime.Writer.{apply, commit_terminal}
use agent_ueaf.Runtime.Coordinator.{
  RunCreateInput, queued_record, trace_of, create_run, begin_admission, announce_admission,
  move_admitted, apply_admission,
}
use agent_ueaf.Runtime.Lifecycle.{
  leased_record, acquire_lease, beaten_record, heartbeat, resume_phase, resume, schedule_retry,
  pause, cancel,
}
use agent_ueaf.Runtime.Command.{Command, execute, run_all}
use agent_ueaf.Runtime.Evolution.Rules.{checked-ok}
use agent_ueaf.Runtime.Events.Rules.{
  IsUnnumbered, HasEvents, Keeps, Keeps-read_clock, Keeps-new_object_id, Keeps-create_admission,
  Keeps-create_task, Keeps-create_record, Keeps-emit, Keeps-pure, Keeps-raise, Keeps-update,
  in_turn, if_passed, reading,
}
use agent_ueaf.Runtime.Events.Helpers.{
  write_and_announce, announce, applied_then, Keeps-transition, Keeps-register_wait,
  Keeps-commit_terminal,
}

module _ (w : World) where
  Keeps-acquire_lease :
      (k holder : String) (actor : Option String) → Keeps (acquire_lease w k holder actor)
  unfolding acquire_lease
  Keeps-acquire_lease k holder actor = reading k _ λ a n. if_passed _ _ λ _ _.
      in_turn (read_clock w) _ (Keeps-read_clock w) λ moment.
        in_turn (new_object_id w "lease") _ (Keeps-new_object_id w "lease") λ lease_id.
          if_passed _ _ λ _ _.
            write_and_announce (leased_record a _ moment) (some a.revision) _
              (record { sequenced = n.sequenced; revised = omega arith })
              (λ u n'. announce w u _ _ _ _ n')

  Keeps-heartbeat : (k lease_id : String) (token : ℕ) → Keeps (heartbeat w k lease_id token)
  unfolding heartbeat
  Keeps-heartbeat k lease_id token = reading k _ λ a n. if_passed _ _ λ l _.
      in_turn (read_clock w) _ (Keeps-read_clock w) λ moment. if_passed _ _ λ _ _.
        if_passed _ _ λ _ _. if_passed _ _ λ u e. Keeps-update u (some a.revision) (
          subst IsUnnumbered (checked-ok (beaten_record a _ moment) _ e).1
            (record { sequenced = n.sequenced; revised = omega arith }))

  -- `resume`, `schedule_retry` and `pause` have one shape.
  Keeps-moved :
      (k : String) (to_phase : RunPhase) (clear : Bool)
      (after : RunRecord → RunRecord → M (Unit {0}))
      → ((a u : RunRecord) → IsUnnumbered u → Keeps (after a u))
      → Keeps (
          require k >>= λ a. lift (validate_transition a.phase to_phase) >>= λ _.
          apply w a to_phase clear (some a.revision) >>= λ u. after a u >>= λ _. pure u)
  Keeps-moved k to_phase clear after h = reading k _ λ a n.
      if_passed (validate_transition a.phase to_phase) _ λ _ _.
        applied_then w a to_phase clear (some a.revision) _ n
          (λ u n'. in_turn _ _ (h a u n') (λ _. Keeps-pure u))

  Keeps-cancel : (k : String) (actor : Option String) → Keeps (cancel w k actor)
  unfolding cancel
  Keeps-cancel k actor = reading k _ λ a n.
      Triple-if (same_phase a.phase terminal) _ _ (λ _. Keeps-pure a)
        (λ _.
          Triple-if (same_phase a.phase running && not (is_empty a.pending_action_refs))
            (raise (state_machine_error a.phase terminal "in-flight actions pending"))
            (commit_terminal w k cancelled ("cancelled_by_actor" ∷ []) none none actor)
            (λ _. Keeps-raise (state_machine_error a.phase terminal "in-flight actions pending"))
            (λ _. Keeps-commit_terminal w k cancelled ("cancelled_by_actor" ∷ []) none none actor))

  Keeps-trace_of : (t : Option String) → Keeps (trace_of w t)
  unfolding trace_of
  Keeps-trace_of none = Keeps-new_object_id w "trace"
  Keeps-trace_of (some t) = elim (Bool_cases (truthy t)) [
    | inl h ↦ rw h (Keeps-pure t)
    | inr h ↦ rw h (Keeps-new_object_id w "trace")
  ]

  Keeps-create_run : (input : RunCreateInput) → Keeps (create_run w input)
  unfolding create_run
  Keeps-create_run input = in_turn (read_clock w) _ (Keeps-read_clock w) λ moment.
      in_turn (new_object_id w "run") _ (Keeps-new_object_id w "run") λ run_id.
        in_turn (trace_of w input.trace_id) _ (Keeps-trace_of input.trace_id) λ trace_id.
          if_passed _ _ λ _ _. if_passed _ _ λ _ _. in_turn _ _ (Keeps-create_task _) λ _.
            if_passed _ _ λ _ _. if_passed _ _ λ r e.
              let n : IsUnnumbered r =
                subst IsUnnumbered (checked-ok (queued_record input run_id trace_id moment) _ e).1
                  (record { sequenced = refl; revised = omega arith }) in
              in_turn (create_record r) _ (Keeps-create_record r n) (λ _. announce w r _ _ _ _ n)

  Keeps-announce_admission :
      (a : RunRecord) (o : AdmissionOutcome) (result : RunAdmissionResult) (actor : Option String)
      → IsUnnumbered a
      → Keeps (announce_admission w a o result actor)
  unfolding announce_admission
  Keeps-announce_admission a admitted result actor n = Keeps-emit w a _ _ _ _ n
  Keeps-announce_admission a _ result actor n = Keeps-emit w a _ _ _ _ n

  Keeps-move_admitted :
      (a : RunRecord) (k : String) (o : AdmissionOutcome) (result : RunAdmissionResult)
      (actor : Option String)
      → Keeps (move_admitted w a k o result actor)
  unfolding move_admitted
  Keeps-move_admitted a k admitted result actor =
      Keeps-transition w k running (some a.revision) _ actor
  Keeps-move_admitted a k deferred result actor = Keeps-register_wait w k _ _ _ _ actor
  Keeps-move_admitted a k rejected result actor = Keeps-commit_terminal w k _ _ _ _ actor

  Keeps-apply_admission :
      (k : String) (result : RunAdmissionResult) (actor : Option String)
      → Keeps (apply_admission w k result actor)
  unfolding apply_admission
  Keeps-apply_admission k result actor = reading k _ λ a n. if_passed _ _ λ _ _.
      in_turn (read_clock w) _ (Keeps-read_clock w) λ moment. if_passed _ _ λ _ _.
        in_turn _ _ (Keeps-create_admission result) λ _.
          in_turn _ _ (Keeps-announce_admission a result.outcome result actor n)
            λ _. Keeps-move_admitted a k result.outcome result actor

  Keeps-execute : (c : Command) → Keeps (execute w c)
  unfolding execute begin_admission resume schedule_retry pause
  Keeps-execute (Command.create_run input) = Keeps-create_run input
  Keeps-execute (Command.begin_admission k actor) = Keeps-transition w k admitting none _ actor
  Keeps-execute (Command.apply_admission k result actor) = Keeps-apply_admission k result actor
  Keeps-execute (Command.acquire_lease k holder actor) = Keeps-acquire_lease k holder actor
  Keeps-execute (Command.heartbeat k lease token) = Keeps-heartbeat k lease token
  Keeps-execute (Command.register_wait k reason refs expires origin actor) =
      Keeps-register_wait w k reason refs expires origin actor
  Keeps-execute (Command.resume k to_phase signal refs actor) =
      Keeps-moved k (resume_phase to_phase) true _ (λ a u n. Keeps-emit w u _ _ _ _ n)
  Keeps-execute (Command.schedule_retry k failure policy after actor) =
      Keeps-moved k retrying false _ (λ a u n. Keeps-emit w u _ _ _ _ n)
  Keeps-execute (Command.pause k codes checkpoint actor) =
      Keeps-moved k paused false _ (λ a u n. Keeps-emit w u _ _ _ _ n)
  Keeps-execute (Command.cancel k actor) = Keeps-cancel k actor
  Keeps-execute (Command.commit_terminal k disposition codes result error actor) =
      Keeps-commit_terminal w k disposition codes result error actor

  pub run_all-HasEvents : (cs : List Command) (s : Store) → HasEvents s → HasEvents (run_all w cs s)
  unfolding run_all
  run_all-HasEvents [] s h = h
  run_all-HasEvents (c ∷ cs) s h = run_all-HasEvents cs (execute w c s).1 ((Keeps-execute c).at s h)
