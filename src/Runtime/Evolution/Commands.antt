-- ===== src/Runtime/Evolution/Commands.antt =====
-- The lifecycle commands of the coordinator: each writes at most one record, and as the relation allows.
use agent_ueaf.Common.{
  ℕ, String, ◌≡◌, refl, ◌≢◌, inl, Bool, true, false, not, ◌&&◌, Option, none, some, List, [], ◌∷◌,
  arith, is_empty, Dict.Dict,
}
use agent_ueaf.Common.Exec.{ok, lift, pure, raise, ◌>>=◌}
use agent_ueaf.Common.Exec.Rules.{Triple, Always, Triple-if, Triple-pure, Triple-raise}
use agent_ueaf.Contract.{World}
use agent_ueaf.Runtime.Phase.{
  RunPhase, admitting, running, retrying, paused, terminal, cancelled, state_machine_error,
  same_phase, in_phases, validate_transition,
}
use agent_ueaf.Runtime.Phase.Diagram.{executing_live, validate_transition_ok}
use agent_ueaf.Runtime.Record.{RunRecord, RunLease, validate_record}
use agent_ueaf.Runtime.Store.{M, read_clock, new_object_id, require}
use agent_ueaf.Runtime.Writer.{apply, commit_terminal}
use agent_ueaf.Runtime.Lifecycle.{
  leased_record, acquire_lease, beaten_record, ensure_lease, heartbeat, ResumePhase, resume_phase,
  resume, schedule_retry, pause, cancel,
}
use agent_ueaf.Runtime.Evolution.Rules.{
  Advances, IsKept, Quiet, Quiet-read_clock, Quiet-new_object_id, Quiet-pure, Quiet-then,
  Quiet-emit, Before, After, weaker, quiet_first, quiet_last, check_first, read_first,
}
use agent_ueaf.Runtime.Evolution.Helpers.{
  passed, own, write, write_then, apply-Writes, commit_terminal-Writes,
}

-- A write that keeps the phase of an executing run: a lease taken or kept alive.
leased_record-Advances :
    (a : RunRecord) (l : RunLease) (moment : ℕ)
    → in_phases a.phase (admitting ∷ running ∷ retrying ∷ []) ≡ true
    → validate_record (leased_record a l moment) ≡ none
    → Advances a (leased_record a l moment)
leased_record-Advances a l moment executing valid = record {
  binding = record {
    run_id = refl;
    task_id = refl;
    agent_ref = refl;
    runtime_adapter_ref = refl;
    release_id = refl;
    parent_run_id = refl;
  };
  live = executing_live a.phase executing;
  moves = inl refl;
  revised = refl;
  attempted = ground arith;
  sequenced = refl;
  released = λ e. absurd (executing_live a.phase executing e);
  valid = valid;
}

beaten_record-Advances :
    (a : RunRecord) (l : RunLease) (moment : ℕ)
    → a.phase ≢ terminal
    → validate_record (beaten_record a l moment) ≡ none
    → Advances a (beaten_record a l moment)
beaten_record-Advances a l moment live valid = record {
  binding = record {
    run_id = refl;
    task_id = refl;
    agent_ref = refl;
    runtime_adapter_ref = refl;
    release_id = refl;
    parent_run_id = refl;
  };
  live = live;
  moves = inl refl;
  revised = refl;
  attempted = omega arith;
  sequenced = refl;
  released = λ e. absurd (live e);
  valid = valid;
}

ensure_lease_leased :
    (a : RunRecord) (lease_id : String) (token : ℕ) (l : RunLease)
    → ensure_lease a lease_id token ≡ ok l
    → a.lease ≡ some l
unfolding ensure_lease
ensure_lease_leased a lease_id token l h = ground arith

leased_ne_released : {o : Option RunLease} {l : RunLease} → o ≡ some l → o ≡ none → ⊥
leased_ne_released h k = cc

module _ (w : World) (d : Dict RunRecord) (kept : IsKept d) where
  pub acquire_lease-Writes :
      (k holder : String) (actor : Option String)
      → Triple (Before d) (acquire_lease w k holder actor) (Always (After d))
  unfolding acquire_lease
  acquire_lease-Writes k holder actor = read_first d k _ λ a found. check_first d _ _ λ _ e.
      quiet_first d (read_clock w) _ (Quiet-read_clock w) λ moment.
        quiet_first d (new_object_id w "lease") _ (Quiet-new_object_id w "lease") λ lease_id.
          check_first d _ _ λ _ _.
            write_then w d kept a (leased_record a _ moment) (some a.revision) _
              (own w d kept k a found) refl (leased_record-Advances a _ moment (passed _ _ e))
              (λ u. Quiet-then _ _ (Quiet-emit w u _ _ _ _) (Quiet-pure u))

  pub heartbeat-Writes :
      (k lease_id : String) (token : ℕ)
      → Triple (Before d) (heartbeat w k lease_id token) (Always (After d))
  unfolding heartbeat
  heartbeat-Writes k lease_id token = read_first d k _ λ a found. check_first d _ _ λ l held.
      quiet_first d (read_clock w) _ (Quiet-read_clock w) λ moment. check_first d _ _ λ _ _.
        check_first d _ _ λ _ _.
          write w d kept a (beaten_record a _ moment) (some a.revision) (own w d kept k a found)
            refl
            (beaten_record-Advances a _ moment (λ e.
              leased_ne_released (ensure_lease_leased a lease_id token l held)
                (kept.released k a found e)))

  moved :
      (k : String) (to_phase : RunPhase) (clear : Bool)
      (after : RunRecord → RunRecord → M (Unit {0}))
      → ((a u : RunRecord) → Quiet (after a u))
      → Triple
          (Before d)
          (require k >>= λ a. lift (validate_transition a.phase to_phase) >>= λ _.
            apply w a to_phase clear (some a.revision) >>= λ u. after a u >>= λ _. pure u)
          (Always (After d))
  moved k to_phase clear after quiet = read_first d k _ λ a found.
      check_first d (validate_transition a.phase to_phase) _ λ _ legal.
        quiet_last d (apply w a to_phase clear (some a.revision)) _
          (apply-Writes w d kept a to_phase clear (some a.revision) (own w d kept k a found)
            (validate_transition_ok a.phase to_phase legal))
          (λ u. Quiet-then _ _ (quiet a u) (Quiet-pure u))

  pub resume-Writes :
      (k : String) (to_phase : ResumePhase) (signal : String) (refs : List String)
      (actor : Option String)
      → Triple (Before d) (resume w k to_phase signal refs actor) (Always (After d))
  unfolding resume
  resume-Writes k to_phase signal refs actor =
      moved k (resume_phase to_phase) true _ (λ a u. Quiet-emit w u _ _ _ _)

  pub schedule_retry-Writes :
      (k failure policy : String) (after : Option ℕ) (actor : Option String)
      → Triple (Before d) (schedule_retry w k failure policy after actor) (Always (After d))
  unfolding schedule_retry
  schedule_retry-Writes k failure policy after actor =
      moved k retrying false _ (λ a u. Quiet-emit w u _ _ _ _)

  pub pause-Writes :
      (k : String) (codes : List String) (checkpoint actor : Option String)
      → Triple (Before d) (pause w k codes checkpoint actor) (Always (After d))
  unfolding pause
  pause-Writes k codes checkpoint actor = moved k paused false _ (λ a u. Quiet-emit w u _ _ _ _)

  pub cancel-Writes :
      (k : String) (actor : Option String) → Triple (Before d) (cancel w k actor) (Always (After d))
  unfolding cancel
  cancel-Writes k actor = read_first d k _ λ a found.
      Triple-if (same_phase a.phase terminal) _ _ (λ _. Triple-pure (weaker d) a)
        (λ _.
          Triple-if (same_phase a.phase running && not (is_empty a.pending_action_refs))
            (raise (state_machine_error a.phase terminal "in-flight actions pending"))
            (commit_terminal w k cancelled ("cancelled_by_actor" ∷ []) none none actor)
            (λ _.
              Triple-raise (weaker d)
                (state_machine_error a.phase terminal "in-flight actions pending"))
            (λ _.
              commit_terminal-Writes w d kept k cancelled ("cancelled_by_actor" ∷ []) none none
                actor))
