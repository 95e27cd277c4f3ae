-- ===== src/Runtime/Evolution/Helpers.antt =====
-- The internal helpers of the coordinator write at most one record, as the relation allows.
use agent_ueaf.Common.{
  ℕ, String, ◌≡◌, refl, sym, subst, inr, Bool, true, false, Option, none, some, List, [], ◌∷◌,
  arith, Dict.Dict, Dict.lookup,
}
use agent_ueaf.Common.Exec.{ok, lift, require_that, ◌>>=◌}
use agent_ueaf.Common.Exec.Rules.{Triple, Always, Triple-if, Triple-pure, Triple-raise}
use agent_ueaf.Contract.{World}
use agent_ueaf.Runtime.Phase.{
  RunPhase, admitting, running, waiting, retrying, terminal, CompletionDisposition, WaitReason,
  WaitOrigin, Error, same_phase, in_phases, can_transition, validate_transition,
}
use agent_ueaf.Runtime.Phase.Diagram.{
  edge, live_terminal, executing_waiting, can_transition_live, executing_live,
  validate_transition_ok,
}
use agent_ueaf.Runtime.Record.{RunRecord, checked, validate_record}
use agent_ueaf.Runtime.Outbox.{Payload}
use agent_ueaf.Runtime.Store.{M, read_clock, update}
use agent_ueaf.Runtime.Writer.{
  applied, apply, transition, waiting_record, register_wait, terminal_record, commit_terminal,
  disposed_as, completion_allowed,
}
use agent_ueaf.Runtime.Evolution.Rules.{
  Advances, IsKept, Quiet, Quiet-read_clock, Quiet-pure, Quiet-then, Quiet-emit, checked-ok, Before,
  After, weaker, quiet_first, quiet_last, check_first, read_first, update_Writes,
}

pub passed : (b : Bool) (e : Error) {u : Unit {0}} → require_that b e ≡ ok u → b ≡ true
passed true e h = refl
passed false e h = cc

-- Three builders of a new record, and the write that each is.
applied-Advances :
    (a : RunRecord) (to_phase : RunPhase) (clear : Bool) (moment : ℕ)
    → can_transition a.phase to_phase ≡ true
    → validate_record (applied a to_phase clear moment) ≡ none
    → Advances a (applied a to_phase clear moment)
applied-Advances a to_phase clear moment legal valid = record {
  binding = record {
    run_id = refl;
    task_id = refl;
    agent_ref = refl;
    runtime_adapter_ref = refl;
    release_id = refl;
    parent_run_id = refl;
  };
  live = can_transition_live a.phase to_phase legal;
  moves = inr (edge a.phase to_phase legal);
  revised = refl;
  attempted = omega arith;
  sequenced = refl;
  released = λ e. ground arith;
  valid = valid;
}

waiting_record-Advances :
    (a : RunRecord) (reason : WaitReason) (refs : List String) (origin : Option WaitOrigin)
    (moment : ℕ)
    → in_phases a.phase (admitting ∷ running ∷ retrying ∷ []) ≡ true
    → validate_record (waiting_record a reason refs origin moment) ≡ none
    → Advances a (waiting_record a reason refs origin moment)
waiting_record-Advances a reason refs origin moment executing valid = record {
  binding = record {
    run_id = refl;
    task_id = refl;
    agent_ref = refl;
    runtime_adapter_ref = refl;
    release_id = refl;
    parent_run_id = refl;
  };
  live = executing_live a.phase executing;
  moves = inr (edge a.phase waiting (executing_waiting a.phase executing));
  revised = refl;
  attempted = omega arith;
  sequenced = refl;
  released = λ e. ground arith;
  valid = valid;
}

terminal_record-Advances :
    (a : RunRecord) (disposition : CompletionDisposition) (codes : List String)
    (result error : Option String) (moment : ℕ)
    → same_phase a.phase terminal ≡ false
    → validate_record (terminal_record a disposition codes result error moment) ≡ none
    → Advances a (terminal_record a disposition codes result error moment)
terminal_record-Advances a disposition codes result error moment live valid = record {
  binding = record {
    run_id = refl;
    task_id = refl;
    agent_ref = refl;
    runtime_adapter_ref = refl;
    release_id = refl;
    parent_run_id = refl;
  };
  live = can_transition_live a.phase terminal (live_terminal a.phase live);
  moves = inr (edge a.phase terminal (live_terminal a.phase live));
  revised = refl;
  attempted = omega arith;
  sequenced = refl;
  released = λ e. ground arith;
  valid = valid;
}

module _ (w : World) (d : Dict RunRecord) (kept : IsKept d) where
  pub own : (k : String) (a : RunRecord) → lookup k d ≡ some a → lookup a.run_id d ≡ some a
  own k a found = subst (λ t. lookup t d ≡ some a) (sym (kept.own_id k a found)) found

  -- A record that passes its checks is written over the one that was read.
  pub write :
      (a b : RunRecord) (expected : Option ℕ)
      → lookup a.run_id d ≡ some a
      → b.run_id ≡ a.run_id
      → (validate_record b ≡ none → Advances a b)
      → Triple
          (Before d)
          (lift (checked b (validate_record b)) >>= λ u. update u expected none)
          (Always (After d))
  write a b expected found same h =
      check_first d (checked b (validate_record b)) (λ u. update u expected none)
        λ u e.
          let (valid, built) = checked-ok b (validate_record b) e in
          subst (λ t. Triple (Before d) (update t expected none) (Always (After d))) built
            (update_Writes d a b expected (subst (λ t. lookup t d ≡ some a) (sym same) found)
              (h valid))

  pub apply-Writes :
      (a : RunRecord) (to_phase : RunPhase) (clear : Bool) (expected : Option ℕ)
      → lookup a.run_id d ≡ some a
      → can_transition a.phase to_phase ≡ true
      → Triple (Before d) (apply w a to_phase clear expected) (Always (After d))
  unfolding apply
  apply-Writes a to_phase clear expected found legal =
      quiet_first d (read_clock w) _ (Quiet-read_clock w) λ moment.
        write a (applied a to_phase clear moment) expected found refl
          (applied-Advances a to_phase clear moment legal)

  pub write_then :
      (a b : RunRecord) (expected : Option ℕ) (g : RunRecord → M RunRecord)
      → lookup a.run_id d ≡ some a
      → b.run_id ≡ a.run_id
      → (validate_record b ≡ none → Advances a b)
      → ((u : RunRecord) → Quiet (g u))
      → Triple
          (Before d)
          (lift (checked b (validate_record b)) >>= λ u. update u expected none >>= λ _. g u)
          (Always (After d))
  write_then a b expected g found same h quiet =
      check_first d (checked b (validate_record b)) _ λ u e.
        let (valid, built) = checked-ok b (validate_record b) e in
        quiet_last d (update u expected none) (λ _. g u)
          (subst (λ t. Triple (Before d) (update t expected none) (Always (After d))) built
            (update_Writes d a b expected (subst (λ t. lookup t d ≡ some a) (sym same) found)
              (h valid)))
          (λ _. quiet u)

  pub transition-Writes :
      (k : String) (to_phase : RunPhase) (expected : Option ℕ) (p : Payload) (actor : Option String)
      → Triple (Before d) (transition w k to_phase expected p actor) (Always (After d))
  unfolding transition
  transition-Writes k to_phase expected p actor = read_first d k _ λ a found.
      check_first d (validate_transition a.phase to_phase) _ λ _ legal.
        quiet_last d (apply w a to_phase false expected) _
          (apply-Writes a to_phase false expected (own k a found)
            (validate_transition_ok a.phase to_phase legal))
          (λ u. Quiet-then _ _ (Quiet-emit w u _ _ _ _) (Quiet-pure u))

  pub register_wait-Writes :
      (k : String) (reason : WaitReason) (refs : List String) (expires : Option ℕ)
      (origin : Option WaitOrigin) (actor : Option String)
      → Triple (Before d) (register_wait w k reason refs expires origin actor) (Always (After d))
  unfolding register_wait
  register_wait-Writes k reason refs expires origin actor = read_first d k _ λ a found.
      check_first d _ _ λ _ e. quiet_first d (read_clock w) _ (Quiet-read_clock w) λ moment.
        write_then a (waiting_record a reason refs origin moment) (some a.revision) _
          (own k a found) refl (waiting_record-Advances a reason refs origin moment (passed _ _ e))
          (λ u. Quiet-then _ _ (Quiet-emit w u _ _ _ _) (Quiet-pure u))

  pub commit_terminal-Writes :
      (k : String) (disposition : CompletionDisposition) (codes : List String)
      (result error actor : Option String)
      → Triple
          (Before d)
          (commit_terminal w k disposition codes result error actor)
          (Always (After d))
  unfolding commit_terminal
  commit_terminal-Writes k disposition codes result error actor = read_first d k _ λ a found.
      Triple-if (same_phase a.phase terminal) _ _
        (λ _.
          Triple-if (disposed_as a disposition) _ _ (λ _. Triple-pure (weaker d) a)
            (λ _. Triple-raise (weaker d) _))
        (λ live. check_first d (completion_allowed a disposition) _ λ _ _.
          quiet_first d (read_clock w) _ (Quiet-read_clock w) λ moment.
            write_then a (terminal_record a disposition codes result error moment) (some a.revision)
              _ (own k a found) refl
              (terminal_record-Advances a disposition codes result error moment live)
              (λ u. Quiet-then _ _ (Quiet-emit w u _ _ _ _) (Quiet-pure u)))
