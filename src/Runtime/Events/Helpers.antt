-- ===== src/Runtime/Events/Helpers.antt =====
-- The internal helpers of the coordinator keep the invariant on events.
use agent_ueaf.Common.{ℕ, String, ◌≡◌, sym, subst, Bool, false, Option, none, some, List, arith}
use agent_ueaf.Common.Exec.{ok, lift, pure, ◌>>=◌, ◌>>◌}
use agent_ueaf.Common.Exec.Rules.{Always, bind_cases, bind_assoc, Triple-if}
use agent_ueaf.Contract.{World}
use agent_ueaf.Runtime.Phase.{
  RunPhase, terminal, CompletionDisposition, WaitReason, WaitOrigin, same_phase,
  validate_transition,
}
use agent_ueaf.Runtime.Record.{RunRecord, checked, validate_record}
use agent_ueaf.Runtime.Outbox.{EventName, Payload}
use agent_ueaf.Runtime.Store.{Store, M, read_clock, update}
use agent_ueaf.Runtime.Writer.{
  applied, apply, transition, waiting_record, register_wait, terminal_record, commit_terminal, emit,
  disposed_as, completion_allowed,
}
use agent_ueaf.Runtime.Evolution.Rules.{checked-ok}
use agent_ueaf.Runtime.Events.Rules.{
  IsUnnumbered, HasEvents, Keeps, Keeps-read_clock, Keeps-emit, Keeps-pure, Keeps-raise,
  Keeps-update, in_turn, if_passed, reading,
}

-- A checked record with the fields that matter, written, announced and returned.
pub write_and_announce :
    (b : RunRecord) (expected : Option ℕ) (g : RunRecord → M RunRecord)
    → IsUnnumbered b
    → ((u : RunRecord) → IsUnnumbered u → Keeps (g u))
    → Keeps (lift (checked b (validate_record b)) >>= λ u. update u expected none >>= λ _. g u)
write_and_announce b expected g n h = if_passed (checked b (validate_record b)) _ λ u e.
    let n' : IsUnnumbered u = subst IsUnnumbered (checked-ok b (validate_record b) e).1 n in
    in_turn (update u expected none) _ (Keeps-update u expected n') (λ _. h u n')

-- The record that `apply` returns is the one that it wrote.
update_returns :
    (b : RunRecord) (expected : Option ℕ) (s : Store) (u : RunRecord)
    → (update b expected none s).0 ≡ ok u
    → b ≡ u
unfolding update
update_returns b expected s u h = ground arith

update_then :
    (b : RunRecord) (expected : Option ℕ) (g : RunRecord → M RunRecord)
    → IsUnnumbered b
    → Keeps (g b)
    → Keeps (update b expected none >>= g)
update_then b expected g n h = record {
  at = λ s x.
      bind_cases (Always HasEvents) (update b expected none) g s
        (λ u got.
          (subst (λ t. Keeps (g t)) (update_returns b expected s u got) h).at _
            ((Keeps-update b expected n).at s x))
        (λ _ _. (Keeps-update b expected n).at s x);
}

module _ (w : World) where
  pub announce :
      (u : RunRecord) (name : EventName) (c a : Option String) (p : Payload)
      → IsUnnumbered u
      → Keeps (emit w u name c a p >> pure u)
  announce u name c a p n = in_turn _ _ (Keeps-emit w u name c a p n) (λ _. Keeps-pure u)

  applied-IsUnnumbered :
      (a : RunRecord) (to_phase : RunPhase) (clear : Bool) (moment : ℕ)
      → IsUnnumbered a
      → IsUnnumbered (applied a to_phase clear moment)
  applied-IsUnnumbered a to_phase clear moment n = record {
    sequenced = n.sequenced;
    revised = omega arith;
  }

  pub applied_then :
      (a : RunRecord) (to_phase : RunPhase) (clear : Bool) (expected : Option ℕ)
      (g : RunRecord → M RunRecord)
      → IsUnnumbered a
      → ((u : RunRecord) → IsUnnumbered u → Keeps (g u))
      → Keeps (apply w a to_phase clear expected >>= g)
  unfolding apply
  applied_then a to_phase clear expected g n h = subst Keeps (sym (bind_assoc (read_clock w) _ g)) (
      in_turn (read_clock w) _ (Keeps-read_clock w) λ moment.
        let b = applied a to_phase clear moment in
        subst Keeps
          (sym (bind_assoc (lift (checked b (validate_record b))) (λ u. update u expected none) g))
          (if_passed (checked b (validate_record b)) _ λ u e.
            let n' : IsUnnumbered u =
              subst IsUnnumbered (checked-ok b (validate_record b) e).1
                (applied-IsUnnumbered a to_phase clear moment n) in
            update_then u expected g n' (h u n')))

  pub Keeps-transition :
      (k : String) (to_phase : RunPhase) (expected : Option ℕ) (p : Payload) (actor : Option String)
      → Keeps (transition w k to_phase expected p actor)
  unfolding transition
  Keeps-transition k to_phase expected p actor = reading k _ λ a n.
      if_passed (validate_transition a.phase to_phase) _
        λ _ _. applied_then a to_phase false expected _ n (λ u n'. announce u _ _ _ _ n')

  pub Keeps-register_wait :
      (k : String) (reason : WaitReason) (refs : List String) (expires : Option ℕ)
      (origin : Option WaitOrigin) (actor : Option String)
      → Keeps (register_wait w k reason refs expires origin actor)
  unfolding register_wait
  Keeps-register_wait k reason refs expires origin actor = reading k _ λ a n. if_passed _ _ λ _ _.
      in_turn (read_clock w) _ (Keeps-read_clock w) λ moment.
        write_and_announce (waiting_record a reason refs origin moment) (some a.revision) _
          (record { sequenced = n.sequenced; revised = omega arith })
          (λ u n'. announce u _ _ _ _ n')

  pub Keeps-commit_terminal :
      (k : String) (disposition : CompletionDisposition) (codes : List String)
      (result error actor : Option String)
      → Keeps (commit_terminal w k disposition codes result error actor)
  unfolding commit_terminal
  Keeps-commit_terminal k disposition codes result error actor = reading k _ λ a n.
      Triple-if (same_phase a.phase terminal) _ _
        (λ _. Triple-if (disposed_as a disposition) _ _ (λ _. Keeps-pure a) (λ _. Keeps-raise _))
        (λ _. if_passed (completion_allowed a disposition) _ λ _ _.
          in_turn (read_clock w) _ (Keeps-read_clock w) λ moment.
            write_and_announce (terminal_record a disposition codes result error moment)
              (some a.revision) _ (record { sequenced = n.sequenced; revised = omega arith })
              (λ u n'. announce u _ _ _ _ n'))
