-- ===== src/Runtime/Evolution/History.antt =====
-- What follows for a run from one command, and from any sequence of commands.
use agent_ueaf.Common.{
  ◌≤◌, ◌<◌, String, ◌≡◌, refl, sym, ap, ◌∙◌, subst, ◌⊎◌, inl, inr, none, some, List, [], ◌∷◌, arith,
  Bool_cases, str_eq, eq_iff, Dict.Dict, Dict.lookup, Dict.insert, Dict.lookup-insert_self,
  Dict.lookup-insert_cases, Dict.lookup-insert_other,
}
use agent_ueaf.Contract.{World}
use agent_ueaf.Runtime.Phase.{RunPhase, terminal}
use agent_ueaf.Runtime.Phase.Diagram.{◌⟶*◌, here, next}
use agent_ueaf.Runtime.Record.{RunRecord, validate_record}
use agent_ueaf.Runtime.Store.{Store}
use agent_ueaf.Runtime.Command.{Command, execute, run_all}
use agent_ueaf.Runtime.Evolution.Rules.{
  SameBinding, Advances, IsNew, Writes, unchanged, advanced, created, IsKept,
}
use agent_ueaf.Runtime.Evolution.Execute.{execute-Writes}

none_ne_some : {a : RunRecord} → none ≡ some a → ⊥
none_ne_some e = cc

same_some : {a b : RunRecord} → some a ≡ some b → a ≡ b
same_some e = cc

-- A property of records that a new one has and that a write keeps.
abbrev pub Everywhere : (RunRecord → Type 0) → Dict RunRecord → Type 0
Everywhere P d = (k : String) (r : RunRecord) → lookup k d ≡ some r → P r

insert-Everywhere :
    (P : RunRecord → Type 0) (b : RunRecord) (d : Dict RunRecord)
    → P b
    → Everywhere P d
    → Everywhere P (insert b.run_id b d)
insert-Everywhere P b d p h k r f = elim (lookup-insert_cases b.run_id k b d f) [
  | inl (_, eq) ↦ subst P eq p
  | inr old ↦ h k r old
]

pub Writes-Everywhere :
    (P : RunRecord → Type 0)
    → ((a b : RunRecord) → P a → Advances a b → P b)
    → ((b : RunRecord) → IsNew b → P b)
    → {d d' : Dict RunRecord} → Writes d d'
    → Everywhere P d
    → Everywhere P d'
Writes-Everywhere P keep start (unchanged e) h = subst (Everywhere P) (sym e) h
Writes-Everywhere P keep start {d} (advanced a b found adv e) h =
    subst (Everywhere P) (sym e) (insert-Everywhere P b d (keep a b (h b.run_id a found) adv) h)
Writes-Everywhere P keep start {d} (created b free new e) h =
    subst (Everywhere P) (sym e) (insert-Everywhere P b d (start b new) h)

abbrev OwnId : Dict RunRecord → Type 0
OwnId d = (k : String) (r : RunRecord) → lookup k d ≡ some r → r.run_id ≡ k

insert-OwnId : (b : RunRecord) (d : Dict RunRecord) → OwnId d → OwnId (insert b.run_id b d)
insert-OwnId b d h k r f = elim (lookup-insert_cases b.run_id k b d f) [
  | inl (same, eq) ↦ subst (λ t. t.run_id ≡ k) eq same
  | inr old ↦ h k r old
]

Writes-OwnId : {d d' : Dict RunRecord} → Writes d d' → OwnId d → OwnId d'
Writes-OwnId (unchanged e) h = subst OwnId (sym e) h
Writes-OwnId {d} (advanced a b found adv e) h = subst OwnId (sym e) (insert-OwnId b d h)
Writes-OwnId {d} (created b free new e) h = subst OwnId (sym e) (insert-OwnId b d h)

queued_released : (b : RunRecord) → IsNew b → b.phase ≡ terminal → b.lease ≡ none
queued_released b new h = ground (arith, new.starts)

pub Writes-IsKept : {d d' : Dict RunRecord} → Writes d d' → IsKept d → IsKept d'
Writes-IsKept w h = record {
  own_id = Writes-OwnId w h.own_id;
  released =
      Writes-Everywhere (λ r. r.phase ≡ terminal → r.lease ≡ none) (λ a b _ adv. adv.released)
        queued_released w h.released;
  valid =
      Writes-Everywhere (λ r. validate_record r ≡ none) (λ a b _ adv. adv.valid)
        (λ b new. new.valid) w h.valid;
}

-- What a write does to the run under a key.
Writes-run :
    {d d' : Dict RunRecord}
    → Writes d d'
    → (k : String) (a : RunRecord) → lookup k d ≡ some a
    → (b : RunRecord) × (lookup k d' ≡ some b) × ((b ≡ a) ⊎ Advances a b)
Writes-run (unchanged e) k a f = (a, rw e f, inl refl)
Writes-run {d} (advanced a' b found adv e) k a f = elim (Bool_cases (str_eq b.run_id k)) [
  | inl same ↦
      let eq : b.run_id ≡ k = (eq_iff b.run_id k).0 same in
      let one : a' ≡ a = same_some (sym found ∙ ap (λ t. lookup t d) eq ∙ f) in
      (
        b,
        rw e (
            subst (λ t. lookup t (insert b.run_id b d) ≡ some b) eq
              (lookup-insert_self b.run_id b d)),
        inr (subst (λ t. Advances t b) one adv),
      )
  | inr other ↦ (a, rw e (lookup-insert_other b.run_id k b d other ∙ f), inl refl)
]
Writes-run {d} (created b free new e) k a f = elim (Bool_cases (str_eq b.run_id k)) [
  | inl same ↦
      absurd (none_ne_some (sym free ∙ ap (λ t. lookup t d) ((eq_iff b.run_id k).0 same) ∙ f))
  | inr other ↦ (a, rw e (lookup-insert_other b.run_id k b d other ∙ f), inl refl)
]

-- In a store whose records stand under their own ids, pass their checks and have no lease once
-- terminal, one command, whether it raises or not, leaves the record of a stored run as it is, or
-- makes one legal advance of it: from a live phase, along an edge of the state machine or in the
-- same phase, under the same bindings, with the revision one higher.
pub execute-Advances :
    (w : World) (c : Command) (s : Store) (k : String) (a : RunRecord)
    → IsKept s.runs
    → lookup k s.runs ≡ some a
    → (b : RunRecord) × (lookup k (execute w c s).1.runs ≡ some b) × ((b ≡ a) ⊎ Advances a b)
execute-Advances w c s k a h f = Writes-run ((execute-Writes w s.runs h c).at s refl) k a f

-- The store after any commands is well kept if it was so before.
pub execute-IsKept :
    (w : World) (c : Command) (s : Store) → IsKept s.runs → IsKept (execute w c s).1.runs
execute-IsKept w c s h = Writes-IsKept ((execute-Writes w s.runs h c).at s refl) h

pub run_all-IsKept :
    (w : World) (cs : List Command) (s : Store) → IsKept s.runs → IsKept (run_all w cs s).runs
unfolding run_all
run_all-IsKept w [] s h = h
run_all-IsKept w (c ∷ cs) s h = run_all-IsKept w cs (execute w c s).1 (execute-IsKept w c s h)

-- A later record of a run against an earlier one.
pub record Follows (a b : RunRecord) : Type 0 where
  pub binding : SameBinding a b
  pub path : a.phase ⟶* b.phase
  pub revised : a.revision ≤ b.revision
  pub attempted : a.attempt ≤ b.attempt
  pub final : a.phase ≡ terminal → b ≡ a
  pub new_revision : (b ≡ a) ⊎ (a.revision < b.revision)

Follows-refl : (a : RunRecord) → Follows a a
Follows-refl a = record {
  binding = record {
    run_id = refl;
    task_id = refl;
    agent_ref = refl;
    runtime_adapter_ref = refl;
    release_id = refl;
    parent_run_id = refl;
  };
  path = here;
  revised = omega arith;
  attempted = omega arith;
  final = λ _. refl;
  new_revision = inl refl;
}

⟶*_trans : {p q r : RunPhase} → p ⟶* q → q ⟶* r → p ⟶* r
⟶*_trans h here = h
⟶*_trans h (next k e) = next (⟶*_trans h k) e

advance_path : {a b : RunRecord} → Advances a b → a.phase ⟶* b.phase
advance_path {a} adv = elim adv.moves [
  | inl same ↦ subst (λ p. a.phase ⟶* p) same here
  | inr edge ↦ next here edge
]

SameBinding-trans : (a b c : RunRecord) → SameBinding a b → SameBinding b c → SameBinding a c
SameBinding-trans a b c h k = record {
  run_id = k.run_id ∙ h.run_id;
  task_id = k.task_id ∙ h.task_id;
  agent_ref = k.agent_ref ∙ h.agent_ref;
  runtime_adapter_ref = k.runtime_adapter_ref ∙ h.runtime_adapter_ref;
  release_id = k.release_id ∙ h.release_id;
  parent_run_id = k.parent_run_id ∙ h.parent_run_id;
}

Advances-Follows : (a b c : RunRecord) → Advances a b → Follows b c → Follows a c
Advances-Follows a b c adv h = record {
  binding = SameBinding-trans a b c adv.binding h.binding;
  path = ⟶*_trans (advance_path adv) h.path;
  revised = omega (arith, adv.revised, h.revised);
  attempted = omega (arith, adv.attempted, h.attempted);
  final = λ e. absurd (adv.live e);
  new_revision = inr (omega (arith, adv.revised, h.revised));
}

-- In a store whose records stand under their own ids, pass their checks and have no lease once
-- terminal, whatever list of commands is run: a stored run keeps a record, under the same task,
-- agent, adapter, release and parent, at a phase that the state machine reaches, with revision and
-- attempt never lower and the revision higher if anything changed. A terminal record never changes.
pub run_all-Follows :
    (w : World) (cs : List Command) (s : Store) (k : String) (a : RunRecord)
    → IsKept s.runs
    → lookup k s.runs ≡ some a
    → (b : RunRecord) × (lookup k (run_all w cs s).runs ≡ some b) × Follows a b
unfolding run_all
run_all-Follows w [] s k a h f = (a, f, Follows-refl a)
run_all-Follows w (c ∷ cs) s k a h f =
    let (b, found, step) = execute-Advances w c s k a h f in
    let (e, last, rest) =
      run_all-Follows w cs (execute w c s).1 k b (execute-IsKept w c s h) found in
    (
      e,
      last,
      elim step [
        | inl same ↦ subst (λ t. Follows t e) same rest
        | inr adv ↦ Advances-Follows a b e adv rest
      ],
    )
