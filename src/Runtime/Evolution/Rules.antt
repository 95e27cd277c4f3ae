-- ===== src/Runtime/Evolution/Rules.antt =====
-- The relation between the run records before and after a command, and one rule for each of the
-- actions that commands are made of.
use agent_ueaf.Common.{
  ℕ, ◌+◌, ◌≤◌, String, ◌≡◌, refl, sym, ◌∙◌, ap, subst, ◌≢◌, ◌⊎◌, inl, inr, Option, none, some,
  arith, Dict.Dict, Dict.lookup, Dict.insert,
}
use agent_ueaf.Common.Exec.{Result, ok, lift, pure, ◌>>=◌, ◌>>◌}
use agent_ueaf.Common.Exec.Rules.{Triple, Always, bind_cases, Triple-bind, Triple-then, Triple-lift}
use agent_ueaf.Contract.{World}
use agent_ueaf.Admission.Result.{RunAdmissionResult}
use agent_ueaf.Runtime.Phase.{queued, terminal, Error}
use agent_ueaf.Runtime.Phase.Diagram.{◌⟶◌}
use agent_ueaf.Runtime.Record.{RunRecord, TaskState, checked, validate_record}
use agent_ueaf.Runtime.Outbox.{OutboxEntry, EventName, Payload}
use agent_ueaf.Runtime.Store.{
  Store, M, read_clock, new_object_id, require, update, create_task, create_admission, append,
}
use agent_ueaf.Runtime.Writer.{make_entry, emit}

-- The frozen bindings of a run (RUN-007).
pub record SameBinding (a b : RunRecord) : Type 0 where
  pub run_id : b.run_id ≡ a.run_id
  pub task_id : b.task_id ≡ a.task_id
  pub agent_ref : b.agent_ref ≡ a.agent_ref
  pub runtime_adapter_ref : b.runtime_adapter_ref ≡ a.runtime_adapter_ref
  pub release_id : b.release_id ≡ a.release_id
  pub parent_run_id : b.parent_run_id ≡ a.parent_run_id

-- One write to a run.
pub record Advances (a b : RunRecord) : Type 0 where
  pub binding : SameBinding a b
  pub live : a.phase ≢ terminal
  pub moves : (a.phase ≡ b.phase) ⊎ (a.phase ⟶ b.phase)
  pub revised : b.revision ≡ a.revision + 1
  pub attempted : a.attempt ≤ b.attempt
  pub sequenced : b.sequence ≡ a.sequence
  pub released : b.phase ≡ terminal → b.lease ≡ none
  pub valid : validate_record b ≡ none

-- A record as `create_run` writes it.
pub record IsNew (b : RunRecord) : Type 0 where
  pub starts : b.phase ≡ queued
  pub revised : b.revision ≡ 1
  pub attempted : b.attempt ≡ 1
  pub sequenced : b.sequence ≡ 0
  pub valid : validate_record b ≡ none

-- A command writes at most one record, and only over the one that it read.
pub data Writes (d d' : Dict RunRecord) : Type 0 where
  unchanged : d' ≡ d → Writes d d'
  advanced :
      (a b : RunRecord)
      → lookup b.run_id d ≡ some a
      → Advances a b
      → d' ≡ insert b.run_id b d
      → Writes d d'
  created :
      (b : RunRecord) → lookup b.run_id d ≡ none → IsNew b → d' ≡ insert b.run_id b d → Writes d d'

-- Every record stands under its own id and passes its checks, and a terminal one has no lease.
pub record IsKept (d : Dict RunRecord) : Type 0 where
  pub own_id : (k : String) (r : RunRecord) → lookup k d ≡ some r → r.run_id ≡ k
  pub released :
      (k : String) (r : RunRecord) → lookup k d ≡ some r → r.phase ≡ terminal → r.lease ≡ none
  pub valid : (k : String) (r : RunRecord) → lookup k d ≡ some r → validate_record r ≡ none

-- An action that leaves the run records alone.
pub record Quiet {A : Type 0} (m : M A) : Type 0 where
  pub same : (s : Store) → (m s).1.runs ≡ s.runs

pub Quiet-read_clock : (w : World) → Quiet (read_clock w)
unfolding read_clock
Quiet-read_clock w = record { same = λ s. refl }

pub Quiet-new_object_id : (w : World) (prefix : String) → Quiet (new_object_id w prefix)
unfolding new_object_id
Quiet-new_object_id w prefix = record { same = λ s. refl }

Quiet-append : (e : OutboxEntry) → Quiet (append e)
unfolding append
Quiet-append e = record { same = λ s. ground arith }

pub Quiet-emit :
    (w : World) (r : RunRecord) (name : EventName) (c a : Option String) (p : Payload)
    → Quiet (emit w r name c a p)
unfolding emit make_entry append ◌>>=◌ read_clock new_object_id
Quiet-emit w r name c a p = record { same = λ s. ground arith }

pub Quiet-pure : {A : Type 0} (a : A) → Quiet (pure a)
unfolding ◌>>=◌
Quiet-pure a = record { same = λ s. refl }

pub Quiet-then : {A B : Type 0} (m : M A) (n : M B) → Quiet m → Quiet n → Quiet (m >> n)
Quiet-then m n p q = record {
  same = λ s.
      bind_cases (λ _ t. t.runs ≡ s.runs) m (λ _. n) s (λ _ _. q.same (m s).1 ∙ p.same s)
        (λ _ _. p.same s);
}

pub Quiet-create_admission : (a : RunAdmissionResult) → Quiet (create_admission a)
unfolding create_admission
Quiet-create_admission a = record { same = λ s. ground arith }

pub Quiet-create_task : (t : TaskState) → Quiet (create_task t)
unfolding create_task
Quiet-create_task t = record { same = λ s. ground arith }

Quiet-require : (k : String) → Quiet (require k)
unfolding require
Quiet-require k = record { same = λ s. refl }

pub require-ok :
    (k : String) (s : Store) (a : RunRecord) → (require k s).0 ≡ ok a → lookup k s.runs ≡ some a
unfolding require
require-ok k s a h = ground arith

pub update_cases :
    (b : RunRecord) (expected : Option ℕ) (s : Store)
    → ((update b expected none s).1.runs ≡ s.runs)
      ⊎ ((update b expected none s).1.runs ≡ insert b.run_id b s.runs)
unfolding update
update_cases b expected s = ground arith

pub checked-ok :
    {A : Type 0} (a : A) (v : Option String) {b : A} → checked a v ≡ ok b → (v ≡ none) × (a ≡ b)
checked-ok a none h = (refl, ground arith)
checked-ok a (some m) h = cc

module _ (d : Dict RunRecord) where
  -- The records are still those that the command began with.
  abbrev pub Before : Store → Type 0
  Before s = s.runs ≡ d

  -- They are those after the command's write.
  abbrev pub After : Store → Type 0
  After s = Writes d s.runs

  pub weaker : (s : Store) → Before s → After s
  weaker s e = unchanged e

  pub Quiet-Before : {A : Type 0} (m : M A) → Quiet m → Triple Before m (Always Before)
  Quiet-Before m q = record { at = λ s e. q.same s ∙ e }

  pub Quiet-After : {A : Type 0} (m : M A) → Quiet m → Triple After m (Always After)
  Quiet-After m q = record { at = λ s h. subst (Writes d) (sym (q.same s)) h }

  module _ {A B : Type 0} where
    pub quiet_first :
        (m : M A) (f : A → M B)
        → Quiet m
        → ((a : A) → Triple Before (f a) (Always After))
        → Triple Before (m >>= f) (Always After)
    quiet_first m f q h = Triple-bind m f (Quiet-Before m q) weaker h

    pub quiet_last :
        (m : M A) (f : A → M B)
        → Triple Before m (Always After)
        → ((a : A) → Quiet (f a))
        → Triple Before (m >>= f) (Always After)
    quiet_last m f h q = Triple-then m f h (λ a. Quiet-After (f a) (q a))

    pub check_first :
        (r : Result Error A) (f : A → M B)
        → ((a : A) → r ≡ ok a → Triple Before (f a) (Always After))
        → Triple Before (lift r >>= f) (Always After)
    check_first r f h = Triple-lift r f weaker h

  pub read_first :
      {B : Type 0} (k : String) (f : RunRecord → M B)
      → ((a : RunRecord) → lookup k d ≡ some a → Triple Before (f a) (Always After))
      → Triple Before (require k >>= f) (Always After)
  read_first k f h = record {
    at = λ s e.
        bind_cases (Always After) (require k) f s
          (λ a got.
            (h a (subst (λ t. lookup k t ≡ some a) e (require-ok k s a got))).at _
              ((Quiet-require k).same s ∙ e))
          (λ x _. unchanged ((Quiet-require k).same s ∙ e));
  }

  pub update_Writes :
      (a b : RunRecord) (expected : Option ℕ)
      → lookup b.run_id d ≡ some a
      → Advances a b
      → Triple Before (update b expected none) (Always After)
  update_Writes a b expected found h = record {
    at = λ s e. elim (update_cases b expected s) [
      | inl same ↦ unchanged (same ∙ e)
      | inr wrote ↦ advanced a b found h (wrote ∙ ap (insert b.run_id b) e)
    ];
  }
