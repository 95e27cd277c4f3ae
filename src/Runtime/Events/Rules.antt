-- ===== src/Runtime/Events/Rules.antt =====
-- An invariant of the store about its events, and one rule for each of the actions that commands
-- are made of.
use agent_ueaf.Common.{
  ℕ, ◌≤◌, String, ◌≡◌, refl, sym, subst, ◌⊎◌, inl, inr, Option, none, some, [], ◌∷◌, arith, All,
  All-append, Dict.lookup, Dict.insert, Dict.lookup-insert_cases,
}
use agent_ueaf.Common.Exec.{Result, ok, err, lift, pure, raise, ◌>>=◌}
use agent_ueaf.Common.Exec.Rules.{
  Triple, Always, bind_cases, Triple-bind, Triple-lift, Triple-pure, Triple-raise,
}
use agent_ueaf.Contract.{World}
use agent_ueaf.Admission.Result.{RunAdmissionResult}
use agent_ueaf.Runtime.Phase.{Error}
use agent_ueaf.Runtime.Record.{RunRecord, TaskState}
use agent_ueaf.Runtime.Outbox
use agent_ueaf.Runtime.Outbox.{Outbox, OutboxEntry, EventName, Payload}
use agent_ueaf.Runtime.Outbox.Sound.{IsSound, append-ok, append-IsSound}
use agent_ueaf.Runtime.Store.{
  Store, M, read_clock, new_object_id, require, create_record, update, create_task,
  create_admission, append, appended,
}
use agent_ueaf.Runtime.Writer.{make_entry, emit}
use agent_ueaf.Runtime.Evolution.Rules.{
  Quiet-create_admission, Quiet-create_task, update_cases, require-ok,
}

-- A record as the coordinator keeps it: its event sequence is never counted up.
pub record IsUnnumbered (r : RunRecord) : Type 0 where
  pub sequenced : r.sequence ≡ 0
  pub revised : 1 ≤ r.revision

-- An entry that the coordinator has written.
pub record IsRunEvent (e : OutboxEntry) : Type 0 where
  pub released : e.event_version ≡ "1.0.0"
  pub typed : e.aggregate_type ≡ "RunRecord"
  pub sequenced : e.sequence ≡ 1
  pub versioned : 1 ≤ e.aggregate_version

pub record HasEvents (s : Store) : Type 0 where
  pub sound : IsSound s.outbox
  pub events : All IsRunEvent s.outbox.entries
  pub records : (k : String) (r : RunRecord) → lookup k s.runs ≡ some r → IsUnnumbered r

-- An action that touches neither the records nor the outbox.
same_parts : (s s' : Store) → s'.runs ≡ s.runs → s'.outbox ≡ s.outbox → HasEvents s → HasEvents s'
same_parts s s' r o h = record {
  sound = subst IsSound (sym o) h.sound;
  events = subst (λ t. All IsRunEvent t.entries) (sym o) h.events;
  records = λ k a f. h.records k a (subst (λ t. lookup k t ≡ some a) r f);
}

abbrev pub Keeps : {A : Type 0} → M A → Type 0
Keeps m = Triple HasEvents m (Always HasEvents)

pub Keeps-read_clock : (w : World) → Keeps (read_clock w)
unfolding read_clock
Keeps-read_clock w = record { at = λ s h. same_parts s _ refl refl h }

pub Keeps-new_object_id : (w : World) (prefix : String) → Keeps (new_object_id w prefix)
unfolding new_object_id
Keeps-new_object_id w prefix = record { at = λ s h. same_parts s _ refl refl h }

admission-outbox : (a : RunAdmissionResult) (s : Store) → (create_admission a s).1.outbox ≡ s.outbox
unfolding create_admission
admission-outbox a s = ground arith

pub Keeps-create_admission : (a : RunAdmissionResult) → Keeps (create_admission a)
Keeps-create_admission a = record {
  at = λ s h. same_parts s _ ((Quiet-create_admission a).same s) (admission-outbox a s) h;
}

outbox-create_task : (t : TaskState) (s : Store) → (create_task t s).1.outbox ≡ s.outbox
unfolding create_task
outbox-create_task t s = ground arith

pub Keeps-create_task : (t : TaskState) → Keeps (create_task t)
Keeps-create_task t = record {
  at = λ s h. same_parts s _ ((Quiet-create_task t).same s) (outbox-create_task t s) h;
}

-- An event of a kept record is appended, or refused as a duplicate.
appended-HasEvents :
    (e : OutboxEntry) → IsRunEvent e → (s : Store) → HasEvents s → HasEvents (append e s).1
unfolding append
appended-HasEvents e new s h = go (Outbox.append e s.outbox) refl
  where
    go : (r : Result Error Outbox) → Outbox.append e s.outbox ≡ r → HasEvents (appended r s).1
    go (ok o) eq = record {
      sound = (append-IsSound e s.outbox o eq h.sound).0;
      events =
          subst (λ t. All IsRunEvent t.entries) (append-ok e s.outbox o eq).1
            (All-append IsRunEvent s.outbox.entries (e ∷ []) h.events (new, tt));
      records = h.records;
    }
    go (err x) eq = h

pub Keeps-emit :
    (w : World) (r : RunRecord) (name : EventName) (c a : Option String) (p : Payload)
    → IsUnnumbered r
    → Keeps (emit w r name c a p)
unfolding emit make_entry ◌>>=◌ read_clock new_object_id
Keeps-emit w r name c a p h = record {
  at = λ s k.
      appended-HasEvents _
        (record {
          released = refl;
          typed = refl;
          sequenced = omega (arith, h.sequenced);
          versioned = h.revised;
        })
        _ (same_parts s _ refl refl k);
}

pub Keeps-pure : {A : Type 0} (a : A) → Keeps (pure a)
Keeps-pure a = Triple-pure (λ s h. h) a

pub Keeps-raise : {A : Type 0} (e : Error) → Keeps (raise {A = A} e)
Keeps-raise e = Triple-raise (λ s h. h) e

insert_records :
    (b : RunRecord) (s : Store) (t : Store)
    → IsUnnumbered b
    → t.runs ≡ insert b.run_id b s.runs
    → t.outbox ≡ s.outbox
    → HasEvents s
    → HasEvents t
insert_records b s t n r o h = record {
  sound = subst IsSound (sym o) h.sound;
  events = subst (λ x. All IsRunEvent x.entries) (sym o) h.events;
  records = λ k a f.
      elim (lookup-insert_cases b.run_id k b s.runs (subst (λ x. lookup k x ≡ some a) r f)) [
        | inl (_, eq) ↦ subst IsUnnumbered eq n
        | inr old ↦ h.records k a old
      ];
}

update-outbox :
    (b : RunRecord) (expected : Option ℕ) (s : Store)
    → (update b expected none s).1.outbox ≡ s.outbox
unfolding update
update-outbox b expected s = ground arith

create-outbox : (b : RunRecord) (s : Store) → (create_record b s).1.outbox ≡ s.outbox
unfolding create_record
create-outbox b s = ground arith

create_cases :
    (b : RunRecord) (s : Store)
    → ((create_record b s).1.runs ≡ s.runs)
      ⊎ ((create_record b s).1.runs ≡ insert b.run_id b s.runs)
unfolding create_record
create_cases b s = ground arith

pub Keeps-update :
    (b : RunRecord) (expected : Option ℕ) → IsUnnumbered b → Keeps (update b expected none)
Keeps-update b expected n = record {
  at = λ s h. elim (update_cases b expected s) [
    | inl same ↦ same_parts s _ same (update-outbox b expected s) h
    | inr wrote ↦ insert_records b s _ n wrote (update-outbox b expected s) h
  ];
}

pub Keeps-create_record : (b : RunRecord) → IsUnnumbered b → Keeps (create_record b)
Keeps-create_record b n = record {
  at = λ s h. elim (create_cases b s) [
    | inl same ↦ same_parts s _ same (create-outbox b s) h
    | inr wrote ↦ insert_records b s _ n wrote (create-outbox b s) h
  ];
}

module _ {A B : Type 0} where
  pub in_turn : (m : M A) (f : A → M B) → Keeps m → ((a : A) → Keeps (f a)) → Keeps (m >>= f)
  in_turn m f h k = Triple-bind m f h (λ s x. x) k

  pub if_passed :
      (r : Result Error A) (f : A → M B) → ((a : A) → r ≡ ok a → Keeps (f a)) → Keeps (lift r >>= f)
  if_passed r f h = Triple-lift r f (λ s x. x) h

pub reading :
    {B : Type 0} (k : String) (f : RunRecord → M B)
    → ((a : RunRecord) → IsUnnumbered a → Keeps (f a))
    → Keeps (require k >>= f)
unfolding require
reading k f h = record {
  at = λ s x.
      bind_cases (Always HasEvents) (require k) f s
        (λ a got. (h a (x.records k a (require-ok k s a got))).at _ (after s x)) (λ _ _. after s x);
}
  where
    after : (s : Store) → HasEvents s → HasEvents (require k s).1
    after s x = same_parts s _ refl refl x
