-- ===== src/Runtime/Behaviour/Written.antt =====
-- The records after a write that the compare-and-set accepts, whatever becomes of its event.
use agent_ueaf.Common.{
  String, ◌≡◌, none, some, arith, Dict.lookup, Dict.insert, Dict.lookup-insert_self, subst, sym,
}
use agent_ueaf.Common.Exec.{ok, ◌>>=◌}
use agent_ueaf.Runtime.Record.{RunRecord}
use agent_ueaf.Runtime.Store.{Store, M, require, update}
use agent_ueaf.Runtime.Evolution.Rules.{Quiet}

pub require_found :
    (k : String) (s : Store) (a : RunRecord) → lookup k s.runs ≡ some a → require k s ≡ (ok a, s)
unfolding require
require_found k s a found = ground arith

pub update_found :
    (b : RunRecord) (s : Store) (a : RunRecord)
    → lookup b.run_id s.runs ≡ some a
    → update b (some a.revision) none s ≡ (ok b, record s { runs = insert b.run_id b s.runs })
unfolding update
update_found b s a found = rw found (ground arith)

written_own :
    {A : Type 0} (b : RunRecord) (s : Store) (a : RunRecord) (f : RunRecord → M A)
    → Quiet (f b)
    → lookup b.run_id s.runs ≡ some a
    → lookup b.run_id ((update b (some a.revision) none >>= f) s).1.runs ≡ some b
unfolding ◌>>=◌
written_own b s a f quiet found =
    rw (update_found b s a found, quiet.same) (lookup-insert_self b.run_id b s.runs)

pub written_found :
    {A : Type 0} (b : RunRecord) (k : String) (s : Store) (a : RunRecord) (f : RunRecord → M A)
    → Quiet (f b)
    → b.run_id ≡ k
    → lookup k s.runs ≡ some a
    → lookup k ((update b (some a.revision) none >>= f) s).1.runs ≡ some b
written_found b k s a f quiet own found =
    subst (λ t. lookup t ((update b (some a.revision) none >>= f) s).1.runs ≡ some b) own
      (written_own b s a f quiet (subst (λ t. lookup t s.runs ≡ some a) (sym own) found))
