-- ===== src/Runtime/Store.antt =====
-- What the coordinator writes to: the repositories of src/ueaf/infrastructure/db/repositories.py,
-- the outbox, and how often the clock and the source of tokens have been read. The coordinator
-- sends no fencing token to `update`.
use agent_ueaf.Common.{
  ℕ, ◌+◌, String, Bool, false, not, Option, none, some, ◌==◌, ltb, is_some, if◌then◌else◌,
  Dict.Dict, Dict.lookup, Dict.insert,
}
use agent_ueaf.Common.Exec.{Result, ok, err, Exec}
use agent_ueaf.Contract.{World, object_id}
use agent_ueaf.Admission.Result.{RunAdmissionResult}
use agent_ueaf.Runtime.Phase.{Error, value_error, key_error, revision_conflict, stale_fencing}
use agent_ueaf.Runtime.Record.{RunRecord, TaskState}
use agent_ueaf.Runtime.Outbox
use agent_ueaf.Runtime.Outbox.{Outbox, OutboxEntry}

pub record Store : Type 0 where
  pub runs : Dict RunRecord
  pub tasks : Dict TaskState
  pub admissions : Dict RunAdmissionResult
  pub outbox : Outbox
  pub clock_reads : ℕ
  pub drawn : ℕ

abbrev pub M : Type 0 → Type 0
M = Exec Store Error

-- `self._now()`
unfoldable pub read_clock : World → M ℕ
read_clock w s = (ok (w.now s.clock_reads), record s { clock_reads = s.clock_reads + 1 })

-- `new_object_id(prefix)`
unfoldable pub new_object_id : World → String → M String
new_object_id w prefix s = (ok (object_id w prefix s.drawn), record s { drawn = s.drawn + 1 })

or_missing : Option RunRecord → Result Error RunRecord
or_missing none = err (key_error "RunRecord not found")
or_missing (some r) = ok r

-- `InMemoryRunRecordRepository.require`
unfoldable pub require : String → M RunRecord
unfolding or_missing
require run_id s = (or_missing (lookup run_id s.runs), s)

-- `InMemoryRunRecordRepository.create`
unfoldable pub create_record : RunRecord → M RunRecord
create_record r s =
    if is_some (lookup r.run_id s.runs)
    then (err (value_error "RunRecord already exists"), s)
    else (ok r, record s { runs = insert r.run_id r s.runs })

-- `expected is not None and actual != expected`
abbrev differs : Option ℕ → ℕ → Bool
differs none actual = false
differs (some expected) actual = not (actual == expected)

abbrev or_zero : Option ℕ → ℕ
or_zero none = 0
or_zero (some n) = n

abbrev current_fencing : RunRecord → ℕ
current_fencing r = elim r.lease [ none ↦ 0 | some l ↦ l.fencing_token ]

-- `fencing_token is not None and fencing_token < current`
abbrev behind : Option ℕ → ℕ → Bool
behind none current = false
behind (some token) current = ltb token current

update_existing : RunRecord → Option ℕ → Option ℕ → Option RunRecord → M RunRecord
update_existing r expected token none s = (err (key_error "RunRecord not found"), s)
update_existing r expected token (some existing) s =
    if differs expected existing.revision
    then (err (revision_conflict r.run_id (or_zero expected) existing.revision), s)
    else if behind token (current_fencing existing)
    then (err (stale_fencing r.run_id (or_zero token) (current_fencing existing)), s)
    else (ok r, record s { runs = insert r.run_id r s.runs })

-- `InMemoryRunRecordRepository.update`: a compare-and-set on the revision that the caller read, and
-- a test of the fencing token, each made where the caller gives a value.
unfoldable pub update : RunRecord → Option ℕ → Option ℕ → M RunRecord
unfolding update_existing
update r expected token s = update_existing r expected token (lookup r.run_id s.runs) s

-- `InMemoryTaskStateRepository.create`
unfoldable pub create_task : TaskState → M TaskState
create_task t s =
    if is_some (lookup t.task_id s.tasks)
    then (err (value_error "TaskState already exists"), s)
    else (ok t, record s { tasks = insert t.task_id t s.tasks })

-- `InMemoryTaskStateRepository.update`
unfoldable pub update_task : TaskState → Option ℕ → M TaskState
update_task t expected s = elim (lookup t.task_id s.tasks) [
  | none ↦ (err (key_error "TaskState not found"), s)
  | some existing ↦
      if differs expected existing.revision
      then (err (revision_conflict t.task_id (or_zero expected) existing.revision), s)
      else (ok t, record s { tasks = insert t.task_id t s.tasks })
]

-- `InMemoryAdmissionResultRepository.create`
unfoldable pub create_admission : RunAdmissionResult → M RunAdmissionResult
create_admission a s =
    if is_some (lookup a.run_admission_result_id s.admissions)
    then (err (value_error "RunAdmissionResult already exists"), s)
    else (ok a, record s { admissions = insert a.run_admission_result_id a s.admissions })

unfoldable pub appended : Result Error Outbox → M (Unit {0})
appended (ok o) s = (ok tt, record s { outbox = o })
appended (err e) s = (err e, s)

-- `outbox.append`
unfoldable pub append : OutboxEntry → M (Unit {0})
unfolding appended
append entry s = appended (Outbox.append entry s.outbox) s
