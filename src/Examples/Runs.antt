-- ===== src/Examples/Runs.antt =====
-- The theorems on runs (src/ueaf/runtime), applied.
use agent_ueaf.Common.{
  ℕ, String, ◌≡◌, ◌⊎◌, refl, true, none, some, List, [], ◌∷◌, All, length, map, Dict.lookup,
  Dict.insert,
}
use agent_ueaf.Common.Exec.{ok, err, ◌>>=◌}
use agent_ueaf.Common.Sets.{Distinct, add, member}
use agent_ueaf.Runtime.Phase.{
  running, waiting, terminal, failed, dependency, admission_deferred, value_error,
  validate_transition, can_transition,
}
use agent_ueaf.Runtime.Record.{RunRecord, validate_record, validate_task_state}
use agent_ueaf.Runtime.Record.Facts.{IsConsistent}
use agent_ueaf.Runtime.Outbox.{unpublished}
use agent_ueaf.Runtime.Outbox.Sound.{ids}
use agent_ueaf.Runtime.Publisher.{to_envelope, drain, Delivery}
use agent_ueaf.Runtime.Store.{
  Store, append, update, require, read_clock, new_object_id, create_task, create_record,
}
use agent_ueaf.Runtime.Outbox
use agent_ueaf.Contract.{validate_meta}
use agent_ueaf.Runtime.Writer.{
  commit_terminal, terminal_record, disposed_as, completion_allowed, emit, make_entry,
  write_terminal, apply, transition,
}
use agent_ueaf.Runtime.Lifecycle.{cancel}
use agent_ueaf.Runtime.Command.{run_all, execute}
use agent_ueaf.Runtime.Command
use agent_ueaf.Runtime.Coordinator
use agent_ueaf.Runtime.Evolution.Rules.{Advances, IsKept}
use agent_ueaf.Runtime.Evolution.History.{
  run_all-IsKept, run_all-Follows, execute-Advances, Follows,
}
use agent_ueaf.Runtime.Reachable.{
  empty_store, empty_store-IsKept, reachable_IsConsistent, reachable_sequence, reachable_drain,
}
use agent_ueaf.Runtime.Behaviour.Terminal.{commit_terminal_waiting}
use agent_ueaf.Examples.Data.{world, input, run, store_of, first_commands}

abbrev created_store : Store
created_store = run_all world (Command.create_run input ∷ []) empty_store

created_store-IsKept : IsKept created_store.runs
created_store-IsKept =
    run_all-IsKept world (Command.create_run input ∷ []) empty_store empty_store-IsKept

abbrev created_run : RunRecord
created_run = Coordinator.queued_record input "run:" "trace:1" 1_000_000

created_run_found : lookup "run:" created_store.runs ≡ some created_run
unfolding run_all lookup execute Coordinator.create_run agent_ueaf.Common.Exec.◌>>=◌
    agent_ueaf.Runtime.Store.read_clock agent_ueaf.Runtime.Store.new_object_id
    agent_ueaf.Contract.validate_meta agent_ueaf.Runtime.Record.validate_task_state
    agent_ueaf.Runtime.Store.create_task validate_record agent_ueaf.Runtime.Store.create_record
    agent_ueaf.Runtime.Writer.emit agent_ueaf.Runtime.Writer.make_entry
    agent_ueaf.Runtime.Store.append agent_ueaf.Runtime.Outbox.append agent_ueaf.Common.Sets.member
    agent_ueaf.Common.Dict.insert
created_run_found = refl

run_all-Follows_example :
    (b : RunRecord) × (lookup "run:"
        (run_all world (Command.cancel "run:" none ∷ []) created_store).runs
      ≡ some b)
    × Follows created_run b
run_all-Follows_example =
    run_all-Follows world (Command.cancel "run:" none ∷ []) created_store "run:" created_run
      created_store-IsKept created_run_found

execute-Advances_example :
    (b : RunRecord) × (lookup "run:"
        (execute world (Command.begin_admission "run:" none) created_store).1.runs
      ≡ some b)
    × ((b ≡ created_run) ⊎ Advances created_run b)
execute-Advances_example =
    execute-Advances world (Command.begin_admission "run:" none) created_store "run:" created_run
      created_store-IsKept created_run_found

abbrev ended_store : Store
ended_store = run_all world first_commands empty_store

reachable_IsConsistent_example :
    IsConsistent created_run
    × (created_run.run_id ≡ "run:")
    × (created_run.phase ≡ terminal → created_run.lease ≡ none)
reachable_IsConsistent_example =
    reachable_IsConsistent world (Command.create_run input ∷ []) "run:" created_run
      created_run_found

reachable_sequence_example :
    All (λ e. e.sequence ≡ 1) ended_store.outbox.entries
    × ((k : String) (r : RunRecord) → lookup k ended_store.runs ≡ some r → r.sequence ≡ 0)
reachable_sequence_example = reachable_sequence world first_commands

abbrev delivery : Delivery
delivery = record {
  publisher = record { producer = "ueaf"; events = []; seen = [] };
  outbox = ended_store.outbox;
}

reachable_drain_example :
    ((drain 9 delivery).0 ≡ ok (length (unpublished ended_store.outbox)))
    × (unpublished (drain 9 delivery).1.outbox ≡ [])
    × ((drain 9 delivery).1.publisher.events
        ≡ map (to_envelope "ueaf" 9) (unpublished ended_store.outbox))
    × Distinct (ids (unpublished ended_store.outbox))
reachable_drain_example = reachable_drain world first_commands 9 "ueaf"

-- The first run emits three events, and all three wait.
first_events : length (unpublished ended_store.outbox) ≡ 3
unfolding unpublished run_all execute cancel ◌>>=◌ require lookup Coordinator.begin_admission
    transition Coordinator.create_run read_clock new_object_id validate_meta validate_task_state
    create_task validate_record create_record insert add member Outbox.append validate_transition
    can_transition append update apply commit_terminal completion_allowed emit make_entry
    write_terminal
first_events = refl

abbrev ended : RunRecord
ended = terminal_record (run running) failed ("broken" ∷ []) none (some "error:1") 1_000_000

abbrev waiting_run : RunRecord
waiting_run = record (run waiting) {
  wait_reason = some dependency;
  wait_condition_refs = "condition:1" ∷ [];
  wait_origin = some admission_deferred;
}

commit_terminal_waiting_example :
    commit_terminal world "run:1" failed ("expired" ∷ []) none none none (store_of waiting_run) ≡ (
      err (value_error "wait_reason is only valid when phase=waiting"),
      record (store_of waiting_run) { clock_reads = 1 },
    )
unfolding lookup completion_allowed
commit_terminal_waiting_example =
    commit_terminal_waiting world "run:1" (store_of waiting_run) waiting_run refl failed
      ("expired" ∷ []) none none none refl refl refl refl
