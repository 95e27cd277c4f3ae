-- ===== src/Examples/Leases.antt =====
-- The theorems on leases, pauses and resumptions (src/ueaf/runtime/coordinator.py), applied.
use agent_ueaf.Common.{ℕ, String, ◌≡◌, refl, Option, none, some, List, [], ◌∷◌, Dict.lookup}
use agent_ueaf.Common.Exec.{◌>>=◌}
use agent_ueaf.Runtime.Phase.{
  admitting, running, retrying, waiting, paused, dependency, admission_deferred, in_phases,
}
use agent_ueaf.Runtime.Record.{RunRecord, RunLease, validate_record}
use agent_ueaf.Runtime.Record.Facts.{IsConsistent, validate_record_sound}
use agent_ueaf.Runtime.Store.{Store}
use agent_ueaf.Runtime.Lifecycle.{
  acquire_lease, heartbeat, pause, resume, to_running, leased_record, new_lease, beaten_lease,
  beaten_record, token_of,
}
use agent_ueaf.Runtime.Behaviour.Lease.{
  Holds, IsProlonged, IsLeased, heartbeat-Holds, acquire_lease-ok,
}
use agent_ueaf.Runtime.Behaviour.Fencing.{token_restarts}
use agent_ueaf.Examples.Data.{world, run, lease, leased_run, store_of}

abbrev first_lease : RunRecord
first_lease =
    leased_record (run running) (new_lease (run running) "lease:" "worker:2" 1_000_000) 1_000_000

acquire_lease-ok_example : IsLeased (run running) first_lease "lease:" "worker:2" 1_000_000
unfolding lookup acquire_lease ◌>>=◌ agent_ueaf.Runtime.Store.require
    agent_ueaf.Runtime.Store.read_clock agent_ueaf.Runtime.Store.new_object_id
    agent_ueaf.Runtime.Record.validate_lease validate_record agent_ueaf.Runtime.Store.update
    agent_ueaf.Runtime.Writer.emit agent_ueaf.Runtime.Writer.make_entry
    agent_ueaf.Runtime.Store.append agent_ueaf.Runtime.Outbox.append agent_ueaf.Common.Sets.member
acquire_lease-ok_example =
    acquire_lease-ok world "run:1" (store_of (run running)) (run running) refl "worker:2" none
      first_lease refl

abbrev beaten_run : RunRecord
beaten_run = beaten_record leased_run (beaten_lease lease 1_000_000) 1_000_000

heartbeat-Holds_example :
    (l : RunLease) × Holds leased_run l "lease:1" 4 1_000_000
    × IsProlonged leased_run l beaten_run 1_000_000
unfolding lookup heartbeat ◌>>=◌ agent_ueaf.Runtime.Store.require
    agent_ueaf.Runtime.Lifecycle.ensure_lease agent_ueaf.Runtime.Store.read_clock
    agent_ueaf.Runtime.Record.is_held_at agent_ueaf.Runtime.Record.validate_lease validate_record
    agent_ueaf.Runtime.Store.update
heartbeat-Holds_example =
    heartbeat-Holds world "run:1" (store_of leased_run) leased_run refl "lease:1" 4 beaten_run refl

abbrev deferred_run : RunRecord
deferred_run = record (run waiting) {
  wait_reason = some dependency;
  wait_condition_refs = "condition:1" ∷ [];
  wait_origin = some admission_deferred;
}

leased_run-IsConsistent : IsConsistent leased_run
unfolding validate_record
leased_run-IsConsistent = validate_record_sound leased_run refl

abbrev resumed_store : Store
resumed_store =
    (resume world "run:1" to_running "signal:1" [] none
      (pause world "run:1" ("held" ∷ []) none none (store_of leased_run)).1).1

abbrev again_leased : RunRecord
again_leased = record (run running) {
  revision = 4;
  updated_at = some 1_000_004;
  lease = some (new_lease (run running) "lease:iiii" "worker:2" 1_000_004);
}

token_restarts_example : token_of again_leased.lease ≡ 1
unfolding lookup acquire_lease ◌>>=◌ agent_ueaf.Runtime.Store.require resume pause
    agent_ueaf.Runtime.Phase.validate_transition agent_ueaf.Runtime.Writer.apply
    agent_ueaf.Runtime.Store.read_clock validate_record agent_ueaf.Runtime.Store.update
    agent_ueaf.Runtime.Writer.emit agent_ueaf.Runtime.Writer.make_entry
    agent_ueaf.Runtime.Store.new_object_id agent_ueaf.Runtime.Store.append
    agent_ueaf.Runtime.Outbox.append agent_ueaf.Common.Sets.member agent_ueaf.Common.Dict.insert
    agent_ueaf.Common.Sets.add agent_ueaf.Runtime.Phase.can_transition
    agent_ueaf.Runtime.Record.validate_lease agent_ueaf.Runtime.Store.appended
token_restarts_example =
    token_restarts world "run:1" (store_of leased_run) leased_run again_leased refl refl
      leased_run-IsConsistent refl ("held" ∷ []) [] "signal:1" "worker:2" none none refl
