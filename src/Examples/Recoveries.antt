-- ===== src/Examples/Recoveries.antt =====
-- The theorems on recovery (src/ueaf/runtime/recovery.py), applied.
use agent_ueaf.Common.{
  String, ◌≡◌, refl, true, false, Option, none, some, List, [], ◌∷◌, Dict.lookup,
}
use agent_ueaf.Common.Exec.{◌>>=◌}
use agent_ueaf.Runtime.Record.{RunRecord, Checkpoint}
use agent_ueaf.Runtime.Behaviour.Lease.{IsLeased}
use agent_ueaf.Runtime.Lifecycle.{leased_record, new_lease}
use agent_ueaf.Runtime.Recovery.{RecoveryResult, recover, is_rebound, is_invalid, result}
use agent_ueaf.Runtime.Recovery.Fresh.{recover_refused, recover-IsLeased}
use agent_ueaf.Examples.Data.{world, leased_run, store_of}

abbrev refusal : RecoveryResult
refusal = result false "run:1" "runtime_adapter_binding_changed" (some leased_run)

recover_refused_example :
    ((recover world [] "run:1" "worker:2" none (some "adapter:2") (store_of leased_run)).1
      ≡ store_of leased_run)
    × (some leased_run ≡ lookup "run:1" (store_of leased_run).runs)
unfolding recover ◌>>=◌ agent_ueaf.Runtime.Coordinator.get_run lookup
recover_refused_example =
    recover_refused world [] "run:1" (store_of leased_run) "worker:2" none (some "adapter:2")
      refusal refl refl

abbrev taken_over : RunRecord
taken_over = leased_record leased_run (new_lease leased_run "lease:" "worker:2" 1_000_000) 1_000_000

abbrev recovery : RecoveryResult
recovery = result true "run:1" "recovered" (some taken_over)

recover-IsLeased_example :
    ((adapter : String)
      → some "adapter:1" ≡ some adapter
      → leased_run.runtime_adapter_ref ≡ adapter)
    × ((c : String)
        → ◌≡◌ {A = Option String} none (some c)
        → (p : Checkpoint) × (lookup c [] ≡ some p) × (p.run_id ≡ "run:1"))
    × ((u : RunRecord) × (some taken_over ≡ some u)
        × IsLeased leased_run u "lease:" "worker:2" 1_000_000)
unfolding lookup recover ◌>>=◌ agent_ueaf.Runtime.Coordinator.get_run is_invalid
    agent_ueaf.Runtime.Lifecycle.acquire_lease agent_ueaf.Runtime.Store.require
    agent_ueaf.Runtime.Store.read_clock agent_ueaf.Runtime.Store.new_object_id
    agent_ueaf.Runtime.Record.validate_lease agent_ueaf.Runtime.Record.validate_record
    agent_ueaf.Runtime.Store.update agent_ueaf.Runtime.Writer.emit
    agent_ueaf.Runtime.Writer.make_entry agent_ueaf.Runtime.Store.append
    agent_ueaf.Runtime.Outbox.append agent_ueaf.Common.Sets.member agent_ueaf.Common.Dict.insert
    agent_ueaf.Common.Sets.add agent_ueaf.Runtime.Recovery.get_checkpoint
    agent_ueaf.Runtime.Recovery.recover_found agent_ueaf.Runtime.Store.appended
recover-IsLeased_example =
    recover-IsLeased world [] "run:1" (store_of leased_run) "worker:2" none (some "adapter:1")
      recovery leased_run refl (λ e. cc) refl refl
