-- ===== src/Runtime/Recovery.antt =====
-- Recovery of runs after a restart (src/ueaf/runtime/recovery.py), over the coordinator.
pub mod Fresh
use Prim.Native.String as Text
use agent_ueaf.Common.{
  ℕ, String, Bool, true, false, not, Option, none, some, List, [], ◌∷◌, str_eq, is_some,
  if◌then◌else◌, Dict.Dict, Dict.lookup, Dict.insert,
}
use agent_ueaf.Common.Exec.{Result, ok, err, pure, lift, ◌>>=◌, ◌>>◌}
use agent_ueaf.Contract.{World, new_meta, validate_meta}
use agent_ueaf.Runtime.Phase.{terminal, Error, value_error, same_phase}
use agent_ueaf.Runtime.Record.{RunRecord, Checkpoint, checked, validate_checkpoint}
use agent_ueaf.Runtime.Store.{M, new_object_id}
use agent_ueaf.Runtime.Coordinator.{get_run}
use agent_ueaf.Runtime.Lifecycle.{acquire_lease}

pub record RecoveryResult : Type 0 where
  pub recovered : Bool
  pub run_id : String
  pub reason_codes : List String
  pub run_record : Option RunRecord

-- `InMemoryCheckpointStore.save`
unfoldable pub save : Checkpoint → Dict Checkpoint → Result Error (Dict Checkpoint)
save c checkpoints =
    if is_some (lookup c.checkpoint_id checkpoints)
    then err (value_error "Checkpoint already exists")
    else ok (insert c.checkpoint_id c checkpoints)

-- `InMemoryCheckpointStore.get`
unfoldable pub get_checkpoint : String → Dict Checkpoint → Option Checkpoint
get_checkpoint checkpoint_id checkpoints = lookup checkpoint_id checkpoints

-- The adapter that is expected is given and is not that of the record.
abbrev pub is_rebound : Option String → RunRecord → Bool
is_rebound none r = false
is_rebound (some adapter) r = not (str_eq r.runtime_adapter_ref adapter)

abbrev is_foreign : Option Checkpoint → String → Bool
is_foreign none run_id = true
is_foreign (some c) run_id = not (str_eq c.run_id run_id)

-- The checkpoint is named and is missing or of another run.
unfoldable pub is_invalid : Option String → Dict Checkpoint → String → Bool
unfolding get_checkpoint
is_invalid none checkpoints run_id = false
is_invalid (some ref) checkpoints run_id = is_foreign (get_checkpoint ref checkpoints) run_id

abbrev pub result : Bool → String → String → Option RunRecord → RecoveryResult
result recovered run_id code r = record {
  recovered = recovered;
  run_id = run_id;
  reason_codes = code ∷ [];
  run_record = r;
}

-- `recover`, from the look at the record on
unfoldable pub recover_found :
    World
    → Dict Checkpoint
    → String
    → String
    → Option String
    → Option String
    → Option RunRecord
    → M RecoveryResult
recover_found w checkpoints run_id holder_id checkpoint_ref expected none =
    pure (result false run_id "run_not_found" none)
recover_found w checkpoints run_id holder_id checkpoint_ref expected (some r) =
    if same_phase r.phase terminal
    then pure (result true run_id "already_terminal" (some r))
    else if is_rebound expected r
    then pure (result false run_id "runtime_adapter_binding_changed" (some r))
    else if is_invalid checkpoint_ref checkpoints run_id
    then pure (result false run_id "checkpoint_invalid" (some r))
    else (do
      leased ← acquire_lease w run_id holder_id none
      pure (result true run_id "recovered" (some leased)))

-- `recover`
unfoldable pub recover :
    World → Dict Checkpoint → String → String → Option String → Option String → M RecoveryResult
unfolding recover_found
recover w checkpoints run_id holder_id checkpoint_ref expected = do
  found ← get_run run_id
  recover_found w checkpoints run_id holder_id checkpoint_ref expected found

abbrev checkpoint_of : RunRecord → String → String → List String → List String → Checkpoint
checkpoint_of r checkpoint_id schema_version conditions actions = record {
  meta =
      new_meta "Checkpoint" checkpoint_id r.meta.tenant_id r.meta.created_at "ueaf-runtime" "0.1.0";
  checkpoint_id = checkpoint_id;
  run_id = r.run_id;
  state_schema_version = schema_version;
  runtime_native_checkpoint_ref = none;
  pending_condition_refs = conditions;
  in_flight_action_refs = actions;
  frozen_release_id = some r.release_id;
  concurrency_token = some r.revision;
  integrity_ref = some (Text.◌++◌ "integrity:" checkpoint_id);
}

-- `new_checkpoint`
unfoldable pub new_checkpoint :
    World → RunRecord → String → List String → List String → M Checkpoint
new_checkpoint w r schema_version conditions actions = do
  checkpoint_id ← new_object_id w "checkpoint"
  let c = checkpoint_of r checkpoint_id schema_version conditions actions
  lift (checked c.meta (validate_meta c.meta))
  lift (checked c (validate_checkpoint c))
