-- ===== src/Examples/Data.antt =====
-- A world, a task and a run (src/ueaf/runtime), the data of the examples.
use Prim.Native.String as Text
use agent_ueaf.Common.{ℕ, zero, suc, ◌+◌, String, none, some, List, [], ◌∷◌}
use agent_ueaf.Contract.{World, new_meta}
use agent_ueaf.Admission.Task.{TaskEnvelope, read_only}
use agent_ueaf.Runtime.Phase.{RunPhase, running}
use agent_ueaf.Runtime.Record.{RunRecord, RunLease}
use agent_ueaf.Runtime.Outbox.{empty_outbox}
use agent_ueaf.Runtime.Store.{Store}
use agent_ueaf.Runtime.Coordinator.{RunCreateInput, queued_record}
use agent_ueaf.Runtime.Command.{Command}

abbrev strokes : ℕ → String
strokes zero = ""
strokes (suc n) = Text.◌++◌ "i" (strokes n)

-- Every token is new, and every reading of the clock is a microsecond after the one before.
abbrev pub world : World
world = record { token = strokes; now = λ n. n + 1_000_000 }

abbrev pub task : TaskEnvelope
task = record {
  meta = new_meta "TaskEnvelope" "task:1" "tenant" 5 "desk" "1.0.0";
  task_id = "task:1";
  request_refs = "request:1" ∷ [];
  goal = "answer";
  completion_criteria = "answered" ∷ [];
  constraints = [];
  risk_class = read_only;
  owner_ref = "owner";
  budget_ref = "budget:1";
  revision = 1;
}

abbrev pub input : RunCreateInput
input = record {
  task_envelope = task;
  agent_ref = "agent:1";
  runtime_adapter_ref = "adapter:1";
  release_id = "release:1";
  budget_snapshot_ref = "budget:1";
  trace_id = some "trace:1";
  parent_run_id = none;
  deadline_at = none;
  correlation_id = none;
  actor_ref = none;
}

abbrev pub run : RunPhase → RunRecord
run phase = record (queued_record input "run:1" "trace:1" 7) { phase = phase }

abbrev pub lease : RunLease
lease = record {
  lease_id = "lease:1";
  holder_id = "worker:1";
  fencing_token = 4;
  acquired_at = 900_000;
  heartbeat_at = 900_000;
  expires_at = 2_000_000;
}

abbrev pub leased_run : RunRecord
leased_run = record (run running) { lease = some lease }

-- The store with a single run.
abbrev pub store_of : RunRecord → Store
store_of r = record {
  runs = ("run:1", r) ∷ [];
  tasks = [];
  admissions = [];
  outbox = empty_outbox;
  clock_reads = 0;
  drawn = 0;
}

-- A run that is created, begins its admission and is cancelled.
abbrev pub first_commands : List Command
first_commands =
    Command.create_run input ∷ Command.begin_admission "run:" none ∷ Command.cancel "run:" none ∷ []
