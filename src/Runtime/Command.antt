-- ===== src/Runtime/Command.antt =====
-- The commands of `RunCoordinator` (src/ueaf/runtime/coordinator.py) as data, and their execution
-- one after the other: a caller goes on after an exception from the state that it left.
use agent_ueaf.Common.{ℕ, String, Option, List, [], ◌∷◌}
use agent_ueaf.Contract.{World}
use agent_ueaf.Admission.Result.{RunAdmissionResult}
use agent_ueaf.Runtime.Phase.{CompletionDisposition, WaitReason, WaitOrigin}
use agent_ueaf.Runtime.Record.{RunRecord}
use agent_ueaf.Runtime.Store.{Store, M}
use agent_ueaf.Runtime.Writer
use agent_ueaf.Runtime.Coordinator
use agent_ueaf.Runtime.Coordinator.{RunCreateInput}
use agent_ueaf.Runtime.Lifecycle
use agent_ueaf.Runtime.Lifecycle.{ResumePhase}

pub data Command : Type 0 where
  create_run : RunCreateInput → Command
  begin_admission : String → Option String → Command
  apply_admission : String → RunAdmissionResult → Option String → Command
  acquire_lease : String → String → Option String → Command
  heartbeat : String → String → ℕ → Command
  register_wait :
      String → WaitReason → List String → Option ℕ → Option WaitOrigin → Option String → Command
  resume : String → ResumePhase → String → List String → Option String → Command
  schedule_retry : String → String → String → Option ℕ → Option String → Command
  pause : String → List String → Option String → Option String → Command
  cancel : String → Option String → Command
  commit_terminal :
      String
      → CompletionDisposition
      → List String
      → Option String
      → Option String
      → Option String
      → Command

unfoldable pub execute : World → Command → M RunRecord
execute w (create_run input) = Coordinator.create_run w input
execute w (begin_admission k actor) = Coordinator.begin_admission w k actor
execute w (apply_admission k result actor) = Coordinator.apply_admission w k result actor
execute w (acquire_lease k holder actor) = Lifecycle.acquire_lease w k holder actor
execute w (heartbeat k lease token) = Lifecycle.heartbeat w k lease token
execute w (register_wait k reason refs expires origin actor) =
    Writer.register_wait w k reason refs expires origin actor
execute w (resume k to_phase signal refs actor) = Lifecycle.resume w k to_phase signal refs actor
execute w (schedule_retry k failure policy after actor) =
    Lifecycle.schedule_retry w k failure policy after actor
execute w (pause k codes checkpoint actor) = Lifecycle.pause w k codes checkpoint actor
execute w (cancel k actor) = Lifecycle.cancel w k actor
execute w (commit_terminal k disposition codes result error actor) =
    Writer.commit_terminal w k disposition codes result error actor

unfoldable pub run_all : World → List Command → Store → Store
run_all w [] s = s
run_all w (c ∷ cs) s = run_all w cs (execute w c s).1
