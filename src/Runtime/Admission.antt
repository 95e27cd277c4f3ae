-- ===== src/Runtime/Admission.antt =====
-- The admission of a run as the service composes it (`admit_run` of src/ueaf/api/app.py): the
-- coordinator moves the run, the controller evaluates the record that it moved, and the coordinator
-- applies the result. The principal that the request's body describes is an argument.
pub mod Answered
use agent_ueaf.Common.{
  ℕ, ◌+◌, List, [], ◌∷◌, inl, inr, Option_cases, String, ◌≡◌, ◌≢◌, ◌↔◌, ap, ◌∙◌, false, Option,
  none, some, arith, Dict.Dict, Dict.lookup,
}
use agent_ueaf.Common.Exec.{Result, ok, err, pure, lift, ◌>>=◌, ◌>>◌}
use agent_ueaf.Common.Exec.Rules.{
  bind_cases, Yields, Yields-bind, Yields-then, Yields-lift, Yields-pure, Yields-weaken,
}
use agent_ueaf.Contract.{World}
use agent_ueaf.Admission.Controller.{AdmissionController, evaluate}
use agent_ueaf.Admission.Controller.Admitted.{IsAdmittable, evaluated_admitting}
use agent_ueaf.Admission.Envelopes.{BudgetEnvelope}
use agent_ueaf.Admission.Principal.{PrincipalContext}
use agent_ueaf.Admission.Result.{admitted, deferred, RunAdmissionResult}
use agent_ueaf.Admission.Task.{TaskEnvelope}
use agent_ueaf.Runtime.Phase.{queued, admitting, Error, key_error, validate_transition}
use agent_ueaf.Runtime.Record.{RunRecord, checked, validate_record}
use agent_ueaf.Runtime.Outbox.{Payload, phase_changed, run_phase_changed}
use agent_ueaf.Runtime.Store.{Store, M, read_clock, require, update}
use agent_ueaf.Runtime.Writer.{applied, apply, emit, transition}
use agent_ueaf.Runtime.Coordinator.{begin_admission, apply_admission}

-- The part of `ApiContext` that the admission reads.
pub record ApiContext : Type 0 where
  pub admission : AdmissionController
  pub task_envelopes : Dict TaskEnvelope
  pub budget_envelopes : Dict BudgetEnvelope

-- `d[key]`
abbrev pub found : {V : Type 0} → String → Option V → Result Error V
found key none = err (key_error key)
found key (some v) = ok v

-- `admit_run`
unfoldable pub admit_run :
    World → ApiContext → PrincipalContext → String → Option String → M RunAdmissionResult
admit_run w ctx principal run_id actor_ref = do
  run ← begin_admission w run_id actor_ref
  task ← lift (found run.task_id (lookup run.task_id ctx.task_envelopes))
  budget ← lift (found run.task_id (lookup run.task_id ctx.budget_envelopes))
  moment ← read_clock w
  result ← lift (evaluate ctx.admission run task budget principal moment)
  apply_admission w run_id result actor_ref
  pure result
