-- ===== src/Runtime/Admission/Answered.antt =====
-- What the composed admission (`admit_run` of src/ueaf/api/app.py) answers, and about which record.
use agent_ueaf.Common.{
  ℕ, ◌+◌, [], ◌∷◌, inl, inr, Option_cases, String, ◌≡◌, ◌≢◌, ◌↔◌, ap, ◌∙◌, false, Option, none,
  some, arith, Dict.lookup,
}
use agent_ueaf.Common.Exec.{ok, pure, lift, ◌>>=◌, ◌>>◌}
use agent_ueaf.Common.Exec.Rules.{
  bind_cases, Yields, Yields-bind, Yields-then, Yields-lift, Yields-pure, Yields-weaken,
}
use agent_ueaf.Contract.{World}
use agent_ueaf.Admission.Controller.{evaluate}
use agent_ueaf.Admission.Controller.Admitted.{IsAdmittable, evaluated_admitting}
use agent_ueaf.Admission.Envelopes.{BudgetEnvelope}
use agent_ueaf.Admission.Principal.{PrincipalContext}
use agent_ueaf.Admission.Result.{admitted, deferred, RunAdmissionResult}
use agent_ueaf.Admission.Task.{TaskEnvelope}
use agent_ueaf.Runtime.Phase.{queued, admitting, validate_transition}
use agent_ueaf.Runtime.Record.{RunRecord, checked, validate_record}
use agent_ueaf.Runtime.Outbox.{Payload, phase_changed, run_phase_changed}
use agent_ueaf.Runtime.Store.{Store, M, read_clock, require, update}
use agent_ueaf.Runtime.Writer.{applied, apply, emit, transition}
use agent_ueaf.Runtime.Coordinator.{begin_admission, apply_admission}
use agent_ueaf.Runtime.Admission.{ApiContext, found, admit_run}

update_yields :
    (r : RunRecord) (expected token : Option ℕ) → Yields (update r expected token) (λ u. u ≡ r)
unfolding update
update_yields r expected token = record {
  when = λ s u h. elim (Option_cases (lookup r.run_id s.runs)) [
    | inl e ↦ absurd (ground (arith, h, e))
    | inr (a, e) ↦ ground (arith, h, e)
  ];
}

checked_same : {A : Type 0} (a : A) (o : Option String) (b : A) → checked a o ≡ ok b → b ≡ a
checked_same a none b h = ground arith
checked_same a (some message) b h = absurd (ground arith)

-- The record a moved to the phase of admission: its next revision, at some moment, without wait.
pub record IsMoved (a run : RunRecord) : Type 0 where
  pub moment : ℕ
  pub moved : run ≡ record a {
    phase = admitting;
    completion_disposition = none;
    wait_reason = none;
    wait_condition_refs = [];
    wait_origin = none;
    revision = a.revision + 1;
    updated_at = some moment;
  }

-- What `transition` does from the look at the record on.
move : World → RunRecord → Payload → Option String → M RunRecord
move w a payload actor_ref = do
  lift (validate_transition a.phase admitting)
  updated ← apply w a admitting false none
  emit w updated run_phase_changed none actor_ref payload
  pure updated

move-IsMoved :
    (w : World) (a : RunRecord) (p : Payload) (actor : Option String)
    → Yields (move w a p actor) (IsMoved a)
unfolding move apply
move-IsMoved w a p actor = Yields-lift (validate_transition a.phase admitting) _ λ _ _.
    Yields-bind _ _
      (Yields-then (read_clock w) _ λ moment.
        Yields-lift
          (checked (applied a admitting false moment)
            (validate_record (applied a admitting false moment)))
          _
          λ u e. Yields-weaken _ (update_yields u none none) λ v h. record {
            moment = moment;
            moved =
                h
                ∙ checked_same (applied a admitting false moment)
                    (validate_record (applied a admitting false moment)) u e;
          })
      λ u h. Yields-then _ _ λ _. Yields-pure u h

required :
    (k : String) (s : Store) (a : RunRecord) → (require k s).0 ≡ ok a → lookup k s.runs ≡ some a
unfolding require
required k s a h = elim (Option_cases (lookup k s.runs)) [
  | inl e ↦ absurd (ground (arith, h, e))
  | inr (b, e) ↦ ground (arith, h, e)
]

begin_admission-IsMoved :
    (w : World) (k : String) (actor : Option String) (s : Store) (run : RunRecord)
    → (begin_admission w k actor s).0 ≡ ok run
    → (a : RunRecord) × (lookup k s.runs ≡ some a) × IsMoved a run
unfolding begin_admission transition move
begin_admission-IsMoved w k actor s run =
    let p = phase_changed queued admitting ("admission_started" ∷ []) in
    bind_cases (λ r _. r ≡ ok run → (a : RunRecord) × (lookup k s.runs ≡ some a) × IsMoved a run)
      (require k) (λ a. move w a p actor) s
      (λ a e h. (a, required k s a e, (move-IsMoved w a p actor).when (require k s).1 run h))
      (λ e _ h. absurd (ground (arith, h)))

-- What `admit_run` does with the record that was moved.
evaluate_moved :
    World
    → ApiContext
    → PrincipalContext
    → String
    → Option String
    → RunRecord
    → M RunAdmissionResult
evaluate_moved w ctx principal run_id actor_ref run = do
  task ← lift (found run.task_id (lookup run.task_id ctx.task_envelopes))
  budget ← lift (found run.task_id (lookup run.task_id ctx.budget_envelopes))
  moment ← read_clock w
  result ← lift (evaluate ctx.admission run task budget principal moment)
  apply_admission w run_id result actor_ref
  pure result

found_some : {V : Type 0} (key : String) (o : Option V) (v : V) → found key o ≡ ok v → o ≡ some v
found_some key none v h = absurd (ground (arith, h))
found_some key (some x) v h = ground (arith, h)

-- The answer for the record that was moved, by the task and the budget of its task id.
pub record IsAnswered (ctx : ApiContext) (principal : PrincipalContext) (run : RunRecord)
    (r : RunAdmissionResult) : Type 0 where
  pub task : TaskEnvelope
  pub budget : BudgetEnvelope
  pub task_found : lookup run.task_id ctx.task_envelopes ≡ some task
  pub budget_found : lookup run.task_id ctx.budget_envelopes ≡ some budget
  pub undeferred : r.outcome ≢ deferred
  pub decided : (r.outcome ≡ admitted) ↔ IsAdmittable ctx.admission run task budget principal

evaluate_moved-IsAnswered :
    (w : World) (ctx : ApiContext) (principal : PrincipalContext) (run_id : String)
    (actor : Option String) (run : RunRecord)
    → run.phase ≡ admitting
    → Yields (evaluate_moved w ctx principal run_id actor run) (IsAnswered ctx principal run)
unfolding evaluate_moved
evaluate_moved-IsAnswered w ctx principal run_id actor run h =
    Yields-lift (found run.task_id (lookup run.task_id ctx.task_envelopes)) _ λ task t.
      Yields-lift (found run.task_id (lookup run.task_id ctx.budget_envelopes)) _ λ budget b.
        Yields-then (read_clock w) _ λ moment.
          Yields-lift (evaluate ctx.admission run task budget principal moment) _ λ r e.
            Yields-then (apply_admission w run_id r actor) _ λ _. Yields-pure r (
              let (n, k) =
                evaluated_admitting ctx.admission run moment task budget principal r e h in
              record {
                task = task;
                budget = budget;
                task_found = found_some run.task_id _ task t;
                budget_found = found_some run.task_id _ budget b;
                undeferred = n;
                decided = k;
              })

-- Where the composed admission answers, the run was stored, `begin_admission` has moved its record to
-- the phase of admission, and the answer is about that record, with the task and the budget that are
-- kept for its task id: it is never that the run is deferred, and it is admitted exactly when the
-- moved record passes the five checks, whether there is capacity or not.
pub admit_run-IsAnswered :
    (w : World) (ctx : ApiContext) (principal : PrincipalContext) (run_id : String)
    (actor : Option String) (s : Store) (r : RunAdmissionResult)
    → (admit_run w ctx principal run_id actor s).0 ≡ ok r
    → (a run : RunRecord) × (lookup run_id s.runs ≡ some a)
      × ((begin_admission w run_id actor s).0 ≡ ok run)
      × IsMoved a run
      × IsAnswered ctx principal run r
unfolding admit_run evaluate_moved
admit_run-IsAnswered w ctx principal run_id actor s r =
    bind_cases
      (λ x _.
        x ≡ ok r
        → (a run : RunRecord) × (lookup run_id s.runs ≡ some a)
          × ((begin_admission w run_id actor s).0 ≡ ok run)
          × IsMoved a run
          × IsAnswered ctx principal run r)
      (begin_admission w run_id actor) (evaluate_moved w ctx principal run_id actor) s
      (λ run e h.
        let (a, stored, moves) = begin_admission-IsMoved w run_id actor s run e in
        (
          a,
          run,
          stored,
          e,
          moves,
          (evaluate_moved-IsAnswered w ctx principal run_id actor run
                (ap (λ x. x.phase) moves.moved)).when
              (begin_admission w run_id actor s).1 r h,
        ))
      (λ e _ h. absurd (ground (arith, h)))
