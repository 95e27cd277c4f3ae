-- ===== src/Tool/Action/Authority.antt =====
-- What the coordinator of actions guarantees about authorisation (src/ueaf/tool/action.py).
use agent_ueaf.Common.{
  ℕ, ◌+◌, ◌≤◌, String, ◌≡◌, ◌⊎◌, ap, sym, Bool, true, Option, none, some, [], is_some, truthy,
  or_text, Dict.lookup, Dict.insert, Dict.lookup-insert_self, arith,
}
use agent_ueaf.Common.Exec.{ok, ◌>>=◌}
use agent_ueaf.Contract.{World}
use agent_ueaf.Security.Policy.{PolicyDecision, allow, deny, require_approval}
use agent_ueaf.Tool.Action.Phase
use agent_ueaf.Tool.Action.Phase.{
  ActionPhase, proposed, validating, authorizing, waiting_approval, reserved, executing,
  reconciling, terminal, ActionDisposition, executed, denied, Error, same_phase,
  validate_transition,
}
use agent_ueaf.Tool.Action.Record.{ActionRecord, validate_action}
use agent_ueaf.Tool.Action.State.{
  Actions, moment_of, read_clock, require, check_fencing, check_deadline, store, transition, finish,
}
use agent_ueaf.Tool.Action.Commands.{
  authorize, settle, begin_execution, renew_lease, retry, reservation,
}

abbrev pub IsInTime : Option ℕ → ℕ → Type 0
IsInTime none t = Unit {0}
IsInTime (some deadline) t = t ≤ deadline

begin_execution_writes :
    (w : World) (a u : ActionRecord) (token : Option ℕ) (t : ℕ) (s s' : Actions)
    → begin_execution w a token (some t) s ≡ (ok u, s')
    → (a.phase ≡ reserved)
      × (u ≡ record a {
        phase = executing;
        lease_fencing_token = token;
        revision = a.revision + 1;
        updated_at = some (w.now s.clock_reads);
      })
      × (is_some (lookup a.action_id s.records) ≡ true)
      × ((presented held : ℕ)
          → token ≡ some presented
          → a.lease_fencing_token ≡ some held
          → held ≤ presented)
      × (s'.records ≡ insert u.action_id u s.records)
unfolding begin_execution require check_fencing moment_of check_deadline validate_transition
    transition store read_clock validate_action ◌>>=◌
begin_execution_writes w a u token t s s' h = ground arith

begin_execution-IsInTime :
    (w : World) (a u : ActionRecord) (token : Option ℕ) (t : ℕ) (s s' : Actions)
    → begin_execution w a token (some t) s ≡ (ok u, s')
    → IsInTime (lookup a.action_id s.deadlines) t
unfolding begin_execution require check_fencing moment_of check_deadline validate_transition
    transition store read_clock validate_action ◌>>=◌
begin_execution-IsInTime w a u token t s s' h = ground arith

-- Where `begin_execution`, called with the moment t, returns a record, the coordinator knows the
-- action, the record given is reserved, its fencing token, if it has one and one is presented, is not
-- above the one presented, t is not past the deadline set for the action, and the record given, in
-- the phase executing with the token presented, at its next revision and the moment read from the
-- clock, all else as it was, is both returned and stored.
pub begin_execution-ok :
    (w : World) (a u : ActionRecord) (token : Option ℕ) (t : ℕ) (s s' : Actions)
    → begin_execution w a token (some t) s ≡ (ok u, s')
    → (a.phase ≡ reserved)
      × (is_some (lookup a.action_id s.records) ≡ true)
      × ((presented held : ℕ)
          → token ≡ some presented
          → a.lease_fencing_token ≡ some held
          → held ≤ presented)
      × IsInTime (lookup a.action_id s.deadlines) t
      × (u ≡ record a {
        phase = executing;
        lease_fencing_token = token;
        revision = a.revision + 1;
        updated_at = some (w.now s.clock_reads);
      })
      × (lookup a.action_id s'.records ≡ some u)
begin_execution-ok w a u token t s s' h =
    let (p, built, k, f, m) = begin_execution_writes w a u token t s s' h in
    let i : u.action_id ≡ a.action_id = ap (λ r. r.action_id) built in
    (
      p,
      k,
      f,
      begin_execution-IsInTime w a u token t s s' h,
      built,
      rw (m, sym i, lookup-insert_self u.action_id u s.records),
    )

-- Where `authorize` returns a record, the record given was validated or waited for an approval, and
-- the record returned names the decision, is at its next revision but one, and stands where the
-- decision's outcome puts it: denied and ended, waiting for the approval that was presented and is
-- not empty, or reserved under the action's own key. It is never executing.
pub authorize-ok :
    (w : World) (a u : ActionRecord) (d : PolicyDecision) (approval : Option String)
    (s s' : Actions)
    → authorize w a d approval s ≡ (ok u, s')
    → ((a.phase ≡ validating) ⊎ (a.phase ≡ waiting_approval))
      × (u.policy_decision_ref ≡ some d.policy_decision_id)
      × (u.revision ≡ a.revision + 2)
      × (d.outcome ≡ deny → (u.phase ≡ terminal) × (u.disposition ≡ some denied))
      × (d.outcome ≡ require_approval
          → (u.phase ≡ waiting_approval)
            × (u.approval_request_ref ≡ approval)
            × (truthy (or_text approval "") ≡ true))
      × (d.outcome ≡ allow
          → (u.phase ≡ reserved) × (u.idempotency_reservation_ref ≡ some (reservation a)))
unfolding authorize settle require validate_transition transition finish store read_clock
    validate_action ◌>>=◌
authorize-ok w a u d approval s s' h = ground arith

-- Where `retry`, called with the moment t, returns a record, the one given had ended as failed, the
-- caller declared it retryable, with budget left and evidence named, t is not past the deadline, and
-- the record returned is reserved for the next attempt at the same side effect, with no receipt.
pub retry-ok :
    (w : World) (a u : ActionRecord) (retryable : Bool) (budget : ℕ) (evidence : String) (t : ℕ)
    (s s' : Actions)
    → retry w a retryable budget evidence (some t) s ≡ (ok u, s')
    → (a.phase ≡ terminal)
      × (a.disposition ≡ some Phase.failed)
      × (retryable ≡ true)
      × (1 ≤ budget)
      × (truthy evidence ≡ true)
      × IsInTime (lookup a.action_id s.deadlines) t
      × (u.phase ≡ reserved)
      × (u.action_key ≡ a.action_key)
      × (u.attempt ≡ a.attempt + 1)
      × (u.receipt_refs ≡ [])
unfolding retry require moment_of check_deadline store read_clock validate_action ◌>>=◌
retry-ok w a u retryable budget evidence t s s' h = ground arith

-- Where `renew_lease` returns a record, the one given was reserved, not executing, and the one
-- returned is executing.
pub renew_lease-ok :
    (w : World) (a u : ActionRecord) (token : ℕ) (now : Option ℕ) (s s' : Actions)
    → renew_lease w a token now s ≡ (ok u, s')
    → (a.phase ≡ reserved) × (u.phase ≡ executing)
unfolding renew_lease require check_fencing moment_of check_deadline validate_transition transition
    store read_clock validate_action ◌>>=◌
renew_lease-ok w a u token now s s' h = ground arith
