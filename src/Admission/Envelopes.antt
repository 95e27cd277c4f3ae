-- ===== src/Admission/Envelopes.antt =====
-- The request and the budget of a task (src/ueaf/admission/objects.py). The limits of a budget, which
-- the constructor wants to be 0 or more, are natural numbers here.
use agent_ueaf.Common.{
  ℕ, String, Bool, true, not, ◌&&◌, Option, none, some, List, leb, str_eq, if◌then◌else◌, Dict.Dict,
  Dict.lookup,
}
use agent_ueaf.Contract.{ContractMeta}

pub data ValidationStatus : Type 0 where
  pending accepted rejected : ValidationStatus

pub record RequestEnvelope : Type 0 where
  pub meta : ContractMeta
  pub request_id : String
  pub channel : String
  pub protocol : String
  pub client_correlation_id : String
  pub received_at : ℕ
  pub deadline_at : ℕ
  pub principal_context_ref : String
  pub validation_status : ValidationStatus
  pub input_ref : Option String
  pub reason_codes : List String

-- `RequestEnvelope.__post_init__`
unfoldable pub validate_request : RequestEnvelope → Option String
validate_request r =
    if not (str_eq r.request_id r.meta.object_id)
    then some "RequestEnvelope.meta.object_id must equal request_id"
    else if leb r.deadline_at r.received_at
    then some "RequestEnvelope.deadline_at must be later than received_at"
    else none

pub record BudgetEnvelope : Type 0 where
  pub meta : ContractMeta
  pub budget_id : String
  pub absolute_deadline_at : Option ℕ
  pub max_steps : Option ℕ
  pub max_model_calls : Option ℕ
  pub max_token_budget : Option ℕ
  pub max_cost_millis : Option ℕ
  pub max_tool_calls : Option ℕ
  pub max_parallelism : Option ℕ
  pub reserved_finalize_millis : Option ℕ
  pub unbounded : List String

-- `BudgetEnvelope.__post_init__`
unfoldable pub validate_budget : BudgetEnvelope → Option String
validate_budget b =
    if not (str_eq b.budget_id b.meta.object_id)
    then some "BudgetEnvelope.meta.object_id must equal budget_id"
    else none

-- `used.get(key, 0)`
abbrev pub used_of : String → Dict ℕ → ℕ
used_of key used = elim (lookup key used) [ none ↦ 0 | some n ↦ n ]

-- `limit is None or used.get(key, 0) <= limit`
abbrev pub fits : Dict ℕ → String → Option ℕ → Bool
fits used key none = true
fits used key (some limit) = leb (used_of key used) limit

-- `BudgetEnvelope.within`
unfoldable pub within : BudgetEnvelope → Dict ℕ → Bool
within b used =
    fits used "steps" b.max_steps
    && fits used "model_calls" b.max_model_calls
    && fits used "tokens" b.max_token_budget
    && fits used "cost_millis" b.max_cost_millis
    && fits used "tool_calls" b.max_tool_calls
