-- ===== src/Runtime/Turn.antt =====
-- The turns of runs and their registry in memory (src/ueaf/runtime/turn.py). The errors are messages.
pub mod Log
use agent_ueaf.Common.{
  ℕ, String, Bool, not, Option, none, some, List, [], ◌∷◌, ◌++◌, ltb, str_eq, is_some,
  if◌then◌else◌, Dict.Dict, Dict.lookup, Dict.insert,
}
use agent_ueaf.Common.Exec.{ok, err, Exec}
use agent_ueaf.Contract.{ContractMeta}

pub data TurnOutcome : Type 0 where
  final_response tool_intents handoff need_input refusal no_progress : TurnOutcome

pub data StopReason : Type 0 where
  stop length tool_calls content_filter : StopReason

pub record TurnRecord : Type 0 where
  pub meta : ContractMeta
  pub turn_id : String
  pub run_id : String
  pub turn_no : ℕ
  pub context_manifest_ref : String
  pub prompt_contract_ref : String
  pub output_schema_ref : String
  pub model_route_ref : String
  pub model_invocation_ref : String
  pub model_run_result_ref : Option String
  pub structured_decision_ref : Option String
  pub tool_intent_refs : List String
  pub outcome : Option TurnOutcome
  pub stop_reason : Option StopReason
  pub usage_tokens : ℕ
  pub created_at : Option ℕ

-- `TurnRecord.__post_init__`
unfoldable pub validate_turn : TurnRecord → Option String
validate_turn t =
    if not (str_eq t.turn_id t.meta.object_id)
    then some "TurnRecord.meta.object_id must equal turn_id"
    else if ltb t.turn_no 1
    then some "TurnRecord.turn_no must be >= 1"
    else none

-- `InMemoryTurnRegistry`
pub record TurnRegistry : Type 0 where
  pub turns : Dict TurnRecord
  pub by_run : Dict (List TurnRecord)

abbrev pub empty_registry : TurnRegistry
empty_registry = record { turns = []; by_run = [] }

abbrev pub or_none : Option (List TurnRecord) → List TurnRecord
or_none none = []
or_none (some ts) = ts

-- `for_run`
unfoldable pub for_run : String → TurnRegistry → List TurnRecord
for_run run_id g = or_none (lookup run_id g.by_run)

-- `get`
unfoldable pub get : String → TurnRegistry → Option TurnRecord
get turn_id g = lookup turn_id g.turns

-- `add`; `setdefault` and the append leave the run's list with the turn at its end.
unfoldable pub add : TurnRecord → Exec TurnRegistry String TurnRecord
add t g = if is_some (lookup t.turn_id g.turns) then (err "TurnRecord already exists", g) else (
  ok t,
  record g {
    turns = insert t.turn_id t g.turns;
    by_run = insert t.run_id (or_none (lookup t.run_id g.by_run) ++ t ∷ []) g.by_run;
  },
)
