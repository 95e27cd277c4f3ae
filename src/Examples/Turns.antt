-- ===== src/Examples/Turns.antt =====
-- Three turns, two of them under one id (src/ueaf/runtime/turn.py).
use agent_ueaf.Common.{ℕ, String, none, List, [], ◌∷◌}
use agent_ueaf.Contract.{new_meta}
use agent_ueaf.Runtime.Turn.{TurnRecord, empty_registry}
use agent_ueaf.Runtime.Turn.Log.{add_all, log_all, Refines, add_all-Refines}

abbrev turn : String → String → ℕ → TurnRecord
turn turn_id run_id n = record {
  meta = new_meta "TurnRecord" turn_id "tenant" 5 "desk" "1.0.0";
  turn_id = turn_id;
  run_id = run_id;
  turn_no = n;
  context_manifest_ref = "context:1";
  prompt_contract_ref = "prompt:1";
  output_schema_ref = "schema:1";
  model_route_ref = "route:1";
  model_invocation_ref = "invocation:1";
  model_run_result_ref = none;
  structured_decision_ref = none;
  tool_intent_refs = [];
  outcome = none;
  stop_reason = none;
  usage_tokens = 0;
  created_at = none;
}

abbrev turns : List TurnRecord
turns = turn "turn:1" "run:1" 1 ∷ turn "turn:1" "run:2" 1 ∷ turn "turn:2" "run:1" 2 ∷ []

add_all-Refines_example : Refines (add_all turns empty_registry) (log_all turns [])
add_all-Refines_example = add_all-Refines turns
