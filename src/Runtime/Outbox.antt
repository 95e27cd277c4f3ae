-- ===== src/Runtime/Outbox.antt =====
-- The transactional outbox (src/ueaf/runtime/outbox.py).
pub mod Sound
use agent_ueaf.Common.{ℕ, String, Bool, not, Option, List, [], ◌∷◌, ◌++◌, if◌then◌else◌}
use agent_ueaf.Common.Exec.{Result, ok, err}
use agent_ueaf.Common.Sets.{member, add}
use agent_ueaf.Contract.{Classification}
use agent_ueaf.Runtime.Phase.{
  RunPhase, CompletionDisposition, WaitReason, Error, value_error, key_error,
}

-- The names of the events that the coordinator writes.
pub data EventName : Type 0 where
  run_created run_admitted run_phase_changed run_wait_registered run_resumed : EventName
  run_retry_scheduled run_paused run_terminal_committed : EventName

-- The payload dictionaries, one constructor for each shape; a time stays a number where the code
-- formats it.
pub data Payload : Type 0 where
  created : String → String → String → String → Payload
  admitted_by : String → Option String → Payload
  phase_changed : RunPhase → RunPhase → List String → Payload
  wait_registered : WaitReason → List String → Option ℕ → Payload
  resumed : RunPhase → String → List String → Payload
  retry_scheduled : ℕ → Option ℕ → String → String → Payload
  paused_by : String → List String → Option String → Payload
  terminal_committed : CompletionDisposition → List String → Option String → Option String → Payload

pub record OutboxEntry : Type 0 where
  pub outbox_id : String
  pub event_id : String
  pub event_name : EventName
  pub event_version : String
  pub tenant_id : String
  pub aggregate_type : String
  pub aggregate_id : String
  pub aggregate_version : ℕ
  pub sequence : ℕ
  pub correlation_id : String
  pub trace_id : String
  pub payload_schema_ref : String
  pub payload : Payload
  pub created_at : ℕ
  pub release_id : Option String
  pub principal_ref : Option String
  pub causation_id : Option String
  pub classification : Classification
  pub purpose : List String
  pub integrity_ref : Option String
  pub published_at : Option ℕ
  pub attempt_count : ℕ

-- `InMemoryOutboxStore`
pub record Outbox : Type 0 where
  pub entries : List OutboxEntry
  pub by_event_id : List String
  pub published : List String

abbrev pub empty_outbox : Outbox
empty_outbox = record { entries = []; by_event_id = []; published = [] }

unfoldable pub append : OutboxEntry → Outbox → Result Error Outbox
append entry o =
    if member entry.event_id o.by_event_id
    then err (value_error "duplicate outbox event_id")
    else ok (record o {
      entries = o.entries ++ entry ∷ [];
      by_event_id = add entry.event_id o.by_event_id;
    })

-- `[entry for entry in entries if entry.event_id not in published]`
keep_unpublished : List String → List OutboxEntry → List OutboxEntry
keep_unpublished done [] = []
keep_unpublished done (entry ∷ rest) =
    let later = keep_unpublished done rest in
    if member entry.event_id done then later else entry ∷ later

unfoldable pub unpublished : Outbox → List OutboxEntry
unfolding keep_unpublished
unpublished o = keep_unpublished o.published o.entries

unfoldable pub mark_published : String → Outbox → Result Error Outbox
mark_published event_id o =
    if not (member event_id o.by_event_id)
    then err (key_error "no outbox entry")
    else ok (record o { published = add event_id o.published })

unfoldable pub dedupe_event_id : String → Outbox → Bool
dedupe_event_id event_id o = member event_id o.published

keep_published : List String → List OutboxEntry → List OutboxEntry
keep_published done [] = []
keep_published done (entry ∷ rest) =
    let later = keep_published done rest in
    if member entry.event_id done then entry ∷ later else later

unfoldable pub published_events : Outbox → List OutboxEntry
unfolding keep_published
published_events o = keep_published o.published o.entries
