-- ===== src/Runtime/Publisher.antt =====
-- The local publisher of outbox entries (src/ueaf/infrastructure/queue/publisher.py), with the
-- checks of the envelope that it builds (src/ueaf/common/envelope.py) and the event bus of
-- src/ueaf/runtime/outbox.py.
pub mod Drain
use agent_ueaf.Common.{
  ℕ, zero, suc, ◌+◌, String, Bool, true, false, not, Option, none, some, List, [], ◌∷◌, ◌++◌, ltb,
  if◌then◌else◌,
}
use agent_ueaf.Common.Exec.{Result, ok, err, Exec, pure, ◌>>=◌, ◌>>◌}
use agent_ueaf.Common.Sets.{member, add}
use agent_ueaf.Contract.{Classification, starts_upper}
use agent_ueaf.Runtime.Phase.{Error, value_error}
use agent_ueaf.Runtime.Outbox
use agent_ueaf.Runtime.Semver.{is_semver}
use agent_ueaf.Runtime.Outbox.{OutboxEntry, Outbox, EventName, Payload, unpublished}

-- `EventEnvelope`
pub record EventEnvelope : Type 0 where
  pub event_id : String
  pub event_name : EventName
  pub event_version : String
  pub occurred_at : ℕ
  pub recorded_at : ℕ
  pub tenant_id : String
  pub aggregate_type : String
  pub aggregate_id : String
  pub aggregate_version : ℕ
  pub sequence : ℕ
  pub producer : String
  pub producer_version : String
  pub correlation_id : String
  pub trace_id : String
  pub payload_schema_ref : String
  pub payload : Payload
  pub causation_id : Option String
  pub principal_ref : Option String
  pub release_id : Option String
  pub classification : Classification
  pub purpose : List String
  pub integrity_ref : Option String

-- `EventEnvelope.__post_init__`. An `EventName` stands for a name that fits the pattern of names, so
-- that pattern is not matched again.
unfoldable pub validate_envelope : EventEnvelope → Option String
validate_envelope e =
    if not (is_semver e.event_version)
    then some "invalid event_version"
    else if ltb e.aggregate_version 1
    then some "EventEnvelope.aggregate_version must be >= 1"
    else if ltb e.sequence 1
    then some "EventEnvelope.sequence must be >= 1"
    else if starts_upper e.aggregate_type
    then none
    else some "invalid aggregate_type"

abbrev or_now : Option ℕ → ℕ → ℕ
or_now none now = now
or_now (some t) now = t

-- `_to_envelope`, at the reading `now` of the clock
unfoldable pub to_envelope : String → ℕ → OutboxEntry → EventEnvelope
to_envelope producer now entry = record {
  event_id = entry.event_id;
  event_name = entry.event_name;
  event_version = entry.event_version;
  occurred_at = entry.created_at;
  recorded_at = or_now entry.published_at now;
  tenant_id = entry.tenant_id;
  aggregate_type = entry.aggregate_type;
  aggregate_id = entry.aggregate_id;
  aggregate_version = entry.aggregate_version;
  sequence = entry.sequence;
  producer = producer;
  producer_version = "0.1.0";
  correlation_id = entry.correlation_id;
  trace_id = entry.trace_id;
  payload_schema_ref = entry.payload_schema_ref;
  payload = entry.payload;
  causation_id = entry.causation_id;
  principal_ref = entry.principal_ref;
  release_id = entry.release_id;
  classification = entry.classification;
  purpose = entry.purpose;
  integrity_ref = entry.integrity_ref;
}

-- `InMemoryOutboxPublisher` and `InMemoryEventBus`: the envelopes delivered and the ids seen.
pub record Publisher : Type 0 where
  pub producer : String
  pub events : List EventEnvelope
  pub seen : List String

-- The id counts as seen before the envelope is built, so it stays so if its checks raise.
unfoldable pub publish : ℕ → OutboxEntry → Exec Publisher Error Bool
publish now entry p =
    if member entry.event_id p.seen
    then (ok false, p)
    else let p' = record p { seen = add entry.event_id p.seen } in
      let envelope = to_envelope p.producer now entry in
      elim (validate_envelope envelope) [
        | none ↦ (ok true, record p' { events = p.events ++ envelope ∷ [] })
        | some message ↦ (err (value_error message), p')
      ]

-- The publisher and the outbox that it drains.
pub record Delivery : Type 0 where
  pub publisher : Publisher
  pub outbox : Outbox

on_publisher : Exec Publisher Error Bool → Exec Delivery Error Bool
on_publisher m d = let (r, p) = m d.publisher in (r, record d { publisher = p })

on_outbox : Result Error Outbox → Exec Delivery Error (Unit {0})
on_outbox (ok o) d = (ok tt, record d { outbox = o })
on_outbox (err e) d = (err e, d)

mark : String → Exec Delivery Error (Unit {0})
unfolding on_outbox
mark event_id d = on_outbox (Outbox.mark_published event_id d.outbox) d

-- One round of the loop: an entry that the publisher has seen already is passed over.
drain_entry : ℕ → ℕ → OutboxEntry → Exec Delivery Error ℕ
unfolding on_publisher mark
drain_entry now count entry = do
  delivered ← on_publisher (publish now entry)
  if delivered then (do mark entry.event_id; pure (count + 1)) else pure count

drain_loop : ℕ → ℕ → List OutboxEntry → Exec Delivery Error ℕ
drain_loop now count [] = pure count
drain_loop now count (entry ∷ rest) = do
  count' ← drain_entry now count entry
  drain_loop now count' rest

-- `drain`; the loop runs over the entries that were unpublished when it began. The code reads the
-- clock for each envelope; here one reading serves all of them, so envelopes of entries without a
-- publication time agree in `recorded_at`, where those of the code may lie apart.
unfoldable pub drain : ℕ → Exec Delivery Error ℕ
unfolding drain_loop drain_entry
drain now d = drain_loop now 0 (unpublished d.outbox) d
