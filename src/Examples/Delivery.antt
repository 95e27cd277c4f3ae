-- ===== src/Examples/Delivery.antt =====
-- The theorems on the outbox and its publisher (src/ueaf/runtime/outbox.py and
-- src/ueaf/infrastructure/queue/publisher.py), applied.
use agent_ueaf.Common.{◌≡◌, refl, none, some, [], ◌∷◌, ◌++◌, map, length, All, arith}
use agent_ueaf.Common.Exec.{ok}
use agent_ueaf.Common.Sets.{member}
use agent_ueaf.Contract.{internal, starts_upper}
use agent_ueaf.Runtime.Outbox.{
  OutboxEntry, Outbox, empty_outbox, append, unpublished, run_created, created,
}
use agent_ueaf.Runtime.Outbox.Sound.{ids, IsSound, append-IsSound, empty_outbox-IsSound, with_entry}
use agent_ueaf.Runtime.Semver.{constant_version}
use agent_ueaf.Runtime.Publisher.{Delivery, to_envelope, drain}
use agent_ueaf.Runtime.Publisher.Drain.{
  IsDeliverable, InStep, drain_complete, IsStuck, drain-IsStuck,
}

abbrev entry : OutboxEntry
entry = record {
  outbox_id = "outbox:1";
  event_id = "event:1";
  event_name = run_created;
  event_version = "1.0.0";
  tenant_id = "tenant";
  aggregate_type = "Run";
  aggregate_id = "run:1";
  aggregate_version = 1;
  sequence = 1;
  correlation_id = "run:1";
  trace_id = "trace:1";
  payload_schema_ref = "schema:1";
  payload = created "run:1" "task:1" "release:1" "adapter:1";
  created_at = 7;
  release_id = some "release:1";
  principal_ref = none;
  causation_id = none;
  classification = internal;
  purpose = [];
  integrity_ref = none;
  published_at = none;
  attempt_count = 0;
}

abbrev filled : Outbox
filled = with_entry entry empty_outbox

filled-IsSound : IsSound filled
unfolding append member
filled-IsSound = (append-IsSound entry empty_outbox filled refl empty_outbox-IsSound).0

abbrev fresh : Delivery
fresh = record { publisher = record { producer = "ueaf"; events = []; seen = [] }; outbox = filled }

fresh-InStep : InStep fresh
unfolding member
fresh-InStep x m = cc

filled-IsDeliverable : All IsDeliverable filled.entries
unfolding starts_upper
filled-IsDeliverable = (
  record {
    released = constant_version;
    versioned = omega arith;
    sequenced = omega arith;
    typed = refl;
  },
  tt,
)

drain_complete_example :
    ((drain 9 fresh).0 ≡ ok (length (unpublished filled)))
    × (unpublished (drain 9 fresh).1.outbox ≡ [])
    × ((drain 9 fresh).1.publisher.events ≡ [] ++ map (to_envelope "ueaf" 9) (unpublished filled))
    × InStep (drain 9 fresh).1
drain_complete_example = drain_complete 9 fresh filled-IsSound fresh-InStep filled-IsDeliverable

-- The publisher has delivered the entry, and the process stopped before it was marked.
abbrev interrupted : Delivery
interrupted = record {
  publisher = record {
    producer = "ueaf";
    events = to_envelope "ueaf" 8 entry ∷ [];
    seen = "event:1" ∷ [];
  };
  outbox = filled;
}

drain-IsStuck_example :
    IsStuck "event:1" (drain 9 interrupted).1
    × (member "event:1" (ids (unpublished (drain 9 interrupted).1.outbox))
        ≡ member "event:1" (ids (drain 9 interrupted).1.outbox.entries))
unfolding member
drain-IsStuck_example = drain-IsStuck "event:1" 9 interrupted (refl, refl)

abbrev drained : Outbox
drained = record filled { published = "event:1" ∷ [] }
