-- ===== src/Runtime/Reachable.antt =====
-- The stores that a coordinator reaches from an empty one (src/ueaf/runtime/coordinator.py), and
-- what the publisher makes of their outbox.
use agent_ueaf.Common.{
  ℕ, String, ◌≡◌, refl, sym, subst, true, none, some, List, [], ◌∷◌, map, length, All, arith,
  Dict.lookup,
}
use agent_ueaf.Common.Exec.{ok}
use agent_ueaf.Common.Sets.{member, Distinct}
use agent_ueaf.Contract.{World, starts_upper}
use agent_ueaf.Runtime.Phase.{terminal}
use agent_ueaf.Runtime.Record.{RunRecord}
use agent_ueaf.Runtime.Record.Facts.{IsConsistent, validate_record_sound}
use agent_ueaf.Runtime.Outbox.{OutboxEntry, empty_outbox, unpublished}
use agent_ueaf.Runtime.Outbox.Sound.{ids, empty_outbox-IsSound, Distinct-unpublished}
use agent_ueaf.Runtime.Semver.{is_semver, constant_version}
use agent_ueaf.Runtime.Store.{Store}
use agent_ueaf.Runtime.Command.{Command, run_all}
use agent_ueaf.Runtime.Evolution.Rules.{IsKept}
use agent_ueaf.Runtime.Evolution.History.{run_all-IsKept}
use agent_ueaf.Runtime.Events.Rules.{IsRunEvent, HasEvents}
use agent_ueaf.Runtime.Events.Execute.{run_all-HasEvents}
use agent_ueaf.Runtime.Publisher.{Delivery, to_envelope, drain}
use agent_ueaf.Runtime.Publisher.Drain.{IsDeliverable, drain_complete}

abbrev pub empty_store : Store
empty_store = record {
  runs = [];
  tasks = [];
  admissions = [];
  outbox = empty_outbox;
  clock_reads = 0;
  drawn = 0;
}

nothing_stored : (k : String) {r : RunRecord} → lookup k empty_store.runs ≡ some r → ⊥
unfolding lookup
nothing_stored k f = cc

pub empty_store-IsKept : IsKept empty_store.runs
empty_store-IsKept = record {
  own_id = λ k r f. absurd (nothing_stored k f);
  released = λ k r f. absurd (nothing_stored k f);
  valid = λ k r f. absurd (nothing_stored k f);
}

empty_store-HasEvents : HasEvents empty_store
empty_store-HasEvents = record {
  sound = empty_outbox-IsSound;
  events = tt;
  records = λ k r f. absurd (nothing_stored k f);
}

-- A run event passes the checks of its envelope.
IsRunEvent-IsDeliverable : (e : OutboxEntry) → IsRunEvent e → IsDeliverable e
unfolding starts_upper
IsRunEvent-IsDeliverable e h = record {
  released = subst (λ t. is_semver t ≡ true) (sym h.released) constant_version;
  versioned = h.versioned;
  sequenced = omega (arith, h.sequenced);
  typed = subst (λ t. starts_upper t ≡ true) (sym h.typed) refl;
}

All-IsDeliverable : (es : List OutboxEntry) → All IsRunEvent es → All IsDeliverable es
All-IsDeliverable [] h = tt
All-IsDeliverable (e ∷ es) h = (IsRunEvent-IsDeliverable e h.0, All-IsDeliverable es h.1)

All-sequence : (es : List OutboxEntry) → All IsRunEvent es → All (λ e. e.sequence ≡ 1) es
All-sequence [] h = tt
All-sequence (e ∷ es) h = (h.0.sequenced, All-sequence es h.1)

module _ (w : World) (cs : List Command) where
  -- Whatever commands were run from an empty store, each record that is found stands under its own
  -- id, is consistent in phase, disposition, wait, lease and counters, and has no lease once it is
  -- terminal.
  pub reachable_IsConsistent :
      (k : String) (r : RunRecord)
      → lookup k (run_all w cs empty_store).runs ≡ some r
      → IsConsistent r × (r.run_id ≡ k) × (r.phase ≡ terminal → r.lease ≡ none)
  reachable_IsConsistent k r f =
      let h = run_all-IsKept w cs empty_store empty_store-IsKept in
      (validate_record_sound r (h.valid k r f), h.own_id k r f, h.released k r f)

  -- Whatever commands were run from an empty store, every event in the outbox carries the sequence
  -- number 1 and every record the sequence 0, however many events a run has.
  pub reachable_sequence :
      All (λ e. e.sequence ≡ 1) (run_all w cs empty_store).outbox.entries
      × ((k : String) (r : RunRecord)
          → lookup k (run_all w cs empty_store).runs ≡ some r
          → r.sequence ≡ 0)
  reachable_sequence =
      let h = run_all-HasEvents w cs empty_store empty_store-HasEvents in
      (All-sequence _ h.events, λ k r f. (h.records k r f).sequenced)

  -- Whatever commands were run from an empty store, a new publisher delivers the waiting events,
  -- each once and in order: the drain raises nothing, returns their number, leaves none waiting,
  -- and the ids of the events are distinct.
  pub reachable_drain :
      (now : ℕ) (producer : String)
      → let o = (run_all w cs empty_store).outbox in
        let d : Delivery = record {
          publisher = record { producer = producer; events = []; seen = [] };
          outbox = o;
        } in
        ((drain now d).0 ≡ ok (length (unpublished o)))
        × (unpublished (drain now d).1.outbox ≡ [])
        × ((drain now d).1.publisher.events ≡ map (to_envelope producer now) (unpublished o))
        × Distinct (ids (unpublished o))
  unfolding member
  reachable_drain now producer =
      let h = run_all-HasEvents w cs empty_store empty_store-HasEvents in
      let d : Delivery = record {
        publisher = record { producer = producer; events = []; seen = [] };
        outbox = (run_all w cs empty_store).outbox;
      } in
      let (count, none_left, delivered, _) =
        drain_complete now d h.sound (λ x m. cc) (All-IsDeliverable _ h.events) in
      (count, none_left, delivered, Distinct-unpublished d.outbox h.sound)
