-- ===== src/Runtime/Publisher/Drain.antt =====
-- What a drain delivers, and the entries that it never delivers.
use mathlib.Core.List.{append_assoc, append-nil}
use agent_ueaf.Common.{
  ℕ, ◌+◌, ◌≤◌, String, ◌≡◌, refl, ap, ◌∙◌, true, false, ◌||◌, List, [], ◌∷◌, ◌++◌, map, arith,
  eq_iff, eq_refl, length, All, none,
}
use agent_ueaf.Common.Exec.{ok, ◌>>=◌}
use agent_ueaf.Common.Exec.Rules.{Always, bind_cases}
use agent_ueaf.Common.Sets.{member, add, Distinct, member-add}
use agent_ueaf.Contract.{starts_upper}
use agent_ueaf.Runtime.Semver.{is_semver}
use agent_ueaf.Runtime.Outbox.{OutboxEntry, mark_published, unpublished}
use agent_ueaf.Runtime.Outbox.Sound.{
  ids, IsSound, member-unpublished, Distinct-unpublished, All-unpublished, unpublished-nil,
}
use agent_ueaf.Runtime.Publisher.{
  Delivery, validate_envelope, to_envelope, publish, drain_entry, drain_loop, drain,
}

-- The envelope of the entry passes its checks.
pub record IsDeliverable (e : OutboxEntry) : Type 0 where
  pub released : is_semver e.event_version ≡ true
  pub versioned : 1 ≤ e.aggregate_version
  pub sequenced : 1 ≤ e.sequence
  pub typed : starts_upper e.aggregate_type ≡ true

IsDeliverable-valid :
    (producer : String) (now : ℕ) (e : OutboxEntry)
    → IsDeliverable e
    → validate_envelope (to_envelope producer now e) ≡ none
unfolding validate_envelope to_envelope
IsDeliverable-valid producer now e h = ground arith

-- The state after an entry is delivered and marked.
abbrev delivered : ℕ → OutboxEntry → Delivery → Delivery
delivered now e d = record {
  publisher = record d.publisher {
    events = d.publisher.events ++ to_envelope d.publisher.producer now e ∷ [];
    seen = add e.event_id d.publisher.seen;
  };
  outbox = record d.outbox { published = add e.event_id d.outbox.published };
}

abbrev Ready : Delivery → List OutboxEntry → Type 0
Ready d [] = Unit
Ready d (e ∷ es) =
    IsDeliverable e
    × (member e.event_id d.publisher.seen ≡ false)
    × (member e.event_id d.outbox.by_event_id ≡ true)
    × Ready d es

drain_entry_ready :
    (now n : ℕ) (e : OutboxEntry) (d : Delivery)
    → IsDeliverable e
    → member e.event_id d.publisher.seen ≡ false
    → member e.event_id d.outbox.by_event_id ≡ true
    → drain_entry now n e d ≡ (ok (n + 1), delivered now e d)
unfolding drain_entry publish ◌>>=◌ mark_published
drain_entry_ready now n e d h s b = ground (arith, IsDeliverable-valid d.publisher.producer now e h)

Ready-step :
    (now : ℕ) (e : OutboxEntry) (d : Delivery) (es : List OutboxEntry)
    → member e.event_id (ids es) ≡ false
    → Ready d es
    → Ready (delivered now e d) es
unfolding member
Ready-step now e d [] h r = tt
Ready-step now e d (x ∷ es) h r = (
  r.0,
  ground (
    arith,
    member-add x.event_id e.event_id d.publisher.seen,
    eq_iff e.event_id x.event_id,
    eq_iff x.event_id e.event_id,
  ),
  r.2,
  Ready-step now e d es (ground arith) r.3,
)

abbrev deliver_all : ℕ → List OutboxEntry → Delivery → Delivery
deliver_all now [] d = d
deliver_all now (e ∷ es) d = deliver_all now es (delivered now e d)

drain_loop-Ready :
    (now n : ℕ) (es : List OutboxEntry) (d : Delivery)
    → Distinct (ids es)
    → Ready d es
    → drain_loop now n es d ≡ (ok (n + length es), deliver_all now es d)
unfolding drain_loop ◌>>=◌
drain_loop-Ready now n [] d u r = ground arith
drain_loop-Ready now n (e ∷ es) d u r = rw (drain_entry_ready now n e d r.0 r.1 r.2) (
    ground (
      arith,
      drain_loop-Ready now (n + 1) es (delivered now e d) u.1 (Ready-step now e d es u.0 r.3),
    ))

-- The publisher has seen only what the outbox has marked.
abbrev pub InStep : Delivery → Type 0
InStep d = (x : String) → member x d.publisher.seen ≡ true → member x d.outbox.published ≡ true

-- The final state of a drain, in words of the state that it began with.
record Delivers (now : ℕ) (es : List OutboxEntry) (d d' : Delivery) : Type 0 where
  same_entries : d'.outbox.entries ≡ d.outbox.entries
  marks :
      (x : String)
      → member x d'.outbox.published ≡ (member x (ids es) || member x d.outbox.published)
  sees :
      (x : String) → member x d'.publisher.seen ≡ (member x (ids es) || member x d.publisher.seen)
  events : d'.publisher.events ≡ d.publisher.events ++ map (to_envelope d.publisher.producer now) es

deliver_all-Delivers :
    (now : ℕ) (es : List OutboxEntry) (d : Delivery) → Delivers now es d (deliver_all now es d)
unfolding member
deliver_all-Delivers now [] d = record {
  same_entries = refl;
  marks = λ x. refl;
  sees = λ x. refl;
  events = simp append-nil;
}
deliver_all-Delivers now (e ∷ es) d =
    let ih = deliver_all-Delivers now es (delivered now e d) in
    record {
      same_entries = ih.same_entries;
      marks = λ x. ground (arith, ih.marks x, member-add x e.event_id d.outbox.published);
      sees = λ x. ground (arith, ih.sees x, member-add x e.event_id d.publisher.seen);
      events = ih.events ∙ append_assoc d.publisher.events _ _;
    }

Ready-All :
    (d : Delivery) (es : List OutboxEntry)
    → All IsDeliverable es
    → ((x : String)
        → member x (ids es) ≡ true
        → (member x d.publisher.seen ≡ false) × (member x d.outbox.by_event_id ≡ true))
    → Ready d es
unfolding member
Ready-All d [] h k = tt
Ready-All d (e ∷ es) h k =
    let (unseen, known) = k e.event_id (ground (arith, eq_refl e.event_id)) in
    (h.0, unseen, known, Ready-All d es h.1 (λ x m. k x (ground arith)))

module _ (now : ℕ) (d : Delivery) (sound : IsSound d.outbox) (in_step : InStep d)
    (valid : All IsDeliverable d.outbox.entries) where
  waiting-Ready : Ready d (unpublished d.outbox)
  waiting-Ready = Ready-All d (unpublished d.outbox) (All-unpublished _ d.outbox valid) λ x m. (
    ground (arith, in_step x, member-unpublished x d.outbox),
    ground (arith, sound.registered x, member-unpublished x d.outbox),
  )

  drain_runs :
      drain now d ≡ (ok (length (unpublished d.outbox)), deliver_all now (unpublished d.outbox) d)
  unfolding drain
  drain_runs =
      drain_loop-Ready now 0 (unpublished d.outbox) d (Distinct-unpublished d.outbox sound)
        waiting-Ready
      ∙ ground arith

  -- A drain of a sound outbox, where the publisher has seen no id that is not marked and every
  -- entry has an envelope that passes its checks, returns the number of waiting entries, leaves
  -- none waiting, delivers their envelopes in order behind the earlier ones, and leaves the
  -- publisher in step again.
  pub drain_complete :
      ((drain now d).0 ≡ ok (length (unpublished d.outbox)))
      × (unpublished (drain now d).1.outbox ≡ [])
      × ((drain now d).1.publisher.events
          ≡ d.publisher.events ++ map (to_envelope d.publisher.producer now) (unpublished d.outbox))
      × InStep (drain now d).1
  drain_complete =
      let done = deliver_all-Delivers now (unpublished d.outbox) d in
      rw drain_runs (
        refl,
        unpublished-nil _ λ x m. ground (
          arith,
          done.marks x,
          ap (λ es. member x (ids es)) done.same_entries,
          member-unpublished x d.outbox,
        ),
        done.events,
        λ x m. ground (arith, done.marks x, done.sees x, in_step x),
      )

-- An entry that the publisher has seen and the outbox has not marked.
abbrev pub IsStuck : String → Delivery → Type 0
IsStuck x d = (member x d.publisher.seen ≡ true) × (member x d.outbox.published ≡ false)

drain_entry-IsStuck :
    (x : String) (now n : ℕ) (e : OutboxEntry) (d : Delivery)
    → IsStuck x d
    → IsStuck x (drain_entry now n e d).1
unfolding drain_entry publish mark_published ◌>>=◌
drain_entry-IsStuck x now n e d h = ground (
  arith,
  member-add x e.event_id d.publisher.seen,
  member-add x e.event_id d.outbox.published,
  eq_iff e.event_id x,
)

drain_loop-IsStuck :
    (x : String) (now n : ℕ) (es : List OutboxEntry) (d : Delivery)
    → IsStuck x d
    → IsStuck x (drain_loop now n es d).1
unfolding drain_loop ◌>>=◌
drain_loop-IsStuck x now n [] d h = h
drain_loop-IsStuck x now n (e ∷ es) d h =
    bind_cases (Always (IsStuck x)) (drain_entry now n e) (λ k. drain_loop now k es) d
      (λ k _. drain_loop-IsStuck x now k es _ (drain_entry-IsStuck x now n e d h))
      (λ _ _. drain_entry-IsStuck x now n e d h)

-- An entry whose id the publisher has seen while the outbox does not hold it as published, as when
-- a process stops between `publish` and `mark_published`, is still unpublished after every drain.
pub drain-IsStuck :
    (x : String) (now : ℕ) (d : Delivery)
    → IsStuck x d
    → IsStuck x (drain now d).1
      × (member x (ids (unpublished (drain now d).1.outbox))
          ≡ member x (ids (drain now d).1.outbox.entries))
unfolding drain
drain-IsStuck x now d h =
    let still = drain_loop-IsStuck x now 0 (unpublished d.outbox) d h in
    (still, ground (arith, member-unpublished x (drain now d).1.outbox))
