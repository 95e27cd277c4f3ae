-- ===== src/Runtime/Outbox/Sound.antt =====
-- The outbox registers each entry once and marks only what it holds.
use agent_ueaf.Common.{
  String, ◌≡◌, refl, sym, ap, ◌∙◌, subst, true, false, ◌||◌, not, ◌&&◌, List, [], ◌∷◌, ◌++◌, map,
  arith, All, str_eq, Bool_cases, inl, inr, eq_iff, eq_refl,
}
use agent_ueaf.Runtime.Phase.{value_error}
use mathlib.Core.List.{map-append}
use agent_ueaf.Common.Exec.{ok, err}
use agent_ueaf.Common.Sets.{member, add, Distinct, member-add, member-snoc, Distinct-snoc}
use agent_ueaf.Runtime.Outbox.{
  Outbox, OutboxEntry, empty_outbox, append, mark_published, keep_unpublished, unpublished,
}

abbrev pub ids : List OutboxEntry → List String
ids = map (λ e. e.event_id)

pub record IsSound (o : Outbox) : Type 0 where
  pub registered : (x : String) → member x o.by_event_id ≡ member x (ids o.entries)
  pub distinct : Distinct (ids o.entries)
  pub held : (x : String) → member x o.published ≡ true → member x o.by_event_id ≡ true

pub empty_outbox-IsSound : IsSound empty_outbox
unfolding member
empty_outbox-IsSound = record { registered = λ x. refl; distinct = tt; held = λ x h. cc }

ids-snoc :
    (es : List OutboxEntry) (e : OutboxEntry) → ids (es ++ e ∷ []) ≡ ids es ++ e.event_id ∷ []
ids-snoc es e = map-append _ es (e ∷ [])

-- The outbox after `append` accepts the entry.
abbrev pub with_entry : OutboxEntry → Outbox → Outbox
with_entry e o = record o {
  entries = o.entries ++ e ∷ [];
  by_event_id = add e.event_id o.by_event_id;
}

pub append-ok :
    (e : OutboxEntry) (o o' : Outbox)
    → append e o ≡ ok o'
    → (member e.event_id o.by_event_id ≡ false) × (with_entry e o ≡ o')
unfolding append
append-ok e o o' h = ground arith

with_entry-IsSound :
    (e : OutboxEntry) (o : Outbox)
    → member e.event_id o.by_event_id ≡ false
    → IsSound o
    → IsSound (with_entry e o)
with_entry-IsSound e o new s = record {
  registered = λ x.
      rw (member-add, ids-snoc, member-snoc) (ap (λ b. str_eq e.event_id x || b) (s.registered x));
  distinct = rw ids-snoc (Distinct-snoc _ _ s.distinct (sym (s.registered e.event_id) ∙ new));
  held = λ x h. rw member-add (ground (arith, s.held x h));
}

refused :
    (e : OutboxEntry) (o : Outbox)
    → append e (with_entry e o) ≡ err (value_error "duplicate outbox event_id")
unfolding append
refused e o = simp (member-add, eq_refl)

-- Where `append` takes an entry into a sound outbox, the outbox stays sound, and it refuses to take
-- the same entry a second time.
pub append-IsSound :
    (e : OutboxEntry) (o o' : Outbox)
    → append e o ≡ ok o'
    → IsSound o
    → IsSound o' × (append e o' ≡ err (value_error "duplicate outbox event_id"))
append-IsSound e o o' h s =
    let (new, eq) = append-ok e o o' h in
    (
      subst IsSound eq (with_entry-IsSound e o new s),
      subst (λ t. append e t ≡ err (value_error "duplicate outbox event_id")) eq (refused e o),
    )

-- `mark_published` marks the id, keeps the marks that there are, and adds no other.
pub mark_published_lem :
    (x : String) (o o' : Outbox)
    → mark_published x o ≡ ok o'
    → (member x o.by_event_id ≡ true)
      × (o'.entries ≡ o.entries)
      × (o'.by_event_id ≡ o.by_event_id)
      × ((y : String) → member y o'.published ≡ (str_eq x y || member y o.published))
unfolding mark_published
mark_published_lem x o o' h =
    (ground arith, ground arith, ground arith, λ y. ground (arith, member-add y x o.published))

-- Where `mark_published` marks an id in a sound outbox, the outbox stays sound: what is marked is
-- held.
mark_published-IsSound :
    (x : String) (o o' : Outbox) → mark_published x o ≡ ok o' → IsSound o → IsSound o'
mark_published-IsSound x o o' h s =
    let (known, es, bs, ps) = mark_published_lem x o o' h in
    record {
      registered = λ y. rw (es, bs) (s.registered y);
      distinct = rw es s.distinct;
      held = λ y m. rw bs (ground (arith, ps y, s.held y, eq_iff x y));
    }

-- What is waiting: the ids that are held and not marked.
member-keep_unpublished :
    (x : String) (done : List String) (es : List OutboxEntry)
    → member x (ids (keep_unpublished done es)) ≡ (member x (ids es) && not (member x done))
unfolding keep_unpublished member
member-keep_unpublished x done [] = refl
member-keep_unpublished x done (e ∷ es) =
    ground (arith, member-keep_unpublished x done es, eq_iff e.event_id x)

pub member-unpublished :
    (x : String) (o : Outbox)
    → member x (ids (unpublished o)) ≡ (member x (ids o.entries) && not (member x o.published))
unfolding unpublished
member-unpublished x o = member-keep_unpublished x o.published o.entries

Distinct-keep_unpublished :
    (done : List String) (es : List OutboxEntry)
    → Distinct (ids es)
    → Distinct (ids (keep_unpublished done es))
unfolding keep_unpublished
Distinct-keep_unpublished done [] d = tt
Distinct-keep_unpublished done (e ∷ es) d = elim (Bool_cases (member e.event_id done)) [
  | inl h ↦ rw h (Distinct-keep_unpublished done es d.1)
  | inr h ↦ rw h (
    ground (arith, member-keep_unpublished e.event_id done es),
    Distinct-keep_unpublished done es d.1,
  )
]

pub Distinct-unpublished : (o : Outbox) → IsSound o → Distinct (ids (unpublished o))
unfolding unpublished
Distinct-unpublished o s = Distinct-keep_unpublished o.published o.entries s.distinct

All-keep_unpublished :
    (P : OutboxEntry → Type 0) (done : List String) (es : List OutboxEntry)
    → All P es
    → All P (keep_unpublished done es)
unfolding keep_unpublished
All-keep_unpublished P done [] h = tt
All-keep_unpublished P done (e ∷ es) h = elim (Bool_cases (member e.event_id done)) [
  | inl m ↦ rw m (All-keep_unpublished P done es h.1)
  | inr m ↦ rw m (h.0, All-keep_unpublished P done es h.1)
]

pub All-unpublished :
    (P : OutboxEntry → Type 0) (o : Outbox) → All P o.entries → All P (unpublished o)
unfolding unpublished
All-unpublished P o h = All-keep_unpublished P o.published o.entries h

keep_unpublished-nil :
    (done : List String) (es : List OutboxEntry)
    → ((x : String) → member x (ids es) ≡ true → member x done ≡ true)
    → keep_unpublished done es ≡ []
unfolding keep_unpublished member
keep_unpublished-nil done [] h = refl
keep_unpublished-nil done (e ∷ es) h =
    rw (h e.event_id (ground (arith, eq_refl e.event_id)))
      (keep_unpublished-nil done es (λ x m. h x (ground arith)))

pub unpublished-nil :
    (o : Outbox)
    → ((x : String) → member x (ids o.entries) ≡ true → member x o.published ≡ true)
    → unpublished o ≡ []
unfolding unpublished
unpublished-nil o h = keep_unpublished-nil o.published o.entries h
