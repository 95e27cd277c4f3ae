-- ===== src/Memory/Store/Revoked.antt =====
-- What the revocation of a consent leaves (src/ueaf/memory/service.py, `revoke_consent`).
use agent_ueaf.Common.{
  String, ◌+◌, ◌≡◌, ◌↔◌, refl, sym, subst, ◌∙◌, Bool, true, false, ◌&&◌, Option, none, some, List,
  [], ◌∷◌, arith, All, inl, inr, Bool_cases, if_cases, str_eq, eq_iff, eq_refl, Dict.Dict,
  Dict.lookup,
}
use agent_ueaf.Common.Exec.{ok, ◌>>=◌}
use agent_ueaf.Common.Sets.{member, Distinct}
use agent_ueaf.Memory.Objects.{
  MemoryRecord, MemoryStatus, active, deleted, is_active, validate_record,
}
use agent_ueaf.Memory.Store.{affected, is_ref, revoke_consent}
use agent_ueaf.Memory.Store.Loop.{ids, Stands, revoke_all_lem}

-- What the store's methods keep: no id has two records, and each stands under its own and passes its
-- checks.
abbrev pub keys : {N : Type 0} → Dict (MemoryRecord N) → List String
keys [] = []
keys ((k, r) ∷ d) = k ∷ keys d

pub record IsKept {N : Type 0} (in_unit : N → Bool) (d : Dict (MemoryRecord N)) : Type 0 where
  pub distinct : Distinct (keys d)
  pub keyed : All (λ e. (e.0 ≡ e.1.record_id) × (validate_record in_unit e.1 ≡ none)) d

module _ {N : Type 0} (in_unit : N → Bool) (consent : String) where
  abbrev Keyed : Dict (MemoryRecord N) → Type 0
  Keyed d = All (λ e. (e.0 ≡ e.1.record_id) × (validate_record in_unit e.1 ≡ none)) d

  affected_among :
      (c : String) (d : Dict (MemoryRecord N))
      → Keyed d
      → member c (keys d) ≡ false
      → member c (ids (affected consent d)) ≡ false
  unfolding affected member
  affected_among c [] h k = refl
  affected_among c ((j, r) ∷ d) h k = ground (arith, h.0.0, affected_among c d h.1)

  affected-Distinct :
      (d : Dict (MemoryRecord N))
      → Keyed d
      → Distinct (keys d)
      → Distinct (ids (affected consent d))
  unfolding affected
  affected-Distinct [] h k = tt
  affected-Distinct ((j, r) ∷ d) h k =
      ground (arith, h.0.0, affected_among r.record_id d h.1, affected-Distinct d h.1 k.1)

  Stands-cons :
      (j : String) (r : MemoryRecord N) (d : Dict (MemoryRecord N)) (xs : List (MemoryRecord N))
      → member j (ids xs) ≡ false
      → Stands in_unit d xs
      → Stands in_unit ((j, r) ∷ d) xs
  unfolding lookup member
  Stands-cons j r d [] out h = tt
  Stands-cons j r d (x ∷ xs) out h = (
    (ground (arith, out, h.0.0, eq_iff x.record_id j, eq_iff j x.record_id), h.0.1),
    Stands-cons j r d xs (ground (arith, out)) h.1,
  )

  affected-Stands :
      (d : Dict (MemoryRecord N))
      → Keyed d
      → Distinct (keys d)
      → Stands in_unit d (affected consent d)
  unfolding affected lookup
  affected-Stands [] h k = tt
  affected-Stands ((j, r) ∷ d) h k =
      let rest =
        Stands-cons j r d (affected consent d) (affected_among j d h.1 k.0)
          (affected-Stands d h.1 k.1) in
      if_cases (Stands in_unit ((j, r) ∷ d)) (is_ref r.consent_ref consent && is_active r.status)
        (r ∷ affected consent d) (affected consent d)
        (λ _. ((ground (arith, h.0.0, eq_iff j r.record_id), h.0.1), rest)) (λ _. rest)

  affected_complete :
      (ref : String) (r : MemoryRecord N) (d : Dict (MemoryRecord N))
      → Keyed d
      → lookup ref d ≡ some r
      → is_ref r.consent_ref consent ≡ true
      → is_active r.status ≡ true
      → member ref (ids (affected consent d)) ≡ true
  unfolding affected lookup member
  affected_complete ref r [] h e p q = absurd (ground (arith, e))
  affected_complete ref r ((j, x) ∷ d) h e p q = elim (Bool_cases (str_eq j ref)) [
    | inl same ↦
        let own : x ≡ r = ground (arith, e, same) in
        let marked : (is_ref x.consent_ref consent && is_active x.status) ≡ true =
          subst (λ y. (is_ref y.consent_ref consent && is_active y.status) ≡ true) (sym own)
            (ground (arith, p, q)) in
        ground (arith, marked, h.0.0, same, eq_iff j ref, eq_refl ref)
    | inr other ↦ ground (arith, other, e, affected_complete ref r d h.1)
  ]

  -- The record of an id: it is there, active, and under the consent.
  pub record IsCovered (o : Option (MemoryRecord N)) : Type 0 where
    pub found :
        (r : MemoryRecord N) × (o ≡ some r) × (r.consent_ref ≡ some consent) × (r.status ≡ active)

  -- The test that `affected` makes.
  abbrev is_marked : MemoryRecord N → Bool
  is_marked r = is_ref r.consent_ref consent && is_active r.status

  is_ref_iff : (o : Option String) → (is_ref o consent ≡ true) ↔ (o ≡ some consent)
  is_ref_iff none = (λ h. absurd (ground arith), λ h. absurd (ground arith))
  is_ref_iff (some c) = ground (arith, eq_iff c consent)

  is_active_iff : (o : MemoryStatus) → (is_active o ≡ true) ↔ (o ≡ active)
  is_active_iff o = ground arith

  affected_marked : (d : Dict (MemoryRecord N)) → All (λ r. is_marked r ≡ true) (affected consent d)
  unfolding affected
  affected_marked [] = tt
  affected_marked ((j, r) ∷ d) =
      if_cases (All (λ x. is_marked x ≡ true)) (is_marked r) (r ∷ affected consent d)
        (affected consent d) (λ e. (e, affected_marked d)) (λ _. affected_marked d)

  marked_of :
      (ref : String) (d : Dict (MemoryRecord N)) (rs : List (MemoryRecord N))
      → member ref (ids rs) ≡ true
      → Stands in_unit d rs
      → All (λ r. is_marked r ≡ true) rs
      → (r : MemoryRecord N) × (lookup ref d ≡ some r) × (is_marked r ≡ true)
  unfolding member
  marked_of ref d [] h a m = absurd (ground (arith, h))
  marked_of ref d (r ∷ rs) h a m = elim (Bool_cases (str_eq r.record_id ref)) [
    | inl same ↦ (r, subst (λ x. lookup x d ≡ some r) ((eq_iff r.record_id ref).0 same) a.0.0, m.0)
    | inr other ↦ marked_of ref d rs (ground (arith, h, other)) a.1 m.1
  ]

  affected_iff :
      (ref : String) (d : Dict (MemoryRecord N))
      → IsKept in_unit d
      → (member ref (ids (affected consent d)) ≡ true) ↔ IsCovered (lookup ref d)
  affected_iff ref d kept = (
    λ h.
        let (r, found, marked) =
          marked_of ref d (affected consent d) h (affected-Stands d kept.keyed kept.distinct)
            (affected_marked d) in
        record {
          found = (
            r,
            found,
            (is_ref_iff r.consent_ref).0 (ground (arith, marked)),
            (is_active_iff r.status).0 (ground (arith, marked)),
          );
        },
    λ h.
        let (r, found, consented, live) = h.found in
        affected_complete ref r d kept.keyed found ((is_ref_iff r.consent_ref).1 consented)
          ((is_active_iff r.status).1 live),
  )

  -- In a store where no id has two records and each record stands under its own id and passes its
  -- checks, `revoke_consent` raises nothing and returns, each once, the ids of the active records of
  -- the consent; these become deleted for the reason given, at their next revision, and every other
  -- record is as it was.
  pub revoke_consent_lem :
      (reason : String) (d : Dict (MemoryRecord N))
      → IsKept in_unit d
      → let (res, e) = revoke_consent in_unit consent reason d in
        (names : List String) × (res ≡ ok names)
        × Distinct names
        × ((ref : String) → (member ref names ≡ true) ↔ IsCovered (lookup ref d))
        × ((ref : String) (r : MemoryRecord N)
            → lookup ref d ≡ some r
            → r.consent_ref ≡ some consent
            → r.status ≡ active
            → lookup ref e
              ≡ some (record r {
                status = deleted;
                deletion_state = some reason;
                revision = r.revision + 1;
              }))
        × ((ref : String) → ¬ IsCovered (lookup ref d) → lookup ref e ≡ lookup ref d)
  unfolding revoke_consent ◌>>=◌
  revoke_consent_lem reason d kept =
      let distinct = affected-Distinct d kept.keyed kept.distinct in
      let (done, left) =
        revoke_all_lem in_unit reason (affected consent d) d
          (affected-Stands d kept.keyed kept.distinct) distinct in
      (
        ids (affected consent d),
        done,
        distinct,
        λ ref. affected_iff ref d kept,
        λ ref r found consented live.
            let inside =
              (affected_iff ref d kept).1 (record { found = (r, found, consented, live) }) in
            left ref ∙ rw (inside, found) refl,
        λ ref uncovered. elim (Bool_cases (member ref (ids (affected consent d)))) [
          | inl inside ↦ absurd (uncovered ((affected_iff ref d kept).0 inside))
          | inr outside ↦ left ref ∙ rw outside refl
        ],
      )
