-- ===== src/Memory/Store/Loop.antt =====
-- The loop of a revocation over the records it has found (src/ueaf/memory/service.py).
use agent_ueaf.Common.{
  String, ◌≡◌, refl, ap, ◌∙◌, Bool, false, Option, none, some, List, [], ◌∷◌, arith, All,
  if◌then◌else◌, eq_iff, Dict.Dict, Dict.lookup, Dict.insert, Dict.lookup-insert,
  Dict.lookup-insert_other,
}
use agent_ueaf.Common.Exec.{ok, ◌>>=◌}
use agent_ueaf.Common.Sets.{member, Distinct}
use agent_ueaf.Memory.Objects.{MemoryRecord, validate_record}
use agent_ueaf.Memory.Store.{update, revoked, revoke_all}

abbrev pub ids : {N : Type 0} → List (MemoryRecord N) → List String
ids [] = []
ids (r ∷ rs) = r.record_id ∷ ids rs

module _ {N : Type 0} (in_unit : N → Bool) where
  -- The records stand in the store and pass their checks.
  abbrev pub Stands : Dict (MemoryRecord N) → List (MemoryRecord N) → Type 0
  Stands d rs = All (λ r. (lookup r.record_id d ≡ some r) × (validate_record in_unit r ≡ none)) rs

  revoked_valid :
      (reason : String) (r : MemoryRecord N)
      → validate_record in_unit r ≡ none
      → validate_record in_unit (revoked reason r) ≡ none
  unfolding validate_record
  revoked_valid reason r h = ground arith

  update_lem :
      (reason : String) (r : MemoryRecord N) (d : Dict (MemoryRecord N))
      → lookup r.record_id d ≡ some r
      → update (revoked reason r) d
        ≡ (ok (revoked reason r), insert r.record_id (revoked reason r) d)
  unfolding update
  update_lem reason r d h = rw h (ground arith)

  Stands-insert :
      (r u : MemoryRecord N) (d : Dict (MemoryRecord N)) (rs : List (MemoryRecord N))
      → member r.record_id (ids rs) ≡ false
      → Stands d rs
      → Stands (insert r.record_id u d) rs
  unfolding member
  Stands-insert r u d [] out h = tt
  Stands-insert r u d (x ∷ xs) out h = (
    (
      lookup-insert_other r.record_id x.record_id u d
            (ground (arith, out, eq_iff x.record_id r.record_id, eq_iff r.record_id x.record_id))
          ∙ h.0.0,
      h.0.1,
    ),
    Stands-insert r u d xs (ground (arith, out)) h.1,
  )

  abbrev pub revoked_in : String → Option (MemoryRecord N) → Option (MemoryRecord N)
  revoked_in reason none = none
  revoked_in reason (some r) = some (revoked reason r)

  -- The loop deletes the records of its list and leaves every other one.
  revoke_step :
      (reason : String) (r : MemoryRecord N) (rs : List (MemoryRecord N))
      (d : Dict (MemoryRecord N)) (names : List String)
      → lookup r.record_id d ≡ some r
      → validate_record in_unit r ≡ none
      → (revoke_all in_unit reason rs (insert r.record_id (revoked reason r) d)).0 ≡ ok names
      → revoke_all in_unit reason (r ∷ rs) d ≡ (
        ok (r.record_id ∷ names),
        (revoke_all in_unit reason rs (insert r.record_id (revoked reason r) d)).1,
      )
  unfolding revoke_all ◌>>=◌
  revoke_step reason r rs d names found valid rest =
      rw (revoked_valid reason r valid, update_lem reason r d found, rest)

  pub revoke_all_lem :
      (reason : String) (rs : List (MemoryRecord N)) (d : Dict (MemoryRecord N))
      → Stands d rs
      → Distinct (ids rs)
      → ((revoke_all in_unit reason rs d).0 ≡ ok (ids rs))
        × ((ref : String)
            → lookup ref (revoke_all in_unit reason rs d).1
              ≡ (if member ref (ids rs) then revoked_in reason (lookup ref d) else lookup ref d))
  unfolding revoke_all member ◌>>=◌
  revoke_all_lem reason [] d h k = (refl, λ ref. refl)
  revoke_all_lem reason (r ∷ rs) d h k =
      let d' = insert r.record_id (revoked reason r) d in
      let (done, left) =
        revoke_all_lem reason rs d' (Stands-insert r (revoked reason r) d rs k.0 h.1) k.1 in
      let step = revoke_step reason r rs d (ids rs) h.0.0 h.0.1 done in
      (
        ap (λ x. x.0) step,
        λ ref.
            ap (λ x. lookup ref x.1) step
            ∙ left ref
            ∙ ground (
              arith,
              k.0,
              h.0.0,
              lookup-insert r.record_id ref (revoked reason r) d,
              eq_iff r.record_id ref,
            ),
      )
