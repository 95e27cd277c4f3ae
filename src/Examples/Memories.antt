-- ===== src/Examples/Memories.antt =====
-- Two memories under one consent, which is revoked (src/ueaf/memory/service.py).
use agent_ueaf.Common.{
  ℕ, ◌+◌, String, List, ◌≡◌, ◌↔◌, refl, true, none, some, [], ◌∷◌, ltb, Dict.Dict, Dict.lookup,
}
use agent_ueaf.Common.Exec.{ok}
use agent_ueaf.Common.Sets.{member, Distinct}
use agent_ueaf.Contract.{new_meta, internal}
use agent_ueaf.Memory.Objects.{
  MemoryRecord, active, deleted, expired, MemoryStatus, validate_record,
}
use agent_ueaf.Memory.Store.{revoke_consent}
use agent_ueaf.Memory.Store.Revoked.{IsKept, IsCovered, revoke_consent_lem}

-- Confidences are percentages here.
abbrev memory : String → MemoryStatus → MemoryRecord ℕ
memory name status = record {
  meta = new_meta "MemoryRecord" name "tenant" 5 "desk" "1.0.0";
  record_id = name;
  subject_ref = "subject:1";
  scope = "subject";
  source_refs = [];
  statement = "prefers short answers";
  confidence = 96;
  consent_ref = some "consent:1";
  sensitivity = internal;
  valid_from = 5;
  expires_at = none;
  status = status;
  supersedes_ref = none;
  deletion_state = none;
  use_audit_policy_ref = "audit-policy:default";
  revision = 1;
}

abbrev store : Dict (MemoryRecord ℕ)
store = ("memory:1", memory "memory:1" active) ∷ ("memory:2", memory "memory:2" expired) ∷ []

kept : IsKept (λ n. ltb n 101) store
unfolding member validate_record
kept = record { distinct = (refl, (refl, tt)); keyed = ((refl, refl), ((refl, refl), tt)) }

revoke_consent_lem_example :
    let (res, e) = revoke_consent (λ n. ltb n 101) "consent:1" "withdrawn" store in
    (names : List String) × (res ≡ ok names)
    × Distinct names
    × ((ref : String)
        → (member ref names ≡ true) ↔ IsCovered (λ n. ltb n 101) "consent:1" (lookup ref store))
    × ((ref : String) (r : MemoryRecord ℕ)
        → lookup ref store ≡ some r
        → r.consent_ref ≡ some "consent:1"
        → r.status ≡ active
        → lookup ref e
          ≡ some (record r {
            status = deleted;
            deletion_state = some "withdrawn";
            revision = r.revision + 1;
          }))
    × ((ref : String)
        → ¬ IsCovered (λ n. ltb n 101) "consent:1" (lookup ref store)
        → lookup ref e ≡ lookup ref store)
revoke_consent_lem_example = revoke_consent_lem (λ n. ltb n 101) "consent:1" "withdrawn" store kept
