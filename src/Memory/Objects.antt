-- ===== src/Memory/Objects.antt =====
-- Candidates for memories and the records of memories (src/ueaf/memory/objects.py). Confidences are floating-point numbers, which
-- the code compares and nothing more: they are the parameter N, and `in_unit` is the test that one
-- lies within [0, 1].
use agent_ueaf.Common.{
  ℕ, String, Bool, true, false, not, ◌&&◌, Option, none, some, List, str_eq, truthy, or_text, ltb,
  leb, if◌then◌else◌,
}
use agent_ueaf.Contract.{Classification, confidential, restricted, ContractMeta}

pub record MemoryCandidate (N : Type 0) : Type 0 where
  pub meta : ContractMeta
  pub candidate_id : String
  pub subject_ref : String
  pub source_refs : List String
  pub purpose : String
  pub sensitivity : Classification
  pub statement : String
  pub confidence : N
  pub required_consent : Bool
  pub proposed_at : Option ℕ
  pub scope_requested : String
  pub retention_hint : String

-- `MemoryCandidate.__post_init__`
unfoldable pub validate_candidate : {N : Type 0} → (N → Bool) → MemoryCandidate N → Option String
validate_candidate in_unit c =
    if not (str_eq c.candidate_id c.meta.object_id)
    then some "MemoryCandidate.meta.object_id must equal candidate_id"
    else if not (in_unit c.confidence)
    then some "MemoryCandidate.confidence must be within [0, 1]"
    else none

pub data MemoryStatus : Type 0 where
  active superseded expired deleted : MemoryStatus

abbrev pub is_active : MemoryStatus → Bool
is_active active = true
is_active _ = false

pub record MemoryRecord (N : Type 0) : Type 0 where
  pub meta : ContractMeta
  pub record_id : String
  pub subject_ref : String
  pub scope : String
  pub source_refs : List String
  pub statement : String
  pub confidence : N
  pub consent_ref : Option String
  pub sensitivity : Classification
  pub valid_from : ℕ
  pub expires_at : Option ℕ
  pub status : MemoryStatus
  pub supersedes_ref : Option String
  pub deletion_state : Option String
  pub use_audit_policy_ref : String
  pub revision : ℕ

abbrev is_sensitive : Classification → Bool
is_sensitive confidential = true
is_sensitive restricted = true
is_sensitive _ = false

abbrev ends_early : Option ℕ → ℕ → Bool
ends_early none start = false
ends_early (some end) start = leb end start

-- `MemoryRecord.__post_init__`
unfoldable pub validate_record : {N : Type 0} → (N → Bool) → MemoryRecord N → Option String
validate_record in_unit r =
    if not (str_eq r.record_id r.meta.object_id)
    then some "MemoryRecord.meta.object_id must equal record_id"
    else if not (in_unit r.confidence)
    then some "MemoryRecord.confidence must be within [0, 1]"
    else if ends_early r.expires_at r.valid_from
    then some "MemoryRecord.expires_at must be later than valid_from"
    else if is_sensitive r.sensitivity && not (truthy (or_text r.consent_ref ""))
    then some "confidential/restricted memory requires an explicit consent_ref"
    else if ltb r.revision 1
    then some "MemoryRecord.revision must be >= 1"
    else none
