-- ===== src/Memory/Store.antt =====
-- The store of memories in memory, and the revocation of a consent (src/ueaf/memory/service.py). The
-- errors are messages. `in_unit` is the test that a confidence lies within [0, 1].
pub mod Loop
pub mod Revoked
use agent_ueaf.Common.{
  ℕ, ◌+◌, String, Bool, true, false, not, ◌&&◌, Option, none, some, List, [], ◌∷◌, ◌==◌, leb, ltb,
  str_eq, is_some, if◌then◌else◌, Dict.Dict, Dict.lookup, Dict.insert,
}
use agent_ueaf.Common.Exec.{ok, err, built, Exec, pure, lift, gets, ◌>>=◌, ◌>>◌}
use agent_ueaf.Memory.Objects.{MemoryRecord, deleted, is_active, validate_record}

abbrev pub M : Type 0 → Type 0 → Type 0
M N = Exec (Dict (MemoryRecord N)) String

-- `a == b` on two optional texts, the second of which is a text
abbrev pub is_ref : Option String → String → Bool
is_ref none ref = false
is_ref (some r) ref = str_eq r ref

module _ {N : Type 0} where
  -- `save`
  unfoldable pub save : MemoryRecord N → M N (MemoryRecord N)
  save r d =
      if is_some (lookup r.record_id d)
      then (err "MemoryRecord already exists", d)
      else (ok r, insert r.record_id r d)

  update_existing : MemoryRecord N → Option (MemoryRecord N) → M N (MemoryRecord N)
  update_existing r none d = (err "MemoryRecord does not exist", d)
  update_existing r (some existing) d =
      if not (r.revision == existing.revision + 1)
      then (err "MemoryRecord revision CAS failed", d)
      else (ok r, insert r.record_id r d)

  -- `update`
  unfoldable pub update : MemoryRecord N → M N (MemoryRecord N)
  unfolding update_existing
  update r d = update_existing r (lookup r.record_id d) d

  -- The test of `active_for`.
  abbrev pub is_current : String → ℕ → MemoryRecord N → Bool
  is_current subject_ref moment r =
      str_eq r.subject_ref subject_ref
      && is_active r.status
      && leb r.valid_from moment
      && elim r.expires_at [ none ↦ true | some end ↦ ltb moment end ]

  -- `active_for`
  unfoldable pub active_for : String → ℕ → Dict (MemoryRecord N) → List (MemoryRecord N)
  active_for subject_ref moment [] = []
  active_for subject_ref moment ((_, r) ∷ d) =
      let rest = active_for subject_ref moment d in
      if is_current subject_ref moment r then r ∷ rest else rest

  -- The records that a consent covers and that are active.
  unfoldable pub affected : String → Dict (MemoryRecord N) → List (MemoryRecord N)
  affected consent_ref [] = []
  affected consent_ref ((_, r) ∷ d) =
      let rest = affected consent_ref d in
      if is_ref r.consent_ref consent_ref && is_active r.status then r ∷ rest else rest

  abbrev pub revoked : String → MemoryRecord N → MemoryRecord N
  revoked reason r = record r {
    status = deleted;
    deletion_state = some reason;
    revision = r.revision + 1;
  }

  module _ (in_unit : N → Bool) where
    unfoldable pub revoke_all : String → List (MemoryRecord N) → M N (List String)
    revoke_all reason [] = pure []
    revoke_all reason (r ∷ rs) = do
      u ← lift (built (revoked reason r) (validate_record in_unit (revoked reason r)))
      update u
      ids ← revoke_all reason rs
      pure (r.record_id ∷ ids)

    -- `revoke_consent`
    unfoldable pub revoke_consent : String → String → M N (List String)
    revoke_consent consent_ref reason = do rs ← gets (affected consent_ref); revoke_all reason rs
