-- ===== src/Admission/Principal.antt =====
-- The security context of a caller (`PrincipalContext` of src/ueaf/admission/objects.py). The
-- delegation chain, which no decision reads, is the list of its references.
use agent_ueaf.Common.{
  ℕ, String, Bool, false, not, ◌&&◌, Option, none, some, List, str_eq, truthy, ltb, leb, is_some,
  if◌then◌else◌,
}
use text.Mathlib.Text.{find?}
use agent_ueaf.Contract.{ContractMeta}

pub data PrincipalType : Type 0 where
  end_user calling_service agent workload human_approver : PrincipalType

pub record PrincipalContext : Type 0 where
  pub meta : ContractMeta
  pub principal_id : String
  pub principal_type : PrincipalType
  pub tenant_id : String
  pub roles : List String
  pub scopes : List String
  pub delegation_chain : List String
  pub authentication_strength : String
  pub credential_ref : Option String
  pub data_regions : List String
  pub consent_refs : List String
  pub issued_at : Option ℕ
  pub expires_at : Option ℕ
  pub revocation_ref : Option String

-- `credential_ref and ":" not in credential_ref`
abbrev bare_secret : Option String → Bool
bare_secret none = false
bare_secret (some c) = truthy c && not (is_some (find? c ":"))

-- `PrincipalContext.__post_init__`
unfoldable pub validate_principal : PrincipalContext → Option String
validate_principal p =
    if not (truthy p.principal_id)
    then some "PrincipalContext.principal_id must not be empty"
    else if not (str_eq p.tenant_id p.meta.tenant_id)
    then some "PrincipalContext.tenant_id MUST equal meta.tenant_id (CON-008)"
    else if not (str_eq p.principal_id p.meta.object_id)
    then some "PrincipalContext.meta.object_id must equal principal_id"
    else if bare_secret p.credential_ref
    then some "credential_ref must be an opaque reference, never a secret"
    else none

-- `moment < start` and `moment >= end`, where they are given
abbrev pub too_early : Option ℕ → ℕ → Bool
too_early none moment = false
too_early (some start) moment = ltb moment start

abbrev pub too_late : Option ℕ → ℕ → Bool
too_late none moment = false
too_late (some end) moment = leb end moment

-- `PrincipalContext.is_valid_at`
unfoldable pub is_valid_at : PrincipalContext → ℕ → Bool
is_valid_at p moment =
    if too_early p.issued_at moment then false else not (too_late p.expires_at moment)
