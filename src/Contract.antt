-- ===== src/Contract.antt =====
-- The metadata block of every persisted object (src/ueaf/common/meta.py) and the identifiers of
-- src/ueaf/common/identifiers.py. A check of a dataclass returns the message of its `ValueError`.
-- Times are numbers of microseconds. `secrets.token_hex` and the system clock are not code of the
-- repository: they are the parameters `token` and `now` of a `World`, read in order.
pub mod Facts
use Prim.Native.String
use Prim.Native.Char.{code}
use text.Mathlib.Text.{starts_with, find?}
use agent_ueaf.Common.{
  ℕ, String, Bool, true, false, not, ◌&&◌, ◌||◌, Option, none, some, List, [], ◌∷◌, ltb, leb,
  truthy, is_some, str_eq, if◌then◌else◌, Dict.Dict,
}

-- What a process draws from its surroundings: the n-th token and the n-th reading of the clock.
pub record World : Type 0 where
  pub token : ℕ → String
  pub now : ℕ → ℕ

-- `new_object_id` for a prefix that is not empty, with the token that is drawn.
abbrev pub object_id : World → String → ℕ → String
object_id w prefix n = String.◌++◌ prefix (String.◌++◌ ":" (w.token n))

-- `stable_ref`
abbrev pub stable_ref : List String → String
stable_ref [] = ""
stable_ref (p ∷ []) = p
stable_ref (p ∷ q ∷ ps) = String.◌++◌ p (String.◌++◌ ":" (stable_ref (q ∷ ps)))

pub data Classification : Type 0 where
  public internal confidential restricted : Classification

pub record ProvenanceRef : Type 0 where
  pub source_type : String
  pub source_ref : String
  pub observed_at : Option ℕ
  pub note : Option String

-- The values of `extensions`, which no code reads, are texts here.
pub record ContractMeta : Type 0 where
  pub contract_name : String
  pub contract_version : String
  pub object_id : String
  pub tenant_id : String
  pub created_at : ℕ
  pub producer : String
  pub producer_version : String
  pub classification : Classification
  pub purpose : List String
  pub provenance : List ProvenanceRef
  pub integrity_ref : Option String
  pub expires_at : Option ℕ
  pub request_id : Option String
  pub task_id : Option String
  pub run_id : Option String
  pub turn_id : Option String
  pub trace_id : Option String
  pub release_id : Option String
  pub extensions : Dict String

known_source_type : String → Bool
known_source_type t =
    str_eq t "request"
    || str_eq t "task"
    || str_eq t "run"
    || str_eq t "evidence_pack"
    || str_eq t "external_system"

unfoldable pub validate_provenance : ProvenanceRef → Option String
unfolding known_source_type
validate_provenance p =
    if not (truthy p.source_type)
    then some "ProvenanceRef.source_type must not be empty"
    else if not (truthy p.source_ref)
    then some "ProvenanceRef.source_ref must not be empty"
    else if not (known_source_type p.source_type) && not (starts_with p.source_type "x-")
    then some "unknown provenance source_type"
    else none

-- `name[0].isupper()` for an ASCII name, false for the empty one.
unfoldable pub starts_upper : String → Bool
starts_upper String.[] = false
starts_upper (String.◌∷◌ c s) = leb b'A' (code c) && leb (code c) b'Z'

expires_late : Option ℕ → ℕ → Bool
expires_late none created_at = true
expires_late (some t) created_at = ltb created_at t

all_prefixed : Dict String → Bool
all_prefixed [] = true
all_prefixed ((key, v) ∷ rest) = is_some (find? key ".") && all_prefixed rest

-- `ContractMeta.__post_init__`
unfoldable pub validate_meta : ContractMeta → Option String
unfolding starts_upper expires_late all_prefixed
validate_meta m =
    if not (starts_upper m.contract_name)
    then some "ContractMeta.contract_name must be a PascalCase canonical name"
    else if not (truthy m.contract_version)
    then some "ContractMeta.contract_version must not be empty"
    else if not (truthy m.object_id)
    then some "ContractMeta.object_id must not be empty"
    else if not (truthy m.tenant_id)
    then some "ContractMeta.tenant_id must not be empty"
    else if not (truthy m.producer) || not (truthy m.producer_version)
    then some "ContractMeta.producer/producer_version must not be empty"
    else if not (expires_late m.expires_at m.created_at)
    then some "ContractMeta.expires_at must be strictly later than created_at"
    else if not (all_prefixed m.extensions)
    then some "ContractMeta.extensions keys must use a reverse-domain prefix"
    else none

-- The metadata of a new object: the required fields, and every default of the dataclass.
abbrev pub new_meta : String → String → String → ℕ → String → String → ContractMeta
new_meta contract_name object_id tenant_id created_at producer producer_version = record {
  contract_name = contract_name;
  contract_version = "1.0.0";
  object_id = object_id;
  tenant_id = tenant_id;
  created_at = created_at;
  producer = producer;
  producer_version = producer_version;
  classification = internal;
  purpose = [];
  provenance = [];
  integrity_ref = none;
  expires_at = none;
  request_id = none;
  task_id = none;
  run_id = none;
  turn_id = none;
  trace_id = none;
  release_id = none;
  extensions = [];
}

-- `ContractMeta.with_integrity`; the checks that the copy runs again do not read the field.
unfoldable pub with_integrity : ContractMeta → String → ContractMeta
with_integrity m ref = record m { integrity_ref = some ref }
