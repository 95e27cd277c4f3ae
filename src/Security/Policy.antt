-- ===== src/Security/Policy.antt =====
-- The policy decision point (src/ueaf/security/policy.py). `fnmatch` and SHA-256 are not code of the
-- repository: they are parameters. A fingerprint stands for its properties, whose hashes are values.
pub mod Outcome
use text.Mathlib.Text.{is_lt}
use agent_ueaf.Common.{
  ℕ, ◌+◌, String, Bool, true, false, not, ◌&&◌, ◌||◌, Option, none, some, List, [], ◌∷◌, ◌++◌,
  is_empty, str_eq, if◌then◌else◌, Dict.Dict,
}
use Prim.Native.String as Text
use agent_ueaf.Common.Sets.{member}
use agent_ueaf.Contract.{ContractMeta, new_meta}
use agent_ueaf.Admission.Principal.{PrincipalContext, too_early, too_late}

pub data PolicyOutcome : Type 0 where
  allow deny require_approval : PolicyOutcome

-- The properties of an `ActionFingerprint` (src/ueaf/tool/fingerprint.py) that decisions and actions
-- read.
pub record ActionFingerprint : Type 0 where
  pub tenant_id : String
  pub principal_id : String
  pub capability_ref : String
  pub resource : String
  pub trace_id : Option String
  pub action_fingerprint : String
  pub action_key : String

pub record PolicyDecision : Type 0 where
  pub meta : ContractMeta
  pub policy_decision_id : String
  pub principal_context_ref : String
  pub action : String
  pub resource : String
  pub environment : String
  pub outcome : PolicyOutcome
  pub constraints : Dict String
  pub reason_codes : List String
  pub policy_versions : List String
  pub evaluated_at : Option ℕ
  pub expires_at : Option ℕ
  pub input_hash : Option String

abbrev pub is_deny : PolicyOutcome → Bool
is_deny deny = true
is_deny _ = false

abbrev pub is_allow : PolicyOutcome → Bool
is_allow allow = true
is_allow _ = false

-- `PolicyDecision.__post_init__`
unfoldable pub validate_decision : PolicyDecision → Option String
validate_decision d =
    if not (str_eq d.policy_decision_id d.meta.object_id)
    then some "PolicyDecision.meta.object_id must equal policy_decision_id"
    else if is_deny d.outcome && is_empty d.reason_codes
    then some "deny PolicyDecision MUST set reason_codes"
    else none

-- `PolicyDecision.is_valid_at`
unfoldable pub is_valid_at : PolicyDecision → ℕ → Bool
is_valid_at d moment =
    if too_early d.evaluated_at moment then false else not (too_late d.expires_at moment)

pub record PolicyRule : Type 0 where
  pub rule_id : String
  pub action : String
  pub resource_pattern : String
  pub effect : PolicyOutcome
  pub required_roles : List String
  pub require_approval : Bool
  pub version : String

-- `sorted({...})`: a text put into a sorted list that does not have it yet
insert_sorted : String → List String → List String
insert_sorted x [] = x ∷ []
insert_sorted x (y ∷ ys) =
    let later = y ∷ insert_sorted x ys in
    if str_eq x y then y ∷ ys else if is_lt (Text.compare x y) then x ∷ y ∷ ys else later

unfoldable pub versions : List PolicyRule → List String
unfolding insert_sorted
versions [] = []
versions (r ∷ rs) = insert_sorted r.version (versions rs)

-- `','.join(roles)`
abbrev comma_joined : List String → String
comma_joined [] = ""
comma_joined (r ∷ []) = r
comma_joined (r ∷ q ∷ rs) = Text.◌++◌ r (Text.◌++◌ "," (comma_joined (q ∷ rs)))

-- What the code calls and does not define.
pub record Externals : Type 0 where
  pub sha256_hex : String → String
  pub fnmatch : String → String → Bool

module _ (x : Externals) where
  -- `_resource_matches(pattern, resource)`
  unfoldable pub resource_matches : String → String → Bool
  resource_matches pattern resource = x.fnmatch resource pattern

  -- The rules that match the action and the resource.
  unfoldable pub matching : List PolicyRule → ActionFingerprint → List PolicyRule
  unfolding resource_matches
  matching [] f = []
  matching (r ∷ rs) f =
      let later = matching rs f in
      if str_eq r.action f.capability_ref && resource_matches r.resource_pattern f.resource
      then r ∷ later
      else later

unfoldable pub any_approval : List PolicyRule → Bool
any_approval [] = false
any_approval (r ∷ rs) = r.require_approval || any_approval rs

unfoldable pub any_allow : List PolicyRule → Bool
any_allow [] = false
any_allow (r ∷ rs) = is_allow r.effect || any_allow rs

-- The roles that some rule requires, of all the rules and not of the matching ones.
unfoldable pub all_required : List PolicyRule → List String
all_required [] = []
all_required (r ∷ rs) = r.required_roles ++ all_required rs

-- `bool(set(roles).intersection(required))`
unfoldable pub share_role : List String → List String → Bool
share_role [] required = false
share_role (r ∷ rs) required = member r required || share_role rs required

-- The outcome and the reason that `evaluate` arrives at.
unfoldable pub decide_outcome :
    Externals → List PolicyRule → PrincipalContext → ActionFingerprint → PolicyOutcome × List String
decide_outcome x rules principal f =
    let matched = matching x rules f in
    if is_empty matched
    then (deny, "no_matching_rule" ∷ [])
    else if any_approval matched
    then (require_approval, "approval_required" ∷ [])
    else if any_allow matched && share_role principal.roles (all_required rules)
    then (allow, "rule_matched" ∷ [])
    else (deny, "missing_role" ∷ [])

-- `evaluate`, with the version of the point, the id that it draws and the moment it is given; 300 seconds are in
-- microseconds.
unfoldable pub evaluate :
    Externals
    → String
    → List PolicyRule
    → PrincipalContext
    → ActionFingerprint
    → String
    → String
    → ℕ
    → PolicyDecision
unfolding decide_outcome
evaluate x producer_version rules principal f environment decision_id moment =
    let (outcome, reasons) = decide_outcome x rules principal f in
    record {
      meta =
          let m =
            new_meta "PolicyDecision" decision_id principal.tenant_id moment "ueaf-pdp"
              producer_version in
          record m { trace_id = f.trace_id };
      policy_decision_id = decision_id;
      principal_context_ref = Text.◌++◌ "principal:" principal.principal_id;
      action = f.capability_ref;
      resource = f.resource;
      environment = environment;
      outcome = outcome;
      constraints = [];
      reason_codes = reasons;
      policy_versions = versions rules;
      evaluated_at = some moment;
      expires_at = some (moment + 300_000_000);
      input_hash = some (
          x.sha256_hex (
            Text.◌++◌ f.action_fingerprint (
              Text.◌++◌ "|"
                (Text.◌++◌ environment (Text.◌++◌ "|" (comma_joined principal.roles))))));
    }
