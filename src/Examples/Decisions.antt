-- ===== src/Examples/Decisions.antt =====
-- The theorems on decisions (src/ueaf/security/policy.py), applied.
use mathlib.Core.List.{Memᴰ}
use agent_ueaf.Common.{
  String, ◌≡◌, refl, true, false, none, List, [], ◌∷◌, str_eq, ◌≢◌, arith, eq_iff,
}
use agent_ueaf.Common.Sets.{member}
use agent_ueaf.Contract.{new_meta}
use agent_ueaf.Admission.Principal.{PrincipalContext, end_user}
use agent_ueaf.Security.Policy.{
  PolicyOutcome, allow, ActionFingerprint, PolicyRule, Externals, all_required, share_role,
  decide_outcome, evaluate, validate_decision,
}
use agent_ueaf.Security.Policy.Outcome.{Matches, allow_justified, allow_borrowed_role}

-- A pattern that matches itself alone, and a hash that changes nothing.
abbrev externals : Externals
externals = record { sha256_hex = λ s. s; fnmatch = str_eq }

abbrev fingerprint : ActionFingerprint
fingerprint = record {
  tenant_id = "tenant";
  principal_id = "user:1";
  capability_ref = "mail";
  resource = "mailbox:1";
  trace_id = none;
  action_fingerprint = "hash:1";
  action_key = "key:1";
}

abbrev principal : PrincipalContext
principal = record {
  meta = new_meta "PrincipalContext" "user:1" "tenant" 1 "ueaf-idp" "0.1.0";
  principal_id = "user:1";
  principal_type = end_user;
  tenant_id = "tenant";
  roles = "reader" ∷ [];
  scopes = [];
  delegation_chain = [];
  authentication_strength = "password";
  credential_ref = none;
  data_regions = [];
  consent_refs = [];
  issued_at = none;
  expires_at = none;
  revocation_ref = none;
}

abbrev rule : String → String → List String → PolicyRule
rule id action roles = record {
  rule_id = id;
  action = action;
  resource_pattern = "mailbox:1";
  effect = allow;
  required_roles = roles;
  require_approval = false;
  version = "1";
}

abbrev send_rule : PolicyRule
send_rule = rule "rule:send" "mail" ("sender" ∷ [])

abbrev read_rule : PolicyRule
read_rule = rule "rule:read" "read" ("reader" ∷ [])

abbrev own_rule : PolicyRule
own_rule = rule "rule:own" "mail" ("reader" ∷ [])

allow_justified_example :
    ((r : PolicyRule) × Memᴰ r (own_rule ∷ [])
      × Matches externals fingerprint r
      × (r.effect ≡ allow))
    × ((r : PolicyRule)
        → Memᴰ r (own_rule ∷ [])
        → Matches externals fingerprint r
        → r.require_approval ≡ false)
    × ((role : String) × (r : PolicyRule) × (member role ("reader" ∷ []) ≡ true)
        × Memᴰ r (own_rule ∷ [])
        × (member role r.required_roles ≡ true))
unfolding decide_outcome agent_ueaf.Security.Policy.matching agent_ueaf.Security.Policy.any_approval
    agent_ueaf.Security.Policy.any_allow share_role member all_required
allow_justified_example = allow_justified externals fingerprint (own_rule ∷ []) principal refl

send_rule-Matches : Matches externals fingerprint send_rule
send_rule-Matches = record { acts = refl; covers = refl }

reading_is_apart : read_rule.action ≢ fingerprint.capability_ref
reading_is_apart e = ground (arith, eq_iff "read" "mail")

allow_borrowed_role_example :
    (decide_outcome externals (send_rule ∷ read_rule ∷ []) principal fingerprint).0 ≡ allow
unfolding member
allow_borrowed_role_example =
    allow_borrowed_role externals fingerprint send_rule read_rule principal "reader"
      send_rule-Matches refl refl refl reading_is_apart refl refl
