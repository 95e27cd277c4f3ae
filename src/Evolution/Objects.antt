-- ===== src/Evolution/Objects.antt =====
-- The objects of evolution with the checks of their constructors (src/ueaf/evolution/objects.py).
-- The value of a patch is a text, a number, a Boolean or something else; Python's numbers, which
-- the code compares and nothing more, are the parameter N.
use agent_ueaf.Common.{
  ℕ, String, Bool, true, false, not, Option, none, some, List, str_eq, is_empty, if◌then◌else◌,
  Dict.Dict,
}
use agent_ueaf.Contract.{ContractMeta}

pub data Value (N : Type 0) : Type 0 where
  string : String → Value N
  number : N → Value N
  truth : Bool → Value N
  other : String → Value N

pub data MutationRepairLevel : Type 0 where
  r1 r2 r3 r4 : MutationRepairLevel

abbrev pub same_level : MutationRepairLevel → MutationRepairLevel → Bool
same_level r1 r1 = true
same_level r2 r2 = true
same_level r3 r3 = true
same_level r4 r4 = true
same_level _ _ = false

pub record EvolutionTrigger : Type 0 where
  pub meta : ContractMeta
  pub evolution_trigger_id : String
  pub candidate_ref : String
  pub reason_codes : List String
  pub evidence_refs : List String
  pub cooldown_expires_at : Option ℕ

-- `EvolutionTrigger.__post_init__`
unfoldable pub validate_trigger : EvolutionTrigger → Option String
validate_trigger t =
    if not (str_eq t.evolution_trigger_id t.meta.object_id)
    then some "EvolutionTrigger.meta.object_id must equal id"
    else if is_empty t.reason_codes
    then some "EvolutionTrigger.reason_codes MUST be non-empty"
    else none

pub data RunStatus : Type 0 where
  pending running completed no_evolution_needed aborted : RunStatus

pub record EvolutionRun : Type 0 where
  pub meta : ContractMeta
  pub evolution_run_id : String
  pub trigger_ref : String
  pub strategy_ref : String
  pub status : RunStatus
  pub proposal_ref : Option String
  pub candidate_ref : Option String

-- `EvolutionRun.__post_init__`
unfoldable pub validate_run : EvolutionRun → Option String
validate_run r =
    if not (str_eq r.evolution_run_id r.meta.object_id)
    then some "EvolutionRun.meta.object_id must equal id"
    else none

pub record MutationPatch (N : Type 0) : Type 0 where
  pub target_ref : String
  pub path : String
  pub operation : String
  pub before : Option (Value N)
  pub after : Option (Value N)
  pub constraint_profile_ref : Option (Value N)

pub data ProposalStatus : Type 0 where
  proposed validated rejected materialized : ProposalStatus

abbrev pub is_validated : ProposalStatus → Bool
is_validated validated = true
is_validated _ = false

pub record MutationProposal (N : Type 0) : Type 0 where
  pub meta : ContractMeta
  pub mutation_proposal_id : String
  pub trigger_ref : String
  pub run_ref : String
  pub target_ref : String
  pub repair_level : MutationRepairLevel
  pub change_summary : String
  pub changes : List (MutationPatch N)
  pub status : ProposalStatus

-- `MutationProposal.__post_init__`
unfoldable pub validate_proposal : {N : Type 0} → MutationProposal N → Option String
validate_proposal p =
    if not (str_eq p.mutation_proposal_id p.meta.object_id)
    then some "MutationProposal.meta.object_id must equal id"
    else if is_empty p.changes
    then some "MutationProposal.changes must be non-empty (MUT-008)"
    else none

pub record GenomeManifest (N : Type 0) : Type 0 where
  pub meta : ContractMeta
  pub genome_id : String
  pub proposal_ref : String
  pub target_ref : String
  pub changes : List (MutationPatch N)
  pub integrity_ref : Option String

-- `GenomeManifest.__post_init__`
unfoldable pub validate_genome : {N : Type 0} → GenomeManifest N → Option String
validate_genome g =
    if not (str_eq g.genome_id g.meta.object_id)
    then some "GenomeManifest.meta.object_id must equal id"
    else none

pub record EvolutionAuthorityPolicy : Type 0 where
  pub meta : ContractMeta
  pub evolution_authority_policy_id : String
  pub max_triggers_per_window : ℕ
  pub cooldown_seconds : ℕ
  pub max_proposals_per_run : ℕ
  pub allow_mutation : Bool
  pub governance_kernel_frozen : Bool
  pub r5_routes_governance : Bool

-- `EvolutionAuthorityPolicy.__post_init__`
unfoldable pub validate_authority : EvolutionAuthorityPolicy → Option String
validate_authority a =
    if not (str_eq a.evolution_authority_policy_id a.meta.object_id)
    then some "EvolutionAuthorityPolicy.meta.object_id must equal id"
    else none

pub record SubjectProfile (N : Type 0) : Type 0 where
  pub meta : ContractMeta
  pub profile_id : String
  pub subject_type : String
  pub mutable_fields : List String
  pub frozen_fields : List String
  pub allowed_repair_levels : List MutationRepairLevel
  pub max_patch_fields : ℕ
  pub field_ranges : Dict (N × N)

-- `SubjectProfile.__post_init__`
unfoldable pub validate_subject : {N : Type 0} → SubjectProfile N → Option String
validate_subject s =
    if not (str_eq s.profile_id s.meta.object_id)
    then some "SubjectProfile.meta.object_id must equal id"
    else none
