-- ===== src/Evolution/Kernel.antt =====
-- The kernel of evolution (src/ueaf/evolution/kernel.py). Its methods act on its dictionaries and
-- may raise a `ValueError`, whose message is the error. `w.now` is the system clock, which `_meta`
-- reads, and `now` of the kernel the clock it is given; both are read in one order. The hook that
-- builds a candidate is not code of the repository: it is a parameter, which may raise.
pub mod Run
pub mod Steps
pub mod Triggers
pub mod Gate
pub mod Keeps
pub mod Reach
pub mod Ending
pub mod Outcome
use Prim.Native.String as Text
use text.Mathlib.Text.{starts_with}
use agent_ueaf.Common.{
  ℕ, ◌+◌, ◌*◌, String, Bool, true, false, not, Option, none, some, List, [], ◌∷◌, length, leb,
  is_empty, if◌then◌else◌, Dict.Dict, Dict.insert,
}
use agent_ueaf.Common.Exec.{Result, ok, err, built, Exec, pure, raise, lift, ◌>>=◌, ◌>>◌}
use agent_ueaf.Common.Sets.{member, add}
use agent_ueaf.Contract.{World, object_id, ContractMeta, new_meta, validate_meta}
use agent_ueaf.Evolution.Objects.{
  MutationRepairLevel, r1, EvolutionTrigger, validate_trigger, RunStatus, running, completed,
  no_evolution_needed, aborted, EvolutionRun, validate_run, ProposalStatus, proposed, validated,
  rejected, is_validated, MutationProposal, validate_proposal, GenomeManifest, validate_genome,
  EvolutionAuthorityPolicy,
}
use agent_ueaf.Evolution.Strategy.{ProposalDraft, StrategyInput, propose}
use agent_ueaf.Evolution.Validator.{MutationValidator, validate}

pub data RepairRouterOutcome : Type 0 where
  no_evolution operational_only mutation route_governance : RepairRouterOutcome

pub record RepairRouting : Type 0 where
  pub outcome : RepairRouterOutcome
  pub reason_codes : List String
  pub repair_level : Option MutationRepairLevel

-- What a kernel is made with.
pub record EvolutionKernel (N : Type 0) : Type 0 where
  pub authority : EvolutionAuthorityPolicy
  pub validator : MutationValidator N
  pub candidate_build_hook : Option (GenomeManifest N → Result String String)
  pub now : ℕ → ℕ

-- What its methods change.
pub record KernelState (N : Type 0) : Type 0 where
  pub triggers : Dict EvolutionTrigger
  pub runs : Dict EvolutionRun
  pub proposals : Dict (MutationProposal N)
  pub genomes : Dict (GenomeManifest N)
  pub recent_trigger_keys : List String
  pub clock_reads : ℕ
  pub drawn : ℕ

abbrev pub M : Type 0 → Type 0 → Type 0
M N = Exec (KernelState N) String

unfoldable pub fresh_id : {N : Type 0} → World → String → M N String
fresh_id w prefix s = (ok (object_id w prefix s.drawn), record s { drawn = s.drawn + 1 })

unfoldable pub read : {N : Type 0} → (ℕ → ℕ) → M N ℕ
read clock s = (ok (clock s.clock_reads), record s { clock_reads = s.clock_reads + 1 })

-- `_meta`
unfoldable pub meta_of : {N : Type 0} → World → String → String → M N ContractMeta
unfolding read
meta_of w contract_name oid = do
  moment ← read w.now
  let m = new_meta contract_name oid "tenant-evolution" moment "ueaf-evolution" "0.1.0"
  lift (built m (validate_meta m))

module _ {N : Type 0} where
  put_trigger : EvolutionTrigger → M N (Option EvolutionTrigger)
  put_trigger t s = (
    ok (some t),
    record s {
      triggers = insert t.evolution_trigger_id t s.triggers;
      recent_trigger_keys = add t.candidate_ref s.recent_trigger_keys;
    },
  )

  -- The cooldown of the caller, or the policy's from now on.
  cooldown_of : EvolutionKernel N → Option ℕ → M N ℕ
  unfolding read
  cooldown_of k (some t) = pure t
  cooldown_of k none = do
    moment ← read k.now
    pure (moment + k.authority.cooldown_seconds * 1000000)

  make_trigger : World → String → List String → List String → ℕ → M N (Option EvolutionTrigger)
  unfolding put_trigger
  make_trigger w candidate reasons evidence expires_at = do
    trigger_id ← fresh_id w "trigger"
    m ← meta_of w "EvolutionTrigger" trigger_id
    let t : EvolutionTrigger = record {
      meta = m;
      evolution_trigger_id = trigger_id;
      candidate_ref = candidate;
      reason_codes = reasons;
      evidence_refs = evidence;
      cooldown_expires_at = some expires_at;
    }
    t ← lift (built t (validate_trigger t))
    put_trigger t

  -- The part of `register_trigger` behind its three gates.
  create_trigger :
      World
      → EvolutionKernel N
      → String
      → List String
      → List String
      → Option ℕ
      → M N (Option EvolutionTrigger)
  unfolding cooldown_of make_trigger
  create_trigger w k candidate reasons evidence cooldown = do
    expires_at ← cooldown_of k cooldown
    make_trigger w candidate reasons evidence expires_at

  -- `register_trigger`
  unfoldable pub register_trigger :
      World
      → EvolutionKernel N
      → String
      → List String
      → List String
      → Option ℕ
      → M N (Option EvolutionTrigger)
  unfolding create_trigger
  register_trigger w k candidate reasons evidence cooldown s =
      if leb k.authority.max_triggers_per_window (length s.triggers)
      then (ok none, s)
      else if member candidate s.recent_trigger_keys
      then (ok none, s)
      else if is_empty evidence
      then (ok none, s)
      else create_trigger w k candidate reasons evidence cooldown s
