-- ===== src/Evolution/Kernel/Run.antt =====
-- The slice from a trigger to a genome (src/ueaf/evolution/kernel.py). `below` is `<` on Python's
-- numbers.
use Prim.Native.String as Text
use text.Mathlib.Text.{starts_with}
use agent_ueaf.Common.{
  String, Bool, true, false, not, Option, none, some, List, [], ◌∷◌, is_empty, if◌then◌else◌,
  Dict.insert,
}
use agent_ueaf.Common.Exec.{Result, ok, built, pure, raise, lift, ◌>>=◌, ◌>>◌}
use agent_ueaf.Contract.{World, ContractMeta}
use agent_ueaf.Evolution.Objects.{
  r1, EvolutionTrigger, RunStatus, running, completed, no_evolution_needed, aborted, EvolutionRun,
  validate_run, ProposalStatus, proposed, validated, rejected, is_validated, MutationProposal,
  validate_proposal, GenomeManifest, validate_genome,
}
use agent_ueaf.Evolution.Strategy.{ProposalDraft, StrategyInput, propose}
use agent_ueaf.Evolution.Validator.{validate}
use agent_ueaf.Evolution.Kernel.{
  RepairRouterOutcome, no_evolution, operational_only, mutation, route_governance, RepairRouting,
  EvolutionKernel, M, fresh_id, meta_of,
}

-- `route`
unfoldable pub route : String → List String → RepairRouting
route symptom_code evidence_refs =
    if starts_with symptom_code "governance"
    then record {
      outcome = route_governance;
      reason_codes = "r5_governance" ∷ [];
      repair_level = none;
    }
    else if is_empty evidence_refs
    then record {
      outcome = no_evolution;
      reason_codes = "insufficient_evidence" ∷ [];
      repair_level = none;
    }
    else if starts_with symptom_code "operational"
    then record {
      outcome = operational_only;
      reason_codes = "operational_remediation" ∷ [];
      repair_level = none;
    }
    else record { outcome = mutation; reason_codes = []; repair_level = some r1 }

-- `strategy_input.symptom_code if strategy_input else "unknown"`
abbrev pub symptom_of : {N : Type 0} → Option (StrategyInput N) → String
symptom_of none = "unknown"
symptom_of (some input) = input.symptom_code

-- What every record of one run shares.
pub record Ticket : Type 0 where
  pub meta : ContractMeta
  pub run_id : String
  pub trigger_ref : String

abbrev pub run_with : Ticket → RunStatus → Option String → Option String → EvolutionRun
run_with t status proposal_ref candidate_ref = record {
  meta = t.meta;
  evolution_run_id = t.run_id;
  trigger_ref = t.trigger_ref;
  strategy_ref = "llm_guided_sparse_mutation";
  status = status;
  proposal_ref = proposal_ref;
  candidate_ref = candidate_ref;
}

module _ {N : Type 0} where
  put_run : EvolutionRun → M N EvolutionRun
  put_run r s = (ok r, record s { runs = insert r.evolution_run_id r s.runs })

  put_proposal : MutationProposal N → M N (MutationProposal N)
  put_proposal p s = (ok p, record s { proposals = insert p.mutation_proposal_id p s.proposals })

  put_genome : GenomeManifest N → M N (GenomeManifest N)
  put_genome g s = (ok g, record s { genomes = insert g.genome_id g s.genomes })

  abbrev pub proposal_of : ProposalDraft N → String → ContractMeta → String → MutationProposal N
  proposal_of d trigger_ref m proposal_id = record {
    meta = m;
    mutation_proposal_id = proposal_id;
    trigger_ref = trigger_ref;
    run_ref = "";
    target_ref = d.target_ref;
    repair_level = d.repair_level;
    change_summary = d.change_summary;
    changes = d.changes;
    status = proposed;
  }

  abbrev pub genome_of : MutationProposal N → ContractMeta → String → GenomeManifest N
  genome_of p m genome_id = record {
    meta = m;
    genome_id = genome_id;
    proposal_ref = p.mutation_proposal_id;
    target_ref = p.target_ref;
    changes = p.changes;
    integrity_ref = some (Text.◌++◌ "integrity:" genome_id);
  }

  -- A record of the run, made and stored.
  unfoldable pub note_run : Ticket → RunStatus → Option String → Option String → M N EvolutionRun
  unfolding put_run
  note_run t status proposal_ref candidate_ref = do
    let r = run_with t status proposal_ref candidate_ref
    r ← lift (built r (validate_run r))
    put_run r

  -- `_finalize_proposal`
  unfoldable pub finalize_proposal : World → ProposalDraft N → String → M N (MutationProposal N)
  unfolding put_proposal
  finalize_proposal w d trigger_ref = do
    proposal_id ← fresh_id w "mutation"
    m ← meta_of w "MutationProposal" proposal_id
    let p = proposal_of d trigger_ref m proposal_id
    p ← lift (built p (validate_proposal p))
    put_proposal p

  -- `_reject_proposal` and `_validate_proposal`: a copy with another status, stored in its place.
  unfoldable pub mark_proposal : ProposalStatus → MutationProposal N → M N (MutationProposal N)
  unfolding put_proposal
  mark_proposal status p = do
    let q = record p { status = status }
    q ← lift (built q (validate_proposal q))
    put_proposal q

  -- `materialize`
  unfoldable pub materialize : World → MutationProposal N → M N (GenomeManifest N)
  unfolding put_genome
  materialize w p =
      if not (is_validated p.status)
      then raise "only a validated proposal can be materialized"
      else do
        genome_id ← fresh_id w "genome"
        m ← meta_of w "GenomeManifest" genome_id
        let g = genome_of p m genome_id
        g ← lift (built g (validate_genome g))
        put_genome g

  unfoldable pub call_hook :
      Option (GenomeManifest N → Result String String) → GenomeManifest N → M N (Option String)
  call_hook none g = pure none
  call_hook (some hook) g = do candidate_ref ← lift (hook g); pure (some candidate_ref)

  module _ (below : N → N → Bool) (w : World) (k : EvolutionKernel N) (t : Ticket) where
    -- The end of the slice, by the validator's verdict.
    unfoldable pub conclude : Bool → MutationProposal N → M N EvolutionRun
    conclude false p = do
      refused ← mark_proposal rejected p
      note_run t aborted (some refused.mutation_proposal_id) none
    conclude true p = do
      accepted ← mark_proposal validated p
      genome ← materialize w accepted
      candidate_ref ← call_hook k.candidate_build_hook genome
      note_run t completed (some accepted.mutation_proposal_id) candidate_ref

    unfoldable pub with_draft : Option (ProposalDraft N) → M N EvolutionRun
    with_draft none = note_run t no_evolution_needed none none
    with_draft (some d) = do
      p ← finalize_proposal w d t.trigger_ref
      conclude (validate below k.validator p).valid p

    unfoldable pub with_input : Option (StrategyInput N) → M N EvolutionRun
    with_input none = note_run t no_evolution_needed none none
    with_input (some input) = with_draft (propose input)

    unfoldable pub with_outcome : RepairRouterOutcome → Option (StrategyInput N) → M N EvolutionRun
    with_outcome mutation input = with_input input
    with_outcome _ input = note_run t no_evolution_needed none none

  -- `run_evolution`
  unfoldable pub run_evolution :
      (N → N → Bool)
      → World
      → EvolutionKernel N
      → EvolutionTrigger
      → Option (StrategyInput N)
      → M N EvolutionRun
  run_evolution below w k trigger input = do
    run_id ← fresh_id w "evolution-run"
    m ← meta_of w "EvolutionRun" run_id
    let t : Ticket = record {
      meta = m;
      run_id = run_id;
      trigger_ref = trigger.evolution_trigger_id;
    }
    note_run t running none none
    with_outcome below w k t (route (symptom_of input) trigger.evidence_refs).outcome input
