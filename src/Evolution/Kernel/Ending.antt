-- ===== src/Evolution/Kernel/Ending.antt =====
-- What is to be expected of `run_evolution` (src/ueaf/evolution/kernel.py): the draft it validates and
-- how it ends.
use text.Mathlib.Text.{starts_with}
use agent_ueaf.Common.{
  String, ◌≢◌, ◌≡◌, ◌∙◌, Bool, not, ◌&&◌, Option, none, some, [], arith, ap, sym, subst, is_empty,
  Dict.lookup, if◌then◌else◌,
}
use agent_ueaf.Common.Exec.{Result, ok}
use agent_ueaf.Evolution.Objects.{
  Value, string, number, truth, other, completed, no_evolution_needed, aborted, ProposalStatus,
  validated, rejected, EvolutionTrigger, EvolutionRun, MutationProposal, GenomeManifest,
}
use agent_ueaf.Evolution.Strategy.{ProposalDraft, StrategyInput, propose, draft_for, of_field}
use agent_ueaf.Evolution.Validator.Admissible.{IsAdmissible}
use agent_ueaf.Evolution.Kernel.{KernelState, EvolutionKernel, M}

-- The draft that the slice validates, where it gets that far: the symptom is no matter of
-- governance or operation, there is evidence and an input, and the strategy has a draft.
unfoldable pub planned :
    {N : Type 0} → EvolutionTrigger → Option (StrategyInput N) → Option (ProposalDraft N)
planned trigger none = none
planned trigger (some input) =
    if not (is_empty trigger.evidence_refs)
      && not (starts_with input.symptom_code "governance")
      && not (starts_with input.symptom_code "operational")
    then propose input
    else none

-- The hook that builds candidates does not raise.
abbrev pub HookAnswers : {N : Type 0} → EvolutionKernel N → Type 0
HookAnswers {N} k =
    (hook : GenomeManifest N → Result String String)
    → k.candidate_build_hook ≡ some hook
    → (g : GenomeManifest N) → (c : String) × (hook g ≡ ok c)

-- A stored proposal that says what the draft says.
pub record Stems {N : Type 0} (d : ProposalDraft N) (p : MutationProposal N) : Type 0 where
  pub same_target : p.target_ref ≡ d.target_ref
  pub same_level : p.repair_level ≡ d.repair_level
  pub same_changes : p.changes ≡ d.changes

module _ {N : Type 0} (below : N → N → Bool) (k : EvolutionKernel N) where
  -- A run `r` and the state `s'` at its end, from the state `s` and the draft that was planned.
  pub data Ending (s : KernelState N) (r : EvolutionRun) (s' : KernelState N)
      : Option (ProposalDraft N) → Type 0 where
    idle :
        r.status ≡ no_evolution_needed
        → s'.proposals ≡ s.proposals
        → s'.genomes ≡ s.genomes
        → Ending s r s' none
    refused :
        {d : ProposalDraft N} (p : MutationProposal N)
        → Stems d p
        → ¬ IsAdmissible below k.validator p
        → r.status ≡ aborted
        → r.proposal_ref ≡ some p.mutation_proposal_id
        → p.status ≡ rejected
        → lookup p.mutation_proposal_id s'.proposals ≡ some p
        → s'.genomes ≡ s.genomes
        → Ending s r s' (some d)
    built :
        {d : ProposalDraft N} (p : MutationProposal N) (g : GenomeManifest N)
        → Stems d p
        → IsAdmissible below k.validator p
        → r.status ≡ completed
        → r.proposal_ref ≡ some p.mutation_proposal_id
        → p.status ≡ validated
        → lookup p.mutation_proposal_id s'.proposals ≡ some p
        → (g.proposal_ref ≡ p.mutation_proposal_id)
          × (g.target_ref ≡ p.target_ref)
          × (g.changes ≡ p.changes)
        → lookup g.genome_id s'.genomes ≡ some g
        → Ending s r s' (some d)

  -- The action returns a run, stored, that ends as the draft says.
  pub record Ends (s : KernelState N) (d : Option (ProposalDraft N)) (m : M N EvolutionRun)
      (at : KernelState N) : Type 0 where
    pub run : EvolutionRun
    pub returned : (m at).0 ≡ ok run
    pub stored : lookup run.evolution_run_id (m at).1.runs ≡ some run
    pub ending : Ending s run (m at).1 d

  -- The verdict does not depend on the status.
  pub same_verdict :
      (p : MutationProposal N) (status : ProposalStatus)
      → IsAdmissible below k.validator p
      → IsAdmissible below k.validator (record p { status = status })
  same_verdict p status a = record {
    permitted = a.permitted;
    changed = a.changed;
    single = a.single;
    levelled = a.levelled;
    narrow = a.narrow;
    sound = a.sound;
  }

  pub moved :
      {s : KernelState N} {d : Option (ProposalDraft N)} (m n : M N EvolutionRun)
      (s₁ s₂ : KernelState N)
      → m s₁ ≡ n s₂
      → Ends s d n s₂
      → Ends s d m s₁
  moved {s} {d} m n s₁ s₂ h e = record {
    run = e.run;
    returned = ap (λ x. x.0) h ∙ e.returned;
    stored = subst (λ x. lookup e.run.evolution_run_id x.1.runs ≡ some e.run) (sym h) e.stored;
    ending = subst (λ x. Ending s e.run x.1 d) (sym h) e.ending;
  }

of_field_changes :
    {N : Type 0} (input : StrategyInput N) (o : Option (Value N)) (d : ProposalDraft N)
    → of_field input o ≡ some d
    → d.changes ≢ []
unfolding draft_for
of_field_changes input (some (string field)) d h = ground arith
of_field_changes input (some (number n)) d h = absurd (ground arith)
of_field_changes input (some (truth b)) d h = absurd (ground arith)
of_field_changes input (some (other t)) d h = absurd (ground arith)
of_field_changes input none d h = absurd (ground arith)

pub draft_changes :
    {N : Type 0} (trigger : EvolutionTrigger) (input : Option (StrategyInput N))
    (d : ProposalDraft N)
    → planned trigger input ≡ some d
    → d.changes ≢ []
unfolding planned propose
draft_changes trigger none d h = absurd (ground arith)
draft_changes trigger (some input) d h =
    ground (arith, of_field_changes input (lookup "repair_field" input.working_set) d)
