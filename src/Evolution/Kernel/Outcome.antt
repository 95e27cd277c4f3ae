-- ===== src/Evolution/Kernel/Outcome.antt =====
-- How `run_evolution` ends (src/ueaf/evolution/kernel.py).
use agent_ueaf.Common.{
  ◌+◌, String, ◌≢◌, ◌≡◌, refl, Bool, true, false, Option, none, some, [], arith, ap, sym, subst,
  Dict.lookup, Dict.insert, Dict.lookup-insert_self, Bool_cases, Option_cases, inl, inr,
}
use agent_ueaf.Common.Exec.{ok, ◌>>=◌}
use agent_ueaf.Contract.{World, object_id, starts_upper}
use agent_ueaf.Evolution.Objects.{
  RunStatus, running, completed, no_evolution_needed, aborted, validated, rejected,
  EvolutionTrigger, MutationProposal, GenomeManifest, validate_proposal,
}
use agent_ueaf.Evolution.Strategy.{ProposalDraft, StrategyInput}
use agent_ueaf.Evolution.Validator.{validate}
use agent_ueaf.Evolution.Validator.Admissible.{IsAdmissible, validate_iff}
use agent_ueaf.Evolution.Kernel.{KernelState, EvolutionKernel, fresh_id}
use agent_ueaf.Evolution.Kernel.Run.{
  Ticket, run_with, route, symptom_of, proposal_of, genome_of, note_run, call_hook, conclude,
  with_draft, with_input, with_outcome, run_evolution,
}
use agent_ueaf.Evolution.Kernel.Steps.{
  meta_at, meta_of_lem, note_run_lem, mark_proposal_lem, finalize_proposal_lem, sound_draft,
  materialize_lem,
}
use agent_ueaf.Evolution.Kernel.Ending.{
  planned, HookAnswers, Stems, Ending, idle, refused, built, Ends, same_verdict, moved,
  draft_changes,
}

module _ {N : Type 0} (below : N → N → Bool) (k : EvolutionKernel N) where
  module _ (w : World) (t : Ticket) (h : t.run_id ≡ t.meta.object_id) (s : KernelState N) where
    noted :
        {d : Option (ProposalDraft N)} (status : RunStatus) (p c : Option String)
        (s₁ : KernelState N)
        → Ending below k s
            (run_with t status p c)
            (record s₁ { runs = insert t.run_id (run_with t status p c) s₁.runs })
            d
        → Ends below k s d (note_run t status p c) s₁
    noted {d} status p c s₁ ending =
        let e = note_run_lem t status p c s₁ h in
        record {
          run = run_with t status p c;
          returned = ap (λ x. x.0) e;
          stored =
              subst (λ x. lookup t.run_id x.1.runs ≡ some (run_with t status p c)) (sym e)
                (lookup-insert_self t.run_id (run_with t status p c) s₁.runs);
          ending = subst (λ x. Ending below k s (run_with t status p c) x.1 d) (sym e) ending;
        }

    ends_idle :
        (s₁ : KernelState N)
        → s₁.proposals ≡ s.proposals
        → s₁.genomes ≡ s.genomes
        → Ends below k s none (note_run t no_evolution_needed none none) s₁
    ends_idle s₁ hp hg = noted no_evolution_needed none none s₁ (idle refl hp hg)

    ends_refused :
        (d : ProposalDraft N) (p : MutationProposal N) (s₁ : KernelState N)
        → Stems d p
        → validate_proposal p ≡ none
        → ¬ IsAdmissible below k.validator p
        → s₁.genomes ≡ s.genomes
        → Ends below k s (some d) (conclude below w k t false p) s₁
    unfolding conclude ◌>>=◌
    ends_refused d p s₁ stems v no_way hg =
        let q = record p { status = rejected } in
        moved below k (conclude below w k t false p)
          (note_run t aborted (some p.mutation_proposal_id) none) s₁
          (record s₁ { proposals = insert p.mutation_proposal_id q s₁.proposals })
          (rw (mark_proposal_lem rejected p s₁ v))
          (noted aborted (some p.mutation_proposal_id) none
            (record s₁ { proposals = insert p.mutation_proposal_id q s₁.proposals })
            (refused q
              (record {
                same_target = stems.same_target;
                same_level = stems.same_level;
                same_changes = stems.same_changes;
              })
              (λ a. no_way (same_verdict below k q p.status a)) refl refl refl
              (lookup-insert_self p.mutation_proposal_id q s₁.proposals) hg))

    module _ (answers : HookAnswers k) where
      hook_answer :
          (g : GenomeManifest N) (s₁ : KernelState N)
          → (c : Option String) × (call_hook k.candidate_build_hook g s₁ ≡ (ok c, s₁))
      unfolding call_hook ◌>>=◌
      hook_answer g s₁ = elim (Option_cases k.candidate_build_hook) [
        | inl e ↦ (none, rw e)
        | inr (hook, e) ↦ let (c, ec) = answers hook e g in (some c, rw (e, ec))
      ]

      ends_built :
          (d : ProposalDraft N) (p : MutationProposal N) (s₁ : KernelState N)
          → Stems d p
          → validate_proposal p ≡ none
          → IsAdmissible below k.validator p
          → Ends below k s (some d) (conclude below w k t true p) s₁
      unfolding conclude ◌>>=◌
      ends_built d p s₁ stems v fits =
          let q = record p { status = validated } in
          let s₂ : KernelState N = record s₁ {
            proposals = insert p.mutation_proposal_id q s₁.proposals;
          } in
          let g =
            genome_of q (meta_at w "GenomeManifest" "genome" s₂.drawn s₂.clock_reads)
              (object_id w "genome" s₂.drawn) in
          let s₃ : KernelState N = record s₂ {
            genomes = insert g.genome_id g s₂.genomes;
            clock_reads = s₂.clock_reads + 1;
            drawn = s₂.drawn + 1;
          } in
          let (c, ec) = hook_answer g s₃ in
          moved below k (conclude below w k t true p)
            (note_run t completed (some p.mutation_proposal_id) c) s₁ s₃
            (rw (mark_proposal_lem validated p s₁ v, materialize_lem w q s₂ refl, ec))
            (noted completed (some p.mutation_proposal_id) c s₃ (
              built q g
                (record {
                  same_target = stems.same_target;
                  same_level = stems.same_level;
                  same_changes = stems.same_changes;
                })
                (same_verdict below k p validated fits) refl refl refl
                (lookup-insert_self p.mutation_proposal_id q s₁.proposals) (refl, refl, refl)
                (lookup-insert_self g.genome_id g s₂.genomes)))

      ends_without :
          (s₁ : KernelState N)
          → s₁.proposals ≡ s.proposals
          → s₁.genomes ≡ s.genomes
          → Ends below k s none (with_draft below w k t none) s₁
      unfolding with_draft
      ends_without s₁ hp hg = ends_idle s₁ hp hg

      ends_draft :
          (d : ProposalDraft N) (s₁ : KernelState N)
          → d.changes ≢ []
          → s₁.genomes ≡ s.genomes
          → Ends below k s (some d) (with_draft below w k t (some d)) s₁
      unfolding with_draft ◌>>=◌
      ends_draft d s₁ hd hg =
          let p =
            proposal_of d t.trigger_ref
              (meta_at w "MutationProposal" "mutation" s₁.drawn s₁.clock_reads)
              (object_id w "mutation" s₁.drawn) in
          let s₂ : KernelState N = record s₁ {
            proposals = insert p.mutation_proposal_id p s₁.proposals;
            clock_reads = s₁.clock_reads + 1;
            drawn = s₁.drawn + 1;
          } in
          let valid = (validate below k.validator p).valid in
          let stems : Stems d p = record {
            same_target = refl;
            same_level = refl;
            same_changes = refl;
          } in
          let sound =
            sound_draft d t.trigger_ref
              (meta_at w "MutationProposal" "mutation" s₁.drawn s₁.clock_reads)
              (object_id w "mutation" s₁.drawn) refl hd in
          moved below k (with_draft below w k t (some d)) (conclude below w k t valid p) s₁ s₂
            (rw (finalize_proposal_lem w d t.trigger_ref s₁ hd))
            elim (Bool_cases valid) [
              | inl e ↦
                  subst (λ b. Ends below k s (some d) (conclude below w k t b p) s₂) (sym e)
                    (ends_built d p s₂ stems sound ((validate_iff below k.validator p).0 e))
              | inr e ↦
                  subst (λ b. Ends below k s (some d) (conclude below w k t b p) s₂) (sym e)
                    (ends_refused d p s₂ stems sound
                      (λ a. absurd (ground (arith, e, (validate_iff below k.validator p).1 a))) hg)
            ]

pub outcome_planned :
    {N : Type 0} (below : N → N → Bool) (w : World) (k : EvolutionKernel N) (t : Ticket)
    (trigger : EvolutionTrigger) (input : Option (StrategyInput N))
    → with_outcome below w k t (route (symptom_of input) trigger.evidence_refs).outcome input
      ≡ with_draft below w k t (planned trigger input)
unfolding with_outcome with_input with_draft route planned
outcome_planned below w k t trigger none = ground arith
outcome_planned below w k t trigger (some input) = ground arith

-- `run_evolution` always returns a run, which is then stored, where the hook that builds candidates
-- does not raise: with neither proposal nor genome where there is nothing to mutate or the strategy
-- has no draft, with the draft stored as a rejected proposal and no genome where the draft is not
-- admissible, and with the draft stored as a validated proposal and a genome of the same target and
-- changes where it is.
pub run_evolution-Ends :
    {N : Type 0} (below : N → N → Bool) (w : World) (k : EvolutionKernel N)
    (trigger : EvolutionTrigger) (input : Option (StrategyInput N)) (s : KernelState N)
    → HookAnswers k
    → Ends below k s (planned trigger input) (run_evolution below w k trigger input) s
unfolding run_evolution ◌>>=◌ fresh_id starts_upper
run_evolution-Ends {N} below w k trigger input s answers =
    let t : Ticket = record {
      meta = meta_at w "EvolutionRun" "evolution-run" s.drawn s.clock_reads;
      run_id = object_id w "evolution-run" s.drawn;
      trigger_ref = trigger.evolution_trigger_id;
    } in
    let s₁ : KernelState N = record s {
      runs = insert t.run_id (run_with t running none none) s.runs;
      clock_reads = s.clock_reads + 1;
      drawn = s.drawn + 1;
    } in
    moved below k (run_evolution below w k trigger input)
      (with_draft below w k t (planned trigger input)) s s₁
      (rw (
        meta_of_lem w "EvolutionRun" "evolution-run" s.drawn (record s { drawn = s.drawn + 1 })
            refl,
        note_run_lem t running none none
            (record s { drawn = s.drawn + 1; clock_reads = s.clock_reads + 1 }) refl,
        outcome_planned below w k t trigger input,
      ))
      elim (Option_cases (planned trigger input)) [
        | inl e ↦
            subst (λ o. Ends below k s o (with_draft below w k t o) s₁) (sym e)
              (ends_without below k w t refl s answers s₁ refl refl)
        | inr (d, e) ↦
            subst (λ o. Ends below k s o (with_draft below w k t o) s₁) (sym e)
              (ends_draft below k w t refl s answers d s₁ (draft_changes trigger input d e) refl)
      ]
