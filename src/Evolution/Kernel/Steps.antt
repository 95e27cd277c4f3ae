-- ===== src/Evolution/Kernel/Steps.antt =====
-- What the steps of the slice do where their constructors' checks pass, which they always do
-- (src/ueaf/evolution/kernel.py).
use agent_ueaf.Common.{
  ℕ, ◌+◌, String, ◌≢◌, ◌≡◌, refl, true, Option, none, [], eq_refl, eq_iff, arith, Dict.insert,
}
use agent_ueaf.Common.Exec.{ok, ◌>>=◌}
use agent_ueaf.Contract.{World, object_id, ContractMeta, starts_upper, new_meta}
use agent_ueaf.Contract.Facts.{truthy-object_id, validate-new_meta}
use agent_ueaf.Evolution.Objects.{
  RunStatus, ProposalStatus, validated, MutationProposal, validate_run, validate_proposal,
  validate_genome,
}
use agent_ueaf.Evolution.Kernel.{KernelState, fresh_id, meta_of}
use agent_ueaf.Evolution.Strategy.{ProposalDraft}
use agent_ueaf.Evolution.Kernel.Run.{
  proposal_of, genome_of, Ticket, run_with, note_run, mark_proposal, finalize_proposal, materialize,
}

abbrev pub meta_at : World → String → String → ℕ → ℕ → ContractMeta
meta_at w name prefix n m =
    new_meta name (object_id w prefix n) "tenant-evolution" (w.now m) "ueaf-evolution" "0.1.0"

module _ {N : Type 0} where
  pub meta_of_lem :
      (w : World) (name prefix : String) (n : ℕ) (s : KernelState N)
      → starts_upper name ≡ true
      → meta_of w name (object_id w prefix n) s
        ≡ (ok (meta_at w name prefix n s.clock_reads), record s { clock_reads = s.clock_reads + 1 })
  unfolding meta_of ◌>>=◌
  meta_of_lem w name prefix n s h = rw (
      validate-new_meta name (object_id w prefix n) "tenant-evolution" (w.now s.clock_reads)
        "ueaf-evolution" "0.1.0" h (truthy-object_id w prefix n) refl refl refl)

  pub note_run_lem :
      (t : Ticket) (status : RunStatus) (p c : Option String) (s : KernelState N)
      → t.run_id ≡ t.meta.object_id
      → note_run t status p c s ≡ (
        ok (run_with t status p c),
        record s { runs = insert t.run_id (run_with t status p c) s.runs },
      )
  unfolding note_run ◌>>=◌ validate_run
  note_run_lem t status p c s h = rw (h, eq_refl t.meta.object_id)

  pub mark_proposal_lem :
      (status : ProposalStatus) (p : MutationProposal N) (s : KernelState N)
      → validate_proposal p ≡ none
      → mark_proposal status p s ≡ (
        ok (record p { status = status }),
        record s {
          proposals = insert p.mutation_proposal_id (record p { status = status }) s.proposals;
        },
      )
  unfolding mark_proposal ◌>>=◌ validate_proposal
  mark_proposal_lem status p s h = ground arith

  pub sound_draft :
      (d : ProposalDraft N) (trigger_ref : String) (m : ContractMeta) (proposal_id : String)
      → m.object_id ≡ proposal_id
      → d.changes ≢ []
      → validate_proposal (proposal_of d trigger_ref m proposal_id) ≡ none
  unfolding validate_proposal
  sound_draft d trigger_ref m proposal_id e h =
      ground (arith, e, h, eq_refl proposal_id, eq_iff proposal_id m.object_id)

  pub finalize_proposal_lem :
      (w : World) (d : ProposalDraft N) (trigger_ref : String) (s : KernelState N)
      → d.changes ≢ []
      → let p =
          proposal_of d trigger_ref
            (meta_at w "MutationProposal" "mutation" s.drawn s.clock_reads)
            (object_id w "mutation" s.drawn) in
        finalize_proposal w d trigger_ref s ≡ (
          ok p,
          record s {
            proposals = insert p.mutation_proposal_id p s.proposals;
            clock_reads = s.clock_reads + 1;
            drawn = s.drawn + 1;
          },
        )
  unfolding finalize_proposal ◌>>=◌ fresh_id starts_upper
  finalize_proposal_lem w d trigger_ref s h = rw (
    meta_of_lem w "MutationProposal" "mutation" s.drawn (record s { drawn = s.drawn + 1 }) refl,
    sound_draft d trigger_ref (meta_at w "MutationProposal" "mutation" s.drawn s.clock_reads)
        (object_id w "mutation" s.drawn) refl h,
  )

  pub materialize_lem :
      (w : World) (p : MutationProposal N) (s : KernelState N)
      → p.status ≡ validated
      → let g =
          genome_of p
            (meta_at w "GenomeManifest" "genome" s.drawn s.clock_reads)
            (object_id w "genome" s.drawn) in
        materialize w p s ≡ (
          ok g,
          record s {
            genomes = insert g.genome_id g s.genomes;
            clock_reads = s.clock_reads + 1;
            drawn = s.drawn + 1;
          },
        )
  unfolding materialize ◌>>=◌ fresh_id validate_genome starts_upper
  materialize_lem w p s h = rw (
    h,
    meta_of_lem w "GenomeManifest" "genome" s.drawn (record s { drawn = s.drawn + 1 }) refl,
    eq_refl (object_id w "genome" s.drawn),
  )
