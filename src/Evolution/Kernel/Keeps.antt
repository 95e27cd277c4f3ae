-- ===== src/Evolution/Kernel/Keeps.antt =====
-- The slice leaves the gate of the triggers alone (src/ueaf/evolution/kernel.py), also where the hook
-- that builds candidates raises.
use agent_ueaf.Common.{
  String, ◌≡◌, subst, sym, Bool, true, false, not, Option, none, some, List, Dict.Dict,
}
use agent_ueaf.Common.Exec.{Result, lift, ◌>>=◌}
use agent_ueaf.Common.Exec.Rules.{
  Triple, Always, Triple-bind, Triple-lift, Triple-pure, Triple-raise, Triple-if,
}
use agent_ueaf.Contract.{World}
use agent_ueaf.Evolution.Objects.{
  RunStatus, no_evolution_needed, running, completed, aborted, validated, rejected, ProposalStatus,
  EvolutionTrigger, MutationProposal, GenomeManifest, is_validated,
}
use agent_ueaf.Evolution.Kernel.Ending.{planned}
use agent_ueaf.Evolution.Kernel.Outcome.{outcome_planned}
use agent_ueaf.Evolution.Strategy.{ProposalDraft, StrategyInput}
use agent_ueaf.Evolution.Validator.{validate}
use agent_ueaf.Evolution.Kernel.{KernelState, EvolutionKernel, M, fresh_id, meta_of, read}
use agent_ueaf.Evolution.Kernel.Run.{
  Ticket, note_run, finalize_proposal, mark_proposal, materialize, call_hook, conclude, with_draft,
  run_evolution,
}

module _ {N : Type 0} (d : Dict EvolutionTrigger) (keys : List String) where
  -- The triggers and the keys are these.
  abbrev pub Untouched : KernelState N → Type 0
  Untouched s = (s.triggers ≡ d) × (s.recent_trigger_keys ≡ keys)

  abbrev pub Keeps : {A : Type 0} → M N A → Type 0
  Keeps m = Triple Untouched m (Always Untouched)

  same : (s : KernelState N) → Untouched s → Untouched s
  same s h = h

  after :
      {A B : Type 0} (m : M N A) (f : A → M N B)
      → Keeps m
      → ((a : A) → Keeps (f a))
      → Keeps (m >>= f)
  after m f hm hf = Triple-bind m f hm same hf

  settled :
      {A B : Type 0} (r : Result String A) (f : A → M N B)
      → ((a : A) → Keeps (f a))
      → Keeps (lift r >>= f)
  settled r f hf = Triple-lift r f same (λ a _. hf a)

  Keeps-fresh_id : (w : World) (prefix : String) → Keeps (fresh_id w prefix)
  unfolding fresh_id
  Keeps-fresh_id w prefix = record { at = λ s h. h }

  Keeps-meta_of : (w : World) (name oid : String) → Keeps (meta_of w name oid)
  unfolding meta_of ◌>>=◌ read
  Keeps-meta_of w name oid = record { at = λ s h. h }

  Keeps-note_run :
      (t : Ticket) (status : RunStatus) (p c : Option String) → Keeps (note_run t status p c)
  unfolding note_run
  Keeps-note_run t status p c = settled _ _ λ r. record { at = λ s h. h }

  Keeps-finalize_proposal :
      (w : World) (x : ProposalDraft N) (trigger_ref : String)
      → Keeps (finalize_proposal w x trigger_ref)
  unfolding finalize_proposal
  Keeps-finalize_proposal w x trigger_ref = after _ _ (Keeps-fresh_id w "mutation") λ oid.
      after _ _ (Keeps-meta_of w "MutationProposal" oid)
        λ m. settled _ _ λ p. record { at = λ s h. h }

  Keeps-mark_proposal :
      (status : ProposalStatus) (p : MutationProposal N) → Keeps (mark_proposal status p)
  unfolding mark_proposal
  Keeps-mark_proposal status p = settled _ _ λ q. record { at = λ s h. h }

  pub Keeps-materialize : (w : World) (p : MutationProposal N) → Keeps (materialize w p)
  unfolding materialize
  Keeps-materialize w p =
      Triple-if (not (is_validated p.status)) _ _ (λ _. Triple-raise same _)
        λ _. after _ _ (Keeps-fresh_id w "genome") λ oid.
          after _ _ (Keeps-meta_of w "GenomeManifest" oid)
            λ m. settled _ _ λ g. record { at = λ s h. h }

  Keeps-call_hook :
      (hook : Option (GenomeManifest N → Result String String)) (g : GenomeManifest N)
      → Keeps (call_hook hook g)
  unfolding call_hook
  Keeps-call_hook none g = Triple-pure same none
  Keeps-call_hook (some hook) g = settled (hook g) _ λ c. Triple-pure same (some c)

  module _ (below : N → N → Bool) (w : World) (k : EvolutionKernel N) where
    Keeps-conclude :
        (t : Ticket) (valid : Bool) (p : MutationProposal N) → Keeps (conclude below w k t valid p)
    unfolding conclude
    Keeps-conclude t false p =
        after _ _ (Keeps-mark_proposal rejected p) λ q. Keeps-note_run t aborted _ none
    Keeps-conclude t true p = after _ _ (Keeps-mark_proposal validated p) λ q.
        after _ _ (Keeps-materialize w q) λ g.
          after _ _ (Keeps-call_hook k.candidate_build_hook g) λ c. Keeps-note_run t completed _ c

    Keeps-with_draft :
        (t : Ticket) (x : Option (ProposalDraft N)) → Keeps (with_draft below w k t x)
    unfolding with_draft
    Keeps-with_draft t none = Keeps-note_run t no_evolution_needed none none
    Keeps-with_draft t (some x) =
        after _ _ (Keeps-finalize_proposal w x t.trigger_ref)
          λ p. Keeps-conclude t (validate below k.validator p).valid p

    pub Keeps-run_evolution :
        (trigger : EvolutionTrigger) (input : Option (StrategyInput N))
        → Keeps (run_evolution below w k trigger input)
    unfolding run_evolution
    Keeps-run_evolution trigger input = after _ _ (Keeps-fresh_id w "evolution-run") λ oid.
        after _ _ (Keeps-meta_of w "EvolutionRun" oid) λ m.
          let t : Ticket = record {
            meta = m;
            run_id = oid;
            trigger_ref = trigger.evolution_trigger_id;
          } in
          after _ _ (Keeps-note_run t running none none) λ _.
            subst Keeps (sym (outcome_planned below w k t trigger input))
              (Keeps-with_draft t (planned trigger input))
