-- ===== src/Evolution/Kernel/Reach.antt =====
-- Sequences of calls of a kernel's methods (src/ueaf/evolution/kernel.py).
use agent_ueaf.Common.{
  ℕ, String, ◌≡◌, refl, Bool, true, Option, none, some, List, [], arith, eq_refl,
}
use agent_ueaf.Common.Exec.{ok}
use agent_ueaf.Common.Sets.{member, member-add}
use agent_ueaf.Contract.{World}
use agent_ueaf.Evolution.Objects.{EvolutionTrigger, MutationProposal}
use agent_ueaf.Evolution.Strategy.{StrategyInput}
use agent_ueaf.Evolution.Kernel.{KernelState, EvolutionKernel, register_trigger}
use agent_ueaf.Evolution.Kernel.Run.{run_evolution, materialize}
use agent_ueaf.Evolution.Kernel.Triggers.{register_trigger_cases}
use agent_ueaf.Evolution.Kernel.Gate.{IsGated, register_trigger-IsGated}
use agent_ueaf.Evolution.Kernel.Keeps.{Keeps-run_evolution, Keeps-materialize}

-- A kernel that has just been made, wherever the clock and the tokens stand.
abbrev pub new_kernel : {N : Type 0} → ℕ → ℕ → KernelState N
new_kernel clock_reads drawn = record {
  triggers = [];
  runs = [];
  proposals = [];
  genomes = [];
  recent_trigger_keys = [];
  clock_reads = clock_reads;
  drawn = drawn;
}

module _ {N : Type 0} (below : N → N → Bool) (w : World) (k : EvolutionKernel N) where
  -- One call of a public method that changes the kernel, whether it raises or not.
  pub data Call (s : KernelState N) : KernelState N → Type 0 where
    registers :
        (candidate : String) (reasons evidence : List String) (cooldown : Option ℕ)
        → Call s (register_trigger w k candidate reasons evidence cooldown s).1
    evolves :
        (trigger : EvolutionTrigger) (input : Option (StrategyInput N))
        → Call s (run_evolution below w k trigger input s).1
    materializes : (p : MutationProposal N) → Call s (materialize w p s).1

  pub data Calls (s : KernelState N) : KernelState N → Type 0 where
    here : Calls s s
    then : {a b : KernelState N} → Calls s a → Call a b → Calls s b

  regated :
      {s s' : KernelState N}
      → (s'.triggers ≡ s.triggers) × (s'.recent_trigger_keys ≡ s.recent_trigger_keys)
      → IsGated k s
      → IsGated k s'
  regated h g = record {
    bounded = rw (h.0) g.bounded;
    distinct = rw (h.0) g.distinct;
    known = rw (h.0, h.1) g.known;
    evidenced = rw (h.0) g.evidenced;
  }

  Call-IsGated : {s s' : KernelState N} → Call s s' → IsGated k s → IsGated k s'
  Call-IsGated {s} (registers candidate reasons evidence cooldown) g =
      register_trigger-IsGated w k candidate reasons evidence cooldown s g
  Call-IsGated {s} (evolves trigger input) g =
      regated
        ((Keeps-run_evolution s.triggers s.recent_trigger_keys below w k trigger input).at s
          (refl, refl))
        g
  Call-IsGated {s} (materializes p) g =
      regated ((Keeps-materialize s.triggers s.recent_trigger_keys w p).at s (refl, refl)) g

  -- However a kernel is used from the start on, it never has more triggers than the policy's limit,
  -- never two for one candidate, and none without evidence.
  pub Calls-IsGated : (n m : ℕ) (s : KernelState N) → Calls (new_kernel n m) s → IsGated k s
  Calls-IsGated n m s here = record {
    bounded = omega arith;
    distinct = tt;
    known = tt;
    evidenced = tt;
  }
  Calls-IsGated n m s (then {a} cs c) = Call-IsGated c (Calls-IsGated n m a cs)

  Call-Remembers :
      (c : String) {s s' : KernelState N}
      → Call s s'
      → member c s.recent_trigger_keys ≡ true
      → member c s'.recent_trigger_keys ≡ true
  Call-Remembers c {s} (registers candidate reasons evidence cooldown) h =
      register_trigger_cases w k candidate reasons evidence cooldown s
        (λ x. member c x.1.recent_trigger_keys ≡ true) h (λ message n d. h)
        λ room fresh shown reasoned. ground (arith, member-add c candidate s.recent_trigger_keys)
  Call-Remembers c {s} (evolves trigger input) h =
      rw
        (((Keeps-run_evolution s.triggers s.recent_trigger_keys below w k trigger input).at s
          (refl, refl)).1)
        h
  Call-Remembers c {s} (materializes p) h =
      rw (((Keeps-materialize s.triggers s.recent_trigger_keys w p).at s (refl, refl)).1) h

  Calls-Remembers :
      (c : String) {s s' : KernelState N}
      → Calls s s'
      → member c s.recent_trigger_keys ≡ true
      → member c s'.recent_trigger_keys ≡ true
  Calls-Remembers c here h = h
  Calls-Remembers c (then cs x) h = Call-Remembers c x (Calls-Remembers c cs h)

  remembers_first :
      (candidate : String) (reasons evidence : List String) (cooldown : Option ℕ)
      (s : KernelState N) (t : EvolutionTrigger)
      → (register_trigger w k candidate reasons evidence cooldown s).0 ≡ ok (some t)
      → member candidate
          (register_trigger w k candidate reasons evidence cooldown s).1.recent_trigger_keys
        ≡ true
  remembers_first candidate reasons evidence cooldown s t =
      register_trigger_cases w k candidate reasons evidence cooldown s
        (λ x. x.0 ≡ ok (some t) → member candidate x.1.recent_trigger_keys ≡ true)
        (λ h. absurd (ground arith)) (λ message n d h. absurd (ground arith))
        λ room fresh shown reasoned h.
          ground (arith, member-add candidate candidate s.recent_trigger_keys, eq_refl candidate)

  -- Once a candidate has had a trigger, no later call of `register_trigger` for it makes another,
  -- whatever its reasons, evidence and cooldown and whatever was called in between: it answers
  -- `None` and changes nothing. How much time has passed since makes no difference.
  pub register_trigger_once :
      (candidate : String) (reasons evidence reasons' evidence' : List String)
      (cooldown cooldown' : Option ℕ) (s s' : KernelState N) (t : EvolutionTrigger)
      → (register_trigger w k candidate reasons evidence cooldown s).0 ≡ ok (some t)
      → Calls (register_trigger w k candidate reasons evidence cooldown s).1 s'
      → register_trigger w k candidate reasons' evidence' cooldown' s' ≡ (ok none, s')
  unfolding register_trigger
  register_trigger_once candidate reasons evidence reasons' evidence' cooldown cooldown' s s' t h
        cs =
      let known =
        Calls-Remembers candidate cs (remembers_first candidate reasons evidence cooldown s t h) in
      ground (arith, known)
