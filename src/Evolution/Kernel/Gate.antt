-- ===== src/Evolution/Kernel/Gate.antt =====
-- What holds of every state that a kernel of evolution gets to (src/ueaf/evolution/kernel.py): how
-- many triggers it has and for which candidates.
use agent_ueaf.Common.{
  ℕ, ◌+◌, ◌≤◌, String, ◌≢◌, ◌≡◌, refl, true, false, Option, List, [], ◌∷◌, arith, length, leb→lt,
  All, eq_iff, eq_refl, str_eq, if_cases, Dict.Dict, Dict.insert,
}
use agent_ueaf.Common.Sets.{member, add, Distinct, member-add}
use agent_ueaf.Contract.{World}
use agent_ueaf.Evolution.Objects.{EvolutionTrigger}
use agent_ueaf.Evolution.Kernel.{KernelState, EvolutionKernel, register_trigger}
use agent_ueaf.Evolution.Kernel.Triggers.{register_trigger_cases, trigger_of, at_gate, or_now}

abbrev pub candidates : Dict EvolutionTrigger → List String
candidates [] = []
candidates ((_, t) ∷ d) = t.candidate_ref ∷ candidates d

-- The policy's limit holds, no candidate has two triggers, every trigger has evidence, and the
-- candidates are among the keys that the gate remembers.
pub record IsGated {N : Type 0} (k : EvolutionKernel N) (s : KernelState N) : Type 0 where
  pub bounded : length s.triggers ≤ k.authority.max_triggers_per_window
  pub distinct : Distinct (candidates s.triggers)
  pub known : All (λ c. member c s.recent_trigger_keys ≡ true) (candidates s.triggers)
  pub evidenced : All (λ e. e.1.evidence_refs ≢ []) s.triggers

length-insert :
    {V : Type 0} (j : String) (v : V) (d : Dict V) → length (insert j v d) ≤ length d + 1
unfolding insert
length-insert j v [] = omega arith
length-insert j v ((i, w) ∷ d) = ground (arith, length-insert j v d)

All-insert :
    {V : Type 0} (P : String × V → Type 0) (j : String) (v : V) (d : Dict V)
    → ((i : String) → P (i, v))
    → All P d
    → All P (insert j v d)
unfolding insert
All-insert P j v [] h hs = (h j, tt)
All-insert P j v ((i, w) ∷ d) h hs =
    if_cases (All P) (str_eq i j) ((i, v) ∷ d) ((i, w) ∷ insert j v d) (λ _. (h i, hs.1))
      λ _. (hs.0, All-insert P j v d h hs.1)

known_grows :
    (x : String) (keys cs : List String)
    → All (λ c. member c keys ≡ true) cs
    → All (λ c. member c (add x keys) ≡ true) cs
known_grows x keys [] h = tt
known_grows x keys (c ∷ cs) h = (ground (arith, member-add c x keys), known_grows x keys cs h.1)

module _ (j : String) (t : EvolutionTrigger) where
  Fresh-insert :
      (c : String) (d : Dict EvolutionTrigger)
      → str_eq t.candidate_ref c ≡ false
      → member c (candidates d) ≡ false
      → member c (candidates (insert j t d)) ≡ false
  unfolding insert member
  Fresh-insert c [] h k = ground arith
  Fresh-insert c ((i, u) ∷ d) h k = ground (arith, Fresh-insert c d)

  Distinct-insert :
      (d : Dict EvolutionTrigger)
      → member t.candidate_ref (candidates d) ≡ false
      → Distinct (candidates d)
      → Distinct (candidates (insert j t d))
  unfolding insert member
  Distinct-insert [] h hs = (refl, tt)
  Distinct-insert ((i, u) ∷ d) h hs = ground (
    arith,
    Distinct-insert d,
    Fresh-insert u.candidate_ref d,
    eq_iff t.candidate_ref u.candidate_ref,
    eq_iff u.candidate_ref t.candidate_ref,
  )

  remembered : (keys : List String) → member t.candidate_ref (add t.candidate_ref keys) ≡ true
  remembered keys =
      ground (arith, member-add t.candidate_ref t.candidate_ref keys, eq_refl t.candidate_ref)

  Known-insert :
      (keys : List String) (d : Dict EvolutionTrigger)
      → All (λ c. member c keys ≡ true) (candidates d)
      → All (λ c. member c (add t.candidate_ref keys) ≡ true) (candidates (insert j t d))
  unfolding insert
  Known-insert keys [] h = (remembered keys, tt)
  Known-insert keys ((i, u) ∷ d) h =
      if_cases (λ e. All (λ c. member c (add t.candidate_ref keys) ≡ true) (candidates e))
        (str_eq i j) ((i, t) ∷ d) ((i, u) ∷ insert j t d)
        (λ _. (remembered keys, known_grows t.candidate_ref keys (candidates d) h.1))
        λ _.
          (ground (arith, member-add u.candidate_ref t.candidate_ref keys), Known-insert keys d h.1)

unknown :
    (c : String) (keys : List String) (d : Dict EvolutionTrigger)
    → All (λ c. member c keys ≡ true) (candidates d)
    → member c keys ≡ false
    → member c (candidates d) ≡ false
unfolding member
unknown c keys [] h k = refl
unknown c keys ((i, u) ∷ d) h k = ground (arith, eq_iff u.candidate_ref c, unknown c keys d)

module _ {N : Type 0} (w : World) (k : EvolutionKernel N) where
  -- Whatever `register_trigger` answers, it keeps the kernel gated.
  pub register_trigger-IsGated :
      (candidate : String) (reasons evidence : List String) (cooldown : Option ℕ)
      (s : KernelState N)
      → IsGated k s
      → IsGated k (register_trigger w k candidate reasons evidence cooldown s).1
  register_trigger-IsGated candidate reasons evidence cooldown s g =
      register_trigger_cases w k candidate reasons evidence cooldown s (λ x. IsGated k x.1) g
        (λ message n d. record {
          bounded = g.bounded;
          distinct = g.distinct;
          known = g.known;
          evidenced = g.evidenced;
        })
        λ room fresh shown reasoned.
          let t =
            trigger_of w (at_gate w k cooldown s) candidate reasons evidence
              (or_now k s cooldown) in
          record {
            bounded = ground (
              arith,
              length-insert t.evolution_trigger_id t s.triggers,
              leb→lt k.authority.max_triggers_per_window (length s.triggers) room,
            );
            distinct =
                Distinct-insert t.evolution_trigger_id t s.triggers
                  (unknown candidate s.recent_trigger_keys s.triggers g.known fresh) g.distinct;
            known = Known-insert t.evolution_trigger_id t s.recent_trigger_keys s.triggers g.known;
            evidenced =
                All-insert (λ e. e.1.evidence_refs ≢ []) t.evolution_trigger_id t s.triggers
                  (λ _. shown) g.evidenced;
          }
