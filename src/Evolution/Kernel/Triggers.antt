-- ===== src/Evolution/Kernel/Triggers.antt =====
-- The gate of the triggers (src/ueaf/evolution/kernel.py, `register_trigger`).
use agent_ueaf.Common.{
  ℕ, ◌+◌, ◌*◌, String, ◌≢◌, ◌≡◌, refl, ap, false, Option, none, some, List, [], ◌∷◌, arith, length,
  leb, is_empty, eq_refl, if_cases, Dict.insert,
}
use agent_ueaf.Common.Exec.{Result, ok, err, ◌>>=◌}
use agent_ueaf.Common.Sets.{member, add}
use agent_ueaf.Contract.{World, object_id, starts_upper}
use agent_ueaf.Evolution.Objects.{EvolutionTrigger, validate_trigger}
use agent_ueaf.Evolution.Kernel.{
  KernelState, EvolutionKernel, fresh_id, cooldown_of, make_trigger, create_trigger,
  register_trigger,
}
use agent_ueaf.Evolution.Kernel.Steps.{meta_at, meta_of_lem}

abbrev pub or_now : {N : Type 0} → EvolutionKernel N → KernelState N → Option ℕ → ℕ
or_now k s (some t) = t
or_now k s none = k.now s.clock_reads + k.authority.cooldown_seconds * 1000000

abbrev pub reads : Option ℕ → ℕ
reads (some t) = 0
reads none = 1

-- The trigger that an open gate makes.
abbrev pub trigger_of :
    {N : Type 0} → World → KernelState N → String → List String → List String → ℕ → EvolutionTrigger
trigger_of w s candidate reasons evidence expires_at = record {
  meta = meta_at w "EvolutionTrigger" "trigger" s.drawn s.clock_reads;
  evolution_trigger_id = object_id w "trigger" s.drawn;
  candidate_ref = candidate;
  reason_codes = reasons;
  evidence_refs = evidence;
  cooldown_expires_at = some expires_at;
}

abbrev pub with_trigger : {N : Type 0} → KernelState N → EvolutionTrigger → KernelState N
with_trigger s t = record s {
  triggers = insert t.evolution_trigger_id t s.triggers;
  recent_trigger_keys = add t.candidate_ref s.recent_trigger_keys;
  clock_reads = s.clock_reads + 1;
  drawn = s.drawn + 1;
}

module _ {N : Type 0} (w : World) where
  make_trigger_lem :
      (candidate : String) (reasons evidence : List String) (expires_at : ℕ) (s : KernelState N)
      → reasons ≢ []
      → let t = trigger_of w s candidate reasons evidence expires_at in
        make_trigger w candidate reasons evidence expires_at s ≡ (ok (some t), with_trigger s t)
  unfolding make_trigger ◌>>=◌ fresh_id starts_upper validate_trigger
  make_trigger_lem candidate [] evidence expires_at s h = absurd (h refl)
  make_trigger_lem candidate (r ∷ rs) evidence expires_at s h = rw (
    meta_of_lem w "EvolutionTrigger" "trigger" s.drawn (record s { drawn = s.drawn + 1 }) refl,
    eq_refl (object_id w "trigger" s.drawn),
  )

  make_trigger_unreasoned :
      (candidate : String) (evidence : List String) (expires_at : ℕ) (s : KernelState N)
      → make_trigger w candidate [] evidence expires_at s ≡ (
        err "EvolutionTrigger.reason_codes MUST be non-empty",
        record s { clock_reads = s.clock_reads + 1; drawn = s.drawn + 1 },
      )
  unfolding make_trigger ◌>>=◌ fresh_id starts_upper validate_trigger
  make_trigger_unreasoned candidate evidence expires_at s = rw (
    meta_of_lem w "EvolutionTrigger" "trigger" s.drawn (record s { drawn = s.drawn + 1 }) refl,
    eq_refl (object_id w "trigger" s.drawn),
  )

module _ {N : Type 0} (w : World) (k : EvolutionKernel N) where
  cooldown_of_lem :
      (cooldown : Option ℕ) (s : KernelState N)
      → cooldown_of k cooldown s
        ≡ (ok (or_now k s cooldown), record s { clock_reads = s.clock_reads + reads cooldown })
  unfolding cooldown_of ◌>>=◌
  cooldown_of_lem (some t) s = ap (λ n. (ok t, record s { clock_reads = n })) (omega arith)
  cooldown_of_lem none s = refl

  create_trigger_lem :
      (candidate : String) (reasons evidence : List String) (cooldown : Option ℕ)
      (s : KernelState N)
      → create_trigger w k candidate reasons evidence cooldown s
        ≡ make_trigger w candidate reasons evidence
            (or_now k s cooldown)
            (record s { clock_reads = s.clock_reads + reads cooldown })
  unfolding create_trigger ◌>>=◌
  create_trigger_lem candidate reasons evidence cooldown s = rw (cooldown_of_lem cooldown s)

  -- The state behind the gates, before the trigger is made.
  abbrev pub at_gate : Option ℕ → KernelState N → KernelState N
  at_gate cooldown s = record s { clock_reads = s.clock_reads + reads cooldown }

  create_trigger_cases :
      (candidate : String) (reasons evidence : List String) (cooldown : Option ℕ)
      (s : KernelState N) (P : Result String (Option EvolutionTrigger) × KernelState N → Type 0)
      → ((message : String) (n d : ℕ) → P (err message, record s { clock_reads = n; drawn = d }))
      → (reasons ≢ []
          → let t =
              trigger_of w (at_gate cooldown s) candidate reasons evidence (or_now k s cooldown) in
            P (ok (some t), with_trigger (at_gate cooldown s) t))
      → P (create_trigger w k candidate reasons evidence cooldown s)
  create_trigger_cases candidate [] evidence cooldown s P raised stored =
      rw
        (
          create_trigger_lem candidate [] evidence cooldown s,
          make_trigger_unreasoned w candidate evidence (or_now k s cooldown) (at_gate cooldown s),
        )
        (raised "EvolutionTrigger.reason_codes MUST be non-empty"
          (s.clock_reads + reads cooldown + 1) (s.drawn + 1))
  create_trigger_cases candidate (r ∷ rs) evidence cooldown s P raised stored =
      rw
        (
          create_trigger_lem candidate (r ∷ rs) evidence cooldown s,
          make_trigger_lem w candidate (r ∷ rs) evidence (or_now k s cooldown) (at_gate cooldown s)
              (ground arith),
        )
        (stored (ground arith))

  -- A case split on what `register_trigger` does: a gate is closed, the constructor of the trigger
  -- raises, or the trigger is stored.
  pub register_trigger_cases :
      (candidate : String) (reasons evidence : List String) (cooldown : Option ℕ)
      (s : KernelState N) (P : Result String (Option EvolutionTrigger) × KernelState N → Type 0)
      → P (ok none, s)
      → ((message : String) (n d : ℕ) → P (err message, record s { clock_reads = n; drawn = d }))
      → (leb k.authority.max_triggers_per_window (length s.triggers) ≡ false
          → member candidate s.recent_trigger_keys ≡ false
          → evidence ≢ []
          → reasons ≢ []
          → let t =
              trigger_of w (at_gate cooldown s) candidate reasons evidence (or_now k s cooldown) in
            P (ok (some t), with_trigger (at_gate cooldown s) t))
      → P (register_trigger w k candidate reasons evidence cooldown s)
  unfolding register_trigger
  register_trigger_cases candidate reasons evidence cooldown s P closed raised stored =
      if_cases P (leb k.authority.max_triggers_per_window (length s.triggers)) _ _ (λ _. closed)
        λ room.
          if_cases P (member candidate s.recent_trigger_keys) _ _ (λ _. closed)
            λ fresh.
              if_cases P (is_empty evidence) _ _ (λ _. closed)
                λ shown.
                  create_trigger_cases candidate reasons evidence cooldown s P raised
                    (stored room fresh (ground arith))
