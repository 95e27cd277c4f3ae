-- ===== src/Runtime/Recovery/Fresh.antt =====
-- What a recovery gives and what a refused one leaves alone (src/ueaf/runtime/recovery.py).
use agent_ueaf.Common.{
  String, Option_cases, inl, inr, eq_iff, ◌≡◌, refl, ◌≢◌, true, false, Option, none, some, arith,
  Dict.Dict, Dict.lookup,
}
use agent_ueaf.Common.Exec.{Result, ok, err, ◌>>=◌}
use agent_ueaf.Contract.{World, object_id}
use agent_ueaf.Runtime.Phase.{terminal, Error}
use agent_ueaf.Runtime.Record.{RunRecord, Checkpoint}
use agent_ueaf.Runtime.Store.{Store}
use agent_ueaf.Runtime.Coordinator.{get_run}
use agent_ueaf.Runtime.Lifecycle.{acquire_lease}
use agent_ueaf.Runtime.Recovery.{
  RecoveryResult, recover, recover_found, is_rebound, is_invalid, get_checkpoint,
}
use agent_ueaf.Runtime.Behaviour.Lease.{IsLeased, acquire_lease-ok}

bound_adapter :
    (a : RunRecord) (adapter : String) (expected : Option String)
    → expected ≡ some adapter
    → is_rebound expected a ≡ false
    → a.runtime_adapter_ref ≡ adapter
bound_adapter a adapter expected e h = ground (arith, eq_iff a.runtime_adapter_ref adapter)

own_checkpoint :
    (checkpoints : Dict Checkpoint) (k c : String) (ref : Option String)
    → ref ≡ some c
    → is_invalid ref checkpoints k ≡ false
    → (p : Checkpoint) × (lookup c checkpoints ≡ some p) × (p.run_id ≡ k)
unfolding is_invalid get_checkpoint
own_checkpoint checkpoints k c ref e h = elim (Option_cases (lookup c checkpoints)) [
  | inl missing ↦ absurd (ground arith)
  | inr (p, stored) ↦ (p, stored, ground (arith, eq_iff p.run_id k))
]

module _ (w : World) (checkpoints : Dict Checkpoint) (k : String) (s : Store) (holder : String)
    (ref expected : Option String) (r : RecoveryResult) where
  -- Where `recover` answers that it has not recovered the run, it has changed nothing, and it gives
  -- the record as it is stored, if there is one.
  pub recover_refused :
      (recover w checkpoints k holder ref expected s).0 ≡ ok r
      → r.recovered ≡ false
      → ((recover w checkpoints k holder ref expected s).1 ≡ s) × (r.run_record ≡ lookup k s.runs)
  unfolding recover recover_found get_run ◌>>=◌
  recover_refused h refused = ground arith

  leased_by :
      (a : RunRecord)
      → lookup k s.runs ≡ some a
      → a.phase ≢ terminal
      → (recover w checkpoints k holder ref expected s).0 ≡ ok r
      → r.recovered ≡ true
      → (is_rebound expected a ≡ false)
        × (is_invalid ref checkpoints k ≡ false)
        × ((u : RunRecord) × ((acquire_lease w k holder none s).0 ≡ ok u) × (r.run_record ≡ some u))
  unfolding recover recover_found get_run ◌>>=◌
  leased_by a found live h done = go (acquire_lease w k holder none s).0 refl
    where
      go :
          (x : Result Error RunRecord)
          → (acquire_lease w k holder none s).0 ≡ x
          → (is_rebound expected a ≡ false)
            × (is_invalid ref checkpoints k ≡ false)
            × ((u : RunRecord) × ((acquire_lease w k holder none s).0 ≡ ok u)
                × (r.run_record ≡ some u))
      go (err e) eq = absurd (ground arith)
      go (ok u) eq = (ground arith, ground arith, (u, eq, ground arith))

  -- Where `recover` answers that it has recovered a stored run that is not terminal, the adapter
  -- that was expected is that of the run, the checkpoint that was named is one of the run, and the
  -- record in the answer is the run, which is admitting, running or retrying, with a new lease of
  -- the holder from this moment on, its token one above that of the lease before it, or 1.
  pub recover-IsLeased :
      (a : RunRecord)
      → lookup k s.runs ≡ some a
      → a.phase ≢ terminal
      → (recover w checkpoints k holder ref expected s).0 ≡ ok r
      → r.recovered ≡ true
      → ((adapter : String) → expected ≡ some adapter → a.runtime_adapter_ref ≡ adapter)
        × ((c : String)
            → ref ≡ some c
            → (p : Checkpoint) × (lookup c checkpoints ≡ some p) × (p.run_id ≡ k))
        × ((u : RunRecord) × (r.run_record ≡ some u)
            × IsLeased a u (object_id w "lease" s.drawn) holder (w.now s.clock_reads))
  recover-IsLeased a found live h done =
      let (bound, valid, (u, taken, given)) = leased_by a found live h done in
      (
        λ adapter e. bound_adapter a adapter expected e bound,
        λ c e. own_checkpoint checkpoints k c ref e valid,
        (u, given, acquire_lease-ok w k s a found holder none u taken),
      )
