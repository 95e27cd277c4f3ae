-- ===== src/Runtime/Behaviour/Resume.antt =====
-- Pauses, retries and resumptions: what they store, and what they forget.
use agent_ueaf.Common.{
  ℕ, ◌+◌, String, ◌≡◌, refl, Bool, true, false, not, ◌||◌, Option, some, List, arith, Dict.lookup,
}
use agent_ueaf.Common.Exec.{lift, pure, ◌>>=◌}
use agent_ueaf.Contract.{World}
use agent_ueaf.Runtime.Phase.{
  RunPhase, admitting, running, waiting, paused, terminal, can_transition, validate_transition,
  same_phase,
}
use agent_ueaf.Runtime.Record.{RunRecord}
use agent_ueaf.Runtime.Record.Facts.{IsConsistent, validate_record_complete}
use agent_ueaf.Runtime.Store.{Store, M, require, read_clock}
use agent_ueaf.Runtime.Writer.{applied, apply}
use agent_ueaf.Runtime.Lifecycle.{
  pause, resume, ResumePhase, to_running, to_admitting, resume_phase,
}
use agent_ueaf.Runtime.Evolution.Rules.{Quiet, Quiet-emit, Quiet-pure, Quiet-then}
use agent_ueaf.Runtime.Behaviour.Written.{require_found, written_found}

-- A phase that `resume`, `schedule_retry` and `pause` lead to.
abbrev pub is_plain : RunPhase → Bool
is_plain p = not (same_phase p terminal || same_phase p waiting)

pub applied-IsConsistent :
    (a : RunRecord) (to_phase : RunPhase) (clear : Bool) (moment : ℕ)
    → IsConsistent a
    → is_plain to_phase ≡ true
    → can_transition a.phase to_phase ≡ true
    → IsConsistent (applied a to_phase clear moment)
unfolding can_transition
applied-IsConsistent a to_phase clear moment h plain legal = ground arith

module _ (w : World) (k : String) (s : Store) (a : RunRecord) (found : lookup k s.runs ≡ some a)
    (own : a.run_id ≡ k) (valid : IsConsistent a) where
  moved_stores :
      (to_phase : RunPhase) (clear : Bool) (after : RunRecord → RunRecord → M (Unit {0}))
      → ((u v : RunRecord) → Quiet (after u v))
      → is_plain to_phase ≡ true
      → can_transition a.phase to_phase ≡ true
      → lookup k
          ((require k >>= λ u. lift (validate_transition u.phase to_phase) >>= λ _.
              apply w u to_phase clear (some u.revision) >>= λ v. after u v >>= λ _. pure v)
            s).1.runs
        ≡ some (applied a to_phase clear (w.now s.clock_reads))
  unfolding apply ◌>>=◌ read_clock validate_transition
  moved_stores to_phase clear after quiet plain legal =
      let b = applied a to_phase clear (w.now s.clock_reads) in
      rw
        (
          require_found k s a found,
          legal,
          validate_record_complete b
              (applied-IsConsistent a to_phase clear (w.now s.clock_reads) valid plain legal),
        )
        (written_found b k (record s { clock_reads = s.clock_reads + 1 }) a
          (λ v. after a v >>= λ _. pure v) (Quiet-then _ _ (quiet a b) (Quiet-pure b)) own found)

  -- A pause stores the run without its lease, and without what it waited for.
  pub pause_stores :
      (codes : List String) (checkpoint actor : Option String)
      → can_transition a.phase paused ≡ true
      → lookup k (pause w k codes checkpoint actor s).1.runs
        ≡ some (applied a paused false (w.now s.clock_reads))
  unfolding pause
  pause_stores codes checkpoint actor legal =
      moved_stores paused false _ (λ u v. Quiet-emit w v _ _ _ _) refl legal

  pub resume_stores :
      (to_phase : ResumePhase) (signal : String) (refs : List String) (actor : Option String)
      → can_transition a.phase (resume_phase to_phase) ≡ true
      → lookup k (resume w k to_phase signal refs actor s).1.runs
        ≡ some (applied a (resume_phase to_phase) true (w.now s.clock_reads))
  unfolding resume
  resume_stores to_running signal refs actor legal =
      moved_stores running true _ (λ u v. Quiet-emit w v _ _ _ _) refl legal
  resume_stores to_admitting signal refs actor legal =
      moved_stores admitting true _ (λ u v. Quiet-emit w v _ _ _ _) refl legal
