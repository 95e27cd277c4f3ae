-- ===== src/Runtime/Behaviour/Terminal.antt =====
-- Terminal commits and cancellation.
use agent_ueaf.Common.{
  ◌+◌, String, ◌≡◌, refl, true, Option, none, some, List, [], ◌∷◌, arith, is_some, eq_iff,
  if◌then◌else◌, Dict.lookup,
}
use agent_ueaf.Common.Exec.{ok, err, ◌>>=◌}
use agent_ueaf.Contract.{World}
use agent_ueaf.Runtime.Phase.{
  waiting, terminal, CompletionDisposition, cancelled, value_error, state_machine_error,
}
use agent_ueaf.Runtime.Record.{RunRecord, validate_record}
use agent_ueaf.Runtime.Store.{Store, read_clock}
use agent_ueaf.Runtime.Writer.{write_terminal, commit_terminal, completion_allowed, disposed_as}
use agent_ueaf.Runtime.Lifecycle.{cancel}
use agent_ueaf.Runtime.Behaviour.Written.{require_found}

module _ (w : World) (k : String) (s : Store) (a : RunRecord)
    (found : lookup k s.runs ≡ some a) where
  -- On a stored run that is terminal, a terminal commit with the same disposition gives back the
  -- record, one with another disposition is refused as a conflict, and neither changes the store.
  commit_terminal_again :
      (disposition : CompletionDisposition) (codes : List String)
      (result error actor : Option String)
      → a.phase ≡ terminal
      → commit_terminal w k disposition codes result error actor s ≡ (
        if disposed_as a disposition
            then ok a
            else err (state_machine_error terminal terminal "terminal_conflict"),
        s,
      )
  unfolding commit_terminal ◌>>=◌
  commit_terminal_again disposition codes result error actor h =
      rw (require_found k s a found) (ground arith)

  -- On a stored run that is terminal, `cancel` gives back its record and changes nothing.
  cancel_again : (actor : Option String) → a.phase ≡ terminal → cancel w k actor s ≡ (ok a, s)
  unfolding cancel ◌>>=◌
  cancel_again actor h = rw (require_found k s a found) (ground arith)

  -- A stored run that waits, whose id is that of its metadata and which has a wait reason, cannot
  -- be ended, even if the disposition is allowed: the commit raises the error that the wait reason
  -- is only valid in the phase waiting, and nothing but the reading of the clock is changed.
  pub commit_terminal_waiting :
      (disposition : CompletionDisposition) (codes : List String)
      (result error actor : Option String)
      → a.run_id ≡ a.meta.object_id
      → a.phase ≡ waiting
      → is_some a.wait_reason ≡ true
      → completion_allowed a disposition ≡ ok tt
      → commit_terminal w k disposition codes result error actor s ≡ (
        err (value_error "wait_reason is only valid when phase=waiting"),
        record s { clock_reads = s.clock_reads + 1 },
      )
  unfolding commit_terminal write_terminal ◌>>=◌ read_clock validate_record
  commit_terminal_waiting disposition codes result error actor own h reason allowed =
      rw (require_found k s a found, allowed) (ground (arith, eq_iff a.run_id a.meta.object_id))

  -- A stored run that waits, whose id is that of its metadata and which has a wait reason, cannot
  -- be cancelled: the command raises the error that the wait reason is only valid in the phase
  -- waiting, and nothing but the reading of the clock is changed.
  cancel_waiting :
      (actor : Option String)
      → a.run_id ≡ a.meta.object_id
      → a.phase ≡ waiting
      → is_some a.wait_reason ≡ true
      → cancel w k actor s ≡ (
        err (value_error "wait_reason is only valid when phase=waiting"),
        record s { clock_reads = s.clock_reads + 1 },
      )
  unfolding cancel ◌>>=◌ completion_allowed
  cancel_waiting actor own h reason = rw (require_found k s a found) (
      ground (
        arith,
        commit_terminal_waiting cancelled ("cancelled_by_actor" ∷ []) none none actor own h reason
            refl,
      ))
