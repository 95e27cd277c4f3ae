-- ===== src/Tool/Action/State.antt =====
-- The state of `ActionCoordinator` and its private helpers (src/ueaf/tool/action.py).
use agent_ueaf.Common.{
  ℕ, ◌+◌, String, Bool, false, Option, none, some, List, ltb, is_some, if◌then◌else◌, Dict.Dict,
  Dict.lookup, Dict.insert,
}
use agent_ueaf.Common.Exec.{Result, ok, err, Exec, pure, lift, ◌>>=◌, ◌>>◌}
use agent_ueaf.Contract.{World, object_id}
use agent_ueaf.Tool.Action.Phase.{
  ActionPhase, terminal, ActionDisposition, Error, value_error, key_error, action_state_error,
  validate_transition,
}
use agent_ueaf.Tool.Action.Record.{ActionRecord, ActionReceipt, validate_action, checked}

pub record Actions : Type 0 where
  pub records : Dict ActionRecord
  pub by_key : Dict String
  pub receipts : Dict ActionReceipt
  pub deadlines : Dict ℕ
  pub clock_reads : ℕ
  pub drawn : ℕ
  pub producer_version : String

abbrev pub M : Type 0 → Type 0
M = Exec Actions Error

unfoldable pub read_clock : World → M ℕ
read_clock w s = (ok (w.now s.clock_reads), record s { clock_reads = s.clock_reads + 1 })

unfoldable pub new_object_id : World → String → M String
new_object_id w prefix s = (ok (object_id w prefix s.drawn), record s { drawn = s.drawn + 1 })

-- `now or _now()`
unfoldable pub moment_of : World → Option ℕ → M ℕ
moment_of w none = read_clock w
moment_of w (some t) = pure t

-- `_require`
unfoldable pub require : ActionRecord → M (Unit {0})
require a s =
    if is_some (lookup a.action_id s.records)
    then (ok tt, s)
    else (err (key_error "ActionRecord not found"), s)

-- `fencing_token is not None and held is not None and fencing_token < held`
abbrev stale_token : Option ℕ → Option ℕ → Bool
stale_token (some token) (some held) = ltb token held
stale_token _ _ = false

-- `_check_fencing`
unfoldable pub check_fencing : ActionRecord → Option ℕ → Result Error (Unit {0})
check_fencing a token =
    if stale_token token a.lease_fencing_token
    then err (value_error "stale_fencing_token")
    else ok tt

abbrev passed_by : Option ℕ → ℕ → Bool
passed_by none moment = false
passed_by (some deadline) moment = ltb deadline moment

-- `_check_deadline`
unfoldable pub check_deadline : ActionRecord → ℕ → M (Unit {0})
check_deadline a moment s =
    if passed_by (lookup a.action_id s.deadlines) moment
    then (err (action_state_error "action deadline passed"), s)
    else (ok tt, s)

-- `self._records[action.action_id] = updated`
unfoldable pub store : ActionRecord → M ActionRecord
store u s = (ok u, record s { records = insert u.action_id u s.records })

-- The record that `_transition` builds: the caller's copy in the new phase, then the updates.
abbrev pub moved : ActionRecord → ActionPhase → (ActionRecord → ActionRecord) → ℕ → ActionRecord
moved a to_phase updates moment =
    updates (record a { phase = to_phase; revision = a.revision + 1; updated_at = some moment })

-- `_transition`
unfoldable pub transition :
    World → ActionRecord → ActionPhase → (ActionRecord → ActionRecord) → M ActionRecord
transition w a to_phase updates = do
  lift (validate_transition a.phase to_phase)
  moment ← read_clock w
  u ← lift (
      checked (moved a to_phase updates moment) (validate_action (moved a to_phase updates moment)))
  store u

-- The record that `_terminal` builds.
abbrev pub ended : ActionRecord → ActionDisposition → List String → ℕ → ActionRecord
ended a disposition reason_codes moment = record a {
  phase = terminal;
  disposition = some disposition;
  terminal_reason_codes = reason_codes;
  revision = a.revision + 1;
  updated_at = some moment;
}

-- `_terminal`
unfoldable pub finish : World → ActionRecord → ActionDisposition → List String → M ActionRecord
finish w a disposition reason_codes = do
  lift (validate_transition a.phase terminal)
  moment ← read_clock w
  u ← lift (
      checked (ended a disposition reason_codes moment)
        (validate_action (ended a disposition reason_codes moment)))
  store u
