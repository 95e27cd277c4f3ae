-- ===== src/Runtime/Record/Facts.antt =====
-- What the checks of a `RunRecord` mean, in words of the record and not of the checks.
use agent_ueaf.Common.{◌≤◌, ◌≡◌, ◌≢◌, ◌↔◌, true, none, [], arith, eq_iff, is_some}
use agent_ueaf.Runtime.Phase.{queued, waiting, paused, terminal}
use agent_ueaf.Runtime.Record.{RunRecord, validate_record}

-- The orthogonality of phase, disposition, wait and lease (RUN-002).
pub record IsConsistent (r : RunRecord) : Type 0 where
  pub identified : r.run_id ≡ r.meta.object_id
  pub disposed : (r.phase ≡ terminal) ↔ (is_some r.completion_disposition ≡ true)
  pub reasoned : r.phase ≡ terminal → r.terminal_reason_codes ≢ []
  pub waits : is_some r.wait_reason ≡ true → r.phase ≡ waiting
  pub conditioned : r.phase ≡ waiting → r.wait_condition_refs ≢ []
  pub originates : is_some r.wait_origin ≡ true → r.phase ≡ waiting
  pub leased :
      is_some r.lease ≡ true → (r.phase ≢ queued) × (r.phase ≢ waiting) × (r.phase ≢ paused)
  pub attempted : 1 ≤ r.attempt
  pub revised : 1 ≤ r.revision

pub validate_record_sound : (r : RunRecord) → validate_record r ≡ none → IsConsistent r
unfolding validate_record
validate_record_sound r h = ground (arith, eq_iff r.run_id r.meta.object_id)

pub validate_record_complete : (r : RunRecord) → IsConsistent r → validate_record r ≡ none
unfolding validate_record
validate_record_complete r h = ground (arith, eq_iff r.run_id r.meta.object_id)
