-- ===== src/Runtime/Behaviour/Lease.antt =====
-- Leases and fencing tokens.
use agent_ueaf.Common.{
  ℕ, ◌+◌, ◌≤◌, ◌<◌, String, ◌≡◌, ◌≢◌, ◌⊎◌, refl, inl, inr, true, not, ◌&&◌, is_some, if◌then◌else◌,
  Option, none, some, [], ◌∷◌, arith, eq_iff, Option_cases, Dict.lookup,
}
use agent_ueaf.Common.Exec.{Result, require_that, ok, err, lift, ◌>>=◌, ◌>>◌}
use agent_ueaf.Contract.{World, object_id}
use agent_ueaf.Runtime.Phase.{
  admitting, running, retrying, Error, value_error, in_phases, same_phase,
}
use agent_ueaf.Runtime.Record.{
  RunRecord, RunLease, checked, validate_record, validate_lease, is_held_at,
}
use agent_ueaf.Runtime.Store.{Store, update, read_clock, new_object_id}
use agent_ueaf.Runtime.Lifecycle.{
  acquire_lease, heartbeat, ensure_lease, beaten_lease, beaten_record, leased_record, new_lease,
  token_of,
}
use agent_ueaf.Runtime.Behaviour.Written.{require_found}

-- The writer that holds the lease of the record at the moment: the same lease, a token that is not
-- behind, and a time within the lease.
pub record Holds (a : RunRecord) (l : RunLease) (lease_id : String) (token moment : ℕ)
    : Type 0 where
  pub leased : a.lease ≡ some l
  pub named : l.lease_id ≡ lease_id
  pub fenced : l.fencing_token ≤ token
  pub began : l.acquired_at ≤ moment
  pub unexpired : moment < l.expires_at

-- The record u is a with its lease l prolonged at the moment.
pub record IsProlonged (a : RunRecord) (l : RunLease) (u : RunRecord) (moment : ℕ) : Type 0 where
  pub made : u ≡ record a {
    lease = some (record {
      lease_id = l.lease_id;
      holder_id = l.holder_id;
      fencing_token = l.fencing_token;
      acquired_at = l.acquired_at;
      heartbeat_at = moment;
      expires_at = moment + 120_000_000;
    });
    revision = a.revision + 1;
    updated_at = some moment;
  }

-- The record a may execute, and u is a with a new lease of the holder.
pub record IsLeased (a u : RunRecord) (lease_id holder_id : String) (moment : ℕ) : Type 0 where
  pub executing : (a.phase ≡ admitting) ⊎ (a.phase ≡ running) ⊎ (a.phase ≡ retrying)
  pub token : ℕ
  pub attempt : ℕ
  pub first_token : a.lease ≡ none → token ≡ 1
  pub next_token : (l : RunLease) → a.lease ≡ some l → token ≡ l.fencing_token + 1
  pub retried : a.lease ≡ none → a.phase ≡ retrying → attempt ≡ a.attempt + 1
  pub continued : ((a.lease ≢ none) ⊎ (a.phase ≢ retrying)) → attempt ≡ a.attempt
  pub made : u ≡ record a {
    lease = some (record {
      lease_id = lease_id;
      holder_id = holder_id;
      fencing_token = token;
      acquired_at = moment;
      heartbeat_at = moment;
      expires_at = moment + 120_000_000;
    });
    attempt = attempt;
    revision = a.revision + 1;
    updated_at = some moment;
  }

ensure_lease-ok :
    (a : RunRecord) (lease_id : String) (token : ℕ) (l : RunLease)
    → ensure_lease a lease_id token ≡ ok l
    → (a.lease ≡ some l) × (l.lease_id ≡ lease_id) × (l.fencing_token ≤ token)
unfolding ensure_lease
ensure_lease-ok a lease_id token l h = elim (Option_cases a.lease) [
  | inl e ↦ absurd (ground arith)
  | inr (m, e) ↦ ground (arith, eq_iff m.lease_id lease_id)
]

err_ne_ok : {A : Type 0} {e : Error} {a : A} → ◌≡◌ {A = Result Error A} (err e) (ok a) → ⊥
err_ne_ok h = cc

-- The part of a heartbeat behind the look at the lease.
beat : World → RunRecord → RunLease → Store → Result Error RunRecord × Store
beat w a l = do
  moment ← read_clock w
  lift (require_that (is_held_at l moment) (value_error "stale_fencing_token: lease expired"))
  let beaten = beaten_lease l moment
  lift (checked beaten (validate_lease beaten))
  let kept = beaten_record a beaten moment
  updated ← lift (checked kept (validate_record kept))
  update updated (some a.revision) none

beat-ok :
    (w : World) (a : RunRecord) (l : RunLease) (s : Store) (u : RunRecord)
    → (beat w a l s).0 ≡ ok u
    → (is_held_at l (w.now s.clock_reads) ≡ true)
      × (u ≡ beaten_record a (beaten_lease l (w.now s.clock_reads)) (w.now s.clock_reads))
unfolding beat ◌>>=◌ read_clock update
beat-ok w a l s u h = ground arith

module _ (w : World) (k : String) (s : Store) (a : RunRecord)
    (found : lookup k s.runs ≡ some a) where
  heartbeat_lem :
      (lease_id : String) (token : ℕ)
      → heartbeat w k lease_id token s ≡ (lift (ensure_lease a lease_id token) >>= beat w a) s
  unfolding heartbeat ◌>>=◌ beat
  heartbeat_lem lease_id token = rw (require_found k s a found)

  -- Where a heartbeat for a stored run succeeds, the caller names the lease that the record has,
  -- its token is not below that of the lease, the moment is within the lease, and the record
  -- returned is the stored one at its next revision, with the same lease but for a heartbeat at
  -- this moment and an end two minutes, 120,000,000 microseconds, behind it.
  pub heartbeat-Holds :
      (lease_id : String) (token : ℕ) (u : RunRecord)
      → (heartbeat w k lease_id token s).0 ≡ ok u
      → (l : RunLease) × Holds a l lease_id token (w.now s.clock_reads)
        × IsProlonged a l u (w.now s.clock_reads)
  unfolding ◌>>=◌ is_held_at
  heartbeat-Holds lease_id token u h =
      go (ensure_lease a lease_id token) refl (rw (heartbeat_lem lease_id token) at h)
    where
      go :
          (r : Result Error RunLease)
          → ensure_lease a lease_id token ≡ r
          → ((lift r >>= beat w a) s).0 ≡ ok u
          → (l : RunLease) × Holds a l lease_id token (w.now s.clock_reads)
            × IsProlonged a l u (w.now s.clock_reads)
      go (err e) eq x = absurd (err_ne_ok x)
      go (ok l) eq x =
          let (leased, named, fenced) = ensure_lease-ok a lease_id token l eq in
          let (held, built) = beat-ok w a l s u x in
          (
            l,
            record {
              leased = leased;
              named = named;
              fenced = fenced;
              began = ground arith;
              unexpired = ground arith;
            },
            record { made = built },
          )

  pub acquire_lease_builds :
      (holder : String) (actor : Option String) (u : RunRecord)
      → (acquire_lease w k holder actor s).0 ≡ ok u
      → (in_phases a.phase (admitting ∷ running ∷ retrying ∷ []) ≡ true)
        × (u
            ≡ leased_record a
                (new_lease a (object_id w "lease" s.drawn) holder (w.now s.clock_reads))
                (w.now s.clock_reads))
  unfolding acquire_lease ◌>>=◌ read_clock new_object_id update
  acquire_lease_builds holder actor u h =
      let h' = rw (require_found k s a found) at h in ground arith

  -- Where `acquire_lease` succeeds for a stored run, the run is admitting, running or retrying, and
  -- the record returned is the stored one at its next revision with a new lease of the holder, from
  -- this moment on for two minutes, with a token one above that of the lease before it, or 1 where
  -- there is none. A retrying run without a lease enters its next attempt.
  pub acquire_lease-ok :
      (holder : String) (actor : Option String) (u : RunRecord)
      → (acquire_lease w k holder actor s).0 ≡ ok u
      → IsLeased a u (object_id w "lease" s.drawn) holder (w.now s.clock_reads)
  acquire_lease-ok holder actor u h =
      let (phase, built) = acquire_lease_builds holder actor u h in
      record {
        executing = ground arith;
        token = token_of a.lease + 1;
        attempt =
            if not (is_some a.lease) && same_phase a.phase retrying
            then a.attempt + 1
            else a.attempt;
        first_token = ground arith;
        next_token = ground arith;
        retried = ground arith;
        continued = ground arith;
        made = built;
      }
