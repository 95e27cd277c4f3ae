-- ===== src/Runtime/Behaviour/Fencing.antt =====
-- What happens to the fencing token over a pause.
use agent_ueaf.Common.{String, ◌≡◌, refl, ap, true, false, Option, some, List, arith, Dict.lookup}
use agent_ueaf.Common.Exec.{ok}
use agent_ueaf.Contract.{World}
use agent_ueaf.Runtime.Phase.{running, paused, can_transition}
use agent_ueaf.Runtime.Record.{RunRecord}
use agent_ueaf.Runtime.Record.Facts.{IsConsistent}
use agent_ueaf.Runtime.Store.{Store}
use agent_ueaf.Runtime.Writer.{applied}
use agent_ueaf.Runtime.Lifecycle.{pause, resume, acquire_lease, token_of, to_running}
use agent_ueaf.Runtime.Behaviour.Lease.{acquire_lease_builds}
use agent_ueaf.Runtime.Behaviour.Resume.{applied-IsConsistent, pause_stores, resume_stores}

-- For a stored, consistent run that is running, however high the token of its lease is: where a
-- lease can be taken after a pause and a resumption, its token is 1.
pub token_restarts :
    (w : World) (k : String) (s : Store) (a u : RunRecord)
    → lookup k s.runs ≡ some a
    → a.run_id ≡ k
    → IsConsistent a
    → a.phase ≡ running
    → (codes refs : List String) (signal holder : String) (checkpoint actor : Option String)
    → (acquire_lease w k holder actor
        (resume w k to_running signal refs actor (pause w k codes checkpoint actor s).1).1).0
      ≡ ok u
    → token_of u.lease ≡ 1
unfolding can_transition
token_restarts w k s a u found own valid h codes refs signal holder checkpoint actor taken =
    let legal : can_transition a.phase paused ≡ true = ground arith in
    let s1 = (pause w k codes checkpoint actor s).1 in
    let p = applied a paused false (w.now s.clock_reads) in
    let found1 : lookup k s1.runs ≡ some p =
      pause_stores w k s a found own valid codes checkpoint actor legal in
    let valid1 : IsConsistent p =
      applied-IsConsistent a paused false (w.now s.clock_reads) valid refl legal in
    let s2 = (resume w k to_running signal refs actor s1).1 in
    let q = applied p running true (w.now s1.clock_reads) in
    let found2 : lookup k s2.runs ≡ some q =
      resume_stores w k s1 p found1 own valid1 to_running signal refs actor refl in
    ap (λ t. token_of t.lease) (acquire_lease_builds w k s2 q found2 holder actor u taken).1
