-- ===== src/Tool/Action/Identity.antt =====
-- The stable identity of an action (src/ueaf/tool/action.py).
use agent_ueaf.Common.{
  ℕ, String, ◌≡◌, ◌∙◌, refl, ap, Option, none, some, Dict.lookup, Dict.insert,
  Dict.lookup-insert_self, arith,
}
use agent_ueaf.Common.Exec.{ok, ◌>>=◌}
use agent_ueaf.Contract.{World}
use agent_ueaf.Tool.Action.Record.{ActionRecord}
use agent_ueaf.Tool.Action.State.{Actions, moment_of, new_object_id, read_clock}
use agent_ueaf.Tool.Action.Commands.{ActionInput, create_action, known_record, new_action, enter}

new_action_enters :
    (w : World) (i : ActionInput) (now : Option ℕ) (a : ActionRecord) (s s' : Actions)
    → new_action w i now s ≡ (ok a, s')
    → (s'.records ≡ insert a.action_id a s.records)
      × (s'.by_key ≡ insert i.fingerprint.action_key a.action_id s.by_key)
unfolding new_action enter moment_of new_object_id read_clock ◌>>=◌
new_action_enters w i now a s s' h = ground arith

-- What `create_action` has returned is found under its key and its id.
create_action_found :
    (w : World) (i : ActionInput) (now : Option ℕ) (a : ActionRecord) (s s' : Actions)
    → create_action w i now s ≡ (ok a, s')
    → (action_id : String) × (lookup i.fingerprint.action_key s'.by_key ≡ some action_id)
      × (lookup action_id s'.records ≡ some a)
unfolding create_action known_record
create_action_found w i now a s s' h = go (lookup i.fingerprint.action_key s.by_key) refl
  where
    go :
        (found : Option String)
        → lookup i.fingerprint.action_key s.by_key ≡ found
        → (action_id : String) × (lookup i.fingerprint.action_key s'.by_key ≡ some action_id)
          × (lookup action_id s'.records ≡ some a)
    go none e =
        let made : new_action w i now s ≡ (ok a, s') = ground arith in
        let (r, k) = new_action_enters w i now a s s' made in
        (
          a.action_id,
          ap (lookup i.fingerprint.action_key) k
              ∙ lookup-insert_self i.fingerprint.action_key a.action_id s.by_key,
          ap (lookup a.action_id) r ∙ lookup-insert_self a.action_id a s.records,
        )
    go (some action_id) e = (action_id, ground arith, ground arith)

-- Where `create_action` has returned a record, a call for the same action key from the state it
-- left, with no other operation in between, returns that record and leaves the state as it is,
-- whatever the rest of its input and the moment.
pub create_action_again :
    (w : World) (i j : ActionInput) (now later : Option ℕ) (a : ActionRecord) (s s' : Actions)
    → create_action w i now s ≡ (ok a, s')
    → j.fingerprint.action_key ≡ i.fingerprint.action_key
    → create_action w j later s' ≡ (ok a, s')
unfolding create_action known_record
create_action_again w i j now later a s s' h same =
    let (action_id, k, r) = create_action_found w i now a s s' h in
    let k' : lookup j.fingerprint.action_key s'.by_key ≡ some action_id =
      ap (λ key. lookup key s'.by_key) same ∙ k in
    ground arith
