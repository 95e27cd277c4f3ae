-- ===== src/Runtime/Turn/Log.antt =====
-- The registry as a log of turns (src/ueaf/runtime/turn.py): its specification is the list of the
-- turns that it took, in order.
use agent_ueaf.Common.{
  String, ◌≡◌, refl, Option, none, some, List, [], ◌∷◌, ◌++◌, arith, is_some, if◌then◌else◌, str_eq,
  eq_iff, Dict.lookup, Dict.lookup-insert,
}
use agent_ueaf.Runtime.Turn.{TurnRecord, TurnRegistry, empty_registry, or_none, for_run, get, add}

-- The turns of a run, and the turn of an id, in a log.
abbrev pub turns_of : String → List TurnRecord → List TurnRecord
turns_of run_id [] = []
turns_of run_id (t ∷ ts) =
    let rest = turns_of run_id ts in if str_eq t.run_id run_id then t ∷ rest else rest

abbrev pub turn_with : String → List TurnRecord → Option TurnRecord
turn_with turn_id [] = none
turn_with turn_id (t ∷ ts) =
    let rest = turn_with turn_id ts in if str_eq t.turn_id turn_id then some t else rest

-- The registry after a list of calls of `add`, those that raise among them.
abbrev pub add_all : List TurnRecord → TurnRegistry → TurnRegistry
add_all [] g = g
add_all (t ∷ ts) g = add_all ts (add t g).1

-- The log after the same calls: a turn whose id is in it is not taken.
abbrev pub log_all : List TurnRecord → List TurnRecord → List TurnRecord
log_all [] l = l
log_all (t ∷ ts) l = log_all ts (if is_some (turn_with t.turn_id l) then l else l ++ t ∷ [])

-- What can be asked of the registry is what the log says.
pub record Refines (g : TurnRegistry) (l : List TurnRecord) : Type 0 where
  pub same_turns : (run_id : String) → for_run run_id g ≡ turns_of run_id l
  pub same_turn : (turn_id : String) → get turn_id g ≡ turn_with turn_id l

turns_of-append :
    (run_id : String) (l : List TurnRecord) (t : TurnRecord)
    → turns_of run_id (l ++ t ∷ [])
      ≡ (if str_eq t.run_id run_id then turns_of run_id l ++ t ∷ [] else turns_of run_id l)
turns_of-append run_id [] t = ground arith
turns_of-append run_id (x ∷ l) t = ground (arith, turns_of-append run_id l t)

turn_with-append :
    (turn_id : String) (l : List TurnRecord) (t : TurnRecord)
    → turn_with turn_id (l ++ t ∷ []) ≡ (
        if is_some (turn_with turn_id l)
        then turn_with turn_id l
        else if str_eq t.turn_id turn_id
        then some t
        else none)
turn_with-append turn_id [] t = ground arith
turn_with-append turn_id (x ∷ l) t = ground (arith, turn_with-append turn_id l t)

add-Refines :
    (t : TurnRecord) (g : TurnRegistry) (l : List TurnRecord)
    → Refines g l
    → Refines (add t g).1 (if is_some (turn_with t.turn_id l) then l else l ++ t ∷ [])
unfolding add for_run get
add-Refines t g l h = record {
  same_turns = λ run_id. ground (
    arith,
    h.same_turn t.turn_id,
    h.same_turns run_id,
    h.same_turns t.run_id,
    turns_of-append run_id l t,
    eq_iff t.run_id run_id,
    lookup-insert t.run_id run_id (or_none (lookup t.run_id g.by_run) ++ t ∷ []) g.by_run,
  );
  same_turn = λ turn_id. ground (
    arith,
    h.same_turn t.turn_id,
    h.same_turn turn_id,
    turn_with-append turn_id l t,
    eq_iff t.turn_id turn_id,
    lookup-insert t.turn_id turn_id t g.turns,
  );
}

add_all_refining :
    (ts : List TurnRecord) (g : TurnRegistry) (l : List TurnRecord)
    → Refines g l
    → Refines (add_all ts g) (log_all ts l)
add_all_refining [] g l h = h
add_all_refining (t ∷ ts) g l h =
    add_all_refining ts (add t g).1 (if is_some (turn_with t.turn_id l) then l else l ++ t ∷ [])
      (add-Refines t g l h)

-- Whatever turns are added to an empty registry, those whose id is taken among them, it answers as
-- the log does that is a plain list of the turns it took: `for_run` gives the turns of the run in the
-- order in which they came, and `get` the one turn of the id.
pub add_all-Refines : (ts : List TurnRecord) → Refines (add_all ts empty_registry) (log_all ts [])
unfolding for_run get lookup
add_all-Refines ts =
    add_all_refining ts empty_registry []
      (record { same_turns = λ run_id. refl; same_turn = λ turn_id. refl })
