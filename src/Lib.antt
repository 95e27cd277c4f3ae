-- ===== src/Lib.antt =====
-- Verification of the UEAF agent runtime (Python, src/ueaf).
--
-- The program. A run of an agent is created from a task, admitted, executed under a lease, parked in
-- waits, paused, retried and ended by the commands of `RunCoordinator` (src/ueaf/runtime/
-- coordinator.py). Each command reads the authoritative record from its repository
-- (src/ueaf/infrastructure/db/repositories.py), checks the state machine (src/ueaf/runtime/
-- state_machine.py), writes the next record by compare-and-set on the revision and appends one
-- event to the outbox (src/ueaf/runtime/outbox.py), which a publisher drains
-- (src/ueaf/infrastructure/queue/publisher.py). Side effects of tools are actions with a state
-- machine of their own (src/ueaf/tool/action.py), which act on the decisions of the policy decision
-- point (src/ueaf/security/policy.py).
--
-- The files.
--   Common: dictionaries, sets, tests, and `Exec`, the monad of state and exceptions. A method that
--     raises has an `err` result and the state that it left behind; nothing is rolled back.
--   Contract: ContractMeta and object ids (src/ueaf/common/meta.py, identifiers.py).
--   Admission: the envelopes, principals and results of admission, and AdmissionController.evaluate
--     with its five checks (src/ueaf/admission); Admission/Controller/Admitted is which runs it admits.
--   Runtime/Phase, Record: the phases and the objects of a run; Phase/Diagram is the state machine
--     as a relation, Record/Facts the meaning of the checks of RunRecord.
--   Runtime/Outbox, Publisher: the outbox and its drain, with their invariants; Runtime/Semver is the
--     pattern of event versions (src/ueaf/common/envelope.py).
--   Runtime/Store, Writer, Coordinator, Lifecycle, Command: the repositories; the private helpers,
--     `register_wait` and `commit_terminal`; creation and admission; leases, resumption, retries,
--     pauses, cancellation; and the commands as data, run one after the other.
--   Runtime/Evolution, Events, Reachable, Behaviour: what commands do to records and to the outbox,
--     what holds from an empty store on, and the single commands.
--   Runtime/Admission: the admission route of the service, which composes the coordinator with the
--     controller (src/ueaf/api/app.py); Admission/Answered is what it answers.
--   Runtime/Recovery: checkpoints and the recovery of runs (src/ueaf/runtime/recovery.py).
--   Runtime/Turn: turns and their registry (src/ueaf/runtime/turn.py); Turn/Log is its specification.
--   Security/Policy: the policy decision point. Tool/Action: the coordinator of actions.
--   Context: the lineage of summaries and the token budgeter (src/ueaf/context/compression.py,
--     token_budgeter.py); Budget/Order, Items, Fit, Bounds and Lineage are proofs.
--   Evolution: controlled evolution (src/ueaf/evolution): Objects, Validator, Strategy, Gates, and the
--     kernel, whose gate of triggers is Kernel and whose slice from a trigger to a genome is
--     Kernel/Run. Kernel/Ending says how the slice should end, Outcome that it does; Gate, Keeps and
--     Reach are the invariants of sequences of calls.
--   Release: candidates, decisions, manifests and the controller that activates them and rolls them
--     back (src/ueaf/release/release.py); Controller/Chain is which activations succeed.
--   Memory: candidates for memories and the gate of their review (src/ueaf/memory/objects.py,
--     review.py), Review/Approved being what the gate approves; the store of memories and the
--     revocation of a consent (src/ueaf/memory/service.py).
--   Examples: concrete inputs at which the theorems are applied.
--
-- The model. Enumerations given as string literals are data types, so the tests that a literal is
-- one of the known ones have no counterpart. Times are numbers of microseconds. Revisions, attempts
-- and tokens are natural numbers, and so are the tiers and tokens of the budgeter's slots, which the
-- code does not check: a negative tier, which would sort first, has no counterpart. The first letter
-- of a name is upper case where it is an ASCII capital. A drain of the outbox reads the clock once,
-- where the code reads it for each envelope. Messages of exceptions carry the fixed part of their text.
-- Python's dictionaries are association lists in insertion order. `secrets.token_hex` and the
-- system clock are the parameters of a `World`, read in order; `fnmatch` and SHA-256 are
-- parameters of the policy model; the comparison of numbers and the hook that builds candidates are
-- parameters of the evolution model; the release gate and the source of policy decisions are
-- interfaces of the admission model. The coordinator runs on the repositories in memory, where
-- `_transactional` does nothing. Every definition is total by structural recursion; the digits of a
-- number in a text (Common/Decimal) are computed on fuel, one more than the number, which is proved
-- to be enough.
-- Interleavings of commands of several callers are lists of commands; a command is atomic, as an
-- asynchronous method that never waits for input or output is.
--
-- Not modelled: the SQL repositories, the HTTP service, adapters, telemetry and vector stores (input
-- and output through libraries); retrieval scores (floating point); context building but for the
-- budgeter, evaluation, promotion, correction and recall of memories, and workflow.
pub mod Common
pub mod Contract
pub mod Admission
pub mod Runtime
pub mod Security
pub mod Tool
pub mod Context
pub mod Evolution
pub mod Release
pub mod Memory
pub mod Examples
