-- ===== src/Lib.antt =====
-- The control plane of a betting automation: a Node.js process that holds the security state of
-- an installation, decides what the operator may do, and drives an execution process over a pipe.
--
-- Security (src/security-authority/): the security state machine.
--   Security.State      state-machine/states.mjs and the rows of persistence/schema.mjs
--   Security.Machine    state-machine/transitions.mjs: `Transitions` is `transitions`
--   Security.Storage    persistence/aead-storage-adapter.mjs: `getSecurityStateRow`,
--                       `commitTransitionWithOCC`, `writeEvent` over the record `Storage`
--   Security.Engine     state-machine/engine.mjs and invariants.mjs: `executeTransition`
-- The engine reads the row, looks the event up in the table, tests the guard, commits the next
-- state with an optimistic version test and sets the revocation flag of the native core.
--
-- The owner of the state in memory is the decision engine:
--   Security.Decision   decision-engine.mjs: `initialize` is `start_engine`, `dispatch`, and
--                       `getCurrentCapabilities`
--   Security.Grace      time/offline-grace.mjs: `_checkTimeBounds`, a second writer of the row
--   Security.Facade     facade.mjs, over the decision engine: `establishSession` and `authenticate`
--                       (Sessions, Lockdown), `revokeLicense` (Lockdown), `logout`,
--                       `transitionToUnauthenticated`, `enterOfflineGrace` and
--                       `transitionToDegraded` (Exits), `authorize` and `isCommandPermitted`
--                       (Commands)
--   Security.Envelope   protocol/envelope.mjs: `validateEnvelope` and its nonces, whose `Map` is
--                       `Nonces`, one part for each kind of key
--
-- Shared.Mutex models shared/mutex.mjs with the runs of its callers as a step relation.
--
-- Boundary (src/runtime-manager/boundary/): the bounds between the control plane and the process
-- that places bets.
--   Boundary.Ledger          idempotencyLedger.mjs: which idempotency keys are in flight or done
--   Boundary.Watchdog        watchdogMonitor.mjs: the tiers of a silent worker
--   Boundary.Reconciliation  reconciliationCoordinator.mjs: accounts frozen by operations whose
--                            outcome is unknown
--
--   Boundary.Manager         executionBoundaryManager.mjs, over the three above: `dispatchEnvelope`,
--                            `placeBet` and `cashOut` (Bets), the inbound envelopes and the loss of
--                            the connection (Inbound), the other calls (Calls); Runs has the step relation of its calls
--
-- Command (src/command/): commandSchema.mjs (Schema) and commandRouter.mjs (Router), whose `route`
-- asks the facade before it hands a command to the handlers; Degraded puts the two together.
--
-- Store (src/state-store/): memory/NotificationsContainer.mjs (Notifications), the accounts and
-- balances of memory/AccountsContainer.mjs (Accounts), and the removal of secrets by
-- validation/SanitizerGate.mjs (Sanitizer, Export).
--
-- Workspace (src/state/): what the operator's interface shows and offers.
--   Workspace.Tracker       operationTracker.mjs: the tactical operations
--   Workspace.Capabilities  capabilityResolver.mjs: what may be offered, with the reasons
--   Workspace.Lifecycle     lifecycleStateResolver.mjs: the state that the frontend shows
--
-- Runtime (src/runtime-manager/runtime-manager.mjs and heartbeat.mjs): the worker processes, over
-- the operation tracker and the security facade.
--   Runtime.State      the pipe server, `sendEnvelope` and the typed calls
--   Runtime.Spawning   `spawnRuntime` with its callbacks, `terminateRuntime`
--   Runtime.Ending     `terminateAllAndWait` up to its wait, `terminateAll`, `quarantineExecution`
--   Runtime.Waiting    the rest of `terminateAllAndWait`, with what happens while it waits
--   Runtime.Inbound    `_handleIncomingData`; Runs has the step relation of all of them
-- What the native core answers is an argument (`Host`), and what the manager asks of it is a log.
--
-- Control (src/command/registerCommands.mjs): starting and stopping the automation, over the runtime
-- manager, the lifecycle table of state-store/persistence/adapters/LifecycleStateAdapter.mjs
-- (Lifecycle) and the workspace of src/state/workspaceAggregator.mjs.
--
-- Numbers: versions, generations and times are natural numbers; a time is in milliseconds since
-- 1970, and JavaScript holds them exactly below 2^53. A difference of times stops at 0 where the
-- source's may be negative; the definitions say where that matters. No definition uses fuel:
-- every loop runs over a list.
--
-- Parameters: the authenticated cipher of the native core (`Aead`) with the two laws that
-- authenticated encryption gives, the JSON functions of the runtime (`Json`), the native check of a
-- signature over an envelope (`verify`), the handlers of commands (`run`), the function
-- `toLowerCase` (`lower`) and the text of an array index (`index`). Statements of SQLite are applied
-- to tables held as lists; a Boolean argument says whether the engine accepts a statement, because
-- the source catches its errors.
--
-- An asynchronous function that holds its mutex, or that does not wait, is one step. What other
-- writers did before it is in the state that it starts from. `initialize` and `_checkTimeBounds`
-- wait without the mutex: they are modelled without another writer between their reads and
-- their commits. `terminateAllAndWait`, `START_AUTOMATION` and `STOP_AUTOMATION` also wait: what
-- happens in the meantime to the runtime manager (Runtime.Waiting) and is written to the lifecycle
-- table (`Wait` of Control.Automation) is an argument, a list of events in any order; the mutex of
-- the two commands keeps only another start or stop out. The rest of the state of Control, such as
-- the workspace, is taken as unchanged by others in a wait.
--
-- Not modelled: the HTTP and WebSocket servers, the pipe itself, the files of the workers, logging,
-- the native core itself and the tests. Of the boundary manager the building of payloads and the
-- reset of the state store are left out; of the facade the calls that it only passes on, and the
-- audit log; of the runtime manager the search for the script and its hash; of the command
-- handlers the refresh of passwords and the handlers that only pass a call on.
pub mod Prelude
pub mod Shared
pub mod Security
pub mod Boundary
pub mod Command
pub mod Store
pub mod Workspace
pub mod Runtime
pub mod Control
