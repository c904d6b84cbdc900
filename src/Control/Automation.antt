-- ===== src/Control/Automation.antt =====
-- src/command/registerCommands.mjs: `START_AUTOMATION` and `STOP_AUTOMATION`, with `setLifecycle`
-- and `stopAutomation` of src/state/workspaceAggregator.mjs. What happens while a handler waits is
-- an argument (`Wait`), and so is whether `startCluster` succeeds; the passwords that a start
-- refreshes, the observed states of the accounts, the fleet readiness of the workspace and the
-- broadcasts are left out.
use betting_automation_contr.Prelude.{
  ℕ, Bool, true, false, not, ◌&&◌, ◌||◌, Option, List, [], ◌∷◌, String, str_eq, if◌then◌else◌,
}
use betting_automation_contr.Prelude.Numbers.{is_empty}
use betting_automation_contr.Security.State.{StateData}
use betting_automation_contr.Security.Facade.Commands.{is_degraded_state, system_state}
use betting_automation_contr.Workspace.Tracker.{fail_all_pending}
use betting_automation_contr.Runtime.State.{Host, Completion, returned, thrown, Runtimes}
use betting_automation_contr.Runtime.Spawning.{Spawn, spawned, spawn_runtime, terminate_runtime}
use betting_automation_contr.Runtime.Ending.{terminate_all}
use betting_automation_contr.Runtime.Waiting.{Event, happen_each, shut_down}
use betting_automation_contr.Control.Lifecycle.{
  LifecycleRow, get_state, set_desired_state, set_observed_state,
}

-- How a start ends: with the process id, or with one of its exceptions. `end_failed` is that of the
-- native core when a worker that did not initialize is ended.
pub data Start : Type 0 where
  started : ℕ → Start
  degraded already_running spawn_failed cluster_failed end_failed : Start

-- The clock of a call, as a number and as a text.
pub record Clock : Type 0 where
  pub millis : ℕ
  pub iso : String

-- What other parts write to the lifecycle table while a handler waits: only a start wants an
-- automation to run.
pub data Write : Type 0 where
  stops_wanting : String → Write
  observes : String → String → Write

-- An element of a `Set` of texts is added once.
unfoldable pub stage : String → List String → List String
stage id [] = id ∷ []
stage id (x ∷ xs) = if str_eq x id then x ∷ xs else x ∷ stage id xs

unfoldable pub stage_all : List String → List String → List String
unfolding stage
stage_all [] staged = staged
stage_all (id ∷ ids) staged = stage_all ids (stage id staged)

-- `slice(0, 2)`.
abbrev pub first_two : List String → List String
first_two [] = []
first_two (x ∷ []) = x ∷ []
first_two (x ∷ y ∷ rest) = x ∷ y ∷ []

-- The observed states that a start takes for a running automation, and for one to be settled.
abbrev pub is_running : String → Bool
is_running s = str_eq s "RUNNING" || str_eq s "STARTING_HANDSHAKE"

abbrev pub is_unsettled : String → Bool
is_unsettled s = str_eq s "ERROR_DEGRADED" || str_eq s "ABORTED"

module _ (Value : Type 0) where
  -- The state that the two commands share: the runtime manager, the lifecycle table, the workspace
  -- and whether the boundary manager serves its pipe.
  pub record Control : Type 0 where
    pub runtime : Runtimes Value
    pub lifecycle : Option LifecycleRow
    pub workspace : String
    pub staged_account_ids : List String
    pub active_account_ids : List String
    pub has_initialized_staging : Bool
    pub boundary_serving : Bool

  abbrev pub desire : Clock → String → String → Control → Control
  desire t s reason c = record c { lifecycle = set_desired_state t.iso s reason c.lifecycle }

  abbrev pub observe : Clock → String → String → Control → Control
  observe t s reason c = record c { lifecycle = set_observed_state t.iso s reason c.lifecycle }

  -- `setLifecycle` of the workspace, which also writes the observed state.
  unfoldable pub set_lifecycle : Clock → String → String → Control → Control
  set_lifecycle t s reason c = observe t s reason (record c { workspace = s })

  -- The staging of a start: the accounts of the command, or the first two that are not suspended.
  unfoldable pub stage_accounts : List String → List String → Control → Control
  unfolding stage_all
  stage_accounts [] available c =
      if not c.has_initialized_staging && is_empty c.staged_account_ids
      then record c {
        staged_account_ids = stage_all (first_two available) [];
        has_initialized_staging = true;
      }
      else c
  stage_accounts (id ∷ ids) available c = record c {
    staged_account_ids = stage_all (id ∷ ids) [];
    has_initialized_staging = true;
  }

  -- Three writes that every failed start makes.
  abbrev pub settle_stopped : Clock → String → Control → Control
  settle_stopped t reason c =
      set_lifecycle t "STOPPED" reason (observe t "STOPPED" reason (desire t "STOPPED" reason c))

  -- The reason of the first write, which names the process, is overwritten by the second.
  abbrev pub after_spawn : Clock → Control → Runtimes Value × Spawn → Control × Start
  after_spawn t c (r, spawned pid) = (
    set_lifecycle t "STARTING" "WORKSPACE_AGGREGATOR_UPDATE"
        (observe t "STARTING_HANDSHAKE" "SPAWNED" (record c { runtime = r })),
    started pid,
  )
  after_spawn t c (r, _) =
      (settle_stopped t "SPAWN_FAILED" (record c { runtime = r }), spawn_failed)

  -- The reset of an aborted or degraded automation before a start.
  abbrev pub reset_aborted : Clock → Control → Control
  reset_aborted t c =
      if is_unsettled (get_state t.iso c.lifecycle).observed_state
      then set_lifecycle t "STOPPED" "WORKSPACE_AGGREGATOR_UPDATE"
          (observe t "STOPPED" "PRE_START_RESET" c)
      else c

  -- What a start does before it spawns the worker.
  abbrev pub prepared : Clock → List String → List String → Control → Control
  prepared t ids available c =
      let wanted =
        desire t "RUNNING" "USER_COMMAND_START"
          (stage_accounts ids available (reset_aborted t c)) in
      record wanted { boundary_serving = true }

  -- A start that the tests have let through, up to its wait for `startCluster`. Here `started` says
  -- that the handler goes on to that wait.
  unfoldable pub launch_automation :
      Host
      → Option StateData
      → Clock
      → Option ℕ
      → List String
      → List String
      → Control
      → Control × Start
  unfolding stage_accounts set_lifecycle
  launch_automation h d t process ids available c =
      let ready = prepared t ids available c in
      after_spawn t ready (spawn_runtime Value h d t.millis process ready.runtime)

  -- The handler of `START_AUTOMATION`, up to the same wait.
  unfoldable pub begin_start :
      Host
      → Option StateData
      → Clock
      → Option ℕ
      → List String
      → List String
      → Control
      → Control × Start
  begin_start h d t process ids available c =
      if is_degraded_state (system_state d)
      then (c, degraded)
      else (if is_running (get_state t.iso c.lifecycle).observed_state
            || not (is_empty c.runtime.active_runtimes)
          then (c, already_running)
          else launch_automation h d t process ids available c)

  abbrev pub after_rollback : Clock → Control → Runtimes Value × Completion → Control × Completion
  after_rollback t c (r, thrown) = (record c { runtime = r }, thrown)
  after_rollback t c (r, returned) = (
    settle_stopped t "START_CLUSTER_FAILED" (record c { runtime = r; boundary_serving = false }),
    returned,
  )

  -- Its branch for a worker that does not initialize; the exception of `startCluster` follows.
  unfoldable pub roll_back : Host → ℕ → Clock → Control → Control × Completion
  unfolding set_lifecycle
  roll_back h pid t c = after_rollback t c (terminate_runtime Value h pid c.runtime)

  -- `stopAutomation` of the workspace.
  unfoldable pub stop_workspace : Clock → Control → Control
  unfolding set_lifecycle
  stop_workspace t c =
      let stopped = set_lifecycle t "STOPPED" "Execution engine standby" c in
      record stopped {
        active_account_ids = [];
        runtime = record (stopped.runtime) {
          operations =
              fail_all_pending Value t.millis "AUTOMATION_STOPPED" stopped.runtime.operations;
        };
      }

  abbrev pub after_end : Clock → Control → Runtimes Value × Completion → Control × Completion
  after_end t c (r, thrown) = (record c { runtime = r }, thrown)
  after_end t c (r, returned) =
      let failed : Runtimes Value = record r {
        operations = fail_all_pending Value t.millis "AUTOMATION_STOPPED" r.operations;
      } in
      (
        stop_workspace t (
            observe t "STOPPED" "STOP_COMPLETED"
              (record c { runtime = failed; boundary_serving = false })),
        returned,
      )

  abbrev pub write : Clock → Write → Control → Control
  write t (stops_wanting reason) c = desire t "STOPPED" reason c
  write t (observes s reason) c = observe t s reason c

  unfoldable pub write_each : Clock → List Write → Control → Control
  write_each t [] c = c
  write_each t (x ∷ rest) c = write_each t rest (write t x c)

  -- What happens during one wait of a handler.
  pub record Wait : Type 0 where
    pub events : List (Event Value)
    pub writes : List Write

  abbrev pub waited : Clock → Wait → Control → Control
  waited t w c =
      let u = write_each t w.writes c in record u { runtime = happen_each Value w.events u.runtime }

  abbrev pub after_cluster_failure : Control × Completion → Control × Start
  after_cluster_failure (c, thrown) = (c, end_failed)
  after_cluster_failure (c, returned) = (c, cluster_failed)

  -- What follows the wait for `startCluster`.
  unfoldable pub finish_start : Host → ℕ → Clock → Bool → Control → Control × Start
  unfolding roll_back
  finish_start h pid t succeeds c =
      if succeeds then (c, started pid) else after_cluster_failure (roll_back h pid t c)

  abbrev pub go_on_start : Host → Clock → Wait → Bool → Control × Start → Control × Start
  go_on_start h t w succeeds (c, started pid) = finish_start h pid t succeeds (waited t w c)
  go_on_start h t w succeeds (c, e) = (c, e)

  -- The whole handler of `START_AUTOMATION`, with what happens during its wait, and whether
  -- `startCluster` succeeds.
  unfoldable pub start_automation :
      Host
      → Option StateData
      → Clock
      → Option ℕ
      → List String
      → List String
      → Wait
      → Bool
      → Control
      → Control × Start
  unfolding begin_start finish_start write_each happen_each
  start_automation h d t process ids available w succeeds c =
      go_on_start h t w succeeds (begin_start h d t process ids available c)

  -- The first lines of `STOP_AUTOMATION`, and its wait for the graceful stop of the cluster, whose
  -- error is caught.
  unfoldable pub stop_gracefully : Wait → Clock → Control → Control
  unfolding write_each happen_each
  stop_gracefully w t c =
      waited t w
        (observe t "STOPPING" "USER_COMMAND_STOP" (desire t "STOPPED" "USER_COMMAND_STOP" c))

  -- The handler of `STOP_AUTOMATION`, with its two waits: the graceful stop, and then the end of
  -- all workers.
  unfoldable pub stop_automation : Host → Wait → Wait → Clock → Control → Control × Completion
  unfolding stop_workspace write_each
  stop_automation h graceful ending t c =
      let stopped = stop_gracefully graceful t c in
      let settled = write_each t ending.writes stopped in
      after_end t settled (terminate_all Value h (shut_down Value h ending.events stopped.runtime))
