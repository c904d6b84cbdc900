-- ===== src/Runtime/Ending.antt =====
-- src/runtime-manager/runtime-manager.mjs: the ends of worker processes, one and all of them, and
-- the quarantine.
use betting_automation_contr.Prelude.{
  ℕ, true, not, ◌&&◌, Option, none, some, List, [], ◌∷◌, ◌++◌, String, ◌==◌, if◌then◌else◌,
}
use betting_automation_contr.Prelude.Numbers.{includes, insert, discard, is_empty}
use betting_automation_contr.Workspace.Tracker.{quarantine_all_pending}
use betting_automation_contr.Runtime.Heartbeat.{remove_beats}
use betting_automation_contr.Runtime.State.{
  Completion, returned, thrown, answered, Reply, replied, to_stop_cluster, Host, Effect, terminates,
  lifecycle_changed, uncertain_operations, Runtimes, stop_server, send_envelope,
}
use betting_automation_contr.Runtime.Spawning.{terminate_runtime, without_pid}

module _ (Value : Type 0) where
  -- `terminateRuntimeAndWait`, until it waits: the caller waits if the native core says that the
  -- process is being ended, else the promise is settled at once.
  unfoldable pub terminate_runtime_and_wait : Host → ℕ → Runtimes Value → Runtimes Value
  terminate_runtime_and_wait h pid r = record r {
    current_starting_pid = without_pid pid r.current_starting_pid;
    active_runtimes = discard pid r.active_runtimes;
    last_seen = remove_beats pid r.last_seen;
    log = terminates pid ∷ r.log;
    exit_deferred = elim (h.kill pid) [
      | answered true ↦ insert pid r.exit_deferred
      | _ ↦ discard pid (insert pid r.exit_deferred)
    ];
  }

  -- Its timer.
  unfoldable pub wait_elapsed : ℕ → Runtimes Value → Runtimes Value
  wait_elapsed pid r = record r { exit_deferred = discard pid r.exit_deferred }

  unfoldable pub wait_for_each : Host → List ℕ → Runtimes Value → Runtimes Value
  wait_for_each h [] r = r
  wait_for_each h (pid ∷ pids) r = wait_for_each h pids (terminate_runtime_and_wait h pid r)

  -- The processes that `terminateAllAndWait` ends: the active ones, and the starting one.
  abbrev pub all_pids : Option ℕ → List ℕ → List ℕ
  all_pids none pids = pids
  all_pids (some p) pids = if not (p == 0) && not (includes p pids) then pids ++ (p ∷ []) else pids

  -- Its lines after the wait.
  unfoldable pub go_offline : Runtimes Value → Runtimes Value
  go_offline r = stop_server Value (record r { engine_status = "OFFLINE" })

  abbrev pub forgotten : Runtimes Value → Runtimes Value
  forgotten r = record r { current_starting_pid = none; active_runtimes = []; last_seen = [] }

  abbrev pub end_each : Host → List ℕ → Runtimes Value → Runtimes Value
  end_each h [] r = go_offline r
  end_each h (pid ∷ pids) r = wait_for_each h (pid ∷ pids) r

  -- `terminateAllAndWait`, until it waits. With no process it goes offline at once.
  unfoldable pub terminate_all_and_wait : Host → Runtimes Value → Runtimes Value
  terminate_all_and_wait h r =
      end_each h (all_pids r.current_starting_pid r.active_runtimes) (forgotten r)

  abbrev pub unless_thrown :
      Runtimes Value × Completion → Runtimes Value × Completion → Runtimes Value × Completion
  unless_thrown (r, thrown) rest = (r, thrown)
  unless_thrown (r, returned) rest = rest

  -- The loop of `terminateAll`. An exception ends it.
  unfoldable pub terminate_each : Host → List ℕ → Runtimes Value → Runtimes Value × Completion
  terminate_each h [] r = (r, returned)
  terminate_each h (pid ∷ pids) r =
      let ended = terminate_runtime Value h pid r in
      unless_thrown ended (terminate_each h pids ended.0)

  abbrev pub after_each : Runtimes Value × Completion → Runtimes Value × Completion
  after_each (r, thrown) = (r, thrown)
  after_each (r, returned) =
      (go_offline (record r { active_runtimes = []; last_seen = [] }), returned)

  -- `terminateAll`.
  unfoldable pub terminate_all : Host → Runtimes Value → Runtimes Value × Completion
  terminate_all h r =
      after_each (terminate_each h r.active_runtimes (record r { current_starting_pid = none }))

  -- The second step of `quarantineExecution`: what the native core answers is not used.
  unfoldable pub kill_each : List ℕ → List (Effect Value) → List (Effect Value)
  kill_each [] log = log
  kill_each (pid ∷ pids) log = kill_each pids (terminates pid ∷ log)

  -- Its steps after the stop of the cluster.
  unfoldable pub halt : ℕ → String → Value → Runtimes Value → Runtimes Value
  halt now reason details r =
      let settled = quarantine_all_pending Value now reason details r.operations in
      record r {
        active_runtimes = [];
        operations = settled.0;
        log =
            lifecycle_changed "DEGRADED_HALTED"
            ∷ uncertain_operations settled.1
            ∷ kill_each r.active_runtimes r.log;
      }

  abbrev pub halt_after : ℕ → String → Value → Runtimes Value × Reply → Runtimes Value × Completion
  halt_after now reason details (r, replied ok) = (halt now reason details r, returned)
  halt_after now reason details (r, _) = (r, thrown)

  -- `quarantineExecution`. `reason` is the text that the operations get, and `details` the default
  -- of `markUncertain`.
  unfoldable pub quarantine_execution :
      Host → ℕ → String → Value → Runtimes Value → Runtimes Value × Completion
  quarantine_execution h now reason details r =
      let marked : Runtimes Value = record r {
        engine_status = "DEGRADED_HALTED";
        active_browser_count = 0;
      } in
      if is_empty r.active_connections
      then (halt now reason details marked, returned)
      else halt_after now reason details (send_envelope Value h to_stop_cluster marked)
