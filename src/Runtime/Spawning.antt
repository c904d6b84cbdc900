-- ===== src/Runtime/Spawning.antt =====
-- src/runtime-manager/runtime-manager.mjs: `spawnRuntime`, with the connection, the exit and the
-- handshake timeout of the process that it starts. The search for the script, its hash and the
-- removal of lock files are left out; two processes with an armed timer have different ids.
use betting_automation_contr.Prelude.{
  ℕ, Bool, true, false, not, ◌&&◌, ◌||◌, Option, none, some, List, [], ◌∷◌, str_eq, ◌==◌,
  if◌then◌else◌,
}
use betting_automation_contr.Prelude.Numbers.{includes, insert, discard, is_empty}
use betting_automation_contr.Security.State.{StateData}
use betting_automation_contr.Security.Decision.Capabilities.{automation_start}
use betting_automation_contr.Security.Facade.Commands.{authorize, is_degraded_state, system_state}
use betting_automation_contr.Runtime.Heartbeat.{record_beat, remove_beats}
use betting_automation_contr.Runtime.State.{
  Completion, returned, thrown, Answer, answered, raises, Host, Effect, spawns, terminates,
  runtime_exited, handshake_timed_out, aborts_connection, Runtimes, ensure_server_started,
}

-- `canStartAutomation` of execution-authorization.mjs and the first test of `spawnRuntime`. The
-- facade asks whether a runtime is active, and the state of the security authority is `d`.
unfoldable pub may_spawn : Bool → Option StateData → Bool
may_spawn executing d =
    not (is_degraded_state (system_state d)) && authorize executing d automation_start

-- What `spawnRuntime` gives: the process id, or one of its exceptions.
pub data Spawn : Type 0 where
  spawned : ℕ → Spawn
  refused broken : Spawn

abbrev pub is_pid : ℕ → Option ℕ → Bool
is_pid pid none = false
is_pid pid (some p) = p == pid

abbrev pub without_pid : ℕ → Option ℕ → Option ℕ
without_pid pid p = if is_pid pid p then none else p

module _ (Value : Type 0) where
  -- `onConnected`, of the start of a process, with the id of a connection or without.
  unfoldable pub on_connected : ℕ → Option ℕ → Runtimes Value → Runtimes Value
  on_connected pid conn r = record r {
    current_starting_pid = without_pid pid r.current_starting_pid;
    handshake_timers = discard pid r.handshake_timers;
    connect_listeners = discard pid r.connect_listeners;
    active_connections = elim conn [
      | none ↦ r.active_connections
      | some c ↦ insert c r.active_connections
    ];
  }

  unfoldable pub notify_all : ℕ → List ℕ → Runtimes Value → Runtimes Value
  notify_all conn [] r = r
  notify_all conn (pid ∷ pids) r = notify_all conn pids (on_connected pid (some conn) r)

  -- The first two callbacks of `ensureServerStarted`.
  unfoldable pub client_connected : ℕ → Runtimes Value → Runtimes Value
  client_connected conn r =
      notify_all conn r.connect_listeners
        (record r { active_connections = insert conn r.active_connections })

  unfoldable pub client_disconnected : ℕ → Runtimes Value → Runtimes Value
  client_disconnected conn r = record r { active_connections = discard conn r.active_connections }

  -- `spawnRuntime` once the process runs: it is tracked, and waited for.
  unfoldable pub register : ℕ → ℕ → Runtimes Value → Runtimes Value
  register now pid r = record r {
    current_starting_pid = some pid;
    active_runtimes = insert pid r.active_runtimes;
    last_seen = record_beat pid now r.last_seen;
    engine_status = "STARTING";
    handshake_timers = insert pid r.handshake_timers;
    connect_listeners = insert pid r.connect_listeners;
    log = spawns pid ∷ r.log;
  }

  abbrev pub start_process :
      Host → ℕ → Option ℕ → Runtimes Value × Completion → Runtimes Value × Spawn
  start_process h now process (r, thrown) = (r, broken)
  start_process h now none (r, returned) = (r, broken)
  start_process h now (some pid) (r, returned) =
      let waiting = register now pid r in
      if not (is_empty waiting.active_connections) || h.boundary_connected
      then (on_connected pid none waiting, spawned pid)
      else (waiting, spawned pid)

  -- `spawnRuntime`. `process` is the id of the new process, if the script, its hash and the native
  -- core give one.
  unfoldable pub spawn_runtime :
      Host → Option StateData → ℕ → Option ℕ → Runtimes Value → Runtimes Value × Spawn
  unfolding may_spawn
  spawn_runtime h d now process r =
      if may_spawn (not (is_empty r.active_runtimes)) d
      then start_process h now process (ensure_server_started Value h r)
      else (r, refused)

  -- The effects of an exit that is not stale.
  abbrev pub exit_effects : Bool → ℕ → List (Effect Value) → List (Effect Value)
  exit_effects true pid log = aborts_connection pid ∷ runtime_exited pid ∷ log
  exit_effects false pid log = runtime_exited pid ∷ log

  -- The exit callback of a process.
  unfoldable pub process_exited : ℕ → Runtimes Value → Runtimes Value
  process_exited pid r =
      let was_starting = is_pid pid r.current_starting_pid in
      let was_active = includes pid r.active_runtimes in
      let reaped : Runtimes Value = record r {
        exit_deferred = discard pid r.exit_deferred;
        current_starting_pid = without_pid pid r.current_starting_pid;
        handshake_timers =
            if was_starting then discard pid r.handshake_timers else r.handshake_timers;
        active_runtimes = discard pid r.active_runtimes;
        last_seen = remove_beats pid r.last_seen;
      } in
      if was_active || was_starting
      then record reaped {
        engine_status = if str_eq r.engine_status "ABORTED" then "ABORTED" else "STOPPED";
        log = exit_effects was_starting pid r.log;
      }
      else reaped

  -- The answer of the native core for an active process.
  abbrev pub after_kill : ℕ → Runtimes Value → Runtimes Value → Answer → Runtimes Value × Completion
  after_kill pid r asked raises = (asked, thrown)
  after_kill pid r asked (answered ok) = (
    record asked {
      active_runtimes = discard pid r.active_runtimes;
      last_seen = remove_beats pid r.last_seen;
    },
    returned,
  )

  -- `terminateRuntime`. An exception of the native core reaches the caller only for an active
  -- process, which then stays active.
  unfoldable pub terminate_runtime : Host → ℕ → Runtimes Value → Runtimes Value × Completion
  terminate_runtime h pid r =
      let asked : Runtimes Value = record r {
        current_starting_pid = without_pid pid r.current_starting_pid;
        log = terminates pid ∷ r.log;
      } in
      if includes pid r.active_runtimes
      then after_kill pid r asked (h.kill pid)
      else (asked, returned)

  abbrev pub after_timeout : ℕ → Runtimes Value × Completion → Runtimes Value
  after_timeout pid (r, thrown) = r
  after_timeout pid (r, returned) = record r {
    engine_status = "ABORTED";
    log = aborts_connection pid ∷ handshake_timed_out pid ∷ r.log;
  }

  -- The callback of the handshake timer, while it is armed.
  unfoldable pub handshake_elapsed : Host → ℕ → Runtimes Value → Runtimes Value
  handshake_elapsed h pid r =
      let fired : Runtimes Value = record r { handshake_timers = discard pid r.handshake_timers } in
      if includes pid r.handshake_timers
      then (if is_empty r.active_connections && includes pid r.active_runtimes
          then after_timeout pid (terminate_runtime h pid fired)
          else fired)
      else r
