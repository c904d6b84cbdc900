-- ===== src/Runtime/Tests.antt =====
-- The theorems on the runtime manager, at the start and the end of one worker.
use betting_automation_contr.Prelude.{
  ℕ, ◌≤◌, length, true, false, not, ◌||◌, Option, none, some, List, [], ◌∷◌, ◌≡◌, refl, arith,
}
use betting_automation_contr.Prelude.Numbers.{includes, insert}
use betting_automation_contr.Prelude.Dict.{get, set}
use betting_automation_contr.Security.Tests.Cipher.{running}
use betting_automation_contr.Security.Facade.Commands.{authorize}
use betting_automation_contr.Security.Decision.Capabilities.{distinct, without}
use betting_automation_contr.Runtime.Heartbeat.{is_watched}
use betting_automation_contr.Workspace.Tracker.{start_operation, placing_bet}
use betting_automation_contr.Runtime.State.{
  answered, raises, returned, Host, Runtimes, cold, ensure_server_started, terminates,
  handshake_timed_out, aborts_connection,
}
use betting_automation_contr.Runtime.Spawning.{
  may_spawn, register, on_connected, spawn_runtime, handshake_elapsed, process_exited,
}
use betting_automation_contr.Runtime.Ending.{quarantine_execution}
use betting_automation_contr.Runtime.Waiting.{Event, by_timer, by_frame, shut_down}
use betting_automation_contr.Runtime.Waits.{is_settled}
use betting_automation_contr.Runtime.Inbound.{legacy_heartbeat}
use betting_automation_contr.Runtime.Halted.{IsHalted, quarantine_execution-IsHalted}
use betting_automation_contr.Runtime.Authority.{MaySpawn, spawn_runtime-MaySpawn}
use betting_automation_contr.Runtime.Exits.{handshake_elapsed-aborts}
use betting_automation_contr.Runtime.Shutdown.{IsOffline, shut_down-IsOffline}
use betting_automation_contr.Runtime.Runs.{here, next, starts, one_worker}

-- The native core does what it is asked.
abbrev pub host : Host
host = record {
  pipe_starts = true;
  write = λ c. answered true;
  kill = λ p. answered true;
  boundary_listens = false;
  boundary_connected = false;
}

abbrev one : Runtimes ℕ
one = (spawn_runtime ℕ host (some running) 50 (some 7) (cold ℕ)).0

one_worker_example :
    (length one.active_runtimes ≤ 1)
    × ((not (includes 7 one.active_runtimes) || is_watched 7 one.last_seen) ≡ true)
one_worker_example =
    one_worker ℕ one 7 (next (cold ℕ) one here (starts host (some running) 50 (some 7) (cold ℕ)))

-- A worker that has been started and has not connected.
abbrev pub waiting : Runtimes ℕ
waiting = record (cold ℕ) {
  active_runtimes = 7 ∷ [];
  server_started = true;
  engine_status = "STARTING";
  current_starting_pid = some 7;
  last_seen = (7, 50) ∷ [];
  handshake_timers = 7 ∷ [];
  connect_listeners = 7 ∷ [];
}

-- A worker at work on one operation, connected over the pipe.
abbrev working : Runtimes ℕ
working = record (cold ℕ) {
  active_runtimes = 7 ∷ [];
  active_connections = 1 ∷ [];
  server_started = true;
  engine_status = "RUNNING";
  last_seen = (7, 50) ∷ [];
  operations =
      start_operation ℕ 60 "op" placing_bet 0
        (record { current_pending_action = none; operations = [] });
}

quarantine_execution-IsHalted_example :
    IsHalted ℕ 90 "GONE" 0 working (quarantine_execution ℕ host 90 "GONE" 0 working).0
    × ((quarantine_execution ℕ host 90 "GONE" 0 working).1 ≡ returned)
unfolding cold start_operation set get
quarantine_execution-IsHalted_example =
    quarantine_execution-IsHalted ℕ host 90 "GONE" 0 working (refl, tt) (λ c. refl) refl

-- A pipe whose writes raise exceptions.
abbrev broken_host : Host
broken_host = record host { write = λ c. raises }

handshake_elapsed-aborts_example :
    let u = handshake_elapsed ℕ host 7 waiting in
    let v = process_exited ℕ 7 u in
    (includes 7 u.active_runtimes ≡ false)
    × (u.log ≡ aborts_connection 7 ∷ handshake_timed_out 7 ∷ terminates 7 ∷ waiting.log)
    × (v.engine_status ≡ "ABORTED")
    × (v.log ≡ u.log)
unfolding cold includes
handshake_elapsed-aborts_example =
    handshake_elapsed-aborts ℕ host 7 true waiting refl refl refl refl

-- The pipe is served, and no worker is there.
abbrev pub served : Runtimes ℕ
served = record (cold ℕ) { server_started = true }

spawn_runtime-MaySpawn_example :
    MaySpawn (some running) × (served.active_runtimes ≡ []) × ◌≡◌ {A = Option ℕ} (some 7) (some 7)
unfolding cold spawn_runtime may_spawn authorize distinct without ensure_server_started register
    on_connected insert
spawn_runtime-MaySpawn_example =
    spawn_runtime-MaySpawn ℕ host (some running) 50 (some 7) served 7 refl

-- A heartbeat comes in before the timer runs out.
abbrev late_beat : List (Event ℕ)
late_beat = by_frame host 95 (legacy_heartbeat 7) ∷ by_timer 7 ∷ []

shut_down-IsOffline_example : IsOffline ℕ (7 ∷ []) (shut_down ℕ host late_beat waiting)
unfolding cold includes is_settled
shut_down-IsOffline_example =
    shut_down-IsOffline ℕ host late_beat waiting refl (λ k h. ground (arith, h))
