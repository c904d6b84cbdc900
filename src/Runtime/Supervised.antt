-- ===== src/Runtime/Supervised.antt =====
-- src/runtime-manager/runtime-manager.mjs: the quarantine, the starts and the exits keep the active
-- workers watched.
use betting_automation_contr.Prelude.{
  ℕ, not, ◌&&◌, ◌||◌, Option, none, some, [], String, ◌≡◌, ◌∙◌, arith, Bool-cases, inl, inr,
}
use betting_automation_contr.Prelude.Numbers.{includes, insert, is_empty}
use betting_automation_contr.Security.State.{StateData}
use betting_automation_contr.Runtime.Heartbeat.{watched-record}
use betting_automation_contr.Runtime.State.{
  Host, Reply, replied, denied, failed, to_stop_cluster, Runtimes, Completion, returned, thrown,
  ensure_server_started,
}
use betting_automation_contr.Runtime.Spawning.{
  is_pid, after_timeout, may_spawn, start_process, spawn_runtime, on_connected, notify_all,
  client_connected, register, process_exited, handshake_elapsed,
}
use betting_automation_contr.Runtime.Ending.{halt_after, halt, quarantine_execution}
use betting_automation_contr.Runtime.Watched.{
  none-IsSupervised, ended-IsSupervised, idle-may_spawn, IsWatched, IsAlike, alike-IsWatched,
  notify_all-IsAlike, send_envelope-IsWatched, terminate_runtime-IsWatched,
}

module _ (Value : Type 0) where
  pub halt-IsWatched :
      (now : ℕ) (reason : String) (details : Value) (r : Runtimes Value)
      → IsWatched Value (halt Value now reason details r)
  unfolding halt
  halt-IsWatched now reason details r = none-IsSupervised r.last_seen

  pub quarantine_execution-IsWatched :
      (h : Host) (now : ℕ) (reason : String) (details : Value) (r : Runtimes Value)
      → IsWatched Value r
      → IsWatched Value (quarantine_execution Value h now reason details r).0
  unfolding quarantine_execution
  quarantine_execution-IsWatched h now reason details r s =
      let marked : Runtimes Value = record r {
        engine_status = "DEGRADED_HALTED";
        active_browser_count = 0;
      } in
      elim (Bool-cases (is_empty r.active_connections)) [
        | inl e ↦ rw e (halt-IsWatched now reason details _)
        | inr e ↦ rw e (go _ (send_envelope-IsWatched Value h to_stop_cluster marked s))
      ]
    where
      go :
          (c : Runtimes Value × Reply)
          → IsWatched Value c.0
          → IsWatched Value (halt_after Value now reason details c).0
      go (u, replied ok) t = halt-IsWatched now reason details u
      go (u, denied) t = t
      go (u, failed) t = t

  pub process_exited-IsWatched :
      (pid : ℕ) (r : Runtimes Value)
      → IsWatched Value r
      → IsWatched Value (process_exited Value pid r)
  unfolding process_exited
  process_exited-IsWatched pid r s =
      let gone = ended-IsSupervised pid r.active_runtimes r.last_seen s in
      elim (Bool-cases (includes pid r.active_runtimes || is_pid pid r.current_starting_pid)) [
        | inl e ↦ rw e gone
        | inr e ↦ rw e gone
      ]

  pub handshake_elapsed-IsWatched :
      (h : Host) (pid : ℕ) (r : Runtimes Value)
      → IsWatched Value r
      → IsWatched Value (handshake_elapsed Value h pid r)
  unfolding handshake_elapsed
  handshake_elapsed-IsWatched h pid r s = elim (Bool-cases (includes pid r.handshake_timers)) [
    | inl armed ↦
        elim (Bool-cases (is_empty r.active_connections && includes pid r.active_runtimes)) [
          | inl e ↦ rw (armed, e) (go _ (terminate_runtime-IsWatched Value h pid _ s))
          | inr e ↦ rw (armed, e) s
        ]
    | inr other ↦ rw other s
  ]
    where
      go :
          (c : Runtimes Value × Completion)
          → IsWatched Value c.0
          → IsWatched Value (after_timeout Value pid c)
      go (u, thrown) t = t
      go (u, returned) t = t

  register-IsWatched :
      (now pid : ℕ) (r : Runtimes Value)
      → r.active_runtimes ≡ []
      → IsWatched Value (register Value now pid r)
  unfolding register insert includes
  register-IsWatched now pid r e =
      (rw e (ground arith), rw e (λ k h. ground (arith, watched-record pid k now r.last_seen, h)))

  start_process-IsWatched :
      (h : Host) (now : ℕ) (process : Option ℕ) (c : Runtimes Value × Completion)
      → c.0.active_runtimes ≡ []
      → IsWatched Value c.0
      → IsWatched Value (start_process Value h now process c).0
  unfolding on_connected
  start_process-IsWatched h now process (r, thrown) e s = s
  start_process-IsWatched h now none (r, returned) e s = s
  start_process-IsWatched h now (some pid) (r, returned) e s =
      let fresh = register-IsWatched now pid r e in
      elim (Bool-cases
        (not (is_empty (register Value now pid r).active_connections) || h.boundary_connected)) [
          | inl c ↦ rw c fresh
          | inr c ↦ rw c fresh
        ]

  ensure_server_started-IsAlike :
      (h : Host) (r : Runtimes Value) → IsAlike Value r (ensure_server_started Value h r).0
  unfolding ensure_server_started
  ensure_server_started-IsAlike h r = ground arith

  pub spawn_runtime-IsWatched :
      (h : Host) (d : Option StateData) (now : ℕ) (process : Option ℕ) (r : Runtimes Value)
      → IsWatched Value r
      → IsWatched Value (spawn_runtime Value h d now process r).0
  unfolding spawn_runtime
  spawn_runtime-IsWatched h d now process r s =
      let ready = ensure_server_started Value h r in
      let alike = ensure_server_started-IsAlike h r in
      elim (Bool-cases (may_spawn (not (is_empty r.active_runtimes)) d)) [
        | inl may ↦ rw may (
            start_process-IsWatched h now process ready
              (alike.0 ∙ idle-may_spawn r.active_runtimes d may)
              (alike-IsWatched Value r ready.0 alike s))
        | inr idle ↦ rw idle s
      ]

  pub client_connected-IsWatched :
      (conn : ℕ) (r : Runtimes Value)
      → IsWatched Value r
      → IsWatched Value (client_connected Value conn r)
  unfolding client_connected
  client_connected-IsWatched conn r s =
      let held : Runtimes Value = record r {
        active_connections = insert conn r.active_connections;
      } in
      alike-IsWatched Value held (notify_all Value conn r.connect_listeners held)
        (notify_all-IsAlike Value conn r.connect_listeners held) s
