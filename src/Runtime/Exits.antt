-- ===== src/Runtime/Exits.antt =====
-- A worker that never connects: the exit callback and the handshake timer of
-- src/runtime-manager/runtime-manager.mjs.
use betting_automation_contr.Prelude.{
  ℕ, Bool, true, false, not, Option, none, some, [], ◌∷◌, ◌≡◌, refl, arith,
}
use betting_automation_contr.Prelude.Numbers.{includes, insert, is_empty, includes-discard}
use betting_automation_contr.Security.State.{StateData}
use betting_automation_contr.Runtime.State.{
  answered, Host, spawns, Runtimes, ensure_server_started, runtime_exited, aborts_connection,
  handshake_timed_out, terminates,
}
use betting_automation_contr.Runtime.Spawning.{
  may_spawn, register, spawn_runtime, process_exited, handshake_elapsed, terminate_runtime,
}

module _ (Value : Type 0) where
  -- When the handshake timer of an active worker fires without a connection, the worker is ended
  -- and forgotten and the start is aborted; the later exit of the process finds nothing to report:
  -- the status stays `ABORTED`. The native core answers.
  pub handshake_elapsed-aborts :
      (h : Host) (pid : ℕ) (ok : Bool) (r : Runtimes Value)
      → includes pid r.handshake_timers ≡ true
      → r.active_connections ≡ []
      → includes pid r.active_runtimes ≡ true
      → h.kill pid ≡ answered ok
      → let u = handshake_elapsed Value h pid r in
        let v = process_exited Value pid u in
        (includes pid u.active_runtimes ≡ false)
        × (u.log ≡ aborts_connection pid ∷ handshake_timed_out pid ∷ terminates pid ∷ r.log)
        × (v.engine_status ≡ "ABORTED")
        × (v.log ≡ u.log)
  unfolding handshake_elapsed terminate_runtime process_exited
  handshake_elapsed-aborts h pid ok r armed alone active kill =
      ground (arith, armed, alone, active, kill, includes-discard pid pid r.active_runtimes)

  abbrev pub IsReaped : ℕ → Runtimes Value → Type 0
  IsReaped pid u =
      (includes pid u.active_runtimes ≡ false)
      × (u.current_starting_pid ≡ none)
      × (u.engine_status ≡ "STOPPED")
      × (includes pid u.handshake_timers ≡ false)

  register-exits :
      (now pid : ℕ) (r : Runtimes Value)
      → let u = process_exited Value pid (register Value now pid r) in
        IsReaped pid u × (u.log ≡ aborts_connection pid ∷ runtime_exited pid ∷ spawns pid ∷ r.log)
  unfolding process_exited register
  register-exits now pid r = ground (
    arith,
    includes-discard pid pid (insert pid r.active_runtimes),
    includes-discard pid pid (insert pid r.handshake_timers),
  )

  register-waits :
      (h : Host) (d : Option StateData) (now pid : ℕ) (r : Runtimes Value)
      → may_spawn (not (is_empty r.active_runtimes)) d ≡ true
      → r.server_started ≡ true
      → r.active_connections ≡ []
      → h.boundary_connected ≡ false
      → (spawn_runtime Value h d now (some pid) r).0 ≡ register Value now pid r
  unfolding spawn_runtime ensure_server_started register
  register-waits h d now pid r may started alone apart = ground (arith, may, started, alone, apart)

  disarmed-elapsed :
      (h : Host) (pid : ℕ) (r : Runtimes Value)
      → includes pid r.handshake_timers ≡ false
      → handshake_elapsed Value h pid r ≡ r
  unfolding handshake_elapsed
  disarmed-elapsed h pid r e = rw e refl

  -- A worker that exits before anything has connected: its exit is reported and the start is
  -- aborted, the manager is stopped with no worker starting, and the handshake timer, should it
  -- fire, does nothing. No connection is there, and the manager serves the pipe.
  pub spawn_runtime-exits :
      (h g : Host) (d : Option StateData) (now pid : ℕ) (r : Runtimes Value)
      → may_spawn (not (is_empty r.active_runtimes)) d ≡ true
      → r.server_started ≡ true
      → r.active_connections ≡ []
      → h.boundary_connected ≡ false
      → let u = process_exited Value pid (spawn_runtime Value h d now (some pid) r).0 in
        IsReaped pid u
        × (u.log ≡ aborts_connection pid ∷ runtime_exited pid ∷ spawns pid ∷ r.log)
        × (handshake_elapsed Value g pid u ≡ u)
  spawn_runtime-exits h g d now pid r may started alone apart =
      let (reaped, told) = register-exits now pid r in
      rw (register-waits h d now pid r may started alone apart) (
        reaped,
        told,
        disarmed-elapsed g pid (process_exited Value pid (register Value now pid r)) reaped.3,
      )
