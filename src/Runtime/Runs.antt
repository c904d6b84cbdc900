-- ===== src/Runtime/Runs.antt =====
-- Runs of src/runtime-manager/runtime-manager.mjs: the operator, the workers, the pipe and the
-- timers take turns, in any order.
use betting_automation_contr.Prelude.{
  ℕ, ◌≤◌, Bool, true, not, ◌||◌, Option, none, some, [], String, ◌≡◌, arith, length, Bool-cases,
  Option-cases, inl, inr, ◌==◌, str_eq,
}
use betting_automation_contr.Prelude.Numbers.{includes}
use betting_automation_contr.Security.State.{StateData}
use betting_automation_contr.Runtime.Heartbeat.{is_watched}
use betting_automation_contr.Runtime.State.{
  Host, Outgoing, Runtimes, to_get_readiness, cold, call, is_guarded,
}
use betting_automation_contr.Runtime.Spawning.{
  spawn_runtime, client_connected, client_disconnected, process_exited, terminate_runtime,
  handshake_elapsed,
}
use betting_automation_contr.Runtime.Ending.{
  terminate_runtime_and_wait, wait_elapsed, go_offline, terminate_all_and_wait, terminate_all,
  quarantine_execution,
}
use betting_automation_contr.Runtime.Inbound.{
  Frame, malformed, invalid, legacy_heartbeat, heartbeat, state_changed, fleet_readiness,
  operation_ack, operation_result, browser_status, odds_tick, audit_event, other, beat_of, present,
  with_status, with_browsers, change_state, settle_operation, handle_incoming,
}
use betting_automation_contr.Runtime.Watched.{
  IsWatched, none-IsSupervised, beat-IsSupervised, ended-IsSupervised, send_envelope-IsWatched,
  terminate_runtime-IsWatched, terminate_all-IsWatched, terminate_all_and_wait-IsWatched,
  go_offline-IsWatched,
}
use betting_automation_contr.Runtime.Supervised.{
  quarantine_execution-IsWatched, process_exited-IsWatched, handshake_elapsed-IsWatched,
  spawn_runtime-IsWatched, client_connected-IsWatched,
}

module _ (Value : Type 0) where
  beat_of-IsWatched :
      (now : ℕ) (pid : Option ℕ) (r : Runtimes Value)
      → IsWatched Value r
      → IsWatched Value (beat_of Value now pid r)
  beat_of-IsWatched now none r s = s
  beat_of-IsWatched now (some pid) r s = elim (Bool-cases (pid == 0)) [
    | inl e ↦ rw e s
    | inr e ↦ rw e (beat-IsSupervised pid now r.active_runtimes r.last_seen s)
  ]

  with_status-IsWatched :
      (t : Option String) (r : Runtimes Value)
      → IsWatched Value r
      → IsWatched Value (with_status Value t r)
  with_status-IsWatched none r s = s
  with_status-IsWatched (some t) r s = s

  with_browsers-IsWatched :
      (n : Option ℕ) (r : Runtimes Value)
      → IsWatched Value r
      → IsWatched Value (with_browsers Value n r)
  with_browsers-IsWatched none r s = s
  with_browsers-IsWatched (some n) r s = s

  change_state-IsWatched :
      (h : Host) (t : String) (r : Runtimes Value)
      → IsWatched Value r
      → IsWatched Value (change_state Value h t r)
  unfolding change_state
  change_state-IsWatched h t r s = elim (Bool-cases (str_eq t "RUNNING")) [
    | inl e ↦ rw e (send_envelope-IsWatched Value h to_get_readiness _ s)
    | inr e ↦ elim (Bool-cases (str_eq t "STOPPED")) [ inl f ↦ rw (e, f) s | inr f ↦ rw (e, f) s ]
  ]

  handle_incoming-IsWatched :
      (h : Host) (now : ℕ) (f : Frame Value) (r : Runtimes Value)
      → IsWatched Value r
      → IsWatched Value (handle_incoming Value h now f r)
  unfolding handle_incoming settle_operation
  handle_incoming-IsWatched h now malformed r s = s
  handle_incoming-IsWatched h now invalid r s = s
  handle_incoming-IsWatched h now (legacy_heartbeat pid) r s = beat_of-IsWatched now (some pid) r s
  handle_incoming-IsWatched h now (heartbeat pid n t) r s =
      with_status-IsWatched (present t) (with_browsers Value n (beat_of Value now pid r))
        (with_browsers-IsWatched n (beat_of Value now pid r) (beat_of-IsWatched now pid r s))
  handle_incoming-IsWatched h now (state_changed t) r s = elim (Option-cases (present t)) [
    | inl e ↦ rw (handle_incoming, e) s
    | inr (u, e) ↦ rw (handle_incoming, e) (change_state-IsWatched h u r s)
  ]
  handle_incoming-IsWatched h now (fleet_readiness v) r s = s
  handle_incoming-IsWatched h now (operation_ack id) r s = elim (Option-cases (present id)) [
    | inl e ↦ rw (handle_incoming, e) s
    | inr (u, e) ↦ rw (handle_incoming, e) s
  ]
  handle_incoming-IsWatched h now (operation_result id t v x) r s =
      elim (Option-cases (present id)) [
        | inl e ↦ rw (handle_incoming, e) s
        | inr (u, e) ↦ rw (handle_incoming, e) s
      ]
  handle_incoming-IsWatched h now browser_status r s = s
  handle_incoming-IsWatched h now odds_tick r s = s
  handle_incoming-IsWatched h now audit_event r s = s
  handle_incoming-IsWatched h now other r s = s

  call-IsWatched :
      (degraded : Bool) (h : Host) (t : Outgoing) (r : Runtimes Value)
      → IsWatched Value r
      → IsWatched Value (call Value degraded h t r).0
  unfolding call
  call-IsWatched degraded h t r s =
      let sent = send_envelope-IsWatched Value h t r s in
      elim (Bool-cases (is_guarded t)) [
        | inl e ↦ elim (Bool-cases degraded) [
          | inl f ↦ rw (call, e, f) s
          | inr f ↦ rw (call, e, f) sent
        ]
        | inr e ↦ rw (call, e) sent
      ]

  -- One turn.
  pub data Turn : Runtimes Value → Runtimes Value → Type 0 where
    calls :
        (degraded : Bool) (h : Host) (t : Outgoing) (r : Runtimes Value)
        → Turn r (call Value degraded h t r).0
    hears :
        (h : Host) (now : ℕ) (f : Frame Value) (r : Runtimes Value)
        → Turn r (handle_incoming Value h now f r)
    connects : (conn : ℕ) (r : Runtimes Value) → Turn r (client_connected Value conn r)
    disconnects : (conn : ℕ) (r : Runtimes Value) → Turn r (client_disconnected Value conn r)
    starts :
        (h : Host) (d : Option StateData) (now : ℕ) (process : Option ℕ) (r : Runtimes Value)
        → Turn r (spawn_runtime Value h d now process r).0
    exits : (pid : ℕ) (r : Runtimes Value) → Turn r (process_exited Value pid r)
    expires : (h : Host) (pid : ℕ) (r : Runtimes Value) → Turn r (handshake_elapsed Value h pid r)
    ends : (h : Host) (pid : ℕ) (r : Runtimes Value) → Turn r (terminate_runtime Value h pid r).0
    awaits :
        (h : Host) (pid : ℕ) (r : Runtimes Value)
        → Turn r (terminate_runtime_and_wait Value h pid r)
    stops_waiting : (pid : ℕ) (r : Runtimes Value) → Turn r (wait_elapsed Value pid r)
    ends_all : (h : Host) (r : Runtimes Value) → Turn r (terminate_all Value h r).0
    awaits_all : (h : Host) (r : Runtimes Value) → Turn r (terminate_all_and_wait Value h r)
    finishes : (r : Runtimes Value) → Turn r (go_offline Value r)
    quarantines :
        (h : Host) (now : ℕ) (reason : String) (details : Value) (r : Runtimes Value)
        → Turn r (quarantine_execution Value h now reason details r).0

  pub data Run (r : Runtimes Value) : Runtimes Value → Type 0 where
    here : Run r r
    next : (u v : Runtimes Value) → Run r u → Turn u v → Run r v

  Turn-IsWatched : (r u : Runtimes Value) → Turn r u → IsWatched Value r → IsWatched Value u
  unfolding client_disconnected terminate_runtime_and_wait wait_elapsed
  Turn-IsWatched r u (calls degraded h t _) s = call-IsWatched degraded h t r s
  Turn-IsWatched r u (hears h now f _) s = handle_incoming-IsWatched h now f r s
  Turn-IsWatched r u (connects conn _) s = client_connected-IsWatched Value conn r s
  Turn-IsWatched r u (disconnects conn _) s = s
  Turn-IsWatched r u (starts h d now p _) s = spawn_runtime-IsWatched Value h d now p r s
  Turn-IsWatched r u (exits pid _) s = process_exited-IsWatched Value pid r s
  Turn-IsWatched r u (expires h pid _) s = handshake_elapsed-IsWatched Value h pid r s
  Turn-IsWatched r u (ends h pid _) s = terminate_runtime-IsWatched Value h pid r s
  Turn-IsWatched r u (awaits h pid _) s = ended-IsSupervised pid r.active_runtimes r.last_seen s
  Turn-IsWatched r u (stops_waiting pid _) s = s
  Turn-IsWatched r u (ends_all h _) s = terminate_all-IsWatched Value h r s
  Turn-IsWatched r u (awaits_all h _) s = terminate_all_and_wait-IsWatched Value h r
  Turn-IsWatched r u (finishes _) s = go_offline-IsWatched Value r s
  Turn-IsWatched r u (quarantines h now reason v _) s =
      quarantine_execution-IsWatched Value h now reason v r s

  pub Run-IsWatched : (r u : Runtimes Value) → Run r u → IsWatched Value r → IsWatched Value u
  Run-IsWatched r u here s = s
  Run-IsWatched r u (next k _ run t) s = Turn-IsWatched k u t (Run-IsWatched r k run s)

  -- After any run of a new manager, calls, frames, starts, exits, timeouts, ends and quarantines
  -- in any order, at most one worker is active, and a worker that is active is one that the
  -- heartbeat monitor tracks.
  pub one_worker :
      (r : Runtimes Value) (pid : ℕ)
      → Run (cold Value) r
      → (length r.active_runtimes ≤ 1)
        × ((not (includes pid r.active_runtimes) || is_watched pid r.last_seen) ≡ true)
  unfolding cold
  one_worker r pid run =
      let s = Run-IsWatched (cold Value) r run (none-IsSupervised []) in
      (
        s.0,
        elim (Bool-cases (includes pid r.active_runtimes)) [
          | inl e ↦ ground (arith, s.1 pid e)
          | inr e ↦ ground (arith, e)
        ],
      )
