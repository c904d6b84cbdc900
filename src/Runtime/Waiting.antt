-- ===== src/Runtime/Waiting.antt =====
-- src/runtime-manager/runtime-manager.mjs: `terminateAllAndWait` with what happens while it waits.
use betting_automation_contr.Prelude.{ℕ, Bool, List, [], ◌∷◌, String, if◌then◌else◌}
use betting_automation_contr.Prelude.Numbers.{is_empty}
use betting_automation_contr.Runtime.State.{Host, Outgoing, Runtimes, call}
use betting_automation_contr.Runtime.Spawning.{
  client_connected, client_disconnected, process_exited, terminate_runtime, handshake_elapsed,
}
use betting_automation_contr.Runtime.Inbound.{Frame, handle_incoming}
use betting_automation_contr.Runtime.Ending.{
  wait_elapsed, all_pids, go_offline, terminate_all_and_wait, quarantine_execution,
}

module _ (Value : Type 0) where
  -- What may happen while a command waits: the exit of a process, the timer of a wait for one, a
  -- frame of the pipe, a connection made or lost, a handshake timer, a typed call, the end of one
  -- process, and a quarantine.
  pub data Event : Type 0 where
    by_exit by_timer : ℕ → Event
    by_frame : Host → ℕ → Frame Value → Event
    by_connect by_disconnect : ℕ → Event
    by_handshake by_end : Host → ℕ → Event
    by_call : Bool → Host → Outgoing → Event
    by_quarantine : Host → ℕ → String → Value → Event

  unfoldable pub happen : Event → Runtimes Value → Runtimes Value
  happen (by_exit pid) r = process_exited Value pid r
  happen (by_timer pid) r = wait_elapsed Value pid r
  happen (by_frame h now f) r = handle_incoming Value h now f r
  happen (by_connect conn) r = client_connected Value conn r
  happen (by_disconnect conn) r = client_disconnected Value conn r
  happen (by_handshake h pid) r = handshake_elapsed Value h pid r
  happen (by_end h pid) r = (terminate_runtime Value h pid r).0
  happen (by_call degraded h t) r = (call Value degraded h t r).0
  happen (by_quarantine h now reason details) r =
      (quarantine_execution Value h now reason details r).0

  unfoldable pub happen_each : List Event → Runtimes Value → Runtimes Value
  happen_each [] r = r
  happen_each (e ∷ es) r = happen_each es (happen e r)

  -- The whole of `terminateAllAndWait`, with what happens during its wait.
  unfoldable pub shut_down : Host → List Event → Runtimes Value → Runtimes Value
  shut_down h events r =
      if is_empty (all_pids Value r.current_starting_pid r.active_runtimes)
      then terminate_all_and_wait Value h r
      else go_offline Value (happen_each events (terminate_all_and_wait Value h r))
