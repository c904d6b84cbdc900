-- ===== src/Control/Stopped.antt =====
-- How `STOP_AUTOMATION` of src/command/registerCommands.mjs ends.
use betting_automation_contr.Prelude.{
  ℕ, true, false, none, some, List, [], ◌∷◌, ◌≡◌, refl, arith, Option-cases, inl, inr,
}
use betting_automation_contr.Prelude.Numbers.{includes}
use betting_automation_contr.Workspace.Tracker.{Tracker, fail_all_pending}
use betting_automation_contr.Runtime.State.{Host, Runtimes, Completion, returned, thrown}
use betting_automation_contr.Runtime.Ending.{all_pids, terminate_each, terminate_all}
use betting_automation_contr.Runtime.Waiting.{shut_down}
use betting_automation_contr.Runtime.Waits.{is_settled}
use betting_automation_contr.Runtime.Shutdown.{IsOffline, go_offline-IsOffline, shut_down-IsOffline}
use betting_automation_contr.Control.Lifecycle.{LifecycleRow, set_desired_state, set_observed_state}
use betting_automation_contr.Control.Automation.{
  Clock, Control, desire, observe, set_lifecycle, stop_workspace, after_end, Wait, Write,
  stops_wanting, observes, write_each, stop_gracefully, stop_automation,
}
use betting_automation_contr.Control.Begun.{Says}

module _ (Value : Type 0) where
  -- Ending all workers again, once nothing is there, returns and changes nothing of it.
  terminate_all-IsOffline :
      (h : Host) (pids : List ℕ) (r : Runtimes Value)
      → IsOffline Value pids r
      → IsOffline Value pids (terminate_all Value h r).0 × ((terminate_all Value h r).1 ≡ returned)
  unfolding terminate_all terminate_each
  terminate_all-IsOffline h pids r off = rw off.empty (
    go_offline-IsOffline Value pids
        (record r { current_starting_pid = none; active_runtimes = []; last_seen = [] })
        (refl, refl) off.settled off.ended,
    refl,
  )

  with_operations-IsOffline :
      (pids : List ℕ) (r : Runtimes Value) (o : Tracker Value)
      → IsOffline Value pids r
      → IsOffline Value pids (record r { operations = o })
  with_operations-IsOffline pids r o off = record {
    offline = off.offline;
    empty = off.empty;
    idle = off.idle;
    closed = off.closed;
    unconnected = off.unconnected;
    settled = off.settled;
    ended = off.ended;
  }

  -- What a stop leaves.
  abbrev pub IsStopped : List ℕ → Control Value → Type 0
  IsStopped pids c =
      IsOffline Value pids c.runtime
      × Says Value "STOPPED" "STOPPED" "STOPPED" c
      × (c.runtime.operations.current_pending_action ≡ none)
      × (c.active_account_ids ≡ [])
      × (c.boundary_serving ≡ false)

  after_end-IsStopped :
      (t : Clock) (pids : List ℕ) (c : Control Value) (s : Runtimes Value × Completion)
      (row : LifecycleRow)
      → c.lifecycle ≡ some row
      → row.desired_state ≡ "STOPPED"
      → IsOffline Value pids s.0
      → s.1 ≡ returned
      → IsStopped pids (after_end Value t c s).0 × ((after_end Value t c s).1 ≡ returned)
  unfolding stop_workspace set_lifecycle set_observed_state fail_all_pending
  after_end-IsStopped t pids c (r, thrown) row f h off e = absurd (ground (arith, e))
  after_end-IsStopped t pids c (r, returned) row f h off e =
      rw f
        ((with_operations-IsOffline pids r _ off, (_, refl, h, refl, refl), refl, refl, refl), refl)

  -- The automation is not wanted to run.
  abbrev IsUnwanted : Control Value → Type 0
  IsUnwanted c = (row : LifecycleRow) × (c.lifecycle ≡ some row) × (row.desired_state ≡ "STOPPED")

  write_each-IsUnwanted :
      (t : Clock) (xs : List Write) (c : Control Value)
      → IsUnwanted c
      → IsUnwanted (write_each Value t xs c)
  unfolding write_each set_desired_state set_observed_state
  write_each-IsUnwanted t [] c s = s
  write_each-IsUnwanted t (stops_wanting reason ∷ rest) c (row, e, h) =
      write_each-IsUnwanted t rest (desire Value t "STOPPED" reason c) (rw e (_, refl, refl))
  write_each-IsUnwanted t (observes x reason ∷ rest) c (row, e, h) =
      write_each-IsUnwanted t rest (observe Value t x reason c) (rw e (_, refl, h))

  stop_gracefully-IsUnwanted :
      (w : Wait Value) (t : Clock) (c : Control Value) → IsUnwanted (stop_gracefully Value w t c)
  unfolding stop_gracefully set_desired_state set_observed_state
  stop_gracefully-IsUnwanted w t c =
      write_each-IsUnwanted t w.writes
        (observe Value t "STOPPING" "USER_COMMAND_STOP"
          (desire Value t "STOPPED" "USER_COMMAND_STOP" c))
        (elim (Option-cases c.lifecycle) [
          | inl e ↦ rw e (_, refl, refl)
          | inr (row, e) ↦ rw e (_, refl, refl)
        ])

  -- A stop returns and leaves nothing, whatever happens to the runtime manager and is written to the
  -- lifecycle table while it waits for the graceful stop and then for the end of the workers, but for a
  -- start. If every process that is still active or starting after the graceful stop exits in the
  -- second wait, or the timer of its wait runs out, then no worker is active, starting or
  -- connected, both pipe servers are closed, the native core has been asked to end each worker that
  -- was still there after the graceful stop, no action is pending, and the automation is wanted and
  -- observed as stopped. After the graceful stop nothing is waited for.
  pub stop_automation-IsStopped :
      (h : Host) (graceful ending : Wait Value) (t : Clock) (c : Control Value)
      → (stop_gracefully Value graceful t c).runtime.exit_deferred ≡ []
      → ((k : ℕ)
          → let r = (stop_gracefully Value graceful t c).runtime in
            includes k (all_pids Value r.current_starting_pid r.active_runtimes) ≡ true
            → is_settled Value k ending.events ≡ true)
      → let r = (stop_gracefully Value graceful t c).runtime in
        IsStopped
          (all_pids Value r.current_starting_pid r.active_runtimes)
          (stop_automation Value h graceful ending t c).0
        × ((stop_automation Value h graceful ending t c).1 ≡ returned)
  unfolding stop_automation
  stop_automation-IsStopped h graceful ending t c free all =
      let stopped = stop_gracefully Value graceful t c in
      let r = stopped.runtime in
      let pids = all_pids Value r.current_starting_pid r.active_runtimes in
      let down = shut_down Value h ending.events r in
      let (off, done) =
        terminate_all-IsOffline h pids down
          (shut_down-IsOffline Value h ending.events r free all) in
      let (row, at_row, wanted) =
        write_each-IsUnwanted t ending.writes stopped (stop_gracefully-IsUnwanted graceful t c) in
      after_end-IsStopped t pids (write_each Value t ending.writes stopped)
        (terminate_all Value h down) row at_row wanted off done
