-- ===== src/Runtime/Shutdown.antt =====
-- The end of `terminateAllAndWait` of src/runtime-manager/runtime-manager.mjs.
use betting_automation_contr.Prelude.{
  ℕ, true, false, not, ◌||◌, none, List, [], ◌∷◌, ◌≡◌, refl, arith, Bool-cases, inl, inr, ◌==◌,
  if◌then◌else◌,
}
use betting_automation_contr.Prelude.Numbers.{
  includes, insert, discard, is_empty, includes-insert, includes-discard,
}
use betting_automation_contr.Runtime.State.{Host, Runtimes, stop_server}
use betting_automation_contr.Runtime.Ending.{
  all_pids, forgotten, end_each, go_offline, terminate_all_and_wait, terminate_runtime_and_wait,
  wait_for_each,
}
use betting_automation_contr.Runtime.Waiting.{Event, happen_each, shut_down}
use betting_automation_contr.Runtime.Waits.{IsIdle, is_settled, happen_each-Keeps}
use betting_automation_contr.Runtime.Halted.{asked_to_end}

module _ (Value : Type 0) where
  wait-IsIdle :
      (h : Host) (pid : ℕ) (r : Runtimes Value)
      → IsIdle Value r
      → IsIdle Value (terminate_runtime_and_wait Value h pid r)
  unfolding terminate_runtime_and_wait discard
  wait-IsIdle h pid r (a, b) = rw (a, b) (refl, refl)

  wait_for_each-IsIdle :
      (h : Host) (pids : List ℕ) (r : Runtimes Value)
      → IsIdle Value r
      → IsIdle Value (wait_for_each Value h pids r)
  unfolding wait_for_each
  wait_for_each-IsIdle h [] r s = s
  wait_for_each-IsIdle h (pid ∷ pids) r s =
      wait_for_each-IsIdle h pids (terminate_runtime_and_wait Value h pid r) (wait-IsIdle h pid r s)

  -- Every process that is waited for is one that the native core was asked to end.
  wait_for_each-asked :
      (h : Host) (k : ℕ) (pids : List ℕ) (r : Runtimes Value)
      → asked_to_end Value k (wait_for_each Value h pids r).log
        ≡ (includes k pids || asked_to_end Value k r.log)
  unfolding wait_for_each terminate_runtime_and_wait includes asked_to_end
  wait_for_each-asked h k [] r = refl
  wait_for_each-asked h k (pid ∷ pids) r =
      ground (arith, wait_for_each-asked h k pids (terminate_runtime_and_wait Value h pid r))

  wait-deferred :
      (h : Host) (k pid : ℕ) (r : Runtimes Value)
      → (pid == k) ≡ false
      → includes k r.exit_deferred ≡ false
      → includes k (terminate_runtime_and_wait Value h pid r).exit_deferred ≡ false
  unfolding terminate_runtime_and_wait
  wait-deferred h k pid r ne e = ground (
    arith,
    ne,
    e,
    includes-insert pid k r.exit_deferred,
    includes-discard pid k (insert pid r.exit_deferred),
  )

  -- Only the processes of the list are waited for.
  wait_for_each-deferred :
      (h : Host) (k : ℕ) (pids : List ℕ) (r : Runtimes Value)
      → includes k pids ≡ false
      → includes k r.exit_deferred ≡ false
      → includes k (wait_for_each Value h pids r).exit_deferred ≡ false
  unfolding wait_for_each includes
  wait_for_each-deferred h k [] r out e = e
  wait_for_each-deferred h k (pid ∷ pids) r out e =
      wait_for_each-deferred h k pids (terminate_runtime_and_wait Value h pid r)
        (ground (arith, out)) (wait-deferred h k pid r (ground (arith, out)) e)

  -- The manager is offline: nothing is active, starting, connected or waited for, and the native
  -- core has been asked to end every process of a list.
  pub record IsOffline (pids : List ℕ) (u : Runtimes Value) : Type 0 where
    pub offline : u.engine_status ≡ "OFFLINE"
    pub empty : u.active_runtimes ≡ []
    pub idle : u.current_starting_pid ≡ none
    pub closed : u.server_started ≡ false
    pub unconnected : u.active_connections ≡ []
    pub settled : (k : ℕ) → includes k u.exit_deferred ≡ false
    pub ended : (k : ℕ) → (not (includes k pids) || asked_to_end Value k u.log) ≡ true

  pub go_offline-IsOffline :
      (pids : List ℕ) (r : Runtimes Value)
      → IsIdle Value r
      → ((k : ℕ) → includes k r.exit_deferred ≡ false)
      → ((k : ℕ) → (not (includes k pids) || asked_to_end Value k r.log) ≡ true)
      → IsOffline pids (go_offline Value r)
  unfolding go_offline stop_server asked_to_end
  go_offline-IsOffline pids r (a, b) free asked = elim (Bool-cases r.server_started) [
    | inl e ↦ record {
      offline = rw e refl;
      empty = rw e a;
      idle = rw e b;
      closed = rw e refl;
      unconnected = rw e refl;
      settled = rw e free;
      ended = rw e asked;
    }
    | inr e ↦ record {
      offline = rw e refl;
      empty = rw e a;
      idle = rw e b;
      closed = ground (arith, e);
      unconnected = rw e refl;
      settled = rw e free;
      ended = rw e asked;
    }
  ]

  shut_down-ends :
      (h : Host) (events : List (Event Value)) (pids : List ℕ) (r : Runtimes Value)
      → IsIdle Value r
      → r.exit_deferred ≡ []
      → ((k : ℕ) → includes k pids ≡ true → is_settled Value k events ≡ true)
      → IsOffline pids (go_offline Value (happen_each Value events (wait_for_each Value h pids r)))
  unfolding includes
  shut_down-ends h events pids r s free all =
      let waiting = wait_for_each Value h pids r in
      let idle = wait_for_each-IsIdle h pids r s in
      go_offline-IsOffline pids (happen_each Value events waiting)
        (happen_each-Keeps Value 0 events waiting idle).idle
        (λ k.
          let kept = happen_each-Keeps Value k events waiting idle in
          elim (Bool-cases (includes k pids)) [
            | inl e ↦ ground (arith, kept.deferred, all k e)
            | inr e ↦
                ground (arith, kept.deferred, wait_for_each-deferred h k pids r e (rw free refl))
          ])
        (λ k.
          let kept = happen_each-Keeps Value k events waiting idle in
          ground (arith, kept.asked, wait_for_each-asked h k pids r))

  -- Ending all workers and waiting ends offline, whatever happens during the wait: exits, timers,
  -- frames, connections, calls, ends of workers and quarantines, but no start. Once every process
  -- that was active or starting has exited or the timer of its wait has run out, nothing is active,
  -- starting, connected or waited for, the pipe is closed, and the native core has been asked to
  -- end each of them. Nothing was waited for before.
  pub shut_down-IsOffline :
      (h : Host) (events : List (Event Value)) (r : Runtimes Value)
      → r.exit_deferred ≡ []
      → ((k : ℕ)
          → includes k (all_pids Value r.current_starting_pid r.active_runtimes) ≡ true
          → is_settled Value k events ≡ true)
      → IsOffline
          (all_pids Value r.current_starting_pid r.active_runtimes)
          (shut_down Value h events r)
  unfolding shut_down terminate_all_and_wait includes
  shut_down-IsOffline h events r free all =
      go (all_pids Value r.current_starting_pid r.active_runtimes) all
    where
      go :
          (pids : List ℕ)
          → ((k : ℕ) → includes k pids ≡ true → is_settled Value k events ≡ true)
          → IsOffline pids (
              if is_empty pids
              then end_each Value h pids (forgotten Value r)
              else go_offline Value
                  (happen_each Value events (end_each Value h pids (forgotten Value r))))
      go [] every =
          go_offline-IsOffline [] (forgotten Value r) (refl, refl) (λ k. rw free refl) (λ k. refl)
      go (pid ∷ pids) every =
          shut_down-ends h events (pid ∷ pids) (forgotten Value r) (refl, refl) free every
