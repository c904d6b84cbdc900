-- ===== src/Runtime/Waits.antt =====
-- What the waits of src/runtime-manager/runtime-manager.mjs leave alone, while no worker is active
-- or starting.
use betting_automation_contr.Prelude.{
  ℕ, Bool, true, false, not, ◌&&◌, ◌||◌, none, List, [], ◌∷◌, String, ◌≡◌, refl, ◌∙◌, arith,
  Bool-cases, inl, inr, ◌==◌,
}
use betting_automation_contr.Prelude.Numbers.{includes, discard, is_empty, includes-discard}
use betting_automation_contr.Runtime.State.{
  Reply, replied, denied, failed, Host, to_stop_cluster, Runtimes, send_envelope,
}
use betting_automation_contr.Runtime.Spawning.{
  client_connected, client_disconnected, process_exited, terminate_runtime,
}
use betting_automation_contr.Runtime.Ending.{wait_elapsed, halt, halt_after, quarantine_execution}
use betting_automation_contr.Runtime.Halted.{asked_to_end, asked-kill_each}
use betting_automation_contr.Runtime.Untouched.{
  IsSame, send_envelope-IsSame, call-IsSame, handle_incoming-IsSame, notify_all-IsSame,
  handshake-IsSame,
}
use betting_automation_contr.Runtime.Waiting.{
  Event, by_exit, by_timer, by_frame, by_connect, by_disconnect, by_handshake, by_end, by_call,
  by_quarantine, happen, happen_each,
}

module _ (Value : Type 0) where
  -- An exit or a timer that ends the wait for a process.
  abbrev pub ends_wait : ℕ → Event Value → Bool
  ends_wait pid (by_exit p) = p == pid
  ends_wait pid (by_timer p) = p == pid
  ends_wait pid e = false

  -- Some event ends the wait for a process.
  unfoldable pub is_settled : ℕ → List (Event Value) → Bool
  is_settled pid [] = false
  is_settled pid (e ∷ es) = ends_wait pid e || is_settled pid es

  -- No worker is active or starting.
  abbrev pub IsIdle : Runtimes Value → Type 0
  IsIdle r = (r.active_runtimes ≡ []) × (r.current_starting_pid ≡ none)

  -- What an event keeps, and that one which ends a wait does.
  pub record Keeps (k : ℕ) (done : Bool) (r u : Runtimes Value) : Type 0 where
    pub idle : IsIdle u
    pub asked : (not (asked_to_end Value k r.log) || asked_to_end Value k u.log) ≡ true
    pub deferred :
        (not (includes k u.exit_deferred) || (includes k r.exit_deferred && not done)) ≡ true

  Keeps-same : (k : ℕ) (r u : Runtimes Value) → IsIdle r → IsSame Value k r u → Keeps k false r u
  Keeps-same k r u (a, b) (c, d, e, f) = record {
    idle = (c ∙ a, d ∙ b);
    asked = ground (arith, f);
    deferred = ground (arith, e);
  }

  exit-Keeps :
      (k pid : ℕ) (r : Runtimes Value)
      → IsIdle r
      → Keeps k (pid == k) r (process_exited Value pid r)
  unfolding process_exited discard includes
  exit-Keeps k pid r (a, b) = record {
    idle = ground (arith, a, b);
    asked = ground (arith, a, b);
    deferred = ground (arith, a, b, includes-discard pid k r.exit_deferred);
  }

  end-Keeps :
      (k pid : ℕ) (h : Host) (r : Runtimes Value)
      → IsIdle r
      → Keeps k false r (terminate_runtime Value h pid r).0
  unfolding terminate_runtime includes asked_to_end
  end-Keeps k pid h r (a, b) = record {
    idle = ground (arith, a, b);
    asked = ground (arith, a, b);
    deferred = ground (arith, a, b);
  }

  halt-Keeps :
      (k now : ℕ) (reason : String) (details : Value) (r u : Runtimes Value)
      → IsIdle r
      → IsSame Value k r u
      → Keeps k false r (halt Value now reason details u)
  unfolding halt asked_to_end
  halt-Keeps k now reason details r u (a, b) (c, d, e, f) = record {
    idle = (refl, d ∙ b);
    asked = ground (arith, f, asked-kill_each Value k u.active_runtimes u.log);
    deferred = ground (arith, e);
  }

  halt_after-Keeps :
      (k now : ℕ) (reason : String) (details : Value) (r : Runtimes Value)
      (c : Runtimes Value × Reply)
      → IsIdle r
      → IsSame Value k r c.0
      → Keeps k false r (halt_after Value now reason details c).0
  halt_after-Keeps k now reason details r (u, replied ok) s same =
      halt-Keeps k now reason details r u s same
  halt_after-Keeps k now reason details r (u, denied) s same = Keeps-same k r u s same
  halt_after-Keeps k now reason details r (u, failed) s same = Keeps-same k r u s same

  quarantine-Keeps :
      (k : ℕ) (h : Host) (now : ℕ) (reason : String) (details : Value) (r : Runtimes Value)
      → IsIdle r
      → Keeps k false r (quarantine_execution Value h now reason details r).0
  unfolding quarantine_execution
  quarantine-Keeps k h now reason details r s =
      let marked : Runtimes Value = record r {
        engine_status = "DEGRADED_HALTED";
        active_browser_count = 0;
      } in
      elim (Bool-cases (is_empty r.active_connections)) [
        | inl e ↦ rw e (halt-Keeps k now reason details r marked s (refl, refl, refl, refl))
        | inr e ↦ rw e (
            halt_after-Keeps k now reason details r (send_envelope Value h to_stop_cluster marked) s
              (send_envelope-IsSame Value k h to_stop_cluster marked))
      ]

  happen-Keeps :
      (k : ℕ) (e : Event Value) (r : Runtimes Value)
      → IsIdle r
      → Keeps k (ends_wait k e) r (happen Value e r)
  unfolding happen client_connected client_disconnected wait_elapsed
  happen-Keeps k (by_exit pid) r s = exit-Keeps k pid r s
  happen-Keeps k (by_timer pid) r s = record {
    idle = s;
    asked = ground arith;
    deferred = ground (arith, includes-discard pid k r.exit_deferred);
  }
  happen-Keeps k (by_frame h now f) r s =
      Keeps-same k r _ s (handle_incoming-IsSame Value k h now f r)
  happen-Keeps k (by_connect conn) r s =
      Keeps-same k r _ s (notify_all-IsSame Value k conn r.connect_listeners _ s.1)
  happen-Keeps k (by_disconnect conn) r s = Keeps-same k r _ s (refl, refl, refl, refl)
  happen-Keeps k (by_handshake h pid) r s =
      Keeps-same k r _ s (handshake-IsSame Value k pid h r s.0)
  happen-Keeps k (by_end h pid) r s = end-Keeps k pid h r s
  happen-Keeps k (by_call degraded h t) r s =
      Keeps-same k r _ s (call-IsSame Value k degraded h t r)
  happen-Keeps k (by_quarantine h now reason v) r s = quarantine-Keeps k h now reason v r s

  pub happen_each-Keeps :
      (k : ℕ) (es : List (Event Value)) (r : Runtimes Value)
      → IsIdle r
      → Keeps k (is_settled k es) r (happen_each Value es r)
  unfolding happen_each is_settled
  happen_each-Keeps k [] r s = record { idle = s; asked = ground arith; deferred = ground arith }
  happen_each-Keeps k (e ∷ es) r s =
      let one = happen-Keeps k e r s in
      let rest = happen_each-Keeps k es (happen Value e r) one.idle in
      record {
        idle = rest.idle;
        asked = ground (arith, one.asked, rest.asked);
        deferred = ground (arith, one.deferred, rest.deferred);
      }
