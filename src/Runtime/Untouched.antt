-- ===== src/Runtime/Untouched.antt =====
-- Which calls and callbacks of src/runtime-manager/runtime-manager.mjs leave the workers, the waits
-- for them and the processes that were asked to end alone.
use betting_automation_contr.Prelude.{
  ℕ, Bool, false, ◌||◌, Option, none, some, List, [], ◌∷◌, String, ◌≡◌, ◌⊎◌, refl, arith,
  Bool-cases, Option-cases, inl, inr, str_eq,
}
use betting_automation_contr.Prelude.Numbers.{includes}
use betting_automation_contr.Runtime.State.{
  Answer, answered, raises, Host, Outgoing, to_get_readiness, Effect, Runtimes, starts_pipe, writes,
  ensure_server_started, write_all, send_envelope, call,
}
use betting_automation_contr.Runtime.Spawning.{on_connected, notify_all, handshake_elapsed}
use betting_automation_contr.Runtime.Inbound.{
  Frame, malformed, invalid, legacy_heartbeat, heartbeat, state_changed, fleet_readiness,
  operation_ack, operation_result, browser_status, odds_tick, audit_event, other, beat_of, present,
  with_status, with_browsers, change_state, settle_operation, handle_incoming,
}
use betting_automation_contr.Runtime.Halted.{asked_to_end}

Answer-cases : (a : Answer) → (a ≡ raises) ⊎ ((ok : Bool) × (a ≡ answered ok))
Answer-cases raises = inl refl
Answer-cases (answered ok) = inr (ok, refl)

module _ (Value : Type 0) where
  -- As `r`, as far as workers and the process `k` go.
  abbrev pub IsSame : ℕ → Runtimes Value → Runtimes Value → Type 0
  IsSame k r u =
      (u.active_runtimes ≡ r.active_runtimes)
      × (u.current_starting_pid ≡ r.current_starting_pid)
      × (u.exit_deferred ≡ r.exit_deferred)
      × (asked_to_end Value k u.log ≡ asked_to_end Value k r.log)

  asked-write_all :
      (k : ℕ) (h : Host) (t : Outgoing) (cs : List ℕ) (written : Bool) (log : List (Effect Value))
      → asked_to_end Value k (write_all Value h t cs written log).0 ≡ asked_to_end Value k log
  unfolding write_all asked_to_end
  asked-write_all k h t [] written log = refl
  asked-write_all k h t (c ∷ cs) written log = elim (Answer-cases (h.write c)) [
    | inl e ↦ rw (write_all, e) refl
    | inr (ok, e) ↦ rw (write_all, e) (asked-write_all k h t cs (written || ok) (writes c t ∷ log))
  ]

  pub send_envelope-IsSame :
      (k : ℕ) (h : Host) (t : Outgoing) (r : Runtimes Value)
      → IsSame k r (send_envelope Value h t r).0
  unfolding send_envelope ensure_server_started asked_to_end
  send_envelope-IsSame k h t r = ground (
    arith,
    asked-write_all k h t r.active_connections false r.log,
    asked-write_all k h t r.active_connections false (starts_pipe ∷ r.log),
  )

  pub call-IsSame :
      (k : ℕ) (degraded : Bool) (h : Host) (t : Outgoing) (r : Runtimes Value)
      → IsSame k r (call Value degraded h t r).0
  unfolding call
  call-IsSame k degraded h t r = ground (arith, send_envelope-IsSame k h t r)

  change_state-IsSame :
      (k : ℕ) (h : Host) (s : String) (r : Runtimes Value) → IsSame k r (change_state Value h s r)
  unfolding change_state asked_to_end
  change_state-IsSame k h s r = elim (Bool-cases (str_eq s "RUNNING")) [
    | inl e ↦ rw e (send_envelope-IsSame k h to_get_readiness _)
    | inr e ↦ elim (Bool-cases (str_eq s "STOPPED")) [
      | inl f ↦ rw (e, f) (refl, refl, refl, refl)
      | inr f ↦ rw (e, f) (refl, refl, refl, refl)
    ]
  ]

  beat_of-IsSame :
      (k now : ℕ) (pid : Option ℕ) (r : Runtimes Value) → IsSame k r (beat_of Value now pid r)
  beat_of-IsSame k now none r = (refl, refl, refl, refl)
  beat_of-IsSame k now (some p) r = ground arith

  heartbeat-IsSame :
      (k now : ℕ) (pid n : Option ℕ) (s : Option String) (r : Runtimes Value)
      → IsSame k r (with_status Value s (with_browsers Value n (beat_of Value now pid r)))
  heartbeat-IsSame k now pid none none r = beat_of-IsSame k now pid r
  heartbeat-IsSame k now pid (some b) none r = beat_of-IsSame k now pid r
  heartbeat-IsSame k now pid none (some s) r = beat_of-IsSame k now pid r
  heartbeat-IsSame k now pid (some b) (some s) r = beat_of-IsSame k now pid r

  pub handle_incoming-IsSame :
      (k : ℕ) (h : Host) (now : ℕ) (f : Frame Value) (r : Runtimes Value)
      → IsSame k r (handle_incoming Value h now f r)
  unfolding handle_incoming settle_operation asked_to_end
  handle_incoming-IsSame k h now malformed r = (refl, refl, refl, refl)
  handle_incoming-IsSame k h now invalid r = (refl, refl, refl, refl)
  handle_incoming-IsSame k h now (legacy_heartbeat pid) r = beat_of-IsSame k now (some pid) r
  handle_incoming-IsSame k h now (heartbeat pid n t) r = heartbeat-IsSame k now pid n (present t) r
  handle_incoming-IsSame k h now (state_changed t) r = elim (Option-cases (present t)) [
    | inl e ↦ rw (handle_incoming, e) (refl, refl, refl, refl)
    | inr (u, e) ↦ rw (handle_incoming, e) (change_state-IsSame k h u r)
  ]
  handle_incoming-IsSame k h now (fleet_readiness v) r = (refl, refl, refl, refl)
  handle_incoming-IsSame k h now (operation_ack id) r = elim (Option-cases (present id)) [
    | inl e ↦ rw (handle_incoming, e) (refl, refl, refl, refl)
    | inr (u, e) ↦ rw (handle_incoming, e) (refl, refl, refl, refl)
  ]
  handle_incoming-IsSame k h now (operation_result id t v x) r = elim (Option-cases (present id)) [
    | inl e ↦ rw (handle_incoming, e) (refl, refl, refl, refl)
    | inr (u, e) ↦ rw (handle_incoming, e) (refl, refl, refl, refl)
  ]
  handle_incoming-IsSame k h now browser_status r = (refl, refl, refl, refl)
  handle_incoming-IsSame k h now odds_tick r = (refl, refl, refl, refl)
  handle_incoming-IsSame k h now audit_event r = (refl, refl, refl, refl)
  handle_incoming-IsSame k h now other r = (refl, refl, refl, refl)

  pub notify_all-IsSame :
      (k conn : ℕ) (pids : List ℕ) (r : Runtimes Value)
      → r.current_starting_pid ≡ none
      → IsSame k r (notify_all Value conn pids r)
  unfolding notify_all on_connected
  notify_all-IsSame k conn [] r e = (refl, refl, refl, refl)
  notify_all-IsSame k conn (p ∷ ps) r e =
      ground (arith, e, notify_all-IsSame k conn ps (on_connected Value p (some conn) r))

  pub handshake-IsSame :
      (k pid : ℕ) (h : Host) (r : Runtimes Value)
      → r.active_runtimes ≡ []
      → IsSame k r (handshake_elapsed Value h pid r)
  unfolding handshake_elapsed includes
  handshake-IsSame k pid h r a = ground (arith, a)
