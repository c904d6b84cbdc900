-- ===== src/Runtime/Watched.antt =====
-- src/runtime-manager/runtime-manager.mjs: which workers are active, and that they are watched.
use betting_automation_contr.Prelude.{
  ℕ, ◌≤◌, true, false, not, Option, none, some, List, [], ◌∷◌, ◌≡◌, refl, arith, length, Bool-cases,
  inl, inr,
}
use betting_automation_contr.Prelude.Numbers.{
  includes, discard, is_empty, includes-discard, length-discard_le,
}
use betting_automation_contr.Security.State.{StateData}
use betting_automation_contr.Security.Decision.Capabilities.{
  get_current_capabilities-grants, get_current_capabilities,
}
use betting_automation_contr.Security.Facade.Commands.{authorize, alias_of}
use betting_automation_contr.Runtime.Heartbeat.{
  LastSeen, record_beat, remove_beats, is_watched, watched-record, watched-remove,
}
use betting_automation_contr.Runtime.State.{
  Host, Outgoing, Runtimes, Completion, returned, thrown, Answer, answered, raises, stop_server,
  ensure_server_started, send_envelope,
}
use betting_automation_contr.Runtime.Spawning.{
  may_spawn, on_connected, notify_all, after_kill, terminate_runtime,
}
use betting_automation_contr.Runtime.Ending.{
  terminate_runtime_and_wait, wait_for_each, go_offline, terminate_all_and_wait, terminate_each,
  terminate_all, unless_thrown, after_each, all_pids, end_each, forgotten,
}

-- Nothing is spawned while a process executes, whatever the state of the security authority.
pub may_spawn-executing : (d : Option StateData) → may_spawn true d ≡ false
unfolding may_spawn authorize alias_of get_current_capabilities
may_spawn-executing none = ground arith
may_spawn-executing (some d) =
    ground (arith, get_current_capabilities-grants "CAP_AUTOMATION_START" true d)

-- At most one worker is active, and an active worker has a heartbeat record.
abbrev pub IsSupervised : List ℕ → LastSeen → Type 0
IsSupervised active seen =
    (length active ≤ 1) × ((k : ℕ) → includes k active ≡ true → is_watched k seen ≡ true)

pub none-IsSupervised : (seen : LastSeen) → IsSupervised [] seen
unfolding includes
none-IsSupervised seen = (ground arith, λ k h. absurd (ground (arith, h)))

pub beat-IsSupervised :
    (pid now : ℕ) (active : List ℕ) (seen : LastSeen)
    → IsSupervised active seen
    → IsSupervised active (record_beat pid now seen)
beat-IsSupervised pid now active seen s =
    (s.0, λ k h. ground (arith, watched-record pid k now seen, s.1 k h))

pub ended-IsSupervised :
    (pid : ℕ) (active : List ℕ) (seen : LastSeen)
    → IsSupervised active seen
    → IsSupervised (discard pid active) (remove_beats pid seen)
ended-IsSupervised pid active seen s = (
  omega (arith, s.0, length-discard_le pid active),
  λ k h. ground (
    arith,
    watched-remove pid k seen,
    includes-discard pid k active,
    h,
    s.1 k (ground (arith, includes-discard pid k active, h)),
  ),
)

pub idle-may_spawn :
    (pids : List ℕ) (d : Option StateData) → may_spawn (not (is_empty pids)) d ≡ true → pids ≡ []
idle-may_spawn [] d e = refl
idle-may_spawn (p ∷ ps) d e = absurd (ground (arith, may_spawn-executing d, e))

module _ (Value : Type 0) where
  abbrev pub IsWatched : Runtimes Value → Type 0
  IsWatched r = IsSupervised r.active_runtimes r.last_seen

  -- The workers and their heartbeats are the same.
  abbrev pub IsAlike : Runtimes Value → Runtimes Value → Type 0
  IsAlike r u = (u.active_runtimes ≡ r.active_runtimes) × (u.last_seen ≡ r.last_seen)

  pub alike-IsWatched : (r u : Runtimes Value) → IsAlike r u → IsWatched r → IsWatched u
  alike-IsWatched r u (e, f) s = rw (e, f) s

  send_envelope-IsAlike :
      (h : Host) (t : Outgoing) (r : Runtimes Value) → IsAlike r (send_envelope Value h t r).0
  unfolding send_envelope ensure_server_started
  send_envelope-IsAlike h t r = ground arith

  pub notify_all-IsAlike :
      (conn : ℕ) (pids : List ℕ) (r : Runtimes Value) → IsAlike r (notify_all Value conn pids r)
  unfolding notify_all on_connected
  notify_all-IsAlike conn [] r = (refl, refl)
  notify_all-IsAlike conn (pid ∷ pids) r =
      ground (arith, notify_all-IsAlike conn pids (on_connected Value pid (some conn) r))

  pub go_offline-IsWatched : (r : Runtimes Value) → IsWatched r → IsWatched (go_offline Value r)
  unfolding go_offline stop_server
  go_offline-IsWatched r s = elim (Bool-cases r.server_started) [ inl e ↦ rw e s | inr e ↦ rw e s ]

  pub send_envelope-IsWatched :
      (h : Host) (t : Outgoing) (r : Runtimes Value)
      → IsWatched r
      → IsWatched (send_envelope Value h t r).0
  send_envelope-IsWatched h t r s =
      alike-IsWatched r (send_envelope Value h t r).0 (send_envelope-IsAlike h t r) s

  after_kill-IsWatched :
      (pid : ℕ) (r asked : Runtimes Value) (a : Answer)
      → IsAlike r asked
      → IsWatched r
      → IsWatched (after_kill Value pid r asked a).0
  after_kill-IsWatched pid r asked raises (e, f) s = rw (e, f) s
  after_kill-IsWatched pid r asked (answered ok) alike s =
      ended-IsSupervised pid r.active_runtimes r.last_seen s

  pub terminate_runtime-IsWatched :
      (h : Host) (pid : ℕ) (r : Runtimes Value)
      → IsWatched r
      → IsWatched (terminate_runtime Value h pid r).0
  unfolding terminate_runtime
  terminate_runtime-IsWatched h pid r s = elim (Bool-cases (includes pid r.active_runtimes)) [
    | inl active ↦ rw active (after_kill-IsWatched pid r _ (h.kill pid) (refl, refl) s)
    | inr other ↦ rw other s
  ]

  pub wait_for_each-IsWatched :
      (h : Host) (pids : List ℕ) (r : Runtimes Value)
      → IsWatched r
      → IsWatched (wait_for_each Value h pids r)
  unfolding wait_for_each terminate_runtime_and_wait
  wait_for_each-IsWatched h [] r s = s
  wait_for_each-IsWatched h (pid ∷ pids) r s =
      wait_for_each-IsWatched h pids (terminate_runtime_and_wait Value h pid r)
        (ended-IsSupervised pid r.active_runtimes r.last_seen s)

  unless_thrown-IsWatched :
      (first rest : Runtimes Value × Completion)
      → IsWatched first.0
      → IsWatched rest.0
      → IsWatched (unless_thrown Value first rest).0
  unless_thrown-IsWatched (r, thrown) rest s t = s
  unless_thrown-IsWatched (r, returned) rest s t = t

  terminate_each-IsWatched :
      (h : Host) (pids : List ℕ) (r : Runtimes Value)
      → IsWatched r
      → IsWatched (terminate_each Value h pids r).0
  unfolding terminate_each
  terminate_each-IsWatched h [] r s = s
  terminate_each-IsWatched h (pid ∷ pids) r s =
      let now = terminate_runtime-IsWatched h pid r s in
      unless_thrown-IsWatched (terminate_runtime Value h pid r) _ now
        (terminate_each-IsWatched h pids (terminate_runtime Value h pid r).0 now)

  pub terminate_all-IsWatched :
      (h : Host) (r : Runtimes Value) → IsWatched r → IsWatched (terminate_all Value h r).0
  unfolding terminate_all
  terminate_all-IsWatched h r s =
      go _
        (terminate_each-IsWatched h r.active_runtimes (record r { current_starting_pid = none }) s)
    where
      go : (c : Runtimes Value × Completion) → IsWatched c.0 → IsWatched (after_each Value c).0
      go (u, thrown) t = t
      go (u, returned) t =
          go_offline-IsWatched (record u { active_runtimes = []; last_seen = [] })
            (none-IsSupervised [])

  pub terminate_all_and_wait-IsWatched :
      (h : Host) (r : Runtimes Value) → IsWatched (terminate_all_and_wait Value h r)
  unfolding terminate_all_and_wait
  terminate_all_and_wait-IsWatched h r =
      go (all_pids Value r.current_starting_pid r.active_runtimes)
    where
      go : (pids : List ℕ) → IsWatched (end_each Value h pids (forgotten Value r))
      go [] = go_offline-IsWatched (forgotten Value r) (none-IsSupervised [])
      go (pid ∷ pids) =
          wait_for_each-IsWatched h (pid ∷ pids) (forgotten Value r) (none-IsSupervised [])
