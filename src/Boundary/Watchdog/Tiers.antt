-- ===== src/Boundary/Watchdog/Tiers.antt =====
-- The tiers of boundary/watchdogMonitor.mjs, over one check and over every run of checks.
use betting_automation_contr.Prelude.{
  ℕ, max, ◌+◌, ◌-◌, ◌≤◌, ◌<◌, false, List, [], ◌∷◌, ◌++◌, ◌≡◌, ◌≢◌, arith, refl, leb, length,
  length-append, if◌then◌else◌,
}
use betting_automation_contr.Boundary.Watchdog.Monitor.{
  Liveness, offline, healthy, unresponsive, degraded, quarantine_required, Event, Watchdog, start,
  record_heartbeat, check_liveness, is_degraded, was_alarmed,
}

-- How grave a state is.
abbrev pub severity : Liveness → ℕ
severity offline = 0
severity healthy = 0
severity unresponsive = 1
severity degraded = 2
severity quarantine_required = 3

-- The tier that the age of the last heartbeat calls for.
abbrev pub tier : Watchdog → ℕ → ℕ
tier w elapsed =
    if leb w.quarantine_timeout_ms elapsed
    then 3
    else (if leb w.degraded_timeout_ms elapsed
        then 2
        else (if leb w.warning_timeout_ms elapsed then 1 else 0))

-- A check after a heartbeat leaves the graver of the state before it and the tier that the age
-- of the heartbeat calls for: it raises an alarm in time, and never lowers one. The state is not
-- `offline`.
pub check-severity :
    (now : ℕ) (w : Watchdog)
    → w.last_heartbeat ≢ 0
    → w.liveness_state ≢ offline
    → severity (check_liveness now w).0.liveness_state
      ≡ max (severity w.liveness_state) (tier w (now - w.last_heartbeat))
unfolding check_liveness
check-severity now w h ne = ground arith

-- One alert for a check that raises the state, and none for another.
check_alerts :
    (now : ℕ) (w : Watchdog)
    → severity w.liveness_state + length (check_liveness now w).1
      ≤ severity (check_liveness now w).0.liveness_state
unfolding check_liveness
check_alerts now w = ground arith

severity-le : (l : Liveness) → severity l ≤ 3
severity-le l = ground arith

-- The checks of the timer, at a list of times.
unfoldable pub checks : List ℕ → Watchdog → Watchdog × List Event
checks [] w = (w, [])
checks (t ∷ ts) w =
    let (u, events) = check_liveness t w in let (v, more) = checks ts u in (v, events ++ more)

checks_alerts :
    (ts : List ℕ) (w : Watchdog)
    → severity w.liveness_state + length (checks ts w).1 ≤ severity (checks ts w).0.liveness_state
unfolding checks
checks_alerts [] w = omega arith
checks_alerts (t ∷ ts) w =
    let (u, events) = check_liveness t w in
    omega (arith, check_alerts t w, checks_alerts ts u, length-append events (checks ts u).1)

-- However long the worker is silent and however often the timer fires, the checks emit at most
-- three alerts, and fewer from a state that is already alarmed.
checks_alerts_bounded :
    (ts : List ℕ) (w : Watchdog) → length (checks ts w).1 + severity w.liveness_state ≤ 3
checks_alerts_bounded ts w =
    omega (arith, checks_alerts ts w, severity-le (checks ts w).0.liveness_state)

-- `start` disarms a monitor in any state, a running and alarmed one too: it no longer counts as
-- degraded, and no check changes it or raises an alert until the next heartbeat.
start_disarms :
    (ts : List ℕ) (w : Watchdog)
    → (checks ts (start w) ≡ (start w, [])) × (is_degraded (start w) ≡ false)
unfolding checks check_liveness start
start_disarms [] w = (refl, refl)
start_disarms (t ∷ ts) w = (rw (start_disarms ts w).0 refl, refl)

-- After a heartbeat at `now`, not at time 0, the state is `healthy` and stays so, with no alert,
-- at a check within the warning timeout; the heartbeat reports a recovery exactly from an alarmed
-- state.
heartbeat_recovers :
    (now later : ℕ) (w : Watchdog)
    → now ≢ 0
    → later - now < w.warning_timeout_ms
    → w.warning_timeout_ms ≤ w.degraded_timeout_ms
    → w.degraded_timeout_ms ≤ w.quarantine_timeout_ms
    → let (u, events) = record_heartbeat now w in
      (check_liveness later u ≡ (u, []))
      × (u.liveness_state ≡ healthy)
      × (length events ≡ (if was_alarmed w.liveness_state then 2 else 1))
unfolding check_liveness record_heartbeat
heartbeat_recovers now later w h soon t1 t2 = ground arith
