-- ===== src/Boundary/Watchdog/Monitor.antt =====
-- src/runtime-manager/boundary/watchdogMonitor.mjs: the monitor, its heartbeat and its check. A
-- call returns the events that it emits. The timer is kept as whether it runs;
-- the last payload, which only the telemetry reads, is not kept.
use betting_automation_contr.Prelude.{
  ℕ, ◌-◌, Bool, true, false, List, [], ◌∷◌, leb, ◌==◌, if◌then◌else◌,
}

pub data Liveness : Type 0 where
  offline healthy unresponsive degraded quarantine_required : Liveness

-- The events, with the elapsed time of an alert and the state that a recovery left.
pub data Event : Type 0 where
  heartbeat : Event
  liveness_recovered : Liveness → Event
  liveness_warning liveness_degraded quarantine_alert : ℕ → Event

pub record Watchdog : Type 0 where
  pub warning_timeout_ms : ℕ
  pub degraded_timeout_ms : ℕ
  pub quarantine_timeout_ms : ℕ
  pub liveness_state : Liveness
  pub last_heartbeat : ℕ
  pub timer_running : Bool

-- `reset`.
abbrev pub reset : Watchdog → Watchdog
reset w = record w { liveness_state = offline; last_heartbeat = 0 }

-- `start`: the reset comes before the test whether the timer runs.
unfoldable pub start : Watchdog → Watchdog
start w = record w { liveness_state = offline; last_heartbeat = 0; timer_running = true }

-- `stop`.
unfoldable pub stop : Watchdog → Watchdog
stop w = reset (record w { timer_running = false })

abbrev pub was_alarmed : Liveness → Bool
was_alarmed unresponsive = true
was_alarmed degraded = true
was_alarmed quarantine_required = true
was_alarmed l = false

-- `recordHeartbeat` at the clock `now`.
unfoldable pub record_heartbeat : ℕ → Watchdog → Watchdog × List Event
record_heartbeat now w = (
  record w { liveness_state = healthy; last_heartbeat = now },
  if was_alarmed w.liveness_state
      then liveness_recovered w.liveness_state ∷ heartbeat ∷ []
      else heartbeat ∷ [],
)

-- One tier of `checkLiveness`: what the state becomes, and what is emitted.
quarantine_tier : ℕ → Watchdog → Liveness → Watchdog × List Event
quarantine_tier elapsed w quarantine_required = (w, [])
quarantine_tier elapsed w l =
    (record w { liveness_state = quarantine_required }, quarantine_alert elapsed ∷ [])

degraded_tier : ℕ → Watchdog → Liveness → Watchdog × List Event
degraded_tier elapsed w degraded = (w, [])
degraded_tier elapsed w quarantine_required = (w, [])
degraded_tier elapsed w l = (record w { liveness_state = degraded }, liveness_degraded elapsed ∷ [])

warning_tier : ℕ → Watchdog → Liveness → Watchdog × List Event
warning_tier elapsed w healthy =
    (record w { liveness_state = unresponsive }, liveness_warning elapsed ∷ [])
warning_tier elapsed w l = (w, [])

-- `checkLiveness` at the clock `now`. A clock that went back gives a negative elapsed time, here
-- 0: below every positive timeout, as a negative one is.
unfoldable pub check_liveness : ℕ → Watchdog → Watchdog × List Event
unfolding quarantine_tier degraded_tier warning_tier
check_liveness now w =
    let elapsed = now - w.last_heartbeat in
    if w.last_heartbeat == 0
    then (w, [])
    else (if leb w.quarantine_timeout_ms elapsed
        then quarantine_tier elapsed w w.liveness_state
        else (if leb w.degraded_timeout_ms elapsed
            then degraded_tier elapsed w w.liveness_state
            else (if leb w.warning_timeout_ms elapsed
                then warning_tier elapsed w w.liveness_state
                else (w, []))))

-- `isHealthy` and `isDegraded`.
abbrev pub is_healthy : Watchdog → Bool
is_healthy w = elim w.liveness_state [ healthy ↦ true | _ ↦ false ]

abbrev pub is_degraded : Watchdog → Bool
is_degraded w = elim w.liveness_state [ degraded ↦ true | quarantine_required ↦ true | _ ↦ false ]
