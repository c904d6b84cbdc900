-- ===== src/Boundary/Watchdog/Tests.antt =====
-- A monitor with the default timeouts, and the theorems at its alarms.
use betting_automation_contr.Prelude.{max, ◌-◌, true, [], ◌∷◌, ◌≡◌, arith, refl}
use betting_automation_contr.Boundary.Watchdog.Monitor.{
  Watchdog, healthy, degraded, liveness_warning, liveness_degraded, quarantine_alert,
  check_liveness,
}
use betting_automation_contr.Boundary.Watchdog.Tiers.{severity, tier, checks, check-severity}

abbrev beating : Watchdog
beating = record {
  warning_timeout_ms = 6000;
  degraded_timeout_ms = 12000;
  quarantine_timeout_ms = 25000;
  liveness_state = healthy;
  last_heartbeat = 1000;
  timer_running = true;
}

silence :
    (checks (7500 ∷ 8000 ∷ 14000 ∷ 30000 ∷ 40000 ∷ []) beating).1
    ≡ liveness_warning 6500 ∷ liveness_degraded 13000 ∷ quarantine_alert 29000 ∷ []
unfolding checks check_liveness
silence = refl

check-severity_example :
    severity (check_liveness 14000 beating).0.liveness_state
    ≡ max (severity healthy) (tier beating (14000 - 1000))
check-severity_example = check-severity 14000 beating (λ e. omega arith) (λ e. cc)

abbrev alarmed : Watchdog
alarmed = record beating { liveness_state = degraded }
