-- ===== src/Shared/Tests.antt =====
-- The theorems on the mutex, where one caller holds it and another waits.
use betting_automation_contr.Prelude.{◌+◌, ◌≡◌, length, if◌then◌else◌}
use betting_automation_contr.Shared.Mutex.{
  Mutex, unlocked, acquire, asks, Reachable, starts, steps, holders_exclusive,
}

abbrev held : Mutex
held = acquire 1 unlocked

abbrev contended : Mutex
contended = acquire 2 held

contended-Reachable : Reachable contended
contended-Reachable =
    steps held contended (steps unlocked held starts (asks 1 unlocked)) (asks 2 held)

holders_exclusive_example :
    length contended.holders + length contended.scheduled ≡ (if contended.locked then 1 else 0)
holders_exclusive_example = holders_exclusive contended contended-Reachable
