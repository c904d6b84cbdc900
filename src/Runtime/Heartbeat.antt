-- ===== src/Runtime/Heartbeat.antt =====
-- src/runtime-manager/heartbeat.mjs: when each worker process was heard last. The clock is an
-- argument; a difference of times stops at 0, where the source's is negative and stalls nothing.
use betting_automation_contr.Prelude.{
  ℕ, ◌-◌, Bool, false, not, ◌&&◌, ◌||◌, List, [], ◌∷◌, ◌≡◌, arith, ltb, ◌==◌, if◌then◌else◌,
}

-- `lastSeen`: process ids with times, in insertion order.
abbrev pub LastSeen : Type 0
LastSeen = List (ℕ × ℕ)

-- `recordHeartbeat`.
unfoldable pub record_beat : ℕ → ℕ → LastSeen → LastSeen
record_beat pid now [] = (pid, now) ∷ []
record_beat pid now ((p, t) ∷ rest) =
    let later = record_beat pid now rest in if p == pid then (p, now) ∷ rest else (p, t) ∷ later

-- `getStalledProcesses`.
unfoldable pub get_stalled_processes : ℕ → ℕ → LastSeen → List ℕ
get_stalled_processes now timeout [] = []
get_stalled_processes now timeout ((p, t) ∷ rest) =
    let later = get_stalled_processes now timeout rest in
    if ltb timeout (now - t) then p ∷ later else later

-- `remove`.
unfoldable pub remove_beats : ℕ → LastSeen → LastSeen
remove_beats pid [] = []
remove_beats pid ((p, t) ∷ rest) =
    let later = remove_beats pid rest in if p == pid then later else (p, t) ∷ later

-- Whether a process is tracked.
unfoldable pub is_watched : ℕ → LastSeen → Bool
is_watched pid [] = false
is_watched pid ((p, t) ∷ rest) = p == pid || is_watched pid rest

pub watched-record :
    (pid k now : ℕ) (l : LastSeen)
    → is_watched k (record_beat pid now l) ≡ (pid == k || is_watched k l)
unfolding is_watched record_beat
watched-record pid k now [] = ground arith
watched-record pid k now ((p, t) ∷ rest) = ground (arith, watched-record pid k now rest)

pub watched-remove :
    (pid k : ℕ) (l : LastSeen)
    → is_watched k (remove_beats pid l) ≡ (not (pid == k) && is_watched k l)
unfolding is_watched remove_beats
watched-remove pid k [] = ground arith
watched-remove pid k ((p, t) ∷ rest) = ground (arith, watched-remove pid k rest)
