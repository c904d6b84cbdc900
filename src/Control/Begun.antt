-- ===== src/Control/Begun.antt =====
-- `START_AUTOMATION` of src/command/registerCommands.mjs up to its wait for the cluster.
use betting_automation_contr.Prelude.{
  ℕ, false, not, ◌||◌, Option, none, some, List, [], ◌∷◌, String, ◌≡◌, ◌≢◌, sym, ◌∙◌, refl, arith,
  Bool-cases, Option-cases, inl, inr,
}
use betting_automation_contr.Prelude.Numbers.{is_empty}
use betting_automation_contr.Security.State.{StateData}
use betting_automation_contr.Security.Facade.Commands.{is_degraded_state, system_state}
use betting_automation_contr.Runtime.State.{Host, Runtimes}
use betting_automation_contr.Runtime.Spawning.{Spawn, spawned, refused, broken, spawn_runtime}
use betting_automation_contr.Runtime.Authority.{MaySpawn, spawn_runtime-MaySpawn}
use betting_automation_contr.Control.Lifecycle.{
  LifecycleRow, get_state, set_desired_state, set_observed_state,
}
use betting_automation_contr.Control.Automation.{
  Start, started, degraded, already_running, spawn_failed, Clock, Control, is_running, is_unsettled,
  set_lifecycle, stage_accounts, prepared, reset_aborted, settle_stopped, after_spawn,
  launch_automation, begin_start, cluster_failed,
}

module _ (Value : Type 0) where
  -- What the table and the workspace say.
  abbrev pub Says : String → String → String → Control Value → Type 0
  Says desired observed workspace c =
      (row : LifecycleRow) × (c.lifecycle ≡ some row)
      × (row.desired_state ≡ desired)
      × (row.observed_state ≡ observed)
      × (c.workspace ≡ workspace)

  pub settle_stopped-Says :
      (t : Clock) (reason : String) (c : Control Value)
      → Says "STOPPED" "STOPPED" "STOPPED" (settle_stopped Value t reason c)
  unfolding set_lifecycle set_desired_state set_observed_state
  settle_stopped-Says t reason c = elim (Option-cases c.lifecycle) [
    | inl e ↦ rw e (_, refl, refl, refl, refl)
    | inr (row, e) ↦ rw e (_, refl, refl, refl, refl)
  ]

  desired-row :
      (now desired reason : String) (l : Option LifecycleRow)
      → (row : LifecycleRow) × (set_desired_state now desired reason l ≡ some row)
        × (row.desired_state ≡ desired)
  unfolding set_desired_state
  desired-row now desired reason none = (_, refl, refl)
  desired-row now desired reason (some row) = (_, refl, refl)

  after_spawn-started :
      (t : Clock) (pid : ℕ) (c : Control Value) (s : Runtimes Value × Spawn) (row : LifecycleRow)
      → c.lifecycle ≡ some row
      → row.desired_state ≡ "RUNNING"
      → (after_spawn Value t c s).1 ≡ started pid
      → (s.1 ≡ spawned pid) × Says "RUNNING" "STARTING" "STARTING" (after_spawn Value t c s).0
  unfolding set_lifecycle set_observed_state
  after_spawn-started t pid c (r, spawned p) row f h e =
      (ground (arith, e), rw f (_, refl, h, refl, refl))
  after_spawn-started t pid c (r, refused) row f h e = absurd (ground (arith, e))
  after_spawn-started t pid c (r, broken) row f h e = absurd (ground (arith, e))

  after_spawn-failed :
      (t : Clock) (c : Control Value) (s : Runtimes Value × Spawn)
      → (after_spawn Value t c s).1 ≡ spawn_failed
      → Says "STOPPED" "STOPPED" "STOPPED" (after_spawn Value t c s).0
  after_spawn-failed t c (r, spawned p) e = absurd (ground (arith, e))
  after_spawn-failed t c (r, refused) e =
      settle_stopped-Says t "SPAWN_FAILED" (record c { runtime = r })
  after_spawn-failed t c (r, broken) e =
      settle_stopped-Says t "SPAWN_FAILED" (record c { runtime = r })

  stage_accounts-runtime :
      (ids available : List String) (c : Control Value)
      → (stage_accounts Value ids available c).runtime ≡ c.runtime
  unfolding stage_accounts
  stage_accounts-runtime [] available c = ground arith
  stage_accounts-runtime (id ∷ ids) available c = refl

  launched :
      (h : Host) (d : Option StateData) (t : Clock) (process : Option ℕ)
      (ids available : List String) (c : Control Value) (e : Start)
      → (begin_start Value h d t process ids available c).1 ≡ e
      → e ≢ degraded
      → e ≢ already_running
      → (is_running (get_state t.iso c.lifecycle).observed_state ≡ false)
        × (begin_start Value h d t process ids available c
            ≡ launch_automation Value h d t process ids available c)
  unfolding begin_start
  launched h d t process ids available c e same up idle =
      elim (Bool-cases (is_degraded_state (system_state d))) [
        | inl down ↦ absurd (up (sym same ∙ rw down refl))
        | inr fine ↦
            elim (Bool-cases (
              is_running (get_state t.iso c.lifecycle).observed_state
              || not (is_empty c.runtime.active_runtimes))) [
                | inl busy ↦ absurd (idle (sym same ∙ rw (fine, busy) refl))
                | inr free ↦ (ground (arith, free), rw (fine, free) refl)
              ]
      ]

  prepared-runtime :
      (t : Clock) (ids available : List String) (c : Control Value)
      → (prepared Value t ids available c).runtime ≡ c.runtime
  unfolding set_lifecycle
  prepared-runtime t ids available c =
      stage_accounts-runtime ids available (reset_aborted Value t c)
      ∙ elim (Bool-cases (is_unsettled (get_state t.iso c.lifecycle).observed_state)) [
        | inl e ↦ rw e refl
        | inr e ↦ rw e refl
      ]

  -- What a start that goes on to its wait has set up.
  unfoldable pub IsBegun :
      Host → Option StateData → Clock → Control Value → ℕ → Control Value × Start → Type 0
  IsBegun h d t c pid x =
      (x.1 ≡ started pid)
      × (is_running (get_state t.iso c.lifecycle).observed_state ≡ false)
      × (c.runtime.active_runtimes ≡ [])
      × MaySpawn d
      × Says "RUNNING" "STARTING" "STARTING" x.0

  pub begin_start-IsBegun :
      (h : Host) (d : Option StateData) (t : Clock) (process : Option ℕ)
      (ids available : List String) (c : Control Value) (pid : ℕ)
      → (begin_start Value h d t process ids available c).1 ≡ started pid
      → IsBegun h d t c pid (begin_start Value h d t process ids available c)
  unfolding launch_automation IsBegun
  begin_start-IsBegun h d t process ids available c pid e =
      let (idle, same) =
        launched h d t process ids available c (started pid) e (λ q. absurd (ground (arith, q)))
          (λ q. absurd (ground (arith, q))) in
      let ready = prepared Value t ids available c in
      let attempt = spawn_runtime Value h d t.millis process ready.runtime in
      let (row, at_row, wanted) =
        desired-row t.iso "RUNNING" "USER_COMMAND_START"
          (stage_accounts Value ids available (reset_aborted Value t c)).lifecycle in
      let (came, says) = after_spawn-started t pid ready attempt row at_row wanted (rw same at e) in
      let (may, none_active, given) =
        spawn_runtime-MaySpawn Value h d t.millis process ready.runtime pid came in
      (e, idle, rw (← prepared-runtime t ids available c) none_active, may, rw same says)

  pub begin_start-failed :
      (h : Host) (d : Option StateData) (t : Clock) (process : Option ℕ)
      (ids available : List String) (c : Control Value)
      → (begin_start Value h d t process ids available c).1 ≡ spawn_failed
      → Says "STOPPED" "STOPPED" "STOPPED" (begin_start Value h d t process ids available c).0
  unfolding launch_automation
  begin_start-failed h d t process ids available c e =
      let (idle, same) =
        launched h d t process ids available c spawn_failed e (λ q. absurd (ground (arith, q)))
          (λ q. absurd (ground (arith, q))) in
      let ready = prepared Value t ids available c in
      rw same (
        after_spawn-failed t ready (spawn_runtime Value h d t.millis process ready.runtime)
          (rw same at e))

  after_spawn-begun :
      (t : Clock) (c : Control Value) (s : Runtimes Value × Spawn)
      → (after_spawn Value t c s).1 ≢ cluster_failed
  after_spawn-begun t c (r, spawned p) e = absurd (ground (arith, e))
  after_spawn-begun t c (r, refused) e = absurd (ground (arith, e))
  after_spawn-begun t c (r, broken) e = absurd (ground (arith, e))

  pub begin_start-begun :
      (h : Host) (d : Option StateData) (t : Clock) (process : Option ℕ)
      (ids available : List String) (c : Control Value)
      → (begin_start Value h d t process ids available c).1 ≢ cluster_failed
  unfolding launch_automation
  begin_start-begun h d t process ids available c e =
      let (idle, same) =
        launched h d t process ids available c cluster_failed e (λ q. absurd (ground (arith, q)))
          (λ q. absurd (ground (arith, q))) in
      let ready = prepared Value t ids available c in
      after_spawn-begun t ready (spawn_runtime Value h d t.millis process ready.runtime)
        (rw same at e)
