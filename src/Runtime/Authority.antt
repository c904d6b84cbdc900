-- ===== src/Runtime/Authority.antt =====
-- Who may start a worker: `spawnRuntime` of src/runtime-manager/runtime-manager.mjs over the
-- security state.
use betting_automation_contr.Prelude.{
  ℕ, Bool, true, not, Option, none, some, [], ◌≡◌, arith, Bool-cases, inl, inr,
}
use betting_automation_contr.Prelude.Numbers.{is_empty}
use betting_automation_contr.Security.State.{StateData}
use betting_automation_contr.Security.Engine.Transition.{capability_set}
use betting_automation_contr.Security.Decision.Capabilities.{
  get_current_capabilities-grants, get_current_capabilities, may_operate, is_valid, has_cap,
}
use betting_automation_contr.Security.Facade.Commands.{authorize, alias_of}
use betting_automation_contr.Runtime.State.{
  Host, Runtimes, Completion, returned, thrown, ensure_server_started,
}
use betting_automation_contr.Runtime.Spawning.{spawned, may_spawn, start_process, spawn_runtime}
use betting_automation_contr.Runtime.Watched.{idle-may_spawn}

-- The authority to start the automation: a state that may operate, under a valid authorization
-- that lists the capability.
abbrev pub MaySpawn : Option StateData → Type 0
MaySpawn none = ⊥
MaySpawn (some d) =
    (may_operate d.state ≡ true)
    × (is_valid d.authorization ≡ true)
    × (has_cap "CAP_AUTOMATION_START" (capability_set d.authorization) ≡ true)

may_spawn-MaySpawn :
    (executing : Bool) (d : Option StateData) → may_spawn executing d ≡ true → MaySpawn d
unfolding may_spawn authorize alias_of get_current_capabilities
may_spawn-MaySpawn executing none e = absurd (ground (arith, e))
may_spawn-MaySpawn executing (some d) e =
    ground (arith, get_current_capabilities-grants "CAP_AUTOMATION_START" executing d, e)

module _ (Value : Type 0) where
  start_process-spawned :
      (h : Host) (now : ℕ) (process : Option ℕ) (c : Runtimes Value × Completion) (pid : ℕ)
      → (start_process Value h now process c).1 ≡ spawned pid
      → process ≡ some pid
  start_process-spawned h now process (r, thrown) pid e = absurd (ground (arith, e))
  start_process-spawned h now none (r, returned) pid e = absurd (ground (arith, e))
  start_process-spawned h now (some p) (r, returned) pid e = ground (arith, e)

  -- A worker is started only when no worker is active and the security authority is in a state
  -- that may operate, under a valid authorization that lists the start of the automation; its id
  -- is the one that the native core gives.
  pub spawn_runtime-MaySpawn :
      (h : Host) (d : Option StateData) (now : ℕ) (process : Option ℕ) (r : Runtimes Value)
      (pid : ℕ)
      → (spawn_runtime Value h d now process r).1 ≡ spawned pid
      → MaySpawn d × (r.active_runtimes ≡ []) × (process ≡ some pid)
  unfolding spawn_runtime
  spawn_runtime-MaySpawn h d now process r pid e =
      let ready = ensure_server_started Value h r in
      elim (Bool-cases (may_spawn (not (is_empty r.active_runtimes)) d)) [
        | inl may ↦ (
          may_spawn-MaySpawn (not (is_empty r.active_runtimes)) d may,
          idle-may_spawn r.active_runtimes d may,
          start_process-spawned h now process ready pid (ground (arith, may, e)),
        )
        | inr not_now ↦ absurd (ground (arith, not_now, e))
      ]
