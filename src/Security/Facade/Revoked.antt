-- ===== src/Security/Facade/Revoked.antt =====
-- What `revokeLicense` of src/security-authority/facade.mjs leaves in memory, on disk and in the
-- native core.
use betting_automation_contr.Prelude.{
  ℕ, Bool, true, Bool-cases, Option-cases, none, some, String, ◌≡◌, ◌≢◌, inl, inr, refl, any, arith,
  str_eq, ◌==◌,
}
use betting_automation_contr.Security.State.{SecurityState, StateData, revoked}
use betting_automation_contr.Security.Machine.Table.{TransitionEvent, Payload, backend_revocation}
use betting_automation_contr.Security.Machine.Graph.{fire, fire-backend_revocation}
use betting_automation_contr.Security.Storage.Row.{Aead, get_security_state_row}
use betting_automation_contr.Security.Storage.Laws.{
  Stored, committed, commit-Stored, commit_succeeds,
}
use betting_automation_contr.Security.Engine.Transition.{
  EngineError, World, invariants_hold, next_data, execute_transition, throws,
}
use betting_automation_contr.Security.Engine.Steps.{
  advanced, execute_succeeds, execute_breaks, execute_stale, success-fire, failure_unchanged,
}
use betting_automation_contr.Security.Decision.Brain.{
  accepted, DecisionEngine, dispatch, set_revoked, start_engine,
}
use betting_automation_contr.Security.Decision.Dispatches.{Outcome-cases, dispatch-fire}
use betting_automation_contr.Security.Decision.Starts.{start_engine_locked}
use betting_automation_contr.Security.Facade.Lockdown.{
  revocation_payload, revoked_data, is_revoked, lock_down, revoke_license,
}
use betting_automation_contr.Security.Facade.Commands.{is_command_permitted, containment_commands}

is_revoked-eq : (s : SecurityState) → is_revoked s ≡ true → s ≡ revoked
is_revoked-eq s h = ground arith

module _ (c : Aead) where
  execute_no_fire :
      (now : ℕ) (current d : StateData) (e : TransitionEvent) (p : Payload) (w : World c)
      → Stored c w.storage d
      → current.state_version ≡ d.state_version
      → fire current.state e p ≡ none
      → Stored c (execute_transition c now current e p w).0.storage d
  unfolding execute_transition fire get_security_state_row
  execute_no_fire now current d e p w h v f = record {
    readable = ground (arith, h.readable);
    versioned = ground (arith, h.readable, h.versioned);
    anchored = ground (arith, h.readable, h.anchored);
  }

  -- A transition of any outcome leaves a healthy storage healthy.
  execute-Stored :
      (now : ℕ) (current d : StateData) (e : TransitionEvent) (p : Payload) (w : World c)
      → Stored c w.storage d
      → (n : StateData) × Stored c (execute_transition c now current e p w).0.storage n
  execute-Stored now current d e p w h =
      elim (Bool-cases (current.state_version == d.state_version)) [
        | inr stale ↦ (d, rw (execute_stale c now current d e p w h (ground arith)) h)
        | inl known ↦ elim (Option-cases (fire current.state e p)) [
          | inl nothing ↦ (d, execute_no_fire now current d e p w h (ground arith) nothing)
          | inr (n, fired) ↦ elim (Bool-cases (invariants_hold (advanced c current n p))) [
            | inl ok ↦
                let (u, done, _, stored) =
                  execute_succeeds c now current d e p n w h (ground arith) fired ok in
                (committed c now current.state_version (next_data current n p), rw done stored)
            | inr broken ↦
                let (u, done, _, stored) =
                  execute_breaks c now current d e p n w h (ground arith) fired broken in
                (committed c now current.state_version (next_data current n p), rw done stored)
          ]
        ]
      ]

  world-dispatch :
      (now : ℕ) (e : TransitionEvent) (p : Payload) (g : DecisionEngine c) (m : StateData)
      → g.in_memory_state ≡ some m
      → (dispatch c now e p g).0.world ≡ (execute_transition c now m e p g.world).0
  unfolding dispatch
  world-dispatch now e p g m held =
      elim (Outcome-cases c (execute_transition c now m e p g.world)) [
        | inl (u, n, done) ↦ ground (arith, done, held)
        | inr (inl (u, n, err, failed)) ↦ ground (arith, failed, held)
        | inr (inr (u, err, threw)) ↦ ground (arith, threw, held)
      ]

  -- A dispatch from a state in memory keeps a healthy storage healthy.
  dispatch-Stored :
      (now : ℕ) (e : TransitionEvent) (p : Payload) (g : DecisionEngine c) (m d : StateData)
      → g.in_memory_state ≡ some m
      → Stored c g.world.storage d
      → (n : StateData) × Stored c (dispatch c now e p g).0.world.storage n
  dispatch-Stored now e p g m d held h =
      let (n, stored) = execute-Stored now m d e p g.world h in
      (n, rw (world-dispatch now e p g m held) stored)

  throws_flag :
      (now : ℕ) (current : StateData) (e : TransitionEvent) (p : Payload) (w u : World c)
      (err : EngineError)
      → execute_transition c now current e p w ≡ (u, throws err)
      → u.revoked_flag ≡ w.revoked_flag
  unfolding execute_transition
  throws_flag now current e p w u err h = ground arith

  execute-flag :
      (now : ℕ) (m : StateData) (w : World c)
      → w.revoked_flag ≡ true
      → (execute_transition c now m backend_revocation revocation_payload w).0.revoked_flag ≡ true
  execute-flag now m w h =
      elim (Outcome-cases c (execute_transition c now m backend_revocation revocation_payload w)) [
        | inl (u, n, done) ↦
            let (fired, _, _, flag) = success-fire c now m n backend_revocation _ w u done in
            let into = fire-backend_revocation m.state n.state revocation_payload fired in
            rw done (ground (arith, flag, into))
        | inr (inl (u, n, err, failed)) ↦
            let (_, _, flag) = failure_unchanged c now m n backend_revocation _ w u err failed in
            rw (failed, flag) h
        | inr (inr (u, err, threw)) ↦
            rw (threw, throws_flag now m backend_revocation _ w u err threw) h
      ]

  lock_down-Stored :
      (now : ℕ) (m d : StateData) (h : DecisionEngine c)
      → Stored c h.world.storage d
      → (r : StateData) × Stored c (lock_down c now h (some m)).world.storage r
        × (r.state ≡ revoked)
  lock_down-Stored now m d h stored = elim (Bool-cases (is_revoked d.state)) [
    | inl already ↦ (d, ground (arith, stored.readable), is_revoked-eq d.state already)
    | inr other ↦
        let (t, done) =
          commit_succeeds c now d.state_version (revoked_data m) d h.world.storage stored refl in
        (
          committed c now d.state_version (revoked_data m),
          rw (stored.readable, other, done)
              (commit-Stored c now d.state_version (revoked_data m) h.world.storage t
                stored.anchored done),
          refl,
        )
  ]

  lock_down-flag :
      (now : ℕ) (m : StateData) (h : DecisionEngine c)
      → (lock_down c now h (some m)).world.revoked_flag ≡ h.world.revoked_flag
  lock_down-flag now m h = ground arith

  lock_down-memory :
      (now : ℕ) (m : StateData) (h : DecisionEngine c)
      → (lock_down c now h (some m)).in_memory_state ≡ some (revoked_data m)
  lock_down-memory now m h = ground arith

  -- A revocation, in whatever state the engine is and whatever becomes of its dispatch, sets the
  -- revocation flag, leaves `revoked` in memory, and leaves a healthy storage healthy and
  -- holding `revoked`. The engine has started and its storage is healthy.
  pub revoke_license_revokes :
      (now : ℕ) (g : DecisionEngine c) (m d : StateData)
      → g.in_memory_state ≡ some m
      → Stored c g.world.storage d
      → let h = revoke_license c now g in
        (h.world.revoked_flag ≡ true)
        × ((n : StateData) × (h.in_memory_state ≡ some n) × (n.state ≡ revoked))
        × ((r : StateData) × Stored c h.world.storage r × (r.state ≡ revoked))
  unfolding revoke_license
  revoke_license_revokes now g m d held stored =
      let g1 = set_revoked c true g in
      let h = (dispatch c now backend_revocation revocation_payload g1).0 in
      let (n, after, _) = dispatch-fire c now backend_revocation revocation_payload g1 m held in
      let (e, healthy) =
        dispatch-Stored now backend_revocation revocation_payload g1 m d held stored in
      rw after (
        rw
            (
              lock_down-flag now n h,
              world-dispatch now backend_revocation revocation_payload g1 m held,
            )
            (execute-flag now m g1.world refl),
        (revoked_data n, lock_down-memory now n h, refl),
        lock_down-Stored now n e h healthy,
      )

  -- A revocation outlasts a restart: a new process over the storage that it left starts with the
  -- revocation flag set, has no event accepted, and permits only the containment commands. The
  -- revoked engine had started over a healthy storage.
  pub revoke_license_lasts :
      (now t u v later : ℕ) (valid : Bool) (g k : DecisionEngine c) (m d : StateData)
      (e : TransitionEvent) (p : Payload) (x : String)
      → g.in_memory_state ≡ some m
      → Stored c g.world.storage d
      → k.world.storage ≡ (revoke_license c now g).world.storage
      → let h = start_engine c t u v valid k in
        (h.1 ≡ accepted)
        × (h.0.world.revoked_flag ≡ true)
        × ((dispatch c later e p h.0).1 ≢ accepted)
        × (is_command_permitted h.0.world.revoked_flag h.0.in_memory_state x
            ≡ any (str_eq x) containment_commands)
  unfolding is_command_permitted
  revoke_license_lasts now t u v later valid g k m d e p x held stored same =
      let (_, _, (r, healthy, is_locked)) = revoke_license_revokes now g m d held stored in
      let (starts, flag, _, no_event) =
        start_engine_locked c t u v later valid r (revoke_license c now g).world.storage k e p
          (rw same healthy.readable) (inl is_locked) in
      (starts, flag, no_event, ground (arith, flag))
