-- ===== src/Security/Decision/First.antt =====
-- The first start of decision-engine.mjs, over an empty database.
use betting_automation_contr.Prelude.{ℕ, true, false, none, some, ◌≡◌, ◌∙◌, refl, arith}
use betting_automation_contr.Security.State.{
  SecurityState, StateData, uninitialized, initializing, security_state_ready,
}
use betting_automation_contr.Security.Machine.Table.{
  TransitionEvent, Payload, get_transition, initialize, bootstrap_complete,
}
use betting_automation_contr.Security.Machine.Graph.{fire}
use betting_automation_contr.Security.Storage.Row.{
  Aead, empty, Storage, get_security_state_row, commit_transition_with_occ,
}
use betting_automation_contr.Security.Storage.Laws.{Stored, committed, commit-Stored, IsAnchored}
use betting_automation_contr.Security.Engine.Transition.{next_data, invariants_hold}
use betting_automation_contr.Security.Engine.Steps.{advanced, execute_succeeds}
use betting_automation_contr.Security.Decision.Brain.{
  accepted, baseline, lock_held, verified, DecisionEngine, dispatch, set_revoked, boot,
  start_engine,
}
use betting_automation_contr.Security.Decision.Starts.{start_empty, over}

module _ (c : Aead) where
  -- A dispatch that the table accepts over a storage in step with the state in memory.
  pub dispatch_succeeds :
      (now : ℕ) (e : TransitionEvent) (p : Payload) (current d : StateData) (n : SecurityState)
      (g : DecisionEngine c)
      → Stored c g.world.storage d
      → g.in_memory_state ≡ some current
      → current.state_version ≡ d.state_version
      → fire current.state e p ≡ some n
      → invariants_hold (advanced c current n p) ≡ true
      → (h : DecisionEngine c) × (dispatch c now e p g ≡ (h, accepted))
        × (h.in_memory_state ≡ some (advanced c current n p))
        × Stored c h.world.storage (committed c now current.state_version (next_data current n p))
  unfolding dispatch
  dispatch_succeeds now e p current d n g h held v f ok =
      let (w, done, _, stored) = execute_succeeds c now current d e p n g.world h v f ok in
      (
        record { world = w; in_memory_state = some (advanced c current n p) },
        ground (arith, held, done),
        refl,
        stored,
      )

  first_commit :
      (now : ℕ) (s : Storage c)
      → s.row ≡ none
      → commit_transition_with_occ c now 0 baseline s
        ≡ ((commit_transition_with_occ c now 0 baseline s).0, true)
  unfolding commit_transition_with_occ
  first_commit now s h = ground arith

  first_read : (s : Storage c) → s.row ≡ none → get_security_state_row c s ≡ (s, empty)
  unfolding get_security_state_row
  first_read s h = ground arith

  boot_ready :
      (t u : ℕ) (d n : StateData) (g g1 g2 : DecisionEngine c)
      → d.state ≡ uninitialized
      → dispatch c t initialize lock_held (record g { in_memory_state = some d }) ≡ (g1, accepted)
      → dispatch c u bootstrap_complete (verified true) g1 ≡ (g2, accepted)
      → g2.in_memory_state ≡ some n
      → n.state ≡ security_state_ready
      → boot c t u true d g ≡ (set_revoked c false g2, accepted)
  unfolding boot
  boot_ready t u d n g g1 g2 fresh run1 run2 held ready =
      ground (arith, fresh, run1, run2, held, ready)

  -- A first start on the machine that the installation belongs to ends in the ready state with
  -- the revocation flag clear, and the storage holds that state under version 3, with the last
  -- clock. The database is empty, in memory without a path anchor or on disk.
  pub start_engine_first :
      (now t u : ℕ) (g : DecisionEngine c)
      → g.world.storage.row ≡ none
      → IsAnchored c g.world.storage
      → (h : DecisionEngine c) × (start_engine c now t u true g ≡ (h, accepted))
        × (h.in_memory_state
            ≡ some (record baseline { state = security_state_ready; state_version = 3 }))
        × (h.world.revoked_flag ≡ false)
        × Stored c h.world.storage (record baseline {
          state = security_state_ready;
          state_version = 3;
          highest_observed_time = u;
        })
  unfolding start_engine boot fire get_transition invariants_hold next_data
  start_engine_first now t u g fresh anchored =
      let s = (commit_transition_with_occ c now 0 baseline g.world.storage).0 in
      let done = first_commit now g.world.storage fresh in
      let stored = commit-Stored c now 0 baseline g.world.storage s anchored done in
      let d0 : StateData = record baseline { state_version = 1 } in
      let g0 : DecisionEngine c = record {
        world = record g.world { storage = s };
        in_memory_state = some d0;
      } in
      let (g1, run1, held1, stored1) =
        dispatch_succeeds t initialize lock_held d0 _ initializing g0 stored refl refl refl refl in
      let (g2, run2, held2, stored2) =
        dispatch_succeeds u bootstrap_complete (verified true) _ _ security_state_ready g1 stored1
          held1 refl refl refl in
      (
        set_revoked c false g2,
        start_empty c now t u true g g.world.storage s (committed c now 0 baseline)
              (first_read g.world.storage fresh) stored.readable
            ∙ boot_ready t u d0 _ (over c s g) g1 g2 refl run1 run2 held2 refl,
        held2,
        refl,
        stored2,
      )
