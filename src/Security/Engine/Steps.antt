-- ===== src/Security/Engine/Steps.antt =====
-- What one transition of state-machine/engine.mjs does, on every branch.
use betting_automation_contr.Prelude.{
  ℕ, ◌+◌, true, false, not, none, some, List, ◌∷◌, String, ◌≡◌, ◌≢◌, refl, arith, if◌then◌else◌,
}
use betting_automation_contr.Security.State.{SecurityState, StateData, operational, revoked}
use betting_automation_contr.Security.Machine.Table.{
  TransitionEvent, Payload, get_transition, backend_revocation,
}
use betting_automation_contr.Security.Machine.Graph.{fire}
use betting_automation_contr.Security.Storage.Row.{
  Aead, Storage, commit_transition_with_occ, write_event,
}
use betting_automation_contr.Security.Storage.Laws.{
  Stored, committed, commit-Stored, write_event-Stored, commit_succeeds, commit_refused,
  row-get_security_state_row,
}
use betting_automation_contr.Security.Engine.Transition.{
  EngineError, occ_conflict, invariant_violation, success, failure, throws, World, state_transition,
  is_non_revoked, next_data, invariants_hold, execute_transition, capability_set,
}

module _ (c : Aead) where
  -- An event from a state that another writer has replaced is refused, and changes nothing.
  pub execute_stale :
      (now : ℕ) (current d : StateData) (e : TransitionEvent) (p : Payload) (w : World c)
      → Stored c w.storage d
      → current.state_version ≢ d.state_version
      → execute_transition c now current e p w ≡ (w, failure current occ_conflict)
  unfolding execute_transition
  execute_stale now current d e p w h ne = ground (arith, h.readable)

  -- The state that an accepted event commits.
  abbrev pub advanced : StateData → SecurityState → Payload → StateData
  advanced current n p = record (next_data current n p) {
    state_version = current.state_version + 1;
  }

  execute_fired :
      (now : ℕ) (current d : StateData) (e : TransitionEvent) (p : Payload) (n : SecurityState)
      (w : World c) (t : Storage c)
      → Stored c w.storage d
      → current.state_version ≡ d.state_version
      → fire current.state e p ≡ some n
      → commit_transition_with_occ c now current.state_version (next_data current n p) w.storage
        ≡ (t, true)
      → execute_transition c now current e p w ≡ (
          if invariants_hold (advanced current n p)
          then (
            record {
              storage = write_event c state_transition t;
              revoked_flag = not (is_non_revoked n);
            },
            success (advanced current n p),
          )
          else (
            record w { storage = write_event c state_transition t },
            throws invariant_violation,
          ))
  unfolding execute_transition fire
  execute_fired now current d e p n w t h v f k = ground (arith, h.readable)

  -- Over a healthy storage whose version the caller knows, an event that the table accepts and
  -- whose next state keeps the invariants succeeds: it returns the advanced state, sets the
  -- revocation flag by the new state, and the storage then holds that state.
  pub execute_succeeds :
      (now : ℕ) (current d : StateData) (e : TransitionEvent) (p : Payload) (n : SecurityState)
      (w : World c)
      → Stored c w.storage d
      → current.state_version ≡ d.state_version
      → fire current.state e p ≡ some n
      → invariants_hold (advanced current n p) ≡ true
      → (u : World c) × (execute_transition c now current e p w
          ≡ (u, success (advanced current n p)))
        × (u.revoked_flag ≡ not (is_non_revoked n))
        × Stored c u.storage (committed c now current.state_version (next_data current n p))
  execute_succeeds now current d e p n w h v f ok =
      let (t, done) =
        commit_succeeds c now current.state_version (next_data current n p) d w.storage h v in
      let stored = commit-Stored c now current.state_version _ w.storage t h.anchored done in
      (
        record {
          storage = write_event c state_transition t;
          revoked_flag = not (is_non_revoked n);
        },
        rw (execute_fired now current d e p n w t h v f done, ok) refl,
        refl,
        write_event-Stored c state_transition t _ stored,
      )

  -- A call that reports success took an accepted row of the table from the given state, moved the
  -- version on by one, kept the invariants, and set the revocation flag by the new state.
  pub success-fire :
      (now : ℕ) (current d : StateData) (e : TransitionEvent) (p : Payload) (w u : World c)
      → execute_transition c now current e p w ≡ (u, success d)
      → (fire current.state e p ≡ some d.state)
        × (d.state_version ≡ current.state_version + 1)
        × (invariants_hold d ≡ true)
        × (u.revoked_flag ≡ not (is_non_revoked d.state))
  unfolding execute_transition fire
  success-fire now current d e p w u h = ground arith

  -- A call that reports a failure returns the given state, and leaves the stored row and the
  -- revocation flag as they were.
  pub failure_unchanged :
      (now : ℕ) (current d : StateData) (e : TransitionEvent) (p : Payload) (w u : World c)
      (err : EngineError)
      → execute_transition c now current e p w ≡ (u, failure d err)
      → (d ≡ current) × (u.storage.row ≡ w.storage.row) × (u.revoked_flag ≡ w.revoked_flag)
  unfolding execute_transition
  failure_unchanged now current d e p w u err h =
      grind (arith, row-get_security_state_row, commit_refused)

  pub execute_breaks :
      (now : ℕ) (current d : StateData) (e : TransitionEvent) (p : Payload) (n : SecurityState)
      (w : World c)
      → Stored c w.storage d
      → current.state_version ≡ d.state_version
      → fire current.state e p ≡ some n
      → invariants_hold (advanced current n p) ≡ false
      → (u : World c) × (execute_transition c now current e p w ≡ (u, throws invariant_violation))
        × (u.revoked_flag ≡ w.revoked_flag)
        × Stored c u.storage (committed c now current.state_version (next_data current n p))
  execute_breaks now current d e p n w h v f broken =
      let (t, done) =
        commit_succeeds c now current.state_version (next_data current n p) d w.storage h v in
      let stored = commit-Stored c now current.state_version _ w.storage t h.anchored done in
      (
        record w { storage = write_event c state_transition t },
        rw (execute_fired now current d e p n w t h v f done, broken) refl,
        refl,
        write_event-Stored c state_transition t _ stored,
      )

  revoke-fire :
      (p : Payload) → p.nonce_checked ≡ true → fire operational backend_revocation p ≡ some revoked
  unfolding fire get_transition
  revoke-fire p h = ground arith

  revoke_breaks :
      (current : StateData) (p : Payload) (x : String) (xs : List String)
      → p.authorization_data ≡ none
      → capability_set current.authorization ≡ x ∷ xs
      → invariants_hold (advanced current revoked p) ≡ false
  unfolding invariants_hold next_data
  revoke_breaks current p x xs a caps = ground arith

  -- Revoking an operational state that still lists a capability commits `revoked` to the storage
  -- and then throws, with the flag unchanged. The caller keeps its state, and every
  -- later event from that state is an OCC conflict.
  pub revocation_throws :
      (now later : ℕ) (current d : StateData) (p q : Payload) (e : TransitionEvent) (x : String)
      (xs : List String) (w : World c)
      → Stored c w.storage d
      → current.state_version ≡ d.state_version
      → current.state ≡ operational
      → p.nonce_checked ≡ true
      → p.authorization_data ≡ none
      → capability_set current.authorization ≡ x ∷ xs
      → (u : World c) × (execute_transition c now current backend_revocation p w
          ≡ (u, throws invariant_violation))
        × (u.revoked_flag ≡ w.revoked_flag)
        × Stored c u.storage (committed c now current.state_version (next_data current revoked p))
        × (execute_transition c later current e q u ≡ (u, failure current occ_conflict))
  revocation_throws now later current d p q e x xs w h v op nonce none_given caps =
      let (u, thrown, flag, stored) =
        execute_breaks now current d backend_revocation p revoked w h v
          (rw op (revoke-fire p nonce)) (revoke_breaks current p x xs none_given caps) in
      (u, thrown, flag, stored, execute_stale later current _ e q u stored (omega arith))
