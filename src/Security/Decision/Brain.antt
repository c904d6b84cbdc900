-- ===== src/Security/Decision/Brain.antt =====
-- src/security-authority/decision-engine.mjs: the start from the persisted row, and the dispatch
-- of an event. `machine_valid` is the answer of the native identity check; the clock readings of
-- a call are its arguments.
use betting_automation_contr.Prelude.{
  ℕ, ◌+◌, Bool, true, false, not, Option, none, some, if◌then◌else◌,
}
use betting_automation_contr.Security.State.{
  SecurityState, StateData, uninitialized, security_state_ready, authenticating, authenticated,
  operational, renewing, offline_grace, revoked, compromised, tamper_suspected,
}
use betting_automation_contr.Security.Machine.Table.{
  TransitionEvent, Payload, empty_payload, initialize, bootstrap_complete,
}
use betting_automation_contr.Security.Storage.Row.{
  Aead, Read, found, empty, Storage, get_security_state_row, commit_transition_with_occ,
}
use betting_automation_contr.Security.Engine.Transition.{
  Outcome, success, failure, throws, World, execute_transition,
}

-- How a call ends: it returns, with `true` or `false` for a dispatch, or it throws.
pub data Reply : Type 0 where
  accepted refused thrown : Reply

-- The row of a cold boot.
abbrev pub baseline : StateData
baseline = record {
  state = uninitialized;
  state_version = 0;
  session = none;
  authorization = none;
  license = none;
  grace_token = none;
  session_generation = 0;
  server_epoch = 0;
  highest_observed_time = 0;
}

-- The projection in memory, which drops the other columns of the row.
abbrev pub project : StateData → StateData
project d = record d {
  grace_token = none;
  session_generation = 0;
  server_epoch = 0;
  highest_observed_time = 0;
}

-- The states for which a start clears the revocation flag.
abbrev pub starts_clear : SecurityState → Bool
starts_clear operational = true
starts_clear authenticated = true
starts_clear authenticating = true
starts_clear renewing = true
starts_clear offline_grace = true
starts_clear security_state_ready = true
starts_clear s = false

abbrev pub lock_held : Payload
lock_held = record empty_payload { single_instance_lock_held = true }

abbrev pub verified : Bool → Payload
verified machine_valid = record empty_payload {
  integrity_verified = true;
  storage_verified = true;
  machine_identity_verified = machine_valid;
}

module _ (c : Aead) where
  -- `DecisionEngine`, and the world it acts on.
  pub record DecisionEngine : Type 0 where
    pub world : World c
    pub in_memory_state : Option StateData

  dispatched : DecisionEngine → World c × Outcome → DecisionEngine × Reply
  dispatched g (w, success d) = (record { world = w; in_memory_state = some d }, accepted)
  dispatched g (w, failure d e) = (record g { world = w }, refused)
  dispatched g (w, throws e) = (record g { world = w }, thrown)

  dispatch_from :
      ℕ → TransitionEvent → Payload → DecisionEngine → Option StateData → DecisionEngine × Reply
  unfolding dispatched
  dispatch_from now e p g none = (g, thrown)
  dispatch_from now e p g (some d) = dispatched g (execute_transition c now d e p g.world)

  -- `dispatch`.
  unfoldable pub dispatch : ℕ → TransitionEvent → Payload → DecisionEngine → DecisionEngine × Reply
  unfolding dispatch_from
  dispatch now e p g = dispatch_from now e p g g.in_memory_state

  abbrev pub set_revoked : Bool → DecisionEngine → DecisionEngine
  set_revoked b g = record g { world = record g.world { revoked_flag = b } }

  -- The end of `initialize`: the flag follows the state.
  abbrev pub settle : DecisionEngine × Reply → DecisionEngine × Reply
  settle (g, thrown) = (g, thrown)
  settle (g, r) = elim g.in_memory_state [
    | none ↦ (g, thrown)
    | some d ↦ (set_revoked (not (starts_clear d.state)) g, accepted)
  ]

  abbrev pub complete : ℕ → Bool → DecisionEngine × Reply → DecisionEngine × Reply
  complete now machine_valid (g, thrown) = (g, thrown)
  complete now machine_valid (g, r) = dispatch now bootstrap_complete (verified machine_valid) g

  -- A state on disk is never taken up again: it starts as ready, or as compromised on another
  -- machine. The version moves on whether or not that commit is accepted.
  unfoldable pub restart : ℕ → Bool → StateData → DecisionEngine → DecisionEngine × Reply
  restart now machine_valid d g =
      let lost : StateData = record d { state = compromised } in
      let s = (commit_transition_with_occ c now d.state_version lost g.world.storage).0 in
      if machine_valid
      then settle (
        record g { in_memory_state = some (record d { state = security_state_ready }) },
        accepted,
      )
      else (
        record {
          world = record { storage = s; revoked_flag = true };
          in_memory_state = some (record lost { state_version = d.state_version + 1 });
        },
        accepted,
      )

  -- `initialize` over the projection of the row, at the clocks of the two dispatches.
  unfoldable pub boot : ℕ → ℕ → Bool → StateData → DecisionEngine → DecisionEngine × Reply
  unfolding restart
  boot t u machine_valid d g =
      let held = record g { in_memory_state = some d } in
      elim d.state [
        | revoked ↦ (set_revoked true held, accepted)
        | compromised ↦ (set_revoked true held, accepted)
        | tamper_suspected ↦ (set_revoked true held, accepted)
        | uninitialized ↦ settle (complete u machine_valid (dispatch t initialize lock_held held))
        | _ ↦ restart t machine_valid d held
      ]

  boot_row : ℕ → ℕ → Bool → DecisionEngine → Storage c × Read → DecisionEngine × Reply
  unfolding boot
  boot_row t u machine_valid g (s, found d) =
      boot t u machine_valid (project d) (record g { world = record g.world { storage = s } })
  boot_row t u machine_valid g (s, r) =
      (record g { world = record g.world { storage = s } }, thrown)

  -- The first read, and the row of a cold boot if there is none.
  first_row : ℕ → Storage c × Read → Storage c × Read
  first_row now (s, empty) =
      get_security_state_row c (commit_transition_with_occ c now 0 baseline s).0
  first_row now r = r

  -- `initialize`.
  unfoldable pub start_engine : ℕ → ℕ → ℕ → Bool → DecisionEngine → DecisionEngine × Reply
  unfolding boot_row first_row
  start_engine now t u machine_valid g =
      boot_row t u machine_valid g (first_row now (get_security_state_row c g.world.storage))
