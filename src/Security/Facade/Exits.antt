-- ===== src/Security/Facade/Exits.antt =====
-- src/security-authority/facade.mjs: `logout`, `transitionToUnauthenticated`, `enterOfflineGrace`
-- and `transitionToDegraded`. A dispatch that throws ends a call, with its error.
use betting_automation_contr.Prelude.{
  ℕ, ◌+◌, Bool, true, false, Option, none, some, String, str_eq, if◌then◌else◌,
}
use betting_automation_contr.Security.State.{
  SecurityState, StateData, unauthenticated, security_state_ready, auth_failed, logged_out,
  operational, offline_grace,
}
use betting_automation_contr.Security.Machine.Table.{
  Payload, empty_payload, logout_intent, logout_sequence_complete, enter_offline_grace,
  renew_threshold_reached, renew_backend_unreachable, offline_grace_exhausted,
}
use betting_automation_contr.Security.Storage.Row.{
  Aead, Read, found, Storage, get_security_state_row, commit_transition_with_occ,
}
use betting_automation_contr.Security.Decision.Brain.{
  Reply, accepted, refused, thrown, DecisionEngine, dispatch, set_revoked,
}
use betting_automation_contr.Security.Decision.Starts.{over}
use betting_automation_contr.Security.Facade.Sessions.{Surroundings, get_system_state}
use betting_automation_contr.Security.Facade.Lockdown.{ensure_started}

-- How a call ends that returns a Boolean or nothing.
pub data Ended : Type 0 where
  returned : Bool → Ended
  raised : Ended

abbrev pub logged_out_data : StateData → StateData
logged_out_data d = record d {
  state = logged_out;
  session = none;
  authorization = none;
  license = none;
}

-- The memory after a logout keeps the state that the dispatches left.
abbrev pub signed_off : StateData → StateData
signed_off d = record d { session = none; authorization = none; license = none }

abbrev pub unauthenticated_data : StateData → StateData
unauthenticated_data d = record d { state = unauthenticated; session = none; authorization = none }

abbrev pub may_unauthenticate : SecurityState → Bool
may_unauthenticate security_state_ready = true
may_unauthenticate auth_failed = true
may_unauthenticate logged_out = true
may_unauthenticate s = false

abbrev pub is_unauthenticated : SecurityState → Bool
is_unauthenticated unauthenticated = true
is_unauthenticated s = false

-- The payloads.
abbrev pub steps_completed : Payload
steps_completed = record empty_payload { all_steps_completed = true }

abbrev pub within_grace : Payload
within_grace = record empty_payload { is_within_grace = true }

abbrev pub renewal_due : ℕ → Payload
renewal_due now = record empty_payload { now = some (now + 10_000); renew_after = some 0 }

abbrev pub grace_spent : Payload
grace_spent = record empty_payload {
  accumulated_ms = some 7_200_001;
  offline_grace_max = some 7_200_000;
}

module _ (c : Aead) where
  -- An awaited dispatch whose answer is not read.
  abbrev pub ignoring :
      DecisionEngine c × Reply
      → (DecisionEngine c → DecisionEngine c × Ended)
      → DecisionEngine c × Ended
  ignoring (g, thrown) k = (g, raised)
  ignoring (g, r) k = k g

  -- The version in memory follows a commit that was accepted.
  abbrev pub follow : StateData → ℕ → DecisionEngine c → Storage c × Bool → DecisionEngine c
  follow d v g (s, true) = record (over c s g) {
    in_memory_state = some (record d { state_version = v + 1 });
  }
  follow d v g (s, false) = over c s g

  -- The commit of a logout, over the row that is read; a storage error is swallowed.
  abbrev pub store_logged_out :
      ℕ → StateData → DecisionEngine c → Storage c × Read → DecisionEngine c
  store_logged_out now m g (s, found d) =
      follow m d.state_version g
        (commit_transition_with_occ c now d.state_version (logged_out_data m) s)
  store_logged_out now m g (s, r) = over c s g

  abbrev pub sign_off : ℕ → DecisionEngine c → Option StateData → DecisionEngine c
  sign_off now g none = g
  sign_off now g (some d) =
      store_logged_out now (signed_off d) (record g { in_memory_state = some (signed_off d) })
        (get_security_state_row c g.world.storage)

  -- `logout`.
  unfoldable pub logout : ℕ → DecisionEngine c → DecisionEngine c × Ended
  logout now g = ignoring (dispatch c now logout_intent empty_payload g) (λ h.
      ignoring (dispatch c now logout_sequence_complete steps_completed h)
        (λ k. (sign_off now k k.in_memory_state, returned true)))

  abbrev pub store_unauthenticated :
      ℕ → StateData → DecisionEngine c → Storage c × Read → DecisionEngine c
  store_unauthenticated now m g (s, found d) =
      if is_unauthenticated d.state
      then over c s g
      else follow m d.state_version g (commit_transition_with_occ c now d.state_version m s)
  store_unauthenticated now m g (s, r) = over c s g

  abbrev pub unauthenticate : ℕ → DecisionEngine c → Option StateData → DecisionEngine c
  unauthenticate now g none = g
  unauthenticate now g (some d) =
      if may_unauthenticate d.state
      then store_unauthenticated now (unauthenticated_data d)
          (record g { in_memory_state = some (unauthenticated_data d) })
          (get_security_state_row c g.world.storage)
      else g

  -- `transitionToUnauthenticated`.
  unfoldable pub transition_to_unauthenticated :
      Surroundings → DecisionEngine c → DecisionEngine c × Ended
  transition_to_unauthenticated s g =
      ignoring (ensure_started c s g)
        (λ h. (unauthenticate s.now h h.in_memory_state, returned true))

  -- `enterOfflineGrace` without lease data.
  abbrev pub entered : DecisionEngine c × Reply → DecisionEngine c × Ended
  entered (g, accepted) = (set_revoked c false g, returned true)
  entered (g, refused) = (g, returned false)
  entered (g, thrown) = (g, raised)

  unfoldable pub enter_grace : ℕ → DecisionEngine c → DecisionEngine c × Ended
  enter_grace now g = elim (get_system_state c g) [
    | security_state_ready ↦ entered (dispatch c now enter_offline_grace within_grace g)
    | unauthenticated ↦ entered (dispatch c now enter_offline_grace within_grace g)
    | _ ↦ (g, returned true)
  ]

  -- The two dispatches that leave `operational`.
  abbrev pub lose_backend :
      ℕ
      → DecisionEngine c
      → (DecisionEngine c → DecisionEngine c × Ended)
      → DecisionEngine c × Ended
  lose_backend now g k =
      ignoring (dispatch c now renew_threshold_reached (renewal_due now) g)
        (λ h. ignoring (dispatch c now renew_backend_unreachable empty_payload h) k)

  abbrev pub exhaust : ℕ → DecisionEngine c → DecisionEngine c × Ended
  exhaust now g =
      ignoring (dispatch c now offline_grace_exhausted grace_spent g)
        (λ h. (set_revoked c true h, returned true))

  unfoldable pub degrade_to_grace : ℕ → DecisionEngine c → DecisionEngine c × Ended
  unfolding enter_grace
  degrade_to_grace now g = elim (get_system_state c g) [
    | operational ↦ lose_backend now g (λ h. (set_revoked c false h, returned true))
    | offline_grace ↦ (set_revoked c false g, returned true)
    | _ ↦ enter_grace now g
  ]

  unfoldable pub degrade : ℕ → DecisionEngine c → DecisionEngine c × Ended
  degrade now g = elim (get_system_state c g) [
    | operational ↦ lose_backend now g (λ h. exhaust now h)
    | offline_grace ↦ exhaust now g
    | _ ↦ (set_revoked c true g, returned true)
  ]

  -- `transitionToDegraded`.
  unfoldable pub transition_to_degraded : ℕ → String → DecisionEngine c → DecisionEngine c × Ended
  unfolding degrade_to_grace degrade
  transition_to_degraded now reason g =
      if str_eq reason "OFFLINE_GRACE" then degrade_to_grace now g else degrade now g
