-- ===== src/Security/Engine/Transition.antt =====
-- src/security-authority/state-machine/engine.mjs and invariants.mjs: one atomic transition. The
-- mutex makes a call one step; what other callers wrote before it is in the storage.
use betting_automation_contr.Prelude.{
  ℕ, ◌+◌, Bool, true, false, not, ◌&&◌, ◌||◌, Option, none, some, List, [], String, ◌==◌, length,
  str_eq, if◌then◌else◌,
}
use betting_automation_contr.Security.State.{
  SecurityState, Session, Authorization, StateData, authenticating, authenticated, operational,
  renewing, offline_grace, revoked, compromised,
}
use betting_automation_contr.Security.Machine.Table.{
  TransitionEvent, Payload, TransitionDefinition, get_transition,
}
use betting_automation_contr.Security.Storage.Row.{
  Aead, Read, found, empty, uncertain, AuditEvent, Storage, get_security_state_row,
  commit_transition_with_occ, write_event,
}

pub data EngineError : Type 0 where
  row_missing storage_uncertain occ_conflict invalid_transition guard_failed : EngineError
  invariant_violation : EngineError

-- What a call returns, or the error that it throws.
pub data Outcome : Type 0 where
  success : StateData → Outcome
  failure : StateData → EngineError → Outcome
  throws : EngineError → Outcome

-- The storage, and the revocation flag of the native core.
pub record World (c : Aead) : Type 0 where
  pub storage : Storage c
  pub revoked_flag : Bool

-- The states for which the engine clears the revocation flag.
abbrev pub is_non_revoked : SecurityState → Bool
is_non_revoked operational = true
is_non_revoked authenticated = true
is_non_revoked authenticating = true
is_non_revoked renewing = true
is_non_revoked offline_grace = true
is_non_revoked s = false

-- `payload.x` overrides the field, if it is there.
abbrev pub override {ℓ} : {A : Type ℓ} → Option A → Option A → Option A
override none old = old
override (some a) old = some a

-- The mutation of step 6.
unfoldable pub next_data : StateData → SecurityState → Payload → StateData
next_data d n p = record d {
  state = n;
  session = override p.session_data d.session;
  authorization = override p.authorization_data d.authorization;
  license = override p.license_data d.license;
  grace_token = override p.grace_token_data d.grace_token;
}

-- `status` of a row; reading it of a missing row throws.
abbrev valid_authorization : Option Authorization → Bool
valid_authorization none = false
valid_authorization (some a) = str_eq a.status "VALID"

abbrev valid_session : Option Session → Bool
valid_session none = false
valid_session (some s) = str_eq s.status "AUTHENTICATED" || str_eq s.status "RENEWING"

-- `getCapabilities`, as `DecisionEngine.dispatch` passes it.
abbrev pub capability_set : Option Authorization → List String
capability_set none = []
capability_set (some a) = a.capability_set

-- `assertStateMachineInvariants`: whether it returns. Nothing is asserted of other states.
unfoldable pub invariants_hold : StateData → Bool
invariants_hold d = elim d.state [
  | operational ↦ valid_authorization d.authorization && valid_session d.session
  | compromised ↦ length (capability_set d.authorization) == 0
  | revoked ↦ length (capability_set d.authorization) == 0
  | _ ↦ true
]

abbrev warning : String → AuditEvent
warning t = record { event_type = t; severity = "WARN"; result = "FAILED" }

abbrev pub state_transition : AuditEvent
state_transition = record { event_type = "STATE_TRANSITION"; severity = "INFO"; result = "SUCCESS" }

module _ (c : Aead) where
  -- The invariant check and the revocation flag, after a commit.
  finalize : StateData → World c → World c × Outcome
  finalize d w =
      if invariants_hold d
      then (record w { revoked_flag = not (is_non_revoked d.state) }, success d)
      else (w, throws invariant_violation)

  -- The rest of the algorithm after the commit.
  after_commit : StateData → ℕ → StateData → World c → Storage c × Bool → World c × Outcome
  unfolding finalize
  after_commit current expected d w (s, false) =
      (record w { storage = s }, failure current occ_conflict)
  after_commit current expected d w (s, true) =
      finalize (record d { state_version = expected + 1 })
        (record w { storage = write_event c state_transition s })

  -- The guard, then the commit.
  apply_definition :
      ℕ → StateData → Payload → World c → Option TransitionDefinition → World c × Outcome
  unfolding after_commit next_data
  apply_definition now current p w none = (
    record w { storage = write_event c (warning "INVALID_TRANSITION_ATTEMPTED") w.storage },
    failure current invalid_transition,
  )
  apply_definition now current p w (some t) =
      let d = next_data current t.next_state p in
      if t.guard p
      then after_commit current current.state_version d w
          (commit_transition_with_occ c now current.state_version d w.storage)
      else (
        record w { storage = write_event c (warning "TRANSITION_GUARD_FAILED") w.storage },
        failure current guard_failed,
      )

  -- The comparison with the stored version.
  check_version : ℕ → StateData → TransitionEvent → Payload → World c → Read → World c × Outcome
  unfolding apply_definition
  check_version now current e p w (uncertain err) = (w, throws storage_uncertain)
  check_version now current e p w empty = (w, throws row_missing)
  check_version now current e p w (found row) =
      if current.state_version == row.state_version
      then apply_definition now current p w (get_transition current.state e)
      else (w, failure current occ_conflict)

  -- `executeTransition` at the clock `now`.
  unfoldable pub execute_transition :
      ℕ → StateData → TransitionEvent → Payload → World c → World c × Outcome
  unfolding check_version
  execute_transition now current e p w =
      let (s, read) = get_security_state_row c w.storage in
      check_version now current e p (record w { storage = s }) read
