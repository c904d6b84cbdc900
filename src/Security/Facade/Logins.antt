-- ===== src/Security/Facade/Logins.antt =====
-- When `establishSession` of src/security-authority/facade.mjs ends in an operational system.
use betting_automation_contr.Prelude.{true, false, some, ◌≡◌, ◌∙◌, ◌≢◌, refl, arith, str_eq, eq_iff}
use betting_automation_contr.Security.State.{
  SecurityState, StateData, authenticating, authenticated, operational,
}
use betting_automation_contr.Security.Machine.Table.{
  Payload, get_transition, backend_auth_success, authz_license_resolved,
}
use betting_automation_contr.Security.Machine.Graph.{fire}
use betting_automation_contr.Security.Storage.Row.{Aead}
use betting_automation_contr.Security.Storage.Laws.{Stored}
use betting_automation_contr.Security.Engine.Transition.{invariants_hold, next_data}
use betting_automation_contr.Security.Engine.Steps.{advanced}
use betting_automation_contr.Security.Decision.Brain.{
  Reply, accepted, refused, thrown, DecisionEngine, dispatch, set_revoked,
}
use betting_automation_contr.Security.Decision.First.{dispatch_succeeds}
use betting_automation_contr.Security.Facade.Sessions.{
  Surroundings, AuthPayload, result_operational, license_of, is_license_valid, session_data,
  authorization_data, is_login_eligible, login_event, intent_payload, success_payload,
  resolved_payload, get_system_state, resolve_license, login, login_by_state, open_session,
}
use betting_automation_contr.Security.Facade.Lockdown.{
  continue_unless_thrown, ensure_started, admit, establish_session,
}

fire-login_event :
    (s : SecurityState) (p : Payload)
    → is_login_eligible s ≡ true
    → fire s (login_event s) p ≡ some authenticating
unfolding fire get_transition
fire-login_event s p h = ground arith

fire-backend_auth_success :
    (p : Payload)
    → p.nonce_validated ≡ true
    → fire authenticating backend_auth_success p ≡ some authenticated
unfolding fire get_transition
fire-backend_auth_success p h = ground arith

fire-authz_license_resolved :
    (p : Payload)
    → p.backend_confirmed ≡ true
    → fire authenticated authz_license_resolved p ≡ some operational
unfolding fire get_transition
fire-authz_license_resolved p h = ground arith

-- The states in memory on the way of a login.
abbrev pub intended : Aead → Surroundings → AuthPayload → StateData → StateData
intended c s p m = advanced c m authenticating (intent_payload s p)

abbrev pub accepted_by : Aead → Surroundings → AuthPayload → StateData → StateData
accepted_by c s p m = advanced c (intended c s p m) authenticated (success_payload s p)

abbrev pub resolved_by : Aead → Surroundings → AuthPayload → StateData → StateData
resolved_by c s p m = advanced c (accepted_by c s p m) operational (resolved_payload s p)

is_license_valid-status :
    (s : Surroundings) (p : AuthPayload)
    → is_license_valid s p ≡ true
    → (license_of p).status ≡ "VALID"
unfolding is_license_valid
is_license_valid-status s p h = ground (arith, eq_iff (license_of p).status "VALID")

is_license_valid-admitted :
    (s : Surroundings) (p : AuthPayload)
    → is_license_valid s p ≡ true
    → str_eq (license_of p).status "REVOKED" ≡ false
is_license_valid-admitted s p h = rw (is_license_valid-status s p h) refl

resolved_by-invariants :
    (c : Aead) (s : Surroundings) (p : AuthPayload) (m : StateData)
    → is_license_valid s p ≡ true
    → invariants_hold (resolved_by c s p m) ≡ true
unfolding invariants_hold next_data authorization_data session_data
resolved_by-invariants c s p m h = rw h refl

module _ (c : Aead) where
  login_runs :
      (s : Surroundings) (p : AuthPayload) (m : StateData) (g g1 g2 g3 : DecisionEngine c)
      → g.in_memory_state ≡ some m
      → is_license_valid s p ≡ true
      → dispatch c s.now (login_event m.state) (intent_payload s p) g ≡ (g1, accepted)
      → dispatch c s.now backend_auth_success (success_payload s p) g1 ≡ (g2, accepted)
      → dispatch c s.now authz_license_resolved (resolved_payload s p) g2 ≡ (g3, accepted)
      → login c s p g ≡ (set_revoked c false g3, result_operational)
  unfolding login resolve_license
  login_runs s p m g g1 g2 g3 held valid run1 run2 run3 =
      let at_login : get_system_state c g ≡ m.state = rw held refl in
      rw (at_login, run1, run2, valid, run3) refl

  establish_login :
      (s : Surroundings) (p : AuthPayload) (g : DecisionEngine c) (m : StateData)
      → g.in_memory_state ≡ some m
      → is_login_eligible m.state ≡ true
      → is_license_valid s p ≡ true
      → p.session_id ≢ ""
      → establish_session c s p g ≡ login c s p g
  unfolding establish_session admit open_session login_by_state
  establish_login s p g m held eligible valid named =
      ground (arith, is_license_valid-admitted s p valid, eq_iff p.session_id "")

  login-operational :
      (s : Surroundings) (p : AuthPayload) (g : DecisionEngine c) (m d : StateData)
      → g.in_memory_state ≡ some m
      → Stored c g.world.storage d
      → m.state_version ≡ d.state_version
      → is_login_eligible m.state ≡ true
      → is_license_valid s p ≡ true
      → (h : DecisionEngine c) × (login c s p g ≡ (h, result_operational))
        × (h.world.revoked_flag ≡ false)
        × (h.in_memory_state ≡ some (resolved_by c s p m))
        × ((r : StateData) × Stored c h.world.storage r × (r.state ≡ operational))
  unfolding login resolve_license invariants_hold next_data
  login-operational s p g m d held stored v eligible valid =
      let (g1, run1, held1, stored1) =
        dispatch_succeeds c s.now (login_event m.state) (intent_payload s p) m d authenticating g
          stored held v (fire-login_event m.state (intent_payload s p) eligible) refl in
      let (g2, run2, held2, stored2) =
        dispatch_succeeds c s.now backend_auth_success (success_payload s p) (intended c s p m) _
          authenticated g1 stored1 held1 refl (fire-backend_auth_success (success_payload s p) refl)
          refl in
      let (g3, run3, held3, stored3) =
        dispatch_succeeds c s.now authz_license_resolved (resolved_payload s p)
          (accepted_by c s p m) _ operational g2 stored2 held2 refl
          (fire-authz_license_resolved (resolved_payload s p) refl)
          (resolved_by-invariants c s p m valid) in
      (
        set_revoked c false g3,
        login_runs s p m g g1 g2 g3 held valid run1 run2 run3,
        refl,
        held3,
        (_, stored3, refl),
      )

  -- A login that names a session and brings a valid license ends operational: the revocation
  -- flag is clear, the session and the authorization of the login are in memory, and the storage
  -- holds `operational`. The engine has started, in a state that may log in, over a healthy
  -- storage whose version it knows.
  pub establish_session_succeeds :
      (s : Surroundings) (p : AuthPayload) (g : DecisionEngine c) (m d : StateData)
      → g.in_memory_state ≡ some m
      → Stored c g.world.storage d
      → m.state_version ≡ d.state_version
      → is_login_eligible m.state ≡ true
      → is_license_valid s p ≡ true
      → p.session_id ≢ ""
      → (h : DecisionEngine c) × (establish_session c s p g ≡ (h, result_operational))
        × (h.world.revoked_flag ≡ false)
        × ((n : StateData) × (h.in_memory_state ≡ some n)
            × (n.state ≡ operational)
            × (n.session ≡ some (session_data s p))
            × (n.authorization ≡ some (authorization_data s p)))
        × ((r : StateData) × Stored c h.world.storage r × (r.state ≡ operational))
  unfolding next_data
  establish_session_succeeds s p g m d held stored v eligible valid named =
      let (h, run, flag, memory, on_disk) =
        login-operational s p g m d held stored v eligible valid in
      (
        h,
        establish_login s p g m held eligible valid named ∙ run,
        flag,
        (resolved_by c s p m, memory, refl, refl, refl),
        on_disk,
      )

  resolve_license-valid :
      (s : Surroundings) (p : AuthPayload) (g h : DecisionEngine c)
      → resolve_license c s p g ≡ (h, result_operational)
      → (is_license_valid s p ≡ true) × (h.world.revoked_flag ≡ false)
  unfolding resolve_license
  resolve_license-valid s p g h q = ground arith

  login-valid :
      (s : Surroundings) (p : AuthPayload) (g h : DecisionEngine c)
      → login c s p g ≡ (h, result_operational)
      → (is_license_valid s p ≡ true) × (h.world.revoked_flag ≡ false)
  unfolding login
  login-valid s p g h q = grind (arith, resolve_license-valid)

  login_by_state-valid :
      (s : Surroundings) (p : AuthPayload) (x : SecurityState) (g h : DecisionEngine c)
      → login_by_state c s p x g ≡ (h, result_operational)
      → (is_license_valid s p ≡ true) × (h.world.revoked_flag ≡ false)
  unfolding login_by_state
  login_by_state-valid s p x g h q = ground (arith, login-valid s p g h)

  open_session-valid :
      (s : Surroundings) (p : AuthPayload) (g h : DecisionEngine c)
      → open_session c s p g ≡ (h, result_operational)
      → (is_license_valid s p ≡ true) × (h.world.revoked_flag ≡ false)
  unfolding open_session
  open_session-valid s p g h q = grind (arith, login_by_state-valid)

  admit-valid :
      (s : Surroundings) (p : AuthPayload) (g h : DecisionEngine c)
      → admit c s p g ≡ (h, result_operational)
      → (p.session_id ≢ "") × (is_license_valid s p ≡ true) × (h.world.revoked_flag ≡ false)
  unfolding admit
  admit-valid s p g h q = ground (arith, open_session-valid s p g h, eq_iff p.session_id "")

  after_start-valid :
      (s : Surroundings) (p : AuthPayload) (x : DecisionEngine c × Reply) (h : DecisionEngine c)
      → continue_unless_thrown c x (λ k. admit c s p k) ≡ (h, result_operational)
      → (p.session_id ≢ "") × (is_license_valid s p ≡ true) × (h.world.revoked_flag ≡ false)
  after_start-valid s p (g, accepted) h q = admit-valid s p g h q
  after_start-valid s p (g, refused) h q = admit-valid s p g h q
  after_start-valid s p (g, thrown) h q = absurd (ground arith)

  -- A login that answers `OPERATIONAL` named a session and brought a valid license, in whatever
  -- state it began, and leaves the revocation flag clear.
  pub establish_session-valid :
      (s : Surroundings) (p : AuthPayload) (g h : DecisionEngine c)
      → establish_session c s p g ≡ (h, result_operational)
      → (p.session_id ≢ "") × (is_license_valid s p ≡ true) × (h.world.revoked_flag ≡ false)
  unfolding establish_session
  establish_session-valid s p g h q = after_start-valid s p (ensure_started c s g) h q
