-- ===== src/Security/Facade/Lockdown.antt =====
-- src/security-authority/facade.mjs: `revokeLicense`, and the logins that start from it. The
-- proxies and the pipe that a revocation closes, and its audit event, are left out.
use betting_automation_contr.Prelude.{
  ℕ, Bool, true, false, Option, none, some, String, str_eq, or_text, if◌then◌else◌,
}
use Prim.Native.String.{◌++◌ as text_append}
use betting_automation_contr.Security.State.{SecurityState, License, StateData, revoked}
use betting_automation_contr.Security.Machine.Table.{Payload, empty_payload, backend_revocation}
use betting_automation_contr.Security.Storage.Row.{
  Aead, Read, found, Storage, get_security_state_row, commit_transition_with_occ,
}
use betting_automation_contr.Security.Decision.Brain.{
  Reply, thrown, DecisionEngine, dispatch, set_revoked, start_engine,
}
use betting_automation_contr.Security.Decision.Starts.{over}
use betting_automation_contr.Security.Facade.Sessions.{
  Surroundings, AuthPayload, SecurityResult, result_denied, raised, license_of, all_capabilities,
  open_session,
}

abbrev pub revocation_payload : Payload
revocation_payload = record empty_payload { nonce_checked = true }

-- The license that a revocation leaves.
abbrev pub revoked_license : License
revoked_license = record {
  status = "REVOKED";
  strict_capabilities = false;
  signature = none;
  account_id = none;
  expires_at = none;
}

abbrev pub revoked_data : StateData → StateData
revoked_data d = record d { state = revoked; license = some revoked_license }

abbrev pub is_revoked : SecurityState → Bool
is_revoked revoked = true
is_revoked s = false

module _ (c : Aead) where
  -- The row is written unless it already holds a revocation; a storage error is swallowed.
  abbrev pub store_over : ℕ → StateData → DecisionEngine c → Storage c × Read → DecisionEngine c
  store_over now m g (s, found d) =
      if is_revoked d.state
      then over c s g
      else over c (commit_transition_with_occ c now d.state_version m s).0 g
  store_over now m g (s, r) = over c s g

  abbrev pub lock_down : ℕ → DecisionEngine c → Option StateData → DecisionEngine c
  lock_down now g none = g
  lock_down now g (some d) =
      store_over now (revoked_data d) (record g { in_memory_state = some (revoked_data d) })
        (get_security_state_row c g.world.storage)

  -- `revokeLicense`; an error of the dispatch is swallowed.
  unfoldable pub revoke_license : ℕ → DecisionEngine c → DecisionEngine c
  revoke_license now g =
      let h = (dispatch c now backend_revocation revocation_payload (set_revoked c true g)).0 in
      lock_down now h h.in_memory_state

  -- `initialize` of the facade, unless the engine has started.
  abbrev pub ensure_started : Surroundings → DecisionEngine c → DecisionEngine c × Reply
  ensure_started s g = elim g.in_memory_state [
    | none ↦ start_engine c s.now s.now s.now s.machine_valid g
    | some d ↦ (g, Reply.accepted)
  ]

  -- The checks of `establishSession` before it acts.
  unfoldable pub admit :
      Surroundings → AuthPayload → DecisionEngine c → DecisionEngine c × SecurityResult
  unfolding revoke_license open_session
  admit s p g =
      if str_eq p.session_id ""
      then (g, result_denied "Invalid session payload")
      else (if str_eq (license_of p).status "REVOKED"
          then (revoke_license s.now g, result_denied "License is revoked")
          else open_session c s p g)

  abbrev pub continue_unless_thrown :
      DecisionEngine c × Reply
      → (DecisionEngine c → DecisionEngine c × SecurityResult)
      → DecisionEngine c × SecurityResult
  continue_unless_thrown (g, thrown) k = (g, raised)
  continue_unless_thrown (g, r) k = k g

  -- `establishSession`.
  unfoldable pub establish_session :
      Surroundings → AuthPayload → DecisionEngine c → DecisionEngine c × SecurityResult
  unfolding admit
  establish_session s p g = continue_unless_thrown (ensure_started s g) (λ h. admit s p h)

  -- The login of a developer, whose session id carries the clock's text `stamp`.
  abbrev pub local_payload : String → Option String → AuthPayload
  local_payload stamp email = record {
    session_id = text_append "sess_" stamp;
    account_id = some (or_text email "operator");
    expires_in_ms = none;
    capabilities = some all_capabilities;
    license = none;
  }

  -- `authenticate` of credentials with an e-mail address, or of a session.
  unfoldable pub authenticate :
      Surroundings
      → String
      → Option String
      → AuthPayload
      → DecisionEngine c
      → DecisionEngine c × SecurityResult
  unfolding establish_session
  authenticate s stamp email p g =
      if str_eq p.session_id ""
      then (if s.production
          then (g, result_denied "Unverified local session fabrication is forbidden in production")
          else establish_session s (local_payload stamp email) g)
      else establish_session s p g
