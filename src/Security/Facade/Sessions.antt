-- ===== src/Security/Facade/Sessions.antt =====
-- src/security-authority/facade.mjs: `establishSession` and `authenticate`. A call takes the clock,
-- whether the process runs in production, the verdict of the license manager on the signature,
-- and the machine check of a start.
use betting_automation_contr.Prelude.{
  ℕ, zero, suc, ◌+◌, Bool, true, false, not, ◌&&◌, ◌||◌, Option, none, some, List, [], ◌∷◌, ◌++◌,
  String, or_else, str_eq, or_text, if◌then◌else◌,
}
use Prim.Native.String.{◌++◌ as text_append}
use betting_automation_contr.Security.State.{
  SecurityState, Session, Authorization, License, uninitialized, security_state_ready,
  unauthenticated, auth_failed, authz_failure, authenticated, operational, offline_grace, expired,
  reauthentication_required, logged_out,
}
use betting_automation_contr.Security.Machine.Table.{
  TransitionEvent, Payload, empty_payload, login_intent, user_reinitiates, backend_auth_success,
  authz_license_resolved, backend_reconnected,
}
use betting_automation_contr.Security.Storage.Row.{Aead}
use betting_automation_contr.Security.Decision.Brain.{
  Reply, accepted, refused, thrown, DecisionEngine, dispatch, set_revoked,
}
use betting_automation_contr.Security.Decision.Capabilities.{
  automation_start, automation_stop, config_modify, has_cap, distinct,
}

-- What the facade is told by its surroundings.
pub record Surroundings : Type 0 where
  pub now : ℕ
  pub production : Bool
  pub signature_valid : Bool
  pub machine_valid : Bool

-- The payload of a login; the empty session id is a missing one.
pub record AuthPayload : Type 0 where
  pub session_id : String
  pub account_id : Option String
  pub expires_in_ms : Option ℕ
  pub capabilities : Option (List String)
  pub license : Option License

-- `SecurityResult`; `raised` is an error that the call throws.
pub data SecurityResult : Type 0 where
  result_operational result_partial raised : SecurityResult
  result_denied result_authenticated : String → SecurityResult
  result_state : SecurityState → SecurityResult

-- `Object.values(CAPABILITY)`.
abbrev pub all_capabilities : List String
all_capabilities =
    automation_start ∷ automation_stop ∷ "CAP_BROWSER_ALLOCATE" ∷ "CAP_FILE_UPLOAD"
    ∷ "CAP_FILE_DOWNLOAD" ∷ config_modify ∷ "CAP_UPDATE_INSTALL" ∷ "CAP_TACTICAL_BET"
    ∷ "CAP_CASH_OUT" ∷ "CAP_TACTICAL_BET" ∷ config_modify ∷ []

-- `{ status: 'VALID' }`.
abbrev pub valid_license : License
valid_license = record {
  status = "VALID";
  strict_capabilities = false;
  signature = none;
  account_id = none;
  expires_at = none;
}

-- `expandedCaps.add(x)`, and the same if the set has `y`.
abbrev pub add_cap : String → List String → List String
add_cap x caps = if has_cap x caps then caps else caps ++ (x ∷ [])

abbrev pub add_with : String → String → List String → List String
add_with y x caps = if has_cap y caps then add_cap x caps else caps

-- `expandedCaps`: both names of each capability that the backend calls otherwise.
unfoldable pub expand_caps : List String → List String
expand_caps raw = add_with "CAP_CONFIG_MODIFY" "CAP_ACCOUNT_MANAGE" (
    add_with "CAP_BET_PLACE" "CAP_TACTICAL_BET" (
      add_with "CAP_TACTICAL_BET" "CAP_BET_VALIDATE" (
        add_with "CAP_TACTICAL_BET" "CAP_BET_PLACE" (
          add_with "CAP_BET_CASHOUT" "CAP_CASH_OUT"
            (add_with "CAP_CASH_OUT" "CAP_BET_CASHOUT" (distinct raw))))))

abbrev pub license_of : AuthPayload → License
license_of p = or_else p.license valid_license

abbrev pub caps_of : AuthPayload → List String
caps_of p = expand_caps (or_else p.capabilities all_capabilities)

-- `a || d` on a number that may be missing.
abbrev pub or_number : Option ℕ → ℕ → ℕ
or_number none d = d
or_number (some zero) d = d
or_number (some (suc n)) d = suc n

-- `requiresSignatureCheck` and `hasValidSignature`.
abbrev pub has_valid_signature : Surroundings → License → Bool
has_valid_signature s l =
    if not (str_eq (or_text l.signature "") "") || s.production then s.signature_valid else true

abbrev is_empty : List String → Bool
is_empty [] = true
is_empty (x ∷ xs) = false

unfoldable pub is_license_valid : Surroundings → AuthPayload → Bool
is_license_valid s p =
    str_eq (license_of p).status "VALID"
    && (has_valid_signature s (license_of p) && not (is_empty (caps_of p)))

unfoldable pub session_data : Surroundings → AuthPayload → Session
session_data s p = record {
  session_id = p.session_id;
  status = "AUTHENTICATED";
  user_id = or_text p.account_id "authenticated-operator";
  expires_at = s.now + or_number p.expires_in_ms 86_400_000;
  renew_after = none;
}

unfoldable pub authorization_data : Surroundings → AuthPayload → Authorization
unfolding is_license_valid
authorization_data s p = record {
  status =
      if is_license_valid s p
      then "VALID"
      else (if not (has_valid_signature s (license_of p))
          then "LICENSE_SIGNATURE_INVALID"
          else or_text (some (license_of p).status) "PAYMENT_REQUIRED");
  capability_set = if is_license_valid s p then caps_of p else [];
}

abbrev pub refusal : Surroundings → AuthPayload → String
refusal s p =
    if not (has_valid_signature s (license_of p))
    then "License cryptographic signature verification failed"
    else text_append
        (text_append "Active subscription/license required ("
          (or_text (some (license_of p).status) "PAYMENT_REQUIRED"))
        ")"

-- `loginEligibleStates`.
abbrev pub is_login_eligible : SecurityState → Bool
is_login_eligible security_state_ready = true
is_login_eligible unauthenticated = true
is_login_eligible reauthentication_required = true
is_login_eligible logged_out = true
is_login_eligible auth_failed = true
is_login_eligible authz_failure = true
is_login_eligible expired = true
is_login_eligible authenticated = true
is_login_eligible operational = true
is_login_eligible s = false

abbrev pub login_event : SecurityState → TransitionEvent
login_event reauthentication_required = user_reinitiates
login_event s = login_intent

-- The payloads of the four dispatches.
abbrev pub intent_payload : Surroundings → AuthPayload → Payload
intent_payload s p = record empty_payload { session_data = some (session_data s p) }

abbrev pub success_payload : Surroundings → AuthPayload → Payload
success_payload s p = record empty_payload {
  nonce_validated = true;
  session_data = some (session_data s p);
  authorization_data = some (authorization_data s p);
  license_data = some (license_of p);
}

abbrev pub resolved_payload : Surroundings → AuthPayload → Payload
resolved_payload s p = record empty_payload {
  backend_confirmed = true;
  authorization_data = some (authorization_data s p);
  license_data = some (license_of p);
}

abbrev pub reconnected_payload : Surroundings → AuthPayload → Payload
reconnected_payload s p = record empty_payload {
  handshake_passed = true;
  session_data = some (session_data s p);
  authorization_data = some (authorization_data s p);
  license_data = some (license_of p);
}

module _ (c : Aead) where
  -- `getSystemState`.
  abbrev pub get_system_state : DecisionEngine c → SecurityState
  get_system_state g = elim g.in_memory_state [ none ↦ uninitialized | some d ↦ d.state ]

  -- What follows an awaited dispatch: an error is thrown on.
  abbrev pub after :
      DecisionEngine c × Reply
      → (DecisionEngine c → DecisionEngine c × SecurityResult)
      → (DecisionEngine c → DecisionEngine c × SecurityResult)
      → DecisionEngine c × SecurityResult
  after (g, accepted) yes_ no_ = yes_ g
  after (g, refused) yes_ no_ = no_ g
  after (g, thrown) yes_ no_ = (g, raised)

  -- After the login was accepted by the backend and by the state machine.
  unfoldable pub resolve_license :
      Surroundings → AuthPayload → DecisionEngine c → DecisionEngine c × SecurityResult
  resolve_license s p g =
      if is_license_valid s p
      then after (dispatch c s.now authz_license_resolved (resolved_payload s p) g)
          (λ h. (set_revoked c false h, result_operational)) (λ h. (h, result_partial))
      else (set_revoked c false g, result_authenticated (refusal s p))

  unfoldable pub login :
      Surroundings → AuthPayload → DecisionEngine c → DecisionEngine c × SecurityResult
  unfolding resolve_license
  login s p g =
      after (dispatch c s.now (login_event (get_system_state g)) (intent_payload s p) g)
        (λ h.
          after (dispatch c s.now backend_auth_success (success_payload s p) h)
            (λ k. resolve_license s p k)
            (λ k. (k, result_denied "Backend authentication transition rejected")))
        (λ h. (h, result_denied "Login intent rejected by state machine"))

  -- The way of a login by the state, after a grace that could not be ended.
  unfoldable pub login_by_state :
      Surroundings
      → AuthPayload
      → SecurityState
      → DecisionEngine c
      → DecisionEngine c × SecurityResult
  unfolding login
  login_by_state s p state g =
      if is_login_eligible state then login s p g else (g, result_state (get_system_state g))

  abbrev is_grace : SecurityState → Bool
  is_grace offline_grace = true
  is_grace s = false

  -- `establishSession`, where the engine has started and the license is not revoked.
  unfoldable pub open_session :
      Surroundings → AuthPayload → DecisionEngine c → DecisionEngine c × SecurityResult
  unfolding login_by_state
  open_session s p g =
      if is_grace (get_system_state g) && is_license_valid s p
      then after (dispatch c s.now backend_reconnected (reconnected_payload s p) g)
          (λ h. (set_revoked c false h, result_operational))
          (λ h. login_by_state s p (get_system_state g) h)
      else login_by_state s p (get_system_state g) g
