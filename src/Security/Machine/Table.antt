-- ===== src/Security/Machine/Table.antt =====
-- src/security-authority/state-machine/transitions.mjs: the events, the guards and the table.
use betting_automation_contr.Prelude.{
  ℕ, Bool, true, false, not, ◌&&◌, ◌||◌, Option, none, some, List, [], ◌∷◌, String, ltb, leb,
  str_eq, if◌then◌else◌,
}
use mathlib.Core.Bool.{decide}
use betting_automation_contr.Security.State.{
  SecurityState, SecurityState-discrete, Session, Authorization, License, GraceToken, auth_failed,
  authenticated, authenticating, authz_failure, expired, initializing, integrity_degraded,
  logged_out, logging_out, offline_grace, operational, reauthentication_required, renewing, revoked,
  security_state_ready, security_state_uncertain, tamper_suspected, unauthenticated, uninitialized,
}

-- `TransitionEvent`.
pub data TransitionEvent : Type 0 where
  initialize bootstrap_complete interrupted_transaction_found : TransitionEvent
  reconciliation_resolved login_intent backend_auth_success : TransitionEvent
  backend_auth_failure authz_license_resolved authz_license_failed : TransitionEvent
  renew_threshold_reached renew_success renew_backend_unreachable : TransitionEvent
  enter_offline_grace backend_reconnected offline_grace_exhausted : TransitionEvent
  session_or_license_expired backend_revocation significant_tamper_signal : TransitionEvent
  critical_or_correlated_tamper_signal user_reinitiates logout_intent : TransitionEvent
  logout_sequence_complete : TransitionEvent

unfoldable pub TransitionEvent-discrete : Discrete TransitionEvent
TransitionEvent-discrete = hlevel

-- The fields that a guard or the engine reads of a payload. A missing flag is `false`.
pub record Payload : Type 0 where
  pub single_instance_lock_held : Bool
  pub integrity_verified : Bool
  pub storage_verified : Bool
  pub machine_identity_verified : Bool
  pub pending_transaction_exists : Bool
  pub causal_violation : Bool
  pub authoritative_outcome_confirmed : Bool
  pub is_within_grace : Bool
  pub nonce_validated : Bool
  pub backend_confirmed : Bool
  pub renewal_mutex_held : Bool
  pub response_validated : Bool
  pub handshake_passed : Bool
  pub nonce_checked : Bool
  pub all_steps_completed : Bool
  pub now : Option ℕ
  pub renew_after : Option ℕ
  pub expires_at : Option ℕ
  pub accumulated_ms : Option ℕ
  pub offline_grace_max : Option ℕ
  pub correlated_count : Option ℕ
  pub threshold : Option ℕ
  pub classification : String
  pub session_data : Option Session
  pub authorization_data : Option Authorization
  pub license_data : Option License
  pub grace_token_data : Option GraceToken

-- `{}`.
abbrev pub empty_payload : Payload
empty_payload = record {
  single_instance_lock_held = false;
  integrity_verified = false;
  storage_verified = false;
  machine_identity_verified = false;
  pending_transaction_exists = false;
  causal_violation = false;
  authoritative_outcome_confirmed = false;
  is_within_grace = false;
  nonce_validated = false;
  backend_confirmed = false;
  renewal_mutex_held = false;
  response_validated = false;
  handshake_passed = false;
  nonce_checked = false;
  all_steps_completed = false;
  now = none;
  renew_after = none;
  expires_at = none;
  accumulated_ms = none;
  offline_grace_max = none;
  correlated_count = none;
  threshold = none;
  classification = "";
  session_data = none;
  authorization_data = none;
  license_data = none;
  grace_token_data = none;
}

-- `a >= b` and `a > b`, which are false if a side is `undefined`.
abbrev pub opt_ge : Option ℕ → Option ℕ → Bool
opt_ge (some a) (some b) = leb b a
opt_ge (some a) none = false
opt_ge none b = false

abbrev pub opt_gt : Option ℕ → Option ℕ → Bool
opt_gt (some a) (some b) = ltb b a
opt_gt (some a) none = false
opt_gt none b = false

-- The guards that are not a single flag.
abbrev always : Payload → Bool
always p = true

abbrev bootstrap_verified : Payload → Bool
bootstrap_verified p = p.integrity_verified && (p.storage_verified && p.machine_identity_verified)

abbrev interrupted : Payload → Bool
interrupted p = p.pending_transaction_exists || p.causal_violation

abbrev renew_due : Payload → Bool
renew_due p = opt_ge p.now p.renew_after && not p.renewal_mutex_held

abbrev grace_exhausted : Payload → Bool
grace_exhausted p = opt_gt p.accumulated_ms p.offline_grace_max

abbrev past_expiry : Payload → Bool
past_expiry p = opt_ge p.now p.expires_at

abbrev is_significant : Payload → Bool
is_significant p = str_eq p.classification "SIGNIFICANT"

abbrev is_critical : Payload → Bool
is_critical p = str_eq p.classification "CRITICAL" || opt_ge p.correlated_count p.threshold

pub record TransitionDefinition : Type 0 where
  pub current_state : SecurityState
  pub event : TransitionEvent
  pub guard : Payload → Bool
  pub next_state : SecurityState

abbrev transition :
    SecurityState → TransitionEvent → (Payload → Bool) → SecurityState → TransitionDefinition
transition s e g n = record { current_state = s; event = e; guard = g; next_state = n }

-- `Transitions`, in the order of the source.
unfoldable pub transitions : List TransitionDefinition
transitions =
    transition uninitialized initialize (λ p. p.single_instance_lock_held) initializing
    ∷ transition initializing bootstrap_complete bootstrap_verified security_state_ready
    ∷ transition initializing interrupted_transaction_found interrupted security_state_uncertain
    ∷ transition security_state_uncertain reconciliation_resolved
        (λ p. p.authoritative_outcome_confirmed) security_state_ready
    ∷ transition security_state_ready enter_offline_grace (λ p. p.is_within_grace) offline_grace
    ∷ transition security_state_ready login_intent always authenticating
    ∷ transition unauthenticated enter_offline_grace (λ p. p.is_within_grace) offline_grace
    ∷ transition unauthenticated login_intent always authenticating
    ∷ transition authenticating backend_auth_success (λ p. p.nonce_validated) authenticated
    ∷ transition authenticating backend_auth_failure always auth_failed
    ∷ transition authenticated authz_license_resolved (λ p. p.backend_confirmed) operational
    ∷ transition authenticated authz_license_failed always authz_failure
    ∷ transition operational renew_threshold_reached renew_due renewing
    ∷ transition renewing renew_success (λ p. p.response_validated) operational
    ∷ transition renewing renew_backend_unreachable always offline_grace
    ∷ transition offline_grace backend_reconnected (λ p. p.handshake_passed) operational
    ∷ transition offline_grace offline_grace_exhausted grace_exhausted reauthentication_required
    ∷ transition operational session_or_license_expired past_expiry expired
    ∷ transition offline_grace session_or_license_expired past_expiry expired
    ∷ transition renewing session_or_license_expired past_expiry expired
    ∷ transition operational backend_revocation (λ p. p.nonce_checked) revoked
    ∷ transition offline_grace backend_revocation (λ p. p.nonce_checked) revoked
    ∷ transition renewing backend_revocation (λ p. p.nonce_checked) revoked
    ∷ transition authenticated backend_revocation (λ p. p.nonce_checked) revoked
    ∷ transition operational significant_tamper_signal is_significant integrity_degraded
    ∷ transition integrity_degraded critical_or_correlated_tamper_signal is_critical
        tamper_suspected
    ∷ transition reauthentication_required user_reinitiates always authenticating
    ∷ transition logged_out login_intent always authenticating
    ∷ transition auth_failed login_intent always authenticating
    ∷ transition authz_failure login_intent always authenticating
    ∷ transition expired login_intent always authenticating
    ∷ transition authenticated login_intent always authenticating
    ∷ transition operational login_intent always authenticating
    ∷ transition authenticated logout_intent always logging_out
    ∷ transition operational logout_intent always logging_out
    ∷ transition offline_grace logout_intent always logging_out
    ∷ transition expired logout_intent always logging_out
    ∷ transition authz_failure logout_intent always logging_out
    ∷ transition reauthentication_required logout_intent always logging_out
    ∷ transition logging_out logout_sequence_complete (λ p. p.all_steps_completed) logged_out
    ∷ []

-- `t.currentState === currentState && t.event === event`
abbrev pub matches : SecurityState → TransitionEvent → TransitionDefinition → Bool
matches s e t =
    decide (SecurityState-discrete t.current_state s) && decide (TransitionEvent-discrete t.event e)

-- `Array.prototype.find` for `matches`.
unfoldable pub find_transition :
    SecurityState → TransitionEvent → List TransitionDefinition → Option TransitionDefinition
find_transition s e [] = none
find_transition s e (t ∷ ts) = if matches s e t then some t else find_transition s e ts

unfoldable pub get_transition : SecurityState → TransitionEvent → Option TransitionDefinition
unfolding find_transition transitions SecurityState-discrete TransitionEvent-discrete decide
get_transition s e = find_transition s e transitions
