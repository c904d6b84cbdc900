-- ===== src/Workspace/Lifecycle.antt =====
-- src/state/lifecycleStateResolver.mjs: the state of the application that the frontend shows, from
-- the facade's security state, the license's status and the billing snapshot's.
use betting_automation_contr.Prelude.{
  Bool, true, false, not, ◌&&◌, ◌||◌, Option, none, some, String, ◌≡◌, arith, str_eq, if◌then◌else◌,
}
use betting_automation_contr.Security.State.{
  SecurityState, uninitialized, initializing, security_state_uncertain, security_state_ready,
  unauthenticated, authenticating, auth_failed, authenticated, authz_failure, operational, renewing,
  offline_grace, expired, revoked, integrity_degraded, tamper_suspected, compromised,
  reauthentication_required, logging_out, logged_out,
}

pub data AppLifecycleState : Type 0 where
  app_initializing authentication_required payment_required : AppLifecycleState
  authorized app_revoked offline_fatal : AppLifecycleState

-- `x?.status === text`
abbrev pub status_is : String → Option String → Bool
status_is text none = false
status_is text (some s) = str_eq s text

-- The billing branch of a running state.
unfoldable pub billed : Option String → Option String → AppLifecycleState
billed license billing =
    if status_is "Past_Due" billing
      || (status_is "Payment_Required" billing && not (status_is "VALID" license))
    then payment_required
    else authorized

-- The branches after the license was found not to be revoked.
unfoldable pub unrevoked : SecurityState → Option String → Option String → AppLifecycleState
unrevoked s license billing = elim s [
  | security_state_uncertain ↦ offline_fatal
  | integrity_degraded ↦ offline_fatal
  | tamper_suspected ↦ offline_fatal
  | operational ↦ billed license billing
  | offline_grace ↦ billed license billing
  | renewing ↦ billed license billing
  | authenticated ↦ payment_required
  | authz_failure ↦ payment_required
  | expired ↦ payment_required
  | unauthenticated ↦ authentication_required
  | security_state_ready ↦ authentication_required
  | authenticating ↦ authentication_required
  | auth_failed ↦ authentication_required
  | logged_out ↦ authentication_required
  | logging_out ↦ authentication_required
  | reauthentication_required ↦ authentication_required
  | _ ↦ offline_fatal
]

-- `resolveAuthoritativeLifecycleState`.
unfoldable pub resolve_authoritative_lifecycle_state :
    SecurityState → Option String → Option String → AppLifecycleState
unfolding unrevoked billed
resolve_authoritative_lifecycle_state s license billing = elim s [
  | uninitialized ↦ app_initializing
  | initializing ↦ app_initializing
  | revoked ↦ app_revoked
  | compromised ↦ app_revoked
  | other ↦ if status_is "REVOKED" license then app_revoked else unrevoked other license billing
]

abbrev pub is_authorized : AppLifecycleState → Bool
is_authorized authorized = true
is_authorized s = false

abbrev pub is_running : SecurityState → Bool
is_running operational = true
is_running offline_grace = true
is_running renewing = true
is_running s = false

-- The frontend shows `Authorized` exactly in `operational`, `offline_grace` and `renewing`, if
-- the license is not revoked, the billing is not past due, and it demands no payment that a valid
-- license would cover.
resolve_authoritative_lifecycle_state-authorized :
    (s : SecurityState) (license billing : Option String)
    → is_authorized (resolve_authoritative_lifecycle_state s license billing) ≡ (
        is_running s
        && (not (status_is "REVOKED" license)
            && (not (status_is "Past_Due" billing)
                && (not (status_is "Payment_Required" billing) || status_is "VALID" license))))
unfolding resolve_authoritative_lifecycle_state unrevoked billed
resolve_authoritative_lifecycle_state-authorized s license billing = ground arith
