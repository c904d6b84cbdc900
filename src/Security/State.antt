-- ===== src/Security/State.antt =====
-- src/security-authority/state-machine/states.mjs, and the rows that a state carries
-- (persistence/schema.mjs): what the engine, the storage and the facade read of them.
use betting_automation_contr.Prelude.{ℕ, Bool, Option, List, String}

-- `SecurityState`. `reconciling` is the text that recovery/reconciliation.mjs also stores.
pub data SecurityState : Type 0 where
  uninitialized initializing security_state_uncertain security_state_ready : SecurityState
  unauthenticated authenticating auth_failed authenticated : SecurityState
  authorizing authz_failure operational renewing : SecurityState
  offline_grace expired revoked integrity_degraded : SecurityState
  tamper_suspected compromised reauthentication_required : SecurityState
  logging_out logged_out reconciling : SecurityState

unfoldable pub SecurityState-discrete : Discrete SecurityState
SecurityState-discrete = hlevel

-- Times are milliseconds. An absent number, text or row is `none`.
pub record Session : Type 0 where
  pub session_id : String
  pub status : String
  pub user_id : String
  pub expires_at : ℕ
  pub renew_after : Option ℕ

pub record Authorization : Type 0 where
  pub status : String
  pub capability_set : List String

-- `expires_at` is the parsed date: `none` if it is absent or not a date.
pub record License : Type 0 where
  pub status : String
  pub strict_capabilities : Bool
  pub signature : Option String
  pub account_id : Option String
  pub expires_at : Option ℕ

pub record GraceToken : Type 0 where
  pub machine_id : String
  pub session_generation : ℕ
  pub not_after : ℕ
  pub signature : Option String

-- `SecurityStateData`. The code reads the last three as `x || default`, so an absent one is 0.
pub record StateData : Type 0 where
  pub state : SecurityState
  pub state_version : ℕ
  pub session : Option Session
  pub authorization : Option Authorization
  pub license : Option License
  pub grace_token : Option GraceToken
  pub session_generation : ℕ
  pub server_epoch : ℕ
  pub highest_observed_time : ℕ
