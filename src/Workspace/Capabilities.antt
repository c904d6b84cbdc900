-- ===== src/Workspace/Capabilities.antt =====
-- src/state/capabilityResolver.mjs: what the frontend may offer.
use betting_automation_contr.Prelude.{
  ℕ, Bool, true, false, not, ◌&&◌, ◌||◌, Option, none, some, List, [], ◌∷◌, ◌++◌, String, ◌==◌, ltb,
  any, is_some, str_eq, if◌then◌else◌,
}
use betting_automation_contr.Prelude.Dict.{Dict, get}

pub data Lifecycle : Type 0 where
  stopped starting running stopping error_degraded : Lifecycle

-- The parameters of `resolve`.
pub record Params : Type 0 where
  pub lifecycle : Lifecycle
  pub is_authorized : Bool
  pub authorization_reason : Option String
  pub has_active_runtime : Bool
  pub active_browsers : ℕ
  pub max_capacity : ℕ
  pub global_action_pending : Option String
  pub total_configured_accounts : ℕ

pub record Capabilities : Type 0 where
  pub can_start_automation : Bool
  pub start_disabled_reason : Option String
  pub can_stop_automation : Bool
  pub stop_disabled_reason : Option String
  pub can_place_bet : Bool
  pub place_bet_disabled_reason : Option String
  pub can_cash_out : Bool
  pub cash_out_disabled_reason : Option String
  pub can_validate : Bool
  pub validate_disabled_reason : Option String
  pub can_activate_account : Bool
  pub activate_account_disabled_reason : Option String
  pub can_deactivate_account : Bool
  pub can_increase_browser_count : Bool
  pub can_decrease_browser_count : Bool
  pub can_toggle_bet_cycle : Bool
  pub can_edit_pricing : Bool
  pub can_edit_risk : Bool
  pub can_edit_rebet : Bool
  pub can_edit_proxy : Bool
  pub can_edit_execution : Bool
  pub raw_capabilities : List String

abbrev pub is_running : Params → Bool
is_running p = elim p.lifecycle [ running ↦ true | _ ↦ false ]

abbrev pub is_stopped : Params → Bool
is_stopped p = elim p.lifecycle [
  | stopped ↦ true
  | error_degraded ↦ p.active_browsers == 0
  | _ ↦ false
]

abbrev pub has_active_browsers : Params → Bool
has_active_browsers p = ltb 0 p.active_browsers

abbrev pub has_pending_action : Params → Bool
has_pending_action p = is_some p.global_action_pending

abbrev pub has_capacity : Params → Bool
has_capacity p = ltb p.active_browsers p.max_capacity

abbrev pub can_start : Params → Bool
can_start p =
    p.is_authorized
    && (not p.has_active_runtime
        && (is_stopped p && (ltb 0 p.total_configured_accounts && not (has_pending_action p))))

-- `authorizationReason || ...`: the empty text is falsy.
abbrev denial : Option String → String
denial none = "Operation prohibited by Security Authority"
denial (some r) = if str_eq r "" then "Operation prohibited by Security Authority" else r

unfoldable pub start_reason : Params → Option String
start_reason p =
    if can_start p
    then none
    else (if not (is_stopped p)
        then some (
            if is_running p
            then "Automation is already running"
            else "Automation is currently transitioning")
        else (if p.has_active_runtime
            then some "Automation runtime process is currently active"
            else (if not p.is_authorized
                then some (denial p.authorization_reason)
                else (if p.total_configured_accounts == 0
                    then some "At least one account must be configured"
                    else (if has_pending_action p then some "Operation in progress" else none)))))

abbrev pub can_stop : Params → Bool
can_stop p = elim p.lifecycle [ running ↦ true | starting ↦ true | _ ↦ false ]

abbrev pub can_act : Params → Bool
can_act p = is_running p && (has_active_browsers p && not (has_pending_action p))

-- The reason of a tactical operation, with the text of one that is not running.
unfoldable pub act_reason : String → Params → Option String
act_reason idle p =
    if can_act p
    then none
    else some (
        if not (is_running p)
        then idle
        else (if not (has_active_browsers p)
            then "No active browsers available"
            else "Operation in progress"))

abbrev pub can_check : Params → Bool
can_check p = is_running p && not (has_pending_action p)

abbrev pub can_activate : Params → Bool
can_activate p = is_stopped p && (has_capacity p && not (has_pending_action p))

unfoldable pub activate_reason : Params → Option String
activate_reason p =
    if can_activate p
    then none
    else (if is_running p
        then some "Cannot add accounts while automation is running"
        else (if not (has_capacity p)
            then some "Browser capacity limit reached"
            else (if has_pending_action p then some "Operation in progress" else none)))

-- `if (can) rawCapabilities.push(token)`.
abbrev pub token_if : Bool → String → List String
token_if can token = if can then token ∷ [] else []

unfoldable pub raw_tokens : Params → List String
raw_tokens p =
    token_if (can_start p) "CAP_AUTOMATION_START"
    ++ (token_if (can_stop p) "CAP_AUTOMATION_STOP"
        ++ (token_if (can_act p) "CAP_TACTICAL_BET"
            ++ (token_if (can_act p) "CAP_CASH_OUT"
                ++ (token_if (can_check p) "CAP_FILE_UPLOAD" ++ ("CAP_CONFIG_MODIFY" ∷ [])))))

-- `CapabilityResolver.resolve`.
unfoldable pub resolve : Params → Capabilities
resolve p = record {
  can_start_automation = can_start p;
  start_disabled_reason = start_reason p;
  can_stop_automation = can_stop p;
  stop_disabled_reason =
      if can_stop p
      then none
      else (if is_stopped p then some "Automation is already stopped" else none);
  can_place_bet = can_act p;
  place_bet_disabled_reason = act_reason "Automation must be running to place bets" p;
  can_cash_out = can_act p;
  cash_out_disabled_reason = act_reason "Automation must be running to cash out" p;
  can_validate = can_check p;
  validate_disabled_reason =
      if can_check p
      then none
      else some (
          if not (is_running p)
          then "Automation must be running to validate sessions"
          else "Operation in progress");
  can_activate_account = can_activate p;
  activate_account_disabled_reason = activate_reason p;
  can_deactivate_account = has_active_browsers p && not (has_pending_action p);
  can_increase_browser_count = is_stopped p || has_capacity p;
  can_decrease_browser_count = ltb 1 p.active_browsers;
  can_toggle_bet_cycle = true;
  can_edit_pricing = true;
  can_edit_risk = true;
  can_edit_rebet = true;
  can_edit_proxy = is_stopped p;
  can_edit_execution = true;
  raw_capabilities = raw_tokens p;
}

-- The Boolean properties of the object.
unfoldable pub flags : Capabilities → Dict Bool
flags c =
    ("canStartAutomation", c.can_start_automation)
    ∷ ("canStopAutomation", c.can_stop_automation)
    ∷ ("canPlaceBet", c.can_place_bet)
    ∷ ("canCashOut", c.can_cash_out)
    ∷ ("canValidate", c.can_validate)
    ∷ ("canActivateAccount", c.can_activate_account)
    ∷ ("canDeactivateAccount", c.can_deactivate_account)
    ∷ ("canIncreaseBrowserCount", c.can_increase_browser_count)
    ∷ ("canDecreaseBrowserCount", c.can_decrease_browser_count)
    ∷ ("canToggleBetCycle", c.can_toggle_bet_cycle)
    ∷ ("canEditPricing", c.can_edit_pricing)
    ∷ ("canEditRisk", c.can_edit_risk)
    ∷ ("canEditRebet", c.can_edit_rebet)
    ∷ ("canEditProxy", c.can_edit_proxy)
    ∷ ("canEditExecution", c.can_edit_execution)
    ∷ []

-- `tokenMap`. The operator `in` also finds the names that an object inherits, whose values are
-- truthy.
unfoldable pub token_map : Capabilities → Dict Bool
token_map c =
    ("CAP_AUTOMATION_START", c.can_start_automation)
    ∷ ("CAP_AUTOMATION_STOP", c.can_stop_automation)
    ∷ ("CAP_TACTICAL_BET", c.can_place_bet)
    ∷ ("CAP_BET_PLACE", c.can_place_bet)
    ∷ ("CAP_CASH_OUT", c.can_cash_out)
    ∷ ("CAP_BET_CASHOUT", c.can_cash_out)
    ∷ ("CAP_FILE_UPLOAD", c.can_validate)
    ∷ ("CAP_BET_VALIDATE", c.can_validate)
    ∷ ("CAP_CONFIG_MODIFY", c.can_edit_pricing)
    ∷ ("constructor", true)
    ∷ ("__defineGetter__", true)
    ∷ ("__defineSetter__", true)
    ∷ ("hasOwnProperty", true)
    ∷ ("__lookupGetter__", true)
    ∷ ("__lookupSetter__", true)
    ∷ ("isPrototypeOf", true)
    ∷ ("propertyIsEnumerable", true)
    ∷ ("toString", true)
    ∷ ("valueOf", true)
    ∷ ("__proto__", true)
    ∷ ("toLocaleString", true)
    ∷ []

-- `includes`.
unfoldable pub includes : String → Capabilities → Bool
includes cap c = elim (str_eq cap "") [
  | true ↦ false
  | false ↦ elim (get cap (flags c)) [
    | some b ↦ b
    | none ↦ elim (get cap (token_map c)) [
      | some b ↦ b
      | none ↦ any (str_eq cap) c.raw_capabilities
    ]
  ]
]
