-- ===== src/Workspace/Offers.antt =====
-- What src/state/capabilityResolver.mjs never offers, and when it gives a reason.
use betting_automation_contr.Prelude.{
  Bool, true, false, not, ◌&&◌, ◌||◌, is_some, String, ◌≡◌, refl, arith, any, str_eq, some, List,
  ◌++◌,
}
use betting_automation_contr.Workspace.Capabilities.{
  Params, Capabilities, resolve, includes, flags, token_map, raw_tokens, start_reason, act_reason,
  can_start, can_stop, can_act, can_check, token_if,
}
use betting_automation_contr.Prelude.Dict.{get}

-- The operations that contradict a start: stopping, betting, cashing out and validating.
abbrev pub offers_run : Capabilities → Bool
offers_run c = c.can_stop_automation || (c.can_place_bet || (c.can_cash_out || c.can_validate))

-- A start is never offered together with an operation of a running automation, nor while a
-- runtime process is alive.
resolve_exclusive :
    (p : Params)
    → ((resolve p).can_start_automation && (offers_run (resolve p) || p.has_active_runtime)) ≡ false
unfolding resolve
resolve_exclusive p = ground arith

-- While an action is pending, no start, bet, cash-out or validation is offered, and no account is
-- activated or deactivated.
pub resolve_pending :
    (p : Params) (action : String)
    → p.global_action_pending ≡ some action
    → let c = resolve p in
      (c.can_start_automation
        || (c.can_place_bet
            || (c.can_cash_out
                || (c.can_validate || (c.can_activate_account || c.can_deactivate_account)))))
      ≡ false
unfolding resolve
resolve_pending p action h = ground arith

-- A start, a bet, a cash-out or a validation that is not offered has a reason, and one that is
-- offered has none.
resolve_reasons :
    (p : Params)
    → let c = resolve p in
      (is_some c.start_disabled_reason ≡ not c.can_start_automation)
      × (is_some c.place_bet_disabled_reason ≡ not c.can_place_bet)
      × (is_some c.cash_out_disabled_reason ≡ not c.can_cash_out)
      × (is_some c.validate_disabled_reason ≡ not c.can_validate)
unfolding resolve start_reason act_reason
resolve_reasons p = (ground arith, ground arith, ground arith, ground arith)

any-token_if :
    (q : String) (b : Bool) (token : String) (rest : List String)
    → any (str_eq q) (token_if b token ++ rest) ≡ ((b && str_eq q token) || any (str_eq q) rest)
any-token_if q true token rest = refl
any-token_if q false token rest = refl

any-raw_tokens :
    (q : String) (p : Params)
    → any (str_eq q) (raw_tokens p) ≡ (
        (can_start p && str_eq q "CAP_AUTOMATION_START")
        || ((can_stop p && str_eq q "CAP_AUTOMATION_STOP")
            || ((can_act p && str_eq q "CAP_TACTICAL_BET")
                || ((can_act p && str_eq q "CAP_CASH_OUT")
                    || ((can_check p && str_eq q "CAP_FILE_UPLOAD")
                        || (str_eq q "CAP_CONFIG_MODIFY" || false))))))
unfolding raw_tokens
any-raw_tokens q p =
    rw
      (
        any-token_if q (can_start p) "CAP_AUTOMATION_START" _,
        any-token_if q (can_stop p) "CAP_AUTOMATION_STOP" _,
        any-token_if q (can_act p) "CAP_TACTICAL_BET" _,
        any-token_if q (can_act p) "CAP_CASH_OUT" _,
        any-token_if q (can_check p) "CAP_FILE_UPLOAD" _,
      )
      refl

-- `includes` answers a token that the list carries as the list does.
includes-raw :
    (p : Params)
    → let c = resolve p in
      (includes "CAP_AUTOMATION_START" c ≡ any (str_eq "CAP_AUTOMATION_START") c.raw_capabilities)
      × (includes "CAP_AUTOMATION_STOP" c ≡ any (str_eq "CAP_AUTOMATION_STOP") c.raw_capabilities)
      × (includes "CAP_TACTICAL_BET" c ≡ any (str_eq "CAP_TACTICAL_BET") c.raw_capabilities)
      × (includes "CAP_CASH_OUT" c ≡ any (str_eq "CAP_CASH_OUT") c.raw_capabilities)
      × (includes "CAP_FILE_UPLOAD" c ≡ any (str_eq "CAP_FILE_UPLOAD") c.raw_capabilities)
unfolding resolve includes flags token_map get
includes-raw p = (
  rw (any-raw_tokens "CAP_AUTOMATION_START" p) (ground arith),
  rw (any-raw_tokens "CAP_AUTOMATION_STOP" p) (ground arith),
  rw (any-raw_tokens "CAP_TACTICAL_BET" p) (ground arith),
  rw (any-raw_tokens "CAP_CASH_OUT" p) (ground arith),
  rw (any-raw_tokens "CAP_FILE_UPLOAD" p) (ground arith),
)
