-- ===== src/Command/Tests.antt =====
-- The theorems on commands, at a bet that two handlers take.
use betting_automation_contr.Prelude.{◌++◌, ℕ, ◌+◌, false, none, some, [], ◌∷◌, ◌≡◌, ◌⊎◌, refl}
use betting_automation_contr.Prelude.Dict.{set}
use betting_automation_contr.Security.State.{StateData, reauthentication_required}
use betting_automation_contr.Security.Tests.Cipher.{boxes, running, first-Stored}
use betting_automation_contr.Security.Tests.Facade.{working, held_running, stored_running}
use betting_automation_contr.Security.Facade.Lockdown.{revoke_license}
use betting_automation_contr.Command.Schema.{
  Decimal, Payload, Command, missing, text, finite, validate, payload_errors, stake_errors,
  odds_errors,
}
use betting_automation_contr.Command.Router.{Run, CommandRouter, with_ids, register, route}
use betting_automation_contr.Command.Gate.{IsAllowed, IsSilent, HandedOut}
use betting_automation_contr.Command.Router.{handlers_for, text_of}
use betting_automation_contr.Command.Counted.{route-HandedOut}
use betting_automation_contr.Command.Degraded.{facade, revoke_license_contains}
use betting_automation_contr.Command.Bounds.{IsStake, IsOdds, Given, validate-place_bet}

-- A handler is a number that it adds to the world; it returns the sum.
abbrev add : Run ℕ ℕ ℕ
add h c w = (w + h, some (w + h))

abbrev blank_router : CommandRouter ℕ
blank_router = record { handlers = []; metrics = record { received = 0; rejected = 0; routed = 0 } }

abbrev router : CommandRouter ℕ
router = register "Execution" "*" 4 (register "Execution" "PLACE_BET" 3 blank_router)

-- 2.5
abbrev two_and_a_half : Decimal
two_and_a_half = record { is_negative = false; digits = 2 ∷ 5 ∷ []; decimals = 1 }

abbrev bet_payload : Payload
bet_payload = record {
  stake = finite two_and_a_half;
  odds = finite two_and_a_half;
  percentage = missing;
  amount = missing;
  enabled = missing;
  account_username = missing;
  id = missing;
  account_id = missing;
  type_ = missing;
  account_ids_is_array = false;
}

abbrev bet : Command
bet = record {
  id = text "c1";
  command_id = missing;
  trace_id = missing;
  category = text "Execution";
  type_ = text "PLACE_BET";
  target = missing;
  payload = bet_payload;
}

route-HandedOut_example :
    let x = route add none "i" "t" (some bet) router 10 in
    let n = with_ids "i" "t" bet in
    ((x.1 ≡ 10) × IsSilent add x.2)
    ⊎ (IsAllowed none n
        × HandedOut add
            (handlers_for (text_of n.category) (text_of n.type_) router
              ++ handlers_for (text_of n.category) "*" router)
            n
            10
            x)
route-HandedOut_example = route-HandedOut add none "i" "t" bet router 10

abbrev expired_operator : StateData
expired_operator = record running { state = reauthentication_required }

revoke_license_contains_example :
    let h = revoke_license boxes 50 working in
    let x =
      route add
        (some (facade false h.world.revoked_flag h.in_memory_state))
        "i"
        "t"
        (some bet)
        router
        10 in
    (x.1 ≡ 10) × IsSilent add x.2
revoke_license_contains_example =
    revoke_license_contains add boxes 50 working held_running stored_running false "i" "t" bet
      router 10 refl first-Stored refl

bet-valid : validate bet ≡ []
unfolding validate payload_errors stake_errors odds_errors
bet-valid = refl

validate-place_bet_example : Given IsStake bet.payload.stake × Given IsOdds bet.payload.odds
validate-place_bet_example = validate-place_bet bet bet-valid refl

-- A bet runs its own handler, then the wildcard.
bet_runs : (route add none "i" "t" (some bet) router 10).1 ≡ 17
unfolding route register validate payload_errors stake_errors odds_errors set
bet_runs = refl

-- 10 ^ -7 passes the check of its precision.
tiny : stake_errors (finite (record { is_negative = false; digits = 1 ∷ []; decimals = 7 })) ≡ []
unfolding stake_errors
tiny = refl
