-- ===== src/Security/Facade/Commands.antt =====
-- src/security-authority/facade.mjs: what `authorize` and `isCommandPermitted` answer.
use betting_automation_contr.Prelude.{
  Bool, true, false, not, ◌&&◌, ◌||◌, Option, none, some, List, [], ◌∷◌, String, ◌≡◌, ◌⊎◌, inl, inr,
  Bool-cases, eq_iff, All, str_eq, any, arith, if◌then◌else◌,
}
use betting_automation_contr.Security.State.{
  SecurityState, StateData, uninitialized, operational, offline_grace, revoked, compromised,
  tamper_suspected,
}
use betting_automation_contr.Security.Decision.Capabilities.{
  automation_stop, may_operate, is_valid, has_cap, get_current_capabilities,
}

-- `aliasMap`.
unfoldable pub alias_of : String → Option String
alias_of x =
    if str_eq x "CAP_BET_CASHOUT"
    then some "CAP_CASH_OUT"
    else (if str_eq x "CAP_CASH_OUT"
        then some "CAP_BET_CASHOUT"
        else (if str_eq x "CAP_BET_PLACE"
            then some "CAP_TACTICAL_BET"
            else (if str_eq x "CAP_TACTICAL_BET"
                then some "CAP_BET_PLACE"
                else (if str_eq x "CAP_BET_VALIDATE" then some "CAP_TACTICAL_BET" else none))))

abbrev pub has_alias : Option String → List String → Bool
has_alias none caps = false
has_alias (some a) caps = has_cap a caps

-- `authorize`: whether it answers `OPERATIONAL`. `executing` is the answer of the checker.
unfoldable pub authorize : Bool → Option StateData → String → Bool
unfolding get_current_capabilities alias_of
authorize executing d x =
    if str_eq x automation_stop
    then true
    else (if has_cap x (get_current_capabilities executing d)
        then true
        else has_alias (alias_of x) (get_current_capabilities executing d))

-- `isDegraded`. Without a state in memory the answer is that of `UNINITIALIZED`.
abbrev pub is_degraded_state : SecurityState → Bool
is_degraded_state uninitialized = false
is_degraded_state operational = false
is_degraded_state offline_grace = false
is_degraded_state s = true

abbrev pub is_lockdown : SecurityState → Bool
is_lockdown revoked = true
is_lockdown compromised = true
is_lockdown tamper_suspected = true
is_lockdown s = false

abbrev pub system_state : Option StateData → SecurityState
system_state none = uninitialized
system_state (some d) = d.state

abbrev pub containment_commands : List String
containment_commands = "EMERGENCY_STOP" ∷ "STOP_AUTOMATION" ∷ "VIEW_STATUS" ∷ "GET_HEALTH" ∷ []

abbrev pub automated_commands : List String
automated_commands =
    "PLACE_BET" ∷ "CASH_OUT" ∷ "START_AUTOMATION" ∷ "VALIDATE" ∷ "ACTIVATE_ACCOUNT"
    ∷ "DEACTIVATE_ACCOUNT" ∷ "TEST_DEGRADED_BET" ∷ []

-- `isCommandPermitted`, with the revocation flag of the native core.
unfoldable pub is_command_permitted : Bool → Option StateData → String → Bool
is_command_permitted flag d x =
    if is_lockdown (system_state d) || flag
    then any (str_eq x) containment_commands
    else (if is_degraded_state (system_state d)
        then not (any (str_eq x) automated_commands)
        else true)

any-All :
    (P : String → Type 0) (x : String) (ys : List String)
    → All P ys
    → any (str_eq x) ys ≡ true
    → P x
any-All P x [] a h = absurd (ground (arith, h))
any-All P x (y ∷ ys) a h = elim (Bool-cases (str_eq x y)) [
  | inl same ↦ let q : x ≡ y = (eq_iff x y).0 same in rw q a.0
  | inr other ↦ any-All P x ys a.1 (ground (arith, other, h))
]

automated_apart :
    (x : String)
    → any (str_eq x) automated_commands ≡ true
    → any (str_eq x) containment_commands ≡ false
automated_apart x h =
    any-All (λ y. any (str_eq y) containment_commands ≡ false) x automated_commands (ground arith) h

-- A command of automated execution is permitted only while the revocation flag is clear and the
-- system is operational, within the offline grace, or not initialized yet.
pub is_command_permitted-automated :
    (flag : Bool) (d : Option StateData) (x : String)
    → any (str_eq x) automated_commands ≡ true
    → is_command_permitted flag d x ≡ true
    → (flag ≡ false)
      × ((system_state d ≡ operational)
          ⊎ ((system_state d ≡ offline_grace) ⊎ (system_state d ≡ uninitialized)))
unfolding is_command_permitted
is_command_permitted-automated flag d x auto h = ground (arith, automated_apart x auto)

-- Outside the operational states and the offline grace, or without a valid authorization, the
-- only capability that is authorized is the stop of the automation.
authorize-contained :
    (executing : Bool) (d : StateData) (x : String)
    → (may_operate d.state && is_valid d.authorization) ≡ false
    → authorize executing (some d) x ≡ str_eq x automation_stop
unfolding authorize get_current_capabilities alias_of
authorize-contained executing d x h = ground (arith, h)
