-- ===== src/Boundary/Manager/Bets.antt =====
-- src/runtime-manager/boundary/executionBoundaryManager.mjs: `placeBet` and `cashOut`. A call takes
-- the clock and its text, which generated keys carry; whether the engine accepts the two
-- statements of the ledger; and whether the security facade reports a degraded system.
use betting_automation_contr.Prelude.{
  first_text, or_text, ℕ, ◌+◌, Bool, true, false, not, ◌||◌, Option, none, some, List, [], ◌∷◌,
  String, str_eq, ltb, any, if◌then◌else◌,
}
use Prim.Native.String.{◌++◌ as text_append}
use betting_automation_contr.Prelude.Dict.{set}
use betting_automation_contr.Boundary.Ledger.Record.{
  Json, Status, in_flight, completed, failed, uncertain,
}
use betting_automation_contr.Boundary.Ledger.Operations.{
  Check, new, exists, check, record_in_flight,
}
use betting_automation_contr.Boundary.Reconciliation.Coordinator.{is_account_frozen}
use betting_automation_contr.Boundary.Watchdog.Monitor.{is_degraded}
use betting_automation_contr.Boundary.Manager.State.{
  listed, MessageType, place_bet_message, cash_out_message, Dispatch, DispatchOptions, InFlight,
  Manager, dispatch_envelope,
}

-- A value that may be a number: `finite n d` is `n / (d + 1)`, and every finite one that is not
-- negative is of this form.
pub data Number : Type 0 where
  finite : ℕ → ℕ → Number
  negative not_finite not_a_number : Number

-- An account of the state store, with `betCycleEnabled !== false` of its override.
pub record StoredAccount : Type 0 where
  pub id : String
  pub account_username : String
  pub bet_cycle_enabled : Bool

-- Why a call throws.
pub data Denial : Type 0 where
  system_degraded watchdog_degraded all_excluded invalid_stake invalid_odds : Denial
  account_frozen : String → Denial

-- What a call is given beside the payload.
pub record Call : Type 0 where
  pub now : ℕ
  pub stamp : String
  pub pruning : Bool
  pub inserting : Bool
  pub degraded : Bool
  pub options : DispatchOptions

-- The text that stands for a missing key.
abbrev pub idempotency_key_of : String → Option String → Option String → String
idempotency_key_of stamp key operation_id =
    or_text key (text_append "idem_" (or_text operation_id stamp))

abbrev pub operation_id_of : String → Option String → String
operation_id_of stamp operation_id = or_text operation_id (text_append "op_" stamp)

-- `stake` and `odds`, if they are given.
abbrev pub is_stake : Option Number → Bool
is_stake none = true
is_stake (some (finite n d)) = ltb 0 n
is_stake (some n) = false

abbrev pub is_odds : Option Number → Bool
is_odds none = true
is_odds (some (finite n d)) = ltb (d + 1) n
is_odds (some n) = false

-- The accounts of the store that the bet is for.
unfoldable pub accounts_to_check : List String → List StoredAccount → List StoredAccount
accounts_to_check targets [] = []
accounts_to_check targets (a ∷ as_) =
    let rest = accounts_to_check targets as_ in
    if any (str_eq a.id) targets || any (str_eq a.account_username) targets then a ∷ rest else rest

abbrev pub is_none_eligible : List StoredAccount → Bool
is_none_eligible [] = false
is_none_eligible (a ∷ rest) = not (any (λ (x : StoredAccount). x.bet_cycle_enabled) (a ∷ rest))

-- The fast rejection of a bet whose accounts are all excluded from the bet cycle.
unfoldable pub are_all_excluded : List String → Option (List StoredAccount) → Bool
unfolding accounts_to_check
are_all_excluded targets none = false
are_all_excluded [] (some accounts) = is_none_eligible accounts
are_all_excluded (t ∷ ts) (some accounts) = is_none_eligible (accounts_to_check (t ∷ ts) accounts)

module _ (j : Json) where
  open j use {Value}

  pub record BetPayload : Type 0 where
    pub target_accounts : Option (List String)
    pub account_id : Option String
    pub idempotency_key : Option String
    pub operation_id : Option String
    pub force_retry : Bool
    pub stake : Option Number
    pub odds : Option Number
    pub json : Value

  pub record CashOutPayload : Type 0 where
    pub account_id : Option String
    pub target_account : Option String
    pub idempotency_key : Option String
    pub operation_id : Option String
    pub force_retry : Bool
    pub json : Value

  -- A known operation is answered from the ledger; a denied one throws.
  pub data BetReply : Type 0 where
    duplicate : Status → Option Value → BetReply
    denied : Denial → BetReply
    dispatched : Dispatch → BetReply

  -- `betPayload.targetAccounts || (accountId ? [accountId] : [])`
  abbrev pub targets_of : BetPayload → List String
  targets_of p = elim p.target_accounts [ some ts ↦ ts | none ↦ listed p.account_id ]

  -- The answer to a key that the ledger knows, if it is one that ends the call.
  unfoldable pub duplicate_of : Bool → Check j → Option BetReply
  duplicate_of force_retry new = none
  duplicate_of force_retry (exists r) = elim r.status [
    | in_flight ↦ some (duplicate in_flight none)
    | completed ↦ some (duplicate completed r.cached_result)
    | uncertain ↦ some (duplicate uncertain r.cached_result)
    | failed ↦ if force_retry then none else some (duplicate failed r.cached_result)
  ]

  -- The first target that is frozen.
  unfoldable pub first_frozen : Manager j → List String → Option String
  first_frozen m [] = none
  first_frozen m (a ∷ rest) =
      let later = first_frozen m rest in
      if is_account_frozen j a m.reconciliation then some a else later

  -- The registration of an accepted operation, and its dispatch.
  unfoldable pub launch :
      Call
      → MessageType
      → String
      → String
      → Option String
      → List String
      → Value
      → Manager j
      → Manager j × BetReply
  launch c t key operation_id account_id targets json m =
      let l =
        (record_in_flight j c.now c.pruning c.inserting key operation_id json m.idempotency).0 in
      let entry : InFlight j = record {
        idempotency_key = key;
        account_id = account_id;
        target_accounts = targets;
        dispatched_at = c.now;
        payload = json;
      } in
      let (n, d) = dispatch_envelope j t c.options (record m {
        idempotency = l;
        in_flight_operations = set operation_id entry m.in_flight_operations;
      }) in
      (n, dispatched d)

  -- The checks of a bet that the ledger does not answer.
  unfoldable pub bet_denial : Option (List StoredAccount) → BetPayload → Manager j → Option Denial
  bet_denial store p m = elim (first_frozen m (targets_of p)) [
    | some a ↦ some (account_frozen a)
    | none ↦
        if are_all_excluded (targets_of p) store
        then some all_excluded
        else (if not (is_stake p.stake)
            then some invalid_stake
            else (if not (is_odds p.odds) then some invalid_odds else none))
  ]

  bet_unknown :
      Call
      → Option (List StoredAccount)
      → String
      → BetPayload
      → Manager j
      → Option Denial
      → Manager j × BetReply
  bet_unknown c store key p m (some e) = (m, denied e)
  bet_unknown c store key p m none =
      launch c place_bet_message key (operation_id_of c.stamp p.operation_id) p.account_id
        (targets_of p) p.json m

  bet_checked :
      Call
      → Option (List StoredAccount)
      → String
      → BetPayload
      → Manager j
      → Option BetReply
      → Manager j × BetReply
  unfolding bet_unknown
  bet_checked c store key p m (some r) = (m, r)
  bet_checked c store key p m none = bet_unknown c store key p m (bet_denial store p m)

  abbrev pub bet_key : Call → BetPayload → String
  bet_key c p = idempotency_key_of c.stamp p.idempotency_key p.operation_id

  -- `placeBet`. `store` lists the accounts of the state store, if there is one.
  unfoldable pub place_bet :
      Call → Option (List StoredAccount) → BetPayload → Manager j → Manager j × BetReply
  unfolding bet_checked
  place_bet c store p m =
      let (l, found) = check j c.now (bet_key c p) m.idempotency in
      if c.degraded
      then (m, denied system_degraded)
      else (if is_degraded m.watchdog
          then (m, denied watchdog_degraded)
          else bet_checked c store (bet_key c p) p (record m { idempotency = l })
              (duplicate_of p.force_retry found))

  abbrev pub cash_out_target : CashOutPayload → Option String
  cash_out_target p = first_text p.account_id p.target_account

  abbrev pub cash_out_key : Call → CashOutPayload → String
  cash_out_key c p = idempotency_key_of c.stamp p.idempotency_key p.operation_id

  cash_out_unknown :
      Call → String → CashOutPayload → Manager j → Option String → Manager j × BetReply
  cash_out_unknown c key p m (some a) = (m, denied (account_frozen a))
  cash_out_unknown c key p m none =
      launch c cash_out_message key (operation_id_of c.stamp p.operation_id) (cash_out_target p)
        (listed (cash_out_target p)) p.json m

  cash_out_checked :
      Call → String → CashOutPayload → Manager j → Option BetReply → Manager j × BetReply
  unfolding cash_out_unknown
  cash_out_checked c key p m (some r) = (m, r)
  cash_out_checked c key p m none =
      cash_out_unknown c key p m (first_frozen m (listed (cash_out_target p)))

  -- `cashOut`.
  unfoldable pub cash_out : Call → CashOutPayload → Manager j → Manager j × BetReply
  unfolding cash_out_checked
  cash_out c p m =
      let (l, found) = check j c.now (cash_out_key c p) m.idempotency in
      if c.degraded
      then (m, denied system_degraded)
      else (if is_degraded m.watchdog
          then (m, denied watchdog_degraded)
          else cash_out_checked c (cash_out_key c p) p (record m { idempotency = l })
              (duplicate_of p.force_retry found))
