-- ===== src/Store/Accounts/Container.antt =====
-- src/state-store/memory/AccountsContainer.mjs: the container and its operations. `lower` stands
-- for `toLowerCase`, and `Amount` for the numbers of a balance, none of which is `NaN`. A time and
-- a new id are arguments. A configuration and a pending operation are objects: of the other fields
-- `SanitizerGate.sanitize` changes only the password, which the record does not take from it.
use betting_automation_contr.Prelude.{
  ℕ, ◌+◌, Bool, true, false, not, ◌&&◌, Option, none, some, List, [], ◌∷◌, String, str_eq, or_text,
  or_else, first_text, ◌==◌, if◌then◌else◌,
}
use betting_automation_contr.Prelude.Dict.{Dict, get, set}
use betting_automation_contr.Store.Sanitizer.{Data, Outcome, sanitized, violation, sanitize}
use betting_automation_contr.Store.Passwords.{is_masked_password}

-- A changed state of an account, as `updateExecutionState` gets it.
pub record StateUpdate : Type 0 where
  pub desired_state : Option String
  pub observed_state : Option String
  pub execution_status_reason : Option String

-- What a call with an expected revision gives: its answer, or one of its exceptions.
pub data Guarded (A : Type 0) : Type 0 where
  accepted : A → Guarded A
  conflict : ℕ → ℕ → Guarded A
  duplicate missing_platform : Guarded A

-- `SanitizerGate.sanitize` of a field; without `throwOnDetection` it always returns.
abbrev pub after_gate : Outcome Data → Option Data
after_gate (sanitized e) = some e
after_gate (violation k) = none

abbrev pub cleaned : Option Data → Option Data
cleaned none = none
cleaned (some v) = after_gate (sanitize false v)

module _ (Amount : Type 0) (lower : String → String) where
  -- An account of `_accounts`.
  pub record Account : Type 0 where
    pub id : String
    pub name : String
    pub platform_id : String
    pub platform_display_name : String
    pub account_username : String
    pub account_password : String
    pub backend_state : String
    pub desired_state : String
    pub observed_state : String
    pub execution_status_reason : Option String
    pub presentation_category : String
    pub status_description : String
    pub is_selectable : Bool
    pub available_actions : List String
    pub pending_operation : Option Data
    pub tags : List String
    pub effective_config : Option Data
    pub last_known_balance : Option Amount
    pub currency_symbol : String
    pub last_updated : String
    pub last_synchronization : String

  -- `accountData` of `upsert`.
  pub record AccountData : Type 0 where
    pub id : Option String
    pub name : Option String
    pub platform_id : Option String
    pub platform_display_name : Option String
    pub account_username : String
    pub account_password : Option String
    pub backend_state : Option String
    pub desired_state : Option String
    pub observed_state : Option String
    pub execution_status_reason : Option String
    pub presentation_category : Option String
    pub status_description : Option String
    pub is_selectable : Option Bool
    pub available_actions : Option (List String)
    pub pending_operation : Option Data
    pub tags : Option (List String)
    pub effective_config : Option Data
    pub last_known_balance : Option Amount
    pub currency_symbol : Option String
    pub last_synchronization : Option String

  -- A value of `_balances`.
  pub record Balance : Type 0 where
    pub balance : Amount
    pub currency_symbol : String
    pub last_updated : String
    pub is_stale : Bool

  -- `AccountsContainer`.
  pub record Accounts : Type 0 where
    pub accounts : Dict Account
    pub balances : Dict Balance
    pub revision : ℕ
    pub last_updated : String

  -- `reset`, and the constructor.
  unfoldable pub reset : String → Accounts
  reset now = record { accounts = []; balances = []; revision = 1; last_updated = now }

  -- The two texts by which an account is unique.
  abbrev pub platform_key : Account → String
  platform_key a = lower (or_text (some a.platform_display_name) a.platform_id)

  abbrev pub user_key : Account → String
  user_key a = lower a.account_username

  unfoldable pub find_in : String → String → Dict Account → Option Account
  find_in p u [] = none
  find_in p u ((k, a) ∷ rest) =
      let later = find_in p u rest in
      if str_eq (platform_key a) p && str_eq (user_key a) u then some a else later

  -- `findByPlatformAndUsername`.
  unfoldable pub find_by_platform_and_username : String → String → Accounts → Option Account
  unfolding find_in
  find_by_platform_and_username platform username c =
      find_in (lower platform) (lower username) c.accounts

  -- `getBalance`. `zero` is the number 0.
  unfoldable pub get_balance : Amount → String → Accounts → Balance
  get_balance zero_amount id c = or_else (get id c.balances) (record {
    balance = zero_amount;
    currency_symbol = "₦";
    last_updated = c.last_updated;
    is_stale = true;
  })

  -- The test of the expected revision at the start of a call.
  abbrev pub is_stale_call : Option ℕ → Accounts → Bool
  is_stale_call none c = false
  is_stale_call (some expected) c = not (expected == c.revision)

  -- The password of an account that the call found, unless it is masked.
  abbrev pub kept_password : Option Account → String
  kept_password none = "[PROTECTED]"
  kept_password (some a) =
      if is_masked_password (some a.account_password) then "[PROTECTED]" else a.account_password

  abbrev pub new_password : AccountData → Option Account → String
  new_password d old = elim (is_masked_password d.account_password) [
    | true ↦ kept_password old
    | false ↦ or_else d.account_password "[PROTECTED]"
  ]

  -- `existing || existingById`.
  abbrev pub existing_record : AccountData → Option Account → Accounts → Option Account
  existing_record d (some a) c = some a
  existing_record d none c = elim d.id [
    | none ↦ none
    | some i ↦ if str_eq i "" then none else get i c.accounts
  ]

  abbrev pub config_of : Option Account → Option Data
  config_of none = none
  config_of (some a) = a.effective_config

  abbrev pub balance_of : Option Account → Option Amount
  balance_of none = none
  balance_of (some a) = a.last_known_balance

  abbrev pub symbol_of : Option Account → Option String
  symbol_of none = none
  symbol_of (some a) = some a.currency_symbol

  abbrev pub either {ℓ} : {A : Type ℓ} → Option A → Option A → Option A
  either none b = b
  either (some a) b = some a

  -- The record that `upsert` stores. `found` is the account of this platform and user.
  unfoldable pub account_record :
      String → String → String → AccountData → Option Account → Accounts → Account
  account_record now fresh platform d found c = record {
    id = or_text d.id fresh;
    name = or_text d.name d.account_username;
    platform_id = or_text d.platform_id (lower platform);
    platform_display_name = or_text d.platform_display_name platform;
    account_username = d.account_username;
    account_password = new_password d (existing_record d found c);
    backend_state = or_text d.backend_state "ACTIVE";
    desired_state = or_text d.desired_state "STOPPED";
    observed_state = or_text d.observed_state "STOPPED";
    execution_status_reason = first_text d.execution_status_reason none;
    presentation_category = or_text d.presentation_category "Healthy";
    status_description = or_text d.status_description "Active & Synchronized";
    is_selectable = or_else d.is_selectable true;
    available_actions = or_else d.available_actions ("ACTIVATE" ∷ "DEACTIVATE" ∷ "DELETE" ∷ []);
    pending_operation = cleaned d.pending_operation;
    tags = or_else d.tags [];
    effective_config = either (cleaned d.effective_config) (config_of found);
    last_known_balance = either d.last_known_balance (balance_of found);
    currency_symbol = or_text d.currency_symbol (or_text (symbol_of found) "₦");
    last_updated = now;
    last_synchronization = or_text d.last_synchronization now;
  }

  abbrev pub fresh_balance : String → Account → Amount → Balance
  fresh_balance now a b = record {
    balance = b;
    currency_symbol = or_text (some a.currency_symbol) "₦";
    last_updated = now;
    is_stale = false;
  }

  abbrev pub with_balance : String → Account → Dict Balance → Dict Balance
  with_balance now a balances = elim a.last_known_balance [
    | none ↦ balances
    | some b ↦ set a.id (fresh_balance now a b) balances
  ]

  unfoldable pub store_account : String → Account → Accounts → Accounts × Guarded Account
  store_account now a c = (
    record c {
      accounts = set a.id a c.accounts;
      balances = with_balance now a c.balances;
      revision = c.revision + 1;
      last_updated = now;
    },
    accepted a,
  )

  -- An account of the same platform and user has another id.
  abbrev pub is_other : AccountData → Option Account → Bool
  is_other d none = false
  is_other d (some a) = elim d.id [ none ↦ true | some i ↦ not (str_eq a.id i) ]

  abbrev pub upsert_at :
      String → String → AccountData → Option String → Accounts → Accounts × Guarded Account
  upsert_at now fresh d none c = (c, missing_platform)
  upsert_at now fresh d (some platform) c =
      let found = find_by_platform_and_username platform d.account_username c in
      if is_other d found
      then (c, duplicate)
      else store_account now (account_record now fresh platform d found c) c

  -- `upsert`. The revision that it returns is the one of the container after it.
  unfoldable pub upsert :
      String → String → AccountData → Option ℕ → Accounts → Accounts × Guarded Account
  upsert now fresh d expected c = elim (is_stale_call expected c) [
    | true ↦ (c, conflict (or_else expected 0) c.revision)
    | false ↦ upsert_at now fresh d (first_text d.platform_display_name d.platform_id) c
  ]
