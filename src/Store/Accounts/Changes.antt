-- ===== src/Store/Accounts/Changes.antt =====
-- src/state-store/memory/AccountsContainer.mjs: the operations on stored accounts, and the
-- hydration. The rows of a hydration have every field of an account.
use betting_automation_contr.Prelude.{
  ℕ, ◌+◌, Bool, true, false, Option, none, some, List, [], ◌∷◌, String, str_eq, or_text, or_else,
  if◌then◌else◌,
}
use betting_automation_contr.Prelude.Dict.{Dict, get, set, delete, has}
use betting_automation_contr.Store.Passwords.{is_masked_password}
use betting_automation_contr.Store.Accounts.Container.{
  StateUpdate, Guarded, accepted, conflict, Account, Balance, Accounts, cleaned, is_stale_call,
  find_in, platform_key, user_key, fresh_balance, kept_password,
}

module _ (Amount : Type 0) (lower : String → String) where
  abbrev pub updated : String → StateUpdate → Account Amount lower → Account Amount lower
  updated now u a = record a {
    desired_state = or_else u.desired_state a.desired_state;
    observed_state = or_else u.observed_state a.observed_state;
    execution_status_reason = elim u.execution_status_reason [
      | none ↦ a.execution_status_reason
      | some reason ↦ some reason
    ];
    last_updated = now;
  }

  abbrev pub update_found :
      String
      → String
      → StateUpdate
      → Option (Account Amount lower)
      → Accounts Amount lower
      → Accounts Amount lower × Guarded (Option (Account Amount lower))
  update_found now id u none c = (c, accepted none)
  update_found now id u (some a) c = (
    record c {
      accounts = set id (updated now u a) c.accounts;
      revision = c.revision + 1;
      last_updated = now;
    },
    accepted (some (updated now u a)),
  )

  -- `updateExecutionState`.
  unfoldable pub update_execution_state :
      String
      → String
      → StateUpdate
      → Option ℕ
      → Accounts Amount lower
      → Accounts Amount lower × Guarded (Option (Account Amount lower))
  update_execution_state now id u expected c = elim (is_stale_call Amount lower expected c) [
    | true ↦ (c, conflict (or_else expected 0) c.revision)
    | false ↦ update_found now id u (get id c.accounts) c
  ]

  abbrev pub stopped : String → String → Account Amount lower → Account Amount lower
  stopped now reason a = record a {
    observed_state = "STOPPED";
    execution_status_reason = some reason;
    last_updated = now;
  }

  -- The loop writes each entry in its place.
  unfoldable pub stop_each :
      String → String → Dict (Account Amount lower) → Dict (Account Amount lower)
  stop_each now reason [] = []
  stop_each now reason ((id, a) ∷ rest) = (id, stopped now reason a) ∷ stop_each now reason rest

  -- `resetObservedStatesOnBoot`, and its alias `resetObservedStates`.
  unfoldable pub reset_observed_states :
      String → String → Accounts Amount lower → Accounts Amount lower
  reset_observed_states now reason c = record c {
    accounts = stop_each now reason c.accounts;
    revision = c.revision + 1;
    last_updated = now;
  }

  -- `delete`.
  unfoldable pub delete_account :
      String → String → Option ℕ → Accounts Amount lower → Accounts Amount lower × Guarded Bool
  delete_account now id expected c = elim (is_stale_call Amount lower expected c) [
    | true ↦ (c, conflict (or_else expected 0) c.revision)
    | false ↦
        if has id c.accounts
        then (
          record c {
            accounts = delete id c.accounts;
            balances = delete id c.balances;
            revision = c.revision + 1;
            last_updated = now;
          },
          accepted true,
        )
        else (c, accepted false)
  ]

  abbrev pub live_balance : String → Amount → Option String → Balance Amount lower
  live_balance now amount symbol = record {
    balance = amount;
    currency_symbol = or_else symbol "₦";
    last_updated = now;
    is_stale = false;
  }

  -- `updateBalance`. The revision does not change.
  unfoldable pub update_balance :
      String
      → String
      → Amount
      → Option String
      → Accounts Amount lower
      → Accounts Amount lower × Bool
  update_balance now id amount symbol c =
      if has id c.accounts
      then (
        record c {
          balances = set id (live_balance now amount symbol) c.balances;
          last_updated = now;
        },
        true,
      )
      else (c, false)

  unfoldable pub stale_each : Dict (Balance Amount lower) → Dict (Balance Amount lower)
  stale_each [] = []
  stale_each ((id, b) ∷ rest) = (id, record b { is_stale = true }) ∷ stale_each rest

  -- `markBalancesStale`.
  unfoldable pub mark_balances_stale : Accounts Amount lower → Accounts Amount lower
  mark_balances_stale c = record c { balances = stale_each c.balances }

  -- A row of `accountsList`: its fields, and its password under both names.
  pub record RawAccount : Type 0 where
    pub fields : Account Amount lower
    pub account_password : Option String
    pub password_column : Option String

  -- `existing` of the loop.
  abbrev pub known_account :
      Account Amount lower → Dict (Account Amount lower) → Option (Account Amount lower)
  known_account a old = elim (get a.id old) [
    | some known ↦ some known
    | none ↦
        if str_eq a.account_username ""
        then none
        else find_in Amount lower (platform_key Amount lower a) (user_key Amount lower a) old
  ]

  abbrev pub raw_password : RawAccount → Option (Account Amount lower) → String
  raw_password r known = elim (is_masked_password r.account_password) [
    | false ↦ or_else r.account_password "[PROTECTED]"
    | true ↦ elim (is_masked_password r.password_column) [
      | false ↦ or_else r.password_column "[PROTECTED]"
      | true ↦ kept_password Amount lower known
    ]
  ]

  abbrev pub hydrated : Dict (Account Amount lower) → RawAccount → Account Amount lower
  hydrated old r = record (r.fields) {
    account_password = raw_password r (known_account r.fields old);
    effective_config = cleaned r.fields.effective_config;
    pending_operation = cleaned r.fields.pending_operation;
  }

  abbrev pub hydrated_balance :
      String → Account Amount lower → Dict (Balance Amount lower) → Dict (Balance Amount lower)
  hydrated_balance now a balances = elim a.last_known_balance [
    | none ↦ balances
    | some b ↦
        set a.id (fresh_balance Amount lower (or_text (some a.last_updated) now) a b) balances
  ]

  unfoldable pub hydrate_each :
      String
      → Dict (Account Amount lower)
      → List RawAccount
      → Accounts Amount lower
      → Accounts Amount lower
  hydrate_each now old [] c = c
  hydrate_each now old (r ∷ rs) c =
      let a = hydrated old r in
      hydrate_each now old rs (record c {
        accounts = set a.id a c.accounts;
        balances = hydrated_balance now a c.balances;
      })

  -- `hydrate`.
  unfoldable pub hydrate_accounts :
      String → List RawAccount → Option ℕ → Accounts Amount lower → Accounts Amount lower
  hydrate_accounts now rows revision c =
      let filled = hydrate_each now c.accounts rows (record c { accounts = [] }) in
      record filled { revision = or_else revision (c.revision + 1); last_updated = now }
