-- ===== src/Store/Accounts/Runs.antt =====
-- Runs of src/state-store/memory/AccountsContainer.mjs from its start.
use betting_automation_contr.Prelude.{
  ℕ, List, refl, Option, some, String, ◌≡◌, ◌≢◌, arith, Bool-cases, inl, inr, first_text,
}
use betting_automation_contr.Prelude.Dict.{get}
use betting_automation_contr.Store.Accounts.Container.{
  StateUpdate, Account, AccountData, Accounts, reset, is_stale_call, upsert,
}
use betting_automation_contr.Store.Accounts.Changes.{
  update_execution_state, reset_observed_states, delete_account, update_balance,
  mark_balances_stale, RawAccount, hydrate_accounts,
}
use betting_automation_contr.Store.Accounts.Hydrated.{AreApart, hydrate_accounts-IsSound}
use betting_automation_contr.Store.Accounts.Unique.{AreAlike}
use betting_automation_contr.Store.Accounts.Sound.{IsSound, reset-IsSound, upsert_at-IsSound}
use betting_automation_contr.Store.Accounts.Kept.{
  update_execution_state-IsSound, reset_observed_states-IsSound, delete_account-IsSound,
  mark_balances_stale-IsSound, update_balance-IsSound,
}

module _ (Amount : Type 0) (lower : String → String) where
  -- The containers that calls lead to. A new id is not empty, and the rows of a hydration are
  -- apart.
  pub data Reachable : Accounts Amount lower → Type 0 where
    fresh : (now : String) → Reachable (reset Amount lower now)
    upserts :
        (now new : String) (d : AccountData Amount lower) (expected : Option ℕ)
        (c : Accounts Amount lower)
        → Reachable c
        → new ≢ ""
        → Reachable (upsert Amount lower now new d expected c).0
    changes :
        (now id : String) (u : StateUpdate) (expected : Option ℕ) (c : Accounts Amount lower)
        → Reachable c
        → Reachable (update_execution_state Amount lower now id u expected c).0
    stops :
        (now reason : String) (c : Accounts Amount lower)
        → Reachable c
        → Reachable (reset_observed_states Amount lower now reason c)
    deletes :
        (now id : String) (expected : Option ℕ) (c : Accounts Amount lower)
        → Reachable c
        → Reachable (delete_account Amount lower now id expected c).0
    prices :
        (now id : String) (amount : Amount) (symbol : Option String) (c : Accounts Amount lower)
        → Reachable c
        → Reachable (update_balance Amount lower now id amount symbol c).0
    hydrates :
        (now : String) (rows : List (RawAccount Amount lower)) (revision : Option ℕ)
        (c : Accounts Amount lower)
        → Reachable c
        → AreApart Amount lower rows
        → Reachable (hydrate_accounts Amount lower now rows revision c)
    ages :
        (c : Accounts Amount lower) → Reachable c → Reachable (mark_balances_stale Amount lower c)

module _ (Amount : Type 0) (lower : String → String) (lower_empty : lower "" ≡ "") where
  pub upsert-IsSound :
      (now new : String) (d : AccountData Amount lower) (expected : Option ℕ)
      (c : Accounts Amount lower)
      → new ≢ ""
      → IsSound Amount lower c
      → IsSound Amount lower (upsert Amount lower now new d expected c).0
  unfolding upsert
  upsert-IsSound now new d expected c named s =
      elim (Bool-cases (is_stale_call Amount lower expected c)) [
        | inl e ↦ rw (upsert, e) s
        | inr e ↦
            rw (upsert, e)
              (upsert_at-IsSound Amount lower lower_empty now new d
                (first_text d.platform_display_name d.platform_id) c refl named s)
      ]

  pub Reachable-IsSound :
      (c : Accounts Amount lower) → Reachable Amount lower c → IsSound Amount lower c
  Reachable-IsSound c (fresh now) = reset-IsSound Amount lower now
  Reachable-IsSound c (upserts now new d expected b r named) =
      upsert-IsSound now new d expected b named (Reachable-IsSound b r)
  Reachable-IsSound c (changes now id u expected b r) =
      update_execution_state-IsSound Amount lower now id u expected b (Reachable-IsSound b r)
  Reachable-IsSound c (stops now reason b r) =
      reset_observed_states-IsSound Amount lower now reason b (Reachable-IsSound b r)
  Reachable-IsSound c (deletes now id expected b r) =
      delete_account-IsSound Amount lower now id expected b (Reachable-IsSound b r)
  Reachable-IsSound c (prices now id amount symbol b r) =
      update_balance-IsSound Amount lower now id amount symbol b (Reachable-IsSound b r)
  Reachable-IsSound c (hydrates now rows revision b r apart) =
      hydrate_accounts-IsSound Amount lower now rows revision b apart
  Reachable-IsSound c (ages b r) =
      mark_balances_stale-IsSound Amount lower b (Reachable-IsSound b r)

  -- In every container that calls lead to, hydrations included, two accounts of one platform and
  -- one user, up to the case of letters, are the same account. Every generated id is not empty, the
  -- rows of a hydration have ids that are not empty and one id where they have one platform and
  -- user, and the lower case of the empty text is empty.
  pub alike_is_same :
      (c : Accounts Amount lower) (i j : String) (a b : Account Amount lower)
      → Reachable Amount lower c
      → get i c.accounts ≡ some a
      → get j c.accounts ≡ some b
      → AreAlike Amount lower a b
      → (i ≡ j) × (a ≡ b)
  alike_is_same c i j a b r at_i at_j alike =
      let i_eq = (Reachable-IsSound c r).unique i j a b at_i at_j alike in
      (i_eq, ground (arith, at_i, at_j, i_eq))
