-- ===== src/Store/Accounts/Tests.antt =====
-- The theorems on the accounts, at one account that is stored and then updated.
use betting_automation_contr.Prelude.{
  ℕ, Option, none, some, [], ◌∷◌, String, ◌≡◌, refl, eq_iff, arith,
}
use betting_automation_contr.Prelude.Dict.{get, set}
use betting_automation_contr.Store.Passwords.{is_masked_password}
use betting_automation_contr.Store.Sanitizer.{sanitize, is_forbidden, object, field, text, end}
use betting_automation_contr.Store.Accounts.Container.{
  Account, AccountData, Accounts, reset, find_by_platform_and_username, account_record,
  store_account, upsert,
}
use betting_automation_contr.Store.Accounts.Changes.{RawAccount, hydrate_each, hydrate_accounts}
use betting_automation_contr.Store.Accounts.Runs.{
  Reachable, fresh, upserts, hydrates, alike_is_same,
}
use betting_automation_contr.Store.Accounts.Stored.{upsert-keeps_password}

abbrev as_is : String → String
as_is s = s

abbrev ada : Option String → AccountData ℕ as_is
ada password = record {
  id = some "acc";
  name = none;
  platform_id = none;
  platform_display_name = some "Bet9ja";
  account_username = "ada";
  account_password = password;
  backend_state = none;
  desired_state = none;
  observed_state = none;
  execution_status_reason = none;
  presentation_category = none;
  status_description = none;
  is_selectable = none;
  available_actions = none;
  pending_operation = none;
  tags = none;
  effective_config = some (object (field "token" (text "t") (field "stake" (text "5") end)));
  last_known_balance = some 9;
  currency_symbol = none;
  last_synchronization = none;
}

abbrev empty : Accounts ℕ as_is
empty = reset ℕ as_is "t0"

abbrev stored : Account ℕ as_is
stored = account_record ℕ as_is "t1" "new" "Bet9ja" (ada (some "pass")) none empty

abbrev one : Accounts ℕ as_is
one = (upsert ℕ as_is "t1" "new" (ada (some "pass")) (some 1) empty).0

abbrev again : Account ℕ as_is
again = account_record ℕ as_is "t2" "new" "Bet9ja" (ada (some "[PROTECTED]")) (some stored) one

new_is_named : ¬ (Path String "new" "")
new_is_named h = absurd (ground (arith, (eq_iff "new" "").1 h))

one-Reachable : Reachable ℕ as_is one
one-Reachable = upserts "t1" "new" (ada (some "pass")) (some 1) empty (fresh "t0") new_is_named

-- A hydration with the row of the account, whose password is masked.
abbrev row : RawAccount ℕ as_is
row = record {
  fields = record stored { account_password = "[PROTECTED]" };
  account_password = some "[PROTECTED]";
  password_column = none;
}

abbrev loaded : Accounts ℕ as_is
loaded = hydrate_accounts ℕ as_is "t3" (row ∷ []) none one

acc_is_named : ¬ (Path String "acc" "")
acc_is_named h = absurd (ground (arith, (eq_iff "acc" "").1 h))

loaded-Reachable : Reachable ℕ as_is loaded
unfolding account_record
loaded-Reachable = hydrates "t3" (row ∷ []) none one one-Reachable (acc_is_named, tt, tt)

alike_is_same_example : ◌≡◌ {A = String} "acc" "acc" × (stored ≡ stored)
unfolding reset upsert account_record find_by_platform_and_username store_account set get
    hydrate_accounts hydrate_each is_masked_password sanitize is_forbidden
alike_is_same_example =
    alike_is_same ℕ as_is refl loaded "acc" "acc" stored stored loaded-Reachable refl refl
      (refl, refl)

upsert-keeps_password_example : again.account_password ≡ stored.account_password
unfolding reset upsert account_record find_by_platform_and_username store_account set get
    is_masked_password
upsert-keeps_password_example =
    upsert-keeps_password ℕ as_is "t2" "new" "Bet9ja" "acc" (ada (some "[PROTECTED]")) none one
      stored again refl one-Reachable refl refl refl refl refl refl
