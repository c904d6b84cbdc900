-- ===== src/Store/Tests.antt =====
-- The theorems on the notifications, at a fresh container and at a full one.
use betting_automation_contr.Prelude.{
  ℕ, zero, suc, ◌≤◌, true, false, not, none, some, List, [], ◌∷◌, String, ◌≡◌, ◌≢◌, refl, leb,
  length, eq_iff, arith,
}
use Prim.Native.String.{◌++◌ as text_append}
use betting_automation_contr.Prelude.Dict.{get, set}
use betting_automation_contr.Store.Notifications.{
  Notification, Incoming, Notifications, reset, insert_newest, newest_first, take, load, hydrate,
  record_of, add, mark_read,
}
use betting_automation_contr.Store.Unread.{unread}
use betting_automation_contr.Store.Bounded.{Reachable, start, more, added, marked, Reachable-unread}
use betting_automation_contr.Store.Sanitizer.{
  Data, text, object, end, field, is_forbidden, sanitized, sanitize, assert_zero_secrets,
}
use betting_automation_contr.Store.Secrets.{has_secret}
use betting_automation_contr.Store.Export.{sanitize_account_for_export}
use betting_automation_contr.Store.Exported.{IsSafe, export-IsSafe}
use betting_automation_contr.Store.Asserted.{sanitize-has_secret, assert_zero_secrets-has_secret}

abbrev alert : String → Incoming
alert id = record {
  id = some id;
  timestamp = some 5;
  severity = none;
  category = none;
  title = some "Alert";
  message = none;
  read = false;
  is_read = false;
  metadata = none;
}

named : (record_of 9 "9" (alert "b")).id ≢ ""
unfolding record_of
named = λ h. absurd (ground (arith, (eq_iff "b" "").1 h))

abbrev one_read : Notifications
one_read = (mark_read "b" (add 9 "9" (alert "b") reset)).0

reached : Reachable one_read
unfolding record_of get
reached = more (more start (added 9 "9" (alert "b") refl named)) (marked "b")

Reachable-unread_example :
    (one_read.unread_count ≡ unread one_read.notifications) × (length one_read.notifications ≤ 100)
Reachable-unread_example = Reachable-unread one_read reached

-- `n` notifications of the same time, with the ids "a", "aa" and so on.
unfoldable letters : ℕ → String
letters zero = ""
letters (suc n) = text_append "a" (letters n)

unfoldable many : ℕ → List Notification
unfolding letters
many zero = []
many (suc n) =
    record {
      id = letters (suc n);
      timestamp = 3;
      severity = "INFO";
      category = "SYSTEM";
      title = "";
      message = "";
      read = false;
      is_read = false;
      metadata = none;
    }
    ∷ many n

full_is_full : leb 100 (length (hydrate (many 100) none reset).notifications) ≡ true
unfolding hydrate load take newest_first insert_newest many letters set
full_is_full = refl

-- The first of them, and the others.
unfoldable newest : Notification
unfolding letters
newest = record {
  id = letters 100;
  timestamp = 3;
  severity = "INFO";
  category = "SYSTEM";
  title = "";
  message = "";
  read = false;
  is_read = false;
  metadata = none;
}

sorted : newest_first (many 100) ≡ newest ∷ many 99
unfolding newest newest_first insert_newest many letters
sorted = refl

newest_named : newest.id ≢ ""
unfolding newest letters
newest_named = λ h. absurd (ground (arith, (eq_iff newest.id "").1 h))

newest_other : (record_of 9 "9" (alert "b")).id ≢ newest.id
unfolding newest letters record_of
newest_other = λ h. absurd (ground (arith, (eq_iff "b" newest.id).1 h))

-- An account whose password stands in an inner object.
abbrev vault : Data
vault = object (field "password" (text "hunter2") end)

abbrev account : Data
account = object (field "user" (text "bob") (field "vault" vault end))

sanitize-has_secret_example :
    ((e : Data) × (sanitize false account ≡ sanitized e) × (has_secret e ≡ false))
    × (has_secret account ≡ false → sanitize false account ≡ sanitized account)
sanitize-has_secret_example = sanitize-has_secret account

assert_zero_secrets-has_secret_example : assert_zero_secrets account ≡ not (has_secret account)
assert_zero_secrets-has_secret_example = assert_zero_secrets-has_secret account

-- An account with a password, a token in its configuration and an array of accounts beside it.
abbrev secretive : Data
secretive = object (
    field "id" (text "acc") (
      field "accountPassword" (text "pass") (
        field "effectiveConfig" (object (field "token" (text "t") (field "stake" (text "5") end)))
          end)))

export-IsSafe_example : IsSafe (sanitize_account_for_export (λ n. "0") secretive)
unfolding is_forbidden
export-IsSafe_example = export-IsSafe (λ n. "0") (λ n. refl) secretive
