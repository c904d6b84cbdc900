-- ===== src/Store/Export.antt =====
-- src/state-store/validation/SanitizerGate.mjs: `sanitizeAccountForExport`. `index` stands for the
-- text of a number, as the spread of an array into an object uses it.
use betting_automation_contr.Prelude.{ℕ, ◌+◌, false, List, [], ◌∷◌, String, str_eq, if◌then◌else◌}
use betting_automation_contr.Store.Sanitizer.{
  Data, Items, Fields, array, object, nil, cons, end, field, forbidden_secret_keys, placeholder,
  Outcome, sanitized, violation, and_then, push, as_array, sanitize,
}

-- An assignment to a field of an object, and the deletion of one.
unfoldable pub set_field : String → Data → Fields → Fields
set_field k v end = field k v end
set_field k v (field j w fs) = if str_eq j k then field j v fs else field j w (set_field k v fs)

unfoldable pub delete_field : String → Fields → Fields
delete_field k end = end
delete_field k (field j w fs) =
    let rest = delete_field k fs in if str_eq j k then rest else field j w rest

unfoldable pub delete_all : List String → Fields → Fields
delete_all [] fs = fs
delete_all (k ∷ ks) fs = delete_all ks (delete_field k fs)

-- The keys that the function deletes from the account itself.
unfoldable pub exported_without : List String
exported_without =
    "password" ∷ "rawPassword" ∷ "cookies" ∷ "cookie" ∷ "credentials" ∷ "credential" ∷ "privateKey"
    ∷ "private_key" ∷ "session_token" ∷ "sessionToken" ∷ "token" ∷ "jwt" ∷ "refreshToken" ∷ "secret"
    ∷ "secretKey" ∷ "proxyPassword" ∷ "proxyAuth" ∷ "cardToken" ∷ "cvv" ∷ "authorizationCode" ∷ []

module _ (index : ℕ → String) where
  -- The fields of `{ ...xs }` for an array, from an index on.
  unfoldable pub spread : ℕ → Items → Fields
  spread n nil = end
  spread n (cons x xs) = field (index n) x (spread (n + 1) xs)

  -- The configuration of an account: a copy without the forbidden keys.
  unfoldable pub bare_config : Data → Data
  unfolding forbidden_secret_keys
  bare_config (object fs) = object (delete_all forbidden_secret_keys fs)
  bare_config (array xs) = object (delete_all forbidden_secret_keys (spread 0 xs))
  bare_config d = d

  unfoldable pub strip_config : Fields → Fields
  strip_config end = end
  strip_config (field k v fs) =
      if str_eq k "effectiveConfig" then field k (bare_config v) fs else field k v (strip_config fs)

  -- What the function makes of the sanitized fields of an account.
  unfoldable pub scrub : Fields → Fields
  unfolding strip_config exported_without
  scrub fs = strip_config (delete_all exported_without (set_field "accountPassword" placeholder fs))

  abbrev pub scrubbed : Outcome Data → Outcome Data
  scrubbed (sanitized (object fs)) = sanitized (object (scrub fs))
  scrubbed (sanitized d) = sanitized d
  scrubbed (violation k) = violation k

unfoldable mutual
  unfolding sanitize

  -- `sanitizeAccountForExport`.
  pub sanitize_account_for_export : (ℕ → String) → Data → Outcome Data
  sanitize_account_for_export index (array xs) = as_array (export_items index xs)
  sanitize_account_for_export index (object fs) = scrubbed index (sanitize false (object fs))
  sanitize_account_for_export index d = sanitized d

  pub export_items : (ℕ → String) → Items → Outcome Items
  export_items index nil = sanitized nil
  export_items index (cons x xs) =
      and_then (sanitize_account_for_export index x) (λ y. push y (export_items index xs))
