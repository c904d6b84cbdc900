-- ===== src/Store/Exported.antt =====
-- What `sanitizeAccountForExport` of src/state-store/validation/SanitizerGate.mjs lets out.
use betting_automation_contr.Prelude.{
  ℕ, ◌+◌, Bool, true, false, ◌&&◌, ◌||◌, List, [], ◌∷◌, any, String, ◌≡◌, refl, arith, str_eq,
  eq_iff, Bool-cases, inl, inr,
}
use betting_automation_contr.Store.Sanitizer.{
  Data, Items, Fields, null_value, undefined, truth, number, text, array, object, nil, cons, end,
  field, is_forbidden, forbidden_secret_keys, is_placeholder, placeholder, Outcome, sanitized,
  violation, and_then, push, as_array, sanitize, sanitize_fields, as_object,
}
use betting_automation_contr.Store.Secrets.{has_secret, has_secret_items, has_secret_fields}
use betting_automation_contr.Store.Asserted.{sanitize-has_secret}
use betting_automation_contr.Store.Export.{
  set_field, delete_field, delete_all, exported_without, spread, bare_config, strip_config, scrub,
  scrubbed, sanitize_account_for_export, export_items,
}

-- The object has a masked password.
unfoldable pub is_masked_in : Fields → Bool
is_masked_in end = false
is_masked_in (field k v fs) = (str_eq k "accountPassword" && is_placeholder v) || is_masked_in fs

-- Every account of exported data has a masked password.
unfoldable mutual
  unfolding is_masked_in

  pub is_masked : Data → Bool
  is_masked (array xs) = are_masked xs
  is_masked (object fs) = is_masked_in fs
  is_masked d = true

  pub are_masked : Items → Bool
  are_masked nil = true
  are_masked (cons x xs) = is_masked x && are_masked xs

delete_field-has_secret :
    (k : String) (fs : Fields)
    → has_secret_fields fs ≡ false
    → has_secret_fields (delete_field k fs) ≡ false
unfolding delete_field has_secret_fields
delete_field-has_secret k end h = h
delete_field-has_secret k (field j v fs) h = ground (arith, h, delete_field-has_secret k fs)

delete_all-has_secret :
    (ks : List String) (fs : Fields)
    → has_secret_fields fs ≡ false
    → has_secret_fields (delete_all ks fs) ≡ false
unfolding delete_all
delete_all-has_secret [] fs h = h
delete_all-has_secret (k ∷ ks) fs h =
    delete_all-has_secret ks (delete_field k fs) (delete_field-has_secret k fs h)

set_field-has_secret :
    (fs : Fields)
    → has_secret_fields fs ≡ false
    → has_secret_fields (set_field "accountPassword" placeholder fs) ≡ false
unfolding set_field has_secret_fields has_secret
set_field-has_secret end h =
    ground (arith, eq_iff "accountPassword" "accountPassword", eq_iff "[PROTECTED]" "[PROTECTED]")
set_field-has_secret (field j v fs) h =
    ground (arith, h, set_field-has_secret fs, eq_iff "[PROTECTED]" "[PROTECTED]")

set_field-is_masked :
    (fs : Fields) → is_masked_in (set_field "accountPassword" placeholder fs) ≡ true
unfolding set_field is_masked_in
set_field-is_masked end = refl
set_field-is_masked (field j v fs) =
    ground (arith, set_field-is_masked fs, eq_iff "[PROTECTED]" "[PROTECTED]")

delete_field-is_masked :
    (k : String) (fs : Fields)
    → str_eq k "accountPassword" ≡ false
    → is_masked_in fs ≡ true
    → is_masked_in (delete_field k fs) ≡ true
unfolding delete_field is_masked_in
delete_field-is_masked k end ne h = h
delete_field-is_masked k (field j v fs) ne h = ground (
  arith,
  ne,
  h,
  delete_field-is_masked k fs ne,
  eq_iff j k,
  eq_iff k "accountPassword",
  eq_iff j "accountPassword",
)

delete_all-is_masked :
    (ks : List String) (fs : Fields)
    → any (λ k. str_eq k "accountPassword") ks ≡ false
    → is_masked_in fs ≡ true
    → is_masked_in (delete_all ks fs) ≡ true
unfolding delete_all
delete_all-is_masked [] fs a h = h
delete_all-is_masked (k ∷ ks) fs a h =
    delete_all-is_masked ks (delete_field k fs) (ground (arith, a))
      (delete_field-is_masked k fs (ground (arith, a)) h)

exported_without-others : any (λ k. str_eq k "accountPassword") exported_without ≡ false
unfolding exported_without
exported_without-others = refl

config_free : is_forbidden "effectiveConfig" ≡ false
unfolding is_forbidden forbidden_secret_keys
config_free = refl

-- What is let out.
abbrev pub IsSafe : Outcome Data → Type 0
IsSafe o = (e : Data) × (o ≡ sanitized e) × (has_secret e ≡ false) × (is_masked e ≡ true)

abbrev AreSafe : Outcome Items → Type 0
AreSafe o = (e : Items) × (o ≡ sanitized e) × (has_secret_items e ≡ false) × (are_masked e ≡ true)

module _ (index : ℕ → String) (index_free : (n : ℕ) → is_forbidden (index n) ≡ false) where
  spread-has_secret :
      (n : ℕ) (xs : Items)
      → has_secret_items xs ≡ false
      → has_secret_fields (spread index n xs) ≡ false
  unfolding spread has_secret_items has_secret_fields
  spread-has_secret n nil h = refl
  spread-has_secret n (cons x xs) h = ground (arith, h, index_free n, spread-has_secret (n + 1) xs)

  bare_config-has_secret :
      (d : Data) → has_secret d ≡ false → has_secret (bare_config index d) ≡ false
  unfolding bare_config has_secret
  bare_config-has_secret (object fs) h = delete_all-has_secret forbidden_secret_keys fs h
  bare_config-has_secret (array xs) h =
      delete_all-has_secret forbidden_secret_keys (spread index 0 xs) (spread-has_secret 0 xs h)
  bare_config-has_secret null_value h = h
  bare_config-has_secret undefined h = h
  bare_config-has_secret (truth b) h = h
  bare_config-has_secret (number n) h = h
  bare_config-has_secret (text s) h = h

  strip_config-has_secret :
      (fs : Fields)
      → has_secret_fields fs ≡ false
      → has_secret_fields (strip_config index fs) ≡ false
  unfolding strip_config has_secret_fields
  strip_config-has_secret end h = h
  strip_config-has_secret (field k v fs) h = elim (Bool-cases (str_eq k "effectiveConfig")) [
    | inl same ↦
        let k_eq : k ≡ "effectiveConfig" = (eq_iff k "effectiveConfig").0 same in
        let free : is_forbidden k ≡ false = rw k_eq config_free in
        rw same (ground (arith, h, free, bare_config-has_secret v (ground (arith, h))))
    | inr other ↦ rw other (ground (arith, h, strip_config-has_secret fs (ground (arith, h))))
  ]

  strip_config-is_masked :
      (fs : Fields) → is_masked_in fs ≡ true → is_masked_in (strip_config index fs) ≡ true
  unfolding strip_config is_masked_in
  strip_config-is_masked end h = h
  strip_config-is_masked (field k v fs) h = elim (Bool-cases (str_eq k "effectiveConfig")) [
    | inl same ↦
        let k_eq : k ≡ "effectiveConfig" = (eq_iff k "effectiveConfig").0 same in
        let no_password : str_eq k "accountPassword" ≡ false = rw k_eq refl in
        rw (same, no_password) (ground (arith, h, no_password))
    | inr other ↦ rw other (ground (arith, h, strip_config-is_masked fs))
  ]

  scrub_lem :
      (fs : Fields)
      → has_secret_fields fs ≡ false
      → (has_secret_fields (scrub index fs) ≡ false) × (is_masked_in (scrub index fs) ≡ true)
  unfolding scrub
  scrub_lem fs h =
      let named = set_field "accountPassword" placeholder fs in
      (
        strip_config-has_secret (delete_all exported_without named)
            (delete_all-has_secret exported_without named (set_field-has_secret fs h)),
        strip_config-is_masked (delete_all exported_without named) (
            delete_all-is_masked exported_without named exported_without-others
              (set_field-is_masked fs)),
      )

  as_array-IsSafe : (o : Outcome Items) → AreSafe o → IsSafe (as_array o)
  unfolding has_secret is_masked
  as_array-IsSafe o (e, done, clean, masked) = (array e, rw done refl, clean, masked)

  push-AreSafe :
      (o : Outcome Data) (rest : Outcome Items)
      → IsSafe o
      → AreSafe rest
      → AreSafe (and_then o (λ y. push y rest))
  unfolding has_secret_items are_masked
  push-AreSafe o rest (e, done, clean, masked) (f, end_, fine, all) =
      (cons e f, rw (done, end_) refl, ground (arith, clean, fine), ground (arith, masked, all))

  fields-IsSafe :
      (o : Outcome Fields) (e : Data)
      → as_object o ≡ sanitized e
      → has_secret e ≡ false
      → IsSafe (scrubbed index (as_object o))
  unfolding has_secret is_masked
  fields-IsSafe (sanitized fs) e done clean =
      let fine : has_secret (object fs) ≡ false = ground (arith, done, clean) in
      let (bare, masked) = scrub_lem fs fine in (object (scrub index fs), refl, bare, masked)
  fields-IsSafe (violation k) e done clean = absurd (ground (arith, done))

  object-IsSafe : (fs : Fields) → IsSafe (scrubbed index (sanitize false (object fs)))
  unfolding sanitize
  object-IsSafe fs =
      let (e, done, clean) = (sanitize-has_secret (object fs)).0 in
      fields-IsSafe (sanitize_fields false fs) e done clean

  mutual
    unfolding sanitize_account_for_export has_secret is_masked

    exported_safely : (d : Data) → IsSafe (sanitize_account_for_export index d)
    exported_safely (array xs) = as_array-IsSafe (export_items index xs) (items_safely xs)
    exported_safely (object fs) = object-IsSafe fs
    exported_safely null_value = (null_value, refl, refl, refl)
    exported_safely undefined = (undefined, refl, refl, refl)
    exported_safely (truth b) = (truth b, refl, refl, refl)
    exported_safely (number n) = (number n, refl, refl, refl)
    exported_safely (text t) = (text t, refl, refl, refl)

    items_safely : (xs : Items) → AreSafe (export_items index xs)
    items_safely nil = (nil, refl, refl, refl)
    items_safely (cons x xs) =
        push-AreSafe (sanitize_account_for_export index x) (export_items index xs)
          (exported_safely x) (items_safely xs)

  -- An export returns for all data, and lets no secret out: no forbidden key at any depth but for
  -- a password that is masked, and every account of it has a masked password. The text of an
  -- index is no forbidden key.
  pub export-IsSafe : (d : Data) → IsSafe (sanitize_account_for_export index d)
  export-IsSafe d = exported_safely d
