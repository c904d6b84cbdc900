-- ===== src/Store/Asserted.antt =====
-- When `sanitize` and `assertZeroSecrets` of src/state-store/validation/SanitizerGate.mjs return.
use betting_automation_contr.Prelude.{
  Bool, true, false, not, ◌&&◌, ◌||◌, Bool-cases, String, ◌≡◌, ◌∙◌, inl, inr, refl, arith,
  if◌then◌else◌,
}
use betting_automation_contr.Store.Sanitizer.{
  Data, Items, Fields, null_value, undefined, truth, number, text, array, object, nil, cons, end,
  field, is_forbidden, placeholder, Outcome, sanitized, violation, and_then, keep, push, as_array,
  as_object, one_field, sanitize, sanitize_items, sanitize_fields, assert_zero_secrets,
}
use betting_automation_contr.Store.Secrets.{
  discloses, has_secret, has_secret_items, has_secret_fields, placeholder-eq, clean_passes,
  sanitize-Holds,
}

-- Whether a call returns.
abbrev pub returns : {A : Type 0} → Outcome A → Bool
returns (sanitized a) = true
returns (violation k) = false

returns-sanitized : {A : Type 0} (o : Outcome A) → returns o ≡ true → (a : A) × (o ≡ sanitized a)
returns-sanitized (sanitized a) h = (a, refl)
returns-sanitized (violation k) h = absurd (ground (arith, h))

returns-as_array : (o : Outcome Items) → returns (as_array o) ≡ returns o
returns-as_array (sanitized xs) = refl
returns-as_array (violation k) = refl

returns-as_object : (o : Outcome Fields) → returns (as_object o) ≡ returns o
returns-as_object (sanitized fs) = refl
returns-as_object (violation k) = refl

returns-push :
    (o : Outcome Data) (rest : Outcome Items)
    → returns (and_then o (λ y. push y rest)) ≡ (returns o && returns rest)
returns-push (violation k) rest = refl
returns-push (sanitized y) (violation k) = refl
returns-push (sanitized y) (sanitized xs) = refl

returns-keep :
    (k : String) (v : Data) (rest : Outcome Fields) → returns (keep k v rest) ≡ returns rest
returns-keep k v (violation j) = refl
returns-keep k v (sanitized fs) = refl

returns-open :
    (k : String) (o : Outcome Data) (rest : Outcome Fields)
    → returns (and_then o (λ w. keep k w rest)) ≡ (returns o && returns rest)
returns-open k (violation j) rest = refl
returns-open k (sanitized w) rest = returns-keep k w rest

-- One field returns with what it needs: in the throwing mode it must disclose nothing.
returns-one_field :
    (t : Bool) (k : String) (v : Data) (value : Outcome Data) (rest : Outcome Fields)
    → returns (one_field t k v value rest) ≡ (
        if is_forbidden k
        then not (t && discloses k v) && returns rest
        else returns value && returns rest)
unfolding one_field
returns-one_field t k v value rest =
    ground (arith, returns-open k value rest, returns-keep k placeholder rest)

all_true : (b : Bool) → (if b then not (false && true) && true else true && true) ≡ true
all_true b = ground arith

-- Outside the throwing mode every call returns.
mutual
  unfolding sanitize

  masking_returns : (d : Data) → returns (sanitize false d) ≡ true
  masking_returns null_value = refl
  masking_returns undefined = refl
  masking_returns (truth b) = refl
  masking_returns (number n) = refl
  masking_returns (text s) = refl
  masking_returns (array xs) = returns-as_array (sanitize_items false xs) ∙ masking_items_return xs
  masking_returns (object fs) =
      returns-as_object (sanitize_fields false fs) ∙ masking_fields_return fs

  masking_items_return : (xs : Items) → returns (sanitize_items false xs) ≡ true
  masking_items_return nil = refl
  masking_items_return (cons x xs) =
      returns-push (sanitize false x) (sanitize_items false xs)
      ∙ rw (masking_returns x, masking_items_return xs) refl

  masking_fields_return : (fs : Fields) → returns (sanitize_fields false fs) ≡ true
  masking_fields_return end = refl
  masking_fields_return (field k v fs) =
      returns-one_field false k v (sanitize false v) (sanitize_fields false fs)
      ∙ rw (masking_returns v, masking_fields_return fs) (all_true (is_forbidden k))

-- What stands under a masked password holds no secret.
forbidden_below :
    (k : String) (v : Data) → is_forbidden k ≡ true → discloses k v ≡ false → has_secret v ≡ false
unfolding has_secret
forbidden_below k v forbidden open_ =
    let same : v ≡ placeholder = placeholder-eq v (ground (arith, forbidden, open_)) in rw same refl

throwing_field :
    (k : String) (v : Data) (rest : Bool)
    → (if is_forbidden k then not (true && discloses k v) && rest else not (has_secret v) && rest)
      ≡ (not (discloses k v || has_secret v) && rest)
throwing_field k v rest = elim (Bool-cases (is_forbidden k)) [
  | inr free ↦ rw free refl
  | inl forbidden ↦ elim (Bool-cases (discloses k v)) [
    | inl d ↦ ground (arith, forbidden, d)
    | inr n ↦ ground (arith, forbidden, n, forbidden_below k v forbidden n)
  ]
]

not-or : (a b : Bool) → (not a && not b) ≡ not (a || b)
not-or a b = ground arith

-- In the throwing mode a call returns exactly for data without a secret.
mutual
  unfolding sanitize has_secret

  throwing_returns : (d : Data) → returns (sanitize true d) ≡ not (has_secret d)
  throwing_returns null_value = refl
  throwing_returns undefined = refl
  throwing_returns (truth b) = refl
  throwing_returns (number n) = refl
  throwing_returns (text s) = refl
  throwing_returns (array xs) = returns-as_array (sanitize_items true xs) ∙ throwing_items_return xs
  throwing_returns (object fs) =
      returns-as_object (sanitize_fields true fs) ∙ throwing_fields_return fs

  throwing_items_return :
      (xs : Items) → returns (sanitize_items true xs) ≡ not (has_secret_items xs)
  throwing_items_return nil = refl
  throwing_items_return (cons x xs) =
      returns-push (sanitize true x) (sanitize_items true xs)
      ∙ rw (throwing_returns x, throwing_items_return xs)
          (not-or (has_secret x) (has_secret_items xs))

  throwing_fields_return :
      (fs : Fields) → returns (sanitize_fields true fs) ≡ not (has_secret_fields fs)
  throwing_fields_return end = refl
  throwing_fields_return (field k v fs) =
      returns-one_field true k v (sanitize true v) (sanitize_fields true fs)
      ∙ rw (throwing_returns v, throwing_fields_return fs)
          (throwing_field k v (not (has_secret_fields fs))
            ∙ not-or (discloses k v || has_secret v) (has_secret_fields fs))

assert-returns : (d : Data) → assert_zero_secrets d ≡ returns (sanitize true d)
unfolding assert_zero_secrets
assert-returns d = refl

-- Sanitizing returns for all data, and leaves no secret at any depth: no forbidden key, but for a
-- password that is masked. Data without a secret come out unchanged.
pub sanitize-has_secret :
    (d : Data)
    → ((e : Data) × (sanitize false d ≡ sanitized e) × (has_secret e ≡ false))
      × (has_secret d ≡ false → sanitize false d ≡ sanitized d)
sanitize-has_secret d =
    let (e, done) = returns-sanitized (sanitize false d) (masking_returns d) in
    ((e, done, rw done at (sanitize-Holds false d)), clean_passes false d)

-- The assertion returns exactly for data without a secret at any depth.
pub assert_zero_secrets-has_secret : (d : Data) → assert_zero_secrets d ≡ not (has_secret d)
assert_zero_secrets-has_secret d = assert-returns d ∙ throwing_returns d
