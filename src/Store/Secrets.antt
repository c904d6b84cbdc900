-- ===== src/Store/Secrets.antt =====
-- What src/state-store/validation/SanitizerGate.mjs lets pass.
use betting_automation_contr.Prelude.{
  Bool, true, false, not, ◌&&◌, ◌||◌, Bool-cases, String, ◌≡◌, inl, inr, refl, arith, eq_iff,
  if◌then◌else◌,
}
use betting_automation_contr.Store.Sanitizer.{
  Data, Items, Fields, null_value, undefined, truth, number, text, array, object, nil, cons, end,
  field, is_forbidden, forbidden_secret_keys, is_password, placeholder, is_placeholder, Outcome,
  sanitized, violation, and_then, keep, push, as_array, as_object, one_field, sanitize,
  sanitize_items, sanitize_fields,
}

-- A field that discloses a secret: a forbidden key, but for a password that is masked.
abbrev pub discloses : String → Data → Bool
discloses k v = is_forbidden k && not (is_password k && is_placeholder v)

-- A secret at any depth; what stands below a forbidden key does not count for itself.
unfoldable mutual
  pub has_secret : Data → Bool
  has_secret null_value = false
  has_secret undefined = false
  has_secret (truth b) = false
  has_secret (number n) = false
  has_secret (text s) = false
  has_secret (array xs) = has_secret_items xs
  has_secret (object fs) = has_secret_fields fs

  pub has_secret_items : Items → Bool
  has_secret_items nil = false
  has_secret_items (cons x xs) = has_secret x || has_secret_items xs

  pub has_secret_fields : Fields → Bool
  has_secret_fields end = false
  has_secret_fields (field k v fs) = (discloses k v || has_secret v) || has_secret_fields fs

password_forbidden : (k : String) → is_password k ≡ true → is_forbidden k ≡ true
unfolding is_forbidden forbidden_secret_keys
password_forbidden k h = ground (arith, h)

pub or-false : (a b : Bool) → (a || b) ≡ false → (a ≡ false) × (b ≡ false)
or-false a b h = ground (arith, h)

pub placeholder-eq : (v : Data) → is_placeholder v ≡ true → v ≡ placeholder
placeholder-eq (text s) h = ground (arith, eq_iff s "[PROTECTED]", h)
placeholder-eq v h = absurd (ground (arith, h))

-- One field that discloses nothing stays, and one that does is dropped, masked or thrown at.
one_field-clean :
    (t : Bool) (k : String) (v : Data) (fs : Fields)
    → discloses k v ≡ false
    → one_field t k v (sanitized v) (sanitized fs) ≡ sanitized (field k v fs)
unfolding one_field
one_field-clean t k v fs h = elim (Bool-cases (is_forbidden k)) [
  | inr free ↦ rw free refl
  | inl forbidden ↦
      let masked : is_password k && is_placeholder v ≡ true = ground (arith, h, forbidden) in
      let same : v ≡ placeholder = placeholder-eq v (ground (arith, masked)) in
      rw (forbidden, masked, same) refl
]

-- Data without secrets pass unchanged, in both modes.
mutual
  unfolding has_secret sanitize

  pub clean_passes : (t : Bool) (d : Data) → has_secret d ≡ false → sanitize t d ≡ sanitized d
  clean_passes t null_value h = refl
  clean_passes t undefined h = refl
  clean_passes t (truth b) h = refl
  clean_passes t (number n) h = refl
  clean_passes t (text s) h = refl
  clean_passes t (array xs) h = rw (clean_items_pass t xs h) refl
  clean_passes t (object fs) h = rw (clean_fields_pass t fs h) refl

  clean_items_pass :
      (t : Bool) (xs : Items) → has_secret_items xs ≡ false → sanitize_items t xs ≡ sanitized xs
  clean_items_pass t nil h = refl
  clean_items_pass t (cons x xs) h = ground (arith, clean_passes t x, clean_items_pass t xs)

  clean_fields_pass :
      (t : Bool) (fs : Fields) → has_secret_fields fs ≡ false → sanitize_fields t fs ≡ sanitized fs
  clean_fields_pass t end h = refl
  clean_fields_pass t (field k v fs) h =
      let (whole, rest) = or-false (discloses k v || has_secret v) (has_secret_fields fs) h in
      let (open_, below) = or-false (discloses k v) (has_secret v) whole in
      rw (clean_passes t v below, clean_fields_pass t fs rest) (one_field-clean t k v fs open_)

one_field-forbidden :
    (t : Bool) (k : String) (v : Data) (value : Outcome Data) (rest : Outcome Fields)
    → discloses k v ≡ true
    → one_field t k v value rest
      ≡ (if t then violation k else (if is_password k then keep k placeholder rest else rest))
unfolding one_field
one_field-forbidden t k v value rest h = ground (arith, h)

one_field-open :
    (t : Bool) (k : String) (v : Data) (value : Outcome Data) (rest : Outcome Fields)
    → discloses k v ≡ false
    → is_forbidden k ≡ false
    → one_field t k v value rest ≡ and_then value (λ w. keep k w rest)
unfolding one_field
one_field-open t k v value rest h free = rw free refl

-- What an outcome holds, if it is not a violation.
abbrev pub Holds : {A : Type 0} → (A → Type 0) → Outcome A → Type 0
Holds P (sanitized a) = P a
Holds P (violation k) = Unit

keep-Holds :
    (k : String) (v : Data) (rest : Outcome Fields)
    → discloses k v ≡ false
    → has_secret v ≡ false
    → Holds (λ fs. has_secret_fields fs ≡ false) rest
    → Holds (λ fs. has_secret_fields fs ≡ false) (keep k v rest)
unfolding has_secret
keep-Holds k v (violation j) open_ below h = tt
keep-Holds k v (sanitized fs) open_ below h = rw (open_, below, h) refl

masked_discloses_nothing : (k : String) → is_password k ≡ true → discloses k placeholder ≡ false
masked_discloses_nothing k h = rw h (ground arith)

open-Holds :
    (k : String) (value : Outcome Data) (rest : Outcome Fields)
    → is_forbidden k ≡ false
    → Holds (λ d. has_secret d ≡ false) value
    → Holds (λ fs. has_secret_fields fs ≡ false) rest
    → Holds (λ fs. has_secret_fields fs ≡ false) (and_then value (λ w. keep k w rest))
open-Holds k (violation j) rest free h hs = tt
open-Holds k (sanitized w) rest free h hs = keep-Holds k w rest (rw free refl) h hs

masked-Holds :
    (k : String) (rest : Outcome Fields)
    → is_password k ≡ true
    → Holds (λ fs. has_secret_fields fs ≡ false) rest
    → Holds (λ fs. has_secret_fields fs ≡ false) (keep k placeholder rest)
unfolding has_secret
masked-Holds k rest p hs = keep-Holds k placeholder rest (masked_discloses_nothing k p) refl hs

one_field-Holds :
    (t : Bool) (k : String) (v : Data) (value : Outcome Data) (rest : Outcome Fields)
    → Holds (λ d. has_secret d ≡ false) value
    → Holds (λ fs. has_secret_fields fs ≡ false) rest
    → Holds (λ fs. has_secret_fields fs ≡ false) (one_field t k v value rest)
unfolding one_field
one_field-Holds t k v value rest h hs = elim (Bool-cases (is_forbidden k)) [
  | inr free ↦ rw free (open-Holds k value rest free h hs)
  | inl forbidden ↦ elim (Bool-cases (is_password k && is_placeholder v)) [
    | inl masked ↦ rw (forbidden, masked) (masked-Holds k rest (ground (arith, masked)) hs)
    | inr bare ↦ elim (Bool-cases t) [
      | inl throwing ↦ rw (forbidden, bare, throwing) tt
      | inr masking ↦ elim (Bool-cases (is_password k)) [
        | inl p ↦ rw (forbidden, bare, masking, p) (masked-Holds k rest p hs)
        | inr other ↦ rw (forbidden, bare, masking, other) hs
      ]
    ]
  ]
]

as_array-Holds :
    (o : Outcome Items)
    → Holds (λ xs. has_secret_items xs ≡ false) o
    → Holds (λ d. has_secret d ≡ false) (as_array o)
unfolding has_secret
as_array-Holds (sanitized xs) h = h
as_array-Holds (violation k) h = tt

as_object-Holds :
    (o : Outcome Fields)
    → Holds (λ fs. has_secret_fields fs ≡ false) o
    → Holds (λ d. has_secret d ≡ false) (as_object o)
unfolding has_secret
as_object-Holds (sanitized fs) h = h
as_object-Holds (violation k) h = tt

push-Holds :
    (o : Outcome Data) (rest : Outcome Items)
    → Holds (λ d. has_secret d ≡ false) o
    → Holds (λ xs. has_secret_items xs ≡ false) rest
    → Holds (λ xs. has_secret_items xs ≡ false) (and_then o (λ y. push y rest))
unfolding has_secret
push-Holds (violation k) rest h hs = tt
push-Holds (sanitized d) (violation k) h hs = tt
push-Holds (sanitized d) (sanitized xs) h hs = rw (h, hs) refl

-- Whatever passes has no secret.
mutual
  unfolding has_secret sanitize

  pub sanitize-Holds : (t : Bool) (d : Data) → Holds (λ e. has_secret e ≡ false) (sanitize t d)
  sanitize-Holds t null_value = refl
  sanitize-Holds t undefined = refl
  sanitize-Holds t (truth b) = refl
  sanitize-Holds t (number n) = refl
  sanitize-Holds t (text s) = refl
  sanitize-Holds t (array xs) = as_array-Holds (sanitize_items t xs) (sanitize_items-Holds t xs)
  sanitize-Holds t (object fs) = as_object-Holds (sanitize_fields t fs) (sanitize_fields-Holds t fs)

  sanitize_items-Holds :
      (t : Bool) (xs : Items) → Holds (λ ys. has_secret_items ys ≡ false) (sanitize_items t xs)
  sanitize_items-Holds t nil = refl
  sanitize_items-Holds t (cons x xs) =
      push-Holds (sanitize t x) (sanitize_items t xs) (sanitize-Holds t x)
        (sanitize_items-Holds t xs)

  sanitize_fields-Holds :
      (t : Bool) (fs : Fields) → Holds (λ gs. has_secret_fields gs ≡ false) (sanitize_fields t fs)
  sanitize_fields-Holds t end = refl
  sanitize_fields-Holds t (field k v fs) =
      one_field-Holds t k v (sanitize t v) (sanitize_fields t fs) (sanitize-Holds t v)
        (sanitize_fields-Holds t fs)
