-- ===== src/Store/Sanitizer.antt =====
-- src/state-store/validation/SanitizerGate.mjs: `SanitizerGate.sanitize` and `assertZeroSecrets`,
-- over JSON-like data. No key is `__proto__`, and the keys of an object are distinct.
use betting_automation_contr.Prelude.{
  Bool, true, false, ◌&&◌, List, [], ◌∷◌, String, any, str_eq, if◌then◌else◌,
}

-- A number by its text.
mutual
  pub data Data : Type 0 where
    null_value undefined : Data
    truth : Bool → Data
    number : String → Data
    text : String → Data
    array : Items → Data
    object : Fields → Data

  pub data Items : Type 0 where
    nil : Items
    cons : Data → Items → Items

  pub data Fields : Type 0 where
    end : Fields
    field : String → Data → Fields → Fields

-- `FORBIDDEN_SECRET_KEYS`.
unfoldable pub forbidden_secret_keys : List String
forbidden_secret_keys =
    "accountPassword" ∷ "password" ∷ "rawPassword" ∷ "sessionToken" ∷ "session_token" ∷ "token"
    ∷ "jwt" ∷ "refreshToken" ∷ "proxyPassword" ∷ "proxyAuth" ∷ "secret" ∷ "secretKey" ∷ "cardToken"
    ∷ "cvv" ∷ "authorizationCode" ∷ "cookies" ∷ "cookie" ∷ "credentials" ∷ "credential"
    ∷ "privateKey" ∷ "private_key" ∷ []

unfoldable pub is_forbidden : String → Bool
unfolding forbidden_secret_keys
is_forbidden k = any (str_eq k) forbidden_secret_keys

abbrev pub is_password : String → Bool
is_password k = str_eq k "accountPassword"

abbrev pub placeholder : Data
placeholder = text "[PROTECTED]"

abbrev pub is_placeholder : Data → Bool
is_placeholder (text s) = str_eq s "[PROTECTED]"
is_placeholder d = false

-- What a call returns, or the key that it throws.
pub data Outcome (A : Type 0) : Type 0 where
  sanitized : A → Outcome A
  violation : String → Outcome A

abbrev pub and_then : {A B : Type 0} → Outcome A → (A → Outcome B) → Outcome B
and_then (sanitized a) f = f a
and_then (violation k) f = violation k

abbrev pub keep : String → Data → Outcome Fields → Outcome Fields
keep k v (sanitized fs) = sanitized (field k v fs)
keep k v (violation j) = violation j

abbrev pub push : Data → Outcome Items → Outcome Items
push v (sanitized xs) = sanitized (cons v xs)
push v (violation j) = violation j

abbrev pub as_array : Outcome Items → Outcome Data
as_array (sanitized xs) = sanitized (array xs)
as_array (violation j) = violation j

abbrev pub as_object : Outcome Fields → Outcome Data
as_object (sanitized fs) = sanitized (object fs)
as_object (violation j) = violation j

-- The branches for one key, from what becomes of its value and of the other fields. `throw` is
-- `options.throwOnDetection`.
unfoldable pub one_field : Bool → String → Data → Outcome Data → Outcome Fields → Outcome Fields
one_field throw k v value rest =
    if is_forbidden k
    then (if is_password k && is_placeholder v
        then keep k placeholder rest
        else (if throw
            then violation k
            else (if is_password k then keep k placeholder rest else rest)))
    else and_then value (λ w. keep k w rest)

unfoldable mutual
  unfolding one_field

  pub sanitize : Bool → Data → Outcome Data
  sanitize throw null_value = sanitized null_value
  sanitize throw undefined = sanitized undefined
  sanitize throw (truth b) = sanitized (truth b)
  sanitize throw (number n) = sanitized (number n)
  sanitize throw (text s) = sanitized (text s)
  sanitize throw (array xs) = as_array (sanitize_items throw xs)
  sanitize throw (object fs) = as_object (sanitize_fields throw fs)

  pub sanitize_items : Bool → Items → Outcome Items
  sanitize_items throw nil = sanitized nil
  sanitize_items throw (cons x xs) =
      and_then (sanitize throw x) (λ y. push y (sanitize_items throw xs))

  pub sanitize_fields : Bool → Fields → Outcome Fields
  sanitize_fields throw end = sanitized end
  sanitize_fields throw (field k v fs) =
      one_field throw k v (sanitize throw v) (sanitize_fields throw fs)

-- `assertZeroSecrets`: whether it returns.
unfoldable pub assert_zero_secrets : Data → Bool
unfolding sanitize
assert_zero_secrets d = elim (sanitize true d) [ sanitized e ↦ true | violation k ↦ false ]
