-- ===== src/Security/Envelope/Validator.antt =====
-- src/security-authority/protocol/envelope.mjs: `EnvelopeValidator.validateEnvelope`. The
-- parameter `verify` is the native check of a signature over the canonical bytes of an envelope,
-- `false` if that throws. Times are milliseconds; a date before 1970 counts as a missing one.
use betting_automation_contr.Prelude.{
  ℕ, ◌+◌, Bool, true, false, not, ◌&&◌, ◌||◌, Option, none, some, List, [], ◌∷◌, String, ltb, leb,
  ◌==◌, length, str_eq, if◌then◌else◌,
}
use betting_automation_contr.Prelude.Dict.{Dict, get, set}

-- The signatures of an envelope under the keys '1', 'v1', '2' and 'v2'.
pub record Signatures : Type 0 where
  pub one : Option String
  pub v_one : Option String
  pub two : Option String
  pub v_two : Option String

-- A nonce that counts as given: a text, a number or `true` by its text, or an object or a list,
-- which a `Map` holds by its identity, so that no later envelope has the same one.
pub data Nonce : Type 0 where
  named valued : String → Nonce
  nested : Nonce

-- An envelope; `version` is `version ?? v`, and a time stamp that is no date is missing.
pub record Envelope (Payload : Type 0) : Type 0 where
  pub version : Option ℕ
  pub payload : Option Payload
  pub signatures : Option Signatures
  pub timestamp : Option ℕ
  pub nonce : Option Nonce

-- `consumedNonces`: when the entries under texts, under other values and under objects expire.
pub record Nonces : Type 0 where
  pub texts : Dict ℕ
  pub values : Dict ℕ
  pub objects : List ℕ

-- `PINNED_BACKEND_PUBKEY_HEX` and `PINNED_BACKEND_PUBKEY_V2_HEX`.
pub record Keys : Type 0 where
  pub pinned : Option String
  pub pinned_v2 : Option String

-- `a || b` on texts that may be missing or empty.
abbrev pub either : Option String → Option String → Option String
either none b = b
either (some s) b = if str_eq s "" then b else some s

abbrev pub is_given : Option String → Bool
is_given none = false
is_given (some s) = not (str_eq s "")

abbrev pub signature_v2 : Signatures → Option String
signature_v2 s = either s.two s.v_two

abbrev pub signature_any : Signatures → Option String
signature_any s = either s.one (either s.v_one (signature_v2 s))

-- The entries of `consumedNonces` that a cleanup at `now` keeps.
unfoldable pub unexpired : ℕ → Dict ℕ → Dict ℕ
unexpired now [] = []
unexpired now ((k, e) ∷ m) = let rest = unexpired now m in if leb e now then rest else (k, e) ∷ rest

unfoldable pub unexpired_objects : ℕ → List ℕ → List ℕ
unexpired_objects now [] = []
unexpired_objects now (e ∷ m) =
    let rest = unexpired_objects now m in if leb e now then rest else e ∷ rest

abbrev pub size : Nonces → ℕ
size m = length m.texts + length m.values + length m.objects

unfoldable pub cleanup_nonces : ℕ → Nonces → Nonces
unfolding unexpired unexpired_objects
cleanup_nonces now m =
    if ltb 2000 (size m)
    then record {
      texts = unexpired now m.texts;
      values = unexpired now m.values;
      objects = unexpired_objects now m.objects;
    }
    else m

-- `Math.abs(now - ts) > 60000`, or no time stamp.
abbrev pub is_stale : ℕ → Option ℕ → Bool
is_stale now none = true
is_stale now (some ts) = ltb (now + 60_000) ts || ltb (ts + 60_000) now

-- `!envelope.timestamp`
abbrev pub has_timestamp : Option ℕ → Bool
has_timestamp none = false
has_timestamp (some ts) = ltb 0 ts

abbrev pub is_present {ℓ} : {A : Type ℓ} → Option A → Bool
is_present none = false
is_present (some a) = true

abbrev pub is_version_2 : Option ℕ → Bool
is_version_2 none = false
is_version_2 (some v) = v == 2

-- The use of a nonce: the nonces after it, and whether it is new.
abbrev pub consume_over : ℕ → String → Dict ℕ → Option ℕ → Dict ℕ × Bool
consume_over now k m none = (set k (now + 300_000) m, true)
consume_over now k m (some e) = if ltb now e then (m, false) else (set k (now + 300_000) m, true)

abbrev pub with_texts : Nonces → Dict ℕ × Bool → Nonces × Bool
with_texts m (d, ok) = (record m { texts = d }, ok)

abbrev pub with_values : Nonces → Dict ℕ × Bool → Nonces × Bool
with_values m (d, ok) = (record m { values = d }, ok)

-- An empty text is no nonce.
unfoldable pub consume : ℕ → Option Nonce → Nonces → Nonces × Bool
unfolding cleanup_nonces
consume now none m = (m, true)
consume now (some (named k)) m =
    let clean = cleanup_nonces now m in
    if str_eq k ""
    then (m, true)
    else with_texts clean (consume_over now k clean.texts (get k clean.texts))
consume now (some (valued k)) m =
    let clean = cleanup_nonces now m in
    with_values clean (consume_over now k clean.values (get k clean.values))
consume now (some nested) m =
    let clean = cleanup_nonces now m in
    (record clean { objects = (now + 300_000) ∷ clean.objects }, true)

module _ {Payload : Type 0} where
  -- The checks before the nonce.
  abbrev pub is_well_formed : ℕ → Envelope Payload → Bool
  is_well_formed now e =
      is_version_2 e.version
      && ((is_present e.payload && is_present e.signatures)
          && (has_timestamp e.timestamp && not (is_stale now e.timestamp)))

module _ {Payload : Type 0} (verify : String → Envelope Payload → String → Bool) where
  abbrev pub check_signature : Option String → Envelope Payload → Option String → Bool
  check_signature none e s = false
  check_signature (some key) e none = false
  check_signature (some key) e (some s) = if str_eq s "" then false else verify key e s

  -- The choice of the pinned key and the signature, and the check.
  abbrev pub is_signed : Keys → Envelope Payload → Option Signatures → Bool
  is_signed keys e none = false
  is_signed keys e (some s) =
      if is_given keys.pinned_v2 && is_given (signature_v2 s)
      then check_signature keys.pinned_v2 e (signature_v2 s)
      else (if is_given keys.pinned && is_given (signature_any s)
          then check_signature keys.pinned e (signature_any s)
          else false)

  abbrev pub finish : Keys → Envelope Payload → Nonces × Bool → Nonces × Bool
  finish keys e (m, false) = (m, false)
  finish keys e (m, true) = (m, is_signed keys e e.signatures)

  -- `validateEnvelope` over the consumed nonces, at the clock `now`.
  unfoldable pub validate_envelope : Keys → ℕ → Envelope Payload → Nonces → Nonces × Bool
  unfolding consume
  validate_envelope keys now e m =
      if is_well_formed now e then finish keys e (consume now e.nonce m) else (m, false)
