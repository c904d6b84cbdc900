-- ===== src/Command/Schema.antt =====
-- src/command/commandSchema.mjs: `CommandPayloadSchema.validate`.
use betting_automation_contr.Prelude.{
  ℕ, ◌+◌, ◌-◌, ◌*◌, ◌^◌, Bool, true, false, not, ◌&&◌, ◌||◌, Option, none, some, List, [], ◌∷◌,
  ◌++◌, String, ltb, ◌==◌, str_eq, any, length, if◌then◌else◌,
}

-- A finite number by its shortest decimal digits: `digits`, of which the last `decimals` stand
-- after the point.
pub record Decimal : Type 0 where
  pub is_negative : Bool
  pub digits : List ℕ
  pub decimals : ℕ

-- A value of a field. `missing` is `undefined`.
pub data Field : Type 0 where
  missing null_value other : Field
  truth : Bool → Field
  text : String → Field
  finite : Decimal → Field
  not_finite not_a_number : Field

pub record Payload : Type 0 where
  pub stake : Field
  pub odds : Field
  pub percentage : Field
  pub amount : Field
  pub enabled : Field
  pub account_username : Field
  pub id : Field
  pub account_id : Field
  pub type_ : Field
  pub account_ids_is_array : Bool

-- A command that was parsed to an object; a missing payload is one without fields.
pub record Command : Type 0 where
  pub id : Field
  pub command_id : Field
  pub trace_id : Field
  pub category : Field
  pub type_ : Field
  pub target : Field
  pub payload : Payload

-- The messages of `errors`.
pub data SchemaError : Type 0 where
  missing_id invalid_category invalid_type invalid_stake stake_precision : SchemaError
  invalid_odds odds_precision invalid_percentage invalid_amount : SchemaError
  invalid_enabled no_account no_target no_settings_type no_bulk : SchemaError

-- The digits as one number, from the left.
abbrev pub read_digits : ℕ → List ℕ → ℕ
read_digits acc [] = acc
read_digits acc (x ∷ xs) = read_digits (10 * acc + x) xs

abbrev pub mantissa : Decimal → ℕ
mantissa d = read_digits 0 d.digits

-- `d > n` and `d < n`, for a number that is not negative.
abbrev pub above : Decimal → ℕ → Bool
above d n = ltb (n * 10 ^ d.decimals) (mantissa d)

abbrev pub below : Decimal → ℕ → Bool
below d n = ltb (mantissa d) (n * 10 ^ d.decimals)

abbrev pub truthy : Field → Bool
truthy missing = false
truthy null_value = false
truthy other = true
truthy (truth b) = b
truthy (text s) = not (str_eq s "")
truthy (finite d) = ltb 0 (mantissa d)
truthy not_finite = true
truthy not_a_number = false

abbrev exponent_length : ℕ → ℕ
exponent_length e = if ltb e 10 then 1 else (if ltb e 100 then 2 else 3)

-- The length of what `toString` prints after the point, if it prints one. Below 10 ^ -6 it prints
-- an exponent, after a point only if there are several digits.
unfoldable pub fraction_length : Decimal → Option ℕ
fraction_length d =
    let k = length d.digits in
    if d.decimals == 0
    then none
    else (if ltb d.decimals (k + 6)
        then some d.decimals
        else (if k == 1 then none else some ((k - 1) + 2 + exponent_length ((d.decimals + 1) - k))))

abbrev pub exceeds : Option ℕ → ℕ → Bool
exceeds none n = false
exceeds (some k) n = ltb n k

unfoldable pub stake_errors : Field → List SchemaError
unfolding fraction_length
stake_errors missing = []
stake_errors (finite d) =
    if d.is_negative || (not (above d 0) || above d 1_000_000)
    then invalid_stake ∷ []
    else (if exceeds (fraction_length d) 2 then stake_precision ∷ [] else [])
stake_errors f = invalid_stake ∷ []

unfoldable pub odds_errors : Field → List SchemaError
unfolding fraction_length
odds_errors missing = []
odds_errors (finite d) =
    if d.is_negative || (not (above d 1) || above d 10_000)
    then invalid_odds ∷ []
    else (if exceeds (fraction_length d) 4 then odds_precision ∷ [] else [])
odds_errors f = invalid_odds ∷ []

unfoldable pub percentage_errors : Field → List SchemaError
percentage_errors missing = []
percentage_errors (finite d) =
    if d.is_negative || (below d 1 || above d 100) then invalid_percentage ∷ [] else []
percentage_errors f = invalid_percentage ∷ []

unfoldable pub amount_errors : Field → List SchemaError
amount_errors missing = []
amount_errors (finite d) = if d.is_negative || not (above d 0) then invalid_amount ∷ [] else []
amount_errors f = invalid_amount ∷ []

abbrev pub is_truth : Field → Bool
is_truth (truth b) = true
is_truth f = false

-- `errors.push(e)` if a requirement is not met.
abbrev pub unless : Bool → SchemaError → List SchemaError
unless true e = []
unless false e = e ∷ []

-- The `switch` on the type.
unfoldable pub payload_errors : Field → Field → Payload → List SchemaError
unfolding stake_errors odds_errors percentage_errors amount_errors
payload_errors target (text t) p =
    if str_eq t "PLACE_BET"
    then stake_errors p.stake ++ odds_errors p.odds
    else (if str_eq t "CASH_OUT"
        then percentage_errors p.percentage ++ amount_errors p.amount
        else (if str_eq t "TOGGLE_BET_CYCLE"
            then unless (is_truth p.enabled) invalid_enabled
            else (if str_eq t "ACTIVATE_ACCOUNT"
                then unless (truthy p.account_username || (truthy p.id || truthy target)) no_account
                else (if str_eq t "DEACTIVATE_ACCOUNT"
                    then unless (truthy target || (truthy p.id || truthy p.account_id)) no_target
                    else (if str_eq t "SETTINGS_INTENT"
                        then unless (truthy p.type_) no_settings_type
                        else (if str_eq t "BULK_ACTION"
                            then unless (truthy p.type_ && p.account_ids_is_array) no_bulk
                            else []))))))
payload_errors target t p = []

-- `VALID_CATEGORIES.has(category)`; the empty text is no member.
abbrev pub is_category : Field → Bool
is_category (text s) =
    any (str_eq s) ("Execution" ∷ "Persistence" ∷ "Security" ∷ "Billing" ∷ "System" ∷ [])
is_category f = false

abbrev pub is_type : Field → Bool
is_type (text s) = not (str_eq s "")
is_type f = false

-- `validate`: the errors, which are none of a valid command.
unfoldable pub validate : Command → List SchemaError
unfolding payload_errors
validate c =
    unless (truthy c.id || truthy c.command_id) missing_id
    ++ (unless (is_category c.category) invalid_category
        ++ (unless (is_type c.type_) invalid_type ++ payload_errors c.target c.type_ c.payload))
