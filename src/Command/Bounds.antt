-- ===== src/Command/Bounds.antt =====
-- What `CommandPayloadSchema.validate` of src/command/commandSchema.mjs guarantees of a bet.
use betting_automation_contr.Prelude.{
  ◌+◌, ◌*◌, ◌^◌, ◌≤◌, ◌<◌, false, ◌||◌, List, [], ◌∷◌, ◌++◌, ◌≡◌, ◌⊎◌, inl, inr, refl, arith,
  length,
}
use betting_automation_contr.Command.Schema.{
  Decimal, Field, missing, finite, text, Payload, Command, missing_id, invalid_category,
  invalid_type, mantissa, fraction_length, stake_errors, odds_errors, payload_errors, validate,
  unless, truthy, is_category, is_type,
}

-- A stake that a bet may carry: above 0, at most 1,000,000, and of at most two decimals, or one
-- digit below 10 ^ -6.
abbrev pub IsStake : Decimal → Type 0
IsStake d =
    (d.is_negative ≡ false)
    × (0 < mantissa d)
    × (mantissa d ≤ 1_000_000 * 10 ^ d.decimals)
    × ((d.decimals ≤ 2) ⊎ ((length d.digits ≡ 1) × (7 ≤ d.decimals)))

-- Odds that a bet may carry: above 1, at most 10,000, and of at most four decimals, unless the
-- number is printed with an exponent.
abbrev pub IsOdds : Decimal → Type 0
IsOdds d =
    (d.is_negative ≡ false)
    × (10 ^ d.decimals < mantissa d)
    × (mantissa d ≤ 10_000 * 10 ^ d.decimals)
    × ((d.decimals ≤ 4) ⊎ (length d.digits + 6 ≤ d.decimals))

abbrev pub Given : (Decimal → Type 0) → Field → Type 0
Given P f = (f ≡ missing) ⊎ ((d : Decimal) × (f ≡ finite d) × P d)

stake_errors-IsStake : (f : Field) → stake_errors f ≡ [] → Given IsStake f
unfolding stake_errors fraction_length
stake_errors-IsStake missing h = inl refl
stake_errors-IsStake (finite d) h = inr (d, refl, ground arith)
stake_errors-IsStake f h = absurd (ground arith)

IsStake-stake_errors : (d : Decimal) → IsStake d → stake_errors (finite d) ≡ []
unfolding stake_errors fraction_length
IsStake-stake_errors d h = ground arith

odds_errors-IsOdds : (f : Field) → odds_errors f ≡ [] → Given IsOdds f
unfolding odds_errors fraction_length
odds_errors-IsOdds missing h = inl refl
odds_errors-IsOdds (finite d) h = inr (d, refl, ground arith)
odds_errors-IsOdds f h = absurd (ground arith)

append-nil : {A : Type 0} (xs ys : List A) → xs ++ ys ≡ [] → (xs ≡ []) × (ys ≡ [])
append-nil [] ys h = (refl, h)
append-nil (x ∷ xs) ys h = absurd (ground arith)

validate-payload : (c : Command) → validate c ≡ [] → payload_errors c.target c.type_ c.payload ≡ []
unfolding validate
validate-payload c h =
    let (_, rest) = append-nil (unless (truthy c.id || truthy c.command_id) missing_id) _ h in
    let (_, rest2) = append-nil (unless (is_category c.category) invalid_category) _ rest in
    (append-nil (unless (is_type c.type_) invalid_type) _ rest2).1

place_bet-payload :
    (target : Field) (p : Payload)
    → payload_errors target (text "PLACE_BET") p ≡ stake_errors p.stake ++ odds_errors p.odds
unfolding payload_errors
place_bet-payload target p = refl

-- A bet that the schema accepts has no stake, or one above 0 and at most 1,000,000 with at most
-- two decimals or of a single digit below 10 ^ -6; and no odds, or odds above 1 and at most
-- 10,000 with at most four decimals, unless they are printed with an exponent.
pub validate-place_bet :
    (c : Command)
    → validate c ≡ []
    → c.type_ ≡ text "PLACE_BET"
    → Given IsStake c.payload.stake × Given IsOdds c.payload.odds
validate-place_bet c h bet =
    let errors : payload_errors c.target (text "PLACE_BET") c.payload ≡ [] =
      rw bet at (validate-payload c h) in
    let (stake, odds) =
      append-nil (stake_errors c.payload.stake) (odds_errors c.payload.odds)
        (rw (← place_bet-payload c.target c.payload) errors) in
    (stake_errors-IsStake c.payload.stake stake, odds_errors-IsOdds c.payload.odds odds)
