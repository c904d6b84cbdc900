-- ===== src/Security/Decision/Capabilities.antt =====
-- src/security-authority/decision-engine.mjs, `getCurrentCapabilities`, over
-- authorization/capabilities.mjs.
use betting_automation_contr.Prelude.{
  Bool, true, false, not, Bool-cases, inl, inr, ◌&&◌, ◌||◌, Option, none, some, List, [], ◌∷◌, ◌++◌,
  String, ◌≡◌, refl, any, arith, str_eq, eq_iff, if◌then◌else◌,
}
use betting_automation_contr.Security.State.{
  SecurityState, StateData, License, Authorization, operational, offline_grace,
}
use betting_automation_contr.Security.Engine.Transition.{capability_set}

-- The entries of `CAPABILITY` that the method names.
abbrev pub automation_start : String
automation_start = "CAP_AUTOMATION_START"

abbrev pub automation_stop : String
automation_stop = "CAP_AUTOMATION_STOP"

abbrev pub config_modify : String
config_modify = "CAP_CONFIG_MODIFY"

abbrev pub account_manage : String
account_manage = "CAP_ACCOUNT_MANAGE"

-- `caps.filter(c => c !== x)`.
unfoldable pub without : String → List String → List String
without x [] = []
without x (y ∷ ys) = let rest = without x ys in if str_eq y x then rest else y ∷ rest

-- `Array.from(new Set(caps))`: the first of each.
unfoldable pub distinct : List String → List String
distinct [] = []
distinct (x ∷ xs) = x ∷ without x (distinct xs)

abbrev pub has_cap : String → List String → Bool
has_cap x caps = any (str_eq x) caps

-- The two returns of `safetyCaps`, turned around.
abbrev pub may_operate : SecurityState → Bool
may_operate operational = true
may_operate offline_grace = true
may_operate s = false

abbrev pub is_valid : Option Authorization → Bool
is_valid none = false
is_valid (some a) = str_eq a.status "VALID"

abbrev pub is_strict : Option License → Bool
is_strict none = false
is_strict (some l) = l.strict_capabilities

abbrev pub base_caps : Option License → List String
base_caps l =
    if is_strict l
    then automation_stop ∷ []
    else config_modify ∷ automation_stop ∷ account_manage ∷ []

-- `getCurrentCapabilities`. `executing` is what the checker answers; one that is missing or
-- throws filters nothing, as one that answers `false`.
unfoldable pub get_current_capabilities : Bool → Option StateData → List String
get_current_capabilities executing none = automation_stop ∷ []
get_current_capabilities executing (some d) =
    let caps = distinct (base_caps d.license ++ capability_set d.authorization) in
    if may_operate d.state && is_valid d.authorization
    then (if executing then without automation_start caps else caps)
    else automation_stop ∷ []

has-without :
    (x y : String) (ys : List String)
    → has_cap x (without y ys) ≡ (has_cap x ys && not (str_eq x y))
unfolding without
has-without x y [] = ground arith
has-without x y (z ∷ zs) = ground (arith, has-without x y zs, eq_iff x y, eq_iff z y, eq_iff x z)

has-distinct : (x : String) (xs : List String) → has_cap x (distinct xs) ≡ has_cap x xs
unfolding distinct
has-distinct x [] = ground arith
has-distinct x (y ∷ ys) = ground (arith, has-distinct x ys, has-without x y (distinct ys))

has-append :
    (x : String) (xs ys : List String) → has_cap x (xs ++ ys) ≡ (has_cap x xs || has_cap x ys)
has-append x [] ys = ground arith
has-append x (y ∷ xs) ys = ground (arith, has-append x xs ys)

stop_is_not_start :
    (x : String) → (str_eq x "CAP_AUTOMATION_STOP" && str_eq x "CAP_AUTOMATION_START") ≡ false
stop_is_not_start x = elim (Bool-cases (str_eq x "CAP_AUTOMATION_STOP")) [
  | inl e ↦ let q : x ≡ "CAP_AUTOMATION_STOP" = (eq_iff x "CAP_AUTOMATION_STOP").0 e in rw q refl
  | inr ne ↦ rw ne refl
]

has-offered :
    (x : String) (d : StateData)
    → has_cap x (distinct (base_caps d.license ++ capability_set d.authorization)) ≡ (
        (not (is_strict d.license)
          && (str_eq x "CAP_CONFIG_MODIFY" || str_eq x "CAP_ACCOUNT_MANAGE"))
        || (str_eq x "CAP_AUTOMATION_STOP" || has_cap x (capability_set d.authorization)))
has-offered x d =
    rw
      (
        has-distinct x (base_caps d.license ++ capability_set d.authorization),
        has-append x (base_caps d.license) (capability_set d.authorization),
      )
      (elim (Bool-cases (is_strict d.license)) [
        | inl s ↦ rw s (ground arith)
        | inr s ↦ rw s (ground arith)
      ])

-- What the operator may do: stop the automation always; any other capability only in
-- `operational` or `offline_grace` under a valid authorization, and then the ones that the
-- backend granted and, unless the license is strict, changing the configuration and managing
-- accounts; starting the automation never while one executes.
pub get_current_capabilities-grants :
    (x : String) (executing : Bool) (d : StateData)
    → has_cap x (get_current_capabilities executing (some d)) ≡ (
        str_eq x "CAP_AUTOMATION_STOP"
        || ((may_operate d.state && is_valid d.authorization)
            && ((has_cap x (capability_set d.authorization)
                  || (not (is_strict d.license)
                      && (str_eq x "CAP_CONFIG_MODIFY" || str_eq x "CAP_ACCOUNT_MANAGE")))
                && not (executing && str_eq x "CAP_AUTOMATION_START"))))
unfolding get_current_capabilities
get_current_capabilities-grants x executing d =
    let granted = capability_set d.authorization in
    let all = base_caps d.license ++ granted in
    elim (Bool-cases (may_operate d.state && is_valid d.authorization)) [
      | inl m ↦ elim (Bool-cases executing) [
        | inl e ↦
            rw (m, e, has-without x "CAP_AUTOMATION_START" (distinct all), has-offered x d)
              (ground (arith, stop_is_not_start x))
        | inr e ↦ rw (m, e, has-offered x d) (ground arith)
      ]
      | inr m ↦ rw m (ground arith)
    ]
