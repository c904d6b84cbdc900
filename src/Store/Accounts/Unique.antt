-- ===== src/Store/Accounts/Unique.antt =====
-- What `findByPlatformAndUsername` of src/state-store/memory/AccountsContainer.mjs finds, and
-- accounts whose platform and user are their own.
use betting_automation_contr.Prelude.{
  ◌&&◌, none, some, [], ◌∷◌, String, ◌≡◌, sym, ◌∙◌, arith, Bool-cases, inl, inr, Option-cases,
  str_eq, eq_iff,
}
use betting_automation_contr.Prelude.Dict.{Dict, get, set, get-set, IsDistinct}
use betting_automation_contr.Store.Accounts.Container.{Account, platform_key, user_key, find_in}

module _ (Amount : Type 0) (lower : String → String) where
  abbrev pub HasKeys : String → String → Account Amount lower → Type 0
  HasKeys p u a = (platform_key Amount lower a ≡ p) × (user_key Amount lower a ≡ u)

  abbrev pub AreAlike : Account Amount lower → Account Amount lower → Type 0
  AreAlike a b = HasKeys (platform_key Amount lower b) (user_key Amount lower b) a

  -- No two accounts have one platform and one user.
  abbrev pub IsUnique : Dict (Account Amount lower) → Type 0
  IsUnique m =
      (i j : String) (a b : Account Amount lower)
      → get i m ≡ some a
      → get j m ≡ some b
      → AreAlike a b
      → i ≡ j

  pub find_in-none :
      (p u i : String) (a : Account Amount lower) (m : Dict (Account Amount lower))
      → find_in Amount lower p u m ≡ none
      → get i m ≡ some a
      → ¬ HasKeys p u a
  unfolding find_in get
  find_in-none p u i a [] e h k = absurd (ground (arith, h))
  find_in-none p u i a ((j, b) ∷ rest) e h k =
      let p_eq = eq_iff (platform_key Amount lower b) p in
      let u_eq = eq_iff (user_key Amount lower b) u in
      elim (Bool-cases (str_eq j i)) [
        | inl same ↦
            let b_eq : b ≡ a = ground (arith, h, same) in
            let keys : HasKeys p u b = rw b_eq k in absurd (ground (arith, e, p_eq, u_eq, keys))
        | inr other ↦ find_in-none p u i a rest (ground (arith, e)) (ground (arith, h, other)) k
      ]

  pub find_in-some :
      (p u : String) (a : Account Amount lower) (m : Dict (Account Amount lower))
      → IsDistinct m
      → find_in Amount lower p u m ≡ some a
      → (i : String) × (get i m ≡ some a) × HasKeys p u a
  unfolding find_in get
  find_in-some p u a [] d e = absurd (ground (arith, e))
  find_in-some p u a ((j, b) ∷ rest) d e =
      let p_eq = eq_iff (platform_key Amount lower b) p in
      let u_eq = eq_iff (user_key Amount lower b) u in
      elim (Bool-cases
        (str_eq (platform_key Amount lower b) p && str_eq (user_key Amount lower b) u)) [
          | inl hit ↦
              let b_eq : b ≡ a = ground (arith, e, hit) in
              (
                j,
                ground (arith, b_eq, eq_iff j j),
                rw (← b_eq) (ground (arith, hit, p_eq), ground (arith, hit, u_eq)),
              )
          | inr miss ↦
              let (i, there, keys) = find_in-some p u a rest d.1 (ground (arith, e, miss)) in
              (i, ground (arith, there, d.0, eq_iff j i), keys)
        ]

  -- A stored account keeps the others unique, if it is alike to none but the one it replaces.
  pub set-IsUnique :
      (i : String) (r : Account Amount lower) (m : Dict (Account Amount lower))
      → IsUnique m
      → ((j : String) (b : Account Amount lower) → get j m ≡ some b → AreAlike b r → j ≡ i)
      → IsUnique (set i r m)
  set-IsUnique i r m unique alone x y a b ex ey alike =
      let at_x = get-set i x r m in
      let at_y = get-set i y r m in
      elim (Bool-cases (str_eq i x)) [
        | inl xi ↦ elim (Bool-cases (str_eq i y)) [
          | inl yi ↦ ground (arith, xi, yi, eq_iff i x, eq_iff i y)
          | inr yn ↦
              let a_eq : r ≡ a = ground (arith, at_x, ex, xi) in
              let there : get y m ≡ some b = ground (arith, at_y, ey, yn) in
              let found = alone y b there (rw a_eq (sym alike.0, sym alike.1)) in
              ground (arith, xi, eq_iff i x, found)
        ]
        | inr xn ↦
            let there : get x m ≡ some a = ground (arith, at_x, ex, xn) in
            elim (Bool-cases (str_eq i y)) [
              | inl yi ↦
                  let b_eq : r ≡ b = ground (arith, at_y, ey, yi) in
                  ground (arith, yi, eq_iff i y, alone x a there (rw b_eq alike))
              | inr yn ↦ unique x y a b there (ground (arith, at_y, ey, yn)) alike
            ]
      ]

  -- Which account is found in a dictionary without alike accounts.
  pub find_in-own :
      (p u i : String) (a : Account Amount lower) (m : Dict (Account Amount lower))
      → IsDistinct m
      → IsUnique m
      → get i m ≡ some a
      → HasKeys p u a
      → find_in Amount lower p u m ≡ some a
  find_in-own p u i a m d unique there keys = elim (Option-cases (find_in Amount lower p u m)) [
    | inl missed ↦ absurd (find_in-none p u i a m missed there keys)
    | inr (b, found) ↦
        let (j, held, same) = find_in-some p u b m d found in
        let at_i = unique j i b a held there (same.0 ∙ sym keys.0, same.1 ∙ sym keys.1) in
        ground (arith, found, held, there, at_i)
  ]
