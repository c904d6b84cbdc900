-- ===== src/Store/Accounts/Hydrated.antt =====
-- `hydrate` of src/state-store/memory/AccountsContainer.mjs keeps the invariant, of rows that are
-- apart.
use betting_automation_contr.Prelude.{
  ℕ, Option, some, List, [], ◌∷◌, String, ◌≡◌, ◌≢◌, refl, arith, Bool-cases, inl, inr, str_eq,
  eq_iff, All,
}
use betting_automation_contr.Prelude.Dict.{Dict, get, set, get-set, set-IsDistinct}
use betting_automation_contr.Store.Accounts.Container.{Account, Accounts}
use betting_automation_contr.Store.Accounts.Changes.{
  RawAccount, hydrated, hydrated_balance, hydrate_each, hydrate_accounts,
}
use betting_automation_contr.Store.Accounts.Unique.{AreAlike, set-IsUnique}
use betting_automation_contr.Store.Accounts.Sound.{IsSound, set-IsFiled, cleaned-has_secrets}

module _ (Amount : Type 0) (lower : String → String) where
  -- Two rows of one platform and one user, up to the case of letters, have one id.
  abbrev pub IsApart : RawAccount Amount lower → RawAccount Amount lower → Type 0
  IsApart r q = AreAlike Amount lower r.fields q.fields → r.fields.id ≡ q.fields.id

  -- No id is empty, and each two rows are apart.
  abbrev pub AreApart : List (RawAccount Amount lower) → Type 0
  AreApart [] = Unit
  AreApart (r ∷ rs) = (r.fields.id ≢ "") × All (IsApart r) rs × AreApart rs

  -- Only the account that a row replaces is alike to it.
  abbrev Fits : Dict (Account Amount lower) → RawAccount Amount lower → Type 0
  Fits m r =
      (j : String) (b : Account Amount lower)
      → get j m ≡ some b
      → AreAlike Amount lower b r.fields
      → j ≡ r.fields.id

  set-Fits :
      (a : Account Amount lower) (r : RawAccount Amount lower) (rs : List (RawAccount Amount lower))
      (m : Dict (Account Amount lower))
      → AreAlike Amount lower a r.fields
      → a.id ≡ r.fields.id
      → All (IsApart r) rs
      → All (Fits m) rs
      → All (Fits (set a.id a m)) rs
  set-Fits a r [] m keys id_eq apart fits = tt
  set-Fits a r (q ∷ rs) m keys id_eq apart fits = (
    λ j b h alike. elim (Bool-cases (str_eq a.id j)) [
      | inl same ↦
          let b_eq : a ≡ b = ground (arith, get-set a.id j a m, h, same) in
          let at_j : a.id ≡ j = (eq_iff a.id j).0 same in
          let keys_b : AreAlike Amount lower b r.fields = rw (← b_eq) keys in
          ground (
            arith,
            at_j,
            id_eq,
            apart.0 (ground (arith, keys_b.0, alike.0), ground (arith, keys_b.1, alike.1)),
          )
      | inr other ↦ fits.0 j b (ground (arith, get-set a.id j a m, h, other)) alike
    ],
    set-Fits a r rs m keys id_eq apart.1 fits.1,
  )

  hydrate_each-IsSound :
      (now : String) (old : Dict (Account Amount lower)) (rows : List (RawAccount Amount lower))
      (c : Accounts Amount lower)
      → AreApart rows
      → All (Fits c.accounts) rows
      → IsSound Amount lower c
      → IsSound Amount lower (hydrate_each Amount lower now old rows c)
  unfolding hydrate_each
  hydrate_each-IsSound now old [] c apart fits s = s
  hydrate_each-IsSound now old (r ∷ rs) c (named, apart, rest) fits s =
      let a = hydrated Amount lower old r in
      let stored : IsSound Amount lower (record c {
        accounts = set a.id a c.accounts;
        balances = hydrated_balance Amount lower now a c.balances;
      }) =
        record {
          distinct = set-IsDistinct a.id a c.accounts s.distinct;
          unique = set-IsUnique Amount lower a.id a c.accounts s.unique fits.0;
          filed = set-IsFiled Amount lower a.id a c.accounts s.filed (
            refl,
            named,
            cleaned-has_secrets r.fields.effective_config,
            cleaned-has_secrets r.fields.pending_operation,
          );
        } in
      hydrate_each-IsSound now old rs
        (record c {
          accounts = set a.id a c.accounts;
          balances = hydrated_balance Amount lower now a c.balances;
        })
        rest (set-Fits a r rs c.accounts (refl, refl) refl apart fits.1) stored

  Fits-empty : (rows : List (RawAccount Amount lower)) → All (Fits []) rows
  unfolding get
  Fits-empty [] = tt
  Fits-empty (r ∷ rs) = (λ j b h alike. absurd (ground (arith, h)), Fits-empty rs)

  pub hydrate_accounts-IsSound :
      (now : String) (rows : List (RawAccount Amount lower)) (revision : Option ℕ)
      (c : Accounts Amount lower)
      → AreApart rows
      → IsSound Amount lower (hydrate_accounts Amount lower now rows revision c)
  unfolding hydrate_accounts get
  hydrate_accounts-IsSound now rows revision c apart =
      let s =
        hydrate_each-IsSound now c.accounts rows (record c { accounts = [] }) apart
          (Fits-empty rows)
          (record {
            distinct = tt;
            unique = λ i j a b h k e. absurd (ground (arith, h));
            filed = λ i a h. absurd (ground (arith, h));
          }) in
      record { distinct = s.distinct; unique = s.unique; filed = s.filed }
