-- ===== src/Store/Accounts/Stored.antt =====
-- What an accepted `upsert` of src/state-store/memory/AccountsContainer.mjs stores.
use betting_automation_contr.Prelude.{
  ℕ, true, false, Option, some, String, ◌≡◌, refl, arith, Bool-cases, inl, inr, Option-cases,
  eq_iff, first_text,
}
use betting_automation_contr.Prelude.Dict.{get}
use betting_automation_contr.Store.Passwords.{is_masked_password}
use betting_automation_contr.Store.Accounts.Container.{
  accepted, Account, AccountData, Accounts, find_by_platform_and_username, is_stale_call, is_other,
  existing_record, account_record, store_account, upsert,
}
use betting_automation_contr.Store.Accounts.Sound.{found-filed}
use betting_automation_contr.Store.Accounts.Runs.{Reachable, Reachable-IsSound}

module _ (Amount : Type 0) (lower : String → String) where
  -- How `upsert` came to an accepted account.
  record IsStored (now new platform : String) (d : AccountData Amount lower) (expected : Option ℕ)
      (c : Accounts Amount lower) (a : Account Amount lower) : Type 0 where
    fits : is_stale_call Amount lower expected c ≡ false
    own :
        is_other Amount lower d
          (find_by_platform_and_username Amount lower platform d.account_username c)
        ≡ false
    made :
        account_record Amount lower now new platform d
          (find_by_platform_and_username Amount lower platform d.account_username c)
          c
        ≡ a
    stored : (upsert Amount lower now new d expected c).0 ≡ (store_account Amount lower now a c).0

  upsert-IsStored :
      (now new platform : String) (d : AccountData Amount lower) (expected : Option ℕ)
      (c : Accounts Amount lower) (a : Account Amount lower)
      → first_text d.platform_display_name d.platform_id ≡ some platform
      → (upsert Amount lower now new d expected c).1 ≡ accepted a
      → IsStored now new platform d expected c a
  unfolding upsert store_account
  upsert-IsStored now new platform d expected c a p e =
      let found = find_by_platform_and_username Amount lower platform d.account_username c in
      elim (Bool-cases (is_stale_call Amount lower expected c)) [
        | inl stale ↦ absurd (ground (arith, e, stale))
        | inr fresh ↦ elim (Bool-cases (is_other Amount lower d found)) [
          | inl other ↦ absurd (ground (arith, e, fresh, p, other))
          | inr own ↦
              let made : account_record Amount lower now new platform d found c ≡ a =
                ground (arith, e, fresh, p, own) in
              record {
                fits = fresh;
                own = own;
                made = made;
                stored = rw (upsert, fresh, p, own, made) refl;
              }
        ]
      ]

  masked-kept :
      (d : AccountData Amount lower) (found : Option (Account Amount lower))
      (c : Accounts Amount lower) (now new platform : String) (old : Account Amount lower)
      → existing_record Amount lower d found c ≡ some old
      → is_masked_password d.account_password ≡ true
      → is_masked_password (some old.account_password) ≡ false
      → (account_record Amount lower now new platform d found c).account_password
        ≡ old.account_password
  unfolding account_record
  masked-kept d found c now new platform old e masked plain = ground (arith, e, masked, plain)

  -- An accepted `upsert` of a stored account, named by its id, whose new password is missing, empty
  -- or a mask keeps a stored password that is itself neither empty nor a mask, also when it moves
  -- the account to another platform or user. The
  -- container is one that calls lead to, hydrations included: every generated id is not empty, and
  -- the rows of a hydration have ids that are not empty and one id where they have one platform
  -- and user.
  pub upsert-keeps_password :
      (now new platform i : String) (d : AccountData Amount lower) (expected : Option ℕ)
      (c : Accounts Amount lower) (old a : Account Amount lower)
      → lower "" ≡ ""
      → Reachable Amount lower c
      → first_text d.platform_display_name d.platform_id ≡ some platform
      → d.id ≡ some i
      → get i c.accounts ≡ some old
      → is_masked_password d.account_password ≡ true
      → is_masked_password (some old.account_password) ≡ false
      → (upsert Amount lower now new d expected c).1 ≡ accepted a
      → a.account_password ≡ old.account_password
  upsert-keeps_password now new platform i d expected c old a empty r p id_eq there masked plain e =
      let how = upsert-IsStored now new platform d expected c a p e in
      let s = Reachable-IsSound Amount lower empty c r in
      let (at_i, named, _, _) = s.filed i old there in
      let found = find_by_platform_and_username Amount lower platform d.account_username c in
      elim (Option-cases found) [
        | inl missed ↦
            let known : existing_record Amount lower d found c ≡ some old =
              ground (arith, missed, id_eq, there, named, eq_iff i "") in
            rw (← how.made) (masked-kept d found c now new platform old known masked plain)
        | inr (f, h) ↦
            let (k, at_k, f_id, _, _, _) =
              found-filed Amount lower empty platform d.account_username c f s h in
            let k_eq : i ≡ k = ground (arith, how.own, h, id_eq, f_id, eq_iff f.id i) in
            let known : existing_record Amount lower d found c ≡ some old =
              ground (arith, h, there, at_k, k_eq) in
            rw (← how.made) (masked-kept d found c now new platform old known masked plain)
      ]
