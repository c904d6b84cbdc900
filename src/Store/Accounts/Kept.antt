-- ===== src/Store/Accounts/Kept.antt =====
-- The operations of src/state-store/memory/AccountsContainer.mjs on stored accounts keep its
-- invariant.
use betting_automation_contr.Prelude.{
  ℕ, ◌+◌, Option, none, some, [], ◌∷◌, String, ◌≡◌, refl, arith, Bool-cases, inl, inr, Option-cases,
}
use betting_automation_contr.Prelude.Dict.{
  Dict, get, delete, has, get-delete, IsDistinct, set-IsDistinct, delete-IsDistinct,
}
use betting_automation_contr.Store.Accounts.Container.{
  StateUpdate, Account, Accounts, is_stale_call,
}
use betting_automation_contr.Store.Accounts.Changes.{
  updated, update_found, update_execution_state, stopped, stop_each, reset_observed_states,
  delete_account, update_balance, mark_balances_stale,
}
use betting_automation_contr.Store.Accounts.Unique.{IsUnique, set-IsUnique}
use betting_automation_contr.Store.Accounts.Sound.{IsSound, set-IsFiled}

module _ (Amount : Type 0) (lower : String → String) where
  update_found-IsSound :
      (now id : String) (u : StateUpdate) (o : Option (Account Amount lower))
      (c : Accounts Amount lower)
      → get id c.accounts ≡ o
      → IsSound Amount lower c
      → IsSound Amount lower (update_found Amount lower now id u o c).0
  update_found-IsSound now id u none c e s = s
  update_found-IsSound now id u (some a) c e s = record {
    distinct = set-IsDistinct id (updated Amount lower now u a) c.accounts s.distinct;
    unique =
        set-IsUnique Amount lower id (updated Amount lower now u a) c.accounts s.unique
          (λ j b there alike. s.unique j id b a there e alike);
    filed =
        set-IsFiled Amount lower id (updated Amount lower now u a) c.accounts s.filed
          (s.filed id a e);
  }

  pub update_execution_state-IsSound :
      (now id : String) (u : StateUpdate) (expected : Option ℕ) (c : Accounts Amount lower)
      → IsSound Amount lower c
      → IsSound Amount lower (update_execution_state Amount lower now id u expected c).0
  unfolding update_execution_state
  update_execution_state-IsSound now id u expected c s =
      elim (Bool-cases (is_stale_call Amount lower expected c)) [
        | inl e ↦ rw (update_execution_state, e) s
        | inr e ↦
            rw (update_execution_state, e)
              (update_found-IsSound now id u (get id c.accounts) c refl s)
      ]

  abbrev stopped_at :
      String → String → Option (Account Amount lower) → Option (Account Amount lower)
  stopped_at now reason none = none
  stopped_at now reason (some a) = some (stopped Amount lower now reason a)

  get-stop_each :
      (now reason i : String) (m : Dict (Account Amount lower))
      → get i (stop_each Amount lower now reason m) ≡ stopped_at now reason (get i m)
  unfolding stop_each get
  get-stop_each now reason i [] = refl
  get-stop_each now reason i ((j, a) ∷ rest) = ground (arith, get-stop_each now reason i rest)

  stop_each-IsDistinct :
      (now reason : String) (m : Dict (Account Amount lower))
      → IsDistinct m
      → IsDistinct (stop_each Amount lower now reason m)
  unfolding stop_each
  stop_each-IsDistinct now reason [] d = tt
  stop_each-IsDistinct now reason ((j, a) ∷ rest) d = (
    ground (arith, get-stop_each now reason j rest, d.0),
    stop_each-IsDistinct now reason rest d.1,
  )

  -- Where a stopped account comes from.
  stop_each-from :
      (now reason i : String) (a : Account Amount lower) (m : Dict (Account Amount lower))
      → get i (stop_each Amount lower now reason m) ≡ some a
      → (b : Account Amount lower) × (get i m ≡ some b) × (stopped Amount lower now reason b ≡ a)
  stop_each-from now reason i a m h = elim (Option-cases (get i m)) [
    | inl missing ↦ absurd (ground (arith, get-stop_each now reason i m, h, missing))
    | inr (b, there) ↦ (b, there, ground (arith, get-stop_each now reason i m, h, there))
  ]

  pub reset_observed_states-IsSound :
      (now reason : String) (c : Accounts Amount lower)
      → IsSound Amount lower c
      → IsSound Amount lower (reset_observed_states Amount lower now reason c)
  unfolding reset_observed_states
  reset_observed_states-IsSound now reason c s = record {
    distinct = stop_each-IsDistinct now reason c.accounts s.distinct;
    unique = λ i j a b hi hj alike.
        let (x, at_i, x_eq) = stop_each-from now reason i a c.accounts hi in
        let (y, at_j, y_eq) = stop_each-from now reason j b c.accounts hj in
        s.unique i j x y at_i at_j (rw (← x_eq, ← y_eq) at alike);
    filed = λ i a hi.
        let (x, at_i, x_eq) = stop_each-from now reason i a c.accounts hi in
        rw (← x_eq) (s.filed i x at_i);
  }

  delete-IsUnique :
      (id : String) (m : Dict (Account Amount lower))
      → IsUnique Amount lower m
      → IsUnique Amount lower (delete id m)
  delete-IsUnique id m unique i j a b hi hj =
      unique i j a b (ground (arith, get-delete id i m, hi)) (ground (arith, get-delete id j m, hj))

  pub delete_account-IsSound :
      (now id : String) (expected : Option ℕ) (c : Accounts Amount lower)
      → IsSound Amount lower c
      → IsSound Amount lower (delete_account Amount lower now id expected c).0
  unfolding delete_account
  delete_account-IsSound now id expected c s =
      let gone : IsSound Amount lower (record c {
        accounts = delete id c.accounts;
        balances = delete id c.balances;
        revision = c.revision + 1;
        last_updated = now;
      }) =
        record {
          distinct = delete-IsDistinct id c.accounts s.distinct;
          unique = delete-IsUnique id c.accounts s.unique;
          filed = λ i a h. s.filed i a (ground (arith, get-delete id i c.accounts, h));
        } in
      elim (Bool-cases (is_stale_call Amount lower expected c)) [
        | inl e ↦ rw (delete_account, e) s
        | inr e ↦ elim (Bool-cases (has id c.accounts)) [
          | inl f ↦ rw (delete_account, e, f) gone
          | inr f ↦ rw (delete_account, e, f) s
        ]
      ]

  pub mark_balances_stale-IsSound :
      (c : Accounts Amount lower)
      → IsSound Amount lower c
      → IsSound Amount lower (mark_balances_stale Amount lower c)
  unfolding mark_balances_stale
  mark_balances_stale-IsSound c s = record {
    distinct = s.distinct;
    unique = s.unique;
    filed = s.filed;
  }

  pub update_balance-IsSound :
      (now id : String) (amount : Amount) (symbol : Option String) (c : Accounts Amount lower)
      → IsSound Amount lower c
      → IsSound Amount lower (update_balance Amount lower now id amount symbol c).0
  unfolding update_balance
  update_balance-IsSound now id amount symbol c s = elim (Bool-cases (has id c.accounts)) [
    | inl e ↦ rw e (record { distinct = s.distinct; unique = s.unique; filed = s.filed })
    | inr e ↦ rw e s
  ]
