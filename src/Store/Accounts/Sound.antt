-- ===== src/Store/Accounts/Sound.antt =====
-- The invariant of src/state-store/memory/AccountsContainer.mjs, and that `upsert` keeps it.
use betting_automation_contr.Prelude.{
  Bool, false, Option, none, some, String, ◌≡◌, ◌≢◌, refl, sym, ◌∙◌, ap, arith, Bool-cases, inl,
  inr, Option-cases, str_eq, eq_iff, or_text, first_text,
}
use betting_automation_contr.Prelude.Dict.{Dict, get, set, get-set, IsDistinct, set-IsDistinct}
use betting_automation_contr.Store.Sanitizer.{Data}
use betting_automation_contr.Store.Secrets.{has_secret}
use betting_automation_contr.Store.Asserted.{sanitize-has_secret}
use betting_automation_contr.Store.Accounts.Container.{
  Account, AccountData, Accounts, reset, cleaned, find_by_platform_and_username, either, config_of,
  account_record, store_account, is_other, upsert_at,
}
use betting_automation_contr.Store.Accounts.Unique.{
  AreAlike, HasKeys, IsUnique, find_in-none, find_in-some, set-IsUnique,
}

-- A configuration that discloses nothing, or none.
abbrev pub has_secrets : Option Data → Bool
has_secrets none = false
has_secrets (some v) = has_secret v

pub cleaned-has_secrets : (v : Option Data) → has_secrets (cleaned v) ≡ false
cleaned-has_secrets none = refl
cleaned-has_secrets (some v) = let (e, done, clean) = (sanitize-has_secret v).0 in rw done clean

module _ (Amount : Type 0) (lower : String → String) where
  -- Every account is stored under its id, which is not empty, and its configuration and its pending
  -- operation hold no secret.
  abbrev pub IsFiled : Dict (Account Amount lower) → Type 0
  IsFiled m =
      (i : String) (a : Account Amount lower)
      → get i m ≡ some a
      → (a.id ≡ i)
        × (i ≢ "")
        × (has_secrets a.effective_config ≡ false)
        × (has_secrets a.pending_operation ≡ false)

  pub record IsSound (c : Accounts Amount lower) : Type 0 where
    pub distinct : IsDistinct c.accounts
    pub unique : IsUnique Amount lower c.accounts
    pub filed : IsFiled c.accounts

  pub reset-IsSound : (now : String) → IsSound (reset Amount lower now)
  unfolding reset get
  reset-IsSound now = record {
    distinct = tt;
    unique = λ i j a b h k s. absurd (ground (arith, h));
    filed = λ i a h. absurd (ground (arith, h));
  }

  pub set-IsFiled :
      (i : String) (r : Account Amount lower) (m : Dict (Account Amount lower))
      → IsFiled m
      → (r.id ≡ i)
        × (i ≢ "")
        × (has_secrets r.effective_config ≡ false)
        × (has_secrets r.pending_operation ≡ false)
      → IsFiled (set i r m)
  set-IsFiled i r m filed new j a h = elim (Bool-cases (str_eq i j)) [
    | inl same ↦
        let at_j : i ≡ j = (eq_iff i j).0 same in
        let a_eq : r ≡ a = ground (arith, get-set i j r m, h, same) in rw (← at_j, ← a_eq) new
    | inr other ↦ filed j a (ground (arith, get-set i j r m, h, other))
  ]

  store_account-IsSound :
      (now : String) (a : Account Amount lower) (c : Accounts Amount lower)
      → IsSound c
      → (a.id ≢ "")
      → (has_secrets a.effective_config ≡ false)
      → (has_secrets a.pending_operation ≡ false)
      → ((j : String) (b : Account Amount lower)
          → get j c.accounts ≡ some b
          → AreAlike Amount lower b a
          → j ≡ a.id)
      → IsSound (store_account Amount lower now a c).0
  unfolding store_account
  store_account-IsSound now a c s named plain idle alone = record {
    distinct = set-IsDistinct a.id a c.accounts s.distinct;
    unique = set-IsUnique Amount lower a.id a c.accounts s.unique alone;
    filed = set-IsFiled a.id a c.accounts s.filed (refl, named, plain, idle);
  }

-- The key of a stored record is the key that was looked for.
unnamed-key :
    (lower : String → String) (id : Option String) (platform : String)
    → lower "" ≡ ""
    → id ≡ some platform
    → lower (or_text (some platform) (or_text id (lower platform))) ≡ lower platform
unnamed-key lower id platform empty e = elim (Bool-cases (str_eq platform "")) [
  | inl b ↦
      let none_at : platform ≡ "" = (eq_iff platform "").0 b in rw (e, none_at) (ap lower empty)
  | inr b ↦ rw b refl
]

pub record-key :
    (lower : String → String) (name id : Option String) (platform : String)
    → lower "" ≡ ""
    → first_text name id ≡ some platform
    → lower (or_text (some (or_text name platform)) (or_text id (lower platform))) ≡ lower platform
record-key lower none id platform empty e = unnamed-key lower id platform empty e
record-key lower (some s) id platform empty e = elim (Bool-cases (str_eq s "")) [
  | inl b ↦ rw b (unnamed-key lower id platform empty (ground (arith, e, b)))
  | inr b ↦ let s_eq : s ≡ platform = ground (arith, e, b) in rw (b, b) (ap lower s_eq)
]

module _ (Amount : Type 0) (lower : String → String) (lower_empty : lower "" ≡ "") where
  -- What `upsert` found has the keys that it looked for, and lies under its id.
  pub found-filed :
      (platform user : String) (c : Accounts Amount lower) (e : Account Amount lower)
      → IsSound Amount lower c
      → find_by_platform_and_username Amount lower platform user c ≡ some e
      → (i : String) × (get i c.accounts ≡ some e)
        × (e.id ≡ i)
        × (i ≢ "")
        × HasKeys Amount lower (lower platform) (lower user) e
        × (has_secrets e.effective_config ≡ false)
  unfolding find_by_platform_and_username
  found-filed platform user c e s h =
      let (i, there, keys) =
        find_in-some Amount lower (lower platform) (lower user) e c.accounts s.distinct h in
      let (at_i, named, plain, idle) = s.filed i e there in (i, there, at_i, named, keys, plain)

  either-has_secrets :
      (v w : Option Data)
      → has_secrets v ≡ false
      → has_secrets w ≡ false
      → has_secrets (either Amount lower v w) ≡ false
  either-has_secrets none w hv hw = hw
  either-has_secrets (some v) w hv hw = hv

  config_of-has_secrets :
      (platform user : String) (c : Accounts Amount lower)
      → IsSound Amount lower c
      → has_secrets
          (config_of Amount lower (find_by_platform_and_username Amount lower platform user c))
        ≡ false
  config_of-has_secrets platform user c s =
      elim (Option-cases (find_by_platform_and_username Amount lower platform user c)) [
        | inl missed ↦ rw missed refl
        | inr (e, h) ↦ rw h (found-filed platform user c e s h).5
      ]

  or_text-named : (v : Option String) (fresh : String) → fresh ≢ "" → or_text v fresh ≢ ""
  or_text-named none fresh new h = new h
  or_text-named (some t) fresh new h = ground (arith, h, new, eq_iff t "")

  own_id :
      (d : AccountData Amount lower) (f : Account Amount lower) (j fresh : String)
      → is_other Amount lower d (some f) ≡ false
      → j ≡ f.id
      → f.id ≢ ""
      → j ≡ or_text d.id fresh
  own_id d f j fresh own e named = elim (Option-cases d.id) [
    | inl h ↦ absurd (ground (arith, own, h))
    | inr (t, h) ↦
        let t_eq : f.id ≡ t = ground (arith, own, h, eq_iff f.id t) in
        rw h (ground (arith, e, t_eq, named, eq_iff t ""))
  ]

  -- Only the record that it replaces is alike to the one that `upsert` stores.
  account_record-alone :
      (now fresh platform : String) (d : AccountData Amount lower) (c : Accounts Amount lower)
      (j : String) (b : Account Amount lower)
      → let found = find_by_platform_and_username Amount lower platform d.account_username c in
        let a = account_record Amount lower now fresh platform d found c in
        first_text d.platform_display_name d.platform_id ≡ some platform
        → is_other Amount lower d found ≡ false
        → IsSound Amount lower c
        → get j c.accounts ≡ some b
        → AreAlike Amount lower b a
        → j ≡ a.id
  unfolding account_record find_by_platform_and_username
  account_record-alone now fresh platform d c j b e own s there alike =
      let keys : HasKeys Amount lower (lower platform) (lower d.account_username) b = (
        alike.0 ∙ record-key lower d.platform_display_name d.platform_id platform lower_empty e,
        alike.1,
      ) in
      elim (Option-cases
        (find_by_platform_and_username Amount lower platform d.account_username c)) [
          | inl missed ↦ absurd (
              find_in-none Amount lower (lower platform) (lower d.account_username) j b c.accounts
                missed there keys)
          | inr (f, h) ↦
              let (i, at_i, id_eq, named, same, plain) =
                found-filed platform d.account_username c f s h in
              let j_eq = s.unique j i b f there at_i (keys.0 ∙ sym same.0, keys.1 ∙ sym same.1) in
              own_id d f j fresh (rw (← h) own) (j_eq ∙ sym id_eq) (rw (id_eq) named)
        ]

  pub upsert_at-IsSound :
      (now fresh : String) (d : AccountData Amount lower) (platform : Option String)
      (c : Accounts Amount lower)
      → first_text d.platform_display_name d.platform_id ≡ platform
      → fresh ≢ ""
      → IsSound Amount lower c
      → IsSound Amount lower (upsert_at Amount lower now fresh d platform c).0
  unfolding account_record
  upsert_at-IsSound now fresh d none c e new s = s
  upsert_at-IsSound now fresh d (some platform) c e new s =
      let found = find_by_platform_and_username Amount lower platform d.account_username c in
      let a = account_record Amount lower now fresh platform d found c in
      elim (Bool-cases (is_other Amount lower d found)) [
        | inl other ↦ rw other s
        | inr own ↦ rw own (
            store_account-IsSound Amount lower now a c s (or_text-named d.id fresh new)
              (either-has_secrets (cleaned d.effective_config) (config_of Amount lower found)
                (cleaned-has_secrets d.effective_config)
                (config_of-has_secrets platform d.account_username c s))
              (cleaned-has_secrets d.pending_operation)
              (λ j b there alike.
                account_record-alone now fresh platform d c j b e own s there alike))
      ]
