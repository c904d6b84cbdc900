-- ===== src/Prelude/Dict.antt =====
-- A JavaScript `Map` with text keys: its entries in insertion order. `set` on a present key
-- writes in place; on a new key it appends.
use Prim.Native.Nat.{◌+◌, ◌≤◌, ◌<◌}
use Prim.Native.String.{String}
use mathlib.Core.Path.{◌≡◌, refl}
use mathlib.Core.List.{List, [], ◌∷◌}
use mathlib.Core.Bool.{Bool, true, false}
use mathlib.Core.Logic.{◌≢◌, inl, inr}
use mathlib.Core.Option.{Option, none, some}
use native.Mathlib.Omega.{arith}
use text.Mathlib.Text.{◌==◌ as str_eq}
use text.Mathlib.TextEquality.{eq_iff}
use betting_automation_contr.Prelude.Tests.{if◌then◌else◌, is_some, Bool-cases}
use betting_automation_contr.Prelude.Lists.{length}

abbrev pub Dict {ℓ} : Type ℓ → Type ℓ
Dict V = List (String × V)

-- Text comparison does not care about the order of its sides.
eq_false : (k j : String) → str_eq j k ≡ false → str_eq k j ≡ false
eq_false k j h = ground (arith, eq_iff k j, eq_iff j k)

module _ {ℓ} {V : Type ℓ} where
  unfoldable pub get : String → Dict V → Option V
  get k [] = none
  get k ((j, v) ∷ m) = if str_eq j k then some v else get k m

  unfoldable pub set : String → V → Dict V → Dict V
  set k v [] = (k, v) ∷ []
  set k v ((j, w) ∷ m) = if str_eq j k then (j, v) ∷ m else (j, w) ∷ set k v m

  unfoldable pub delete : String → Dict V → Dict V
  delete k [] = []
  delete k ((j, w) ∷ m) = let rest = delete k m in if str_eq j k then rest else (j, w) ∷ rest

  abbrev pub has : String → Dict V → Bool
  has k m = is_some (get k m)

  -- `keys().next().value`
  abbrev pub first_key : Dict V → Option String
  first_key [] = none
  first_key ((k, v) ∷ m) = some k

  -- Reading after a write, at any key.
  pub get-set :
      (k j : String) (v : V) (m : Dict V)
      → get j (set k v m) ≡ (if str_eq k j then some v else get j m)
  unfolding get set
  get-set k j v [] = refl
  get-set k j v ((i, w) ∷ m) = ground (arith, eq_iff k j, eq_iff i k, eq_iff i j, get-set k j v m)

  pub get-delete :
      (k j : String) (m : Dict V) → get j (delete k m) ≡ (if str_eq k j then none else get j m)
  unfolding get delete
  get-delete k j [] = ground arith
  get-delete k j ((i, w) ∷ m) = ground (arith, eq_iff k j, eq_iff i k, eq_iff i j, get-delete k j m)

  pub length-delete-le : (k : String) (m : Dict V) → length (delete k m) ≤ length m
  unfolding delete
  length-delete-le k [] = omega arith
  length-delete-le k ((j, w) ∷ m) = ground (arith, length-delete-le k m)

  pub length-set-le : (k : String) (v : V) (m : Dict V) → length (set k v m) ≤ length m + 1
  unfolding set
  length-set-le k v [] = omega arith
  length-set-le k v ((j, w) ∷ m) = ground (arith, length-set-le k v m)

  -- Writing a new key adds one entry.
  pub length-set_new :
      (k : String) (v : V) (m : Dict V) → get k m ≡ none → length (set k v m) ≡ length m + 1
  unfolding get set
  length-set_new k v [] h = omega arith
  length-set_new k v ((j, w) ∷ m) h = ground (arith, length-set_new k v m)

  -- Deleting the oldest key removes at least one entry.
  pub length-delete_first :
      (k : String) (m : Dict V) → first_key m ≡ some k → length (delete k m) < length m
  unfolding delete
  length-delete_first k [] h = absurd (ground arith)
  length-delete_first k ((j, w) ∷ m) h = ground (arith, eq_iff j k, length-delete-le k m)

  -- A present key is removed by `delete`.
  pub length-delete_present :
      (k : String) (v : V) (m : Dict V) → get k m ≡ some v → length (delete k m) < length m
  unfolding get delete
  length-delete_present k v [] h = cc
  length-delete_present k v ((j, w) ∷ m) h =
      ground (arith, length-delete-le k m, length-delete_present k v m)

  -- No key twice, as in a `Map` or under a primary key.
  abbrev pub IsDistinct : Dict V → Type ℓ
  IsDistinct [] = Unit
  IsDistinct ((k, v) ∷ m) = (get k m ≡ none) × IsDistinct m

  pub set-IsDistinct : (k : String) (v : V) (m : Dict V) → IsDistinct m → IsDistinct (set k v m)
  unfolding set get
  set-IsDistinct k v [] d = (refl, tt)
  set-IsDistinct k v ((j, w) ∷ m) d = elim (Bool-cases (str_eq j k)) [
    | inl same ↦ rw same d
    | inr other ↦ rw other (rw (get-set, eq_false k j other) d.0, set-IsDistinct k v m d.1)
  ]

  pub get-delete-none : (k j : String) (m : Dict V) → get j m ≡ none → get j (delete k m) ≡ none
  get-delete-none k j m h = ground (arith, get-delete k j m)

  pub delete-IsDistinct : (k : String) (m : Dict V) → IsDistinct m → IsDistinct (delete k m)
  unfolding delete
  delete-IsDistinct k [] d = tt
  delete-IsDistinct k ((j, w) ∷ m) d = elim (Bool-cases (str_eq j k)) [
    | inl same ↦ rw same (delete-IsDistinct k m d.1)
    | inr other ↦ rw other (get-delete-none k j m d.0, delete-IsDistinct k m d.1)
  ]

  pub get-set_self : (k : String) (v : V) (m : Dict V) → get k (set k v m) ≡ some v
  get-set_self k v m = ground (arith, get-set k k v m, eq_iff k k)

  pub get-set_ne : (k j : String) (v : V) (m : Dict V) → k ≢ j → get j (set k v m) ≡ get j m
  get-set_ne k j v m ne = ground (arith, get-set k j v m, eq_iff k j)

  pub has-set_self : (k : String) (v : V) (m : Dict V) → has k (set k v m) ≡ true
  has-set_self k v m = ground (arith, get-set_self k v m)
