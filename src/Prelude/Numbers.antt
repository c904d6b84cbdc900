-- ===== src/Prelude/Numbers.antt =====
-- A JavaScript `Set` of numbers: its elements in insertion order.
use Prim.Native.Nat.{ℕ, ◌≤◌}
use mathlib.Core.Path.{◌≡◌}
use mathlib.Core.List.{List, [], ◌∷◌}
use mathlib.Core.Bool.{Bool, true, false, not, ◌&&◌, ◌||◌}
use native.Mathlib.Omega.{arith}
use betting_automation_contr.Prelude.Tests.{if◌then◌else◌, ◌==◌}
use betting_automation_contr.Prelude.Lists.{length}

-- `has`, `add` and `delete`.
unfoldable pub includes : ℕ → List ℕ → Bool
includes n [] = false
includes n (m ∷ ms) = m == n || includes n ms

unfoldable pub insert : ℕ → List ℕ → List ℕ
insert n [] = n ∷ []
insert n (m ∷ ms) = if m == n then m ∷ ms else m ∷ insert n ms

unfoldable pub discard : ℕ → List ℕ → List ℕ
discard n [] = []
discard n (m ∷ ms) = let rest = discard n ms in if m == n then rest else m ∷ rest

abbrev pub is_empty {ℓ} : {A : Type ℓ} → List A → Bool
is_empty [] = true
is_empty (x ∷ xs) = false

pub includes-insert : (n k : ℕ) (ms : List ℕ) → includes k (insert n ms) ≡ (n == k || includes k ms)
unfolding includes insert
includes-insert n k [] = ground arith
includes-insert n k (m ∷ ms) = ground (arith, includes-insert n k ms)

pub includes-discard :
    (n k : ℕ) (ms : List ℕ) → includes k (discard n ms) ≡ (not (n == k) && includes k ms)
unfolding includes discard
includes-discard n k [] = ground arith
includes-discard n k (m ∷ ms) = ground (arith, includes-discard n k ms)

pub length-discard_le : (n : ℕ) (ms : List ℕ) → length (discard n ms) ≤ length ms
unfolding discard
length-discard_le n [] = omega arith
length-discard_le n (m ∷ ms) = ground (arith, length-discard_le n ms)
