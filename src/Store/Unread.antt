-- ===== src/Store/Unread.antt =====
-- The unread count of src/state-store/memory/NotificationsContainer.mjs.
use betting_automation_contr.Prelude.{
  ℕ, ◌+◌, false, Bool-cases, none, some, [], ◌∷◌, String, ◌≡◌, inl, inr, refl, arith, str_eq,
  eq_iff, if◌then◌else◌,
}
use betting_automation_contr.Prelude.Dict.{Dict, get, set, delete, IsDistinct}
use betting_automation_contr.Store.Notifications.{Notification, all_read, is_any_unread}

-- How many entries are not read.
unfoldable pub unread : Dict Notification → ℕ
unread [] = 0
unread ((k, n) ∷ m) = let rest = unread m in if n.read then rest else rest + 1

abbrev weight : Notification → ℕ
weight n = if n.read then 0 else 1

pub unread-set_new :
    (k : String) (n : Notification) (m : Dict Notification)
    → get k m ≡ none
    → unread (set k n m) ≡ unread m + weight n
unfolding unread get set
unread-set_new k n [] h = ground arith
unread-set_new k n ((j, x) ∷ m) h = ground (arith, unread-set_new k n m)

pub unread-set_over :
    (k : String) (n x : Notification) (m : Dict Notification)
    → get k m ≡ some x
    → unread (set k n m) + weight x ≡ unread m + weight n
unfolding unread get set
unread-set_over k n x [] h = cc
unread-set_over k n x ((j, y) ∷ m) h = ground (arith, unread-set_over k n x m)

delete-absent : (k : String) (m : Dict Notification) → get k m ≡ none → delete k m ≡ m
unfolding get delete
delete-absent k [] h = refl
delete-absent k ((j, x) ∷ m) h = ground (arith, delete-absent k m)

pub unread-delete :
    (k : String) (x : Notification) (m : Dict Notification)
    → IsDistinct m
    → get k m ≡ some x
    → unread (delete k m) + weight x ≡ unread m
unfolding unread get delete
unread-delete k x [] d h = cc
unread-delete k x ((j, y) ∷ m) d h = elim (Bool-cases (str_eq j k)) [
  | inl same ↦
      let q : j ≡ k = (eq_iff j k).0 same in
      let gone : delete k m ≡ m = delete-absent k m (rw (← q) d.0) in ground (arith, gone)
  | inr other ↦ ground (arith, unread-delete k x m d.1)
]

pub unread-all_read : (m : Dict Notification) → unread (all_read m) ≡ 0
unfolding unread all_read
unread-all_read [] = refl
unread-all_read ((k, n) ∷ m) = ground (arith, unread-all_read m)

unread-is_any_unread : (m : Dict Notification) → is_any_unread m ≡ false → unread m ≡ 0
unfolding unread is_any_unread
unread-is_any_unread [] h = refl
unread-is_any_unread ((k, n) ∷ m) h = ground (arith, unread-is_any_unread m)
