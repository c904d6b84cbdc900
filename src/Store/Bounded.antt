-- ===== src/Store/Bounded.antt =====
-- What holds of every state that the operations of
-- src/state-store/memory/NotificationsContainer.mjs reach from a new container.
use betting_automation_contr.Prelude.{
  ℕ, ◌+◌, ◌≤◌, ◌<◌, true, false, Bool-cases, Option-cases, none, some, [], ◌∷◌, String, ◌≡◌, ◌≢◌,
  inl, inr, refl, arith, leb, length, str_eq, eq_iff,
}
use betting_automation_contr.Prelude.Dict.{
  Dict, get, set, delete, first_key, IsDistinct, set-IsDistinct, delete-IsDistinct, get-delete-none,
  length-set_new, length-delete_first, length-delete-le, get-set,
}
use betting_automation_contr.Store.Notifications.{
  Notification, Incoming, Notifications, reset, record_of, discount, make_room, put, add, remove,
  as_read, mark_read, all_read, is_any_unread, mark_all_read, clear_all,
}
use betting_automation_contr.Store.Unread.{
  unread, unread-set_new, unread-set_over, unread-delete, unread-all_read,
}

-- One operation; a notification that is added has a new id.
pub data Step (s : Notifications) : Notifications → Type 0 where
  added :
      (now : ℕ) (stamp : String) (n : Incoming)
      → get (record_of now stamp n).id s.notifications ≡ none
      → (record_of now stamp n).id ≢ ""
      → Step s (add now stamp n s)
  removed : (id : String) → Step s (remove id s).0
  marked : (id : String) → Step s (mark_read id s).0
  all_marked : Step s (mark_all_read s).0
  cleared : Step s (clear_all s).0

pub data Reachable : Notifications → Type 0 where
  start : Reachable reset
  more : {s t : Notifications} → Reachable s → Step s t → Reachable t

record IsSound (s : Notifications) : Type 0 where
  distinct : IsDistinct s.notifications
  named : get "" s.notifications ≡ none
  counted : s.unread_count ≡ unread s.notifications
  bounded : length s.notifications ≤ 100

first_key-named :
    (m : Dict Notification) (k : String)
    → get "" m ≡ none
    → first_key m ≡ some k
    → str_eq k "" ≡ false
unfolding get
first_key-named [] k h f = absurd (ground arith)
first_key-named ((j, x) ∷ m) k h f = ground (arith, eq_iff j k, eq_iff k "", eq_iff j "")

first_key-none : (m : Dict Notification) → first_key m ≡ none → leb 100 (length m) ≡ true → ⊥
first_key-none [] f h = ground (arith, h)
first_key-none ((j, x) ∷ m) f h = ground (arith, f)

get-first_key :
    (m : Dict Notification) (k : String)
    → first_key m ≡ some k
    → (x : Notification) × (get k m ≡ some x)
unfolding get
get-first_key [] k f = absurd (ground arith)
get-first_key ((j, x) ∷ m) k f = (x, ground (arith, eq_iff j k))

discount-delete :
    (k : String) (x : Notification) (s : Notifications)
    → IsSound s
    → get k s.notifications ≡ some x
    → discount (some x) s.unread_count ≡ unread (delete k s.notifications)
discount-delete k x s i h =
    ground (arith, i.counted, unread-delete k x s.notifications i.distinct h)

delete-IsSound :
    (k : String) (x : Notification) (r : ℕ) (s : Notifications)
    → IsSound s
    → get k s.notifications ≡ some x
    → IsSound (record {
      notifications = delete k s.notifications;
      unread_count = discount (some x) s.unread_count;
      revision = r;
    })
delete-IsSound k x r s i h = record {
  distinct = delete-IsDistinct k s.notifications i.distinct;
  named = get-delete-none k "" s.notifications i.named;
  counted = discount-delete k x s i h;
  bounded = omega (arith, length-delete-le k s.notifications, i.bounded);
}

length-set_over :
    (k : String) (n x : Notification) (m : Dict Notification)
    → get k m ≡ some x
    → length (set k n m) ≡ length m
unfolding get set
length-set_over k n x [] h = cc
length-set_over k n x ((j, y) ∷ m) h = ground (arith, length-set_over k n x m)

-- After `make_room` there is room, and a new id is still new.
make_room-IsSound :
    (id : String) (s : Notifications)
    → IsSound s
    → get id s.notifications ≡ none
    → IsSound (make_room s)
      × (length (make_room s).notifications < 100)
      × (get id (make_room s).notifications ≡ none)
unfolding make_room
make_room-IsSound id s i fresh = elim (Bool-cases (leb 100 (length s.notifications))) [
  | inr room ↦ rw room (i, ground (arith, room), fresh)
  | inl full ↦ elim (Option-cases (first_key s.notifications)) [
    | inl nothing ↦ absurd (first_key-none s.notifications nothing full)
    | inr (k, oldest) ↦
        let (x, held) = get-first_key s.notifications k oldest in
        rw (full, oldest, first_key-named s.notifications k i.named oldest, held)
          (
            delete-IsSound k x s.revision s i held,
            omega (arith, length-delete_first k s.notifications oldest, i.bounded),
            get-delete-none k id s.notifications fresh,
          )
  ]
]

put-IsSound :
    (n : Notification) (s : Notifications)
    → IsSound s
    → get n.id s.notifications ≡ none
    → n.id ≢ ""
    → length s.notifications < 100
    → IsSound (put n s)
unfolding put
put-IsSound n s i fresh named room = record {
  distinct = set-IsDistinct n.id n s.notifications i.distinct;
  named = ground (arith, get-set n.id "" n s.notifications, eq_iff n.id "", i.named);
  counted = ground (arith, unread-set_new n.id n s.notifications fresh, i.counted);
  bounded = omega (arith, length-set_new n.id n s.notifications fresh);
}

mark_read-IsSound : (id : String) (s : Notifications) → IsSound s → IsSound (mark_read id s).0
unfolding mark_read
mark_read-IsSound id s i = elim (Option-cases (get id s.notifications)) [
  | inl missing ↦ rw (mark_read, missing) i
  | inr (n, held) ↦ elim (Bool-cases n.read) [
    | inl already ↦ rw (mark_read, held, already) i
    | inr new ↦
        rw (mark_read, held, new)
          (record {
            distinct = set-IsDistinct id (as_read n) s.notifications i.distinct;
            named =
                ground
                  (arith, get-set id "" (as_read n) s.notifications, eq_iff id "", i.named, held);
            counted =
                ground
                  (arith, unread-set_over id (as_read n) n s.notifications held, i.counted, new);
            bounded =
                omega (arith, length-set_over id (as_read n) n s.notifications held, i.bounded);
          })
  ]
]

get-all_read : (k : String) (m : Dict Notification) → get k m ≡ none → get k (all_read m) ≡ none
unfolding get all_read
get-all_read k [] h = refl
get-all_read k ((j, x) ∷ m) h = ground (arith, get-all_read k m)

all_read-IsDistinct : (m : Dict Notification) → IsDistinct m → IsDistinct (all_read m)
unfolding all_read
all_read-IsDistinct [] d = tt
all_read-IsDistinct ((k, x) ∷ m) d = (get-all_read k m d.0, all_read-IsDistinct m d.1)

length-all_read : (m : Dict Notification) → length (all_read m) ≡ length m
unfolding all_read
length-all_read [] = refl
length-all_read ((k, x) ∷ m) = omega (arith, length-all_read m)

mark_all_read-IsSound : (s : Notifications) → IsSound s → IsSound (mark_all_read s).0
unfolding mark_all_read
mark_all_read-IsSound s i = elim (Bool-cases (is_any_unread s.notifications)) [
  | inr nothing ↦ rw nothing i
  | inl some_unread ↦ rw some_unread (record {
    distinct = all_read-IsDistinct s.notifications i.distinct;
    named = get-all_read "" s.notifications i.named;
    counted = ground (arith, unread-all_read s.notifications);
    bounded = omega (arith, length-all_read s.notifications, i.bounded);
  })
]

remove-IsSound : (id : String) (s : Notifications) → IsSound s → IsSound (remove id s).0
unfolding remove
remove-IsSound id s i = elim (Option-cases (get id s.notifications)) [
  | inl missing ↦ rw (remove, missing) i
  | inr (n, held) ↦ rw (remove, held) (delete-IsSound id n (s.revision + 1) s i held)
]

Step-IsSound : {s t : Notifications} → Step s t → IsSound s → IsSound t
unfolding add clear_all unread get
Step-IsSound {s} (added now stamp n fresh named) i =
    let (sound, room, still) = make_room-IsSound (record_of now stamp n).id s i fresh in
    put-IsSound (record_of now stamp n) (make_room s) sound still named room
Step-IsSound {s} (removed id) i = remove-IsSound id s i
Step-IsSound {s} (marked id) i = mark_read-IsSound id s i
Step-IsSound {s} all_marked i = mark_all_read-IsSound s i
Step-IsSound cleared i = record {
  distinct = tt;
  named = refl;
  counted = refl;
  bounded = omega arith;
}

Reachable-IsSound : {s : Notifications} → Reachable s → IsSound s
unfolding unread get
Reachable-IsSound start = record {
  distinct = tt;
  named = refl;
  counted = refl;
  bounded = omega arith;
}
Reachable-IsSound (more r step) = Step-IsSound step (Reachable-IsSound r)

-- In every state that additions of new ids, deletions, marks and clearings reach from a new
-- container, the unread count is the number of entries that are not read, and there are at most
-- 100 entries.
pub Reachable-unread :
    (s : Notifications)
    → Reachable s
    → (s.unread_count ≡ unread s.notifications) × (length s.notifications ≤ 100)
Reachable-unread s r = let i = Reachable-IsSound r in (i.counted, i.bounded)
