-- ===== src/Store/Evicted.antt =====
-- Which entry a full container of src/state-store/memory/NotificationsContainer.mjs gives up
-- after a hydration.
use betting_automation_contr.Prelude.{
  ℕ, ◌≤◌, true, Option, none, some, List, [], ◌∷◌, All, String, ◌≡◌, ◌≢◌, ◌⊎◌, inl, inr, refl,
  arith, leb, length, eq_iff,
}
use betting_automation_contr.Prelude.Dict.{Dict, get, set, delete, first_key, get-delete, get-set}
use betting_automation_contr.Store.Notifications.{
  Notification, Incoming, Notifications, insert_newest, newest_first, take, load, hydrate,
  record_of, make_room, put, add,
}

-- `y` is not newer than `x`.
abbrev pub IsOlder : Notification → Notification → Type 0
IsOlder x y = y.timestamp ≤ x.timestamp

insert_newest-head :
    (x z : Notification) (ys zs : List Notification)
    → insert_newest x ys ≡ z ∷ zs
    → IsOlder z x × ((w : Notification) (ws : List Notification) → ys ≡ w ∷ ws → IsOlder z w)
unfolding insert_newest
insert_newest-head x z [] zs h = (ground arith, λ w ws q. absurd (ground (arith, q)))
insert_newest-head x z (y ∷ ys) zs h = (ground (arith, h), λ w ws q. ground (arith, h, q))

All-IsOlder :
    (z w : Notification) (xs : List Notification)
    → IsOlder z w
    → All (IsOlder w) xs
    → All (IsOlder z) xs
All-IsOlder z w [] le a = tt
All-IsOlder z w (x ∷ xs) le a = (omega (arith, le, a.0), All-IsOlder z w xs le a.1)

insert_newest-some : (x : Notification) (ys : List Notification) → insert_newest x ys ≡ [] → ⊥
unfolding insert_newest
insert_newest-some x [] h = ground (arith, h)
insert_newest-some x (y ∷ ys) h = ground (arith, h)

newest_first-nil : (xs : List Notification) → newest_first xs ≡ [] → xs ≡ []
unfolding newest_first
newest_first-nil [] h = refl
newest_first-nil (x ∷ xs) h = absurd (insert_newest-some x (newest_first xs) h)

list-cases :
    (xs : List Notification)
    → (xs ≡ []) ⊎ ((y : Notification) × (ys : List Notification) × (xs ≡ y ∷ ys))
list-cases [] = inl refl
list-cases (y ∷ ys) = inr (y, ys, refl)

-- The head of the sorted list is the newest.
newest_first-head :
    (xs : List Notification) (z : Notification) (zs : List Notification)
    → newest_first xs ≡ z ∷ zs
    → All (IsOlder z) xs
unfolding newest_first
newest_first-head [] z zs h = tt
newest_first-head (x ∷ xs) z zs h =
    let (first, rest) = insert_newest-head x z (newest_first xs) zs h in
    elim (list-cases (newest_first xs)) [
      | inl nothing ↦ (first, rw (newest_first-nil xs nothing) tt)
      | inr (w, ws, sorted) ↦
          (first, All-IsOlder z w xs (rest w ws sorted) (newest_first-head xs w ws sorted))
    ]

first_key-set :
    (k j : String) (n : Notification) (m : Dict Notification)
    → first_key m ≡ some j
    → first_key (set k n m) ≡ some j
unfolding set
first_key-set k j n [] h = absurd (ground (arith, h))
first_key-set k j n ((i, x) ∷ m) h = ground (arith, h)

first_key-load :
    (j : String) (xs : List Notification) (s : Notifications)
    → first_key s.notifications ≡ some j
    → first_key (load xs s).notifications ≡ some j
unfolding load
first_key-load j [] s h = h
first_key-load j (x ∷ xs) s h = first_key-load j xs _ (first_key-set x.id j x s.notifications h)

hydrate-first_key :
    (items : List Notification) (revision : Option ℕ) (s : Notifications) (z : Notification)
    (zs : List Notification)
    → newest_first items ≡ z ∷ zs
    → first_key (hydrate items revision s).notifications ≡ some z.id
unfolding hydrate load take set
hydrate-first_key items revision s z zs h = rw h (first_key-load z.id (take 99 zs) _ refl)

add-first_key :
    (now : ℕ) (stamp : String) (n : Incoming) (s : Notifications) (k : String)
    → leb 100 (length s.notifications) ≡ true
    → first_key s.notifications ≡ some k
    → k ≢ ""
    → (record_of now stamp n).id ≢ k
    → get k (add now stamp n s).notifications ≡ none
unfolding add put make_room
add-first_key now stamp n s k full oldest named other =
    let r = record_of now stamp n in
    ground (
      arith,
      full,
      oldest,
      eq_iff k "",
      get-set r.id k r (delete k s.notifications),
      eq_iff r.id k,
      get-delete k k s.notifications,
      eq_iff k k,
    )

-- Adding to a container that a hydration has filled drops the newest of the hydrated
-- notifications: the one that it put first. The newest has an id, and not that of the addition.
pub hydrate-add-evicts :
    (now : ℕ) (stamp : String) (n : Incoming) (items : List Notification) (revision : Option ℕ)
    (s : Notifications) (z : Notification) (zs : List Notification)
    → newest_first items ≡ z ∷ zs
    → leb 100 (length (hydrate items revision s).notifications) ≡ true
    → z.id ≢ ""
    → (record_of now stamp n).id ≢ z.id
    → All (IsOlder z) items
      × (get z.id (add now stamp n (hydrate items revision s)).notifications ≡ none)
hydrate-add-evicts now stamp n items revision s z zs sorted full named other = (
  newest_first-head items z zs sorted,
  add-first_key now stamp n (hydrate items revision s) z.id full
      (hydrate-first_key items revision s z zs sorted) named other,
)
