-- ===== src/Store/Notifications.antt =====
-- src/state-store/memory/NotificationsContainer.mjs: every operation. A time stamp is its parsed
-- date in milliseconds, 0 if it is missing; `stamp` is the clock's text in a generated id. The
-- time of the last update is left out.
use betting_automation_contr.Prelude.{
  ℕ, zero, suc, ◌+◌, ◌-◌, Bool, true, false, not, ◌||◌, Option, none, some, List, [], ◌∷◌, String,
  leb, length, or_text, or_else, str_eq, if◌then◌else◌,
}
use Prim.Native.String.{◌++◌ as text_append}
use betting_automation_contr.Prelude.Dict.{Dict, get, set, delete, first_key}

pub record Notification : Type 0 where
  pub id : String
  pub timestamp : ℕ
  pub severity : String
  pub category : String
  pub title : String
  pub message : String
  pub read : Bool
  pub is_read : Bool
  pub metadata : Option String

-- The argument of `add`.
pub record Incoming : Type 0 where
  pub id : Option String
  pub timestamp : Option ℕ
  pub severity : Option String
  pub category : Option String
  pub title : Option String
  pub message : Option String
  pub read : Bool
  pub is_read : Bool
  pub metadata : Option String

pub record Notifications : Type 0 where
  pub notifications : Dict Notification
  pub unread_count : ℕ
  pub revision : ℕ

-- `reset`, which is also the new container.
abbrev pub reset : Notifications
reset = record { notifications = []; unread_count = 0; revision = 1 }

-- The sort of `hydrate`: newest first, and stable.
unfoldable pub insert_newest : Notification → List Notification → List Notification
insert_newest x [] = x ∷ []
insert_newest x (y ∷ ys) =
    let rest = insert_newest x ys in if leb y.timestamp x.timestamp then x ∷ y ∷ ys else y ∷ rest

unfoldable pub newest_first : List Notification → List Notification
unfolding insert_newest
newest_first [] = []
newest_first (x ∷ xs) = insert_newest x (newest_first xs)

-- `slice(0, n)`.
unfoldable pub take : ℕ → List Notification → List Notification
take zero xs = []
take (suc n) [] = []
take (suc n) (x ∷ xs) = x ∷ take n xs

-- The loop of `hydrate`.
unfoldable pub load : List Notification → Notifications → Notifications
load [] s = s
load (x ∷ xs) s = load xs (record s {
  notifications = set x.id x s.notifications;
  unread_count = if x.is_read || x.read then s.unread_count else s.unread_count + 1;
})

unfoldable pub hydrate : List Notification → Option ℕ → Notifications → Notifications
unfolding load take newest_first
hydrate items revision s =
    let loaded =
      load (take 100 (newest_first items)) (record s { notifications = []; unread_count = 0 }) in
    record loaded { revision = or_else revision (s.revision + 1) }

-- The record that `add` stores.
unfoldable pub record_of : ℕ → String → Incoming → Notification
record_of now stamp n = record {
  id = or_text n.id (text_append "notif-" stamp);
  timestamp = or_else n.timestamp now;
  severity = or_text n.severity "INFO";
  category = or_text n.category "SYSTEM";
  title = or_text n.title "";
  message = or_text n.message "";
  read = n.read || n.is_read;
  is_read = n.read || n.is_read;
  metadata = n.metadata;
}

-- `Math.max(0, count - 1)` for an entry that was not read.
abbrev pub discount : Option Notification → ℕ → ℕ
discount none count = count
discount (some n) count = if n.read then count else count - 1

-- The eviction of `add`, of the first key in insertion order.
abbrev pub evict_key : Option String → Notifications → Notifications
evict_key none s = s
evict_key (some k) s = if str_eq k "" then s else record s {
  notifications = delete k s.notifications;
  unread_count = discount (get k s.notifications) s.unread_count;
}

unfoldable pub make_room : Notifications → Notifications
make_room s =
    if leb 100 (length s.notifications) then evict_key (first_key s.notifications) s else s

unfoldable pub put : Notification → Notifications → Notifications
put n s = record {
  notifications = set n.id n s.notifications;
  unread_count = if n.read then s.unread_count else s.unread_count + 1;
  revision = s.revision + 1;
}

-- `add`, and `append`.
unfoldable pub add : ℕ → String → Incoming → Notifications → Notifications
unfolding put make_room record_of
add now stamp n s = put (record_of now stamp n) (make_room s)

-- `delete`, with its answer.
unfoldable pub remove : String → Notifications → Notifications × Bool
remove id s = elim (get id s.notifications) [
  | none ↦ (s, false)
  | some n ↦ (
    record {
      notifications = delete id s.notifications;
      unread_count = discount (some n) s.unread_count;
      revision = s.revision + 1;
    },
    true,
  )
]

abbrev pub as_read : Notification → Notification
as_read n = record n { read = true; is_read = true }

unfoldable pub mark_read : String → Notifications → Notifications × Bool
mark_read id s = elim (get id s.notifications) [
  | none ↦ (s, false)
  | some n ↦ if n.read then (s, false) else (
    record {
      notifications = set id (as_read n) s.notifications;
      unread_count = s.unread_count - 1;
      revision = s.revision + 1;
    },
    true,
  )
]

-- The loop of `markAllRead`: the entries it finds unread are replaced in place.
unfoldable pub all_read : Dict Notification → Dict Notification
all_read [] = []
all_read ((k, n) ∷ m) = (k, if n.read then n else as_read n) ∷ all_read m

unfoldable pub is_any_unread : Dict Notification → Bool
is_any_unread [] = false
is_any_unread ((k, n) ∷ m) = not n.read || is_any_unread m

unfoldable pub mark_all_read : Notifications → Notifications × Bool
unfolding all_read is_any_unread
mark_all_read s =
    if is_any_unread s.notifications
    then (
      record {
        notifications = all_read s.notifications;
        unread_count = 0;
        revision = s.revision + 1;
      },
      true,
    )
    else (s, false)

unfoldable pub clear_all : Notifications → Notifications × ℕ
clear_all s = (
  record { notifications = []; unread_count = 0; revision = s.revision + 1 },
  length s.notifications,
)
