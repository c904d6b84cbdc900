-- ===== src/Shared/Mutex.antt =====
-- src/shared/mutex.mjs: the mutex, and the runs of callers that use it from the event loop. A
-- caller is a number; one that holds the lock releases it once, as the `finally` of each use does.
use betting_automation_contr.Prelude.{
  ℕ, ◌+◌, Bool, true, false, List, [], ◌∷◌, ◌++◌, ◌≡◌, ◌⊎◌, inl, inr, refl, ap, arith, length,
  length-append, if◌then◌else◌,
}

-- `_locked` and `_queue`, and what the event loop knows: the waiters that `setTimeout` will run,
-- and the callers that hold the lock. The last two are the order of the requests and the grants.
pub record Mutex : Type 0 where
  pub locked : Bool
  pub queue : List ℕ
  pub scheduled : List ℕ
  pub holders : List ℕ
  pub requests : List ℕ
  pub grants : List ℕ

abbrev pub unlocked : Mutex
unlocked = record {
  locked = false;
  queue = [];
  scheduled = [];
  holders = [];
  requests = [];
  grants = [];
}

-- `lockAcquired` of a caller.
unfoldable pub lock_acquired : ℕ → Mutex → Mutex
lock_acquired i m = record m {
  locked = true;
  holders = i ∷ m.holders;
  grants = m.grants ++ (i ∷ []);
}

-- `acquire`.
unfoldable pub acquire : ℕ → Mutex → Mutex
unfolding lock_acquired
acquire i m =
    let asked : Mutex = record m { requests = m.requests ++ (i ∷ []) } in
    elim m.locked [
      | false ↦ lock_acquired i asked
      | true ↦ record asked { queue = m.queue ++ (i ∷ []) }
    ]

-- `release`: the next waiter is scheduled, and the lock stays taken for it.
unfoldable pub release : Mutex → Mutex
release m = elim m.queue [
  | [] ↦ record m { locked = false }
  | next ∷ rest ↦ record m { queue = rest; scheduled = m.scheduled ++ (next ∷ []) }
]

-- One turn of the event loop.
pub data Step : Mutex → Mutex → Type 0 where
  asks : (i : ℕ) (m : Mutex) → Step m (acquire i m)
  runs :
      (i : ℕ) (rest : List ℕ) (m : Mutex)
      → m.scheduled ≡ i ∷ rest
      → Step m (lock_acquired i (record m { scheduled = rest }))
  leaves :
      (i : ℕ) (rest : List ℕ) (m : Mutex)
      → m.holders ≡ i ∷ rest
      → Step m (release (record m { holders = rest }))

pub data Reachable : Mutex → Type 0 where
  starts : Reachable unlocked
  steps : (m n : Mutex) → Reachable m → Step m n → Reachable n

-- The lock is taken exactly for one holder or one scheduled waiter, and nobody waits for a free
-- lock; the grants, the scheduled and the queued callers are the requests in their order.
pub record IsFair (m : Mutex) : Type 0 where
  pub taken :
      ((m.locked ≡ true) × (length m.holders + length m.scheduled ≡ 1))
      ⊎ ((m.locked ≡ false) × ((length m.holders + length m.scheduled ≡ 0) × (m.queue ≡ [])))
  pub ordered : m.requests ≡ m.grants ++ (m.scheduled ++ m.queue)

List-cases : (xs : List ℕ) → (xs ≡ []) ⊎ ((x : ℕ) × (ys : List ℕ) × (xs ≡ x ∷ ys))
List-cases [] = inl refl
List-cases (x ∷ ys) = inr (x, ys, refl)

append_assoc : (xs ys zs : List ℕ) → (xs ++ ys) ++ zs ≡ xs ++ (ys ++ zs)
append_assoc [] ys zs = refl
append_assoc (x ∷ xs) ys zs = ap (λ t. x ∷ t) (append_assoc xs ys zs)

append_nil : (xs : List ℕ) → xs ++ [] ≡ xs
append_nil [] = refl
append_nil (x ∷ xs) = ap (λ t. x ∷ t) (append_nil xs)

-- One more at the end of each side.
snoc-ordered :
    (i : ℕ) (r g s q : List ℕ) → r ≡ g ++ (s ++ q) → r ++ (i ∷ []) ≡ g ++ (s ++ (q ++ (i ∷ [])))
snoc-ordered i r g s q h = rw (h, append_assoc g (s ++ q) (i ∷ []), append_assoc s q (i ∷ [])) refl

acquire-IsFair : (i : ℕ) (m : Mutex) → IsFair m → IsFair (acquire i m)
unfolding acquire
acquire-IsFair i m h = elim h.taken [
  | inl (l, one) ↦ record {
    taken = inl (ground (arith, l), ground (arith, l, one));
    ordered = ground (arith, l, snoc-ordered i m.requests m.grants m.scheduled m.queue h.ordered);
  }
  | inr (l, (zero, idle)) ↦
      let none_waits : m.scheduled ≡ [] = ground arith in
      record {
        taken = inl (ground (arith, l), ground (arith, l));
        ordered =
            ground (arith, l, h.ordered, append_nil m.grants, append_nil (m.grants ++ (i ∷ [])));
      }
]

runs-IsFair :
    (i : ℕ) (rest : List ℕ) (m : Mutex)
    → m.scheduled ≡ i ∷ rest
    → IsFair m
    → IsFair (lock_acquired i (record m { scheduled = rest }))
unfolding lock_acquired
runs-IsFair i rest m s h = record {
  taken = inl (refl, ground (arith, s, h.taken));
  ordered = ground (arith, s, h.ordered, append_assoc m.grants (i ∷ []) (rest ++ m.queue));
}

release_queued :
    (i next : ℕ) (rest waiting : List ℕ) (m : Mutex)
    → m.holders ≡ i ∷ rest
    → m.queue ≡ next ∷ waiting
    → IsFair m
    → IsFair (release (record m { holders = rest }))
unfolding release
release_queued i next rest waiting m s q h = record {
  taken =
      inl (ground (arith, h.taken), ground (arith, h.taken, length-append m.scheduled (next ∷ [])));
  ordered = ground (arith, h.ordered, append_assoc m.scheduled (next ∷ []) waiting);
}

release_last :
    (i : ℕ) (rest : List ℕ) (m : Mutex)
    → m.holders ≡ i ∷ rest
    → m.queue ≡ []
    → IsFair m
    → IsFair (release (record m { holders = rest }))
unfolding release
release_last i rest m s q h = record {
  taken = inr (ground arith, (ground (arith, h.taken), ground arith));
  ordered = ground (arith, h.ordered);
}

leaves-IsFair :
    (i : ℕ) (rest : List ℕ) (m : Mutex)
    → m.holders ≡ i ∷ rest
    → IsFair m
    → IsFair (release (record m { holders = rest }))
leaves-IsFair i rest m s h = elim (List-cases m.queue) [
  | inl q ↦ release_last i rest m s q h
  | inr (next, waiting, q) ↦ release_queued i next rest waiting m s q h
]

Step-IsFair : (m n : Mutex) → Step m n → IsFair m → IsFair n
Step-IsFair m n (asks i _) h = acquire-IsFair i m h
Step-IsFair m n (runs i rest _ s) h = runs-IsFair i rest m s h
Step-IsFair m n (leaves i rest _ s) h = leaves-IsFair i rest m s h

Reachable-IsFair : (m : Mutex) → Reachable m → IsFair m
Reachable-IsFair m starts = record { taken = inr (refl, (refl, refl)); ordered = refl }
Reachable-IsFair m (steps k _ r s) = Step-IsFair k m s (Reachable-IsFair k r)

-- In every reachable state the lock is taken exactly when one caller holds it or is scheduled to:
-- never two callers hold it, and it is never taken for nobody.
pub holders_exclusive :
    (m : Mutex) → Reachable m → length m.holders + length m.scheduled ≡ (if m.locked then 1 else 0)
holders_exclusive m r = ground (arith, (Reachable-IsFair m r).taken)

-- Callers get the lock in the order in which they asked: the requests are the grants, then the
-- waiter that is scheduled, then the queue.
pub grants_in_order : (m : Mutex) → Reachable m → m.requests ≡ m.grants ++ (m.scheduled ++ m.queue)
grants_in_order m r = (Reachable-IsFair m r).ordered
