-- ===== src/Boundary/Ledger/Reads.antt =====
-- What `check` answers after the operations of boundary/idempotencyLedger.mjs.
use betting_automation_contr.Prelude.{
  ℕ, ◌-◌, ◌≤◌, ◌<◌, Bool, Option-cases, Option, none, some, [], ◌∷◌, String, ◌≡◌, ◌≢◌, refl, ◌∙◌,
  inl, inr, arith, eq_iff, length, if◌then◌else◌,
}
use betting_automation_contr.Prelude.Dict.{
  Dict, get, first_key, get-set_self, get-set_ne, get-delete, IsDistinct,
}
use betting_automation_contr.Boundary.Ledger.Record.{Json, Status, in_flight, LedgerRecord, Ledger}
use betting_automation_contr.Boundary.Ledger.Operations.{
  is_expired, new, exists, check, unexpired, prune_expired, make_room, record_in_flight,
  record_terminal,
}

module _ (j : Json) where
  open j use {Value}

  abbrev live : ℕ → ℕ → Option (LedgerRecord j) → Option (LedgerRecord j)
  live now age none = none
  live now age (some r) = if is_expired now age r.updated_at then none else some r

  -- Pruning keeps what has not expired, and nothing else.
  pub get-unexpired :
      (now age : ℕ) (k : String) (m : Dict (LedgerRecord j))
      → IsDistinct m
      → get k (unexpired j now age m) ≡ live now age (get k m)
  unfolding get unexpired
  get-unexpired now age k [] d = refl
  get-unexpired now age k ((i, r) ∷ m) d = ground (arith, eq_iff i k, get-unexpired now age k m d.1)

  check_found :
      (now : ℕ) (k : String) (r : LedgerRecord j) (l : Ledger j)
      → k ≢ ""
      → get k l.records ≡ some r
      → now - r.updated_at ≤ l.max_age_ms
      → (check j now k l).1 ≡ exists r
  unfolding check
  check_found now k r l ne h age = ground (arith, eq_iff k "")

  check_missing :
      (now : ℕ) (k : String) (l : Ledger j) → get k l.records ≡ none → (check j now k l).1 ≡ new
  unfolding check
  check_missing now k l h = ground arith

  pub length-unexpired-le :
      (now age : ℕ) (m : Dict (LedgerRecord j)) → length (unexpired j now age m) ≤ length m
  unfolding unexpired
  length-unexpired-le now age [] = omega arith
  length-unexpired-le now age ((i, r) ∷ m) = ground (arith, length-unexpired-le now age m)

  -- A key that was just recorded is answered as in flight until it expires, whatever the engine
  -- did: a retry of the operation is recognised. The key is not empty.
  pub check-record_in_flight :
      (now later : ℕ) (pruning inserting : Bool) (k operation_id : String) (metadata : Value)
      (l : Ledger j)
      → k ≢ ""
      → later - now ≤ l.max_age_ms
      → (check j later k (record_in_flight j now pruning inserting k operation_id metadata l).0).1
        ≡ exists (record {
          operation_id = operation_id;
          status = in_flight;
          created_at = now;
          updated_at = now;
          cached_result = none;
          metadata = metadata;
        })
  unfolding record_in_flight prune_expired
  check-record_in_flight now later pruning inserting k operation_id metadata l ne age =
      check_found later k _ _ ne (get-set_self k _ _) age

  -- A recorded outcome is answered, with its result, until it expires. The key is not empty.
  pub check-record_terminal :
      (now later : ℕ) (accepted : Bool) (k : String) (status : Status) (result : Option Value)
      (l : Ledger j)
      → k ≢ ""
      → later - now ≤ l.max_age_ms
      → let (t, r) = record_terminal j now accepted k status result l in
        ((check j later k t).1 ≡ exists r) × (r.status ≡ status) × (r.cached_result ≡ result)
  unfolding record_terminal
  check-record_terminal now later accepted k status result l ne age =
      elim (Option-cases (get k l.records)) [
        | inl missing ↦
            rw (missing, record_terminal)
              (check_found later k _ _ ne (get-set_self k _ _) age, refl, refl)
        | inr (old, here) ↦
            rw (here, record_terminal)
              (check_found later k _ _ ne (get-set_self k _ _) age, refl, refl)
      ]

  -- An expired key is answered as new, and is gone from the map.
  check_expired :
      (now : ℕ) (k : String) (r : LedgerRecord j) (l : Ledger j)
      → get k l.records ≡ some r
      → l.max_age_ms < now - r.updated_at
      → k ≢ ""
      → ((check j now k l).1 ≡ new) × (get k (check j now k l).0.records ≡ none)
  unfolding check
  check_expired now k r l h old ne =
      ground (arith, eq_iff k "", get-delete k k l.records, eq_iff k k)

  -- While the ledger has room, recording one operation loses no other that has not expired.
  record_in_flight_keeps :
      (now : ℕ) (pruning inserting : Bool) (k i operation_id : String) (metadata : Value)
      (r : LedgerRecord j) (l : Ledger j)
      → IsDistinct l.records
      → length l.records < l.max_entries
      → i ≢ k
      → get k l.records ≡ some r
      → now - r.updated_at ≤ l.max_age_ms
      → get k (record_in_flight j now pruning inserting i operation_id metadata l).0.records
        ≡ some r
  unfolding record_in_flight prune_expired make_room
  record_in_flight_keeps now pruning inserting k i operation_id metadata r l d room ne h age =
      get-set_ne i k _ _ ne
      ∙ ground (
        arith,
        get-unexpired now l.max_age_ms k l.records d,
        length-unexpired-le now l.max_age_ms l.records,
      )

  -- At capacity the oldest record is dropped even if it is live: a retry of its operation is
  -- answered as new. All records are unexpired, and no key is empty or repeated.
  capacity_forgets :
      (now later : ℕ) (pruning inserting : Bool) (k i operation_id : String) (metadata : Value)
      (l : Ledger j)
      → first_key l.records ≡ some k
      → unexpired j now l.max_age_ms l.records ≡ l.records
      → l.max_entries ≤ length l.records
      → k ≢ ""
      → i ≢ k
      → (check j later k (record_in_flight j now pruning inserting i operation_id metadata l).0).1
        ≡ new
  unfolding record_in_flight prune_expired make_room
  capacity_forgets now later pruning inserting k i operation_id metadata l oldest all full ne
        other =
      check_missing later k _ (
        get-set_ne i k _ _ other
        ∙ ground (arith, all, eq_iff k "", get-delete k k l.records, eq_iff k k))
