-- ===== src/Boundary/Ledger/Capacity.antt =====
-- The size of the ledger of boundary/idempotencyLedger.mjs, and its agreement with the table.
use betting_automation_contr.Prelude.{
  ℕ, ◌-◌, ◌≤◌, ◌<◌, Bool, true, Option-cases, Option, none, some, [], ◌∷◌, String, ◌≡◌, ◌≢◌, ◌⊎◌,
  refl, inl, inr, arith, eq_iff, length,
}
use betting_automation_contr.Prelude.Dict.{
  Dict, get, delete, first_key, get-set, get-delete, IsDistinct, length-set-le, length-set_new,
  length-delete_first,
}
use betting_automation_contr.Boundary.Ledger.Record.{
  Json, Status, LedgerRow, LedgerRecord, Ledger, row_of,
}
use betting_automation_contr.Boundary.Ledger.Operations.{
  delete_older, unexpired, prune_expired, make_room, fresh_record, record_in_flight,
  record_terminal, terminal_record,
}
use betting_automation_contr.Boundary.Ledger.Reads.{get-unexpired, length-unexpired-le}

module _ (j : Json) where
  open j use {Value}

  make_room-lt :
      (n : ℕ) (m : Dict (LedgerRecord j))
      → 0 < n
      → length m ≤ n
      → first_key m ≢ some ""
      → length (make_room j n m) < n
  unfolding make_room
  make_room-lt n [] pos h ne = ground arith
  make_room-lt n ((k, r) ∷ m) pos h ne =
      ground (arith, eq_iff k "", length-delete_first k ((k, r) ∷ m) refl)

  -- Recording an operation keeps the ledger within its capacity, if the oldest record that has
  -- not expired has a key that is not empty.
  record_in_flight-bounded :
      (now : ℕ) (pruning inserting : Bool) (k operation_id : String) (metadata : Value)
      (l : Ledger j)
      → 0 < l.max_entries
      → length l.records ≤ l.max_entries
      → first_key (unexpired j now l.max_age_ms l.records) ≢ some ""
      → length (record_in_flight j now pruning inserting k operation_id metadata l).0.records
        ≤ l.max_entries
  unfolding record_in_flight prune_expired
  record_in_flight-bounded now pruning inserting k operation_id metadata l pos h ne =
      let kept = unexpired j now l.max_age_ms l.records in
      omega (
        arith,
        length-set-le k (fresh_record j now operation_id metadata) (make_room j l.max_entries kept),
        make_room-lt l.max_entries kept pos
            (omega (arith, length-unexpired-le j now l.max_age_ms l.records)) ne,
      )

  -- An outcome for a key that the ledger does not hold adds a record without any check of the
  -- capacity: a full ledger grows past it.
  record_terminal_overflow :
      (now : ℕ) (accepted : Bool) (k : String) (status : Status) (result : Option Value)
      (l : Ledger j)
      → get k l.records ≡ none
      → l.max_entries ≤ length l.records
      → l.max_entries < length (record_terminal j now accepted k status result l).0.records
  unfolding record_terminal
  record_terminal_overflow now accepted k status result l h full =
      rw (h, record_terminal)
        (omega (arith, length-set_new k (terminal_record j now status result) l.records h))

  -- What the table has to hold for a key of the map.
  abbrev pub Backs : Option LedgerRow → Option (LedgerRecord j) → Type 0
  Backs row none = Unit
  Backs row (some r) = row ≡ some (row_of j r)

  abbrev pub BackedIn : String → Ledger j → Option (Dict LedgerRow) → Type 0
  BackedIn k l none = ⊥
  BackedIn k l (some t) = Backs (get k t) (get k l.records)

  -- A record in the map survives a crash: the engine's table holds the same row.
  abbrev pub IsBacked : String → Ledger j → Type 0
  IsBacked k l = BackedIn k l l.engine

  get-delete_older :
      (threshold : ℕ) (k : String) (r : LedgerRow) (t : Dict LedgerRow)
      → get k t ≡ some r
      → threshold ≤ r.updated_at
      → get k (delete_older threshold t) ≡ some r
  unfolding get delete_older
  get-delete_older threshold k r [] h le = cc
  get-delete_older threshold k r ((i, s) ∷ t) h le =
      ground (arith, get-delete_older threshold k r t)

  prune-IsBacked :
      (now : ℕ) (k : String) (l : Ledger j)
      → IsDistinct l.records
      → IsBacked k l
      → IsBacked k (prune_expired j now true l).0
  unfolding prune_expired row_of
  prune-IsBacked now k l d h = elim (Option-cases l.engine) [
    | inl volatile ↦ ground arith
    | inr (t, durable) ↦ elim (Option-cases (get k l.records)) [
      | inl missing ↦ ground (arith, get-unexpired j now l.max_age_ms k l.records d)
      | inr (r, here) ↦ ground (
        arith,
        get-unexpired j now l.max_age_ms k l.records d,
        get-delete_older (now - l.max_age_ms) k (row_of j r) t,
      )
    ]
  ]

  get-make_room :
      (n : ℕ) (k : String) (m : Dict (LedgerRecord j))
      → (get k (make_room j n m) ≡ none) ⊎ (get k (make_room j n m) ≡ get k m)
  unfolding make_room
  get-make_room n k [] = ground arith
  get-make_room n k ((i, r) ∷ m) = ground (arith, get-delete i k ((i, r) ∷ m))

  -- Recording an operation keeps every key backed by the table, if the engine accepts its two
  -- statements and the map repeats no key.
  record_in_flight-IsBacked :
      (now : ℕ) (k i operation_id : String) (metadata : Value) (l : Ledger j)
      → IsDistinct l.records
      → IsBacked k l
      → IsBacked k (record_in_flight j now true true i operation_id metadata l).0
  unfolding record_in_flight
  record_in_flight-IsBacked now k i operation_id metadata l d h =
      let p = (prune_expired j now true l).0 in
      let r = fresh_record j now operation_id metadata in
      let pruned = prune-IsBacked now k l d h in
      elim (Option-cases p.engine) [
        | inl volatile ↦ ground arith
        | inr (t, durable) ↦ ground (
          arith,
          get-set i k (row_of j r) t,
          get-set i k r (make_room j p.max_entries p.records),
          get-make_room p.max_entries k p.records,
          pruned,
        )
      ]

  -- Recording an outcome keeps every key backed by the table, if the engine accepts the
  -- statement.
  record_terminal-IsBacked :
      (now : ℕ) (k i : String) (status : Status) (result : Option Value) (l : Ledger j)
      → IsBacked i l
      → IsBacked k l
      → IsBacked k (record_terminal j now true i status result l).0
  unfolding record_terminal row_of
  record_terminal-IsBacked now k i status result l hi hk = elim (Option-cases l.engine) [
    | inl volatile ↦ ground arith
    | inr (t, durable) ↦ elim (Option-cases (get i l.records)) [
      | inl missing ↦
          let r = terminal_record j now status result in
          ground (arith, get-set i k (row_of j r) t, get-set i k r l.records)
      | inr (old, here) ↦
          let r : LedgerRecord j = record old {
            status = status;
            cached_result = result;
            updated_at = now;
          } in
          ground (
            arith,
            get-set i k (row_of j r) t,
            get-set i k r (delete i l.records),
            get-delete i k l.records,
          )
    ]
  ]
