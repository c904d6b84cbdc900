-- ===== src/Boundary/Ledger/Operations.antt =====
-- src/runtime-manager/boundary/idempotencyLedger.mjs: the operations. Each takes the clock `now`;
-- one that writes to the engine also takes whether the engine accepts its statement.
use betting_automation_contr.Prelude.{
  ℕ, ◌-◌, Bool, Option, none, some, [], ◌∷◌, String, ltb, leb, length, or_else, str_eq,
  if◌then◌else◌,
}
use betting_automation_contr.Prelude.Dict.{Dict, get, set, delete, first_key}
use betting_automation_contr.Boundary.Ledger.Record.{
  Json, Status, in_flight, LedgerRow, LedgerRecord, Ledger, result_json, row_of, run_sql,
}

-- `now - updatedAt > maxAgeMs`. A clock that went back gives a negative age, here 0: not expired.
abbrev pub is_expired : ℕ → ℕ → ℕ → Bool
is_expired now age updated_at = ltb age (now - updated_at)

-- `DELETE FROM idempotency_ledger WHERE updated_at < ?`
unfoldable pub delete_older : ℕ → Dict LedgerRow → Dict LedgerRow
delete_older threshold [] = []
delete_older threshold ((k, r) ∷ t) =
    let rest = delete_older threshold t in
    if ltb r.updated_at threshold then rest else (k, r) ∷ rest

module _ (j : Json) where
  open j use {Value, stringify, empty_object}

  -- What `check` returns: NEW, or the record that exists.
  pub data Check : Type 0 where
    new : Check
    exists : LedgerRecord j → Check

  check_record : ℕ → String → Ledger j → Option (LedgerRecord j) → Ledger j × Check
  check_record now k l none = (l, new)
  check_record now k l (some r) =
      if is_expired now l.max_age_ms r.updated_at
      then (record l { records = delete k l.records }, new)
      else (record l { records = set k r (delete k l.records) }, exists r)

  unfoldable pub check : ℕ → String → Ledger j → Ledger j × Check
  unfolding check_record
  check now k l = if str_eq k "" then (l, new) else check_record now k l (get k l.records)

  -- The loop of `pruneExpired`: the entries that stay.
  unfoldable pub unexpired : ℕ → ℕ → Dict (LedgerRecord j) → Dict (LedgerRecord j)
  unexpired now age [] = []
  unexpired now age ((k, r) ∷ m) =
      let rest = unexpired now age m in
      if is_expired now age r.updated_at then rest else (k, r) ∷ rest

  -- `pruneExpired`, with the count of removed entries.
  unfoldable pub prune_expired : ℕ → Bool → Ledger j → Ledger j × ℕ
  prune_expired now accepted l =
      let kept = unexpired now l.max_age_ms l.records in
      let pruned = length l.records - length kept in
      (
        record l {
          records = kept;
          engine =
              if ltb 0 pruned
              then run_sql accepted (delete_older (now - l.max_age_ms)) l.engine
              else l.engine;
        },
        pruned,
      )

  -- `if (oldestKey) this.records.delete(oldestKey)`: the empty text is falsy.
  unfoldable pub evict_oldest : Dict (LedgerRecord j) → Dict (LedgerRecord j)
  evict_oldest m = elim (first_key m) [ none ↦ m | some k ↦ if str_eq k "" then m else delete k m ]

  abbrev pub fresh_record : ℕ → String → Value → LedgerRecord j
  fresh_record now operation_id metadata = record {
    operation_id = operation_id;
    status = in_flight;
    created_at = now;
    updated_at = now;
    cached_result = none;
    metadata = metadata;
  }

  -- The key that makes room for a new record, at capacity.
  unfoldable pub make_room : ℕ → Dict (LedgerRecord j) → Dict (LedgerRecord j)
  unfolding evict_oldest
  make_room max_entries m = if leb max_entries (length m) then evict_oldest m else m

  -- `recordInFlight`; the prune and the insert each run a statement.
  unfoldable pub record_in_flight :
      ℕ → Bool → Bool → String → String → Value → Ledger j → Ledger j × LedgerRecord j
  record_in_flight now pruning inserting k operation_id metadata l =
      let p = (prune_expired now pruning l).0 in
      let r = fresh_record now operation_id metadata in
      (
        record p {
          records = set k r (make_room p.max_entries p.records);
          engine = run_sql inserting (set k (row_of j r)) p.engine;
        },
        r,
      )

  -- The `UPDATE` of a terminal outcome, which touches no row if the key has none.
  unfoldable pub update_row : String → Status → Option Value → ℕ → Dict LedgerRow → Dict LedgerRow
  update_row k status result now t = elim (get k t) [
    | none ↦ t
    | some r ↦
        set k
          (record r {
            status = status;
            cached_result_json = result_json j result;
            updated_at = now;
          })
          t
  ]

  abbrev pub result_operation : Option Value → String
  result_operation none = "unknown"
  result_operation (some v) = or_else (j.operation_id v) "unknown"

  -- The record of an outcome that no in-flight record preceded.
  abbrev pub terminal_record : ℕ → Status → Option Value → LedgerRecord j
  terminal_record now status result = record {
    operation_id = result_operation result;
    status = status;
    created_at = now;
    updated_at = now;
    cached_result = result;
    metadata = empty_object;
  }

  terminal_over :
      ℕ
      → Bool
      → String
      → Status
      → Option Value
      → Ledger j
      → Option (LedgerRecord j)
      → Ledger j × LedgerRecord j
  unfolding update_row
  terminal_over now accepted k status result l (some old) =
      let r = record old { status = status; cached_result = result; updated_at = now } in
      (
        record l {
          records = set k r (delete k l.records);
          engine = run_sql accepted (update_row k status result now) l.engine;
        },
        r,
      )
  terminal_over now accepted k status result l none =
      let r = terminal_record now status result in
      (
        record l {
          records = set k r l.records;
          engine = run_sql accepted (set k (row_of j r)) l.engine;
        },
        r,
      )

  -- `recordTerminal`.
  unfoldable pub record_terminal :
      ℕ → Bool → String → Status → Option Value → Ledger j → Ledger j × LedgerRecord j
  unfolding terminal_over
  record_terminal now accepted k status result l =
      terminal_over now accepted k status result l (get k l.records)

  -- `clear`.
  unfoldable pub clear : Bool → Ledger j → Ledger j
  clear accepted l = record l { records = []; engine = run_sql accepted (λ t. []) l.engine }
