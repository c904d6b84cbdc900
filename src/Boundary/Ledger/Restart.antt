-- ===== src/Boundary/Ledger/Restart.antt =====
-- What the ledger of boundary/idempotencyLedger.mjs knows after a restart of the process.
use betting_automation_contr.Prelude.{
  ℕ, ◌-◌, ◌≤◌, Bool, true, ◌&&◌, none, some, [], ◌∷◌, String, ◌≡◌, ◌≢◌, refl, arith, Bool-cases,
  inl, inr, ltb, leb, length, str_eq, eq_iff,
}
use betting_automation_contr.Prelude.Dict.{
  Dict, get, set, get-set, get-set_self, IsDistinct, set-IsDistinct,
}
use betting_automation_contr.Boundary.Ledger.Record.{Json, LedgerRow, LedgerRecord, Ledger, row_of}
use betting_automation_contr.Boundary.Ledger.Operations.{
  exists, check, delete_older, unexpired, prune_expired, fresh_record, record_in_flight,
}
use betting_automation_contr.Boundary.Ledger.Hydration.{
  recent_rows, get-recent_rows, record_of_row, load_rows, hydrate_ledger, AllRead, get-load_rows,
}

-- The rows that a statement keeps are rows of the table.
delete_older-keeps :
    (threshold : ℕ) (t : Dict LedgerRow)
    → IsDistinct t
    → IsDistinct (delete_older threshold t)
      × ((k : String) → get k t ≡ none → get k (delete_older threshold t) ≡ none)
      × ((k : String) (r : LedgerRow)
          → get k (delete_older threshold t) ≡ some r
          → get k t ≡ some r)
unfolding delete_older get
delete_older-keeps threshold [] d = (tt, λ k h. h, λ k r h. h)
delete_older-keeps threshold ((i, q) ∷ t) d =
    let (apart, gone, kept) = delete_older-keeps threshold t d.1 in
    elim (Bool-cases (ltb q.updated_at threshold)) [
      | inl old ↦ rw old (
        apart,
        λ k h. gone k (ground (arith, h)),
        λ k r h. ground (arith, kept k r h, d.0, eq_iff i k),
      )
      | inr fresh ↦ rw fresh (
        (gone i d.0, apart),
        λ k h. ground (arith, h, gone k (ground (arith, h))),
        λ k r h. elim (Bool-cases (str_eq i k)) [
          | inl same ↦ ground (arith, h, same)
          | inr other ↦ ground (arith, other, kept k r (ground (arith, h, other)))
        ],
      )
    ]

module _ (j : Json) where
  open j use {Value, stringify, parse, parse_stringify}

  -- A new record is read back from its row.
  fresh-read :
      (now : ℕ) (operation_id : String) (metadata : Value)
      → stringify metadata ≢ ""
      → record_of_row j (row_of j (fresh_record j now operation_id metadata))
        ≡ some (fresh_record j now operation_id metadata)
  unfolding record_of_row row_of
  fresh-read now operation_id metadata ne =
      ground (arith, parse_stringify metadata, eq_iff (stringify metadata) "", ne)

  -- A readable table without a key twice.
  abbrev IsReadable : Dict LedgerRow → Type 0
  IsReadable t = IsDistinct t × AllRead j t

  pruned-IsReadable :
      (now : ℕ) (pruning : Bool) (l : Ledger j) (t : Dict LedgerRow)
      → l.engine ≡ some t
      → IsReadable t
      → (u : Dict LedgerRow) × ((prune_expired j now pruning l).0.engine ≡ some u) × IsReadable u
  unfolding prune_expired
  pruned-IsReadable now pruning l t e (d, all) =
      let since = now - l.max_age_ms in
      let (apart, gone, kept) = delete_older-keeps since t d in
      let pruned = length l.records - length (unexpired j now l.max_age_ms l.records) in
      elim (Bool-cases (ltb 0 pruned && pruning)) [
        | inl b ↦
            (delete_older since t, ground (arith, e, b), (apart, λ k r h. all k r (kept k r h)))
        | inr b ↦ (t, ground (arith, e, b), (d, all))
      ]

  set-IsReadable :
      (k : String) (r : LedgerRow) (x : LedgerRecord j) (t : Dict LedgerRow)
      → record_of_row j r ≡ some x
      → IsReadable t
      → IsReadable (set k r t)
  set-IsReadable k r x t read (d, all) = (
    set-IsDistinct k r t d,
    λ i q h. elim (Bool-cases (str_eq k i)) [
      | inl same ↦
          let q_eq : r ≡ q = ground (arith, get-set k i r t, h, same) in (x, rw (← q_eq) read)
      | inr other ↦ all i q (ground (arith, get-set k i r t, h, other))
    ],
  )

  -- A readable row that has not expired is known after a hydration.
  hydrate_ledger-check :
      (now : ℕ) (k : String) (r : LedgerRow) (x : LedgerRecord j) (l : Ledger j)
      (t : Dict LedgerRow)
      → l.engine ≡ some t
      → IsReadable t
      → k ≢ ""
      → get k t ≡ some r
      → record_of_row j r ≡ some x
      → r.updated_at ≡ x.updated_at
      → now - x.updated_at ≤ l.max_age_ms
      → (check j now k (hydrate_ledger j now l)).1 ≡ exists x
  unfolding hydrate_ledger check
  hydrate_ledger-check now k r x l t e (d, all) ne there read same age =
      let since = now - l.max_age_ms in
      let (apart, at_k) = get-recent_rows since k t d in
      let recent : AllRead j (recent_rows since t) =
        λ i q h. all i q (ground (arith, (get-recent_rows since i t d).1, h)) in
      let loaded = get-load_rows j k (recent_rows since t) l.records apart recent in
      let fresh : leb since r.updated_at ≡ true = ground (arith, age, same) in
      let known : get k (load_rows j (recent_rows since t) l.records) ≡ some x =
        ground (arith, loaded, at_k, there, fresh, read) in
      rw e (ground (arith, known, eq_iff k "", ne, age))

  -- After a restart the ledger recognises an operation that was recorded as in flight, until it
  -- expires: the retry of it is answered with its record. The engine took the insertion, its table
  -- was readable without a key twice, and neither the key nor the printed metadata is empty.
  pub restart_recognises :
      (now later : ℕ) (pruning : Bool) (k operation_id : String) (metadata : Value) (l : Ledger j)
      (t : Dict LedgerRow)
      → l.engine ≡ some t
      → IsDistinct t
      → AllRead j t
      → k ≢ ""
      → stringify metadata ≢ ""
      → later - now ≤ l.max_age_ms
      → let saved = (record_in_flight j now pruning true k operation_id metadata l).0 in
        (check j later k (hydrate_ledger j later (record saved { records = [] }))).1
        ≡ exists (fresh_record j now operation_id metadata)
  unfolding record_in_flight row_of prune_expired
  restart_recognises now later pruning k operation_id metadata l t e d all ne printed age =
      let x = fresh_record j now operation_id metadata in
      let (u, held, readable) = pruned-IsReadable now pruning l t e (d, all) in
      let read = fresh-read now operation_id metadata printed in
      let saved = (record_in_flight j now pruning true k operation_id metadata l).0 in
      hydrate_ledger-check later k (row_of j x) x (record saved { records = [] })
        (set k (row_of j x) u) (rw held refl) (set-IsReadable k (row_of j x) x u read readable) ne
        (get-set_self k (row_of j x) u) read refl age
