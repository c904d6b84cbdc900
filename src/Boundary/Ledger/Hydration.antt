-- ===== src/Boundary/Ledger/Hydration.antt =====
-- src/runtime-manager/boundary/idempotencyLedger.mjs: `_hydrateFromPersistence`, at the start of a
-- process, and what of a ledger comes back.
use betting_automation_contr.Prelude.{
  ℕ, ◌-◌, Option, none, some, [], ◌∷◌, String, ◌≡◌, refl, arith, Bool-cases, inl, inr, leb, str_eq,
  eq_iff, if◌then◌else◌,
}
use betting_automation_contr.Prelude.Dict.{Dict, get, set, get-set, IsDistinct}
use betting_automation_contr.Boundary.Ledger.Record.{Json, LedgerRow, LedgerRecord, Ledger}

-- `ORDER BY updated_at ASC`.
unfoldable pub insert_row : String → LedgerRow → Dict LedgerRow → Dict LedgerRow
insert_row k r [] = (k, r) ∷ []
insert_row k r ((j, q) ∷ t) =
    let later = insert_row k r t in
    if leb r.updated_at q.updated_at then (k, r) ∷ (j, q) ∷ t else (j, q) ∷ later

-- The rows of the query, from `minUpdated` on.
unfoldable pub recent_rows : ℕ → Dict LedgerRow → Dict LedgerRow
unfolding insert_row
recent_rows since [] = []
recent_rows since ((k, r) ∷ t) =
    let rest = recent_rows since t in if leb since r.updated_at then insert_row k r rest else rest

get-insert_row :
    (k j : String) (r : LedgerRow) (t : Dict LedgerRow)
    → get k t ≡ none
    → get j (insert_row k r t) ≡ (if str_eq k j then some r else get j t)
unfolding get insert_row
get-insert_row k j r [] h = refl
get-insert_row k j r ((i, q) ∷ t) h =
    ground (arith, h, eq_iff k j, eq_iff i k, eq_iff i j, get-insert_row k j r t)

insert_row-IsDistinct :
    (k : String) (r : LedgerRow) (t : Dict LedgerRow)
    → get k t ≡ none
    → IsDistinct t
    → IsDistinct (insert_row k r t)
unfolding get insert_row
insert_row-IsDistinct k r [] h d = (h, tt)
insert_row-IsDistinct k r ((i, q) ∷ t) h d = elim (Bool-cases (leb r.updated_at q.updated_at)) [
  | inl first ↦ rw first (h, d)
  | inr later ↦ rw later (
    ground (arith, get-insert_row k i r t (ground (arith, h)), d.0, h, eq_iff k i, eq_iff i k),
    insert_row-IsDistinct k r t (ground (arith, h)) d.1,
  )
]

-- A row that is recent is read, and no other.
pub get-recent_rows :
    (since : ℕ) (k : String) (t : Dict LedgerRow)
    → IsDistinct t
    → IsDistinct (recent_rows since t)
      × (get k (recent_rows since t) ≡ (elim (get k t) [
        | none ↦ none
        | some r ↦ if leb since r.updated_at then some r else none
      ]))
unfolding get recent_rows
get-recent_rows since k [] d = (tt, refl)
get-recent_rows since k ((i, r) ∷ t) d =
    let (apart, same) = get-recent_rows since k t d.1 in
    let (_, gone) = get-recent_rows since i t d.1 in
    let absent : get i (recent_rows since t) ≡ none = ground (arith, gone, d.0) in
    elim (Bool-cases (leb since r.updated_at)) [
      | inl fresh ↦ rw fresh (
        insert_row-IsDistinct i r (recent_rows since t) absent apart,
        ground (arith, get-insert_row i k r (recent_rows since t) absent, same, fresh),
      )
      | inr old ↦ rw old (apart, ground (arith, same, old, eq_iff i k, d.0))
    ]

module _ (j : Json) where
  open j use {Value, stringify, parse, empty_object, parse_stringify}

  -- `text ? JSON.parse(text) : d`, where a missing or empty text gives `d`; `none` is an exception.
  abbrev pub read_json {ℓ} : {A : Type ℓ} → (Value → A) → A → Option String → Option A
  read_json f d none = some d
  read_json f d (some s) =
      if str_eq s "" then some d else (elim (parse s) [ none ↦ none | some v ↦ some (f v) ])

  abbrev pub record_from :
      LedgerRow → Option (Option Value) → Option Value → Option (LedgerRecord j)
  record_from r none m = none
  record_from r (some c) none = none
  record_from r (some c) (some m) = some (record {
    operation_id = r.operation_id;
    status = r.status;
    created_at = r.created_at;
    updated_at = r.updated_at;
    cached_result = c;
    metadata = m;
  })

  -- The record of a row, unless a text of it cannot be read.
  unfoldable pub record_of_row : LedgerRow → Option (LedgerRecord j)
  record_of_row r =
      record_from r (read_json (λ v. some v) none r.cached_result_json)
        (read_json (λ v. v) empty_object r.metadata_json)

  -- The loop over the rows, which an exception ends.
  unfoldable pub load_rows : Dict LedgerRow → Dict (LedgerRecord j) → Dict (LedgerRecord j)
  load_rows [] m = m
  load_rows ((k, r) ∷ rows) m = elim (record_of_row r) [
    | none ↦ m
    | some x ↦ load_rows rows (set k x m)
  ]

  -- `_hydrateFromPersistence`, of a ledger without records.
  unfoldable pub hydrate_ledger : ℕ → Ledger j → Ledger j
  unfolding recent_rows
  hydrate_ledger now l = elim l.engine [
    | none ↦ l
    | some t ↦ record l { records = load_rows (recent_rows (now - l.max_age_ms) t) l.records }
  ]

  -- Every row can be read.
  abbrev pub AllRead : Dict LedgerRow → Type 0
  AllRead rows =
      (k : String) (r : LedgerRow)
      → get k rows ≡ some r
      → (x : LedgerRecord j) × (record_of_row r ≡ some x)

  pub get-load_rows :
      (k : String) (rows : Dict LedgerRow) (m : Dict (LedgerRecord j))
      → IsDistinct rows
      → AllRead rows
      → get k (load_rows rows m) ≡ (elim (get k rows) [ none ↦ get k m | some r ↦ record_of_row r ])
  unfolding load_rows get
  get-load_rows k [] m d all = refl
  get-load_rows k ((i, r) ∷ rows) m d all =
      let (x, read) = all i r (ground (arith, eq_iff i i)) in
      let later : AllRead rows = λ a q h. all a q (ground (arith, h, d.0, eq_iff i a)) in
      let rest = get-load_rows k rows (set i x m) d.1 later in
      rw (load_rows, read) (ground (arith, rest, read, get-set i k x m, d.0, eq_iff i k))
