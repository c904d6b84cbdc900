-- ===== src/Boundary/Ledger/Record.antt =====
-- src/runtime-manager/boundary/idempotencyLedger.mjs: the records, the table that backs them, and
-- what the ledger uses of JSON.
use betting_automation_contr.Prelude.{ℕ, Bool, true, false, Option, none, some, String, ◌≡◌}
use betting_automation_contr.Prelude.Dict.{Dict}

-- JSON values, as the ledger uses them: it prints and reads them, and takes the `operationId` of
-- a result. Reading what was printed gives the value back.
pub record Json : Type 1 where
  pub Value : Type 0
  pub stringify : Value → String
  pub parse : String → Option Value
  pub empty_object : Value
  pub operation_id : Value → Option String
  pub parse_stringify : (v : Value) → parse (stringify v) ≡ some v

pub data Status : Type 0 where
  in_flight completed failed uncertain : Status

-- A row of the table `idempotency_ledger`; its primary key is the key in the table.
pub record LedgerRow : Type 0 where
  pub operation_id : String
  pub status : Status
  pub created_at : ℕ
  pub updated_at : ℕ
  pub cached_result_json : Option String
  pub metadata_json : Option String

module _ (j : Json) where
  open j use {Value, stringify}

  -- `cached_result` is `none` for a falsy result.
  pub record LedgerRecord : Type 0 where
    pub operation_id : String
    pub status : Status
    pub created_at : ℕ
    pub updated_at : ℕ
    pub cached_result : Option Value
    pub metadata : Value

  -- `engine` is the table, if the ledger has an engine; `records` is the `Map`.
  pub record Ledger : Type 0 where
    pub max_age_ms : ℕ
    pub max_entries : ℕ
    pub engine : Option (Dict LedgerRow)
    pub records : Dict LedgerRecord

  -- `cachedResult ? JSON.stringify(cachedResult) : null`
  abbrev pub result_json : Option Value → Option String
  result_json none = none
  result_json (some v) = some (stringify v)

  -- The row that an `INSERT OR REPLACE` writes for a record.
  unfoldable pub row_of : LedgerRecord → LedgerRow
  row_of r = record {
    operation_id = r.operation_id;
    status = r.status;
    created_at = r.created_at;
    updated_at = r.updated_at;
    cached_result_json = result_json r.cached_result;
    metadata_json = some (stringify r.metadata);
  }

-- A statement inside `try { ... } catch { }`: it changes the table if there is an engine and the
-- engine accepts it.
abbrev pub run_sql {ℓ} : {T : Type ℓ} → Bool → (T → T) → Option T → Option T
run_sql accepted statement none = none
run_sql true statement (some t) = some (statement t)
run_sql false statement (some t) = some t
