-- ===== src/Boundary/Ledger/Tests.antt =====
-- A ledger of two entries, and the theorems at its first records.
use betting_automation_contr.Prelude.{
  true, false, none, some, [], ◌∷◌, String, ◌≡◌, refl, arith, eq_iff,
}
use betting_automation_contr.Prelude.Dict.{get, set}
use betting_automation_contr.Boundary.Ledger.Record.{Json, Ledger, LedgerRecord, LedgerRow, row_of}
use betting_automation_contr.Boundary.Ledger.Operations.{
  exists, check, unexpired, prune_expired, make_room, fresh_record, record_in_flight,
}
use betting_automation_contr.Boundary.Ledger.Hydration.{hydrate_ledger}
use betting_automation_contr.Boundary.Ledger.Restart.{restart_recognises}
use betting_automation_contr.Boundary.Ledger.Reads.{check-record_in_flight}

-- JSON over texts that print as themselves.
abbrev texts : Json
texts = record {
  Value = String;
  stringify = λ v. v;
  parse = λ s. some s;
  empty_object = "{}";
  operation_id = λ v. none;
  parse_stringify = λ v. refl;
}

abbrev first : LedgerRecord texts
first = fresh_record texts 10 "op1" "{}"

abbrev second : LedgerRecord texts
second = fresh_record texts 20 "op2" "{}"

abbrev row : LedgerRecord texts → LedgerRow
row r = record {
  operation_id = r.operation_id;
  status = r.status;
  created_at = r.created_at;
  updated_at = r.updated_at;
  cached_result_json = none;
  metadata_json = some r.metadata;
}

abbrev empty : Ledger texts
empty = record { max_age_ms = 1000; max_entries = 2; engine = some []; records = [] }

abbrev one : Ledger texts
one = record empty { engine = some (("a", row first) ∷ []); records = ("a", first) ∷ [] }

abbrev full : Ledger texts
full = record empty {
  engine = some (("a", row first) ∷ ("b", row second) ∷ []);
  records = ("a", first) ∷ ("b", second) ∷ [];
}

full_runs :
    (record_in_flight texts 20 true true "b" "op2" "{}"
      (record_in_flight texts 10 true true "a" "op1" "{}" empty).0).0
    ≡ full
unfolding record_in_flight prune_expired unexpired make_room set row_of
full_runs = refl

check-record_in_flight_example :
    (check texts 500 "b" (record_in_flight texts 20 true false "b" "op2" "{}" one).0).1
    ≡ exists (fresh_record texts 20 "op2" "{}")
check-record_in_flight_example =
    check-record_in_flight texts 20 500 true false "b" "op2" "{}" one
      (λ e. ground (arith, eq_iff "b" "")) (omega arith)

restart_recognises_example :
    let saved = (record_in_flight texts 10 true true "k" "op1" "{}" empty).0 in
    (check texts 60 "k" (hydrate_ledger texts 60 (record saved { records = [] }))).1
    ≡ exists (fresh_record texts 10 "op1" "{}")
unfolding get
restart_recognises_example =
    restart_recognises texts 10 60 true "k" "op1" "{}" empty [] refl tt
      (λ k r h. absurd (ground (arith, h))) (λ h. absurd (ground (arith, (eq_iff "k" "").1 h)))
      (λ h. absurd (ground (arith, (eq_iff "{}" "").1 h))) (ground arith)
