-- ===== src/Boundary/Reconciliation/Tests.antt =====
-- A coordinator with an engine, and the theorems at its first uncertain operation.
use betting_automation_contr.Prelude.{
  true, none, some, [], ◌∷◌, String, ◌≡◌, ◌≢◌, refl, arith, eq_iff,
}
use betting_automation_contr.Boundary.Ledger.Record.{Json}
use betting_automation_contr.Boundary.Reconciliation.Coordinator.{
  Frozen, Tables, Task, Coordinator, enqueue, queued_task, is_account_frozen, hydrate,
}
use betting_automation_contr.Boundary.Reconciliation.Freezing.{is_pending}
use betting_automation_contr.Boundary.Reconciliation.Recovery.{enqueue_survives}

abbrev texts : Json
texts = record {
  Value = String;
  stringify = λ v. v;
  parse = λ s. some s;
  empty_object = "{}";
  operation_id = λ v. none;
  parse_stringify = λ v. refl;
}

abbrev no_rows : Tables
no_rows = record { frozen_rows = []; queue_rows = [] }

abbrev idle : Coordinator texts
idle = record { engine = some no_rows; frozen_accounts = []; pending = [] }

abbrev bet : Task texts
bet = queued_task texts 10 "op1" "acc1" "k1" "{}"

abbrev other_bet : Task texts
other_bet = queued_task texts 20 "op2" "acc1" "k2" "{}"

abbrev frozen : Frozen
frozen = record {
  account_id = "acc1";
  operation_id = "op1";
  idempotency_key = "k1";
  frozen_at = 10;
  reason = "TIMEOUT";
}

abbrev waiting : Coordinator texts
waiting = record idle {
  frozen_accounts = ("acc1", frozen) ∷ [];
  pending = ("op1", bet) ∷ ("op2", other_bet) ∷ [];
}

acc1_named : ◌≢◌ {A = String} "acc1" ""
acc1_named = λ e. ground (arith, eq_iff "acc1" "")

enqueue_survives_example :
    (u : Tables) × ((enqueue texts 10 true true "op1" "acc1" "k1" "TIMEOUT" "{}" idle).engine
      ≡ some u)
    × (is_account_frozen texts "acc1" (hydrate texts u) ≡ true)
    × (is_pending texts "op1" (hydrate texts u) ≡ true)
enqueue_survives_example =
    enqueue_survives texts 10 "op1" "acc1" "k1" "TIMEOUT" "{}" no_rows idle refl tt acc1_named
