-- ===== src/Boundary/Manager/Tests.antt =====
-- A manager with one bet in flight, and the theorems on retries, results and frozen accounts.
use betting_automation_contr.Prelude.{
  ℕ, true, false, none, some, [], ◌∷◌, String, ◌≡◌, ◌≢◌, refl, arith, eq_iff,
}
use betting_automation_contr.Prelude.Dict.{get, set}
use betting_automation_contr.Boundary.Ledger.Record.{Json, in_flight}
use betting_automation_contr.Boundary.Ledger.Operations.{
  check, record_in_flight, prune_expired, unexpired, make_room, evict_oldest,
}
use betting_automation_contr.Boundary.Watchdog.Monitor.{Watchdog, offline, start}
use betting_automation_contr.Boundary.Manager.State.{Manager, sent, dispatch_envelope}
use betting_automation_contr.Boundary.Manager.Bets.{
  Call, BetPayload, CashOutPayload, duplicate, dispatched, place_bet, cash_out, launch,
  duplicate_of, first_frozen, bet_denial, are_all_excluded,
}
use betting_automation_contr.Boundary.Manager.Inbound.{
  OperationResult, Accepts, status_timeout, status_success,
}
use betting_automation_contr.Boundary.Manager.Retries.{place_bet_once}
use betting_automation_contr.Boundary.Manager.Results.{entry_of}

abbrev texts : Json
texts = record {
  Value = String;
  stringify = λ v. v;
  parse = λ s. some s;
  empty_object = "{}";
  operation_id = λ v. none;
  parse_stringify = λ v. refl;
}

abbrev quiet : Watchdog
quiet = record {
  warning_timeout_ms = 6000;
  degraded_timeout_ms = 12000;
  quarantine_timeout_ms = 25000;
  liveness_state = offline;
  last_heartbeat = 0;
  timer_running = true;
}

abbrev connected_manager : Manager texts
connected_manager = record {
  connected = true;
  idempotency = record { max_age_ms = 1000; max_entries = 10; engine = none; records = [] };
  reconciliation = record { engine = none; frozen_accounts = []; pending = [] };
  watchdog = quiet;
  engine_status = "RUNNING";
  active_browser_count = 1;
  pending_correlations = [];
  in_flight_operations = [];
}

abbrev at : ℕ → Call
at now = record {
  now = now;
  stamp = "10";
  pruning = true;
  inserting = true;
  degraded = false;
  options = record { msg_id = "m1"; trace_id = "t1"; wait_for_ack = false };
}

abbrev bet : BetPayload texts
bet = record {
  target_accounts = none;
  account_id = some "acc1";
  idempotency_key = some "k1";
  operation_id = some "op1";
  force_retry = false;
  stake = none;
  odds = none;
  json = "{}";
}

abbrev cash : CashOutPayload texts
cash = record {
  account_id = some "acc1";
  target_account = none;
  idempotency_key = some "k2";
  operation_id = some "op2";
  force_retry = false;
  json = "{}";
}

-- After the bet, and after the cash-out.
abbrev betting : Manager texts
betting = (place_bet texts (at 10) none bet connected_manager).0

abbrev cashing : Manager texts
cashing = (cash_out texts (at 10) cash connected_manager).0

bet_runs : place_bet texts (at 10) none bet connected_manager ≡ (betting, dispatched (sent true))
unfolding place_bet check duplicate_of bet_denial first_frozen are_all_excluded launch get
    record_in_flight prune_expired unexpired make_room evict_oldest set dispatch_envelope start
bet_runs = refl

cash_out_runs : cash_out texts (at 10) cash connected_manager ≡ (cashing, dispatched (sent true))
unfolding cash_out check duplicate_of first_frozen launch get record_in_flight prune_expired
    unexpired make_room evict_oldest set dispatch_envelope start
cash_out_runs = refl

k1_named : ◌≢◌ {A = String} "k1" ""
k1_named = λ e. ground (arith, eq_iff "k1" "")

op1_named : ◌≢◌ {A = String} "op1" ""
op1_named = λ e. ground (arith, eq_iff "op1" "")

-- A cash-out under the key of the bet.
abbrev same_key : CashOutPayload texts
same_key = record cash { idempotency_key = some "k1"; force_retry = true }

place_bet_once_example :
    ((place_bet texts (at 20) none bet betting).1 ≡ duplicate in_flight none)
    × ((cash_out texts (at 20) same_key betting).1 ≡ duplicate in_flight none)
place_bet_once_example =
    place_bet_once texts (at 10) (at 20) none none bet bet same_key connected_manager betting
      (sent true) bet_runs refl refl k1_named (omega arith) refl

abbrev win : OperationResult texts
win = record {
  operation_id = some "op1";
  status = status_success;
  is_uncertain_code = false;
  idempotency_key = none;
  account_id = none;
  target_accounts = none;
  target_outcomes = [];
  error = none;
  json = "{won}";
}

abbrev accepting : Accepts
accepting = record { ledger = true; freezing = true; queueing = true }

betting_age : betting.idempotency.max_age_ms ≡ 1000
unfolding place_bet check duplicate_of bet_denial first_frozen are_all_excluded launch get
    record_in_flight prune_expired unexpired make_room evict_oldest set dispatch_envelope start
betting_age = refl

-- A manager that knows the bet, and whose execution process then times out on it.
abbrev known : Manager texts
known = record connected_manager { in_flight_operations = ("op1", entry_of texts (at 10) bet) ∷ [] }

abbrev lost : OperationResult texts
lost = record win { status = status_timeout }

abbrev cold : Manager texts
cold = record connected_manager {
  reconciliation = record {
    engine = none;
    frozen_accounts =
        (
          "acc1",
          record {
            account_id = "acc1";
            operation_id = "op0";
            idempotency_key = "k0";
            frozen_at = 5;
            reason = "TIMEOUT";
          },
        )
        ∷ [];
    pending = [];
  };
}

abbrev later : Manager texts
later = (place_bet texts (at 10) none bet cold).0
