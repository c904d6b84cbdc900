-- ===== src/Boundary/Manager/Results.antt =====
-- How a result of the execution process settles the operation that boundary/executionBoundaryManager.mjs
-- dispatched.
use betting_automation_contr.Prelude.{
  ℕ, ◌-◌, ◌≤◌, false, Option, none, some, List, ◌≡◌, ◌≢◌, arith, eq_iff,
}
use betting_automation_contr.Prelude.Dict.{get, get-set_self}
use betting_automation_contr.Boundary.Ledger.Record.{Json, Status, in_flight, LedgerRecord}
use betting_automation_contr.Boundary.Ledger.Operations.{exists, check, record_terminal}
use betting_automation_contr.Boundary.Ledger.Reads.{check-record_terminal}
use betting_automation_contr.Boundary.Manager.State.{Dispatch, InFlight, Manager, dispatch_envelope}
use betting_automation_contr.Boundary.Manager.Bets.{
  Call, StoredAccount, BetPayload, duplicate, dispatched, duplicate_of, launch, bet_key, place_bet,
  targets_of, operation_id_of,
}
use betting_automation_contr.Boundary.Manager.Inbound.{
  OperationResult, Accepts, outcome_of, in_flight_of, handle_result, settle_key,
}
use betting_automation_contr.Boundary.Manager.Retries.{place_bet-Launched}

module _ (j : Json) where
  open j use {Value}

  -- The entry by which a result is correlated.
  abbrev pub entry_of : Call → BetPayload j → InFlight j
  entry_of c p = record {
    idempotency_key = bet_key j c p;
    account_id = p.account_id;
    target_accounts = targets_of j p;
    dispatched_at = c.now;
    payload = p.json;
  }

  place_bet-in_flight :
      (c : Call) (store : Option (List StoredAccount)) (p : BetPayload j) (m n : Manager j)
      (d : Dispatch)
      → place_bet j c store p m ≡ (n, dispatched d)
      → get (operation_id_of c.stamp p.operation_id) n.in_flight_operations ≡ some (entry_of c p)
  unfolding place_bet launch duplicate_of dispatch_envelope
  place_bet-in_flight c store p m n d h = ground (
    arith,
    get-set_self (operation_id_of c.stamp p.operation_id) (entry_of c p) m.in_flight_operations,
  )

  handle_result-settles :
      (now : ℕ) (a : Accepts) (r : OperationResult j) (f : InFlight j) (s : Status) (m : Manager j)
      → in_flight_of j r.operation_id m.in_flight_operations ≡ some f
      → r.idempotency_key ≡ none
      → f.idempotency_key ≢ ""
      → outcome_of j r ≡ some s
      → ((handle_result j now a r m).idempotency
          ≡ (record_terminal j now a.ledger f.idempotency_key s (some r.json) m.idempotency).0)
        × ((handle_result j now a r m).watchdog ≡ m.watchdog)
  unfolding handle_result settle_key outcome_of
  handle_result-settles now a r f s m found dropped ne outcome =
      ground (arith, eq_iff f.idempotency_key "")

  -- The status of a result is never `in_flight`.
  outcome_of-ne-in_flight :
      (r : OperationResult j) (s : Status) → outcome_of j r ≡ some s → s ≢ in_flight
  unfolding outcome_of
  outcome_of-ne-in_flight r s h = ground arith

  duplicate_of-settled :
      (s : Status) (v : Option Value) (r : LedgerRecord j)
      → s ≢ in_flight
      → r.status ≡ s
      → r.cached_result ≡ v
      → duplicate_of j false (exists r) ≡ some (duplicate s v)
  unfolding duplicate_of
  duplicate_of-settled s v r ne st res = ground arith

  check-handle_result :
      (now later : ℕ) (a : Accepts) (r : OperationResult j) (f : InFlight j) (s : Status)
      (m : Manager j)
      → in_flight_of j r.operation_id m.in_flight_operations ≡ some f
      → r.idempotency_key ≡ none
      → f.idempotency_key ≢ ""
      → outcome_of j r ≡ some s
      → later - now ≤ m.idempotency.max_age_ms
      → (x : LedgerRecord j) × ((check j later f.idempotency_key
            (handle_result j now a r m).idempotency).1
          ≡ exists x)
        × (x.status ≡ s)
        × (x.cached_result ≡ some r.json)
  check-handle_result now later a r f s m found dropped ne outcome age =
      let t = record_terminal j now a.ledger f.idempotency_key s (some r.json) m.idempotency in
      let (answer, st, cached) =
        check-record_terminal j now later a.ledger f.idempotency_key s (some r.json) m.idempotency
          ne age in
      (
        t.1,
        rw ((handle_result-settles now a r f s m found dropped ne outcome).0) answer,
        st,
        cached,
      )

  -- A result that names only the operation of a dispatched bet settles the bet's key: while the
  -- record is fresh, a bet under that key is answered with the outcome and the result, and not
  -- dispatched, unless it forces the retry of a failure. The key and the operation's id are not
  -- empty, and the system is not degraded.
  pub handle_result-answers :
      (c e : Call) (store again : Option (List StoredAccount)) (p q : BetPayload j)
      (m n : Manager j) (d : Dispatch) (now : ℕ) (a : Accepts) (r : OperationResult j) (s : Status)
      → place_bet j c store p m ≡ (n, dispatched d)
      → r.operation_id ≡ some (operation_id_of c.stamp p.operation_id)
      → operation_id_of c.stamp p.operation_id ≢ ""
      → r.idempotency_key ≡ none
      → outcome_of j r ≡ some s
      → bet_key j e q ≡ bet_key j c p
      → bet_key j c p ≢ ""
      → e.now - now ≤ n.idempotency.max_age_ms
      → e.degraded ≡ false
      → q.force_retry ≡ false
      → (place_bet j e again q (handle_result j now a r n)).1 ≡ duplicate s (some r.json)
  unfolding place_bet
  handle_result-answers c e store again p q m n d now a r s h op ne dropped outcome same key age up
        once =
      let found : in_flight_of j r.operation_id n.in_flight_operations ≡ some (entry_of c p) =
        ground (
          arith,
          op,
          eq_iff (operation_id_of c.stamp p.operation_id) "",
          place_bet-in_flight c store p m n d h,
        ) in
      let (x, answer, st, cached) =
        check-handle_result now e.now a r (entry_of c p) s n found dropped key outcome age in
      let watch = (handle_result-settles now a r (entry_of c p) s n found dropped key outcome).1 in
      let reply =
        duplicate_of-settled s (some r.json) x (outcome_of-ne-in_flight r s outcome) st cached in
      ground
        (arith, same, answer, reply, watch, (place_bet-Launched j c store p m n d h).calm, up, once)
