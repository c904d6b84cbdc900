-- ===== src/Boundary/Manager/Retries.antt =====
-- Financial idempotency of boundary/executionBoundaryManager.mjs: what a retry of a bet or a
-- cash-out is answered.
use betting_automation_contr.Prelude.{
  ℕ, ◌-◌, ◌≤◌, false, Option, none, List, String, ◌≡◌, ◌≢◌, refl, arith,
}
use betting_automation_contr.Boundary.Ledger.Record.{Json, in_flight, Ledger, LedgerRecord}
use betting_automation_contr.Boundary.Ledger.Operations.{
  exists, check, fresh_record, record_in_flight,
}
use betting_automation_contr.Boundary.Ledger.Reads.{check-record_in_flight}
use betting_automation_contr.Boundary.Watchdog.Monitor.{is_degraded, start}
use betting_automation_contr.Boundary.Manager.State.{Dispatch, Manager, dispatch_envelope}
use betting_automation_contr.Boundary.Manager.Bets.{
  Call, StoredAccount, BetPayload, CashOutPayload, duplicate, dispatched, duplicate_of, launch,
  bet_key, place_bet, cash_out, cash_out_key, operation_id_of,
}

module _ (j : Json) where
  open j use {Value}

  -- What an accepted operation leaves: its record, and a watchdog that has just been started.
  pub record Launched (c : Call) (key : String) (m n : Manager j) : Type 0 where
    pub operation_id : String
    pub json : Value
    pub recorded :
        n.idempotency
        ≡ (record_in_flight j c.now c.pruning c.inserting key operation_id json
            (check j c.now key m.idempotency).0).0
    pub calm : is_degraded n.watchdog ≡ false

  pub place_bet-Launched :
      (c : Call) (store : Option (List StoredAccount)) (p : BetPayload j) (m n : Manager j)
      (d : Dispatch)
      → place_bet j c store p m ≡ (n, dispatched d)
      → Launched c (bet_key j c p) m n
  unfolding place_bet launch duplicate_of dispatch_envelope start
  place_bet-Launched c store p m n d h = record {
    operation_id = operation_id_of c.stamp p.operation_id;
    json = p.json;
    recorded = ground arith;
    calm = ground arith;
  }

  cash_out-Launched :
      (c : Call) (p : CashOutPayload j) (m n : Manager j) (d : Dispatch)
      → cash_out j c p m ≡ (n, dispatched d)
      → Launched c (cash_out_key j c p) m n
  unfolding cash_out launch duplicate_of dispatch_envelope start
  cash_out-Launched c p m n d h = record {
    operation_id = operation_id_of c.stamp p.operation_id;
    json = p.json;
    recorded = ground arith;
    calm = ground arith;
  }

  max_age_ms-check :
      (now : ℕ) (k : String) (l : Ledger j) → (check j now k l).0.max_age_ms ≡ l.max_age_ms
  unfolding check
  max_age_ms-check now k l = ground arith

  -- The ledger answers a key that was launched as in flight, until it expires.
  Launched-check :
      (c : Call) (later : ℕ) (key : String) (m n : Manager j)
      → Launched c key m n
      → key ≢ ""
      → later - c.now ≤ m.idempotency.max_age_ms
      → (r : LedgerRecord j) × ((check j later key n.idempotency).1 ≡ exists r)
        × (r.status ≡ in_flight)
  Launched-check c later key m n h ne age =
      let l = (check j c.now key m.idempotency).0 in
      let answer =
        check-record_in_flight j c.now later c.pruning c.inserting key h.operation_id h.json l ne
          (rw (max_age_ms-check c.now key m.idempotency) age) in
      (fresh_record j c.now h.operation_id h.json, rw (h.recorded) answer, refl)

  -- A bet that was dispatched is not dispatched again: if the next call is a bet or a cash-out
  -- under the same key, and the record is no older than the ledger keeps it, then that call is
  -- answered as a duplicate in flight, also if it forces a retry. The key is not empty, and the
  -- system is not degraded.
  pub place_bet_once :
      (c e : Call) (store again : Option (List StoredAccount)) (p q : BetPayload j)
      (out : CashOutPayload j) (m n : Manager j) (d : Dispatch)
      → place_bet j c store p m ≡ (n, dispatched d)
      → bet_key j e q ≡ bet_key j c p
      → cash_out_key j e out ≡ bet_key j c p
      → bet_key j c p ≢ ""
      → e.now - c.now ≤ m.idempotency.max_age_ms
      → e.degraded ≡ false
      → ((place_bet j e again q n).1 ≡ duplicate in_flight none)
        × ((cash_out j e out n).1 ≡ duplicate in_flight none)
  unfolding place_bet cash_out duplicate_of
  place_bet_once c e store again p q out m n d h same same_out ne age up =
      let launched = place_bet-Launched c store p m n d h in
      let (r, found, flying) = Launched-check c e.now (bet_key j c p) m n launched ne age in
      (
        ground (arith, same, found, flying, launched.calm, up),
        ground (arith, same_out, found, flying, launched.calm, up),
      )

  -- The same for a cash-out.
  cash_out_once :
      (c e : Call) (p q : CashOutPayload j) (m n : Manager j) (d : Dispatch)
      → cash_out j c p m ≡ (n, dispatched d)
      → cash_out_key j e q ≡ cash_out_key j c p
      → cash_out_key j c p ≢ ""
      → e.now - c.now ≤ m.idempotency.max_age_ms
      → e.degraded ≡ false
      → (cash_out j e q n).1 ≡ duplicate in_flight none
  unfolding cash_out duplicate_of
  cash_out_once c e p q m n d h same ne age up =
      let launched = cash_out-Launched c p m n d h in
      let (r, found, flying) = Launched-check c e.now (cash_out_key j c p) m n launched ne age in
      ground (arith, same, found, flying, launched.calm, up)
