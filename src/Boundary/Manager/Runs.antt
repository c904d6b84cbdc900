-- ===== src/Boundary/Manager/Runs.antt =====
-- Runs of boundary/executionBoundaryManager.mjs: callers and the execution process take turns.
use betting_automation_contr.Prelude.{
  ℕ, Bool, true, false, ◌&&◌, Option, List, String, ◌≡◌, str_eq, any,
}
use betting_automation_contr.Boundary.Ledger.Record.{Json}
use betting_automation_contr.Boundary.Reconciliation.Coordinator.{Coordinator}
use betting_automation_contr.Boundary.Manager.State.{Manager}
use betting_automation_contr.Boundary.Manager.Bets.{
  Call, StoredAccount, BetPayload, CashOutPayload, place_bet, cash_out,
}
use betting_automation_contr.Boundary.Manager.Inbound.{
  UnresolvedRun, Accepts, Message, reconciliation_report, handle_message, is_unresolved,
  handle_disconnected,
}

module _ (j : Json) where
  open j use {Value}

  -- A message that reports no reconciliation.
  abbrev pub is_report : Message j → Bool
  is_report (reconciliation_report operation_id resolution) = true
  is_report m = false

  -- One turn that reports no reconciliation.
  pub data Turn : Manager j → Manager j → Type 0 where
    bets :
        (c : Call) (store : Option (List StoredAccount)) (p : BetPayload j) (m : Manager j)
        → Turn m (place_bet j c store p m).0
    cashes_out : (c : Call) (p : CashOutPayload j) (m : Manager j) → Turn m (cash_out j c p m).0
    hears :
        (now : ℕ) (x : Accepts) (e : Message j) (m : Manager j)
        → is_report e ≡ false
        → Turn m (handle_message j now x e m)
    disconnects : (m : Manager j) → Turn m (handle_disconnected j m).0

  pub data Run (m : Manager j) : Manager j → Type 0 where
    here : Run m m
    next : (n k : Manager j) → Run m n → Turn n k → Run m k

  -- An account of an unresolved run of a snapshot.
  abbrev pub is_unresolved_in : String → List (UnresolvedRun j) → Bool
  is_unresolved_in b runs =
      any (λ (r : UnresolvedRun j). is_unresolved j r.status && str_eq b r.account_id) runs
