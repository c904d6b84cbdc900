-- ===== src/Boundary/Manager/Frozen.antt =====
-- Accounts of unknown outcome in boundary/executionBoundaryManager.mjs: an uncertain result freezes
-- them, and nothing is dispatched to a frozen one.
use betting_automation_contr.Prelude.{
  or_text, ℕ, Bool, true, ◌||◌, Bool-cases, inl, inr, Option, none, some, List, [], ◌∷◌, ◌++◌,
  String, ◌≡◌, ◌≢◌, refl, arith, str_eq, eq_iff, any, if◌then◌else◌,
}
use betting_automation_contr.Boundary.Ledger.Record.{Json, Ledger}
use betting_automation_contr.Boundary.Ledger.Operations.{check}
use betting_automation_contr.Boundary.Reconciliation.Coordinator.{
  Coordinator, is_account_frozen, enqueue,
}
use betting_automation_contr.Boundary.Reconciliation.Freezing.{frozen-freeze_account}
use betting_automation_contr.Boundary.Manager.State.{Dispatch, Manager, listed, InFlight}
use betting_automation_contr.Boundary.Manager.Bets.{
  Call, StoredAccount, BetPayload, CashOutPayload, dispatched, duplicate_of, first_frozen,
  bet_denial, bet_key, place_bet, cash_out, cash_out_key, cash_out_target, targets_of,
}
use betting_automation_contr.Boundary.Manager.Inbound.{
  OperationResult, Accepts, add_once, affected_accounts, enqueue_all, is_uncertain, outcome_of,
  in_flight_of, handle_result, settle_result, settle_key, correlate, uncertain_targets, all_targets,
}

abbrev pub is_among : String → List String → Bool
is_among a xs = any (str_eq a) xs

is_among-append :
    (a : String) (xs ys : List String) → is_among a (xs ++ ys) ≡ (is_among a xs || is_among a ys)
is_among-append a [] ys = refl
is_among-append a (x ∷ xs) ys = ground (arith, is_among-append a xs ys)

is_among-add_once :
    (a : String) (xs seen : List String)
    → is_among a (add_once xs seen) ≡ (is_among a xs || is_among a seen)
unfolding add_once
is_among-add_once a [] seen = refl
is_among-add_once a (x ∷ xs) seen = elim (Bool-cases (any (str_eq x) seen)) [
  | inl old ↦ rw old (ground (arith, is_among-add_once a xs seen, eq_iff a x, old))
  | inr fresh ↦
      rw fresh
        (ground (arith, is_among-add_once a xs (seen ++ (x ∷ [])), is_among-append a seen (x ∷ [])))
]

module _ (j : Json) where
  open j use {Value}

  -- A target that is frozen is found.
  first_frozen-found :
      (m : Manager j) (a : String) (targets : List String)
      → is_account_frozen j a m.reconciliation ≡ true
      → is_among a targets ≡ true
      → (b : String) × (first_frozen j m targets ≡ some b)
  unfolding first_frozen
  first_frozen-found m a [] frozen here = absurd (ground arith)
  first_frozen-found m a (x ∷ xs) frozen here =
      elim (Bool-cases (is_account_frozen j x m.reconciliation)) [
        | inl f ↦ (x, rw f refl)
        | inr thawed ↦
            let q : is_among a xs ≡ true = ground (arith, frozen, thawed, eq_iff a x, here) in
            let (b, found) = first_frozen-found m a xs frozen q in (b, rw thawed found)
      ]

  first_frozen-ledger :
      (m : Manager j) (l : Ledger j) (targets : List String)
      → first_frozen j (record m { idempotency = l }) targets ≡ first_frozen j m targets
  unfolding first_frozen
  first_frozen-ledger m l [] = refl
  first_frozen-ledger m l (x ∷ xs) = ground (arith, first_frozen-ledger m l xs)

  pub frozen_denies_bet :
      (c : Call) (store : Option (List StoredAccount)) (p : BetPayload j) (m : Manager j)
      (a : String) (d : Dispatch)
      → is_account_frozen j a m.reconciliation ≡ true
      → is_among a (targets_of j p) ≡ true
      → (place_bet j c store p m).1 ≢ dispatched d
  unfolding place_bet bet_denial duplicate_of
  frozen_denies_bet c store p m a d frozen here =
      let (b, found) = first_frozen-found m a (targets_of j p) frozen here in
      let l = (check j c.now (bet_key j c p) m.idempotency).0 in
      ground (arith, found, first_frozen-ledger m l (targets_of j p))

  frozen_denies_cash_out :
      (c : Call) (q : CashOutPayload j) (m : Manager j) (a : String) (d : Dispatch)
      → is_account_frozen j a m.reconciliation ≡ true
      → cash_out_target j q ≡ some a
      → a ≢ ""
      → (cash_out j c q m).1 ≢ dispatched d
  unfolding cash_out duplicate_of
  frozen_denies_cash_out c q m a d frozen target named =
      let here : is_among a (listed (cash_out_target j q)) ≡ true =
        rw target (ground (arith, eq_iff a "", eq_iff a a, named)) in
      let (b, found) = first_frozen-found m a (listed (cash_out_target j q)) frozen here in
      let l = (check j c.now (cash_out_key j c q) m.idempotency).0 in
      ground (arith, found, first_frozen-ledger m l (listed (cash_out_target j q)))

  -- No bet for a frozen account is dispatched, and no cash-out: the call is denied or answered as
  -- a duplicate. The account is not empty.
  pub frozen_denies :
      (c : Call) (store : Option (List StoredAccount)) (p : BetPayload j) (q : CashOutPayload j)
      (m : Manager j) (a : String) (d : Dispatch)
      → is_account_frozen j a m.reconciliation ≡ true
      → is_among a (targets_of j p) ≡ true
      → cash_out_target j q ≡ some a
      → a ≢ ""
      → ((place_bet j c store p m).1 ≢ dispatched d) × ((cash_out j c q m).1 ≢ dispatched d)
  frozen_denies c store p q m a d frozen here target named = (
    frozen_denies_bet c store p m a d frozen here,
    frozen_denies_cash_out c q m a d frozen target named,
  )

  -- Another uncertain operation thaws nothing.
  pub frozen-enqueue :
      (now : ℕ) (u v : Bool) (operation_id a b key reason : String) (json : Value)
      (c : Coordinator j)
      → is_account_frozen j b (enqueue j now u v operation_id a key reason json c) ≡ (
          if str_eq a ""
          then is_account_frozen j b c
          else (if str_eq a b then true else is_account_frozen j b c))
  unfolding enqueue
  frozen-enqueue now u v operation_id a b key reason json c =
      ground (arith, frozen-freeze_account j now u a b operation_id key reason c)

  pub frozen-enqueue_all :
      (now : ℕ) (x : Accepts) (operation_id b key reason : String) (json : Value)
      (accounts : List String) (c : Coordinator j)
      → b ≢ ""
      → (is_account_frozen j b c || is_among b accounts) ≡ true
      → is_account_frozen j b (enqueue_all j now x operation_id key reason json accounts c) ≡ true
  unfolding enqueue_all
  frozen-enqueue_all now x operation_id b key reason json [] c ne h = ground arith
  frozen-enqueue_all now x operation_id b key reason json (a ∷ rest) c ne h =
      frozen-enqueue_all now x operation_id b key reason json rest
        (enqueue j now x.freezing x.queueing operation_id a key reason json c) ne
        (ground (
          arith,
          frozen-enqueue now x.freezing x.queueing operation_id a b key reason json c,
          eq_iff a "",
          eq_iff a b,
          eq_iff b a,
          h,
        ))

  affected-targets :
      (r : OperationResult j) (a : String)
      → is_among a (all_targets r.target_accounts) ≡ true
      → is_among a (affected_accounts j r) ≡ true
  unfolding affected_accounts
  affected-targets r a here =
      let named =
        listed r.account_id
        ++ (all_targets r.target_accounts ++ uncertain_targets r.target_outcomes) in
      let seen : is_among a (add_once named []) ≡ true = ground (
        arith,
        is_among-add_once a named [],
        is_among-append a (listed r.account_id)
            (all_targets r.target_accounts ++ uncertain_targets r.target_outcomes),
        is_among-append a (all_targets r.target_accounts) (uncertain_targets r.target_outcomes),
        here,
      ) in
      ground (arith, seen)

  settle_result-freezes :
      (now : ℕ) (x : Accepts) (r : OperationResult j) (m : Manager j) (a : String)
      → is_uncertain j r ≡ true
      → is_among a (affected_accounts j r) ≡ true
      → a ≢ ""
      → is_account_frozen j a (settle_result j now x r m).reconciliation ≡ true
  unfolding settle_result
  settle_result-freezes now x r m a unsure here ne =
      let settled = settle_key j now x r (outcome_of j r) m in
      let done =
        frozen-enqueue_all now x (or_text r.operation_id "unknown_op") a
          (or_text r.idempotency_key "") (or_text r.error "Atomic bet commitment unconfirmed")
          r.json (affected_accounts j r) settled.reconciliation ne (ground (arith, here)) in
      ground (arith, unsure, done)

  -- An uncertain result freezes every account that its operation was dispatched for, even if it
  -- names only the operation, and whatever the engines accept. The account is not empty.
  pub handle_result-freezes :
      (now : ℕ) (x : Accepts) (r : OperationResult j) (f : InFlight j) (m : Manager j) (a : String)
      → in_flight_of j r.operation_id m.in_flight_operations ≡ some f
      → r.target_accounts ≡ none
      → is_uncertain j r ≡ true
      → is_among a f.target_accounts ≡ true
      → a ≢ ""
      → is_account_frozen j a (handle_result j now x r m).reconciliation ≡ true
  unfolding handle_result
  handle_result-freezes now x r f m a found dropped unsure here ne =
      let full = correlate j r (some f) in
      let known : is_among a (all_targets full.target_accounts) ≡ true =
        ground (arith, dropped, here) in
      rw found (
        settle_result-freezes now x full _ a (ground (arith, unsure))
          (affected-targets full a known) ne)
