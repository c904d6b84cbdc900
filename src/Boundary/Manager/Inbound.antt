-- ===== src/Boundary/Manager/Inbound.antt =====
-- src/runtime-manager/boundary/executionBoundaryManager.mjs: what an envelope from the execution
-- process changes. The parsing and the validation of the frame come before it; a call takes the
-- clock, and whether the engines accept the statements of the ledger and of the coordinator.
use betting_automation_contr.Prelude.{
  first_text, or_text, ℕ, Bool, true, false, ◌||◌, Option, none, some, List, [], ◌∷◌, ◌++◌, String,
  str_eq, any, is_some, if◌then◌else◌,
}
use betting_automation_contr.Prelude.Dict.{Dict, get, delete}
use betting_automation_contr.Boundary.Ledger.Record.{Json, Status, completed, failed, uncertain}
use betting_automation_contr.Boundary.Ledger.Operations.{record_terminal}
use betting_automation_contr.Boundary.Reconciliation.Coordinator.{
  Resolution, Coordinator, enqueue, handle_report,
}
use betting_automation_contr.Boundary.Watchdog.Monitor.{record_heartbeat, stop}
use betting_automation_contr.Boundary.Manager.State.{listed, Pending, InFlight, Manager}

-- The statuses that a result, an outcome of a target or a run of the snapshot may have.
pub data ReportedStatus : Type 0 where
  status_uncertain status_unknown status_timeout status_completed : ReportedStatus
  status_success status_failed status_aborted status_processing status_other : ReportedStatus

pub record TargetOutcome : Type 0 where
  pub status : ReportedStatus
  pub target_id : Option String

-- Whether the engines accept the statements of a call.
pub record Accepts : Type 0 where
  pub ledger : Bool
  pub freezing : Bool
  pub queueing : Bool

-- The targets of the outcomes that are uncertain.
unfoldable pub uncertain_targets : List TargetOutcome → List String
uncertain_targets [] = []
uncertain_targets (o ∷ os) =
    let rest = uncertain_targets os in
    elim o.status [ status_uncertain ↦ listed o.target_id ++ rest | _ ↦ rest ]

-- A JavaScript `Set` of the texts, in the order of their insertion.
unfoldable pub add_once : List String → List String → List String
add_once [] seen = seen
add_once (x ∷ xs) seen = add_once xs (if any (str_eq x) seen then seen else seen ++ (x ∷ []))

abbrev pub all_targets : Option (List String) → List String
all_targets none = []
all_targets (some ts) = ts

module _ (j : Json) where
  open j use {Value}

  -- The payload of an `OPERATION_RESULT`; `is_uncertain_code` is `code === UNCERTAIN_OUTCOME`.
  pub record OperationResult : Type 0 where
    pub operation_id : Option String
    pub status : ReportedStatus
    pub is_uncertain_code : Bool
    pub idempotency_key : Option String
    pub account_id : Option String
    pub target_accounts : Option (List String)
    pub target_outcomes : List TargetOutcome
    pub error : Option String
    pub json : Value

  -- A run that the log of the execution process has not resolved.
  pub record UnresolvedRun : Type 0 where
    pub status : ReportedStatus
    pub operation_id : Option String
    pub run_id : String
    pub account_id : String
    pub idempotency_key : String
    pub json : Value

  -- The messages that change the state; `notice` is one that is only emitted.
  pub data Message : Type 0 where
    heartbeat_message : Option ℕ → Option String → Message
    state_changed : Option String → Message
    operation_result : OperationResult → Message
    reconciliation_report : String → Resolution → Message
    snapshot_dump : Option ℕ → Option String → List UnresolvedRun → Message
    notice : Message

  pub record Envelope : Type 0 where
    pub msg_id : String
    pub candidate_keys : List String
    pub message : Message

  abbrev pub is_uncertain : OperationResult → Bool
  is_uncertain r = r.is_uncertain_code || elim r.status [
    | status_uncertain ↦ true
    | status_unknown ↦ true
    | status_timeout ↦ true
    | _ ↦ false
  ]

  -- What the ledger records of a result, if anything.
  unfoldable pub outcome_of : OperationResult → Option Status
  outcome_of r = if is_uncertain r then some uncertain else elim r.status [
    | status_completed ↦ some completed
    | status_success ↦ some completed
    | status_failed ↦ some failed
    | status_aborted ↦ some failed
    | _ ↦ none
  ]

  -- The result with the fields that the execution process dropped.
  unfoldable pub correlate : OperationResult → Option (InFlight j) → OperationResult
  correlate r none = r
  correlate r (some f) = record r {
    idempotency_key = first_text r.idempotency_key (some f.idempotency_key);
    account_id = first_text r.account_id f.account_id;
    target_accounts = elim r.target_accounts [ some ts ↦ some ts | none ↦ some f.target_accounts ];
  }

  -- `operationId ? this.inFlightOperations.get(operationId) : null`
  abbrev pub in_flight_of : Option String → Dict (InFlight j) → Option (InFlight j)
  in_flight_of none m = none
  in_flight_of (some id) m = if str_eq id "" then none else get id m

  abbrev pub forget : Option String → Dict (InFlight j) → Dict (InFlight j)
  forget none m = m
  forget (some id) m = if str_eq id "" then m else delete id m

  -- `affectedAccounts`.
  unfoldable pub affected_accounts : OperationResult → List String
  affected_accounts r =
      let named =
        add_once
          (listed r.account_id
            ++ (all_targets r.target_accounts ++ uncertain_targets r.target_outcomes))
          [] in
      elim named [ [] ↦ "unknown" ∷ [] | a ∷ rest ↦ a ∷ rest ]

  -- The loop over the affected accounts.
  unfoldable pub enqueue_all :
      ℕ → Accepts → String → String → String → Value → List String → Coordinator j → Coordinator j
  enqueue_all now a operation_id key reason json [] c = c
  enqueue_all now a operation_id key reason json (account ∷ rest) c =
      enqueue_all now a operation_id key reason json rest
        (enqueue j now a.freezing a.queueing operation_id account key reason json c)

  -- The entry of the ledger, if the result has a key and an outcome.
  unfoldable pub settle_key : ℕ → Accepts → OperationResult → Option Status → Manager j → Manager j
  settle_key now a r none m = m
  settle_key now a r (some s) m = if str_eq (or_text r.idempotency_key "") "" then m else record m {
    idempotency =
        (record_terminal j now a.ledger (or_text r.idempotency_key "") s (some r.json)
          m.idempotency).0;
  }

  -- The rest of the case, for a result whose fields are completed.
  unfoldable pub settle_result : ℕ → Accepts → OperationResult → Manager j → Manager j
  unfolding settle_key outcome_of
  settle_result now a r m =
      let settled = settle_key now a r (outcome_of r) m in
      if is_uncertain r
      then record settled {
        reconciliation =
            enqueue_all now a (or_text r.operation_id "unknown_op") (or_text r.idempotency_key "")
              (or_text r.error "Atomic bet commitment unconfirmed") r.json (affected_accounts r)
              settled.reconciliation;
      }
      else settled

  -- The manager without the entry that a result was correlated with.
  abbrev pub without_entry : OperationResult → Manager j → Manager j
  without_entry r m = record m {
    in_flight_operations =
        if is_some (in_flight_of r.operation_id m.in_flight_operations)
        then forget r.operation_id m.in_flight_operations
        else m.in_flight_operations;
  }

  -- The case `OPERATION_RESULT`.
  unfoldable pub handle_result : ℕ → Accepts → OperationResult → Manager j → Manager j
  unfolding settle_result correlate
  handle_result now a r m =
      settle_result now a (correlate r (in_flight_of r.operation_id m.in_flight_operations))
        (without_entry r m)

  abbrev pub is_unresolved : ReportedStatus → Bool
  is_unresolved status_uncertain = true
  is_unresolved status_processing = true
  is_unresolved status_unknown = true
  is_unresolved s = false

  -- The loop over the unresolved runs of a snapshot.
  unfoldable pub enqueue_runs : ℕ → Accepts → List UnresolvedRun → Coordinator j → Coordinator j
  enqueue_runs now a [] c = c
  enqueue_runs now a (r ∷ rs) c = enqueue_runs now a rs (
      if is_unresolved r.status
      then enqueue j now a.freezing a.queueing (or_text r.operation_id r.run_id) r.account_id
          r.idempotency_key "RECONNECT_UNRESOLVED_WAL_RUN" r.json c
      else c)

  -- `if (typeof n === 'number')` and `if (text)`.
  abbrev pub counted : Option ℕ → ℕ → ℕ
  counted none old = old
  counted (some n) old = n

  -- The switch over the type of a message.
  unfoldable pub handle_message : ℕ → Accepts → Message → Manager j → Manager j
  unfolding handle_result enqueue_runs
  handle_message now a (heartbeat_message browsers status) m = record m {
    watchdog = (record_heartbeat now m.watchdog).0;
    active_browser_count = counted browsers m.active_browser_count;
    engine_status = or_text status m.engine_status;
  }
  handle_message now a (state_changed status) m = record m {
    engine_status = or_text status m.engine_status;
  }
  handle_message now a (operation_result r) m = handle_result now a r m
  handle_message now a (reconciliation_report operation_id resolution) m = record m {
    reconciliation =
        (handle_report j now a.freezing a.queueing operation_id resolution m.reconciliation).0;
  }
  handle_message now a (snapshot_dump browsers status runs) m = record m {
    active_browser_count = counted browsers m.active_browser_count;
    engine_status = or_text status m.engine_status;
    reconciliation = enqueue_runs now a runs m.reconciliation;
  }
  handle_message now a notice m = m

  -- The caller that waits for this reply: the one of its id, or the first whose ids it names.
  unfoldable pub find_pending : List String → Dict Pending → Option Pending
  find_pending keys [] = none
  find_pending keys ((k, p) ∷ rest) =
      let later = find_pending keys rest in
      if any (str_eq p.trace_id) keys || any (str_eq p.msg_id) keys then some p else later

  unfoldable pub pending_for : Envelope → Dict Pending → Option Pending
  unfolding find_pending
  pending_for e m = elim (get e.msg_id m) [
    | some p ↦ some p
    | none ↦ find_pending e.candidate_keys m
  ]

  abbrev pub resolve_pending : Option Pending → Manager j → Manager j
  resolve_pending none m = m
  resolve_pending (some p) m = record m {
    pending_correlations = delete p.msg_id m.pending_correlations;
  }

  -- `_handleIncomingData` of a valid envelope, with the caller that it answers.
  unfoldable pub handle_envelope : ℕ → Accepts → Envelope → Manager j → Manager j × Option Pending
  unfolding handle_message pending_for
  handle_envelope now a e m =
      let p = pending_for e m.pending_correlations in
      (handle_message now a e.message (resolve_pending p m), p)

  -- `_handleClientDisconnected`, when the last client has left: every waiting caller is rejected.
  unfoldable pub handle_disconnected : Manager j → Manager j × Dict Pending
  handle_disconnected m = (
    record m {
      connected = false;
      engine_status = "STOPPED";
      active_browser_count = 0;
      pending_correlations = [];
    },
    m.pending_correlations,
  )

  -- `stopServer`.
  unfoldable pub stop_server : Manager j → Manager j × Dict Pending
  stop_server m = (
    record m {
      connected = false;
      watchdog = stop m.watchdog;
      engine_status = "OFFLINE";
      active_browser_count = 0;
      pending_correlations = [];
    },
    m.pending_correlations,
  )
