-- ===== src/Boundary/Manager/State.antt =====
-- src/runtime-manager/boundary/executionBoundaryManager.mjs: the state, and the dispatch of an
-- envelope. The transport is whether a client is connected; logging and the emitted events are
-- left out.
use betting_automation_contr.Prelude.{
  ℕ, Bool, Option, none, some, List, [], ◌∷◌, String, str_eq, if◌then◌else◌,
}
use betting_automation_contr.Prelude.Dict.{Dict, set, delete}
use betting_automation_contr.Boundary.Ledger.Record.{Json, Ledger}
use betting_automation_contr.Boundary.Reconciliation.Coordinator.{Coordinator}
use betting_automation_contr.Boundary.Watchdog.Monitor.{Watchdog, start}

-- The list of one text, unless it is missing or empty.
abbrev pub listed : Option String → List String
listed none = []
listed (some s) = if str_eq s "" then [] else s ∷ []

-- The types of the envelopes that the manager dispatches.
pub data MessageType : Type 0 where
  initialize stop_cluster get_fleet_readiness place_bet_message cash_out_message : MessageType
  validate activate_account deactivate_account set_bet_cycle : MessageType
  update_policy reset_policy capture_snapshot reconcile_order : MessageType

-- A value of `pendingCorrelations`: the caller that waits for a reply to this envelope.
pub record Pending : Type 0 where
  pub msg_id : String
  pub trace_id : String
  pub message_type : MessageType

-- What `dispatchEnvelope` returns: whether the envelope was sent, or a promise, which waits or is
-- rejected at once.
pub data Dispatch : Type 0 where
  sent : Bool → Dispatch
  waits rejected : Dispatch

-- The ids of a new envelope, and whether the caller waits for the reply.
pub record DispatchOptions : Type 0 where
  pub msg_id : String
  pub trace_id : String
  pub wait_for_ack : Bool

module _ (j : Json) where
  open j use {Value}

  -- A value of `inFlightOperations`.
  pub record InFlight : Type 0 where
    pub idempotency_key : String
    pub account_id : Option String
    pub target_accounts : List String
    pub dispatched_at : ℕ
    pub payload : Value

  -- `ExecutionBoundaryManager`.
  pub record Manager : Type 0 where
    pub connected : Bool
    pub idempotency : Ledger j
    pub reconciliation : Coordinator j
    pub watchdog : Watchdog
    pub engine_status : String
    pub active_browser_count : ℕ
    pub pending_correlations : Dict Pending
    pub in_flight_operations : Dict InFlight

  -- `startServer`: the watchdog is started with the transport.
  abbrev pub start_server : Manager → Manager
  start_server m = record m { watchdog = start m.watchdog }

  -- `dispatchEnvelope`.
  unfoldable pub dispatch_envelope : MessageType → DispatchOptions → Manager → Manager × Dispatch
  dispatch_envelope t o m =
      let started = start_server m in
      let entry : Pending = record { msg_id = o.msg_id; trace_id = o.trace_id; message_type = t } in
      if o.wait_for_ack
      then (if m.connected
          then (
            record started {
              pending_correlations = set o.msg_id entry started.pending_correlations;
            },
            waits,
          )
          else (
            record started {
              pending_correlations =
                  delete o.msg_id (set o.msg_id entry started.pending_correlations);
            },
            rejected,
          ))
      else (started, sent m.connected)
