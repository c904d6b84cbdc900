-- ===== src/Boundary/Reconciliation/Coordinator.antt =====
-- src/runtime-manager/boundary/reconciliationCoordinator.mjs: the frozen accounts, the pending
-- reconciliations and the two tables behind them. A call takes the clock `now`, and for each of
-- its statements whether the engine accepts it; the events that it emits are left out.
use betting_automation_contr.Prelude.{
  ℕ, ◌+◌, Bool, true, false, Option, none, some, [], ◌∷◌, String, str_eq, if◌then◌else◌,
}
use betting_automation_contr.Prelude.Dict.{Dict, get, set, delete, has}
use betting_automation_contr.Boundary.Ledger.Record.{Json, run_sql}

-- A value of `frozenAccounts`, and a row of `frozen_accounts`.
pub record Frozen : Type 0 where
  pub account_id : String
  pub operation_id : String
  pub idempotency_key : String
  pub frozen_at : ℕ
  pub reason : String

pub data TaskStatus : Type 0 where
  queued in_progress pending_retry completed failed : TaskStatus

-- A row of `reconciliation_queue`; its primary key is the key in the table.
pub record QueueRow : Type 0 where
  pub account_id : String
  pub idempotency_key : String
  pub status : TaskStatus
  pub reason : String
  pub details_json : String
  pub enqueued_at : ℕ
  pub attempts : ℕ
  pub resolved_at : Option ℕ

pub record Tables : Type 0 where
  pub frozen_rows : Dict Frozen
  pub queue_rows : Dict QueueRow

pub data Resolution : Type 0 where
  resolved_committed resolved_lost still_pending : Resolution

module _ (j : Json) where
  open j use {Value, stringify, parse, empty_object}

  -- A value of `pendingReconciliations`.
  pub record Task : Type 0 where
    pub operation_id : String
    pub account_id : String
    pub idempotency_key : String
    pub status : TaskStatus
    pub enqueued_at : ℕ
    pub attempts : ℕ
    pub details : Value

  pub record Coordinator : Type 0 where
    pub engine : Option Tables
    pub frozen_accounts : Dict Frozen
    pub pending : Dict Task

  -- `freezeAccount`.
  unfoldable pub freeze_account :
      ℕ → Bool → String → String → String → String → Coordinator → Coordinator
  freeze_account now accepted account_id operation_id key reason c =
      let r : Frozen = record {
        account_id = account_id;
        operation_id = operation_id;
        idempotency_key = key;
        frozen_at = now;
        reason = reason;
      } in
      if str_eq account_id "" then c else record c {
        frozen_accounts = set account_id r c.frozen_accounts;
        engine =
            run_sql accepted (λ t. record t { frozen_rows = set account_id r t.frozen_rows })
              c.engine;
      }

  -- `unfreezeAccount`: the empty text and an account that is not frozen change nothing.
  unfoldable pub unfreeze_account : Bool → String → Coordinator → Coordinator
  unfreeze_account accepted account_id c =
      if str_eq account_id ""
      then c
      else (if has account_id c.frozen_accounts
          then record c {
            frozen_accounts = delete account_id c.frozen_accounts;
            engine =
                run_sql accepted (λ t. record t { frozen_rows = delete account_id t.frozen_rows })
                  c.engine;
          }
          else c)

  -- `isAccountFrozen`.
  abbrev pub is_account_frozen : String → Coordinator → Bool
  is_account_frozen account_id c = has account_id c.frozen_accounts

  -- The task of an uncertain operation, and its row.
  abbrev pub queued_task : ℕ → String → String → String → Value → Task
  queued_task now operation_id account_id key details = record {
    operation_id = operation_id;
    account_id = account_id;
    idempotency_key = key;
    status = queued;
    enqueued_at = now;
    attempts = 0;
    details = details;
  }

  abbrev pub queued_row : ℕ → String → String → String → Value → QueueRow
  queued_row now account_id key reason details = record {
    account_id = account_id;
    idempotency_key = key;
    status = queued;
    reason = reason;
    details_json = stringify details;
    enqueued_at = now;
    attempts = 0;
    resolved_at = none;
  }

  -- `enqueueUncertainOperation`.
  unfoldable pub enqueue :
      ℕ → Bool → Bool → String → String → String → String → Value → Coordinator → Coordinator
  enqueue now freezing inserting operation_id account_id key reason details c =
      let f = freeze_account now freezing account_id operation_id key reason c in
      record f {
        pending = set operation_id (queued_task now operation_id account_id key details) f.pending;
        engine =
            run_sql inserting
              (λ t. record t {
                queue_rows =
                    set operation_id (queued_row now account_id key reason details) t.queue_rows;
              })
              f.engine;
      }

  -- An `UPDATE reconciliation_queue ... WHERE operation_id = ?`, if the row is there.
  unfoldable pub update_queue : String → (QueueRow → QueueRow) → Tables → Tables
  update_queue operation_id change t = elim (get operation_id t.queue_rows) [
    | none ↦ t
    | some r ↦ record t { queue_rows = set operation_id (change r) t.queue_rows }
  ]

  request_for : Bool → String → Coordinator → Option Task → Coordinator × Option Task
  request_for accepted operation_id c none = (c, none)
  request_for accepted operation_id c (some task) =
      let t = record task { status = in_progress; attempts = task.attempts + 1 } in
      (
        record c {
          pending = set operation_id t c.pending;
          engine =
              run_sql accepted
                (update_queue operation_id
                  (λ r. record r { status = in_progress; attempts = t.attempts }))
                c.engine;
        },
        some t,
      )

  -- `createReconcileRequest`: the task whose fields the request carries.
  unfoldable pub create_reconcile_request : Bool → String → Coordinator → Coordinator × Option Task
  unfolding request_for
  create_reconcile_request accepted operation_id c =
      request_for accepted operation_id c (get operation_id c.pending)

  -- The branch of a resolved report: unfreeze the task's account, drop the task, close the row.
  unfoldable pub close_task :
      ℕ → Bool → Bool → String → Task → TaskStatus → Coordinator → Coordinator
  close_task now unfreezing updating operation_id task status c =
      let u = unfreeze_account unfreezing task.account_id c in
      record u {
        pending = delete operation_id u.pending;
        engine =
            run_sql updating
              (update_queue operation_id
                (λ r. record r { status = status; resolved_at = some now }))
              u.engine;
      }

  report_on : ℕ → Bool → Bool → String → Resolution → Coordinator → Option Task → Coordinator × Bool
  report_on now unfreezing updating operation_id resolution c none = (c, false)
  report_on now unfreezing updating operation_id resolved_committed c (some task) =
      (close_task now unfreezing updating operation_id task completed c, true)
  report_on now unfreezing updating operation_id resolved_lost c (some task) =
      (close_task now unfreezing updating operation_id task failed c, true)
  report_on now unfreezing updating operation_id still_pending c (some task) = (
    record c {
      pending = set operation_id (record task { status = pending_retry }) c.pending;
      engine =
          run_sql updating
            (update_queue operation_id
              (λ r. record r { status = pending_retry; attempts = task.attempts }))
            c.engine;
    },
    true,
  )

  -- `handleReconciliationReport`, and whether it handled the report.
  unfoldable pub handle_report :
      ℕ → Bool → Bool → String → Resolution → Coordinator → Coordinator × Bool
  unfolding report_on
  handle_report now unfreezing updating operation_id resolution c =
      report_on now unfreezing updating operation_id resolution c (get operation_id c.pending)

  unfreeze_of : Bool → Option Task → Coordinator → Coordinator
  unfreeze_of accepted none c = c
  unfreeze_of accepted (some task) c = unfreeze_account accepted task.account_id c

  -- `manualResolve`.
  unfoldable pub manual_resolve : ℕ → Bool → Bool → String → TaskStatus → Coordinator → Coordinator
  unfolding unfreeze_of
  manual_resolve now unfreezing updating operation_id forced c =
      let u = unfreeze_of unfreezing (get operation_id c.pending) c in
      record u {
        pending = delete operation_id u.pending;
        engine =
            run_sql updating
              (update_queue operation_id
                (λ r. record r { status = forced; resolved_at = some now }))
              u.engine;
      }

  -- The loops of `_hydrateFromPersistence`. A row whose details do not parse throws, which ends
  -- the second loop.
  unfoldable pub hydrate_frozen : Dict Frozen → Dict Frozen → Dict Frozen
  hydrate_frozen [] m = m
  hydrate_frozen ((k, r) ∷ rows) m = hydrate_frozen rows (set k r m)

  abbrev pub is_open : TaskStatus → Bool
  is_open completed = false
  is_open failed = false
  is_open s = true

  abbrev pub task_of_row : String → QueueRow → Value → Task
  task_of_row k r details = record {
    operation_id = k;
    account_id = r.account_id;
    idempotency_key = r.idempotency_key;
    status = r.status;
    enqueued_at = r.enqueued_at;
    attempts = r.attempts;
    details = details;
  }

  -- An empty text counts as missing.
  abbrev pub details_of : String → Option Value
  details_of s = if str_eq s "" then some empty_object else parse s

  unfoldable pub hydrate_pending : Dict QueueRow → Dict Task → Dict Task
  hydrate_pending [] m = m
  hydrate_pending ((k, r) ∷ rows) m = elim (is_open r.status) [
    | false ↦ hydrate_pending rows m
    | true ↦ elim (details_of r.details_json) [
      | none ↦ m
      | some details ↦ hydrate_pending rows (set k (task_of_row k r details) m)
    ]
  ]

  -- The constructor over the tables that a crash left.
  unfoldable pub hydrate : Tables → Coordinator
  hydrate t = record {
    engine = some t;
    frozen_accounts = hydrate_frozen t.frozen_rows [];
    pending = hydrate_pending t.queue_rows [];
  }
