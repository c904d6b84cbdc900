-- ===== src/Boundary/Manager/Calls.antt =====
-- src/runtime-manager/boundary/executionBoundaryManager.mjs: the calls that dispatch one envelope.
-- Their payloads are built elsewhere; `degraded` is the answer of the security facade.
use betting_automation_contr.Prelude.{
  Bool, true, Option, none, some, String, ◌≡◌, arith, if◌then◌else◌,
}
use betting_automation_contr.Boundary.Ledger.Record.{Json}
use betting_automation_contr.Boundary.Reconciliation.Coordinator.{
  Coordinator, Task, create_reconcile_request,
}
use betting_automation_contr.Boundary.Watchdog.Monitor.{start, stop}
use betting_automation_contr.Boundary.Manager.State.{
  MessageType, Dispatch, DispatchOptions, Manager, dispatch_envelope,
}

-- How a call ends: it throws for one of three reasons, or it dispatches.
pub data CallReply : Type 0 where
  system_degraded no_connection nothing_to_reconcile : CallReply
  called : Dispatch → CallReply

module _ (j : Json) where
  abbrev answered : Manager j × Dispatch → Manager j × CallReply
  answered (m, d) = (m, called d)

  -- A call that is denied while the system is degraded.
  abbrev guarded : Bool → MessageType → DispatchOptions → Manager j → Manager j × CallReply
  guarded degraded t o m =
      if degraded then (m, system_degraded) else answered (dispatch_envelope j t o m)

  -- `initialize` and `initializeWorker`.
  unfoldable pub initialize : DispatchOptions → Manager j → Manager j × CallReply
  initialize o m =
      answered
        (dispatch_envelope j MessageType.initialize o (record m { engine_status = "INITIALIZING" }))

  -- `startCluster`; `arrives` is whether a client connects in time and
  -- before the wait is aborted; what its connection triggers is a step of its own.
  unfoldable pub start_cluster : Bool → Bool → DispatchOptions → Manager j → Manager j × CallReply
  unfolding initialize
  start_cluster degraded arrives o m =
      if degraded
      then (m, system_degraded)
      else (if arrives then initialize o (record m { connected = true }) else (m, no_connection))

  -- `stopCluster`, which stops the watchdog first.
  unfoldable pub stop_cluster : DispatchOptions → Manager j → Manager j × CallReply
  stop_cluster o m =
      answered
        (dispatch_envelope j MessageType.stop_cluster o (record m { watchdog = stop m.watchdog }))

  unfoldable pub get_fleet_readiness : DispatchOptions → Manager j → Manager j × CallReply
  get_fleet_readiness o m = answered (dispatch_envelope j MessageType.get_fleet_readiness o m)

  unfoldable pub capture_snapshot : DispatchOptions → Manager j → Manager j × CallReply
  capture_snapshot o m = answered (dispatch_envelope j MessageType.capture_snapshot o m)

  unfoldable pub validate_tactical : Bool → DispatchOptions → Manager j → Manager j × CallReply
  validate_tactical degraded = guarded degraded MessageType.validate

  unfoldable pub activate_account : Bool → DispatchOptions → Manager j → Manager j × CallReply
  activate_account degraded = guarded degraded MessageType.activate_account

  unfoldable pub deactivate_account : Bool → DispatchOptions → Manager j → Manager j × CallReply
  deactivate_account degraded = guarded degraded MessageType.deactivate_account

  unfoldable pub set_bet_cycle : Bool → DispatchOptions → Manager j → Manager j × CallReply
  set_bet_cycle degraded = guarded degraded MessageType.set_bet_cycle

  unfoldable pub update_policy : Bool → DispatchOptions → Manager j → Manager j × CallReply
  update_policy degraded = guarded degraded MessageType.update_policy

  unfoldable pub reset_policy : Bool → DispatchOptions → Manager j → Manager j × CallReply
  reset_policy degraded = guarded degraded MessageType.reset_policy

  -- `reconcileOperation`, over what the coordinator answers.
  abbrev reconcile_over :
      DispatchOptions → Manager j → Coordinator j × Option (Task j) → Manager j × CallReply
  reconcile_over o m (r, none) = (record m { reconciliation = r }, nothing_to_reconcile)
  reconcile_over o m (r, some t) =
      answered (dispatch_envelope j MessageType.reconcile_order o (record m { reconciliation = r }))

  unfoldable pub reconcile_operation :
      Bool → String → DispatchOptions → Manager j → Manager j × CallReply
  unfolding create_reconcile_request
  reconcile_operation accepted operation_id o m =
      reconcile_over o m (create_reconcile_request j accepted operation_id m.reconciliation)

  -- Stopping the cluster leaves the watchdog running: the dispatch of the stop starts it again.
  stop_cluster-rearms :
      (o : DispatchOptions) (m : Manager j) → (stop_cluster o m).0.watchdog.timer_running ≡ true
  unfolding stop_cluster dispatch_envelope start stop
  stop_cluster-rearms o m = ground arith
