-- ===== src/Runtime/Inbound.antt =====
-- src/runtime-manager/runtime-manager.mjs: `_handleIncomingData`, over the envelopes that
-- `validateExecutionEnvelope` accepts and the ones that it rejects.
use betting_automation_contr.Prelude.{
  ℕ, Option, none, some, String, ◌∷◌, str_eq, or_text, ◌==◌, if◌then◌else◌,
}
use betting_automation_contr.Workspace.Tracker.{
  op_in_flight, update_status, complete_operation, fail_operation,
}
use betting_automation_contr.Runtime.Heartbeat.{record_beat}
use betting_automation_contr.Runtime.State.{
  Host, state_change, lifecycle_changed, readiness_changed, operation_completed, forwards, routes,
  to_get_readiness, Runtimes, tell, send_envelope,
}

-- Text that a payload need not have, and that counts as missing when it is empty.
abbrev pub present : Option String → Option String
present none = none
present (some s) = if str_eq s "" then none else some s

module _ (Value : Type 0) where
  -- A frame of the pipe, by its type, with what the method reads of its payload.
  pub data Frame : Type 0 where
    malformed invalid : Frame
    legacy_heartbeat : ℕ → Frame
    heartbeat : Option ℕ → Option ℕ → Option String → Frame
    state_changed : Option String → Frame
    fleet_readiness : Value → Frame
    operation_ack : Option String → Frame
    operation_result : Option String → String → Value → Option String → Frame
    browser_status odds_tick audit_event other : Frame

  abbrev pub beat_of : ℕ → Option ℕ → Runtimes Value → Runtimes Value
  beat_of now none r = r
  beat_of now (some pid) r =
      if pid == 0 then r else record r { last_seen = record_beat pid now r.last_seen }

  abbrev pub with_status : Option String → Runtimes Value → Runtimes Value
  with_status none r = r
  with_status (some s) r = record r { engine_status = s }

  abbrev pub with_browsers : Option ℕ → Runtimes Value → Runtimes Value
  with_browsers none r = r
  with_browsers (some n) r = record r { active_browser_count = n }

  -- `STATE_CHANGED`. `getFleetReadiness` returns no promise, so calling its `catch` throws, and
  -- the method ends there for the state `RUNNING`.
  unfoldable pub change_state : Host → String → Runtimes Value → Runtimes Value
  change_state h s r =
      let changed : Runtimes Value = record r { engine_status = s; log = state_change s ∷ r.log } in
      if str_eq s "RUNNING"
      then (send_envelope Value h to_get_readiness changed).0
      else (if str_eq s "STOPPED"
          then tell Value (lifecycle_changed s) (record changed { latest_fleet_readiness = none })
          else tell Value (lifecycle_changed s) changed)

  -- `OPERATION_RESULT`, for an operation with an id.
  unfoldable pub settle_operation :
      ℕ → String → String → Value → Option String → Runtimes Value → Runtimes Value
  settle_operation now id status metrics error r = record r {
    operations =
        if str_eq status "SUCCESS"
        then complete_operation Value now id metrics r.operations
        else fail_operation Value now id (or_text error "Operation failed") r.operations;
    log = operation_completed id ∷ r.log;
  }

  -- `_handleIncomingData`.
  unfoldable pub handle_incoming : Host → ℕ → Frame → Runtimes Value → Runtimes Value
  unfolding change_state settle_operation
  handle_incoming h now malformed r = r
  handle_incoming h now invalid r = r
  handle_incoming h now (legacy_heartbeat pid) r = beat_of now (some pid) r
  handle_incoming h now (heartbeat pid browsers status) r =
      with_status (present status) (with_browsers browsers (beat_of now pid r))
  handle_incoming h now (state_changed s) r = elim (present s) [
    | none ↦ r
    | some state ↦ change_state h state r
  ]
  handle_incoming h now (fleet_readiness v) r =
      tell Value (readiness_changed v) (record r { latest_fleet_readiness = some v })
  handle_incoming h now (operation_ack id) r = elim (present id) [
    | none ↦ r
    | some o ↦ record r { operations = update_status Value o op_in_flight r.operations }
  ]
  handle_incoming h now (operation_result id status metrics error) r = elim (present id) [
    | none ↦ r
    | some o ↦ settle_operation now o status metrics error r
  ]
  handle_incoming h now browser_status r = tell Value forwards r
  handle_incoming h now odds_tick r = tell Value forwards r
  handle_incoming h now audit_event r = tell Value forwards r
  handle_incoming h now other r = tell Value routes r
