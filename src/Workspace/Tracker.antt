-- ===== src/Workspace/Tracker.antt =====
-- src/state/operationTracker.mjs: the tactical operations. An id that `ulid` makes, and the clock
-- of a call, are arguments; the values that callers attach have the type `Value`. The events
-- that a call emits are not kept.
use betting_automation_contr.Prelude.{ℕ, Option, none, some, List, [], ◌∷◌, String}
use betting_automation_contr.Prelude.Dict.{Dict, get, set}

pub data ActionType : Type 0 where
  starting stopping placing_bet cashing_out validating : ActionType

-- The statuses that the tracker writes or tests, and any other text of `updateStatus`.
pub data OpStatus : Type 0 where
  op_queued op_in_flight op_processing op_completed op_failed op_uncertain : OpStatus
  op_other : String → OpStatus

module _ (Value : Type 0) where
  pub record Operation : Type 0 where
    pub action_type : ActionType
    pub status : OpStatus
    pub start_time : ℕ
    pub metadata : Value
    pub result : Option Value
    pub error_reason : Option String
    pub uncertain_reason : Option String
    pub uncertain_details : Option Value
    pub completed_time : Option ℕ

  -- `OperationTracker`.
  pub record Tracker : Type 0 where
    pub current_pending_action : Option ActionType
    pub operations : Dict Operation

  -- `startOperation`, under a new id.
  unfoldable pub start_operation : ℕ → String → ActionType → Value → Tracker → Tracker
  start_operation now id action metadata t = record {
    current_pending_action = some action;
    operations =
        set id
          (record {
            action_type = action;
            status = op_queued;
            start_time = now;
            metadata = metadata;
            result = none;
            error_reason = none;
            uncertain_reason = none;
            uncertain_details = none;
            completed_time = none;
          })
          t.operations;
  }

  -- The change of an operation in place, if it is there.
  unfoldable pub change : String → (Operation → Operation) → Tracker → Tracker
  change id f t = elim (get id t.operations) [
    | none ↦ t
    | some op ↦ record t { operations = set id (f op) t.operations }
  ]

  abbrev pub idle : Tracker → Tracker
  idle t = record t { current_pending_action = none }

  abbrev pub as_completed : ℕ → Value → Operation → Operation
  as_completed now result op = record op {
    status = op_completed;
    result = some result;
    completed_time = some now;
  }

  abbrev pub as_failed : ℕ → String → Operation → Operation
  as_failed now reason op = record op {
    status = op_failed;
    error_reason = some reason;
    completed_time = some now;
  }

  abbrev pub as_uncertain : ℕ → String → Value → Operation → Operation
  as_uncertain now reason details op = record op {
    status = op_uncertain;
    uncertain_reason = some reason;
    uncertain_details = some details;
    completed_time = some now;
  }

  -- `completeOperation`, `updateStatus`, `failOperation` and `markUncertain`.
  unfoldable pub complete_operation : ℕ → String → Value → Tracker → Tracker
  complete_operation now id result t = idle (change id (as_completed now result) t)

  unfoldable pub update_status : String → OpStatus → Tracker → Tracker
  update_status id s t = change id (λ op. record op { status = s }) t

  unfoldable pub fail_operation : ℕ → String → String → Tracker → Tracker
  fail_operation now id reason t = idle (change id (as_failed now reason) t)

  unfoldable pub mark_uncertain : ℕ → String → String → Value → Tracker → Tracker
  mark_uncertain now id reason details t = idle (change id (as_uncertain now reason details) t)

  -- The loop of `quarantineAllPending` over the entries, with the uncertain operations that it
  -- collects. It visits each entry once and changes no other. `details` is the
  -- default `{}` of `markUncertain`.
  unfoldable pub quarantine_entries :
      ℕ → String → Value → Dict Operation → Tracker → Tracker × List Operation
  quarantine_entries now reason details [] t = (t, [])
  quarantine_entries now reason details ((id, op) ∷ rest) t = elim op.status [
    | op_in_flight ↦
        let (u, ops) =
          quarantine_entries now reason details rest (mark_uncertain now id reason details t) in
        (u, as_uncertain now reason details op ∷ ops)
    | op_processing ↦
        let (u, ops) =
          quarantine_entries now reason details rest (mark_uncertain now id reason details t) in
        (u, as_uncertain now reason details op ∷ ops)
    | op_queued ↦ quarantine_entries now reason details rest (fail_operation now id reason t)
    | _ ↦ quarantine_entries now reason details rest t
  ]

  -- `quarantineAllPending`.
  unfoldable pub quarantine_all_pending : ℕ → String → Value → Tracker → Tracker × List Operation
  quarantine_all_pending now reason details t =
      let (u, ops) = quarantine_entries now reason details t.operations t in (idle u, ops)

  unfoldable pub fail_entries : ℕ → String → Dict Operation → Tracker → Tracker
  fail_entries now reason [] t = t
  fail_entries now reason ((id, op) ∷ rest) t = elim op.status [
    | op_queued ↦ fail_entries now reason rest (fail_operation now id reason t)
    | op_in_flight ↦ fail_entries now reason rest (fail_operation now id reason t)
    | _ ↦ fail_entries now reason rest t
  ]

  -- `failAllPending`.
  unfoldable pub fail_all_pending : ℕ → String → Tracker → Tracker
  fail_all_pending now reason t = idle (fail_entries now reason t.operations t)
