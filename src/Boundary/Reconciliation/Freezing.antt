-- ===== src/Boundary/Reconciliation/Freezing.antt =====
-- When boundary/reconciliationCoordinator.mjs holds an account frozen.
use betting_automation_contr.Prelude.{
  ℕ, Bool, true, false, not, Bool-cases, some, String, ◌≡◌, ◌≢◌, inl, inr, sym, arith, str_eq,
  eq_iff, if◌then◌else◌,
}
use betting_automation_contr.Prelude.Dict.{
  get, has, get-set, get-delete, has-set_self, get-set_self,
}
use betting_automation_contr.Boundary.Ledger.Record.{Json}
use betting_automation_contr.Boundary.Reconciliation.Coordinator.{
  TaskStatus, pending_retry, completed, failed, Resolution, resolved_committed, resolved_lost,
  still_pending, Task, Coordinator, freeze_account, unfreeze_account, is_account_frozen, enqueue,
  close_task, handle_report, queued_task,
}

module _ (j : Json) where
  open j use {Value}

  pub frozen-freeze_account :
      (now : ℕ) (accepted : Bool) (a b operation_id key reason : String) (c : Coordinator j)
      → is_account_frozen j b (freeze_account j now accepted a operation_id key reason c) ≡ (
          if str_eq a ""
          then is_account_frozen j b c
          else (if str_eq a b then true else is_account_frozen j b c))
  unfolding freeze_account
  frozen-freeze_account now accepted a b operation_id key reason c =
      elim (Bool-cases (str_eq a "")) [
        | inl e ↦ ground arith
        | inr ne ↦ ground (
          arith,
          get-set a b
              (record {
                account_id = a;
                operation_id = operation_id;
                idempotency_key = key;
                frozen_at = now;
                reason = reason;
              })
              c.frozen_accounts,
        )
      ]

  frozen-unfreeze_account :
      (accepted : Bool) (a b : String) (c : Coordinator j)
      → is_account_frozen j b (unfreeze_account j accepted a c) ≡ (
          if str_eq a ""
          then is_account_frozen j b c
          else (if str_eq a b then false else is_account_frozen j b c))
  unfolding unfreeze_account
  frozen-unfreeze_account accepted a b c =
      ground (arith, get-delete a b c.frozen_accounts, eq_iff a b)

  pending-unfreeze_account :
      (accepted : Bool) (a : String) (c : Coordinator j)
      → (unfreeze_account j accepted a c).pending ≡ c.pending
  unfolding unfreeze_account
  pending-unfreeze_account accepted a c = ground arith

  pending-freeze_account :
      (now : ℕ) (accepted : Bool) (a operation_id key reason : String) (c : Coordinator j)
      → (freeze_account j now accepted a operation_id key reason c).pending ≡ c.pending
  unfolding freeze_account
  pending-freeze_account now accepted a operation_id key reason c = ground arith

  abbrev pub is_pending : String → Coordinator j → Bool
  is_pending operation_id c = has operation_id c.pending

  -- An uncertain operation freezes its account and is pending, whatever the engine accepts, and
  -- leaves every other account as it was. The account is not empty.
  enqueue-freezes :
      (now : ℕ) (freezing inserting : Bool) (operation_id a b key reason : String) (details : Value)
      (c : Coordinator j)
      → a ≢ ""
      → a ≢ b
      → let d = enqueue j now freezing inserting operation_id a key reason details c in
        (is_account_frozen j a d ≡ true)
        × (is_pending operation_id d ≡ true)
        × (is_account_frozen j b d ≡ is_account_frozen j b c)
  unfolding enqueue
  enqueue-freezes now freezing inserting operation_id a b key reason details c ne other = (
    ground (
      arith,
      frozen-freeze_account now freezing a a operation_id key reason c,
      eq_iff a "",
      eq_iff a a,
    ),
    has-set_self operation_id _ _,
    ground (
      arith,
      frozen-freeze_account now freezing a b operation_id key reason c,
      eq_iff a "",
      eq_iff a b,
    ),
  )

  pending-enqueue :
      (now : ℕ) (u v : Bool) (operation_id a key reason : String) (details : Value)
      (c : Coordinator j)
      → get operation_id (enqueue j now u v operation_id a key reason details c).pending
        ≡ some (queued_task j now operation_id a key details)
  unfolding enqueue
  pending-enqueue now u v operation_id a key reason details c = get-set_self operation_id _ _

  abbrev pub is_final : Resolution → Bool
  is_final resolved_committed = true
  is_final resolved_lost = true
  is_final still_pending = false

  close-frozen :
      (now : ℕ) (u v : Bool) (operation_id b : String) (task : Task j) (status : TaskStatus)
      (c : Coordinator j)
      → task.account_id ≢ ""
      → (is_account_frozen j b (close_task j now u v operation_id task status c)
          ≡ (if str_eq task.account_id b then false else is_account_frozen j b c))
  unfolding close_task
  close-frozen now u v operation_id b task status c ne =
      ground (arith, frozen-unfreeze_account u task.account_id b c, eq_iff task.account_id "")

  close-pending :
      (now : ℕ) (u v : Bool) (operation_id q : String) (task : Task j) (status : TaskStatus)
      (c : Coordinator j)
      → is_pending q (close_task j now u v operation_id task status c)
        ≡ (if str_eq operation_id q then false else is_pending q c)
  unfolding close_task
  close-pending now u v operation_id q task status c =
      rw pending-unfreeze_account (ground (arith, get-delete operation_id q c.pending))

  -- A report on a pending operation is handled. A final one unfreezes the task's account and
  -- drops the task; one that is still pending keeps both. The account is not empty.
  report_outcome :
      (now : ℕ) (u v : Bool) (operation_id : String) (r : Resolution) (task : Task j)
      (c : Coordinator j)
      → get operation_id c.pending ≡ some task
      → task.account_id ≢ ""
      → let (d, handled) = handle_report j now u v operation_id r c in
        (handled ≡ true)
        × (is_pending operation_id d ≡ not (is_final r))
        × (is_account_frozen j task.account_id d
            ≡ (if is_final r then false else is_account_frozen j task.account_id c))
  unfolding handle_report
  report_outcome now u v operation_id r task c h ne = ground (
    arith,
    close-frozen now u v operation_id task.account_id task completed c ne,
    close-frozen now u v operation_id task.account_id task failed c ne,
    close-pending now u v operation_id operation_id task completed c,
    close-pending now u v operation_id operation_id task failed c,
    eq_iff operation_id operation_id,
    eq_iff task.account_id task.account_id,
    has-set_self operation_id (record task { status = pending_retry }) c.pending,
  )

  -- A final report on one operation unfreezes its account even if another operation on the same
  -- account is still pending: the account takes new operations with an outcome unresolved.
  report_unfreezes_early :
      (now : ℕ) (u v : Bool) (p q : String) (r : Resolution) (task other : Task j)
      (c : Coordinator j)
      → get p c.pending ≡ some task
      → get q c.pending ≡ some other
      → other.account_id ≡ task.account_id
      → task.account_id ≢ ""
      → p ≢ q
      → is_final r ≡ true
      → let d = (handle_report j now u v p r c).0 in
        (is_account_frozen j other.account_id d ≡ false) × (is_pending q d ≡ true)
  unfolding handle_report
  report_unfreezes_early now u v p q r task other c h k same ne pq final = ground (
    arith,
    close-frozen now u v p task.account_id task completed c ne,
    close-frozen now u v p task.account_id task failed c ne,
    close-pending now u v p q task completed c,
    close-pending now u v p q task failed c,
    eq_iff p q,
    eq_iff task.account_id task.account_id,
  )

  report-close :
      (now : ℕ) (u v : Bool) (operation_id : String) (r : Resolution) (task : Task j)
      (c : Coordinator j)
      → get operation_id c.pending ≡ some task
      → is_final r ≡ true
      → (status : TaskStatus) × ((handle_report j now u v operation_id r c).0
          ≡ close_task j now u v operation_id task status c)
  unfolding handle_report
  report-close now u v operation_id resolved_committed task c h f = (completed, rw h)
  report-close now u v operation_id resolved_lost task c h f = (failed, rw h)
  report-close now u v operation_id still_pending task c h f = cc

  report_unknown :
      (now : ℕ) (u v : Bool) (operation_id : String) (r : Resolution) (c : Coordinator j)
      → is_pending operation_id c ≡ false
      → handle_report j now u v operation_id r c ≡ (c, false)
  unfolding handle_report
  report_unknown now u v operation_id r c h = ground arith

  -- An uncertain operation over two accounts is enqueued twice under one id, and the second task
  -- replaces the first. A final report then unfreezes the second account only: the first stays
  -- frozen, nothing is pending for it, and no later report on the operation is handled.
  fanout_leaks :
      (now reported later : ℕ) (u v : Bool) (operation_id a b key reason : String) (details : Value)
      (r s : Resolution) (c : Coordinator j)
      → a ≢ ""
      → b ≢ ""
      → b ≢ a
      → is_final r ≡ true
      → let d =
          enqueue j now u v operation_id b key reason details
            (enqueue j now u v operation_id a key reason details c) in
        let e = (handle_report j reported u v operation_id r d).0 in
        (is_account_frozen j a e ≡ true)
        × (is_account_frozen j b e ≡ false)
        × (handle_report j later u v operation_id s e ≡ (e, false))
  fanout_leaks now reported later u v operation_id a b key reason details r s c na nb other final =
      let d0 = enqueue j now u v operation_id a key reason details c in
      let d = enqueue j now u v operation_id b key reason details d0 in
      let task = queued_task j now operation_id b key details in
      let first =
        enqueue-freezes now u v operation_id a b key reason details c na (λ e. other (sym e)) in
      let second = enqueue-freezes now u v operation_id b a key reason details d0 nb other in
      let (status, closed) =
        report-close reported u v operation_id r task d
          (pending-enqueue now u v operation_id b key reason details d0) final in
      let frozen_b = close-frozen reported u v operation_id b task status d nb in
      let frozen_a = close-frozen reported u v operation_id a task status d nb in
      let gone = close-pending reported u v operation_id operation_id task status d in
      rw closed (
        ground (arith, frozen_a, first.0, second.2, eq_iff b a),
        ground (arith, frozen_b, eq_iff b b),
        report_unknown later u v operation_id s _
            (ground (arith, gone, eq_iff operation_id operation_id)),
      )
