-- ===== src/Boundary/Reconciliation/Recovery.antt =====
-- What boundary/reconciliationCoordinator.mjs finds again after a crash.
use betting_automation_contr.Prelude.{
  ℕ, true, ◌||◌, Bool-cases, Option-cases, some, [], ◌∷◌, String, ◌≡◌, ◌≢◌, inl, inr, refl, ◌∙◌,
  arith, str_eq, eq_iff, is_some, All,
}
use betting_automation_contr.Prelude.Dict.{Dict, get, set, has, get-set, get-set_self, has-set_self}
use betting_automation_contr.Boundary.Ledger.Record.{Json}
use betting_automation_contr.Boundary.Reconciliation.Coordinator.{
  Frozen, QueueRow, Tables, Task, Coordinator, freeze_account, is_account_frozen, enqueue, is_open,
  task_of_row, details_of, hydrate_frozen, hydrate_pending, hydrate, queued_row,
}
use betting_automation_contr.Boundary.Reconciliation.Freezing.{is_pending}

module _ (j : Json) where
  open j use {Value, stringify, parse, parse_stringify}

  has-hydrate_frozen :
      (k : String) (rows m : Dict Frozen)
      → has k (hydrate_frozen j rows m) ≡ (has k rows || has k m)
  unfolding hydrate_frozen get
  has-hydrate_frozen k [] m = refl
  has-hydrate_frozen k ((i, r) ∷ rows) m =
      has-hydrate_frozen k rows (set i r m) ∙ ground (arith, get-set i k r m)

  -- The details of a row are empty, or parse.
  abbrev pub Parses : String × QueueRow → Type 0
  Parses e = is_some (details_of j e.1.details_json) ≡ true

  hydrate_pending-keeps :
      (k : String) (rows : Dict QueueRow) (m : Dict (Task j))
      → has k m ≡ true
      → has k (hydrate_pending j rows m) ≡ true
  unfolding hydrate_pending
  hydrate_pending-keeps k [] m h = h
  hydrate_pending-keeps k ((i, r) ∷ rows) m h = elim (Option-cases (details_of j r.details_json)) [
    | inl bad ↦ ground (arith, hydrate_pending-keeps k rows m h)
    | inr (d, good) ↦
        let t = task_of_row j i r d in
        let still : has k (set i t m) ≡ true = ground (arith, get-set i k t m) in
        ground
          (arith, hydrate_pending-keeps k rows m h, hydrate_pending-keeps k rows (set i t m) still)
  ]

  hydrate_pending-finds :
      (k : String) (r : QueueRow) (rows : Dict QueueRow) (m : Dict (Task j))
      → All Parses rows
      → get k rows ≡ some r
      → is_open j r.status ≡ true
      → has k (hydrate_pending j rows m) ≡ true
  unfolding hydrate_pending get
  hydrate_pending-finds k r [] m p h o = cc
  hydrate_pending-finds k r ((i, s) ∷ rows) m p h o =
      elim (Option-cases (details_of j s.details_json)) [
        | inl bad ↦ absurd (ground (arith, p.0))
        | inr (d, good) ↦
            let t = task_of_row j i s d in
            elim (Bool-cases (str_eq i k)) [
              | inl same ↦ ground (
                arith,
                hydrate_pending-keeps k rows (set i t m) (ground (arith, get-set i k t m)),
              )
              | inr other ↦ ground (
                arith,
                hydrate_pending-finds k r rows m p.1 (ground arith) o,
                hydrate_pending-finds k r rows (set i t m) p.1 (ground arith) o,
              )
            ]
      ]

  set-Parses :
      (k : String) (r : QueueRow) (rows : Dict QueueRow)
      → Parses (k, r)
      → All Parses rows
      → All Parses (set k r rows)
  unfolding set
  set-Parses k r [] h p = (h, tt)
  set-Parses k r ((i, s) ∷ rows) h p = elim (Bool-cases (str_eq i k)) [
    | inl same ↦ rw same (h, p.1)
    | inr other ↦ rw other (p.0, set-Parses k r rows h p.1)
  ]

  abbrev frozen_record : ℕ → String → String → String → String → Frozen
  frozen_record now account_id operation_id key reason = record {
    account_id = account_id;
    operation_id = operation_id;
    idempotency_key = key;
    frozen_at = now;
    reason = reason;
  }

  -- An uncertain operation that the engine stored survives a crash: a coordinator over the tables
  -- that are left holds its account frozen and its reconciliation pending. The details of
  -- every row of the queue parse or are empty, and the account is not empty.
  pub enqueue_survives :
      (now : ℕ) (operation_id a key reason : String) (details : Value) (t : Tables)
      (c : Coordinator j)
      → c.engine ≡ some t
      → All Parses t.queue_rows
      → a ≢ ""
      → (u : Tables) × ((enqueue j now true true operation_id a key reason details c).engine
          ≡ some u)
        × (is_account_frozen j a (hydrate j u) ≡ true)
        × (is_pending j operation_id (hydrate j u) ≡ true)
  unfolding enqueue freeze_account hydrate
  enqueue_survives now operation_id a key reason details t c e p ne =
      let f = frozen_record now a operation_id key reason in
      let q = queued_row j now a key reason details in
      let rows = set operation_id q t.queue_rows in
      let parses : All Parses rows =
        set-Parses operation_id q t.queue_rows (ground (arith, parse_stringify details)) p in
      (
        record { frozen_rows = set a f t.frozen_rows; queue_rows = rows },
        ground (arith, eq_iff a ""),
        ground (
          arith,
          has-hydrate_frozen a (set a f t.frozen_rows) [],
          has-set_self a f t.frozen_rows,
        ),
        hydrate_pending-finds operation_id q rows [] parses
            (get-set_self operation_id q t.queue_rows) refl,
      )
