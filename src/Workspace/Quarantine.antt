-- ===== src/Workspace/Quarantine.antt =====
-- What `quarantineAllPending` of src/state/operationTracker.mjs leaves of each operation.
use betting_automation_contr.Prelude.{
  ℕ, Bool-cases, Option-cases, inl, inr, Option, none, some, [], ◌∷◌, String, ◌≡◌, ◌≢◌, refl, ◌∙◌,
  arith, str_eq, eq_iff, sym, if◌then◌else◌,
}
use betting_automation_contr.Prelude.Dict.{Dict, get, get-set, get-set_self, get-set_ne, IsDistinct}
use betting_automation_contr.Workspace.Tracker.{
  ActionType, op_queued, op_in_flight, op_processing, Operation, Tracker, change, as_completed,
  as_failed, as_uncertain, complete_operation, start_operation, fail_operation, mark_uncertain,
  quarantine_entries, quarantine_all_pending,
}

module _ (Value : Type 0) where
  -- What quarantine makes of an operation: one that may have reached a bookmaker is uncertain,
  -- one that has not is failed, and a finished one is kept.
  abbrev pub settled : ℕ → String → Value → Operation Value → Operation Value
  settled now reason details op = elim op.status [
    | op_in_flight ↦ as_uncertain Value now reason details op
    | op_processing ↦ as_uncertain Value now reason details op
    | op_queued ↦ as_failed Value now reason op
    | _ ↦ op
  ]

  abbrev pub settle_all : ℕ → String → Value → Option (Operation Value) → Option (Operation Value)
  settle_all now reason details none = none
  settle_all now reason details (some op) = some (settled now reason details op)

  -- The tracker after one entry of the loop.
  abbrev settle_one : ℕ → String → Value → String → Operation Value → Tracker Value → Tracker Value
  settle_one now reason details id op t = elim op.status [
    | op_in_flight ↦ mark_uncertain Value now id reason details t
    | op_processing ↦ mark_uncertain Value now id reason details t
    | op_queued ↦ fail_operation Value now id reason t
    | _ ↦ t
  ]

  entries-cons :
      (now : ℕ) (reason : String) (details : Value) (id : String) (op : Operation Value)
      (rest : Dict (Operation Value)) (t : Tracker Value)
      → (quarantine_entries Value now reason details ((id, op) ∷ rest) t).0
        ≡ (quarantine_entries Value now reason details rest
            (settle_one now reason details id op t)).0
  unfolding quarantine_entries
  entries-cons now reason details id op rest t = ground arith

  get-settle_one :
      (now : ℕ) (reason : String) (details : Value) (id k : String) (op : Operation Value)
      (t : Tracker Value)
      → get id t.operations ≡ some op
      → get k (settle_one now reason details id op t).operations
        ≡ (if str_eq id k then some (settled now reason details op) else get k t.operations)
  unfolding mark_uncertain fail_operation change
  get-settle_one now reason details id k op t h = ground (
    arith,
    eq_iff id k,
    get-set id k (as_uncertain Value now reason details op) t.operations,
    get-set id k (as_failed Value now reason op) t.operations,
  )

  entries-nil :
      (now : ℕ) (reason : String) (details : Value) (t : Tracker Value)
      → (quarantine_entries Value now reason details [] t).0 ≡ t
  unfolding quarantine_entries
  entries-nil now reason details t = refl

  -- The tracker holds the entries that the loop has still to visit.
  abbrev Holds : Dict (Operation Value) → Tracker Value → Type 0
  Holds es t =
      (i : String) (op : Operation Value) → get i es ≡ some op → get i t.operations ≡ some op

  settle_one-Holds :
      (now : ℕ) (reason : String) (details : Value) (id : String) (op : Operation Value)
      (rest : Dict (Operation Value)) (t : Tracker Value)
      → IsDistinct ((id, op) ∷ rest)
      → Holds ((id, op) ∷ rest) t
      → Holds rest (settle_one now reason details id op t)
  unfolding get
  settle_one-Holds now reason details id op rest t d agree i x h =
      let here =
        get-settle_one now reason details id i op t (agree id op (ground (arith, eq_iff id id))) in
      elim (Bool-cases (str_eq id i)) [
        | inl same ↦ absurd (ground (arith, same, eq_iff id i, d.0, h))
        | inr other ↦ rw (here, other) (agree i x (rw other h))
      ]

  get-quarantine_entries :
      (now : ℕ) (reason : String) (details : Value) (k : String) (es : Dict (Operation Value))
      (t : Tracker Value)
      → IsDistinct es
      → Holds es t
      → get k (quarantine_entries Value now reason details es t).0.operations ≡ (elim (get k es) [
        | none ↦ get k t.operations
        | some op ↦ some (settled now reason details op)
      ])
  unfolding get
  get-quarantine_entries now reason details k [] t d agree =
      rw (entries-nil now reason details t) refl
  get-quarantine_entries now reason details k ((id, op) ∷ rest) t d agree =
      let u = settle_one now reason details id op t in
      let later =
        get-quarantine_entries now reason details k rest u d.1
          (settle_one-Holds now reason details id op rest t d agree) in
      let here =
        get-settle_one now reason details id k op t (agree id op (ground (arith, eq_iff id id))) in
      elim (Bool-cases (str_eq id k)) [
        | inl same ↦ ground (
          arith,
          entries-cons now reason details id op rest t,
          later,
          here,
          same,
          eq_iff id k,
          d.0,
        )
        | inr other ↦
            ground (arith, entries-cons now reason details id op rest t, later, here, other)
      ]

  -- Quarantine settles every operation: what was in flight or processing is uncertain with the
  -- reason, what was queued has failed with it, and the rest is unchanged; no action is pending.
  -- The tracker holds no id twice.
  pub quarantine_all_pending-settled :
      (now : ℕ) (reason : String) (details : Value) (k : String) (t : Tracker Value)
      → IsDistinct t.operations
      → (get k (quarantine_all_pending Value now reason details t).0.operations
          ≡ settle_all now reason details (get k t.operations))
        × ((quarantine_all_pending Value now reason details t).0.current_pending_action ≡ none)
  unfolding quarantine_all_pending
  quarantine_all_pending-settled now reason details k t d = (
    get-quarantine_entries now reason details k t.operations t d (λ i op h. h) ∙ ground arith,
    refl,
  )

  get-change_other :
      (id k : String) (f : Operation Value → Operation Value) (t : Tracker Value)
      → id ≢ k
      → get k (change Value id f t).operations ≡ get k t.operations
  unfolding change
  get-change_other id k f t ne = elim (Option-cases (get id t.operations)) [
    | inl missing ↦ ground (arith, missing)
    | inr (op, here) ↦ ground (arith, here, get-set_ne id k (f op) t.operations ne)
  ]

  start_operation-queued :
      (now : ℕ) (id : String) (action : ActionType) (metadata : Value) (t : Tracker Value)
      → (op : Operation Value) × (get id (start_operation Value now id action metadata t).operations
          ≡ some op)
        × (op.status ≡ op_queued)
  unfolding start_operation
  start_operation-queued now id action metadata t = (_, get-set_self id _ t.operations, refl)

  -- Only one action is remembered: completing any operation, a finished or unknown one too, ends
  -- the pending action of an operation that was just started and is still queued.
  complete_clears :
      (now later : ℕ) (id other : String) (action : ActionType) (metadata result : Value)
      (t : Tracker Value)
      → id ≢ other
      → let u =
          complete_operation Value later other result
            (start_operation Value now id action metadata t) in
        (u.current_pending_action ≡ none)
        × ((op : Operation Value) × (get id u.operations ≡ some op) × (op.status ≡ op_queued))
  unfolding complete_operation
  complete_clears now later id other action metadata result t ne =
      let s = start_operation Value now id action metadata t in
      let (op, started, waits) = start_operation-queued now id action metadata t in
      (
        refl,
        (
          op,
          get-change_other other id (as_completed Value later result) s (λ e. ne (sym e)) ∙ started,
          waits,
        ),
      )
