-- ===== src/Security/Decision/Starts.antt =====
-- In which states `DecisionEngine.initialize` of decision-engine.mjs ends.
use betting_automation_contr.Prelude.{
  ℕ, ◌+◌, Bool, true, false, not, Bool-cases, some, ◌≡◌, ◌≢◌, ◌⊎◌, inl, inr, refl, arith,
}
use betting_automation_contr.Security.State.{
  SecurityState, StateData, uninitialized, initializing, security_state_ready, revoked, compromised,
  tamper_suspected,
}
use betting_automation_contr.Security.Machine.Table.{
  TransitionEvent, Payload, get_transition, initialize, bootstrap_complete,
}
use betting_automation_contr.Security.Machine.Graph.{fire, IsLocked}
use betting_automation_contr.Security.Storage.Row.{
  Aead, Read, StorageError, found, empty, uncertain, Storage, get_security_state_row,
  commit_transition_with_occ,
}
use betting_automation_contr.Security.Storage.Laws.{row-get_security_state_row}
use betting_automation_contr.Security.Decision.Brain.{
  Reply, accepted, refused, thrown, baseline, project, starts_clear, lock_held, verified,
  DecisionEngine, dispatch, set_revoked, settle, complete, restart, boot, start_engine,
}
use betting_automation_contr.Security.Decision.Dispatches.{dispatch-fire, dispatch_locked}

-- The states in which a start may end.
abbrev pub is_start_state : SecurityState → Bool
is_start_state uninitialized = true
is_start_state initializing = true
is_start_state security_state_ready = true
is_start_state revoked = true
is_start_state compromised = true
is_start_state tamper_suspected = true
is_start_state s = false

abbrev is_fresh : SecurityState → Bool
is_fresh uninitialized = true
is_fresh initializing = true
is_fresh s = false

fire-initialize :
    (s n : SecurityState)
    → is_fresh s ≡ true
    → fire s initialize lock_held ≡ some n
    → is_fresh n ≡ true
unfolding fire get_transition
fire-initialize s n h f = ground arith

fire-bootstrap_complete :
    (s n : SecurityState) (v : Bool)
    → is_fresh s ≡ true
    → fire s bootstrap_complete (verified v) ≡ some n
    → is_start_state n ≡ true
unfolding fire get_transition
fire-bootstrap_complete s n v h f = ground arith

module _ (c : Aead) where
  -- What a start that returns leaves in memory, and the flag that goes with it.
  abbrev pub Started : DecisionEngine c → Type 0
  Started g =
      (d : StateData) × (g.in_memory_state ≡ some d)
      × (is_start_state d.state ≡ true)
      × (g.world.revoked_flag ≡ not (starts_clear d.state))

  dispatch-initialize :
      (t : ℕ) (g : DecisionEngine c) (d : StateData)
      → g.in_memory_state ≡ some d
      → is_fresh d.state ≡ true
      → (n : StateData) × ((dispatch c t initialize lock_held g).0.in_memory_state ≡ some n)
        × (is_fresh n.state ≡ true)
  dispatch-initialize t g d m fresh =
      let (n, held, how) = dispatch-fire c t initialize lock_held g d m in
      elim how [
        | inl (_, same) ↦ (n, held, rw same fresh)
        | inr fired ↦ (n, held, fire-initialize d.state n.state fresh fired)
      ]

  dispatch_bootstrap_complete :
      (t : ℕ) (v : Bool) (g : DecisionEngine c) (d : StateData)
      → g.in_memory_state ≡ some d
      → is_fresh d.state ≡ true
      → (n : StateData) × ((dispatch c t bootstrap_complete (verified v) g).0.in_memory_state
          ≡ some n)
        × (is_start_state n.state ≡ true)
  dispatch_bootstrap_complete t v g d m fresh =
      let (n, held, how) = dispatch-fire c t bootstrap_complete (verified v) g d m in
      elim how [
        | inl (_, same) ↦ (n, held, rw same (ground arith))
        | inr fired ↦ (n, held, fire-bootstrap_complete d.state n.state v fresh fired)
      ]

  settle-Started :
      (x : DecisionEngine c × Reply) (d : StateData) (h : DecisionEngine c)
      → x.0.in_memory_state ≡ some d
      → is_start_state d.state ≡ true
      → settle c x ≡ (h, accepted)
      → Started h
  settle-Started (g, r) d h held ok q = (d, ground arith, ok, ground arith)

  complete-Started :
      (u : ℕ) (v : Bool) (x : DecisionEngine c × Reply) (d : StateData) (h : DecisionEngine c)
      → x.0.in_memory_state ≡ some d
      → is_fresh d.state ≡ true
      → settle c (complete c u v x) ≡ (h, accepted)
      → Started h
  complete-Started u v (g, thrown) d h held fresh q = absurd (ground arith)
  complete-Started u v (g, accepted) d h held fresh q =
      let (n, after, ok) = dispatch_bootstrap_complete u v g d held fresh in
      settle-Started (dispatch c u bootstrap_complete (verified v) g) n h after ok q
  complete-Started u v (g, refused) d h held fresh q =
      let (n, after, ok) = dispatch_bootstrap_complete u v g d held fresh in
      settle-Started (dispatch c u bootstrap_complete (verified v) g) n h after ok q

  boot_fresh :
      (t u : ℕ) (v : Bool) (d : StateData) (g h : DecisionEngine c)
      → d.state ≡ uninitialized
      → boot c t u v d g ≡ (h, accepted)
      → Started h
  unfolding boot
  boot_fresh t u v d g h fresh q =
      let held = record g { in_memory_state = some d } in
      let (n, after, ok) = dispatch-initialize t held d refl (rw fresh refl) in
      complete-Started u v (dispatch c t initialize lock_held held) n h after ok (ground arith)

  restart-Started :
      (t : ℕ) (v : Bool) (d : StateData) (g h : DecisionEngine c)
      → restart c t v d g ≡ (h, accepted)
      → Started h
  unfolding restart
  restart-Started t v d g h q = elim (Bool-cases v) [
    | inl valid ↦ (record d { state = security_state_ready }, ground arith, refl, ground arith)
    | inr lost ↦
        let n : StateData = record d { state = compromised; state_version = d.state_version + 1 } in
        (n, ground arith, refl, ground arith)
  ]

  boot_locked :
      (t u : ℕ) (v : Bool) (d : StateData) (g : DecisionEngine c)
      → IsLocked d.state
      → boot c t u v d g ≡ (set_revoked c true (record g { in_memory_state = some d }), accepted)
  unfolding boot
  boot_locked t u v d g locked = ground arith

  boot_other :
      (t u : ℕ) (v : Bool) (d : StateData) (g : DecisionEngine c)
      → d.state ≢ uninitialized
      → ¬ IsLocked d.state
      → boot c t u v d g ≡ restart c t v d (record g { in_memory_state = some d })
  unfolding boot
  boot_other t u v d g old unlocked = ground arith

  state_cases :
      (s : SecurityState)
      → (s ≡ uninitialized) ⊎ (IsLocked s ⊎ ((s ≢ uninitialized) × (¬ IsLocked s)))
  state_cases s = ground arith

  boot-Started :
      (t u : ℕ) (v : Bool) (d : StateData) (g h : DecisionEngine c)
      → boot c t u v d g ≡ (h, accepted)
      → Started h
  boot-Started t u v d g h q = elim (state_cases d.state) [
    | inl fresh ↦ boot_fresh t u v d g h fresh q
    | inr (inl locked) ↦ (
      d,
      ground (arith, boot_locked t u v d g locked),
      ground arith,
      ground (arith, boot_locked t u v d g locked),
    )
    | inr (inr (old, unlocked)) ↦
        restart-Started t v d (record g { in_memory_state = some d }) h
          (rw (← boot_other t u v d g old unlocked) q)
  ]

  Read-cases :
      (x : Storage c × Read)
      → ((s : Storage c) × (d : StateData) × (x ≡ (s, found d)))
        ⊎ (((s : Storage c) × (x ≡ (s, empty)))
            ⊎ ((s : Storage c) × (e : StorageError) × (x ≡ (s, uncertain e))))
  Read-cases (s, found d) = inl (s, d, refl)
  Read-cases (s, empty) = inr (inl (s, refl))
  Read-cases (s, uncertain e) = inr (inr (s, e, refl))

  abbrev pub over : Storage c → DecisionEngine c → DecisionEngine c
  over s g = record g { world = record g.world { storage = s } }

  start_found :
      (now t u : ℕ) (v : Bool) (g : DecisionEngine c) (s : Storage c) (d : StateData)
      → get_security_state_row c g.world.storage ≡ (s, found d)
      → start_engine c now t u v g ≡ boot c t u v (project d) (over s g)
  unfolding start_engine
  start_found now t u v g s d read = ground (arith, read)

  pub start_empty :
      (now t u : ℕ) (v : Bool) (g : DecisionEngine c) (s z : Storage c) (d : StateData)
      → get_security_state_row c g.world.storage ≡ (s, empty)
      → get_security_state_row c (commit_transition_with_occ c now 0 baseline s).0 ≡ (z, found d)
      → start_engine c now t u v g ≡ boot c t u v (project d) (over z g)
  unfolding start_engine
  start_empty now t u v g s z d read again = ground (arith, read, again)

  -- A start that returns never takes a persisted session up again: the state in memory is ready,
  -- still initializing or uninitialized, or locked, and the revocation flag is clear exactly in
  -- the ready state.
  pub start_engine-Started :
      (now t u : ℕ) (v : Bool) (g h : DecisionEngine c)
      → start_engine c now t u v g ≡ (h, accepted)
      → (d : StateData) × (h.in_memory_state ≡ some d)
        × (is_start_state d.state ≡ true)
        × (h.world.revoked_flag ≡ not (starts_clear d.state))
  unfolding start_engine
  start_engine-Started now t u v g h q =
      elim (Read-cases (get_security_state_row c g.world.storage)) [
        | inl (s, d, read) ↦
            boot-Started t u v (project d) (over s g) h (rw (← start_found now t u v g s d read) q)
        | inr (inl (s, read)) ↦
            elim (Read-cases
              (get_security_state_row c (commit_transition_with_occ c now 0 baseline s).0)) [
                | inl (z, d, again) ↦
                    boot-Started t u v (project d) (over z g) h
                      (rw (← start_empty now t u v g s z d read again) q)
                | inr (inl (z, again)) ↦ absurd (ground (arith, read, again, q))
                | inr (inr (z, e, again)) ↦ absurd (ground (arith, read, again, q))
              ]
        | inr (inr (s, e, read)) ↦ absurd (ground (arith, read, q))
      ]

  -- Lockdown survives a restart: over a row that is revoked, compromised or suspected of
  -- tampering, a start leaves the row, sets the revocation flag, and no event that is dispatched
  -- next is accepted.
  pub start_engine_locked :
      (now t u later : ℕ) (v : Bool) (d : StateData) (s : Storage c) (g : DecisionEngine c)
      (e : TransitionEvent) (p : Payload)
      → get_security_state_row c g.world.storage ≡ (s, found d)
      → IsLocked d.state
      → let h = start_engine c now t u v g in
        (h.1 ≡ accepted)
        × (h.0.world.revoked_flag ≡ true)
        × (h.0.world.storage.row ≡ g.world.storage.row)
        × ((dispatch c later e p h.0).1 ≢ accepted)
  unfolding start_engine
  start_engine_locked now t u later v d s g e p read locked =
      rw (start_found now t u v g s d read, boot_locked t u v (project d) (over s g) locked)
        (
          refl,
          refl,
          ground (arith, read, row-get_security_state_row c g.world.storage),
          dispatch_locked c later e p
              (set_revoked c true (record (over s g) { in_memory_state = some (project d) }))
              (project d) refl locked,
        )
