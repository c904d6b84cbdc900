-- ===== src/Security/Facade/Degraded.antt =====
-- What a lost backend and a logout leave: `transitionToDegraded` and `logout` of
-- src/security-authority/facade.mjs.
use betting_automation_contr.Prelude.{
  ℕ, ◌+◌, Bool, true, false, some, String, ◌≡◌, ◌≢◌, ◌∙◌, ap, refl, arith, str_eq, eq_iff,
}
use betting_automation_contr.Security.State.{
  SecurityState, StateData, operational, renewing, offline_grace, reauthentication_required,
  logging_out, logged_out, revoked, compromised, authenticated, expired, authz_failure,
}
use betting_automation_contr.Security.Machine.Table.{
  TransitionEvent, Payload, empty_payload, get_transition, renew_threshold_reached,
  renew_backend_unreachable, offline_grace_exhausted, logout_intent, logout_sequence_complete,
}
use betting_automation_contr.Security.Machine.Graph.{fire}
use betting_automation_contr.Security.Storage.Row.{Aead}
use betting_automation_contr.Security.Storage.Laws.{
  Stored, committed, commit_succeeds, commit-Stored,
}
use betting_automation_contr.Security.Engine.Transition.{invariants_hold, next_data}
use betting_automation_contr.Security.Engine.Steps.{advanced}
use betting_automation_contr.Security.Decision.Brain.{
  accepted, DecisionEngine, dispatch, set_revoked,
}
use betting_automation_contr.Security.Decision.First.{dispatch_succeeds}
use betting_automation_contr.Security.Facade.Exits.{
  returned, lose_backend, renewal_due, grace_spent, steps_completed, exhaust, degrade, signed_off,
  logged_out_data, sign_off, logout, transition_to_degraded,
}

fire-renewal_due :
    (now : ℕ) → fire operational renew_threshold_reached (renewal_due now) ≡ some renewing
unfolding fire get_transition
fire-renewal_due now = ground arith

fire-unreachable : fire renewing renew_backend_unreachable empty_payload ≡ some offline_grace
unfolding fire get_transition
fire-unreachable = refl

fire-grace_spent :
    fire offline_grace offline_grace_exhausted grace_spent ≡ some reauthentication_required
unfolding fire get_transition
fire-grace_spent = refl

-- The states of which `assertStateMachineInvariants` asserts nothing.
abbrev is_unasserted : SecurityState → Bool
is_unasserted operational = false
is_unasserted compromised = false
is_unasserted revoked = false
is_unasserted s = true

unasserted-invariants : (d : StateData) → is_unasserted d.state ≡ true → invariants_hold d ≡ true
unfolding invariants_hold
unasserted-invariants d h = ground arith

abbrev pub may_log_out : SecurityState → Bool
may_log_out authenticated = true
may_log_out operational = true
may_log_out offline_grace = true
may_log_out expired = true
may_log_out authz_failure = true
may_log_out reauthentication_required = true
may_log_out s = false

fire-logout_intent :
    (s : SecurityState)
    → may_log_out s ≡ true
    → fire s logout_intent empty_payload ≡ some logging_out
unfolding fire get_transition
fire-logout_intent s h = ground arith

module _ (c : Aead) where
  degrade_operational :
      (now : ℕ) (m : StateData) (g : DecisionEngine c)
      → g.in_memory_state ≡ some m
      → m.state ≡ operational
      → degrade c now g ≡ lose_backend c now g (λ h. exhaust c now h)
  unfolding degrade
  degrade_operational now m g held op = rw (held, op) refl

  degrade_runs :
      (now : ℕ) (reason : String) (m : StateData) (g g1 g2 g3 : DecisionEngine c)
      → g.in_memory_state ≡ some m
      → m.state ≡ operational
      → str_eq reason "OFFLINE_GRACE" ≡ false
      → dispatch c now renew_threshold_reached (renewal_due now) g ≡ (g1, accepted)
      → dispatch c now renew_backend_unreachable empty_payload g1 ≡ (g2, accepted)
      → dispatch c now offline_grace_exhausted grace_spent g2 ≡ (g3, accepted)
      → transition_to_degraded c now reason g ≡ (set_revoked c true g3, returned true)
  unfolding transition_to_degraded
  degrade_runs now reason m g g1 g2 g3 held op other run1 run2 run3 =
      rw (other, degrade_operational now m g held op, run1, run2, run3) refl

  -- Memory and storage in step, in a given state.
  record InStep (g : DecisionEngine c) (n : SecurityState) : Type 0 where
    held_data : StateData
    stored_data : StateData
    held : g.in_memory_state ≡ some held_data
    at_state : held_data.state ≡ n
    stored : Stored c g.world.storage stored_data
    stored_state : stored_data.state ≡ n
    version : held_data.state_version ≡ stored_data.state_version

  -- An event that the table accepts leads to the next state, if nothing is asserted of that.
  step-InStep :
      (now : ℕ) (e : TransitionEvent) (p : Payload) (s n : SecurityState) (g : DecisionEngine c)
      → InStep g s
      → fire s e p ≡ some n
      → is_unasserted n ≡ true
      → (h : DecisionEngine c) × (dispatch c now e p g ≡ (h, accepted)) × InStep h n
  unfolding next_data
  step-InStep now e p s n g i fired free =
      let (h, run, held, stored) =
        dispatch_succeeds c now e p i.held_data i.stored_data n g i.stored i.held i.version
          (rw i.at_state fired) (unasserted-invariants (advanced c i.held_data n p) free) in
      (
        h,
        run,
        record {
          held_data = advanced c i.held_data n p;
          stored_data = committed c now i.held_data.state_version (next_data i.held_data n p);
          held = held;
          at_state = refl;
          stored = stored;
          stored_state = refl;
          version = refl;
        },
      )

  -- An operational system that loses its backend without grace ends in
  -- `reauthentication_required`, in memory and on disk, with the revocation flag set, whatever
  -- the reason, as long as it is not the grace. The storage is healthy and in step with the
  -- memory.
  pub transition_to_degraded_locks :
      (now : ℕ) (reason : String) (g : DecisionEngine c) (m d : StateData)
      → g.in_memory_state ≡ some m
      → Stored c g.world.storage d
      → m.state_version ≡ d.state_version
      → m.state ≡ operational
      → d.state ≡ operational
      → reason ≢ "OFFLINE_GRACE"
      → (h : DecisionEngine c) × (transition_to_degraded c now reason g ≡ (h, returned true))
        × (h.world.revoked_flag ≡ true)
        × ((n : StateData) × (h.in_memory_state ≡ some n) × (n.state ≡ reauthentication_required))
        × ((r : StateData) × Stored c h.world.storage r × (r.state ≡ reauthentication_required))
  transition_to_degraded_locks now reason g m d held stored v op stored_op other =
      let i : InStep g operational = record {
        held_data = m;
        stored_data = d;
        held = held;
        at_state = op;
        stored = stored;
        stored_state = stored_op;
        version = v;
      } in
      let (g1, run1, i1) =
        step-InStep now renew_threshold_reached (renewal_due now) operational renewing g i
          (fire-renewal_due now) refl in
      let (g2, run2, i2) =
        step-InStep now renew_backend_unreachable empty_payload renewing offline_grace g1 i1
          fire-unreachable refl in
      let (g3, run3, i3) =
        step-InStep now offline_grace_exhausted grace_spent offline_grace reauthentication_required
          g2 i2 fire-grace_spent refl in
      (
        set_revoked c true g3,
        degrade_runs now reason m g g1 g2 g3 held op (ground (arith, eq_iff reason "OFFLINE_GRACE"))
            run1 run2 run3,
        refl,
        (i3.held_data, i3.held, i3.at_state),
        (i3.stored_data, i3.stored, i3.stored_state),
      )

  sign_off_stores :
      (now : ℕ) (g : DecisionEngine c) (m d : StateData)
      → g.in_memory_state ≡ some m
      → Stored c g.world.storage d
      → (h : DecisionEngine c) × (sign_off c now g g.in_memory_state ≡ h)
        × (h.in_memory_state ≡ some (record (signed_off m) { state_version = d.state_version + 1 }))
        × Stored c h.world.storage
            (committed c now d.state_version (logged_out_data (signed_off m)))
  sign_off_stores now g m d held stored =
      let (t, done) =
        commit_succeeds c now d.state_version (logged_out_data (signed_off m)) d g.world.storage
          stored refl in
      (
        sign_off c now g g.in_memory_state,
        refl,
        rw (held, stored.readable, done) refl,
        rw (held, stored.readable, done)
            (commit-Stored c now d.state_version _ g.world.storage t stored.anchored done),
      )

  logout_runs :
      (now : ℕ) (g g1 g2 : DecisionEngine c)
      → dispatch c now logout_intent empty_payload g ≡ (g1, accepted)
      → dispatch c now logout_sequence_complete steps_completed g1 ≡ (g2, accepted)
      → logout c now g ≡ (sign_off c now g2 g2.in_memory_state, returned true)
  unfolding logout
  logout_runs now g g1 g2 run1 run2 = rw (run1, run2) refl

  -- A logout from a state that has one leaves no session, no authorization and no license in
  -- memory or on disk, and `logged_out` in both; the version in memory is the stored one. The
  -- storage is healthy, and its version known.
  pub logout_clears :
      (now : ℕ) (g : DecisionEngine c) (m d : StateData)
      → g.in_memory_state ≡ some m
      → Stored c g.world.storage d
      → m.state_version ≡ d.state_version
      → may_log_out m.state ≡ true
      → (h : DecisionEngine c) × (logout c now g ≡ (h, returned true))
        × (n : StateData) × (h.in_memory_state ≡ some n)
        × (n ≡ logged_out_data n)
        × (r : StateData) × Stored c h.world.storage r
        × (r ≡ logged_out_data r)
        × (n.state_version ≡ r.state_version)
  unfolding fire get_transition next_data invariants_hold
  logout_clears now g m d held stored v may =
      let (g1, run1, held1, stored1) =
        dispatch_succeeds c now logout_intent empty_payload m d logging_out g stored held v
          (fire-logout_intent m.state may) refl in
      let (g2, run2, held2, stored2) =
        dispatch_succeeds c now logout_sequence_complete steps_completed _ _ logged_out g1 stored1
          held1 refl refl refl in
      let (h, done, memory, on_disk) = sign_off_stores now g2 _ _ held2 stored2 in
      (
        h,
        logout_runs now g g1 g2 run1 run2 ∙ ap (λ x. (x, returned true)) done,
        _,
        memory,
        refl,
        _,
        on_disk,
        refl,
        refl,
      )
