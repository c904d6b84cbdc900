-- ===== src/Security/Grace/Expiry.antt =====
-- What one check of time/offline-grace.mjs leaves in the storage and in memory.
use betting_automation_contr.Prelude.{ℕ, ◌+◌, ◌<◌, true, false, some, ◌≡◌, ◌≢◌, ◌∙◌, arith, refl}
use betting_automation_contr.Security.State.{StateData, expired}
use betting_automation_contr.Security.Machine.Table.{TransitionEvent, Payload}
use betting_automation_contr.Security.Storage.Row.{Aead, Storage}
use betting_automation_contr.Security.Storage.Laws.{
  Stored, committed, commit_succeeds, commit-Stored,
}
use betting_automation_contr.Security.Engine.Steps.{execute_stale}
use betting_automation_contr.Security.Decision.Brain.{
  accepted, refused, thrown, DecisionEngine, dispatch, set_revoked,
}
use betting_automation_contr.Security.Grace.Monitor.{
  is_exhausted, exhaust, time_tick, check_time_bounds,
}

module _ (c : Aead) where
  -- A clock that has gone back below the highest observed time sets the revocation flag and
  -- throws; the storage and the state in memory are as they were.
  check_time_bounds_rollback :
      (now : ℕ) (d : StateData) (g : DecisionEngine c)
      → Stored c g.world.storage d
      → now < d.highest_observed_time
      → check_time_bounds c now g ≡ (set_revoked c true g, thrown)
  unfolding check_time_bounds
  check_time_bounds_rollback now d g h back = ground (arith, h.readable)

  ticked_data :
      (now version : ℕ) (d : StateData)
      → committed c now version (record d { highest_observed_time = now })
        ≡ record d { state_version = version + 1; highest_observed_time = now }
  ticked_data now version d = ground arith

  expired_data :
      (now : ℕ) (d : StateData)
      → record d {
        state = expired;
        state_version = d.state_version + 2;
        highest_observed_time = now;
      }
        ≡ committed c now
            (d.state_version + 1)
            (record d { state = expired; highest_observed_time = now })
  expired_data now d = ground arith

  tick-Stored :
      (now : ℕ) (d : StateData) (s : Storage c)
      → Stored c s d
      → d.highest_observed_time < now
      → (t : Storage c) × (time_tick c now d s ≡ (t, true))
        × Stored c t (record d { state_version = d.state_version + 1; highest_observed_time = now })
  unfolding time_tick
  tick-Stored now d s h forward =
      let next : StateData = record d { highest_observed_time = now } in
      let (t, done) = commit_succeeds c now d.state_version next d s h refl in
      let stored = commit-Stored c now d.state_version next s t h.anchored done in
      (t, ground (arith, done), rw (← ticked_data now d.state_version d) stored)

  moved_on :
      (now : ℕ) (d : StateData) (t : Storage c) (g : DecisionEngine c)
      → Stored c g.world.storage d
      → d.highest_observed_time < now
      → time_tick c now d g.world.storage ≡ (t, true)
      → check_time_bounds c now g ≡ (exhaust c now d g (t, true), accepted)
  unfolding check_time_bounds
  moved_on now d t g h forward ticked = ground (arith, h.readable, ticked)

  dispatch_stale :
      (now : ℕ) (e : TransitionEvent) (p : Payload) (d current : StateData) (g : DecisionEngine c)
      → Stored c g.world.storage d
      → g.in_memory_state ≡ some current
      → current.state_version ≢ d.state_version
      → dispatch c now e p g ≡ (g, refused)
  unfolding dispatch
  dispatch_stale now e p d current g h held ne =
      ground (arith, held, execute_stale c now current d e p g.world h ne)

  -- A tick of the clock writes the new time under the next version and leaves the state in memory
  -- alone: a state that was in step with the storage no longer is, and the next event that is
  -- dispatched from it is refused. The grace is not exhausted.
  check_time_bounds_outdates :
      (now later : ℕ) (d current : StateData) (g : DecisionEngine c) (e : TransitionEvent)
      (p : Payload)
      → Stored c g.world.storage d
      → d.highest_observed_time < now
      → is_exhausted now d ≡ false
      → g.in_memory_state ≡ some current
      → current.state_version ≡ d.state_version
      → (k : DecisionEngine c) × (check_time_bounds c now g ≡ (k, accepted))
        × (k.in_memory_state ≡ some current)
        × Stored c k.world.storage
            (record d { state_version = d.state_version + 1; highest_observed_time = now })
        × (dispatch c later e p k ≡ (k, refused))
  unfolding exhaust
  check_time_bounds_outdates now later d current g e p h forward live held v =
      let (t, ticked, stored) = tick-Stored now d g.world.storage h forward in
      let k : DecisionEngine c = record g { world = record g.world { storage = t } } in
      (
        k,
        moved_on now d t g h forward ticked ∙ ground (arith, live),
        held,
        stored,
        dispatch_stale later e p _ current k stored held (omega (arith, v)),
      )

  -- When the clock has moved on past the end of the grace token, the check sets the revocation
  -- flag, writes the state as expired, and leaves the state in memory expired and in step with
  -- the storage.
  pub check_time_bounds_exhausts :
      (now : ℕ) (d current : StateData) (g : DecisionEngine c)
      → Stored c g.world.storage d
      → d.highest_observed_time < now
      → is_exhausted now d ≡ true
      → g.in_memory_state ≡ some current
      → (k : DecisionEngine c) × (check_time_bounds c now g ≡ (k, accepted))
        × (k.world.revoked_flag ≡ true)
        × (k.in_memory_state
            ≡ some (record current { state = expired; state_version = d.state_version + 2 }))
        × Stored c k.world.storage (record d {
          state = expired;
          state_version = d.state_version + 2;
          highest_observed_time = now;
        })
  unfolding exhaust
  check_time_bounds_exhausts now d current g h forward over held =
      let (t, ticked, stored) = tick-Stored now d g.world.storage h forward in
      let next : StateData = record d { state = expired; highest_observed_time = now } in
      let (z, done) = commit_succeeds c now (d.state_version + 1) next _ t stored refl in
      let kept = commit-Stored c now (d.state_version + 1) next t z stored.anchored done in
      (
        record {
          world = record { storage = z; revoked_flag = true };
          in_memory_state =
              some (record current { state = expired; state_version = d.state_version + 2 });
        },
        moved_on now d t g h forward ticked ∙ ground (arith, over, held, done),
        refl,
        refl,
        rw (expired_data now d) kept,
      )
