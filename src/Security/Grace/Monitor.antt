-- ===== src/Security/Grace/Monitor.antt =====
-- src/security-authority/time/offline-grace.mjs: the periodic check of the clock and of the end of
-- the offline grace, which writes to the storage beside the transition engine.
use betting_automation_contr.Prelude.{
  ℕ, ◌+◌, Bool, true, false, ◌&&◌, Option, none, some, ltb, if◌then◌else◌,
}
use betting_automation_contr.Security.State.{
  SecurityState, StateData, GraceToken, offline_grace, expired,
}
use betting_automation_contr.Security.Storage.Row.{
  Aead, Read, found, empty, uncertain, Storage, get_security_state_row, commit_transition_with_occ,
}
use betting_automation_contr.Security.Decision.Brain.{
  Reply, accepted, thrown, DecisionEngine, set_revoked,
}

-- `row.state === "OFFLINE_GRACE" && row.graceTokenData`, with the bound of the token passed.
abbrev pub is_in_grace : SecurityState → Bool
is_in_grace offline_grace = true
is_in_grace s = false

abbrev pub is_past : ℕ → Option GraceToken → Bool
is_past now none = false
is_past now (some t) = ltb t.not_after now

abbrev pub is_exhausted : ℕ → StateData → Bool
is_exhausted now d = is_in_grace d.state && is_past now d.grace_token

module _ (c : Aead) where
  -- `SecurityState` in memory becomes expired; the version follows only a commit.
  abbrev pub expire_memory : ℕ → Bool → Option StateData → Option StateData
  expire_memory version done none = none
  expire_memory version done (some d) =
      some (record d {
        state = expired;
        state_version = if done then version + 1 else d.state_version;
      })

  -- The end of the grace, over the storage and the version after the tick.
  unfoldable pub exhaust : ℕ → StateData → DecisionEngine c → Storage c × Bool → DecisionEngine c
  exhaust now row g (s, ticked) =
      let version = if ticked then row.state_version + 1 else row.state_version in
      let next : StateData = record row { state = expired; highest_observed_time = now } in
      let (z, done) = commit_transition_with_occ c now version next s in
      if is_exhausted now row
      then record {
        world = record { storage = z; revoked_flag = true };
        in_memory_state = expire_memory version done g.in_memory_state;
      }
      else record g { world = record g.world { storage = s } }

  -- The commit of the time, if the clock has moved on.
  unfoldable pub time_tick : ℕ → StateData → Storage c → Storage c × Bool
  time_tick now row s =
      if ltb row.highest_observed_time now
      then commit_transition_with_occ c now row.state_version
          (record row { highest_observed_time = now }) s
      else (s, false)

  bounds_row : ℕ → DecisionEngine c → Storage c × Read → DecisionEngine c × Reply
  unfolding exhaust time_tick
  bounds_row now g (s, empty) = (record g { world = record g.world { storage = s } }, accepted)
  bounds_row now g (s, uncertain e) = (record g { world = record g.world { storage = s } }, thrown)
  bounds_row now g (s, found row) =
      if ltb now row.highest_observed_time
      then (set_revoked c true (record g { world = record g.world { storage = s } }), thrown)
      else (exhaust now row g (time_tick now row s), accepted)

  -- `_checkTimeBounds` at the clock `now`.
  unfoldable pub check_time_bounds : ℕ → DecisionEngine c → DecisionEngine c × Reply
  unfolding bounds_row
  check_time_bounds now g = bounds_row now g (get_security_state_row c g.world.storage)
