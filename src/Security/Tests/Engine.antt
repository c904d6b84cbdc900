-- ===== src/Security/Tests/Engine.antt =====
-- The theorems on one transition, at a running operator.
use betting_automation_contr.Prelude.{◌+◌, false, true, not, some, ◌≡◌, refl, arith}
use betting_automation_contr.Security.State.{StateData, operational, logging_out}
use betting_automation_contr.Security.Machine.Table.{
  Payload, empty_payload, get_transition, logout_intent,
}
use betting_automation_contr.Security.Machine.Graph.{fire}
use betting_automation_contr.Security.Storage.Laws.{Stored, committed}
use betting_automation_contr.Security.Engine.Transition.{
  World, success, occ_conflict, is_non_revoked, next_data, invariants_hold, execute_transition,
}
use betting_automation_contr.Security.Engine.Steps.{
  advanced, execute_stale, execute_succeeds, success-fire, failure_unchanged,
}
use betting_automation_contr.Security.Storage.Row.{
  get_security_state_row, commit_transition_with_occ,
}
use betting_automation_contr.Security.Tests.Cipher.{boxes, running, first, first-Stored}

abbrev world : World boxes
world = record { storage = first; revoked_flag = false }

abbrev known : StateData
known = record running { state_version = 1 }

execute_succeeds_example :
    (u : World boxes) × (execute_transition boxes 20 known logout_intent empty_payload world
      ≡ (u, success (advanced boxes known logging_out empty_payload)))
    × (u.revoked_flag ≡ not (is_non_revoked logging_out))
    × Stored boxes u.storage
        (committed boxes 20 known.state_version (next_data known logging_out empty_payload))
unfolding fire get_transition invariants_hold next_data
execute_succeeds_example =
    execute_succeeds boxes 20 known _ logout_intent empty_payload logging_out world first-Stored
      refl refl refl

abbrev after_logout : World boxes
after_logout = (execute_transition boxes 20 known logout_intent empty_payload world).0

abbrev logging : StateData
logging = record known { state = logging_out; state_version = 2 }

logout_runs :
    execute_transition boxes 20 known logout_intent empty_payload world
    ≡ (after_logout, success logging)
unfolding execute_transition get_transition next_data invariants_hold get_security_state_row
    commit_transition_with_occ
logout_runs = refl

success-fire_example :
    (fire operational logout_intent empty_payload ≡ some logging_out)
    × (2 ≡ known.state_version + 1)
    × (invariants_hold logging ≡ true)
    × (after_logout.revoked_flag ≡ not (is_non_revoked logging_out))
success-fire_example =
    success-fire boxes 20 known logging logout_intent empty_payload world after_logout logout_runs

failure_unchanged_example :
    (running ≡ running)
    × (world.storage.row ≡ world.storage.row)
    × (world.revoked_flag ≡ world.revoked_flag)
failure_unchanged_example =
    failure_unchanged boxes 20 running running logout_intent empty_payload world world occ_conflict
      (execute_stale boxes 20 running _ logout_intent empty_payload world first-Stored
        (omega arith))

abbrev revoking : Payload
revoking = record empty_payload { nonce_checked = true }
