-- ===== src/Security/Tests/Decision.antt =====
-- The theorems on the decision engine, at a start over the row of a running operator.
use betting_automation_contr.Prelude.{true, false, not, ◌&&◌, ◌||◌, none, some, ◌≡◌, refl, str_eq}
use betting_automation_contr.Security.State.{StateData, revoked}
use betting_automation_contr.Security.Storage.Row.{
  found, Storage, get_security_state_row, commit_transition_with_occ,
}
use betting_automation_contr.Security.Engine.Transition.{capability_set}
use betting_automation_contr.Security.Decision.Brain.{
  DecisionEngine, accepted, starts_clear, start_engine, restart, boot,
}
use betting_automation_contr.Security.Decision.Starts.{is_start_state, start_engine-Started}
use betting_automation_contr.Security.Decision.Capabilities.{
  get_current_capabilities, get_current_capabilities-grants, has_cap, may_operate, is_valid,
  is_strict,
}
use betting_automation_contr.Security.Tests.Cipher.{boxes, running, fresh, first}

abbrev unbooted : Storage boxes → DecisionEngine boxes
unbooted s = record { world = record { storage = s; revoked_flag = false }; in_memory_state = none }

abbrev booted : DecisionEngine boxes
booted = (start_engine boxes 20 21 22 true (unbooted first)).0

start_runs : start_engine boxes 20 21 22 true (unbooted first) ≡ (booted, accepted)
unfolding start_engine boot restart get_security_state_row commit_transition_with_occ
start_runs = refl

start_engine-Started_example :
    (d : StateData) × (booted.in_memory_state ≡ some d)
    × (is_start_state d.state ≡ true)
    × (booted.world.revoked_flag ≡ not (starts_clear d.state))
start_engine-Started_example =
    start_engine-Started boxes 20 21 22 true (unbooted first) booted start_runs

abbrev banned : Storage boxes
banned = (commit_transition_with_occ boxes 10 0 (record running { state = revoked }) fresh).0

abbrev banned_data : StateData
banned_data = record running { state = revoked; state_version = 1; highest_observed_time = 10 }

banned_reads : get_security_state_row boxes banned ≡ (banned, found banned_data)
unfolding get_security_state_row commit_transition_with_occ
banned_reads = refl

get_current_capabilities-grants_example :
    has_cap "CAP_AUTOMATION_START" (get_current_capabilities true (some running)) ≡ (
      str_eq "CAP_AUTOMATION_START" "CAP_AUTOMATION_STOP"
      || ((may_operate running.state && is_valid running.authorization)
          && ((has_cap "CAP_AUTOMATION_START" (capability_set running.authorization)
                || (not (is_strict running.license)
                    && (str_eq "CAP_AUTOMATION_START" "CAP_CONFIG_MODIFY"
                        || str_eq "CAP_AUTOMATION_START" "CAP_ACCOUNT_MANAGE")))
              && not (true && str_eq "CAP_AUTOMATION_START" "CAP_AUTOMATION_START"))))
get_current_capabilities-grants_example =
    get_current_capabilities-grants "CAP_AUTOMATION_START" true running
