-- ===== src/Security/Tests/Grace.antt =====
-- The theorems on the offline grace: an operator in grace, until time 50.
use betting_automation_contr.Prelude.{true, false, none, some, inr, ◌≡◌, refl}
use betting_automation_contr.Security.State.{StateData, offline_grace}
use betting_automation_contr.Security.Storage.Row.{Storage, commit_transition_with_occ}
use betting_automation_contr.Security.Storage.Laws.{Stored, committed, commit-Stored}
use betting_automation_contr.Security.Decision.Brain.{DecisionEngine}
use betting_automation_contr.Security.Tests.Cipher.{boxes, running, fresh}

abbrev graced : StateData
graced = record running {
  state = offline_grace;
  grace_token =
      some (record { machine_id = "m1"; session_generation = 0; not_after = 50; signature = none });
}

abbrev grace_storage : Storage boxes
grace_storage = (commit_transition_with_occ boxes 10 0 graced fresh).0

grace-commit : commit_transition_with_occ boxes 10 0 graced fresh ≡ (grace_storage, true)
unfolding commit_transition_with_occ
grace-commit = refl

grace-Stored : Stored boxes grace_storage (committed boxes 10 0 graced)
grace-Stored = commit-Stored boxes 10 0 graced fresh grace_storage (inr refl) grace-commit

abbrev in_memory : StateData
in_memory = record graced { state_version = 1 }

abbrev engine : DecisionEngine boxes
engine = record {
  world = record { storage = grace_storage; revoked_flag = false };
  in_memory_state = some in_memory;
}
