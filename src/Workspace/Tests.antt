-- ===== src/Workspace/Tests.antt =====
-- The theorems on src/state/, at concrete inputs.
use betting_automation_contr.Prelude.{ℕ, true, none, some, [], ◌≡◌, refl}
use betting_automation_contr.Prelude.Dict.{get, set, IsDistinct}
use betting_automation_contr.Workspace.Tracker.{
  Tracker, placing_bet, cashing_out, op_in_flight, start_operation, update_status, change,
}
use betting_automation_contr.Workspace.Capabilities.{
  Params, Lifecycle, resolve, includes, flags, token_map,
}

abbrev no_operation : Tracker ℕ
no_operation = record { current_pending_action = none; operations = [] }

-- A bet in flight and a cash-out that is queued.
abbrev busy : Tracker ℕ
busy =
    start_operation ℕ 20 "op_2" cashing_out 0
      (update_status ℕ "op_1" op_in_flight (start_operation ℕ 10 "op_1" placing_bet 0 no_operation))

busy-IsDistinct : IsDistinct busy.operations
unfolding start_operation update_status change get set
busy-IsDistinct = (refl, (refl, tt))

abbrev betting : Params
betting = record {
  lifecycle = Lifecycle.running;
  is_authorized = true;
  authorization_reason = none;
  has_active_runtime = true;
  active_browsers = 2;
  max_capacity = 2;
  global_action_pending = some "PLACING_BET";
  total_configured_accounts = 2;
}

-- A name that every object inherits is answered like a granted capability.
includes_inherited : includes "toString" (resolve betting) ≡ true
unfolding includes flags token_map get
includes_inherited = refl
