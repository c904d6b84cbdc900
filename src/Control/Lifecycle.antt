-- ===== src/Control/Lifecycle.antt =====
-- src/state-store/persistence/adapters/LifecycleStateAdapter.mjs: the one row of
-- `system_lifecycle_state`. A time is an argument; the engine accepts the statements.
use betting_automation_contr.Prelude.{ℕ, ◌+◌, Option, none, some, String}

pub record LifecycleRow : Type 0 where
  pub desired_state : String
  pub observed_state : String
  pub generation : ℕ
  pub last_transition_at : String
  pub transition_reason : String

-- `get`, with what it returns without a row.
unfoldable pub get_state : String → Option LifecycleRow → LifecycleRow
get_state now none = record {
  desired_state = "STOPPED";
  observed_state = "STOPPED";
  generation = 1;
  last_transition_at = now;
  transition_reason = "FALLBACK_DEFAULT";
}
get_state now (some row) = row

-- `setDesiredState`.
unfoldable pub set_desired_state :
    String → String → String → Option LifecycleRow → Option LifecycleRow
set_desired_state now desired reason none = some (record {
  desired_state = desired;
  observed_state = "STOPPED";
  generation = 1;
  last_transition_at = now;
  transition_reason = reason;
})
set_desired_state now desired reason (some row) = some (record row {
  desired_state = desired;
  generation = row.generation + 1;
  last_transition_at = now;
  transition_reason = reason;
})

-- `setObservedState`, and `resetObservedStateOnBoot` with the state `STOPPED`.
unfoldable pub set_observed_state :
    String → String → String → Option LifecycleRow → Option LifecycleRow
set_observed_state now observed reason none = some (record {
  desired_state = "STOPPED";
  observed_state = observed;
  generation = 1;
  last_transition_at = now;
  transition_reason = reason;
})
set_observed_state now observed reason (some row) = some (record row {
  observed_state = observed;
  generation = row.generation + 1;
  last_transition_at = now;
  transition_reason = reason;
})
