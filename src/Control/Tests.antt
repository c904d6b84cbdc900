-- ===== src/Control/Tests.antt =====
-- The theorems on starting and stopping the automation, at one worker.
use betting_automation_contr.Prelude.{inr, ℕ, true, false, some, [], ◌∷◌, ◌≡◌, refl, arith}
use betting_automation_contr.Prelude.Numbers.{includes, insert}
use betting_automation_contr.Security.Tests.Cipher.{running}
use betting_automation_contr.Security.Facade.Commands.{authorize}
use betting_automation_contr.Security.Decision.Capabilities.{distinct, without}
use betting_automation_contr.Runtime.State.{returned, cold, ensure_server_started}
use betting_automation_contr.Runtime.Spawning.{terminate_runtime, register, spawn_runtime}
use betting_automation_contr.Runtime.Heartbeat.{record_beat}
use betting_automation_contr.Runtime.Inbound.{legacy_heartbeat, handle_incoming}
use betting_automation_contr.Runtime.Waiting.{by_exit, by_frame, happen, happen_each}
use betting_automation_contr.Runtime.Waits.{is_settled}
use betting_automation_contr.Runtime.Tests.{host, waiting, served}
use betting_automation_contr.Control.Lifecycle.{get_state}
use betting_automation_contr.Control.Automation.{
  roll_back, Clock, Control, Wait, observes, begin_start, finish_start, write_each,
  start_automation, launch_automation, stop_gracefully, stop_automation,
}
use betting_automation_contr.Control.Begun.{Says}
use betting_automation_contr.Control.Started.{start_automation-failed}
use betting_automation_contr.Control.Stopped.{IsStopped, stop_automation-IsStopped}

abbrev noon : Clock
noon = record { millis = 50; iso = "12:00" }

-- After a worker was aborted.
abbrev resting : Control ℕ
resting = record {
  runtime = served;
  lifecycle = some (record {
    desired_state = "STOPPED";
    observed_state = "ABORTED";
    generation = 4;
    last_transition_at = "11:00";
    transition_reason = "PROCESS_EXIT_PID_5";
  });
  workspace = "ABORTED";
  staged_account_ids = [];
  active_account_ids = [];
  has_initialized_staging = false;
  boundary_serving = false;
}

-- A heartbeat comes in, and another part observes the automation as running.
abbrev coming_up : Wait ℕ
coming_up = record {
  events = by_frame host 60 (legacy_heartbeat 7) ∷ [];
  writes = observes "RUNNING" "EXECUTION_STATE_CHANGED" ∷ [];
}

-- The cluster does not come up.
start_automation-failed_example :
    Says ℕ "STOPPED" "STOPPED" "STOPPED"
      (start_automation ℕ host
        (some running)
        noon
        (some 7)
        []
        ("acc" ∷ [])
        coming_up
        false
        resting).0
unfolding start_automation begin_start finish_start roll_back launch_automation get_state cold
    spawn_runtime terminate_runtime authorize distinct without ensure_server_started register
    write_each happen_each happen handle_incoming record_beat includes insert
start_automation-failed_example =
    start_automation-failed ℕ host (some running) noon (some 7) [] ("acc" ∷ []) coming_up false
      resting (inr refl)

-- A worker that has been started.
abbrev busy : Control ℕ
busy = record resting { runtime = waiting; workspace = "STARTING"; boundary_serving = true }

-- The graceful stop times out while the worker still sends a heartbeat; then it exits.
abbrev no_answer : Wait ℕ
no_answer = record {
  events = by_frame host 60 (legacy_heartbeat 7) ∷ [];
  writes = observes "STOPPING" "EXECUTION_STATE_CHANGED" ∷ [];
}

abbrev exiting : Wait ℕ
exiting = record { events = by_exit 7 ∷ []; writes = [] }

stop_automation-IsStopped_example :
    IsStopped ℕ (7 ∷ []) (stop_automation ℕ host no_answer exiting noon busy).0
    × ((stop_automation ℕ host no_answer exiting noon busy).1 ≡ returned)
unfolding cold includes is_settled stop_gracefully write_each happen_each happen handle_incoming
    record_beat
stop_automation-IsStopped_example =
    stop_automation-IsStopped ℕ host no_answer exiting noon busy refl (λ k h. ground (arith, h))
