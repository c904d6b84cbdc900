-- ===== src/Runtime/State.antt =====
-- src/runtime-manager/runtime-manager.mjs: the state of the manager, its pipe server and the
-- envelopes that it sends.
use betting_automation_contr.Prelude.{
  ℕ, Bool, true, false, ◌||◌, Option, none, some, List, [], ◌∷◌, String, if◌then◌else◌,
}
use betting_automation_contr.Workspace.Tracker.{Operation, Tracker}
use betting_automation_contr.Runtime.Heartbeat.{LastSeen}

-- The types of the envelopes that the manager sends.
pub data Outgoing : Type 0 where
  to_initialize to_start_cluster to_stop_cluster to_place_bet to_cash_out to_validate : Outgoing
  to_activate to_deactivate to_set_bet_cycle to_update_policy to_get_readiness : Outgoing

-- What a call of the native core gives: its answer, or an exception.
pub data Answer : Type 0 where
  answered : Bool → Answer
  raises : Answer

-- Whether a call returns, or throws.
pub data Completion : Type 0 where
  returned thrown : Completion

-- What a call that sends an envelope gives.
pub data Reply : Type 0 where
  replied : Bool → Reply
  denied failed : Reply

-- The native core and the boundary manager as a call finds them.
pub record Host : Type 0 where
  pub pipe_starts : Bool
  pub write : ℕ → Answer
  pub kill : ℕ → Answer
  pub boundary_listens : Bool
  pub boundary_connected : Bool

-- Which of the typed calls ask first whether the control plane is degraded.
unfoldable pub is_guarded : Outgoing → Bool
is_guarded to_initialize = false
is_guarded to_stop_cluster = false
is_guarded to_get_readiness = false
is_guarded t = true

module _ (Value : Type 0) where
  -- What the manager asks of the native core and tells the other parts.
  pub data Effect : Type 0 where
    starts_pipe stops_pipe : Effect
    writes : ℕ → Outgoing → Effect
    spawns terminates : ℕ → Effect
    runtime_exited handshake_timed_out aborts_connection : ℕ → Effect
    state_change lifecycle_changed : String → Effect
    readiness_changed : Value → Effect
    operation_completed : String → Effect
    uncertain_operations : List (Operation Value) → Effect
    forwards routes : Effect

  -- `RuntimeManager`, with the heartbeats and the operations that it shares, the handshake timers
  -- and `clientConnected` listeners of its starts by process id, and its effects, newest first.
  pub record Runtimes : Type 0 where
    pub active_runtimes : List ℕ
    pub active_connections : List ℕ
    pub server_started : Bool
    pub engine_status : String
    pub active_browser_count : ℕ
    pub latest_fleet_readiness : Option Value
    pub current_starting_pid : Option ℕ
    pub exit_deferred : List ℕ
    pub last_seen : LastSeen
    pub operations : Tracker Value
    pub handshake_timers : List ℕ
    pub connect_listeners : List ℕ
    pub log : List Effect

  -- `constructor`.
  unfoldable pub cold : Runtimes
  cold = record {
    active_runtimes = [];
    active_connections = [];
    server_started = false;
    engine_status = "OFFLINE";
    active_browser_count = 0;
    latest_fleet_readiness = none;
    current_starting_pid = none;
    exit_deferred = [];
    last_seen = [];
    operations = record { current_pending_action = none; operations = [] };
    handshake_timers = [];
    connect_listeners = [];
    log = [];
  }

  abbrev pub tell : Effect → Runtimes → Runtimes
  tell e r = record r { log = e ∷ r.log }

  -- `stopServer`.
  unfoldable pub stop_server : Runtimes → Runtimes
  stop_server r =
      if r.server_started
      then record r { server_started = false; active_connections = []; log = stops_pipe ∷ r.log }
      else record r { active_connections = [] }

  -- `ensureServerStarted`.
  unfoldable pub ensure_server_started : Host → Runtimes → Runtimes × Completion
  ensure_server_started h r =
      if r.server_started || (h.boundary_listens || h.boundary_connected)
      then (r, returned)
      else (if h.pipe_starts
          then (record r { server_started = true; log = starts_pipe ∷ r.log }, returned)
          else (r, thrown))

  -- The loop of `sendEnvelope` over the connections: the effects, and whether any was written.
  unfoldable pub write_all :
      Host → Outgoing → List ℕ → Bool → List Effect → List Effect × Option Bool
  write_all h t [] written log = (log, some written)
  write_all h t (c ∷ cs) written log = elim (h.write c) [
    | answered ok ↦ write_all h t cs (written || ok) (writes c t ∷ log)
    | raises ↦ (writes c t ∷ log, none)
  ]

  abbrev pub after_writes : Runtimes → List Effect × Option Bool → Runtimes × Reply
  after_writes r (log, some written) = (record r { log = log }, replied written)
  after_writes r (log, none) = (record r { log = log }, failed)

  abbrev pub send_on : Host → Outgoing → Runtimes × Completion → Runtimes × Reply
  send_on h t (r, returned) = after_writes r (write_all h t r.active_connections false r.log)
  send_on h t (r, thrown) = (r, failed)

  -- `sendEnvelope`.
  unfoldable pub send_envelope : Host → Outgoing → Runtimes → Runtimes × Reply
  send_envelope h t r = send_on h t (ensure_server_started h r)

  -- The typed calls, from `initializeWorker` to `getFleetReadiness`. `degraded` is the answer of
  -- `securityFacade.isDegraded`.
  unfoldable pub call : Bool → Host → Outgoing → Runtimes → Runtimes × Reply
  unfolding is_guarded
  call degraded h t r = elim (is_guarded t) [
    | true ↦ if degraded then (r, denied) else send_envelope h t r
    | false ↦ send_envelope h t r
  ]
