-- ===== src/Runtime/Halted.antt =====
-- What `quarantineExecution` of src/runtime-manager/runtime-manager.mjs leaves, and what an
-- exception of the pipe leaves of it.
use betting_automation_contr.Prelude.{
  ℕ, Bool, true, false, not, ◌||◌, none, some, List, [], ◌∷◌, String, ◌≡◌, refl, arith, Bool-cases,
  inl, inr, ◌==◌,
}
use betting_automation_contr.Prelude.Dict.{get, IsDistinct}
use betting_automation_contr.Prelude.Numbers.{includes, is_empty}
use betting_automation_contr.Workspace.Quarantine.{settle_all, quarantine_all_pending-settled}
use betting_automation_contr.Runtime.State.{
  Answer, answered, raises, returned, thrown, Host, Outgoing, to_stop_cluster, Reply, replied,
  denied, failed, Effect, terminates, writes, starts_pipe, Runtimes, ensure_server_started,
  write_all, send_envelope,
}
use betting_automation_contr.Runtime.Ending.{halt, halt_after, kill_each, quarantine_execution}

abbrev pub is_answer : Answer → Bool
is_answer (answered ok) = true
is_answer raises = false

is_answer-cases : (a : Answer) → is_answer a ≡ true → (ok : Bool) × (a ≡ answered ok)
is_answer-cases (answered ok) h = (ok, refl)
is_answer-cases raises h = absurd (ground (arith, h))

module _ (Value : Type 0) where
  -- The native core was asked to end a process.
  abbrev is_end : ℕ → Effect Value → Bool
  is_end pid (terminates p) = p == pid
  is_end pid e = false

  unfoldable pub asked_to_end : ℕ → List (Effect Value) → Bool
  asked_to_end pid [] = false
  asked_to_end pid (e ∷ es) = is_end pid e || asked_to_end pid es

  pub asked-kill_each :
      (pid : ℕ) (pids : List ℕ) (log : List (Effect Value))
      → asked_to_end pid (kill_each Value pids log) ≡ (includes pid pids || asked_to_end pid log)
  unfolding kill_each includes asked_to_end
  asked-kill_each pid [] log = refl
  asked-kill_each pid (p ∷ ps) log = ground (arith, asked-kill_each pid ps (terminates p ∷ log))

  -- The execution is halted: the manager says so, has no active worker, has asked the native core
  -- to end every worker that was active, and has settled every operation. The process id of a
  -- worker that is starting and the heartbeat records stay as they were.
  pub record IsHalted (now : ℕ) (reason : String) (details : Value) (r : Runtimes Value)
      (u : Runtimes Value) : Type 0 where
    pub halted : u.engine_status ≡ "DEGRADED_HALTED"
    pub empty : u.active_runtimes ≡ []
    pub starting : u.current_starting_pid ≡ r.current_starting_pid
    pub beats : u.last_seen ≡ r.last_seen
    pub ended : (pid : ℕ) → (not (includes pid r.active_runtimes) || asked_to_end pid u.log) ≡ true
    pub settled :
        (k : String)
        → get k u.operations.operations
          ≡ settle_all Value now reason details (get k r.operations.operations)
    pub idle : u.operations.current_pending_action ≡ none

  -- What the stop of the cluster keeps.
  abbrev IsKept : Runtimes Value → Runtimes Value → Type 0
  IsKept r u =
      (u.active_runtimes ≡ r.active_runtimes)
      × (u.operations ≡ r.operations)
      × (u.current_starting_pid ≡ r.current_starting_pid)
      × (u.last_seen ≡ r.last_seen)

  halt-IsHalted :
      (now : ℕ) (reason : String) (details : Value) (r : Runtimes Value) (u : Runtimes Value)
      → IsDistinct r.operations.operations
      → u.engine_status ≡ "DEGRADED_HALTED"
      → IsKept r u
      → IsHalted now reason details r (halt Value now reason details u)
  unfolding halt asked_to_end
  halt-IsHalted now reason details r u d status (same, ops, pid_kept, beats_kept) = record {
    halted = status;
    empty = refl;
    starting = pid_kept;
    beats = beats_kept;
    ended = λ pid. ground (arith, same, asked-kill_each pid u.active_runtimes u.log);
    settled =
        λ k. rw ops (quarantine_all_pending-settled Value now reason details k r.operations d).0;
    idle = rw ops (quarantine_all_pending-settled Value now reason details "" r.operations d).1;
  }

  -- Writes that are all answered give a reply.
  write_all-replies :
      (h : Host) (t : Outgoing) (cs : List ℕ) (written : Bool) (log : List (Effect Value))
      → ((c : ℕ) → is_answer (h.write c) ≡ true)
      → (b : Bool) × ((write_all Value h t cs written log).1 ≡ some b)
  unfolding write_all
  write_all-replies h t [] written log ok = (written, refl)
  write_all-replies h t (c ∷ cs) written log ok =
      let (b, e) = is_answer-cases (h.write c) (ok c) in
      let (x, f) = write_all-replies h t cs (written || b) (writes c t ∷ log) ok in
      (x, rw (write_all, e) f)

  send_envelope-IsKept :
      (h : Host) (t : Outgoing) (r : Runtimes Value)
      → ((send_envelope Value h t r).0.engine_status ≡ r.engine_status)
        × IsKept r (send_envelope Value h t r).0
  unfolding send_envelope ensure_server_started
  send_envelope-IsKept h t r = ground arith

  send_envelope-replies :
      (h : Host) (t : Outgoing) (r : Runtimes Value)
      → ((c : ℕ) → is_answer (h.write c) ≡ true)
      → h.pipe_starts ≡ true
      → (b : Bool) × ((send_envelope Value h t r).1 ≡ replied b)
  unfolding send_envelope ensure_server_started
  send_envelope-replies h t r ok starts =
      elim (Bool-cases (r.server_started || (h.boundary_listens || h.boundary_connected))) [
        | inl e ↦
            let (b, f) = write_all-replies h t r.active_connections false r.log ok in
            (b, ground (arith, e, f))
        | inr e ↦
            let (b, f) =
              write_all-replies h t r.active_connections false (starts_pipe ∷ r.log) ok in
            (b, ground (arith, e, f, starts))
      ]

  halt_after-IsHalted :
      (now : ℕ) (reason : String) (details : Value) (r : Runtimes Value)
      (c : Runtimes Value × Reply) (b : Bool)
      → IsDistinct r.operations.operations
      → c.0.engine_status ≡ "DEGRADED_HALTED"
      → IsKept r c.0
      → c.1 ≡ replied b
      → IsHalted now reason details r (halt_after Value now reason details c).0
        × ((halt_after Value now reason details c).1 ≡ returned)
  halt_after-IsHalted now reason details r (u, replied ok) b d e f h =
      (halt-IsHalted now reason details r u d e f, refl)
  halt_after-IsHalted now reason details r (u, denied) b d e f h = absurd (ground (arith, h))
  halt_after-IsHalted now reason details r (u, failed) b d e f h = absurd (ground (arith, h))

  -- A quarantine returns with the execution halted: no worker is active, the native core has been
  -- asked to end each one that was active, whatever it answers, no action is pending, what was in
  -- flight or processing is uncertain and what was queued has failed. The process id of a worker
  -- that is starting and the heartbeat records stay as they were. The pipe starts, no write to
  -- it raises an exception, and no two operations have one id.
  pub quarantine_execution-IsHalted :
      (h : Host) (now : ℕ) (reason : String) (details : Value) (r : Runtimes Value)
      → IsDistinct r.operations.operations
      → ((c : ℕ) → is_answer (h.write c) ≡ true)
      → h.pipe_starts ≡ true
      → IsHalted now reason details r (quarantine_execution Value h now reason details r).0
        × ((quarantine_execution Value h now reason details r).1 ≡ returned)
  unfolding quarantine_execution
  quarantine_execution-IsHalted h now reason details r d ok starts =
      let marked : Runtimes Value = record r {
        engine_status = "DEGRADED_HALTED";
        active_browser_count = 0;
      } in
      let kept = send_envelope-IsKept h to_stop_cluster marked in
      let (b, e) = send_envelope-replies h to_stop_cluster marked ok starts in
      elim (Bool-cases (is_empty r.active_connections)) [
        | inl none_left ↦
            rw none_left
              (halt-IsHalted now reason details r marked d refl (refl, refl, refl, refl), refl)
        | inr some_left ↦ rw some_left (
            halt_after-IsHalted now reason details r (send_envelope Value h to_stop_cluster marked)
              b d kept.0 kept.1 e)
      ]

  -- If the stop of the cluster raises an exception, nothing else of the quarantine happens: the
  -- manager says that the execution is halted, and every worker and every operation is as it was.
  pub quarantine_execution-thrown :
      (h : Host) (now : ℕ) (reason : String) (details : Value) (r : Runtimes Value)
      → (quarantine_execution Value h now reason details r).1 ≡ thrown
      → let u = (quarantine_execution Value h now reason details r).0 in
        (u.engine_status ≡ "DEGRADED_HALTED")
        × ((u.active_runtimes ≡ r.active_runtimes) × (u.operations ≡ r.operations))
  unfolding quarantine_execution
  quarantine_execution-thrown h now reason details r e =
      let marked : Runtimes Value = record r {
        engine_status = "DEGRADED_HALTED";
        active_browser_count = 0;
      } in
      elim (Bool-cases (is_empty r.active_connections)) [
        | inl f ↦ absurd (ground (arith, f, e))
        | inr f ↦ rw f (
            go (send_envelope Value h to_stop_cluster marked)
              (let kept = send_envelope-IsKept h to_stop_cluster marked in
                (kept.0, (kept.1.0, kept.1.1)))
              (ground (arith, f, e)))
      ]
    where
      go :
          (c : Runtimes Value × Reply)
          → (c.0.engine_status ≡ "DEGRADED_HALTED")
            × ((c.0.active_runtimes ≡ r.active_runtimes) × (c.0.operations ≡ r.operations))
          → (halt_after Value now reason details c).1 ≡ thrown
          → let u = (halt_after Value now reason details c).0 in
            (u.engine_status ≡ "DEGRADED_HALTED")
            × ((u.active_runtimes ≡ r.active_runtimes) × (u.operations ≡ r.operations))
      go (u, replied ok) kept f = absurd (ground (arith, f))
      go (u, denied) kept f = kept
      go (u, failed) kept f = kept
