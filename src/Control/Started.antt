-- ===== src/Control/Started.antt =====
-- How `START_AUTOMATION` of src/command/registerCommands.mjs ends.
use betting_automation_contr.Prelude.{
  ◌⊎◌, ℕ, Bool, true, false, Option, List, String, ◌≡◌, ◌≢◌, refl, arith, inl, inr,
}
use betting_automation_contr.Security.State.{StateData}
use betting_automation_contr.Runtime.State.{Host, Runtimes, Completion, returned, thrown}
use betting_automation_contr.Runtime.Spawning.{terminate_runtime}
use betting_automation_contr.Control.Begun.{
  Says, settle_stopped-Says, begin_start-failed, begin_start-begun,
}
use betting_automation_contr.Control.Automation.{
  Start, started, degraded, already_running, spawn_failed, Clock, Control, begin_start,
  cluster_failed, end_failed, Wait, waited, after_cluster_failure, after_rollback, roll_back,
  finish_start, go_on_start, start_automation,
}

module _ (Value : Type 0) where
  go_on_start-failed :
      (h : Host) (t : Clock) (w : Wait Value) (succeeds : Bool) (x : Control Value × Start)
      → (go_on_start Value h t w succeeds x).1 ≡ spawn_failed
      → (x.1 ≡ spawn_failed) × (go_on_start Value h t w succeeds x ≡ x)
  unfolding finish_start
  go_on_start-failed h t w true (c, started p) e = absurd (ground (arith, e))
  go_on_start-failed h t w false (c, started p) e =
      absurd (go (roll_back Value h p t (waited Value t w c)) e)
    where
      go : (x : Control Value × Completion) → ¬ ((after_cluster_failure Value x).1 ≡ spawn_failed)
      go (u, thrown) h2 = absurd (ground (arith, h2))
      go (u, returned) h2 = absurd (ground (arith, h2))
  go_on_start-failed h t w succeeds (c, degraded) e = absurd (ground (arith, e))
  go_on_start-failed h t w succeeds (c, already_running) e = absurd (ground (arith, e))
  go_on_start-failed h t w succeeds (c, spawn_failed) e = (refl, refl)
  go_on_start-failed h t w succeeds (c, cluster_failed) e = absurd (ground (arith, e))
  go_on_start-failed h t w succeeds (c, end_failed) e = absurd (ground (arith, e))

  after_rollback-Says :
      (t : Clock) (c : Control Value) (s : Runtimes Value × Completion)
      → (after_cluster_failure Value (after_rollback Value t c s)).1 ≡ cluster_failed
      → Says Value "STOPPED" "STOPPED" "STOPPED"
          (after_cluster_failure Value (after_rollback Value t c s)).0
  after_rollback-Says t c (r, thrown) e = absurd (ground (arith, e))
  after_rollback-Says t c (r, returned) e = settle_stopped-Says Value t "START_CLUSTER_FAILED" _

  go_on_start-Says :
      (h : Host) (t : Clock) (w : Wait Value) (succeeds : Bool) (x : Control Value × Start)
      → x.1 ≢ cluster_failed
      → (go_on_start Value h t w succeeds x).1 ≡ cluster_failed
      → Says Value "STOPPED" "STOPPED" "STOPPED" (go_on_start Value h t w succeeds x).0
  unfolding finish_start roll_back
  go_on_start-Says h t w true (c, started p) ne e = absurd (ground (arith, e))
  go_on_start-Says h t w false (c, started p) ne e =
      let u = waited Value t w c in
      after_rollback-Says t u (terminate_runtime Value h p u.runtime) e
  go_on_start-Says h t w succeeds (c, degraded) ne e = absurd (ground (arith, e))
  go_on_start-Says h t w succeeds (c, already_running) ne e = absurd (ground (arith, e))
  go_on_start-Says h t w succeeds (c, spawn_failed) ne e = absurd (ground (arith, e))
  go_on_start-Says h t w succeeds (c, cluster_failed) ne e = absurd (ne refl)
  go_on_start-Says h t w succeeds (c, end_failed) ne e = absurd (ground (arith, e))

  -- A start whose worker cannot be spawned, or whose cluster does not come up and whose worker is
  -- then ended, leaves the automation wanted and observed as stopped, whatever happens in the wait
  -- for the cluster.
  pub start_automation-failed :
      (h : Host) (d : Option StateData) (t : Clock) (process : Option ℕ)
      (ids available : List String) (w : Wait Value) (succeeds : Bool) (c : Control Value)
      → ((start_automation Value h d t process ids available w succeeds c).1 ≡ spawn_failed)
        ⊎ ((start_automation Value h d t process ids available w succeeds c).1 ≡ cluster_failed)
      → Says Value "STOPPED" "STOPPED" "STOPPED"
          (start_automation Value h d t process ids available w succeeds c).0
  unfolding start_automation
  start_automation-failed h d t process ids available w succeeds c (inl e) =
      let begun = begin_start Value h d t process ids available c in
      let (came, result) = go_on_start-failed h t w succeeds begun e in
      rw result (begin_start-failed Value h d t process ids available c came)
  start_automation-failed h d t process ids available w succeeds c (inr e) =
      go_on_start-Says h t w succeeds (begin_start Value h d t process ids available c)
        (begin_start-begun Value h d t process ids available c) e
