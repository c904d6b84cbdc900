-- ===== src/Security/Decision/Dispatches.antt =====
-- What `DecisionEngine.dispatch` of decision-engine.mjs does to the state in memory.
use betting_automation_contr.Prelude.{ℕ, some, ◌≡◌, ◌≢◌, ◌⊎◌, inl, inr, refl, arith}
use betting_automation_contr.Security.State.{StateData}
use betting_automation_contr.Security.Machine.Table.{TransitionEvent, Payload}
use betting_automation_contr.Security.Machine.Graph.{fire, IsLocked, fire-IsLocked}
use betting_automation_contr.Security.Storage.Row.{Aead}
use betting_automation_contr.Security.Engine.Transition.{
  EngineError, Outcome, success, failure, throws, World, execute_transition,
}
use betting_automation_contr.Security.Engine.Steps.{success-fire}
use betting_automation_contr.Security.Decision.Brain.{accepted, DecisionEngine, dispatch}

module _ (c : Aead) where
  pub Outcome-cases :
      (r : World c × Outcome)
      → ((u : World c) × (n : StateData) × (r ≡ (u, success n)))
        ⊎ (((u : World c) × (n : StateData) × (e : EngineError) × (r ≡ (u, failure n e)))
            ⊎ ((u : World c) × (e : EngineError) × (r ≡ (u, throws e))))
  Outcome-cases (u, success n) = inl (u, n, refl)
  Outcome-cases (u, failure n e) = inr (inl (u, n, e, refl))
  Outcome-cases (u, throws e) = inr (inr (u, e, refl))

  -- After a dispatch the state in memory is as it was, or the table accepted the event.
  pub dispatch-fire :
      (now : ℕ) (e : TransitionEvent) (p : Payload) (g : DecisionEngine c) (d : StateData)
      → g.in_memory_state ≡ some d
      → (n : StateData) × ((dispatch c now e p g).0.in_memory_state ≡ some n)
        × ((((dispatch c now e p g).1 ≢ accepted) × (n ≡ d)) ⊎ (fire d.state e p ≡ some n.state))
  unfolding dispatch
  dispatch-fire now e p g d h = elim (Outcome-cases (execute_transition c now d e p g.world)) [
    | inl (u, n, done) ↦
        (n, ground (arith, done, h), inr (success-fire c now d n e p g.world u done).0)
    | inr (inl (u, n, err, failed)) ↦
        (d, ground (arith, failed, h), inl (ground (arith, failed, h), refl))
    | inr (inr (u, err, threw)) ↦
        (d, ground (arith, threw, h), inl (ground (arith, threw, h), refl))
  ]

  -- In a locked state no dispatch is accepted.
  pub dispatch_locked :
      (now : ℕ) (e : TransitionEvent) (p : Payload) (g : DecisionEngine c) (d : StateData)
      → g.in_memory_state ≡ some d
      → IsLocked d.state
      → (dispatch c now e p g).1 ≢ accepted
  dispatch_locked now e p g d held locked =
      let (n, _, how) = dispatch-fire now e p g d held in
      elim how [
        | inl (not_accepted, _) ↦ not_accepted
        | inr fired ↦ absurd (ground (arith, fired, fire-IsLocked d.state e p locked))
      ]
