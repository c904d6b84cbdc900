-- ===== src/Command/Gate.antt =====
-- Which commands `route` of src/command/commandRouter.mjs hands out, to whom, and what it counts.
use betting_automation_contr.Prelude.{
  true, Bool-cases, Option, none, some, List, [], ◌∷◌, ◌≡◌, ◌⊎◌, inl, inr, refl,
}
use betting_automation_contr.Command.Schema.{Command, SchemaError, validate}
use betting_automation_contr.Command.Router.{
  Security, Violation, schema_violated, capability_missing, command_prohibited, violation,
  handler_threw, unsuccessful, succeeded, text_of, is_authorized, is_permitted, Run, CommandRouter,
  Routed, push, all_handlers, reject, run_handlers, hand_out, gate,
}

-- What a command has to meet: the schema, the capability that its type requires, and the state
-- of the system.
abbrev pub IsAllowed : Option Security → Command → Type 0
IsAllowed sec c =
    (validate c ≡ [])
    × (is_authorized sec (text_of c.type_) ≡ true)
    × (is_permitted sec (text_of c.type_) ≡ true)

module _ {Handler World Result : Type 0} (run : Run Handler World Result) where
  -- The handlers that ran, each on the world that the one before it left, with their results.
  pub data Ran (c : Command) : List Handler → World → List Result → World → Type 0 where
    done : {w : World} → Ran c [] w [] w
    next :
        {h : Handler} {hs : List Handler} {w v u : World} {x : Result} {xs : List Result}
        → run h c w ≡ (v, some x)
        → Ran c hs v xs u
        → Ran c (h ∷ hs) w (x ∷ xs) u

  -- A run that a handler cut short: those before it ran, and it threw.
  pub data Cut (c : Command) : List Handler → World → World → Type 0 where
    threw :
        {h : Handler} {hs : List Handler} {w v : World} → run h c w ≡ (v, none) → Cut c (h ∷ hs) w v
    later :
        {h : Handler} {hs : List Handler} {w v u : World} {x : Result}
        → run h c w ≡ (v, some x)
        → Cut c hs v u
        → Cut c (h ∷ hs) w u

  result-cases :
      (x : World × Option Result)
      → ((v : World) × (x ≡ (v, none))) ⊎ ((v : World) × (y : Result) × (x ≡ (v, some y)))
  result-cases (v, none) = inl (v, refl)
  result-cases (v, some y) = inr (v, y, refl)

  run_handlers-stops :
      (h : Handler) (hs : List Handler) (c : Command) (w v : World)
      → run h c w ≡ (v, none)
      → run_handlers run (h ∷ hs) c w ≡ (v, none)
  unfolding run_handlers
  run_handlers-stops h hs c w v q = rw (run_handlers, q) refl

  run_handlers-goes :
      (h : Handler) (hs : List Handler) (c : Command) (w v : World) (x : Result)
      → run h c w ≡ (v, some x)
      → run_handlers run (h ∷ hs) c w ≡ push x (run_handlers run hs c v)
  unfolding run_handlers
  run_handlers-goes h hs c w v x q = rw (run_handlers, q) refl

  -- The loop runs every handler in order, or is cut at the first that throws.
  run_handlers-Ran :
      (hs : List Handler) (c : Command) (w : World)
      → ((xs : List Result) × (u : World) × (run_handlers run hs c w ≡ (u, some xs))
          × Ran c hs w xs u)
        ⊎ ((u : World) × (run_handlers run hs c w ≡ (u, none)) × Cut c hs w u)
  unfolding run_handlers
  run_handlers-Ran [] c w = inl ([], w, refl, done)
  run_handlers-Ran (h ∷ hs) c w = elim (result-cases (run h c w)) [
    | inl (v, stopped) ↦ inr (v, run_handlers-stops h hs c w v stopped, threw stopped)
    | inr (v, x, ran) ↦ elim (run_handlers-Ran hs c v) [
      | inl (xs, u, all, rest) ↦
          inl (x ∷ xs, u, rw (run_handlers-goes h hs c w v x ran, all) refl, next ran rest)
      | inr (u, stopped, rest) ↦
          inr (u, rw (run_handlers-goes h hs c w v x ran, stopped) refl, later ran rest)
    ]
  ]

  validate-cases :
      (es : List SchemaError)
      → (es ≡ []) ⊎ ((e : SchemaError) × (fs : List SchemaError) × (es ≡ e ∷ fs))
  validate-cases [] = inl refl
  validate-cases (e ∷ fs) = inr (e, fs, refl)

  pub gate_allowed :
      (sec : Option Security) (r : CommandRouter Handler) (c : Command) (w : World)
      → IsAllowed sec c
      → gate run sec r c w ≡ hand_out run r c w (all_handlers r c)
  unfolding gate
  gate_allowed sec r c w (valid, authorized, permitted) =
      rw (gate, valid, authorized, permitted) refl

  -- A command that is not allowed is rejected with a violation, and counted.
  pub gate_denied :
      (sec : Option Security) (r : CommandRouter Handler) (c : Command) (w : World)
      → IsAllowed sec c ⊎ ((v : Violation) × (gate run sec r c w ≡ reject v r w))
  unfolding gate
  gate_denied sec r c w = elim (validate-cases (validate c)) [
    | inr (e, fs, broken) ↦ inr (schema_violated (e ∷ fs), rw (gate, broken) refl)
    | inl valid ↦ elim (Bool-cases (is_authorized sec (text_of c.type_))) [
      | inr missing ↦ inr (capability_missing, rw (gate, valid, missing) refl)
      | inl authorized ↦ elim (Bool-cases (is_permitted sec (text_of c.type_))) [
        | inr prohibited ↦ inr (command_prohibited, rw (gate, valid, authorized, prohibited) refl)
        | inl permitted ↦ inl (valid, authorized, permitted)
      ]
    ]
  ]

  -- The ways a call ends without a handler.
  abbrev pub IsSilent : Routed Result → Type 0
  IsSilent (violation v) = Unit
  IsSilent unsuccessful = Unit
  IsSilent handler_threw = ⊥
  IsSilent (succeeded xs) = ⊥

  -- What became of a command, from its end and the world after it.
  abbrev pub HandedOut :
      List Handler → Command → World → CommandRouter Handler × World × Routed Result → Type 0
  HandedOut hs c w (r, u, out) =
      ((xs : List Result) × (out ≡ succeeded xs) × Ran c hs w xs u)
      ⊎ ((out ≡ handler_threw) × Cut c hs w u)

  hand_out-HandedOut :
      (hs : List Handler) (r : CommandRouter Handler) (c : Command) (w : World)
      → let x = hand_out run r c w hs in ((x.1 ≡ w) × IsSilent x.2) ⊎ HandedOut hs c w x
  hand_out-HandedOut [] r c w = inl (refl, tt)
  hand_out-HandedOut (h ∷ hs) r c w = elim (run_handlers-Ran (h ∷ hs) c w) [
    | inl (xs, u, all, ran) ↦ inr (inl (xs, rw all refl, rw all ran))
    | inr (u, stopped, short) ↦ inr (inr (rw stopped refl, rw stopped short))
  ]

  pub gate-HandedOut :
      (sec : Option Security) (r : CommandRouter Handler) (c : Command) (w : World)
      → let x = gate run sec r c w in
        ((x.1 ≡ w) × IsSilent x.2) ⊎ (IsAllowed sec c × HandedOut (all_handlers r c) c w x)
  gate-HandedOut sec r c w = elim (gate_denied sec r c w) [
    | inr (v, rejected) ↦ inl (rw rejected refl, rw rejected tt)
    | inl allowed ↦ elim (hand_out-HandedOut (all_handlers r c) r c w) [
      | inl silent ↦ inl (rw (gate_allowed sec r c w allowed) silent)
      | inr handed ↦ inr (allowed, rw (gate_allowed sec r c w allowed) handed)
    ]
  ]
