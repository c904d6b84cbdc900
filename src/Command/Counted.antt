-- ===== src/Command/Counted.antt =====
-- What `route` and `register` of src/command/commandRouter.mjs leave in the router.
use betting_automation_contr.Prelude.{
  ◌+◌, ◌≤◌, ◌&&◌, ◌||◌, Bool-cases, Option, none, some, List, [], ◌∷◌, ◌++◌, String, ◌≡◌, ◌⊎◌, inl,
  inr, refl, arith, str_eq, eq_iff, or_else, if◌then◌else◌,
}
use betting_automation_contr.Prelude.Dict.{get, set, get-set}
use betting_automation_contr.Command.Schema.{Command, truthy}
use betting_automation_contr.Command.Router.{
  Metrics, Security, with_ids, Run, CommandRouter, Routed, text_of, handlers_for, register,
  count_received, all_handlers, finish, run_handlers, hand_out, gate, route,
}
use betting_automation_contr.Command.Gate.{
  IsAllowed, IsSilent, HandedOut, gate-HandedOut, gate_allowed, gate_denied,
}

-- No command is counted as rejected or routed twice, or without having been received.
abbrev pub IsCounted : Metrics → Type 0
IsCounted m = m.rejected + m.routed ≤ m.received

module _ {Handler : Type 0} where
  -- A registered handler is the last of its category and type, and no other list of handlers
  -- changes.
  register-handlers_for :
      (category type_ other_category other_type : String) (h : Handler) (r : CommandRouter Handler)
      → handlers_for other_category other_type (register category type_ h r) ≡ (
          if str_eq category other_category && str_eq type_ other_type
          then handlers_for category type_ r ++ (h ∷ [])
          else handlers_for other_category other_type r)
  unfolding register
  register-handlers_for category type_ other_category other_type h r =
      let types = or_else (get category r.handlers) [] in
      let listed = handlers_for category type_ r ++ (h ∷ []) in
      ground (
        arith,
        get-set category other_category (set type_ listed types) r.handlers,
        get-set type_ other_type listed types,
        eq_iff category other_category,
        eq_iff type_ other_type,
      )

module _ {Handler World Result : Type 0} (run : Run Handler World Result) where
  -- A command that is routed is handed to every handler of its type, then to every wildcard
  -- handler of its category, each on the world that the one before it left, up to the first that
  -- throws; and this only for a command that, with its ids, meets the schema, the required capability and the state of the system. In every other case
  -- the world is unchanged, and the call throws a violation or returns without results.
  pub route-HandedOut :
      (sec : Option Security) (id trace : String) (c : Command) (r : CommandRouter Handler)
      (w : World)
      → let x = route run sec id trace (some c) r w in
        let n = with_ids id trace c in
        let own = handlers_for (text_of n.category) (text_of n.type_) r in
        let wildcard = handlers_for (text_of n.category) "*" r in
        ((x.1 ≡ w) × IsSilent run x.2) ⊎ (IsAllowed sec n × HandedOut run (own ++ wildcard) n w x)
  unfolding route
  route-HandedOut sec id trace c r w = elim (Bool-cases (truthy c.category || truthy c.type_)) [
    | inr nothing ↦ inl (rw nothing refl, rw nothing tt)
    | inl given ↦ rw given (gate-HandedOut run sec (count_received r) (with_ids id trace c) w)
  ]

  -- How the router is left by a call that has received its command.
  abbrev Tallied : CommandRouter Handler → CommandRouter Handler × World × Routed Result → Type 0
  Tallied r (q, u, out) =
      (q.handlers ≡ r.handlers)
      × (q.metrics.received ≡ r.metrics.received)
      × (r.metrics.rejected + r.metrics.routed ≤ q.metrics.rejected + q.metrics.routed)
      × (q.metrics.rejected + q.metrics.routed ≤ r.metrics.rejected + r.metrics.routed + 1)

  finish-Tallied :
      (r : CommandRouter Handler) (x : World × Option (List Result)) → Tallied r (finish r x)
  finish-Tallied r (u, none) = ground arith
  finish-Tallied r (u, some xs) = ground arith

  hand_out-Tallied :
      (hs : List Handler) (r : CommandRouter Handler) (c : Command) (w : World)
      → Tallied r (hand_out run r c w hs)
  hand_out-Tallied [] r c w = ground arith
  hand_out-Tallied (h ∷ hs) r c w = finish-Tallied r (run_handlers run (h ∷ hs) c w)

  gate-Tallied :
      (sec : Option Security) (r : CommandRouter Handler) (c : Command) (w : World)
      → Tallied r (gate run sec r c w)
  gate-Tallied sec r c w = elim (gate_denied run sec r c w) [
    | inr (v, rejected) ↦ rw rejected (refl, refl, omega arith, omega arith)
    | inl allowed ↦
        rw (gate_allowed run sec r c w allowed) (hand_out-Tallied (all_handlers r c) r c w)
  ]

  -- A call counts its command once as received, and at most once as rejected or routed: so the
  -- counts of rejected and routed commands never exceed those received. The handlers stay.
  pub route-IsCounted :
      (sec : Option Security) (id trace : String) (c : Option Command) (r : CommandRouter Handler)
      (w : World)
      → IsCounted r.metrics
      → let q = (route run sec id trace c r w).0 in
        IsCounted q.metrics
        × (q.metrics.received ≡ r.metrics.received + 1)
        × (q.handlers ≡ r.handlers)
  unfolding route
  route-IsCounted sec id trace none r w h = (omega arith, refl, refl)
  route-IsCounted sec id trace (some c) r w h =
      elim (Bool-cases (truthy c.category || truthy c.type_)) [
        | inr nothing ↦ rw nothing (omega arith, refl, refl)
        | inl given ↦
            let (kept, same, _, bound) =
              gate-Tallied sec (count_received r) (with_ids id trace c) w in
            rw given (omega arith, same, kept)
      ]
