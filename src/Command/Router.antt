-- ===== src/Command/Router.antt =====
-- src/command/commandRouter.mjs: `register` and `route`. The parameters are the handlers, which
-- act on the rest of the control plane, and the random ids. Logging, the events that the router
-- emits, and the negotiated version, which is only logged, are left out.
use betting_automation_contr.Prelude.{
  ℕ, ◌+◌, Bool, true, ◌||◌, Option, none, some, List, [], ◌∷◌, ◌++◌, String, or_else, if◌then◌else◌,
}
use betting_automation_contr.Prelude.Dict.{Dict, get, set}
use betting_automation_contr.Command.Schema.{Field, text, Command, SchemaError, truthy, validate}

-- `COMMAND_CAPABILITY_MAP`.
unfoldable pub command_capability_map : Dict String
command_capability_map =
    ("START_AUTOMATION", "CAP_AUTOMATION_START")
    ∷ ("STOP_AUTOMATION", "CAP_AUTOMATION_STOP")
    ∷ ("EMERGENCY_STOP", "CAP_AUTOMATION_STOP")
    ∷ ("FREEZE_ACCOUNT", "CAP_AUTOMATION_STOP")
    ∷ ("CANCEL_ALL_BETS", "CAP_AUTOMATION_STOP")
    ∷ ("UPDATE_GLOBAL_CONFIG", "CAP_CONFIG_MODIFY")
    ∷ ("UPDATE_ACCOUNT_CONFIG", "CAP_CONFIG_MODIFY")
    ∷ ("RESET_ACCOUNT_CONFIG", "CAP_CONFIG_MODIFY")
    ∷ ("TOGGLE_BET_CYCLE", "CAP_CONFIG_MODIFY")
    ∷ ("PLACE_BET", "CAP_TACTICAL_BET")
    ∷ ("CASH_OUT", "CAP_CASH_OUT")
    ∷ ("VALIDATE", "CAP_TACTICAL_BET")
    ∷ ("REGISTER_ACCOUNT", "CAP_CONFIG_MODIFY")
    ∷ ("ACCOUNT_ACTION", "CAP_CONFIG_MODIFY")
    ∷ ("BULK_ACTION", "CAP_CONFIG_MODIFY")
    ∷ ("ACTIVATE_ACCOUNT", "CAP_CONFIG_MODIFY")
    ∷ ("DEACTIVATE_ACCOUNT", "CAP_CONFIG_MODIFY")
    ∷ ("SYNC_ACCOUNTS", "CAP_CONFIG_MODIFY")
    ∷ ("UPDATE_PASSWORD", "CAP_CONFIG_MODIFY")
    ∷ []

pub record Metrics : Type 0 where
  pub received : ℕ
  pub rejected : ℕ
  pub routed : ℕ

-- What the router asks the security authority.
pub record Security : Type 0 where
  pub authorize : String → Bool
  pub is_command_permitted : String → Bool

pub data Violation : Type 0 where
  malformed capability_missing command_prohibited : Violation
  schema_violated : List SchemaError → Violation

-- The command with the ids that it lacks.
abbrev pub with_ids : String → String → Command → Command
with_ids id trace c =
    let named = if truthy c.id || truthy c.command_id then c else record c { id = text id } in
    let full = if truthy named.command_id then named else record named { command_id = named.id } in
    if truthy full.trace_id then full else record full { trace_id = text trace }

-- The texts that `command.type` and `command.category` are after the schema's checks.
abbrev pub text_of : Field → String
text_of (text s) = s
text_of f = ""

-- `requiredCap`; the names that every object inherits are not used as types.
unfoldable pub required_cap : String → Option String
unfolding command_capability_map get
required_cap t = get t command_capability_map

abbrev is_granted : Security → Option String → Bool
is_granted s none = true
is_granted s (some cap) = s.authorize cap

unfoldable pub is_authorized : Option Security → String → Bool
unfolding required_cap
is_authorized none t = true
is_authorized (some s) t = is_granted s (required_cap t)

abbrev pub is_permitted : Option Security → String → Bool
is_permitted none t = true
is_permitted (some s) t = s.is_command_permitted t

-- A handler acts on the world, and throws or returns a result.
abbrev pub Run : Type 0 → Type 0 → Type 0 → Type 0
Run Handler World Result = Handler → Command → World → World × Option Result

pub record CommandRouter (Handler : Type 0) : Type 0 where
  pub handlers : Dict (Dict (List Handler))
  pub metrics : Metrics

-- How a call ends: it throws a violation or the error of a handler, or it returns.
pub data Routed (Result : Type 0) : Type 0 where
  violation : Violation → Routed Result
  handler_threw unsuccessful : Routed Result
  succeeded : List Result → Routed Result

module _ {World Result : Type 0} where
  abbrev pub push : Result → World × Option (List Result) → World × Option (List Result)
  push x (w, none) = (w, none)
  push x (w, some xs) = (w, some (x ∷ xs))

  abbrev pub go_on :
      World × Option Result → (World → World × Option (List Result)) → World × Option (List Result)
  go_on (w, none) k = (w, none)
  go_on (w, some x) k = push x (k w)

module _ {Handler : Type 0} where
  abbrev pub handlers_for : String → String → CommandRouter Handler → List Handler
  handlers_for category type_ r = or_else (get type_ (or_else (get category r.handlers) [])) []

  -- `register`.
  unfoldable pub register :
      String → String → Handler → CommandRouter Handler → CommandRouter Handler
  register category type_ h r = record r {
    handlers =
        set category
          (set type_ (handlers_for category type_ r ++ (h ∷ []))
            (or_else (get category r.handlers) []))
          r.handlers;
  }

  abbrev pub count_rejected : CommandRouter Handler → CommandRouter Handler
  count_rejected r = record r { metrics = record r.metrics { rejected = r.metrics.rejected + 1 } }

  abbrev pub count_routed : CommandRouter Handler → CommandRouter Handler
  count_routed r = record r { metrics = record r.metrics { routed = r.metrics.routed + 1 } }

  abbrev pub count_received : CommandRouter Handler → CommandRouter Handler
  count_received r = record r { metrics = record r.metrics { received = r.metrics.received + 1 } }

  -- The handlers of the type, then those of every type.
  abbrev pub all_handlers : CommandRouter Handler → Command → List Handler
  all_handlers r c =
      handlers_for (text_of c.category) (text_of c.type_) r
      ++ handlers_for (text_of c.category) "*" r

module _ {Handler World Result : Type 0} where
  abbrev pub reject :
      Violation → CommandRouter Handler → World → CommandRouter Handler × World × Routed Result
  reject v r w = (count_rejected r, w, violation v)

  abbrev pub finish :
      CommandRouter Handler
      → World × Option (List Result)
      → CommandRouter Handler × World × Routed Result
  finish r (w, none) = (r, w, handler_threw)
  finish r (w, some results) = (count_routed r, w, succeeded results)

module _ {Handler World Result : Type 0} (run : Run Handler World Result) where
  -- The loop over the handlers, which ends at the first that throws.
  unfoldable pub run_handlers : List Handler → Command → World → World × Option (List Result)
  run_handlers [] c w = (w, some [])
  run_handlers (h ∷ hs) c w = go_on (run h c w) (λ v. run_handlers hs c v)

  abbrev pub hand_out :
      CommandRouter Handler
      → Command
      → World
      → List Handler
      → CommandRouter Handler × World × Routed Result
  hand_out r c w [] = (r, w, unsuccessful)
  hand_out r c w (h ∷ hs) = finish r (run_handlers (h ∷ hs) c w)

  -- `route` of a command with its ids.
  unfoldable pub gate :
      Option Security
      → CommandRouter Handler
      → Command
      → World
      → CommandRouter Handler × World × Routed Result
  unfolding validate is_authorized run_handlers
  gate sec r c w = elim (validate c) [
    | e ∷ es ↦ reject (schema_violated (e ∷ es)) r w
    | [] ↦
        if is_authorized sec (text_of c.type_)
        then (if is_permitted sec (text_of c.type_)
            then hand_out r c w (all_handlers r c)
            else reject command_prohibited r w)
        else reject capability_missing r w
  ]

  -- `route`, of what the payload was parsed to; `id` and `trace` are random.
  unfoldable pub route :
      Option Security
      → String
      → String
      → Option Command
      → CommandRouter Handler
      → World
      → CommandRouter Handler × World × Routed Result
  unfolding gate
  route sec id trace none r w = reject malformed (count_received r) w
  route sec id trace (some c) r w =
      if truthy c.category || truthy c.type_
      then gate sec (count_received r) (with_ids id trace c) w
      else (count_rejected (count_received r), w, unsuccessful)
