-- ===== src/Command/Degraded.antt =====
-- The router of src/command/commandRouter.mjs over the security facade of
-- src/security-authority/facade.mjs, which the singleton router asks.
use betting_automation_contr.Prelude.{
  ℕ, Bool, true, false, Option, some, String, ◌≡◌, ◌⊎◌, inl, inr, any, arith, str_eq,
}
use betting_automation_contr.Security.State.{StateData}
use betting_automation_contr.Security.Storage.Row.{Aead}
use betting_automation_contr.Security.Storage.Laws.{Stored}
use betting_automation_contr.Security.Decision.Brain.{DecisionEngine}
use betting_automation_contr.Security.Facade.Commands.{
  authorize, is_command_permitted, is_command_permitted-automated, is_degraded_state, system_state,
  automated_commands, containment_commands,
}
use betting_automation_contr.Security.Facade.Lockdown.{revoke_license}
use betting_automation_contr.Security.Facade.Revoked.{revoke_license_revokes}
use betting_automation_contr.Command.Schema.{Command}
use betting_automation_contr.Command.Router.{Security, Run, CommandRouter, with_ids, text_of, route}
use betting_automation_contr.Command.Gate.{IsAllowed, IsSilent}
use betting_automation_contr.Command.Counted.{route-HandedOut}

-- `securityFacade`, as the router asks it, at a state in memory and a revocation flag.
unfoldable pub facade : Bool → Bool → Option StateData → Security
unfolding authorize is_command_permitted
facade executing flag d = record {
  authorize = authorize executing d;
  is_command_permitted = is_command_permitted flag d;
}

with_ids-type : (id trace : String) (c : Command) → (with_ids id trace c).type_ ≡ c.type_
with_ids-type id trace c = ground arith

allowed-permitted :
    (executing flag : Bool) (d : Option StateData) (id trace : String) (c : Command)
    → IsAllowed (some (facade executing flag d)) (with_ids id trace c)
    → is_command_permitted flag d (text_of c.type_) ≡ true
unfolding facade
allowed-permitted executing flag d id trace c (_, _, permitted) =
    rw (with_ids-type id trace c) at permitted

revoked-containment :
    (flag : Bool) (d : Option StateData) (x : String)
    → flag ≡ true
    → is_command_permitted flag d x ≡ true
    → any (str_eq x) containment_commands ≡ true
unfolding is_command_permitted
revoked-containment flag d x set_ h = ground (arith, set_, h)

module _ {Handler World Result : Type 0} (run : Run Handler World Result) where
  -- While the system is degraded or the revocation flag is set, a command of automated execution
  -- reaches no handler: the world is unchanged, and the call throws a violation or returns
  -- without results.
  pub route_degraded :
      (executing flag : Bool) (d : Option StateData) (id trace : String) (c : Command)
      (r : CommandRouter Handler) (w : World)
      → (flag ≡ true) ⊎ (is_degraded_state (system_state d) ≡ true)
      → any (str_eq (text_of c.type_)) automated_commands ≡ true
      → let x = route run (some (facade executing flag d)) id trace (some c) r w in
        (x.1 ≡ w) × IsSilent run x.2
  route_degraded executing flag d id trace c r w down auto =
      elim (route-HandedOut run (some (facade executing flag d)) id trace c r w) [
        | inl silent ↦ silent
        | inr (allowed, _) ↦
            let (clear, up) =
              is_command_permitted-automated flag d (text_of c.type_) auto
                (allowed-permitted executing flag d id trace c allowed) in
            absurd (ground (arith, down, clear, up))
      ]

  -- After a revocation of the license every command but the emergency stop, the stop of the
  -- automation, the status and the health reaches no handler. The engine had started over a
  -- healthy storage.
  pub revoke_license_contains :
      (a : Aead) (now : ℕ) (g : DecisionEngine a) (m d : StateData) (executing : Bool)
      (id trace : String) (c : Command) (r : CommandRouter Handler) (w : World)
      → g.in_memory_state ≡ some m
      → Stored a g.world.storage d
      → any (str_eq (text_of c.type_)) containment_commands ≡ false
      → let h = revoke_license a now g in
        let x =
          route run
            (some (facade executing h.world.revoked_flag h.in_memory_state))
            id
            trace
            (some c)
            r
            w in
        (x.1 ≡ w) × IsSilent run x.2
  revoke_license_contains a now g m d executing id trace c r w held stored outside =
      let h = revoke_license a now g in
      let (flag, _, _) = revoke_license_revokes a now g m d held stored in
      elim (route-HandedOut run (some (facade executing h.world.revoked_flag h.in_memory_state)) id
        trace c r w) [
          | inl silent ↦ silent
          | inr (allowed, _) ↦ absurd (
              ground (
                arith,
                outside,
                revoked-containment h.world.revoked_flag h.in_memory_state (text_of c.type_) flag (
                    allowed-permitted executing h.world.revoked_flag h.in_memory_state id trace c
                      allowed),
              ))
        ]
