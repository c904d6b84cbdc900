-- ===== src/Security/Tests/Facade.antt =====
-- The theorems on the facade, at a running operator.
use betting_automation_contr.Prelude.{
  true, false, none, some, [], ◌∷◌, String, ◌≡◌, ◌≢◌, refl, any, ap, eq_iff, str_eq, arith,
}
use betting_automation_contr.Security.State.{StateData, operational}
use betting_automation_contr.Security.Machine.Table.{empty_payload, login_intent}
use betting_automation_contr.Security.Storage.Laws.{Stored, committed}
use betting_automation_contr.Security.Decision.Brain.{
  DecisionEngine, accepted, dispatch, start_engine,
}
use betting_automation_contr.Security.Decision.Capabilities.{distinct, without}
use betting_automation_contr.Security.Facade.Sessions.{
  Surroundings, AuthPayload, result_operational, is_license_valid, session_data, authorization_data,
  expand_caps,
}
use betting_automation_contr.Security.Facade.Lockdown.{establish_session, revoke_license}
use betting_automation_contr.Security.Facade.Commands.{is_command_permitted, containment_commands}
use betting_automation_contr.Security.Facade.Revoked.{revoke_license_lasts}
use betting_automation_contr.Security.Facade.Logins.{establish_session_succeeds}
use betting_automation_contr.Security.Tests.Cipher.{boxes, running, first, first-Stored}

abbrev pub held_running : StateData
held_running = record running { state_version = 1 }

abbrev pub working : DecisionEngine boxes
working = record {
  world = record { storage = first; revoked_flag = false };
  in_memory_state = some held_running;
}

abbrev pub stored_running : StateData
stored_running = committed boxes 10 0 running

abbrev rebooted : DecisionEngine boxes
rebooted = record {
  world = record {
    storage = (revoke_license boxes 50 working).world.storage;
    revoked_flag = false;
  };
  in_memory_state = none;
}

revoke_license_lasts_example :
    let h = start_engine boxes 60 61 62 true rebooted in
    (h.1 ≡ accepted)
    × (h.0.world.revoked_flag ≡ true)
    × ((dispatch boxes 70 login_intent empty_payload h.0).1 ≢ accepted)
    × (is_command_permitted h.0.world.revoked_flag h.0.in_memory_state "PLACE_BET"
        ≡ any (str_eq "PLACE_BET") containment_commands)
revoke_license_lasts_example =
    revoke_license_lasts boxes 50 60 61 62 70 true working rebooted held_running stored_running
      login_intent empty_payload "PLACE_BET" refl first-Stored refl

abbrev surroundings : Surroundings
surroundings = record {
  now = 100;
  production = false;
  signature_valid = false;
  machine_valid = true;
}

abbrev bettor : AuthPayload
bettor = record {
  session_id = "s2";
  account_id = some "bob";
  expires_in_ms = none;
  capabilities = some ("CAP_TACTICAL_BET" ∷ []);
  license = none;
}

bettor-valid : is_license_valid surroundings bettor ≡ true
unfolding is_license_valid expand_caps distinct without
bettor-valid = refl

bettor_named : bettor.session_id ≢ ""
bettor_named = λ h. absurd (ground (arith, (eq_iff "s2" "").1 h))

establish_session_succeeds_example :
    (h : DecisionEngine boxes) × (establish_session boxes surroundings bettor working
      ≡ (h, result_operational))
    × (h.world.revoked_flag ≡ false)
    × ((n : StateData) × (h.in_memory_state ≡ some n)
        × (n.state ≡ operational)
        × (n.session ≡ some (session_data surroundings bettor))
        × (n.authorization ≡ some (authorization_data surroundings bettor)))
    × ((r : StateData) × Stored boxes h.world.storage r × (r.state ≡ operational))
establish_session_succeeds_example =
    establish_session_succeeds boxes surroundings bettor working held_running stored_running refl
      first-Stored refl refl bettor-valid bettor_named

abbrev logged_in : DecisionEngine boxes
logged_in = (establish_session boxes surroundings bettor working).0

logged_in_runs :
    establish_session boxes surroundings bettor working ≡ (logged_in, result_operational)
logged_in_runs =
    let (h, run, _, _, _) =
      establish_session_succeeds boxes surroundings bettor working held_running stored_running refl
        first-Stored refl refl bettor-valid bettor_named in
    ap (λ x. (logged_in, x)) (ap (λ x. x.1) run)

other_reason : ¬ (Path String "BACKEND_UNREACHABLE" "OFFLINE_GRACE")
other_reason = λ h. absurd (ground (arith, (eq_iff "BACKEND_UNREACHABLE" "OFFLINE_GRACE").1 h))
