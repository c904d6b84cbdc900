-- ===== src/Security/Tests/Envelope.antt =====
-- The theorems on envelopes, at one that is sent twice.
use betting_automation_contr.Prelude.{
  ℕ, ◌+◌, ◌≤◌, Bool, true, false, none, some, [], ◌∷◌, String, ◌≡◌, refl, str_eq, eq_iff, arith,
}
use betting_automation_contr.Prelude.Dict.{get, set}
use betting_automation_contr.Security.Envelope.Validator.{
  Envelope, Keys, Nonces, named, Signatures, cleanup_nonces, consume, validate_envelope,
}
use betting_automation_contr.Security.Envelope.Replays.{Run, stop, next, envelope_accepted_once}
use betting_automation_contr.Security.Envelope.Signed.{IsVerified, envelope_accepted-signed}

abbrev good : String → Envelope ℕ → String → Bool
good key e s = str_eq s "good"

abbrev keys : Keys
keys = record { pinned = some "k1"; pinned_v2 = none }

abbrev signed : Signatures
signed = record { one = some "good"; v_one = none; two = none; v_two = none }

abbrev letter : Envelope ℕ
letter = record {
  version = some 2;
  payload = some 7;
  signatures = some signed;
  timestamp = some 100_000;
  nonce = some (named "n1");
}

abbrev other_letter : Envelope ℕ
other_letter = record letter { nonce = some (named "n2") }

abbrev nothing_used : Nonces
nothing_used = record { texts = []; values = []; objects = [] }

abbrev after_one : Nonces
after_one = record nothing_used { texts = ("n1", 410_000) ∷ [] }

abbrev after_two : Nonces
after_two = (validate_envelope good keys 120_000 other_letter after_one).0

accepts_letter : validate_envelope good keys 110_000 letter nothing_used ≡ (after_one, true)
unfolding validate_envelope consume cleanup_nonces get set
accepts_letter = refl

nonce_named : ¬ (Path String "n1" "")
nonce_named = λ h. absurd (ground (arith, (eq_iff "n1" "").1 h))

between : Run good 110_000 after_one 120_000 after_two
between = next keys 120_000 other_letter (omega arith) stop

envelope_accepted_once_example : (validate_envelope good keys 130_000 letter after_two).1 ≡ false
envelope_accepted_once_example =
    envelope_accepted_once good keys keys 110_000 100_000 120_000 130_000 letter letter "n1"
      nothing_used after_one after_two refl nonce_named refl accepts_letter between (omega arith)
      refl refl

envelope_accepted-signed_example :
    (letter.version ≡ some 2)
    × ((ts : ℕ) × (letter.timestamp ≡ some ts) × (ts ≤ 110_000 + 60_000) × (110_000 ≤ ts + 60_000))
    × IsVerified good keys letter letter.signatures
envelope_accepted-signed_example =
    envelope_accepted-signed good keys 110_000 letter nothing_used after_one accepts_letter
