-- ===== src/Security/Tests/Cipher.antt =====
-- A cipher that meets the laws of `Aead`: a blob is the plaintext with its associated data.
use betting_automation_contr.Prelude.{
  inr, Bool, true, false, [], ◌∷◌, ◌&&◌, Option, none, some, ◌≡◌, refl, str_eq, eq_iff, ◌==◌, arith,
  if◌then◌else◌,
}
use betting_automation_contr.Security.State.{
  StateData, Session, Authorization, uninitialized, operational,
}
use betting_automation_contr.Security.Storage.Row.{Aad, Aead, Storage, commit_transition_with_occ}
use betting_automation_contr.Security.Storage.Laws.{Stored, committed, commit-Stored}

pub record Box : Type 0 where
  pub plain : StateData
  pub bound : Aad

abbrev same_aad : Aad → Aad → Bool
same_aad a b = str_eq a.key b.key && ((a.version == b.version) && (a.generation == b.generation))

abbrev open_box : Box → Aad → Option StateData
open_box x b = if same_aad x.bound b then some x.plain else none

pub open-seal : (d : StateData) (a : Aad) → open_box (record { plain = d; bound = a }) a ≡ some d
open-seal d a = ground (arith, eq_iff a.key a.key)

pub open-authentic :
    (d e : StateData) (a b : Aad) → open_box (record { plain = d; bound = a }) b ≡ some e → a ≡ b
open-authentic d e a b h = ground (arith, eq_iff a.key b.key)

abbrev pub boxes : Aead
boxes = record {
  Blob = Box;
  encrypt = λ d a. record { plain = d; bound = a };
  decrypt = open_box;
  decrypt_encrypt = open-seal;
  authentic = open-authentic;
}

abbrev pub alice : Session
alice = record {
  session_id = "s1";
  status = "AUTHENTICATED";
  user_id = "alice";
  expires_at = 900;
  renew_after = none;
}

abbrev pub entitled : Authorization
entitled = record { status = "VALID"; capability_set = "CAP_AUTOMATION_START" ∷ [] }

abbrev pub blank : StateData
blank = record {
  state = uninitialized;
  state_version = 0;
  session = none;
  authorization = none;
  license = none;
  grace_token = none;
  session_generation = 0;
  server_epoch = 0;
  highest_observed_time = 0;
}

-- A running operator, before its first commit.
abbrev pub running : StateData
running = record blank { state = operational; session = some alice; authorization = some entitled }

abbrev pub fresh : Storage boxes
fresh = record {
  row = none;
  on_disk = false;
  min_valid_state_version = 0;
  path_anchor = 0;
  transition_intent = none;
  audit_log = [];
}

-- The storage after the first commit.
abbrev pub first : Storage boxes
first = (commit_transition_with_occ boxes 10 0 running fresh).0

pub first-commit : commit_transition_with_occ boxes 10 0 running fresh ≡ (first, true)
unfolding commit_transition_with_occ
first-commit = refl

pub first-Stored : Stored boxes first (committed boxes 10 0 running)
first-Stored = commit-Stored boxes 10 0 running fresh first (inr refl) first-commit
