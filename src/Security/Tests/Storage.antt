-- ===== src/Security/Tests/Storage.antt =====
-- The theorems on the authenticated storage, at its first commit.
use betting_automation_contr.Prelude.{some, ◌≡◌, ◌==◌, ap, inr, refl, arith, if◌then◌else◌}
use betting_automation_contr.Security.Storage.Row.{
  Aad, Storage, SecureRow, StorageError, found, uncertain, integrity_failed, singleton_aad,
  commit_transition_with_occ, get_security_state_row,
}
use betting_automation_contr.Security.Storage.Laws.{
  row_version, committed, commit-occ, read-commit, rollback_refused, moved_blob_refused,
}
use betting_automation_contr.Security.Tests.Cipher.{boxes, running, fresh, first, first-commit}

commit-occ_example :
    ((commit_transition_with_occ boxes 10 0 running fresh).1 ≡ (row_version boxes fresh.row == 0))
    × ((commit_transition_with_occ boxes 10 0 running fresh).0 ≡ (
        if row_version boxes fresh.row == 0
        then (commit_transition_with_occ boxes 10 0 running fresh).0
        else fresh))
commit-occ_example = commit-occ boxes 10 0 running fresh

read-commit_example :
    get_security_state_row boxes first ≡ (first, found (committed boxes 10 0 running))
read-commit_example = read-commit boxes 10 0 running fresh first (inr refl) first-commit

abbrev forged : SecureRow boxes
forged = record {
  state_version = 0;
  backend_generation = 0;
  server_epoch = 0;
  highest_observed_time = 0;
  encrypted_blob = record { plain = running; bound = singleton_aad boxes 4 0 };
}

abbrev replaced : Storage boxes
replaced = record first { row = some forged }

rollback_refused_example :
    (e : StorageError) × (get_security_state_row boxes replaced ≡ (replaced, uncertain e))
rollback_refused_example =
    rollback_refused boxes 10 0 running fresh first forged first-commit (omega arith)

moved_blob_refused_example :
    get_security_state_row boxes replaced ≡ (replaced, uncertain integrity_failed)
moved_blob_refused_example =
    moved_blob_refused boxes replaced forged running (singleton_aad boxes 4 0) refl refl
      (λ e. omega (arith, ap (λ (a : Aad). a.version) e))
