-- ===== src/Security/Storage/Laws.antt =====
-- What the reads and commits of persistence/aead-storage-adapter.mjs guarantee.
use betting_automation_contr.Prelude.{
  ℕ, ◌+◌, ◌≤◌, ◌<◌, true, false, Option-cases, Option, none, some, ◌≡◌, ◌≢◌, ◌⊎◌, inl, inr, arith,
  ◌==◌, if◌then◌else◌, refl,
}
use betting_automation_contr.Security.State.{StateData}
use betting_automation_contr.Security.Storage.Row.{
  Aad, Aead, StorageError, version_rollback, integrity_failed, found, uncertain, SecureRow, Storage,
  singleton_aad, get_security_state_row, commit_transition_with_occ, write_event, AuditEvent,
}

module _ (c : Aead) where
  open c use {encrypt, decrypt, decrypt_encrypt, authentic}

  -- An in-memory database has no path anchor, as `_savePersistedPathAnchor` leaves it.
  abbrev pub IsAnchored : Storage c → Type 0
  IsAnchored s = (s.on_disk ≡ true) ⊎ (s.path_anchor ≡ 0)

  -- The version that a commit has to name: 0 before the first row.
  abbrev pub row_version : Option (SecureRow c) → ℕ
  row_version none = 0
  row_version (some r) = r.state_version

  -- What a commit of `d` over version `expected` stores for the readers.
  abbrev pub committed : ℕ → ℕ → StateData → StateData
  committed now expected d = record d {
    state_version = expected + 1;
    highest_observed_time = if d.highest_observed_time == 0 then now else d.highest_observed_time;
  }

  -- A commit succeeds exactly when the version that it names is the stored one (0 before the
  -- first row), and a refused commit changes nothing.
  pub commit-occ :
      (now expected : ℕ) (d : StateData) (s : Storage c)
      → ((commit_transition_with_occ c now expected d s).1 ≡ (row_version s.row == expected))
        × ((commit_transition_with_occ c now expected d s).0 ≡ (
            if row_version s.row == expected
            then (commit_transition_with_occ c now expected d s).0
            else s))
  unfolding commit_transition_with_occ
  commit-occ now expected d s = ground arith

  -- Of two writers that read the same version, the second is refused: no update is lost.
  commit_twice :
      (now later expected : ℕ) (d e : StateData) (s t : Storage c)
      → commit_transition_with_occ c now expected d s ≡ (t, true)
      → commit_transition_with_occ c later expected e t ≡ (t, false)
  unfolding commit_transition_with_occ
  commit_twice now later expected d e s t h = ground arith

  -- A read after a successful commit returns the committed state, under the next version and
  -- with the clock in place of a missing highest observed time, and leaves the storage alone.
  -- The storage is in memory without a path anchor, or on disk.
  pub read-commit :
      (now expected : ℕ) (d : StateData) (s t : Storage c)
      → IsAnchored s
      → commit_transition_with_occ c now expected d s ≡ (t, true)
      → get_security_state_row c t ≡ (t, found (committed now expected d))
  unfolding commit_transition_with_occ get_security_state_row
  read-commit now expected d s t a h =
      let stored : StateData = record d {
        state_version = expected + 1;
        server_epoch = 0;
        highest_observed_time = 0;
      } in
      ground (arith, decrypt_encrypt stored (singleton_aad c (expected + 1) d.session_generation))

  read_stale :
      (s : Storage c) (r : SecureRow c)
      → s.row ≡ some r
      → r.state_version < s.min_valid_state_version
      → (e : StorageError) × (get_security_state_row c s ≡ (s, uncertain e))
  unfolding get_security_state_row
  read_stale s r h lt =
      elim (Option-cases
        (decrypt r.encrypted_blob (singleton_aad c r.state_version r.backend_generation))) [
          | inl failed ↦ (integrity_failed, ground arith)
          | inr (d, opened) ↦ (version_rollback, ground arith)
        ]

  commit-watermark :
      (now expected : ℕ) (d : StateData) (s t : Storage c)
      → commit_transition_with_occ c now expected d s ≡ (t, true)
      → t.min_valid_state_version ≡ expected + 1
  unfolding commit_transition_with_occ
  commit-watermark now expected d s t h = ground arith

  -- After a successful commit, putting back any row of the replaced version or an older one,
  -- whatever its blob, makes the next read fail and changes nothing.
  pub rollback_refused :
      (now expected : ℕ) (d : StateData) (s t : Storage c) (r : SecureRow c)
      → commit_transition_with_occ c now expected d s ≡ (t, true)
      → r.state_version ≤ expected
      → (e : StorageError) × (get_security_state_row c (record t { row = some r })
          ≡ (record t { row = some r }, uncertain e))
  rollback_refused now expected d s t r h le =
      read_stale (record t { row = some r }) r refl
        (omega (arith, commit-watermark now expected d s t h))

  -- A blob that was encrypted for another key, version or generation than those of its row is
  -- refused as tampered.
  pub moved_blob_refused :
      (s : Storage c) (r : SecureRow c) (d : StateData) (a : Aad)
      → s.row ≡ some r
      → r.encrypted_blob ≡ encrypt d a
      → a ≢ (record {
        key = "singleton";
        version = r.state_version;
        generation = r.backend_generation;
      })
      → get_security_state_row c s ≡ (s, uncertain integrity_failed)
  unfolding get_security_state_row
  moved_blob_refused s r d a h blob moved =
      elim (Option-cases
        (decrypt r.encrypted_blob (singleton_aad c r.state_version r.backend_generation))) [
          | inl failed ↦ ground arith
          | inr (e, opened) ↦ absurd (moved (authentic d e a _ (rw (← blob) opened)))
        ]

  -- What a healthy storage holds: a read returns `d`, changes nothing, and names the version of
  -- the row.
  pub record Stored (s : Storage c) (d : StateData) : Type 0 where
    pub readable : get_security_state_row c s ≡ (s, found d)
    pub versioned : row_version s.row ≡ d.state_version
    pub anchored : IsAnchored s

  pub commit-Stored :
      (now expected : ℕ) (d : StateData) (s t : Storage c)
      → IsAnchored s
      → commit_transition_with_occ c now expected d s ≡ (t, true)
      → Stored t (committed now expected d)
  unfolding commit_transition_with_occ
  commit-Stored now expected d s t a h = record {
    readable = read-commit now expected d s t a h;
    versioned = ground arith;
    anchored = ground arith;
  }

  pub write_event-Stored :
      (e : AuditEvent) (s : Storage c) (d : StateData) → Stored s d → Stored (write_event c e s) d
  unfolding get_security_state_row
  write_event-Stored e s d h = record {
    readable = ground (arith, h.readable);
    versioned = h.versioned;
    anchored = h.anchored;
  }

  -- Over a healthy storage a commit that names the stored version succeeds.
  pub commit_succeeds :
      (now expected : ℕ) (d e : StateData) (s : Storage c)
      → Stored s e
      → expected ≡ e.state_version
      → (t : Storage c) × (commit_transition_with_occ c now expected d s ≡ (t, true))
  unfolding commit_transition_with_occ
  commit_succeeds now expected d e s h v =
      ((commit_transition_with_occ c now expected d s).0, ground (arith, h.versioned))

  pub commit_refused :
      (now expected : ℕ) (d : StateData) (s : Storage c)
      → (commit_transition_with_occ c now expected d s).1 ≡ false
      → (commit_transition_with_occ c now expected d s).0 ≡ s
  unfolding commit_transition_with_occ
  commit_refused now expected d s h = ground arith

  pub row-get_security_state_row : (s : Storage c) → (get_security_state_row c s).0.row ≡ s.row
  unfolding get_security_state_row
  row-get_security_state_row s = ground arith
