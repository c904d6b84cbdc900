-- ===== src/Security/Storage/Row.antt =====
-- src/security-authority/persistence/aead-storage-adapter.mjs: the singleton row of
-- `secure_state`, its read with the rollback checks, and its optimistic commit. The native
-- cipher is the parameter `Aead`; the database is open, so the calls' "not initialized" errors
-- do not occur.
use betting_automation_contr.Prelude.{
  ℕ, ◌+◌, max, Bool, true, false, not, ◌&&◌, Option, none, some, List, ◌∷◌, ◌≡◌, String, ltb, ◌==◌,
  if◌then◌else◌,
}
use betting_automation_contr.Security.State.{StateData}

-- The text `key:version:generation` that a blob is bound to.
pub record Aad : Type 0 where
  pub key : String
  pub version : ℕ
  pub generation : ℕ

-- `NativeCore.encryptAead` and `decryptAead`. Decryption inverts encryption, and whatever
-- decrypts under some associated data was encrypted under that data.
pub record Aead : Type 1 where
  pub Blob : Type 0
  pub encrypt : StateData → Aad → Blob
  pub decrypt : Blob → Aad → Option StateData
  pub decrypt_encrypt : (d : StateData) (a : Aad) → decrypt (encrypt d a) a ≡ some d
  pub authentic : (d e : StateData) (a b : Aad) → decrypt (encrypt d a) b ≡ some e → a ≡ b

pub data StorageError : Type 0 where
  integrity_failed version_rollback generation_rollback : StorageError

pub data Read : Type 0 where
  found : StateData → Read
  empty : Read
  uncertain : StorageError → Read

-- An event of the audit log; its metadata are not kept.
pub record AuditEvent : Type 0 where
  pub event_type : String
  pub severity : String
  pub result : String

module _ (c : Aead) where
  open c use {Blob, encrypt, decrypt}

  -- A row of `secure_state`.
  pub record SecureRow : Type 0 where
    pub state_version : ℕ
    pub backend_generation : ℕ
    pub server_epoch : ℕ
    pub highest_observed_time : ℕ
    pub encrypted_blob : Blob

  -- The adapter. `path_anchor` is `_pathMinVersions` at the open path (0 if absent);
  -- `transition_intent` is the native anchor (`none` if it cannot be read).
  pub record Storage : Type 0 where
    pub row : Option SecureRow
    pub on_disk : Bool
    pub min_valid_state_version : ℕ
    pub path_anchor : ℕ
    pub transition_intent : Option ℕ
    pub audit_log : List AuditEvent

  -- The key, the version and the generation that a state blob is bound to.
  abbrev pub singleton_aad : ℕ → ℕ → Aad
  singleton_aad v g = record { key = "singleton"; version = v; generation = g }

  -- `_savePersistedPathAnchor`, which does nothing for `:memory:`.
  abbrev save_path_anchor : ℕ → Storage → Storage
  save_path_anchor v s = record s { path_anchor = if s.on_disk then v else s.path_anchor }

  -- The last steps of a read: the generation check, the watermark and the injected columns.
  accept_row : Storage → SecureRow → StateData → Storage × Read
  accept_row s r d =
      if ltb 0 d.session_generation && not (r.backend_generation == d.session_generation)
      then (s, uncertain generation_rollback)
      else (
        if ltb s.min_valid_state_version r.state_version
            then save_path_anchor r.state_version
                (record s { min_valid_state_version = r.state_version })
            else s,
        found (record d {
          server_epoch = r.server_epoch;
          highest_observed_time = r.highest_observed_time;
        }),
      )

  -- The check against the native anchor: one version ahead is a commit that lost its power.
  check_intent : Storage → SecureRow → StateData → Option ℕ → Storage × Read
  check_intent s r d none = accept_row s r d
  check_intent s r d (some anchored) =
      if ltb 0 s.min_valid_state_version && (ltb 0 anchored && ltb r.state_version anchored)
      then (if anchored == r.state_version + 1
          then accept_row (record s { transition_intent = some r.state_version }) r d
          else (s, uncertain version_rollback))
      else accept_row s r d

  check_row : Storage → SecureRow → Option StateData → Storage × Read
  unfolding check_intent accept_row
  check_row s r none = (s, uncertain integrity_failed)
  check_row s r (some d) =
      let floor = max s.min_valid_state_version s.path_anchor in
      if ltb 0 floor && ltb r.state_version floor
      then (s, uncertain version_rollback)
      else check_intent s r d s.transition_intent

  read_row : Storage → Option SecureRow → Storage × Read
  unfolding check_row
  read_row s none = (s, empty)
  read_row s (some r) =
      check_row s r (decrypt r.encrypted_blob (singleton_aad r.state_version r.backend_generation))

  -- `getSecurityStateRow`.
  unfoldable pub get_security_state_row : Storage → Storage × Read
  unfolding read_row
  get_security_state_row s = read_row s s.row

  -- The row that a commit writes: the version moves on, and `x || default` fills the columns.
  -- The three column fields are deleted from the payload.
  unfoldable pub next_row : ℕ → ℕ → StateData → SecureRow
  next_row now expected d = record {
    state_version = expected + 1;
    backend_generation = d.session_generation;
    server_epoch = d.server_epoch;
    highest_observed_time = if d.highest_observed_time == 0 then now else d.highest_observed_time;
    encrypted_blob =
        encrypt
          (record d { state_version = expected + 1; server_epoch = 0; highest_observed_time = 0 })
          (singleton_aad (expected + 1) d.session_generation);
  }

  -- The watermark, the path anchor and the native anchor after a write.
  abbrev written : ℕ → SecureRow → Storage → Storage
  written expected r s = save_path_anchor (expected + 1) (record s {
    row = some r;
    min_valid_state_version = expected + 1;
    transition_intent = some (expected + 1);
  })

  -- The `UPDATE ... WHERE state_version = ?`, then the `INSERT OR IGNORE` of the first row.
  commit_over : ℕ → SecureRow → Option SecureRow → Storage → Storage × Bool
  commit_over expected r (some old) s =
      if old.state_version == expected then (written expected r s, true) else (s, false)
  commit_over expected r none s = if expected == 0 then (written expected r s, true) else (s, false)

  -- `commitTransitionWithOCC` at the clock `now`.
  unfoldable pub commit_transition_with_occ : ℕ → ℕ → StateData → Storage → Storage × Bool
  unfolding commit_over next_row
  commit_transition_with_occ now expected d s =
      commit_over expected (next_row now expected d) s.row s

  -- `writeEvent`: the newest event first, in clear.
  abbrev pub write_event : AuditEvent → Storage → Storage
  write_event e s = record s { audit_log = e ∷ s.audit_log }
