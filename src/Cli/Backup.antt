-- ===== src/Cli/Backup.antt =====
-- `bypass backup` (crates/bypass-cli/src/backup.rs). gpg and the thread that drains it are
-- parameters: what they come to is an argument. The store is only read.
pub mod Archived
pub mod Restored
use mathlib.Core.Int.{ℤ}
use bypass.Prelude.{
  ℕ, ◌⊎◌, Bool, true, false, Option, none, some, List, map, length, is_empty, Outcome, ok, err,
  abort, map_err, expect, returned, if◌then◌else◌, ◌%◌,
}
use bypass.Exec.{Exec, pure, raise, lift, ◌>>=◌, ◌>>◌}
use bypass.Text.{Text, Bytes, codes}
use bypass.RelPath
use bypass.RelPath.{RelPath, PathError}
use bypass.Crypto.{KeyId, Crypto}
use bypass.Storage.{Storage}
use bypass.Vcs.{VersionControl}
use bypass.GpgId.{GpgIdError, resolve_recipients}
use bypass.Store.{Store, StoreError, list, show}
use bypass.Bundle as Bundle
use bypass.Bundle.{
  Tar, Toml, Manifest, BundleEntry, BundleError, source, write_bundle, format_version,
}

-- What `run` is given and finds outside the store; an error is represented by its text.
pub record Surroundings : Type 0 where
  pub subtree : Option Text
  pub opened : Text ⊎ (Unit {0})
  pub seconds : ℤ
  pub spawned : Text ⊎ (Unit {0})
  pub drained : Text ⊎ (Unit {0})
  pub finished : Text ⊎ (Unit {0})

-- `SE` is the store's error, `BE` that of the bundle, and `GE` that of the recipients.
pub data BackupError (SE BE GE : Type 0) : Type 0 where
  open_failed : Text → BackupError SE BE GE
  invalid_subtree : PathError → BackupError SE BE GE
  store_error : SE → BackupError SE BE GE
  no_entries : BackupError SE BE GE
  gpg_id_error : GE → BackupError SE BE GE
  gpg_failed : Text → BackupError SE BE GE
  bundle_error : BE → BackupError SE BE GE

abbrev pub below : Outcome PathError RelPath → Outcome PathError (Option RelPath)
below (ok path) = ok (some path)
below (err e) = err e
below abort = abort

-- `Option::map` of `RelPath::new`, and `transpose`.
abbrev pub subtree_path : Option Text → Outcome PathError (Option RelPath)
subtree_path none = ok none
subtree_path (some s) = below (RelPath.new s)

module _ (𝓒 : Crypto) (𝓢 : Storage) (𝓥 : VersionControl) (T : Tar) (F : Toml) where
  -- An entry that cannot be decrypted, and why.
  abbrev pub SourceError : Type 0
  SourceError = RelPath × StoreError 𝓒.Error 𝓢.Error 𝓥.Error

  abbrev pub BundleFailure : Type 0
  BundleFailure = Bundle.Error T F SourceError

  abbrev pub Failure : Type 0
  Failure = BackupError (StoreError 𝓒.Error 𝓢.Error 𝓥.Error) BundleFailure (GpgIdError 𝓢.Error)

  abbrev pub Command : Type 0 → Type 0
  Command A = Exec T.Builder Failure A

  -- The item that the iterator yields for an entry; to read the store does not change it.
  abbrev pub item_of :
      RelPath
      → Outcome (StoreError 𝓒.Error 𝓢.Error 𝓥.Error) Bytes
      → Outcome BundleFailure BundleEntry
  item_of entry (ok plaintext) = ok (record { path = entry; plaintext = plaintext })
  item_of entry (err e) = err (source (entry, e))
  item_of entry abort = abort

  abbrev pub item : Store 𝓒 𝓢 𝓥 → RelPath → Outcome BundleFailure BundleEntry
  item st entry = item_of entry (show 𝓒 𝓢 𝓥 entry st).0

  -- The number of the entries is cut to 32 bits.
  abbrev pub manifest_of : ℤ → List KeyId → List RelPath → Manifest
  manifest_of seconds recipients entries = record {
    version = format_version;
    created_at_unix = seconds;
    original_recipients = map (λ (k : KeyId). k.as_str) recipients;
    entries = length entries % 4294967296;
  }

  abbrev pub write_entries : Store 𝓒 𝓢 𝓥 → Manifest → List RelPath → Command (Unit {0})
  write_entries st manifest entries b =
      let (r, after) = write_bundle T F SourceError manifest (map (item st) entries) b in
      (map_err bundle_error r, after)

  abbrev pub root_recipients : Store 𝓒 𝓢 𝓥 → Command (List KeyId)
  root_recipients st = do
    dummy ← lift (expect (RelPath.new (codes "_")))
    lift (map_err gpg_id_error (resolve_recipients 𝓢 st.storage dummy))

  -- The number is what the user is told.
  unfoldable pub backup : Surroundings → Store 𝓒 𝓢 𝓥 → Command ℕ
  backup around st = do
    lift (map_err open_failed (returned around.opened))
    subtree ← lift (map_err invalid_subtree (subtree_path around.subtree))
    entries ← lift (map_err store_error (list 𝓒 𝓢 𝓥 subtree st).0)
    if is_empty entries then raise no_entries else pure tt
    recipients ← root_recipients st
    let manifest = manifest_of around.seconds recipients entries
    lift (map_err gpg_failed (returned around.spawned))
    write_entries st manifest entries
    lift (map_err gpg_failed (returned around.drained))
    lift (map_err gpg_failed (returned around.finished))
    pure manifest.entries
