-- ===== src/Cli/Restore.antt =====
-- `bypass restore` (crates/bypass-cli/src/restore.rs). gpg, the pump that feeds it and the look at
-- the files of git are parameters: what they come to is an argument.
pub mod Committed
pub mod Kept
pub mod Shown
use bypass.Prelude.{
  ℕ, ◌⊎◌, inl, inr, Bool, true, false, not, Option, none, some, List, [], ◌∷◌, ◌++◌, Outcome, ok,
  err, abort, map_err, expect, returned, if◌then◌else◌, is_empty, length,
}
use bypass.Exec.{Exec, pure, raise, lift, reads, ◌>>=◌, ◌>>◌}
use bypass.Text.{Text, codes}
use bypass.RelPath
use bypass.RelPath.{RelPath}
use bypass.Crypto.{KeyId, Crypto}
use bypass.Storage.{Storage}
use bypass.Vcs.{VersionControl}
use bypass.GpgId.{GpgIdError, resolve_recipients}
use bypass.Store.{Store, StoreError, list, insert_no_commit, commit_changes}
use bypass.Bundle as Bundle
use bypass.Bundle.{Tar, Toml, Manifest, BundleEntry, BundleError, read_bundle, no_pre_check}

-- What `run` finds outside the store; an error is represented by its text.
pub record Surroundings (T : Tar) : Type 0 where
  pub has_gpg_id : Bool
  pub opened : Text ⊎ (Unit {0})
  pub has_dirty_git_state : Bool
  pub spawned : Text ⊎ (Unit {0})
  pub archive : T.Archive
  pub pumped : Text ⊎ (Unit {0})
  pub finished : Text ⊎ (Unit {0})

-- `SE` is the store's error, `BE` that of the bundle, and `GE` that of the recipients.
pub data RestoreError (SE BE GE : Type 0) : Type 0 where
  no_gpg_id : RestoreError SE BE GE
  open_failed : Text → RestoreError SE BE GE
  store_error : SE → RestoreError SE BE GE
  not_empty : ℕ → RestoreError SE BE GE
  unfinished_merge : RestoreError SE BE GE
  gpg_failed : Text → RestoreError SE BE GE
  bundle_error : BE → RestoreError SE BE GE
  gpg_id_error : GE → RestoreError SE BE GE

module _ (𝓒 : Crypto) (𝓢 : Storage) (𝓥 : VersionControl) (T : Tar) (F : Toml)
    (decimal : ℕ → Text) where
  abbrev pub StoreFailure : Type 0
  StoreFailure = StoreError 𝓒.Error 𝓢.Error 𝓥.Error

  abbrev pub BundleFailure : Type 0
  BundleFailure = Bundle.Error T F StoreFailure

  abbrev pub Failure : Type 0
  Failure = RestoreError StoreFailure BundleFailure (GpgIdError 𝓢.Error)

  -- The store, and `touched_blobs`.
  pub record Restoring : Type 0 where
    pub store : Store 𝓒 𝓢 𝓥
    pub touched_blobs : List RelPath

  -- The closure that is handed to `read_bundle`, from what the insertion comes to.
  abbrev pub touched :
      Outcome StoreFailure RelPath × Store 𝓒 𝓢 𝓥
      → List RelPath
      → Outcome BundleFailure (Unit {0}) × Restoring
  touched (ok blob, st) blobs = (ok tt, record { store = st; touched_blobs = blobs ++ blob ∷ [] })
  touched (err e, st) blobs =
      (err (BundleError.source e), record { store = st; touched_blobs = blobs })
  touched (abort, st) blobs = (abort, record { store = st; touched_blobs = blobs })

  abbrev pub restore_entry : BundleEntry → Exec Restoring BundleFailure (Unit {0})
  restore_entry entry s =
      touched (insert_no_commit 𝓒 𝓢 𝓥 entry.path entry.plaintext s.store) s.touched_blobs

  abbrev pub Command : Type 0 → Type 0
  Command A = Exec Restoring Failure A

  abbrev pub on_store : {A : Type 0} → Exec (Store 𝓒 𝓢 𝓥) StoreFailure A → Command A
  on_store call s = (map_err store_error (call s.store).0, record s { store = (call s.store).1 })

  abbrev pub refuse_entries : List RelPath → Command (Unit {0})
  refuse_entries [] = pure tt
  refuse_entries (e ∷ es) = raise (not_empty (length (e ∷ es)))

  -- The store must be empty, or git have nothing unfinished.
  abbrev pub check_mode : Bool → Bool → Command (Unit {0})
  check_mode false dirty = do existing ← on_store (list 𝓒 𝓢 𝓥 none); refuse_entries existing
  check_mode true dirty = if dirty then raise unfinished_merge else pure tt

  abbrev pub read_entries : T.Archive → Command Manifest
  read_entries archive s =
      let (r, after) =
        read_bundle T F StoreFailure restore_entry (no_pre_check T F StoreFailure) archive s in
      (map_err bundle_error r, after)

  abbrev pub first_or_new : List KeyId → Text
  first_or_new [] = codes "new key"
  first_or_new (k ∷ ks) = k.as_str

  abbrev pub current_recipient : Command Text
  current_recipient = do
    dummy ← lift (expect (RelPath.new (codes "_")))
    recipients ← reads (λ s. map_err gpg_id_error (resolve_recipients 𝓢 s.store.storage dummy))
    pure (first_or_new recipients)

  abbrev pub message : Bool → Text → ℕ → Text
  message true recipient n = codes "bypass: Re-encrypt store for " ++ recipient
  message false recipient n =
      codes "bypass: Restore " ++ (decimal n ++ codes " entries from backup")

  -- The one commit of what was touched.
  abbrev pub commit_touched : Bool → List RelPath → Command (Unit {0})
  commit_touched in_place [] = pure tt
  commit_touched in_place (b ∷ bs) = do
    recipient ← current_recipient
    on_store (commit_changes 𝓒 𝓢 𝓥 (b ∷ bs) (message in_place recipient (length (b ∷ bs))))

  abbrev pub commit_all : Bool → Command (Unit {0})
  commit_all in_place s = commit_touched in_place s.touched_blobs s

  abbrev pub no_blobs : Store 𝓒 𝓢 𝓥 → Restoring
  no_blobs st = record { store = st; touched_blobs = [] }

  -- The number is what the manifest says and the user is told.
  unfoldable pub restore : Surroundings T → Bool → Command ℕ
  restore around in_place = do
    if around.has_gpg_id then pure tt else raise no_gpg_id
    lift (map_err open_failed (returned around.opened))
    check_mode in_place around.has_dirty_git_state
    lift (map_err gpg_failed (returned around.spawned))
    manifest ← read_entries around.archive
    lift (map_err gpg_failed (returned around.pumped))
    lift (map_err gpg_failed (returned around.finished))
    commit_all in_place
    pure manifest.entries
