-- ===== src/Cli/Backup/Restored.antt =====
-- A backup that is restored.
use mathlib.Core.Int.{ℤ}
use bypass.Prelude.{
  map_err-eq-ok, ℕ, ◌≡◌, refl, inl, inr, Bool, true, false, Option, List, [], ◌∷◌, map, is_empty,
  Outcome, ok, In, All, All-of_In, length, ◌%◌,
}
use bypass.Exec.{pure, ◌>>=◌, continue_lem}
use bypass.Text.{Text, Bytes}
use bypass.RelPath.{RelPath, IsValid}
use bypass.Crypto.{KeyId, Crypto, IsDecryptable}
use bypass.Storage.{Storage, IsBlobMap}
use bypass.Vcs.{VersionControl}
use bypass.GpgId.{resolve_recipients}
use bypass.Store.{Store, list, show, commit_changes}
use bypass.Store.Insert.{show_lem}
use bypass.Bundle.{Tar, Toml, Manifest, no_pre_check, read_bundle}
use bypass.Bundle.RoundTrip.{IsTar, IsToml, IsText, visit_all}
use bypass.Cli.Restore.Kept.{chain_lem}
use bypass.Cli.Restore.Committed.{check_mode_state, current_recipient_state}
use bypass.Cli.Restore.Shown.{Shown, with_plaintext, visit_all-Shown}
use bypass.Cli.Restore as Restore
use bypass.Cli.Restore.{
  Restoring, restore_entry, read_entries, commit_touched, commit_all, current_recipient, check_mode,
  no_blobs, restore, bundle_error,
}
use bypass.Cli.Backup.{subtree_path, manifest_of, backup}
use bypass.Cli.Backup.Archived.{undisturbed, top, listed-IsValid, read_bundle-backup}

-- A restore in which gpg does its part.
abbrev pub smooth : {T : Tar} → T.Archive → Restore.Surroundings T
smooth archive = record {
  has_gpg_id = true;
  opened = inr tt;
  has_dirty_git_state = false;
  spawned = inr tt;
  archive = archive;
  pumped = inr tt;
  finished = inr tt;
}

module _ (𝓒 : Crypto) (𝓢 : Storage) (𝓥 : VersionControl) (T : Tar) (F : Toml) (decimal : ℕ → Text)
    (laws : IsBlobMap 𝓢) (decr : IsDecryptable 𝓒) (dest : Store 𝓒 𝓢 𝓥)
    (working : laws.Healthy dest.storage) where
  commit_touched_storage :
      (in_place : Bool) (blobs : List RelPath) (s : Restoring 𝓒 𝓢 𝓥 T F decimal)
      → (commit_touched 𝓒 𝓢 𝓥 T F decimal in_place blobs s).1.store.storage ≡ s.store.storage
  unfolding commit_changes
  commit_touched_storage in_place [] s = refl
  commit_touched_storage in_place (b ∷ bs) s =
      rw (current_recipient_state 𝓒 𝓢 𝓥 laws T F decimal s.store s) (
        continue_lem (λ t. t.store.storage ≡ s.store.storage) _
          (current_recipient 𝓒 𝓢 𝓥 T F decimal s).0 s (λ _ _. refl) refl)

  module _ (plain : RelPath → Bytes) (e : RelPath) where
    -- Where the call returns, the entry is shown.
    abbrev Ends : {E A : Type 0} → Outcome E A × Restoring 𝓒 𝓢 𝓥 T F decimal → Type 0
    Ends {E} {A} p =
        (a : A)
        → p.0 ≡ ok a
        → Shown 𝓒 𝓢 𝓥 laws decr dest.storage working e (plain e) p.1.store.storage

    read_entries-Ends :
        (archive : T.Archive) (s : Restoring 𝓒 𝓢 𝓥 T F decimal)
        → Ends (
            read_bundle T F
              (Restore.StoreFailure 𝓒 𝓢 𝓥 T F decimal)
              (restore_entry 𝓒 𝓢 𝓥 T F decimal)
              (no_pre_check T F (Restore.StoreFailure 𝓒 𝓢 𝓥 T F decimal))
              archive
              s)
        → Ends (read_entries 𝓒 𝓢 𝓥 T F decimal archive s)
    read_entries-Ends archive s ends m returns = ends m (map_err-eq-ok bundle_error _ returns)

    restore-Ends :
        (archive : T.Archive) (in_place : Bool)
        → Ends (read_entries 𝓒 𝓢 𝓥 T F decimal archive (no_blobs 𝓒 𝓢 𝓥 T F decimal dest))
        → Ends
            (restore 𝓒 𝓢 𝓥 T F decimal (smooth archive) in_place (no_blobs 𝓒 𝓢 𝓥 T F decimal dest))
    unfolding restore
    restore-Ends archive in_place ends =
        let s = no_blobs 𝓒 𝓢 𝓥 T F decimal dest in
        let r = read_entries 𝓒 𝓢 𝓥 T F decimal archive s in
        let c = commit_all 𝓒 𝓢 𝓥 T F decimal in_place r.1 in
        rw (check_mode_state 𝓒 𝓢 𝓥 laws T F decimal dest in_place false s working) (
          chain_lem Ends _ (check_mode 𝓒 𝓢 𝓥 T F decimal in_place false s).0 s
            (λ _ _.
              chain_lem Ends _ r.0 r.1
                (λ m read.
                  chain_lem Ends _ c.0 c.1
                    (λ _ _ n returns.
                      rw (commit_touched_storage in_place r.1.touched_blobs r.1) (ends m read))
                    (λ _ n returns. cc) (λ n returns. cc))
                (λ _ n returns. cc) (λ n returns. cc))
            (λ _ n returns. cc) (λ n returns. cc))

  visit_all-Ends :
      (plain : RelPath → Bytes) (e : RelPath) (entries : List RelPath) (m : Manifest)
      (s : Restoring 𝓒 𝓢 𝓥 T F decimal)
      → s.store.storage ≡ dest.storage
      → All IsValid entries
      → In e entries
      → Ends plain e (
          (visit_all (restore_entry 𝓒 𝓢 𝓥 T F decimal) (map (with_plaintext plain) entries)
              >>= λ done. pure m)
            s)
  visit_all-Ends plain e entries m s same valid there =
      let v = visit_all (restore_entry 𝓒 𝓢 𝓥 T F decimal) (map (with_plaintext plain) entries) s in
      chain_lem (Ends plain e) _ v.0 v.1
        (λ _ visited n returns.
          visit_all-Shown 𝓒 𝓢 𝓥 laws decr dest.storage working plain T F decimal entries e s
            (rw same (working, λ dir. refl)) valid (inl there) visited)
        (λ _ n returns. cc) (λ n returns. cc)

  Shown-show :
      (e : RelPath) (bytes : Bytes) (st : Store 𝓒 𝓢 𝓥)
      → IsValid e
      → Shown 𝓒 𝓢 𝓥 laws decr dest.storage working e bytes st.storage
      → ((keys : List KeyId)
          → resolve_recipients 𝓢 dest.storage e ≡ ok keys
          → decr.Holds st.crypto keys)
      → (show 𝓒 𝓢 𝓥 e st).0 ≡ ok bytes
  Shown-show e bytes st valid (h, ciphertext, there, (keys, resolved, opens)) held =
      rw (show_lem 𝓒 𝓢 𝓥 laws e ciphertext st valid h there, opens st.crypto (held keys resolved))
        refl

  -- Given what tar, toml and the crypto promise, storages without I/O errors, and gpg doing its
  -- part in both runs: a backup of a store, or of a directory of it, whose recipients at the root
  -- resolve, whose listed entries are not none, have paths that are text of Rust and can all be
  -- shown, and whose manifest toml can write, returns the number of the entries, cut to 32 bits.
  -- Where its archive is then restored into a store, the restore returns ok, and after it a key of
  -- one of the recipients is at hand that the destination had for each of these entries, every one
  -- of them is shown there with the plaintext that it had.
  pub show-restore :
      (tar : IsTar T) (toml : IsToml F) (st : Store 𝓒 𝓢 𝓥) (s : Option Text) (seconds : ℤ)
      (subtree : Option RelPath) (entries : List RelPath) (recipients : List KeyId)
      (plain : RelPath → Bytes) (text : Text) (in_place : Bool) (n : ℕ)
      → laws.Healthy st.storage
      → subtree_path s ≡ ok subtree
      → (list 𝓒 𝓢 𝓥 subtree st).0 ≡ ok entries
      → is_empty entries ≡ false
      → resolve_recipients 𝓢 st.storage top ≡ ok recipients
      → F.to_string (manifest_of 𝓒 𝓢 𝓥 T F seconds recipients entries) ≡ inr text
      → All (λ e. IsText e.as_str) entries
      → All (λ e. (show 𝓒 𝓢 𝓥 e st).0 ≡ ok (plain e)) entries
      → (restore 𝓒 𝓢 𝓥 T F decimal
          (smooth (T.into_inner (backup 𝓒 𝓢 𝓥 T F (undisturbed s seconds) st T.new).1))
          in_place
          (no_blobs 𝓒 𝓢 𝓥 T F decimal dest)).0
        ≡ ok n
      → ((e : RelPath) (keys : List KeyId)
          → In e entries
          → resolve_recipients 𝓢 dest.storage e ≡ ok keys
          → decr.Holds
              (restore 𝓒 𝓢 𝓥 T F decimal
                (smooth (T.into_inner (backup 𝓒 𝓢 𝓥 T F (undisturbed s seconds) st T.new).1))
                in_place
                (no_blobs 𝓒 𝓢 𝓥 T F decimal dest)).1.store.crypto
              keys)
      → ((backup 𝓒 𝓢 𝓥 T F (undisturbed s seconds) st T.new).0 ≡ ok (length entries % 4294967296))
        × All
            (λ e.
              (show 𝓒 𝓢 𝓥 e
                (restore 𝓒 𝓢 𝓥 T F decimal
                  (smooth (T.into_inner (backup 𝓒 𝓢 𝓥 T F (undisturbed s seconds) st T.new).1))
                  in_place
                  (no_blobs 𝓒 𝓢 𝓥 T F decimal dest)).1.store).0
              ≡ ok (plain e))
            entries
  show-restore tar toml st s seconds subtree entries recipients plain text in_place n h parsed
        listed some_left resolved rendered texts shown returns held =
      let start = no_blobs 𝓒 𝓢 𝓥 T F decimal dest in
      let (saved, reads) =
        read_bundle-backup 𝓒 𝓢 𝓥 T F laws tar toml st s seconds subtree entries recipients plain
          text (restore_entry 𝓒 𝓢 𝓥 T F decimal) start h parsed listed some_left resolved rendered
          texts shown in
      let valid = λ (e : RelPath) (there : In e entries).
        listed-IsValid 𝓒 𝓢 𝓥 T F laws tar toml st subtree entries e h listed there in
      let archive = T.into_inner (backup 𝓒 𝓢 𝓥 T F (undisturbed s seconds) st T.new).1 in
      let m = manifest_of 𝓒 𝓢 𝓥 T F seconds recipients entries in
      (
        saved,
        All-of_In entries (λ e there.
            Shown-show e (plain e) _ (valid e there)
              (restore-Ends plain e archive in_place
                (read_entries-Ends plain e archive start (
                  rw reads
                    (visit_all-Ends plain e entries m start refl (All-of_In entries valid) there)))
                n returns)
              (λ keys. held e keys there)),
      )
