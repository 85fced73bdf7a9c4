-- ===== src/Cli/Restore/Committed.antt =====
-- The blobs that a restore changes, and its one commit (crates/bypass-cli/src/restore.rs).
use bypass.Prelude.{
  map_err-eq-ok, ◌≡◌, refl, ◌∙◌, ap, ◌⊎◌, inl, inr, Bool, true, false, ℕ, none, List, [], ◌∷◌,
  Outcome, ok, err, abort, map_err, expect, returned, if◌then◌else◌, In, In-append_left,
  In-append_right, arith,
}
use bypass.Exec.{Exec, pure, raise, ◌>>◌, ◌>>=◌, continue, continue_lem}
use bypass.Text.{Text, codes}
use bypass.RelPath
use bypass.RelPath.{RelPath}
use bypass.Crypto.{Crypto}
use bypass.Storage.{Storage, IsBlobMap}
use bypass.Vcs.{VersionControl}
use bypass.GpgId.{resolve_recipients}
use bypass.Store.{Store, vcs, insert_no_commit, commit_changes}
use bypass.Store.Listing.{list_lem}
use bypass.Cli.Restore.Kept.{chain_lem, Kept, insert_no_commit_vcs, insert_no_commit-Kept}
use bypass.Bundle.{Tar, Toml, no_pre_check}
use bypass.Bundle.Guard.{read_bundle_visits}
use bypass.Cli.Restore.{
  Restoring, Surroundings, StoreFailure, Failure, touched, restore_entry, check_mode, read_entries,
  current_recipient, commit_touched, no_blobs, restore, gpg_id_error, on_store, refuse_entries,
  commit_all, store_error, no_gpg_id, open_failed, gpg_failed,
}

module _ (𝓒 : Crypto) (𝓢 : Storage) (𝓥 : VersionControl) (laws : IsBlobMap 𝓢) where
  open laws use {blob, Healthy}

  module _ (T : Tar) (F : Toml) (decimal : ℕ → Text) (before : Store 𝓒 𝓢 𝓥) where
    -- The blob is in the list for the commit, or is what it was, and nothing was committed.
    abbrev Covered : RelPath → Restoring 𝓒 𝓢 𝓥 T F decimal → Type 0
    Covered q s =
        Healthy s.store.storage
        × (s.store.vcs ≡ before.vcs)
        × (In q s.touched_blobs ⊎ (blob s.store.storage q ≡ blob before.storage q))

    touched_lem :
        (q : RelPath) (blobs : List RelPath) (st : Store 𝓒 𝓢 𝓥)
        (r : Outcome (StoreFailure 𝓒 𝓢 𝓥 T F decimal) RelPath × Store 𝓒 𝓢 𝓥)
        → r.1.vcs ≡ before.vcs
        → Kept 𝓒 𝓢 𝓥 laws q st r
        → In q blobs ⊎ (blob st.storage q ≡ blob before.storage q)
        → Covered q (touched 𝓒 𝓢 𝓥 T F decimal r blobs).1
    touched_lem q blobs st (ok b, t) same (h, inl e) covered =
        let found : q ≡ b = ground arith in
        (h, same, inl (In-append_right q blobs (b ∷ []) (inl found)))
    touched_lem q blobs st (ok b, t) same (h, inr kept) (inl there) =
        (h, same, inl (In-append_left q blobs (b ∷ []) there))
    touched_lem q blobs st (ok b, t) same (h, inr kept) (inr old) = (h, same, inr (kept ∙ old))
    touched_lem q blobs st (err x, t) same (h, inl e) covered = cc
    touched_lem q blobs st (err x, t) same (h, inr kept) (inl there) = (h, same, inl there)
    touched_lem q blobs st (err x, t) same (h, inr kept) (inr old) = (h, same, inr (kept ∙ old))
    touched_lem q blobs st (abort, t) same (h, inl e) covered = cc
    touched_lem q blobs st (abort, t) same (h, inr kept) (inl there) = (h, same, inl there)
    touched_lem q blobs st (abort, t) same (h, inr kept) (inr old) = (h, same, inr (kept ∙ old))

    read_entries-Covered :
        (q : RelPath) (archive : T.Archive) (s : Restoring 𝓒 𝓢 𝓥 T F decimal)
        → Covered q s
        → Covered q (read_entries 𝓒 𝓢 𝓥 T F decimal archive s).1
    read_entries-Covered q archive s covered =
        read_bundle_visits T F (restore_entry 𝓒 𝓢 𝓥 T F decimal) (Covered q)
          (no_pre_check T F (StoreFailure 𝓒 𝓢 𝓥 T F decimal)) archive s
          (λ m version passed e t valid (h, same, old).
            touched_lem q t.touched_blobs t.store
              (insert_no_commit 𝓒 𝓢 𝓥 e.path e.plaintext t.store)
              (insert_no_commit_vcs 𝓒 𝓢 𝓥 laws e.path e.plaintext t.store ∙ same)
              (insert_no_commit-Kept 𝓒 𝓢 𝓥 laws e.path q e.plaintext t.store h) old)
          covered

    -- One commit has named the touched blobs, or there are none and nothing was committed.
    abbrev pub Committed : Restoring 𝓒 𝓢 𝓥 T F decimal → Type 0
    Committed s =
        ((s.touched_blobs ≡ []) × (s.store.vcs ≡ before.vcs))
        ⊎ ((message : Text) × (𝓥.commit before.vcs s.touched_blobs message ≡ (ok tt, s.store.vcs)))

    abbrev Ends :
        {A : Type 0}
        → RelPath
        → Outcome (Failure 𝓒 𝓢 𝓥 T F decimal) A × Restoring 𝓒 𝓢 𝓥 T F decimal
        → Type 0
    Ends {A} q p =
        (In q p.1.touched_blobs ⊎ (blob p.1.store.storage q ≡ blob before.storage q))
        × ((a : A) → p.0 ≡ ok a → Committed p.1)

    -- A step that returns goes on, and what fails before the commit ends.
    goes_on :
        {A B : Type 0} (q : RelPath)
        (f : A → Exec (Restoring 𝓒 𝓢 𝓥 T F decimal) (Failure 𝓒 𝓢 𝓥 T F decimal) B)
        (r : Outcome (Failure 𝓒 𝓢 𝓥 T F decimal) A) (s : Restoring 𝓒 𝓢 𝓥 T F decimal)
        → Covered q s
        → ((a : A) → Ends q (f a s))
        → Ends q (continue f r s)
    goes_on q f r s (h, same, covered) goes =
        chain_lem (Ends q) f r s (λ a _. goes a) (λ _. (covered, λ a returns. cc))
          (covered, λ a returns. cc)

    pub current_recipient_state :
        (s : Restoring 𝓒 𝓢 𝓥 T F decimal) → (current_recipient 𝓒 𝓢 𝓥 T F decimal s).1 ≡ s
    current_recipient_state s =
        continue_lem (λ t. t ≡ s) _ (expect (RelPath.new (codes "_"))) s
          (λ dummy _.
            continue_lem (λ t. t ≡ s) _
              (map_err gpg_id_error (resolve_recipients 𝓢 s.store.storage dummy)) s (λ _ _. refl)
              refl)
          refl

    commit-Ends :
        (q b : RelPath) (bs : List RelPath) (message : Text) (s : Restoring 𝓒 𝓢 𝓥 T F decimal)
        → s.touched_blobs ≡ b ∷ bs
        → Covered q s
        → Ends q (on_store 𝓒 𝓢 𝓥 T F decimal (commit_changes 𝓒 𝓢 𝓥 (b ∷ bs) message) s)
    unfolding commit_changes
    commit-Ends q b bs message s listed (h, same, covered) = (
      covered,
      λ a returns.
          let made =
            map_err-eq-ok vcs (𝓥.commit s.store.vcs (b ∷ bs) message).0
              (map_err-eq-ok store_error _ returns) in
          inr (
            message,
            rw (← same, listed) (ap (λ r. (r, (𝓥.commit s.store.vcs (b ∷ bs) message).1)) made),
          ),
    )

    commit_touched-Ends :
        (q : RelPath) (in_place : Bool) (blobs : List RelPath) (s : Restoring 𝓒 𝓢 𝓥 T F decimal)
        → s.touched_blobs ≡ blobs
        → Covered q s
        → Ends q (commit_touched 𝓒 𝓢 𝓥 T F decimal in_place blobs s)
    commit_touched-Ends q in_place [] s listed (h, same, covered) =
        (covered, λ a returns. inl (listed, same))
    commit_touched-Ends q in_place (b ∷ bs) s listed covered = rw (current_recipient_state s) (
        goes_on q _ (current_recipient 𝓒 𝓢 𝓥 T F decimal s).0 s covered
          (λ recipient. commit-Ends q b bs _ s listed covered))

    refuse_entries_state :
        (entries : List RelPath) (s : Restoring 𝓒 𝓢 𝓥 T F decimal)
        → (refuse_entries 𝓒 𝓢 𝓥 T F decimal entries s).1 ≡ s
    refuse_entries_state [] s = refl
    refuse_entries_state (e ∷ es) s = refl

    pub check_mode_state :
        (in_place dirty : Bool) (s : Restoring 𝓒 𝓢 𝓥 T F decimal)
        → Healthy s.store.storage
        → (check_mode 𝓒 𝓢 𝓥 T F decimal in_place dirty s).1 ≡ s
    check_mode_state true true s h = refl
    check_mode_state true false s h = refl
    check_mode_state false dirty s h =
        let (existing, listed, order, which) = list_lem 𝓒 𝓢 𝓥 laws none s.store h in
        rw listed (refuse_entries_state existing s)

    guard-Ends :
        {B : Type 0} (q : RelPath) (met : Bool) (x : Failure 𝓒 𝓢 𝓥 T F decimal)
        (f : Unit {0} → Exec (Restoring 𝓒 𝓢 𝓥 T F decimal) (Failure 𝓒 𝓢 𝓥 T F decimal) B)
        (s : Restoring 𝓒 𝓢 𝓥 T F decimal)
        → Covered q s
        → ((a : Unit {0}) → Ends q (f a s))
        → Ends q (((if met then pure tt else raise x) >>= f) s)
    guard-Ends q true x f s covered goes = goes tt
    guard-Ends q false x f s (h, same, covered) goes = (covered, λ a returns. cc)

    commit_all-Ends :
        (q : RelPath) (in_place : Bool) (n : ℕ) (s : Restoring 𝓒 𝓢 𝓥 T F decimal)
        → Covered q s
        → Ends q ((commit_all 𝓒 𝓢 𝓥 T F decimal in_place >> pure n) s)
    commit_all-Ends q in_place n s covered =
        let made = commit_all 𝓒 𝓢 𝓥 T F decimal in_place s in
        let (kept, commits) = commit_touched-Ends q in_place s.touched_blobs s refl covered in
        chain_lem (Ends q) _ made.0 made.1 (λ a returns. (kept, λ _ _. commits a returns))
          (λ _. (kept, λ a returns. cc)) (kept, λ a returns. cc)

    restore-Ends :
        (q : RelPath) (around : Surroundings T) (in_place : Bool)
        → Healthy before.storage
        → Ends q (restore 𝓒 𝓢 𝓥 T F decimal around in_place (no_blobs 𝓒 𝓢 𝓥 T F decimal before))
    unfolding restore
    restore-Ends q around in_place h =
        let s = no_blobs 𝓒 𝓢 𝓥 T F decimal before in
        let start : Covered q s = (h, refl, inr refl) in
        let t = (read_entries 𝓒 𝓢 𝓥 T F decimal around.archive s).1 in
        let covered = read_entries-Covered q around.archive s start in
        guard-Ends q around.has_gpg_id no_gpg_id _ s start (λ _.
          goes_on q _ (map_err open_failed (returned around.opened)) s start (λ _.
            rw (check_mode_state in_place around.has_dirty_git_state s h) (
              goes_on q _ (check_mode 𝓒 𝓢 𝓥 T F decimal in_place around.has_dirty_git_state s).0 s
                start
                (λ _. goes_on q _ (map_err gpg_failed (returned around.spawned)) s start (λ _.
                  goes_on q _ (read_entries 𝓒 𝓢 𝓥 T F decimal around.archive s).0 t covered
                    (λ manifest.
                      goes_on q _ (map_err gpg_failed (returned around.pumped)) t covered (λ _.
                        goes_on q _ (map_err gpg_failed (returned around.finished)) t covered
                          (λ _. commit_all-Ends q in_place manifest.entries t covered))))))))

  -- On a storage without I/O errors, however a restore ends: every blob is in the list of touched
  -- blobs, or is what it was. Where the restore returns ok, one commit, the only one, has named
  -- exactly that list and succeeded, or the list is empty and nothing was committed.
  pub restore-Committed :
      (T : Tar) (F : Toml) (decimal : ℕ → Text) (around : Surroundings T) (in_place : Bool)
      (before : Store 𝓒 𝓢 𝓥)
      → Healthy before.storage
      → ((q : RelPath)
          → In q
              (restore 𝓒 𝓢 𝓥 T F decimal around in_place
                (no_blobs 𝓒 𝓢 𝓥 T F decimal before)).1.touched_blobs
            ⊎ (blob
                  (restore 𝓒 𝓢 𝓥 T F decimal around in_place
                    (no_blobs 𝓒 𝓢 𝓥 T F decimal before)).1.store.storage
                  q
                ≡ blob before.storage q))
        × ((n : ℕ)
            → (restore 𝓒 𝓢 𝓥 T F decimal around in_place (no_blobs 𝓒 𝓢 𝓥 T F decimal before)).0
              ≡ ok n
            → Committed T F decimal before
                (restore 𝓒 𝓢 𝓥 T F decimal around in_place (no_blobs 𝓒 𝓢 𝓥 T F decimal before)).1)
  restore-Committed T F decimal around in_place before h = (
    λ q. (restore-Ends T F decimal before q around in_place h).0,
    (restore-Ends T F decimal before (record { as_str = [] }) around in_place h).1,
  )
