-- ===== src/Fs/Atomic.antt =====
-- A write that goes by a temporary file is all or nothing, whichever of its calls fails
-- (crates/bypass-cli/src/storage_fs.rs).
use bypass.Prelude.{
  ◌⊎◌, inl, inr, true, ◌≡◌, ◌≢◌, refl, sym, ◌∙◌, Option, none, some, [], Outcome, ok, err,
}
use bypass.Exec.{Exec, continue, ◌>>◌}
use bypass.Text.{Bytes}
use bypass.Fs.{
  FileSystem, and_then, go_on, call, outcome, clean_up, or_remove, make_parent, place,
  write_atomically,
}

-- What the documentation of std::fs and POSIX promise of the calls, in terms of the content of the
-- files. Of a write that fails nothing is promised but that it is to its own file.
pub record IsFileSystem (F : FileSystem) : Type 0 where
  pub content : F.State → F.FilePath → Option Bytes
  pub read_ok :
      (s : F.State) (p : F.FilePath) (bytes : Bytes)
      → F.read s p ≡ inr bytes
      → content s p ≡ some bytes
  pub read_not_found :
      (s : F.State) (p : F.FilePath) (e : F.Error)
      → F.read s p ≡ inl e
      → F.is_not_found e ≡ true
      → content s p ≡ none
  pub content-create_dir_all :
      (s : F.State) (p q : F.FilePath) → content (F.create_dir_all p s).1 q ≡ content s q
  pub create_new_fresh :
      (s : F.State) (p : F.FilePath)
      → (F.create_new p s).0 ≡ inr tt
      → (content s p ≡ none) × (content (F.create_new p s).1 p ≡ some [])
  pub create_new_other :
      (s : F.State) (p q : F.FilePath) → p ≢ q → content (F.create_new p s).1 q ≡ content s q
  pub create_new_err :
      (s : F.State) (p q : F.FilePath) (e : F.Error)
      → (F.create_new p s).0 ≡ inl e
      → content (F.create_new p s).1 q ≡ content s q
  pub write_all_ok :
      (s : F.State) (p : F.FilePath) (bytes : Bytes)
      → content s p ≡ some []
      → (F.write_all p bytes s).0 ≡ inr tt
      → content (F.write_all p bytes s).1 p ≡ some bytes
  pub write_all_other :
      (s : F.State) (p q : F.FilePath) (bytes : Bytes)
      → p ≢ q
      → content (F.write_all p bytes s).1 q ≡ content s q
  pub content-sync_all :
      (s : F.State) (p q : F.FilePath) → content (F.sync_all p s).1 q ≡ content s q
  pub remove_file_other :
      (s : F.State) (p q : F.FilePath) → p ≢ q → content (F.remove_file p s).1 q ≡ content s q
  pub rename_ok :
      (s : F.State) (p q : F.FilePath)
      → (F.rename p q s).0 ≡ inr tt
      → content (F.rename p q s).1 q ≡ content s p
  pub rename_other :
      (s : F.State) (p q r : F.FilePath)
      → p ≢ r
      → q ≢ r
      → content (F.rename p q s).1 r ≡ content s r
  pub rename_err :
      (s : F.State) (p q r : F.FilePath) (e : F.Error)
      → (F.rename p q s).0 ≡ inl e
      → content (F.rename p q s).1 r ≡ content s r

module _ (F : FileSystem) (laws : IsFileSystem F) {E : Type 0} (io : F.FilePath → F.Error → E) where
  open laws use {content}

  -- The file at `abs` has its old content or the new one, the new one where the result is `ok`, and
  -- any other file keeps its content.
  abbrev pub IsAtomic : F.FilePath → Bytes → F.State → Outcome E (Unit {0}) × F.State → Type 0
  IsAtomic abs bytes s (r, after) =
      ((content after abs ≡ content s abs) ⊎ (content after abs ≡ some bytes))
      × (r ≡ ok tt → content after abs ≡ some bytes)
      × ((q : F.FilePath) (old : Bytes)
          → q ≢ abs
          → content s q ≡ some old
          → content after q ≡ some old)

  -- Nothing has changed, and the call is no success.
  pub unchanged :
      (abs : F.FilePath) (bytes : Bytes) (s after : F.State) (r : Outcome E (Unit {0}))
      → ((q : F.FilePath) → content after q ≡ content s q)
      → r ≢ ok tt
      → IsAtomic abs bytes s (r, after)
  unchanged abs bytes s after r same fails =
      (inl (same abs), (λ h. absurd (fails h)), λ q old ne h. same q ∙ h)

  -- The temporary file is there, new: what follows.
  module _ (abs tmp : F.FilePath) (bytes : Bytes) (ne : tmp ≢ abs) where
    -- Only the temporary file may have changed.
    abbrev Aside : F.State → F.State → Type 0
    Aside s t = (q : F.FilePath) → tmp ≢ q → content t q ≡ content s q

    -- What is left where a step fails and the temporary file is removed.
    aborted :
        (s t : F.State) (r : Outcome E (Unit {0}))
        → content s tmp ≡ none
        → Aside s t
        → r ≢ ok tt
        → IsAtomic abs bytes s (r, (F.remove_file tmp t).1)
    aborted s t r fresh aside fails = (
      inl (laws.remove_file_other t tmp abs ne ∙ aside abs ne),
      (λ h. absurd (fails h)),
      λ q old apart h.
          let other : tmp ≢ q = λ e. cc in
          laws.remove_file_other t tmp q other ∙ (aside q other ∙ h),
    )

    renamed :
        (s t : F.State) (r : F.Error ⊎ (Unit {0}))
        → (F.rename tmp abs t).0 ≡ r
        → content s tmp ≡ none
        → Aside s t
        → content t tmp ≡ some bytes
        → IsAtomic abs bytes s (outcome F io abs r, clean_up F io tmp r (F.rename tmp abs t).1)
    renamed s t (inl e) result fresh aside filled =
        aborted s (F.rename tmp abs t).1 (err (io abs e)) fresh
          (λ q other. laws.rename_err t tmp abs q e result ∙ aside q other) (λ h. cc)
    renamed s t (inr u) result fresh aside filled =
        let new = laws.rename_ok t tmp abs result ∙ filled in
        (
          inr new,
          (λ h. new),
          λ q old apart h.
              let other : tmp ≢ q = λ e. cc in
              laws.rename_other t tmp abs q other (λ e. apart (sym e)) ∙ (aside q other ∙ h),
        )

    -- The last step, from what the write and its synchronisation come to.
    abbrev finish : F.Error ⊎ (Unit {0}) → F.State → Outcome E (Unit {0}) × F.State
    finish r t =
        continue (λ u. or_remove F io tmp abs (F.rename tmp abs)) (outcome F io tmp r)
          (clean_up F io tmp r t)

    synced :
        (s t : F.State) (r : F.Error ⊎ (Unit {0}))
        → content s tmp ≡ none
        → Aside s t
        → content t tmp ≡ some bytes
        → IsAtomic abs bytes s (finish r (F.sync_all tmp t).1)
    synced s t (inl e) fresh aside filled =
        aborted s (F.sync_all tmp t).1 (err (io tmp e)) fresh
          (λ q other. laws.content-sync_all t tmp q ∙ aside q other) (λ h. cc)
    synced s t (inr u) fresh aside filled =
        let after = (F.sync_all tmp t).1 in
        renamed s after (F.rename tmp abs after).0 refl fresh
          (λ q other. laws.content-sync_all t tmp q ∙ aside q other)
          (laws.content-sync_all t tmp tmp ∙ filled)

    written :
        (s t : F.State) (r : F.Error ⊎ (Unit {0}))
        → (F.write_all tmp bytes t).0 ≡ r
        → content s tmp ≡ none
        → Aside s t
        → content t tmp ≡ some []
        → IsAtomic abs bytes s (
            finish
              (go_on F r (F.sync_all tmp) (F.write_all tmp bytes t).1).0
              (go_on F r (F.sync_all tmp) (F.write_all tmp bytes t).1).1)
    written s t (inl e) result fresh aside empty =
        aborted s (F.write_all tmp bytes t).1 (err (io tmp e)) fresh
          (λ q other. laws.write_all_other t tmp q bytes other ∙ aside q other) (λ h. cc)
    written s t (inr u) result fresh aside empty =
        let after = (F.write_all tmp bytes t).1 in
        synced s after (F.sync_all tmp after).0 fresh
          (λ q other. laws.write_all_other t tmp q bytes other ∙ aside q other)
          (laws.write_all_ok t tmp bytes empty result)

    -- The write behind the creation of the temporary file.
    abbrev rest : Exec F.State E (Unit {0})
    rest =
        or_remove F io tmp tmp (and_then F (F.write_all tmp bytes) (F.sync_all tmp))
        >> or_remove F io tmp abs (F.rename tmp abs)

    created :
        (s t : F.State) (r : F.Error ⊎ (Unit {0}))
        → (F.create_new tmp t).0 ≡ r
        → ((q : F.FilePath) → content t q ≡ content s q)
        → IsAtomic abs bytes s (continue (λ u. rest) (outcome F io tmp r) (F.create_new tmp t).1)
    created s t (inl e) result same =
        unchanged abs bytes s (F.create_new tmp t).1 (err (io tmp e))
          (λ q. laws.create_new_err t tmp q e result ∙ same q) (λ h. cc)
    created s t (inr u) result same =
        let after = (F.create_new tmp t).1 in
        let (fresh, empty) = laws.create_new_fresh t tmp result in
        written s after (F.write_all tmp bytes after).0 refl (sym (same tmp) ∙ fresh)
          (λ q other. laws.create_new_other t tmp q other ∙ same q) empty

    parent_made :
        (s t : F.State) (at : F.FilePath) (r : F.Error ⊎ (Unit {0}))
        → ((q : F.FilePath) → content t q ≡ content s q)
        → IsAtomic abs bytes s
            (continue (λ u. call F io tmp (F.create_new tmp) >> rest) (outcome F io at r) t)
    parent_made s t at (inl e) same = unchanged abs bytes s t (err (io at e)) same (λ h. cc)
    parent_made s t at (inr u) same = created s t (F.create_new tmp t).0 refl same

    from_parent :
        (parent : Option F.FilePath) (s : F.State)
        → IsAtomic abs bytes s
            ((make_parent F io parent >> (call F io tmp (F.create_new tmp) >> rest)) s)
    from_parent none s = created s s (F.create_new tmp s).0 refl (λ q. refl)
    from_parent (some at) s =
        parent_made s (F.create_dir_all at s).1 at (F.create_dir_all at s).0
          (λ q. laws.content-create_dir_all s at q)

    pub place-IsAtomic :
        (s t : F.State)
        → ((q : F.FilePath) → content t q ≡ content s q)
        → IsAtomic abs bytes s (place F io abs tmp bytes t)
    unfolding place
    place-IsAtomic s t same = created s t (F.create_new tmp t).0 refl same

    pub write_atomically-IsAtomic :
        (s : F.State) → IsAtomic abs bytes s (write_atomically F io abs tmp bytes s)
    unfolding write_atomically
    write_atomically-IsAtomic s = from_parent (F.parent abs) s
