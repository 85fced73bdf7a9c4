-- ===== src/Fs/Links.antt =====
-- Symbolic links under the root of the store (crates/bypass-cli/src/storage_fs.rs): no operation
-- follows one.
use bypass.Prelude.{ℕ, ◌⊎◌, inl, inr, ◌≡◌, true, List, [], ◌∷◌, err}
use bypass.Text.{Text, Bytes}
use bypass.RelPath.{RelPath, segments}
use bypass.Fs.{FileSystem, symlink, dir, file}
use bypass.Fs.StorageFs.{symlink_in_store, reject_symlinks, absolute, read, write, exists, remove}

-- Along the segments from `probe`, the first component that is no directory or file is a symbolic
-- link, and it is the one at `link`.
abbrev pub LinkAt : (F : FileSystem) → F.State → F.FilePath → F.FilePath → List Text → Type 0
LinkAt F s link probe [] = ⊥
LinkAt F s link probe (segment ∷ segs) =
    let at = F.join probe segment in
    ((F.symlink_metadata s at ≡ inr symlink) × (link ≡ at))
    ⊎ (((F.symlink_metadata s at ≡ inr dir) ⊎ (F.symlink_metadata s at ≡ inr file))
        × LinkAt F s link at segs)

module _ (F : FileSystem) (root link : F.FilePath) where
  reject_symlinks_link :
      (s : F.State) (probe : F.FilePath) (segs : List Text)
      → LinkAt F s link probe segs
      → reject_symlinks F root s probe segs ≡ err (symlink_in_store link)
  unfolding reject_symlinks
  reject_symlinks_link s probe [] there = absurd there
  reject_symlinks_link s probe (segment ∷ segs) (inl (is_link, same)) = rw (is_link, same)
  reject_symlinks_link s probe (segment ∷ segs) (inr (inl is_dir, below)) =
      rw is_dir (reject_symlinks_link s (F.join probe segment) segs below)
  reject_symlinks_link s probe (segment ∷ segs) (inr (inr is_file, below)) =
      rw is_file (reject_symlinks_link s (F.join probe segment) segs below)

  absolute_link :
      (rel : RelPath) (s : F.State)
      → F.starts_with (F.join root rel.as_str) root ≡ true
      → LinkAt F s link root (segments rel)
      → absolute F root rel s ≡ (err (symlink_in_store link), s)
  unfolding absolute
  absolute_link rel s inside there = rw (inside, reject_symlinks_link s root (segments rel) there)

  -- Where a component of a path under the root is a symbolic link, and those above it are
  -- directories or files: reading, testing for, writing and removing the path are all refused with
  -- an error that names the link, and change nothing.
  pub refused_link :
      (rel : RelPath) (bytes : Bytes) (decimal : ℕ → Text) (pid nanos : ℕ)
      (fill_bytes : ℕ → ℕ → ℕ → Bytes) (s : F.State)
      → F.starts_with (F.join root rel.as_str) root ≡ true
      → LinkAt F s link root (segments rel)
      → (read F root rel s ≡ (err (symlink_in_store link), s))
        × (exists F root rel s ≡ (err (symlink_in_store link), s))
        × (write F root decimal pid nanos rel bytes s ≡ (err (symlink_in_store link), s))
        × (remove F root fill_bytes rel s ≡ (err (symlink_in_store link), s))
  unfolding read exists write remove
  refused_link rel bytes decimal pid nanos fill_bytes s inside there =
      let refused = absolute_link rel s inside there in
      (rw refused, rw refused, rw refused, rw refused)
