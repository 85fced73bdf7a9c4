-- ===== src/Fs/Writes.antt =====
-- The writes of the two storages on a file system (crates/bypass-cli/src/storage_fs.rs and
-- crates/bypass-ffi/src/storage.rs) are all or nothing.
use bypass.Prelude.{ℕ, inl, inr, ◌≡◌, ◌≢◌, refl, Outcome, ok, err, abort, arith, Bool-cases}
use bypass.Exec.{continue, pure}
use bypass.Text.{Text, Bytes}
use bypass.RelPath.{RelPath, segments}
use bypass.Fs.{FileSystem, write_atomically}
use bypass.Fs.Atomic.{IsFileSystem, IsAtomic, unchanged, write_atomically-IsAtomic}
use bypass.Fs.StorageFs as StorageFs
use bypass.Fs.AppStorage as AppStorage

module _ (F : FileSystem) (root : F.FilePath) (rel : RelPath) where
  abbrev abs : F.FilePath
  abs = F.join root rel.as_str

  -- A check of the path leaves the state alone, and gives that path where it passes.
  abbrev Checks : {E : Type 0} → F.State → Outcome E F.FilePath × F.State → Type 0
  Checks s (r, t) = (t ≡ s) × ((p : F.FilePath) → r ≡ ok p → p ≡ abs)

  passed-Checks :
      {E : Type 0} (s : F.State) (r : Outcome E (Unit {0}))
      → Checks s (continue (λ u. pure abs) r s)
  passed-Checks s (ok u) = (refl, λ p h. ground arith)
  passed-Checks s (err e) = (refl, λ p h. cc)
  passed-Checks s abort = (refl, λ p h. cc)

  absolute-Checks : (s : F.State) → Checks s (StorageFs.absolute F root rel s)
  unfolding StorageFs.absolute
  absolute-Checks s = elim (Bool-cases (F.starts_with abs root)) [
    | inl y ↦ rw y (passed-Checks s (StorageFs.reject_symlinks F root s root (segments rel)))
    | inr n ↦ rw n (refl, λ p h. cc)
  ]

  app-Checks : (s : F.State) → Checks s (AppStorage.absolute F root rel s)
  unfolding AppStorage.absolute
  app-Checks s = elim (Bool-cases (F.starts_with abs root)) [
    | inl y ↦ rw y (refl, λ p h. ground arith)
    | inr n ↦ rw n (refl, λ p h. cc)
  ]

  module _ (laws : IsFileSystem F) (bytes : Bytes) where
    -- A write behind such a check.
    IsAtomic-checked :
        {E : Type 0} (io : F.FilePath → F.Error → E) (tmp_of : F.FilePath → F.FilePath)
        (s t : F.State) (r : Outcome E F.FilePath)
        → Checks s (r, t)
        → tmp_of abs ≢ abs
        → IsAtomic F laws io abs bytes s
            (continue (λ p. write_atomically F io p (tmp_of p) bytes) r t)
    IsAtomic-checked io tmp_of s t (ok p) checks ne =
        rw (checks.0, checks.1 p refl)
          (write_atomically-IsAtomic F laws io abs (tmp_of abs) bytes ne s)
    IsAtomic-checked io tmp_of s t (err e) checks ne =
        unchanged F laws io abs bytes s t (err e) (λ q. rw checks.0) (λ h. cc)
    IsAtomic-checked io tmp_of s t abort checks ne =
        unchanged F laws io abs bytes s t abort (λ q. rw checks.0) (λ h. cc)

    -- Given what std::fs promises, and a temporary path that is not the destination: however a
    -- write of the command line's storage or of the Android one ends, with an error of any call or
    -- none, the blob's file has its old content or the whole new one, the new one where the write
    -- returns ok, and every other file that there was keeps its content.
    pub write-IsAtomic :
        (decimal : ℕ → Text) (pid nanos : ℕ) (s : F.State)
        → StorageFs.tmp_of F root decimal pid nanos abs ≢ abs
        → AppStorage.tmp_of F root decimal pid nanos abs ≢ abs
        → IsAtomic F laws StorageFs.io_error abs bytes s
            (StorageFs.write F root decimal pid nanos rel bytes s)
          × IsAtomic F laws AppStorage.io_error abs bytes s
              (AppStorage.write F root decimal pid nanos rel bytes s)
    unfolding StorageFs.write AppStorage.write
    write-IsAtomic decimal pid nanos s ne ne' = (
      IsAtomic-checked StorageFs.io_error (StorageFs.tmp_of F root decimal pid nanos) s
          (StorageFs.absolute F root rel s).1 (StorageFs.absolute F root rel s).0
          (absolute-Checks s) ne,
      IsAtomic-checked AppStorage.io_error (AppStorage.tmp_of F root decimal pid nanos) s
          (AppStorage.absolute F root rel s).1 (AppStorage.absolute F root rel s).0 (app-Checks s)
          ne',
    )
