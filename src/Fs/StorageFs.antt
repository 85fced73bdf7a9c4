-- ===== src/Fs/StorageFs.antt =====
-- The storage of the command line (crates/bypass-cli/src/storage_fs.rs) and that of the Android
-- bindings (crates/bypass-ffi/src/storage.rs) on a file system. The process id, the clock and the
-- random bytes are parameters; the listing of a directory is not modelled.
use bypass.Prelude.{
  ℕ, zero, suc, ◌-◌, ◌⊎◌, inl, inr, Bool, not, Option, none, some, List, [], ◌∷◌, ◌++◌, Outcome, ok,
  err, abort, if◌then◌else◌, leb, is_empty, ◌==◌,
}
use bypass.Exec.{Exec, pure, raise, lift, reads, ◌>>=◌, ◌>>◌}
use bypass.Text.{Text, Bytes, codes}
use bypass.RelPath.{RelPath, segments}
use bypass.Fs.{
  FileSystem, or_dot, or_empty, FileType, symlink, dir, file, outcome, call, write_atomically,
}

pub data StorageFsError (F : FileSystem) : Type 0 where
  io_error : F.FilePath → F.Error → StorageFsError F
  outside_root : F.FilePath → StorageFsError F
  symlink_in_store : F.FilePath → StorageFsError F
  no_store_root : StorageFsError F

abbrev pub shred_passes : ℕ
shred_passes = 3

abbrev pub buffer_len : ℕ
buffer_len = 4096

module _ (F : FileSystem) where
  abbrev pub Failure : Type 0
  Failure = StorageFsError F

  -- `resolve_default_root`, from the value of `PASSWORD_STORE_DIR` and the home directory.
  abbrev under_home : Option F.FilePath → Outcome Failure F.FilePath
  under_home none = err no_store_root
  under_home (some home) = ok (F.join home (codes ".password-store"))

  unfoldable pub resolve_default_root :
      (Text → F.FilePath) → Option Text → Option F.FilePath → Outcome Failure F.FilePath
  resolve_default_root path_from none home = under_home home
  resolve_default_root path_from (some p) home =
      if is_empty p then under_home home else ok (path_from p)

  -- `fill_bytes` gives the random bytes for a chunk, by the passes and the bytes that are left.
  module _ (fill_bytes : ℕ → ℕ → ℕ → Bytes) (path : F.FilePath) where
    -- The loop of a pass; the first number is fuel.
    unfoldable pub overwrite_rest : ℕ → ℕ → ℕ → Exec F.State Failure (Unit {0})
    overwrite_rest fuel pass zero = pure tt
    overwrite_rest zero pass (suc n) = lift abort
    overwrite_rest (suc fuel) pass (suc n) =
        let chunk = if leb (suc n) buffer_len then suc n else buffer_len in
        let rest = overwrite_rest fuel pass (suc n - chunk) in
        call F io_error path (F.write_all path (fill_bytes pass (suc n) chunk)) >> rest

    unfoldable pub overwrite_pass : ℕ → ℕ → Exec F.State Failure (Unit {0})
    unfolding overwrite_rest
    overwrite_pass len pass = do
      call F io_error path (F.seek_start path)
      overwrite_rest len pass len
      call F io_error path (F.sync_all path)

    unfoldable pub overwrite_passes : ℕ → ℕ → Exec F.State Failure (Unit {0})
    unfolding overwrite_pass
    overwrite_passes len zero = pure tt
    overwrite_passes len (suc passes) = do
      overwrite_pass len (suc passes)
      overwrite_passes len passes

    unfoldable pub overwrite_in_place : ℕ → Exec F.State Failure (Unit {0})
    unfolding overwrite_passes
    overwrite_in_place passes = do
      len ← reads (λ s. outcome F io_error path (F.len s path))
      call F io_error path (F.open_write path)
      if len == 0 then call F io_error path (F.sync_all path) else overwrite_passes len passes

    unfoldable pub overwrite_then_unlink : Exec F.State Failure (Unit {0})
    unfolding overwrite_in_place
    overwrite_then_unlink = do
      overwrite_in_place shred_passes
      call F io_error path (F.remove_file path)

  module _ (root : F.FilePath) where
    -- What a component of the path is, and what the other components come to.
    abbrev pub probed :
        F.FilePath → F.Error ⊎ FileType → Outcome Failure (Unit {0}) → Outcome Failure (Unit {0})
    probed probe (inl e) rest = if F.is_not_found e then ok tt else err (io_error probe e)
    probed probe (inr symlink) rest = err (symlink_in_store probe)
    probed probe (inr dir) rest = rest
    probed probe (inr file) rest = rest

    -- The loop of `reject_symlinks_under_root`.
    unfoldable pub reject_symlinks : F.State → F.FilePath → List Text → Outcome Failure (Unit {0})
    reject_symlinks s probe [] = ok tt
    reject_symlinks s probe (segment ∷ segs) =
        probed (F.join probe segment) (F.symlink_metadata s (F.join probe segment))
          (reject_symlinks s (F.join probe segment) segs)

    unfoldable pub absolute : RelPath → Exec F.State Failure F.FilePath
    unfolding reject_symlinks
    absolute rel = do
      let abs = F.join root rel.as_str
      if not (F.starts_with abs root)
          then raise (outside_root abs)
          else do reads (λ s. reject_symlinks s root (segments rel)); pure abs

    -- The result of a read of a file that may not be there.
    abbrev pub found : F.FilePath → F.Error ⊎ Bytes → Outcome Failure (Option Bytes)
    found abs (inl e) = if F.is_not_found e then ok none else err (io_error abs e)
    found abs (inr bytes) = ok (some bytes)

    unfoldable pub read : RelPath → Exec F.State Failure (Option Bytes)
    unfolding absolute
    read rel = do abs ← absolute rel; reads (λ s. found abs (F.read s abs))

    unfoldable pub exists : RelPath → Exec F.State Failure Bool
    unfolding absolute
    exists rel = do abs ← absolute rel; reads (λ s. ok (F.exists s abs))

    module _ (decimal : ℕ → Text) (pid nanos : ℕ) where
      unfoldable pub unique_tmp_path : F.FilePath → Text → F.FilePath
      unique_tmp_path at dest_name =
          F.join at (dest_name ++ (codes ".tmp." ++ (decimal pid ++ (codes "." ++ decimal nanos))))

      abbrev pub tmp_of : F.FilePath → F.FilePath
      tmp_of abs = unique_tmp_path (or_dot F (F.parent abs)) (or_empty (F.file_name abs))

      unfoldable pub write : RelPath → Bytes → Exec F.State Failure (Unit {0})
      unfolding absolute
      write rel bytes = do abs ← absolute rel; write_atomically F io_error abs (tmp_of abs) bytes

    abbrev pub remove_at : (ℕ → ℕ → ℕ → Bytes) → F.FilePath → Exec F.State Failure (Unit {0})
    remove_at fill_bytes abs s =
        if not (F.exists s abs) then (ok tt, s) else overwrite_then_unlink fill_bytes abs s

    unfoldable pub remove : (ℕ → ℕ → ℕ → Bytes) → RelPath → Exec F.State Failure (Unit {0})
    unfolding absolute overwrite_then_unlink
    remove fill_bytes rel = do abs ← absolute rel; remove_at fill_bytes abs
