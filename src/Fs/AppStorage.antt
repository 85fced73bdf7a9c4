-- ===== src/Fs/AppStorage.antt =====
-- The storage of the Android bindings (crates/bypass-ffi/src/storage.rs) on a file system. The process
-- id and the clock are parameters; the listing of a directory is not modelled.
use bypass.Prelude.{
  ℕ, ◌⊎◌, inl, inr, Bool, not, Option, none, some, ◌++◌, Outcome, ok, err, if◌then◌else◌,
}
use bypass.Exec.{Exec, pure, raise, reads, ◌>>=◌}
use bypass.Text.{Text, Bytes, codes}
use bypass.RelPath.{RelPath}
use bypass.Fs.{FileSystem, or_dot, or_empty, write_atomically}

pub data AppStorageError (F : FileSystem) : Type 0 where
  io_error : F.FilePath → F.Error → AppStorageError F
  outside_root : F.FilePath → AppStorageError F

module _ (F : FileSystem) (root : F.FilePath) where
  unfoldable pub absolute : RelPath → Exec F.State (AppStorageError F) F.FilePath
  absolute rel = do
    let abs = F.join root rel.as_str
    if not (F.starts_with abs root) then raise (outside_root abs) else pure abs

  abbrev pub found : F.FilePath → F.Error ⊎ Bytes → Outcome (AppStorageError F) (Option Bytes)
  found abs (inl e) = if F.is_not_found e then ok none else err (io_error abs e)
  found abs (inr bytes) = ok (some bytes)

  unfoldable pub read : RelPath → Exec F.State (AppStorageError F) (Option Bytes)
  unfolding absolute
  read rel = do abs ← absolute rel; reads (λ s. found abs (F.read s abs))

  unfoldable pub exists : RelPath → Exec F.State (AppStorageError F) Bool
  unfolding absolute
  exists rel = do abs ← absolute rel; reads (λ s. ok (F.exists s abs))

  abbrev pub removed : F.FilePath → F.Error ⊎ (Unit {0}) → Outcome (AppStorageError F) (Unit {0})
  removed abs (inr u) = ok tt
  removed abs (inl e) = if F.is_not_found e then ok tt else err (io_error abs e)

  abbrev pub remove_at : F.FilePath → Exec F.State (AppStorageError F) (Unit {0})
  remove_at abs s = (removed abs (F.remove_file abs s).0, (F.remove_file abs s).1)

  unfoldable pub remove : RelPath → Exec F.State (AppStorageError F) (Unit {0})
  unfolding absolute
  remove rel = do abs ← absolute rel; remove_at abs

  module _ (decimal : ℕ → Text) (pid nanos : ℕ) where
    unfoldable pub unique_tmp_path : F.FilePath → Text → F.FilePath
    unique_tmp_path at leaf = F.join at (
        codes ".bypass.tmp."
        ++ (decimal pid ++ (codes "." ++ (decimal nanos ++ (codes "." ++ leaf)))))

    abbrev pub tmp_of : F.FilePath → F.FilePath
    tmp_of abs = unique_tmp_path (or_dot F (F.parent abs)) (or_empty (F.file_name abs))

    unfoldable pub write : RelPath → Bytes → Exec F.State (AppStorageError F) (Unit {0})
    unfolding absolute
    write rel bytes = do abs ← absolute rel; write_atomically F io_error abs (tmp_of abs) bytes
