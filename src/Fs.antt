-- ===== src/Fs.antt =====
-- The file system as the backends use it, and the atomic write that they share
-- (crates/bypass-cli/src/storage_fs.rs, crates/bypass-ffi/src/storage.rs and
-- crates/bypass-cli/src/sync/peers.rs). std::fs and std::path are a parameter; a file that is open
-- goes by its path.
pub mod Atomic
pub mod StorageFs
pub mod AppStorage
pub mod Links
pub mod Shred
pub mod Writes
use bypass.Prelude.{ℕ, ◌⊎◌, inl, inr, Bool, Option, none, some, [], ◌++◌, Outcome, ok, err}
use bypass.Exec.{Exec, pure, ◌>>=◌, ◌>>◌}
use bypass.Text.{Text, Bytes, codes}

-- What `symlink_metadata` says of a path.
pub data FileType : Type 0 where
  symlink dir file : FileType

pub record FileSystem : Type 1 where
  pub State : Type 0
  pub FilePath : Type 0
  pub Error : Type 0
  pub is_not_found : Error → Bool
  pub join : FilePath → Text → FilePath
  pub starts_with : FilePath → FilePath → Bool
  pub parent : FilePath → Option FilePath
  pub file_name : FilePath → Option Text
  pub dot : FilePath
  pub symlink_metadata : State → FilePath → Error ⊎ FileType
  pub exists : State → FilePath → Bool
  pub len : State → FilePath → Error ⊎ ℕ
  pub read : State → FilePath → Error ⊎ Bytes
  pub create_dir_all : FilePath → State → (Error ⊎ (Unit {0})) × State
  pub create_new : FilePath → State → (Error ⊎ (Unit {0})) × State
  pub open_write : FilePath → State → (Error ⊎ (Unit {0})) × State
  pub seek_start : FilePath → State → (Error ⊎ (Unit {0})) × State
  pub write_all : FilePath → Bytes → State → (Error ⊎ (Unit {0})) × State
  pub sync_all : FilePath → State → (Error ⊎ (Unit {0})) × State
  pub rename : FilePath → FilePath → State → (Error ⊎ (Unit {0})) × State
  pub remove_file : FilePath → State → (Error ⊎ (Unit {0})) × State

-- `unwrap_or_default` of a file name, and `unwrap_or` of a parent.
abbrev pub or_empty : Option Text → Text
or_empty none = []
or_empty (some name) = name

module _ (F : FileSystem) where
  abbrev pub or_dot : Option F.FilePath → F.FilePath
  or_dot none = F.dot
  or_dot (some parent) = parent

  abbrev pub Call : Type 0
  Call = F.State → (F.Error ⊎ (Unit {0})) × F.State

  -- `Result::and_then`
  abbrev pub go_on : F.Error ⊎ (Unit {0}) → Call → Call
  go_on (inl e) next s = (inl e, s)
  go_on (inr u) next s = next s

  abbrev pub and_then : Call → Call → Call
  and_then first next s = go_on (first s).0 next (first s).1

  -- `E` is the caller's error, which names the path of the call that failed.
  module _ {E : Type 0} (io : F.FilePath → F.Error → E) where
    abbrev pub outcome : {A : Type 0} → F.FilePath → F.Error ⊎ A → Outcome E A
    outcome at (inl e) = err (io at e)
    outcome at (inr a) = ok a

    abbrev pub call : F.FilePath → Call → Exec F.State E (Unit {0})
    call at c s = (outcome at (c s).0, (c s).1)

    -- The temporary file is removed where the call fails, and the result of that is dropped.
    abbrev pub clean_up : F.FilePath → F.Error ⊎ (Unit {0}) → F.State → F.State
    clean_up tmp (inl e) s = (F.remove_file tmp s).1
    clean_up tmp (inr u) s = s

    abbrev pub or_remove : F.FilePath → F.FilePath → Call → Exec F.State E (Unit {0})
    or_remove tmp at c s = (outcome at (c s).0, clean_up tmp (c s).0 (c s).1)

    abbrev pub make_parent : Option F.FilePath → Exec F.State E (Unit {0})
    make_parent none = pure tt
    make_parent (some parent) = call parent (F.create_dir_all parent)

    -- A new file `tmp` with this content, and a rename.
    unfoldable pub place : F.FilePath → F.FilePath → Bytes → Exec F.State E (Unit {0})
    place abs tmp bytes = do
      call tmp (F.create_new tmp)
      or_remove tmp tmp (and_then (F.write_all tmp bytes) (F.sync_all tmp))
      or_remove tmp abs (F.rename tmp abs)

    unfoldable pub write_atomically : F.FilePath → F.FilePath → Bytes → Exec F.State E (Unit {0})
    unfolding place
    write_atomically abs tmp bytes = do make_parent (F.parent abs); place abs tmp bytes
