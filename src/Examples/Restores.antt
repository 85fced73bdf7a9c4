-- ===== src/Examples/Restores.antt =====
-- A restore in place at a concrete archive: two new entries, beside a password that is kept.
use bypass.Prelude.{ℕ, ◌≡◌, ◌⊎◌, inr, true, false, List, [], ◌∷◌, Outcome, ok, In}
use bypass.Text.{Text, Bytes, codes}
use bypass.RelPath.{RelPath}
use bypass.Vcs.{no_vcs}
use bypass.Cli.Restore.{Restoring, Surroundings, Failure, no_blobs, restore}
use bypass.Cli.Restore.Committed.{Committed, restore-Committed}
use bypass.Examples.Backends.{mem_storage, mem_storage-IsBlobMap, marking, store_of, lookup}
use bypass.Examples.Bundles.{list_tar, unary_toml, manifest_text}
use bypass.Examples.Hosting.{bank_files}

abbrev archive : List (Text × Bytes)
archive =
    (codes "manifest.toml", manifest_text 1 2)
    ∷ (codes "entries/mail", codes "secret")
    ∷ (codes "entries/post", codes "other")
    ∷ []

abbrev around : Surroundings list_tar
around = record {
  has_gpg_id = true;
  opened = inr tt;
  has_dirty_git_state = false;
  spawned = inr tt;
  archive = archive;
  pumped = inr tt;
  finished = inr tt;
}

abbrev pub digits : ℕ → Text
digits n = []

abbrev ended :
    Outcome (Failure marking mem_storage no_vcs list_tar unary_toml digits) ℕ
    × Restoring marking mem_storage no_vcs list_tar unary_toml digits
ended =
    restore marking mem_storage no_vcs list_tar unary_toml digits around true
      (no_blobs marking mem_storage no_vcs list_tar unary_toml digits (store_of bank_files))

restore-Committed_example :
    ((q : RelPath)
      → In q ended.1.touched_blobs ⊎ (lookup q ended.1.store.storage ≡ lookup q bank_files))
    × ((n : ℕ)
        → ended.0 ≡ ok n
        → Committed marking mem_storage no_vcs mem_storage-IsBlobMap list_tar unary_toml digits
            (store_of bank_files)
            ended.1)
unfolding lookup
restore-Committed_example =
    restore-Committed marking mem_storage no_vcs mem_storage-IsBlobMap list_tar unary_toml digits
      around true (store_of bank_files) tt
