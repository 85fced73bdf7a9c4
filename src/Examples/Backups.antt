-- ===== src/Examples/Backups.antt =====
-- A store of one entry, backed up and restored into a store that is new. The format of manifests has
-- one manifest only, that of this backup.
use mathlib.Core.Int.{ℤ, pos, negsuc}
use mathlib.Core.Nat
use bypass.Prelude.{
  ℕ, ◌≡◌, refl, ap, arith, false, ◌⊎◌, inl, inr, none, List, [], ◌∷◌, ok, All, length, ◌%◌, ◌==◌,
  if◌then◌else◌,
}
use bypass.Text
use bypass.Text.{Text, Bytes, codes, text_eq}
use bypass.Text.Utf8
use bypass.Text.Laws.{text_eq_iff}
use bypass.RelPath.{RelPath, new, parent}
use bypass.RelPath
use bypass.GpgId
use bypass.GpgId.{resolve_recipients}
use bypass.Store.{show, list}
use bypass.Vcs.{no_vcs}
use bypass.Bundle.{Toml, Manifest}
use bypass.Bundle.RoundTrip.{IsToml, IsText}
use bypass.Cli.Restore.{no_blobs, restore}
use bypass.Cli.Backup.{backup}
use bypass.Cli.Backup.Archived.{undisturbed, top}
use bypass.Cli.Backup.Restored.{smooth, show-restore}
use bypass.Examples.Backends.{
  Files, lookup, keys, mem_storage, mem_storage-IsBlobMap, marking, marking-IsDecryptable, store_of,
}
use bypass.Examples.Bundles.{list_tar, list_tar-IsTar}
use bypass.Examples.Hosting.{bank_files, bank_shown}
use bypass.Examples.Paths.{path, web_bank}
use bypass.Examples.Restores.{digits}
use bypass.Examples.Stores.{alice}

abbrev bank_manifest : Manifest
bank_manifest = record {
  version = 1;
  created_at_unix = pos Nat.zero;
  original_recipients = alice.as_str ∷ [];
  entries = 1;
}

abbrev only_text : ℕ → ℕ → ℤ → List Text → (Unit {0}) ⊎ Text
only_text v n (pos Nat.zero) (r ∷ []) =
    if v == 1
    then (if n == 1 then (if text_eq r alice.as_str then inr (codes "m") else inl tt) else inl tt)
    else inl tt
only_text _ _ _ _ = inl tt

abbrev bank_toml : Toml
bank_toml = record {
  SerError = Unit {0};
  DeError = Unit {0};
  to_string = λ m. only_text m.version m.entries m.created_at_unix m.original_recipients;
  from_str = λ s. inr bank_manifest;
}

only_text_parts :
    (v n : ℕ) (r text : Text)
    → only_text v n (pos Nat.zero) (r ∷ []) ≡ inr text
    → (v ≡ 1) × (n ≡ 1) × (r ≡ alice.as_str) × (text ≡ codes "m")
only_text_parts v n r text e = ground (arith, text_eq_iff r alice.as_str)

m-IsText : IsText (codes "m")
m-IsText = (refl, tt)

only_text_lem :
    (v n : ℕ) (created : ℤ) (recipients : List Text) (text : Text)
    → only_text v n created recipients ≡ inr text
    → IsText text
      × (bank_toml.from_str text
          ≡ inr (record {
            version = v;
            created_at_unix = created;
            original_recipients = recipients;
            entries = n;
          }))
only_text_lem v n (pos Nat.zero) [] text e = cc
only_text_lem v n (pos Nat.zero) (r ∷ []) text e =
    let (version, entries, named, written) = only_text_parts v n r text e in
    rw (version, entries, named, written) (m-IsText, refl)
only_text_lem v n (pos Nat.zero) (r ∷ (q ∷ rs)) text e = cc
only_text_lem v n (pos (Nat.suc k)) rs text e = cc
only_text_lem v n (negsuc k) rs text e = cc

bank_toml-IsToml : IsToml bank_toml
bank_toml-IsToml = record {
  from_str-to_string =
      λ m text e. only_text_lem m.version m.entries m.created_at_unix m.original_recipients text e;
}

web_bank-IsText : IsText web_bank.as_str
web_bank-IsText = ground arith

abbrev fresh_files : Files
fresh_files = (path (codes ".gpg-id"), codes "alice@example.org\n") ∷ []

abbrev bank_backup : List (Text × Bytes)
bank_backup =
    (backup marking mem_storage no_vcs list_tar bank_toml (undisturbed none (pos Nat.zero))
      (store_of bank_files) []).1

bank_listed : (list marking mem_storage no_vcs none (store_of bank_files)).0 ≡ ok (web_bank ∷ [])
unfolding list keys bypass.Store.Sorting.sort_by bypass.Store.Blobs.entries_of
    bypass.Store.Blobs.blob_to_entry Text.strip_suffix new Text.starts_with Text.ends_with
    Text.contains Text.split
bank_listed = refl

top_recipients : resolve_recipients mem_storage bank_files top ≡ ok (alice ∷ [])
unfolding resolve_recipients GpgId.gpg_id_path GpgId.parse_gpg_id parent new lookup Text.contains
    Text.split Text.starts_with Text.ends_with Text.rsplit_once Utf8.from_utf8 Text.lines Text.trim
    Text.is_whitespace bypass.RelPath.join
top_recipients = refl

bank_restored :
    (restore marking mem_storage no_vcs list_tar bank_toml digits
      (smooth bank_backup)
      false
      (no_blobs marking mem_storage no_vcs list_tar bank_toml digits (store_of fresh_files))).0
    ≡ ok 1
unfolding restore backup lookup list bypass.Store.Sorting.sort_by bypass.Store.Blobs.entries_of keys
    bypass.Store.Blobs.blob_to_entry Text.strip_suffix bypass.Bundle.read_bundle new
    Text.starts_with Text.ends_with Text.contains Text.split resolve_recipients GpgId.gpg_id_path
    parent Text.rsplit_once GpgId.parse_gpg_id bypass.Bundle.append_entries
    bypass.Bundle.check_manifest bypass.Bundle.member_name bypass.Bundle.parse_manifest
    bypass.Bundle.read_entries bypass.Bundle.read_entry bypass.Bundle.read_manifest
    bypass.Bundle.write_bundle RelPath.join bypass.Store.Blobs.entry_to_blob
    bypass.Store.Sorting.insert_by bypass.Store.commit_changes bypass.Store.from_gpg_id
    bypass.Store.insert_no_commit show Utf8.encode Utf8.from_utf8 Text.is_whitespace Text.lines
    Text.lines_of Text.strip_cr Text.strip_prefix text_eq Text.text_le Text.trim Text.trim_end
    Text.trim_start bypass.Examples.Backends.without
bank_restored = refl

show-restore_example :
    ((backup marking mem_storage no_vcs list_tar bank_toml
        (undisturbed none (pos Nat.zero))
        (store_of bank_files)
        []).0
      ≡ ok (length (web_bank ∷ []) % 4294967296))
    × All
        (λ e.
          (show marking mem_storage no_vcs e
            (restore marking mem_storage no_vcs list_tar bank_toml digits
              (smooth bank_backup)
              false
              (no_blobs marking mem_storage no_vcs list_tar bank_toml digits
                (store_of fresh_files))).1.store).0
          ≡ ok (codes "old\nuser: me"))
        (web_bank ∷ [])
unfolding lookup text_eq
show-restore_example =
    show-restore marking mem_storage no_vcs list_tar bank_toml digits mem_storage-IsBlobMap
      marking-IsDecryptable (store_of fresh_files) tt list_tar-IsTar bank_toml-IsToml
      (store_of bank_files) none (pos Nat.zero) none (web_bank ∷ []) (alice ∷ [])
      (λ e. codes "old\nuser: me") (codes "m") false 1 tt refl bank_listed refl top_recipients refl
      (web_bank-IsText, tt) (ap (λ r. r.0) bank_shown, tt) bank_restored
      (λ e keys there resolved. tt)
