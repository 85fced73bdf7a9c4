-- ===== src/Examples/Disks.antt =====
-- A file system that runs, and the storages on it at concrete inputs: the files are a function of
-- their paths, `r/l` is a symbolic link, and every other path is a directory.
use bypass.Prelude.{
  ok, abort, ◌≢◌, ℕ, zero, suc, ◌+◌, ◌≡◌, ◌≢◌, ◌⊎◌, inl, inr, refl, ap, true, Bool, Option, none,
  some, [], ◌∷◌, ◌++◌, err, length, arith, if◌then◌else◌,
}
use bypass.Text.{Text, Bytes, codes, text_eq, starts_with, is_some, split}
use bypass.Text.Laws.{text_eq_refl, text_eq-false}
use bypass.RelPath.{RelPath, segments}
use bypass.Fs.{FileSystem, symlink, dir}
use bypass.Fs.Atomic.{IsFileSystem, IsAtomic}
use bypass.Fs.StorageFs as StorageFs
use bypass.Fs.AppStorage as AppStorage
use bypass.Fs.Writes.{write-IsAtomic}
use bypass.Fs.Links.{refused_link}
use bypass.Fs.Shred.{IsSeekable, overwrite_pass_lem}
use bypass.Examples.Paths.{path, web_bank}

abbrev Disk : Type 0
Disk = (Text → Option Bytes) × ℕ

abbrev put : Text → Option Bytes → (Text → Option Bytes) → Text → Option Bytes
put p v f q = if text_eq p q then v else f q

abbrev at_link : Text → Bool
at_link p = text_eq p (codes "r/l")

abbrev or_missing : Option Bytes → (Unit {0}) ⊎ Bytes
or_missing none = inl tt
or_missing (some b) = inr b

abbrev create : Text → Option Bytes → Disk → ((Unit {0}) ⊎ (Unit {0})) × Disk
create p none (f, n) = (inr tt, (put p (some []) f, 0))
create p (some b) disk = (inl tt, disk)

abbrev append : Text → Bytes → Option Bytes → Disk → ((Unit {0}) ⊎ (Unit {0})) × Disk
append p bytes none disk = (inl tt, disk)
append p bytes (some old) (f, n) = (inr tt, (put p (some (old ++ bytes)) f, n + length bytes))

abbrev move : Text → Text → Option Bytes → Disk → ((Unit {0}) ⊎ (Unit {0})) × Disk
move p q none disk = (inl tt, disk)
move p q (some b) (f, n) = (inr tt, (put q (some b) (put p none f), n))

abbrev pub disk_fs : FileSystem
disk_fs = record {
  State = Disk;
  FilePath = Text;
  Error = Unit {0};
  is_not_found = λ e. true;
  join = λ p s. p ++ (codes "/" ++ s);
  starts_with = starts_with;
  parent = λ p. none;
  file_name = λ p. some p;
  dot = codes ".";
  symlink_metadata = λ s p. inr (if at_link p then symlink else dir);
  exists = λ s p. is_some (s.0 p);
  len = λ s p. inr 5000;
  read = λ s p. or_missing (s.0 p);
  create_dir_all = λ p s. (inr tt, s);
  create_new = λ p s. create p (s.0 p) s;
  open_write = λ p s. (inr tt, s);
  seek_start = λ p s. (inr tt, (s.0, 0));
  write_all = λ p bytes s. append p bytes (s.0 p) s;
  sync_all = λ p s. (inr tt, s);
  rename = λ p q s. move p q (s.0 p) s;
  remove_file = λ p s. (inr tt, (put p none s.0, s.1));
}

missing_ok : (o : Option Bytes) (bytes : Bytes) → or_missing o ≡ inr bytes → o ≡ some bytes
missing_ok none bytes h = cc
missing_ok (some b) bytes h = ground arith

missing_not_found :
    (o : Option Bytes) (e : Unit {0}) → or_missing o ≡ inl e → true ≡ true → o ≡ none
missing_not_found none e h t = refl
missing_not_found (some b) e h t = cc

create_fresh :
    (p : Text) (o : Option Bytes) (s : Disk)
    → (create p o s).0 ≡ inr tt
    → (o ≡ none) × ((create p o s).1.0 p ≡ some [])
create_fresh p none s h = (refl, rw (text_eq_refl p))
create_fresh p (some b) s h = cc

create_other : (p q : Text) (o : Option Bytes) (s : Disk) → p ≢ q → (create p o s).1.0 q ≡ s.0 q
create_other p q none s ne = rw (text_eq-false p q ne)
create_other p q (some b) s ne = refl

create_err :
    (p q : Text) (o : Option Bytes) (s : Disk) (e : Unit {0})
    → (create p o s).0 ≡ inl e
    → (create p o s).1.0 q ≡ s.0 q
create_err p q none s e h = cc
create_err p q (some b) s e h = refl

append_other :
    (p q : Text) (bytes : Bytes) (o : Option Bytes) (s : Disk)
    → p ≢ q
    → (append p bytes o s).1.0 q ≡ s.0 q
append_other p q bytes none s ne = refl
append_other p q bytes (some b) s ne = rw (text_eq-false p q ne)

append_moved :
    (p : Text) (bytes : Bytes) (o : Option Bytes) (s : Disk)
    → (append p bytes o s).0 ≡ inr tt
    → (append p bytes o s).1.1 ≡ s.1 + length bytes
append_moved p bytes none s h = cc
append_moved p bytes (some b) s h = refl

move_ok :
    (p q : Text) (o : Option Bytes) (s : Disk)
    → (move p q o s).0 ≡ inr tt
    → (move p q o s).1.0 q ≡ o
move_ok p q none s h = cc
move_ok p q (some b) s h = rw (text_eq_refl q)

move_other :
    (p q r : Text) (o : Option Bytes) (s : Disk) → p ≢ r → q ≢ r → (move p q o s).1.0 r ≡ s.0 r
move_other p q r none s np nq = refl
move_other p q r (some b) s np nq = rw (text_eq-false q r nq, text_eq-false p r np)

move_err :
    (p q r : Text) (o : Option Bytes) (s : Disk) (e : Unit {0})
    → (move p q o s).0 ≡ inl e
    → (move p q o s).1.0 r ≡ s.0 r
move_err p q r none s e h = refl
move_err p q r (some b) s e h = cc

pub disk_fs-IsFileSystem : IsFileSystem disk_fs
disk_fs-IsFileSystem = record {
  content = λ s p. s.0 p;
  read_ok = λ s p bytes. missing_ok (s.0 p) bytes;
  read_not_found = λ s p e. missing_not_found (s.0 p) e;
  content-create_dir_all = λ s p q. refl;
  create_new_fresh = λ s p. create_fresh p (s.0 p) s;
  create_new_other = λ s p q. create_other p q (s.0 p) s;
  create_new_err = λ s p q e. create_err p q (s.0 p) s e;
  write_all_ok = λ s p bytes empty h. rw (empty, text_eq_refl p);
  write_all_other = λ s p q bytes. append_other p q bytes (s.0 p) s;
  content-sync_all = λ s p q. refl;
  remove_file_other = λ s p q ne. rw (text_eq-false p q ne);
  rename_ok = λ s p q. move_ok p q (s.0 p) s;
  rename_other = λ s p q r. move_other p q r (s.0 p) s;
  rename_err = λ s p q r e. move_err p q r (s.0 p) s e;
}

abbrev disk_fs-IsSeekable : IsSeekable disk_fs
disk_fs-IsSeekable = record {
  position = λ s p. s.1;
  seek_start_lem = λ s p h. refl;
  write_all_lem = λ s p bytes. append_moved p bytes (s.0 p) s;
  sync_all_lem = λ s p. refl;
}

abbrev pub old_disk : Disk
old_disk = (put (codes "r/web/bank") (some (codes "old")) (λ p. none), 0)

write-IsAtomic_example :
    IsAtomic disk_fs disk_fs-IsFileSystem StorageFs.io_error
      (codes "r/web/bank")
      (codes "new")
      old_disk
      (StorageFs.write disk_fs (codes "r") (λ n. codes "7") 7 9 web_bank (codes "new") old_disk)
    × IsAtomic disk_fs disk_fs-IsFileSystem AppStorage.io_error
        (codes "r/web/bank")
        (codes "new")
        old_disk
        (AppStorage.write disk_fs (codes "r") (λ n. codes "7") 7 9 web_bank (codes "new") old_disk)
unfolding StorageFs.unique_tmp_path AppStorage.unique_tmp_path
write-IsAtomic_example =
    write-IsAtomic disk_fs (codes "r") web_bank disk_fs-IsFileSystem (codes "new") (λ n. codes "7")
      7 9 old_disk (λ e. cc) (λ e. cc)

abbrev linked : RelPath
linked = path (codes "l/x")

refused_link_example :
    (StorageFs.read disk_fs (codes "r") linked old_disk
      ≡ (err (StorageFs.symlink_in_store (codes "r/l")), old_disk))
    × (StorageFs.exists disk_fs (codes "r") linked old_disk
        ≡ (err (StorageFs.symlink_in_store (codes "r/l")), old_disk))
    × (StorageFs.write disk_fs (codes "r") (λ n. []) 7 9 linked (codes "x") old_disk
        ≡ (err (StorageFs.symlink_in_store (codes "r/l")), old_disk))
    × (StorageFs.remove disk_fs (codes "r") (λ p r n. []) linked old_disk
        ≡ (err (StorageFs.symlink_in_store (codes "r/l")), old_disk))
unfolding segments text_eq starts_with split
refused_link_example =
    refused_link disk_fs (codes "r") (codes "r/l") linked (codes "x") (λ n. []) 7 9 (λ p r n. [])
      old_disk refl (inl (refl, refl))

abbrev zeros_of : ℕ → Bytes
zeros_of zero = []
zeros_of (suc n) = 0 ∷ zeros_of n

length-zeros_of : (n : ℕ) → length (zeros_of n) ≡ n
length-zeros_of zero = refl
length-zeros_of (suc n) = ap suc (length-zeros_of n)

overwrite_pass_lem_example :
    ((StorageFs.overwrite_pass disk_fs (λ p r n. zeros_of n) (codes "r/web/bank") 5000 3 old_disk).0
      ≢ abort)
    × ((StorageFs.overwrite_pass disk_fs
            (λ p r n. zeros_of n)
            (codes "r/web/bank")
            5000
            3
            old_disk).0
          ≡ ok tt
        → (StorageFs.overwrite_pass disk_fs
            (λ p r n. zeros_of n)
            (codes "r/web/bank")
            5000
            3
            old_disk).1.1
          ≡ 5000)
overwrite_pass_lem_example =
    overwrite_pass_lem disk_fs disk_fs-IsSeekable (λ p r n. zeros_of n) (λ p r n. length-zeros_of n)
      (codes "r/web/bank") 5000 3 old_disk
