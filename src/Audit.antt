-- ===== src/Audit.antt =====
-- The leak audit (crates/bypass-cli/src/audit.rs): which of the files about to be published look like
-- ciphertext or known metadata. The listing by git and the reading of files are parameters.
pub mod Publishable
use bypass.Prelude.{
  ℕ, Bool, true, false, ◌&&◌, ◌||◌, Option, none, some, List, [], ◌∷◌, leb, if◌then◌else◌, length,
  Outcome, ok, err, ◌>>=◌,
}
use bypass.Text.{Text, Bytes, codes, text_eq, starts_with, ends_with}
use bypass.Text.Utf8.{encode}

pub data LeakKind : Type 0 where
  editor_backup not_encrypted unknown_filename : LeakKind

pub record LeakIssue (FilePath : Type 0) : Type 0 where
  pub path : FilePath
  pub kind : LeakKind
  pub detail : Text

abbrev pub armour : Bytes
armour = codes "-----BEGIN PGP MESSAGE-----"

abbrev pub is_packet_header : Bytes → Bool
is_packet_header [] = false
is_packet_header (first ∷ rest) = leb 0x80 first && leb first 0xff

unfoldable pub looks_like_openpgp : Bytes → Bool
looks_like_openpgp head = is_packet_header head || starts_with head armour

unfoldable pub is_allowlisted_metadata : Text → Bool
is_allowlisted_metadata name =
    (text_eq name (codes ".gpg-id")
      || text_eq name (codes ".gpg-id.sig")
      || text_eq name (codes ".gitignore")
      || text_eq name (codes ".gitattributes"))
    || (starts_with name (codes "README") || starts_with name (codes "LICENSE"))

unfoldable pub is_editor_backup : Text → Bool
is_editor_backup name =
    if starts_with name (codes ".")
      && (ends_with name (codes ".swp") || ends_with name (codes ".swo"))
    then true
    else if starts_with name (codes "#")
        && (ends_with name (codes "#") && leb 2 (length (encode name)))
    then true
    else ends_with name (codes "~")
      || ends_with name (codes ".orig")
      || ends_with name (codes ".rej")
      || ends_with name (codes ".bak")

abbrev pub or_blank : Option Text → Text
or_blank none = []
or_blank (some name) = name

-- What reading a file of the working tree gives.
pub data FileRead (E : Type 0) : Type 0 where
  contents : Bytes → FileRead E
  not_found : FileRead E
  failed : E → FileRead E

-- `Path::file_name` as text.
module _ {FilePath : Type 0} (file_name : FilePath → Option Text) where
  unfoldable pub check_file : FilePath → Bytes → Option (LeakIssue FilePath)
  check_file path head =
      let name = or_blank (file_name path) in
      if is_editor_backup name
      then some (record {
        path = path;
        kind = editor_backup;
        detail = codes "editor-backup naming pattern";
      })
      else if ends_with name (codes ".gpg")
      then (if looks_like_openpgp head
          then none
          else some (record {
            path = path;
            kind = not_encrypted;
            detail = codes "no OpenPGP packet or ASCII-armour header";
          }))
      else if is_allowlisted_metadata name
      then none
      else some (record {
        path = path;
        kind = unknown_filename;
        detail = codes "not `*.gpg` or recognised metadata";
      })

  abbrev pub push_issue :
      Option (LeakIssue FilePath) → List (LeakIssue FilePath) → List (LeakIssue FilePath)
  push_issue none out = out
  push_issue (some issue) out = issue ∷ out

  unfoldable pub check_files : List (FilePath × Bytes) → List (LeakIssue FilePath)
  check_files [] = []
  check_files ((path, bytes) ∷ files) = push_issue (check_file path bytes) (check_files files)

  module _ {E : Type 0} (read : FilePath → FileRead E) where
    abbrev pub load_step :
        FilePath
        → FileRead E
        → Outcome E (List (FilePath × Bytes))
        → Outcome E (List (FilePath × Bytes))
    load_step rel (contents bytes) rest = rest >>= λ pairs. ok ((rel, bytes) ∷ pairs)
    load_step rel not_found rest = rest
    load_step rel (failed e) rest = err e

    -- The loop of `audit_for_push`.
    unfoldable pub load : List FilePath → Outcome E (List (FilePath × Bytes))
    load [] = ok []
    load (rel ∷ files) = load_step rel (read rel) (load files)

    unfoldable pub audit_for_push :
        Outcome E (List FilePath) → Outcome E (List (LeakIssue FilePath))
    unfolding load check_files
    audit_for_push files_to_audit = do
      files ← files_to_audit
      pairs ← load files
      ok (check_files pairs)
