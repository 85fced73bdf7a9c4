-- ===== src/Import/Driver.antt =====
-- The driver of an import (crates/bypass-cli/src/import.rs): the lines of an extension's output, and
-- the writing of the entries that a parser gave. serde_json is a parameter.
pub mod Existing
use bypass.Prelude.{
  ℕ, ◌+◌, suc, ◌⊎◌, inl, inr, Option, none, some, List, [], ◌∷◌, ◌++◌, Outcome, ok, err, abort,
  map_err, returned, ◌==◌, if◌then◌else◌, is_empty, length,
}
use bypass.Exec.{Exec, pure, raise, lift, ◌>>=◌, ◌>>◌}
use bypass.Text.{Text, Bytes, codes, trim}
use bypass.Text.Utf8.{encode}
use bypass.RelPath.{RelPath}
use bypass.Crypto.{Crypto}
use bypass.Storage.{Storage}
use bypass.Vcs.{VersionControl}
use bypass.Store.{Store, StoreError, list, insert_no_commit, commit_changes}
use bypass.Import.Body.{ImportedEntry, Report}
use bypass.Import.Prepare.{PreparedEntry, ImportError, prepare}

pub record WireEntry : Type 0 where
  pub folder : List Text
  pub name : Text
  pub password : Text
  pub username : Option Text
  pub fields : List (Text × Text)
  pub totp : Option Text
  pub notes : Option Text
  pub uris : List Text

abbrev pub not_blank : Option Text → Option Text
not_blank none = none
not_blank (some s) = if is_empty s then none else some s

unfoldable pub from_wire : WireEntry → ImportedEntry
from_wire w = record {
  folder = w.folder;
  name = w.name;
  password = encode w.password;
  username = not_blank w.username;
  fields = w.fields;
  totp = not_blank w.totp;
  notes = not_blank w.notes;
  uris = w.uris;
}

pub data DriverError (JE SE : Type 0) : Type 0 where
  read_line : DriverError JE SE
  parse_line : ℕ → JE → DriverError JE SE
  nothing_importable : DriverError JE SE
  refused : ImportError → DriverError JE SE
  store_failed : SE → DriverError JE SE

-- An entry before the others, with the first error of the two.
abbrev pub read_on :
    {JE SE : Type 0}
    → Outcome (DriverError JE SE) WireEntry
    → Outcome (DriverError JE SE) (List ImportedEntry)
    → Outcome (DriverError JE SE) (List ImportedEntry)
read_on (ok wire) (ok entries) = ok (from_wire wire ∷ entries)
read_on (ok wire) (err e) = err e
read_on (ok wire) abort = abort
read_on (err e) rest = err e
read_on abort rest = abort

-- The loop of `read_ndjson_stream`, over the lines as `read_line` gives them, from the line after
-- this number on.
unfoldable pub read_ndjson :
    {JE SE : Type 0}
    → (Text → JE ⊎ WireEntry)
    → ℕ
    → List Text
    → Outcome (DriverError JE SE) (List ImportedEntry)
read_ndjson from_str lineno [] = ok []
read_ndjson from_str lineno (line ∷ lines) =
    let rest = read_ndjson from_str (suc lineno) lines in
    if is_empty (trim line)
    then rest
    else read_on (map_err (parse_line (suc lineno)) (returned (from_str (trim line)))) rest

module _ (𝓒 : Crypto) (𝓢 : Storage) (𝓥 : VersionControl) (JE : Type 0)
    (from_utf8_lossy : Bytes → Text) (decimal : ℕ → Text) (quoted : Text → Text) where
  abbrev pub Error : Type 0
  Error = DriverError JE (StoreError 𝓒.Error 𝓢.Error 𝓥.Error)

  abbrev pub Driving : Type 0 → Type 0
  Driving A = Exec (Store 𝓒 𝓢 𝓥) Error A

  abbrev pub on_store :
      {A : Type 0} → Exec (Store 𝓒 𝓢 𝓥) (StoreError 𝓒.Error 𝓢.Error 𝓥.Error) A → Driving A
  on_store call st = (map_err store_failed (call st).0, (call st).1)

  -- The loop of `run` over the prepared entries: their blobs.
  unfoldable pub insert_all : List PreparedEntry → Driving (List RelPath)
  insert_all [] = pure []
  insert_all (entry ∷ entries) = do
    blob ← on_store (insert_no_commit 𝓒 𝓢 𝓥 entry.path entry.body)
    blobs ← insert_all entries
    pure (blob ∷ blobs)

  abbrev import_message : ℕ → Text → Text
  import_message n label =
      codes "bypass: Import " ++ (decimal n ++ (codes " entries from " ++ label))

  -- One commit, if anything was written.
  abbrev pub commit_blobs : List RelPath → Text → Driving (Unit {0})
  commit_blobs blobs label =
      if is_empty blobs
      then pure tt
      else on_store (commit_changes 𝓒 𝓢 𝓥 blobs (import_message (length blobs) label))

  -- `run` from the parsed entries on: the number of the entries written, and the report.
  unfoldable pub import_entries : List ImportedEntry → Report → Text → Driving (ℕ × Report)
  unfolding insert_all
  import_entries entries report label = if is_empty entries then raise nothing_importable else do
    existing ← on_store (list 𝓒 𝓢 𝓥 none)
    prepared ← lift (map_err refused (prepare from_utf8_lossy decimal quoted entries existing))
    blobs ← insert_all prepared.0
    commit_blobs blobs label
    pure (length blobs, report ++ prepared.1)
