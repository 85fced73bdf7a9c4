-- ===== src/Examples/Imports.antt =====
-- The import of a batch and of rows at concrete inputs.
use bypass.Prelude.{
  ℕ, Option, false, some, inr, ◌≡◌, ◌≢◌, ◌⊎◌, inr, refl, none, List, [], ◌∷◌, All, length, ok,
}
use bypass.Text
use bypass.Text.{Text, Bytes, codes}
use bypass.Text.Utf8
use bypass.RelPath.{RelPath}
use bypass.RelPath
use bypass.Import
use bypass.Import.Body
use bypass.Import.Body.{ImportedEntry, Report}
use bypass.Import.Prepare.{
  PreparedEntry, prepare, IsPrepared, prepare-IsPrepared, desired_paths, resolve_paths, bodies,
}
use bypass.Import.Csv.{Role, parse_rows}
use bypass.Import.Csv.Named.{parse_rows-named}
use bypass.RelPath.{IsValid}
use bypass.Text.{text_eq, is_some}
use bypass.Import.Bitwarden
use bypass.Import.Bitwarden.{
  Field, Item, Folder, Export, parse, read_items, login_entry, no_login, skipped_message,
}
use bypass.Import.Bitwarden.Accounted.{IsAccounted, parse-IsAccounted, note}
use bypass.Import.Driver.{import_entries}
use bypass.Import.Driver.Existing.{blob-import_entries}
use bypass.Store.Blobs.RoundTrip.{blob_of}
use bypass.Vcs.{no_vcs}
use bypass.Examples.Backends.{lookup, mem_storage, mem_storage-IsBlobMap, marking, store_of}
use bypass.Examples.Paths.{web_bank, web_bank-IsValid}
use bypass.Examples.Hosting.{bank_files}

abbrev bank_item : ImportedEntry
bank_item = record {
  folder = [];
  name = codes "Bank";
  password = codes "1234";
  username = none;
  fields = [];
  totp = none;
  notes = none;
  uris = [];
}

abbrev prepared_bank : PreparedEntry
prepared_bank = record { path = record { as_str = codes "bank" }; body = codes "1234\n" }

prepared : prepare (λ b. b) (λ n. []) (λ t. t) (bank_item ∷ []) [] ≡ ok (prepared_bank ∷ [], [])
unfolding prepare desired_paths resolve_paths bodies Body.serialise_body Import.slug_path
    Import.slug_char RelPath.new Text.split Text.join Text.nonempty Text.contains Text.starts_with
    Text.ends_with Utf8.encode
prepared = refl

prepare-IsPrepared_example :
    IsPrepared (λ b. b) (λ n. []) (λ t. t) [] (bank_item ∷ []) (prepared_bank ∷ [])
prepare-IsPrepared_example =
    prepare-IsPrepared (λ b. b) (λ n. []) (λ t. t) (bank_item ∷ []) [] (prepared_bank ∷ [], [])
      prepared

abbrev roles : List Role
roles = Role.name ∷ Role.password ∷ []

abbrev rows : List (Text ⊎ List Text)
rows = inr (codes "Bank" ∷ codes "1234" ∷ []) ∷ []

parsed : parse_rows (λ n. []) 1 roles [] rows ≡ ok (bank_item ∷ [], [])
unfolding parse_rows Text.trim Text.is_whitespace Utf8.encode
parsed = refl

parse_rows-named_example :
    (length (bank_item ∷ []) ≡ length rows)
    × All (λ e. e.name ≢ []) (bank_item ∷ [])
    × All (λ r. (columns : List Text) × (r ≡ inr columns) × (length columns ≡ 2)) rows
parse_rows-named_example = parse_rows-named (λ n. []) rows 1 roles [] (bank_item ∷ [], []) parsed

abbrev field : ℕ → Option Text → Field
field t name = record { name = name; value = some (codes "v"); field_type = t }

abbrev login_item : Item
login_item = record {
  item_type = 1;
  name = some (codes "Bank");
  folder_id = some (codes "f1");
  notes = none;
  fields = field 0 (some (codes "pin")) ∷ field 3 (some (codes "ref")) ∷ field 0 none ∷ [];
  login = none;
}

abbrev card_item : Item
card_item = record {
  item_type = 3;
  name = some (codes "Visa");
  folder_id = none;
  notes = none;
  fields = [];
  login = none;
}

abbrev vault : Export
vault = record {
  encrypted = false;
  folders = record { id = codes "f1"; name = codes "Money/Cash" } ∷ [];
  items = login_item ∷ card_item ∷ [];
}

abbrev from_vault : Bytes → Text ⊎ Export
from_vault bytes = inr vault

abbrev vault_entries : List ImportedEntry × Report
vault_entries = (
  record {
    folder = codes "Money" ∷ codes "Cash" ∷ [];
    name = codes "Bank";
    password = [];
    username = none;
    fields = (codes "pin", codes "v") ∷ [];
    totp = none;
    notes = none;
    uris = [];
  }
      ∷ [],
  note (codes "Bank")
        (codes "dropped 3 \"linked\" custom field (Bitwarden type-3 — no static value to import)")
      ∷ note (codes "Visa") (skipped_message (λ n. codes "3") 3)
      ∷ [],
)

vault_parsed : parse (λ n. codes "3") from_vault [] ≡ ok vault_entries
unfolding parse Bitwarden.read_items Bitwarden.collect_fields Text.split Text.trim
    Text.is_whitespace text_eq Utf8.encode
vault_parsed = refl

parse-IsAccounted_example :
    (false ≡ false) × All (IsAccounted vault_entries) (login_item ∷ card_item ∷ [])
parse-IsAccounted_example =
    parse-IsAccounted (λ n. codes "3") from_vault [] vault vault_entries refl vault_parsed

blob-import_entries_example :
    lookup
      (blob_of web_bank)
      (import_entries marking mem_storage no_vcs ⊥
        (λ b. b)
        (λ n. [])
        (λ t. t)
        (bank_item ∷ [])
        []
        (codes "CSV")
        (store_of bank_files)).1.storage
    ≡ lookup (blob_of web_bank) bank_files
unfolding lookup text_eq
blob-import_entries_example =
    blob-import_entries marking mem_storage no_vcs mem_storage-IsBlobMap ⊥ (λ b. b) (λ n. [])
      (λ t. t) (bank_item ∷ []) [] (codes "CSV") web_bank (store_of bank_files) tt web_bank-IsValid
      refl
