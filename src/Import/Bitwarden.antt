-- ===== src/Import/Bitwarden.antt =====
-- The Bitwarden importer (crates/bypass-core/src/import/bitwarden.rs). serde_json is a parameter, and
-- so is the formatting of numbers.
pub mod Accounted
pub mod Fields
use bypass.Prelude.{
  ℕ, suc, ◌⊎◌, inl, inr, Bool, true, false, not, ◌&&◌, ◌||◌, Option, none, some, List, [], ◌∷◌,
  ◌++◌, ◌==◌, if◌then◌else◌, is_empty, Outcome, ok, err, ◌>>=◌, returned, map_err,
}
use bypass.Text.{Text, Bytes, codes, text_eq, split, trim}
use bypass.Text.Utf8.{encode}
use bypass.Import.Body.{ImportedEntry, Report, push_note}

pub record Folder : Type 0 where
  pub id : Text
  pub name : Text

pub record Field : Type 0 where
  pub name : Option Text
  pub value : Option Text
  pub field_type : ℕ

pub record Uri : Type 0 where
  pub uri : Option Text

pub record Login : Type 0 where
  pub username : Option Text
  pub password : Option Text
  pub totp : Option Text
  pub uris : List Uri

pub record Item : Type 0 where
  pub item_type : ℕ
  pub name : Option Text
  pub folder_id : Option Text
  pub notes : Option Text
  pub fields : List Field
  pub login : Option Login

pub record Export : Type 0 where
  pub encrypted : Bool
  pub folders : List Folder
  pub items : List Item

pub data BitwardenError (E : Type 0) : Type 0 where
  not_bitwarden : BitwardenError E
  is_encrypted : BitwardenError E
  parse_failed : E → BitwardenError E

abbrev pub or_empty : Option Text → Text
or_empty none = []
or_empty (some s) = s

-- `.filter(|s| !s.is_empty())`
abbrev pub filled : Option Text → Option Text
filled none = none
filled (some s) = if is_empty s then none else some s

abbrev pub later_or : Text → Folder → Option Text → Option Text
later_or id f (some name) = some name
later_or id f none = if text_eq f.id id then some f.name else none

-- The map of the folders' names: a later folder replaces one of the same id.
unfoldable pub folder_name : Text → List Folder → Option Text
folder_name id [] = none
folder_name id (f ∷ fs) = later_or id f (folder_name id fs)

abbrev pub folder_segments : Option Text → List Text
folder_segments none = []
folder_segments (some name) = split b'/' name

abbrev pub folder_of : List Folder → Option Text → List Text
folder_of folders none = []
folder_of folders (some id) = folder_segments (folder_name id folders)

abbrev pub kept_uri : Option Text → List Text → List Text
kept_uri none uris = uris
kept_uri (some u) uris = if is_empty u then uris else u ∷ uris

unfoldable pub kept_uris : List Uri → List Text
kept_uris [] = []
kept_uris (u ∷ us) = kept_uri u.uri (kept_uris us)

abbrev pub keep_field : Option Text → Option Text → List (Text × Text) → List (Text × Text)
keep_field none value rest = rest
keep_field (some name) value rest =
    if is_empty (trim name) then rest else (name, or_empty value) ∷ rest

-- The fields, and how many linked ones were dropped.
unfoldable pub collect_fields : List Field → List (Text × Text) × ℕ
collect_fields [] = ([], 0)
collect_fields (f ∷ fs) =
    let rest = collect_fields fs in
    if f.field_type == 3 then (rest.0, suc rest.1) else (keep_field f.name f.value rest.0, rest.1)

abbrev pub no_login : Login
no_login = record { username = none; password = none; totp = none; uris = [] }

abbrev pub login_or : Option Login → Login
login_or none = no_login
login_or (some l) = l

abbrev pub entry_id : Item → Text
entry_id item =
    if not (is_empty (or_empty item.name)) then or_empty item.name else codes "<unnamed>"

abbrev pub login_entry : List Folder → Item → Login → ImportedEntry
login_entry folders item login = record {
  folder = folder_of folders item.folder_id;
  name = or_empty item.name;
  password = encode (or_empty login.password);
  username = filled login.username;
  fields = (collect_fields item.fields).0;
  totp = filled login.totp;
  notes = filled item.notes;
  uris = kept_uris login.uris;
}

abbrev pub note_entry : List Folder → Item → ImportedEntry
note_entry folders item = record {
  folder = folder_of folders item.folder_id;
  name = or_empty item.name;
  password = [];
  username = none;
  fields = (collect_fields item.fields).0;
  totp = none;
  notes = filled item.notes;
  uris = [];
}

abbrev pub looks_like_bitwarden : Export → Bool
looks_like_bitwarden e = not (is_empty e.items) || not (is_empty e.folders)

module _ (decimal : ℕ → Text) where
  abbrev pub plural : ℕ → Text
  plural n = if n == 1 then [] else codes "s"

  abbrev pub note_linked : Text → Item → Text → Report → Report
  note_linked id item ending report =
      let dropped = (collect_fields item.fields).1 in
      if dropped == 0
      then report
      else push_note id
          (codes "dropped "
            ++ (decimal dropped
                ++ (codes " \"linked\" custom field" ++ (plural dropped ++ ending))))
          report

  abbrev pub skipped_message : ℕ → Text
  skipped_message t =
      if t == 3 || t == 4
      then codes "skipped Bitwarden type-"
        ++ (decimal t
            ++ codes
                " item (cards and identities don't map cleanly to a password entry; export them manually if you need them)")
      else codes "skipped Bitwarden item with unknown type " ++ decimal t

  -- One round of the loop over the items: the entry, if there is one, and the report.
  unfoldable pub read_item : List Folder → Item → Report → List ImportedEntry × Report
  unfolding collect_fields folder_name kept_uris
  read_item folders item report =
      if item.item_type == 1
      then (
        login_entry folders item (login_or item.login) ∷ [],
        note_linked (entry_id item) item (codes " (Bitwarden type-3 — no static value to import)")
            report,
      )
      else if item.item_type == 2
      then (
        note_entry folders item ∷ [],
        push_note (entry_id item)
            (codes
              "secure-note imported with an empty password line (Bitwarden notes have no password field)")
            (note_linked (entry_id item) item (codes " (Bitwarden type-3)") report),
      )
      else ([], push_note (entry_id item) (skipped_message item.item_type) report)

  unfoldable pub read_items : List Folder → List Item → Report → List ImportedEntry × Report
  unfolding read_item
  read_items folders [] report = ([], report)
  read_items folders (item ∷ items) report =
      let read = read_item folders item report in
      let rest = read_items folders items read.1 in (read.0 ++ rest.0, rest.1)

  unfoldable pub parse :
      {E : Type 0}
      → (Bytes → E ⊎ Export)
      → Bytes
      → Outcome (BitwardenError E) (List ImportedEntry × Report)
  unfolding read_items
  parse from_slice bytes = do
    export ← map_err parse_failed (returned (from_slice bytes))
    if export.encrypted
        then err is_encrypted
        else if not (looks_like_bitwarden export)
        then err not_bitwarden
        else ok (read_items export.folders export.items [])
