-- ===== src/Import/Csv.antt =====
-- The CSV importer (crates/bypass-core/src/import/csv.rs). The records that the csv library reads are
-- a parameter; so is the formatting of numbers.
pub mod Named
use bypass.Prelude.{
  ℕ, ◌+◌, suc, ◌⊎◌, inl, inr, Bool, true, false, not, ◌&&◌, ◌||◌, Option, none, some, List, [], ◌∷◌,
  ◌++◌, ◌==◌, if◌then◌else◌, is_empty, map, any, length, Outcome, ok, err, abort, ◌>>=◌, ok_or,
  returned, map_err,
}
use bypass.Text.{Text, Bytes, codes, text_eq, split, join, trim, nonempty, to_ascii_lowercase}
use bypass.Text.Utf8.{encode}
use bypass.Import.Body.{ImportedEntry, Report, push_note}

pub data CsvError (E : Type 0) : Type 0 where
  empty_schema schema_missing_password : CsvError E
  parse_failed : E → CsvError E
  column_count : ℕ → ℕ → ℕ → CsvError E
  unnamed_row missing_password : ℕ → CsvError E

pub data Role : Type 0 where
  name folder password username url totp notes skip : Role
  custom : Text → Role

abbrev pub one_of : Text → List Text → Bool
one_of s names = any (text_eq s) names

-- The role that a lowercase name stands for; `s` is the name as it was written.
unfoldable pub role_named : Text → Text → Role
role_named lower s =
    if one_of lower (codes "name" ∷ [])
    then Role.name
    else if one_of lower (codes "folder" ∷ [])
    then Role.folder
    else if one_of lower (codes "password" ∷ [])
    then Role.password
    else if one_of lower (codes "username" ∷ codes "login" ∷ [])
    then Role.username
    else if one_of lower (codes "url" ∷ codes "uri" ∷ [])
    then Role.url
    else if one_of lower (codes "totp" ∷ codes "otpauth" ∷ [])
    then Role.totp
    else if one_of lower (codes "notes" ∷ codes "note" ∷ [])
    then Role.notes
    else if one_of lower ([] ∷ codes "-" ∷ codes "_" ∷ codes "skip" ∷ [])
    then Role.skip
    else custom s

abbrev pub role_of : Text → Role
role_of s = role_named (map to_ascii_lowercase (trim s)) (trim s)

abbrev pub is_password : Role → Bool
is_password Role.password = true
is_password _ = false

-- `CsvSchema::parse`; a schema is its list of roles.
unfoldable pub parse_schema : {E : Type 0} → Text → Outcome (CsvError E) (List Role)
unfolding role_named
parse_schema spec =
    let roles = map role_of (split b',' spec) in
    if is_empty roles
    then err empty_schema
    else if not (any is_password roles)
    then err schema_missing_password
    else ok roles

-- The local variables of `build_entry`.
pub record Row : Type 0 where
  pub name_ : Text
  pub folder_ : List Text
  pub password_ : Option Text
  pub username_ : Option Text
  pub uris_ : List Text
  pub totp_ : Option Text
  pub notes_ : Option Text
  pub fields_ : List (Text × Text)

abbrev pub blank_row : Row
blank_row = record {
  name_ = [];
  folder_ = [];
  password_ = none;
  username_ = none;
  uris_ = [];
  totp_ = none;
  notes_ = none;
  fields_ = [];
}

abbrev pub folder_parts : Text → List Text
folder_parts value = nonempty (map trim (split b'/' value))

-- One column of a row, whose value is not empty.
unfoldable pub set_column : Role → Text → Row → Row
set_column Role.name value row = record row { name_ = value }
set_column Role.folder value row = record row { folder_ = folder_parts value }
set_column Role.password value row = record row { password_ = some value }
set_column Role.username value row = record row { username_ = some value }
set_column Role.url value row = record row { uris_ = row.uris_ ++ value ∷ [] }
set_column Role.totp value row = record row { totp_ = some value }
set_column Role.notes value row = record row { notes_ = some value }
set_column Role.skip value row = row
set_column (custom key) value row = record row { fields_ = row.fields_ ++ (key, value) ∷ [] }

-- The loop over the columns; a skipped column changes nothing, empty or not.
unfoldable pub read_columns : List Role → List Text → Row → Row
unfolding set_column
read_columns (role ∷ roles) (raw ∷ raws) row =
    read_columns roles raws (if is_empty (trim raw) then row else set_column role (trim raw) row)
read_columns [] raws row = row
read_columns (role ∷ roles) [] row = row

-- `Vec::pop`: the others, and the last one.
unfoldable pub pop : List Text → Option (List Text × Text)
pop [] = none
pop (x ∷ []) = some ([], x)
pop (x ∷ (y ∷ r)) = elim (pop (y ∷ r)) [ none ↦ none | some p ↦ some (x ∷ p.0, p.1) ]

module _ (decimal : ℕ → Text) where
  abbrev pub label : List Text → Text → Text
  label parts title =
      if is_empty parts then title else join (codes "/") parts ++ (codes "/" ++ title)

  abbrev pub last_folder_note : ℕ → Text
  last_folder_note row =
      codes "row "
      ++ (decimal row
          ++ codes ": no `name` column populated; used last folder segment as the entry name")

  abbrev pub rename_row : ℕ → Row → Report → Option (List Text × Text) → Row × Report
  rename_row n row report none = (row, report)
  rename_row n row report (some (rest, last)) = (
    record row { name_ = last; folder_ = rest },
    push_note (label rest last) (last_folder_note n) report,
  )

  -- A row without a name takes the last part of its folder for one.
  unfoldable pub named_row : ℕ → Row → Report → Row × Report
  unfolding pop
  named_row n row report =
      if is_empty row.name_ then rename_row n row report (pop row.folder_) else (row, report)

  abbrev pub entry_of : Row → Text → ImportedEntry
  entry_of row secret = record {
    folder = row.folder_;
    name = row.name_;
    password = encode secret;
    username = row.username_;
    fields = row.fields_;
    totp = row.totp_;
    notes = row.notes_;
    uris = row.uris_;
  }

  -- The result with the report.
  unfoldable pub build_entry :
      {E : Type 0}
      → ℕ
      → List Role
      → List Text
      → Report
      → Outcome (CsvError E) (ImportedEntry × Report)
  unfolding read_columns named_row
  build_entry n roles columns report =
      let row = read_columns roles columns blank_row in
      if is_empty row.name_ && is_empty row.folder_ then err (unnamed_row n) else do
        let named = named_row n row report
        secret ← ok_or named.0.password_ (missing_password n)
        ok (entry_of named.0 secret, named.1)

  -- The loop of `parse` from the row with this number on.
  unfoldable pub parse_rows :
      {E : Type 0}
      → ℕ
      → List Role
      → Report
      → List (E ⊎ List Text)
      → Outcome (CsvError E) (List ImportedEntry × Report)
  unfolding build_entry
  parse_rows n roles report [] = ok ([], report)
  parse_rows n roles report (record_ ∷ records) = do
    columns ← map_err parse_failed (returned record_)
    built ←
        (if length columns == length roles
          then build_entry n roles columns report
          else err (column_count n (length columns) (length roles)))
    rest ← parse_rows (suc n) roles built.1 records
    ok (built.0 ∷ rest.0, rest.1)

  unfoldable pub parse_csv :
      {E : Type 0}
      → List Role
      → Bool
      → List (E ⊎ List Text)
      → Outcome (CsvError E) (List ImportedEntry × Report)
  unfolding parse_rows
  parse_csv roles has_header records = parse_rows (if has_header then 2 else 1) roles [] records
