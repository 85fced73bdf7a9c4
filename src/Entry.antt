-- ===== src/Entry.antt =====
-- Entries as text (crates/bypass-core/src/entry.rs): the password on the first line, then lines
-- `key: value`. Unicode's lowercase is a parameter.
pub mod RoundTrip
use bypass.Prelude.{
  ◌⊎◌, inl, inr, Bool, Option, none, some, List, [], ◌∷◌, ◌++◌, if◌then◌else◌, is_empty, map,
}
use bypass.Text.{Text, Bytes, text_eq, split, split_once, strip_cr, trim}
use bypass.Text.Utf8.{from_utf8}

pub data EntryError : Type 0 where
  not_utf8 : EntryError

pub record Entry : Type 0 where
  pub password : Text
  pub fields : List (Text × Text)

module _ (to_lowercase : Text → Text) where
  abbrev pub push_field : Option (Text × Text) → List (Text × Text) → List (Text × Text)
  push_field none fields = fields
  push_field (some (k, v)) fields =
      if is_empty (trim k) then fields else (to_lowercase (trim k), trim v) ∷ fields

  -- The loop of `parse_str` over the lines behind the first.
  unfoldable pub fields_of : List Text → List (Text × Text)
  fields_of [] = []
  fields_of (line ∷ lines) =
      let rest = fields_of lines in
      if is_empty line then rest else push_field (split_once b':' line) rest

  abbrev entry_of : List Text → Entry
  entry_of [] = record { password = []; fields = [] }
  entry_of (password ∷ lines) = record { password = password; fields = fields_of lines }

  unfoldable pub parse_str : Text → Entry
  unfolding fields_of
  parse_str text = entry_of (map strip_cr (split b'\n' text))

  abbrev parsed : Option Text → EntryError ⊎ Entry
  parsed none = inl not_utf8
  parsed (some text) = inr (parse_str text)

  unfoldable pub parse : Bytes → EntryError ⊎ Entry
  unfolding parse_str
  parse bytes = parsed (from_utf8 bytes)

  unfoldable pub find_field : Text → List (Text × Text) → Option Text
  find_field needle [] = none
  find_field needle ((k, v) ∷ fields) =
      if text_eq k needle then some v else find_field needle fields

  unfoldable pub field : Text → Entry → Option Text
  unfolding find_field
  field name entry = find_field (to_lowercase name) entry.fields
