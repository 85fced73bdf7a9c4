-- ===== src/Import/Body.antt =====
-- The body of an imported entry (crates/bypass-core/src/import.rs), with the notes on what was lost.
-- Lossy decoding and the formatting of numbers and of quoted keys are parameters.
use bypass.Prelude.{
  ℕ, ◌+◌, suc, Bool, true, false, Option, none, some, List, [], ◌∷◌, ◌++◌, ◌==◌, if◌then◌else◌,
  is_empty,
}
use bypass.Text.{Text, Bytes, codes, contains, ends_with, trim}
use bypass.Text.Utf8.{encode}

pub record ImportedEntry : Type 0 where
  pub folder : List Text
  pub name : Text
  pub password : Bytes
  pub username : Option Text
  pub fields : List (Text × Text)
  pub totp : Option Text
  pub notes : Option Text
  pub uris : List Text

pub record LossinessNote : Type 0 where
  pub entry : Text
  pub message : Text

-- `LossinessReport`
abbrev pub Report : Type 0
Report = List LossinessNote

abbrev pub push_note : Text → Text → Report → Report
push_note entry message report = report ++ record { entry = entry; message = message } ∷ []

unfoldable pub flatten_newlines : Text → Text
flatten_newlines [] = []
flatten_newlines (c ∷ s) =
    let rest = flatten_newlines s in
    if c == b'\n' then b'\\' ∷ b'n' ∷ rest else if c == b'\r' then rest else c ∷ rest

module _ (from_utf8_lossy : Bytes → Text) (decimal : ℕ → Text) (quoted : Text → Text) where
  -- A body under construction, with the report.
  abbrev pub Draft : Type 0
  Draft = Text × Report

  unfoldable pub push_kv : Text → Text → Text → Draft → Draft
  push_kv path key value (body, report) = (
    body ++ (key ++ (codes ": " ++ (flatten_newlines value ++ codes "\n"))),
    if contains b'\n' value
        then push_note path
            (codes "field " ++ (quoted key ++ codes " contained newlines; flattened to `\\n`"))
            report
        else report,
  )

  abbrev pub push_optional : Text → Text → Option Text → Draft → Draft
  push_optional path key none draft = draft
  push_optional path key (some value) draft = push_kv path key value draft

  unfoldable pub push_fields : Text → List (Text × Text) → Draft → Draft
  push_fields path [] draft = draft
  push_fields path ((k, v) ∷ fields) draft = push_fields path fields (
      if is_empty (trim k)
      then (draft.0, push_note path (codes "field with empty key dropped") draft.1)
      else push_kv path (trim k) v draft)

  -- The key of the address with this index.
  abbrev pub uri_key : ℕ → Text
  uri_key i = if i == 0 then codes "url" else codes "url-" ++ decimal (i + 1)

  unfoldable pub push_uris : Text → ℕ → List Text → Draft → Draft
  push_uris path i [] draft = draft
  push_uris path i (uri ∷ uris) draft =
      push_uris path (suc i) uris (push_kv path (uri_key i) uri draft)

  unfoldable pub push_notes : Option Text → Text → Text
  push_notes none body = body
  push_notes (some notes) body =
      if is_empty notes
      then body
      else body
        ++ (codes "\n" ++ (notes ++ (if ends_with notes (codes "\n") then [] else codes "\n")))

  abbrev pub note_if : Bool → Text → Text → Report → Report
  note_if true path message report = push_note path message report
  note_if false path message report = report

  unfoldable pub serialise_body : ImportedEntry → Text → Report → Bytes × Report
  unfolding flatten_newlines push_kv push_fields push_uris push_notes
  serialise_body entry path report =
      let password = from_utf8_lossy entry.password in
      let noted =
        note_if (contains b'\n' password) path
          (codes "password contained newlines; flattened to `\\n` to keep the entry parseable")
          (note_if (contains 0xfffd password) path
            (codes "password contained non-UTF-8 bytes; replaced with U+FFFD") report) in
      let first : Draft = (flatten_newlines password ++ codes "\n", noted) in
      let named = push_optional path (codes "login") entry.username first in
      let filled = push_fields path entry.fields named in
      let timed = push_optional path (codes "otpauth") entry.totp filled in
      let linked = push_uris path 0 entry.uris timed in
      (encode (push_notes entry.notes linked.0), linked.1)
