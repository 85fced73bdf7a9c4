-- ===== src/Entry/RoundTrip.antt =====
-- An entry that is written as its password and lines `key: value` is read back
-- (crates/bypass-core/src/entry.rs).
use bypass.Prelude.{
  ◌≡◌, ◌≢◌, inl, inr, refl, ap, ◌∙◌, false, some, List, [], ◌∷◌, ◌++◌, arith, All, map, Bool-cases,
  is_empty, ℕ, ◌==◌, ==_refl,
}
use bypass.Text.{Text, contains, split, split_once, strip_cr, trim, is_whitespace}
use bypass.Text.Laws.{contains-append}
use bypass.Text.Split.{split-append}
use bypass.Text.Split.{split_none}
use bypass.GpgId.Parse.{strip_cr_none}
use bypass.Entry.{Entry, fields_of, parse_str, push_field}

abbrev pub field_line : Text × Text → Text
field_line (k, v) = k ++ (b':' ∷ b' ' ∷ v)

abbrev pub field_lines : List (Text × Text) → Text
field_lines [] = []
field_lines (f ∷ fs) = field_line f ++ (b'\n' ∷ field_lines fs)

-- The body of an entry.
abbrev pub body : Entry → Text
body e = e.password ++ (b'\n' ∷ field_lines e.fields)

-- No line break.
abbrev pub IsLine : Text → Type 0
IsLine s = (contains b'\n' s ≡ false) × (contains b'\r' s ≡ false)

-- A field that can stand on a line: a lowercase key without a colon, and no space around either.
pub record IsField (to_lowercase : Text → Text) (f : Text × Text) : Type 0 where
  pub key_line : IsLine f.0
  pub value_line : IsLine f.1
  pub key_nonempty : f.0 ≢ []
  pub key_trimmed : trim f.0 ≡ f.0
  pub value_trimmed : trim f.1 ≡ f.1
  pub key_lower : to_lowercase f.0 ≡ f.0
  pub no_colon : contains b':' f.0 ≡ false

contains-field_line :
    (c : ℕ) (k v : Text)
    → contains c k ≡ false
    → contains c v ≡ false
    → (c == b':') ≡ false
    → (c == b' ') ≡ false
    → contains c (field_line (k, v)) ≡ false
unfolding contains
contains-field_line c k v hk hv h1 h2 = contains-append c k (b':' ∷ b' ' ∷ v) ∙ ground arith

split_once-append :
    (c : ℕ) (s t : Text) → contains c s ≡ false → split_once c (s ++ (c ∷ t)) ≡ some (s, t)
unfolding split_once contains
split_once-append c [] t h = rw (==_refl c)
split_once-append c (d ∷ s) t h = elim (Bool-cases (d == c)) [
  | inl e ↦ ground arith
  | inr e ↦ rw e (rw (split_once-append c s t (rw e at h)))
]

module _ (to_lowercase : Text → Text) where
  field_line-ne-nil : (k v : Text) → is_empty (field_line (k, v)) ≡ false
  field_line-ne-nil [] v = refl
  field_line-ne-nil (c ∷ k) v = refl

  trim-space : (v : Text) → trim (b' ' ∷ v) ≡ trim v
  unfolding trim is_whitespace
  trim-space v = refl

  not_empty : (k : Text) → k ≢ [] → is_empty k ≡ false
  not_empty [] h = absurd (h refl)
  not_empty (c ∷ k) h = refl

  push_field-split_once :
      (k v : Text) (rest : List (Text × Text))
      → IsField to_lowercase (k, v)
      → push_field to_lowercase (split_once b':' (field_line (k, v))) rest ≡ (k, v) ∷ rest
  push_field-split_once k v rest h = rw (
    split_once-append b':' k (b' ' ∷ v) h.no_colon,
    h.key_trimmed,
    trim-space v,
    h.value_trimmed,
    not_empty k h.key_nonempty,
    h.key_lower,
  )

  line_first :
      (line rest : Text)
      → IsLine line
      → map strip_cr (split b'\n' (line ++ (b'\n' ∷ rest))) ≡ line ∷ map strip_cr (split b'\n' rest)
  line_first line rest h =
      ap (map strip_cr) {y = line ∷ split b'\n' rest}
        (split-append b'\n' line rest ∙ rw (split_none b'\n' line h.0))
      ∙ rw (strip_cr_none line h.1)

  field_line-IsLine : (k v : Text) → IsField to_lowercase (k, v) → IsLine (field_line (k, v))
  field_line-IsLine k v h = (
    contains-field_line b'\n' k v h.key_line.0 h.value_line.0 refl refl,
    contains-field_line b'\r' k v h.key_line.1 h.value_line.1 refl refl,
  )

  fields_of-field_lines :
      (fs : List (Text × Text))
      → All (IsField to_lowercase) fs
      → fields_of to_lowercase (map strip_cr (split b'\n' (field_lines fs))) ≡ fs
  unfolding fields_of
  fields_of-field_lines [] h = unfold split strip_cr in refl
  fields_of-field_lines ((k, v) ∷ fs) (p, h) =
      ap (fields_of to_lowercase)
        (line_first (field_line (k, v)) (field_lines fs) (field_line-IsLine k v p))
      ∙ rw (field_line-ne-nil k v)
          (push_field-split_once k v _ p ∙ ap (◌∷◌ (k, v)) (fields_of-field_lines fs h))

  -- An entry whose password is one line and whose fields are plain (a key that is not empty,
  -- lowercase and without a colon, no space around key and value, no line breaks), written as the
  -- password's line and then a line `key: value` for each field, is parsed back as it was, fields
  -- in their order.
  pub parse_str-body :
      (e : Entry)
      → IsLine e.password
      → All (IsField to_lowercase) e.fields
      → parse_str to_lowercase (body e) ≡ e
  unfolding parse_str
  parse_str-body e line fields = rw (line_first e.password (field_lines e.fields) line) (
      ap (λ (fs : List (Text × Text)). record { password = e.password; fields = fs })
        (fields_of-field_lines e.fields fields))
