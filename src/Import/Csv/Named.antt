-- ===== src/Import/Csv/Named.antt =====
-- What the rows of a CSV file that parses have (crates/bypass-core/src/import/csv.rs).
use bypass.Prelude.{
  ℕ, suc, ◌≡◌, ◌≢◌, ◌⊎◌, inl, inr, refl, Bool, true, false, ◌&&◌, some, List, [], ◌∷◌, arith, ◌==◌,
  ==_iff, if◌then◌else◌, is_empty, map, All, length, Outcome, ok, err, >>=-eq-ok, ok_or, returned,
  map_err, Bool-cases, List-cases,
}
use bypass.Text.{Text, trim, nonempty, split}
use bypass.Import.Body.{ImportedEntry, Report}
use bypass.Import.Csv.{
  Role, Row, blank_row, set_column, read_columns, pop, named_row, build_entry, parse_rows,
  parse_failed, column_count,
}

-- No part of the folder is empty.
abbrev HasParts : Row → Type 0
HasParts row = All (λ x. x ≢ []) row.folder_

nonempty_parts : (xs : List Text) → All (λ x. x ≢ []) (nonempty xs)
unfolding nonempty
nonempty_parts [] = tt
nonempty_parts ([] ∷ xs) = nonempty_parts xs
nonempty_parts ((c ∷ x) ∷ xs) = (λ e. cc, nonempty_parts xs)

set_column-HasParts :
    (role : Role) (value : Text) (row : Row) → HasParts row → HasParts (set_column role value row)
unfolding set_column
set_column-HasParts Role.name value row h = h
set_column-HasParts Role.folder value row h = nonempty_parts (map trim (split b'/' value))
set_column-HasParts Role.password value row h = h
set_column-HasParts Role.username value row h = h
set_column-HasParts Role.url value row h = h
set_column-HasParts Role.totp value row h = h
set_column-HasParts Role.notes value row h = h
set_column-HasParts Role.skip value row h = h
set_column-HasParts (Role.custom key) value row h = h

choice : (b : Bool) (r s : Row) → HasParts r → HasParts s → HasParts (if b then r else s)
choice true r s hr hs = hr
choice false r s hr hs = hs

read_columns-HasParts :
    (roles : List Role) (raws : List Text) (row : Row)
    → HasParts row
    → HasParts (read_columns roles raws row)
unfolding read_columns
read_columns-HasParts [] raws row h = h
read_columns-HasParts (role ∷ roles) [] row h = h
read_columns-HasParts (role ∷ roles) (raw ∷ raws) row h =
    read_columns-HasParts roles raws
      (if is_empty (trim raw) then row else set_column role (trim raw) row)
      (choice (is_empty (trim raw)) row (set_column role (trim raw) row) h
        (set_column-HasParts role (trim raw) row h))

-- The last part of a list that has one is a part of it.
pop-eq-some :
    (xs : List Text)
    → xs ≢ []
    → All (λ x. x ≢ []) xs
    → (rest : List Text) × (last : Text) × (pop xs ≡ some (rest, last)) × (last ≢ [])
unfolding pop
pop-eq-some [] ne h = absurd (ne refl)
pop-eq-some (x ∷ []) ne h = ([], x, refl, h.0)
pop-eq-some (x ∷ (y ∷ r)) ne h =
    let (rest, last, found, filled) = pop-eq-some (y ∷ r) (λ e. cc) h.1 in
    (x ∷ rest, last, rw found, filled)

module _ (decimal : ℕ → Text) where
  named_row-ne-nil :
      (n : ℕ) (row : Row) (report : Report)
      → HasParts row
      → (is_empty row.name_ && is_empty row.folder_) ≡ false
      → (named_row decimal n row report).0.name_ ≢ []
  unfolding named_row
  named_row-ne-nil n row report h some_name = elim (List-cases row.name_) [
    | inl e ↦
        let (rest, last, found, filled) =
          pop-eq-some row.folder_ (λ z. cc (rw (e, z) at some_name)) h in
        rw e (rw found filled)
    | inr (c, cs, e) ↦ rw e (λ z. cc)
  ]

  build_entry-named :
      {E : Type 0} (n : ℕ) (roles : List Role) (columns : List Text) (report : Report)
      (out : ImportedEntry × Report)
      → build_entry decimal {E = E} n roles columns report ≡ ok out
      → out.0.name ≢ []
  unfolding build_entry
  build_entry-named {E} n roles columns report out h =
      let row = read_columns roles columns blank_row in
      let parts = read_columns-HasParts roles columns blank_row tt in
      elim (Bool-cases (is_empty row.name_ && is_empty row.folder_)) [
        | inl e ↦ cc (rw e at h)
        | inr e ↦
            let (secret, found, same) =
              >>=-eq-ok (ok_or (named_row decimal n row report).0.password_ _) _ (rw e at h) in
            let named : out.0.name ≡ (named_row decimal n row report).0.name_ = ground arith in
            rw named (named_row-ne-nil n row report parts e)
      ]

  ok_parts : {E A : Type 0} {a b : A} → ◌≡◌ {A = Outcome E A} (ok a) (ok b) → a ≡ b
  ok_parts h = ground arith

  read_row :
      {E : Type 0} (r : E ⊎ List Text) (columns : List Text)
      → map_err parse_failed (returned r) ≡ ok columns
      → r ≡ inr columns
  read_row (inl e) columns h = cc
  read_row (inr cs) columns h = ground arith

  -- A row that is built has the schema's columns.
  fitting :
      {E A : Type 0} (m k : ℕ) (good : Outcome E A) (bad : E) (a : A)
      → (if m == k then good else err bad) ≡ ok a
      → (m ≡ k) × (good ≡ ok a)
  fitting m k good bad a h = elim (Bool-cases (m == k)) [
    | inl e ↦ ((==_iff m k).0 e, rw e at h)
    | inr e ↦ cc (rw e at h)
  ]

  rows_none :
      (out : List ImportedEntry × Report) {report : Report}
      → ([], report) ≡ out
      → (length out.0 ≡ 0) × All (λ e. e.name ≢ []) out.0 × Unit {0}
  rows_none out h = rw (← h) (refl, tt, tt)

  -- Every row of a file that parses has exactly the columns of the schema, it gives one entry, and
  -- the entry has a name.
  pub parse_rows-named :
      {E : Type 0} (records : List (E ⊎ List Text)) (n : ℕ) (roles : List Role) (report : Report)
      (out : List ImportedEntry × Report)
      → parse_rows decimal n roles report records ≡ ok out
      → (length out.0 ≡ length records)
        × All (λ e. e.name ≢ []) out.0
        × All
            (λ r. (columns : List Text) × (r ≡ inr columns) × (length columns ≡ length roles))
            records
  unfolding parse_rows
  parse_rows-named [] n roles report out h = rows_none out (ok_parts h)
  parse_rows-named {E} (r ∷ records) n roles report out h =
      let (columns, read, h1) = >>=-eq-ok (map_err parse_failed (returned r)) _ h in
      let (built, made, h2) =
        >>=-eq-ok
          (if length columns == length roles
            then build_entry decimal {E = E} n roles columns report
            else err (column_count n (length columns) (length roles)))
          _ h1 in
      let (rest, later, same) = >>=-eq-ok (parse_rows decimal (suc n) roles built.1 records) _ h2 in
      let (count, names, reads) = parse_rows-named records (suc n) roles built.1 rest later in
      let (fits, entry) =
        fitting (length columns) (length roles) (build_entry decimal {E = E} n roles columns report)
          _ built made in
      rw (← ok_parts same) (
        omega (arith, count),
        (build_entry-named n roles columns report built entry, names),
        ((columns, read_row r columns read, fits), reads),
      )
