-- ===== src/Import/Bitwarden/Accounted.antt =====
-- What becomes of each item of a Bitwarden export (crates/bypass-core/src/import/bitwarden.rs).
use bypass.Prelude.{
  ℕ, ◌≡◌, ◌≢◌, refl, ◌⊎◌, inl, inr, false, List, [], ◌∷◌, ◌++◌, ◌==◌, arith, Outcome, ok, In, All,
  All-imp, In-append_left, In-append_right, Bool-cases,
}
use bypass.Text.{Text, Bytes}
use bypass.Import.Body.{ImportedEntry, LossinessNote, Report, push_note}
use bypass.Import.Bitwarden.Fields.{HasFields, collect_fields-HasFields, each_linked}
use bypass.Import.Bitwarden.{
  Item, Folder, Export, BitwardenError, or_empty, entry_id, collect_fields, read_item, read_items,
  parse, note_linked, login_entry, note_entry, login_or, looks_like_bitwarden,
}

abbrev pub note : Text → Text → LossinessNote
note id message = record { entry = id; message = message }

-- An entry of the item's name and fields, or, for an item that is neither a login nor a note, a note
-- that names it; and for each linked field
-- of the item a note in any case.
pub record IsAccounted (out : List ImportedEntry × Report) (item : Item) : Type 0 where
  pub entry_or_note :
      ((e : ImportedEntry) × In e out.0
        × (e.name ≡ or_empty item.name)
        × HasFields item.fields e.fields)
      ⊎ ((message : Text) × In (note (entry_id item) message) out.1
          × (item.item_type ≢ 1)
          × (item.item_type ≢ 2))
  pub linked_noted :
      All
        (λ f. (f.field_type ≢ 3) ⊎ ((message : Text) × In (note (entry_id item) message) out.1))
        item.fields

In-push_note :
    (id message : Text) (report : Report) → In (note id message) (push_note id message report)
In-push_note id message report = In-append_right (note id message) report _ (inl refl)

-- What was found stays in a longer result.
IsAccounted-more :
    (out more : List ImportedEntry × Report) (item : Item)
    → ((e : ImportedEntry) → In e out.0 → In e more.0)
    → ((n : LossinessNote) → In n out.1 → In n more.1)
    → IsAccounted out item
    → IsAccounted more item
IsAccounted-more out more item entries notes h = record {
  entry_or_note = elim h.entry_or_note [
    | inl found ↦ inl (found.0, entries found.0 found.1, found.2, found.3)
    | inr noted ↦ inr (noted.0, notes (note (entry_id item) noted.0) noted.1, noted.2, noted.3)
  ];
  linked_noted =
      All-imp
        (λ f which. elim which [
          | inl static ↦ inl static
          | inr (message, there) ↦ inr (message, notes (note (entry_id item) message) there)
        ])
        item.fields h.linked_noted;
}

result_eq : {E A : Type 0} (a b : A) → ◌≡◌ {A = Outcome (BitwardenError E) A} (ok a) (ok b) → a ≡ b
result_eq a b e = ground arith

module _ (decimal : ℕ → Text) where
  note_linked_keeps :
      (id : Text) (item : Item) (ending : Text) (report : Report) (n : LossinessNote)
      → In n report
      → In n (note_linked decimal id item ending report)
  note_linked_keeps id item ending report n h =
      elim (Bool-cases ((collect_fields item.fields).1 == 0)) [
        | inl e ↦ rw e h
        | inr e ↦ rw e (In-append_left n report _ h)
      ]

  note_linked_notes :
      (item : Item) (ending : Text) (report : Report)
      → (collect_fields item.fields).1 ≢ 0
      → (message : Text) × In
          (note (entry_id item) message)
          (note_linked decimal (entry_id item) item ending report)
  note_linked_notes item ending report ne =
      elim (Bool-cases ((collect_fields item.fields).1 == 0)) [
        | inl e ↦ absurd (ne (ground arith))
        | inr e ↦ rw e (_, In-push_note (entry_id item) _ report)
      ]

  read_item-IsAccounted :
      (folders : List Folder) (item : Item) (report : Report)
      → IsAccounted (read_item decimal folders item report) item
  unfolding read_item
  read_item-IsAccounted folders item report = elim (Bool-cases (item.item_type == 1)) [
    | inl e ↦ rw e (record {
      entry_or_note = inl (
        login_entry folders item (login_or item.login),
        inl refl,
        refl,
        collect_fields-HasFields item.fields,
      );
      linked_noted = each_linked item.fields (note_linked_notes item _ report);
    })
    | inr e ↦ elim (Bool-cases (item.item_type == 2)) [
      | inl f ↦
          rw (e, f)
            (record {
              entry_or_note =
                  inl
                    (note_entry folders item, inl refl, refl, collect_fields-HasFields item.fields);
              linked_noted = each_linked item.fields (λ ne.
                  let (m, there) = note_linked_notes item _ report ne in
                  (m, In-append_left (note (entry_id item) m) _ _ there));
            })
      | inr f ↦
          rw (e, f)
            (record {
              entry_or_note =
                  inr (
                    _,
                    In-push_note (entry_id item) _ report,
                    λ a. ground arith,
                    λ b. ground arith,
                  );
              linked_noted =
                  each_linked item.fields (λ ne. (_, In-push_note (entry_id item) _ report));
            })
    ]
  ]

  read_item_keeps :
      (folders : List Folder) (item : Item) (report : Report) (n : LossinessNote)
      → In n report
      → In n (read_item decimal folders item report).1
  unfolding read_item
  read_item_keeps folders item report n h = elim (Bool-cases (item.item_type == 1)) [
    | inl e ↦ rw e (note_linked_keeps (entry_id item) item _ report n h)
    | inr e ↦ elim (Bool-cases (item.item_type == 2)) [
      | inl f ↦
          rw (e, f) (In-append_left n _ _ (note_linked_keeps (entry_id item) item _ report n h))
      | inr f ↦ rw (e, f) (In-append_left n report _ h)
    ]
  ]

  read_items_keeps :
      (folders : List Folder) (items : List Item) (report : Report) (n : LossinessNote)
      → In n report
      → In n (read_items decimal folders items report).1
  unfolding read_items
  read_items_keeps folders [] report n h = h
  read_items_keeps folders (item ∷ items) report n h =
      read_items_keeps folders items _ n (read_item_keeps folders item report n h)

  read_items-IsAccounted :
      (folders : List Folder) (items : List Item) (report : Report)
      → All (IsAccounted (read_items decimal folders items report)) items
  unfolding read_items
  read_items-IsAccounted folders [] report = tt
  read_items-IsAccounted folders (item ∷ items) report =
      let read = read_item decimal folders item report in
      let rest = read_items decimal folders items read.1 in
      (
        IsAccounted-more read (read.0 ++ rest.0, rest.1) item
            (λ e h. In-append_left e read.0 rest.0 h)
            (λ n h. read_items_keeps folders items read.1 n h)
            (read_item-IsAccounted folders item report),
        All-imp
            (λ other h.
              IsAccounted-more rest (read.0 ++ rest.0, rest.1) other
                (λ e i. In-append_right e read.0 rest.0 i) (λ n i. i) h)
            items (read_items-IsAccounted folders items read.1),
      )

  -- Where a Bitwarden export is accepted, it is not an encrypted one, and each of its items has an
  -- entry of its name, or is neither a login nor a note and is named in a note. Such an entry has
  -- each field of the item that is not linked and whose name is neither missing nor blank, with
  -- its value, and no other; fields without a name are dropped, with no note of them promised, and
  -- an item with a linked field is named in a note in any case.
  pub parse-IsAccounted :
      {E : Type 0} (from_slice : Bytes → E ⊎ Export) (bytes : Bytes) (export : Export)
      (out : List ImportedEntry × Report)
      → from_slice bytes ≡ inr export
      → parse decimal from_slice bytes ≡ ok out
      → (export.encrypted ≡ false) × All (IsAccounted out) export.items
  unfolding parse
  parse-IsAccounted from_slice bytes export out read h = elim (Bool-cases export.encrypted) [
    | inl e ↦ cc (rw (read, e) at h)
    | inr e ↦ elim (Bool-cases (looks_like_bitwarden export)) [
      | inr f ↦ cc (rw (read, e, f) at h)
      | inl f ↦
          let same = result_eq _ out (rw (read, e, f) at h) in
          (e, rw (← same) (read_items-IsAccounted export.folders export.items []))
    ]
  ]
