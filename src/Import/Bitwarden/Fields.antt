-- ===== src/Import/Bitwarden/Fields.antt =====
-- The custom fields of an item of a Bitwarden export (`collect_fields` of
-- crates/bypass-core/src/import/bitwarden.rs), described on their own.
use bypass.Prelude.{
  ◌≡◌, ◌≢◌, refl, sym, ap, ◌∙◌, ◌⊎◌, inl, inr, List, [], ◌∷◌, ◌==◌, arith, In, All, All-imp,
  All-of_In, Bool-cases, Option-cases, List-cases, none, some, ==_iff,
}
use bypass.Text.{Text, trim}
use bypass.Import.Bitwarden.{Field, or_empty, collect_fields}

-- The field has no name, or a blank one.
abbrev pub IsNameless : Field → Type 0
IsNameless f = (f.name ≡ none) ⊎ ((name : Text) × (f.name ≡ some name) × (trim name ≡ []))

-- The field is among these under its name, with its value or an empty one.
abbrev pub IsAmong : List (Text × Text) → Field → Type 0
IsAmong kept f = (name : Text) × (f.name ≡ some name) × In (name, or_empty f.value) kept

-- The field comes from one of these, which is not linked and has a name.
abbrev pub IsFrom : List Field → Text × Text → Type 0
IsFrom fields field =
    (f : Field) × In f fields
    × (f.field_type ≢ 3)
    × (f.name ≡ some field.0)
    × (trim field.0 ≢ [])
    × (or_empty f.value ≡ field.1)

-- The fields that an entry has are those of its item that are not linked and have a name: each of
-- these is there, and nothing else is.
pub record HasFields (fields : List Field) (kept : List (Text × Text)) : Type 0 where
  pub complete : All (λ f. ((f.field_type ≡ 3) ⊎ IsNameless f) ⊎ IsAmong kept f) fields
  pub sound : All (IsFrom fields) kept

-- The fields of an item with one field more.
complete-more :
    (fs : List Field) (kept : List (Text × Text)) (field : Text × Text)
    → All (λ f. ((f.field_type ≡ 3) ⊎ IsNameless f) ⊎ IsAmong kept f) fs
    → All (λ f. ((f.field_type ≡ 3) ⊎ IsNameless f) ⊎ IsAmong (field ∷ kept) f) fs
complete-more fs kept field h =
    All-imp
      (λ f which. elim which [
        | inl dropped ↦ inl dropped
        | inr (name, named, there) ↦ inr (name, named, inr there)
      ])
      fs h

sound-more :
    (d : Field) (fs : List Field) (kept : List (Text × Text))
    → All (IsFrom fs) kept
    → All (IsFrom (d ∷ fs)) kept
sound-more d fs kept h =
    All-imp
      (λ field (f, there, static, named, filled, valued).
        (f, inr there, static, named, filled, valued))
      kept h

dropped-HasFields :
    (d : Field) (fs : List Field) (kept : List (Text × Text))
    → (d.field_type ≡ 3) ⊎ IsNameless d
    → HasFields fs kept
    → HasFields (d ∷ fs) kept
dropped-HasFields d fs kept why h = record {
  complete = (inl why, h.complete);
  sound = sound-more d fs kept h.sound;
}

kept-HasFields :
    (d : Field) (fs : List Field) (kept : List (Text × Text)) (name : Text)
    → d.field_type ≢ 3
    → d.name ≡ some name
    → trim name ≢ []
    → HasFields fs kept
    → HasFields (d ∷ fs) ((name, or_empty d.value) ∷ kept)
kept-HasFields d fs kept name static named filled h = record {
  complete =
      (inr (name, named, inl refl), complete-more fs kept (name, or_empty d.value) h.complete);
  sound = ((d, inl refl, static, named, filled, refl), sound-more d fs kept h.sound);
}

HasFields-eq :
    (fs : List Field) (kept same : List (Text × Text))
    → same ≡ kept
    → HasFields fs kept
    → HasFields fs same
HasFields-eq fs kept same e h = rw e h

pub collect_fields-HasFields : (fs : List Field) → HasFields fs (collect_fields fs).0
unfolding collect_fields
collect_fields-HasFields [] = record { complete = tt; sound = tt }
collect_fields-HasFields (d ∷ fs) =
    let kept = (collect_fields fs).0 in
    let rest = collect_fields-HasFields fs in
    elim (Bool-cases (d.field_type == 3)) [
      | inl linked ↦
          HasFields-eq (d ∷ fs) kept _ (rw linked)
            (dropped-HasFields d fs kept (inl ((==_iff d.field_type 3).0 linked)) rest)
      | inr static ↦ elim (Option-cases d.name) [
        | inl unnamed ↦
            HasFields-eq (d ∷ fs) kept _ (rw (static, unnamed))
              (dropped-HasFields d fs kept (inr (inl unnamed)) rest)
        | inr (name, named) ↦ elim (List-cases (trim name)) [
          | inl blank ↦
              HasFields-eq (d ∷ fs) kept _ (rw (static, named, blank))
                (dropped-HasFields d fs kept (inr (inr (name, named, blank))) rest)
          | inr (c, cs, filled) ↦
              HasFields-eq (d ∷ fs) ((name, or_empty d.value) ∷ kept) _ (rw (static, named, filled))
                (kept-HasFields d fs kept name (λ e. ground arith) named (λ e. cc) rest)
        ]
      ]
    ]

collect_fields_counts :
    (fs : List Field) (f : Field) → In f fs → f.field_type ≡ 3 → (collect_fields fs).1 ≢ 0
unfolding collect_fields
collect_fields_counts [] f there linked = absurd there.1
collect_fields_counts (d ∷ fs) f (inl here) linked = λ none_left.
    let d_linked = sym (ap (λ (x : Field). x.field_type) here) ∙ linked in
    cc (rw ((==_iff d.field_type 3).1 d_linked) at none_left)
collect_fields_counts (d ∷ fs) f (inr there) linked = λ none_left.
    elim (Bool-cases (d.field_type == 3)) [
      | inl e ↦ cc (rw e at none_left)
      | inr e ↦ collect_fields_counts fs f there linked (rw e at none_left)
    ]

-- A note for linked fields, if there are any, is one for each of them.
pub each_linked :
    {P : Type 0} (fs : List Field)
    → ((collect_fields fs).1 ≢ 0 → P)
    → All (λ f. (f.field_type ≢ 3) ⊎ P) fs
each_linked fs noted = All-of_In fs (λ f there. elim (Bool-cases (f.field_type == 3)) [
  | inl e ↦ inr (noted (collect_fields_counts fs f there ((==_iff f.field_type 3).0 e)))
  | inr e ↦ inl (λ linked. ground arith)
])
