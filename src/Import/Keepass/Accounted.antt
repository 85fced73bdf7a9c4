-- ===== src/Import/Keepass/Accounted.antt =====
-- No entry of a KeePass export is lost unnoticed (crates/bypass-core/src/import/keepass.rs).
use mathlib.Core.Path.{subst}
use bypass.Prelude.{
  ◌≡◌, refl, sym, ap, ◌∙◌, ◌⊎◌, inl, inr, true, false, List, [], ◌∷◌, arith, Bool-cases, In,
  is_empty, In-append_left, In-append_right, Bool, if◌then◌else◌, ok, ℕ, some, ◌==◌,
}
use bypass.Text.{Text, Bytes, codes, text_eq, starts_with}
use bypass.Text.Utf8.{encode, from_utf8}
use bypass.Import.Body.{ImportedEntry, LossinessNote, Report, push_note}
use bypass.Import.Keepass.{
  Nodes, nil, element, other, Document, text_of_child, text_or_default, Draft, no_draft, draft_of,
  imported, skipped, Walk, no_walk, push_entry, subfolder, after_element, after_top, walk_children,
  walk_top, child_named, parse, with_attachments, attachments, kdbx_signature,
}
use bypass.Import.Keepass.Strings.{
  last_value, StringIn, is_custom, draft_of-title, draft_of-password, draft_of-custom,
}

-- Below these nodes, the children of a group in the folder `at`, stands an entry with the children
-- `e`, in the group with the path `folder`.
abbrev pub EntryIn : List Text → Nodes → Nodes → List Text → Type 0
EntryIn folder e nil at = Unit × ⊥
EntryIn folder e (other rest) at = EntryIn folder e rest at
EntryIn folder e (element name text kids rest) at =
    ((text_eq name (codes "Entry") ≡ true) × (folder ≡ at) × (e ≡ kids))
    ⊎ ((text_eq name (codes "Entry") ≡ false)
        × (text_eq name (codes "Group") ≡ true)
        × EntryIn folder e kids
            (subfolder at (text_or_default (text_of_child (codes "Name") kids))))
    ⊎ EntryIn folder e rest at

-- The imported entry has the folder, the last title and the last password of the original, and each
-- of its custom strings with a value.
pub record Carries (folder : List Text) (e : Nodes) (x : ImportedEntry) : Type 0 where
  pub folder_same : x.folder ≡ folder
  pub name_same : x.name ≡ last_value (codes "Title") e []
  pub password_same : x.password ≡ encode (last_value (codes "Password") e [])
  pub custom :
      (k v : Text) → StringIn k v e → is_custom k ≡ true → is_empty v ≡ false → In (k, v) x.fields

abbrev pub untitled_note : List Text → LossinessNote
untitled_note folder = record { entry = codes "<untitled>"; message = skipped folder }

-- What has become of an entry: it is imported, or it has no title and a note says so.
abbrev pub IsAccounted : List Text → Nodes → List ImportedEntry → Report → Type 0
IsAccounted folder e entries report =
    ((x : ImportedEntry) × In x entries × Carries folder e x)
    ⊎ ((last_value (codes "Title") e [] ≡ []) × In (untitled_note folder) report)

-- Nothing that a walk has gathered is lost.
record Extends (w v : Walk) : Type 0 where
  entries_kept : (x : ImportedEntry) → In x w.entries → In x v.entries
  report_kept : (n : LossinessNote) → In n w.report → In n v.report

Extends-refl : (w : Walk) → Extends w w
Extends-refl w = record { entries_kept = λ x h. h; report_kept = λ n h. h }

Extends-trans : (u v w : Walk) → Extends u v → Extends v w → Extends u w
Extends-trans u v w h k = record {
  entries_kept = λ x i. k.entries_kept x (h.entries_kept x i);
  report_kept = λ n i. k.report_kept n (h.report_kept n i);
}

Extends-if : (b : Bool) {u v w : Walk} → Extends u v → Extends u w → Extends u (if b then v else w)
Extends-if true h k = h
Extends-if false h k = k

module _ (folder : List Text) (e : Nodes) where
  IsAccounted-kept :
      (v w : Walk)
      → Extends v w
      → IsAccounted folder e v.entries v.report
      → IsAccounted folder e w.entries w.report
  IsAccounted-kept v w h (inl (x, there, c)) = inl (x, h.entries_kept x there, c)
  IsAccounted-kept v w h (inr (untitled, there)) = inr (untitled, h.report_kept _ there)

push_entry-Extends : (folder : List Text) (d : Draft) (w : Walk) → Extends w (push_entry folder d w)
unfolding push_entry
push_entry-Extends folder d w =
    Extends-if (is_empty d.title)
      (record {
        entries_kept = λ x h. h;
        report_kept = λ n h. In-append_left n w.report (untitled_note folder ∷ []) h;
      })
      (record {
        entries_kept = λ x h. In-append_left x w.entries (imported folder d ∷ []) h;
        report_kept = λ n h. h;
      })

walk_children-Extends : (n : Nodes) (at : List Text) (w : Walk) → Extends w (walk_children n at w)
unfolding walk_children
walk_children-Extends nil at w = Extends-refl w
walk_children-Extends (other rest) at w = walk_children-Extends rest at w
walk_children-Extends (element name text kids rest) at w =
    let step =
      Extends-if (text_eq name (codes "Entry")) (push_entry-Extends at (draft_of kids no_draft) w) (
        Extends-if (text_eq name (codes "Group"))
          (walk_children-Extends kids
            (subfolder at (text_or_default (text_of_child (codes "Name") kids))) w)
          (Extends-refl w)) in
    Extends-trans w _ _ step (walk_children-Extends rest at _)

walk_top-Extends : (n : Nodes) (w : Walk) → Extends w (walk_top n w)
unfolding walk_top
walk_top-Extends nil w = Extends-refl w
walk_top-Extends (other rest) w = walk_top-Extends rest w
walk_top-Extends (element name text kids rest) w =
    Extends-trans w _ _
      (Extends-if (text_eq name (codes "Group")) (walk_children-Extends kids [] w) (Extends-refl w))
      (walk_top-Extends rest _)

nil_of_is_empty : (s : Text) → is_empty s ≡ true → s ≡ []
nil_of_is_empty [] h = refl
nil_of_is_empty (c ∷ s) h = cc

imported-Carries :
    (folder : List Text) (e : Nodes) → Carries folder e (imported folder (draft_of e no_draft))
imported-Carries folder e = record {
  folder_same = refl;
  name_same = draft_of-title e no_draft;
  password_same = ap encode (draft_of-password e no_draft);
  custom = λ k v there own filled. draft_of-custom k v e no_draft there own filled;
}

push_entry-IsAccounted :
    (folder : List Text) (e : Nodes) (w : Walk)
    → IsAccounted folder e
        (push_entry folder (draft_of e no_draft) w).entries
        (push_entry folder (draft_of e no_draft) w).report
unfolding push_entry
push_entry-IsAccounted folder e w = elim (Bool-cases (is_empty (draft_of e no_draft).title)) [
  | inl untitled ↦ rw untitled (
      inr (
        sym (draft_of-title e no_draft) ∙ nil_of_is_empty (draft_of e no_draft).title untitled,
        In-append_right (untitled_note folder) w.report (untitled_note folder ∷ []) (inl refl),
      ))
  | inr titled ↦ rw titled (
      inl (
        imported folder (draft_of e no_draft),
        In-append_right _ w.entries (imported folder (draft_of e no_draft) ∷ []) (inl refl),
        imported-Carries folder e,
      ))
]

module _ (folder : List Text) (e : Nodes) where
  walk_children-IsAccounted :
      (n : Nodes) (at : List Text) (w : Walk)
      → EntryIn folder e n at
      → IsAccounted folder e (walk_children n at w).entries (walk_children n at w).report
  unfolding walk_children
  walk_children-IsAccounted nil at w there = absurd there.1
  walk_children-IsAccounted (other rest) at w there = walk_children-IsAccounted rest at w there
  walk_children-IsAccounted (element name text kids rest) at w (inl (entry, here, same)) =
      let below = subfolder at (text_or_default (text_of_child (codes "Name") kids)) in
      let after = after_element name kids at (walk_children kids below w) w in
      let pushed : IsAccounted folder e after.entries after.report =
        rw (entry, here, same) (push_entry-IsAccounted at kids w) in
      IsAccounted-kept folder e after _ (walk_children-Extends rest at after) pushed
  walk_children-IsAccounted (element name text kids rest) at w
        (inr (inl (no_entry, group, inside))) =
      let below = subfolder at (text_or_default (text_of_child (codes "Name") kids)) in
      let after = after_element name kids at (walk_children kids below w) w in
      let walked : IsAccounted folder e after.entries after.report =
        rw (no_entry, group) (walk_children-IsAccounted kids below w inside) in
      IsAccounted-kept folder e after _ (walk_children-Extends rest at after) walked
  walk_children-IsAccounted (element name text kids rest) at w (inr (inr later)) =
      walk_children-IsAccounted rest at _ later

  -- The entry stands in one of the groups among these nodes, which are in no folder.
  abbrev pub TopEntry : Nodes → Type 0
  TopEntry nil = Unit × ⊥
  TopEntry (other rest) = TopEntry rest
  TopEntry (element name text kids rest) =
      ((text_eq name (codes "Group") ≡ true) × EntryIn folder e kids []) ⊎ TopEntry rest

  walk_top-IsAccounted :
      (n : Nodes) (w : Walk)
      → TopEntry n
      → IsAccounted folder e (walk_top n w).entries (walk_top n w).report
  unfolding walk_top
  walk_top-IsAccounted nil w there = absurd there.1
  walk_top-IsAccounted (other rest) w there = walk_top-IsAccounted rest w there
  walk_top-IsAccounted (element name text kids rest) w (inl (group, inside)) =
      let after = after_top name (walk_children kids [] w) w in
      let walked : IsAccounted folder e after.entries after.report =
        rw group (walk_children-IsAccounted kids [] w inside) in
      IsAccounted-kept folder e after _ (walk_top-Extends rest after) walked
  walk_top-IsAccounted (element name text kids rest) w (inr later) =
      walk_top-IsAccounted rest _ later

-- The note on attachments is only added.
with_attachments-IsAccounted :
    (decimal : ℕ → Text) (folder : List Text) (e : Nodes) (w : Walk)
    → IsAccounted folder e w.entries w.report
    → IsAccounted folder e (with_attachments decimal w).0 (with_attachments decimal w).1
with_attachments-IsAccounted decimal folder e w h = elim (Bool-cases (w.binary_total == 0)) [
  | inl y ↦ rw y h
  | inr n ↦ rw n (
      IsAccounted-kept folder e w
        (record w { report = push_note [] (attachments decimal w.binary_total) w.report })
        (record { entries_kept = λ x i. i; report_kept = λ x i. In-append_left x w.report _ i }) h)
]

-- Where a KeePass export is accepted: every entry below a group under its `Root` is imported under
-- the folders of its groups without the outermost one, with its last title and password and each
-- of its custom strings with a value; or it has no title, and a note names its folder.
pub parse-TopEntry :
    (decimal : ℕ → Text) {XE : Type 0} (parse_document : Text → XE ⊎ Document) (bytes : Bytes)
    (text : Text) (root : Document) (section e : Nodes) (folder : List Text)
    (entries : List ImportedEntry) (report : Report)
    → from_utf8 bytes ≡ some text
    → parse_document text ≡ inr root
    → child_named (codes "Root") root.children ≡ some section
    → TopEntry folder e section
    → parse decimal parse_document bytes ≡ ok (entries, report)
    → IsAccounted folder e entries report
unfolding parse
parse-TopEntry decimal parse_document bytes text root section e folder entries report utf8 read
      below there returns =
    elim (Bool-cases (starts_with bytes kdbx_signature)) [
      | inl y ↦ let no : ⊥ = (let h = rw y at returns in cc) in absurd no
      | inr n ↦ elim (Bool-cases (text_eq root.name (codes "KeePassFile"))) [
        | inl named ↦
            let got = rw (n, utf8, read, named, below) at returns in
            let both : with_attachments decimal (walk_top section no_walk) ≡ (entries, report) =
              ground (arith, got) in
            subst (λ (r : List ImportedEntry × Report). IsAccounted folder e r.0 r.1) both
              (with_attachments-IsAccounted decimal folder e (walk_top section no_walk)
                (walk_top-IsAccounted folder e section no_walk there))
        | inr unnamed ↦
            let h = rw (n, utf8, read, unnamed) at returns in absurd (let no : ⊥ = cc in no)
      ]
    ]
