-- ===== src/Store/Blobs/RoundTrip.antt =====
-- From entries to blobs and back.
use bypass.Prelude.{
  ◌≡◌, ◌≢◌, refl, sym, ap, ◌∙◌, ◌↔◌, ◌⊎◌, inl, inr, Option, none, some, List, [], ◌∷◌, ◌++◌, arith,
  Option-cases, All, In, Outcome, ok, err, abort, to_option,
}
use bypass.Text.{Text, codes, contains, split, strip_suffix}
use bypass.Text.Laws.{contains-append}
use bypass.Text.Split.{split-append_last, split-ne-nil, append_last}
use bypass.Text.Affix.{strip_suffix-append, strip_suffix_parts}
use bypass.RelPath.{RelPath, new, IsSegment, IsValid}
use bypass.RelPath.Valid.{new_iff, new-IsValid}
use bypass.Store.Blobs.{entry_to_blob, blob_to_entry, parse_stem, keep_some, entries_of}

-- The blob of an entry, as a path.
abbrev pub blob_of : RelPath → RelPath
blob_of e = record { as_str = e.as_str ++ codes ".gpg" }

-- A safe name stays safe with the suffix.
IsSegment-gpg : (x : Text) → IsSegment x → IsSegment (x ++ codes ".gpg")
IsSegment-gpg [] h = absurd (h.nonempty refl)
IsSegment-gpg (c ∷ x) h = record {
  nonempty = λ e. cc;
  not_dot = λ e. too_long x e;
  not_dotdot = λ e. too_long' x e;
  no_nul = contains-append 0 (c ∷ x) (codes ".gpg") ∙ rw h.no_nul (unfold contains in refl);
  no_backslash =
      contains-append b'\\' (c ∷ x) (codes ".gpg") ∙ rw h.no_backslash (unfold contains in refl);
}
  where
    too_long : (y : Text) → (c ∷ y) ++ codes ".gpg" ≡ codes "." → ⊥
    too_long [] e = cc
    too_long (d ∷ y) e = cc

    too_long' : (y : Text) → (c ∷ y) ++ codes ".gpg" ≡ codes ".." → ⊥
    too_long' [] e = cc
    too_long' (d ∷ []) e = cc
    too_long' (d ∷ (f ∷ y)) e = cc

append_last-gpg :
    (xs : List Text) → xs ≢ [] → All IsSegment xs → All IsSegment (append_last xs (codes ".gpg"))
append_last-gpg [] ne h = absurd (ne refl)
append_last-gpg (x ∷ []) ne h = (IsSegment-gpg x h.0, tt)
append_last-gpg (x ∷ (y ∷ r)) ne h = (h.0, append_last-gpg (y ∷ r) (λ e. cc) h.1)

pub blob_of-IsValid : (e : RelPath) → IsValid e → IsValid (blob_of e)
blob_of-IsValid e h =
    rw (split-append_last b'/' e.as_str (codes ".gpg") (unfold contains in refl))
      (append_last-gpg (split b'/' e.as_str) (split-ne-nil b'/' e.as_str) h)

-- On a valid entry `entry_to_blob` does not panic.
pub entry_to_blob_lem :
    {E : Type 0} (e : RelPath) → IsValid e → entry_to_blob {E = E} e ≡ ok (blob_of e)
unfolding entry_to_blob
entry_to_blob_lem e h = rw (new-IsValid (blob_of e) (blob_of-IsValid e h))

to_option-eq-some : {E A : Type 0} (m : Outcome E A) (a : A) → to_option m ≡ some a → m ≡ ok a
to_option-eq-some (ok b) a h = ground arith
to_option-eq-some (err x) a h = cc
to_option-eq-some abort a h = cc

abbrev path_of : Text → RelPath
path_of t = record { as_str = t }

-- `blob_to_entry` gives for a blob exactly the valid entry whose blob it is.
pub blob_to_entry_iff : (b e : RelPath) → (blob_to_entry b ≡ some e) ↔ (IsValid e × (b ≡ blob_of e))
unfolding blob_to_entry
blob_to_entry_iff b e = (to, from)
  where
    to : blob_to_entry b ≡ some e → IsValid e × (b ≡ blob_of e)
    to h = elim (Option-cases (strip_suffix b.as_str (codes ".gpg"))) [
      | inl q ↦ cc (rw (q, parse_stem) at h)
      | inr (stem, q) ↦
          let accepted = to_option-eq-some (new stem) e (rw q at h) in
          let (same, valid) = (new_iff stem e).0 accepted in
          let parts = strip_suffix_parts b.as_str (codes ".gpg") stem q in
          (valid, ap path_of (parts ∙ rw same))
    ]

    from : IsValid e × (b ≡ blob_of e) → blob_to_entry b ≡ some e
    from (valid, same) =
        rw same (rw (strip_suffix-append e.as_str (codes ".gpg"), new-IsValid e valid))

In-keep_some :
    (e : RelPath) (o : Option RelPath) (rest : List RelPath)
    → In e (keep_some o rest) ↔ ((o ≡ some e) ⊎ In e rest)
In-keep_some e none rest = (λ h. inr h, λ h. elim h [ inl p ↦ cc | inr q ↦ q ])
In-keep_some e (some x) rest = (
  λ h. elim h [ inl p ↦ inl (ap some (sym p)) | inr q ↦ inr q ],
  λ h. elim h [ inl p ↦ inl (ground arith) | inr q ↦ inr q ],
)

-- Listing keeps exactly the entries whose blobs are listed.
pub In-entries_of :
    (bs : List RelPath) (e : RelPath) → In e (entries_of bs) ↔ (IsValid e × In (blob_of e) bs)
unfolding entries_of
In-entries_of [] e = (λ h. absurd h.1, λ h. h.1)
In-entries_of (b ∷ bs) e = (
  λ h. elim ((In-keep_some e (blob_to_entry b) (entries_of bs)).0 h) [
    | inl p ↦ let (valid, same) = (blob_to_entry_iff b e).0 p in (valid, inl (sym same))
    | inr q ↦ let (valid, there) = (In-entries_of bs e).0 q in (valid, inr there)
  ],
  λ h. (In-keep_some e (blob_to_entry b) (entries_of bs)).1 (elim h.1 [
    | inl p ↦ inl ((blob_to_entry_iff b e).1 (h.0, sym p))
    | inr q ↦ inr ((In-entries_of bs e).1 (h.0, q))
  ]),
)

-- Different entries have different blobs.
pub blob_of-ne : (e f : RelPath) → e.as_str ≢ f.as_str → (blob_of e).as_str ≢ (blob_of f).as_str
blob_of-ne e f ne same =
    ne (
      cc (strip_suffix-append e.as_str (codes ".gpg"), strip_suffix-append f.as_str (codes ".gpg")))
