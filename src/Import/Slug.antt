-- ===== src/Import/Slug.antt =====
-- When the slug of a text is a path that `RelPath::new` accepts (crates/bypass-core/src/import.rs).
use bypass.Prelude.{
  ℕ, ◌≡◌, ◌≢◌, ◌↔◌, refl, ◌∙◌, inl, inr, Bool, false, List, [], ◌∷◌, arith, All, Bool-cases, map,
  ◌==◌, ok, is_empty, any,
}
use bypass.Text.{Text, codes, contains, split, nonempty, is_whitespace}
use bypass.Text.Laws.{contains-append}
use bypass.Text.Split.{split-join, split-contains}
use bypass.RelPath.{RelPath, new, IsSegment}
use bypass.RelPath.Valid.{new_iff, any-split}
use bypass.Import.{
  slug_char, slug_chars, collapse, trim_dashes_start, trim_dashes_end, normed, slug_segments,
  slug_path,
}

contains-slug_char_nul : (d : ℕ) → contains 0 (slug_char d) ≡ false
unfolding contains slug_char is_whitespace
contains-slug_char_nul d = ground arith

contains-slug_char_backslash : (d : ℕ) → contains b'\\' (slug_char d) ≡ false
unfolding contains slug_char is_whitespace
contains-slug_char_backslash d = ground arith

contains-slug_chars :
    (c : ℕ) (s : Text)
    → ((d : ℕ) → contains c (slug_char d) ≡ false)
    → contains c (slug_chars s) ≡ false
unfolding slug_chars
contains-slug_chars c [] h = unfold contains in refl
contains-slug_chars c (d ∷ s) h =
    contains-append c (slug_char d) (slug_chars s) ∙ rw (h d, contains-slug_chars c s h)

contains-collapse :
    (c : ℕ) (b : Bool) (s : Text) → contains c s ≡ false → contains c (collapse b s) ≡ false
unfolding contains collapse
contains-collapse c b [] h = refl
contains-collapse c b (d ∷ s) h = ground (arith, contains-collapse c (d == b'-') s)

contains-trim_dashes_start :
    (c : ℕ) (s : Text) → contains c s ≡ false → contains c (trim_dashes_start s) ≡ false
unfolding contains trim_dashes_start
contains-trim_dashes_start c [] h = refl
contains-trim_dashes_start c (d ∷ s) h = ground (arith, contains-trim_dashes_start c s)

contains-trim_dashes_end :
    (c : ℕ) (s : Text) → contains c s ≡ false → contains c (trim_dashes_end s) ≡ false
unfolding contains trim_dashes_end
contains-trim_dashes_end c [] h = refl
contains-trim_dashes_end c (d ∷ s) h = ground (arith, contains-trim_dashes_end c s)

contains-normed : (c : ℕ) (s : Text) → contains c s ≡ false → contains c (normed s) ≡ false
unfolding normed
contains-normed c s h =
    contains-trim_dashes_end c _ (contains-trim_dashes_start c _ (contains-collapse c false s h))

All-normed :
    (c : ℕ) (xs : List Text)
    → All (λ x. contains c x ≡ false) xs
    → All (λ x. contains c x ≡ false) (nonempty (map normed xs))
unfolding nonempty
All-normed c [] h = tt
All-normed c (x ∷ xs) (p, h) = elim (Bool-cases (is_empty (normed x))) [
  | inl e ↦ rw e (All-normed c xs h)
  | inr e ↦ rw e (contains-normed c x p, All-normed c xs h)
]

All-any :
    (c : ℕ) (xs : List Text) → any (contains c) xs ≡ false → All (λ x. contains c x ≡ false) xs
All-any c [] h = tt
All-any c (x ∷ xs) h = (ground arith, All-any c xs (ground arith))

pieces_without :
    (c : ℕ) (s : Text)
    → c ≢ b'/'
    → ((d : ℕ) → contains c (slug_char d) ≡ false)
    → All (λ x. contains c x ≡ false) (slug_segments s)
unfolding slug_segments
pieces_without c s ne h =
    All-normed c (split b'/' (slug_chars s))
      (All-any c _ (any-split c b'/' (slug_chars s) ne ∙ contains-slug_chars c s h))

All-nonempty : (xs : List Text) → All (λ x. x ≢ []) (nonempty xs)
unfolding nonempty
All-nonempty [] = tt
All-nonempty ([] ∷ xs) = All-nonempty xs
All-nonempty ((c ∷ x) ∷ xs) = (λ e. cc, All-nonempty xs)

-- Neither `.` nor `..`.
abbrev pub IsNoDots : Text → Type 0
IsNoDots s = (s ≢ codes ".") × (s ≢ codes "..")

All-IsSegment_slug :
    (xs : List Text)
    → All (λ x. x ≢ []) xs
    → All (λ x. contains 0 x ≡ false) xs
    → All (λ x. contains b'\\' x ≡ false) xs
    → All IsSegment xs ↔ All IsNoDots xs
All-IsSegment_slug [] n z b = (λ h. tt, λ h. tt)
All-IsSegment_slug (x ∷ xs) n z b =
    let (to, from) = All-IsSegment_slug xs n.1 z.1 b.1 in
    (
      λ h. ((h.0.not_dot, h.0.not_dotdot), to h.1),
      λ h. (
        record {
          nonempty = n.0;
          not_dot = h.0.0;
          not_dotdot = h.0.1;
          no_nul = z.0;
          no_backslash = b.0;
        },
        from h.1,
      ),
    )

segments-slug_path : (s : Text) → slug_segments s ≢ [] → split b'/' (slug_path s) ≡ slug_segments s
unfolding slug_path slug_segments
segments-slug_path s h =
    split-join b'/' (slug_segments s) h (All-normed b'/' _ (split-contains b'/' (slug_chars s)))

-- The slug of a text of which anything is left is a path that `RelPath::new` accepts exactly if no
-- segment of the slug is `.` or `..`.
pub new-slug_path_iff :
    (s : Text) (p : RelPath)
    → slug_segments s ≢ []
    → (new (slug_path s) ≡ ok p) ↔ ((p.as_str ≡ slug_path s) × All IsNoDots (slug_segments s))
new-slug_path_iff s p h =
    let (to, from) =
      All-IsSegment_slug (slug_segments s) (kept s)
        (pieces_without 0 s (omega arith) contains-slug_char_nul)
        (pieces_without b'\\' s (omega arith) contains-slug_char_backslash) in
    let (accepted, accepts) = new_iff (slug_path s) p in
    (
      λ e. ((accepted e).0, to (rw ((accepted e).0, segments-slug_path s h) at (accepted e).1)),
      λ q. accepts (q.0, rw (q.0, segments-slug_path s h) (from q.1)),
    )
  where
    kept : (t : Text) → All (λ x. x ≢ []) (slug_segments t)
    kept t = unfold slug_segments in All-nonempty (map normed (split b'/' (slug_chars t)))
