-- ===== src/RelPath/Valid.antt =====
-- What `RelPath::new` accepts, against the description by segments.
use bypass.Prelude.{
  ℕ, ◌≡◌, ◌≢◌, refl, sym, ap, ◌∙◌, ◌↔◌, inl, inr, false, ◌||◌, none, List, [], ◌∷◌, arith, ◌==◌,
  Bool-cases, All, ok, is_empty, any, Option-cases, >>=-eq-ok, abort, All-append_right,
}
use bypass.Text.{Text, codes, contains, split, push_head, starts_with, ends_with, strip_suffix}
use bypass.Text.Laws.{text_eq_iff}
use bypass.Text.Split.{split-append}
use bypass.Text.Affix.{strip_suffix_parts}
use bypass.RelPath.{RelPath, check_segments, validate, new, IsSegment, IsValid}

any-push_head :
    (c d : ℕ) (xs : List Text) → any (contains c) (push_head d xs) ≡ (d == c || any (contains c) xs)
unfolding contains
any-push_head c d [] = ground arith
any-push_head c d (x ∷ xs) = ground arith

-- A character other than the separator stands in some piece.
pub any-split : (c sep : ℕ) (s : Text) → c ≢ sep → any (contains c) (split sep s) ≡ contains c s
unfolding split contains
any-split c sep [] h = refl
any-split c sep (d ∷ s) h = ground (arith, any-split c sep s h, any-push_head c d (split sep s))

check_segments_iff :
    (xs : List Text)
    → (check_segments xs ≡ ok tt) ↔ All (λ s. (s ≢ []) × (s ≢ codes ".") × (s ≢ codes "..")) xs
unfolding check_segments
check_segments_iff [] = ground arith
check_segments_iff ([] ∷ xs) = ground arith
check_segments_iff ((c ∷ s) ∷ xs) = ground (
  arith,
  check_segments_iff xs,
  text_eq_iff (c ∷ s) (codes "."),
  text_eq_iff (c ∷ s) (codes ".."),
)

All-IsSegment :
    (xs : List Text)
    → All (λ s. (s ≢ []) × (s ≢ codes ".") × (s ≢ codes "..")) xs
    → any (contains 0) xs ≡ false
    → any (contains b'\\') xs ≡ false
    → All IsSegment xs
All-IsSegment [] h n b = tt
All-IsSegment (x ∷ xs) h n b = (
  record {
    nonempty = h.0.0;
    not_dot = h.0.1;
    not_dotdot = h.0.2;
    no_nul = ground arith;
    no_backslash = ground arith;
  },
  All-IsSegment xs h.1 (ground arith) (ground arith),
)

IsSegment-All :
    (xs : List Text)
    → All IsSegment xs
    → All (λ s. (s ≢ []) × (s ≢ codes ".") × (s ≢ codes "..")) xs
      × (any (contains 0) xs ≡ false)
      × (any (contains b'\\') xs ≡ false)
IsSegment-All [] h = (tt, refl, refl)
IsSegment-All (x ∷ xs) (h, hs) =
    let (names, nul, backslash) = IsSegment-All xs hs in
    (
      ((h.nonempty, h.not_dot, h.not_dotdot), names),
      rw (h.no_nul, nul),
      rw (h.no_backslash, backslash),
    )

-- A text that starts or ends with the separator, or is empty, has an empty piece.
starts_with-slash : (s : Text) → All IsSegment (split b'/' s) → starts_with s (codes "/") ≡ false
unfolding starts_with split
starts_with-slash [] h = refl
starts_with-slash (c ∷ s) h = elim (Bool-cases (c == b'/')) [
  | inl e ↦ absurd ((rw e at h).0.nonempty refl)
  | inr e ↦ rw e
]

strips_none : (s t : Text) → strip_suffix s t ≡ none → ends_with s t ≡ false
unfolding ends_with
strips_none s t e = rw e

not-IsSegment-empty : ¬ (All IsSegment (split b'/' []))
unfolding split
not-IsSegment-empty h = h.0.nonempty refl

ends_with-slash : (s : Text) → All IsSegment (split b'/' s) → ends_with s (codes "/") ≡ false
ends_with-slash s h = elim (Option-cases (strip_suffix s (codes "/"))) [
  | inl e ↦ strips_none s (codes "/") e
  | inr (r, e) ↦
      let pieces = rw (strip_suffix_parts s (codes "/") r e, split-append b'/' r []) at h in
      absurd (not-IsSegment-empty (All-append_right IsSegment (split b'/' r) _ pieces))
]

validate_iff : (s : Text) → (validate s ≡ ok tt) ↔ All IsSegment (split b'/' s)
unfolding validate
validate_iff s = (
  λ e.
      All-IsSegment (split b'/' s) ((check_segments_iff (split b'/' s)).0 (ground arith))
        (any-split 0 b'/' s (omega arith) ∙ ground arith)
        (any-split b'\\' b'/' s (omega arith) ∙ ground arith),
  λ h.
      let (names, nul, backslash) = IsSegment-All (split b'/' s) h in
      ground (
        arith,
        starts_with-slash s h,
        ends_with-slash s h,
        any-split 0 b'/' s (omega arith),
        any-split b'\\' b'/' s (omega arith),
        (check_segments_iff (split b'/' s)).1 names,
        nil_case s h,
      ),
)
  where
    nil_case : (t : Text) → All IsSegment (split b'/' t) → is_empty t ≡ false
    nil_case [] h = absurd (not-IsSegment-empty h)
    nil_case (c ∷ t) h = refl

-- `new` accepts a text exactly when all its segments between slashes are safe (not empty, not `.`
-- or `..`, no NUL and no backslash), and then keeps the text as it is.
pub new_iff : (s : Text) (p : RelPath) → (new s ≡ ok p) ↔ ((p.as_str ≡ s) × IsValid p)
unfolding new
new_iff s p = (
  λ e.
      let (u, accepted, q) = >>=-eq-ok (validate s) (λ _. ok (record { as_str = s })) e in
      let same : p.as_str ≡ s = ground arith in (same, rw same ((validate_iff s).0 accepted)),
  λ h.
      rw ((validate_iff s).1 (rw h.0 at h.1))
        (ap (λ (t : Text). ok (record { as_str = t })) (sym h.0)),
)

pub new-IsValid : (p : RelPath) → IsValid p → new p.as_str ≡ ok p
new-IsValid p h = (new_iff p.as_str p).1 (refl, h)

check_segments-ne-abort : (xs : List Text) → check_segments xs ≢ abort
unfolding check_segments
check_segments-ne-abort [] e = cc
check_segments-ne-abort (x ∷ xs) e = ground (arith, check_segments-ne-abort xs)

-- `new` returns: it accepts, or gives an error.
pub new-ne-abort : (s : Text) → new s ≢ abort
unfolding new validate
new-ne-abort s e = ground (arith, check_segments-ne-abort (split b'/' s))
