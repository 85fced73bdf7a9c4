-- ===== src/RelPath/Walk.antt =====
-- `segments`, `parent`, `file_name` and `join` of a valid path.
use mathlib.Core.Option
use bypass.Prelude.{
  ◌≡◌, refl, ◌∙◌, ◌↔◌, inl, inr, false, some, [], ◌∷◌, ◌++◌, Bool-cases, All, All-append,
  All-append_left, All-append_right, ok,
}
use bypass.Text
use bypass.Text.{Text, codes, contains, split, rsplit_once}
use bypass.Text.Split.{
  split-append, split_none, join-split, split-contains, rsplit_once-append, rsplit_once_parts,
}
use bypass.RelPath.{RelPath, segments, parent, file_name, join, IsSegment, IsValid}
use bypass.RelPath.Valid.{new_iff}

-- The segments of a path with one name more.
pub split-child :
    (s t : Text) → contains b'/' t ≡ false → split b'/' (s ++ (b'/' ∷ t)) ≡ split b'/' s ++ t ∷ []
split-child s t h = split-append b'/' s t ∙ rw (split_none b'/' t h)

-- `join` of a valid path accepts exactly a safe segment without a slash, and appends it.
pub join_iff :
    (p : RelPath) (segment : Text) (q : RelPath)
    → IsValid p
    → (join p segment ≡ ok q) ↔ (
        (q.as_str ≡ p.as_str ++ (b'/' ∷ segment))
        × IsSegment segment
        × (contains b'/' segment ≡ false))
unfolding join
join_iff p segment q valid = elim (Bool-cases (contains b'/' segment)) [
  | inl e ↦ rw e (λ h. cc, λ h. cc)
  | inr e ↦ rw e (
    λ h.
        let (same, ok_q) = (new_iff (p.as_str ++ (b'/' ∷ segment)) q).0 h in
        let pieces = rw (same, split-child p.as_str segment e) at ok_q in
        (same, (All-append_right IsSegment (split b'/' p.as_str) _ pieces).0, refl),
    λ h. (new_iff (p.as_str ++ (b'/' ∷ segment)) q).1 (
      h.0,
      rw (h.0, split-child p.as_str segment e)
          (All-append IsSegment (split b'/' p.as_str) (segment ∷ []) valid (h.1, tt)),
    ),
  )
]

-- The parent and the name of what `join` of a valid path builds are what it was built from.
pub parent-join :
    (p : RelPath) (segment : Text) (q : RelPath)
    → IsValid p
    → join p segment ≡ ok q
    → (parent q ≡ some p) × (file_name q ≡ segment)
unfolding parent file_name
parent-join p segment q valid e =
    let (same, safe, no_slash) = (join_iff p segment q valid).0 e in
    rw (same, rsplit_once-append b'/' p.as_str segment no_slash) (refl, refl)

-- The text of a path around its last slash.
pub parent_parts :
    (p q : RelPath)
    → parent p ≡ some q
    → (p.as_str ≡ q.as_str ++ (b'/' ∷ file_name p)) × (contains b'/' (file_name p) ≡ false)
unfolding parent file_name
parent_parts p q e =
    let ((h, t), cut, same) = (Option.map-eq-some_iff _ _).0 e in
    let (parts, no_slash) = rsplit_once_parts b'/' p.as_str h t cut in
    rw (← same, cut) (parts, no_slash)

-- A valid path that has a parent is that parent, itself a valid path, with the path's name joined
-- to it.
pub join-parent :
    (p q : RelPath) → IsValid p → parent p ≡ some q → IsValid q × (join q (file_name p) ≡ ok p)
join-parent p q valid e =
    let (parts, no_slash) = parent_parts p q e in
    let pieces = rw (parts, split-child q.as_str (file_name p) no_slash) at valid in
    let valid_q = All-append_left IsSegment (split b'/' q.as_str) (file_name p ∷ []) pieces in
    let safe = (All-append_right IsSegment (split b'/' q.as_str) (file_name p ∷ []) pieces).0 in
    (valid_q, (join_iff q (file_name p) p valid_q).1 (parts, safe, no_slash))

pub parent-IsValid : (p q : RelPath) → IsValid p → parent p ≡ some q → IsValid q
parent-IsValid p q valid e = (join-parent p q valid e).0

-- The segments of a valid path are safe names without slashes, and their join is the path.
pub segments_lem :
    (p : RelPath)
    → IsValid p
    → All IsSegment (segments p)
      × All (λ s. contains b'/' s ≡ false) (segments p)
      × (Text.join (codes "/") (segments p) ≡ p.as_str)
unfolding segments
segments_lem p valid = (valid, split-contains b'/' p.as_str, join-split b'/' p.as_str)
