-- ===== src/RelPath.antt =====
-- Traversal-safe relative paths inside the store (crates/bypass-core/src/path.rs). The message of
-- `Error::InvalidPath` is represented by the reason that it names.
pub mod Valid
pub mod Walk
use bypass.Prelude.{
  ℕ, ◌≡◌, ◌≢◌, false, Bool, Option, none, some, List, [], ◌∷◌, ◌++◌, Outcome, ok, err, ◌>>=◌,
  if◌then◌else◌, All, ◌||◌, is_empty, map,
}
use mathlib.Core.Option
use bypass.Text.{Text, codes, text_eq, contains, split, rsplit_once, starts_with, ends_with}

pub data PathError : Type 0 where
  empty absolute trailing_slash has_nul has_backslash empty_segment dot_segment : PathError
  join_slash : PathError

-- A path whose text `new` has accepted: see `IsValid`.
pub record RelPath : Type 0 where
  pub as_str : Text

-- The loop over the segments in `validate`.
check_segments : List Text → Outcome PathError (Unit {0})
check_segments [] = ok tt
check_segments (segment ∷ rest) =
    if is_empty segment
    then err empty_segment
    else if text_eq segment (codes ".") || text_eq segment (codes "..")
    then err dot_segment
    else check_segments rest

validate : Text → Outcome PathError (Unit {0})
unfolding check_segments
validate s =
    if is_empty s
    then err empty
    else if starts_with s (codes "/")
    then err absolute
    else if ends_with s (codes "/")
    then err trailing_slash
    else if contains 0 s
    then err has_nul
    else if contains b'\\' s
    then err has_backslash
    else check_segments (split b'/' s)

unfoldable pub new : Text → Outcome PathError RelPath
unfolding validate
new s = do _ ← validate s; ok (record { as_str = s })

unfoldable pub segments : RelPath → List Text
segments p = split b'/' p.as_str

unfoldable pub parent : RelPath → Option RelPath
parent p = Option.map (λ cut. record { as_str = cut.0 }) (rsplit_once b'/' p.as_str)

abbrev pub tail_or : Text → Option (Text × Text) → Text
tail_or s none = s
tail_or s (some (head, tail)) = tail

unfoldable pub file_name : RelPath → Text
file_name p = tail_or p.as_str (rsplit_once b'/' p.as_str)

unfoldable pub join : RelPath → Text → Outcome PathError RelPath
join p segment =
    if contains b'/' segment then err join_slash else new (p.as_str ++ (b'/' ∷ segment))

-- A segment that is safe to append to a directory: a name, not the directory or its parent, with
-- no NUL and no backslash.
pub record IsSegment (s : Text) : Type 0 where
  pub nonempty : s ≢ []
  pub not_dot : s ≢ codes "."
  pub not_dotdot : s ≢ codes ".."
  pub no_nul : contains 0 s ≡ false
  pub no_backslash : contains b'\\' s ≡ false

-- All segments of the path are safe.
abbrev pub IsValid : RelPath → Type 0
IsValid p = All IsSegment (split b'/' p.as_str)
