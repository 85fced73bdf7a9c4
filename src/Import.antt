-- ===== src/Import.antt =====
-- Import of foreign vaults (crates/bypass-core/src/import.rs): the slug of a path.
pub mod Slug
pub mod Body
pub mod Prepare
pub mod Csv
pub mod Bitwarden
pub mod Keepass
pub mod Driver
use bypass.Prelude.{
  ℕ, Bool, true, false, ◌&&◌, ◌||◌, List, [], ◌∷◌, ◌++◌, ◌==◌, if◌then◌else◌, is_empty, map,
}
use bypass.Text.{
  Text, codes, split, join, nonempty, is_whitespace, is_ascii_alphanumeric, to_ascii_lowercase,
}

-- What a character becomes in the first pass of `slug_path`.
unfoldable pub slug_char : ℕ → Text
slug_char c =
    if is_ascii_alphanumeric c
    then to_ascii_lowercase c ∷ []
    else if c == b'.' || (c == b'_' || (c == b'-' || c == b'/'))
    then c ∷ []
    else if is_whitespace c
    then b'-' ∷ []
    else []

unfoldable pub slug_chars : Text → Text
slug_chars [] = []
slug_chars (c ∷ s) = slug_char c ++ slug_chars s

-- A segment with each run of dashes made one; `last_dash` if a dash stands before it.
unfoldable pub collapse : Bool → Text → Text
collapse last_dash [] = []
collapse last_dash (c ∷ seg) =
    let rest = collapse (c == b'-') seg in if c == b'-' && last_dash then rest else c ∷ rest

unfoldable pub trim_dashes_start : Text → Text
trim_dashes_start [] = []
trim_dashes_start (c ∷ s) = if c == b'-' then trim_dashes_start s else c ∷ s

unfoldable pub trim_dashes_end : Text → Text
trim_dashes_end [] = []
trim_dashes_end (c ∷ s) =
    let rest = trim_dashes_end s in if c == b'-' && is_empty rest then [] else c ∷ rest

unfoldable pub normed : Text → Text
unfolding collapse trim_dashes_start trim_dashes_end
normed seg = trim_dashes_end (trim_dashes_start (collapse false seg))

unfoldable pub slug_segments : Text → List Text
unfolding slug_chars normed
slug_segments s = nonempty (map normed (split b'/' (slug_chars s)))

unfoldable pub slug_path : Text → Text
unfolding slug_segments
slug_path s = join (codes "/") (slug_segments s)
