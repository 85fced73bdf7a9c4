-- ===== src/Store/Attributes.antt =====
-- The `.gitattributes` rule of crates/bypass-core/src/store.rs.
use bypass.Prelude.{
  Bool, false, ◌&&◌, ◌||◌, Option, none, some, List, [], ◌∷◌, any, is_empty, if◌then◌else◌,
}
use bypass.Text.{Text, Bytes, codes, text_eq, lines, trim, starts_with, split_whitespace}
use bypass.Text.Utf8.{from_utf8}

abbrev pub gitattributes_rule : Bytes
gitattributes_rule = codes "*.gpg binary merge=bypass-take-theirs\n"

-- The pattern comes first, and one of the attributes behind it is `binary`.
unfoldable pub is_rule : List Text → Bool
is_rule [] = false
is_rule (pattern ∷ parts) =
    text_eq pattern (codes "*.gpg") && any (λ tok. text_eq tok (codes "binary")) parts

unfoldable pub line_has_rule : Text → Bool
unfolding is_rule
line_has_rule line =
    let l = trim line in
    if is_empty l || starts_with l (codes "#") then false else is_rule (split_whitespace l)

abbrev pub any_line : Option Text → Bool
any_line none = false
any_line (some text) = any line_has_rule (lines text)

unfoldable pub has_gpg_binary_rule : Bytes → Bool
unfolding line_has_rule
has_gpg_binary_rule body = any_line (from_utf8 body)
