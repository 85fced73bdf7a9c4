-- ===== src/Text.antt =====
-- Texts as lists of code points (Rust's `str`) and byte strings, with what the code uses of the
-- standard library on them. A pattern of one `char` is its code point.
pub mod Laws
pub mod Split
pub mod Affix
pub mod Utf8
pub mod Decimal
use Prim.Native.Char.{code}
use mathlib.Core.Option
use bypass.Prelude.{
  ℕ, ◌+◌, String, Bool, true, false, ◌&&◌, ◌||◌, Option, none, some, List, [], ◌∷◌, ◌++◌, ltb, leb,
  ◌==◌, if◌then◌else◌, is_empty,
}

abbrev pub Text : Type 0
Text = List ℕ

abbrev pub Bytes : Type 0
Bytes = List ℕ

-- The code points of a literal.
abbrev pub codes : String → Text
codes String.[] = []
codes (String.◌∷◌ c s) = code c ∷ codes s

unfoldable pub text_eq : Text → Text → Bool
text_eq [] [] = true
text_eq (a ∷ s) (b ∷ t) = a == b && text_eq s t
text_eq _ _ = false

unfoldable pub contains : ℕ → Text → Bool
contains c [] = false
contains c (d ∷ s) = d == c || contains c s

unfoldable pub strip_prefix : Text → Text → Option Text
strip_prefix s [] = some s
strip_prefix [] (p ∷ ps) = none
strip_prefix (c ∷ s) (p ∷ ps) = if c == p then strip_prefix s ps else none

unfoldable pub strip_suffix : Text → Text → Option Text
unfolding text_eq
strip_suffix [] t = if text_eq [] t then some [] else none
strip_suffix (c ∷ s) t =
    if text_eq (c ∷ s) t then some [] else Option.map (◌∷◌ c) (strip_suffix s t)

abbrev pub is_some {ℓ} : {A : Type ℓ} → Option A → Bool
is_some none = false
is_some (some a) = true

unfoldable pub starts_with : Text → Text → Bool
unfolding strip_prefix
starts_with s p = is_some (strip_prefix s p)

unfoldable pub ends_with : Text → Text → Bool
unfolding strip_suffix
ends_with s p = is_some (strip_suffix s p)

-- `str::contains` with a text for a pattern.
unfoldable pub contains_text : Text → Text → Bool
unfolding starts_with
contains_text [] p = starts_with [] p
contains_text (c ∷ s) p = starts_with (c ∷ s) p || contains_text s p

abbrev pub push_head : ℕ → List Text → List Text
push_head c [] = (c ∷ []) ∷ []
push_head c (x ∷ xs) = (c ∷ x) ∷ xs

-- `str::split` at a `char`: one piece more than there are separators.
unfoldable pub split : ℕ → Text → List Text
split c [] = [] ∷ []
split c (d ∷ s) = let rest = split c s in if d == c then [] ∷ rest else push_head d rest

unfoldable pub join : Text → List Text → Text
join sep [] = []
join sep (x ∷ []) = x
join sep (x ∷ (y ∷ r)) = x ++ (sep ++ join sep (y ∷ r))

unfoldable pub split_once : ℕ → Text → Option (Text × Text)
split_once c [] = none
split_once c (d ∷ s) =
    if d == c then some ([], s) else Option.map (λ p. (d ∷ p.0, p.1)) (split_once c s)

abbrev pub rsplit_step : ℕ → ℕ → Text → Option (Text × Text) → Option (Text × Text)
rsplit_step c d s none = if d == c then some ([], s) else none
rsplit_step c d s (some p) = some (d ∷ p.0, p.1)

unfoldable pub rsplit_once : ℕ → Text → Option (Text × Text)
rsplit_once c [] = none
rsplit_once c (d ∷ s) = rsplit_step c d s (rsplit_once c s)

-- Unicode's White_Space.
unfoldable pub is_whitespace : ℕ → Bool
is_whitespace c =
    (leb 9 c && leb c 13)
    || c == 32
    || c == 0x85
    || c == 0xa0
    || c == 0x1680
    || (leb 0x2000 c && leb c 0x200a)
    || c == 0x2028
    || c == 0x2029
    || c == 0x202f
    || c == 0x205f
    || c == 0x3000

unfoldable pub trim_start : Text → Text
trim_start [] = []
trim_start (c ∷ s) = if is_whitespace c then trim_start s else c ∷ s

unfoldable pub trim_end : Text → Text
trim_end [] = []
trim_end (c ∷ s) =
    let rest = trim_end s in if is_whitespace c && is_empty rest then [] else c ∷ rest

unfoldable pub trim : Text → Text
unfolding trim_start trim_end
trim s = trim_end (trim_start s)

abbrev pub or_self : Option Text → Text → Text
or_self none s = s
or_self (some t) s = t

-- `line.strip_suffix('\r').unwrap_or(line)`
unfoldable pub strip_cr : Text → Text
unfolding strip_suffix
strip_cr s = or_self (strip_suffix s (13 ∷ [])) s

-- A last piece with no newline keeps its carriage return, and is no line if it is empty.
unfoldable pub lines_of : List Text → List Text
unfolding strip_cr
lines_of [] = []
lines_of (x ∷ []) = if is_empty x then [] else x ∷ []
lines_of (x ∷ (y ∷ r)) = strip_cr x ∷ lines_of (y ∷ r)

unfoldable pub lines : Text → List Text
unfolding split lines_of
lines s = lines_of (split b'\n' s)

-- `str::split` at the characters of a class.
unfoldable pub split_by : (ℕ → Bool) → Text → List Text
split_by p [] = [] ∷ []
split_by p (d ∷ s) = let rest = split_by p s in if p d then [] ∷ rest else push_head d rest

unfoldable pub nonempty : List Text → List Text
nonempty [] = []
nonempty (x ∷ xs) = let rest = nonempty xs in if is_empty x then rest else x ∷ rest

unfoldable pub split_whitespace : Text → List Text
unfolding split_by nonempty is_whitespace
split_whitespace s = nonempty (split_by is_whitespace s)

abbrev pub is_ascii_upper : ℕ → Bool
is_ascii_upper c = leb b'A' c && leb c b'Z'

abbrev pub is_ascii_digit : ℕ → Bool
is_ascii_digit c = leb b'0' c && leb c b'9'

abbrev pub is_ascii_alphanumeric : ℕ → Bool
is_ascii_alphanumeric c = is_ascii_digit c || is_ascii_upper c || (leb b'a' c && leb c b'z')

abbrev pub to_ascii_lowercase : ℕ → ℕ
to_ascii_lowercase c = if is_ascii_upper c then c + 32 else c

-- The order of texts: that of their UTF-8 bytes, which is that of their code points.
unfoldable pub text_le : Text → Text → Bool
text_le [] t = true
text_le (a ∷ s) [] = false
text_le (a ∷ s) (b ∷ t) = ltb a b || (a == b && text_le s t)
