-- ===== src/Store/Blobs.antt =====
-- The helpers of crates/bypass-core/src/store.rs on paths and recipients: entries and their blobs,
-- the fixed paths, and the comparison of two recipient lists.
pub mod RoundTrip
pub mod Recipients
use mathlib.Core.Option
use bypass.Prelude.{
  ℕ, Bool, true, false, ◌&&◌, Option, none, some, List, [], ◌∷◌, ◌++◌, Outcome, expect, to_option,
  if◌then◌else◌, length, ◌==◌, map,
}
use bypass.Text.{Text, codes, text_eq, strip_suffix, contains_text}
use bypass.RelPath
use bypass.RelPath.{RelPath}
use bypass.Crypto.{KeyId}
use bypass.Store.Sorting.{sort_by}

unfoldable pub entry_to_blob : {E : Type 0} → RelPath → Outcome E RelPath
entry_to_blob entry = expect (RelPath.new (entry.as_str ++ codes ".gpg"))

abbrev pub parse_stem : Option Text → Option RelPath
parse_stem none = none
parse_stem (some stem) = to_option (RelPath.new stem)

unfoldable pub blob_to_entry : RelPath → Option RelPath
blob_to_entry blob = parse_stem (strip_suffix blob.as_str (codes ".gpg"))

-- `blobs.iter().filter_map(blob_to_entry)`
abbrev pub keep_some : Option RelPath → List RelPath → List RelPath
keep_some none rest = rest
keep_some (some e) rest = e ∷ rest

unfoldable pub entries_of : List RelPath → List RelPath
entries_of [] = []
entries_of (b ∷ bs) = keep_some (blob_to_entry b) (entries_of bs)

-- The filter of `find`.
unfoldable pub containing : Text → List RelPath → List RelPath
containing pattern [] = []
containing pattern (e ∷ es) =
    let rest = containing pattern es in if contains_text e.as_str pattern then e ∷ rest else rest

unfoldable pub texts_eq : List Text → List Text → Bool
texts_eq [] [] = true
texts_eq (s ∷ ss) (t ∷ ts) = text_eq s t && texts_eq ss ts
texts_eq _ _ = false

unfoldable pub recipients_equal : List KeyId → List KeyId → Bool
unfolding texts_eq
recipients_equal a b =
    if length a == length b
    then texts_eq (sort_by (λ t. t) (map (λ k. k.as_str) a))
        (sort_by (λ t. t) (map (λ k. k.as_str) b))
    else false
