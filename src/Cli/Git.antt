-- ===== src/Cli/Git.antt =====
-- The warning before a destructive git command (`warn_destructive_git_args` of
-- crates/bypass-cli/src/main.rs). A warning is represented by the command it is about.
use bypass.Prelude.{Bool, true, false, Option, none, some, List, [], ◌∷◌, if◌then◌else◌}
use bypass.Text.{Text, codes, text_eq, starts_with}

pub data Destructive : Type 0 where
  reset clean checkout branch push : Destructive

-- Without the leading words that start with `-`.
unfoldable pub without_options : List Text → List Text
without_options [] = []
without_options (a ∷ as_) = if starts_with a (codes "-") then without_options as_ else a ∷ as_

-- Whether a word of the second list is in the first.
unfoldable pub has_one_of : List Text → List Text → Bool
has_one_of [] words = false
has_one_of (a ∷ rest) words = if is_in words then true else has_one_of rest words
  where
    is_in : List Text → Bool
    is_in [] = false
    is_in (w ∷ ws) = if text_eq a w then true else is_in ws

abbrev pub warning : Text → List Text → Option Destructive
warning verb rest =
    if text_eq verb (codes "reset")
    then (if has_one_of rest (codes "--hard" ∷ []) then some reset else none)
    else if text_eq verb (codes "clean")
    then (if has_one_of rest (codes "-f" ∷ codes "-fd" ∷ codes "-fdx" ∷ codes "--force" ∷ [])
        then some clean
        else none)
    else if text_eq verb (codes "checkout")
    then (if has_one_of rest (codes "." ∷ codes "--" ∷ []) then some checkout else none)
    else if text_eq verb (codes "branch")
    then (if has_one_of rest (codes "-D" ∷ []) then some branch else none)
    else if text_eq verb (codes "push")
    then (if has_one_of rest (codes "--force" ∷ codes "-f" ∷ codes "--force-with-lease" ∷ [])
        then some push
        else none)
    else none

abbrev pub warn_verbs : List Text → Option Destructive
warn_verbs [] = none
warn_verbs (verb ∷ rest) = warning verb rest

unfoldable pub warn_destructive_git_args : List Text → Option Destructive
unfolding without_options has_one_of
warn_destructive_git_args args = warn_verbs (without_options args)
