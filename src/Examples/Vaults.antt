-- ===== src/Examples/Vaults.antt =====
-- A KeePass export at concrete inputs: an XML library that knows one document.
use bypass.Prelude.{◌≡◌, refl, inl, inr, none, some, List, [], ◌∷◌, ok, ◌⊎◌}
use bypass.Text.{Text, codes, text_eq, starts_with}
use bypass.Text.Utf8.{from_utf8}
use bypass.Import.Body.{ImportedEntry, Report}
use bypass.Import.Keepass.{
  Nodes, nil, element, other, Document, text_of_child, draft_of, child_named, parse, imported,
  no_draft, skipped,
}
use bypass.Import.Keepass.Accounted.{IsAccounted, parse-TopEntry}

abbrev leaf : Text → Text → Nodes → Nodes
leaf name text rest = element name (some text) nil rest

abbrev string : Text → Text → Nodes → Nodes
string k v rest =
    element (codes "String") none (leaf (codes "Key") k (leaf (codes "Value") v nil)) (other rest)

abbrev untitled : Nodes
untitled = string (codes "Password") (codes "pw") nil

abbrev gmail : Nodes
gmail =
    string (codes "Title") (codes "Gmail")
      (string (codes "Password") (codes "pw") (string (codes "pin") (codes "42") nil))

-- The group `Root`, with an untitled entry and the group `Email`, which has one.
abbrev section : Nodes
section =
    element (codes "Group") none
      (leaf (codes "Name") (codes "Root") (
        element (codes "Entry") none untitled (
          element (codes "Group") none
            (leaf (codes "Name") (codes "Email") (element (codes "Entry") none gmail nil)) nil)))
      nil

abbrev xml : Text → Text ⊎ Document
xml text = inr (record {
  name = codes "KeePassFile";
  children = other (element (codes "Root") none section nil);
})

abbrev result : List ImportedEntry × Report
result = (
  imported (codes "Email" ∷ []) (draft_of gmail no_draft) ∷ [],
  record { entry = codes "<untitled>"; message = skipped [] } ∷ [],
)

parse_lem : parse (λ n. []) xml (codes "<") ≡ ok result
unfolding parse from_utf8 draft_of starts_with text_eq
parse_lem = refl

parse-TopEntry_example : IsAccounted (codes "Email" ∷ []) gmail result.0 result.1
unfolding text_of_child from_utf8 child_named text_eq
parse-TopEntry_example =
    parse-TopEntry (λ n. []) xml (codes "<") (codes "<")
      (record {
        name = codes "KeePassFile";
        children = other (element (codes "Root") none section nil);
      })
      section gmail (codes "Email" ∷ []) result.0 result.1 refl refl refl
      (inl
        (refl, inr (inr (inr (inr (inr (inl (refl, refl, inr (inr (inl (refl, refl, refl)))))))))))
      parse_lem
