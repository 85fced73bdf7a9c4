-- ===== src/Import/Keepass.antt =====
-- The parser of KeePass XML exports (crates/bypass-core/src/import/keepass.rs). The XML library is a
-- parameter: a document is what the code asks of its nodes.
pub mod Strings
pub mod Accounted
use bypass.Prelude.{
  ℕ, ◌+◌, suc, ◌⊎◌, ◌<◌, Bool, true, false, not, ◌&&◌, ◌||◌, Option, none, some, List, [], ◌∷◌,
  ◌++◌, Outcome, ok, err, map_err, ok_or, returned, ◌>>=◌, ◌==◌, if◌then◌else◌, is_empty,
}
use bypass.Text.{Text, Bytes, codes, text_eq, starts_with, join}
use bypass.Text.Utf8.{encode, from_utf8}
use bypass.Import.Body.{ImportedEntry, Report, push_note}

-- The children of a node, in order: an element with its name, the text that `Node::text` gives and
-- its children, or a node of another kind.
pub data Nodes : Type 0 where
  nil : Nodes
  element : Text → Option Text → Nodes → Nodes → Nodes
  other : Nodes → Nodes

-- The root element of a document.
pub record Document : Type 0 where
  pub name : Text
  pub children : Nodes

pub data KeepassError (XE : Type 0) : Type 0 where
  parse_error : XE → KeepassError XE
  not_keepass : KeepassError XE
  looks_like_binary_kdbx : KeepassError XE

unfoldable pub text_of_child : Text → Nodes → Option Text
text_of_child tag nil = none
text_of_child tag (element name text kids rest) =
    if text_eq name tag then text else text_of_child tag rest
text_of_child tag (other rest) = text_of_child tag rest

-- `text_of_child(..).unwrap_or_default()`
abbrev pub text_or_default : Option Text → Text
text_or_default none = []
text_or_default (some s) = s

abbrev pub key : Nodes → Text
key string = text_or_default (text_of_child (codes "Key") string)

abbrev pub value : Nodes → Text
value string = text_or_default (text_of_child (codes "Value") string)

-- The variables of `build_entry`.
pub record Draft : Type 0 where
  pub title : Text
  pub username : Option Text
  pub password : Text
  pub url : Option Text
  pub notes : Option Text
  pub totp : Option Text
  pub fields : List (Text × Text)
  pub binaries_here : ℕ

abbrev pub no_draft : Draft
no_draft = record {
  title = [];
  username = none;
  password = [];
  url = none;
  notes = none;
  totp = none;
  fields = [];
  binaries_here = 0;
}

abbrev pub is_otp : Text → Bool
is_otp k = text_eq k (codes "otp") || text_eq k (codes "TOTP") || text_eq k (codes "totp")

unfoldable pub set_string : Text → Text → Draft → Draft
set_string k v d =
    if text_eq k (codes "Title")
    then record d { title = v }
    else if text_eq k (codes "UserName") && not (is_empty v)
    then record d { username = some v }
    else if text_eq k (codes "Password")
    then record d { password = v }
    else if text_eq k (codes "URL") && not (is_empty v)
    then record d { url = some v }
    else if text_eq k (codes "Notes") && not (is_empty v)
    then record d { notes = some v }
    else if is_otp k && not (is_empty v)
    then record d { totp = some v }
    else if not (is_empty k) && not (is_empty v)
    then record d { fields = d.fields ++ (k, v) ∷ [] }
    else d

unfoldable pub draft_child : Text → Nodes → Draft → Draft
unfolding set_string text_of_child
draft_child name kids d =
    if text_eq name (codes "String")
    then set_string (key kids) (value kids) d
    else if text_eq name (codes "Binary")
    then record d { binaries_here = suc d.binaries_here }
    else d

-- The loop of `build_entry`.
unfoldable pub draft_of : Nodes → Draft → Draft
unfolding draft_child
draft_of nil d = d
draft_of (element name text kids rest) d = draft_of rest (draft_child name kids d)
draft_of (other rest) d = draft_of rest d

-- What `walk_group` adds to.
pub record Walk : Type 0 where
  pub entries : List ImportedEntry
  pub report : Report
  pub binary_total : ℕ

unfoldable pub skipped : List Text → Text
unfolding join
skipped folder =
    codes "skipped a KeePass entry with no Title (folder: "
    ++ ((if is_empty folder then codes "<root>" else join (codes "/") folder) ++ codes ")")

abbrev pub uris_of : Option Text → List Text
uris_of none = []
uris_of (some url) = url ∷ []

abbrev pub imported : List Text → Draft → ImportedEntry
imported folder d = record {
  folder = folder;
  name = d.title;
  password = encode d.password;
  username = d.username;
  fields = d.fields;
  totp = d.totp;
  notes = d.notes;
  uris = uris_of d.url;
}

-- The end of `build_entry`, with the entry pushed.
unfoldable pub push_entry : List Text → Draft → Walk → Walk
push_entry folder d w =
    if is_empty d.title
    then record w { report = push_note (codes "<untitled>") (skipped folder) w.report }
    else record w {
      entries = w.entries ++ imported folder d ∷ [];
      binary_total = w.binary_total + d.binaries_here;
    }

abbrev pub subfolder : List Text → Text → List Text
subfolder folder name = if is_empty name then folder else folder ++ name ∷ []

-- The body of the loop of `walk_group` on an element; `inner` is what the walk into it gives.
abbrev pub after_element : Text → Nodes → List Text → Walk → Walk → Walk
after_element name kids folder inner w =
    if text_eq name (codes "Entry")
    then push_entry folder (draft_of kids no_draft) w
    else if text_eq name (codes "Group")
    then inner
    else w

-- The loop of `walk_group` over the children of a group, in the folder of the group.
unfoldable pub walk_children : Nodes → List Text → Walk → Walk
unfolding push_entry draft_of text_of_child
walk_children nil folder w = w
walk_children (other rest) folder w = walk_children rest folder w
walk_children (element name text kids rest) folder w =
    let inner =
      walk_children kids (subfolder folder (text_or_default (text_of_child (codes "Name") kids)))
        w in
    walk_children rest folder (after_element name kids folder inner w)

abbrev pub after_top : Text → Walk → Walk → Walk
after_top name group w = if text_eq name (codes "Group") then group else w

-- The groups below `Root`, whose own names are dropped.
unfoldable pub walk_top : Nodes → Walk → Walk
unfolding walk_children
walk_top nil w = w
walk_top (other rest) w = walk_top rest w
walk_top (element name text kids rest) w =
    walk_top rest (after_top name (walk_children kids [] w) w)

unfoldable pub child_named : Text → Nodes → Option Nodes
child_named tag nil = none
child_named tag (other rest) = child_named tag rest
child_named tag (element name text kids rest) =
    if text_eq name tag then some kids else child_named tag rest

abbrev pub no_walk : Walk
no_walk = record { entries = []; report = []; binary_total = 0 }

abbrev pub kdbx_signature : Bytes
kdbx_signature = 0x03 ∷ 0xd9 ∷ 0xa2 ∷ 0x9a ∷ []

module _ (decimal : ℕ → Text) where
  abbrev pub attachments : ℕ → Text
  attachments n =
      decimal n
      ++ (codes " entry attachment"
          ++ ((if n == 1 then [] else codes "s")
              ++ codes
                  " dropped (KeePass `<Binary>` references are not carried into the bypass entry body)"))

  abbrev pub with_attachments : Walk → List ImportedEntry × Report
  with_attachments w = (
    w.entries,
    if w.binary_total == 0 then w.report else push_note [] (attachments w.binary_total) w.report,
  )

  module _ {XE : Type 0} (parse_document : Text → XE ⊎ Document) where
    unfoldable pub parse : Bytes → Outcome (KeepassError XE) (List ImportedEntry × Report)
    unfolding walk_top child_named
    parse bytes = if starts_with bytes kdbx_signature then err looks_like_binary_kdbx else do
      text ← ok_or (from_utf8 bytes) not_keepass
      root ← map_err parse_error (returned (parse_document text))
      if not (text_eq root.name (codes "KeePassFile")) then err not_keepass else do
        section ← ok_or (child_named (codes "Root") root.children) not_keepass
        ok (with_attachments (walk_top section no_walk))
