-- ===== src/Cli/Tree.antt =====
-- The listing of entries as a tree (crates/bypass-cli/src/tree.rs). The children of a node are a
-- sorted map, here a list in the order of the names: a name, the node below it, and the other names.
use bypass.Prelude.{Bool, true, false, List, [], ◌∷◌, ◌++◌, if◌then◌else◌}
use bypass.Text.{Text, codes, text_eq, text_le}
use bypass.RelPath.{RelPath, segments}

pub data Node : Type 0 where
  leaf : Node
  branch : Text → Node → Node → Node

-- The child of this name, made if it is not there, with a change to what is below it.
unfoldable pub at_child : Text → (Node → Node) → Node → Node
at_child seg change leaf = branch seg (change leaf) leaf
at_child seg change (branch name child others) =
    if text_eq seg name
    then branch name (change child) others
    else if text_le seg name
    then branch seg (change leaf) (branch name child others)
    else branch name child (at_child seg change others)

unfoldable pub add_path : List Text → Node → Node
unfolding at_child
add_path [] node = node
add_path (seg ∷ segs) node = at_child seg (add_path segs) node

unfoldable pub add_all : List RelPath → Node → Node
unfolding add_path
add_all [] node = node
add_all (e ∷ es) node = add_all es (add_path (segments e) node)

abbrev pub is_last : Node → Bool
is_last leaf = true
is_last (branch name child others) = false

unfoldable pub render_node : Node → Text → Text
render_node leaf prefix = []
render_node (branch name child others) prefix =
    prefix
    ++ ((if is_last others then codes "└── " else codes "├── ")
        ++ (name
            ++ (codes "\n"
                ++ (render_node child
                      (prefix ++ (if is_last others then codes "    " else codes "│   "))
                    ++ render_node others prefix))))

unfoldable pub render : List RelPath → Text → Text
unfolding add_all render_node
render entries header = header ++ (codes "\n" ++ render_node (add_all entries leaf) [])
