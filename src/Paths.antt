-- ===== src/Paths.antt =====
-- src/takler/core/node.py: the path of a node, and the search for a node by a path. `PurePosixPath`
-- is pathlib's: a path that it has read is the list of its parts, with or without the root. The text
-- of a path and its reading are pathlib's, an argument. A node is given by its positions from the
-- root down, as in Tree.
pub mod Names
use Prim.Native.String.{String}
use text.Mathlib.Text.{◌==◌ as str_eq}
use takler.Prelude.{
  ℕ, zero, suc, Bool, true, false, List, [], ◌∷◌, ◌++◌, Option, none, some, if◌then◌else◌, bind,
}
use takler.Tree.{Node, Tree, node, Forest, nil, cons, root}

-- `PurePosixPath(a_path)`
pub record PosixPath : Type 0 where
  pub is_absolute : Bool
  pub parts : List String

-- The node that a search gives, no node, or the `IndexError` of a path without parts.
pub data Found : Type 0 where
  found : List ℕ → Found
  missing index_error : Found

abbrev pub children : Tree → Forest
children (node a f) = f

abbrev pub child_at : ℕ → Forest → Option Tree
child_at i nil = none
child_at zero (cons t f) = some t
child_at (suc i) (cons t f) = child_at i f

-- The node at the positions.
unfoldable pub node_at : List ℕ → Tree → Option Tree
node_at [] t = some t
node_at (i ∷ is) t = bind (child_at i (children t)) (node_at is)

abbrev names_below : List ℕ → Tree → Option (List String)
names_below [] t = some []
names_below (i ∷ is) t =
    bind (child_at i (children t)) (λ c. bind (names_below is c) (λ ns. some ((root c).name ∷ ns)))

-- The parts of `node_path`: the names on the way down to the node, its own the last.
unfoldable pub node_path : List ℕ → Tree → Option (List String)
node_path is t = bind (names_below is t) (λ ns. some ((root t).name ∷ ns))

-- `find_child_index`; `none` is -1.
unfoldable pub find_child_index : String → Forest → Option ℕ
find_child_index name nil = none
find_child_index name (cons t f) =
    let later = find_child_index name f in
    if str_eq (root t).name name then some zero else bind later (λ i. some (suc i))

abbrev pub drop_last {ℓ} : {A : Type ℓ} → List A → List A
drop_last [] = []
drop_last (x ∷ []) = []
drop_last (x ∷ y ∷ ys) = x ∷ drop_last (y ∷ ys)

-- `cur_node.parent`
abbrev pub parent : List ℕ → Option (List ℕ)
parent [] = none
parent (i ∷ is) = some (drop_last (i ∷ is))

-- One token of the loop of `find_node`: `none` is a return of `None`.
unfoldable pub step : Tree → String → List ℕ → Option (List ℕ)
unfolding node_at find_child_index
step t token cur =
    if str_eq token "."
    then some cur
    else (if str_eq token ".."
        then parent cur
        else bind (node_at cur t)
            (λ n. bind (find_child_index token (children n)) (λ i. some (cur ++ (i ∷ [])))))

unfoldable pub walk : Tree → List String → List ℕ → Option (List ℕ)
unfolding step
walk t [] cur = some cur
walk t (token ∷ tokens) cur = bind (step t token cur) (walk t tokens)

abbrev found_or_missing : Option (List ℕ) → Found
found_or_missing none = missing
found_or_missing (some is) = found is

-- The parts of `PurePosixPath(self.node_path).parent.joinpath(a_path)`, of the node whose path has the
-- parts `own`: an absolute path stands for itself.
abbrev pub full_parts : List String → PosixPath → List String
full_parts own path = if path.is_absolute then path.parts else drop_last own ++ path.parts

abbrev find_from : Tree → List String → Found
find_from t [] = index_error
find_from t (p ∷ parts) =
    if str_eq p (root t).name then found_or_missing (walk t parts []) else missing

-- `Node.find_node`
unfoldable pub find_node : Tree → List String → PosixPath → Found
unfolding walk
find_node t own path = find_from t (full_parts own path)

-- What pathlib gives: `str(PurePosixPath("/", *names))`, and the path that it reads from a text.
pub record Pathlib : Type 0 where
  pub join : List String → String
  pub read : String → PosixPath

-- `Node.node_path`, of the node whose names are given from the root down.
abbrev pub node_path_text : Pathlib → List String → String
node_path_text lib names = lib.join names

-- `Node.find_node` of the node with the names `own`: its own path is read again from its text.
unfoldable pub find_by_text : Pathlib → Tree → List String → String → Found
unfolding find_node
find_by_text lib t own a_path =
    find_node t (lib.read (node_path_text lib own)).parts (lib.read a_path)
