-- ===== src/Tree.antt =====
-- utils/build_tree.py: nodes in the order of their sort key, and the tree by recursion. A row stands
-- for its serialized columns: the ones that the code reads, and the others as they are.
pub mod Depth
use git_hub_repository_resea.Base.{
  ℕ, zero, suc, String, Bool, true, false, Option, none, some, List, [], ◌∷◌, leb, nat_eq,
  if◌then◌else◌,
}
use git_hub_repository_resea.Json.{Dict}

pub record Node : Type 0 where
  pub id : ℕ
  pub parent_id : Option ℕ
  pub sort : ℕ
  pub others : Dict

unfoldable pub insert : Node → List Node → List Node
insert n [] = n ∷ []
insert n (m ∷ rest) =
    let later = insert n rest in if leb n.sort m.sort then n ∷ m ∷ rest else m ∷ later

-- `sort` with the key, which keeps the order of equal keys
unfoldable pub get_tree_nodes : List Node → List Node
unfolding insert
get_tree_nodes [] = []
get_tree_nodes (n ∷ rest) = insert n (get_tree_nodes rest)

-- a node with its children
mutual
  pub data Tree : Type 0 where
    tree : Node → Forest → Tree

  pub data Forest : Type 0 where
    nil : Forest
    cons : Tree → Forest → Forest

abbrev pub same_id : Option ℕ → Option ℕ → Bool
same_id none none = true
same_id (some a) (some b) = nat_eq a b
same_id _ _ = false

-- `tree.append(node)`, with the child nodes that the recursive call gave
abbrev pub grow : Node → Option Forest → Option Forest → Option Forest
grow node (some children) (some rest) = some (cons (tree node children) rest)
grow node _ _ = none

-- the loop over the nodes, for the recursive call on the id of a node
unfoldable pub grow_all : (Option ℕ → Option Forest) → Option ℕ → List Node → Option Forest
grow_all subtree parent_id [] = some nil
grow_all subtree parent_id (node ∷ rest) =
    let others = grow_all subtree parent_id rest in
    let grown = grow node (subtree (some node.id)) others in
    if same_id node.parent_id parent_id then grown else others

-- The depth of the recursion is bounded; `none` says that it is exceeded.
unfoldable pub recursive_to_tree : ℕ → List Node → Option ℕ → Option Forest
unfolding grow_all
recursive_to_tree zero nodes parent_id = none
recursive_to_tree (suc depth) nodes parent_id =
    grow_all (recursive_to_tree depth nodes) parent_id nodes
