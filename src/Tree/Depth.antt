-- ===== src/Tree/Depth.antt =====
-- The recursion ends, and the forest has every node of its parent, once for each place in the list.
use git_hub_repository_resea.Base.{
  ℕ, zero, suc, ◌+◌, ◌<◌, ◌≤◌, ◌≡◌, refl, ap, Option, none, some, List, [], ◌∷◌, All, Bool, true,
  false, ◌&&◌, leb, if◌then◌else◌, Bool-cases, inl, inr, arith,
}
use git_hub_repository_resea.Tree.{
  Node, Tree, tree, Forest, nil, cons, same_id, grow_all, recursive_to_tree,
}

same_id_eq : (a b : Option ℕ) → same_id a b ≡ true → a ≡ b
same_id_eq none none h = refl
same_id_eq (some a) (some b) h = ap some (ground arith)
same_id_eq none (some b) h = cc h
same_id_eq (some a) none h = cc h

-- A rank of the ids that rises from a parent to its children, and stays within a bound.
abbrev pub IsRanked : (ℕ → ℕ) → ℕ → Node → Type 0
IsRanked rank bound node =
    (rank node.id ≤ bound) × ((p : ℕ) → node.parent_id ≡ some p → rank p < rank node.id)

-- a depth that is enough for the children of a node
abbrev pub Suffices : (ℕ → ℕ) → ℕ → Option ℕ → ℕ → Type 0
Suffices rank bound none depth = suc bound < depth
Suffices rank bound (some p) depth = bound < depth + rank p

-- whether a node has that parent, or none
abbrev pub has_parent : Option ℕ → Option ℕ → Bool
has_parent none none = true
has_parent none (some p) = false
has_parent (some a) none = false
has_parent (some a) (some p) = leb a p && leb p a

-- the nodes with that parent, in the order of the list
abbrev pub children_of : Option ℕ → List Node → List Node
children_of parent_id [] = []
children_of parent_id (node ∷ rest) =
    let others = children_of parent_id rest in
    if has_parent parent_id node.parent_id then node ∷ others else others

has_parent_lem : (a b : Option ℕ) → has_parent b a ≡ same_id a b
has_parent_lem none none = refl
has_parent_lem none (some p) = refl
has_parent_lem (some a) none = refl
has_parent_lem (some a) (some p) = ground arith

module _ (nodes : List Node) where
  -- The trees of the forest are those of the listed nodes, one by one, each over a forest of all the
  -- nodes whose parent it is.
  abbrev mutual
    pub IsTreeOf : Node → Tree → Type 0
    IsTreeOf n (tree node children) =
        (node ≡ n) × IsForestOf (children_of (some n.id) nodes) children

    pub IsForestOf : List Node → Forest → Type 0
    IsForestOf [] nil = Unit
    IsForestOf [] (cons t rest) = ⊥
    IsForestOf (n ∷ ns) nil = ⊥
    IsForestOf (n ∷ ns) (cons t rest) = IsTreeOf n t × IsForestOf ns rest

  -- the forest of all the nodes with that parent, and so on down
  abbrev pub IsForestUnder : Option ℕ → Forest → Type 0
  IsForestUnder parent_id f = IsForestOf (children_of parent_id nodes) f

grow_all_ok :
    (all : List Node) (subtree : Option ℕ → Option Forest) (parent_id : Option ℕ)
    (nodes : List Node)
    → All
        (λ node.
          same_id node.parent_id parent_id ≡ true
          → (f : Forest) × (subtree (some node.id) ≡ some f) × IsForestUnder all (some node.id) f)
        nodes
    → (f : Forest) × (grow_all subtree parent_id nodes ≡ some f)
      × IsForestOf all (children_of parent_id nodes) f
unfolding grow_all
grow_all_ok all subtree parent_id [] h = (nil, refl, tt)
grow_all_ok all subtree parent_id (node ∷ rest) (h, hs) =
    let (others, e, under) = grow_all_ok all subtree parent_id rest hs in
    let same = has_parent_lem node.parent_id parent_id in
    elim (Bool-cases (same_id node.parent_id parent_id)) [
      | inr other ↦ (others, rw other e, rw (same, other) under)
      | inl child ↦
          let (children, grown, below) = h child in
          (
            cons (tree node children) others,
            rw (child, grown, e) refl,
            rw (same, child) ((refl, below), under),
          )
    ]

All-map :
    {P Q : Node → Type 0} (nodes : List Node)
    → ((node : Node) → P node → Q node)
    → All P nodes
    → All Q nodes
All-map [] f h = tt
All-map (node ∷ rest) f (h, hs) = (f node h, All-map rest f hs)

module _ (rank : ℕ → ℕ) (bound : ℕ) (nodes : List Node)
    (ranked : All (IsRanked rank bound) nodes) where
  abbrev pub IsKnown : Option ℕ → Type 0
  IsKnown none = Unit
  IsKnown (some p) = rank p ≤ bound

  child-Suffices :
      (node : Node) (parent_id : Option ℕ) (depth : ℕ)
      → IsRanked rank bound node
      → node.parent_id ≡ parent_id
      → Suffices rank bound parent_id (suc depth)
      → Suffices rank bound (some node.id) depth
  child-Suffices node none depth (low, rising) e enough = omega (arith, enough)
  child-Suffices node (some p) depth (low, rising) e enough = omega (arith, enough, rising p e)

  -- Where the ids have ranks that rise from a parent to its children, the recursion never goes deeper
  -- than the ranks: with that depth at hand it returns, for the roots as for the children of a node
  -- with a known id, and the trees of the forest are exactly the nodes with the parent that was asked
  -- for, in their order, each over the forest of exactly the nodes whose parent it is, and so on down.
  pub recursive_to_tree-IsForestUnder :
      (depth : ℕ) (parent_id : Option ℕ)
      → IsKnown parent_id
      → Suffices rank bound parent_id depth
      → (f : Forest) × (recursive_to_tree depth nodes parent_id ≡ some f)
        × IsForestUnder nodes parent_id f
  unfolding recursive_to_tree
  recursive_to_tree-IsForestUnder zero none known enough = absurd (omega (arith, enough))
  recursive_to_tree-IsForestUnder zero (some p) known enough = absurd (omega (arith, enough, known))
  recursive_to_tree-IsForestUnder (suc depth) parent_id known enough =
      grow_all_ok nodes (recursive_to_tree depth nodes) parent_id nodes (
        All-map nodes
          (λ node h child. recursive_to_tree-IsForestUnder depth (some node.id) h.0 (
            child-Suffices node parent_id depth h (same_id_eq node.parent_id parent_id child)
              enough))
          ranked)
