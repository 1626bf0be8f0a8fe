-- ===== src/Tree/Examples.antt =====
-- Runs of nop/tree.c on a tree of two nodes, with a log of what was asked as the state.
use nop.Base.{
  ℕ, ◌+◌, ◌<◌, ◌≡◌, ◌≢◌, refl, arith, inl, inr, some, none, [], ◌∷◌, Memory, of_list,
  of_list-IsBytes, codes,
}
use nop.Tree.{Calls, Tree, node, nil, cons, tree_is_tree, tree_open}
use nop.Tree.Paths.{IsPart, Stands}
use nop.Tree.Walk.{HasPath, walk, AllNamed, IsNamed, tree_is_tree-walk}
use nop.Tree.Walk
use nop.Tree.Open.{HasParts, candidates, first_open}
use nop.Tree.Open
use nop.Tree.Search.{tree_open-first}

abbrev mute : Calls ℕ
mute = record {
  open_path = λ mem p w. (w + 1, none);
  list_path = λ mem p w. (w + 1, none);
  free_data = λ w. w;
}

abbrev answering : Calls ℕ
answering = record mute { open_path = λ mem p w. (w + 1, some p) }

abbrev two_nodes : Tree ℕ
two_nodes = node (of_list []) mute (cons (node (of_list (codes "$p")) answering nil) nil)

abbrev path : Memory
path = of_list (codes "$p/x")

p_IsPart : IsPart (codes "$p")
p_IsPart i lt = grind arith

x_IsPart : IsPart (codes "x")
x_IsPart i lt = grind arith

p-Stands : Stands path 0 (codes "$p")
p-Stands i lt = grind arith

x-Stands : Stands path 3 (codes "x")
x-Stands i lt = grind arith

empty-IsNamed : IsNamed (of_list [])
empty-IsNamed = (
  of_list-IsBytes [] (omega arith),
  (0, record { nonzero = λ i lt. elim lt [ ]; terminated = refl }, omega arith),
)

p_nonzero : (i : ℕ) → i < 2 → of_list (codes "$p") (0 + i) ≢ 0
p_nonzero i lt = grind arith

slash : (i : ℕ) → i < 1 → path (2 + i) ≡ b'/'
slash i lt = grind arith

p-IsNamed : IsNamed (of_list (codes "$p"))
p-IsNamed = (
  of_list-IsBytes (codes "$p") (omega arith),
  (2, record { nonzero = p_nonzero; terminated = refl }, omega arith),
)

two_nodes-AllNamed : AllNamed two_nodes
two_nodes-AllNamed = (empty-IsNamed, ((p-IsNamed, tt), tt))

path-HasPath : HasPath path 0 (codes "$p" ∷ codes "x" ∷ [])
path-HasPath =
    Walk.part 0 0 (omega arith) (λ i lt. elim lt [ ]) p_IsPart (omega arith) (omega arith) p-Stands
      (inl refl)
      (Walk.part 2 1 (omega arith) (slash) x_IsPart (omega arith) (omega arith) x-Stands (inr refl)
        (Walk.ends 4 0 (omega arith) (λ i lt. elim lt [ ]) refl))

tree_is_tree-walk_example :
    tree_is_tree (of_list []) two_nodes path 0 ≡ some (walk two_nodes (codes "$p" ∷ codes "x" ∷ []))
tree_is_tree-walk_example =
    tree_is_tree-walk (of_list []) path two_nodes 0 (codes "$p" ∷ codes "x" ∷ []) two_nodes-AllNamed
      path-HasPath

path-HasParts : HasParts path 0 (codes "$p" ∷ codes "x" ∷ [])
unfolding Open.rest_at
path-HasParts =
    Open.part 0 p_IsPart (omega arith) p-Stands (inl refl)
      (Open.part 3 x_IsPart (omega arith) x-Stands (inr refl) (Open.ends 4 refl))

tree_open-first_example :
    tree_open two_nodes path 0 7
    ≡ first_open path (candidates path two_nodes 0 (codes "$p" ∷ codes "x" ∷ [])) 7
tree_open-first_example =
    tree_open-first path two_nodes 0 (codes "$p" ∷ codes "x" ∷ []) 7 two_nodes-AllNamed
      path-HasParts

second_node :
    first_open path (candidates path two_nodes 0 (codes "$p" ∷ codes "x" ∷ [])) 7 ≡ (9, some 3)
unfolding first_open candidates Open.begun_by Open.rest_of Open.rest_at
second_node = refl
