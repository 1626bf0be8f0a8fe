-- ===== src/Tree/Walk.antt =====
-- nop/tree.c: tree_is_tree against a walk along the components of a path.
use nop.Base.{
  ℕ, ◌+◌, ◌<◌, ◌≤◌, ◌≡◌, refl, ap, sym, ◌∙◌, arith, Bool, true, false, some, inl, inr, List, [],
  ◌∷◌, length, get_or, ◌==◌, Memory, IsBytes, Bool-cases,
}
use nop.Base.Int.{is_zero}
use nop.CString.{address_space, strcmp, strchrnul}
use nop.CString.Length.{IsString}
use nop.Tree.{
  Calls, Tree, Trees, node, nil, cons, skip, tree_name_length, component, tree_is_tree,
  child_is_tree,
}
use nop.Tree.Paths.{
  Stands, IsPart, Slashes, Ends, strchrnul-Ends, skip-Slashes, component-some, begins,
  strcmp-begins,
}

-- From `p` on stands a path of these components, with any number of slashes in front of each and at the
-- end.
pub data HasPath (mem : Memory) : ℕ → List (List ℕ) → Type 0 where
  ends : (p k : ℕ) → k < address_space → Slashes mem p k → mem (p + k) ≡ 0 → HasPath mem p []
  part :
      (p k : ℕ) {c : List ℕ} {cs : List (List ℕ)}
      → k < address_space
      → Slashes mem p k
      → IsPart c
      → 0 < length c
      → length c ≤ tree_name_length
      → Stands mem (p + k) c
      → Ends mem (p + k + length c)
      → HasPath mem (p + k + length c) cs
      → HasPath mem p (c ∷ cs)

abbrev pub IsNamed : Memory → Type 0
IsNamed name = IsBytes name × ((n : ℕ) × IsString name 0 n × (n < address_space))

module _ {W : Type 0} where
  -- The walk from a node goes to the first child whose name begins the next component.
  unfoldable mutual
    pub walk : Tree W → List (List ℕ) → Bool
    walk (node name calls childs) [] = true
    walk (node name calls childs) (c ∷ cs) = walk_childs childs c cs

    pub walk_childs : Trees W → List ℕ → List (List ℕ) → Bool
    walk_childs nil c cs = false
    walk_childs (cons (node name calls childs) rest) c cs = elim (begins name 0 c) [
      | true ↦ walk (node name calls childs) cs
      | false ↦ walk_childs rest c cs
    ]

  -- The names in a tree are strings.
  abbrev mutual
    pub AllNamed : Tree W → Type 0
    AllNamed (node name calls childs) = IsNamed name × AllNamedChilds childs

    pub AllNamedChilds : Trees W → Type 0
    AllNamedChilds nil = Unit {0}
    AllNamedChilds (cons t rest) = AllNamed t × AllNamedChilds rest

  module _ (name : Memory) (calls : Calls W) (childs : Trees W) where
    walk_end : true ≡ walk (node name calls childs) []
    unfolding walk
    walk_end = refl

    walk_down :
        (c : List ℕ) (cs : List (List ℕ))
        → walk_childs childs c cs ≡ walk (node name calls childs) (c ∷ cs)
    unfolding walk
    walk_down c cs = refl

  walk_hit :
      (child : Memory) (calls : Calls W) (childs rest : Trees W) (c : List ℕ) (cs : List (List ℕ))
      → begins child 0 c ≡ true
      → walk_childs (cons (node child calls childs) rest) c cs ≡ walk (node child calls childs) cs
  unfolding walk
  walk_hit child calls childs rest c cs hit = ground arith

  walk_miss :
      (child : Memory) (calls : Calls W) (childs rest : Trees W) (c : List ℕ) (cs : List (List ℕ))
      → begins child 0 c ≡ false
      → walk_childs (cons (node child calls childs) rest) c cs ≡ walk_childs rest c cs
  unfolding walk
  walk_miss child calls childs rest c cs miss = ground arith

  module _ (blank mem : Memory) where
    is_tree_end :
        (name : Memory) (calls : Calls W) (childs : Trees W) (p : ℕ)
        → (mem (skip mem p) == 0) ≡ true
        → tree_is_tree blank (node name calls childs) mem p ≡ some true
    unfolding tree_is_tree
    is_tree_end name calls childs p e = ground arith

    is_tree_part :
        (name : Memory) (calls : Calls W) (childs : Trees W) (p start ptr : ℕ) (found : Memory)
        → skip mem p ≡ start
        → strchrnul mem start b'/' ≡ ptr
        → (mem start == 0) ≡ false
        → component blank mem start ptr ≡ some found
        → tree_is_tree blank (node name calls childs) mem p
          ≡ child_is_tree blank childs found mem ptr
    unfolding tree_is_tree
    is_tree_part name calls childs p start ptr found e e' more fits =
        let more' : (mem (skip mem p) == 0) ≡ false = ap (λ (q : ℕ). mem q == 0) e ∙ more in
        let fits' : component blank mem (skip mem p) (strchrnul mem (skip mem p) b'/')
            ≡ some found =
          rw (e, e') fits in
        ground (arith, more', fits')

    childs_end :
        (ts : Trees W) (name : Memory) (ptr : ℕ) (c : List ℕ) (cs : List (List ℕ))
        → ts ≡ nil
        → child_is_tree blank ts name mem ptr ≡ some (walk_childs ts c cs)
    unfolding tree_is_tree walk
    childs_end ts name ptr c cs e = rw e refl

    child_hit :
        (child name : Memory) (calls : Calls W) (childs rest : Trees W) (ptr : ℕ)
        → is_zero (strcmp child 0 name 0) ≡ true
        → child_is_tree blank (cons (node child calls childs) rest) name mem ptr
          ≡ tree_is_tree blank (node child calls childs) mem ptr
    unfolding tree_is_tree
    child_hit child name calls childs rest ptr hit = ground arith

    child_miss :
        (child name : Memory) (calls : Calls W) (childs rest : Trees W) (ptr : ℕ)
        → is_zero (strcmp child 0 name 0) ≡ false
        → child_is_tree blank (cons (node child calls childs) rest) name mem ptr
          ≡ child_is_tree blank rest name mem ptr
    unfolding tree_is_tree
    child_miss child name calls childs rest ptr miss = ground arith

    mutual
      is_tree-walk :
          (t : Tree W) (p : ℕ) (cs : List (List ℕ))
          → AllNamed t
          → HasPath mem p cs
          → tree_is_tree blank t mem p ≡ some (walk t cs)
      is_tree-walk (node name calls childs) _ _ named (ends p k lt s stop) =
          let start : skip mem p ≡ p + k = skip-Slashes mem p k lt s (ground arith) in
          is_tree_end name calls childs p (ground (arith, ap mem start))
          ∙ ap some (walk_end name calls childs)
      is_tree-walk (node name calls childs) _ _ named
            (part p k {c} {cs} lt s part' some_bytes fits stands end h) =
          let here : mem (p + k) ≡ get_or c 0 0 = ap mem (omega arith) ∙ stands 0 some_bytes in
          let (nonzero, no_slash, byte) = part' 0 some_bytes in
          let start : skip mem p ≡ p + k = skip-Slashes mem p k lt s (ground arith) in
          let ptr = strchrnul-Ends mem (p + k) c part' stands end (omega arith) in
          let (found, is_found, same) = component-some blank mem (p + k) c stands fits in
          is_tree_part name calls childs p (p + k) (p + k + length c) found start ptr (ground arith)
            is_found
          ∙ child-walk childs found (p + k + length c) c cs named.1 part' same h
          ∙ ap some (walk_down name calls childs c cs)

      child-walk :
          (ts : Trees W) (name : Memory) (ptr : ℕ) (c : List ℕ) (cs : List (List ℕ))
          → AllNamedChilds ts
          → IsPart c
          → ((i : ℕ) → i ≤ length c → name i ≡ get_or c i 0)
          → HasPath mem ptr cs
          → child_is_tree blank ts name mem ptr ≡ some (walk_childs ts c cs)
      child-walk nil name ptr c cs named part' same h = childs_end nil name ptr c cs refl
      child-walk (cons (node child calls childs) rest) name ptr c cs named part' same h =
          let (bytes, rest_named) = named.0.0 in
          let (n, s, fits) = rest_named in
          let test : is_zero (strcmp child 0 name 0) ≡ begins child 0 c =
            strcmp-begins c n child name bytes s fits part' same in
          elim (Bool-cases (begins child 0 c)) [
            | inl hit ↦
                child_hit child name calls childs rest ptr (test ∙ hit)
                ∙ is_tree-walk (node child calls childs) ptr cs named.0 h
                ∙ ap some (sym (walk_hit child calls childs rest c cs hit))
            | inr miss ↦
                child_miss child name calls childs rest ptr (test ∙ miss)
                ∙ child-walk rest name ptr c cs named.1 part' same h
                ∙ ap some (sym (walk_miss child calls childs rest c cs miss))
          ]

    -- tree_is_tree of a path whose components have at most 15 characters answers whether the walk along its components, from a child to the first
    -- child whose name begins the next one, finds a node for each; the names in the tree are strings.
    pub tree_is_tree-walk :
        (t : Tree W) (p : ℕ) (cs : List (List ℕ))
        → AllNamed t
        → HasPath mem p cs
        → tree_is_tree blank t mem p ≡ some (walk t cs)
    tree_is_tree-walk t p cs named h = is_tree-walk t p cs named h
