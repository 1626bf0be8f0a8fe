-- ===== src/Tree/Search.antt =====
-- nop/tree.c: tree_open asks the nodes that may answer for a path, in order.
use nop.Base.{
  ℕ, ◌+◌, ◌-◌, ◌≡◌, refl, ap, sym, ◌∙◌, arith, fun_ext, inl, inr, List, length, Memory, Bool-cases,
  Option,
}
use nop.Base.Int.{is_zero}
use nop.CString.{memcmp}
use nop.Tree.{Calls, Tree, Trees, node, nil, cons, tree_open, child_open}
use nop.Tree.Walk.{AllNamed, AllNamedChilds}
use nop.Tree.Open.{
  HasParts, begun_by, rest_of, first_of, candidates, child_candidates, first_open, or_else,
  or_else_open, step_open, child_hit, child_miss, candidates_node, candidates_hit, candidates_miss,
  IsSplit, HasParts-IsSplit, memcmp-begun_by,
}

module _ {W : Type 0} (mem : Memory) where
  childs_end :
      (ts : Trees W) (p ptr : ℕ) (c : List ℕ) (q : ℕ) (cs : List (List ℕ)) (w : W)
      → ts ≡ nil
      → child_open ts mem p ptr w ≡ first_open mem (child_candidates mem ts c q cs) w
  unfolding tree_open candidates first_open
  childs_end ts p ptr c q cs w e = rw e refl

  mutual
    open-first :
        (t : Tree W) (p : ℕ) (cs : List (List ℕ)) (w : W)
        → AllNamed t
        → HasParts mem p cs
        → tree_open t mem p w ≡ first_open mem (candidates mem t p cs) w
    open-first (node name calls childs) p cs w named h =
        let split = HasParts-IsSplit mem p cs h in
        let (q, rest) = rest_of mem p cs in
        step_open name calls childs mem p (p + length (first_of cs)) w
          (child_candidates mem childs (first_of cs) q rest) split.end
          (childs-first childs p (first_of cs) q rest (calls.open_path mem p w).0 named.1 split)
        ∙ ap (λ (xs : List (Calls W × ℕ)). first_open mem xs w)
            (candidates_node mem name calls childs nil p cs)

    childs-first :
        (ts : Trees W) (p : ℕ) (c : List ℕ) (q : ℕ) (cs : List (List ℕ)) (w : W)
        → AllNamedChilds ts
        → IsSplit mem p c q cs
        → child_open ts mem p (p + length c) w ≡ first_open mem (child_candidates mem ts c q cs) w
    childs-first nil p c q cs w named split = childs_end nil p (p + length c) c q cs w refl
    childs-first (cons (node name calls childs) rest) p c q cs w named split =
        let ptr = p + length c in
        let size : ptr - p ≡ length c = omega arith in
        let test : is_zero (memcmp name 0 mem p (ptr - p)) ≡ begun_by c name 0 =
          ap (λ (n : ℕ). is_zero (memcmp name 0 mem p n)) size
          ∙ memcmp-begun_by c name mem 0 p named.0.0.0 split.part split.stands in
        let xs = candidates mem (node name calls childs) q cs in
        let ys = child_candidates mem rest c q cs in
        let others = child_open rest mem p ptr in
        elim (Bool-cases (begun_by c name 0)) [
          | inl hit ↦
              child_hit name calls childs rest mem p ptr w (test ∙ hit)
              ∙ ap (λ (a : ℕ). or_else others (tree_open (node name calls childs) mem a w))
                  split.next
              ∙ ap (or_else others) (open-first (node name calls childs) q cs w named.0 split.rest)
              ∙ ap (λ (k : W → W × Option ℕ). or_else k (first_open mem xs w))
                  (fun_ext (λ w'. childs-first rest p c q cs w' named.1 split))
              ∙ sym (or_else_open mem xs ys w)
              ∙ ap (λ (zs : List (Calls W × ℕ)). first_open mem zs w)
                  (sym (candidates_hit mem name calls childs rest q cs c hit))
          | inr miss ↦
              child_miss name calls childs rest mem p ptr w (test ∙ miss)
              ∙ childs-first rest p c q cs w named.1 split
              ∙ ap (λ (zs : List (Calls W × ℕ)). first_open mem zs w)
                  (sym (candidates_miss mem name calls childs rest q cs c miss))
        ]

  -- tree_open of a path ends, and answers what the first call answers of those that may: the node's
  -- own, then, for each child whose name the next component begins, the child's on the rest of the
  -- path, in order, where at the end of the path every child is asked; it changes the system by the
  -- calls that were asked. The names in the tree are strings.
  pub tree_open-first :
      (t : Tree W) (p : ℕ) (cs : List (List ℕ)) (w : W)
      → AllNamed t
      → HasParts mem p cs
      → tree_open t mem p w ≡ first_open mem (candidates mem t p cs) w
  tree_open-first t p cs w named h = open-first t p cs w named h
