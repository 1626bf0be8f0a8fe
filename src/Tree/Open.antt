-- ===== src/Tree/Open.antt =====
-- nop/tree.c: tree_open and tree_list as a search through a list of nodes.
use nop.Base.{
  ℕ, suc, ◌+◌, ◌-◌, ◌<◌, ◌≡◌, refl, ap, ◌∙◌, arith, Bool, true, false, inl, inr, Option, none, some,
  List, [], ◌∷◌, ◌++◌, length, ◌==◌, if◌then◌else◌, Memory, IsBytes, Bool-cases, ◌&&◌, Option-cases,
}
use nop.Base.Int.{is_zero, is_zero-sub_int8}
use nop.CString.{address_space, memcmp, strchrnul}
use nop.Tree.{Calls, Tree, Trees, node, nil, cons, behind_slash, tree_open, child_open}
use nop.Tree.Paths.{Stands, IsPart, Ends, strchrnul-Ends}

-- Where a path goes on behind a component that ends at `p`: there, if this is the end of the path.
unfoldable pub rest_at : Memory → ℕ → ℕ
rest_at mem p = if mem p == 0 then p else p + 1

-- From `p` on stands a path of these components, with one slash behind each, or the terminator.
pub data HasParts (mem : Memory) : ℕ → List (List ℕ) → Type 0 where
  ends : (p : ℕ) → mem p ≡ 0 → HasParts mem p []
  part :
      (p : ℕ) {c : List ℕ} {cs : List (List ℕ)}
      → IsPart c
      → length c < address_space
      → Stands mem p c
      → Ends mem (p + length c)
      → HasParts mem (rest_at mem (p + length c)) cs
      → HasParts mem p (c ∷ cs)

-- The component `c` is a prefix of the name.
unfoldable pub begun_by : List ℕ → Memory → ℕ → Bool
begun_by [] name k = true
begun_by (x ∷ c) name k = name k == x && begun_by c name (k + 1)

-- The addresses of the rest of a path: behind the first component, or the path itself at its end.
unfoldable pub rest_of : Memory → ℕ → List (List ℕ) → ℕ × List (List ℕ)
rest_of mem p [] = (p, [])
rest_of mem p (c ∷ cs) = (rest_at mem (p + length c), cs)

abbrev pub first_of : List (List ℕ) → List ℕ
first_of [] = []
first_of (c ∷ cs) = c

module _ {W : Type 0} where
  -- The calls that may answer for a path, in order, each with the rest of the path that it is given:
  -- those of a node, then those of its children whose name the next component begins, and at the end of
  -- the path those of every child.
  unfoldable mutual
    pub candidates : Memory → Tree W → ℕ → List (List ℕ) → List (Calls W × ℕ)
    candidates mem (node name calls childs) p cs =
        (calls, p)
        ∷ child_candidates mem childs (first_of cs) (rest_of mem p cs).0 (rest_of mem p cs).1

    pub child_candidates : Memory → Trees W → List ℕ → ℕ → List (List ℕ) → List (Calls W × ℕ)
    child_candidates mem nil c p cs = []
    child_candidates mem (cons (node name calls childs) rest) c p cs = elim (begun_by c name 0) [
      | true ↦ candidates mem (node name calls childs) p cs ++ child_candidates mem rest c p cs
      | false ↦ child_candidates mem rest c p cs
    ]

  -- The first call that answers.
  unfoldable pub first_open : Memory → List (Calls W × ℕ) → W → W × Option ℕ
  first_open mem [] w = (w, none)
  first_open mem ((calls, p) ∷ rest) w =
      let (w', id) = calls.open_path mem p w in
      elim id [ some i ↦ (w', some i) | none ↦ first_open mem rest w' ]

  first_open-append :
      (mem : Memory) (xs ys : List (Calls W × ℕ)) (w : W)
      → first_open mem (xs ++ ys) w ≡ (
          let (w', id) = first_open mem xs w in
          elim id as (λ x. W × Option ℕ) [ some i ↦ (w', some i) | none ↦ first_open mem ys w' ])
  unfolding first_open
  first_open-append mem [] ys w = refl
  first_open-append mem ((calls, p) ∷ xs) ys w = elim (Option-cases (calls.open_path mem p w).1) [
    | inl nothing ↦ ground (arith, first_open-append mem xs ys (calls.open_path mem p w).0)
    | inr (i, e) ↦ ground arith
  ]

  pub step_open :
      (name : Memory) (calls : Calls W) (childs : Trees W) (mem : Memory) (p ptr : ℕ) (w : W)
      (rest : List (Calls W × ℕ))
      → strchrnul mem p b'/' ≡ ptr
      → child_open childs mem p ptr (calls.open_path mem p w).0
        ≡ first_open mem rest (calls.open_path mem p w).0
      → tree_open (node name calls childs) mem p w ≡ first_open mem ((calls, p) ∷ rest) w
  unfolding tree_open first_open
  step_open name calls childs mem p ptr w rest e later =
      elim (Option-cases (calls.open_path mem p w).1) [
        | inl nothing ↦ ground (arith, later, e)
        | inr (i, answers) ↦ ground arith
      ]

  -- What an answer leaves to do.
  abbrev pub or_else : (W → W × Option ℕ) → W × Option ℕ → W × Option ℕ
  or_else k (w, none) = k w
  or_else k (w, some i) = (w, some i)

  pub or_else_open :
      (mem : Memory) (xs ys : List (Calls W × ℕ)) (w : W)
      → first_open mem (xs ++ ys) w ≡ or_else (first_open mem ys) (first_open mem xs w)
  or_else_open mem xs ys w = elim (Option-cases (first_open mem xs w).1) [
    | inl nothing ↦ ground (arith, first_open-append mem xs ys w)
    | inr (i, e) ↦ ground (arith, first_open-append mem xs ys w)
  ]

  pub child_hit :
      (name : Memory) (calls : Calls W) (childs others : Trees W) (mem : Memory) (p ptr : ℕ) (w : W)
      → is_zero (memcmp name 0 mem p (ptr - p)) ≡ true
      → child_open (cons (node name calls childs) others) mem p ptr w
        ≡ or_else
            (child_open others mem p ptr)
            (tree_open (node name calls childs) mem (behind_slash mem ptr) w)
  unfolding tree_open
  child_hit name calls childs others mem p ptr w hit = ground arith

  pub child_miss :
      (name : Memory) (calls : Calls W) (childs others : Trees W) (mem : Memory) (p ptr : ℕ) (w : W)
      → is_zero (memcmp name 0 mem p (ptr - p)) ≡ false
      → child_open (cons (node name calls childs) others) mem p ptr w
        ≡ child_open others mem p ptr w
  unfolding tree_open
  child_miss name calls childs others mem p ptr w miss = ground arith

  module _ (mem name : Memory) (calls : Calls W) (childs rest : Trees W) (p : ℕ)
      (cs : List (List ℕ)) where
    pub candidates_node :
        (calls, p)
          ∷ child_candidates mem childs (first_of cs) (rest_of mem p cs).0 (rest_of mem p cs).1
        ≡ candidates mem (node name calls childs) p cs
    unfolding candidates
    candidates_node = refl

    pub candidates_hit :
        (c : List ℕ)
        → begun_by c name 0 ≡ true
        → child_candidates mem (cons (node name calls childs) rest) c p cs
          ≡ candidates mem (node name calls childs) p cs ++ child_candidates mem rest c p cs
    unfolding candidates
    candidates_hit c hit = ground arith

    pub candidates_miss :
        (c : List ℕ)
        → begun_by c name 0 ≡ false
        → child_candidates mem (cons (node name calls childs) rest) c p cs
          ≡ child_candidates mem rest c p cs
    unfolding candidates
    candidates_miss c miss = ground arith

-- The first component of a path, and the rest.
pub record IsSplit (mem : Memory) (p : ℕ) (c : List ℕ) (q : ℕ) (cs : List (List ℕ)) : Type 0 where
  pub part : IsPart c
  pub stands : Stands mem p c
  pub end : strchrnul mem p b'/' ≡ p + length c
  pub next : behind_slash mem (p + length c) ≡ q
  pub rest : HasParts mem q cs

pub HasParts-IsSplit :
    (mem : Memory) (p : ℕ) (cs : List (List ℕ))
    → HasParts mem p cs
    → IsSplit mem p (first_of cs) (rest_of mem p cs).0 (rest_of mem p cs).1
unfolding rest_of rest_at behind_slash
HasParts-IsSplit mem _ _ (ends p stop) =
    let here : p + 0 ≡ p = omega arith in
    let nothing : IsPart [] = λ i lt. elim lt [ ] in
    let stands : Stands mem p [] = λ i lt. elim lt [ ] in
    record {
      part = nothing;
      stands = stands;
      end = strchrnul-Ends mem p [] nothing stands (inr (ap mem here ∙ stop)) (omega arith);
      next = rw here (ground (arith, stop));
      rest = ends p stop;
    }
HasParts-IsSplit mem _ _ (part p {c} {cs} is_part fits stands end rest) = record {
  part = is_part;
  stands = stands;
  end = strchrnul-Ends mem p c is_part stands end fits;
  next = ground (arith, end);
  rest = rest;
}

-- A comparison as long as the component tests whether the name begins with it.
pub memcmp-begun_by :
    (c : List ℕ) (name mem : Memory) (k p : ℕ)
    → IsBytes name
    → IsPart c
    → Stands mem p c
    → is_zero (memcmp name k mem p (length c)) ≡ begun_by c name k
unfolding memcmp begun_by
memcmp-begun_by [] name mem k p b is_part stands = refl
memcmp-begun_by (x ∷ c) name mem k p b is_part stands =
    let here : mem p ≡ x = ap mem (omega arith) ∙ stands 0 (omega arith) in
    let byte = (is_part 0 (omega arith)).2 in
    let ih =
      memcmp-begun_by c name mem (k + 1) (p + 1) b (λ i lt. is_part (suc i) (omega arith))
        (λ i lt. ap mem (omega arith) ∙ stands (suc i) (omega arith)) in
    elim (Bool-cases (name k == mem p)) [
      | inl hit ↦
          let hit' : (name k == x) ≡ true = ground arith in rw (hit, memcmp, hit', begun_by) ih
      | inr miss ↦
          let miss' : (name k == x) ≡ false = ground arith in
          rw (miss, memcmp, miss', begun_by)
            (is_zero-sub_int8 (name k) (mem p) (b k) (omega arith) ∙ miss)
    ]
