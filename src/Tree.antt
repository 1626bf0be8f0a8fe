-- ===== src/Tree.antt =====
-- nop/tree.c: the tree of mounts and the resolution of paths in it. A node is a `tree_t`, its children
-- an array of such; a function pointer of a node, with its `data`, is a function on the state `W` of the
-- system, and `none` is a negative id. A path is an address in a memory. `name` in tree_is_tree, a local
-- array of 16 bytes, is a memory of its own, and `blank` what it held before; `none` is a path with a
-- component that does not fit, which the code writes behind the array.
pub mod Paths
pub mod Walk
pub mod Open
pub mod Search
mod Examples
use nop.Base.{
  ℕ, zero, suc, ◌+◌, ◌-◌, Bool, true, false, Option, none, some, List, [], ◌∷◌, ◌==◌, leb,
  if◌then◌else◌, Memory, write,
}
use nop.Base.Int.{is_zero}
use nop.CString.{address_space, strchrnul, strcmp, memcmp, memcpy_from}

pub record Calls (W : Type 0) : Type 0 where
  pub open_path : Memory → ℕ → W → W × Option ℕ
  pub list_path : Memory → ℕ → W → W × Option ℕ
  pub free_data : W → W

mutual
  pub data Tree (W : Type 0) : Type 0 where
    node : Memory → Calls W → Trees W → Tree W

  pub data Trees (W : Type 0) : Type 0 where
    nil : Trees W
    cons : Tree W → Trees W → Trees W

-- `while (*path == '/')`
unfoldable pub skip_slashes : ℕ → Memory → ℕ → ℕ
skip_slashes zero mem path = path
skip_slashes (suc fuel) mem path = elim (mem path == b'/') [
  | true ↦ skip_slashes fuel mem (path + 1)
  | false ↦ path
]

unfoldable pub skip : Memory → ℕ → ℕ
skip mem path = skip_slashes address_space mem path

abbrev pub tree_name_length : ℕ
tree_name_length = 15

-- `name`, with the component from `path` up to `ptr`
unfoldable pub component : Memory → Memory → ℕ → ℕ → Option Memory
component blank mem path ptr =
    if leb (ptr - path) tree_name_length
    then some (write (memcpy_from mem blank 0 path (ptr - path)) (ptr - path) 0)
    else none

-- `child_path + (*child_path == '/')`
unfoldable pub behind_slash : Memory → ℕ → ℕ
behind_slash mem ptr = if mem ptr == b'/' then ptr + 1 else ptr

module _ {W : Type 0} where
  unfoldable mutual
    pub tree_is_tree : Memory → Tree W → Memory → ℕ → Option Bool
    tree_is_tree blank (node name calls childs) mem path =
        let start = skip mem path in
        let ptr = strchrnul mem start b'/' in
        elim (mem start == 0) [
          | true ↦ some true
          | false ↦ elim (component blank mem start ptr) [
            | none ↦ none
            | some part ↦ child_is_tree blank childs part mem ptr
          ]
        ]

    pub child_is_tree : Memory → Trees W → Memory → Memory → ℕ → Option Bool
    child_is_tree blank nil name mem ptr = some false
    child_is_tree blank (cons (node child calls childs) rest) name mem ptr =
        elim (is_zero (strcmp child 0 name 0)) [
          | true ↦ tree_is_tree blank (node child calls childs) mem ptr
          | false ↦ child_is_tree blank rest name mem ptr
        ]

  unfoldable mutual
    pub tree_open : Tree W → Memory → ℕ → W → W × Option ℕ
    tree_open (node name calls childs) mem path w =
        let (w', id) = calls.open_path mem path w in
        elim id [
          | some i ↦ (w', some i)
          | none ↦ child_open childs mem path (strchrnul mem path b'/') w'
        ]

    pub child_open : Trees W → Memory → ℕ → ℕ → W → W × Option ℕ
    child_open nil mem path child_path w = (w, none)
    child_open (cons (node child calls childs) rest) mem path child_path w =
        elim (is_zero (memcmp child 0 mem path (child_path - path))) [
          | false ↦ child_open rest mem path child_path w
          | true ↦
              let (w', id) =
                tree_open (node child calls childs) mem (behind_slash mem child_path) w in
              elim id [ some i ↦ (w', some i) | none ↦ child_open rest mem path child_path w' ]
        ]

  unfoldable mutual
    pub tree_list : Tree W → Memory → ℕ → W → W × Option ℕ
    tree_list (node name calls childs) mem path w =
        let start = skip mem path in
        let (w', id) = calls.list_path mem start w in
        elim id [
          | some i ↦ (w', some i)
          | none ↦ child_list childs mem start (strchrnul mem start b'/') w'
        ]

    pub child_list : Trees W → Memory → ℕ → ℕ → W → W × Option ℕ
    child_list nil mem path child_path w = (w, none)
    child_list (cons (node child calls childs) rest) mem path child_path w =
        elim (is_zero (memcmp child 0 mem path (child_path - path))) [
          | false ↦ child_list rest mem path child_path w
          | true ↦
              let (w', id) =
                tree_list (node child calls childs) mem (behind_slash mem child_path) w in
              elim id [ some i ↦ (w', some i) | none ↦ child_list rest mem path child_path w' ]
        ]

  -- `release` is the `free` of the array of children.
  unfoldable mutual
    pub tree_free : (W → W) → Tree W → W → W
    tree_free release (node name calls childs) w =
        calls.free_data (release (childs_free release childs w))

    pub childs_free : (W → W) → Trees W → W → W
    childs_free release nil w = w
    childs_free release (cons t rest) w = childs_free release rest (tree_free release t w)
