-- ===== src/Root.antt =====
-- nop/tree/root.c, and tree_init of nop/tree.c: the tree that holds the devices and mounts what it finds on
-- them. `table` reads the device table from the state `W` of the system. `junk` is the contents of a local
-- `tree_t` or `list_t` that was never set, and `unset` the children of such a `tree_t`. `none` is a name that
-- does not fit behind `$` in its array of 16 bytes, and that the code writes behind it.
mod Examples
use nop.Base.{
  ℕ, zero, suc, ◌+◌, ◌-◌, Bool, true, false, ◌&&◌, not, Option, none, some, List, [], ◌∷◌, ◌++◌,
  ◌==◌, ltb, if◌then◌else◌, get_elem?, Memory, write,
}
use nop.Base.Int.{ℤ, pos, negsuc, is_zero}
use nop.CString.{strlen, strcmp, memcpy_from}
use nop.Slots.{Table}
use nop.Device.{Device, device_find}
use nop.Tree.{tree_name_length, Calls, Tree, Trees, node, nil, cons}

-- Behind `$`, the name of a device: `strcpy(child.name + 1, name); child.name[0] = '$'`.
unfoldable pub dollar_name : Memory → Memory → Option Memory
dollar_name junk name =
    if ltb (strlen name 0) tree_name_length
    then some (write (memcpy_from name junk 1 0 (strlen name 0 + 1)) 0 b'$')
    else none

-- `child.name + 1`
abbrev pub behind_dollar : Memory → Memory
behind_dollar name a = name (1 + a)

pub record ListEntry : Type 0 where
  pub name : Memory
  pub can_open : ℕ
  pub can_list : ℕ

unfoldable pub append_tree : {W : Type 0} → Trees W → Tree W → Trees W
append_tree nil t = cons t nil
append_tree (cons u rest) t = cons u (append_tree rest t)

module _ {W : Type 0} where
  unfoldable pub is_shown : Device W → Bool
  is_shown d = d.free == 0 && not (d.is_public == 0)

  -- The loop over `j`: whether a child is named like the device.
  unfoldable pub is_mounted : Trees W → Memory → Bool
  is_mounted nil name = false
  is_mounted (cons (node child calls childs) rest) name =
      let found = is_mounted rest name in
      if is_zero (strcmp (behind_dollar child) 0 name 0) then true else found

  -- `types` are the `init` functions of `tree_types`, which mount a tree of this name on a device.
  unfoldable pub tree_init :
      List (Memory → ℤ → W → W × Option (Calls W)) → Memory → ℤ → W → W × Option (Calls W)
  tree_init [] name id w = (w, none)
  tree_init (init ∷ types) name id w =
      let (w', mounted) = init name id w in
      elim mounted [ some calls ↦ (w', some calls) | none ↦ tree_init types name id w' ]

  module _ (table : W → Table (Device W)) (junk : Memory) (unset : Trees W)
      (types : List (Memory → ℤ → W → W × Option (Calls W))) where
    -- One round of the loop over `i`.
    unfoldable pub mount_one : ℕ → Trees W → W → Option (W × Trees W)
    mount_one i childs w = elim (get_elem? (table w).slots i) [
      | none ↦ some (w, childs)
      | some d ↦ elim (is_shown d && not (is_mounted childs d.name)) [
        | false ↦ some (w, childs)
        | true ↦ elim (dollar_name junk d.name) [
          | none ↦ none
          | some name ↦
              let (w', mounted) = tree_init types name (pos i) w in
              elim mounted [
                | none ↦ some (w', childs)
                | some calls ↦ some (w', append_tree childs (node name calls unset))
              ]
        ]
      ]
    ]

    -- `device_total` is read in each round: the fuel bounds the number of rounds, and `none` is
    -- also a loop that does not end within it.
    unfoldable pub mount_loop : ℕ → ℕ → Trees W → W → Option (W × Trees W)
    mount_loop zero i childs w = none
    mount_loop (suc fuel) i childs w = elim (ltb i (table w).total) [
      | true ↦ elim (mount_one i childs w) [
        | none ↦ none
        | some r ↦ mount_loop fuel (i + 1) r.1 r.0
      ]
      | false ↦ some (w, childs)
    ]

    unfoldable pub root_mount : ℕ → Trees W → W → Option (W × Trees W)
    root_mount fuel childs w = mount_loop fuel 0 childs w

  unfoldable pub root_open : (W → Table (Device W)) → Memory → ℕ → W → W × Option ℕ
  root_open table mem path w =
      (w, if mem path == b'$' then device_find (λ a. mem (path + 1 + a)) (table w) else none)

  -- The entries that root_list writes, in order.
  unfoldable pub root_entries : Memory → Trees W → List (Device W) → Option (List ListEntry)
  root_entries junk childs [] = some []
  root_entries junk childs (d ∷ slots) =
      let rest = root_entries junk childs slots in
      let can_list = if is_mounted childs d.name then 1 else 0 in
      if is_shown d
      then elim (dollar_name junk d.name) [
        | none ↦ none
        | some name ↦ elim rest [
          | none ↦ none
          | some es ↦ some (record { name = name; can_open = 1; can_list = can_list } ∷ es)
        ]
      ]
      else rest

  unfoldable pub root_init :
      (Memory → ℕ → W → W × Option ℕ)
      → (W → Table (Device W))
      → Memory
      → ℤ
      → W
      → W × Option (Calls W)
  root_init root_list table name (pos id) w = (w, none)
  root_init root_list table name (negsuc n) w = (
    w,
    some (record { open_path = root_open table; list_path = root_list; free_data = λ w'. w' }),
  )
