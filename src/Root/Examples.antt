-- ===== src/Root/Examples.antt =====
-- Runs of nop/tree/root.c, on two devices of which one type of tree mounts each.
use nop.Base.{ℕ, ◌+◌, ◌≡◌, refl, Option, some, none, List, [], ◌∷◌, Memory, of_list, codes}
use nop.Base.Int.{ℤ}
use nop.CString.{strlen, strlen_loop, strcmp, memcmp, memcpy_from}
use nop.Slots.{Table}
use nop.Device.{Device}
use nop.Tree.{Calls, Trees, nil}
use nop.Root.{
  root_mount, mount_loop, mount_one, dollar_name, is_shown, is_mounted, tree_init, append_tree,
}

abbrev System : Type 0
System = ℕ

abbrev disk : ℕ → Memory → Device System
disk free name = record {
  name = name;
  is_public = 1;
  address = 0;
  free = free;
  feature = λ id f w. 0;
  commit = λ id w. w;
  write = λ id src ptr n w. (w, 0);
  read = λ id dst ptr n w. (w, dst, 0);
  seek = λ id offset mode w. w;
  tell = λ id w. 0;
  trim = λ id w. w;
}

abbrev devices : List (Device System)
devices = disk 0 (of_list (codes "d")) ∷ disk 1 (of_list (codes "d")) ∷ []

abbrev table_of : System → Table (Device System)
table_of w = record { slots = devices; used = 1; total = 2 }

abbrev mute : Calls System
mute = record {
  open_path = λ mem p w. (w, none);
  list_path = λ mem p w. (w, none);
  free_data = λ w. w;
}

abbrev counting : Memory → ℤ → System → System × Option (Calls System)
counting name id w = (w + 1, some mute)

-- The device that is used is mounted, once.
abbrev mounted : Option (System × Trees System)
mounted = root_mount table_of (of_list []) nil (counting ∷ []) 3 nil 0

abbrev state_of : Option (System × Trees System) → ℕ
state_of none = 99
state_of (some r) = r.0

first_mounted : state_of mounted ≡ 1
unfolding root_mount mount_loop mount_one dollar_name is_shown is_mounted tree_init strlen
    strlen_loop
first_mounted = refl

-- A second run finds it, and mounts nothing.
abbrev mounted_again : List (Device System) → Option (System × Trees System) → ℕ
mounted_again ds none = 99
mounted_again ds (some r) =
    state_of (root_mount table_of (of_list []) nil (counting ∷ []) 3 r.1 r.0)

not_twice : mounted_again devices mounted ≡ 1
unfolding root_mount mount_loop mount_one dollar_name is_shown is_mounted tree_init append_tree
    memcpy_from strcmp memcmp strlen strlen_loop
not_twice = refl

-- Fifteen characters and the sign do not fit.
too_long : dollar_name (of_list []) (of_list (codes "abcdefghijklmno")) ≡ none
unfolding dollar_name strlen strlen_loop
too_long = refl
