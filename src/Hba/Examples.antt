-- ===== src/Hba/Examples.antt =====
-- nop/tasks/ahci.c: the laws of the command layer at a controller that takes one poll for a command.
use nop.Base.{ℕ, Bool, true, false, [], ◌==◌, if◌then◌else◌}
use nop.Hba.{Hba, Register, clb, ci, Header, CommandTable, sector_fis, ahci_find_slot}
use nop.Hba.Slots.{IsFound, ahci_find_slot-IsFound}

record Machine : Type 0 where
  running : Bool
  headers : ℕ → Header
  tables : ℕ → CommandTable

unfoldable get_register : Register → Machine → Machine × ℕ
get_register clb m = (m, 0x4000)
get_register ci m = (record m { running = false }, if m.running then 1 else 0)
get_register r m = (m, 0)

unfoldable put_register : Register → ℕ → Machine → Machine
put_register ci v m = record m { running = true }
put_register r v m = m

abbrev machine : Hba Machine
machine = record {
  get = get_register;
  put = put_register;
  header = λ list s m. m.headers s;
  set_header = λ list s h m. record m { headers = λ k. if k == s then h else m.headers k };
  table = λ a m. m.tables a;
  set_table = λ a t m. record m { tables = λ b. if b == a then t else m.tables b };
}

abbrev rounds : Machine → ℕ
rounds m = if m.running then 1 else 0

abbrev blank : Machine
blank = record {
  running = false;
  headers = λ s. record { cfl = 0; w = 0; prdtl = 8; ctba = 0x4500; ctbau = 0 };
  tables = λ a. record { cfis = sector_fis 0 0 0; prdt_entry = [] };
}

ahci_find_slot-IsFound_example : IsFound machine blank (ahci_find_slot machine blank).1
ahci_find_slot-IsFound_example = ahci_find_slot-IsFound machine blank
