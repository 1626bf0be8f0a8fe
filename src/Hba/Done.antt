-- ===== src/Hba/Done.antt =====
-- nop/tasks/ahci.c: ahci_send_h2d as a whole.
use nop.Hba.{Hba}
