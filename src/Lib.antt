-- ===== src/Lib.antt =====
-- nopOS, a small i386 kernel in C: its library (lib) and its kernel (nop), modelled from the source.
--
-- The library gives the kernel byte and string functions, number printing and parsing and endian
-- conversions. The kernel marks physical pages in a bitmap from which the heap takes its blocks, and
-- keeps growing tables of event handles and devices that its tasks fill. Trees mount what they find on
-- devices.
--
-- The files and what they model:
--   Base holds Boolean tests, lists, machine words, byte memory and bit operations over the native numbers.
--   Endian models lib/endian.c, a conversion a function, words as values.
--   CString models lib/string.c and lib/ctype.c over flat byte memory; pointers are addresses, NULL is `none`.
--   Bson models lib/bson.c: the walk over the entries of a document; its fuel is the size of the document.
--   Digits models lib/digits.c; its loops are functions of their own, `buffer` is a list.
--   Page models nop/page.c; the bitmap is the memory behind `page_bitmap`, a loop is a function on fuel.
--   Log models nop/log.c: the callback and the growing buffer, and the machine that reads a format.
--   Slots models the growing table with `free` flags that nop/event.c and nop/device.c both write out.
--   Device models nop/device.c on such a table; the devices' functions are fields.
--   Event models nop/event.c on such a table.
--   Temp models nop/temp.c: the device calls of a block of memory.
--   Mbr models mbr_init of nop/tree/mbr.c, with the device calls as parameters.
--   Api is include/nop/device.h: features, seek modes and the seek computation that devices share.
--   Text models nop/arch/i386/tasks/text.c: the console on its frame buffer, against a screen.
--   PciSpace models nop/arch/i386/tasks/pci.c: the configuration space behind two ports.
--   Ahci models the disk device of nop/tasks/ahci.c: its features, the cut of a request, its position.
--   Hba models the command layer of nop/tasks/ahci.c: slots, commands, waits, and the set-up of a port.
--   PciTree models nop/tree/pci.c: the scan for PCI functions, and the window device of one.
--   Tree models nop/tree.c: the walk and the search of paths in the tree of mounts.
--   Root models nop/tree/root.c and tree_init: the mounts on devices, and the entries of their list; a name
--   that does not fit its array is `none`, as in Tree.
--   Start models nop/start.c: the page bitmap in the free memory, and the page functions of the heap.
--   Boot models nop/arch/i386/start.c: from the memory map of the boot loader to the free blocks.
--   Idt models nop/arch/i386/tasks/idt.c: the interrupt table, and the event of an interrupt.
--   Serial models nop/arch/i386/tasks/serial.c: the ports as parameters, the waits on fuel.
--   Alloc models lib/alloc.c: blocks of chunks in byte memory, with the page callback as parameter.
--
-- Conventions. Memory is total, since the kernel runs without paging and every address can be read.
-- Addresses are numbers and do not wrap, but for those in a BSON document; `size_t` and `unsigned long`
-- arithmetic on values is taken modulo 2 ^ 32 where it can overflow. A scan for a terminator has 2 ^ 32
-- rounds, one for each address; the loops of `page_mark` have 8, 8 and `end - start` rounds, the search of
-- `page_alloc` PAGE_COUNT + 2; `log` has a round for each character; the theorems show that these are
-- enough. What `realloc` leaves in new table slots is a parameter, because the code does not initialise it,
-- and so are the callbacks of events.
--
-- Not modelled: the reads and writes of the AHCI disk device, which split a request into sectors; the
-- assembly files and the build; output by `log` inside the modelled functions; the search for AHCI
-- controllers, the temporary devices behind the lists of trees, and the order in which the start calls the
-- other parts.
pub mod Base
pub mod Endian
pub mod Page
pub mod CString
pub mod Device
pub mod Digits
pub mod Log
pub mod Slots
pub mod Event
pub mod Api
pub mod Temp
pub mod Mbr
pub mod Text
pub mod PciSpace
pub mod Alloc
pub mod Ahci
pub mod PciTree
pub mod Tree
pub mod Root
pub mod Start
pub mod Boot
pub mod Idt
pub mod Serial
pub mod Hba
pub mod Bson
