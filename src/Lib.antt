-- ===== src/Lib.antt =====
-- Verification library of kados-ng, a kernel for AArch64.
--
-- The kernel (crates/kernel) is built around its memory. mem/units.rs has the addresses, which are
-- words of 64 bits kept canonical, and the direct map, through which the kernel reaches physical
-- memory. mem/paging/allocator.rs hands out frames: a bump allocator over the memory map at boot, a
-- buddy allocator once there is a heap. mem/paging/table.rs builds the tree of page tables from these
-- frames and writes it through the direct map. task/switch.rs changes from one task to another, under
-- the locks of the contexts; irq.rs passes interrupts to handlers; sync.rs has the mutex that keeps
-- interrupts off; framebuffer.rs keeps the text of the console; syscall/errno.rs has the error codes.
-- Under arch/aarch64, gic.rs drives the interrupt controller through drivers/mmio.rs, drivers/gpu talks
-- to the GPU through a mailbox, and serial.rs drives the UART. Before the kernel runs, the chain loader
-- (crates/chainloader) may receive it over the serial line from tools/loader, and the boot loader
-- (crates/bootloader) builds the page tables that it starts on.
--
-- Files, and the code each one models:
--
-- Base, Bits: shared names, tests on numbers, lists as arrays, and how the bits of a word split.
-- Arch: the constants of arch/mod.rs and arch/aarch64/mod.rs, and arithmetic on words of 64 bits.
-- Mem: mem/units.rs and the errors of mem/mod.rs. Canonical has `canonicalize_virtaddr` and
--   `canonicalize_physaddr`; PhysAddr and VirtAddr the operations of the two types; Hhdm the direct
--   map; FrameCount the counts of frames; Memory the accesses by words, Bytes those by bytes; Align
--   and Fill what holds of them.
--   Outcome is a Rust result that can also be a panic.
-- Paging: mem/paging/table.rs. Level, BlockSize, Flags and Entry have the types of these names; Table
--   has `PageTable` and its methods, as computations on a machine with a memory, a frame allocator and
--   the registers TTBR0 and TTBR1. Below Table, Access reads and writes entries, Invariant says what a
--   tree of tables is, Create and Grow treat `next_table_create`, Walk `translate`, Map and Mapping
--   the mapping of a page, Sequence that of several, Range the mapping of a range. FrameSource is the
--   interface to the frame allocator. Flush is mem/paging/flush.rs, and MapMemory `map_memory` of
--   mem/paging/mod.rs with `init_mem` of arch/aarch64/mod.rs; its Segments treats the kernel's frames.
-- Frames: mem/paging/allocator.rs. Bump has the boot allocator, Allocator the choice between the two
--   and the conversion, Remaining which memory is still free, Source the allocator as a FrameSource,
--   Usage the count of frames in use, Handover what the buddy allocator is given.
--   MemMap has the array of the boot loader's memory map (mem/paging/mod.rs).
-- Console: framebuffer.rs. Buffer has the operations, Cells and Loops the cells
--   that a write or a loop changes, Scroll, Write, Line and Clear what holds of the operations.
--   Pixels has the drawing and `write_fmt`; Draw and Render say what is drawn, Geometry what the text
--   operations keep, Shown what the screen shows.
-- Tasks: task. Switch has the operations of task/switch.rs, Choice which context is chosen, Invariant
--   what a switch keeps. Registers is the switch of registers in arch/aarch64/task.rs, Spawn `spawn`
--   with the stack, the context and the address space that it makes, Start what it makes ready, Exit
--   the operations of task/context.rs.
-- Exception: arch/aarch64/vectors.rs. Machine has the instructions, Vectors the macros made of them and
--   the decoding of faults, Saved, Pushes and Entry what stands on the stack, Handler what a handler is
--   given and what is restored after it.
-- Irq: irq.rs, with the translation of arch/aarch64/gic.rs. Chip has the descriptors, Interrupt the
--   reading of interrupt cells.
-- Gic: drivers/mmio.rs (Mmio) and gic.rs (Chip), on a device that is a parameter; Disable and Enable
--   say what the two operations do on a device that behaves in a stated way; Parse has the reading of
--   the controller's addresses from the device tree.
-- Fdt: `get_mmio_addr` of fdt.rs.
-- Mailbox: drivers/gpu. Message has `MailboxMessage`, Buffer the requests and responses, Props the
--   properties of props.rs, Call `Mailbox::call`; Request and Reply say what a buffer holds and what is
--   decoded from it.
-- Serial: serial.rs.
-- BootLoader: crates/bootloader/src/lib.rs. Tables has the functions; Laws says what entries hold and
--   how the boot loader agrees with the kernel, Range how a range is divided, Walk what the MMU makes
--   of the direct map.
-- Loader: crates/chainloader/src/main.rs (Chainloader, with `recv`) and tools/loader/src/client.rs
--   (Client, with `send_kernel_inner`), as trees of actions; Symbols has the answers to symbol requests,
--   Server the tasks and locks of tools/loader/src/server.rs. Process joins the two by a line in each
--   direction; Schedule shows that the order of the steps does not matter, Device and Sender follow each
--   side by Phases, Length reads the length, Transfer and Echo say what an exchange achieves.
-- Panicking: the backtrace of panicking.rs, as the lines that are printed, with the reading of the
--   names that the host sends.
-- Time: arch/aarch64/time.rs, on a counter whose values are given.
-- Errno: syscall/errno.rs. Sync: sync.rs.
--
-- Numbers are natural numbers, and arithmetic on `usize` that can wrap is written with its remainder
-- modulo 2 ^ 64. Memory is a function from addresses to the words of 64 bits that stand there. A loop
-- over a range is a recursion on the number of its rounds, and a loop over a list a recursion on the
-- list. These loops take fuel: those of Paging/Table/Range and BootLoader, for which the number of 4
-- KiB pages in the range is enough; those of Paging/Flush and Paging/MapMemory, for which it is enough
-- with two more; the client's wait for the breaks, for which the bytes that arrive
-- before their end are enough; and the decoding of a mailbox response, for which its size is. Polls
-- of a device read the values that it will show from a list, and an end of the list is a result of its
-- own. A lock that is taken while it is held spins forever; this is a result
-- of its own in Tasks and Sync, since the models are of one CPU.
--
-- Not modelled: the packages that the kernel calls (the buddy allocator is a parameter of Frames, the
-- handlers and the interrupt chip are logged calls in Irq, of which the chip's may panic, what the
-- device tree answers is an argument, and the addresses that the heap gives out are arguments of
-- Tasks.Spawn), the MMU but for the walks of BootLoader and Panicking, the assembly of booting and of
-- the vector table, barriers and caches, and the output of logs and panics. The image builder is left
-- for later.
pub mod Base
pub mod Bits
pub mod Arch
pub mod Mem
pub mod Paging
pub mod BootLoader
pub mod Frames
pub mod Console
pub mod Serial
pub mod Tasks
pub mod Exception
pub mod Irq
pub mod Gic
pub mod Fdt
pub mod Panicking
pub mod Time
pub mod Mailbox
pub mod Loader
pub mod Errno
pub mod Sync
