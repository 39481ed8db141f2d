-- ===== src/Lib.antt =====
-- A model of the FiRSTSTEP kernel, an i386 teaching kernel in C, and what its core does.
--
-- The program. The boot loader (boot/setupmain.c) puts the kernel into memory, and kernel/init.c starts its
-- parts. The page manager (kernel/pmu.c) hands out free 4 KiB pages; kernel/mem.c builds page directories
-- of them. Tasks (kernel/task.c) live in a table of 100 structures, each with a directory of its own and a
-- program from an ELF file (kernel/elf.c). The scheduler (kernel/scheduler.c) links the ready ones in a
-- list, and the timer's tick switches among them; system calls (kernel/syscall.c) create, end and await
-- them. Files are read from a FAT16 partition (kernel/fs.c) through the ATA driver (kernel/ata.c).
-- lib/math.c, lib/string.c and lib/vsprintf.c serve them all.
--
-- The files.
-- - Prelude: names of the libraries, tests, machine words, bit operations, and the result type
--   `Outcome` of code that can stop the machine (a panic or a failed assert) or never end.
-- - Task (kernel/task.c, inc/kernel/task.h): the structures, and in Task/Slots the table of used ones.
--   A task pointer is 0 for NULL and i + 1 for the i-th structure; the store maps pointers to
--   structures. Physical page 0 is mapped for the kernel, so a write through NULL does not fault.
-- - Sched (kernel/scheduler.c): the statics, the list operations and, in Sched/Switch, the changes of
--   state and the tick. A call returns, jumps into a task by `iret`, panics or never ends. Links, Add
--   and Remove treat the linked list; Invariant, Tick and RoundRobin the queue of tasks it stands for,
--   Transitions the state diagram, and Post, Moves and Safety which tasks run in a reachable state. The
--   names of the operations are those of the C functions; a part of one has a name of its own.
-- - Pmu (kernel/pmu.c): the nodes, the bitmap (Pmu/Bitmap), allocation, and in Pmu/Record the insertion
--   of a run of pages. Pmu/Chain says what a state stands for, Pmu/Alloc treats allocation, Pmu/Init the
--   start, Pmu/Free and Pmu/Twice the giving back of a page. Cells and Insert are about the lists of
--   runs; Nodes, Links, Place, Join and Merge follow the writes to the linked nodes.
-- - Ata (kernel/ata.c): reading and writing. The drive is the parameter `Drive`: its answers on the
--   status port, by time and by the sectors that it still has to transfer, and its sectors. Which sectors
--   it transfers is read off the bytes that the code writes to the ports; Ata/Request treats these. Read
--   and Write are about a drive that works, Partial about any.
-- - Fs (kernel/fs.c): Fs/Name and Fs/Match the names, Fs/Cluster and Fs/Chain the cluster chains,
--   Fs/Find the directories, Fs/File reading, Fs/Mount the start. The static buffers are part of the state.
--   Content says what a file's bytes are; Rest and Slice follow `fat_read`, Parts and Reading `file_read`.
-- - Math (lib/math.c): `__udivdi3` and `__umoddi3`.
-- - Str (lib/string.c): the functions on a memory of bytes. An address is a number of any size: that
--   addresses wrap at 2 ^ 32 is not modelled here.
-- - Tty (kernel/tty.c): the text screen, video memory and the display controller's registers included.
-- - Fmt (lib/vsprintf.c): `number`, by which `vsprintf` prints an integer, and in Fmt/Format the format
--   string, its arguments on a stack that lies in memory.
-- - Hardware (kernel/pic.c, timer.c, gdt.c, idt.c): the port writes of the interrupt controllers and the
--   timer, in Segments and Gates the descriptor tables, and in Vectors where each interrupt leads.
-- - Console (kernel/printk.c, kernel/assert.c): the kernel's messages, from arguments on a stack in
--   memory, through `vsprintf` and `tty_write`, to the screen. A function that spins when its message is
--   out gives the terminal as it is then; where the compiler puts the texts is a parameter. The code does
--   not bound a text by the 1024 bytes of its buffer: a longer one is written on behind it, as the code does.
-- - User (lib/syscall.c, lib/print.c): the user library, down to the registers at `int $0x80`, and in
--   User/Programs the programs (usr/init.c, usr/hello.c). The kernel behind the trap is a parameter;
--   User/Traps puts the handler of kernel/syscall.c there.
-- - Paging (kernel/mem.c, inc/kernel/page.h): page directories and tables as words in a physical
--   memory of bytes, Paging/Copy their copying and freeing, Paging/Start the start of memory management.
--   Paging/Walk is the walk that the processor makes, with the rights that both its entries give, the
--   abstract view of a directory; Words and Table serve Map, FirstFit and Create, which treat the mapping
--   of pages and new directories.
-- - Elf (kernel/elf.c): the loader over the files and the page tables.
-- - Kernel: the statics of all parts in one state, and the kernel's access to a user program's memory
--   through the page tables; a fault there panics, as `isr_pf` does.
-- - Process (kernel/task.c): tasks created, copied, given a new program and ended. A task's structure
--   lies in the store of tasks, its interrupt frame in memory. Process/Orphans treats the children.
-- - Syscall (kernel/syscall.c): the system calls. `schedule`, assembly that switches to other tasks and
--   comes back when the caller is switched to again, is a parameter from state to state; Syscall/Reap and
--   Syscall/Pids treat the waiting for children, Syscall/Exit the end of a task.
-- - Boot (boot/setupmain.c): the loader that runs before the kernel, with its own small reader of FAT16.
-- - Start (kernel/init.c, kernel/isr.c): the order in which the parts start, and the exceptions' messages.
-- - Examples: the same on concrete data.
--
-- Integers are natural numbers with the wrap-around of their width written out. A loop with a bound in
-- the source runs as often as that; the others run on fuel, and running out is the result `endless`:
-- a list walk has one round more than there can be tasks or nodes, the search for an offset's cluster
-- one more than the offset has bytes, a path one more than it has characters, a string 2 ^ 32,
-- the kernel's own mapping and a program's segment 2 ^ 20 + 1, since they go by pages through 32-bit
-- addresses, and the boot loader's cluster chain 65537. How often its `waitdisk` reads the status, and how
-- often a waiting system call is scheduled, are parameters.
--
-- Not modelled. The assembly, and the instructions and port accesses that set the hardware up, are
-- outside the model. The screen's memory, the buffers of the file system and the structures of tasks are
-- kept apart from the memory that the page tables lie in. In the other parts a panic or a failed assert
-- only stops; what it shows is modelled in Console. The debug output does nothing there, as in a build
-- without DEBUG. The list `blocked_tasks` is never used by the code.
pub mod Prelude
pub mod Console
pub mod User
pub mod Math
pub mod Task
pub mod Sched
pub mod Pmu
pub mod Ata
pub mod Fs
pub mod Str
pub mod Tty
pub mod Fmt
pub mod Paging
pub mod Elf
pub mod Kernel
pub mod Process
pub mod Syscall
pub mod Hardware
pub mod Boot
pub mod Start
pub mod Examples
