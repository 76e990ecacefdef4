-- ===== src/Lib.antt =====
-- DunkOS, a kernel for x86-64 with its own library: the data structures and services of
-- `kern/lib`, modelled function by function.
--
-- The parts and how they stand on each other:
--
-- - Common: tests on numbers, arrays, sets of addresses, single bits of a word, and the integers.
-- - LinkedList (`kern/lib/shared/list.c`, `kern/lib/include/shared/util/list.h`): intrusive lists with
--   two sentinels. Memory is a record of three maps from addresses to the fields `prev`, `next` and
--   `size`, so elements of different lists share one store and aliasing is real. LinkedList/Chain says
--   what a well-formed list is; Ends, Insert, Remove, Walk, Visit, Zeroed and Ordered are about the
--   operations and loops.
-- - Bitmap (`kern/lib/util/bitmap.c`): the words as a function of the word index, with the masks and
--   shifts of the code. Update is about single bits, Scan about the first-fit search, Bounds about the
--   buffer.
-- - Hashtable (`kern/lib/util/hashtable.c`): an array of lists in the memory of LinkedList. Buckets is
--   about one bucket, Refine about the whole table, Init about a new one. The hash and the equality
--   are the table's callbacks and stay parameters.
-- - Strings (`kern/lib/shared/string.c`, `kern/lib/shared/memsum.c`): on a memory of bytes.
-- - Console (`kern/lib/io/console.c`): the cursor frames and the VGA buffer. The `switch` of
--   write_console is put_char, its last case put_default, and a round of the loop write_byte.
-- - Paging (`kern/lib/mem/paging.c`, `kern/lib/include/kern/memory.h`): the kernel's and the user's
--   page pools on top of Bitmap, and memset of Strings for PAL_ZERO. Pool and Free are about taking and
--   giving back pages, Reserve about pages that are set aside.
-- - Fdtable (`kern/lib/thr/fdtable.c`, and sget and sunget of `kern/lib/thr/syscall.c`): descriptors in
--   a Hashtable, their numbers in a Bitmap. What the file system's open_file returns is a parameter.
-- - Threads (`kern/lib/thr/thread.c`): threads, the ready queue, semaphores, locks and condition
--   variables. A queue is the list of the threads on it. Where the code switches away from the
--   current thread an operation ends, or goes on with what the other threads have made of the system
--   (a list of functions, one for each time the thread is scheduled again). Steps has what threads do as
--   a step relation; Sound and Wake are about the single operations, Schedule and Semaphore about runs
--   of them.
-- - Printf (`kern/lib/shared/xprintf.c`): the conversions of a format, read from the memory of
--   Strings; the output is a list of bytes. The members that no conversion resets are kept from one to
--   the next, and an uninitialised variable is a parameter. Conversion reads a conversion. Digits is
--   about numbers, Format about formats.
-- - Timer (`kern/lib/thr/timer.c`): ticks, the sleep queue and how long a time is, on top of
--   Threads. The `hlt` at the end of a time slice, with the interrupts off, ends everything.
-- - Stdio (`kern/lib/usr/fdbuf.c`): the streams of user programs. The system calls are parameters,
--   and the calls of `write` are kept in a list. Write and Read are about new streams. Formatted has
--   the formatted writes, with vsnprintf, which no file defines, and the block of calloc, whose body
--   is empty, as parameters; Cut is about what they write when vsnprintf is as the C standard says,
--   which is a named hypothesis.
-- - PageTable (`kern/lib/mem/pml4.c`): memory gives the word at each multiple of 8. Walk is the
--   translation of the processor, which heeds the bits for presence and page size of each entry; what
--   it permits plays no part. Index is about the places of the entries, Boot about the tables that
--   come off the boot pool, Map about later mappings, Flags about the flags, Copy about copying.
--   Install has init_paging and the handler of page faults of paging.c, Fault is about that handler.
-- - Block (`kern/lib/io/block.c`, `kern/lib/io/ide.c`): partitions on transfers of whole sectors,
--   which are an argument; `empty_ide` is ide.c, where they are empty. Transfer is about that.
-- - Filesys (`kern/lib/io/filesys.c`): Inode is the structure on disk and the loops over its
--   extents, State the variables and locks, Space the free map and new and open inodes, Access the
--   data of an inode, Files and Dirs the files and directories, on top of Block, Bitmap, Hashtable and
--   Strings. The tables in sectors, the addresses of locals and of blocks of the heap, and what an
--   uninitialised variable holds are arguments. Visit and Offset are about the loops, Mode about the
--   mode, Create about what fails. The bitmap that the calls misread at `&fs_free_map` stands by
--   itself, apart from the variables that it overlaps in the program.
-- - Pci (`kern/lib/io/pci.c`): Defs has the searches in the tables of the firmware and the reads of the
--   configuration space, Devices the device groups and the search of the buses. Rsdp is about the search
--   for the root table, Config about the address of a configuration word.
-- - Interrupts (`kern/lib/intr/idt.c`, `kern/lib/intr/tss.c`, `kern/lib/intr/interrupt.c`,
--   `kern/lib/intr/apic.c`): the descriptors that the processor reads, the table of handlers, and the
--   dispatch on top of Threads. Apic has the registers of the interrupt controller. Descriptor is about
--   the two kinds of descriptors.
-- - Process (`kern/lib/mem/spt.c`, `kern/lib/mem/frame.c`, `kern/lib/thr/process.c`): Pages has the
--   pages of a process on top of Hashtable and PageTable, and which addresses it may use; Exec the
--   loading of a program, where page_defer_load, which is empty, is a list of its calls. Life has the
--   state of all processes, with the fork, Leave the exit, Frame the table of the frames, Load
--   exec_process on top of Filesys. Segment is about a segment, Dec about waiting for a semaphore,
--   Kept about what the exit leaves as it was, Destroy about what becomes of the pages, Children about
--   the list that a new process joins, Frames about the frames at first.
-- - Syscall (`kern/lib/thr/syscall.c`): the calls on files, descriptors, semaphores and time, on top of
--   Filesys, Fdtable, Threads and Timer, and in Family those that make processes, wait for them and end
--   them. Sleep is about the time that a call asks for, Fork, Wait and Exit about processes. A call that
--   waits is given what the others do meanwhile, as a list of changes of the state.
-- - User (`kern/lib/usr/syscall.c`, `kern/lib/usr/synch.c`, `kern/lib/include/shared/system.h`): Calls has the
--   numbers of the calls, the table of the kernel and what a program leaves in the registers, Lock the
--   locks of programs on top of Syscall. Dispatch is about where a call arrives, Locked about the locks.
-- - Heap (`kern/lib/mem/heap.c`, `kern/lib/include/shared/heapstruct.h`): the blocks of the kernel's heap on
--   top of Paging and LinkedList, for blocks of at least 16 bytes. Blocks is about their sizes and places,
--   and about what releasing one does.
--
-- Numbers are natural numbers; where the code relies on a machine word, sums and differences are taken
-- modulo 2 ^ 64 (2 ^ 32 for an `int`). Loops are structural in their count where the code counts, and
-- otherwise run on fuel. The loops over a list have one round more than the list says it has elements,
-- which is enough on a well-formed list; bitmap_scan has as many rounds as the bitmap has bits. The
-- loops over strings, the scan of list_insert_ordered and the search of find_rsdp take their fuel as an
-- argument, and the search of the PCI buses a bound on the bridges behind each other. load_segment has a
-- round for each byte and inode_disk_allocate_space one for each sector, where each round takes one or
-- more.
--
-- Not modelled: the other device drivers (`kern/lib/io/ahci.c` and the port output), the boot code of
-- `kern/bs/main.c` and the register switch, which are assembly or port I/O; blocks of 8 bytes of the
-- kernel's heap; the heap of programs in `kern/lib/usr/mem.c`, whose functions are empty. resolve_path of
-- the file system has no return statement, so what it leaves is an argument.
pub mod Common
pub mod LinkedList
pub mod Bitmap
pub mod Hashtable
pub mod Strings
pub mod Console
pub mod Paging
pub mod Fdtable
pub mod Threads
pub mod Block
pub mod Filesys
pub mod Heap
pub mod Interrupts
pub mod PageTable
pub mod Pci
pub mod Printf
pub mod Process
pub mod Stdio
pub mod Syscall
pub mod Timer
pub mod User
