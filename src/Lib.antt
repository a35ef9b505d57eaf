-- ===== src/Lib.antt =====
-- A verification library for the JNU kernel: a model of parts of its C code, and theorems about it.
--
-- The kernel's layers use one another from the top down: a system call checks and copies user memory,
-- finds a file through the process's descriptor table, takes the locks of what it works on, and all of
-- them live in pages that the physical memory manager hands out.
--
-- What models what:
--   Mm/Pmm         kernel/mm/pmm.c, include/jnu/mm/pmm.h: the buddy allocator. `Pmm` is the file's
--                  static state; Mm/Pmm/Alloc has pmm_alloc_pages, pmm_alloc_dma and
--                  pmm_alloc_user_page, Mm/Pmm/Free has pmm_free_pages, Mm/Pmm/Refs the references to
--                  user pages, Mm/Pmm/Register the registration of usable memory. Mm/Pmm/Links and
--                  Mm/Pmm/Lists read the doubly linked free lists as lists; Mm/Pmm/Blocks reads them as
--                  sets of page frames; Mm/Pmm/Counters is about the statistics and Mm/Pmm/Zeroed about
--                  the contents of pages.
--   Rbtree         kernel/lib/rbtree.c: the red-black tree. Rbtree/Insert and Rbtree/Erase have its
--                  changes; Rbtree/Order reads a tree as its list of items, Rbtree/Balance has the
--                  red-black conditions, Rbtree/Contract both together, Rbtree/Walk rb_first and rb_next.
--   Mm/Vma         kernel/mm/vma.c: the areas of an address space in such a tree; Mm/Vma/Find reads the
--                  tree as a search through a list, and the modules beside it have one operation each.
--   Arch/Paging    kernel/arch/x86_64/paging.c: the walk through four levels of page tables, and
--                  mapping, unmapping and protecting pages; Arch/Paging/Entry has the entry of each
--                  address before and after.
--   Mm/Space       kernel/mm/mmap.c, kernel/mm/vmm.c and the page fault of a user in
--                  kernel/arch/x86_64/exceptions.c: areas and page tables together. `Sound` in
--                  Mm/Space/Backing is what holds between calls: the areas are valid, of whole pages and
--                  never both writable and executable, and each entry of a user address is one that the
--                  area there allows. Entries and Grants have what one page fault may change, Faults the page faults.
--   Mm/Space/Protect  sys_mprotect of kernel/mm/mmap.c: Flags has an area with new flags in the tree, Pages
--                  its page-table entries, Areas the loop over the areas.
--   Mm/Space/Clone kernel/mm/clone_space.c, with vmm_create_space and paging_clone_kernel_half: the copy of
--                  an address space for a new process, which shares its pages. Shared has one page, Pages one area,
--                  Areas the loop over them, Copy the whole; References has the references taken on the page-frame
--                  table, Works what the copy needs to succeed.
--   Exec/Elf       kernel/exec/elf64.c: the check of an executable. Segments, Headers and Span have the loop over
--                  its program headers, Accepts the images that are accepted.
--   User/Fd        kernel/user/fd.c and the close in kernel/syscall/sys_close.c: descriptor tables.
--   User/Lseek     kernel/syscall/sys_lseek.c.
--   User/Copy      kernel/user/copy.c: checks of user ranges, and copies from and to user memory.
--   Initramfs      kernel/initramfs/initramfs.c; Initramfs/Cpio is kernel/initramfs/cpio_newc.c.
--   Sync/Mutex     kernel/lib/mutex.c; Sync/Mutex/System has the tasks that use a lock, with a step
--                  for each block of code that the lock's guard protects, and for each task whether
--                  sched_wake has been called for it since it last began to wait. Invariant has what holds of
--                  both.
--   Sync/Futex     kernel/kernel/futex.c; Queue has how near to the head a waiter stands, Wake and Wait the
--                  two calls.
--   Boot/Cmdline   kernel/kernel/cmdline.c: the kernel's command line.
--   Fs/Bitmap      kernel/fs/minix/bitmap.c: the maps of free inodes and zones.
--   Fs/Fat32       kernel/fs/fat32/fat.c and file.c: cluster chains and reads; Fs/Fat32/Places has the
--                  arithmetic of sectors and clusters, Chain the chain, Pieces and Reads the bytes of a
--                  read.
--   Base           what they share: tests on numbers, lists, words, error results, panics.
--   Tests          runs at concrete inputs.
--
-- Conventions. A function that returns -errno gives a `Result`, one that may panic a `Run`, and one
-- that reads memory an `Option`, where `none` is a read out of range or of freed memory. The contents of
-- user pages are not modelled; what a copy on write copies is recorded as the two pages. Code under a
-- spin lock is one step. Machine words are native numbers with the wrap-around written out. An order
-- of the page allocator is a number, so the test for a negative one has no counterpart. Buffers that
-- the kernel passes are not null. What a sleep returns and what the clock says are inputs of the loop
-- of `futex_wait`, and the page tables are a parameter of the user copies. Whether an allocation
-- of an area's descriptor succeeds is an input of the mapping calls, and so is what the allocator of
-- user pages returns; the pages given back to it are recorded in order, and the pages for page tables
-- come from a count. Two user addresses are compared as numbers below 2 ^ 47.
--
-- Bounds and fuel. The loop over the free lists gets as many rounds as there are orders left, and so
-- does the merging of buddies. The walk over an archive gets one round more than the archive has
-- bytes; each entry ends behind its start. The loop over the pages of a range gets one round more than
-- the range has bytes, and the copy of a string one round more than the buffer has. The loop over the
-- words of the command line gets as many rounds as the line has bytes; each word takes at least one.
-- The registration of a range gets one round for each of its frames. The colour changes of an
-- insertion and a removal go up the path to the root, and a loop over areas goes through the list of
-- them; both are structural.
--
-- Not modelled: the rest of start-up and memory detection, the kernel's half of the page tables,
-- destroying address spaces, loading what the check of an executable accepts, the scheduler, processes, the rest of the file
-- systems, drivers, and all self tests. The drivers and the processor's part are input and output of
-- hardware; the self tests are tests of the same code.
pub mod Arch
pub mod Base
pub mod Mm
pub mod User
pub mod Initramfs
pub mod Sync
pub mod Boot
pub mod Fs
pub mod Exec
pub mod Rbtree
pub mod Tests
