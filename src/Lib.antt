-- ===== src/Lib.antt =====
-- A verification library for the flyos kernel: its memory managers and page tables, its scheduler, its
-- files in memory and on a FAT16 volume, its keyboard, mouse, windows and text terminal, and for the library of its user programs.
--
-- The kernel hands out physical pages (`kernel/mm/pmm.c`) and blocks of its heap
-- (`kernel/mm/heap.c`), and shares the processor among tasks on a ring (`kernel/task/task.c`), which
-- block on wait queues, sleep, and wait for semaphores (`kernel/task/sem.c`). The page tables
-- (`kernel/mm/vmm.c`) stand in pages that `pmm.c` hands out, the nodes and buffers of the files in memory
-- (`kernel/fs/ramfs.c`) in blocks of the kernel heap, and `kernel/fs/file.c` reads and writes these files
-- through descriptors. The mouse (`kernel/drivers/mouse.c`) moves the pointer, and `kernel/gui/gui.c` acts on
-- the window under it; one window shows the text terminal (`kernel/drivers/fb_term.c`).
--
-- Base has the shared names: Boolean tests on numbers, lists, and tables that are checked by evaluation.
--
-- Pmm models `kernel/mm/pmm.c`. Pmm/Bitmap is the array of bytes with `bitmap_set`, `bitmap_clear` and
-- `bitmap_test`; Pmm/Multiboot the walk over the tags and the memory map that both passes of
-- `pmm_init` share; Pmm/Defs the state (the static variables) and the operations: `mark_used`,
-- `init` for `pmm_init`, `alloc_page`, `free_page`, `free_pages`. The other files of Pmm have proofs,
-- and Pmm/Tests the runs.
--
-- Heap models `kernel/mm/heap.c`. Heap/Defs has the headers as a store by address, `init` for the
-- block that `heap_init` makes, `kmalloc`, `kfree`, and `merge_loop` for `merge_all`. Heap/Spec is the
-- abstract view: a list of block sizes, each live or free, with first fit and merging on it. Heap/Chain
-- relates the two; the other files have proofs.
--
-- Task models `kernel/task/task.c`: Task/Defs has the tasks as a store by address, the scheduler's
-- variables, and `schedule`, `scheduler_tick`, `block` for `task_block`, `wake_one` and `wake_all` for
-- `wait_queue_wake_one` and `wait_queue_wake_all`, `sleep`, `kill_by_id`. Task/Ring, Task/Queue,
-- Task/Wait and Task/Sleepers have proofs. Task/Create models `task_init` and `task_create` on the
-- heap of Heap, Task/Kill `task_kill_all_children`, Task/Sem models `kernel/task/sem.c`, an `int` being
-- the number of its 32 bits.
--
-- Vmm models `kernel/mm/vmm.c` on the pages of Pmm: Vmm/Defs has the words of the tables by page and
-- index, with `map`, `unmap`, `get_phys`, `next_table` and `split_huge_pd`; Vmm/Clone has
-- `vmm_clone_pml4` and `vmm_clone_pml4_deep`. The other files of Vmm have proofs.
--
-- Ramfs models `kernel/fs/ramfs.c` on the heap of Heap: Ramfs/Defs has the nodes by address and the
-- operations on directories, where `create` is the common body of `ramfs_create_file` and
-- `ramfs_mkdir`, and `new_node` has the zeros of `kzalloc`; Ramfs/Path has `ramfs_lookup` and
-- `ramfs_get_path`, Ramfs/Data `ramfs_write` and `ramfs_read`. A buffer has as many cells as indices,
-- and `IsFile` says which of them lie in its block. The other files of Ramfs have proofs.
--
-- File models `kernel/fs/file.c`: File/Defs has the table of descriptors and all its operations on
-- the files of Ramfs. File/Slots, File/Transfer and File/Listing have proofs.
--
-- Fat models `kernel/fs/fat16.c`: Fat/Disk has the static variables and the sectors of the disk, Fat/Names
-- the 8.3 names, Fat/Table the allocation table, Fat/Root the directory, where `scan_root` is the loop that
-- `find_root_entry`, `write_root_dirent` and `fat16_delete_file` share, and Fat/Files `fat16_read_file`,
-- `fat16_write_file` and `fat16_delete_file`. The disk is a parameter: its sectors by number, which of
-- them fail when read, which when written, and whether the bytes of a failed write arrive. The other files
-- of Fat have proofs: of the table (Entries, Assign, Allocate, Release), the directory
-- (Dirents, Scanning, Lookup, Create, Parsing), the data (Contents, Stored, Chains, Written, ReadBack), the
-- chain that the writer allocates (Linking, Growing, Closing), and all of it together (Keeping,
-- Separate, Sameness, Reading, Store, RoundTrip).
--
-- Gui models `kernel/gui/window.c` and `kernel/gui/gui.c`: Gui/Defs has the array of windows as the
-- code keeps it, the windows by address, and `gui_on_mouse`, cut into a step for each part of its
-- body. Gui/Order views the array as a list; Gui/Top, Gui/Redraw and Gui/Click have proofs. What a program's
-- callbacks do to the windows is a parameter. Mouse models `mouse_handler` of `kernel/drivers/mouse.c` and
-- `fb_cursor_move` of `kernel/drivers/fb_cursor.c`.
--
-- Terminal models `kernel/drivers/fb_term.c`: Terminal/Defs has the character buffer, the cursor and
-- `putc` for `fb_term_putc`, and `update_region` for `term_update_region` of
-- `kernel/gui/term_window.c`. Terminal/Cells, Terminal/Scroll, Terminal/Text and Terminal/Write have proofs.
--
-- Arp models `kernel/drivers/arp.c`: Arp/Defs has the packet of the request and the loop that waits for the
-- reply, with the network card as a parameter; Arp/Request has proofs.
--
-- Keyboard models `kernel/drivers/keyboard.c`: Keyboard/Defs has the ring buffer with `push` for
-- `kbd_push` and `getchar_nonblock`, the key map, and `handler` for `keyboard_handler`.
-- Keyboard/Buffer and Keyboard/Keys have proofs.
--
-- User models `user/lib`: User/Memory the routines of `string.c` on a memory of bytes, User/Malloc
-- the allocator of `stdlib.c`, User/Print `print_uint` of `stdio.c`, on 64 rounds for the digits.
-- User/Copy, User/Strings and User/Bounded have proofs. The routines on strings take fuel, of
-- which one more than the length of the string is enough.
--
-- Numbers are natural numbers; 64-bit sums keep their wrap-around, written `% 2 ^ 64`. Loops run on
-- fuel: `mark_loop` and `release_loop` on one round for each page, `alloc_loop` and `merge_loop` on
-- 65537 rounds, more than the headers that fit into the heap, the walk of the ring on `next_id`
-- rounds, since each task has an id of its own. A walk of the multiboot block has one round for each
-- byte of it; `none` stands for a walk that faults or does not end.
--
-- The lists of children are walked on as many rounds as the heap has; `grow` doubles at most 64 times, and the
-- walk of a path has a round for each character. An `int` of the files, the windows and the terminal is the number of
-- its 32 bits.
--
-- The loops of FAT16 along a chain take fuel: a chain without a cycle needs one round for each cluster and one more,
-- and `free_chain` 65,530 on any table.
--
-- Not modelled: the switch of the stacks (assembly), messages on the serial port, the payload of the
-- heap's blocks other than the buffers of files, the pages under the heap, the flushing of the translation buffer,
-- the words on a new task's stack, the fork and the end of tasks, the saving and loading of the files, the drawing of windows, letters and
-- the pointer. The rest of the kernel (saving to disk, the disk driver, network, system calls, the ELF loader), `printf`
-- and the user programs are not modelled either.
pub mod Arp
pub mod Base
pub mod Fat
pub mod File
pub mod Gui
pub mod Heap
pub mod Keyboard
pub mod Mouse
pub mod Pmm
pub mod Ramfs
pub mod Task
pub mod Terminal
pub mod User
pub mod Vmm
