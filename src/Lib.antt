-- ===== src/Lib.antt =====
-- POTATOES, a teaching operating system: the parts of its kernel that keep state of their own.
--
-- The kernel has layers. The string and memory functions of src/kernel/lib/string.c serve all of
-- it. The ring buffer of src/kernel/lib/ringbuffer.c carries bytes between interrupt handlers and
-- devices. The memory management of src/kernel/mm gives out physical frames by a bitmap, fills
-- page tables, and keeps the kernel heap as a ring of block headers. The process management of
-- src/kernel/pm schedules a ring of processes and keeps the list of devices; each process writes
-- to a virtual monitor of src/kernel/io. The file system of src/kernel/fs reads and writes blocks
-- of the disk through two caches, keeps the use of the blocks in a bitmap in memory and on disk,
-- and keeps the inodes of open files in a table. A directory is a file of entries, names with the
-- blocks of inodes; a search follows a path from the root's inode. A process reaches files and
-- devices by system calls: a file descriptor below 100 is a device's, any other an entry of the
-- table of the process, which leads to the global file table and from there to an inode.
--
-- Klib/Memory.antt: memset, bzero, memcpy, memmove of src/kernel/lib/string.c. Memory is a list of
-- bytes from a pointer on; an access behind its end is the fault `none`.
-- Klib/Strings.antt: the string functions of the same file, by the same names. The theorems are
-- about texts, lists of bytes without a zero, followed by a terminator and any memory.
-- Klib/Numbers.antt: strreverse, isspace, itoa, strtol and atoi of the same file, where an int is
-- its 32 bits.
-- Klib/Ringbuffer.antt: src/kernel/lib/ringbuffer.c, the struct ring_fifo as a record, rf_write
-- and rf_read with their loops. Ringbuffer/Queue.antt has the well-formedness of a buffer and its
-- contents.
-- Mm/Frames.antt: src/kernel/mm/mm_bitmap.c, the globals frames and nframes as a record and page_t
-- with the fields used.
-- Mm/Paging.antt: kmalloc, get_page and mm_init of src/kernel/mm/mm_main.c, with the page
-- directory as functions of table and page numbers.
-- Mm/Heap.antt: src/kernel/mm/mm_heap.c, the ring of block headers in a memory from addresses to
-- headers. Heap/Chain.antt has the well-formedness of a heap.
-- Io/Virtual.antt: the virtual monitors of src/kernel/io/io_virtual.c, each with its memory of
-- 16-bit words.
-- Io/Monitors.antt: the array of monitors, src/kernel/io/io_virtual_monitors.c, and
-- free_virt_monitor of io_virtual.c; what these ask of the process management is part of their
-- results, and Pm/Procs.antt carries out what free_virt_monitor asks.
-- Pm/Procs.antt: the processes of src/kernel/pm/pm_main.c, a ring that begins with the active
-- process, and exit and kill of src/kernel/pm/pm_syscalls.c, with the array of monitors, which the
-- end of a process changes. Procs/Create.antt has pm_create_thread, Procs/Count.antt the consistency
-- of the processes.
-- Pm/Devices.antt: the list of devices of src/kernel/pm/pm_devices.c.
-- Pm/Syscalls.antt: the system calls on files and devices of src/kernel/pm/pm_syscalls.c, those
-- that take a path in Syscalls/Paths.antt and the table of system calls in Syscalls/Table.antt.
-- The functions of device drivers are a parameter, a record named Driver.
-- Fs/Device.antt: src/kernel/fs/fs_block_dev.c and fs_buf.c, the disk as a function from block
-- numbers to bytes, with the two global caches.
-- Fs/Bmap.antt: src/kernel/fs/fs_bmap.c, the bitmap with the device.
-- Fs/Table.antt: the search loops that the tables of the file system share.
-- Fs/Inodes.antt: the inode table, its allocation and the copies between inode forms of
-- src/kernel/fs/fs_inode_table.c. Inodes/Bytes.antt has the bytes of a packed d_inode,
-- Inodes/Disk.antt the functions that read and write inodes, with the block device and
-- d_inode_cache as their state.
-- Fs/Blocks.antt: get_data_block and enlarge_file of src/kernel/fs/fs_block_dev.c, over the
-- bitmap, the device, addr_cache and d_inode_cache. The three ranges of a position are functions
-- of their own.
-- Fs/Super.antt: src/kernel/fs/fs_super.c, the super block with its packed bytes.
-- Fs/Io.antt: fs_read and fs_write of src/kernel/fs/fs_read_write.c. A call to itself takes away
-- at least one byte, so that fuel above the number of bytes is enough.
-- Fs/Dir.antt: the entries of a directory block and the parts of a path, of
-- src/kernel/fs/fs_dir.c. Dir/Slots.antt and Dir/Refines.antt have the map from names to blocks
-- that a block of entries stands for.
-- Fs/Tree.antt: the state of the whole file system. Tree/Search.antt has search_file and rfsearch,
-- and Tree/Edit.antt insert_file_into_dir and delete_file_from_dir, of src/kernel/fs/fs_dir.c;
-- Tree/Open.antt has src/kernel/fs/fs_open_close.c, Tree/Truncate.antt and Tree/Create.antt
-- src/kernel/fs/fs_create_delete.c, and Tree/Main.antt src/kernel/fs/fs_main.c.
-- Fs/Files.antt: the global file table and the table of a process, src/kernel/fs/fs_file_table.c.
-- An f_inode is an index in the inode table.
--
-- Parameters stand for memory that mallocn returns, with whatever it holds, NULL included, for what
-- start_vmonitor leaves in pm_create_thread, and for the time. Words of 32 and 8 bits are natural numbers with the wrap-around written out where a
-- result can exceed them; theorems state the bounds they need on sizes. Loops are structural in
-- the rounds left, which the source's bound gives, or in the memory that they run over, so that no
-- fuel can run out; only these take fuel: fs_read and fs_write, for which any number above that of
-- the bytes is enough; the search for a path and the loops over the blocks of a directory, where
-- one fuel bounds the parts of the path and the blocks of each directory; the search in the ring
-- of the heap, the loops over its pages and the calls of heap_mallocn to itself; the loop of
-- mm_init over the pages of the kernel; pm_schedule, for which the number of processes that wait
-- and two more are enough; and virt_monitor_cputs, for which a number above the length of the text
-- is.
--
-- Not modelled: the file that a device is given, the release of memory by free, and the system
-- calls that print or hand over to the heap; switching of contexts and of page directories, which
-- is assembly; and the hardware drivers, the boot code, the output functions, the applications and
-- the build tools, which have no state of their own worth a model or talk to hardware. Of the disk
-- driver the bound check is modelled; the ports of the disk are taken to do what a command asks.
pub mod Prelude
pub mod Klib
pub mod Mm
pub mod Io
pub mod Pm
pub mod Fs
