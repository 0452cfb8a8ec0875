-- ===== src/Lib.antt =====
-- Verification of the kernel and C library of this repository (the C sources; the Rust sources
-- under stuos/src are not modelled).
--
-- Parts, and the files that model them:
-- Libc/Memory: the byte memory that the C library's routines work on, strings in it, and runs
--   of loops that no count bounds.
-- Libc/Mem, Libc/Str (with their children): custom_libc/string.c. A loop with a count recurs on
--   the rounds left; a loop to the end of a string recurs on fuel, and its theorems ask for fuel
--   beyond the string's length, which the loop never exceeds. A plain `char` is signed.
-- Libc/Ctype, Libc/Strings, Libc/Strtol (with their children): custom_libc/ctype.c,
--   custom_libc/strings.c and custom_libc/strtol.c.
-- Libc/Wchar (with its children): the multibyte routines of custom_libc/wchar.c. Libc/Wchar/Utf8
--   is the encoding that they are compared with.
-- Kernel/Outcome: a kernel routine returns or stops the machine (`HCF`).
-- Kernel/Slab (with its children): stuos/src/physical_slab_allocation.c. `malloc4k_phys`,
--   `malloc_contiguous_phys`, `free4k_phys`, `free_contiguous_phys` and `init_physical_memory`
--   are functions of those names over a record of the file's three globals.
-- Kernel/Tty (with its children): stuos/src/tty.c. The globals are a record; the screen is the
--   character drawn last in each cell, and the pixels of a glyph are not modelled.
-- Kernel/Paging (with its children): stuos/src/memory.c, the four levels of page tables. A table
--   lies in a physical page and is found by the page's number. Kernel/Paging/Space says when the
--   tables of the lower half are a tree and what address space they stand for.
-- Kernel/Ring (with its children): stuos/src/xhci_trb.c. The controller at the other end of a
--   ring follows the cycle bits as the USB controller specification says.
-- Kernel/Keyboard (with its children): stuos/src/ps2_driver.c, with SCANCODE_VERSION 2, and
--   stuos/src/xhci_keyboard.c. The bytes and reports are lists. The PS/2 driver hands its
--   characters to Kernel/Tty; those of the USB driver are results.
-- Kernel/Files (with its children): stuos/src/pipes_and_files.c. A pipe is its two ends with the
--   bytes in their buffers; what a write puts behind its buffer is a result.
-- Kernel/Heap (with its children): `_malloc_expand_heap` of stuos/src/kern_libc.c over
--   Kernel/Paging, and Malloc/Library with the bytes that it returns as `expand`; the machine that
--   it maps pages in is no part of the allocator's heap.
-- Kernel/VaList (with its children): stuos/src/va_list.c, the save area and the overflow area as
--   offsets and addresses.
-- Malloc/Item (with its children): custom_malloc/linked_list_item.c, the headers of the heap's
--   blocks. Malloc/Library (with its children): custom_malloc/library.c, with `malloc`, `free`,
--   `realloc` and `init_memory_allocator` over the headers, the bytes in the regions and the
--   allocator's globals. The bytes that `_malloc_expand_heap` adds are a parameter `expand`. The
--   loops over the list recur on fuel; one round more than there are blocks is enough. A region
--   is taken to end less than 2^63 bytes from its start, as `int64_t region_size_bytes` needs.
--   Malloc/Blocks: the heap as the list of its blocks, the view that the theorems are stated in.
-- Kernel/BlockDevice (with its children): stuos/src/fs_dev.c. A driver is an argument: its two
--   functions, and that a written sector is read back. Buffers are functions from the index. The
--   loops over sectors recur on the rounds that the source computes.
-- Kernel/Fat (with its children): stuos/src/fs_fat.c over a block device that is its row of
--   bytes, and Kernel/Fat/Device shows that a partition is one. Kernel/Fat has the table and the
--   chains, Kernel/Fat/Entries inode numbers, directory entries and files, Kernel/Fat/Names the
--   long names, Kernel/Fat/Listing `read_dirents` and `read_file`, Kernel/Fat/Creating
--   `create_inode` and Kernel/Fat/Mounts `mount_fat16`. The loops over a chain recur on fuel,
--   which the routines set to the clusters to skip and the bytes to go, and that is enough; the
--   search for the end of the root directory gets one round more than the directory has bytes.
--   `read_dirents` has its fuel as an argument, since it need not end.
-- Libc/Sorting (with its children): custom_libc/qsort.c over whole elements.
--
-- Not modelled: the other C files (path lookup, program loading and the rest of the C library),
--   the parts of device drivers that access registers, third-party code and the parts written in
--   Rust.
pub mod Prelude
pub mod Libc
pub mod Kernel
pub mod Malloc
