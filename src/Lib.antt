-- ===== src/Lib.antt =====
-- PrettyOS: a model of parts of a small i386 kernel, and theorems about it.
--
-- The kernel's parts and how they interact. The memory manager keeps the free page frames in lists by
-- order of size (mm/buddy.c, under mm/page_alloc.c) and the memory areas of a process in an AVL tree
-- (mm/mmap.c). The terminal task (kernel/tty.c) takes scan codes that the keyboard interrupt has put
-- in a ring buffer, turns them into keys (kernel/keyboard.c), buffers these per terminal, and prints
-- them on the terminal's console, a part of the video memory (kernel/console.c). Objects come from
-- slabs (mm/slab.c) on blocks of pages. The clock interrupt (kernel/clock.c) counts and calls the
-- scheduler (kernel/sched.c), which takes the next task from a timeline in order of the time used
-- (kernel/sched_fair.c); tasks sleep in wait queues (kernel/wait.c), and timers stand in a ring
-- (kernel/timer.c). The file system reads blocks through a buffer cache (fs/buffer_head.c), and packets
-- find their way by a routing table (net/inet/route.c). All parts use the kernel's own C library (lib/).
--
-- Files, and the code that they model:
--   Common, Common/*: shared names, Boolean tests, lists, C's signed integers, checks of small ranges.
--   Libc/Math: lib/math.c (`power`).
--   Libc/Klibc: the copies of memory of lib/klibc.c.
--   Libc/Vsprintf: `vsprintf` of lib/vsprintf.c.
--   Libc/Strings: lib/string.c, all functions; Libc/Strings/Length and Copy hold the proofs.
--   Libc/Bitmap: lib/bitmap.c and kernel/pid.c; First holds the proofs.
--   Libc/Linked: lib/list.c on a heap of links; Chain is about the sequence of the nodes, Splice about
--     a node put in or taken out anywhere. The buddy lists are modelled on these sequences.
--   Mm/Avl: the AVL tree of mm/mmap.c (`avl_insert`, `avl_remove`, `avl_rebalance`,
--     `avl_insert_neighbours`, `build_mmap_avl`, `find_vma`); Rotate and Balance are about balance, Order,
--     Insert, Remove and Find about the sequence of the areas, Bound about the depth. Neighbours is
--     `avl_neighbours`.
--   Mm/Buddy: mm/buddy.c; Cover counts how often a frame is covered by the free blocks, Lists is about
--     the operations on a list, Tidy about joining.
--   Mm/PageAlloc: mm/page_alloc.c over Mm/Buddy; Free, Alloc and Size hold the proofs.
--   Mm/Slab: mm/slab.c over Mm/PageAlloc; Free is about the free objects of a slab, Members about its
--     lists, Place about addresses, Ready and Grow about the cache that gives an object, Chain about all caches.
--   Mm/Unmap: `unmap_fixup` of mm/mmap.c over Mm/Avl, and `kmalloc` of mm/kmalloc.c, which always gives NULL.
--   Mm/Mmap: `do_mmap` of mm/mmap.c up to its call of `kmalloc`; Outcome is about what it comes to.
--   Kernel/Sched: kernel/sched.c, kernel/sched_fair.c and `clock_handler`; Timeline is the sequence of the
--     tasks, Fair the choice from it, Clock a tick, RoundRobin `rr_next_task`. The red-black tree of
--     lib/rbtree.c, a copy of Linux's, is the record `Rbtree` with the laws `IsRbtree`.
--   Kernel/Wait: kernel/wait.c; Wake is about waking, Sleep about sleeping and semaphores.
--   Kernel/Timer: kernel/timer.c on the heap of Libc/Linked; Ring is about the order and `add_timer`,
--     Removal about `del_timer`.
--   Fs/Buffer: fs/buffer_head.c; Search is about the hash table, Choice about the free buffer that
--     `getblk` picks, Miss about a block that is not in the cache.
--   Kernel/Console: kernel/console.c; Scroll is about the loop that follows the cursor, Output about
--     `out_char`, Erase about a character and the backspace after it, Start about `init_screen`.
--   Kernel/Ring: the ring buffers of include/asm-i386/tty.h and keyboard.h; Contents is their queue.
--   Kernel/Tty: kernel/tty.c, on the state that all terminals share; Keys holds the proofs.
--   Kernel/Keymap, Kernel/Keyboard: include/asm-i386/keymap.h, keyboard.h and kernel/keyboard.c; Reads is
--     about a call of `keyboard_read`, Letters about the key that a scan code names.
--   Net/Route: net/inet/route.c; Table is about changes of the table, Lookup about the routes found.
--   Net/Skbuff: the queues of net/inet/skbuff.c, on the heap of Libc/Linked; Queue holds the proofs.
--   Net/Device, Net/Eth: net/inet/devinet.c, and `eth_header` of net/eth.c.
--   Net/Dev: net/inet/dev.c and include/linux/notifier.h; Deliver is about the backlog and the queues.
--   Net/Ip: the queues of fragments of net/inet/ip.c; Order and Complete are about a list of fragments, Glue
--     about `ip_frq_glue`, Split about `ip_fragment`, Input about `ip_rcv` and the table of
--     net/inet/protocol.c; Output is sending and forwarding.
--   Net/Arp: net/inet/arp.c; Find has its look-ups and requests, Packet its packets; Chain is about one chain of
--     the table, Fewer and Closed about all calls that change it.
--   The modules called Tests hold concrete runs and, for each theorem, an instance.
--
-- State and operations. Each operation is a function from a state record to a result and a new state,
-- with the code's guards and return values; a pointer into a buffer is an index or an address, a page
-- is its frame number, and a node of the AVL tree is a node of a data type: the stack of addresses of
-- links that mm/mmap.c keeps is the path from the node to the root. Unsigned arithmetic on the consoles is
-- written with its 32-bit wrap.
--
-- Loops. The loop of `out_char` runs on 100 rounds, more than the rows of a console; the loop of
-- `get_free_pages` on one round more than there are orders. `itoa` has ten rounds for the digits of
-- an `int`. Loops over strings, queues, rings and chains take their fuel as an argument. The theorems say
-- where it is enough.
--
-- Not modelled: the devices (the diodes of the keyboard, the wait on its controller, the ports of the
-- CRT controller beyond their last values, the delay at the start), interrupts within a function,
-- `out_str`, which has no caller, and the locks around the lists. Whether a page is RAM is an argument of
-- `free_pages`, and what runs while a task sleeps one of the functions that sleep. `kmalloc` and `alloc_skb`
-- always give NULL. Where the network code reads a pointer that it never sets, as the calls that ask for
-- memory are compiled out, what stands there is an argument; `ip_frq_glue` is modelled for a pointer to
-- memory that nothing else uses, and elsewhere what the writes through such a pointer overwrite is not followed. The timers of the
-- network code, the inodes and the list links of memory areas, the processes, the
-- file system above its buffers, and the sockets with their protocols are not modelled; the red-black and
-- radix trees of lib/ are copies of Linux's.
pub mod Common
pub mod Fs
pub mod Kernel
pub mod Libc
pub mod Mm
pub mod Net
