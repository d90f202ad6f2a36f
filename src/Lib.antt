-- ===== src/Lib.antt =====
-- Weenix kernel: address spaces, threads and files.
--
-- This library models parts of the Weenix kernel (weenix/kernel): the address space of a process
-- and the system calls on it, the threads with their queues and mutexes, processes, open files,
-- the RAM file system, path names, the page allocator and the page frames.
--
--   Vm    vm/vmmap.c, vm/brk.c, vm/mmap.c, vm/anon.c, vm/shadow.c, api/access.c
--   Proc  proc/sched.c, proc/sched_helper.c, proc/kmutex.c, proc/proc.c, proc/kthread.c
--   Fs    fs/file.c, fs/open.c, fs/vfs_syscall.c
--   Ramfs fs/ramfs/ramfs.c, fs/vnode.c
--   Path  fs/namev.c, fs/vfs_syscall.c
--   Mm    mm/page.c, mm/slab.c, mm/pframe.c, vm/anon.c, vm/shadow.c, fs/vn_mmobj_ops.c
--   Base  names shared by all: tests, lists, integers, 32-bit words, errors
--
-- An address space is the list `vmm_list` of its areas (Vm.Area, with vmmap_insert, vmmap_lookup,
-- vmmap_find_range, vmmap_is_range_empty). Vm.Remove has the loop of vmmap_remove as it walks the
-- linked list: it keeps the index of the saved next node, and gives the calls on memory objects,
-- TLB and page table as a list of effects. Vm.Valid states what a valid address space is, the
-- areas in order, apart and inside of user space, and `page_at`, the abstract view: the mapping of
-- each page. Vm.Carve and Vm.RemoveLoop relate the loop to a description of the remaining areas.
-- Vm.Map has vmmap_map and do_munmap over a store of memory objects, Vm.Mmap do_mmap, Vm.Clone
-- vmmap_clone, Vm.Brk do_brk, Vm.Access the permission tests, vmmap_read and copy_from_user; the
-- frames that lookuppage gives, or its failure, are a parameter there. A memory object must have a
-- reference already when one is added, as the KASSERTs of the code say.
--
-- A kernel state of Proc.Queue is the table of threads, the table of queues and the current
-- thread; threads and queues are named by their addresses, the run queue by `kt_runq`. Proc.Sched
-- follows sched.c and sched_helper.c; a call that gives the processor away ends, in the model,
-- where another thread runs, and what remains of it is a function of its own (`wake_result`).
-- Proc.Mutex has the four operations of kmutex.c. Proc.Valid states the bookkeeping of queues that
-- every operation keeps.
--
-- Proc.Process adds the process table: creation with the search for an identifier (getid_loop),
-- exit but for what it gives back, kill and cancel; Proc.Wait has do_waitpid, cut where it sleeps.
-- Identifiers are `none` for -1. The search for an identifier runs on 65536 rounds of fuel, one
-- for each identifier, which suffice.
--
-- Fs.File is the table of open files with fref, fget and fput, Fs.Descriptors the calls on the
-- descriptor table; Fs.Refs states that the reference count of a file is the number of descriptors
-- that point to it. Fs.OpenCall has do_write and do_getdent. The operations of vnodes are
-- parameters of these.
--
-- A RAM file system (Ramfs.State) is its table of inodes with the vnodes in use; an inode's memory
-- is three fields, the bytes of a file, the entries of a directory and the identifier of a device.
-- Ramfs.Vnodes has vref, vget and vput, Ramfs.Entries the loops over entries and inodes,
-- Ramfs.Names, Ramfs.Dirs and Ramfs.Data the vnode operations. Ramfs.NameMap views a directory as
-- a map from names to numbers, Ramfs.Links counts the entries that lead to an inode, and
-- Ramfs.Valid states what a well-formed file system is: every link count is the number of links,
-- one more for a vnode in use and one more for the root, and no inode is kept without either.
--
-- Path.Namev has lookup, dir_namev and open_namev on paths as lists of bytes; the indices of the
-- code are suffixes of the path, and its loop over the pieces runs on fuel, the length of the
-- path, which suffices. Path.Calls has the system calls on paths. Path.Walk compares dir_namev
-- with the lookup of the pieces one after the other (`resolve`), Path.Balance says that a state is
-- another one but for some references, Path.Resolve follows a path that leads to a directory, and
-- Path.MkdirSafe and Path.UnlinkSafe follow the system calls from there.
--
-- Mm.Group is one group of the page allocator with __page_split and __page_join; Mm.Pages the list
-- of groups, the search for blocks and their release, Mm.Slab the slabs, the reclaim of unused
-- ones and the allocation itself, which calls it. A byte is free as often as it lies in a free
-- block (`cover`, `free_at`), and that is the abstract view of the allocator: Mm.Group.Valid says
-- that no byte is free twice and that the bit of a pair of buddies tells whether exactly one of
-- them is free, and Mm.Group.Flip has the one step that all operations are made of, a block that
-- leaves or enters a list while the bit of its pair flips. The loop of __page_join gets one round
-- for each order, which suffices.
--
-- Mm.Frames has the frames of pages with the objects that own them, up to the point where a thread
-- sleeps until a frame is not busy. What a process sees of a page of an object (Mm.Frames.Seen) is
-- the page of the first object of its chain that has one, or what the bottom object is filled
-- with. The walk down a chain gets one round more than there are shadow objects. The allocators of
-- frames and the file systems that fill pages are a parameter, `Supply`.
--
-- A failed KASSERT, a null dereference and a wait for an interrupt are `none`; error codes are
-- results `err`. Addresses and page numbers are 32-bit words whose sums wrap around (Base.Words).
-- Loops over an address space run on fuel: vmmap_remove gets one round more than there are areas,
-- since the iteration only moves forward over nodes that were there, and the one area that it may
-- insert lies behind the hole; range_perm gets one round for each page, vmmap_read one for each
-- byte. The theorems show that these suffice.
--
-- Not modelled: allocation failures outside of Mm, interrupt levels, do_open, what an exit gives
-- back (files, working directory, address space), the wait of vput for a busy page, page tables,
-- the pageout daemon, mount points and unmounting, devices, and everything that only prints.
pub mod Base
pub mod Vm
pub mod Proc
pub mod Fs
pub mod Ramfs
pub mod Path
pub mod Mm
