-- ===== src/Lib.antt =====
-- Verification of the Parallels guest tools' kernel modules, kmods-src/.
--
-- Toolgate (kmods-src/prl_tg) is the channel between the guest and the host: a driver puts a request
-- with buffers into pages that the host reads, and waits for the host's answer. The shared folders file
-- system (kmods-src/prl_fs) and the OpenGL driver (kmods-src/prl_vid) send their requests over it, with
-- call_tg_sync. The network driver (kmods-src/prl_eth) exchanges packets with the host over two rings in
-- shared memory. The freeze module (kmods-src/prl_fs_freeze) stands alone: it freezes file systems on
-- commands in a file of /proc.
--
-- The files, with the source files that they model:
--   * Base: numbers, lists, C's int results and the errno values, shared by all.
--   * Toolgate/Wire, Toolgate/Size: the request structures of
--     kmods-src/prl_tg/Toolgate/Guest/Interfaces/tgreq.h, and tg_req_paged_size of
--     kmods-src/prl_tg/Toolgate/Guest/Linux/prl_tg/prltg_call.c with its int arithmetic.
--   * Toolgate/Queue: the queue of requests, in prltg_call.c (the end of tg_req_submit, tg_req_complete)
--     and prltg.c beside it (tg_do_work, tg_req_cancel_all). Each section under the queue's lock is a
--     function on the device; Toolgate/Queue/Steps puts them together with the host's answers and
--     with signals, in any order.
--   * Toolgate/Build: the mapping of a request and of its buffers for the device, in prltg_call.c;
--     Toolgate/Request: its creation, submission and end there, up to call_tg_sync. The memory of a
--     request is a function from words, and the mappings and page references that it takes are lists.
--   * Toolgate/User: the requests of processes in prltg.c, from prl_tg_write on; Toolgate/Device: the
--     setting up and taking down of the device there, with what is held of the kernel.
--   * Eth: kmods-src/prl_eth/pvmnet. Eth/Ring models pvmnet_hw.h and the ring of Interfaces/ApiNet.h,
--     Eth/Driver and Eth/Probe the interrupt, the transmission and the probing in pvmnet.c. A ring is
--     its positions, which wrap at 2^32, and its bytes.
--   * Freeze: kmods-src/prl_fs_freeze/Snapshot/Guest/Linux/prl_freeze/prl_fs_freeze.c. One function for
--     each of the source's; Freeze/History runs writes, the timer, its work and the unloading in any
--     order.
--   * Vtg: kmods-src/prl_vid/Video/Guest/Linux/kmod/prlvtg.c. The hash table is a function from a bucket
--     to its entries, a clip buffer is its address in a memory, and a use after kfree sets `fault`.
--     A request is two steps, begin_request and end_request, around its wait; creating and destroying a
--     drawable are two steps each, one for a critical section: create_insert and create_list,
--     destroy_unlink and destroy_free. Vtg/Refs counts the references to a buffer, Vtg/Invariant,
--     Vtg/Drawables, Vtg/Clip, Vtg/Requests and Vtg/Release carry the invariant through the calls,
--     Vtg/Steps through their histories; Vtg/Window is about what these leave out, a destruction
--     between the two sections of a creation.
--   * Drm: kmods-src/prl_vid/Video/Guest/Linux/kmod/prldrm.c. Drm/Aperture is the allocator of addresses
--     in the aperture; Drm/Gem the dumb buffers, with what they take of memory, of drm_gem_object_init,
--     of the aperture and of the video memory, and Drm/Faults their mapping; Drm/Image the images that
--     processes bind to a buffer and share, Drm/Image/History any calls on them; Drm/Dirty the area
--     that is to be drawn again, Drm/Head the modes, Drm/Shared the request that shares this area with
--     the host, for calls that run one after another: the source tests and starts or stops it without
--     a lock.
--   * Fs: kmods-src/prl_fs/SharedFolders. Fs/Status and Fs/Requests model
--     Guest/Linux/prl_fs/interface.c there, Fs/Flags the conversions of Interfaces/sf_lin.h,
--     Fs/OpenFile, Fs/Dir and Fs/Rw parts of file.c, Fs/Options and Fs/Super of super.c, Fs/Attr,
--     Fs/Dentry and Fs/Path of inode.c.
--
-- A definition has the name of the function that it models, and a part of one has a name of its own.
-- The state that a function changes is an argument and a part of its result; a call that cannot return,
-- by BUG or for want of fuel, is `none`. What belongs to the kernel or to the host is a parameter:
-- whether kmalloc succeeds is a Bool, freeze_bdev, hash_ptr and the host behind call_tg_sync are
-- functions, the last on a state of its own that nothing is assumed of.
--
-- Fuel: the loop of freeze_write has one unit more than there are bytes, and each round takes a byte at
-- least; prlfs_fill_dir has one more than the buffer has bytes, and a record takes eight;
-- the attempts of prlfs_open have three, one for each access mode; the retries of host_request_release
-- are counted by the source itself; the loop over received packets has one round more than there are
-- packets; the loop of prl_fb_dirty ends with the first round that the host does not disturb, and any
-- fuel beyond the number of this round is enough.
--
-- The sizes are those of the 64-bit ABI, with pages of 4096 bytes; errno values and open flags are
-- those of Linux on x86_64. A function under a lock is atomic, and where a function of the source has
-- several critical sections that calls can come between, each is a function. Addresses, file offsets
-- and lengths are natural numbers, and wrap where their width is written out.
--
-- Not modelled: the listing of frozen devices, the renaming and the page cache of the file
-- system, and of the display driver in kmods-src/prl_vid the framebuffers, the set-up of the mode
-- configuration, the loading of the module and prlvid.c; they are left to extensions of this library.
-- Callbacks that only log, commands that only write a constant to a port, such as the multicast modes of
-- the network card, are left out. The installer and the tools are scripts and binaries without logic of
-- their own here.
pub mod Base
pub mod Drm
pub mod Toolgate
pub mod Eth
pub mod Freeze
pub mod Vtg
pub mod Fs
