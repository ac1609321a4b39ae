-- ===== src/Lib.antt =====
-- JRAID is a driver for a software RAID of level 4 or 5 (src/jraid5.c) below a layer that assembles
-- the array (src/jmd.c). This library models the core of the driver and proves what makes it correct.
-- Paths are given from the root of the repository.
--
-- The parts, and how they interact:
--   - A request of the array (`jraid5_make_request`) is mapped to a stripe and a disk by the address
--     arithmetic (`jraid5_compute_sector`). `get_active_stripe` hands out the stripe head from the
--     cache, `__add_stripe_bio` queues the bio on a device of it, `handle_stripe` submits a request to
--     each disk that has a bio waiting, and `release_stripe` gives the stripe back. The completion of
--     each request to a disk gives up one more hold. Stripes with work left wait on `handle_list` for
--     the thread `jraid5d`.
--
--   - An array is put together from member disks: each is imported (`jmd_import_device`) and bound to
--     the array (`add_new_disk`), and the superblock is copied to the members (`sync_sbs`). When the last
--     disk has joined, `do_jmd_run` weighs the superblocks (`analyze_sbs`) and calls `jraid5_run`, which
--     attaches the members to slots, allocates the stripes and starts the thread.
--
-- The files:
--   - Common: names of the libraries passed on, Boolean tests (Tests), lists (Lists), words (Words),
--     masks (Masks).
--   - Geometry: `jraid5_compute_sector` as `compute_sector`, `compute_blocknr`; Bounds, Digits,
--     RoundTrip and Parity have the proofs. Words of 32 and 64 bits wrap around as in C.
--   - Stripe: `struct stripe_head`, `struct r5dev`, `struct jraid5_conf` (src/jraid5.h). A pointer to
--     a stripe head is a number into a store; an intrusive list, and a chain of the hash table, is a
--     list of such numbers.
--   - Cache: `release_stripe`, `release_stripe__` (release_stripe_inactive), `remove_hash`,
--     `insert_hash`, `__find_stripe` (find_stripe), `get_free_stripe`, `__init_stripe` (init_stripe),
--     `get_active_stripe`. Cache.Invariant says what holds of the cache between two calls; Release,
--     Lookup, Claim, Build and Acquire have the proofs.
--   - Bios: `__add_stripe_bio` on one device (add_bio); Order and Cover have the proofs.
--   - Handle: `handle_stripe`; Plan compares it with a direct account of what is to be submitted,
--     Effect is about the cache after it.
--   - Request: `jraid5_make_request` (make_request), the completions (end_request), `jraid5d`;
--     Lifecycle, Total, Loss, Round and Thread have the proofs.
--   - Grow: `grow_stripes`, `grow_buffers`, `shrink_stripes`, `shrink_buffers`; Stripe, Ready and
--     Shrink have the proofs. Whether the kernel's allocators succeed is an argument of the functions.
--   - Superblock: the superblock (src/jmd_p.h), the state bits of a disk (src/jmd_k.h), and of src/jmd.c
--     `remove_descriptor` and the search of `analyze_sbs` for the freshest member (scan); Events has the
--     proofs. `csum_partial` of the kernel is an argument.
--   - Errno: the error numbers. Member: `struct jmd_rdev`, the list of all members and
--     `jmd_import_device` (src/jmd.c); Import has the proofs. What is asked of the kernel is the record
--     Kernel, an argument; the requests are numbered, so that an answer can depend on the time.
--   - Array: `set_array_info`, the sizes, `bind_rdev_to_array` and `sync_sbs` (src/jmd.c); Sync, Sizes and
--     Total have the proofs. Joining: `add_new_disk`; Alike and Members have the proofs. Update:
--     `write_disk_sb` and `jmd_update_sb`, at most 100 rounds as in C; Events has the proofs.
--   - Start: `jraid5_run` (src/jraid5.c), cut at its loops and checks into attach_all, fill_failed,
--     sync_descs (all in Disks), refuses, start_threads and finish_start. Outcome follows the
--     stages, Slots and Running the disks, Serving the first request, Safe the accesses to arrays.
--     Stopping: `jraid5_exit`, of which stopping the threads and freeing `conf` is left out.
--   - Analyze: `analyze_sbs` (src/jmd.c), a function for each of its loops. A stage gives the state and
--     whether it went to `abort`. Stages, Fresh and Settle are about what the stages leave
--     alone, Checks and Sound about an array that is accepted, Room and Total about the accesses to
--     arrays, Members about the list of the members.
--   - Run: the table of personalities, `device_size_calculation`, `do_jmd_run` and `add_store`
--     (src/jmd.c), which reach the `run` of a personality through the table. Sizes, Chunk, Outcome and
--     Complete have the proofs; Written is about the superblock after a run; Ready follows an array from
--     its superblocks to its first request; Members, Keeping and Adding follow the members through
--     `add_store`.
--   - Galois: the tables, the product, the quotient and the recovery of algorithm/raid6_pq/algorithm.c;
--     Tables, Quotient and Recovery have the proofs.
--   - Pool: `jmd_cache_mem_init` and `jmd_cache_mem_exit` of src/jmd_mem.c; Blocks and Outcome have the
--     proofs.
--   - Samples: small caches that the tests (Examples, in each part) share.
--
-- How the code is rendered:
--   - Code under `device_lock` is one step. BUG() and a division by zero are `none`, `bug` or `fault`.
--     Messages are left out.
--   - `get_active_stripe` waits for an inactive stripe: the states that the waits come back to are an
--     argument of it.
--   - `jraid5d` runs on fuel, one unit for each stripe that it handles. The proofs on the fuel
--     are in Request/Thread.
--   - A page has 4096 bytes, a pointer 8.
--
-- Not modelled: memory barriers and the time at which the disks answer; the block layer, which is only
-- called; the registration of the driver with the kernel and its threads (src/jmd.c); the thread of the
-- pool, whose loop does nothing yet (src/jmd_mem.c); the path that bypasses the stripes; the XOR of the
-- parity, which `handle_stripe` does not compute; and the programs beside the driver (attach, tool),
-- which are samples of their own.
pub mod Common
pub mod Geometry
pub mod Stripe
pub mod Cache
pub mod Bios
pub mod Handle
pub mod Request
pub mod Grow
pub mod Superblock
pub mod Errno
pub mod Member
pub mod Array
pub mod Joining
pub mod Start
pub mod Update
pub mod Analyze
pub mod Run
pub mod Galois
pub mod Pool
pub mod Samples
