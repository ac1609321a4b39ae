-- ===== src/Start.antt =====
-- How an array starts: `jraid5_run` of src/jraid5.c, with the fields of `struct jraid5_conf` that it
-- fills. Its loops over the disks are in the child Disks. `none` is an access outside an array of
-- the program, or a slab cache for a negative number of devices. The allocators are an argument, as
-- in Grow: `ok n` says whether the allocation number `n` succeeds, the start of a kernel thread
-- counted.
mod Disks
pub mod Outcome
pub mod Slots
pub mod Running
pub mod Serving
pub mod Safe
pub mod Stopping
mod Examples
unfoldable pub use Disks.*
use mathlib.Core.Option
use jraid.Common.{
  ℕ, zero, suc, ◌+◌, ◌%◌, ◌^◌, Bool, true, false, ◌&&◌, ◌||◌, not, Option, none, some, List, [],
  ◌∷◌, ◌==◌, ◌>>=◌, leb, ltb, if◌then◌else◌, add32, sub32, get_elem?,
}
use jraid.Stripe.{Conf}
use jraid.Handle.{modify_at}
use jraid.Grow.{grow_stripes, shrink_stripes}
use jraid.Superblock.{
  Disk, Superblock, disk_active, disk_sync, disk_faulty, mark_disk_active, mark_disk_sync,
  mark_disk_nonsync, has_bit, without_bit, md_sb_clean, md_sb_disks,
}
use jraid.Errno.{eio}
use jraid.Member.{Rdev}

-- NR_STRIPES
abbrev pub nr_stripes : ℕ
nr_stripes = 1024

-- `struct jraid5_conf`: the stripe cache: `disks`, the counters, and the thread for a resync.
pub record Raid : Type 0 where
  pub cache : Conf
  pub disks : List DiskInfo
  pub working_disks : ℕ
  pub failed_disks : ℕ
  pub jraid_disks : ℕ
  pub resync_parity : Bool

-- What a start comes to: the superblock, `jmddev->private`, the result, the next allocation, whether
-- the thread jraid5d was started, the cache whose stripes are not freed with `conf` when the start
-- fails, and whether `jmd_recover_arrays` was called.
pub record Started : Type 0 where
  pub sb : Superblock
  pub private : Option Raid
  pub result : ℕ
  pub next : ℕ
  pub jraid5d : Bool
  pub left : Option Conf
  pub recovering : Bool

-- The way out at `abort`, and that of the check of the level. This one leaves `private` as it is, but
-- that is NULL whenever `run` is called: at first, and after a start that failed.
abbrev pub aborted : Superblock → ℕ → Bool → Option Conf → Started
aborted sb n jraid5d left = record {
  sb = sb;
  private = none;
  result = eio;
  next = n;
  jraid5d = jraid5d;
  left = left;
  recovering = false;
}

-- `conf` when the stripes are about to be allocated. The block device of a slot stands for the
-- member's.
abbrev pub new_cache : Superblock → List DiskInfo → Conf
new_cache sb slots = record {
  layout = record {
    chunk_size = sb.chunk_size;
    level = sb.level;
    algorithm = sb.layout;
    raid_disks = sb.raid_disks;
  };
  stripes = λ s. record {
    sector = 0;
    pd_idx = 0;
    state = record { handle = false; syncing = false; insync = false };
    count = 0;
    hashed = false;
    devs = [];
  };
  stripe_hashtbl = λ b. [];
  inactive_list = [];
  handle_list = [];
  active_stripes = 0;
  nr_stripes = 0;
  jrdev = λ i. get_elem? slots i >>= λ disk. Option.map (λ id. disk.dev) disk.jrdev;
  thread_woken = false;
}

-- The signed comparison `x > b` of a word with a small constant.
abbrev pub above : ℕ → ℕ → Bool
above b x = ltb b x && ltb x (2 ^ 31)

-- `jmd_register_thread`: the thread's memory, then its start.
abbrev pub registers : (ℕ → Bool) → ℕ → Bool
registers ok n = ok n && ok (suc n)

abbrev pub after_register : (ℕ → Bool) → ℕ → ℕ
after_register ok n = if ok n then n + 2 else n + 1

-- The end of a start, after the descriptors got their sync bits.
unfoldable pub end_start : (ℕ → Bool) → ℕ → ℕ → Raid → Superblock → Started
end_start ok n working_disks raid sb =
    let start_recovery = not (working_disks == sb.raid_disks) in
    let resync = not start_recovery && not (has_bit sb.state md_sb_clean) in
    if resync && not (registers ok n)
    then aborted sb (after_register ok n) true (some raid.cache)
    else record {
      sb = sb;
      private = some (record raid {
        cache = record (raid.cache) { thread_woken = true };
        resync_parity = resync;
      });
      result = 0;
      next = if resync then n + 2 else n;
      jraid5d = true;
      left = none;
      recovering = start_recovery;
    }

-- The rest of a start, after the stripes were allocated.
unfoldable pub finish_start : (ℕ → Bool) → ℕ → ℕ → Raid → Superblock → Option Started
finish_start ok n working_disks raid sb = do
  descs ← sync_descs sb.raid_disks raid.disks sb.disks
  some (
      end_start ok n working_disks raid (record sb { disks = descs; active_disks = working_disks }))

-- Without a disk to recover, a superblock that was clean is not.
unfoldable pub settled : ℕ → Superblock → Superblock
settled working_disks sb =
    if working_disks == sb.raid_disks && has_bit sb.state md_sb_clean
    then record sb { state = without_bit sb.state md_sb_clean }
    else sb

-- The start once the disks are known to be enough: the thread and the stripes.
unfoldable pub start_threads : (ℕ → Bool) → ℕ → ℕ → ℕ → List DiskInfo → Superblock → Option Started
start_threads ok n nb_dev working_disks slots sb =
    let sb1 = settled working_disks sb in
    let g = grow_stripes ok (n + 2) nr_stripes (new_cache sb slots) in
    if not (registers ok n)
    then some (aborted sb1 (after_register ok n) false none)
    else if leb (2 ^ 31) sb.raid_disks
    then none
    else if g.done
    then finish_start ok g.next working_disks
        (record {
          cache = g.conf;
          disks = slots;
          working_disks = working_disks;
          failed_disks = sub32 sb.raid_disks working_disks;
          jraid_disks = nb_dev;
          resync_parity = false;
        })
        sb1
    else Option.map (λ (left, _). aborted sb1 g.next true (some left))
        (shrink_stripes nb_dev nr_stripes g.conf)

-- The checks between the loops over the disks and the thread: chunk size, layout, missing disks.
unfoldable pub refuses : ℕ → Superblock → Bool
refuses working_disks sb =
    sb.chunk_size == 0
    || not (sb.chunk_size % 4 == 0)
    || above 3 sb.layout
    || above 1 (sub32 sb.raid_disks working_disks)

-- The state before the loop over the members: `conf` is zeros.
abbrev pub unattached : Superblock → Attached
unattached sb = record { descs = sb.disks; slots = no_slots md_sb_disks; working_disks = 0 }

-- The start after the loop over the members, which `abort` ended or not.
unfoldable pub after_attach : (ℕ → Bool) → ℕ → ℕ → Superblock → Attached → Bool → Option Started
after_attach ok n nb_dev sb a true = some (aborted (record sb { disks = a.descs }) n false none)
after_attach ok n nb_dev sb a false = do
  slots ← fill_failed sb.raid_disks a.slots a.descs
  let sb1 = record sb { disks = a.descs }
  (if refuses a.working_disks sb
      then some (aborted sb1 n false none)
      else start_threads ok n nb_dev a.working_disks slots sb1)

-- The start once `conf` is there.
unfoldable pub start_disks : (ℕ → Bool) → ℕ → (ℕ → Rdev) → List ℕ → ℕ → Superblock → Option Started
start_disks ok n rdevs ids nb_dev sb = do
  (a, abort) ← attach_all sb.raid_disks rdevs (unattached sb) ids
  after_attach ok n nb_dev sb a abort

-- `jraid5_run`, from the allocation `n` on, for the members `ids`.
unfoldable pub jraid5_run : (ℕ → Bool) → ℕ → (ℕ → Rdev) → List ℕ → ℕ → Superblock → Option Started
jraid5_run ok n rdevs ids nb_dev sb =
    if not (sb.level == 5) && not (sb.level == 4)
    then some (aborted sb n false none)
    else if not (ok n)
    then some (aborted sb (n + 1) false none)
    else if not (ok (suc n))
    then some (aborted sb (n + 2) false none)
    else start_disks ok (n + 2) rdevs ids nb_dev sb
