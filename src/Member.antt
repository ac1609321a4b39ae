-- ===== src/Member.antt =====
-- The member disks of src/jmd.c: `struct jmd_rdev`, the list `all_jraid_disks`, and the import of a
-- device. What the code calls of the kernel is the record Kernel, an argument of the functions. The
-- driver has one array, `g_jmddev`, whose fields are part of the state.
pub mod Import
mod Examples
use jraid.Common.{
  ℕ, suc, ◌+◌, ◌-◌, ◌^◌, Bool, true, false, ◌&&◌, ◌||◌, not, Option, none, some, List, [], ◌∷◌,
  ◌==◌, leb, if◌then◌else◌, update,
}
use jraid.Errno.{einval, enomem, ebusy, eexist}
use jraid.Superblock.{Superblock, md_sb_magic}

-- The kernel: device numbers, made and taken apart, the place of the lowest 0 in a word (`ffz`), the
-- checksum, and the answers to requests. `allocates n` answers the
-- allocation number `n`, `stale_page n` is what lies in the page that it gives; `has_super` is
-- `get_super`, `opens` is `blkdev_get_by_dev`, `readable` tells whether a read of the device
-- succeeds, and `i_size` is its size in bytes.
pub record Kernel : Type 0 where
  pub mkdev : ℕ → ℕ → ℕ
  pub major : ℕ → ℕ
  pub minor : ℕ → ℕ
  pub ffz : ℕ → ℕ
  pub csum_partial : Superblock → ℕ
  pub allocates : ℕ → Bool
  pub stale_page : ℕ → Superblock
  pub has_super : ℕ → Bool
  pub opens : ℕ → Bool
  pub readable : ℕ → Bool
  pub i_size : ℕ → ℕ
  pub get_seconds : ℕ → ℕ
  pub random_word : ℕ → ℕ

-- `struct jmd_rdev`: `bound` says that `jmddev` is not NULL, `opened` that `bdev` is not.
pub record Rdev : Type 0 where
  pub dev : ℕ
  pub old_dev : ℕ
  pub size : ℕ
  pub bound : Bool
  pub opened : Bool
  pub sb_page : Bool
  pub sb_loaded : Bool
  pub sb : Option Superblock
  pub sb_offset : ℕ
  pub faulty : Bool
  pub desc_nr : ℕ

-- The fields of `struct jmddev` that the code reads: `disks` is the list of the members.
pub record Jmddev : Type 0 where
  pub sb : Option Superblock
  pub nb_dev : ℕ
  pub disks : List ℕ
  pub chunk_sectors : ℕ

-- The state: the members by their addresses, of which `next` is the first free one, the list of all
-- of them, the array, the contents of the devices by sector, the count of the requests to the
-- kernel, and that of the pages for superblocks that were allocated and not given back.
pub record System : Type 0 where
  pub rdevs : ℕ → Rdev
  pub next : ℕ
  pub all_jraid_disks : List ℕ
  pub array : Jmddev
  pub content : ℕ → ℕ → Superblock
  pub calls : ℕ
  pub pages : ℕ

-- The `desc_nr` of -1, as a word.
abbrev pub no_desc : ℕ
no_desc = 2 ^ 32 - 1

-- A member of zeros, as `memset` leaves it.
abbrev pub zero_rdev : Rdev
zero_rdev = record {
  dev = 0;
  old_dev = 0;
  size = 0;
  bound = false;
  opened = false;
  sb_page = false;
  sb_loaded = false;
  sb = none;
  sb_offset = 0;
  faulty = false;
  desc_nr = 0;
}

-- The walk of `find_jrdev_all` and `find_jrdev` along a list.
unfoldable pub find_dev : (ℕ → Rdev) → ℕ → List ℕ → Option ℕ
find_dev rdevs dev [] = none
find_dev rdevs dev (id ∷ rest) = if (rdevs id).dev == dev then some id else find_dev rdevs dev rest

abbrev pub find_jrdev_all : System → ℕ → Option ℕ
find_jrdev_all s dev = find_dev s.rdevs dev s.all_jraid_disks

abbrev pub find_jrdev : System → ℕ → Option ℕ
find_jrdev s dev = find_dev s.rdevs dev s.array.disks

abbrev pub is_some {ℓ} : {A : Type ℓ} → Option A → Bool
is_some none = false
is_some (some a) = true

-- One more request to the kernel.
abbrev pub tick : System → System
tick s = record s { calls = suc s.calls }

-- MAX_MD_DEVS
abbrev pub max_md_devs : ℕ
max_md_devs = 256

-- `check_disk_sb`: 0, or an error number. A wrong checksum is only reported.
unfoldable pub check_disk_sb : Option Superblock → ℕ
check_disk_sb none = einval
check_disk_sb (some sb) =
    if not (sb.md_magic == md_sb_magic)
    then einval
    else if leb max_md_devs sb.md_minor
    then einval
    else 0

-- The member as `jmd_import_device` has it when the device is open.
abbrev pub fresh_rdev : Kernel → System → ℕ → Rdev
fresh_rdev k s newdev = record zero_rdev {
  dev = newdev;
  opened = true;
  sb_page = true;
  sb = some (k.stale_page s.calls);
  desc_nr = no_desc;
}

-- The member after the superblock was read: `sync_page_io` reads the page at the sector 0 behind
-- `sb_offset`, which is 0 here.
abbrev pub loaded_rdev : Kernel → System → ℕ → Superblock → Rdev
loaded_rdev k s newdev sb = record (fresh_rdev k s newdev) {
  sb_loaded = true;
  sb = some sb;
  old_dev = k.mkdev sb.this_disk.major sb.this_disk.minor;
  desc_nr = sb.this_disk.number;
}

-- The end of a successful import: the member goes on the list of all.
unfoldable pub add_rdev : System → Rdev → System
add_rdev s r = record s {
  rdevs = update s.rdevs s.next r;
  next = suc s.next;
  all_jraid_disks = s.next ∷ s.all_jraid_disks;
}

-- The import when the memory is there and the device is open.
unfoldable pub import_open : Kernel → System → ℕ → Bool → System × ℕ
import_open k s newdev on_disk =
    if on_disk
    then (if k.readable newdev
        then (let sb = s.content newdev 0 in
            let e = check_disk_sb (some sb) in
            if e == 0
            then (add_rdev (record s { pages = suc s.pages }) (loaded_rdev k s newdev sb), 0)
            else (s, e))
        else (s, einval))
    else (add_rdev (record s { pages = suc s.pages }) (fresh_rdev k s newdev), 0)

-- `jmd_import_device`: the state and the result, 0 or an error number. A page is given back on an
-- error exactly if `sb` was set, so not when `lock_jrdev` fails.
unfoldable pub jmd_import_device : Kernel → System → ℕ → Bool → System × ℕ
jmd_import_device k s newdev on_disk =
    if is_some (find_jrdev_all s newdev)
    then (s, eexist)
    else if not (k.allocates s.calls)
    then (tick s, enomem)
    else if k.has_super newdev
    then (tick s, ebusy)
    else if not (k.allocates (suc s.calls))
    then (tick (tick s), enomem)
    else if not (k.opens newdev)
    then (record (tick (tick s)) { pages = suc s.pages }, einval)
    else import_open k (tick (tick s)) newdev on_disk
