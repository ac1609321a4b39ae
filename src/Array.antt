-- ===== src/Array.antt =====
-- How src/jmd.c puts an array together: the superblock of the array, its members, their sizes, and
-- the copies of the superblock that the members hold. `none` is an access outside an array of the
-- program, or through NULL. A result is 0 or an error number.
pub mod Sync
pub mod Total
pub mod Sizes
mod Examples
use Prim.Native.Nat.{bit_and}
use mathlib.Core.Option
use jraid.Common.{
  ℕ, zero, suc, ◌+◌, ◌-◌, ◌*◌, ◌/◌, ◌%◌, ◌^◌, Bool, true, false, ◌&&◌, ◌||◌, not, Option, none,
  some, List, [], ◌∷◌, ◌==◌, ◌>>=◌, leb, ltb, if◌then◌else◌, update, add32, sub32, sub64, wrap32,
  wrap64, mul64, get_elem?, remove,
}
use jraid.Errno.{einval, enomem, ebusy}
use jraid.Superblock.{
  Disk, Superblock, calc_sb_csum, md_sb_magic, md_sb_disks, md_disk_faulty, has_bit,
}
use jraid.Geometry.{sign_extend}
use jraid.Handle.{modify_at}
use jraid.Member.{
  Kernel, Rdev, Jmddev, System, find_dev, find_jrdev_all, find_jrdev, is_some, tick,
  jmd_import_device,
}

-- The fields of `struct jmd_array_info` that `set_array_info` reads.
pub record JmdArrayInfo : Type 0 where
  pub level : ℕ
  pub size : ℕ
  pub nr_disks : ℕ
  pub raid_disks : ℕ
  pub md_minor : ℕ
  pub not_persistent : ℕ
  pub state : ℕ
  pub active_disks : ℕ
  pub working_disks : ℕ
  pub failed_disks : ℕ
  pub spare_disks : ℕ
  pub layout : ℕ

-- `array_info_init`. `add_store` puts the number of disks in afterwards.
abbrev pub array_info_init : JmdArrayInfo
array_info_init = record {
  level = 5;
  size = 0;
  nr_disks = 3;
  raid_disks = 3;
  md_minor = 0;
  not_persistent = 0;
  state = 0;
  active_disks = 0;
  working_disks = 0;
  failed_disks = 0;
  spare_disks = 0;
  layout = 0;
}

-- `struct jmd_disk_info`
pub record JmdDiskInfo : Type 0 where
  pub number : ℕ
  pub major : ℕ
  pub minor : ℕ
  pub raid_disk : ℕ
  pub state : ℕ

abbrev pub zero_disk : Disk
zero_disk = record { number = 0; major = 0; minor = 0; raid_disk = 0; state = 0 }

abbrev pub zero_disks : ℕ → List Disk
zero_disks zero = []
zero_disks (suc n) = zero_disk ∷ zero_disks n

-- The superblock as `kzalloc` gives it.
abbrev pub zero_superblock : Superblock
zero_superblock = record {
  md_magic = 0;
  major_version = 0;
  minor_version = 0;
  patch_version = 0;
  gvalid_words = 0;
  set_uuid0 = 0;
  ctime = 0;
  level = 0;
  size = 0;
  nr_disks = 0;
  raid_disks = 0;
  md_minor = 0;
  not_persistent = 0;
  set_uuid1 = 0;
  set_uuid2 = 0;
  set_uuid3 = 0;
  utime = 0;
  state = 0;
  active_disks = 0;
  working_disks = 0;
  failed_disks = 0;
  spare_disks = 0;
  sb_csum = 0;
  events_lo = 0;
  events_hi = 0;
  layout = 0;
  chunk_size = 0;
  root_pv = 0;
  root_block = 0;
  disks = zero_disks 27;
  this_disk = zero_disk;
}

abbrev pub with_sb : System → Superblock → System
with_sb s sb = record s { array = record (s.array) { sb = some sb } }

-- `alloc_array_sb`: a superblock that is there stays, with a message.
unfoldable pub alloc_array_sb : Kernel → System → System × ℕ
alloc_array_sb k s =
    if is_some s.array.sb
    then (s, 0)
    else if k.allocates s.calls
    then (with_sb (tick s) zero_superblock, 0)
    else (tick s, enomem)

-- The fields that `set_array_info` writes. MD_MAJOR_VERSION and MD_PATCHLEVEL_VERSION are 0.
abbrev pub describe : Kernel → ℕ → JmdArrayInfo → Superblock → Superblock
describe k calls info sb = record sb {
  size = info.size;
  chunk_size = 32 * 1024;
  level = info.level;
  layout = info.layout;
  nr_disks = info.nr_disks;
  raid_disks = info.raid_disks;
  md_minor = info.md_minor;
  not_persistent = info.not_persistent;
  md_magic = md_sb_magic;
  ctime = k.get_seconds calls;
  state = info.state;
  active_disks = info.active_disks;
  working_disks = info.working_disks;
  failed_disks = info.failed_disks;
  spare_disks = info.spare_disks;
  major_version = 0;
  patch_version = 0;
  set_uuid0 = k.random_word calls;
  set_uuid1 = k.random_word (calls + 1);
  set_uuid2 = k.random_word (calls + 2);
  set_uuid3 = k.random_word (calls + 3);
}

-- `set_array_info`
unfoldable pub set_array_info : Kernel → System → JmdArrayInfo → System × ℕ
unfolding alloc_array_sb
set_array_info k s info =
    let (s1, e) = alloc_array_sb k s in
    if not (e == 0) then (s1, enomem) else elim s1.array.sb [
      | none ↦ (s1, enomem)
      | some sb ↦ (
        record s1 {
          calls = s1.calls + 4;
          array = record (s1.array) {
            sb = some (describe k s1.calls info sb);
            chunk_sectors = 32 * 1024 / 2;
          };
        },
        0,
      )
    ]

-- `jmddev_size`. The mask takes `chunk_sectors`, a power of two, in 64 bits.
unfoldable pub jmddev_size : Jmddev → ℕ → ℕ
jmddev_size a raid_disks = elim a.sb [
  | none ↦ 0
  | some sb ↦
      mul64 (bit_and (sb.size / 2) (2 ^ 64 - 1 - sub64 a.chunk_sectors 1))
        (sign_extend (sub32 raid_disks 1))
]

-- `bind_rdev_to_array`. (`match_dev_unit` always gives NULL.)
unfoldable pub bind_rdev_to_array : System → ℕ → System
bind_rdev_to_array s id = if (s.rdevs id).bound then s else record s {
  rdevs = update s.rdevs id (record (s.rdevs id) { bound = true });
  array = record (s.array) { disks = id ∷ s.array.disks; nb_dev = suc s.array.nb_dev };
}

-- MD_NEW_SIZE_BLOCKS, in 64 bits: the last whole 128 sectors but one begin there.
abbrev pub new_size_blocks : ℕ → ℕ
new_size_blocks size = sub64 (size - size % 128) 128

-- `calc_dev_sboffset`; for a device that is no member it is -EINVAL, as a `sector_t`.
unfoldable pub calc_dev_sboffset : Kernel → System → ℕ → Bool → ℕ
calc_dev_sboffset k s dev persistent =
    if is_some (find_jrdev s dev)
    then (if persistent then new_size_blocks (k.i_size dev / 512) else k.i_size dev / 512)
    else 2 ^ 64 - einval

-- `size &= ~(chunk_size/512 - 1)`: the mask is an `unsigned int`, so its upper half is 0.
unfoldable pub chunk_mask : ℕ → ℕ → ℕ
chunk_mask chunk_size size =
    if chunk_size == 0 then size else bit_and size (2 ^ 32 - 1 - sub32 (chunk_size / 512) 1)

-- `calc_dev_size`
unfoldable pub calc_dev_size : Kernel → System → ℕ → Bool → ℕ
unfolding calc_dev_sboffset chunk_mask
calc_dev_size k s dev persistent =
    let size = calc_dev_sboffset k s dev persistent in
    elim s.array.sb [ none ↦ size | some sb ↦ chunk_mask sb.chunk_size size ]

-- The descriptor that `set_this_disk` finds for a device.
unfoldable pub descriptor : Kernel → ℕ → List Disk → Option Disk
descriptor k dev [] = none
descriptor k dev (d ∷ ds) = if k.mkdev d.major d.minor == dev then some d else descriptor k dev ds

-- `set_this_disk`, on the member's copy of the superblock; without a descriptor it is a message.
unfoldable pub set_this_disk : Superblock → Rdev → Option Disk → Superblock × ℕ
set_this_disk sb r none = (sb, r.desc_nr)
set_this_disk sb r (some d) = (record sb { this_disk = d }, d.number)

-- The copy with its checksum, in the member that held `old`; there must be a page for it.
unfoldable pub put_copy : Kernel → Superblock → Rdev → Option Superblock → Option Rdev
unfolding set_this_disk
put_copy k array_sb r none = none
put_copy k array_sb r (some old) =
    let (sb, nr) = set_this_disk array_sb r (descriptor k r.dev array_sb.disks) in
    some (record r {
      sb = some (record sb { sb_csum = calc_sb_csum k.csum_partial sb });
      desc_nr = nr;
    })

-- The round of `sync_sbs` for a member.
unfoldable pub sync_member : Kernel → Superblock → Rdev → Option Rdev
sync_member k array_sb r = if r.faulty then some r else put_copy k array_sb r r.sb

unfoldable pub sync_list : Kernel → Superblock → (ℕ → Rdev) → List ℕ → Option (ℕ → Rdev)
sync_list k array_sb rdevs [] = some rdevs
sync_list k array_sb rdevs (id ∷ rest) = do
  r ← sync_member k array_sb (rdevs id)
  sync_list k array_sb (update rdevs id r) rest

-- `sync_sbs`, which is called with a superblock only.
unfoldable pub sync_sbs : Kernel → System → Option System
sync_sbs k s = do
  sb ← s.array.sb
  rdevs ← sync_list k sb s.rdevs s.array.disks
  some (record s { rdevs = rdevs })
