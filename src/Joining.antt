-- ===== src/Joining.antt =====
-- How a disk joins an array: `uuid_equal`, `export_jrdev` and `add_new_disk` of src/jmd.c. `none` is an
-- access outside an array of the program, or through NULL. A result is 0 or an error number.
pub mod Alike
pub mod Members
mod Examples
use mathlib.Core.Option
use jraid.Common.{
  ℕ, zero, suc, ◌+◌, ◌-◌, Bool, true, false, ◌&&◌, ◌||◌, not, Option, none, some, List, [], ◌∷◌,
  ◌==◌, ◌>>=◌, leb, ltb, if◌then◌else◌, update, wrap32, get_elem?, remove,
}
use jraid.Errno.{einval, ebusy}
use jraid.Superblock.{Disk, Superblock, md_disk_faulty, has_bit}
use jraid.Handle.{modify_at}
use jraid.Member.{Kernel, Rdev, System, find_jrdev_all, is_some, jmd_import_device}
use jraid.Array.{
  JmdDiskInfo, with_sb, bind_rdev_to_array, calc_dev_size, calc_dev_sboffset, sync_sbs,
}

-- `uuid_equal`, whose two ends both return 1.
unfoldable pub uuid_equal : Superblock → Superblock → Bool
uuid_equal a b =
    if a.set_uuid0 == b.set_uuid0
      && a.set_uuid1 == b.set_uuid1
      && a.set_uuid2 == b.set_uuid2
      && a.set_uuid3 == b.set_uuid3
    then true
    else true

-- `export_jrdev`
unfoldable pub export_jrdev : System → ℕ → System
export_jrdev s id = record s { all_jraid_disks = remove id s.all_jraid_disks; pages = s.pages - 1 }

abbrev pub first : List ℕ → Option ℕ
first [] = none
first (x ∷ xs) = some x

-- `add_new_disk` for an array without a superblock, once the device was imported and looked up: its
-- superblock is compared with that of the first member.
unfoldable pub bind_first : System → Option ℕ → Option (System × ℕ)
bind_first s none = some (s, einval)
bind_first s (some id) = if s.array.nb_dev == 0 then some (bind_rdev_to_array s id, 0) else (do
  id0 ← first s.array.disks
  sb0 ← (s.rdevs id0).sb
  sb ← (s.rdevs id).sb
  (if uuid_equal sb0 sb
      then some (bind_rdev_to_array s id, 0)
      else some (export_jrdev s id, einval)))

-- `add_new_disk` for an array without a superblock: the device has one.
unfoldable pub add_first : Kernel → System → ℕ → Option (System × ℕ)
add_first k s dev =
    let (s1, e) = jmd_import_device k s dev true in
    if not (e == 0) then some (s1, einval) else bind_first s1 (find_jrdev_all s1 dev)

-- The descriptor that `add_new_disk` writes.
abbrev pub written_disk : JmdDiskInfo → Disk → Disk
written_disk info d = record d {
  number = info.number;
  major = info.major;
  minor = info.minor;
  raid_disk = info.raid_disk;
  state = info.state;
}

-- The rest of `add_new_disk` for a device that was imported and bound: its sizes. `size` is an
-- `int` there.
unfoldable pub measure : Kernel → System → ℕ → ℕ → Superblock → System
measure k s id dev sb =
    let persistent = sb.not_persistent == 0 in
    let size = wrap32 (calc_dev_size k s dev persistent) in
    record s {
      rdevs =
          update s.rdevs id
            (record (s.rdevs id) { sb_offset = calc_dev_sboffset k s dev persistent });
      array = record (s.array) {
        sb = some (if sb.size == 0 || ltb size sb.size then record sb { size = size } else sb);
      };
    }

-- The `old_dev` and the `desc_nr` of the new member.
abbrev pub place_member : System → ℕ → ℕ → ℕ → System
place_member s id dev number = record s {
  rdevs = update s.rdevs id (record (s.rdevs id) { old_dev = dev; desc_nr = number });
}

-- `add_new_disk` for an array with a superblock, once the device was imported and looked up.
unfoldable pub bind_described :
    Kernel → JmdDiskInfo → ℕ → Superblock → System → Option ℕ → Option (System × ℕ)
bind_described k info dev sb s none = some (s, einval)
bind_described k info dev sb s (some id) =
    Option.map (λ t. (t, 0))
      (sync_sbs k (measure k (bind_rdev_to_array (place_member s id dev info.number) id) id dev sb))

-- `add_new_disk` for an array with a superblock: the descriptor is written first.
unfoldable pub add_described : Kernel → System → JmdDiskInfo → ℕ → Superblock → Option (System × ℕ)
add_described k s info dev sb = if leb sb.nr_disks info.number then some (s, einval) else (do
  _ ← get_elem? sb.disks info.number
  let sb1 = record sb { disks = modify_at info.number (written_disk info) sb.disks }
  let s1 = with_sb s sb1
  (if has_bit info.state md_disk_faulty
      then Option.map (λ t. (t, 0)) (sync_sbs k s1)
      else (let (s2, e) = jmd_import_device k s1 dev false in
          if not (e == 0)
          then some (s2, einval)
          else bind_described k info dev sb1 s2 (find_jrdev_all s2 dev))))

unfoldable pub add_disk :
    Kernel → System → JmdDiskInfo → ℕ → Option Superblock → Option (System × ℕ)
add_disk k s info dev none = add_first k s dev
add_disk k s info dev (some sb) = add_described k s info dev sb

-- `add_new_disk`
unfoldable pub add_new_disk : Kernel → System → JmdDiskInfo → Option (System × ℕ)
add_new_disk k s info =
    let dev = k.mkdev info.major info.minor in
    if is_some (find_jrdev_all s dev) then some (s, ebusy) else add_disk k s info dev s.array.sb
