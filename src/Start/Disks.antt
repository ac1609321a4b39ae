-- ===== src/Start/Disks.antt =====
-- The disks of an array that starts, in `jraid5_run` of src/jraid5.c: `struct disk_info`, and the
-- three loops over the members and the descriptors.
use jraid.Common.{
  ℕ, zero, suc, Bool, true, false, ◌&&◌, not, Option, none, some, List, [], ◌∷◌, ◌==◌, ◌>>=◌, ltb,
  if◌then◌else◌, add32, get_elem?,
}
use jraid.Handle.{modify_at}
use jraid.Superblock.{
  Disk, disk_active, disk_sync, disk_faulty, mark_disk_active, mark_disk_sync, mark_disk_nonsync,
}
use jraid.Member.{Rdev}

-- `struct disk_info`: `jrdev` is the address of the member.
pub record DiskInfo : Type 0 where
  pub dev : ℕ
  pub operational : Bool
  pub number : ℕ
  pub raid_disk : ℕ
  pub write_only : Bool
  pub spare : Bool
  pub used_slot : Bool
  pub jrdev : Option ℕ

-- A slot of zeros, and an array of them.
abbrev pub no_slot : DiskInfo
no_slot = record {
  dev = 0;
  operational = false;
  number = 0;
  raid_disk = 0;
  write_only = false;
  spare = false;
  used_slot = false;
  jrdev = none;
}

abbrev pub no_slots : ℕ → List DiskInfo
no_slots zero = []
no_slots (suc n) = no_slot ∷ no_slots n

-- The state of the loop over the members: the descriptors, the slots, the counter.
pub record Attached : Type 0 where
  pub descs : List Disk
  pub slots : List DiskInfo
  pub working_disks : ℕ

-- The slot of a member that works, and of one that is a spare.
abbrev pub working_slot : ℕ → Rdev → Disk → DiskInfo → DiskInfo
working_slot id r desc disk = record disk {
  number = desc.number;
  raid_disk = desc.raid_disk;
  dev = r.dev;
  operational = true;
  used_slot = true;
  jrdev = some id;
}

abbrev pub spare_slot : ℕ → Rdev → Disk → DiskInfo → DiskInfo
spare_slot id r desc disk = record disk {
  number = desc.number;
  raid_disk = desc.raid_disk;
  dev = r.dev;
  operational = false;
  write_only = false;
  spare = true;
  used_slot = true;
  jrdev = some id;
}

-- The round of the loop for a member with its descriptor `desc`; `true` is `goto abort`.
unfoldable pub attach_disk : ℕ → Attached → ℕ → Rdev → Disk → Option (Attached × Bool)
attach_disk raid_disks a id r desc =
    if disk_active desc
    then (if not (disk_sync desc)
        then some (a, true)
        else if ltb raid_disks desc.raid_disk
        then some (a, false)
        else do
          disk ← get_elem? a.slots desc.raid_disk
          (if disk.operational
              then some (a, false)
              else some (
                record a {
                  slots = modify_at desc.raid_disk (working_slot id r desc) a.slots;
                  working_disks = add32 a.working_disks 1;
                },
                false,
              )))
    else do
      disk ← get_elem? a.slots desc.raid_disk
      some (record a { slots = modify_at desc.raid_disk (spare_slot id r desc) a.slots }, false)

abbrev pub mark_working : Disk → Disk
mark_working desc = mark_disk_sync (mark_disk_active desc)

-- The round of the loop for a member: its descriptor is marked before it is looked at.
unfoldable pub attach_rdev : ℕ → Attached → ℕ → Rdev → Option (Attached × Bool)
attach_rdev raid_disks a id r = do
  desc ← get_elem? a.descs r.desc_nr
  attach_disk raid_disks (record a { descs = modify_at r.desc_nr mark_working a.descs }) id r
      (mark_working desc)

-- The loop over the members.
unfoldable pub attach_all : ℕ → (ℕ → Rdev) → Attached → List ℕ → Option (Attached × Bool)
attach_all raid_disks rdevs a [] = some (a, false)
attach_all raid_disks rdevs a (id ∷ rest) = do
  (a', abort) ← attach_rdev raid_disks a id (rdevs id)
  (if abort then some (a', true) else attach_all raid_disks rdevs a' rest)

-- The slot of a disk that failed.
abbrev pub failed_slot : Disk → DiskInfo → DiskInfo
failed_slot desc disk = record disk {
  number = desc.number;
  raid_disk = desc.raid_disk;
  dev = 0;
  operational = false;
  write_only = false;
  spare = false;
  used_slot = true;
}

-- The loop over the descriptors that gives the failed disks their slots.
unfoldable pub fill_failed : ℕ → List DiskInfo → List Disk → Option (List DiskInfo)
fill_failed raid_disks slots [] = some slots
fill_failed raid_disks slots (desc ∷ descs) =
    if disk_faulty desc && ltb desc.raid_disk raid_disks
    then (do
      disk ← get_elem? slots desc.raid_disk
      fill_failed raid_disks
          (if disk.used_slot then slots else modify_at desc.raid_disk (failed_slot desc) slots)
          descs)
    else fill_failed raid_disks slots descs

-- The inner loop that sets the sync bit of a descriptor, for the first `raid_disks` slots.
unfoldable pub sync_desc : ℕ → List DiskInfo → Disk → Option Disk
sync_desc zero slots desc = some desc
sync_desc (suc n) [] desc = none
sync_desc (suc n) (disk ∷ slots) desc =
    sync_desc n slots
      (if disk.operational && desc.number == disk.number then mark_disk_sync desc else desc)

-- The loop over the descriptors that sets their sync bits anew.
unfoldable pub sync_descs : ℕ → List DiskInfo → List Disk → Option (List Disk)
sync_descs raid_disks slots [] = some []
sync_descs raid_disks slots (desc ∷ descs) = do
  desc' ← sync_desc raid_disks slots (mark_disk_nonsync desc)
  rest ← sync_descs raid_disks slots descs
  some (desc' ∷ rest)
