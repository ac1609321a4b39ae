-- ===== src/Superblock.antt =====
-- The superblocks of src/jmd_p.h, the state bits of a disk in src/jmd_k.h, and how src/jmd.c weighs
-- the superblocks of the members of an array against each other. The checksum is made by the
-- kernel's `csum_partial`, which is an argument.
pub mod Events
mod Examples
use jraid.Common.{
  ℕ, ◌+◌, ◌-◌, ◌*◌, ◌/◌, ◌%◌, ◌^◌, Bool, true, false, ◌&&◌, ◌||◌, not, Option, none, some, List, [],
  ◌∷◌, ◌==◌, ltb, if◌then◌else◌, wrap32, add32, sub32, wrap64,
}

-- `struct jmd_disk`, without its reserved words.
pub record Disk : Type 0 where
  pub number : ℕ
  pub major : ℕ
  pub minor : ℕ
  pub raid_disk : ℕ
  pub state : ℕ

-- `struct jmd_superblock`
pub record Superblock : Type 0 where
  pub md_magic : ℕ
  pub major_version : ℕ
  pub minor_version : ℕ
  pub patch_version : ℕ
  pub gvalid_words : ℕ
  pub set_uuid0 : ℕ
  pub ctime : ℕ
  pub level : ℕ
  pub size : ℕ
  pub nr_disks : ℕ
  pub raid_disks : ℕ
  pub md_minor : ℕ
  pub not_persistent : ℕ
  pub set_uuid1 : ℕ
  pub set_uuid2 : ℕ
  pub set_uuid3 : ℕ
  pub utime : ℕ
  pub state : ℕ
  pub active_disks : ℕ
  pub working_disks : ℕ
  pub failed_disks : ℕ
  pub spare_disks : ℕ
  pub sb_csum : ℕ
  pub events_lo : ℕ
  pub events_hi : ℕ
  pub layout : ℕ
  pub chunk_size : ℕ
  pub root_pv : ℕ
  pub root_block : ℕ
  pub disks : List Disk
  pub this_disk : Disk

-- MD_DISK_FAULTY, MD_DISK_ACTIVE, MD_DISK_SYNC and MD_DISK_REMOVED, as `1 << n`.
abbrev pub md_disk_faulty : ℕ
md_disk_faulty = 1

abbrev pub md_disk_active : ℕ
md_disk_active = 2

abbrev pub md_disk_sync : ℕ
md_disk_sync = 4

abbrev pub md_disk_removed : ℕ
md_disk_removed = 8

-- `state & mask`, for a mask of one bit.
abbrev pub has_bit : ℕ → ℕ → Bool
has_bit state mask = state / mask % 2 == 1

abbrev pub disk_faulty : Disk → Bool
disk_faulty d = has_bit d.state md_disk_faulty

abbrev pub disk_active : Disk → Bool
disk_active d = has_bit d.state md_disk_active

abbrev pub disk_sync : Disk → Bool
disk_sync d = has_bit d.state md_disk_sync

abbrev pub disk_removed : Disk → Bool
disk_removed d = has_bit d.state md_disk_removed

abbrev pub disk_spare : Disk → Bool
disk_spare d = not (disk_sync d) && not (disk_active d) && not (disk_faulty d)

-- `state |= mask` and `state &= ~mask`, for a mask of one bit.
abbrev pub with_bit : ℕ → ℕ → ℕ
with_bit state mask = if has_bit state mask then state else state + mask

abbrev pub without_bit : ℕ → ℕ → ℕ
without_bit state mask = if has_bit state mask then state - mask else state

abbrev pub mark_disk_active : Disk → Disk
mark_disk_active d = record d { state = with_bit d.state md_disk_active }

abbrev pub mark_disk_sync : Disk → Disk
mark_disk_sync d = record d { state = with_bit d.state md_disk_sync }

abbrev pub mark_disk_nonsync : Disk → Disk
mark_disk_nonsync d = record d { state = without_bit d.state md_disk_sync }

abbrev pub mark_disk_removed : Disk → Disk
mark_disk_removed d = record d { state = md_disk_faulty + md_disk_removed }

-- `remove_descriptor`: the descriptor, and the counts of the superblock without it.
unfoldable pub remove_descriptor : Disk → Superblock → Disk × Superblock
remove_descriptor d sb =
    let sb' =
      (if disk_active d
        then record sb { working_disks = sub32 sb.working_disks 1 }
        else if disk_spare d
        then record sb {
          spare_disks = sub32 sb.spare_disks 1;
          working_disks = sub32 sb.working_disks 1;
        }
        else record sb { failed_disks = sub32 sb.failed_disks 1 }) in
    (
      mark_disk_removed (record d { major = 0; minor = 0 }),
      record sb' { nr_disks = sub32 sb'.nr_disks 1 },
    )

-- `1 << MD_SB_CLEAN`, a bit of the superblock's `state`.
abbrev pub md_sb_clean : ℕ
md_sb_clean = 1

-- MD_SB_DISKS
abbrev pub md_sb_disks : ℕ
md_sb_disks = 27

-- MD_SB_MAGIC
abbrev pub md_sb_magic : ℕ
md_sb_magic = 0xa92b4efc

-- `jmd_event`
abbrev pub jmd_event : Superblock → ℕ
jmd_event sb = wrap64 (sb.events_hi * 2 ^ 32) + sb.events_lo

-- `calc_sb_csum`: the checksum is made with 0 in its own field.
abbrev pub calc_sb_csum : (Superblock → ℕ) → Superblock → ℕ
calc_sb_csum csum_partial sb = wrap32 (csum_partial (record sb { sb_csum = 0 }))

-- What `analyze_sbs` does to a member whose checksum is wrong: its event counter goes back by one.
unfoldable pub distrust : (Superblock → ℕ) → Superblock → Superblock
distrust csum_partial sb =
    if calc_sb_csum csum_partial sb == sb.sb_csum
    then sb
    else if sb.events_lo == 0 && sb.events_hi == 0
    then sb
    else record sb {
      events_lo = sub32 sb.events_lo 1;
      events_hi = if sb.events_lo == 0 then sub32 sb.events_hi 1 else sb.events_hi;
    }

-- The members after the loop of `analyze_sbs` that looks for the freshest one, that one, and
-- whether two counters differed.
pub record Scan : Type 0 where
  pub members : List Superblock
  pub freshest : Option Superblock
  pub out_of_date : Bool

unfoldable pub scan : (Superblock → ℕ) → Option Superblock → List Superblock → Scan
scan csum_partial freshest [] = record { members = []; freshest = freshest; out_of_date = false }
scan csum_partial none (sb ∷ sbs) =
    let sb' = distrust csum_partial sb in
    let rest = scan csum_partial (some sb') sbs in record rest { members = sb' ∷ rest.members }
scan csum_partial (some f) (sb ∷ sbs) =
    let sb' = distrust csum_partial sb in
    let newer = ltb (jmd_event f) (jmd_event sb') in
    let rest = scan csum_partial (some (if newer then sb' else f)) sbs in
    record rest {
      members = sb' ∷ rest.members;
      out_of_date = not (jmd_event sb' == jmd_event f) || rest.out_of_date;
    }
