-- ===== src/Run.antt =====
-- How src/jmd.c runs an array: the table of personalities, `device_size_calculation`, `do_jmd_run`
-- and `add_store`. `none` is an access outside an array of the program, or through NULL. There is one
-- array, so that the tables by `jmdidx` have one entry here.
pub mod Sizes
pub mod Chunk
pub mod Outcome
pub mod Complete
pub mod Ready
pub mod Written
pub mod Members
pub mod Keeping
pub mod Adding
mod Examples
use Prim.Native.Nat.{bit_and}
use mathlib.Core.Option
use jraid.Common.{
  ℕ, suc, ◌+◌, ◌-◌, ◌*◌, ◌/◌, ◌^◌, Bool, true, false, ◌&&◌, ◌||◌, not, Option, none, some, List, [],
  ◌∷◌, ◌==◌, ◌>>=◌, ltb, leb, if◌then◌else◌, update, sub32, wrap32,
}
use jraid.Errno.{einval, ebusy, enomem}
use jraid.Geometry.{sign_extend}
use jraid.Superblock.{Superblock, without_bit, md_sb_clean}
use jraid.Member.{Kernel, Rdev, System, is_some, tick}
use jraid.Array.{with_sb, calc_dev_size, array_info_init, set_array_info, jmddev_size, JmdDiskInfo}
use jraid.Joining.{add_new_disk}
use jraid.Start.{Started, above}
use jraid.Update.{jmd_update_sb}
use jraid.Analyze.{analyze_sbs}

-- The `run` of `struct jmd_personality`, as `jraid5_run` has it: the allocators and the number of the
-- next request, the members, the list of those in the array, `nb_dev` and the superblock.
abbrev pub Personality : Type 0
Personality = (ℕ → Bool) → ℕ → (ℕ → Rdev) → List ℕ → ℕ → Superblock → Option Started

-- The system with the table `pers` and what belongs to the array besides: `jmddev->pers`, by its
-- place in the table, what its `run` came to, and the sizes.
pub record Driver : Type 0 where
  pub system : System
  pub table : ℕ → Option Personality
  pub pers : Option ℕ
  pub started : Option Started
  pub jmd_size : ℕ
  pub jmd_maxreadahead : ℕ
  pub jmd_blocksizes : ℕ
  pub jmd_hardsect_sizes : ℕ
  pub nr_sects : ℕ
  pub param_chunk_size : ℕ
  pub param_personality : ℕ
  pub array_sectors : ℕ
  pub capacity : ℕ

-- MAX_PERSONALITY, and the place of RAID5.
abbrev pub max_personality : ℕ
max_personality = 7

abbrev pub raid5 : ℕ
raid5 = 4

-- `register_jmd_personality` and `unregister_jmd_personality`, which prints the name of an entry
-- that must be there.
unfoldable pub register_jmd_personality : Driver → ℕ → Personality → Driver × ℕ
register_jmd_personality d pnum p =
    if leb max_personality pnum
    then (d, einval)
    else if is_some (d.table pnum)
    then (d, ebusy)
    else (record d { table = update d.table pnum (some p) }, 0)

unfoldable pub unregister_jmd_personality : Driver → ℕ → Option (Driver × ℕ)
unregister_jmd_personality d pnum =
    if leb max_personality pnum
    then some (d, einval)
    else (do p ← d.table pnum; some (record d { table = update d.table pnum none }, 0))

-- A level below 0, as a word.
abbrev pub below_zero : ℕ → ℕ
below_zero n = 2 ^ 32 - n

-- `level_to_pers`, with MD_RESERVED for a level that is not known.
unfoldable pub level_to_pers : ℕ → ℕ
level_to_pers level =
    if level == below_zero 3
    then 6
    else if level == below_zero 2
    then 5
    else if level == below_zero 1
    then 1
    else if level == 0
    then 2
    else if level == 1
    then 3
    else if level == 4 || level == 5
    then raid5
    else 0

-- The size of a member, if it is in use and has none yet.
abbrev pub unsized : Rdev → Bool
unsized r = not r.faulty && r.size == 0

-- The loop of `device_size_calculation`: the state, and whether a device is smaller than a chunk.
unfoldable pub size_members : Kernel → Superblock → System → List ℕ → System × Bool
size_members k sb s [] = (s, false)
size_members k sb s (id ∷ ids) =
    let r = s.rdevs id in
    let size = calc_dev_size k s r.dev (sb.not_persistent == 0) in
    let s1 =
      (if unsized r
        then record s { rdevs = update s.rdevs id (record r { size = size }) }
        else s) in
    let rest = size_members k sb s1 ids in
    if unsized r && ltb size (sb.chunk_size / 512) then (s1, true) else rest

-- The loop of `zoned_jraid_size`: the members' sizes rounded to chunks, and their sum, an `int`.
unfoldable pub zone_members : ℕ → (ℕ → Rdev) → ℕ → List ℕ → (ℕ → Rdev) × ℕ
zone_members mask rdevs total [] = (rdevs, total)
zone_members mask rdevs total (id ∷ ids) =
    let size = bit_and (rdevs id).size mask in
    zone_members mask (update rdevs id (record (rdevs id) { size = size })) (wrap32 (total + size))
      ids

-- `zoned_jraid_size`, for an array with a superblock.
unfoldable pub zoned_jraid_size : Driver → Superblock → Driver
unfolding zone_members
zoned_jraid_size d sb =
    let s = d.system in
    let (rdevs, total) =
      zone_members (2 ^ 32 - 1 - sub32 (sb.chunk_size / 1024) 1) s.rdevs d.jmd_size s.array.disks in
    record d { system = record s { rdevs = rdevs }; jmd_size = total }

abbrev pub is_striped : ℕ → Bool
is_striped level = level == 0 || level == 4 || level == 5

-- The number of disks with data, for the levels that are known.
unfoldable pub data_disks : Superblock → Option ℕ
data_disks sb =
    if sb.level == below_zero 3
      || sb.level == below_zero 2
      || sb.level == below_zero 1
      || sb.level == 1
    then some 1
    else if sb.level == 0
    then some sb.raid_disks
    else if sb.level == 4 || sb.level == 5
    then some (sub32 sb.raid_disks 1)
    else none

-- The pages to read ahead: four chunks of each disk, but no less than 2 * 31 pages of each, where
-- the data is striped; MAX_READAHEAD else.
unfoldable pub readahead : Superblock → ℕ → ℕ
readahead sb disks =
    if is_striped sb.level
    then (let window = wrap32 (sb.chunk_size / 4096 * 4 * disks) in
        let least = wrap32 (disks * (254 / 8) * 2) in if ltb window least then least else window)
    else if sb.level == below_zero 3
    then 0
    else 31

-- The end of `device_size_calculation`, with its result.
unfoldable pub size_array : Driver → Superblock → Option ℕ → Driver × ℕ
size_array d sb none = (d, 1)
size_array d sb (some disks) = (
  record d {
    jmd_size = if d.jmd_size == 0 then wrap32 (sb.size * disks) else d.jmd_size;
    jmd_maxreadahead = readahead sb disks;
  },
  0,
)

-- `device_size_calculation`
unfoldable pub device_size_calculation : Kernel → Driver → Superblock → Driver × ℕ
unfolding size_members
device_size_calculation k d sb =
    let (s, short) = size_members k sb d.system d.system.array.disks in
    let d1 = record d { system = s } in
    let zoned = sb.level == below_zero 1 || sb.level == 0 in
    if short
    then (d1, einval)
    else size_array (if zoned then zoned_jraid_size d1 sb else d1) sb (data_disks sb)

-- `~chunk_size` as an `unsigned long`: `chunk_size` is an `int`.
abbrev pub flipped : ℕ → ℕ
flipped chunk_size =
    if ltb chunk_size (2 ^ 31) then 2 ^ 64 - 1 - chunk_size else 2 ^ 32 - 1 - chunk_size

-- `1 << n`, an `int`.
abbrev pub shifted_one : ℕ → ℕ
shifted_one n = if ltb n 32 then 2 ^ n else 0

-- The checks of the chunk size. The comparison with PAGE_SIZE is of two `unsigned long`.
unfoldable pub accepts_chunk : Kernel → ℕ → Bool
accepts_chunk k chunk_size =
    not (above (4096 * 1024) chunk_size)
    && shifted_one (k.ffz (flipped chunk_size)) == chunk_size
    && not (ltb chunk_size 4096)

-- The end of a run that succeeded: the superblock is no longer clean, and is written.
unfoldable pub finish_run : Kernel → Driver → Superblock → Option (Driver × ℕ)
finish_run k d sb = do
  (s, _) ←
      jmd_update_sb k (with_sb d.system (record sb { state = without_bit sb.state md_sb_clean }))
  some (record d { system = s; nr_sects = sign_extend (wrap32 (d.jmd_size * 2)) }, 0)

-- The array after its `run`.
abbrev pub after_run : Driver → ℕ → Started → Driver
after_run d pnum r = record d {
  system = record (with_sb d.system r.sb) { calls = r.next };
  pers = some pnum;
  started = some r;
  jmd_hardsect_sizes = 512;
  jmd_blocksizes = 1024;
}

-- The call of `run`, once the sizes are there.
unfoldable pub start_run : Kernel → Driver → ℕ → Personality → Superblock → Option (Driver × ℕ)
start_run k d pnum run sb = do
  r ← run k.allocates d.system.calls d.system.rdevs d.system.array.disks d.system.array.nb_dev sb
  (if r.result == 0
      then finish_run k (after_run d pnum r) r.sb
      else some (record (after_run d pnum r) { pers = none }, einval))

-- `do_jmd_run` with a personality for the level: the sizes, then the run.
unfoldable pub run_sized : Kernel → Driver → ℕ → Superblock → Personality → Option (Driver × ℕ)
run_sized k d pnum sb run =
    let (d1, e) = device_size_calculation k d sb in
    if e == 0 then start_run k d1 pnum run sb else some (d1, einval)

-- The checks of the personality after those of the chunk size.
unfoldable pub run_checked :
    Kernel → Driver → ℕ → Superblock → Option Personality → Option (Driver × ℕ)
run_checked k d pnum sb none = some (d, einval)
run_checked k d pnum sb (some run) = run_sized k d pnum sb run

-- `do_jmd_run` once the superblocks were analysed.
unfoldable pub run_analyzed : Kernel → Driver → Superblock → Option (Driver × ℕ)
run_analyzed k d sb =
    let pnum = level_to_pers sb.level in
    let d1 = record d { param_chunk_size = sb.chunk_size; param_personality = pnum } in
    if not (accepts_chunk k sb.chunk_size)
    then some (d1, einval)
    else if leb max_personality pnum
    then some (d1, einval)
    else if not (pnum == 3) && not (pnum == 1) && sb.chunk_size == 0
    then some (d1, einval)
    else run_checked k d1 pnum sb (d.table pnum)

-- `do_jmd_run`: the state, and the result.
unfoldable pub do_jmd_run : Kernel → Driver → Option (Driver × ℕ)
do_jmd_run k d =
    if d.system.array.nb_dev == 0
    then some (d, einval)
    else if is_some d.pers
    then some (d, ebusy)
    else analyze_sbs k d.system >>= λ (s, refused).
        (let d1 = record d { system = s; jmd_size = 0 } in
          if refused then some (d1, einval) else s.array.sb >>= λ sb. run_analyzed k d1 sb)

-- `add_store` once its memory is there, for the device that the name stands for: the array is
-- described if it has no member, the disk joins, and when it was the last the array runs. The
-- results of `set_array_info`, `add_new_disk` and `do_jmd_run` are not looked at.
unfoldable pub join_disk : Kernel → Driver → ℕ → ℕ → ℕ → ℕ → Option Driver
join_disk k d major minor total_num jrdev_num =
    let info = record array_info_init { nr_disks = total_num; raid_disks = total_num } in
    let s1 =
      (if d.system.array.nb_dev == 0 then (set_array_info k d.system info).0 else d.system) in
    do
      (s2, _) ← add_new_disk k s1 (record {
        number = jrdev_num;
        major = major;
        minor = minor;
        raid_disk = jrdev_num;
        state = 0;
      })
      (if s2.array.nb_dev == total_num
          then (let sectors = jmddev_size s2.array (wrap32 (total_num + 1)) in
              do_jmd_run k (record d { system = s2; array_sectors = sectors; capacity = sectors })
              >>= λ (d1, _). some d1)
          else some (record d { system = s2 }))

-- `add_store`: the state, and the result, 0 for the count that it returns. `device` is what
-- `blkdev_get_by_path` finds for the name; without one the error it gives is taken for an address.
unfoldable pub add_store : Kernel → Driver → Option (ℕ × ℕ) → ℕ → ℕ → Option (Driver × ℕ)
add_store k d device total_num jrdev_num =
    let calls = d.system.calls in
    let later = λ (s : System). record d { system = s } in
    if not (k.allocates calls)
    then some (later (tick d.system), enomem)
    else if not (k.allocates (suc calls))
    then some (later (tick (tick d.system)), enomem)
    else if not (k.allocates (suc (suc calls)))
    then some (later (tick (tick (tick d.system))), enomem)
    else device >>= λ (major, minor).
        join_disk k (later (tick (tick (tick d.system)))) major minor total_num jrdev_num >>= λ d1.
        some (d1, 0)
