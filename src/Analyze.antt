-- ===== src/Analyze.antt =====
-- How src/jmd.c weighs the superblocks of an array before it starts: `analyze_sbs`, cut at its loops.
-- `none` is an access outside an array of the program, or through NULL.
pub mod Members
pub mod Stages
pub mod Fresh
pub mod Settle
pub mod Checks
pub mod Sound
pub mod Room
pub mod Total
mod Examples
use jraid.Common.{
  ℕ, suc, ◌-◌, ◌^◌, Bool, true, false, ◌&&◌, ◌||◌, not, Option, none, some, List, [], ◌∷◌, ◌==◌,
  ◌>>=◌, ltb, if◌then◌else◌, update, sub64, get_elem?,
}
use jraid.Superblock.{Disk, Superblock, disk_faulty, remove_descriptor, jmd_event, Scan, scan}
use jraid.Handle.{modify_at}
use jraid.Member.{Kernel, Rdev, System, no_desc, find_jrdev, is_some, check_disk_sb}
use jraid.Array.{with_sb, alloc_array_sb}

-- What a stage of the analysis comes to: the state, and whether it went to `abort`.
abbrev pub Stage : Type 0
Stage = Option (System × Bool)

-- The next stage, unless this one went to `abort`.
abbrev pub after : Stage → (System → Stage) → Stage
after none f = none
after (some (s, true)) f = some (s, true)
after (some (s, false)) f = f s

-- The first loop: a member that is faulty, has no copy, or a copy that `check_disk_sb` refuses.
abbrev pub is_usable : Rdev → Bool
is_usable r = not r.faulty && is_some r.sb && check_disk_sb r.sb == 0

unfoldable pub all_usable : (ℕ → Rdev) → List ℕ → Bool
all_usable rdevs [] = true
all_usable rdevs (id ∷ ids) = is_usable (rdevs id) && all_usable rdevs ids

-- A superblock for the array, if it has none.
unfoldable pub own_sb : Kernel → System → Stage
unfolding alloc_array_sb
own_sb k s =
    if is_some s.array.sb
    then some (s, false)
    else (let (s1, e) = alloc_array_sb k s in some (s1, not (e == 0)))

-- The copies that the members hold, and the members with these copies.
unfoldable pub held : (ℕ → Rdev) → List ℕ → Option (List Superblock)
held rdevs [] = some []
held rdevs (id ∷ ids) = do sb ← (rdevs id).sb; sbs ← held rdevs ids; some (sb ∷ sbs)

unfoldable pub hold_copies : (ℕ → Rdev) → List ℕ → List Superblock → ℕ → Rdev
hold_copies rdevs (id ∷ ids) (sb ∷ sbs) =
    hold_copies (update rdevs id (record (rdevs id) { sb = some sb })) ids sbs
hold_copies rdevs ids sbs = rdevs

-- The loop that looks for the freshest member, and the copy of its superblock to that of the array.
unfoldable pub adopt : Kernel → System → Stage
adopt k s = do
  sbs ← held s.rdevs s.array.disks
  let found : Scan = scan k.csum_partial none sbs
  sb ← found.freshest
  some (with_sb (record s { rdevs = hold_copies s.rdevs s.array.disks found.members }) sb, false)

abbrev pub readdress : Kernel → ℕ → Disk → Disk
readdress k dev d = record d { major = k.major dev; minor = k.minor dev }

-- A member whose device has another number than before: its descriptor must have the old number, and
-- gets the new one, in the array's superblock and in its own.
unfoldable pub move_disk : Kernel → System → ℕ → Superblock → Superblock → Stage
move_disk k s id copy sb =
    let r = s.rdevs id in
    if r.desc_nr == no_desc
    then some (s, true)
    else get_elem? sb.disks r.desc_nr >>= λ desc.
        (if not (r.old_dev == k.mkdev desc.major desc.minor)
          then some (s, true)
          else some (
            with_sb
                (record s {
                  rdevs = update s.rdevs id (record r {
                    sb = some (record copy { this_disk = readdress k r.dev copy.this_disk });
                  });
                })
                (record sb { disks = modify_at r.desc_nr (readdress k r.dev) sb.disks }),
            false,
          ))

-- The round of that loop for a member: it is moved if its copy is the latest, or the last but one.
unfoldable pub relocate : Kernel → System → ℕ → Stage
relocate k s id = if (s.rdevs id).faulty then some (s, true) else (do
  copy ← (s.rdevs id).sb
  sb ← s.array.sb
  (if not ((s.rdevs id).dev == (s.rdevs id).old_dev)
        && (jmd_event copy == jmd_event sb || jmd_event copy == sub64 (jmd_event sb) 1)
      then move_disk k s id copy sb
      else some (s, false)))

unfoldable pub relocate_all : Kernel → System → List ℕ → Stage
relocate_all k s [] = some (s, false)
relocate_all k s (id ∷ ids) = after (relocate k s id) (λ s1. relocate_all k s1 ids)

-- Whether a member has this descriptor.
unfoldable pub has_desc_nr : (ℕ → Rdev) → List ℕ → ℕ → Bool
has_desc_nr rdevs [] nr = false
has_desc_nr rdevs (id ∷ ids) nr = (rdevs id).desc_nr == nr || has_desc_nr rdevs ids nr

-- The descriptor is of no device.
abbrev pub is_vacant : Kernel → Disk → Bool
is_vacant k d = k.mkdev d.major d.minor == k.mkdev 0 0

-- A descriptor is removed if it is of a faulty disk, or no member has it: `found` says that one has.
-- One of no device is left alone, but a faulty one that a member has.
unfoldable pub cull_disk : Kernel → Bool → Disk → Superblock → Disk × Superblock
cull_disk k found d sb =
    if disk_faulty d
    then (if not found && is_vacant k d then (d, sb) else remove_descriptor d sb)
    else if is_vacant k d || found
    then (d, sb)
    else remove_descriptor d sb

-- The loop over the descriptors: those left, and the counts.
unfoldable pub cull_disks : Kernel → (ℕ → Bool) → List Disk → Superblock → List Disk × Superblock
cull_disks k found [] sb = ([], sb)
cull_disks k found (d ∷ ds) sb =
    let (d', sb1) = cull_disk k (found d.number) d sb in
    let (ds', sb2) = cull_disks k found ds sb1 in (d' ∷ ds', sb2)

unfoldable pub cull : Kernel → System → Stage
cull k s = do
  sb ← s.array.sb
  let (ds, sb') = cull_disks k (has_desc_nr s.rdevs s.array.disks) sb.disks sb
  some (with_sb s (record sb' { disks = ds }), false)

-- A descriptor that is left must be of a member, and not faulty.
abbrev pub is_consistent : Kernel → System → Disk → Bool
is_consistent k s d =
    is_vacant k d || not (disk_faulty d) && is_some (find_jrdev s (k.mkdev d.major d.minor))

unfoldable pub all_consistent : Kernel → System → List Disk → Bool
all_consistent k s [] = true
all_consistent k s (d ∷ ds) = is_consistent k s d && all_consistent k s ds

-- Another member has the descriptor, or the device, of this one.
unfoldable pub clashes : (ℕ → Rdev) → ℕ → List ℕ → Bool
clashes rdevs id [] = false
clashes rdevs id (other ∷ ids) =
    not (other == id)
      && ((rdevs other).desc_nr == (rdevs id).desc_nr || (rdevs other).dev == (rdevs id).dev)
    || clashes rdevs id ids

-- The loop over the members that looks for clashes with the members `all`.
unfoldable pub all_distinct : (ℕ → Rdev) → List ℕ → List ℕ → Bool
all_distinct rdevs all [] = true
all_distinct rdevs all (id ∷ ids) =
    not ((rdevs id).desc_nr == no_desc) && not (clashes rdevs id all) && all_distinct rdevs all ids

-- MD_MAJOR_VERSION is 0, MD_MINOR_VERSION 90.
abbrev pub is_supported : Superblock → Bool
is_supported sb = sb.major_version == 0 && not (ltb 90 sb.minor_version)

-- The checks after the last loop that changes something.
abbrev pub passes : Kernel → System → Superblock → Bool
passes k s sb =
    all_consistent k s sb.disks
    && all_distinct s.rdevs s.array.disks s.array.disks
    && is_supported sb

unfoldable pub final_checks : Kernel → System → Stage
final_checks k s = do sb ← s.array.sb; some (s, not (passes k s sb))

-- `analyze_sbs`, from the freshest member on.
unfoldable pub weigh : Kernel → System → Stage
weigh k s = after (adopt k s) (λ s1.
    after (relocate_all k s1 s1.array.disks) (λ s2. after (cull k s2) (λ s3. final_checks k s3)))

-- `analyze_sbs`: the state, and whether the result is 1.
unfoldable pub analyze_sbs : Kernel → System → Stage
analyze_sbs k s =
    if all_usable s.rdevs s.array.disks
    then after (own_sb k s) (λ s1. weigh k s1)
    else some (s, true)
