-- ===== src/Update.antt =====
-- How the superblock of an array is written to its members: `write_disk_sb` and `jmd_update_sb` of
-- src/jmd.c. A result of `write_disk_sb` is a 32-bit word, so that -1 is 2^32 - 1. A write of a
-- member is taken to change its device at once.
pub mod Events
mod Examples
use jraid.Common.{
  ℕ, zero, suc, ◌+◌, ◌-◌, ◌^◌, Bool, true, false, ◌&&◌, ◌||◌, not, Option, none, some, List, [],
  ◌∷◌, ◌==◌, ◌>>=◌, if◌then◌else◌, add32,
}
use jraid.Errno.{enomem}
use jraid.Superblock.{Superblock, md_sb_magic}
use jraid.Member.{Kernel, Rdev, System, tick}
use jraid.Array.{with_sb, calc_dev_sboffset, calc_dev_size, sync_sbs}

abbrev pub minus : ℕ → ℕ
minus e = 2 ^ 32 - e

-- The checks of `write_disk_sb` before it looks at the sizes: the copy that it writes, if they pass.
unfoldable pub writable : Rdev → Option Superblock → Option Superblock
writable r none = none
writable r (some sb) =
    if r.faulty then none else if not (sb.md_magic == md_sb_magic) then none else some sb

-- The write itself: where the superblock goes must be what it was at the import, and so must the
-- size.
unfoldable pub submit_sb : Kernel → System → Rdev → Option Superblock → System × ℕ
submit_sb k s r none = (s, minus 1)
submit_sb k s r (some sb) =
    if not (r.sb_offset == calc_dev_sboffset k s r.dev true)
    then (s, 1)
    else if not (calc_dev_size k s r.dev true == r.size)
    then (s, 1)
    else (
      record s {
        content = λ dev sector.
            if dev == r.dev && sector == r.sb_offset then sb else s.content dev sector;
      },
      0,
    )

-- `write_disk_sb`, after the allocation of a bio and a page.
unfoldable pub write_disk_sb : Kernel → System → ℕ → System × ℕ
write_disk_sb k s id =
    if not (k.allocates s.calls)
    then (tick s, minus enomem)
    else if not (k.allocates (suc s.calls))
    then (tick (tick s), minus enomem)
    else submit_sb k (tick (tick s)) (s.rdevs id) (writable (s.rdevs id) (s.rdevs id).sb)

-- A faulty member is passed over.
unfoldable pub write_member : Kernel → System → ℕ → System × ℕ
write_member k s id = if (s.rdevs id).faulty then (s, 0) else write_disk_sb k s id

-- The loop of `jmd_update_sb` over the members: the state, and the sum of the results.
unfoldable pub write_sbs : Kernel → System → List ℕ → System × ℕ
write_sbs k s [] = (s, 0)
write_sbs k s (id ∷ ids) =
    let (s1, e) = write_member k s id in let (s2, err) = write_sbs k s1 ids in (s2, add32 e err)

-- The next event: the counter of two words goes up by one, and does not come back to 0.
unfoldable pub next_event : ℕ → Superblock → Superblock
next_event now sb =
    let lo = add32 sb.events_lo 1 in
    let hi = (if lo == 0 then add32 sb.events_hi 1 else sb.events_hi) in
    if lo == 0 && hi == 0
    then record sb { utime = now; events_lo = 2 ^ 32 - 1; events_hi = 2 ^ 32 - 1 }
    else record sb { utime = now; events_lo = lo; events_hi = hi }

-- A round of `jmd_update_sb`: the state, and the sum of the results, 0 without persistence.
unfoldable pub update_round : Kernel → System → Option (System × ℕ)
update_round k s = do
  sb ← s.array.sb
  let sb1 = next_event (k.get_seconds s.calls) sb
  s1 ← sync_sbs k (with_sb (tick s) sb1)
  some (if not (sb1.not_persistent == 0) then (s1, 0) else write_sbs k s1 s1.array.disks)

-- The rounds, at most `count` of them.
unfoldable pub update_rounds : Kernel → ℕ → System → Option (System × ℕ)
update_rounds k zero s = some (s, 0)
update_rounds k (suc count) s = do
  (s1, err) ← update_round k s
  (if err == 0 || count == 0 then some (s1, err) else update_rounds k count s1)

-- `jmd_update_sb`: the state and the last sum of results, which it does not tell its caller.
unfoldable pub jmd_update_sb : Kernel → System → Option (System × ℕ)
jmd_update_sb k s = update_rounds k 100 s
