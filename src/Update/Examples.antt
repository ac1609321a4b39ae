-- ===== src/Update/Examples.antt =====
-- An update of an array of two members, of which one is faulty, and its theorem there.
use mathlib.Core.Option
use Prim.Native.Nat.{min}
use jraid.Common.{
  ◌/◌, ◌%◌, ℕ, ◌+◌, ◌-◌, ◌*◌, ◌^◌, ◌≤◌, ◌≡◌, ◌⊎◌, ◌==◌, true, false, some, [], ◌∷◌, arith, refl,
}
use jraid.Superblock.{Superblock, md_sb_magic}
use jraid.Member.{Kernel, System, zero_rdev, find_dev}
use jraid.Array.{
  zero_superblock, sync_sbs, sync_list, sync_member, put_copy, set_this_disk, descriptor,
  calc_dev_sboffset, calc_dev_size, chunk_mask,
}
use jraid.Array.Total.{HasPages}
use jraid.Update.{
  jmd_update_sb, update_rounds, update_round, next_event, write_sbs, write_member, write_disk_sb,
  submit_sb, writable,
}
use jraid.Update.Events.{HasEvents, jmd_update_sb-HasEvents}

abbrev kernel : Kernel
kernel = record {
  mkdev = λ major minor. major * 2 ^ 20 + minor;
  major = λ dev. dev / 2 ^ 20;
  minor = λ dev. dev % 2 ^ 20;
  ffz = λ x. 0;
  csum_partial = λ sb. sb.events_lo + sb.nr_disks;
  allocates = λ n. true;
  stale_page = λ n. zero_superblock;
  has_super = λ dev. false;
  opens = λ dev. true;
  readable = λ dev. true;
  i_size = λ dev. 2 ^ 30;
  get_seconds = λ n. n;
  random_word = λ n. n;
}

-- The lower word of the counter is about to overflow.
abbrev super : Superblock
super = record zero_superblock {
  md_magic = md_sb_magic;
  nr_disks = 2;
  chunk_size = 32768;
  events_lo = 2 ^ 32 - 1;
}

-- The first member's superblock goes to the sector 2097024.
abbrev two : System
two = record {
  rdevs = λ id. record zero_rdev {
    dev = 100 + id;
    faulty = id == 1;
    sb = some zero_superblock;
    sb_offset = 2097024;
    size = 2097024;
  };
  next = 2;
  all_jraid_disks = 0 ∷ 1 ∷ [];
  array = record { sb = some super; nb_dev = 2; disks = 0 ∷ 1 ∷ []; chunk_sectors = 16384 };
  content = λ dev sector. zero_superblock;
  calls = 0;
  pages = 2;
}

-- The first round succeeds, and the disk has the new events.
updates :
    Option.map {B = ℕ × ℕ × ℕ}
      (λ (s, err). (err, (s.content 100 2097024).events_lo, (s.content 100 2097024).events_hi))
      (jmd_update_sb kernel two)
    ≡ some (0, 0, 1)
unfolding jmd_update_sb update_rounds update_round next_event write_sbs write_member write_disk_sb
    submit_sb writable sync_sbs sync_list sync_member put_copy set_this_disk descriptor
    calc_dev_sboffset calc_dev_size chunk_mask find_dev
updates = refl

two-HasPages : HasPages two
two-HasPages id h e = cc

jmd_update_sb-HasEvents_example :
    (s' : System) × (err : ℕ) × (jmd_update_sb kernel two ≡ some (s', err))
    × (rounds : ℕ) × (1 ≤ rounds)
    × (rounds ≤ 100)
    × ((err ≡ 0) ⊎ (rounds ≡ 100))
    × HasEvents kernel (0 ∷ 1 ∷ []) (min (2 ^ 32 - 1 + rounds) (2 ^ 64 - 1)) s'
jmd_update_sb-HasEvents_example =
    jmd_update_sb-HasEvents kernel two super refl (omega arith, omega arith) two-HasPages
