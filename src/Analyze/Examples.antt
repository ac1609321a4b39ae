-- ===== src/Analyze/Examples.antt =====
-- The analysis of an array of three members, of which one has a new device number and one an old
-- copy, and its theorems there.
use mathlib.Core.Option
use jraid.Common.{
  ℕ, zero, suc, Option, ap, sym, some_inj, length, ◌+◌, ◌*◌, ◌/◌, ◌%◌, ◌^◌, ◌≡◌, ◌==◌, Bool, true,
  false, none, some, List, [], ◌∷◌, arith, refl, if◌then◌else◌, inr, map,
}
use jraid.Superblock.{Disk, Superblock, scan, distrust, remove_descriptor, md_sb_magic}
use jraid.Member.{Kernel, System, zero_rdev, find_dev, check_disk_sb}
use jraid.Array.{zero_superblock, zero_disks, alloc_array_sb}
use jraid.Analyze.{
  analyze_sbs, weigh, all_usable, own_sb, held, hold_copies, adopt, move_disk, relocate,
  relocate_all, has_desc_nr, cull_disk, cull_disks, cull, all_consistent, clashes, all_distinct,
  final_checks,
}
use jraid.Analyze.Stages.{Keeps}
use jraid.Analyze.Fresh.{IsFresh}
use jraid.Analyze.Sound.{IsSound, analyze_sbs-IsSound}
use jraid.Analyze.Room.{IsWide}
use jraid.Analyze.Total.{analyze_sbs-total}

abbrev zero_list : ℕ → List ℕ
zero_list zero = []
zero_list (suc n) = 0 ∷ zero_list n

abbrev kernel : Kernel
kernel = record {
  mkdev = λ major minor. major * 2 ^ 20 + minor;
  major = λ dev. dev / 2 ^ 20;
  minor = λ dev. dev % 2 ^ 20;
  ffz = λ x. 0;
  csum_partial = λ sb. sb.events_lo;
  allocates = λ n. true;
  stale_page = λ n. zero_superblock;
  has_super = λ dev. false;
  opens = λ dev. true;
  readable = λ dev. true;
  i_size = λ dev. 2 ^ 30;
  get_seconds = λ n. n;
  random_word = λ n. n;
}

-- The disk `n` is the device 8, n.
abbrev disk : ℕ → Disk
disk n = record { number = n; major = 8; minor = n; raid_disk = n; state = 6 }

-- A superblock of four disks, the last of which is no member.
abbrev super : ℕ → Superblock
super events = record zero_superblock {
  md_magic = md_sb_magic;
  nr_disks = 4;
  working_disks = 4;
  events_lo = events;
  sb_csum = events;
  disks = disk 0 ∷ disk 1 ∷ disk 2 ∷ disk 3 ∷ zero_disks 23;
}

-- The member 1 was the device 8, 1 and is 8, 17 now; the copy of member 2 is one update older.
abbrev three : System
three = record {
  rdevs = λ id. record zero_rdev {
    dev = 8 * 2 ^ 20 + (if id == 1 then 17 else id);
    old_dev = 8 * 2 ^ 20 + id;
    desc_nr = id;
    sb = some (super (if id == 2 then 6 else 7));
  };
  next = 3;
  all_jraid_disks = 0 ∷ 1 ∷ 2 ∷ [];
  array = record { sb = none; nb_dev = 3; disks = 0 ∷ 1 ∷ 2 ∷ []; chunk_sectors = 16384 };
  content = λ dev sector. zero_superblock;
  calls = 0;
  pages = 3;
}

-- Whether the array is refused, and what its superblock says then: its events, how many of its disks work, and the minor
-- numbers of its disks.
abbrev summary : Bool → Option Superblock → Bool × ℕ × ℕ × List ℕ
summary refused none = (refused, 0, 0, [])
summary refused (some sb) = (refused, sb.events_lo, sb.working_disks, map (λ d. d.minor) sb.disks)

-- The member 1 has its new number, and the disk that is no member is gone.
analyzes :
    Option.map {B = Bool × ℕ × ℕ × List ℕ}
      (λ (s, refused). summary refused s.array.sb)
      (analyze_sbs kernel three)
    ≡ some (false, 7, 3, 0 ∷ 17 ∷ 2 ∷ zero_list 24)
unfolding analyze_sbs weigh all_usable own_sb alloc_array_sb held hold_copies adopt move_disk
    relocate relocate_all has_desc_nr cull_disk cull_disks cull all_consistent clashes all_distinct
    final_checks scan distrust remove_descriptor find_dev check_disk_sb
analyzes = refl

accepts : (s' : System) × (analyze_sbs kernel three ≡ some (s', false))
unfolding analyze_sbs weigh all_usable own_sb alloc_array_sb held hold_copies adopt move_disk
    relocate relocate_all has_desc_nr cull_disk cull_disks cull all_consistent clashes all_distinct
    final_checks scan distrust remove_descriptor find_dev check_disk_sb
accepts = (_, refl)

-- Two members for one device are refused.
abbrev twice : System
twice = record three { rdevs = λ id. record (three.rdevs id) { dev = 7 } }

refuses_twice :
    Option.map {B = Bool} (λ (s, refused). refused) (analyze_sbs kernel twice) ≡ some true
unfolding analyze_sbs weigh all_usable own_sb alloc_array_sb held hold_copies adopt move_disk
    relocate relocate_all has_desc_nr cull_disk cull_disks cull all_consistent clashes all_distinct
    final_checks scan distrust remove_descriptor find_dev check_disk_sb
refuses_twice = refl

analyze_sbs-IsSound_example : Keeps three accepts.0 × IsSound kernel accepts.0 × IsFresh accepts.0
analyze_sbs-IsSound_example =
    analyze_sbs-IsSound kernel three accepts.0 (λ id. ground arith) accepts.1

three-IsWide : IsWide three
three-IsWide = record {
  copies = λ id copy m h. ap (λ t. length t.disks) (sym (some_inj h));
  numbers = λ id m. inr (ground (arith, m));
}

analyze_sbs-total_example :
    (s' : System) × (refused : Bool) × (analyze_sbs kernel three ≡ some (s', refused))
analyze_sbs-total_example = analyze_sbs-total kernel three (omega arith) three-IsWide
