-- ===== src/Array/Examples.antt =====
-- `sync_sbs` on an array of two members, and its theorem there.
use mathlib.Core.Option
use mathlib.Core.Option.{Option}
use jraid.Common.{
  ◌%◌, ℕ, ◌+◌, ◌*◌, ◌^◌, ◌<◌, ◌≡◌, ◌==◌, true, false, none, some, [], ◌∷◌, arith, refl, occ, subst,
  sym, ◌/◌,
}
use jraid.Geometry.{Mapping, compute_sector}
use jraid.Superblock.{Superblock, scan, md_sb_magic}
use jraid.Member.{Kernel, System, zero_rdev, Jmddev}
use jraid.Array.{
  zero_superblock, jmddev_size, sync_sbs, sync_list, sync_member, put_copy, set_this_disk,
  descriptor,
}
use jraid.Array.Sizes.{jmddev_size-within}
use jraid.Array.Total.{HasPages, sync_sbs-copies}
use jraid.Array.Sync.{InSync, copies}

abbrev kernel : Kernel
kernel = record {
  mkdev = λ major minor. major * 2 ^ 20 + minor;
  major = λ dev. dev / 2 ^ 20;
  minor = λ dev. dev % 2 ^ 20;
  ffz = λ x. 0;
  csum_partial = λ sb. sb.events_lo + sb.nr_disks;
  allocates = λ n. true;
  stale_page = λ n. zero_superblock;
  has_super = λ dev. false;
  opens = λ dev. true;
  readable = λ dev. true;
  i_size = λ dev. 2 ^ 30;
  get_seconds = λ n. n;
  random_word = λ n. n;
}

abbrev super : Superblock
super = record zero_superblock { md_magic = md_sb_magic; nr_disks = 2; events_lo = 5 }

-- The members 0 and 1, of which the second is faulty, with an old copy each.
abbrev two : System
two = record {
  rdevs = λ id. record zero_rdev { dev = 100 + id; faulty = id == 1; sb = some zero_superblock };
  next = 2;
  all_jraid_disks = 0 ∷ 1 ∷ [];
  array = record { sb = some super; nb_dev = 2; disks = 0 ∷ 1 ∷ []; chunk_sectors = 16384 };
  content = λ dev sector. zero_superblock;
  calls = 0;
  pages = 2;
}

-- The checksum of the first copy is made, and the second member stays as it is.
syncs :
    Option.map {B = Option Superblock × Option Superblock}
      (λ s. ((s.rdevs 0).sb, (s.rdevs 1).sb))
      (sync_sbs kernel two)
    ≡ some (some (record super { sb_csum = 7 }), some zero_superblock)
unfolding sync_sbs sync_list sync_member put_copy set_this_disk descriptor
syncs = refl

two-HasPages : HasPages two
two-HasPages id h e = cc

sync_sbs-copies_example :
    (s' : System) × (sync_sbs kernel two ≡ some s')
    × ((id : ℕ) → 0 < occ id (0 ∷ 1 ∷ []) → InSync kernel super (s'.rdevs id))
    × ((id : ℕ) → occ id (0 ∷ 1 ∷ []) ≡ 0 → s'.rdevs id ≡ two.rdevs id)
    × (s'.array ≡ two.array)
    × ((scan kernel.csum_partial none (copies s'.rdevs (0 ∷ 1 ∷ []))).members
        ≡ copies s'.rdevs (0 ∷ 1 ∷ []))
    × ((scan kernel.csum_partial none (copies s'.rdevs (0 ∷ 1 ∷ []))).out_of_date ≡ false)
sync_sbs-copies_example = sync_sbs-copies kernel two super refl two-HasPages

-- An array of four disks of 2^20 sectors.
abbrev four : Jmddev
four = record {
  sb = some (record zero_superblock { size = 2 ^ 20 });
  nb_dev = 4;
  disks = [];
  chunk_sectors = 32 * 1024 / 2;
}

capacity_of_four : jmddev_size four 5 ≡ 2 ^ 21
unfolding jmddev_size
capacity_of_four = refl

jmddev_size-within_example :
    (m : Mapping) × (compute_sector
        (record { chunk_size = 32768; level = 5; algorithm = 2; raid_disks = 4 })
        2000000
        4
        3
        0
      ≡ some m)
    × (m.dd_idx < 4)
    × (m.new_sector < 2 ^ 20)
jmddev_size-within_example =
    jmddev_size-within four (record zero_superblock { size = 2 ^ 20 }) 5 2 4 2000000 0 refl refl
      (omega arith) (omega arith) (omega arith) (omega arith)
      (subst (λ k. 2000000 < k) (sym capacity_of_four) (omega arith))
