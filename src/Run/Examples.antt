-- ===== src/Run/Examples.antt =====
-- The run of an array of three members, and the theorems on it.
use jraid.Common.{
  Bool, List, Bool-cases, some_inj, none≢some, if-true, if-false, ◌↔◌, ◌⊎◌, inl, inr, sub32, Option,
  ==_iff, ◌≢◌, ◌>>=◌, occ, wrap32, true, false, none, some, [], ◌∷◌, ℕ, zero, suc, ◌+◌, ◌-◌, ◌*◌,
  ◌/◌, ◌%◌, ◌^◌, ◌<◌, ◌≤◌, ◌≡◌, ◌==◌, arith, refl, if◌then◌else◌, ap, sym, ◌∙◌, subst,
}
use jraid.Superblock.{Disk, Superblock, scan, distrust, md_sb_magic, md_sb_clean, without_bit}
use jraid.Member.{Kernel, System, zero_rdev, find_dev, check_disk_sb}
use jraid.Array.{
  zero_superblock, zero_disk, zero_disks, alloc_array_sb, with_sb, calc_dev_sboffset, calc_dev_size,
  chunk_mask,
}
use jraid.Geometry.{sign_extend}
use jraid.Array.Total.{HasPages}
use jraid.Update.Events.{jmd_update_sb-HasEvents}
use jraid.Grow.{grow_stripes}
use jraid.Grow.Ready.{grow_stripes-enough}
use jraid.Start.{
  DiskInfo, Raid, Started, jraid5_run, start_disks, attach_all, attach_rdev, attach_disk,
  after_attach, fill_failed, refuses, start_threads, finish_start, end_start, sync_descs, sync_desc,
  settled, new_cache, nr_stripes, no_slots, no_slot,
}
use jraid.Analyze.{
  analyze_sbs, weigh, all_usable, own_sb, held, hold_copies, adopt, relocate, relocate_all,
  has_desc_nr, cull_disk, cull_disks, cull, all_consistent, clashes, all_distinct, final_checks,
}
use jraid.Run.{
  Driver, raid5, after_run, do_jmd_run, finish_run, accepts_chunk, level_to_pers,
  device_size_calculation, size_members, size_array, data_disks, readahead,
}
use native.Mathlib.Nat.{pow-le-pow_right, zero-mod}
use native.Mathlib.Numerals.{towards_suc}
use jraid.Run.Outcome.{described, HasRun, IsRefused, do_jmd_run-outcome}
use jraid.Run.Written.{Updated, do_jmd_run-HasEvents}
use jraid.Run.Complete.{do_jmd_run_iff}
use jraid.Run.Ready.{OnlyRaid5, Serves, do_jmd_run-Serves}
use jraid.Run.Sizes.{GotSize, device_size, device_size_calculation-sizes}
use jraid.Analyze.Sound.{IsSound}
use jraid.Stripe.{Bio}
use jraid.Run.Chunk.{FindsZero, IsChunk, accepts_chunk_iff}

-- The place of the lowest 0 of a number.
pub lowest_zero : ℕ → ℕ → ℕ
lowest_zero zero x = 0
lowest_zero (suc fuel) x = let rest = lowest_zero fuel (x / 2) in if x % 2 == 0 then 0 else suc rest

half_ones :
    (x t : ℕ) → 0 < t → x % (2 * t) ≡ t - 1 → t % 2 ≡ 0 → (x % 2 ≡ 1) × ((x / 2) % t ≡ t / 2 - 1)
half_ones x t p h even = (grind arith, grind arith)

pow_step : (n : ℕ) → 2 ^ (n + 1) ≡ 2 * 2 ^ n
pow_step n = simp towards_suc (omega arith)

add_one : (n : ℕ) → suc n ≡ n + 1
add_one n = omega arith

pow_positive : (n : ℕ) → 0 < 2 ^ n
pow_positive n = pow-le-pow_right {n = 2} (omega arith) {i = 0} {j = n} (omega arith)

lowest_zero-finds : (fuel n x : ℕ) → x ≤ fuel → x % 2 ^ (n + 1) ≡ 2 ^ n - 1 → lowest_zero fuel x ≡ n
unfolding lowest_zero
lowest_zero-finds zero zero x l h = refl
lowest_zero-finds zero (suc n) x l h =
    let x_zero : x ≡ 0 = omega (arith, l) in
    let nothing : x % 2 ^ (suc n + 1) ≡ 0 =
      ap (λ (t : ℕ). t % 2 ^ (suc n + 1)) x_zero ∙ zero-mod _ in
    absurd
      (omega (arith, nothing, h, pow_step n, pow_positive n, ap (λ (t : ℕ). 2 ^ t) (add_one n)))
lowest_zero-finds (suc fuel) zero x l h = ground (arith, h)
lowest_zero-finds (suc fuel) (suc n) x l h =
    let double : 2 ^ (suc n) ≡ 2 * 2 ^ n = ap (λ (t : ℕ). 2 ^ t) (add_one n) ∙ pow_step n in
    let (odd, half) =
      half_ones x (2 ^ (suc n)) (pow_positive (suc n))
        (subst (λ (t : ℕ). x % t ≡ 2 ^ (suc n) - 1) (pow_step (suc n)) h) (omega (arith, double)) in
    let rest : lowest_zero fuel (x / 2) ≡ n =
      lowest_zero-finds fuel n (x / 2) (omega (arith, l, odd))
        (ap (λ (t : ℕ). x / 2 % 2 ^ t) (sym (add_one n)) ∙ half ∙ omega (arith, double)) in
    ground (arith, odd, rest)

-- The allocators always succeed.
abbrev memory : ℕ → Bool
memory n = true

abbrev pub kernel : Kernel
kernel = record {
  mkdev = λ major minor. major * 2 ^ 20 + minor;
  major = λ dev. dev / 2 ^ 20;
  minor = λ dev. dev % 2 ^ 20;
  ffz = λ x. lowest_zero x x;
  csum_partial = λ sb. sb.events_lo;
  allocates = memory;
  stale_page = λ n. zero_superblock;
  has_super = λ dev. false;
  opens = λ dev. true;
  readable = λ dev. true;
  i_size = λ dev. 2 ^ 30;
  get_seconds = λ n. 0;
  random_word = λ n. n;
}

kernel-FindsZero : FindsZero kernel.ffz
kernel-FindsZero x n h = lowest_zero-finds x n x (omega arith) h

-- The disk `n` is the device 8, n.
abbrev disk : ℕ → Disk
disk n = record { number = n; major = 8; minor = n; raid_disk = n; state = 6 }

-- A superblock of three disks.
abbrev super : Superblock
super = record zero_superblock {
  md_magic = md_sb_magic;
  level = 5;
  size = 2097024;
  nr_disks = 3;
  raid_disks = 3;
  working_disks = 3;
  events_lo = 7;
  sb_csum = 7;
  layout = 2;
  chunk_size = 32768;
  disks = disk 0 ∷ disk 1 ∷ disk 2 ∷ zero_disks 24;
}

-- An array of three members that does not run yet.
abbrev pub array : Driver
array = record {
  system = record {
    rdevs = λ id. record zero_rdev {
      dev = 8 * 2 ^ 20 + id;
      old_dev = 8 * 2 ^ 20 + id;
      desc_nr = id;
      sb = some super;
      sb_offset = 2097024;
    };
    next = 3;
    all_jraid_disks = 0 ∷ 1 ∷ 2 ∷ [];
    array = record { sb = none; nb_dev = 3; disks = 0 ∷ 1 ∷ 2 ∷ []; chunk_sectors = 16384 };
    content = λ dev sector. zero_superblock;
    calls = 0;
    pages = 3;
  };
  table = λ pnum. if pnum == 4 then some jraid5_run else none;
  pers = none;
  started = none;
  jmd_size = 0;
  jmd_maxreadahead = 0;
  jmd_blocksizes = 0;
  jmd_hardsect_sizes = 0;
  nr_sects = 0;
  param_chunk_size = 0;
  param_personality = 0;
  array_sectors = 0;
  capacity = 0;
}

accepts : (s' : System) × (analyze_sbs kernel array.system ≡ some (s', false))
unfolding analyze_sbs weigh all_usable own_sb alloc_array_sb held hold_copies adopt relocate
    relocate_all has_desc_nr cull_disk cull_disks cull all_consistent clashes all_distinct
    final_checks scan distrust find_dev check_disk_sb
accepts = (_, refl)

-- The superblock stays as it is.
accepts_super : accepts.0.array.sb ≡ some super
unfolding accepts scan distrust
accepts_super = refl

abbrev slot : ℕ → DiskInfo
slot i = record no_slot {
  dev = 8 * 2 ^ 20 + i;
  operational = true;
  number = i;
  raid_disk = i;
  used_slot = true;
  jrdev = some i;
}

abbrev slots : List DiskInfo
slots = slot 0 ∷ slot 1 ∷ slot 2 ∷ no_slots 24

abbrev raid : Raid
raid = record {
  cache = record ((grow_stripes memory 5 nr_stripes (new_cache super slots)).conf) {
    thread_woken = true;
  };
  disks = slots;
  working_disks = 3;
  failed_disks = 0;
  jraid_disks = 3;
  resync_parity = true;
}

abbrev in_sync : ℕ → List Disk
in_sync zero = []
in_sync (suc n) = record zero_disk { state = 4 } ∷ in_sync n

-- What `jraid5_run` makes of the array: the unused descriptors have the number of the first disk.
abbrev started : Started
started = record {
  sb = record super { active_disks = 3; disks = disk 0 ∷ disk 1 ∷ disk 2 ∷ in_sync 24 };
  private = some raid;
  result = 0;
  next = 5 + 1 + 1024 * 4 + 2;
  jraid5d = true;
  left = none;
  recovering = false;
}

chunk_passes : accepts_chunk kernel 32768 ≡ true
chunk_passes =
    (accepts_chunk_iff kernel kernel-FindsZero 32768).1 (15, refl, inl (omega arith, omega arith))

-- The array after its analysis, with sizes, and when it was started.
abbrev analyzed : Driver
analyzed = record array { system = accepts.0; jmd_size = 0 }

sized : (d1 : Driver) × (device_size_calculation kernel (described analyzed super) super ≡ (d1, 0))
unfolding accepts device_size_calculation size_members size_array data_disks readahead calc_dev_size
    calc_dev_sboffset chunk_mask find_dev hold_copies scan distrust
sized = (_, refl)

starts :
    jraid5_run memory sized.0.system.calls sized.0.system.rdevs sized.0.system.array.disks
      sized.0.system.array.nb_dev super
    ≡ some started
unfolding sized accepts jraid5_run start_disks attach_all attach_rdev attach_disk after_attach
    fill_failed refuses start_threads finish_start end_start sync_descs sync_desc settled
    device_size_calculation size_members size_array calc_dev_size calc_dev_sboffset chunk_mask
    find_dev hold_copies scan distrust
starts =
    let (d, e, _) = grow_stripes-enough memory 5 nr_stripes (new_cache super slots) (λ i. refl) in
    rw (d, e) refl

sized_pages : (id : ℕ) → 0 < occ id (0 ∷ 1 ∷ 2 ∷ []) → (sized.0.system.rdevs id).sb ≢ none
unfolding sized accepts device_size_calculation size_members size_array hold_copies scan distrust
sized_pages id m = ground (arith, m)

-- The array with its superblock no longer clean, as it is written.
abbrev unclean : System
unclean =
    with_sb ((after_run sized.0 4 started).system)
      (record (started.sb) { state = without_bit started.sb.state md_sb_clean })

sized_disks : sized.0.system.array.disks ≡ 0 ∷ 1 ∷ 2 ∷ []
unfolding sized accepts device_size_calculation size_members size_array
sized_disks = refl

unclean-HasPages : HasPages unclean
unclean-HasPages id m = sized_pages id (subst (λ t. 0 < occ id t) sized_disks m)

finishes :
    (d' : Driver) × (finish_run kernel (after_run sized.0 4 started) started.sb ≡ some (d', 0))
unfolding finish_run
finishes =
    let (s', err, e, _, _, _, _, _) =
      jmd_update_sb-HasEvents kernel unclean
        (record (started.sb) { state = without_bit started.sb.state md_sb_clean }) refl
        (omega arith, omega arith) unclean-HasPages in
    (
      record (after_run sized.0 4 started) {
        system = s';
        nr_sects = sign_extend (wrap32 (sized.0.jmd_size * 2));
      },
      ap
          (λ (o : Option (System × ℕ)). o >>= λ t. some (
            record (after_run sized.0 4 started) {
              system = t.0;
              nr_sects = sign_extend (wrap32 (sized.0.jmd_size * 2));
            },
            0,
          ))
          e,
    )

array_runs : HasRun kernel array finishes.0
unfolding level_to_pers finishes
array_runs = record {
  members = λ e. absurd (omega (arith, e));
  idle = refl;
  s = accepts.0;
  analyzed = accepts.1;
  sb = super;
  own = accepts_super;
  rest = record {
    chunk = chunk_passes;
    run = jraid5_run;
    registered = refl;
    d1 = sized.0;
    sized = sized.1;
    r = started;
    ran = starts;
    ok = refl;
    finished = finishes.1;
    runs = refl;
    started = refl;
  };
}

runs : do_jmd_run kernel array ≡ some (finishes.0, 0)
runs = (do_jmd_run_iff kernel array finishes.0).1 array_runs

do_jmd_run-outcome_example :
    ((◌≡◌ {A = ℕ} 0 0) × HasRun kernel array finishes.0) ⊎ IsRefused array finishes.0 0
do_jmd_run-outcome_example = do_jmd_run-outcome kernel array finishes.0 0 runs

accepts_chunk_iff_example : (accepts_chunk kernel 32768 ≡ true) ↔ IsChunk 32768
accepts_chunk_iff_example = accepts_chunk_iff kernel kernel-FindsZero 32768

array-OnlyRaid5 : OnlyRaid5 array
array-OnlyRaid5 pnum p h = elim (Bool-cases (pnum == 4)) [
  | inl e ↦ ((==_iff pnum 4).0 e, sym (some_inj (if-true _ _ e h)))
  | inr e ↦ absurd (none≢some (if-false _ _ e h))
]

do_jmd_run-HasEvents_example : Updated kernel (0 ∷ 1 ∷ 2 ∷ []) super finishes.0
do_jmd_run-HasEvents_example =
    do_jmd_run-HasEvents kernel array finishes.0 accepts.0 super array-OnlyRaid5 accepts.1
      accepts_super (omega arith, omega arith) runs

abbrev bio : Bio
bio = record { id = 7; bi_sector = 100; bi_size = 4096 }

do_jmd_run-Serves_example :
    ((super.level ≡ 4) ⊎ (super.level ≡ 5))
    × IsChunk super.chunk_size
    × (4096 ≤ super.chunk_size)
    × (super.chunk_size ≤ 4194304)
    × IsSound kernel accepts.0
    × (finishes.0.pers ≡ some raid5)
    × Serves finishes.0 bio true
do_jmd_run-Serves_example =
    do_jmd_run-Serves kernel array finishes.0 accepts.0 super bio true kernel-FindsZero
      array-OnlyRaid5 (λ id. ground arith) accepts.1 accepts_super (omega arith) (omega arith) runs

device_size_calculation-sizes_example :
    ((id : ℕ)
      → 0 < occ id (0 ∷ 1 ∷ 2 ∷ [])
      → GotSize super
          ((described analyzed super).system.rdevs id)
          (device_size kernel super (described analyzed super).system id)
          (sized.0.system.rdevs id))
    × ((id : ℕ)
        → occ id (0 ∷ 1 ∷ 2 ∷ []) ≡ 0
        → sized.0.system.rdevs id ≡ (described analyzed super).system.rdevs id)
    × (sized.0.system.array ≡ (described analyzed super).system.array)
    × (sized.0.jmd_size ≡ wrap32 (super.size * sub32 super.raid_disks 1))
    × (wrap32 (62 * sub32 super.raid_disks 1) ≤ sized.0.jmd_maxreadahead)
unfolding accepts
device_size_calculation-sizes_example =
    device_size_calculation-sizes kernel (described analyzed super) sized.0 super (inr refl)
      (λ id. ground arith) sized.1
