-- ===== src/Start/Examples.antt =====
-- A start of an array of four disks, and the theorems on it.
use jraid.Common.{
  ℕ, zero, suc, ◌+◌, ◌*◌, ◌≤◌, ◌<◌, ◌≡◌, ◌≢◌, ◌⊎◌, Bool, true, false, not, none, some, List, [],
  ◌∷◌, ◌==◌, arith, refl, length, occ, get_elem?,
}
use jraid.Stripe.{Bio, Conf}
use jraid.Cache.Invariant.{Inv}
use jraid.Handle.{Request}
use jraid.Request.{make_request, served}
use jraid.Request.Total.{IsReady}
use jraid.Grow.{grow_stripes}
use jraid.Grow.Stripe.{IsPaged}
use jraid.Grow.Ready.{grow_stripes-enough}
use jraid.Superblock.{Disk, Superblock, md_sb_magic}
use jraid.Member.{Rdev, zero_rdev}
use jraid.Array.{zero_superblock, zero_disks}
use jraid.Start.{
  DiskInfo, Raid, Started, jraid5_run, start_disks, attach_all, attach_rdev, attach_disk,
  after_attach, fill_failed, refuses, start_threads, finish_start, end_start, sync_descs, sync_desc,
  settled, new_cache, nr_stripes, no_slots, no_slot,
}
use jraid.Start.Outcome.{IsAborted}
use jraid.Start.Slots.{workers, IsWorker}
use jraid.Start.Running.{jraid5_run-workers, jraid5_run-AllSynced, AllSynced, numbers}
use jraid.Start.Serving.{IsUsual, jraid5_run-IsReady, jraid5_run-serves}
use jraid.Grow.Shrink.{NoPages}
use jraid.Start.Stopping.{jraid5_exit, jraid5_exit-frees}
use jraid.Start.Safe.{AllNear, jraid5_run-total}

-- The disk `i`, a descriptor without a state.
abbrev desc : ℕ → ℕ → Disk
desc i state = record { number = i; major = 8; minor = 16 + i; raid_disk = i; state = state }

abbrev super : Superblock
super = record zero_superblock {
  md_magic = md_sb_magic;
  level = 5;
  chunk_size = 32768;
  nr_disks = 4;
  raid_disks = 4;
  state = 1;
  disks = desc 0 0 ∷ desc 1 0 ∷ desc 2 0 ∷ desc 3 0 ∷ zero_disks 23;
}

abbrev member : ℕ → Rdev
member i = record zero_rdev { dev = 100 + i; desc_nr = i }

abbrev memory : ℕ → Bool
memory i = true

abbrev slot : ℕ → DiskInfo
slot i = record no_slot {
  dev = 100 + i;
  operational = true;
  number = i;
  raid_disk = i;
  used_slot = true;
  jrdev = some i;
}

abbrev slots : List DiskInfo
slots = slot 0 ∷ slot 1 ∷ slot 2 ∷ slot 3 ∷ no_slots 23

abbrev raid : Raid
raid = record {
  cache = record ((grow_stripes memory 4 nr_stripes (new_cache super slots)).conf) {
    thread_woken = true;
  };
  disks = slots;
  working_disks = 4;
  failed_disks = 0;
  jraid_disks = 4;
  resync_parity = true;
}

abbrev unused : ℕ → List Disk
unused zero = []
unused (suc n) = record { number = 0; major = 0; minor = 0; raid_disk = 0; state = 4 } ∷ unused n

-- The descriptors with the number 0 are in sync too, since the first disk has it.
abbrev started : Started
started = record {
  sb = record super {
    state = 0;
    active_disks = 4;
    disks = desc 0 6 ∷ desc 1 6 ∷ desc 2 6 ∷ desc 3 6 ∷ unused 23;
  };
  private = some raid;
  result = 0;
  next = 4 + 1 + 1024 * 5 + 2;
  jraid5d = true;
  left = none;
  recovering = false;
}

runs : jraid5_run memory 0 member (0 ∷ 1 ∷ 2 ∷ 3 ∷ []) 4 super ≡ some started
unfolding jraid5_run start_disks attach_all attach_rdev attach_disk after_attach fill_failed refuses
    start_threads finish_start end_start sync_descs sync_desc settled
runs =
    let (d, e, _) = grow_stripes-enough memory 4 nr_stripes (new_cache super slots) (λ i. refl) in
    rw (d, e) refl

super-IsUsual : IsUsual super
super-IsUsual = omega arith

abbrev bio : Bio
bio = record { id = 7; bi_sector = 100; bi_size = 4096 }

-- No member is without a descriptor.
listed : (id : ℕ) → 0 < occ id (0 ∷ 1 ∷ 2 ∷ 3 ∷ []) → (member id).desc_nr < length super.disks
listed id h = ground arith

zero_disks-AllNear : (n : ℕ) → AllNear (zero_disks n)
zero_disks-AllNear zero = tt
zero_disks-AllNear (suc n) = (omega arith, zero_disks-AllNear n)

super-AllNear : AllNear super.disks
super-AllNear = (omega arith, (omega arith, (omega arith, (omega arith, zero_disks-AllNear 23))))

jraid5_run-total_example :
    (r : Started) × (jraid5_run memory 0 member (0 ∷ 1 ∷ 2 ∷ 3 ∷ []) 4 super ≡ some r)
    × ((IsAborted r) ⊎ ((r.result ≡ 0) × (r.private ≢ none)))
jraid5_run-total_example =
    jraid5_run-total memory 0 member (0 ∷ 1 ∷ 2 ∷ 3 ∷ []) 4 super super-IsUsual super-AllNear listed
      (omega arith)

jraid5_run-workers_example :
    (raid.working_disks ≡ workers raid.disks)
    × (super.raid_disks ≤ raid.working_disks + 1)
    × ((i : ℕ) (d : DiskInfo)
        → get_elem? raid.disks i ≡ some d
        → d.operational ≡ true
        → IsWorker super.raid_disks i d)
jraid5_run-workers_example =
    jraid5_run-workers memory 0 member (0 ∷ 1 ∷ 2 ∷ 3 ∷ []) 4 super started raid runs refl

jraid5_run-AllSynced_example :
    AllSynced super.raid_disks raid.disks (numbers super.disks) started.sb.disks
    × (started.sb.active_disks ≡ workers raid.disks)
    × (raid.resync_parity ≡ (workers raid.disks == super.raid_disks))
    × (started.recovering ≡ not raid.resync_parity)
jraid5_run-AllSynced_example =
    jraid5_run-AllSynced memory 0 member (0 ∷ 1 ∷ 2 ∷ 3 ∷ []) 4 super started raid runs refl

jraid5_run-IsReady_example :
    IsReady raid.cache
    × IsPaged raid.cache
    × (raid.cache.nr_stripes ≡ 1024)
    × (length raid.cache.inactive_list ≡ 1024)
    × (raid.cache.thread_woken ≡ true)
    × (started.result ≡ 0)
    × (started.jraid5d ≡ true)
jraid5_run-IsReady_example =
    jraid5_run-IsReady memory 0 member (0 ∷ 1 ∷ 2 ∷ 3 ∷ []) 4 super started raid super-IsUsual runs
      refl

jraid5_run-serves_example :
    (c' : Conf) × (requests : List Request) × (queued : Bool) × (make_request
        (raid.cache ∷ [])
        raid.cache
        bio
        true
      ≡ served c' requests queued true)
    × Inv c'
jraid5_run-serves_example =
    jraid5_run-serves memory 0 member (0 ∷ 1 ∷ 2 ∷ 3 ∷ []) 4 super started raid bio true
      super-IsUsual runs refl (omega arith)

jraid5_exit-frees_example :
    (c' : Conf) × (freed : List ℕ) × (jraid5_exit started.private ≡ some (some (c', freed)))
    × (length freed ≡ 1024)
    × (c'.inactive_list ≡ [])
    × ((s : ℕ) → 0 < occ s freed → NoPages 4 (c'.stripes s).devs)
jraid5_exit-frees_example =
    jraid5_exit-frees memory 0 member (0 ∷ 1 ∷ 2 ∷ 3 ∷ []) 4 super started raid super-IsUsual
      (omega arith) runs refl
