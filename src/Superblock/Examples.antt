-- ===== src/Superblock/Examples.antt =====
-- Runs of the scan of the members, and its theorems there.
use jraid.Common.{ℕ, ◌≡◌, none, some, [], ◌∷◌, refl}
use jraid.Superblock.{Disk, Superblock, distrust, scan}

-- An active disk in sync.
abbrev disk : Disk
disk = record { number = 1; major = 8; minor = 16; raid_disk = 1; state = 6 }

-- An array of four disks; the counter is 2^32, and the checksum 5.
abbrev block : Superblock
block = record {
  md_magic = 2838187772;
  major_version = 0;
  minor_version = 90;
  patch_version = 0;
  gvalid_words = 0;
  set_uuid0 = 1;
  ctime = 0;
  level = 5;
  size = 1000;
  nr_disks = 4;
  raid_disks = 4;
  md_minor = 0;
  not_persistent = 0;
  set_uuid1 = 2;
  set_uuid2 = 3;
  set_uuid3 = 4;
  utime = 0;
  state = 0;
  active_disks = 4;
  working_disks = 4;
  failed_disks = 0;
  spare_disks = 0;
  sb_csum = 5;
  events_lo = 0;
  events_hi = 1;
  layout = 2;
  chunk_size = 32768;
  root_pv = 0;
  root_block = 0;
  disks = disk ∷ [];
  this_disk = disk;
}

abbrev newer_block : Superblock
newer_block = record block { events_lo = 7 }

-- A checksum that no superblock here has, and one that all have.
abbrev bad_csum : Superblock → ℕ
bad_csum sb = 9

abbrev good_csum : Superblock → ℕ
good_csum sb = 5

scan_newer : (scan good_csum none (block ∷ newer_block ∷ [])).freshest ≡ some newer_block
unfolding scan distrust
scan_newer = refl
