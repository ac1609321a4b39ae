-- ===== src/Joining/Examples.antt =====
-- A disk joins an array that has a superblock and no member.
use jraid.Common.{◌/◌, ◌%◌, ℕ, ◌+◌, ◌*◌, ◌^◌, ◌≡◌, true, false, none, some, [], refl}
use jraid.Superblock.{md_sb_magic}
use jraid.Member.{Kernel, System, zero_rdev, find_dev, jmd_import_device, import_open, add_rdev}
use jraid.Array.{
  JmdDiskInfo, zero_superblock, bind_rdev_to_array, calc_dev_sboffset, chunk_mask, calc_dev_size,
  sync_sbs, sync_list, sync_member, put_copy, set_this_disk, descriptor,
}
use jraid.Joining.{add_new_disk, add_disk, add_described, bind_described, measure}

abbrev kernel : Kernel
kernel = record {
  mkdev = λ major minor. major * 2 ^ 20 + minor;
  major = λ dev. dev / 2 ^ 20;
  minor = λ dev. dev % 2 ^ 20;
  ffz = λ x. 0;
  csum_partial = λ sb. sb.events_lo + sb.nr_disks;
  allocates = λ n. true;
  stale_page = λ n. zero_superblock;
  has_super = λ dev. false;
  opens = λ dev. true;
  readable = λ dev. true;
  i_size = λ dev. 2 ^ 30;
  get_seconds = λ n. n;
  random_word = λ n. n;
}

abbrev empty : System
empty = record {
  rdevs = λ id. zero_rdev;
  next = 0;
  all_jraid_disks = [];
  array = record {
    sb = some (record zero_superblock {
      md_magic = md_sb_magic;
      nr_disks = 2;
      raid_disks = 2;
      chunk_size = 32768;
    });
    nb_dev = 0;
    disks = [];
    chunk_sectors = 16384;
  };
  content = λ dev sector. zero_superblock;
  calls = 0;
  pages = 0;
}

abbrev info : JmdDiskInfo
info = record { number = 0; major = 8; minor = 16; raid_disk = 0; state = 0 }

abbrev outcome : System × ℕ
outcome = elim (add_new_disk kernel empty info) [ none ↦ (empty, 1) | some t ↦ t ]

joins : add_new_disk kernel empty info ≡ some (outcome.0, outcome.1)
unfolding add_new_disk add_disk add_described bind_described measure jmd_import_device import_open
    add_rdev find_dev bind_rdev_to_array calc_dev_sboffset chunk_mask calc_dev_size sync_sbs
    sync_list sync_member put_copy set_this_disk descriptor
joins = refl

joined : outcome.1 ≡ 0
unfolding add_new_disk add_disk add_described bind_described measure jmd_import_device import_open
    add_rdev find_dev bind_rdev_to_array calc_dev_sboffset chunk_mask calc_dev_size sync_sbs
    sync_list sync_member put_copy set_this_disk descriptor
joined = refl
