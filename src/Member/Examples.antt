-- ===== src/Member/Examples.antt =====
-- An import into a list of one member, and the theorems there.
use jraid.Common.{
  ◌/◌, ◌%◌, ◌+◌, ◌*◌, ◌^◌, ◌≡◌, ◌==◌, ◌⊎◌, true, false, none, [], ◌∷◌, arith, refl, length,
  if◌then◌else◌,
}
use jraid.Errno.{einval}
use jraid.Superblock.{md_sb_magic}
use jraid.Array.{zero_superblock}
use jraid.Member.{
  Kernel, System, zero_rdev, jmd_import_device, import_open, add_rdev, find_dev, check_disk_sb,
}
use jraid.Member.Import.{Imported, IsListed, jmd_import_device-Imported, jmd_import_device-pages}

-- Device 9 cannot be opened.
abbrev kernel : Kernel
kernel = record {
  mkdev = λ major minor. major * 2 ^ 20 + minor;
  major = λ dev. dev / 2 ^ 20;
  minor = λ dev. dev % 2 ^ 20;
  ffz = λ x. 0;
  csum_partial = λ sb. sb.events_lo + sb.nr_disks;
  allocates = λ n. true;
  stale_page = λ n. zero_superblock;
  has_super = λ dev. false;
  opens = λ dev. if dev == 9 then false else true;
  readable = λ dev. true;
  i_size = λ dev. 2 ^ 30;
  get_seconds = λ n. n;
  random_word = λ n. n;
}

-- One member, for the device 7.
abbrev one : System
one = record {
  rdevs = λ id. record zero_rdev { dev = 7 };
  next = 1;
  all_jraid_disks = 0 ∷ [];
  array = record { sb = none; nb_dev = 0; disks = []; chunk_sectors = 0 };
  content = λ dev sector. record zero_superblock { md_magic = md_sb_magic };
  calls = 0;
  pages = 1;
}

one-IsListed : IsListed one
one-IsListed = record {
  below = λ id. ground arith;
  once = λ id. ground arith;
  apart = λ i j. ground arith;
}

-- An import of a new device, of one that is there, and of one that cannot be opened.
import-new : (jmd_import_device kernel one 8 true).1 ≡ 0
unfolding jmd_import_device import_open add_rdev find_dev check_disk_sb
import-new = refl

import-twice : (jmd_import_device kernel one 7 true).1 ≡ 17
unfolding jmd_import_device find_dev
import-twice = refl

import-closed : (jmd_import_device kernel one 9 true).1 ≡ einval
unfolding jmd_import_device find_dev
import-closed = refl

jmd_import_device-Imported_example :
    Imported one 8 (jmd_import_device kernel one 8 true).0 (jmd_import_device kernel one 8 true).1
jmd_import_device-Imported_example = jmd_import_device-Imported kernel one 8 true

jmd_import_device-pages_example :
    let (s', e) = jmd_import_device kernel one 9 true in
    (s'.pages ≡ length s'.all_jraid_disks)
    ⊎ ((e ≡ einval) × (kernel.opens 9 ≡ false) × (s'.pages ≡ length s'.all_jraid_disks + 1))
jmd_import_device-pages_example = jmd_import_device-pages kernel one 9 true refl
