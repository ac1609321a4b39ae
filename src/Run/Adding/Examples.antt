-- ===== src/Run/Adding/Examples.antt =====
-- The first disk is added to an array that nothing describes yet.
use jraid.Common.{◌⊎◌, none, some, [], ◌∷◌, ◌+◌, ◌*◌, ◌^◌, ◌≡◌, arith, refl}
use jraid.Member.{zero_rdev, find_dev, find_jrdev_all, jmd_import_device, import_open, add_rdev}
use jraid.Array.{
  zero_superblock, alloc_array_sb, calc_dev_sboffset, calc_dev_size, chunk_mask, set_array_info,
  bind_rdev_to_array, sync_sbs, sync_list, sync_member, put_copy, set_this_disk, descriptor,
}
use jraid.Run.{Driver, join_disk, add_store}
use jraid.Run.Adding.{add_store-IsArray}
use jraid.Joining.{add_new_disk, add_disk, add_described, bind_described, measure}
use jraid.Joining.Alike.{IsArray}
use jraid.Run.Examples.{kernel, array}

-- No disk was added yet.
abbrev empty : Driver
empty = record array {
  system = record {
    rdevs = λ id. zero_rdev;
    next = 0;
    all_jraid_disks = [];
    array = record { sb = none; nb_dev = 0; disks = []; chunk_sectors = 0 };
    content = λ dev sector. zero_superblock;
    calls = 0;
    pages = 0;
  };
}

empty-IsArray : IsArray empty.system
empty-IsArray = record {
  listed = record {
    below = λ i. ground arith;
    once = λ i. ground arith;
    apart = λ i j. ground arith;
  };
  members = λ i. ground arith;
  once = λ i. ground arith;
  bound = λ i. ground arith;
  count = refl;
}

adds : (d' : Driver) × (add_store kernel empty (some (8, 16)) 3 0 ≡ some (d', 0))
unfolding add_store join_disk set_array_info alloc_array_sb add_new_disk add_disk add_described
    bind_described measure jmd_import_device import_open add_rdev find_dev bind_rdev_to_array
    calc_dev_sboffset chunk_mask calc_dev_size sync_sbs sync_list sync_member put_copy set_this_disk
    descriptor
adds = (_, refl)

add_store-IsArray_example :
    IsArray adds.0.system
    × ((adds.0.system.array.disks ≡ [])
        ⊎ ((find_jrdev_all empty.system (8 * 2 ^ 20 + 16) ≡ none)
            × (adds.0.system.array.disks ≡ 0 ∷ [])
            × ((adds.0.system.rdevs 0).dev ≡ 8 * 2 ^ 20 + 16)))
add_store-IsArray_example = add_store-IsArray kernel empty adds.0 8 16 3 0 0 empty-IsArray adds.1
