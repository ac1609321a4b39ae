-- ===== src/Geometry/Examples.antt =====
-- Runs of the address arithmetic on an array of four disks with 32 KiB chunks, and its theorems
-- there.
use jraid.Common.{ℕ, ◌^◌, ◌≤◌, ◌<◌, ◌≡◌, ◌≢◌, refl, none, some, arith}
use jraid.Geometry.{Layout, Mapping, place, compute_sector, data_index, compute_blocknr}
use jraid.Geometry.Bounds.{IsGood, parity_disk}
use jraid.Geometry.RoundTrip.{
  compute_blocknr-compute_sector, compute_sector-compute_blocknr, compute_sector_injective,
}
use jraid.Geometry.Parity.{compute_sector_bounds}

abbrev four_disks : Layout
four_disks = record { chunk_size = 32768; level = 5; algorithm = 2; raid_disks = 4 }

-- Sector 70 is in chunk 1, the second block of stripe 0.
abbrev spot : Mapping
spot = record { new_sector = 6; dd_idx = 1; pd_idx = 3 }

abbrev first : Mapping
first = record { new_sector = 6; dd_idx = 0; pd_idx = 3 }

abbrev next_stripe : Mapping
next_stripe = record { new_sector = 72; dd_idx = 3; pd_idx = 2 }

four_disks-IsGood : IsGood four_disks
four_disks-IsGood = omega arith

compute_sector_at : compute_sector four_disks 70 4 3 0 ≡ some spot
unfolding compute_sector place
compute_sector_at = refl

compute_sector_start : compute_sector four_disks 6 4 3 0 ≡ some first
unfolding compute_sector place
compute_sector_start = refl

compute_sector_next : compute_sector four_disks 200 4 3 0 ≡ some next_stripe
unfolding compute_sector place
compute_sector_next = refl

compute_blocknr_at : compute_blocknr four_disks 6 3 1 ≡ some 70
unfolding compute_blocknr compute_sector place data_index
compute_blocknr_at = refl

-- Past 2^31 chunks the way back fails.
compute_blocknr_large : compute_blocknr four_disks (2 ^ 40) 3 1 ≡ some 0
unfolding compute_blocknr compute_sector place data_index
compute_blocknr_large = refl

-- An array of one disk divides by zero.
compute_sector_one_disk : compute_sector (record four_disks { raid_disks = 1 }) 70 1 0 0 ≡ none
unfolding compute_sector place
compute_sector_one_disk = refl

compute_sector_bounds_example :
    (m : Mapping) × (compute_sector four_disks 70 4 3 0 ≡ some m)
    × (m.dd_idx < 4)
    × (m.pd_idx < 4)
    × (m.dd_idx ≢ m.pd_idx)
    × (m.new_sector ≤ 70)
compute_sector_bounds_example =
    compute_sector_bounds four_disks 70 0 four_disks-IsGood (omega arith)

compute_blocknr-compute_sector_example : compute_blocknr four_disks 6 3 1 ≡ some 70
compute_blocknr-compute_sector_example =
    compute_blocknr-compute_sector four_disks 70 0 four_disks-IsGood (omega arith) (omega arith)
      compute_sector_at

compute_sector-compute_blocknr_example :
    (r : ℕ) × (compute_blocknr four_disks 6 (parity_disk four_disks 0) 1 ≡ some r)
    × (compute_sector four_disks r 4 3 0
        ≡ some (record { new_sector = 6; dd_idx = 1; pd_idx = parity_disk four_disks 0 }))
unfolding parity_disk data_index
compute_sector-compute_blocknr_example =
    compute_sector-compute_blocknr four_disks 6 1 0 four_disks-IsGood (omega arith) (omega arith)
      (omega arith)

compute_sector_injective_example : ◌≡◌ {A = ℕ} 70 70
compute_sector_injective_example =
    compute_sector_injective four_disks 70 70 0 four_disks-IsGood (omega arith) (omega arith)
      compute_sector_at compute_sector_at refl refl
