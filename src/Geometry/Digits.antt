-- ===== src/Geometry/Digits.antt =====
-- The digits of a sector: stripe, block and offset, and the words that hold them.
use native.Mathlib.Nat.{mul-add-div_right, div-eq_of_lt, mul-add-mod_self_right, mod-eq_of_lt}
use jraid.Common.{
  ℕ, ◌+◌, ◌-◌, ◌*◌, ◌/◌, ◌%◌, ◌^◌, ◌<◌, ◌≡◌, ◌≢◌, true, ltb, wrap32, add64, mul64, arith,
}
use jraid.Geometry.{Layout, sectors_per_chunk, data_index, sign_extend}
use jraid.Geometry.Bounds.{IsGood, parity_disk, data_disk, mapping, rotate-cases}

-- The digits of `q * d + k`.
pub div_digits : (q d k : ℕ) → k < d → ((q * d + k) / d ≡ q) × ((q * d + k) % d ≡ k)
div_digits q d k h =
    let pos : 0 < d = omega arith in
    (
      omega (arith, mul-add-div_right pos q k, div-eq_of_lt h),
      omega (arith, mul-add-mod_self_right q d k, mod-eq_of_lt h),
    )

-- The data index of the disk that holds a data block is the block's number.
pub data_index-data_disk :
    (c : Layout) (pd k : ℕ)
    → IsGood c
    → pd < c.raid_disks
    → (c.level ≡ 4 → pd ≡ c.raid_disks - 1)
    → k < c.raid_disks - 1
    → data_index c pd (data_disk c pd k) ≡ k
unfolding data_index data_disk
data_index-data_disk c pd k g p four h =
    ground (arith, four, rotate-cases c.raid_disks pd k p (omega arith))

pub data_index-lt :
    (c : Layout) (pd i : ℕ)
    → IsGood c
    → pd < c.raid_disks
    → (c.level ≡ 4 → pd ≡ c.raid_disks - 1)
    → i < c.raid_disks
    → i ≢ pd
    → data_index c pd i < c.raid_disks - 1
unfolding data_index
data_index-lt c pd i g p four h ne = ground (arith, four)

pub data_disk-data_index :
    (c : Layout) (pd i : ℕ)
    → IsGood c
    → pd < c.raid_disks
    → (c.level ≡ 4 → pd ≡ c.raid_disks - 1)
    → i < c.raid_disks
    → i ≢ pd
    → data_disk c pd (data_index c pd i) ≡ i
unfolding data_index data_disk
data_disk-data_index c pd i g p four h ne =
    let k : ℕ = data_index c pd i in
    let low : k < c.raid_disks - 1 = data_index-lt c pd i g p four h ne in
    ground (arith, four, low, rotate-cases c.raid_disks pd k p (omega arith))

-- The place of the block `k` of a stripe, read back from its sector number.
pub mapping-digits :
    (c : Layout) (stripe k off : ℕ)
    → IsGood c
    → k < c.raid_disks - 1
    → off < sectors_per_chunk c
    → mapping c ((stripe * (c.raid_disks - 1) + k) * sectors_per_chunk c + off) ≡ record {
      new_sector = stripe * sectors_per_chunk c + off;
      dd_idx = data_disk c (parity_disk c stripe) k;
      pd_idx = parity_disk c stripe;
    }
unfolding mapping
mapping-digits c stripe k off g h o =
    let (quo, rem) = div_digits (stripe * (c.raid_disks - 1) + k) (sectors_per_chunk c) off o in
    let (quo', rem') = div_digits stripe (c.raid_disks - 1) k h in rw (quo, rem, quo', rem')

product-lt : (a b : ℕ) → a < 2 ^ 31 → b < 2 ^ 22 → a * b < 2 ^ 53
product-lt a b h p = grind arith

-- The 32-bit chunk number and the 64-bit sector of `compute_blocknr`, below 2^31 chunks.
pub words_exact :
    (stripe d k spc off : ℕ)
    → stripe * d + k < 2 ^ 31
    → spc < 2 ^ 22
    → off < spc
    → add64 (mul64 (sign_extend (wrap32 (add64 (mul64 stripe d) k))) spc) off
      ≡ (stripe * d + k) * spc + off
words_exact stripe d k spc off h s o =
    let chunk : wrap32 (add64 (mul64 stripe d) k) ≡ stripe * d + k = omega arith in
    let small : ltb (stripe * d + k) (2 ^ 31) ≡ true = ground arith in
    rw (chunk, small) (omega (arith, product-lt (stripe * d + k) spc h s))

pub word_of_parts :
    (d k : ℕ) (stripe spc off : ℕ)
    → stripe * d + k < 2 ^ 31
    → spc < 2 ^ 22
    → off < spc
    → (stripe * d + k) * spc + off < 2 ^ 64
word_of_parts d k stripe spc off h s o = omega (arith, product-lt (stripe * d + k) spc h s)
