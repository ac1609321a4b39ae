-- ===== src/Geometry.antt =====
-- Where a sector of the array lives on its disks: the address arithmetic of src/jraid5.c.
pub mod Bounds
pub mod Digits
pub mod RoundTrip
pub mod Parity
mod Examples
use jraid.Common.{
  ℕ, suc, ◌+◌, ◌-◌, ◌*◌, ◌/◌, ◌%◌, ◌^◌, ◌≤◌, ◌<◌, Bool, true, false, ◌&&◌, ◌||◌, not, Option, none,
  some, ◌>>=◌, ltb, leb, ◌==◌, if◌then◌else◌, wrap32, wrap64, add32, sub32, add64, sub64, mul64,
  div?, mod?,
}

-- The fields of `struct jraid5_conf` that the address arithmetic reads. The C fields are `int`s;
-- they come from the `__u32` fields of the superblock and are not negative.
pub record Layout : Type 0 where
  pub chunk_size : ℕ
  pub level : ℕ
  pub algorithm : ℕ
  pub raid_disks : ℕ

abbrev pub algorithm_left_asymmetric : ℕ
algorithm_left_asymmetric = 0

abbrev pub algorithm_right_asymmetric : ℕ
algorithm_right_asymmetric = 1

abbrev pub algorithm_left_symmetric : ℕ
algorithm_left_symmetric = 2

abbrev pub algorithm_right_symmetric : ℕ
algorithm_right_symmetric = 3

-- `chunk_size >> 9`
abbrev pub sectors_per_chunk : Layout → ℕ
sectors_per_chunk c = c.chunk_size / 512

-- `(*dd_idx)++` past the parity disk, in 32 bits.
abbrev skip_parity : ℕ → ℕ → ℕ
skip_parity dd pd = if leb pd dd then add32 dd 1 else dd

-- The switch on the algorithm: the data disk and the parity disk of a stripe. `pd` is what the
-- caller's `*pd_idx` held, which an unknown algorithm leaves alone. `data_disks - stripe %
-- raid_disks` is an `unsigned long`, cut to `unsigned int` by the assignment.
unfoldable pub place : Layout → ℕ → ℕ → ℕ → ℕ → ℕ → Option (ℕ × ℕ)
place c raid_disks data_disks stripe dd pd =
    if c.level == 4
    then some (dd, data_disks)
    else if c.algorithm == algorithm_left_asymmetric
    then left_asymmetric
    else if c.algorithm == algorithm_right_asymmetric
    then right_asymmetric
    else if c.algorithm == algorithm_left_symmetric
    then left_symmetric
    else if c.algorithm == algorithm_right_symmetric
    then right_symmetric
    else some (dd, pd)
  where
    left_asymmetric : Option (ℕ × ℕ)
    left_asymmetric = do
      rem ← mod? stripe raid_disks
      let pd' = wrap32 (sub64 data_disks rem)
      some (skip_parity dd pd', pd')

    right_asymmetric : Option (ℕ × ℕ)
    right_asymmetric = do
      rem ← mod? stripe raid_disks
      let pd' = wrap32 rem
      some (skip_parity dd pd', pd')

    left_symmetric : Option (ℕ × ℕ)
    left_symmetric = do
      rem ← mod? stripe raid_disks
      let pd' = wrap32 (sub64 data_disks rem)
      dd' ← mod? (add32 (add32 pd' 1) dd) raid_disks
      some (dd', pd')

    right_symmetric : Option (ℕ × ℕ)
    right_symmetric = do
      rem ← mod? stripe raid_disks
      let pd' = wrap32 rem
      dd' ← mod? (add32 (add32 pd' 1) dd) raid_disks
      some (dd', pd')

pub record Mapping : Type 0 where
  pub new_sector : ℕ
  pub dd_idx : ℕ
  pub pd_idx : ℕ

-- `jraid5_compute_sector`: `none` is the division by zero that a chunk below a sector, or an
-- array of one disk, runs into.
unfoldable pub compute_sector : Layout → ℕ → ℕ → ℕ → ℕ → Option Mapping
compute_sector c r_sector raid_disks data_disks pd = do
  chunk_number ← div? r_sector spc
  chunk_rem ← mod? r_sector spc
  stripe ← div? chunk_number data_disks
  dd ← mod? chunk_number data_disks
  (dd', pd') ← place c raid_disks data_disks stripe (wrap32 dd) pd
  some (record {
    new_sector = add64 (mul64 stripe spc) (wrap32 chunk_rem);
    dd_idx = dd';
    pd_idx = pd';
  })
  where
    spc : ℕ
    spc = sectors_per_chunk c

-- The conversion of an `int`, given by its 32 bits, to the 64-bit `sector_t`.
abbrev pub sign_extend : ℕ → ℕ
sign_extend a = if ltb a (2 ^ 31) then a else a + (2 ^ 64 - 2 ^ 32)

-- The data index of disk `i` in its stripe: the switch of `compute_blocknr`, on 64-bit patterns
-- of the `int`s that it computes with.
unfoldable pub data_index : Layout → ℕ → ℕ → ℕ
data_index c pd i =
    if c.algorithm == algorithm_left_asymmetric || c.algorithm == algorithm_right_asymmetric
    then (if ltb pd i then sub64 i 1 else i)
    else if c.algorithm == algorithm_left_symmetric || c.algorithm == algorithm_right_symmetric
    then sub64 (if ltb i pd then i + c.raid_disks else i) (pd + 1)
    else i

-- `compute_blocknr`: `sector` and `pd` are those of the stripe head. The result is 0 where the
-- way back does not lead to the same place; `none` is a division by zero.
unfoldable pub compute_blocknr : Layout → ℕ → ℕ → ℕ → Option ℕ
compute_blocknr c sector pd i = do
  stripe ← div? sector spc
  chunk_offset ← mod? sector spc
  let chunk_number = wrap32 (add64 (mul64 stripe data_disks) (data_index c pd i))
  let r_sector = add64 (mul64 (sign_extend chunk_number) spc) chunk_offset
  check ← compute_sector c r_sector c.raid_disks data_disks pd
  some (
      if check.new_sector == sector && check.dd_idx == i && check.pd_idx == pd then r_sector else 0)
  where
    spc : ℕ
    spc = sectors_per_chunk c

    data_disks : ℕ
    data_disks = c.raid_disks - 1
