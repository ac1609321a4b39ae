-- ===== src/Geometry/Parity.antt =====
-- The disks of the data and of the parity that `jraid5_compute_sector` gives.
use native.Mathlib.Nat.{mod-add-mod, mod-eq_of_lt, mod-eq-sub-mod}
use jraid.Common.{
  ℕ, ◌+◌, ◌-◌, ◌/◌, ◌%◌, ◌^◌, ◌≤◌, ◌<◌, ◌≡◌, ◌≢◌, some, arith, ap, sym, ◌∙◌, some_inj, inl, inr,
  Bool-cases, ltb, ltb→lt, ltb→le,
}
use jraid.Geometry.{Layout, Mapping, sectors_per_chunk, compute_sector}
use jraid.Geometry.Bounds.{
  IsGood, parity_disk, mapping, parity_disk-lt, level_four_parity, compute_sector_exact,
  data_disk-lt, data_disk-ne, new_sector-le,
}
use jraid.Geometry.Digits.{div_digits}

-- On a good layout, and for a sector below 2^64, `jraid5_compute_sector` gives a data disk and a
-- parity disk of the array, two different ones, and a sector that is no larger than the array's.
pub compute_sector_bounds :
    (c : Layout) (r pd : ℕ)
    → IsGood c
    → r < 2 ^ 64
    → (m : Mapping) × (compute_sector c r c.raid_disks (c.raid_disks - 1) pd ≡ some m)
      × (m.dd_idx < c.raid_disks)
      × (m.pd_idx < c.raid_disks)
      × (m.dd_idx ≢ m.pd_idx)
      × (m.new_sector ≤ r)
unfolding mapping
compute_sector_bounds c r pd g h = (
  mapping c r,
  compute_sector_exact c r pd g h,
  data_disk-lt c (parity_disk c stripe) (r / spc % d) g (omega arith),
  parity_disk-lt c stripe g,
  data_disk-ne c (parity_disk c stripe) (r / spc % d) g (parity_disk-lt c stripe g)
      (level_four_parity c stripe) (omega arith),
  new_sector-le r spc d,
)
  where
    spc : ℕ
    spc = sectors_per_chunk c

    d : ℕ
    d = c.raid_disks - 1

    stripe : ℕ
    stripe = r / spc / d

-- Within `n` numbers in a row the remainders by `n` are different.
mod_once : (n s t : ℕ) → t < n → (s + t) % n ≡ s % n → t ≡ 0
mod_once n s t h e =
    let e' : (s % n + t) % n ≡ s % n = mod-add-mod s n t ∙ e in
    elim (Bool-cases (ltb (s % n + t) n)) [
      | inl low ↦ omega (arith, mod-eq_of_lt (ltb→lt _ _ low))
      | inr high ↦ omega (
        arith,
        mod-eq-sub-mod (ltb→le _ _ high),
        mod-eq_of_lt {n = s % n + t - n} {m = n} (omega (arith, ltb→le _ _ high)),
        ltb→le _ _ high,
      )
    ]

parity_disk_once :
    (c : Layout) (s t : ℕ)
    → IsGood c
    → c.level ≢ 4
    → t < c.raid_disks
    → parity_disk c (s + t) ≡ parity_disk c s
    → t ≡ 0
unfolding parity_disk
parity_disk_once c s t g four h e = mod_once c.raid_disks s t h (ground arith)

mapping-stripe :
    (c : Layout) (r : ℕ)
    → IsGood c
    → (mapping c r).pd_idx ≡ parity_disk c ((mapping c r).new_sector / sectors_per_chunk c)
unfolding mapping
mapping-stripe c r g =
    let (quo, _) =
      div_digits (r / sectors_per_chunk c / (c.raid_disks - 1)) (sectors_per_chunk c)
        (r % sectors_per_chunk c) (omega arith) in
    ap (parity_disk c) (sym quo)

-- On a good layout outside level 4 the parity is spread over the disks: among `raid_disks` stripes
-- in a row no two have their parity on the same disk.
parity_spread :
    (c : Layout) (r r' pd : ℕ) {m m' : Mapping}
    → IsGood c
    → c.level ≢ 4
    → r < 2 ^ 64
    → r' < 2 ^ 64
    → compute_sector c r c.raid_disks (c.raid_disks - 1) pd ≡ some m
    → compute_sector c r' c.raid_disks (c.raid_disks - 1) pd ≡ some m'
    → m.new_sector / sectors_per_chunk c ≤ m'.new_sector / sectors_per_chunk c
    → m'.new_sector / sectors_per_chunk c < m.new_sector / sectors_per_chunk c + c.raid_disks
    → m.pd_idx ≡ m'.pd_idx
    → m.new_sector / sectors_per_chunk c ≡ m'.new_sector / sectors_per_chunk c
parity_spread c r r' pd {m} {m'} g four h h' e e' low high same =
    let spot : m ≡ mapping c r = some_inj (sym e ∙ compute_sector_exact c r pd g h) in
    let spot' : m' ≡ mapping c r' = some_inj (sym e' ∙ compute_sector_exact c r' pd g h') in
    let s : ℕ = m.new_sector / sectors_per_chunk c in
    let s' : ℕ = m'.new_sector / sectors_per_chunk c in
    let p : m.pd_idx ≡ parity_disk c s = rw spot (mapping-stripe c r g) in
    let p' : m'.pd_idx ≡ parity_disk c s' = rw spot' (mapping-stripe c r' g) in
    let sum : s + (s' - s) ≡ s' = omega arith in
    omega (
      arith,
      parity_disk_once c s (s' - s) g four (omega arith)
          (ap (parity_disk c) sum ∙ sym p' ∙ sym same ∙ p),
    )
