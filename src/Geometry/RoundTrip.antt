-- ===== src/Geometry/RoundTrip.antt =====
-- `jraid5_compute_sector` and `compute_blocknr`, one after the other, on a good layout.
use native.Mathlib.Nat.{div-add-mod'}
use mathlib.Core.Path.{ap₂}
use jraid.Common.{
  ℕ, ◌+◌, ◌-◌, ◌*◌, ◌/◌, ◌%◌, ◌^◌, ◌<◌, ◌≡◌, ◌≢◌, false, some, ◌==◌, arith, ap, ==_refl, sym, ◌∙◌,
  subst, some_inj,
}
use jraid.Geometry.{Layout, Mapping, sectors_per_chunk, compute_sector, compute_blocknr, data_index}
use jraid.Geometry.Bounds.{
  IsGood, parity_disk, data_disk, mapping, parity_disk-lt, level_four_parity, compute_sector_exact,
}
use jraid.Geometry.Digits.{
  data_index-data_disk, data_index-lt, data_disk-data_index, mapping-digits, words_exact,
  word_of_parts, div_digits,
}

-- The way back from the block `k` of a stripe, whatever the check of the result compares.
back :
    (c : Layout) (stripe k off : ℕ)
    → IsGood c
    → k < c.raid_disks - 1
    → off < sectors_per_chunk c
    → stripe * (c.raid_disks - 1) + k < 2 ^ 31
    → compute_blocknr c
        (stripe * sectors_per_chunk c + off)
        (parity_disk c stripe)
        (data_disk c (parity_disk c stripe) k)
      ≡ some ((stripe * (c.raid_disks - 1) + k) * sectors_per_chunk c + off)
unfolding compute_blocknr
back c stripe k off g h o small =
    let spc : ℕ = sectors_per_chunk c in
    let pd : ℕ = parity_disk c stripe in
    let d : ℕ = c.raid_disks - 1 in
    let (quo, rem) = div_digits stripe spc off o in
    let index : data_index c pd (data_disk c pd k) ≡ k =
      data_index-data_disk c pd k g (parity_disk-lt c stripe g) (level_four_parity c stripe) h in
    let nonzero : (spc == 0) ≡ false = ground arith in
    rw (
      nonzero,
      quo,
      rem,
      index,
      words_exact stripe d k spc off small (omega arith) o,
      compute_sector_exact c ((stripe * d + k) * spc + off) pd g
          (word_of_parts d k stripe spc off small (omega arith) o),
      mapping-digits c stripe k off g h o,
      ==_refl (stripe * spc + off),
      ==_refl (data_disk c pd k),
      ==_refl pd,
    )

-- On a good layout `compute_blocknr` takes the place of an array sector below 2^64 back to that
-- sector, as long as the number of the sector's chunk fits an `int`.
pub compute_blocknr-compute_sector :
    (c : Layout) (r pd : ℕ) {m : Mapping}
    → IsGood c
    → r < 2 ^ 64
    → r / sectors_per_chunk c < 2 ^ 31
    → compute_sector c r c.raid_disks (c.raid_disks - 1) pd ≡ some m
    → compute_blocknr c m.new_sector m.pd_idx m.dd_idx ≡ some r
unfolding mapping
compute_blocknr-compute_sector c r pd {m} g h small e =
    let spc : ℕ = sectors_per_chunk c in
    let d : ℕ = c.raid_disks - 1 in
    let spot : m ≡ mapping c r = some_inj (sym e ∙ compute_sector_exact c r pd g h) in
    let chunk : r / spc / d * d + r / spc % d ≡ r / spc = div-add-mod' (r / spc) d in
    rw spot (
      back c (r / spc / d) (r / spc % d) (r % spc) g (omega arith) (omega arith) (rw chunk small)
      ∙ ap some (rw chunk (div-add-mod' r spc)))

-- On a good layout every place of a data block is used: for a sector of a disk that does not hold
-- the parity of the sector's stripe, `compute_blocknr` gives an array sector that `compute_sector`
-- puts there, if its chunk number fits an `int`.
pub compute_sector-compute_blocknr :
    (c : Layout) (sector i pd : ℕ)
    → IsGood c
    → i < c.raid_disks
    → i ≢ parity_disk c (sector / sectors_per_chunk c)
    → sector / sectors_per_chunk c * (c.raid_disks - 1)
        + data_index c (parity_disk c (sector / sectors_per_chunk c)) i
      < 2 ^ 31
    → (r : ℕ) × (compute_blocknr c sector (parity_disk c (sector / sectors_per_chunk c)) i ≡ some r)
      × (compute_sector c r c.raid_disks (c.raid_disks - 1) pd
          ≡ some (record {
            new_sector = sector;
            dd_idx = i;
            pd_idx = parity_disk c (sector / sectors_per_chunk c);
          }))
compute_sector-compute_blocknr c sector i pd g h ne small = (
  r,
  subst (λ t. compute_blocknr c t p i ≡ some r) whole
      (subst (λ t. compute_blocknr c (stripe * spc + off) p t ≡ some r) disk
        (back c stripe k off g low (omega arith) chunk)),
  compute_sector_exact c r pd g (word_of_parts d k stripe spc off chunk (omega arith) (omega arith))
      ∙ ap some (mapping-digits c stripe k off g low (omega arith) ∙ place_eq),
)
  where
    spc : ℕ
    spc = sectors_per_chunk c

    stripe : ℕ
    stripe = sector / spc

    off : ℕ
    off = sector % spc

    d : ℕ
    d = c.raid_disks - 1

    p : ℕ
    p = parity_disk c stripe

    k : ℕ
    k = data_index c p i

    r : ℕ
    r = (stripe * d + k) * spc + off

    low : k < d
    low = data_index-lt c p i g (parity_disk-lt c stripe g) (level_four_parity c stripe) h ne

    disk : data_disk c p k ≡ i
    disk =
        data_disk-data_index c p i g (parity_disk-lt c stripe g) (level_four_parity c stripe) h ne

    whole : stripe * spc + off ≡ sector
    whole = div-add-mod' sector spc

    chunk : stripe * d + k < 2 ^ 31
    chunk = small

    place_eq :
        ◌≡◌ {A = Mapping}
          (record { new_sector = stripe * spc + off; dd_idx = data_disk c p k; pd_idx = p })
          (record { new_sector = sector; dd_idx = i; pd_idx = p })
    place_eq = λ j. record { new_sector = whole j; dd_idx = disk j; pd_idx = p }

-- A block is found again from its disk.
data_disk_injective :
    (c : Layout) (stripe k k' : ℕ)
    → IsGood c
    → k < c.raid_disks - 1
    → k' < c.raid_disks - 1
    → data_disk c (parity_disk c stripe) k ≡ data_disk c (parity_disk c stripe) k'
    → k ≡ k'
data_disk_injective c stripe k k' g h h' e =
    let p : ℕ = parity_disk c stripe in
    let low : p < c.raid_disks = parity_disk-lt c stripe g in
    let four : (c.level ≡ 4 → p ≡ c.raid_disks - 1) = level_four_parity c stripe in
    sym (data_index-data_disk c p k g low four h)
    ∙ ap (data_index c p) e
    ∙ data_index-data_disk c p k' g low four h'

mapping_injective :
    (c : Layout) (r r' : ℕ)
    → IsGood c
    → (mapping c r).new_sector ≡ (mapping c r').new_sector
    → (mapping c r).dd_idx ≡ (mapping c r').dd_idx
    → r ≡ r'
unfolding mapping
mapping_injective c r r' g s i =
    let spc : ℕ = sectors_per_chunk c in
    let d : ℕ = c.raid_disks - 1 in
    let (quo, rem) = div_digits (r / spc / d) spc (r % spc) (omega arith) in
    let (quo', rem') = div_digits (r' / spc / d) spc (r' % spc) (omega arith) in
    let stripe : r / spc / d ≡ r' / spc / d = sym quo ∙ ap (λ t. t / spc) s ∙ quo' in
    let off : r % spc ≡ r' % spc = sym rem ∙ ap (λ t. t % spc) s ∙ rem' in
    let block : r / spc % d ≡ r' / spc % d =
      data_disk_injective c (r' / spc / d) (r / spc % d) (r' / spc % d) g (omega arith)
        (omega arith) (rw stripe at i) in
    let chunk : r / spc ≡ r' / spc =
      sym (div-add-mod' (r / spc) d)
      ∙ ap₂ (λ a b. a * d + b) stripe block
      ∙ div-add-mod' (r' / spc) d in
    sym (div-add-mod' r spc) ∙ ap₂ (λ a b. a * spc + b) chunk off ∙ div-add-mod' r' spc

-- On a good layout no two array sectors below 2^64 share a place on the disks.
pub compute_sector_injective :
    (c : Layout) (r r' pd : ℕ) {m m' : Mapping}
    → IsGood c
    → r < 2 ^ 64
    → r' < 2 ^ 64
    → compute_sector c r c.raid_disks (c.raid_disks - 1) pd ≡ some m
    → compute_sector c r' c.raid_disks (c.raid_disks - 1) pd ≡ some m'
    → m.new_sector ≡ m'.new_sector
    → m.dd_idx ≡ m'.dd_idx
    → r ≡ r'
compute_sector_injective c r r' pd {m} {m'} g h h' e e' s i =
    let spc : ℕ = sectors_per_chunk c in
    let d : ℕ = c.raid_disks - 1 in
    let spot : m ≡ mapping c r = some_inj (sym e ∙ compute_sector_exact c r pd g h) in
    let spot' : m' ≡ mapping c r' = some_inj (sym e' ∙ compute_sector_exact c r' pd g h') in
    mapping_injective c r r' g (rw spot at (rw spot' at s)) (rw spot at (rw spot' at i))
