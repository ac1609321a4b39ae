-- ===== src/Geometry/Bounds.antt =====
-- `jraid5_compute_sector` on a good layout: of 2 to 27 disks, a known algorithm and chunks of a sector
-- or more.
use jraid.Common.{
  ℕ, ◌+◌, ◌-◌, ◌*◌, ◌/◌, ◌%◌, ◌^◌, ◌≤◌, ◌<◌, ◌≡◌, ◌≢◌, ◌||◌, some, ltb, leb, ◌==◌, if◌then◌else◌,
  wrap32, add32, sub64, arith, ◌⊎◌, ltb→lt, ltb→le, Bool-cases, inl, inr,
}
use native.Mathlib.Nat.{
  div-add-mod', div-le_self, mod-eq_of_lt, mod-eq-sub-mod, le_trans, le-add_right,
}
use jraid.Geometry.{Layout, Mapping, sectors_per_chunk, place, compute_sector}

-- A chunk of a sector or more, a known algorithm, and from 2 to MD_SB_DISKS disks. `do_jmd_run` and
-- `jraid5_run` do not refuse all others: an array of one disk and a negative layout pass.
pub record IsGood (c : Layout) : Type 0 where
  pub chunk_low : 512 ≤ c.chunk_size
  pub chunk_high : c.chunk_size < 2 ^ 31
  pub two_disks : 2 ≤ c.raid_disks
  pub few_disks : c.raid_disks ≤ 27
  pub known : c.algorithm ≤ 3

-- The parity disk of a stripe: it goes down from the last disk, up from the first, or stays.
unfoldable pub parity_disk : Layout → ℕ → ℕ
parity_disk c stripe =
    if c.level == 4
    then n - 1
    else if c.algorithm == 0 || c.algorithm == 2
    then n - 1 - stripe % n
    else stripe % n
  where
    n : ℕ
    n = c.raid_disks

-- The disk of the data block `k` of a stripe whose parity is on disk `pd`.
unfoldable pub data_disk : Layout → ℕ → ℕ → ℕ
data_disk c pd k =
    if c.level == 4
    then k
    else if c.algorithm == 0 || c.algorithm == 1
    then (if leb pd k then k + 1 else k)
    else (pd + 1 + k) % c.raid_disks

-- The wrapped parity index of the left layouts.
wrap-left : (n r : ℕ) → 0 < n → n ≤ 27 → wrap32 (sub64 (n - 1) (r % n)) ≡ n - 1 - r % n
wrap-left n r p h = omega arith

wrap-right : (n r : ℕ) → 0 < n → n ≤ 27 → wrap32 (r % n) ≡ r % n
wrap-right n r p h = omega arith

wrap-sum : (a k : ℕ) → a < 27 → k < 27 → add32 (add32 a 1) k ≡ a + 1 + k
wrap-sum a k p h = omega arith

wrap-suc : (k : ℕ) → k < 27 → add32 k 1 ≡ k + 1
wrap-suc k h = omega arith

pub place_exact :
    (c : Layout) (stripe k pd : ℕ)
    → IsGood c
    → k < c.raid_disks - 1
    → place c c.raid_disks (c.raid_disks - 1) stripe k pd
      ≡ some (data_disk c (parity_disk c stripe) k, parity_disk c stripe)
unfolding place parity_disk data_disk
place_exact c stripe k pd g h = ground (
  arith,
  wrap-left c.raid_disks stripe (omega arith) (omega arith),
  wrap-right c.raid_disks stripe (omega arith) (omega arith),
  wrap-suc k (omega arith),
  wrap-sum (stripe % c.raid_disks) k (omega arith) (omega arith),
  wrap-sum (c.raid_disks - 1 - stripe % c.raid_disks) k (omega arith) (omega arith),
)

pub parity_disk-lt : (c : Layout) (stripe : ℕ) → IsGood c → parity_disk c stripe < c.raid_disks
unfolding parity_disk
parity_disk-lt c stripe g = ground arith

pub data_disk-lt :
    (c : Layout) (pd k : ℕ) → IsGood c → k < c.raid_disks - 1 → data_disk c pd k < c.raid_disks
unfolding data_disk
data_disk-lt c pd k g h = ground arith

-- A sum of two positions, taken round the disks.
pub rotate-cases :
    (n pd k : ℕ)
    → pd < n
    → k < n
    → (((pd + 1 + k) % n ≡ pd + 1 + k) × (pd + 1 + k < n))
      ⊎ (((pd + 1 + k) % n + n ≡ pd + 1 + k) × (n ≤ pd + 1 + k))
rotate-cases n pd k h p = elim (Bool-cases (ltb (pd + 1 + k) n)) [
  | inl e ↦ inl (mod-eq_of_lt (ltb→lt _ _ e), ltb→lt _ _ e)
  | inr e ↦
      let low : n ≤ pd + 1 + k = ltb→le _ _ e in
      inr (
        omega (arith, mod-eq-sub-mod low, mod-eq_of_lt {n = pd + 1 + k - n} {m = n} (omega arith)),
        low,
      )
]

pub level_four_parity :
    (c : Layout) (stripe : ℕ) → c.level ≡ 4 → parity_disk c stripe ≡ c.raid_disks - 1
unfolding parity_disk
level_four_parity c stripe e = ground arith

pub data_disk-ne :
    (c : Layout) (pd k : ℕ)
    → IsGood c
    → pd < c.raid_disks
    → (c.level ≡ 4 → pd ≡ c.raid_disks - 1)
    → k < c.raid_disks - 1
    → data_disk c pd k ≢ pd
unfolding data_disk
data_disk-ne c pd k g p four h e =
    ground (arith, four, rotate-cases c.raid_disks pd k p (omega arith))

-- The place of a sector of the array, with no word in sight.
unfoldable pub mapping : Layout → ℕ → Mapping
mapping c r =
    let spc = sectors_per_chunk c in
    let stripe = r / spc / (c.raid_disks - 1) in
    record {
      new_sector = stripe * spc + r % spc;
      dd_idx = data_disk c (parity_disk c stripe) (r / spc % (c.raid_disks - 1));
      pd_idx = parity_disk c stripe;
    }

pub new_sector-le : (r spc d : ℕ) → r / spc / d * spc + r % spc ≤ r
new_sector-le r spc d = grind (arith, div-le_self (r / spc) d, div-add-mod' r spc)

-- On a good layout the code computes that place: no word wraps and no division faults.
pub compute_sector_exact :
    (c : Layout) (r pd : ℕ)
    → IsGood c
    → r < 2 ^ 64
    → compute_sector c r c.raid_disks (c.raid_disks - 1) pd ≡ some (mapping c r)
unfolding compute_sector mapping
compute_sector_exact c r pd g h = ground (
  arith,
  new_sector-le r spc n,
  le_trans (le-add_right (r / spc / n * spc) (r % spc)) (new_sector-le r spc n),
  place_exact c (r / spc / n) (r / spc % n) pd g (omega arith),
)
  where
    spc : ℕ
    spc = sectors_per_chunk c

    n : ℕ
    n = c.raid_disks - 1
