-- ===== src/Array/Sizes.antt =====
-- The size of the array: its capacity, and where a request below it goes.
use Prim.Native.Nat.{bit_and}
use native.Mathlib.Nat.{div-mul-le_self, mul-le-mul_right, mul-le-mul_left, mul_assoc, mul-le-mul}
use jraid.Common.{
  ℕ, suc, ◌+◌, ◌-◌, ◌*◌, ◌/◌, ◌%◌, ◌^◌, ◌≤◌, ◌<◌, ◌≡◌, some, arith, sym, ap, subst, some_inj, ◌∙◌,
  Bool-cases, inl, inr, leb, leb→le, leb→lt, sub32,
}
use jraid.Common.Masks.{mask_64, mask_16384}
use jraid.Geometry.{Layout, Mapping, compute_sector, sign_extend}
use jraid.Geometry.Bounds.{IsGood, mapping, compute_sector_exact}
use jraid.Geometry.Parity.{compute_sector_bounds}
use jraid.Superblock.{Superblock}
use jraid.Member.{Jmddev}
use jraid.Array.{jmddev_size, chunk_mask}

-- A sector below `n` times `s` sectors, on `n` disks of which one has the parity.
stays : (x u d : ℕ) → 1 ≤ d → x < 64 * (u * suc d) → x / 64 / d * 64 + x % 64 < 128 * u
stays x u d one h =
    let q : ℕ = x / 64 / d in
    elim (Bool-cases (leb (2 * u) q)) [
      | inr few ↦ omega (arith, leb→lt _ _ few)
      | inl many ↦
          let much : 2 * u * d ≤ q * d = mul-le-mul_right d (leb→le _ _ many) in
          let some_more : u * 1 ≤ u * d = mul-le-mul_left u one in
          let expand : u * suc d ≡ u * d + u = grind arith in
          let twice : 2 * u * d ≡ 2 * (u * d) = grind arith in
          absurd (omega (arith, h, div-mul-le_self (x / 64) d, much, some_more, expand, twice))
    ]

-- The capacity that `add_store` sets for an array of `n` disks, whose superblock has a size of a
-- word and whose `chunk_sectors` is that of `set_array_info`: half of the size of a member, in
-- whole units of 16384 sectors, once for each disk.
capacity-eq :
    (a : Jmddev) (sb : Superblock) (n : ℕ)
    → a.sb ≡ some sb
    → a.chunk_sectors ≡ 16384
    → sb.size < 2 ^ 32
    → n ≤ 27
    → jmddev_size a (n + 1) ≡ (sb.size / 2 - sb.size / 2 % 16384) * n
unfolding jmddev_size
capacity-eq a sb n e c low few =
    let half : ℕ = sb.size / 2 in
    let masked : bit_and half (2 ^ 64 - 16384) ≡ half - half % 16384 =
      mask_16384 half (omega arith) in
    let disks : sign_extend (sub32 (n + 1) 1) ≡ n = ground (arith, few) in
    let small : (half - half % 16384) * n ≤ 2 ^ 31 * 27 =
      mul-le-mul {n₂ = 2 ^ 31} (omega arith) few in
    rw (jmddev_size, e, c, masked, disks) (omega (arith, small))

-- A disk of the usual array: chunks of 32 KiB.
abbrev usual_layout : ℕ → ℕ → ℕ → Layout
usual_layout level algorithm n = record {
  chunk_size = 32768;
  level = level;
  algorithm = algorithm;
  raid_disks = n;
}

-- For an array of 2 to 27 disks with a layout from 0 to 3, chunks of 32 KiB, a `chunk_sectors` of
-- 16384 and a size of a word, each sector below the capacity that `add_store` asks `jmddev_size` for goes to a disk of the
-- array, and there to a sector below the size in the superblock.
pub jmddev_size-within :
    (a : Jmddev) (sb : Superblock) (level algorithm n x pd : ℕ)
    → a.sb ≡ some sb
    → a.chunk_sectors ≡ 16384
    → sb.size < 2 ^ 32
    → 2 ≤ n
    → n ≤ 27
    → algorithm ≤ 3
    → x < jmddev_size a (n + 1)
    → (m : Mapping) × (compute_sector (usual_layout level algorithm n) x n (n - 1) pd ≡ some m)
      × (m.dd_idx < n)
      × (m.new_sector < sb.size)
unfolding mapping
jmddev_size-within a sb level algorithm n x pd e c low two few known h =
    let layout : Layout = usual_layout level algorithm n in
    let good : IsGood layout = record {
      chunk_low = omega arith;
      chunk_high = omega arith;
      two_disks = two;
      few_disks = few;
      known = known;
    } in
    let half : ℕ = sb.size / 2 in
    let small : (half - half % 16384) * n ≤ 2 ^ 31 * 27 =
      mul-le-mul {n₂ = 2 ^ 31} (omega arith) few in
    let below : x < (half - half % 16384) * n =
      subst (λ k. x < k) (capacity-eq a sb n e c low few) h in
    let (m, found, dd, _, _, _) =
      compute_sector_bounds layout x pd good (omega (arith, below, small)) in
    let u : ℕ = (half - half % 16384) / 64 in
    let whole : half - half % 16384 ≡ 64 * u = omega arith in
    let enough : x < 64 * (u * suc (n - 1)) =
      subst (λ k. x < 64 * (u * k)) (omega arith)
        (subst (λ k. x < k) (ap (λ k. k * n) whole ∙ mul_assoc 64 u n) below) in
    let same : mapping layout x ≡ m =
      some_inj
        (sym (compute_sector_exact layout x pd good (omega (arith, below, small))) ∙ found) in
    (
      m,
      found,
      dd,
      subst (λ t. t.new_sector < sb.size) same
          (omega (arith, stays x u (n - 1) (omega arith) enough)),
    )

-- With chunks of 32 KiB the size of a member is cut to its lower 32 bits, and then to whole chunks.
pub chunk_mask_words : (size : ℕ) → chunk_mask 32768 size ≡ size % 2 ^ 32 - size % 64
unfolding chunk_mask
chunk_mask_words size = mask_64 size
