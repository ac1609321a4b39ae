-- ===== src/Run/Chunk.antt =====
-- Which chunk sizes `do_jmd_run` accepts.
use native.Mathlib.Nat.{pow-le-pow_right}
use jraid.Common.{
  ℕ, zero, suc, ◌+◌, ◌-◌, ◌*◌, ◌%◌, ◌^◌, ◌≤◌, ◌<◌, ◌≡◌, ◌⊎◌, ◌↔◌, inl, inr, Bool, true, false, not,
  ◌==◌, ltb, leb, arith, refl, sym, ap, ◌∙◌, subst, Bool-cases, ==_iff, ltb→lt, if◌then◌else◌,
}
use jraid.Member.{Kernel}
use jraid.Analyze.Checks.{and_true}
use jraid.Start.{above}
use jraid.Run.{accepts_chunk, flipped}

-- What `ffz` gives: the place of a 0 below which all are ones.
abbrev pub FindsZero : (ℕ → ℕ) → Type 0
FindsZero ffz = (x n : ℕ) → x % 2 ^ (n + 1) ≡ 2 ^ n - 1 → ffz x ≡ n

-- A power of two from a page to 4 MB, or 2^31, which is negative as an `int`.
abbrev pub IsChunk : ℕ → Type 0
IsChunk c = (n : ℕ) × (c ≡ 2 ^ n) × (((12 ≤ n) × (n ≤ 22)) ⊎ (n ≡ 31))

-- The exponents of the powers that pass.
exponent_range :
    (n : ℕ)
    → above (4096 * 1024) (2 ^ n) ≡ false
    → ltb (2 ^ n) 4096 ≡ false
    → n < 32
    → ((12 ≤ n) × (n ≤ 22)) ⊎ (n ≡ 31)
exponent_range n high low h = elim (Bool-cases (ltb n 12)) [
  | inl e ↦ absurd (
      ground
        (arith, low, pow-le-pow_right {n = 2} (omega arith) {i = n} {j = 11} (ground (arith, e))))
  | inr e ↦ elim (Bool-cases (leb n 22)) [
    | inl f ↦ inl (ground (arith, e), ground (arith, f))
    | inr f ↦ elim (Bool-cases (n == 31)) [
      | inl g ↦ inr ((==_iff n 31).0 g)
      | inr g ↦ absurd (
          ground (
            arith,
            high,
            pow-le-pow_right {n = 2} (omega arith) {i = 23} {j = n} (ground (arith, f)),
            pow-le-pow_right {n = 2} (omega arith) {i = n} {j = 30} (ground (arith, g, h)),
          ))
    ]
  ]
]

accepts_chunk-IsChunk : (k : Kernel) (c : ℕ) → accepts_chunk k c ≡ true → IsChunk c
unfolding accepts_chunk
accepts_chunk-IsChunk k c h =
    let (front, low) = and_true _ (not (ltb c 4096)) h in
    let (high, power) = and_true (not (above (4096 * 1024) c)) _ front in
    let n = k.ffz (flipped c) in
    elim (Bool-cases (ltb n 32)) [
      | inl e ↦
          let same : c ≡ 2 ^ n =
            sym ((==_iff _ c).0 (ap (λ b. (if b then 2 ^ n else 0) == c) (sym e) ∙ power)) in
          (
            n,
            same,
            exponent_range n
                (subst (λ (t : ℕ). above (4096 * 1024) t ≡ false) same (falsified _ high))
                (subst (λ (t : ℕ). ltb t 4096 ≡ false) same (falsified _ low)) (ltb→lt n 32 e),
          )
      | inr e ↦
          let none_left =
            (==_iff 0 c).0 (ap (λ b. (if b then 2 ^ n else 0) == c) (sym e) ∙ power) in
          absurd (ground (arith, low, none_left))
    ]
  where
    falsified : (b : Bool) → not b ≡ true → b ≡ false
    falsified b h = ground (arith, h)

module _ (k : Kernel) (finds : FindsZero k.ffz) where
  -- A power of two passes, when its exponent is found and the two bounds hold.
  passes :
      (n : ℕ)
      → n < 32
      → flipped (2 ^ n) % 2 ^ (n + 1) ≡ 2 ^ n - 1
      → above (4096 * 1024) (2 ^ n) ≡ false
      → ltb (2 ^ n) 4096 ≡ false
      → accepts_chunk k (2 ^ n) ≡ true
  unfolding accepts_chunk
  passes n h low_ones high low =
      let found : k.ffz (flipped (2 ^ n)) ≡ n = finds (flipped (2 ^ n)) n low_ones in
      rw (found, high, low) (ground (arith, h))

  power_passes : (j : ℕ) → j ≤ 10 → accepts_chunk k (2 ^ (12 + j)) ≡ true
  power_passes zero h = passes 12 (omega arith) (omega arith) refl refl
  power_passes (suc zero) h = passes 13 (omega arith) (omega arith) refl refl
  power_passes (suc (suc zero)) h = passes 14 (omega arith) (omega arith) refl refl
  power_passes (suc (suc (suc zero))) h = passes 15 (omega arith) (omega arith) refl refl
  power_passes (suc (suc (suc (suc zero)))) h = passes 16 (omega arith) (omega arith) refl refl
  power_passes (suc (suc (suc (suc (suc zero))))) h =
      passes 17 (omega arith) (omega arith) refl refl
  power_passes (suc (suc (suc (suc (suc (suc zero)))))) h =
      passes 18 (omega arith) (omega arith) refl refl
  power_passes (suc (suc (suc (suc (suc (suc (suc zero))))))) h =
      passes 19 (omega arith) (omega arith) refl refl
  power_passes (suc (suc (suc (suc (suc (suc (suc (suc zero)))))))) h =
      passes 20 (omega arith) (omega arith) refl refl
  power_passes (suc (suc (suc (suc (suc (suc (suc (suc (suc zero))))))))) h =
      passes 21 (omega arith) (omega arith) refl refl
  power_passes (suc (suc (suc (suc (suc (suc (suc (suc (suc (suc zero)))))))))) h =
      passes 22 (omega arith) (omega arith) refl refl
  power_passes (suc (suc (suc (suc (suc (suc (suc (suc (suc (suc (suc j))))))))))) h =
      absurd (omega arith)

  -- When `ffz` gives the place of the lowest 0, a chunk size passes exactly if it is a power of two
  -- from 4096 to 4 MB, or 2^31.
  pub accepts_chunk_iff : (c : ℕ) → (accepts_chunk k c ≡ true) ↔ IsChunk c
  accepts_chunk_iff c = (accepts_chunk-IsChunk k c, passing c)
    where
      passing : (c : ℕ) → IsChunk c → accepts_chunk k c ≡ true
      passing c (n, e, inl h) =
          subst (λ (t : ℕ). accepts_chunk k t ≡ true)
            (ap (λ (t : ℕ). 2 ^ t) (omega (arith, h)) ∙ sym e)
            (power_passes (n - 12) (omega (arith, h)))
      passing c (n, e, inr h) =
          subst (λ (t : ℕ). accepts_chunk k t ≡ true) (ap (λ (t : ℕ). 2 ^ t) (sym h) ∙ sym e)
            (passes 31 (omega arith) (omega arith) refl refl)
