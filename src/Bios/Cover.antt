-- ===== src/Bios/Cover.antt =====
-- R5_OVERWRITE, and what the writes that wait cover of the page.
use jraid.Common.{
  ℕ, ◌+◌, ◌^◌, ◌≤◌, ◌<◌, ◌≡◌, ◌⊎◌, inl, inr, true, false, List, [], ◌∷◌, ltb, leb, if◌then◌else◌,
  arith, ltb→lt, ltb→le, Bool-cases, ◌↔◌, add64, refl, true≢false,
}
use jraid.Stripe.{Bio, Dev, stripe_sectors}
use jraid.Bios.{bio_end, covered_to, mark_overwrite}
use jraid.Bios.Order.{last, IsSound, IsChain}

-- A bio of the chain has the sector `x`.
abbrev pub Covers : List Bio → ℕ → Type 0
Covers [] x = ⊥
Covers (b ∷ bs) x = ((b.bi_sector ≤ x) × (x < last b)) ⊎ Covers bs x

-- Every sector from `lo` to `hi` is in a bio.
abbrev pub CoversRange : List Bio → ℕ → ℕ → Type 0
CoversRange bs lo hi = (x : ℕ) → lo ≤ x → x < hi → Covers bs x

-- A chain has no sector before its start.
before : (lo x : ℕ) (bs : List Bio) → IsChain lo bs → x < lo → ¬ Covers bs x
before lo x [] h p c = c
before lo x (b ∷ bs) h p (inl c) = omega arith
before lo x (b ∷ bs) h p (inr c) = before (last b) x bs h.2 (omega arith) c

-- The measure of `covered_to` up to the end `page + 8`: what it passes over is covered, and it stops
-- at a sector that is not, if it stops in the page.
record Measured (bs : List Bio) (page sector result : ℕ) : Type 0 where
  grows : sector ≤ result
  passed : CoversRange bs sector result
  stopped : result < page + 8 → ¬ Covers bs result

-- The sector that the loop has reached after a bio.
abbrev reach : ℕ → Bio → ℕ
reach sector b = if leb sector (bio_end b) then bio_end b else sector

reach-cases :
    (sector : ℕ) (b : Bio)
    → IsSound b
    → (last b ≤ reach sector b)
      × (sector ≤ reach sector b)
      × ((reach sector b ≡ last b) ⊎ (reach sector b ≡ sector))
reach-cases sector b h = ground arith

module _ (page sector : ℕ) (b : Bio) (bs : List Bio) (lo : ℕ) (h : IsChain lo (b ∷ bs)) where
  -- The loop ends before the bio.
  stay : (page + 8 ≤ sector) ⊎ (sector < b.bi_sector) → Measured (b ∷ bs) page sector sector
  stay e = record {
    grows = omega arith;
    passed = λ x p q. absurd (omega arith);
    stopped = λ q c. elim e [
      | inl p ↦ omega arith
      | inr p ↦ before b.bi_sector sector (b ∷ bs) (omega arith, h.1, h.2) p c
    ];
  }

  -- What the bio covers of the sectors that the loop passes over at it.
  step_covered : (x : ℕ) → b.bi_sector ≤ sector → sector ≤ x → x < reach sector b → x < last b
  step_covered x p q r =
      let (_, _, k) = reach-cases sector b h.1 in
      elim k [ inl e ↦ omega arith | inr e ↦ absurd (omega arith) ]

  -- The loop goes on behind the bio.
  pass :
      (result : ℕ)
      → b.bi_sector ≤ sector
      → Measured bs page (reach sector b) result
      → Measured (b ∷ bs) page sector result
  pass result p m =
      let (k, l, _) = reach-cases sector b h.1 in
      record {
        grows = omega (arith, k, l, m.grows);
        passed = λ x q r. elim (Bool-cases (ltb x (reach sector b))) [
          | inl e ↦ inl (omega arith, step_covered x p q (ltb→lt _ _ e))
          | inr e ↦ inr (m.passed x (ltb→le _ _ e) r)
        ];
        stopped = λ q c. elim c [ inl d ↦ omega (arith, k, m.grows, d.1) | inr d ↦ m.stopped q d ];
      }

  -- The bio reaches the end of the page.
  finish : b.bi_sector ≤ sector → page + 8 ≤ last b → Measured (b ∷ bs) page sector (reach sector b)
  finish p e =
      let (k, l, _) = reach-cases sector b h.1 in
      record {
        grows = l;
        passed = λ x q r. inl (omega arith, step_covered x p q r);
        stopped = λ q c. omega (arith, k, q, e);
      }

covered_to-Measured :
    (lo page sector : ℕ) (bs : List Bio)
    → IsChain lo bs
    → page + 8 < 2 ^ 64
    → Measured bs page sector (covered_to page bs sector)
unfolding covered_to
covered_to-Measured lo page sector [] h p = record {
  grows = omega arith;
  passed = λ x a b. absurd (omega arith);
  stopped = λ q c. c;
}
covered_to-Measured lo page sector (b ∷ bs) h p =
    let rest = covered_to-Measured (last b) page (reach sector b) bs h.2 p in
    elim (Bool-cases (ltb sector (add64 page stripe_sectors))) [
      | inr e ↦ rw e (stay page sector b bs lo h (inl (ground arith)))
      | inl e ↦ elim (Bool-cases (leb b.bi_sector sector)) [
        | inr d ↦ rw (e, d) (stay page sector b bs lo h (inr (ground arith)))
        | inl d ↦ elim (Bool-cases (ltb (bio_end b) (add64 page stripe_sectors))) [
          | inl f ↦ rw (e, d, f) (pass page sector b bs lo h _ (ground arith) rest)
          | inr f ↦ rw (e, d, f) (finish page sector b bs lo h (ground arith) (ground arith))
        ]
      ]
    ]

-- After a write was queued on a sorted chain without overlaps, on a device whose R5_OVERWRITE is
-- clear and whose page ends below 2^64, R5_OVERWRITE is set exactly if the waiting writes cover
-- every sector of the page.
pub mark_overwrite_iff :
    (lo : ℕ) (d : Dev)
    → IsChain lo d.towrite
    → d.sector + 8 < 2 ^ 64
    → d.flags.overwrite ≡ false
    → ((mark_overwrite d).flags.overwrite ≡ true) ↔ CoversRange d.towrite d.sector (d.sector + 8)
unfolding mark_overwrite
mark_overwrite_iff lo d h p o =
    let m = covered_to-Measured lo d.sector d.sector d.towrite h p in
    elim (Bool-cases
      (leb (add64 d.sector stripe_sectors) (covered_to d.sector d.towrite d.sector))) [
        | inl e ↦ rw e (λ _ x q r. m.passed x q (ground arith), λ _. refl)
        | inr e ↦ rw e (
          λ t. absurd (true≢false t o),
          λ c. absurd (m.stopped (ground arith) (c _ m.grows (ground arith))),
        )
      ]
