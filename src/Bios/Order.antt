-- ===== src/Bios/Order.antt =====
-- The chain of the bios that wait on a device: its order and its overlaps.
use mathlib.Core.List.{Perm}
use mathlib.Core.List.Perm
use mathlib.Core.Option
use jraid.Common.{
  ℕ, ◌+◌, ◌/◌, ◌^◌, ◌≤◌, ◌<◌, ◌⊎◌, inl, inr, Option, none, some, List, [], ◌∷◌, ltb, arith,
  Bool-cases,
}
use jraid.Stripe.{Bio}
use jraid.Bios.{bio_end, insert_bio}

-- The sector after the last one of a bio.
abbrev pub last : Bio → ℕ
last b = b.bi_sector + b.bi_size / 512

-- A bio has a sector, and ends below 2^64.
abbrev pub IsSound : Bio → Type 0
IsSound b = (0 < b.bi_size / 512) × (last b < 2 ^ 64)

-- The bios start at `lo` or later, each where the one before it ends or later.
abbrev pub IsChain : ℕ → List Bio → Type 0
IsChain lo [] = Unit {0}
IsChain lo (b ∷ bs) = (lo ≤ b.bi_sector) × IsSound b × IsChain (last b) bs

-- Two bios have a sector in common.
abbrev pub Overlaps : Bio → Bio → Type 0
Overlaps a b = (a.bi_sector < last b) × (b.bi_sector < last a)

abbrev pub AnyOverlaps : Bio → List Bio → Type 0
AnyOverlaps bi [] = ⊥
AnyOverlaps bi (b ∷ bs) = Overlaps b bi ⊎ AnyOverlaps bi bs

-- What an insertion comes to: a chain with the one bio more, or an overlap.
abbrev pub Inserted : ℕ → Bio → List Bio → Option (List Bio) → Type 0
Inserted lo bi bs none = AnyOverlaps bi bs
Inserted lo bi bs (some bs') = IsChain lo bs' × Perm bs' (bi ∷ bs) × ¬ AnyOverlaps bi bs

-- A chain that starts where the bio ends does not meet it.
behind : (lo : ℕ) (bi : Bio) (bs : List Bio) → IsChain lo bs → last bi ≤ lo → ¬ AnyOverlaps bi bs
behind lo bi [] h p a = a
behind lo bi (b ∷ bs) h p (inl o) = omega arith
behind lo bi (b ∷ bs) h p (inr a) = behind (last b) bi bs h.2 (omega arith) a

-- A bio is kept in front of the insertion behind it.
keep_first :
    (lo : ℕ) (bi b : Bio) (bs : List Bio) (r : Option (List Bio))
    → lo ≤ b.bi_sector
    → IsSound b
    → last b ≤ bi.bi_sector
    → Inserted (last b) bi bs r
    → Inserted lo bi (b ∷ bs) (Option.map (λ t. b ∷ t) r)
keep_first lo bi b bs none p f q h = inr h
keep_first lo bi b bs (some bs') p f q h = (
  (p, f, h.0),
  Perm.trans (Perm.cons b h.1) (Perm.swap bi b bs),
  λ a. elim a [ inl o ↦ omega arith | inr a' ↦ h.2 a' ],
)

-- On a sorted chain without overlaps `__add_stripe_bio` refuses a bio, which has a sector and ends
-- below 2^64, exactly if it shares a sector with one that waits; else the bio joins the others,
-- and the chain is again sorted and without overlaps.
pub insert_bio-Inserted :
    (lo : ℕ) (bi : Bio) (bs : List Bio)
    → IsChain lo bs
    → lo ≤ bi.bi_sector
    → IsSound bi
    → Inserted lo bi bs (insert_bio bi bs)
unfolding insert_bio
insert_bio-Inserted lo bi [] h p f = ((p, f, tt), Perm.refl (bi ∷ []), λ a. a)
insert_bio-Inserted lo bi (b ∷ bs) h p f = elim (Bool-cases (ltb b.bi_sector bi.bi_sector)) [
  | inl e ↦ rw e (elim (Bool-cases (ltb bi.bi_sector (bio_end b))) [
    | inl o ↦ rw o (inl (ground arith))
    | inr o ↦ rw o (
        keep_first lo bi b bs (insert_bio bi bs) h.0 h.1 (ground arith)
          (insert_bio-Inserted (last b) bi bs h.2 (ground arith) f))
  ])
  | inr e ↦ rw e (elim (Bool-cases (ltb b.bi_sector (bio_end bi))) [
    | inl o ↦ rw o (inl (ground arith))
    | inr o ↦ rw o (
      (p, f, (ground arith, h.1, h.2)),
      Perm.refl (bi ∷ b ∷ bs),
      λ a. elim a [ inl x ↦ ground arith | inr a' ↦ behind (last b) bi bs h.2 (ground arith) a' ],
    )
  ])
]
