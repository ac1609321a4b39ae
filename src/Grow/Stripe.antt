-- ===== src/Grow/Stripe.antt =====
-- One stripe more in the cache: its devices, and what it changes.
use jraid.Common.{
  ℕ, zero, suc, ◌+◌, ◌^◌, ◌<◌, ◌≡◌, ◌==◌, Bool, true, List, [], ◌∷◌, ◌++◌, if◌then◌else◌, arith,
  refl, ap, sym, ◌∙◌, subst, Bool-cases, inl, inr, occ, occ-append, length,
}
use jraid.Geometry.Bounds.{IsGood}
use jraid.Stripe.{Dev, Conf}
use jraid.Cache.{release_stripe}
use jraid.Cache.Build.{AllIdle}
use jraid.Cache.Invariant.{Inv}
use jraid.Cache.Release.{release_stripe-Inv}
use jraid.Request.Total.{IsReady}
use jraid.Grow.{bare, grow_buffers, newborn}

length-bare : (num : ℕ) → length (bare num) ≡ num
length-bare zero = refl
length-bare (suc num) = ap suc (length-bare num)

pub length-grow_buffers : (ok : ℕ → Bool) (n num : ℕ) → length (grow_buffers ok n num).devs ≡ num
unfolding grow_buffers
length-grow_buffers ok n zero = refl
length-grow_buffers ok n (suc num) =
    ground (arith, length-grow_buffers ok (suc n) num, length-bare (suc num))

AllIdle-bare : (num : ℕ) → AllIdle (bare num)
AllIdle-bare zero = tt
AllIdle-bare (suc num) = (refl, AllIdle-bare num)

pub AllIdle-grow_buffers : (ok : ℕ → Bool) (n num : ℕ) → AllIdle (grow_buffers ok n num).devs
unfolding grow_buffers
AllIdle-grow_buffers ok n zero = tt
AllIdle-grow_buffers ok n (suc num) = elim (Bool-cases (ok n)) [
  | inl e ↦ rw e (refl, AllIdle-grow_buffers ok (suc n) num)
  | inr e ↦ rw e (refl, AllIdle-bare num)
]

newborn-Inv :
    (c : Conf) (devs : List Dev) → Inv c → c.nr_stripes + 1 < 2 ^ 31 → Inv (newborn c devs)
unfolding newborn
newborn-Inv c devs v h = record {
  place = λ s. ground (arith, v.place s);
  idle = λ s. ground (arith, v.idle s, v.place s);
  work = λ s. ground (arith, v.work s, v.place s);
  active = ground (arith, v.active);
  counted = λ s. ground (arith, v.counted s);
  chained = λ s b. ground (arith, v.chained s b, v.owned s);
  distinct = λ s t. ground (arith, v.distinct s t);
  owned = λ s. ground (arith, v.owned s);
  few = ground arith;
}

-- The cache with one more stripe.
unfoldable pub added : Conf → List Dev → Conf
added c devs = release_stripe (newborn c devs) c.nr_stripes

added-Inv : (c : Conf) (devs : List Dev) → Inv c → c.nr_stripes + 1 < 2 ^ 31 → Inv (added c devs)
unfolding added newborn
added-Inv c devs v h =
    release_stripe-Inv (newborn c devs) c.nr_stripes (newborn-Inv c devs v h) (ground arith)

-- The devices have their pages.
abbrev pub AllPaged : List Dev → Type 0
AllPaged [] = Unit {0}
AllPaged (d ∷ ds) = (d.page ≡ true) × AllPaged ds

abbrev pub IsPaged : Conf → Type 0
IsPaged c = (s : ℕ) → s < c.nr_stripes → AllPaged (c.stripes s).devs

pub AllPaged-grow_buffers :
    (ok : ℕ → Bool) (n num : ℕ)
    → (grow_buffers ok n num).complete ≡ true
    → AllPaged (grow_buffers ok n num).devs
unfolding grow_buffers
AllPaged-grow_buffers ok n zero h = tt
AllPaged-grow_buffers ok n (suc num) h = elim (Bool-cases (ok n)) [
  | inl e ↦ rw e (refl, AllPaged-grow_buffers ok (suc n) num (ground (arith, e, h)))
  | inr e ↦ ground (arith, e, h)
]

module _ (c : Conf) (devs : List Dev) where
  added-devs :
      (s : ℕ)
      → ((added c devs).stripes s).devs ≡ (if s == c.nr_stripes then devs else (c.stripes s).devs)
  unfolding added newborn release_stripe
  added-devs s = ground arith

  added-count :
      (s : ℕ)
      → ((added c devs).stripes s).count ≡ (if s == c.nr_stripes then 0 else (c.stripes s).count)
  unfolding added newborn release_stripe
  added-count s = ground arith

  pub added-inactive_list : (added c devs).inactive_list ≡ c.inactive_list ++ (c.nr_stripes ∷ [])
  unfolding added newborn release_stripe
  added-inactive_list = ground arith

  pub added-nr_stripes : (added c devs).nr_stripes ≡ c.nr_stripes + 1
  unfolding added newborn release_stripe
  added-nr_stripes = ground arith

  pub added-layout : (added c devs).layout ≡ c.layout
  unfolding added newborn release_stripe
  added-layout = ground arith

module _ (c : Conf) (devs : List Dev) (r : IsReady c) (few : c.nr_stripes + 1 < 2 ^ 31) where
  pub added-IsReady : AllIdle devs → length devs ≡ c.layout.raid_disks → IsReady (added c devs)
  added-IsReady idle built = record {
    inv = added-Inv c devs r.inv few;
    good = subst IsGood (sym (added-layout c devs)) r.good;
    idle = λ s h. elim (Bool-cases (s == c.nr_stripes)) [
      | inl e ↦ subst AllIdle (sym (added-devs c devs s ∙ rw e refl)) idle
      | inr e ↦ subst AllIdle (sym (added-devs c devs s ∙ rw e refl)) (
          r.idle s (
            ground (
              arith,
              e,
              h,
              ap (occ s) (added-inactive_list c devs),
              occ-append s c.inactive_list (c.nr_stripes ∷ []),
            )))
    ];
    built = λ s h. ground (
      arith,
      added-devs c devs s,
      built,
      r.built s,
      added-nr_stripes c devs,
      ap (λ l. l.raid_disks) (added-layout c devs),
    );
    room = λ s. ground (arith, added-count c devs s, r.room s);
  }

  pub added-IsPaged : IsPaged c → AllPaged devs → IsPaged (added c devs)
  added-IsPaged old new s h = elim (Bool-cases (s == c.nr_stripes)) [
    | inl e ↦ subst AllPaged (sym (added-devs c devs s ∙ rw e refl)) new
    | inr e ↦
        subst AllPaged (sym (added-devs c devs s ∙ rw e refl))
          (old s (ground (arith, e, h, added-nr_stripes c devs)))
  ]
