-- ===== src/Cache/Release.antt =====
-- `__release_stripe` and `release_stripe__`, and the lists that they put a stripe on.
use jraid.Common.{
  ℕ, ◌+◌, ◌<◌, ◌≡◌, true, false, length, arith, occ-append, length-append, length_le_of_occ, ◌≤◌,
  [], ◌∷◌, refl, ◌++◌, sub32, some, none, update,
}
use jraid.Stripe.{Conf}
use jraid.Cache.{release_stripe, release_stripe_inactive, init_stripe}
use jraid.Cache.Invariant.{Inv}

-- A stripe in use is counted by `active_stripes`.
in_use-active : (c : Conf) (id : ℕ) → Inv c → 0 < (c.stripes id).count → 0 < c.active_stripes
in_use-active c id v h =
    let short : length (id ∷ c.inactive_list) ≤ c.nr_stripes =
      length_le_of_occ c.nr_stripes (id ∷ c.inactive_list)
        (λ s. ground (arith, v.place s, v.place id)) in
    omega (arith, v.active, short)

-- `release_stripe` keeps the cache well formed, if the stripe has a user.
pub release_stripe-Inv :
    (c : Conf) (id : ℕ) → Inv c → 0 < (c.stripes id).count → Inv (release_stripe c id)
unfolding release_stripe
release_stripe-Inv c id v h = record {
  place = λ s. ground (
    arith,
    v.place s,
    v.place id,
    v.counted id,
    occ-append s c.inactive_list (id ∷ []),
    occ-append s c.handle_list (id ∷ []),
  );
  idle = λ s.
      ground (arith, v.idle s, v.place id, v.counted id, occ-append s c.inactive_list (id ∷ []));
  work =
      λ s. ground (arith, v.work s, v.place id, v.counted id, occ-append s c.handle_list (id ∷ []));
  active = ground (
    arith,
    v.active,
    v.few,
    v.counted id,
    in_use-active c id v h,
    length-append c.inactive_list (id ∷ []),
  );
  counted = λ s. ground (arith, v.counted s);
  chained = λ s b. ground (arith, v.chained s b);
  distinct = λ s t. ground (arith, v.distinct s t);
  owned = λ s. ground (arith, v.owned s);
  few = ground (arith, v.few);
}

pub count-release_stripe :
    (c : Conf) (id : ℕ)
    → Inv c
    → 0 < (c.stripes id).count
    → ((release_stripe c id).stripes id).count + 1 ≡ (c.stripes id).count
unfolding release_stripe
count-release_stripe c id v h = ground (arith, v.counted id)

pub devs-release_stripe :
    (c : Conf) (id t : ℕ) → ((release_stripe c id).stripes t).devs ≡ (c.stripes t).devs
unfolding release_stripe
devs-release_stripe c id t = ground arith

-- `release_stripe__` does what `__release_stripe` does on a stripe without STRIPE_HANDLE, and none of
-- its BUG()s is reached on a held stripe of a well formed cache.
release_stripe_inactive-same :
    (c : Conf) (id : ℕ)
    → Inv c
    → 0 < (c.stripes id).count
    → (c.stripes id).handle ≡ false
    → release_stripe_inactive c id ≡ some (release_stripe c id)
unfolding release_stripe release_stripe_inactive
release_stripe_inactive-same c id v h b =
    ground (arith, v.place id, v.active, in_use-active c id v h)

-- In a well formed cache, the last `release_stripe__` of a stripe with STRIPE_HANDLE puts it at the
-- end of the inactive ones, where one stripe less is active, no user has it and the bit is still set.
-- The cache is no longer well formed, and the stripe cannot be set up again.
pub release_stripe_inactive-handle :
    (c : Conf) (id sector pd : ℕ)
    → Inv c
    → (c.stripes id).count ≡ 1
    → (c.stripes id).handle ≡ true
    → (c' : Conf) × (release_stripe_inactive c id ≡ some c')
      × (c'.inactive_list ≡ c.inactive_list ++ (id ∷ []))
      × (c'.active_stripes + 1 ≡ c.active_stripes)
      × ((c'.stripes id).count ≡ 0)
      × ((c'.stripes id).handle ≡ true)
      × (¬ Inv c')
      × (init_stripe c' id sector pd ≡ none)
unfolding release_stripe_inactive init_stripe
release_stripe_inactive-handle c id sector pd v n b =
    let c' : Conf = record c {
      stripes = update c.stripes id (record (c.stripes id) { count = 0 });
      inactive_list = c.inactive_list ++ (id ∷ []);
      active_stripes = sub32 c.active_stripes 1;
    } in
    (
      c',
      ground (arith, n, v.place id, in_use-active c id v (omega (arith, n))),
      refl,
      omega (arith, in_use-active c id v (omega (arith, n)), v.active, v.few),
      ground arith,
      ground (arith, b),
      λ w. ground (arith, w.idle id, occ-append id c.inactive_list (id ∷ []), b),
      ground (arith, b),
    )
