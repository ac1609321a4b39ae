-- ===== src/Cache/Examples.antt =====
-- Runs of the stripe cache on small caches, and its theorems there.
use jraid.Common.{◌≡◌, ◌↔◌, true, false, some, none, arith, refl, [], ◌∷◌, ◌+◌}
use jraid.Stripe.{Conf}
use jraid.Cache.{
  find_stripe, walk, release_stripe, release_stripe_inactive, init_stripe, get_active_stripe_round,
  put_stripe, no_state,
}
use jraid.Cache.Invariant.{Inv}
use jraid.Cache.Release.{release_stripe-Inv, release_stripe_inactive-handle}
use jraid.Cache.Lookup.{find_stripe_iff}
use jraid.Cache.Acquire.{Served, get_active_stripe_round-Served}
use jraid.Samples.{
  layout-IsGood, fresh, fresh-Inv, fresh-HasRoom, fresh-InactiveIdle, used, used_head, used-Inv,
}

find_stripe_hit : find_stripe used 8 ≡ some 0
unfolding find_stripe walk
find_stripe_hit = refl

find_stripe_miss : find_stripe used 4104 ≡ none
unfolding find_stripe walk
find_stripe_miss = refl

find_stripe_iff_example :
    (find_stripe used 8 ≡ some 0)
    ↔ (((used.stripes 0).sector ≡ 8) × ((used.stripes 0).hashed ≡ true))
find_stripe_iff_example = find_stripe_iff used 8 0 used-Inv

release_stripe-Inv_example : Inv (release_stripe used 0)
release_stripe-Inv_example = release_stripe-Inv used 0 used-Inv (omega arith)

-- Stripe 0 in use, with STRIPE_HANDLE.
abbrev flagged : Conf
flagged = put_stripe used 0 (record used_head { state = record no_state { handle = true } })

flagged-Inv : Inv flagged
flagged-Inv = record {
  place = λ s. ground (arith, used-Inv.place s);
  idle = λ s. ground (arith, used-Inv.idle s);
  work = λ s. ground (arith, used-Inv.work s);
  active = used-Inv.active;
  counted = λ s. ground (arith, used-Inv.counted s);
  chained = λ s b. ground (arith, used-Inv.chained s b);
  distinct = λ s t. ground (arith, used-Inv.distinct s t);
  owned = λ s. ground (arith, used-Inv.owned s);
  few = used-Inv.few;
}

release_stripe_inactive-handle_example :
    (c' : Conf) × (release_stripe_inactive flagged 0 ≡ some c')
    × (c'.inactive_list ≡ 1 ∷ 0 ∷ [])
    × (c'.active_stripes + 1 ≡ 1)
    × ((c'.stripes 0).count ≡ 0)
    × ((c'.stripes 0).handle ≡ true)
    × (¬ Inv c')
    × (init_stripe c' 0 16 3 ≡ none)
release_stripe_inactive-handle_example =
    release_stripe_inactive-handle flagged 0 16 3 flagged-Inv refl refl

get_active_stripe_round-Served_example :
    Served fresh 8 false (get_active_stripe_round fresh 8 3 false)
get_active_stripe_round-Served_example =
    get_active_stripe_round-Served fresh 8 3 false fresh-Inv fresh-HasRoom layout-IsGood
      fresh-InactiveIdle
