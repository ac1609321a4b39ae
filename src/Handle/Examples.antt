-- ===== src/Handle/Examples.antt =====
-- A run of `handle_stripe` on a stripe with one write, and its theorems there.
use jraid.Common.{◌≡◌, true, [], ◌∷◌, map, length, arith, refl, ℕ, ◌+◌, ◌≤◌, ◌≢◌, ◌||◌}
use jraid.Cache.Invariant.{Inv}
use jraid.Handle.{Request, handle_stripe, schedule, scan_dev, take_want}
use jraid.Handle.Plan.{handle_stripe-planned, planned, due}
use jraid.Handle.Effect.{lacks, handle_stripe_effect}
use jraid.Samples.{used, used_head, used-Inv, writing}

-- The page at sector 8 of the second disk.
abbrev write_page : Request
write_page = record { disk = 1; bdev = 101; write = true; bi_sector = 8; bi_size = 4096 }

handle_stripe_write : (handle_stripe used 0).1 ≡ write_page ∷ []
unfolding handle_stripe schedule scan_dev take_want
handle_stripe_write = refl

one_request : length (handle_stripe used 0).1 ≡ 1
unfolding handle_stripe schedule scan_dev take_want
one_request = refl

handle_stripe-planned_example : (handle_stripe used 0).1 ≡ planned used.jrdev 8 0 (map due writing)
handle_stripe-planned_example =
    handle_stripe-planned used 0 (refl, refl, (refl, refl, (refl, refl, (refl, refl, tt))))

handle_stripe_effect_example :
    let (c', requests) = handle_stripe used 0 in
    Inv c'
    × ((c'.stripes 0).count ≡ 1 + length requests)
    × (length requests ≤ 4)
    × ((c'.stripes 0).handle ≡ (used_head.handle || lacks used.jrdev 0 (map due writing)))
    × ((t : ℕ) → t ≢ 0 → c'.stripes t ≡ used.stripes t)
handle_stripe_effect_example =
    handle_stripe_effect used 0 used-Inv (omega arith) (omega (arith, one_request))
      (refl, refl, (refl, refl, (refl, refl, (refl, refl, tt))))
