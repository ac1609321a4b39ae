-- ===== src/Grow/Examples.antt =====
-- Runs of `grow_stripes` on a cache without stripes, and its theorems there.
use mathlib.Core.Option
use jraid.Common.{some, ℕ, ◌+◌, ◌≡◌, ◌≤◌, ◌==◌, Bool, [], ◌∷◌, length, arith, refl, ltb}
use jraid.Stripe.{Conf}
use jraid.Cache.{release_stripe, get_free_stripe, remove_hash}
use jraid.Request.Total.{IsReady}
use jraid.Grow.{grow_stripes, grow_loop, grow_buffers, newborn, shrink_stripes, shrink_num}
use jraid.Grow.Stripe.{IsPaged}
use jraid.Grow.Ready.{grow_stripes-IsReady}
use jraid.Samples.{fresh, layout-IsGood}

abbrev none_yet : Conf
none_yet = record fresh { inactive_list = []; nr_stripes = 0 }

none_yet-IsReady : IsReady none_yet
none_yet-IsReady = record {
  inv = record {
    place = λ s. ground arith;
    idle = λ s. ground arith;
    work = λ s. ground arith;
    active = ground arith;
    counted = λ s. ground arith;
    chained = λ s b. ground arith;
    distinct = λ s t. ground arith;
    owned = λ s. ground arith;
    few = omega arith;
  };
  good = layout-IsGood;
  idle = λ s h. absurd (omega arith);
  built = λ s h. refl;
  room = λ s. omega arith;
}

none_yet-IsPaged : IsPaged none_yet
none_yet-IsPaged s h = absurd (omega arith)

-- The memory ends after 8 allocations: the slab cache, one stripe with its four pages, and half of
-- the next.
abbrev short : ℕ → Bool
short i = ltb i 8

grow_stripes_partial : (grow_stripes short 0 3 none_yet).conf.inactive_list ≡ 0 ∷ []
unfolding grow_stripes grow_loop grow_buffers newborn release_stripe
grow_stripes_partial = refl

grow_stripes-IsReady_example :
    let g = grow_stripes short 0 3 none_yet in
    IsReady g.conf
    × IsPaged g.conf
    × (g.done ≡ (g.conf.nr_stripes == 0 + 3))
    × (g.conf.nr_stripes ≤ 0 + 3)
    × (length g.conf.inactive_list + 0 ≡ 0 + g.conf.nr_stripes)
grow_stripes-IsReady_example =
    grow_stripes-IsReady short 0 3 none_yet none_yet-IsReady none_yet-IsPaged (omega arith)
      (omega arith)

-- Both stripes of a cache are freed.
shrink_stripes_all :
    (Option.map (λ (c, freed). freed) (shrink_stripes 4 3 fresh)) ≡ some (0 ∷ 1 ∷ [])
unfolding shrink_stripes shrink_num get_free_stripe remove_hash
shrink_stripes_all = refl
