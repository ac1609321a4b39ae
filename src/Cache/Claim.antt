-- ===== src/Cache/Claim.antt =====
-- A stripe that is taken from the inactive list for another sector.
use jraid.Common.{
  ℕ, ◌+◌, ◌≡◌, ◌≢◌, true, false, ◌==◌, if◌then◌else◌, length, occ, arith, occ-remove, ◌∷◌, add32,
  List, remove, update, some, ap,
}
use jraid.Stripe.{Conf, Dev, StripeHead, stripe_hash}
use mathlib.Core.Option
use mathlib.Core.Path.{fun_ext}
use jraid.Common.{==_refl, Bool-cases, inl, inr, update-update}
use jraid.Cache.{
  get_free_stripe, build_blocks, init_stripe, remove_hash, insert_hash, hold, no_state,
}
use jraid.Cache.Invariant.{Inv, bit}

-- The cache without the oldest inactive stripe: what `get_free_stripe` leaves.
pub freed : Conf → ℕ → List ℕ → Conf
freed c id rest =
    let c' = remove_hash (record c { inactive_list = rest }) id in
    record c' { active_stripes = add32 c.active_stripes 1 }

-- The stripe head as `__init_stripe` and the `atomic_inc` after it leave it.
unfoldable pub claimed_head : StripeHead → ℕ → ℕ → List Dev → StripeHead
claimed_head sh sector pd devs = record sh {
  sector = sector;
  pd_idx = pd;
  state = no_state;
  devs = devs;
  hashed = true;
  count = add32 sh.count 1;
}

-- The chains without the stripe.
abbrev unlinked : Conf → ℕ → ℕ → List ℕ
unlinked c id b =
    if (c.stripes id).hashed then remove id (c.stripe_hashtbl b) else c.stripe_hashtbl b

-- The cache after the stripe was given to another sector.
pub claimed : Conf → ℕ → List ℕ → ℕ → ℕ → List Dev → Conf
claimed c id rest sector pd devs = record c {
  inactive_list = rest;
  active_stripes = add32 c.active_stripes 1;
  stripes = update c.stripes id (claimed_head (c.stripes id) sector pd devs);
  stripe_hashtbl =
      update (unlinked c id) (stripe_hash sector) (id ∷ unlinked c id (stripe_hash sector));
}

module _ (c : Conf) (id : ℕ) (rest : List ℕ) (sector pd : ℕ) (devs : List Dev) (v : Inv c)
    (first : c.inactive_list ≡ id ∷ rest)
    (fresh : (t : ℕ) → (c.stripes t).hashed ≡ true → (c.stripes t).sector ≢ sector) where
  -- No stripe stands twice on the list.
  once : (s : ℕ) → occ s c.inactive_list ≡ bit (s == id) + occ s rest
  once s = ap (occ s) first

  pub claimed-Inv : Inv (claimed c id rest sector pd devs)
  unfolding claimed claimed_head
  claimed-Inv = record {
    place = λ s. ground (arith, v.place s, v.place id, once s, once id);
    idle = λ s. ground (arith, v.idle s, v.place id, once s, once id);
    work = λ s. ground (arith, v.work s, v.place id, once s, once id);
    active = ground (arith, v.active, v.few, ap length first);
    counted = λ s. ground (arith, v.counted s);
    chained = λ s b. ground (
      arith,
      v.chained s b,
      v.chained id b,
      v.chained s (stripe_hash sector),
      occ-remove s id (c.stripe_hashtbl b),
    );
    distinct = λ s t. ground (arith, v.distinct s t, fresh s, fresh t);
    owned = λ s. ground (arith, v.owned s, v.place id, once id);
    few = ground (arith, v.few);
  }

-- What `get_active_stripe` makes of the free stripe is that cache.
pub init_stripe-claimed :
    (c : Conf) (id : ℕ) (rest : List ℕ) (sector pd : ℕ) (devs : List Dev)
    → (c.stripes id).count ≡ 0
    → (c.stripes id).handle ≡ false
    → build_blocks c.layout sector pd 0 (c.stripes id).devs ≡ some devs
    → Option.map (λ c'. hold c' id) (init_stripe (freed c id rest) id sector pd)
      ≡ some (claimed c id rest sector pd devs)
unfolding init_stripe freed remove_hash insert_hash claimed claimed_head
init_stripe-claimed c id rest sector pd devs n h b = elim (Bool-cases (c.stripes id).hashed) [
  | inl e ↦
      rw (e, ==_refl id, n, h, b, ==_refl id)
        (together (rw (update-update, update-update, update-update)) (fun_ext λ j. rw e))
  | inr e ↦
      rw (e, n, h, b, e, ==_refl id) (together (fun_ext λ j. ground arith) (fun_ext λ j. rw e))
]
  where
    together :
        {st st' : ℕ → StripeHead} {tbl tbl' : ℕ → List ℕ}
        → st ≡ st'
        → tbl ≡ tbl'
        → ◌≡◌ {A = Option.Option Conf}
            (some (record c {
              inactive_list = rest;
              active_stripes = add32 c.active_stripes 1;
              stripes = st;
              stripe_hashtbl = tbl;
            }))
            (some (record c {
              inactive_list = rest;
              active_stripes = add32 c.active_stripes 1;
              stripes = st';
              stripe_hashtbl = tbl';
            }))
    together p q = λ i. some (record c {
      inactive_list = rest;
      active_stripes = add32 c.active_stripes 1;
      stripes = p i;
      stripe_hashtbl = q i;
    })

pub get_free_stripe-cons :
    (c : Conf) (id : ℕ) (rest : List ℕ)
    → c.inactive_list ≡ id ∷ rest
    → get_free_stripe c ≡ some (id, freed c id rest)
unfolding get_free_stripe freed
get_free_stripe-cons c id rest e = rw (e, get_free_stripe)

pub claimed_stripe :
    (c : Conf) (id : ℕ) (rest : List ℕ) (sector pd : ℕ) (devs : List Dev)
    → (claimed c id rest sector pd devs).stripes id ≡ claimed_head (c.stripes id) sector pd devs
unfolding claimed
claimed_stripe c id rest sector pd devs = rw (==_refl id)

pub claimed-other :
    (c : Conf) (id : ℕ) (rest : List ℕ) (sector pd : ℕ) (devs : List Dev) (t : ℕ)
    → t ≢ id
    → (claimed c id rest sector pd devs).stripes t ≡ c.stripes t
unfolding claimed
claimed-other c id rest sector pd devs t ne = ground arith
