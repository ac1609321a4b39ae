-- ===== src/Cache/Lookup.antt =====
-- `__find_stripe` against the set of the hashed stripes.
use jraid.Common.{
  ℕ, ◌<◌, ◌≡◌, ◌≢◌, ◌↔◌, true, occ, arith, none, some, List, [], ◌∷◌, Option-cases, inl, inr, ap,
  sym, ◌∙◌,
}
use jraid.Stripe.{Conf, StripeHead, stripe_hash}
use jraid.Cache.{walk, find_stripe}
use jraid.Cache.Invariant.{Inv}

walk-some :
    (stripes : ℕ → StripeHead) (sector : ℕ) (l : List ℕ) (id : ℕ)
    → walk stripes sector l ≡ some id
    → ((stripes id).sector ≡ sector) × (0 < occ id l)
unfolding walk
walk-some stripes sector [] id e = cc
walk-some stripes sector (x ∷ l) id e = ground (arith, walk-some stripes sector l id)

walk-none :
    (stripes : ℕ → StripeHead) (sector : ℕ) (l : List ℕ) (t : ℕ)
    → walk stripes sector l ≡ none
    → 0 < occ t l
    → (stripes t).sector ≢ sector
unfolding walk
walk-none stripes sector [] t e h = absurd (omega arith)
walk-none stripes sector (x ∷ l) t e h = ground (arith, walk-none stripes sector l t)

pub find_stripe-some :
    (c : Conf) (sector id : ℕ)
    → Inv c
    → find_stripe c sector ≡ some id
    → ((c.stripes id).sector ≡ sector) × ((c.stripes id).hashed ≡ true)
unfolding find_stripe
find_stripe-some c sector id v e =
    let (s, o) = walk-some c.stripes sector (c.stripe_hashtbl (stripe_hash sector)) id e in
    ground (arith, s, o, v.chained id (stripe_hash sector))

pub find_stripe-none :
    (c : Conf) (sector t : ℕ)
    → Inv c
    → find_stripe c sector ≡ none
    → (c.stripes t).hashed ≡ true
    → (c.stripes t).sector ≢ sector
unfolding find_stripe
find_stripe-none c sector t v e h s =
    walk-none c.stripes sector (c.stripe_hashtbl (stripe_hash sector)) t e
      (ground (arith, v.chained t (stripe_hash sector))) s

-- In a well formed cache the chain walk finds a stripe exactly if that stripe is hashed and is for
-- the sector: none is missed, and no other is found.
pub find_stripe_iff :
    (c : Conf) (sector id : ℕ)
    → Inv c
    → (find_stripe c sector ≡ some id)
      ↔ (((c.stripes id).sector ≡ sector) × ((c.stripes id).hashed ≡ true))
find_stripe_iff c sector id v = (
  find_stripe-some c sector id v,
  λ p. elim (Option-cases (find_stripe c sector)) [
    | inl e ↦ absurd (find_stripe-none c sector id v e p.1 p.0)
    | inr (t, e) ↦
        let (s, h) = find_stripe-some c sector t v e in
        e ∙ ap some (v.distinct t id h p.1 (s ∙ sym p.0))
  ],
)
