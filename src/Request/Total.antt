-- ===== src/Request/Total.antt =====
-- A request of the array, made to a cache that can serve.
use jraid.Common.{
  ◌-◌, ℕ, suc, ◌^◌, ◌≤◌, ◌<◌, ◌≡◌, ◌≢◌, Bool, true, false, some, List, [], ◌∷◌, length, arith, refl,
  ap, ◌∙◌, sym, get_elem?, inl, inr, zero, ◌⊎◌, true≢false,
}
use jraid.Geometry.{Mapping, compute_sector}
use jraid.Geometry.Bounds.{IsGood}
use jraid.Geometry.Parity.{compute_sector_bounds}
use jraid.Stripe.{Bio, Conf}
use jraid.Cache.{Got, got, null, wait, bug, get_active_stripe, get_active_stripe_round}
use jraid.Cache.Invariant.{Inv}
use jraid.Cache.Acquire.{Served, Holds, InactiveIdle, get_active_stripe_round-Served}
use jraid.Handle.{Request}
use jraid.Request.{served, make_request, serve}
use jraid.Request.Lifecycle.{serve-balanced}

-- A cache that can serve: it is well formed on a good layout, its inactive stripes are idle, each
-- stripe has a device for each disk, and no count is near its limit.
pub record IsReady (c : Conf) : Type 0 where
  pub inv : Inv c
  pub good : IsGood c.layout
  pub idle : InactiveIdle c
  pub built : (s : ℕ) → s < c.nr_stripes → length (c.stripes s).devs ≡ c.layout.raid_disks
  pub room : (s : ℕ) → (c.stripes s).count < 2 ^ 31

ready-Served :
    (c : Conf) (sector pd : ℕ)
    → IsReady c
    → Served c sector false (get_active_stripe_round c sector pd false)
ready-Served c sector pd r =
    get_active_stripe_round-Served c sector pd false r.inv (λ s. omega (arith, r.room s)) r.good
      r.idle

-- A round that is served with a stripe inactive hands one out.
Served-got :
    (c : Conf) (sector : ℕ) (r : Got)
    → c.inactive_list ≢ []
    → Served c sector false r
    → (id : ℕ) × (c' : Conf) × (r ≡ got id c') × Holds c sector id c'
Served-got c sector (got id c') l h = (id, c', refl, h)
Served-got c sector null l h = absurd (l h.1)
Served-got c sector wait l h = absurd (l h.1)
Served-got c sector bug l h = absurd h

-- The stripe comes from the first state, or from the one that the wait comes back to.
abbrev From : Conf → Conf → ℕ → ℕ → Conf → Type 0
From c w sector id c' = Holds c sector id c' ⊎ Holds w sector id c'

wait_once :
    (c w : Conf) (sector pd : ℕ) (r : Got)
    → IsReady w
    → w.inactive_list ≢ []
    → get_active_stripe_round c sector pd false ≡ r
    → Served c sector false r
    → (id : ℕ) × (c' : Conf) × (get_active_stripe (w ∷ []) c sector pd false ≡ got id c')
      × From c w sector id c'
unfolding get_active_stripe
wait_once c w sector pd (got id c') rw' l e h = (id, c', rw (e, get_active_stripe), inl h)
wait_once c w sector pd null rw' l e h = absurd (true≢false (refl {a = true}) (sym h.0))
wait_once c w sector pd bug rw' l e h = absurd h
wait_once c w sector pd wait rw' l e h =
    let (id, c', q, k) = Served-got w sector _ l (ready-Served w sector pd rw') in
    (id, c', rw (e, get_active_stripe) q, inr k)

get_elem?-some {ℓ} :
    {A : Type ℓ} (xs : List A) (i : ℕ) → i < length xs → (x : A) × (get_elem? xs i ≡ some x)
get_elem?-some [] i h = absurd (omega arith)
get_elem?-some (x ∷ xs) zero h = (x, refl)
get_elem?-some (x ∷ xs) (suc i) h = get_elem?-some xs i (omega arith)

-- What is needed of the stripe that was handed out, from either state.
record Ripe (c : Conf) (sector id : ℕ) (c' : Conf) : Type 0 where
  inv : Inv c'
  right : (c'.stripes id).sector ≡ sector
  held : 0 < (c'.stripes id).count
  few : (c'.stripes id).count ≤ 2 ^ 31
  devices : length (c'.stripes id).devs ≡ c.layout.raid_disks

Holds-Ripe :
    (c : Conf) (sector id : ℕ) (c' : Conf) → IsReady c → Holds c sector id c' → Ripe c sector id c'
Holds-Ripe c sector id c' r h = record {
  inv = h.inv;
  right = h.right;
  held = omega (arith, h.users);
  few = omega (arith, h.users, r.room id);
  devices = h.devices ∙ r.built id h.allocated;
}

From-Ripe :
    (c w : Conf) (sector id : ℕ) (c' : Conf)
    → IsReady c
    → IsReady w
    → w.layout ≡ c.layout
    → From c w sector id c'
    → Ripe c sector id c'
From-Ripe c w sector id c' r r' same (inl h) = Holds-Ripe c sector id c' r h
From-Ripe c w sector id c' r r' same (inr h) =
    let p = Holds-Ripe w sector id c' r' h in
    record {
      inv = p.inv;
      right = p.right;
      held = p.held;
      few = p.few;
      devices = p.devices ∙ ap (λ l. l.raid_disks) same;
    }

-- A request of the array for a sector below 2^64 is served, from a cache that can serve: without a
-- fault or a BUG(), with at most one wait, if the wait comes back to such a cache of the same
-- layout, as its condition says, when a stripe is inactive. The stripe of the bio's sector is
-- handed out, the bio is offered to the device of that sector and ended, and the cache is again
-- well formed.
pub make_request_total :
    (c w : Conf) (bi : Bio) (forwrite : Bool)
    → IsReady c
    → IsReady w
    → w.layout ≡ c.layout
    → w.inactive_list ≢ []
    → bi.bi_sector < 2 ^ 64
    → (m : Mapping) × (id : ℕ) × (held c' : Conf) × (requests : List Request) × (queued : Bool)
      × (compute_sector c.layout bi.bi_sector c.layout.raid_disks (c.layout.raid_disks - 1) 0
          ≡ some m)
      × ((held.stripes id).sector ≡ m.new_sector)
      × (make_request (w ∷ []) c bi forwrite ≡ serve held id bi m.dd_idx forwrite)
      × (serve held id bi m.dd_idx forwrite ≡ served c' requests queued true)
      × Inv c'
unfolding make_request
make_request_total c w bi forwrite r r' same l h =
    let (m, e, dd, _, _, _) = compute_sector_bounds c.layout bi.bi_sector 0 r.good h in
    let (id, held, g, from) =
      wait_once c w m.new_sector m.pd_idx _ r' l refl (ready-Served c m.new_sector m.pd_idx r) in
    let ripe : Ripe c m.new_sector id held = From-Ripe c w m.new_sector id held r r' same from in
    let few : c.layout.raid_disks ≤ 27 = r.good.few_disks in
    let (d, dev) =
      get_elem?-some (held.stripes id).devs m.dd_idx (omega (arith, dd, ripe.devices)) in
    let (c', requests, queued, s, v, _, _) =
      serve-balanced held id m.dd_idx bi forwrite d ripe.inv dev ripe.held
        (omega (arith, ripe.few, ripe.devices, few)) in
    (
      m,
      id,
      held,
      c',
      requests,
      queued,
      e,
      ripe.right,
      rw (e, make_request) (rw (g, make_request) refl),
      s,
      v,
    )
