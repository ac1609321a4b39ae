-- ===== src/Cache/Acquire.antt =====
-- The rounds of `get_active_stripe`.
use jraid.Common.{
  ℕ, ◌+◌, ◌-◌, ◌^◌, ◌<◌, ◌≡◌, true, false, ◌==◌, if◌then◌else◌, length, occ, Bool, arith,
  occ-remove, length-remove, length-remove_absent, [], ◌∷◌, add32, Option, Option-cases, Bool-cases,
  ◌≢◌, ◌⊎◌, refl, some_inj, none≢some, subst, sym, ◌∙◌, List, none, some, inl, inr,
}
use jraid.Stripe.{Conf}
use mathlib.Core.Option
use jraid.Cache.{
  init_stripe, Got, null, wait, bug, find_stripe, get_free_stripe, get_active_stripe_round, reuse,
  got, hold, list_del,
}
use jraid.Cache.Build.{AllIdle, length-AllReset, build_blocks-some}
use jraid.Geometry.Bounds.{IsGood}
use jraid.Cache.Lookup.{find_stripe-some, find_stripe-none}
use jraid.Cache.Claim.{
  get_free_stripe-cons, claimed_stripe, claimed-other, claimed_head, freed, claimed, claimed-Inv,
  init_stripe-claimed,
}
use jraid.Cache.Invariant.{Inv}

-- The cache after a hashed stripe was taken.
pub reused : Conf → ℕ → Conf
reused c id =
    let sh = c.stripes id in
    if sh.count == 0
    then hold
        (list_del (if sh.handle then c else record c { active_stripes = add32 c.active_stripes 1 })
          id)
        id
    else hold c id

-- A stripe that waits to be handled is taken off its list and held.
pub reused-listed :
    (c : Conf) (id : ℕ)
    → (c.stripes id).count ≡ 0
    → (c.stripes id).handle ≡ true
    → reused c id ≡ hold (list_del c id) id
unfolding reused
reused-listed c id n h = ground arith

module _ (c : Conf) (id : ℕ) (v : Inv c) where
  reuse-got : id < c.nr_stripes → reuse c id ≡ got id (reused c id)
  unfolding reuse reused
  reuse-got h = ground (arith, v.place id)

  pub reused-Inv : id < c.nr_stripes → (c.stripes id).count < 2 ^ 32 - 1 → Inv (reused c id)
  unfolding reused
  reused-Inv h room = record {
    place = λ s. ground (
      arith,
      v.place s,
      v.place id,
      occ-remove s id c.inactive_list,
      occ-remove s id c.handle_list,
    );
    idle = λ s. ground (arith, v.idle s, v.place s, occ-remove s id c.inactive_list);
    work = λ s. ground (arith, v.work s, v.place s, occ-remove s id c.handle_list);
    active = ground (
      arith,
      v.active,
      v.few,
      v.place id,
      v.idle id,
      v.work id,
      length-remove id c.inactive_list,
      length-remove_absent id c.inactive_list,
    );
    counted = λ s. ground (arith, v.counted s);
    chained = λ s b. ground (arith, v.chained s b);
    distinct = λ s t. ground (arith, v.distinct s t);
    owned = λ s. ground (arith, v.owned s);
    few = ground (arith, v.few);
  }

  reused-held :
      id < c.nr_stripes
      → (c.stripes id).count < 2 ^ 32 - 1
      → ((reused c id).stripes id).sector ≡ (c.stripes id).sector
  unfolding reused
  reused-held h room = ground arith

  reused-users :
      (c.stripes id).count < 2 ^ 32 - 1
      → ((reused c id).stripes id).count ≡ (c.stripes id).count + 1
  unfolding reused
  reused-users room = ground arith

  reused-hashed : ((reused c id).stripes id).hashed ≡ (c.stripes id).hashed
  unfolding reused
  reused-hashed = ground arith

  reused-devices : length ((reused c id).stripes id).devs ≡ length (c.stripes id).devs
  unfolding reused
  reused-devices = ground arith

  reused-other : (t : ℕ) → t ≢ id → (reused c id).stripes t ≡ c.stripes t
  unfolding reused
  reused-other t ne = ground arith

-- A stripe was handed out for the sector: it is in the table, it has one user more than before,
-- no other stripe changed, it has the devices that it had, and the cache is well formed.
pub record Holds (c : Conf) (sector id : ℕ) (c' : Conf) : Type 0 where
  pub inv : Inv c'
  pub right : (c'.stripes id).sector ≡ sector
  pub found : (c'.stripes id).hashed ≡ true
  pub users : (c'.stripes id).count ≡ (c.stripes id).count + 1
  pub others : (t : ℕ) → t ≢ id → c'.stripes t ≡ c.stripes t
  pub allocated : id < c.nr_stripes
  pub devices : length (c'.stripes id).devs ≡ length (c.stripes id).devs

-- What a round may come to: NULL and a wait only where the sector is not in the cache and no
-- stripe is inactive, the one for callers that do not block and the other for those that do.
abbrev pub Served : Conf → ℕ → Bool → Got → Type 0
Served c sector noblock (got id c') = Holds c sector id c'
Served c sector noblock null =
    (noblock ≡ true) × (c.inactive_list ≡ []) × (find_stripe c sector ≡ none)
Served c sector noblock wait =
    (noblock ≡ false) × (c.inactive_list ≡ []) × (find_stripe c sector ≡ none)
Served c sector noblock bug = ⊥

-- Room for one more user of each stripe.
abbrev pub HasRoom : Conf → Type 0
HasRoom c = (s : ℕ) → (c.stripes s).count < 2 ^ 32 - 1

-- The inactive stripes have no bios and no I/O left.
abbrev pub InactiveIdle : Conf → Type 0
InactiveIdle c = (s : ℕ) → 0 < occ s c.inactive_list → AllIdle (c.stripes s).devs

get_free_stripe-nil : (c : Conf) → c.inactive_list ≡ [] → get_free_stripe c ≡ none
unfolding get_free_stripe
get_free_stripe-nil c e = rw (e, get_free_stripe)

pub List-cases : (l : List ℕ) → (l ≡ []) ⊎ ((x : ℕ) × (xs : List ℕ) × (l ≡ x ∷ xs))
List-cases [] = inl refl
List-cases (x ∷ xs) = inr (x, xs, refl)

-- The last step of a round, for any outcome of `__init_stripe` that leads to one cache.
settle :
    (P : Got → Type 0) (id : ℕ) (o : Option Conf) (c : Conf)
    → Option.map (λ c'. hold c' id) o ≡ some c
    → P (got id c)
    → P (elim o [ none ↦ bug | some c' ↦ got id (hold c' id) ])
settle P id none c e p = absurd (none≢some e)
settle P id (some c') c e p = subst (λ z. P (got id z)) (sym (some_inj e)) p

module _ (c : Conf) (sector pd : ℕ) (noblock : Bool) (v : Inv c) (room : HasRoom c) where
  found-Served :
      (id : ℕ)
      → find_stripe c sector ≡ some id
      → Served c sector noblock (get_active_stripe_round c sector pd noblock)
  unfolding get_active_stripe_round
  found-Served id e =
      let (s, h) = find_stripe-some c sector id v e in
      let low : id < c.nr_stripes = v.owned id h in
      rw (e, get_active_stripe_round)
        (rw (reuse-got c id v low) (record {
          inv = reused-Inv c id v low (room id);
          right = reused-held c id v low (room id) ∙ s;
          found = reused-hashed c id v ∙ h;
          users = reused-users c id v (room id);
          others = reused-other c id v;
          allocated = low;
          devices = reused-devices c id v;
        }))

  none-Served :
      find_stripe c sector ≡ none
      → c.inactive_list ≡ []
      → Served c sector noblock (get_active_stripe_round c sector pd noblock)
  unfolding get_active_stripe_round
  none-Served e l =
      rw (e, get_active_stripe_round)
        (rw (get_free_stripe-nil c l, get_active_stripe_round)
          (elim (Bool-cases noblock) [ inl b ↦ rw b (refl, l, e) | inr b ↦ rw b (refl, l, e) ]))

  free-Served :
      (id : ℕ) (rest : List ℕ)
      → IsGood c.layout
      → InactiveIdle c
      → find_stripe c sector ≡ none
      → c.inactive_list ≡ id ∷ rest
      → Served c sector noblock (get_active_stripe_round c sector pd noblock)
  unfolding get_active_stripe_round claimed_head
  free-Served id rest g idle e l =
      let here : 0 < occ id c.inactive_list = rw l (ground arith) in
      let (devs, b, reset) =
        build_blocks-some c.layout sector pd 0 (c.stripes id).devs g (idle id here) in
      let count : (c.stripes id).count ≡ 0 = ground (arith, v.place id, here) in
      let built = init_stripe-claimed c id rest sector pd devs count (v.idle id here) b in
      rw (e, get_active_stripe_round)
        (rw (get_free_stripe-cons c id rest l, get_active_stripe_round)
          (settle (Served c sector noblock) id (init_stripe (freed c id rest) id sector pd)
            (claimed c id rest sector pd devs) built
            (record {
              inv = claimed-Inv c id rest sector pd devs v l (λ t. find_stripe-none c sector t v e);
              right = rw (claimed_stripe c id rest sector pd devs);
              found = rw (claimed_stripe c id rest sector pd devs);
              users = rw (claimed_stripe c id rest sector pd devs) (omega (arith, count));
              others = claimed-other c id rest sector pd devs;
              allocated = ground (arith, v.place id, here);
              devices = rw (claimed_stripe c id rest sector pd devs) (length-AllReset _ devs reset);
            })))

  -- One round of `get_active_stripe`, on a well formed cache with a good layout whose inactive
  -- stripes are idle and whose counts have room for a user more, never stops at BUG(). It hands
  -- out the stripe of the sector, with one user more, and leaves the other stripes and the form of
  -- the cache alone; or no stripe is free and the caller gets NULL or waits, as it asked for.
  pub get_active_stripe_round-Served :
      IsGood c.layout
      → InactiveIdle c
      → Served c sector noblock (get_active_stripe_round c sector pd noblock)
  get_active_stripe_round-Served g idle = elim (Option-cases (find_stripe c sector)) [
    | inr (id, e) ↦ found-Served id e
    | inl e ↦ elim (List-cases c.inactive_list) [
      | inl l ↦ none-Served e l
      | inr (id, rest, l) ↦ free-Served id rest g idle e l
    ]
  ]
