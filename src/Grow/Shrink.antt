-- ===== src/Grow/Shrink.antt =====
-- The cache as it is emptied, and what is freed of its stripes.
use jraid.Common.{
  ℕ, zero, suc, ◌+◌, ◌^◌, ◌≤◌, ◌<◌, ◌≡◌, ◌⊎◌, ◌==◌, false, none, some, List, [], ◌∷◌, ◌++◌, arith,
  refl, sym, ap, ◌∙◌, subst, occ, length, Bool-cases, inl, inr, occ-append, add32, sub32,
}
use jraid.Stripe.{Dev, Conf}
use jraid.Cache.{get_free_stripe, put_stripe, remove_hash}
use jraid.Request.Total.{IsReady}
use jraid.Grow.{shrink_num, shrink_stripes}

-- The first `num` devices have no page.
abbrev pub NoPages : ℕ → List Dev → Type 0
NoPages zero ds = Unit {0}
NoPages (suc num) [] = Unit {0}
NoPages (suc num) (d ∷ ds) = (d.page ≡ false) × NoPages num ds

shrink_num-NoPages :
    (num : ℕ) (ds : List Dev)
    → num ≤ length ds
    → (ds' : List Dev) × (shrink_num num ds ≡ some ds') × NoPages num ds' × (length ds' ≡ length ds)
unfolding shrink_num
shrink_num-NoPages zero ds h = (ds, refl, tt, refl)
shrink_num-NoPages (suc num) [] h = absurd (omega arith)
shrink_num-NoPages (suc num) (d ∷ ds) h =
    let (ds', e, gone, same) = shrink_num-NoPages num ds (omega arith) in
    (record d { page = false } ∷ ds', rw e refl, (refl, gone), ap suc same)

list-cases : (l : List ℕ) → (l ≡ []) ⊎ ((x : ℕ) × (xs : List ℕ) × (l ≡ x ∷ xs))
list-cases [] = inl refl
list-cases (x ∷ xs) = inr (x, xs, refl)

-- The stripe that is taken.
get_free_stripe-head :
    (c : Conf) (id : ℕ) (rest : List ℕ)
    → c.inactive_list ≡ id ∷ rest
    → (c1 : Conf) × (get_free_stripe c ≡ some (id, c1))
      × (c1.inactive_list ≡ rest)
      × (c1.active_stripes ≡ add32 c.active_stripes 1)
      × ((s : ℕ) → (c1.stripes s).devs ≡ (c.stripes s).devs)
unfolding get_free_stripe remove_hash
get_free_stripe-head c id rest h =
    let c0 = remove_hash (record c { inactive_list = rest }) id in
    (
      record c0 { active_stripes = add32 c.active_stripes 1 },
      rw h refl,
      ground arith,
      refl,
      λ s. ground arith,
    )

get_free_stripe-empty : (c : Conf) → c.inactive_list ≡ [] → get_free_stripe c ≡ none
unfolding get_free_stripe
get_free_stripe-empty c h = rw h refl

-- One round of the loop, without and with an inactive stripe: the cache after one more was freed.
shrink_stripes-end :
    (jraid_disks num : ℕ) (c : Conf)
    → get_free_stripe c ≡ none
    → shrink_stripes jraid_disks (suc num) c ≡ some (c, [])
unfolding shrink_stripes
shrink_stripes-end jraid_disks num c h = rw (shrink_stripes, h) refl

abbrev freed_one : Conf → ℕ → List Dev → Conf
freed_one c1 id ds = record (put_stripe c1 id (record (c1.stripes id) { devs = ds })) {
  active_stripes = sub32 c1.active_stripes 1;
}

shrink_stripes-round :
    (jraid_disks num : ℕ) (c : Conf) (id : ℕ) (c1 : Conf) (ds : List Dev) (c' : Conf)
    (freed : List ℕ)
    → get_free_stripe c ≡ some (id, c1)
    → shrink_num jraid_disks (c1.stripes id).devs ≡ some ds
    → shrink_stripes jraid_disks num (freed_one c1 id ds) ≡ some (c', freed)
    → shrink_stripes jraid_disks (suc num) c ≡ some (c', id ∷ freed)
unfolding shrink_stripes
shrink_stripes-round jraid_disks num c id c1 ds c' freed f g h = rw (shrink_stripes, f, g, h) refl

-- What holds of the inactive stripes before: each is on the list once, with `num` devices at least.
pub record IsIdleList (num : ℕ) (c : Conf) : Type 0 where
  pub once : (s : ℕ) → occ s c.inactive_list ≤ 1
  pub long : (s : ℕ) → 0 < occ s c.inactive_list → num ≤ length (c.stripes s).devs
  pub few : c.active_stripes + 1 < 2 ^ 32

-- What `shrink_stripes` comes to: it frees the first stripes of the inactive list.
pub record Shrunk (jraid_disks num : ℕ) (c c' : Conf) (freed : List ℕ) : Type 0 where
  pub list : c.inactive_list ≡ freed ++ c'.inactive_list
  pub count : (length freed ≡ num) ⊎ ((length freed ≤ num) × (c'.inactive_list ≡ []))
  pub active : c'.active_stripes ≡ c.active_stripes
  pub gone : (s : ℕ) → 0 < occ s freed → NoPages jraid_disks (c'.stripes s).devs
  pub kept : (s : ℕ) → occ s freed ≡ 0 → (c'.stripes s).devs ≡ (c.stripes s).devs

-- A stripe is taken from the head of the list, and its devices become `ds`.
module _ (jraid_disks : ℕ) (c : Conf) (id : ℕ) (rest : List ℕ) (c1 : Conf) (ds : List Dev)
    (v : IsIdleList jraid_disks c) (e : c.inactive_list ≡ id ∷ rest)
    (list1 : c1.inactive_list ≡ rest) (active1 : c1.active_stripes ≡ add32 c.active_stripes 1)
    (devs1 : (s : ℕ) → (c1.stripes s).devs ≡ (c.stripes s).devs) where
  alone : (s : ℕ) → 0 < occ s rest → (s == id) ≡ false
  alone s h = ground (arith, v.once s, ap (occ s) e)

  same_active : sub32 c1.active_stripes 1 ≡ c.active_stripes
  same_active = ground (arith, active1, v.few)

  other : (s : ℕ) → (s == id) ≡ false → ((freed_one c1 id ds).stripes s).devs ≡ (c.stripes s).devs
  other s ne = rw ne (devs1 s)

  freed_one-IsIdleList : IsIdleList jraid_disks (freed_one c1 id ds)
  freed_one-IsIdleList = record {
    once = λ s. ground (arith, v.once s, ap (occ s) e, ap (occ s) list1);
    long = λ s h.
        let ne = alone s (subst (λ l. 0 < occ s l) list1 h) in
        subst (λ l. jraid_disks ≤ length l) (sym (other s ne))
          (v.long s (ground (arith, ap (occ s) e, ap (occ s) list1)));
    few = subst (λ a. a + 1 < 2 ^ 32) (sym same_active) v.few;
  }

  freed_one-Shrunk :
      (num : ℕ) (c' : Conf) (freed : List ℕ)
      → NoPages jraid_disks ds
      → Shrunk jraid_disks num (freed_one c1 id ds) c' freed
      → Shrunk jraid_disks (suc num) c c' (id ∷ freed)
  freed_one-Shrunk num c' freed gone r =
      let split : rest ≡ freed ++ c'.inactive_list = sym list1 ∙ r.list in
      let absent : (s : ℕ) → 0 < occ s freed → (s == id) ≡ false =
        λ s h. alone s (ground (arith, ap (occ s) split, occ-append s freed c'.inactive_list)) in
      record {
        list = e ∙ ap (λ l. id ∷ l) split;
        count = elim r.count [ inl n ↦ inl (ap suc n) | inr (n, l) ↦ inr (omega arith, l) ];
        active = r.active ∙ same_active;
        gone = λ s h. elim (Bool-cases (s == id)) [
          | inl i ↦
              subst (NoPages jraid_disks) (sym (r.kept s (ground (arith, absent s, i)) ∙ rw i refl))
                gone
          | inr ne ↦ r.gone s (ground (arith, ne, h))
        ];
        kept = λ s h. r.kept s (ground arith) ∙ other s (ground arith);
      }

-- From a cache whose inactive stripes are each on the list once and have `jraid_disks` devices at
-- least, `shrink_stripes` makes no access behind a stripe's devices. It frees `num` stripes from the
-- head of the inactive list, or all of it, each with the pages of its first `jraid_disks` devices,
-- and changes no device of another stripe, nor the number of the active stripes.
pub shrink_stripes-Shrunk :
    (jraid_disks num : ℕ) (c : Conf)
    → IsIdleList jraid_disks c
    → (c' : Conf) × (freed : List ℕ) × (shrink_stripes jraid_disks num c ≡ some (c', freed))
      × Shrunk jraid_disks num c c' freed
unfolding shrink_stripes
shrink_stripes-Shrunk jraid_disks zero c v = (
  c,
  [],
  refl,
  record {
    list = refl;
    count = inl refl;
    active = refl;
    gone = λ s h. absurd (omega arith);
    kept = λ s h. refl;
  },
)
shrink_stripes-Shrunk jraid_disks (suc num) c v = elim (list-cases c.inactive_list) [
  | inl e ↦ (
    c,
    [],
    shrink_stripes-end jraid_disks num c (get_free_stripe-empty c e),
    record {
      list = refl;
      count = inr (omega arith, e);
      active = refl;
      gone = λ s h. absurd (omega arith);
      kept = λ s h. refl;
    },
  )
  | inr (id, rest, e) ↦
      let (c1, f, list1, active1, devs1) = get_free_stripe-head c id rest e in
      let (ds, g, gone, same) =
        shrink_num-NoPages jraid_disks (c1.stripes id).devs
          (subst (λ l. jraid_disks ≤ length l) (sym (devs1 id)) (v.long id (ground (arith, e)))) in
      let c2 = freed_one c1 id ds in
      let (c', freed, h, r) =
        shrink_stripes-Shrunk jraid_disks num c2
          (freed_one-IsIdleList jraid_disks c id rest c1 ds v e list1 active1 devs1) in
      (
        c',
        id ∷ freed,
        shrink_stripes-round jraid_disks num c id c1 ds c' freed f g h,
        freed_one-Shrunk jraid_disks c id rest c1 ds v e list1 active1 devs1 num c' freed gone r,
      )
]

-- A cache that can serve can be emptied, if the array had no more members than it has disks.
pub IsReady-IsIdleList :
    (jraid_disks : ℕ) (c : Conf)
    → IsReady c
    → jraid_disks ≤ c.layout.raid_disks
    → IsIdleList jraid_disks c
IsReady-IsIdleList jraid_disks c r h = record {
  once = λ s. ground (arith, r.inv.place s);
  long = λ s listed. ground (arith, r.inv.place s, r.built s);
  few = omega (arith, r.inv.active, r.inv.few);
}
