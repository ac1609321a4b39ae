-- ===== src/Joining/Alike.antt =====
-- When the members of two states are the same, as far as the lists and the bound ones go.
use jraid.Common.{
  ℕ, ◌≤◌, ◌<◌, ◌≡◌, inl, inr, true, false, Option, none, some, List, [], ◌∷◌, ◌==◌, if◌then◌else◌,
  update, occ, length, arith, refl, Bool-cases, sym, ap, ◌∙◌, subst, some_inj, none≢some,
  >>=-eq-some, if-true, if-false,
}
use jraid.Superblock.{Superblock}
use jraid.Member.{Kernel, Rdev, System}
use jraid.Member.Import.{IsListed}
use jraid.Array.{sync_sbs, sync_list, sync_member, put_copy}
use jraid.Joining.{measure, place_member}

-- The members are listed; those of the array are on its list once, and are exactly the bound ones;
-- `nb_dev` is their number.
pub record IsArray (s : System) : Type 0 where
  pub listed : IsListed s
  pub members : (id : ℕ) → 0 < occ id s.array.disks → 0 < occ id s.all_jraid_disks
  pub once : (id : ℕ) → occ id s.array.disks ≤ 1
  pub bound :
      (id : ℕ)
      → 0 < occ id s.all_jraid_disks
      → (s.rdevs id).bound ≡ (if occ id s.array.disks == 0 then false else true)
  pub count : s.array.nb_dev ≡ length s.array.disks

-- Two states with the same members, as far as `IsArray` looks.
pub record Alike (s s' : System) : Type 0 where
  pub dev : (id : ℕ) → (s'.rdevs id).dev ≡ (s.rdevs id).dev
  pub bound : (id : ℕ) → (s'.rdevs id).bound ≡ (s.rdevs id).bound
  pub all : s'.all_jraid_disks ≡ s.all_jraid_disks
  pub next : s'.next ≡ s.next
  pub disks : s'.array.disks ≡ s.array.disks
  pub count : s'.array.nb_dev ≡ s.array.nb_dev

pub Alike-IsArray : (s s' : System) → Alike s s' → IsArray s → IsArray s'
Alike-IsArray s s' l v = record {
  listed = record {
    below = λ i. ground (arith, v.listed.below i, ap (occ i) l.all, l.next);
    once = λ i. ground (arith, v.listed.once i, ap (occ i) l.all);
    apart = λ i j.
        ground (arith, v.listed.apart i j, ap (occ i) l.all, ap (occ j) l.all, l.dev i, l.dev j);
  };
  members = λ i. ground (arith, v.members i, ap (occ i) l.all, ap (occ i) l.disks);
  once = λ i. ground (arith, v.once i, ap (occ i) l.disks);
  bound = λ i. ground (arith, v.bound i, l.bound i, ap (occ i) l.all, ap (occ i) l.disks);
  count = l.count ∙ v.count ∙ ap length (sym l.disks);
}

put_copy-Alike :
    (k : Kernel) (sb : Superblock) (r r' : Rdev) (o : Option Superblock)
    → put_copy k sb r o ≡ some r'
    → (r'.dev ≡ r.dev) × (r'.bound ≡ r.bound)
unfolding put_copy
put_copy-Alike k sb r r' none h = absurd (none≢some h)
put_copy-Alike k sb r r' (some old) h =
    (ap (λ t. t.dev) (sym (some_inj h)), ap (λ t. t.bound) (sym (some_inj h)))

sync_member-Alike :
    (k : Kernel) (sb : Superblock) (r r' : Rdev)
    → sync_member k sb r ≡ some r'
    → (r'.dev ≡ r.dev) × (r'.bound ≡ r.bound)
unfolding sync_member
sync_member-Alike k sb r r' h = elim (Bool-cases r.faulty) [
  | inl e ↦
      let same = some_inj (if-true _ _ e h) in
      (ap (λ t. t.dev) (sym same), ap (λ t. t.bound) (sym same))
  | inr e ↦ put_copy-Alike k sb r r' r.sb (if-false _ _ e h)
]

sync_list-Alike :
    (k : Kernel) (sb : Superblock) (rdevs rdevs' : ℕ → Rdev) (ids : List ℕ)
    → sync_list k sb rdevs ids ≡ some rdevs'
    → (id : ℕ) → ((rdevs' id).dev ≡ (rdevs id).dev) × ((rdevs' id).bound ≡ (rdevs id).bound)
unfolding sync_list
sync_list-Alike k sb rdevs rdevs' [] h id =
    (ap (λ f. (f id).dev) (sym (some_inj h)), ap (λ f. (f id).bound) (sym (some_inj h)))
sync_list-Alike k sb rdevs rdevs' (x ∷ ids) h id =
    let (r, e, f) = >>=-eq-some (sync_member k sb (rdevs x)) _ h in
    let (dev, bound) = sync_list-Alike k sb (update rdevs x r) rdevs' ids f id in
    let (dev1, bound1) = sync_member-Alike k sb (rdevs x) r e in
    elim (Bool-cases (id == x)) [
      | inr ne ↦ (dev ∙ rw ne refl, bound ∙ rw ne refl)
      | inl same ↦ ground (arith, dev, bound, dev1, bound1, same)
    ]

pub sync_sbs-Alike : (k : Kernel) (s s' : System) → sync_sbs k s ≡ some s' → Alike s s'
unfolding sync_sbs
sync_sbs-Alike k s s' h =
    let (sb, e, h1) = >>=-eq-some s.array.sb _ h in
    let (rdevs, f, h2) = >>=-eq-some (sync_list k sb s.rdevs s.array.disks) _ h1 in
    let each = sync_list-Alike k sb s.rdevs rdevs s.array.disks f in
    subst (Alike s) (some_inj h2) (record {
      dev = λ id. (each id).0;
      bound = λ id. (each id).1;
      all = refl;
      next = refl;
      disks = refl;
      count = refl;
    })

pub measure-Alike :
    (k : Kernel) (s : System) (id dev : ℕ) (sb : Superblock) → Alike s (measure k s id dev sb)
unfolding measure
measure-Alike k s id dev sb = record {
  dev = λ i. ground (arith);
  bound = λ i. ground (arith);
  all = refl;
  next = refl;
  disks = refl;
  count = refl;
}

pub place_member-Alike : (s : System) (id dev number : ℕ) → Alike s (place_member s id dev number)
place_member-Alike s id dev number = record {
  dev = λ i. ground arith;
  bound = λ i. ground arith;
  all = refl;
  next = refl;
  disks = refl;
  count = refl;
}
