-- ===== src/Joining/Members.antt =====
-- What `add_new_disk` keeps: the list of all members, and those of the array.
use jraid.Common.{
  ℕ, zero, suc, ◌<◌, ◌≡◌, ◌⊎◌, inl, inr, Bool, true, false, not, Option, none, some, ◌∷◌, ◌==◌,
  update, occ, length, arith, refl, Bool-cases, sym, ap, ◌∙◌, subst, some_inj, >>=-eq-some,
  map-eq-some, if-true, if-false, leb, get_elem?, ==_refl,
}
use jraid.Superblock.{Superblock, has_bit, md_disk_faulty}
use jraid.Handle.{modify_at}
use jraid.Member.{Kernel, System, find_jrdev_all, is_some, jmd_import_device}
use jraid.Member.Import.{Imported, Imported-IsListed, jmd_import_device-Imported, find_dev-some}
use jraid.Array.{JmdDiskInfo, with_sb, bind_rdev_to_array}
use jraid.Joining.{
  uuid_equal, first, bind_first, add_first, written_disk, place_member, bind_described,
  add_described, add_disk, add_new_disk,
}
use jraid.Joining.Alike.{
  IsArray, Alike, Alike-IsArray, sync_sbs-Alike, measure-Alike, place_member-Alike,
}

-- The state with one member more.
abbrev with_member : System → ℕ → System
with_member s id = record s {
  rdevs = update s.rdevs id (record (s.rdevs id) { bound = true });
  array = record (s.array) { disks = id ∷ s.array.disks; nb_dev = suc s.array.nb_dev };
}

with_member-IsArray :
    (s : System) (id : ℕ)
    → IsArray s
    → 0 < occ id s.all_jraid_disks
    → (s.rdevs id).bound ≡ false
    → IsArray (with_member s id)
with_member-IsArray s id v l free = record {
  listed = record {
    below = v.listed.below;
    once = v.listed.once;
    apart = λ i j. ground (arith, v.listed.apart i j);
  };
  members = λ i. ground (arith, v.members i, l);
  once = λ i. ground (arith, v.once i, v.bound id l, free);
  bound = λ i. ground (arith, v.bound i);
  count = ap suc v.count;
}

-- What joining a device comes to: the members of the array stay, or, with the result 0, the device
-- that had no member has one in front of them.
abbrev Joined : System → ℕ → System × ℕ → Type 0
Joined s dev t =
    IsArray t.0
    × ((t.0.array.disks ≡ s.array.disks)
        ⊎ ((t.1 ≡ 0)
            × (find_jrdev_all s dev ≡ none)
            × (t.0.array.disks ≡ s.next ∷ s.array.disks)
            × ((t.0.rdevs s.next).dev ≡ dev)))

bind-Joined :
    (s s1 : System) (dev : ℕ)
    → IsArray s1
    → find_jrdev_all s dev ≡ none
    → s1.array.disks ≡ s.array.disks
    → 0 < occ s.next s1.all_jraid_disks
    → (s1.rdevs s.next).bound ≡ false
    → (s1.rdevs s.next).dev ≡ dev
    → Joined s dev (bind_rdev_to_array s1 s.next, 0)
unfolding bind_rdev_to_array
bind-Joined s s1 dev v fresh same l free is = rw free (
  with_member-IsArray s1 s.next v l free,
  inr (refl, fresh, ap (λ d. s.next ∷ d) same, rw (==_refl s.next) is),
)

-- The import keeps the array, and the new member is there and not bound.
record IsNew (s s1 : System) (dev : ℕ) : Type 0 where
  array : IsArray s1
  fresh : find_jrdev_all s dev ≡ none
  found : find_jrdev_all s1 dev ≡ some s.next
  disks : s1.array.disks ≡ s.array.disks
  listed : 0 < occ s.next s1.all_jraid_disks
  free : (s1.rdevs s.next).bound ≡ false
  is : (s1.rdevs s.next).dev ≡ dev

Imported-IsArray :
    (s : System) (dev : ℕ) (s1 : System) (e : ℕ)
    → IsArray s
    → Imported s dev s1 e
    → IsArray s1 × (s1.array.disks ≡ s.array.disks) × (e ≡ 0 → IsNew s s1 dev)
Imported-IsArray s dev s1 zero v (fresh, found, list, same, free, next, arr) =
    let array : IsArray s1 = record {
      listed = Imported-IsListed s dev s1 zero v.listed (fresh, found, list, same, free, next, arr);
      members = λ i. ground (arith, v.members i, ap (occ i) list, ap (λ a. occ i a.disks) arr);
      once = λ i. ground (arith, v.once i, ap (λ a. occ i a.disks) arr);
      bound = λ i. ground (
        arith,
        v.bound i,
        v.members i,
        v.listed.below i,
        ap (occ i) list,
        ap (λ a. occ i a.disks) arr,
        same i,
        free,
      );
      count = ap (λ a. a.nb_dev) arr ∙ v.count ∙ ap (λ a. length a.disks) (sym arr);
    } in
    let (listed, is) = find_dev-some s1.rdevs dev s1.all_jraid_disks s.next found in
    (
      array,
      ap (λ a. a.disks) arr,
      λ _. record {
        array = array;
        fresh = fresh;
        found = found;
        disks = ap (λ a. a.disks) arr;
        listed = listed;
        free = free;
        is = is;
      },
    )
Imported-IsArray s dev s1 (suc e) v (list, same, next, arr) = (
  Alike-IsArray s s1
      (record {
        dev = λ i. ap (λ r. r.dev) (same i);
        bound = λ i. ap (λ r. r.bound) (same i);
        all = list;
        next = next;
        disks = ap (λ a. a.disks) arr;
        count = ap (λ a. a.nb_dev) arr;
      })
      v,
  ap (λ a. a.disks) arr,
  λ h. absurd (omega (arith, h)),
)

jmd_import_device-IsArray :
    (k : Kernel) (s : System) (dev : ℕ) (on_disk : Bool)
    → IsArray s
    → let (s1, e) = jmd_import_device k s dev on_disk in
      IsArray s1 × (s1.array.disks ≡ s.array.disks) × (e ≡ 0 → IsNew s s1 dev)
jmd_import_device-IsArray k s dev on_disk v =
    Imported-IsArray s dev _ _ v (jmd_import_device-Imported k s dev on_disk)

uuid_equal-true : (a b : Superblock) → uuid_equal a b ≡ true
unfolding uuid_equal
uuid_equal-true a b = ground arith

bind_first-Joined :
    (s s1 : System) (dev : ℕ) (t : System × ℕ)
    → IsNew s s1 dev
    → bind_first s1 (some s.next) ≡ some t
    → Joined s dev t
unfolding bind_first
bind_first-Joined s s1 dev t n h =
    let joined : Joined s dev (bind_rdev_to_array s1 s.next, 0) =
      bind-Joined s s1 dev n.array n.fresh n.disks n.listed n.free n.is in
    elim (Bool-cases (s1.array.nb_dev == 0)) [
      | inl e ↦ subst (Joined s dev) (some_inj (if-true _ _ e h)) joined
      | inr e ↦
          let (id0, _, h1) = >>=-eq-some (first s1.array.disks) _ (if-false _ _ e h) in
          let (sb0, _, h2) = >>=-eq-some (s1.rdevs id0).sb _ h1 in
          let (sb, _, h3) = >>=-eq-some (s1.rdevs s.next).sb _ h2 in
          subst (Joined s dev) (some_inj (if-true _ _ (uuid_equal-true sb0 sb) h3)) joined
    ]

add_first-Joined :
    (k : Kernel) (s : System) (dev : ℕ) (t : System × ℕ)
    → IsArray s
    → add_first k s dev ≡ some t
    → Joined s dev t
unfolding add_first
add_first-Joined k s dev t v h =
    let (s1, e) = jmd_import_device k s dev true in
    let (array, same, new) = jmd_import_device-IsArray k s dev true v in
    elim (Bool-cases (e == 0)) [
      | inr ne ↦ subst (Joined s dev) (some_inj (if-true _ _ (ap not ne) h)) (array, inl same)
      | inl z ↦
          let n : IsNew s s1 dev = new (ground (arith, z)) in
          bind_first-Joined s s1 dev t n
            (subst (λ o. bind_first s1 o ≡ some t) n.found (if-false _ _ (ap not z) h))
    ]

-- The rest of the work on a member that has joined changes nothing that matters here.
Joined-Alike :
    (s s1 s2 : System) (dev : ℕ) → Alike s1 s2 → Joined s dev (s1, 0) → Joined s dev (s2, 0)
Joined-Alike s s1 s2 dev l (v, inl same) = (Alike-IsArray s1 s2 l v, inl (l.disks ∙ same))
Joined-Alike s s1 s2 dev l (v, inr (z, fresh, disks, is)) =
    (Alike-IsArray s1 s2 l v, inr (z, fresh, l.disks ∙ disks, l.dev s.next ∙ is))

bind_described-Joined :
    (k : Kernel) (info : JmdDiskInfo) (s s1 : System) (dev : ℕ) (sb : Superblock) (t : System × ℕ)
    → IsNew s s1 dev
    → bind_described k info dev sb s1 (some s.next) ≡ some t
    → Joined s dev t
unfolding bind_described
bind_described-Joined k info s s1 dev sb t n h =
    let (s2, e, f) = map-eq-some (λ u. (u, 0)) _ h in
    let placed = place_member-Alike s1 s.next dev info.number in
    let s3 : System = place_member s1 s.next dev info.number in
    let joined : Joined s dev (bind_rdev_to_array s3 s.next, 0) =
      bind-Joined s s3 dev (Alike-IsArray s1 s3 placed n.array) n.fresh n.disks n.listed
        (placed.bound s.next ∙ n.free) (placed.dev s.next ∙ n.is) in
    subst (Joined s dev) f (
      Joined-Alike s _ s2 dev (sync_sbs-Alike k _ s2 e) (
        Joined-Alike s _ _ dev (measure-Alike k (bind_rdev_to_array s3 s.next) s.next dev sb)
          joined))

add_described-Joined :
    (k : Kernel) (s : System) (info : JmdDiskInfo) (dev : ℕ) (sb : Superblock) (t : System × ℕ)
    → IsArray s
    → add_described k s info dev sb ≡ some t
    → Joined s dev t
unfolding add_described
add_described-Joined k s info dev sb t v h = elim (Bool-cases (leb sb.nr_disks info.number)) [
  | inl e ↦ subst (Joined s dev) (some_inj (if-true _ _ e h)) (v, inl refl)
  | inr e ↦
      let (_, _, h1) = >>=-eq-some (get_elem? sb.disks info.number) _ (if-false _ _ e h) in
      let sb1 : Superblock = record sb {
        disks = modify_at info.number (written_disk info) sb.disks;
      } in
      let s1 : System = with_sb s sb1 in
      let v1 : IsArray s1 =
        Alike-IsArray s s1
          (record {
            dev = λ i. refl;
            bound = λ i. refl;
            all = refl;
            next = refl;
            disks = refl;
            count = refl;
          })
          v in
      elim (Bool-cases (has_bit info.state md_disk_faulty)) [
        | inl f ↦
            let (s2, g, i) = map-eq-some (λ u. (u, 0)) _ (if-true _ _ f h1) in
            subst (Joined s dev) i
              (Joined-Alike s s1 s2 dev (sync_sbs-Alike k s1 s2 g) (v1, inl refl))
        | inr f ↦
            let (s2, c) = jmd_import_device k s1 dev false in
            let (array, same, new) = jmd_import_device-IsArray k s1 dev false v1 in
            let h2 = if-false _ _ f h1 in
            elim (Bool-cases (c == 0)) [
              | inr ne ↦
                  subst (Joined s dev) (some_inj (if-true _ _ (ap not ne) h2)) (array, inl same)
              | inl z ↦
                  let n : IsNew s1 s2 dev = new (ground (arith, z)) in
                  bind_described-Joined k info s1 s2 dev sb1 t n (
                    subst (λ o. bind_described k info dev sb1 s2 o ≡ some t) n.found
                      (if-false _ _ (ap not z) h2))
            ]
      ]
]

-- `add_new_disk` keeps the members in order: on the list of all none stands twice and no two are for
-- one device, those of the array are just the bound ones, and `nb_dev` counts them. Either the
-- array has the members it had, or the result is 0, the device had no member, and now has one,
-- which is the first of the array.
pub add_new_disk-IsArray :
    (k : Kernel) (s : System) (info : JmdDiskInfo) (s' : System) (e : ℕ)
    → IsArray s
    → add_new_disk k s info ≡ some (s', e)
    → IsArray s'
      × ((s'.array.disks ≡ s.array.disks)
          ⊎ ((e ≡ 0)
              × (find_jrdev_all s (k.mkdev info.major info.minor) ≡ none)
              × (s'.array.disks ≡ s.next ∷ s.array.disks)
              × ((s'.rdevs s.next).dev ≡ k.mkdev info.major info.minor)))
unfolding add_new_disk add_disk
add_new_disk-IsArray k s info s' e v h =
    let dev : ℕ = k.mkdev info.major info.minor in
    elim (Bool-cases (is_some (find_jrdev_all s dev))) [
      | inl f ↦ subst (Joined s dev) (some_inj (if-true _ _ f h)) (v, inl refl)
      | inr f ↦ rest s.array.sb (if-false _ _ f h)
    ]
  where
    rest :
        (o : Option Superblock)
        → add_disk k s info (k.mkdev info.major info.minor) o ≡ some (s', e)
        → Joined s (k.mkdev info.major info.minor) (s', e)
    rest none g = add_first-Joined k s _ (s', e) v g
    rest (some sb) g = add_described-Joined k s info _ sb (s', e) v g
