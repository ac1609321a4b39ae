-- ===== src/Member/Import.antt =====
-- The list of all members, before and after an import.
use jraid.Common.{
  ℕ, suc, ◌+◌, ◌≤◌, ◌<◌, ◌≡◌, ◌≢◌, ◌⊎◌, inl, inr, Bool, true, false, none, some, List, [], ◌∷◌,
  ◌==◌, occ, arith, refl, Bool-cases, Option-cases, ap, length, ==_refl, zero,
}
use jraid.Errno.{einval, enomem, ebusy, eexist}
use jraid.Member.{
  Kernel, Rdev, System, find_dev, find_jrdev_all, jmd_import_device, import_open, add_rdev,
  fresh_rdev, loaded_rdev, check_disk_sb,
}

pub find_dev-some :
    (rdevs : ℕ → Rdev) (dev : ℕ) (l : List ℕ) (id : ℕ)
    → find_dev rdevs dev l ≡ some id
    → (0 < occ id l) × ((rdevs id).dev ≡ dev)
unfolding find_dev
find_dev-some rdevs dev [] id h = cc
find_dev-some rdevs dev (x ∷ l) id h = ground (arith, find_dev-some rdevs dev l id)

pub find_dev-none :
    (rdevs : ℕ → Rdev) (dev : ℕ) (l : List ℕ) (id : ℕ)
    → find_dev rdevs dev l ≡ none
    → 0 < occ id l
    → (rdevs id).dev ≢ dev
unfolding find_dev
find_dev-none rdevs dev [] id h p = absurd (omega arith)
find_dev-none rdevs dev (x ∷ l) id h p = ground (arith, find_dev-none rdevs dev l id)

-- The members: those on the list have addresses below `next`, stand on it once, and are for
-- different devices.
pub record IsListed (s : System) : Type 0 where
  pub below : (id : ℕ) → 0 < occ id s.all_jraid_disks → id < s.next
  pub once : (id : ℕ) → occ id s.all_jraid_disks ≤ 1
  pub apart :
      (i j : ℕ)
      → 0 < occ i s.all_jraid_disks
      → 0 < occ j s.all_jraid_disks
      → (s.rdevs i).dev ≡ (s.rdevs j).dev
      → i ≡ j

-- What an import of a device comes to. With the result 0 the device was not in the list, and is now
-- at its head as the member that is found for it; with an error no member changed.
abbrev pub Imported : System → ℕ → System → ℕ → Type 0
Imported s newdev s' zero =
    (find_jrdev_all s newdev ≡ none)
    × (find_jrdev_all s' newdev ≡ some s.next)
    × (s'.all_jraid_disks ≡ s.next ∷ s.all_jraid_disks)
    × ((id : ℕ) → id ≢ s.next → s'.rdevs id ≡ s.rdevs id)
    × ((s'.rdevs s.next).bound ≡ false)
    × (s'.next ≡ suc s.next)
    × (s'.array ≡ s.array)
Imported s newdev s' (suc e) =
    (s'.all_jraid_disks ≡ s.all_jraid_disks)
    × ((id : ℕ) → s'.rdevs id ≡ s.rdevs id)
    × (s'.next ≡ s.next)
    × (s'.array ≡ s.array)

add_rdev-Imported :
    (s : System) (calls pages : ℕ) (r : Rdev)
    → find_jrdev_all s r.dev ≡ none
    → r.bound ≡ false
    → Imported s r.dev (add_rdev (record s { calls = calls; pages = pages }) r) 0
unfolding add_rdev find_dev
add_rdev-Imported s calls pages r h b = (
  h,
  rw (==_refl s.next, ==_refl r.dev) refl,
  refl,
  λ id ne. ground arith,
  rw (==_refl s.next) b,
  refl,
  refl,
)

-- An error number.
unchanged :
    (s : System) (newdev e calls pages : ℕ)
    → 0 < e
    → Imported s newdev (record s { calls = calls; pages = pages }) e
unchanged s newdev zero calls pages h = absurd (omega arith)
unchanged s newdev (suc e) calls pages h = (refl, λ id. refl, refl, refl)

import_open-Imported :
    (k : Kernel) (s : System) (newdev calls : ℕ) (on_disk : Bool)
    → find_jrdev_all s newdev ≡ none
    → let (s', e) = import_open k (record s { calls = calls }) newdev on_disk in
      Imported s newdev s' e
unfolding import_open
import_open-Imported k s newdev calls false h =
    add_rdev-Imported s calls (suc s.pages) (fresh_rdev k (record s { calls = calls }) newdev) h
      refl
import_open-Imported k s newdev calls true h =
    let sb = s.content newdev 0 in
    elim (Bool-cases (k.readable newdev)) [
      | inr e ↦ rw e (unchanged s newdev einval calls s.pages (omega arith))
      | inl e ↦ elim (Bool-cases (check_disk_sb (some sb) == 0)) [
        | inl f ↦
            rw (e, f)
              (add_rdev-Imported s calls (suc s.pages)
                (loaded_rdev k (record s { calls = calls }) newdev sb) h refl)
        | inr f ↦
            rw (e, f) (unchanged s newdev (check_disk_sb (some sb)) calls s.pages (ground arith))
      ]
    ]

-- An import ends with 0 and the one new member, for a device that had none, or with an error and
-- no member changed.
pub jmd_import_device-Imported :
    (k : Kernel) (s : System) (newdev : ℕ) (on_disk : Bool)
    → let (s', e) = jmd_import_device k s newdev on_disk in Imported s newdev s' e
unfolding jmd_import_device
jmd_import_device-Imported k s newdev on_disk = elim (Option-cases (find_jrdev_all s newdev)) [
  | inr (id, f) ↦ rw f (unchanged s newdev eexist s.calls s.pages (omega arith))
  | inl f ↦ elim (Bool-cases (k.allocates s.calls)) [
    | inr a ↦ rw (f, a) (unchanged s newdev enomem (suc s.calls) s.pages (omega arith))
    | inl a ↦ elim (Bool-cases (k.has_super newdev)) [
      | inl g ↦ rw (f, a, g) (unchanged s newdev ebusy (suc s.calls) s.pages (omega arith))
      | inr g ↦ elim (Bool-cases (k.allocates (suc s.calls))) [
        | inr b ↦
            rw (f, a, g, b) (unchanged s newdev enomem (suc (suc s.calls)) s.pages (omega arith))
        | inl b ↦ elim (Bool-cases (k.opens newdev)) [
          | inr o ↦
              rw (f, a, g, b, o)
                (unchanged s newdev einval (suc (suc s.calls)) (suc s.pages) (omega arith))
          | inl o ↦
              rw (f, a, g, b, o) (import_open-Imported k s newdev (suc (suc s.calls)) on_disk f)
        ]
      ]
    ]
  ]
]

pub Imported-IsListed :
    (s : System) (newdev : ℕ) (s' : System) (e : ℕ)
    → IsListed s
    → Imported s newdev s' e
    → IsListed s'
Imported-IsListed s newdev s' zero v (fresh, found, list, same, _, next, _) =
    let (_, d) = find_dev-some s'.rdevs newdev s'.all_jraid_disks s.next found in
    record {
      below = λ i. ground (arith, v.below i, ap (occ i) list, next);
      once = λ i. ground (arith, v.once i, v.below s.next, ap (occ i) list);
      apart = λ i j. ground (
        arith,
        v.apart i j,
        v.below i,
        v.below j,
        same i,
        same j,
        d,
        ap (occ i) list,
        ap (occ j) list,
        find_dev-none s.rdevs newdev s.all_jraid_disks i fresh,
        find_dev-none s.rdevs newdev s.all_jraid_disks j fresh,
      );
    }
Imported-IsListed s newdev s' (suc e) v (list, same, next, _) = record {
  below = λ i. ground (arith, v.below i, ap (occ i) list, next);
  once = λ i. ground (arith, v.once i, ap (occ i) list);
  apart = λ i j. ground (arith, v.apart i j, same i, same j, ap (occ i) list, ap (occ j) list);
}

-- An import keeps the list of the members: none stands on it twice, and no two are for one device.
jmd_import_device-IsListed :
    (k : Kernel) (s : System) (newdev : ℕ) (on_disk : Bool)
    → IsListed s
    → IsListed (jmd_import_device k s newdev on_disk).0
jmd_import_device-IsListed k s newdev on_disk v =
    Imported-IsListed s newdev _ _ v (jmd_import_device-Imported k s newdev on_disk)

-- From a state in which each page for a superblock is a listed member's, an import leads to such a
-- state, or it fails with -EINVAL on a device that cannot be opened and one page is lost.
pub jmd_import_device-pages :
    (k : Kernel) (s : System) (newdev : ℕ) (on_disk : Bool)
    → s.pages ≡ length s.all_jraid_disks
    → let (s', e) = jmd_import_device k s newdev on_disk in
      (s'.pages ≡ length s'.all_jraid_disks)
      ⊎ ((e ≡ einval) × (k.opens newdev ≡ false) × (s'.pages ≡ length s'.all_jraid_disks + 1))
unfolding jmd_import_device import_open add_rdev
jmd_import_device-pages k s newdev on_disk h = ground arith
