-- ===== src/Array/Sync.antt =====
-- The copies of the superblock that the members hold, before and after `sync_sbs`.
use jraid.Common.{
  ℕ, ◌<◌, ◌≡◌, ◌==◌, ◌⊎◌, inl, inr, Bool, true, false, Option, none, some, List, [], ◌∷◌, arith,
  refl, sym, ap, ◌∙◌, subst, occ, update, if-true, if-false, Bool-cases, some_inj, none≢some,
  >>=-eq-some, ltb, ==_refl,
}
use jraid.Superblock.{Disk, Superblock, scan, distrust, jmd_event, calc_sb_csum}
use jraid.Member.{Kernel, Rdev, System}
use jraid.Array.{descriptor, set_this_disk, put_copy, sync_member, sync_list, sync_sbs}

-- A copy of a superblock: it has the events and the descriptors, and its own checksum is right.
pub record IsCopy (k : Kernel) (sb copy : Superblock) : Type 0 where
  pub events : jmd_event copy ≡ jmd_event sb
  pub disks : copy.disks ≡ sb.disks
  pub checked : calc_sb_csum k.csum_partial copy ≡ copy.sb_csum

-- A member is faulty, or it holds a copy.
abbrev pub InSync : Kernel → Superblock → Rdev → Type 0
InSync k sb r = (r.faulty ≡ true) ⊎ ((copy : Superblock) × (r.sb ≡ some copy) × IsCopy k sb copy)

set_this_disk_keeps :
    (sb : Superblock) (r : Rdev) (found : Option Disk)
    → let copy = (set_this_disk sb r found).0 in
      (jmd_event copy ≡ jmd_event sb) × (copy.disks ≡ sb.disks)
unfolding set_this_disk
set_this_disk_keeps sb r none = (refl, refl)
set_this_disk_keeps sb r (some d) = (refl, refl)

put_copy-InSync :
    (k : Kernel) (sb : Superblock) (r r' : Rdev) (old : Option Superblock)
    → put_copy k sb r old ≡ some r'
    → InSync k sb r'
unfolding put_copy
put_copy-InSync k sb r r' none h = absurd (none≢some h)
put_copy-InSync k sb r r' (some old) h =
    let (events, disks) = set_this_disk_keeps sb r (descriptor k r.dev sb.disks) in
    subst (InSync k sb) (some_inj h)
      (inr (_, refl, record { events = events; disks = disks; checked = refl }))

sync_member-InSync :
    (k : Kernel) (sb : Superblock) (r r' : Rdev) → sync_member k sb r ≡ some r' → InSync k sb r'
unfolding sync_member
sync_member-InSync k sb r r' h = elim (Bool-cases r.faulty) [
  | inl e ↦ subst (InSync k sb) (some_inj (if-true _ _ e h)) (inl e)
  | inr e ↦ put_copy-InSync k sb r r' r.sb (if-false _ _ e h)
]

sync_list-InSync :
    (k : Kernel) (sb : Superblock) (rdevs rdevs' : ℕ → Rdev) (ids : List ℕ)
    → sync_list k sb rdevs ids ≡ some rdevs'
    → (id : ℕ)
    → (0 < occ id ids → InSync k sb (rdevs' id)) × (occ id ids ≡ 0 → rdevs' id ≡ rdevs id)
unfolding sync_list
sync_list-InSync k sb rdevs rdevs' [] h id =
    (λ p. absurd (omega arith), λ p. ap (λ f. f id) (sym (some_inj h)))
sync_list-InSync k sb rdevs rdevs' (x ∷ ids) h id =
    let (r, e, f) = >>=-eq-some (sync_member k sb (rdevs x)) _ h in
    let (later, apart) = sync_list-InSync k sb (update rdevs x r) rdevs' ids f id in
    elim (Bool-cases (id == x)) [
      | inr ne ↦ (λ p. later (ground (arith, p, ne)), λ p. apart (ground (arith, p)) ∙ rw ne refl)
      | inl same ↦
          let here : update rdevs x r id ≡ r = rw same refl in
          (
            λ p. elim (Bool-cases (occ id ids == 0)) [
              | inl z ↦
                  subst (InSync k sb) (sym (apart (ground (arith, z)) ∙ here))
                    (sync_member-InSync k sb (rdevs x) r e)
              | inr n ↦ later (ground (arith, n))
            ],
            λ p. absurd (ground (arith, p, same)),
          )
    ]

-- The superblocks that `analyze_sbs` reads: those of the members that are not faulty.
abbrev pub with_copy : Bool → Option Superblock → List Superblock → List Superblock
with_copy true o cs = cs
with_copy false none cs = cs
with_copy false (some sb) cs = sb ∷ cs

abbrev pub copies : (ℕ → Rdev) → List ℕ → List Superblock
copies rdevs [] = []
copies rdevs (id ∷ ids) = with_copy (rdevs id).faulty (rdevs id).sb (copies rdevs ids)

abbrev pub AllCopies : Kernel → Superblock → List Superblock → Type 0
AllCopies k sb [] = Unit {0}
AllCopies k sb (c ∷ cs) = IsCopy k sb c × AllCopies k sb cs

with_copy-AllCopies :
    (k : Kernel) (sb : Superblock) (faulty : Bool) (o : Option Superblock) (cs : List Superblock)
    → AllCopies k sb cs
    → (faulty ≡ true) ⊎ ((copy : Superblock) × (o ≡ some copy) × IsCopy k sb copy)
    → AllCopies k sb (with_copy faulty o cs)
with_copy-AllCopies k sb true o cs all h = all
with_copy-AllCopies k sb false none cs all h = all
with_copy-AllCopies k sb false (some c) cs all (inl e) = cc
with_copy-AllCopies k sb false (some c) cs all (inr (c', e, is)) =
    (subst (IsCopy k sb) (sym (some_inj e)) is, all)

copies-AllCopies :
    (k : Kernel) (sb : Superblock) (rdevs : ℕ → Rdev) (ids : List ℕ)
    → ((id : ℕ) → 0 < occ id ids → InSync k sb (rdevs id))
    → AllCopies k sb (copies rdevs ids)
copies-AllCopies k sb rdevs [] h = tt
copies-AllCopies k sb rdevs (id ∷ ids) h =
    with_copy-AllCopies k sb (rdevs id).faulty (rdevs id).sb (copies rdevs ids)
      (copies-AllCopies k sb rdevs ids (λ i p. h i (ground (arith, p)))) (h id (ground arith))

-- A copy is believed.
distrust-copy :
    (k : Kernel) (sb copy : Superblock) → IsCopy k sb copy → distrust k.csum_partial copy ≡ copy
unfolding distrust
distrust-copy k sb copy is = rw (is.checked, ==_refl copy.sb_csum) refl

scan-copies :
    (k : Kernel) (sb g : Superblock) (cs : List Superblock)
    → jmd_event g ≡ jmd_event sb
    → AllCopies k sb cs
    → ((scan k.csum_partial (some g) cs).out_of_date ≡ false)
      × ((scan k.csum_partial (some g) cs).members ≡ cs)
unfolding scan
scan-copies k sb g [] h all = (refl, refl)
scan-copies k sb g (c ∷ cs) h (is, all) =
    let (o, m) = scan-copies k sb g cs h all in
    let same : jmd_event c ≡ jmd_event g = is.events ∙ sym h in
    rw
      (
        distrust-copy k sb c is,
        subst (λ e. (e == jmd_event g) ≡ true) (sym same) (==_refl (jmd_event g)),
        subst (λ e. ltb (jmd_event g) e ≡ false) (sym same) (ground arith),
        o,
        m,
      )
      (refl, refl)

scan-AllCopies :
    (k : Kernel) (sb : Superblock) (cs : List Superblock)
    → AllCopies k sb cs
    → ((scan k.csum_partial none cs).out_of_date ≡ false)
      × ((scan k.csum_partial none cs).members ≡ cs)
unfolding scan
scan-AllCopies k sb [] all = (refl, refl)
scan-AllCopies k sb (c ∷ cs) (is, all) =
    let (o, m) = scan-copies k sb c cs is.events all in
    rw (distrust-copy k sb c is, o, m) (refl, refl)

abbrev Came : Kernel → System → Superblock → System → Type 0
Came k s sb s' =
    let seen = scan k.csum_partial none (copies s'.rdevs s.array.disks) in
    ((id : ℕ) → 0 < occ id s.array.disks → InSync k sb (s'.rdevs id))
    × ((id : ℕ) → occ id s.array.disks ≡ 0 → s'.rdevs id ≡ s.rdevs id)
    × (s'.array ≡ s.array)
    × (seen.members ≡ copies s'.rdevs s.array.disks)
    × (seen.out_of_date ≡ false)

-- The copies after `sync_sbs`, and what `analyze_sbs` finds in them.
pub sync_sbs-InSync :
    (k : Kernel) (s s' : System) (sb : Superblock)
    → s.array.sb ≡ some sb
    → sync_sbs k s ≡ some s'
    → let seen = scan k.csum_partial none (copies s'.rdevs s.array.disks) in
      ((id : ℕ) → 0 < occ id s.array.disks → InSync k sb (s'.rdevs id))
      × ((id : ℕ) → occ id s.array.disks ≡ 0 → s'.rdevs id ≡ s.rdevs id)
      × (s'.array ≡ s.array)
      × (seen.members ≡ copies s'.rdevs s.array.disks)
      × (seen.out_of_date ≡ false)
unfolding sync_sbs
sync_sbs-InSync k s s' sb a h =
    let (sb1, e, h1) = >>=-eq-some s.array.sb _ h in
    let (rdevs, f, h2) = >>=-eq-some (sync_list k sb1 s.rdevs s.array.disks) _ h1 in
    let all =
      sync_list-InSync k sb s.rdevs rdevs s.array.disks
        (subst (λ t. sync_list k t s.rdevs s.array.disks ≡ some rdevs) (some_inj (sym e ∙ a)) f) in
    let (fresh, kept) =
      scan-AllCopies k sb (copies rdevs s.array.disks)
        (copies-AllCopies k sb rdevs s.array.disks (λ id. (all id).0)) in
    subst (Came k s sb) (some_inj h2) ((λ id. (all id).0), (λ id. (all id).1), refl, kept, fresh)
