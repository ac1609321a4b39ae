-- ===== src/Analyze/Sound.antt =====
-- The array that `analyze_sbs` accepts.
use jraid.Common.{
  ℕ, ◌<◌, ◌≤◌, ◌≡◌, ◌≢◌, ◌⊎◌, Bool, true, false, ◌&&◌, ◌||◌, not, Option, none, some, ◌==◌, arith,
  refl, sym, ap, ◌∙◌, subst, occ, Bool-cases, Option-cases, inl, inr, some_inj, true≢false,
  >>=-eq-some, if-true, if-false, get_elem?, ==_iff,
}
use jraid.Superblock.{Disk, Superblock, disk_faulty}
use jraid.Member.{Kernel, Rdev, System, no_desc, find_jrdev, is_some}
use jraid.Member.Import.{find_dev-some}
use jraid.Analyze.{
  all_usable, own_sb, adopt, relocate_all, has_desc_nr, is_vacant, cull_disks, cull, is_consistent,
  all_consistent, all_distinct, is_supported, passes, final_checks, weigh, analyze_sbs,
}
use jraid.Analyze.Stages.{
  Keeps, Keeps-trans, after-eq, own_sb-Keeps, adopt-Keeps, relocate_all-Keeps, cull-Keeps,
}
use jraid.Analyze.Checks.{
  and_true, usable_members, distinct_members, no_clash, has_desc_nr-member, Kept, cull_disks-Kept,
  consistent_disk,
}
use jraid.Analyze.Fresh.{IsFresh, adopt-IsFresh}
use jraid.Analyze.Settle.{settle-IsFresh}

-- A member that is in use: it works, has a copy, and a place in the superblock.
pub record IsMember (r : Rdev) : Type 0 where
  pub works : r.faulty ≡ false
  pub page : r.sb ≢ none
  pub placed : r.desc_nr ≢ no_desc

-- A descriptor of no device, or one of a disk that works, of which a member has the number, and a
-- member the device.
abbrev pub IsBacked : Kernel → System → Disk → Type 0
IsBacked k s d =
    (is_vacant k d ≡ true)
    ⊎ ((disk_faulty d ≡ false)
        × ((id : ℕ) × (0 < occ id s.array.disks) × ((s.rdevs id).desc_nr ≡ d.number))
        × ((id : ℕ) × (0 < occ id s.array.disks) × ((s.rdevs id).dev ≡ k.mkdev d.major d.minor)))

-- The array after `analyze_sbs`: each member is in use, no two share a descriptor or a device, and
-- each descriptor is backed by members.
pub record IsSound (k : Kernel) (s : System) : Type 0 where
  pub sb : Superblock
  pub own : s.array.sb ≡ some sb
  pub member : (id : ℕ) → 0 < occ id s.array.disks → IsMember (s.rdevs id)
  pub apart :
      (id other : ℕ)
      → 0 < occ id s.array.disks
      → 0 < occ other s.array.disks
      → other ≢ id
      → ((s.rdevs other).desc_nr ≢ (s.rdevs id).desc_nr) × ((s.rdevs other).dev ≢ (s.rdevs id).dev)
  pub backed : (i : ℕ) (d : Disk) → get_elem? sb.disks i ≡ some d → IsBacked k s d
  pub major_version : sb.major_version ≡ 0
  pub minor_version : sb.minor_version ≤ 90

-- The stages of `analyze_sbs` when it accepts.
record Weighed (k : Kernel) (s s' : System) : Type 0 where
  usable : all_usable s.rdevs s.array.disks ≡ true
  s1 : System
  owned : own_sb k s ≡ some (s1, false)
  s2 : System
  adopted : adopt k s1 ≡ some (s2, false)
  s3 : System
  relocated : relocate_all k s2 s2.array.disks ≡ some (s3, false)
  culled : cull k s3 ≡ some (s', false)
  sb : Superblock
  own : s'.array.sb ≡ some sb
  checked : passes k s' sb ≡ true

final_checks-eq :
    (k : Kernel) (s s' : System)
    → final_checks k s ≡ some (s', false)
    → (s ≡ s') × (sb : Superblock) × (s'.array.sb ≡ some sb) × (passes k s' sb ≡ true)
unfolding final_checks
final_checks-eq k s s' h =
    let (sb, e, h1) = >>=-eq-some s.array.sb _ h in
    let last = ap (λ t. t.0) (some_inj h1) in
    (
      last,
      sb,
      subst (λ t. t.array.sb ≡ some sb) last e,
      subst (λ t. passes k t sb ≡ true) last
          (not_false (passes k s sb) (ap (λ t. t.1) (some_inj h1))),
    )
  where
    not_false : (b : Bool) → not b ≡ false → b ≡ true
    not_false b h = ground (arith, h)

analyze_sbs-Weighed :
    (k : Kernel) (s s' : System) → analyze_sbs k s ≡ some (s', false) → Weighed k s s'
unfolding analyze_sbs weigh
analyze_sbs-Weighed k s s' h = elim (Bool-cases (all_usable s.rdevs s.array.disks)) [
  | inr u ↦ absurd (true≢false refl (ap (λ t. t.1) (some_inj (if-false _ _ u h))))
  | inl u ↦
      let (s1, e1, h1) = after-eq (own_sb k s) _ (if-true _ _ u h) in
      let (s2, e2, h2) = after-eq (adopt k s1) _ h1 in
      let (s3, e3, h3) = after-eq (relocate_all k s2 s2.array.disks) _ h2 in
      let (s4, e4, h4) = after-eq (cull k s3) _ h3 in
      let (last, sb, own, checked) = final_checks-eq k s4 s' h4 in
      record {
        usable = u;
        s1 = s1;
        owned = e1;
        s2 = s2;
        adopted = e2;
        s3 = s3;
        relocated = e3;
        culled = e4 ∙ ap (λ t. some (t, false)) last;
        sb = sb;
        own = own;
        checked = checked;
      }
]

vacant_or :
    (k : Kernel) (s : System) (d : Disk)
    → is_consistent k s d ≡ true
    → is_vacant k d ≡ false
    → is_some (find_jrdev s (k.mkdev d.major d.minor)) ≡ true
vacant_or k s d h v =
    (and_true (not (disk_faulty d)) _ (
      sym (ap (λ b. b || not (disk_faulty d) && is_some (find_jrdev s (k.mkdev d.major d.minor))) v)
      ∙ h)).1

disk-IsBacked :
    (k : Kernel) (s : System) (d : Disk)
    → Kept k (has_desc_nr s.rdevs s.array.disks) d
    → is_consistent k s d ≡ true
    → IsBacked k s d
disk-IsBacked k s d (inl v) h = inl v
disk-IsBacked k s d (inr (works, numbered)) h = elim (Bool-cases (is_vacant k d)) [
  | inl v ↦ inl v
  | inr v ↦ elim (Option-cases (find_jrdev s (k.mkdev d.major d.minor))) [
    | inl e ↦ absurd (some_page_not _ e (vacant_or k s d h v))
    | inr (id, e) ↦
        let (m, dev) = find_dev-some s.rdevs (k.mkdev d.major d.minor) s.array.disks id e in
        inr (works, has_desc_nr-member s.rdevs s.array.disks d.number numbered, (id, m, dev))
  ]
]
  where
    some_page_not : (o : Option ℕ) → o ≡ none → is_some o ≡ true → ⊥
    some_page_not o e h = true≢false h (ap is_some e)

cull_left :
    (k : Kernel) (s s' : System) (sb : Superblock)
    → cull k s ≡ some (s', false)
    → s'.array.sb ≡ some sb
    → (i : ℕ) (d : Disk) → get_elem? sb.disks i ≡ some d
    → Kept k (has_desc_nr s'.rdevs s'.array.disks) d
unfolding cull
cull_left k s s' sb h own i d e =
    let (before, f, h1) = >>=-eq-some s.array.sb _ h in
    let found = has_desc_nr s.rdevs s.array.disks in
    let left = cull_disks k found before.disks before in
    let last = ap (λ t. t.0) (some_inj h1) in
    let now : record (left.1) { disks = left.0 } ≡ sb =
      some_inj (ap (λ t. t.array.sb) last ∙ own) in
    subst (λ t. Kept k (has_desc_nr t.rdevs t.array.disks) d) last
      (cull_disks-Kept k found before.disks before i d (ap (λ t. get_elem? t.disks i) now ∙ e))

-- The members that passed the first check are in use after the last.
members_used :
    (s s' : System) (id : ℕ)
    → Keeps s s'
    → all_usable s.rdevs s.array.disks ≡ true
    → all_distinct s'.rdevs s'.array.disks s'.array.disks ≡ true
    → 0 < occ id s'.array.disks
    → IsMember (s'.rdevs id)
members_used s s' id keeps usable distinct m =
    let (works, page) =
      usable_members s.rdevs s.array.disks id usable (subst (λ t. 0 < occ id t) keeps.disks m) in
    record {
      works = keeps.faulty id ∙ works;
      page = keeps.pages id page;
      placed = (distinct_members s'.rdevs s'.array.disks s'.array.disks id distinct m).0;
    }

-- When `analyze_sbs` accepts an array whose list has each member once, the array has the same
-- members, devices and descriptor numbers as before; each member works, has a copy of the superblock
-- and a descriptor number, and no two have the same number or device; each descriptor of a device is
-- not faulty, its number is that of a member and its device that of one; the version is supported; and
-- the array's superblock has as many events as the copy of one member, and no copy has more.
pub analyze_sbs-IsSound :
    (k : Kernel) (s s' : System)
    → ((id : ℕ) → occ id s.array.disks ≤ 1)
    → analyze_sbs k s ≡ some (s', false)
    → Keeps s s' × IsSound k s' × IsFresh s'
analyze_sbs-IsSound k s s' once h =
    let w = analyze_sbs-Weighed k s s' h in
    let k1 = own_sb-Keeps k s w.s1 false w.owned in
    let k2 = Keeps-trans s w.s1 w.s2 k1 (adopt-Keeps k w.s1 w.s2 w.adopted) in
    let k3 = relocate_all-Keeps k w.s2 w.s3 w.s2.array.disks w.relocated in
    let keeps =
      Keeps-trans s w.s2 s' k2 (Keeps-trans w.s2 w.s3 s' k3 (cull-Keeps k w.s3 s' w.culled)) in
    let fresh = settle-IsFresh k w.s2 w.s3 s' w.s2.array.disks w.relocated w.culled (
      adopt-IsFresh k w.s1 w.s2 (λ id. subst (λ t. occ id t ≤ 1) (sym k1.disks) (once id))
        w.adopted) in
    let (checks, supported) = and_true _ (is_supported w.sb) w.checked in
    let (consistent, distinct) = and_true (all_consistent k s' w.sb.disks) _ checks in
    (
      keeps,
      record {
        sb = w.sb;
        own = w.own;
        member = λ id m. members_used s s' id keeps w.usable distinct m;
        apart = λ id other m n ne.
            no_clash s'.rdevs id other s'.array.disks
              (distinct_members s'.rdevs s'.array.disks s'.array.disks id distinct m).1 n ne;
        backed = λ i d e.
            disk-IsBacked k s' d (cull_left k w.s3 s' w.sb w.culled w.own i d e)
              (consistent_disk k s' w.sb.disks i d consistent e);
        major_version = (==_iff _ _).0 (and_true (w.sb.major_version == 0) _ supported).0;
        minor_version = ground (arith, (and_true (w.sb.major_version == 0) _ supported).1);
      },
      fresh,
    )
