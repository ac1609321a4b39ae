-- ===== src/Analyze/Checks.antt =====
-- The checks of `analyze_sbs`, and what they compare.
use jraid.Common.{
  ℕ, suc, zero, ◌<◌, ◌≡◌, ◌≢◌, ◌⊎◌, Bool, true, false, ◌&&◌, ◌||◌, not, Option, none, some, List,
  [], ◌∷◌, ◌==◌, arith, refl, sym, ap, ◌∙◌, subst, occ, Bool-cases, inl, inr, some_inj, none≢some,
  true≢false, get_elem?, ==_iff, ==_refl,
}
use jraid.Superblock.{Disk, Superblock, disk_faulty, remove_descriptor}
use jraid.Member.{Kernel, Rdev, System, no_desc, is_some}
use jraid.Analyze.{
  all_usable, is_usable, has_desc_nr, is_vacant, cull_disk, cull_disks, is_consistent,
  all_consistent, clashes, all_distinct,
}

pub and_true : (a b : Bool) → a && b ≡ true → (a ≡ true) × (b ≡ true)
and_true true b h = (refl, h)
and_true false b h = absurd (true≢false h (refl {a = false}))

or_false : (a b : Bool) → a || b ≡ false → (a ≡ false) × (b ≡ false)
or_false true b h = absurd (true≢false (refl {a = true}) h)
or_false false b h = (refl, h)

some_page : (o : Option Superblock) → is_some o ≡ true → o ≢ none
some_page none h = cc
some_page (some sb) h = λ e. none≢some (sym e)

is_usable_lem : (r : Rdev) → is_usable r ≡ true → (r.faulty ≡ false) × (r.sb ≢ none)
is_usable_lem r h =
    let (a, _) = and_true (not r.faulty && is_some r.sb) _ h in
    let (b, c) = and_true (not r.faulty) _ a in (ground (arith, b), some_page r.sb c)

pub usable_members :
    (rdevs : ℕ → Rdev) (ids : List ℕ) (id : ℕ)
    → all_usable rdevs ids ≡ true
    → 0 < occ id ids
    → ((rdevs id).faulty ≡ false) × ((rdevs id).sb ≢ none)
unfolding all_usable
usable_members rdevs [] id h m = absurd (omega arith)
usable_members rdevs (x ∷ ids) id h m =
    let (here, later) = and_true _ _ h in
    elim (Bool-cases (id == x)) [
      | inl e ↦
          subst (λ i. ((rdevs i).faulty ≡ false) × ((rdevs i).sb ≢ none)) (sym ((==_iff id x).0 e))
            (is_usable_lem (rdevs x) here)
      | inr e ↦ usable_members rdevs ids id later (ground (arith, e, m))
    ]

pub distinct_members :
    (rdevs : ℕ → Rdev) (all ids : List ℕ) (id : ℕ)
    → all_distinct rdevs all ids ≡ true
    → 0 < occ id ids
    → ((rdevs id).desc_nr ≢ no_desc) × (clashes rdevs id all ≡ false)
unfolding all_distinct
distinct_members rdevs all [] id h m = absurd (omega arith)
distinct_members rdevs all (x ∷ ids) id h m =
    let (here, later) = and_true _ (all_distinct rdevs all ids) h in
    let (placed, apart) = and_true _ (not (clashes rdevs x all)) here in
    elim (Bool-cases (id == x)) [
      | inl e ↦
          subst (λ i. ((rdevs i).desc_nr ≢ no_desc) × (clashes rdevs i all ≡ false))
            (sym ((==_iff id x).0 e)) (ground (arith, placed), ground (arith, apart))
      | inr e ↦ distinct_members rdevs all ids id later (ground (arith, e, m))
    ]

pub no_clash :
    (rdevs : ℕ → Rdev) (id other : ℕ) (ids : List ℕ)
    → clashes rdevs id ids ≡ false
    → 0 < occ other ids
    → other ≢ id
    → ((rdevs other).desc_nr ≢ (rdevs id).desc_nr) × ((rdevs other).dev ≢ (rdevs id).dev)
unfolding clashes
no_clash rdevs id other [] h m ne = absurd (omega arith)
no_clash rdevs id other (x ∷ ids) h m ne =
    let (here, later) = or_false _ (clashes rdevs id ids) h in
    elim (Bool-cases (other == x)) [
      | inl e ↦
          let same = (==_iff other x).0 e in
          subst (λ i. ((rdevs i).desc_nr ≢ (rdevs id).desc_nr) × ((rdevs i).dev ≢ (rdevs id).dev))
            (sym same) (apart rdevs id x (λ p. ne (same ∙ p)) here)
      | inr e ↦ no_clash rdevs id other ids later (ground (arith, e, m)) ne
    ]
  where
    apart :
        (rdevs : ℕ → Rdev) (id x : ℕ)
        → x ≢ id
        → not (x == id)
            && ((rdevs x).desc_nr == (rdevs id).desc_nr || (rdevs x).dev == (rdevs id).dev)
          ≡ false
        → ((rdevs x).desc_nr ≢ (rdevs id).desc_nr) × ((rdevs x).dev ≢ (rdevs id).dev)
    apart rdevs id x ne h = ground (arith, ne, h)

pub has_desc_nr-member :
    (rdevs : ℕ → Rdev) (ids : List ℕ) (nr : ℕ)
    → has_desc_nr rdevs ids nr ≡ true
    → (id : ℕ) × (0 < occ id ids) × ((rdevs id).desc_nr ≡ nr)
unfolding has_desc_nr
has_desc_nr-member rdevs [] nr h = cc
has_desc_nr-member rdevs (x ∷ ids) nr h = elim (Bool-cases ((rdevs x).desc_nr == nr)) [
  | inl e ↦ (x, ground arith, (==_iff _ _).0 e)
  | inr e ↦
      let (id, m, p) =
        has_desc_nr-member rdevs ids nr (sym (ap (λ b. b || has_desc_nr rdevs ids nr) e) ∙ h) in
      (id, ground (arith, m), p)
]

-- A descriptor that the loop leaves is vacant, or works and has a number that was found.
abbrev pub Kept : Kernel → (ℕ → Bool) → Disk → Type 0
Kept k found d = (is_vacant k d ≡ true) ⊎ ((disk_faulty d ≡ false) × (found d.number ≡ true))

cull_disk-Kept :
    (k : Kernel) (found : ℕ → Bool) (d : Disk) (sb : Superblock)
    → Kept k found (cull_disk k (found d.number) d sb).0
unfolding cull_disk remove_descriptor
cull_disk-Kept k found d sb = elim (Bool-cases (disk_faulty d)) [
  | inl f ↦ elim (Bool-cases (not (found d.number) && is_vacant k d)) [
    | inl e ↦ rw (f, e) (inl (and_true (not (found d.number)) _ e).1)
    | inr e ↦ rw (f, e) (inl (==_refl _))
  ]
  | inr f ↦ elim (Bool-cases (is_vacant k d || found d.number)) [
    | inl e ↦
        rw (f, e)
          (elim (Bool-cases (is_vacant k d)) [
            | inl v ↦ inl v
            | inr v ↦ inr (f, sym (ap (λ b. b || found d.number) v) ∙ e)
          ])
    | inr e ↦ rw (f, e) (inl (==_refl _))
  ]
]

pub cull_disks-Kept :
    (k : Kernel) (found : ℕ → Bool) (ds : List Disk) (sb : Superblock) (i : ℕ) (d : Disk)
    → get_elem? (cull_disks k found ds sb).0 i ≡ some d
    → Kept k found d
unfolding cull_disks
cull_disks-Kept k found [] sb i d h = cc
cull_disks-Kept k found (x ∷ ds) sb zero d h =
    subst (Kept k found) (some_inj h) (cull_disk-Kept k found x sb)
cull_disks-Kept k found (x ∷ ds) sb (suc i) d h =
    cull_disks-Kept k found ds (cull_disk k (found x.number) x sb).1 i d h

pub consistent_disk :
    (k : Kernel) (s : System) (ds : List Disk) (i : ℕ) (d : Disk)
    → all_consistent k s ds ≡ true
    → get_elem? ds i ≡ some d
    → is_consistent k s d ≡ true
unfolding all_consistent
consistent_disk k s [] i d h e = cc
consistent_disk k s (x ∷ ds) zero d h e =
    subst (λ t. is_consistent k s t ≡ true) (some_inj e) (and_true _ _ h).0
consistent_disk k s (x ∷ ds) (suc i) d h e = consistent_disk k s ds i d (and_true _ _ h).1 e
