-- ===== src/Analyze/Stages.antt =====
-- The members, their devices and descriptors in the stages of `analyze_sbs`.
use jraid.Common.{
  ℕ, ◌≡◌, ◌≢◌, Bool, true, false, not, none, some, List, [], ◌∷◌, ◌==◌, arith, refl, sym, ap, ◌∙◌,
  subst, update, if◌then◌else◌, Bool-cases, inl, inr, ◌&&◌, ◌||◌, sub64, some_inj, none≢some,
  >>=-eq-some, if-true, if-false, get_elem?,
}
use jraid.Superblock.{Superblock, Scan, scan, jmd_event}
use jraid.Member.{Kernel, Rdev, System, is_some, no_desc}
use jraid.Array.{alloc_array_sb}
use jraid.Analyze.{
  Stage, after, own_sb, held, hold_copies, adopt, move_disk, relocate, relocate_all, cull,
}

-- The array has the same members, with the same devices and descriptors; what had a copy has one.
pub record Keeps (s s' : System) : Type 0 where
  pub disks : s'.array.disks ≡ s.array.disks
  pub dev : (id : ℕ) → (s'.rdevs id).dev ≡ (s.rdevs id).dev
  pub desc_nr : (id : ℕ) → (s'.rdevs id).desc_nr ≡ (s.rdevs id).desc_nr
  pub faulty : (id : ℕ) → (s'.rdevs id).faulty ≡ (s.rdevs id).faulty
  pub pages : (id : ℕ) → (s.rdevs id).sb ≢ none → (s'.rdevs id).sb ≢ none

pub Keeps-refl : (s : System) → Keeps s s
Keeps-refl s = record {
  disks = refl;
  dev = λ id. refl;
  desc_nr = λ id. refl;
  faulty = λ id. refl;
  pages = λ id h. h;
}

pub Keeps-trans : (s t u : System) → Keeps s t → Keeps t u → Keeps s u
Keeps-trans s t u p q = record {
  disks = q.disks ∙ p.disks;
  dev = λ id. q.dev id ∙ p.dev id;
  desc_nr = λ id. q.desc_nr id ∙ p.desc_nr id;
  faulty = λ id. q.faulty id ∙ p.faulty id;
  pages = λ id h. q.pages id (p.pages id h);
}

-- A change of the copies of some members and of the array's superblock.
same_pages :
    (rdevs : ℕ → Rdev) (x id : ℕ) (sb : Superblock)
    → (rdevs id).sb ≢ none
    → (update rdevs x (record (rdevs x) { sb = some sb }) id).sb ≢ none
same_pages rdevs x id sb h = elim (Bool-cases (id == x)) [
  | inl e ↦ rw e (λ p. none≢some (sym p))
  | inr e ↦ rw e h
]

pub same_Keeps : (s s' : System) → s'.rdevs ≡ s.rdevs → s'.array.disks ≡ s.array.disks → Keeps s s'
same_Keeps s s' e d = record {
  disks = d;
  dev = λ id. ap (λ f. (f id).dev) e;
  desc_nr = λ id. ap (λ f. (f id).desc_nr) e;
  faulty = λ id. ap (λ f. (f id).faulty) e;
  pages = λ id h. subst (λ f. (f id).sb ≢ none) (sym e) h;
}

-- What two stages come to when neither goes to `abort`.
pub after-eq :
    (m : Stage) (f : System → Stage) {s' : System}
    → after m f ≡ some (s', false)
    → (s1 : System) × (m ≡ some (s1, false)) × (f s1 ≡ some (s', false))
after-eq none f h = cc
after-eq (some (s, true)) f h = cc
after-eq (some (s, false)) f h = (s, refl, h)

-- A test that leads to `abort` failed, when it was not left that way.
pub not_aborted :
    (s : System) (b : Bool) (m : Stage) {s' : System}
    → (if b then some (s, true) else m) ≡ some (s', false)
    → b ≡ false
not_aborted s true m h = cc
not_aborted s false m h = refl

-- A superblock for the array changes no member.
abbrev pub SameMembers : System → System → Type 0
SameMembers s s' = (s'.rdevs ≡ s.rdevs) × (s'.array.disks ≡ s.array.disks)

either_same :
    (s : System) (b : Bool) (x y : System × ℕ)
    → SameMembers s x.0
    → SameMembers s y.0
    → SameMembers s (if b then x else y).0
either_same s true x y p q = p
either_same s false x y p q = q

alloc_array_sb-same : (k : Kernel) (s : System) → SameMembers s (alloc_array_sb k s).0
unfolding alloc_array_sb
alloc_array_sb-same k s =
    either_same s (is_some s.array.sb) _ _ (refl, refl)
      (either_same s (k.allocates s.calls) _ _ (refl, refl) (refl, refl))

pub own_sb-same :
    (k : Kernel) (s s' : System) (b : Bool) → own_sb k s ≡ some (s', b) → SameMembers s s'
unfolding own_sb
own_sb-same k s s' b h = elim (Bool-cases (is_some s.array.sb)) [
  | inl e ↦ subst (SameMembers s) (ap (λ t. t.0) (some_inj (if-true _ _ e h))) (refl, refl)
  | inr e ↦
      subst (SameMembers s) (ap (λ t. t.0) (some_inj (if-false _ _ e h))) (alloc_array_sb-same k s)
]

pub own_sb-Keeps : (k : Kernel) (s s' : System) (b : Bool) → own_sb k s ≡ some (s', b) → Keeps s s'
own_sb-Keeps k s s' b h = let (r, d) = own_sb-same k s s' b h in same_Keeps s s' r d

pub hold_copies-Keeps :
    (s : System) (rdevs : ℕ → Rdev) (ids : List ℕ) (sbs : List Superblock)
    → Keeps s (record s { rdevs = rdevs })
    → Keeps s (record s { rdevs = hold_copies rdevs ids sbs })
unfolding hold_copies
hold_copies-Keeps s rdevs [] sbs h = h
hold_copies-Keeps s rdevs (x ∷ ids) [] h = h
hold_copies-Keeps s rdevs (x ∷ ids) (sb ∷ sbs) h =
    hold_copies-Keeps s (update rdevs x (record (rdevs x) { sb = some sb })) ids sbs (record {
      disks = h.disks;
      dev = λ id. ground (arith, h.dev id);
      desc_nr = λ id. ground (arith, h.desc_nr id);
      faulty = λ id. ground (arith, h.faulty id);
      pages = λ id p. same_pages rdevs x id sb (h.pages id p);
    })

move_disk-Keeps :
    (k : Kernel) (s s' : System) (id : ℕ) (copy sb : Superblock)
    → move_disk k s id copy sb ≡ some (s', false)
    → Keeps s s'
unfolding move_disk
move_disk-Keeps k s s' id copy sb h =
    let r = s.rdevs id in
    let rest = if-false _ _ (not_aborted s (r.desc_nr == no_desc) _ h) h in
    let (desc, e, h1) = >>=-eq-some (get_elem? sb.disks r.desc_nr) _ rest in
    let wrong = not (r.old_dev == k.mkdev desc.major desc.minor) in
    let moved = if-false _ _ (not_aborted s wrong _ h1) h1 in
    subst (Keeps s) (ap (λ t. t.0) (some_inj moved)) (record {
      disks = refl;
      dev = λ i. ground arith;
      desc_nr = λ i. ground arith;
      faulty = λ i. ground arith;
      pages = λ i p. same_pages s.rdevs id i _ p;
    })

pub relocate-Keeps :
    (k : Kernel) (s s' : System) (id : ℕ) → relocate k s id ≡ some (s', false) → Keeps s s'
unfolding relocate
relocate-Keeps k s s' id h =
    let here = if-false _ _ (not_aborted s (s.rdevs id).faulty _ h) h in
    let (copy, e, h1) = >>=-eq-some (s.rdevs id).sb _ here in
    let (sb, f, h2) = >>=-eq-some s.array.sb _ h1 in
    let moves =
      not ((s.rdevs id).dev == (s.rdevs id).old_dev)
      && (jmd_event copy == jmd_event sb || jmd_event copy == sub64 (jmd_event sb) 1) in
    elim (Bool-cases moves) [
      | inl m ↦ move_disk-Keeps k s s' id copy sb (if-true _ _ m h2)
      | inr m ↦ subst (Keeps s) (ap (λ t. t.0) (some_inj (if-false _ _ m h2))) (Keeps-refl s)
    ]

pub relocate_all-Keeps :
    (k : Kernel) (s s' : System) (ids : List ℕ)
    → relocate_all k s ids ≡ some (s', false)
    → Keeps s s'
unfolding relocate_all
relocate_all-Keeps k s s' [] h = subst (Keeps s) (ap (λ t. t.0) (some_inj h)) (Keeps-refl s)
relocate_all-Keeps k s s' (x ∷ ids) h =
    let (s1, e, f) = after-eq (relocate k s x) _ h in
    Keeps-trans s s1 s' (relocate-Keeps k s s1 x e) (relocate_all-Keeps k s1 s' ids f)

pub adopt-Keeps : (k : Kernel) (s s' : System) → adopt k s ≡ some (s', false) → Keeps s s'
unfolding adopt
adopt-Keeps k s s' h =
    let (sbs, e, h1) = >>=-eq-some (held s.rdevs s.array.disks) _ h in
    let found : Scan = scan k.csum_partial none sbs in
    let (sb, f, h2) = >>=-eq-some found.freshest _ h1 in
    let kept = hold_copies-Keeps s s.rdevs s.array.disks found.members (Keeps-refl s) in
    subst (Keeps s) (ap (λ t. t.0) (some_inj h2)) (
      Keeps-trans s (record s { rdevs = hold_copies s.rdevs s.array.disks found.members }) _ kept
        (same_Keeps _ _ refl refl))

pub cull-Keeps : (k : Kernel) (s s' : System) → cull k s ≡ some (s', false) → Keeps s s'
unfolding cull
cull-Keeps k s s' h =
    let (sb, e, h1) = >>=-eq-some s.array.sb _ h in
    subst (Keeps s) (ap (λ t. t.0) (some_inj h1)) (same_Keeps s _ refl refl)
