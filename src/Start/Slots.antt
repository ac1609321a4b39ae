-- ===== src/Start/Slots.antt =====
-- The slots that the loops over the disks fill: who works, and how many.
use jraid.Common.{
  ℕ, zero, suc, ◌+◌, ◌≤◌, ◌≡◌, ◌⊎◌, inl, inr, Bool, true, false, ◌&&◌, some, List, [], ◌∷◌, ltb,
  arith, refl, if◌then◌else◌, Bool-cases, some_inj, none≢some, sym, ap, ◌∙◌, subst, ltb→le,
  true≢false, if-true, if-false, get_elem?, length, >>=-eq-some, add32,
}
use jraid.Handle.{modify_at}
use jraid.Superblock.{Disk, disk_active, disk_sync, disk_faulty}
use jraid.Member.{Rdev}
use jraid.Start.{
  DiskInfo, Attached, attach_disk, attach_rdev, attach_all, fill_failed, working_slot, failed_slot,
  mark_working,
}

-- The number of the slots that work.
abbrev pub workers : List DiskInfo → ℕ
workers [] = 0
workers (d ∷ ds) = (if d.operational then 1 else 0) + workers ds

workers-modify_at :
    (f : DiskInfo → DiskInfo) (i : ℕ) (ds : List DiskInfo) (d : DiskInfo)
    → get_elem? ds i ≡ some d
    → workers (modify_at i f ds) + (if d.operational then 1 else 0)
      ≡ workers ds + (if (f d).operational then 1 else 0)
workers-modify_at f i [] d h = absurd (none≢some h)
workers-modify_at f zero (x ∷ ds) d h = let e = some_inj h in rw e (omega arith)
workers-modify_at f (suc i) (x ∷ ds) d h = omega (arith, workers-modify_at f i ds d h)

pub workers-bound : (ds : List DiskInfo) → workers ds ≤ length ds
workers-bound [] = omega arith
workers-bound (d ∷ ds) = ground (arith, workers-bound ds)

pub length-modify_at {ℓ} :
    {A : Type ℓ} (f : A → A) (i : ℕ) (xs : List A) → length (modify_at i f xs) ≡ length xs
length-modify_at f i [] = refl
length-modify_at f zero (x ∷ xs) = refl
length-modify_at f (suc i) (x ∷ xs) = ap suc (length-modify_at f i xs)

get_elem?-modify_at {ℓ} :
    {A : Type ℓ} (f : A → A) (i j : ℕ) (xs : List A) (y : A)
    → get_elem? (modify_at i f xs) j ≡ some y
    → ((i ≡ j) × (x : A) × (get_elem? xs i ≡ some x) × (f x ≡ y)) ⊎ (get_elem? xs j ≡ some y)
get_elem?-modify_at f i j [] y h = absurd (none≢some h)
get_elem?-modify_at f zero zero (x ∷ xs) y h = inl (refl, x, refl, some_inj h)
get_elem?-modify_at f zero (suc j) (x ∷ xs) y h = inr h
get_elem?-modify_at f (suc i) zero (x ∷ xs) y h = inr h
get_elem?-modify_at f (suc i) (suc j) (x ∷ xs) y h = elim (get_elem?-modify_at f i j xs y h) [
  | inl (e, x', g, k) ↦ inl (ap suc e, x', g, k)
  | inr g ↦ inr g
]

-- A slot that works is for a raid disk up to `raid_disks`, its own index, and has its member.
pub record IsWorker (raid_disks i : ℕ) (d : DiskInfo) : Type 0 where
  pub near : i ≤ raid_disks
  pub own : d.raid_disk ≡ i
  pub used : d.used_slot ≡ true
  pub member : (id : ℕ) × (d.jrdev ≡ some id)

-- The slots of an array of `raid_disks` disks: the counter is that of those that work.
pub record HasSlots (raid_disks : ℕ) (slots : List DiskInfo) (working_disks : ℕ) : Type 0 where
  pub all : length slots ≡ 27
  pub counted : working_disks ≡ workers slots
  pub each :
      (i : ℕ) (d : DiskInfo)
      → get_elem? slots i ≡ some d
      → d.operational ≡ true
      → IsWorker raid_disks i d

-- One slot changed, into one that works as it should, or not at all.
modify_at-HasSlots :
    (raid_disks : ℕ) (slots : List DiskInfo) (working_disks more : ℕ) (i : ℕ) (d : DiskInfo)
    (f : DiskInfo → DiskInfo)
    → HasSlots raid_disks slots working_disks
    → get_elem? slots i ≡ some d
    → d.operational ≡ false
    → more ≡ add32 working_disks (if (f d).operational then 1 else 0)
    → ((f d).operational ≡ true → IsWorker raid_disks i (f d))
    → HasSlots raid_disks (modify_at i f slots) more
modify_at-HasSlots raid_disks slots working_disks more i d f v h off e good = record {
  all = length-modify_at f i slots ∙ v.all;
  counted = ground (
    arith,
    workers-modify_at f i slots d h,
    v.counted,
    workers-bound (modify_at i f slots),
    length-modify_at f i slots,
    v.all,
  );
  each = λ j x g on. elim (get_elem?-modify_at f i j slots x g) [
    | inr k ↦ v.each j x k on
    | inl (same, y, k, l) ↦
        let m = some_inj (sym h ∙ k) in
        subst (λ t. IsWorker raid_disks t x) same
          (subst (IsWorker raid_disks i) (ap f m ∙ l)
            (good (ap (λ t. t.operational) (ap f m ∙ l) ∙ on)))
  ];
}

-- The invariant of the loop over the members, of which none ends it.
abbrev pub Keeps : ℕ → Attached × Bool → Type 0
Keeps raid_disks t = HasSlots raid_disks t.0.slots t.0.working_disks × (t.1 ≡ false)

attach_disk-HasSlots :
    (raid_disks : ℕ) (a : Attached) (id : ℕ) (r : Rdev) (desc : Disk) (t : Attached × Bool)
    → HasSlots raid_disks a.slots a.working_disks
    → disk_active desc ≡ true
    → disk_sync desc ≡ true
    → attach_disk raid_disks a id r desc ≡ some t
    → Keeps raid_disks t
unfolding attach_disk
attach_disk-HasSlots raid_disks a id r desc t v active insync =
    elim (Bool-cases (ltb raid_disks desc.raid_disk)) [
      | inl e ↦ rw (active, insync, e) (λ h. subst (Keeps raid_disks) (some_inj h) (v, refl))
      | inr e ↦
          rw (active, insync, e)
            (λ h.
              let (d, f, g) = >>=-eq-some (get_elem? a.slots desc.raid_disk) _ h in
              elim (Bool-cases d.operational) [
                | inl on ↦ subst (Keeps raid_disks) (some_inj (if-true _ _ on g)) (v, refl)
                | inr off ↦ subst (Keeps raid_disks) (some_inj (if-false _ _ off g)) (
                  modify_at-HasSlots raid_disks a.slots a.working_disks _ desc.raid_disk d
                      (working_slot id r desc) v f off refl
                      (λ _. record {
                        near = ltb→le _ _ e;
                        own = refl;
                        used = refl;
                        member = (id, refl);
                      }),
                  refl,
                )
              ])
    ]

mark_working-active :
    (d : Disk) → (disk_active (mark_working d) ≡ true) × (disk_sync (mark_working d) ≡ true)
mark_working-active d = ground arith

pub attach_rdev-HasSlots :
    (raid_disks : ℕ) (a : Attached) (id : ℕ) (r : Rdev) (t : Attached × Bool)
    → HasSlots raid_disks a.slots a.working_disks
    → attach_rdev raid_disks a id r ≡ some t
    → Keeps raid_disks t
unfolding attach_rdev
attach_rdev-HasSlots raid_disks a id r t v h =
    let (desc, e, f) = >>=-eq-some (get_elem? a.descs r.desc_nr) _ h in
    let (active, insync) = mark_working-active desc in
    attach_disk-HasSlots raid_disks _ id r (mark_working desc) t v active insync f

pub attach_all-HasSlots :
    (raid_disks : ℕ) (rdevs : ℕ → Rdev) (a : Attached) (ids : List ℕ) (t : Attached × Bool)
    → HasSlots raid_disks a.slots a.working_disks
    → attach_all raid_disks rdevs a ids ≡ some t
    → Keeps raid_disks t
unfolding attach_all
attach_all-HasSlots raid_disks rdevs a [] t v h = subst (Keeps raid_disks) (some_inj h) (v, refl)
attach_all-HasSlots raid_disks rdevs a (id ∷ ids) t v h =
    let ((a1, abort), e, f) = >>=-eq-some (attach_rdev raid_disks a id (rdevs id)) _ h in
    let (v1, go) = attach_rdev-HasSlots raid_disks a id (rdevs id) (a1, abort) v e in
    attach_all-HasSlots raid_disks rdevs a1 ids t v1 (if-false _ _ go f)

pub fill_failed-HasSlots :
    (raid_disks working_disks : ℕ) (slots : List DiskInfo) (descs : List Disk)
    (slots' : List DiskInfo)
    → HasSlots raid_disks slots working_disks
    → fill_failed raid_disks slots descs ≡ some slots'
    → HasSlots raid_disks slots' working_disks
unfolding fill_failed
fill_failed-HasSlots raid_disks working_disks slots [] slots' v =
    λ h. subst (λ t. HasSlots raid_disks t working_disks) (some_inj h) v
fill_failed-HasSlots raid_disks working_disks slots (desc ∷ descs) slots' v =
    elim (Bool-cases (disk_faulty desc && ltb desc.raid_disk raid_disks)) [
      | inr e ↦ rw e (fill_failed-HasSlots raid_disks working_disks slots descs slots' v)
      | inl e ↦ rw e (λ h.
          let (d, f, g) = >>=-eq-some (get_elem? slots desc.raid_disk) _ h in
          elim (Bool-cases d.used_slot) [
            | inl on ↦ fill_failed-HasSlots raid_disks working_disks slots descs slots' v (
                subst
                  (λ b.
                    fill_failed raid_disks
                      (if b then slots else modify_at desc.raid_disk (failed_slot desc) slots) descs
                    ≡ some slots')
                  on g)
            | inr off ↦
                fill_failed-HasSlots raid_disks working_disks _ descs slots'
                  (modify_at-HasSlots raid_disks slots working_disks working_disks desc.raid_disk d
                    (failed_slot desc) v f (idle d f off)
                    (ground (arith, v.counted, workers-bound slots, v.all)) (λ on. cc))
                  (subst
                    (λ b.
                      fill_failed raid_disks
                        (if b then slots else modify_at desc.raid_disk (failed_slot desc) slots)
                        descs
                      ≡ some slots')
                    off g)
          ])
    ]
  where
    idle :
        (d : DiskInfo)
        → get_elem? slots desc.raid_disk ≡ some d
        → d.used_slot ≡ false
        → d.operational ≡ false
    idle d f off = elim (Bool-cases d.operational) [
      | inl on ↦ absurd (true≢false ((v.each desc.raid_disk d f on).used) off)
      | inr e ↦ e
    ]
