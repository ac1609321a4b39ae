-- ===== src/Start/Running.antt =====
-- The disks of an array that has started, its counters and its cache.
use jraid.Common.{
  ℕ, zero, suc, ◌+◌, ◌≤◌, ◌≡◌, inl, inr, Bool, true, false, ◌&&◌, ◌||◌, not, some, List, [], ◌∷◌,
  ◌==◌, arith, refl, if◌then◌else◌, Bool-cases, some_inj, none≢some, true≢false, if-true, if-false,
  sym, ap, ◌∙◌, subst, get_elem?, >>=-eq-some,
}
use jraid.Superblock.{Disk, Superblock, disk_sync, mark_disk_nonsync, mark_disk_sync}
use jraid.Handle.{modify_at}
use jraid.Member.{Rdev}
use jraid.Start.{
  DiskInfo, Raid, Started, no_slots, unattached, refuses, sync_desc, sync_descs, jraid5_run,
  Attached, attach_disk, attach_rdev, attach_all, mark_working,
}
use jraid.Start.Slots.{
  workers, workers-bound, IsWorker, HasSlots, attach_all-HasSlots, fill_failed-HasSlots,
}
use jraid.Start.Outcome.{HasStarted, jraid5_run-outcome}

-- Whether one of the first `n` slots works and has this number.
abbrev pub named : ℕ → List DiskInfo → ℕ → Bool
named zero slots number = false
named (suc n) [] number = false
named (suc n) (disk ∷ slots) number =
    (disk.operational && number == disk.number) || named n slots number

-- The mark of one slot.
mark_once :
    (disk : DiskInfo) (d : Disk)
    → let d1 : Disk = if disk.operational && d.number == disk.number then mark_disk_sync d else d in
      (d1.number ≡ d.number)
      × (disk_sync d1 ≡ (disk_sync d || (disk.operational && d.number == disk.number)))
mark_once disk d = ground arith

or_assoc : (a b c : Bool) → ((a || b) || c) ≡ (a || (b || c))
or_assoc true b c = refl
or_assoc false b c = refl

sync_desc-named :
    (n : ℕ) (slots : List DiskInfo) (d d' : Disk)
    → sync_desc n slots d ≡ some d'
    → (d'.number ≡ d.number) × (disk_sync d' ≡ (disk_sync d || named n slots d.number))
unfolding sync_desc
sync_desc-named zero slots d d' h =
    let e = some_inj h in (ap (λ t. t.number) (sym e), ground (arith, ap disk_sync e))
sync_desc-named (suc n) [] d d' h = absurd (none≢some h)
sync_desc-named (suc n) (disk ∷ slots) d d' h =
    let d1 : Disk = if disk.operational && d.number == disk.number then mark_disk_sync d else d in
    let (same, once) = mark_once disk d in
    let (same1, rest) = sync_desc-named n slots d1 d' h in
    (
      same1 ∙ same,
      rest
          ∙ ap (λ b. b || named n slots d1.number) once
          ∙ ap
              (λ m.
                (disk_sync d || (disk.operational && d.number == disk.number)) || named n slots m)
              same
          ∙ or_assoc (disk_sync d) _ _,
    )

nonsync :
    (d : Disk)
    → (disk_sync (mark_disk_nonsync d) ≡ false) × ((mark_disk_nonsync d).number ≡ d.number)
nonsync d = ground arith

-- The descriptors have the numbers of these, and the sync bit is that of those with a slot that works.
abbrev pub AllSynced : ℕ → List DiskInfo → List ℕ → List Disk → Type 0
AllSynced n slots [] [] = Unit {0}
AllSynced n slots [] (d' ∷ ds') = ⊥
AllSynced n slots (i ∷ is) [] = ⊥
AllSynced n slots (i ∷ is) (d' ∷ ds') =
    (d'.number ≡ i) × (disk_sync d' ≡ named n slots i) × AllSynced n slots is ds'

abbrev pub numbers : List Disk → List ℕ
numbers [] = []
numbers (d ∷ ds) = d.number ∷ numbers ds

sync_descs-AllSynced :
    (n : ℕ) (slots : List DiskInfo) (ds ds' : List Disk)
    → sync_descs n slots ds ≡ some ds'
    → AllSynced n slots (numbers ds) ds'
unfolding sync_descs
sync_descs-AllSynced n slots [] ds' h = subst (AllSynced n slots []) (some_inj h) tt
sync_descs-AllSynced n slots (d ∷ ds) ds' h =
    let (d1, e, h1) = >>=-eq-some (sync_desc n slots (mark_disk_nonsync d)) _ h in
    let (ds1, f, h2) = >>=-eq-some (sync_descs n slots ds) _ h1 in
    let (same, on) = sync_desc-named n slots (mark_disk_nonsync d) d1 e in
    let (off, same1) = nonsync d in
    subst (AllSynced n slots (numbers (d ∷ ds))) (some_inj h2) (
      same ∙ same1,
      on ∙ ap (λ b. b || named n slots d.number) off,
      sync_descs-AllSynced n slots ds ds1 f,
    )

-- The loop over the members keeps the numbers of the descriptors.
numbers-marked : (i : ℕ) (ds : List Disk) → numbers (modify_at i mark_working ds) ≡ numbers ds
numbers-marked i [] = refl
numbers-marked zero (d ∷ ds) = ap (λ k. k ∷ numbers ds) (ground arith)
numbers-marked (suc i) (d ∷ ds) = ap (λ l. d.number ∷ l) (numbers-marked i ds)

pub attach_disk-descs :
    (raid_disks : ℕ) (a : Attached) (id : ℕ) (r : Rdev) (desc : Disk) (t : Attached × Bool)
    → attach_disk raid_disks a id r desc ≡ some t
    → t.0.descs ≡ a.descs
unfolding attach_disk
attach_disk-descs raid_disks a id r desc t h = ground arith

attach_all-numbers :
    (raid_disks : ℕ) (rdevs : ℕ → Rdev) (a : Attached) (ids : List ℕ) (t : Attached × Bool)
    → attach_all raid_disks rdevs a ids ≡ some t
    → numbers t.0.descs ≡ numbers a.descs
unfolding attach_all attach_rdev
attach_all-numbers raid_disks rdevs a [] t h = ap (λ u. numbers u.0.descs) (sym (some_inj h))
attach_all-numbers raid_disks rdevs a (id ∷ ids) t h =
    let ((a1, abort), e, f) = >>=-eq-some (attach_rdev raid_disks a id (rdevs id)) _ h in
    let (desc, _, k) = >>=-eq-some (get_elem? a.descs (rdevs id).desc_nr) _ e in
    let one =
      ap numbers (attach_disk-descs raid_disks _ id (rdevs id) _ (a1, abort) k)
      ∙ numbers-marked (rdevs id).desc_nr a.descs in
    elim (Bool-cases abort) [
      | inl on ↦ ap (λ u. numbers u.0.descs) (sym (some_inj (if-true _ _ on f))) ∙ one
      | inr off ↦ attach_all-numbers raid_disks rdevs a1 ids t (if-false _ _ off f) ∙ one
    ]

no_slots-idle : (n i : ℕ) (d : DiskInfo) → get_elem? (no_slots n) i ≡ some d → d.operational ≡ false
no_slots-idle zero i d h = absurd (none≢some h)
no_slots-idle (suc n) zero d h = ap (λ t. t.operational) (sym (some_inj h))
no_slots-idle (suc n) (suc i) d h = no_slots-idle n i d h

pub no_slots-HasSlots : (raid_disks : ℕ) → HasSlots raid_disks (no_slots 27) 0
no_slots-HasSlots raid_disks = record {
  all = refl;
  counted = refl;
  each = λ i d h on. absurd (true≢false on (no_slots-idle 27 i d h));
}

HasStarted-HasSlots :
    (ok : ℕ → Bool) (n : ℕ) (rdevs : ℕ → Rdev) (ids : List ℕ) (nb_dev : ℕ) (sb : Superblock)
    (r : Started)
    → (s : HasStarted ok n rdevs ids nb_dev sb r) → HasSlots sb.raid_disks s.slots s.a.working_disks
HasStarted-HasSlots ok n rdevs ids nb_dev sb r s =
    fill_failed-HasSlots sb.raid_disks s.a.working_disks s.a.slots s.a.descs s.slots
      (attach_all-HasSlots sb.raid_disks rdevs (unattached sb) ids (s.a, false)
        (no_slots-HasSlots sb.raid_disks) s.attached).0
      s.filled

-- An abort leaves no `conf`.
pub started-only :
    (ok : ℕ → Bool) (n : ℕ) (rdevs : ℕ → Rdev) (ids : List ℕ) (nb_dev : ℕ) (sb : Superblock)
    (r : Started) (raid : Raid)
    → jraid5_run ok n rdevs ids nb_dev sb ≡ some r
    → r.private ≡ some raid
    → (s : HasStarted ok (n + 2) rdevs ids nb_dev sb r) × (s.run.raid ≡ raid)
started-only ok n rdevs ids nb_dev sb r raid h p =
    elim (jraid5_run-outcome ok n rdevs ids nb_dev sb r h) [
      | inl a ↦ absurd (none≢some (sym a.no_conf ∙ p))
      | inr s ↦ (s, some_inj (sym s.run.private ∙ p))
    ]

-- When `jraid5_run` succeeds, `working_disks` is the number of the
-- slots that work, and at most one less than `raid_disks`; a slot that works is one of the first
-- `raid_disks + 1`, and has a member.
pub jraid5_run-workers :
    (ok : ℕ → Bool) (n : ℕ) (rdevs : ℕ → Rdev) (ids : List ℕ) (nb_dev : ℕ) (sb : Superblock)
    (r : Started) (raid : Raid)
    → jraid5_run ok n rdevs ids nb_dev sb ≡ some r
    → r.private ≡ some raid
    → (raid.working_disks ≡ workers raid.disks)
      × (sb.raid_disks ≤ raid.working_disks + 1)
      × ((i : ℕ) (d : DiskInfo)
          → get_elem? raid.disks i ≡ some d
          → d.operational ≡ true
          → IsWorker sb.raid_disks i d)
unfolding refuses
jraid5_run-workers ok n rdevs ids nb_dev sb r raid h p =
    let (s, e) = started-only ok n rdevs ids nb_dev sb r raid h p in
    let v = HasStarted-HasSlots ok (n + 2) rdevs ids nb_dev sb r s in
    let work = ap (λ t. t.working_disks) (sym e) ∙ s.run.working in
    let disks = ap (λ t. t.disks) (sym e) ∙ s.run.disks in
    (
      work ∙ v.counted ∙ ap workers (sym disks),
      ground (arith, s.accepted, s.run.low, work, v.counted, v.all, workers-bound s.slots),
      λ i d g. v.each i d (sym (ap (λ l. get_elem? l i) disks) ∙ g),
    )

-- When `jraid5_run` succeeds, the descriptors of the superblock keep their numbers, and the sync bit
-- of one is set exactly if a slot below `raid_disks` that works has its number; `active_disks` is
-- the number of the disks that work, and the parity is built anew, or a recovery asked for, as all
-- disks work or not.
pub jraid5_run-AllSynced :
    (ok : ℕ → Bool) (n : ℕ) (rdevs : ℕ → Rdev) (ids : List ℕ) (nb_dev : ℕ) (sb : Superblock)
    (r : Started) (raid : Raid)
    → jraid5_run ok n rdevs ids nb_dev sb ≡ some r
    → r.private ≡ some raid
    → AllSynced sb.raid_disks raid.disks (numbers sb.disks) r.sb.disks
      × (r.sb.active_disks ≡ workers raid.disks)
      × (raid.resync_parity ≡ (workers raid.disks == sb.raid_disks))
      × (r.recovering ≡ not raid.resync_parity)
jraid5_run-AllSynced ok n rdevs ids nb_dev sb r raid h p =
    let (s, e) = started-only ok n rdevs ids nb_dev sb r raid h p in
    let v = HasStarted-HasSlots ok (n + 2) rdevs ids nb_dev sb r s in
    let disks = ap (λ t. t.disks) (sym e) ∙ s.run.disks in
    let count = v.counted ∙ ap workers (sym disks) in
    let resync = ap (λ t. t.resync_parity) (sym e) ∙ s.run.resync in
    (
      subst (λ l. AllSynced sb.raid_disks l (numbers sb.disks) r.sb.disks) (sym disks)
          (subst (λ l. AllSynced sb.raid_disks s.slots l r.sb.disks)
            (attach_all-numbers sb.raid_disks rdevs (unattached sb) ids (s.a, false) s.attached)
            (sync_descs-AllSynced sb.raid_disks s.slots s.a.descs r.sb.disks s.run.synced)),
      s.run.active ∙ count,
      resync ∙ ap (λ k. k == sb.raid_disks) count,
      s.run.recovery ∙ ap not (sym resync),
    )
