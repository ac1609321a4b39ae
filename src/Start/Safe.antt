-- ===== src/Start/Safe.antt =====
-- The accesses of a start to the arrays of the program.
use mathlib.Core.Option
use jraid.Common.{
  ℕ, zero, suc, ◌+◌, ◌^◌, ◌≤◌, ◌<◌, ◌≡◌, ◌≢◌, Bool, true, false, ◌&&◌, not, none, some, List, [],
  ◌∷◌, ◌==◌, leb, ltb, arith, sym, ap, ◌∙◌, subst, length, get_elem?, Bool-cases, ◌⊎◌, inl, inr,
  occ, some_inj, none≢some, true≢false, >>=-total, has_result, if-total, >>=-eq-some, if-false,
}
use jraid.Geometry.Bounds.{IsGood}
use jraid.Handle.{modify_at}
use jraid.Stripe.{Conf}
use jraid.Grow.Ready.{grow_stripes-IsReady, grow_stripes-layout}
use jraid.Grow.Shrink.{shrink_stripes-Shrunk, IsReady-IsIdleList}
use jraid.Grow.{grow_stripes, shrink_stripes}
use jraid.Superblock.{Disk, Superblock, disk_faulty}
use jraid.Member.{Rdev}
use jraid.Start.{
  DiskInfo, Attached, attach_disk, attach_rdev, attach_all, fill_failed, sync_desc, sync_descs,
  mark_working, new_cache, refuses, start_threads, finish_start, after_attach, start_disks,
  jraid5_run, Started, unattached, failed_slot, registers, settled, nr_stripes,
}
use jraid.Start.Slots.{
  HasSlots, attach_rdev-HasSlots, attach_all-HasSlots, fill_failed-HasSlots, length-modify_at,
}
use jraid.Start.Running.{no_slots-HasSlots, attach_disk-descs}
use jraid.Start.Outcome.{IsAborted, jraid5_run-outcome}
use jraid.Start.Serving.{IsUsual, new_cache-IsReady}

-- The descriptors are for one of the 27 slots.
abbrev pub AllNear : List Disk → Type 0
AllNear [] = Unit {0}
AllNear (d ∷ ds) = (d.raid_disk < 27) × AllNear ds

near : (ds : List Disk) (i : ℕ) (d : Disk) → AllNear ds → get_elem? ds i ≡ some d → d.raid_disk < 27
near [] i d n h = cc
near (x ∷ ds) zero d n h = subst (λ t. t.raid_disk < 27) (some_inj h) n.0
near (x ∷ ds) (suc i) d n h = near ds i d n.1 h

AllNear-marked : (i : ℕ) (ds : List Disk) → AllNear ds → AllNear (modify_at i mark_working ds)
AllNear-marked i [] n = tt
AllNear-marked zero (d ∷ ds) n = (subst (λ k. k < 27) (same_place d) n.0, n.1)
  where
    same_place : (d : Disk) → d.raid_disk ≡ (mark_working d).raid_disk
    same_place d = ground arith
AllNear-marked (suc i) (d ∷ ds) n = (n.0, AllNear-marked i ds n.1)

module _ {ℓ} {A : Type ℓ} where
  in_bounds : (xs : List A) (i : ℕ) → i < length xs → get_elem? xs i ≢ none
  in_bounds [] i h = absurd (omega arith)
  in_bounds (x ∷ xs) zero h = λ e. none≢some (sym e)
  in_bounds (x ∷ xs) (suc i) h = in_bounds xs i (omega arith)

module _ (raid_disks : ℕ) where
  attach_disk-total :
      (a : Attached) (id : ℕ) (r : Rdev) (desc : Disk)
      → length a.slots ≡ 27
      → desc.raid_disk < 27
      → attach_disk raid_disks a id r desc ≢ none
  unfolding attach_disk
  attach_disk-total a id r desc l n = ground (arith, in_bounds a.slots desc.raid_disk, l)

  attach_rdev-total :
      (a : Attached) (id : ℕ) (r : Rdev)
      → length a.slots ≡ 27
      → AllNear a.descs
      → r.desc_nr < length a.descs
      → attach_rdev raid_disks a id r ≢ none
  unfolding attach_rdev
  attach_rdev-total a id r l n low =
      >>=-total (get_elem? a.descs r.desc_nr) _ (in_bounds a.descs r.desc_nr low) (λ desc e.
        attach_disk-total _ id r (mark_working desc) l
          (near_marked desc (near a.descs r.desc_nr desc n e)))
    where
      near_marked : (d : Disk) → d.raid_disk < 27 → (mark_working d).raid_disk < 27
      near_marked d h = ground arith

  attach_rdev-descs :
      (a : Attached) (id : ℕ) (r : Rdev) (t : Attached × Bool)
      → attach_rdev raid_disks a id r ≡ some t
      → t.0.descs ≡ modify_at r.desc_nr mark_working a.descs
  unfolding attach_rdev
  attach_rdev-descs a id r t h =
      let (desc, _, k) = >>=-eq-some (get_elem? a.descs r.desc_nr) _ h in
      attach_disk-descs raid_disks _ id r _ t k

  -- The members' descriptors are there.
  attach_all-total :
      (rdevs : ℕ → Rdev) (a : Attached) (ids : List ℕ)
      → HasSlots raid_disks a.slots a.working_disks
      → AllNear a.descs
      → ((id : ℕ) → 0 < occ id ids → (rdevs id).desc_nr < length a.descs)
      → (attach_all raid_disks rdevs a ids ≢ none)
        × ((t : Attached × Bool) → attach_all raid_disks rdevs a ids ≡ some t → AllNear t.0.descs)
  unfolding attach_all
  attach_all-total rdevs a [] v n low =
      (λ e. none≢some (sym e), λ t h. subst (λ u. AllNear u.0.descs) (some_inj h) n)
  attach_all-total rdevs a (id ∷ ids) v n low =
      let here = attach_rdev-total a id (rdevs id) v.all n (low id (ground arith)) in
      let next : (t : Attached × Bool) → attach_rdev raid_disks a id (rdevs id) ≡ some t → _ =
        λ t e.
          let same = attach_rdev-descs a id (rdevs id) t e in
          attach_all-total rdevs t.0 ids (attach_rdev-HasSlots raid_disks a id (rdevs id) t v e).0
            (subst AllNear (sym same) (AllNear-marked (rdevs id).desc_nr a.descs n))
            (λ i h.
              subst (λ k. (rdevs i).desc_nr < k)
                (sym (ap length same ∙ length-modify_at _ _ a.descs)) (low i (ground arith))) in
      (
        >>=-total (attach_rdev raid_disks a id (rdevs id)) _ here
            (λ t e. if-total t.1 _ _ (λ _ k. none≢some (sym k)) (λ _. (next t e).0)),
        λ t h.
            let (t1, e, f) = >>=-eq-some (attach_rdev raid_disks a id (rdevs id)) _ h in
            (next t1 e).1 t
              (if-false _ _ (attach_rdev-HasSlots raid_disks a id (rdevs id) t1 v e).1 f),
      )

fill_failed-total :
    (raid_disks : ℕ) (slots : List DiskInfo) (ds : List Disk)
    → length slots ≡ 27
    → AllNear ds
    → fill_failed raid_disks slots ds ≢ none
unfolding fill_failed
fill_failed-total raid_disks slots [] l n = λ e. none≢some (sym e)
fill_failed-total raid_disks slots (d ∷ ds) l n =
    if-total (disk_faulty d && ltb d.raid_disk raid_disks) _ _
      (λ _.
        >>=-total (get_elem? slots d.raid_disk) _
          (in_bounds slots d.raid_disk (subst (λ k. d.raid_disk < k) (sym l) n.0))
          (λ disk _. elim (Bool-cases disk.used_slot) [
            | inl e ↦ rw e (fill_failed-total raid_disks slots ds l n.1)
            | inr e ↦ rw e (
                fill_failed-total raid_disks (modify_at d.raid_disk (failed_slot d) slots) ds
                  (length-modify_at _ _ slots ∙ l) n.1)
          ]))
      (λ _. fill_failed-total raid_disks slots ds l n.1)

sync_desc-total :
    (n : ℕ) (slots : List DiskInfo) (d : Disk) → n ≤ length slots → sync_desc n slots d ≢ none
unfolding sync_desc
sync_desc-total zero slots d h = λ e. none≢some (sym e)
sync_desc-total (suc n) [] d h = absurd (omega arith)
sync_desc-total (suc n) (disk ∷ slots) d h = sync_desc-total n slots _ (omega arith)

sync_descs-total :
    (n : ℕ) (slots : List DiskInfo) (ds : List Disk)
    → n ≤ length slots
    → sync_descs n slots ds ≢ none
unfolding sync_descs
sync_descs-total n slots [] h = λ e. none≢some (sym e)
sync_descs-total n slots (d ∷ ds) h =
    >>=-total (sync_desc n slots _) _ (sync_desc-total n slots _ h) (λ d' _.
      >>=-total (sync_descs n slots ds) _ (sync_descs-total n slots ds h)
        (λ ds' _ e. none≢some (sym e)))

-- The cache that was grown, whether enough or not, can be emptied.
shrink-total :
    (ok : ℕ → Bool) (n nb_dev : ℕ) (slots : List DiskInfo) (sb : Superblock)
    → IsGood ((new_cache sb slots).layout)
    → nb_dev ≤ sb.raid_disks
    → shrink_stripes nb_dev nr_stripes (grow_stripes ok n nr_stripes (new_cache sb slots)).conf
      ≢ none
shrink-total ok n nb_dev slots sb good few =
    let c0 : Conf = new_cache sb slots in
    let (ready, _, _, _, _) =
      grow_stripes-IsReady ok n nr_stripes c0 (new_cache-IsReady sb slots good)
        (λ i h. absurd (omega arith)) (omega arith) (omega arith) in
    let same = ap (λ l. l.raid_disks) (grow_stripes-layout ok n nr_stripes c0) in
    let (c', freed, e, _) =
      shrink_stripes-Shrunk nb_dev nr_stripes _
        (IsReady-IsIdleList nb_dev _ ready (omega (arith, same, few))) in
    λ k. none≢some (sym k ∙ e)

settled_raid_disks :
    (working_disks : ℕ) (sb : Superblock) → (settled working_disks sb).raid_disks ≡ sb.raid_disks
unfolding settled
settled_raid_disks working_disks sb = ground arith

start_threads-total :
    (ok : ℕ → Bool) (n nb_dev working_disks : ℕ) (slots : List DiskInfo) (sb : Superblock)
    → IsGood ((new_cache sb slots).layout)
    → nb_dev ≤ sb.raid_disks
    → length slots ≡ 27
    → start_threads ok n nb_dev working_disks slots sb ≢ none
unfolding start_threads finish_start
start_threads-total ok n nb_dev working_disks slots sb good few l =
    let g = grow_stripes ok (n + 2) nr_stripes (new_cache sb slots) in
    if-total (not (registers ok n)) _ _ (λ _ e. none≢some (sym e))
      (λ _.
        if-total (leb (2 ^ 31) sb.raid_disks) _ _
          (λ e _. true≢false e (ground (arith, good.few_disks)))
          (λ _.
            if-total g.done _ _
              (λ _.
                >>=-total
                  (sync_descs (settled working_disks sb).raid_disks slots
                    (settled working_disks sb).disks)
                  _
                  (sync_descs-total _ slots _
                    (omega (arith, settled_raid_disks working_disks sb, good.few_disks, l)))
                  (λ ds e k. none≢some (sym k)))
              (λ _ k.
                let (left, e) = has_result _ (shrink-total ok (n + 2) nb_dev slots sb good few) in
                none≢some (sym k ∙ ap (Option.map _) e))))

module _ (ok : ℕ → Bool) (rdevs : ℕ → Rdev) (ids : List ℕ) (nb_dev : ℕ) (sb : Superblock)
    (u : IsUsual sb) (near_all : AllNear sb.disks)
    (listed : (id : ℕ) → 0 < occ id ids → (rdevs id).desc_nr < length sb.disks)
    (few : nb_dev ≤ sb.raid_disks) where
  usual-IsGood :
      (working_disks : ℕ) (slots : List DiskInfo) (ds : List Disk)
      → refuses working_disks sb ≡ false
      → IsGood ((new_cache (record sb { disks = ds }) slots).layout)
  unfolding refuses
  usual-IsGood working_disks slots ds h = record {
    chunk_low = u.chunk_low;
    chunk_high = u.chunk_high;
    two_disks = u.two_disks;
    few_disks = u.few_disks;
    known = ground (arith, h, u.layout_low);
  }

  after_attach-total :
      (n : ℕ) (a : Attached) (abort : Bool)
      → HasSlots sb.raid_disks a.slots a.working_disks
      → AllNear a.descs
      → after_attach ok n nb_dev sb a abort ≢ none
  unfolding after_attach
  after_attach-total n a true v near_descs = λ e. none≢some (sym e)
  after_attach-total n a false v near_descs =
      >>=-total (fill_failed sb.raid_disks a.slots a.descs) _
        (fill_failed-total sb.raid_disks a.slots a.descs v.all near_descs)
        (λ slots e.
          if-total (refuses a.working_disks sb) _ _ (λ _ k. none≢some (sym k))
            (λ f.
              start_threads-total ok n nb_dev a.working_disks slots (record sb { disks = a.descs })
                (usual-IsGood a.working_disks slots a.descs f) few
                (fill_failed-HasSlots sb.raid_disks a.working_disks a.slots a.descs slots v e).all))

  start_disks-total : (n : ℕ) → start_disks ok n rdevs ids nb_dev sb ≢ none
  unfolding start_disks
  start_disks-total n =
      let v = no_slots-HasSlots sb.raid_disks in
      let (here, near_after) =
        attach_all-total sb.raid_disks rdevs (unattached sb) ids v near_all listed in
      >>=-total (attach_all sb.raid_disks rdevs (unattached sb) ids) _ here (λ t e.
        after_attach-total n t.0 t.1
          (attach_all-HasSlots sb.raid_disks rdevs (unattached sb) ids t v e).0 (near_after t e))

-- `jraid5_run` makes no access outside an array, with 2 to 27 raid disks, chunks of 512 bytes to less
-- than 2^31, a layout below 2^31, descriptors for slots below 27, a descriptor for each member, and
-- no more members than raid disks. It ends with a running array and 0, or with no `conf` and -EIO; a
-- cache is then left behind only together with the thread.
pub jraid5_run-total :
    (ok : ℕ → Bool) (n : ℕ) (rdevs : ℕ → Rdev) (ids : List ℕ) (nb_dev : ℕ) (sb : Superblock)
    → IsUsual sb
    → AllNear sb.disks
    → ((id : ℕ) → 0 < occ id ids → (rdevs id).desc_nr < length sb.disks)
    → nb_dev ≤ sb.raid_disks
    → (r : Started) × (jraid5_run ok n rdevs ids nb_dev sb ≡ some r)
      × ((IsAborted r) ⊎ ((r.result ≡ 0) × (r.private ≢ none)))
unfolding jraid5_run
jraid5_run-total ok n rdevs ids nb_dev sb u near_all listed few =
    let total : jraid5_run ok n rdevs ids nb_dev sb ≢ none =
      if-total (not (sb.level == 5) && not (sb.level == 4)) _ _ (λ _ e. none≢some (sym e))
        (λ _.
          if-total (not (ok n)) _ _ (λ _ e. none≢some (sym e))
            (λ _.
              if-total (not (ok (suc n))) _ _ (λ _ e. none≢some (sym e))
                (λ _. start_disks-total ok rdevs ids nb_dev sb u near_all listed few (n + 2)))) in
    let (r, e) = has_result _ total in
    (
      r,
      e,
      elim (jraid5_run-outcome ok n rdevs ids nb_dev sb r e) [
        | inl a ↦ inl a
        | inr s ↦ inr (s.run.succeeded, λ k. none≢some (sym k ∙ s.run.private))
      ],
    )
