-- ===== src/Run/Members.antt =====
-- The members of the array in `jmd_update_sb` and in `device_size_calculation`.
use Prim.Native.Nat.{bit_and, ◌/◌}
use jraid.Common.{
  ℕ, zero, suc, ◌+◌, ◌≡◌, Option, Bool, true, ◌&&◌, ◌||◌, not, none, some, List, [], ◌∷◌, ◌==◌, inl,
  inr, arith, refl, sym, ap, ◌∙◌, subst, update, if◌then◌else◌, Bool-cases, some_inj, >>=-eq-some,
  if-true, if-false, wrap32, if_both, ltb,
}
use jraid.Errno.{einval}
use jraid.Superblock.{Superblock}
use jraid.Member.{Kernel, Rdev, System, tick}
use jraid.Array.{with_sb, calc_dev_size, sync_sbs}
use jraid.Joining.Alike.{Alike, sync_sbs-Alike}
use jraid.Update.{
  next_event, write_sbs, write_member, write_disk_sb, submit_sb, writable, update_round,
  update_rounds,
}
use jraid.Update.Events.{write_sbs-Kept}
use jraid.Analyze.Members.{Alike-refl, Alike-trans, unchanged}
use jraid.Run.{
  Driver, size_members, size_array, zone_members, zoned_jraid_size, data_disks, below_zero,
  device_size_calculation, unsized,
}

-- Writing changes neither list of members.
write_member-lists :
    (k : Kernel) (s : System) (id : ℕ)
    → ((write_member k s id).0.all_jraid_disks ≡ s.all_jraid_disks)
      × ((write_member k s id).0.next ≡ s.next)
unfolding write_member write_disk_sb submit_sb writable
write_member-lists k s id = ground arith

write_sbs-lists :
    (k : Kernel) (s : System) (ids : List ℕ)
    → ((write_sbs k s ids).0.all_jraid_disks ≡ s.all_jraid_disks)
      × ((write_sbs k s ids).0.next ≡ s.next)
unfolding write_sbs
write_sbs-lists k s [] = (refl, refl)
write_sbs-lists k s (id ∷ ids) =
    let (all, next) = write_member-lists k s id in
    let (all1, next1) = write_sbs-lists k (write_member k s id).0 ids in (all1 ∙ all, next1 ∙ next)

update_round-Alike :
    (k : Kernel) (s s' : System) (err : ℕ) → update_round k s ≡ some (s', err) → Alike s s'
unfolding update_round
update_round-Alike k s s' err h =
    let (sb, e, h1) = >>=-eq-some s.array.sb _ h in
    let sb1 = next_event (k.get_seconds s.calls) sb in
    let t = with_sb (tick s) sb1 in
    let (s1, f, h2) = >>=-eq-some (sync_sbs k t) _ h1 in
    let (rdevs, array) = write_sbs-Kept k s1 s1.array.disks in
    let (all, next) = write_sbs-lists k s1 s1.array.disks in
    Alike-trans s t s' (unchanged s t refl refl refl refl refl) (
      Alike-trans t s1 s' (sync_sbs-Alike k t s1 f) (
        subst (λ u. Alike s1 u.0) (some_inj h2)
          (if_both (λ (u : System × ℕ). Alike s1 u.0) (not (sb1.not_persistent == 0)) (s1, 0) _
            (Alike-refl s1)
            (unchanged s1 (write_sbs k s1 s1.array.disks).0 rdevs all next (ap (λ a. a.disks) array)
              (ap (λ a. a.nb_dev) array)))))

pub update_rounds-Alike :
    (k : Kernel) (count : ℕ) (s s' : System) (err : ℕ)
    → update_rounds k count s ≡ some (s', err)
    → Alike s s'
unfolding update_rounds
update_rounds-Alike k zero s s' err h = subst (Alike s) (ap (λ t. t.0) (some_inj h)) (Alike-refl s)
update_rounds-Alike k (suc count) s s' err h =
    let ((s1, e), f, h1) = >>=-eq-some (update_round k s) _ h in
    let first = update_round-Alike k s s1 e f in
    elim (Bool-cases (e == 0 || count == 0)) [
      | inl done ↦ subst (Alike s) (ap (λ t. t.0) (some_inj (if-true _ _ done h1))) first
      | inr more ↦
          Alike-trans s s1 s' first (update_rounds-Alike k count s1 s' err (if-false _ _ more h1))
    ]

size_members-Alike :
    (k : Kernel) (sb : Superblock) (s : System) (ids : List ℕ) → Alike s (size_members k sb s ids).0
unfolding size_members
size_members-Alike k sb s [] = Alike-refl s
size_members-Alike k sb s (x ∷ ids) =
    let r = s.rdevs x in
    let size = calc_dev_size k s r.dev (sb.not_persistent == 0) in
    let put : System = record s { rdevs = update s.rdevs x (record r { size = size }) } in
    let s1 = (if unsized r then put else s) in
    let step : Alike s s1 =
      if_both (Alike s) (unsized r) put s
        (record {
          dev = λ i. ground arith;
          bound = λ i. ground arith;
          all = refl;
          next = refl;
          disks = refl;
          count = refl;
        })
        (Alike-refl s) in
    if_both (λ (t : System × Bool). Alike s t.0) (unsized r && ltb size (sb.chunk_size / 512))
      (s1, true) (size_members k sb s1 ids) step
      (Alike-trans s s1 _ step (size_members-Alike k sb s1 ids))

zone_members-Alike :
    (s : System) (mask : ℕ) (rdevs : ℕ → Rdev) (total : ℕ) (ids : List ℕ)
    → Alike s (record s { rdevs = rdevs })
    → Alike s (record s { rdevs = (zone_members mask rdevs total ids).0 })
unfolding zone_members
zone_members-Alike s mask rdevs total [] h = h
zone_members-Alike s mask rdevs total (x ∷ ids) h =
    let size = bit_and (rdevs x).size mask in
    zone_members-Alike s mask (update rdevs x (record (rdevs x) { size = size }))
      (wrap32 (total + size)) ids
      (record {
        dev = λ id. ground (arith, h.dev id);
        bound = λ id. ground (arith, h.bound id);
        all = refl;
        next = refl;
        disks = refl;
        count = refl;
      })

zoned_jraid_size-Alike :
    (d : Driver) (sb : Superblock) → Alike d.system (zoned_jraid_size d sb).system
unfolding zoned_jraid_size
zoned_jraid_size-Alike d sb =
    zone_members-Alike d.system _ d.system.rdevs d.jmd_size d.system.array.disks
      (Alike-refl d.system)

size_array-system :
    (d : Driver) (sb : Superblock) (o : Option ℕ) → (size_array d sb o).0.system ≡ d.system
unfolding size_array
size_array-system d sb none = refl
size_array-system d sb (some n) = refl

pub device_size_calculation-Alike :
    (k : Kernel) (d : Driver) (sb : Superblock)
    → Alike d.system (device_size_calculation k d sb).0.system
unfolding device_size_calculation
device_size_calculation-Alike k d sb =
    let (s, short) = size_members k sb d.system d.system.array.disks in
    let d1 : Driver = record d { system = s } in
    let measured = size_members-Alike k sb d.system d.system.array.disks in
    let zoned = sb.level == below_zero 1 || sb.level == 0 in
    let d2 = (if zoned then zoned_jraid_size d1 sb else d1) in
    if_both (λ (t : Driver × ℕ). Alike d.system t.0.system) short (d1, einval)
      (size_array d2 sb (data_disks sb)) measured
      (subst (Alike d.system) (sym (size_array-system d2 sb (data_disks sb))) (
        if_both (λ (t : Driver). Alike d.system t.system) zoned (zoned_jraid_size d1 sb) d1
          (Alike-trans d.system s _ measured (zoned_jraid_size-Alike d1 sb)) measured))
