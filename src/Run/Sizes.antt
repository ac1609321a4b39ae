-- ===== src/Run/Sizes.antt =====
-- The sizes of the members and of the array in `device_size_calculation`.
use jraid.Common.{
  ℕ, ◌-◌, ◌*◌, ◌/◌, ◌^◌, ◌≤◌, ◌<◌, ◌≡◌, ◌⊎◌, inl, inr, Bool, true, false, ◌&&◌, ◌||◌, Option, none,
  some, List, [], ◌∷◌, ◌==◌, ltb, arith, refl, sym, ap, ◌∙◌, subst, occ, update, update_self,
  wrap32, sub32, if◌then◌else◌, Bool-cases, ==_iff, ltb→le, if-true, if-false, true≢false, if_both,
}
use jraid.Errno.{einval}
use jraid.Superblock.{Superblock}
use jraid.Member.{Kernel, Rdev, System, find_dev, find_jrdev, is_some}
use jraid.Array.{calc_dev_size, calc_dev_sboffset, chunk_mask, new_size_blocks}
use jraid.Run.{
  Driver, unsized, size_members, data_disks, readahead, size_array, device_size_calculation,
  below_zero, zoned_jraid_size,
}

-- Two states whose members differ in their sizes only, as far as their devices are measured.
record SameDevices (s s' : System) : Type 0 where
  array : s'.array ≡ s.array
  dev : (id : ℕ) → (s'.rdevs id).dev ≡ (s.rdevs id).dev
  faulty : (id : ℕ) → (s'.rdevs id).faulty ≡ (s.rdevs id).faulty

find_dev-same :
    (rdevs rdevs' : ℕ → Rdev) (dev : ℕ) (ids : List ℕ)
    → ((id : ℕ) → (rdevs' id).dev ≡ (rdevs id).dev)
    → find_dev rdevs' dev ids ≡ find_dev rdevs dev ids
unfolding find_dev
find_dev-same rdevs rdevs' dev [] h = refl
find_dev-same rdevs rdevs' dev (x ∷ ids) h =
    rw (h x)
      (ap (λ o. if (rdevs x).dev == dev then some x else o) (find_dev-same rdevs rdevs' dev ids h))

-- `calc_dev_size` by what it looks up.
abbrev offset_by : Kernel → ℕ → Bool → Option ℕ → ℕ
offset_by k dev persistent found =
    if is_some found
    then (if persistent then new_size_blocks (k.i_size dev / 512) else k.i_size dev / 512)
    else 2 ^ 64 - einval

abbrev size_by : Option Superblock → ℕ → ℕ
size_by o size = elim o [ none ↦ size | some sb ↦ chunk_mask sb.chunk_size size ]

calc_dev_size-same :
    (k : Kernel) (s s' : System) (dev : ℕ) (persistent : Bool)
    → SameDevices s s'
    → calc_dev_size k s' dev persistent ≡ calc_dev_size k s dev persistent
unfolding calc_dev_size calc_dev_sboffset
calc_dev_size-same k s s' dev persistent h =
    let found : find_jrdev s' dev ≡ find_jrdev s dev =
      ap (λ a. find_dev s'.rdevs dev a.disks) h.array
      ∙ find_dev-same s.rdevs s'.rdevs dev s.array.disks h.dev in
    ap (λ o. size_by s'.array.sb (offset_by k dev persistent o)) found
    ∙ ap (λ a. size_by a.sb (offset_by k dev persistent (find_jrdev s dev))) h.array

-- What the loop makes of a member: it has the size that `calc_dev_size` gives, which is a chunk at least, if it is
-- in use and had none; else it is as before.
abbrev pub GotSize : Superblock → Rdev → ℕ → Rdev → Type 0
GotSize sb r size r' =
    ((unsized r ≡ true) × (r' ≡ record r { size = size }) × (sb.chunk_size / 512 ≤ size))
    ⊎ ((unsized r ≡ false) × (r' ≡ r))

-- What `calc_dev_size` gives for a member's device. Its mask cuts this to 32 bits.
abbrev pub device_size : Kernel → Superblock → System → ℕ → ℕ
device_size k sb s id = calc_dev_size k s (s.rdevs id).dev (sb.not_persistent == 0)

abbrev Measured : Kernel → Superblock → System → ℕ → Rdev → Type 0
Measured k sb s id r = GotSize sb (s.rdevs id) (device_size k sb s id) r

-- The state after a member got its size.
abbrev sized_one : Kernel → Superblock → System → ℕ → System
sized_one k sb s id =
    let r = s.rdevs id in
    if unsized r
    then record s {
      rdevs =
          update s.rdevs id (record r { size = calc_dev_size k s r.dev (sb.not_persistent == 0) });
    }
    else s

sized_one-same :
    (k : Kernel) (sb : Superblock) (s : System) (id : ℕ) → SameDevices s (sized_one k sb s id)
sized_one-same k sb s id =
    if_both (SameDevices s) (unsized (s.rdevs id)) _ s
      (record { array = refl; dev = λ i. ground arith; faulty = λ i. ground arith })
      (record { array = refl; dev = λ i. refl; faulty = λ i. refl })

sized_one-other :
    (k : Kernel) (sb : Superblock) (s : System) (x id : ℕ)
    → (id == x) ≡ false
    → (sized_one k sb s x).rdevs id ≡ s.rdevs id
sized_one-other k sb s x id ne =
    if_both (λ t. t.rdevs id ≡ s.rdevs id) (unsized (s.rdevs x)) _ s (rw ne refl) refl

sized_one-here :
    (k : Kernel) (sb : Superblock) (s : System) (x : ℕ)
    → (unsized (s.rdevs x) && ltb (device_size k sb s x) (sb.chunk_size / 512)) ≡ false
    → Measured k sb s x ((sized_one k sb s x).rdevs x)
sized_one-here k sb s x h =
    let r : Rdev = record (s.rdevs x) { size = device_size k sb s x } in
    let put : System = record s { rdevs = update s.rdevs x r } in
    elim (Bool-cases (unsized (s.rdevs x))) [
      | inl e ↦ inl (
        e,
        ap (λ b. (if b then put else s).rdevs x) e ∙ update_self s.rdevs x r,
        ltb→le _ _ (sym (ap (λ b. b && ltb (device_size k sb s x) (sb.chunk_size / 512)) e) ∙ h),
      )
      | inr e ↦ inr (e, ap (λ b. (if b then put else s).rdevs x) e)
    ]

-- A member that is as it was, measured in a state with the same devices.
Measured-back :
    (k : Kernel) (sb : Superblock) (s s1 : System) (id : ℕ) (r : Rdev)
    → SameDevices s s1
    → s1.rdevs id ≡ s.rdevs id
    → Measured k sb s1 id r
    → Measured k sb s id r
Measured-back k sb s s1 id r same here h =
    subst (λ t. GotSize sb t (device_size k sb s id) r) here
      (subst (λ (t : ℕ). GotSize sb (s1.rdevs id) t r)
        (calc_dev_size-same k s s1 (s1.rdevs id).dev (sb.not_persistent == 0) same
          ∙ ap (λ t. calc_dev_size k s t.dev (sb.not_persistent == 0)) here)
        h)

size_members-Measured :
    (k : Kernel) (sb : Superblock) (s s' : System) (ids : List ℕ)
    → ((id : ℕ) → occ id ids ≤ 1)
    → size_members k sb s ids ≡ (s', false)
    → (s'.array ≡ s.array)
      × ((id : ℕ) → 0 < occ id ids → Measured k sb s id (s'.rdevs id))
      × ((id : ℕ) → occ id ids ≡ 0 → s'.rdevs id ≡ s.rdevs id)
unfolding size_members
size_members-Measured k sb s s' [] once h =
    let last = ap (λ t. t.0) (sym h) in
    (ap (λ t. t.array) last, λ id m. absurd (omega arith), λ id m. ap (λ t. t.rdevs id) last)
size_members-Measured k sb s s' (x ∷ ids) once h =
    let short = unsized (s.rdevs x) && ltb (device_size k sb s x) (sb.chunk_size / 512) in
    elim (Bool-cases short) [
      | inl bad ↦ absurd (true≢false refl (ap (λ t. t.1) (if-true _ _ bad h)))
      | inr good ↦
          let same = sized_one-same k sb s x in
          let (array, measured, others) =
            size_members-Measured k sb (sized_one k sb s x) s' ids (λ id. ground (arith, once id))
              (if-false _ _ good h) in
          (
            array ∙ same.array,
            λ id m. elim (Bool-cases (id == x)) [
              | inl e ↦
                  subst (λ (i : ℕ). Measured k sb s i (s'.rdevs i)) (sym ((==_iff id x).0 e))
                    (subst (Measured k sb s x) (sym (others x (ground (arith, once x))))
                      (sized_one-here k sb s x good))
              | inr e ↦
                  Measured-back k sb s (sized_one k sb s x) id (s'.rdevs id) same
                    (sized_one-other k sb s x id e) (measured id (ground (arith, e, m)))
            ],
            λ id m. others id (ground (arith, m)) ∙ sized_one-other k sb s x id (ground (arith, m)),
          )
    ]

raid5-data_disks :
    (sb : Superblock)
    → (sb.level ≡ 4) ⊎ (sb.level ≡ 5)
    → data_disks sb ≡ some (sub32 sb.raid_disks 1)
unfolding data_disks
raid5-data_disks sb (inl h) = rw h refl
raid5-data_disks sb (inr h) = rw h refl

raid5-readahead :
    (sb : Superblock) (disks : ℕ)
    → (sb.level ≡ 4) ⊎ (sb.level ≡ 5)
    → wrap32 (62 * disks) ≤ readahead sb disks
unfolding readahead
raid5-readahead sb disks (inl h) = rw h (ground arith)
raid5-readahead sb disks (inr h) = rw h (ground arith)

-- For an array of level 4 or 5 whose list has each member once, when `device_size_calculation`
-- returns 0: each member in use without a size has the one that `calc_dev_size` gives for its device,
-- which is a chunk at least, and each other member is as before; the array is as before; the size of
-- the array, if there was none, is the size in the superblock times the number of data disks, in 32
-- bits; and 62 pages or more, in 32 bits, are read ahead for each data disk.
pub device_size_calculation-sizes :
    (k : Kernel) (d d' : Driver) (sb : Superblock)
    → (sb.level ≡ 4) ⊎ (sb.level ≡ 5)
    → ((id : ℕ) → occ id d.system.array.disks ≤ 1)
    → device_size_calculation k d sb ≡ (d', 0)
    → ((id : ℕ)
        → 0 < occ id d.system.array.disks
        → GotSize sb (d.system.rdevs id) (device_size k sb d.system id) (d'.system.rdevs id))
      × ((id : ℕ) → occ id d.system.array.disks ≡ 0 → d'.system.rdevs id ≡ d.system.rdevs id)
      × (d'.system.array ≡ d.system.array)
      × (d'.jmd_size
          ≡ (if d.jmd_size == 0 then wrap32 (sb.size * sub32 sb.raid_disks 1) else d.jmd_size))
      × (wrap32 (62 * sub32 sb.raid_disks 1) ≤ d'.jmd_maxreadahead)
unfolding device_size_calculation size_array
device_size_calculation-sizes k d d' sb level once h =
    let (s, short) = size_members k sb d.system d.system.array.disks in
    let d1 : Driver = record d { system = s } in
    let zoned = sb.level == below_zero 1 || sb.level == 0 in
    elim (Bool-cases short) [
      | inl bad ↦ absurd (omega (arith, ap (λ t. t.1) (if-true _ _ bad h)))
      | inr good ↦
          let plain : zoned ≡ false = ground (arith, level) in
          let h1 = if-false _ _ good h in
          let disks = raid5-data_disks sb level in
          let last =
            sym (
              ap (λ b. size_array (if b then zoned_jraid_size d1 sb else d1) sb (data_disks sb))
                plain
              ∙ ap (size_array d1 sb) disks)
            ∙ h1 in
          let same = ap (λ t. t.0) (sym last) in
          let (array, measured, others) =
            size_members-Measured k sb d.system s d.system.array.disks once
              (ap (λ b. (s, b)) good) in
          (
            λ id m.
                subst (GotSize sb (d.system.rdevs id) (device_size k sb d.system id))
                  (ap (λ t. t.system.rdevs id) (sym same)) (measured id m),
            λ id m. ap (λ t. t.system.rdevs id) same ∙ others id m,
            ap (λ t. t.system.array) same ∙ array,
            ap (λ t. t.jmd_size) same,
            subst (λ (t : ℕ). wrap32 (62 * sub32 sb.raid_disks 1) ≤ t)
                (ap (λ t. t.jmd_maxreadahead) (sym same))
                (raid5-readahead sb (sub32 sb.raid_disks 1) level),
          )
    ]
