-- ===== src/Run/Adding.antt =====
-- What `add_store` leaves of the members: those it found, and the disk that it brings.
mod Examples
use jraid.Common.{
  ℕ, suc, ◌≡◌, ◌⊎◌, inl, inr, not, Option, none, some, ◌∷◌, ◌==◌, refl, sym, ap, ◌∙◌, subst,
  if◌then◌else◌, Bool-cases, some_inj, >>=-eq-some, if-true, if-false, if_both, wrap32, ◌+◌, ◌*◌,
  ◌/◌,
}
use jraid.Superblock.{Superblock}
use jraid.Errno.{enomem}
use jraid.Member.{Kernel, System, is_some, tick, find_dev, find_jrdev_all}
use jraid.Array.{
  JmdArrayInfo, JmdDiskInfo, alloc_array_sb, set_array_info, array_info_init, jmddev_size, with_sb,
  zero_superblock, describe,
}
use jraid.Joining.{add_new_disk}
use jraid.Joining.Alike.{IsArray, Alike, Alike-IsArray}
use jraid.Joining.Members.{add_new_disk-IsArray}
use jraid.Analyze.Members.{unchanged}
use jraid.Run.{Driver, do_jmd_run, join_disk, add_store}
use jraid.Run.Keeping.{do_jmd_run-Keeps}

-- The members and both lists of them are the same.
record SameMembers (s t : System) : Type 0 where
  rdevs : t.rdevs ≡ s.rdevs
  all : t.all_jraid_disks ≡ s.all_jraid_disks
  next : t.next ≡ s.next
  disks : t.array.disks ≡ s.array.disks
  count : t.array.nb_dev ≡ s.array.nb_dev

same : (s : System) → SameMembers s s
same s = record { rdevs = refl; all = refl; next = refl; disks = refl; count = refl }

same_calls : (s : System) (calls : ℕ) → SameMembers s (record s { calls = calls })
same_calls s calls = record { rdevs = refl; all = refl; next = refl; disks = refl; count = refl }

SameMembers-Alike : (s t : System) → SameMembers s t → Alike s t
SameMembers-Alike s t p = unchanged s t p.rdevs p.all p.next p.disks p.count

alloc_array_sb-same : (k : Kernel) (s : System) → SameMembers s (alloc_array_sb k s).0
unfolding alloc_array_sb
alloc_array_sb-same k s =
    if_both (λ (t : System × ℕ). SameMembers s t.0) (is_some s.array.sb) (s, 0) _ (same s)
      (if_both (λ (t : System × ℕ). SameMembers s t.0) (k.allocates s.calls)
        (with_sb (tick s) zero_superblock, 0) (tick s, enomem)
        (record { rdevs = refl; all = refl; next = refl; disks = refl; count = refl })
        (record { rdevs = refl; all = refl; next = refl; disks = refl; count = refl }))

set_array_info-same :
    (k : Kernel) (s : System) (info : JmdArrayInfo) → SameMembers s (set_array_info k s info).0
unfolding set_array_info
set_array_info-same k s info =
    let (s1, e) = alloc_array_sb k s in
    let own = alloc_array_sb-same k s in
    if_both (λ (t : System × ℕ). SameMembers s t.0) (not (e == 0)) (s1, enomem) _ own
      (described s1 own s1.array.sb)
  where
    described :
        (s1 : System)
        → SameMembers s s1
        → (o : Option Superblock)
        → (let r : System × ℕ = elim o [
          | none ↦ (s1, enomem)
          | some sb ↦ (
            record s1 {
              calls = s1.calls + 4;
              array = record (s1.array) {
                sb = some (describe k s1.calls info sb);
                chunk_sectors = 32 * 1024 / 2;
              };
            },
            0,
          )
        ] in
            SameMembers s r.0)
    described s1 own none = own
    described s1 own (some sb) = record {
      rdevs = own.rdevs;
      all = own.all;
      next = own.next;
      disks = own.disks;
      count = own.count;
    }

-- What a state is after the disk `dev` was brought to `s`.
abbrev Brings : System → ℕ → System → Type 0
Brings s dev t =
    IsArray t
    × ((t.array.disks ≡ s.array.disks)
        ⊎ ((find_jrdev_all s dev ≡ none)
            × (t.array.disks ≡ s.next ∷ s.array.disks)
            × ((t.rdevs s.next).dev ≡ dev)))

Brings-after : (s t u : System) (dev : ℕ) → Alike t u → Brings s dev t → Brings s dev u
Brings-after s t u dev l (v, inl stay) = (Alike-IsArray t u l v, inl (l.disks ∙ stay))
Brings-after s t u dev l (v, inr (fresh, disks, is)) =
    (Alike-IsArray t u l v, inr (fresh, l.disks ∙ disks, l.dev s.next ∙ is))

Brings-before : (s t u : System) (dev : ℕ) → SameMembers s t → Brings t dev u → Brings s dev u
Brings-before s t u dev p (v, inl stay) = (v, inl (stay ∙ p.disks))
Brings-before s t u dev p (v, inr (fresh, disks, is)) = (
  v,
  inr (
    sym (ap (λ r. find_dev r dev t.all_jraid_disks) p.rdevs ∙ ap (find_dev s.rdevs dev) p.all)
        ∙ fresh,
    disks ∙ ap (λ id. id ∷ t.array.disks) p.next ∙ ap (λ ids. s.next ∷ ids) p.disks,
    ap (λ id. (u.rdevs id).dev) (sym p.next) ∙ is,
  ),
)

add_new_disk-Brings :
    (k : Kernel) (s : System) (info : JmdDiskInfo) (t : System) (e : ℕ)
    → IsArray s
    → add_new_disk k s info ≡ some (t, e)
    → Brings s (k.mkdev info.major info.minor) t
add_new_disk-Brings k s info t e v h =
    let (w, outcome) = add_new_disk-IsArray k s info t e v h in
    elim outcome [
      | inl stay ↦ (w, inl stay)
      | inr (_, fresh, disks, is) ↦ (w, inr (fresh, disks, is))
    ]

join_disk-Brings :
    (k : Kernel) (d d' : Driver) (major minor total_num jrdev_num : ℕ)
    → IsArray d.system
    → join_disk k d major minor total_num jrdev_num ≡ some d'
    → Brings d.system (k.mkdev major minor) d'.system
unfolding join_disk
join_disk-Brings k d d' major minor total_num jrdev_num v h =
    let info : JmdArrayInfo = record array_info_init {
      nr_disks = total_num;
      raid_disks = total_num;
    } in
    let s1 : System =
      (if d.system.array.nb_dev == 0 then (set_array_info k d.system info).0 else d.system) in
    let ready : SameMembers d.system s1 =
      if_both (SameMembers d.system) (d.system.array.nb_dev == 0) _ _
        (set_array_info-same k d.system info) (same d.system) in
    let ((s2, e), f, h1) = >>=-eq-some (add_new_disk k s1 _) _ h in
    let brought : Brings d.system (k.mkdev major minor) s2 =
      Brings-before d.system s1 s2 (k.mkdev major minor) ready (
        add_new_disk-Brings k s1 _ s2 e
          (Alike-IsArray d.system s1 (SameMembers-Alike d.system s1 ready) v) f) in
    let sectors : ℕ = jmddev_size s2.array (wrap32 (total_num + 1)) in
    let full : Driver = record d { system = s2; array_sectors = sectors; capacity = sectors } in
    elim (Bool-cases (s2.array.nb_dev == total_num)) [
      | inr more ↦
          subst (λ (t : Driver). Brings d.system (k.mkdev major minor) t.system)
            (some_inj (if-false _ _ more h1)) brought
      | inl all ↦
          let ((d1, err), ran, h2) = >>=-eq-some (do_jmd_run k full) _ (if-true _ _ all h1) in
          subst (λ (t : Driver). Brings d.system (k.mkdev major minor) t.system) (some_inj h2)
            (Brings-after d.system s2 d1.system (k.mkdev major minor)
              (do_jmd_run-Keeps k full d1 err ran) brought)
    ]

-- `add_store`, for a name that stands for a device, keeps the members in order: on the list of all
-- none stands twice and no two are for one device, those of the array are just the bound ones, and
-- `nb_dev` counts them. Either the array has the members it had, or the device had no member and
-- now has one, which is the first of the array. This is so whatever `set_array_info`,
-- `add_new_disk` and `do_jmd_run` come to, of which `add_store` looks at no result.
pub add_store-IsArray :
    (k : Kernel) (d d' : Driver) (major minor total_num jrdev_num e : ℕ)
    → IsArray d.system
    → add_store k d (some (major, minor)) total_num jrdev_num ≡ some (d', e)
    → IsArray d'.system
      × ((d'.system.array.disks ≡ d.system.array.disks)
          ⊎ ((find_jrdev_all d.system (k.mkdev major minor) ≡ none)
              × (d'.system.array.disks ≡ d.system.next ∷ d.system.array.disks)
              × ((d'.system.rdevs d.system.next).dev ≡ k.mkdev major minor)))
unfolding add_store
add_store-IsArray k d d' major minor total_num jrdev_num e v h =
    let calls : ℕ = d.system.calls in
    let s3 : System = tick (tick (tick d.system)) in
    let ticked : SameMembers d.system s3 = same_calls d.system (suc (suc (suc calls))) in
    elim (Bool-cases (k.allocates calls)) [
      | inr bad ↦
          stopped (tick d.system) (same_calls d.system (suc calls))
            (some_inj (if-true _ _ (ap not bad) h))
      | inl ok ↦
          let h1 = if-false _ _ (ap not ok) h in
          elim (Bool-cases (k.allocates (suc calls))) [
            | inr bad ↦
                stopped (tick (tick d.system)) (same_calls d.system (suc (suc calls)))
                  (some_inj (if-true _ _ (ap not bad) h1))
            | inl ok1 ↦
                let h2 = if-false _ _ (ap not ok1) h1 in
                elim (Bool-cases (k.allocates (suc (suc calls)))) [
                  | inr bad ↦ stopped s3 ticked (some_inj (if-true _ _ (ap not bad) h2))
                  | inl ok2 ↦
                      let (d1, f, h3) =
                        >>=-eq-some (join_disk k (record d { system = s3 }) _ _ _ _) _
                          (if-false _ _ (ap not ok2) h2) in
                      subst (λ (t : Driver × ℕ). Brings d.system (k.mkdev major minor) t.0.system)
                        (some_inj h3)
                        (Brings-before d.system s3 d1.system (k.mkdev major minor) ticked (
                          join_disk-Brings k (record d { system = s3 }) d1 major minor total_num
                            jrdev_num
                            (Alike-IsArray d.system s3 (SameMembers-Alike d.system s3 ticked) v) f))
                ]
          ]
    ]
  where
    stopped :
        (s : System)
        → SameMembers d.system s
        → ◌≡◌ {A = Driver × ℕ} (record d { system = s }, enomem) (d', e)
        → Brings d.system (k.mkdev major minor) d'.system
    stopped s p g =
        subst (λ (t : Driver × ℕ). Brings d.system (k.mkdev major minor) t.0.system) g
          (Alike-IsArray d.system s (SameMembers-Alike d.system s p) v, inl p.disks)
