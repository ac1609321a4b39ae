-- ===== src/Array/Total.antt =====
-- The pages that `sync_sbs` finds for the copies.
use jraid.Common.{
  ℕ, ◌<◌, ◌≡◌, ◌≢◌, ◌==◌, false, none, some, List, [], ◌∷◌, arith, refl, sym, ap, ◌∙◌, occ, update,
  if◌then◌else◌, Bool-cases, Option-cases, inl, inr, none≢some, ◌>>=◌,
}
use jraid.Superblock.{Superblock, scan}
use jraid.Member.{Kernel, Rdev, System}
use jraid.Array.Sync.{InSync, copies, sync_sbs-InSync}
use jraid.Array.{put_copy, sync_member, sync_list, sync_sbs}

sync_member-total :
    (k : Kernel) (sb : Superblock) (r : Rdev)
    → r.sb ≢ none
    → (r' : Rdev) × (sync_member k sb r ≡ some r') × (r'.sb ≢ none)
unfolding sync_member put_copy
sync_member-total k sb r h = elim (Bool-cases r.faulty) [
  | inl e ↦ (r, ap (λ b. if b then some r else put_copy k sb r r.sb) e, h)
  | inr e ↦ elim (Option-cases r.sb) [
    | inl f ↦ absurd (h f)
    | inr (old, f) ↦ (
      _,
      ap (λ b. if b then some r else put_copy k sb r r.sb) e ∙ ap (put_copy k sb r) f,
      λ g. none≢some (sym g),
    )
  ]
]

sync_list-total :
    (k : Kernel) (sb : Superblock) (rdevs : ℕ → Rdev) (ids : List ℕ)
    → ((id : ℕ) → 0 < occ id ids → (rdevs id).sb ≢ none)
    → (rdevs' : ℕ → Rdev) × (sync_list k sb rdevs ids ≡ some rdevs')
      × ((id : ℕ) → (rdevs id).sb ≢ none → (rdevs' id).sb ≢ none)
unfolding sync_list
sync_list-total k sb rdevs [] h = (rdevs, refl, λ id p. p)
sync_list-total k sb rdevs (x ∷ ids) h =
    let (r, e, p) = sync_member-total k sb (rdevs x) (h x (ground arith)) in
    let kept : (id : ℕ) → (rdevs id).sb ≢ none → (update rdevs x r id).sb ≢ none =
      λ id q. elim (Bool-cases (id == x)) [ inl f ↦ rw f p | inr f ↦ rw f q ] in
    let (rdevs', f, q) =
      sync_list-total k sb (update rdevs x r) ids (λ id l. kept id (h id (ground (arith, l)))) in
    (
      rdevs',
      ap (λ o. o >>= λ r. sync_list k sb (update rdevs x r) ids) e ∙ f,
      λ id z. q id (kept id z),
    )

-- The members of the array have a page for the superblock.
abbrev pub HasPages : System → Type 0
HasPages s = (id : ℕ) → 0 < occ id s.array.disks → (s.rdevs id).sb ≢ none

pub sync_sbs-total :
    (k : Kernel) (s : System) (sb : Superblock)
    → s.array.sb ≡ some sb
    → HasPages s
    → (s' : System) × (sync_sbs k s ≡ some s')
      × ((id : ℕ) → (s.rdevs id).sb ≢ none → (s'.rdevs id).sb ≢ none)
unfolding sync_sbs
sync_sbs-total k s sb a h =
    let (rdevs, e, kept) = sync_list-total k sb s.rdevs s.array.disks h in
    (
      record s { rdevs = rdevs },
      ap
            (λ o.
              o >>= λ b. sync_list k b s.rdevs s.array.disks >>= λ f. some (record s { rdevs = f }))
            a
          ∙ ap (λ o. o >>= λ f. some (record s { rdevs = f })) e,
      kept,
    )

-- On an array with a superblock, whose members have a page for it, `sync_sbs` ends. Each member of
-- the array is then faulty or has a copy of the superblock with its events and descriptors and a
-- right checksum; a member that is not in the array is as before, and so is the array. When
-- `analyze_sbs` reads the copies of those that are not faulty, it believes each, and finds none out
-- of date.
pub sync_sbs-copies :
    (k : Kernel) (s : System) (sb : Superblock)
    → s.array.sb ≡ some sb
    → HasPages s
    → (s' : System) × (sync_sbs k s ≡ some s')
      × ((id : ℕ) → 0 < occ id s.array.disks → InSync k sb (s'.rdevs id))
      × ((id : ℕ) → occ id s.array.disks ≡ 0 → s'.rdevs id ≡ s.rdevs id)
      × (s'.array ≡ s.array)
      × ((scan k.csum_partial none (copies s'.rdevs s.array.disks)).members
          ≡ copies s'.rdevs s.array.disks)
      × ((scan k.csum_partial none (copies s'.rdevs s.array.disks)).out_of_date ≡ false)
sync_sbs-copies k s sb a h =
    let (s', e, _) = sync_sbs-total k s sb a h in
    let (synced, others, array, kept, fresh) = sync_sbs-InSync k s s' sb a e in
    (s', e, synced, others, array, kept, fresh)
