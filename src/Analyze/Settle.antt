-- ===== src/Analyze/Settle.antt =====
-- The events of the superblocks in the stages of `analyze_sbs` after the choice of the freshest.
use mathlib.Core.Option
use jraid.Common.{
  ℕ, ◌<◌, ◌≡◌, Bool, false, ◌&&◌, ◌||◌, not, some, List, [], ◌∷◌, ◌==◌, arith, refl, sym, ap, ◌∙◌,
  subst, occ, update, Bool-cases, inl, inr, sub64, some_inj, >>=-eq-some, map-eq-some, if-true,
  if-false, get_elem?, ==_iff,
}
use jraid.Superblock.{Disk, Superblock, jmd_event, remove_descriptor}
use jraid.Member.{Kernel, Rdev, System, no_desc}
use jraid.Analyze.{move_disk, relocate, relocate_all, cull, cull_disks, cull_disk, has_desc_nr}
use jraid.Analyze.Stages.{after-eq, not_aborted}
use jraid.Analyze.Fresh.{IsFresh}

-- The event counters are the same, of the array and of each copy.
record SameEvents (s s' : System) : Type 0 where
  disks : s'.array.disks ≡ s.array.disks
  array : Option.map jmd_event s'.array.sb ≡ Option.map jmd_event s.array.sb
  copies : (id : ℕ) → Option.map jmd_event (s'.rdevs id).sb ≡ Option.map jmd_event (s.rdevs id).sb

SameEvents-refl : (s : System) → SameEvents s s
SameEvents-refl s = record { disks = refl; array = refl; copies = λ id. refl }

SameEvents-trans : (s t u : System) → SameEvents s t → SameEvents t u → SameEvents s u
SameEvents-trans s t u p q = record {
  disks = q.disks ∙ p.disks;
  array = q.array ∙ p.array;
  copies = λ id. q.copies id ∙ p.copies id;
}

SameEvents-IsFresh : (s s' : System) → SameEvents s s' → IsFresh s → IsFresh s'
SameEvents-IsFresh s s' l v =
    let (sb, own, events) =
      map-eq-some jmd_event s'.array.sb (l.array ∙ ap (Option.map jmd_event) v.own) in
    let (original, holds, same) =
      map-eq-some jmd_event (s'.rdevs v.source).sb
        (l.copies v.source ∙ ap (Option.map jmd_event) v.holds) in
    record {
      sb = sb;
      own = own;
      latest = λ id copy m h.
          let (before, e, f) =
            map-eq-some jmd_event (s.rdevs id).sb
              (sym (l.copies id) ∙ ap (Option.map jmd_event) h) in
          omega (arith, v.latest id before (subst (λ t. 0 < occ id t) l.disks m) e, f, events);
      source = v.source;
      member = subst (λ t. 0 < occ v.source t) (sym l.disks) v.member;
      original = original;
      holds = holds;
      same = same ∙ v.same ∙ sym events;
    }

put_copy-events :
    (rdevs : ℕ → Rdev) (x id : ℕ) (copy copy' : Superblock)
    → (rdevs x).sb ≡ some copy
    → jmd_event copy' ≡ jmd_event copy
    → Option.map jmd_event (update rdevs x (record (rdevs x) { sb = some copy' }) id).sb
      ≡ Option.map jmd_event (rdevs id).sb
put_copy-events rdevs x id copy copy' h e = elim (Bool-cases (id == x)) [
  | inl f ↦ rw f (
      ap some e
      ∙ ap (Option.map jmd_event) (sym h)
      ∙ ap (λ i. Option.map jmd_event (rdevs i).sb) (sym ((==_iff id x).0 f)))
  | inr f ↦ rw f refl
]

move_disk-SameEvents :
    (k : Kernel) (s s' : System) (id : ℕ) (copy sb : Superblock)
    → (s.rdevs id).sb ≡ some copy
    → s.array.sb ≡ some sb
    → move_disk k s id copy sb ≡ some (s', false)
    → SameEvents s s'
unfolding move_disk
move_disk-SameEvents k s s' id copy sb c a h =
    let r = s.rdevs id in
    let rest = if-false _ _ (not_aborted s (r.desc_nr == no_desc) _ h) h in
    let (desc, e, h1) = >>=-eq-some (get_elem? sb.disks r.desc_nr) _ rest in
    let wrong = not (r.old_dev == k.mkdev desc.major desc.minor) in
    let moved = if-false _ _ (not_aborted s wrong _ h1) h1 in
    subst (SameEvents s) (ap (λ t. t.0) (some_inj moved)) (record {
      disks = refl;
      array = ap (Option.map jmd_event) (sym a);
      copies = λ i. put_copy-events s.rdevs id i copy _ c refl;
    })

relocate-SameEvents :
    (k : Kernel) (s s' : System) (id : ℕ) → relocate k s id ≡ some (s', false) → SameEvents s s'
unfolding relocate
relocate-SameEvents k s s' id h =
    let here = if-false _ _ (not_aborted s (s.rdevs id).faulty _ h) h in
    let (copy, e, h1) = >>=-eq-some (s.rdevs id).sb _ here in
    let (sb, f, h2) = >>=-eq-some s.array.sb _ h1 in
    let moves =
      not ((s.rdevs id).dev == (s.rdevs id).old_dev)
      && (jmd_event copy == jmd_event sb || jmd_event copy == sub64 (jmd_event sb) 1) in
    elim (Bool-cases moves) [
      | inl m ↦ move_disk-SameEvents k s s' id copy sb e f (if-true _ _ m h2)
      | inr m ↦
          subst (SameEvents s) (ap (λ t. t.0) (some_inj (if-false _ _ m h2))) (SameEvents-refl s)
    ]

relocate_all-SameEvents :
    (k : Kernel) (s s' : System) (ids : List ℕ)
    → relocate_all k s ids ≡ some (s', false)
    → SameEvents s s'
unfolding relocate_all
relocate_all-SameEvents k s s' [] h =
    subst (SameEvents s) (ap (λ t. t.0) (some_inj h)) (SameEvents-refl s)
relocate_all-SameEvents k s s' (x ∷ ids) h =
    let (s1, e, f) = after-eq (relocate k s x) _ h in
    SameEvents-trans s s1 s' (relocate-SameEvents k s s1 x e)
      (relocate_all-SameEvents k s1 s' ids f)

remove_descriptor-events :
    (d : Disk) (sb : Superblock)
    → ((remove_descriptor d sb).1.events_lo ≡ sb.events_lo)
      × ((remove_descriptor d sb).1.events_hi ≡ sb.events_hi)
unfolding remove_descriptor
remove_descriptor-events d sb = (ground arith, ground arith)

cull_disk-events :
    (k : Kernel) (found : Bool) (d : Disk) (sb : Superblock)
    → jmd_event (cull_disk k found d sb).1 ≡ jmd_event sb
unfolding cull_disk
cull_disk-events k found d sb = ground (arith, remove_descriptor-events d sb)

cull_disks-events :
    (k : Kernel) (found : ℕ → Bool) (ds : List Disk) (sb : Superblock)
    → jmd_event (cull_disks k found ds sb).1 ≡ jmd_event sb
unfolding cull_disks
cull_disks-events k found [] sb = refl
cull_disks-events k found (d ∷ ds) sb =
    cull_disks-events k found ds (cull_disk k (found d.number) d sb).1
    ∙ cull_disk-events k (found d.number) d sb

cull-SameEvents : (k : Kernel) (s s' : System) → cull k s ≡ some (s', false) → SameEvents s s'
unfolding cull
cull-SameEvents k s s' h =
    let (sb, e, h1) = >>=-eq-some s.array.sb _ h in
    let found = has_desc_nr s.rdevs s.array.disks in
    subst (SameEvents s) (ap (λ t. t.0) (some_inj h1)) (record {
      disks = refl;
      array = ap some (cull_disks-events k found sb.disks sb) ∙ ap (Option.map jmd_event) (sym e);
      copies = λ id. refl;
    })

-- The two stages after the choice of the freshest superblock leave the events alone.
pub settle-IsFresh :
    (k : Kernel) (s1 s2 s3 : System) (ids : List ℕ)
    → relocate_all k s1 ids ≡ some (s2, false)
    → cull k s2 ≡ some (s3, false)
    → IsFresh s1
    → IsFresh s3
settle-IsFresh k s1 s2 s3 ids e f v =
    SameEvents-IsFresh s1 s3
      (SameEvents-trans s1 s2 s3 (relocate_all-SameEvents k s1 s2 ids e)
        (cull-SameEvents k s2 s3 f))
      v
