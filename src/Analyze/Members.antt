-- ===== src/Analyze/Members.antt =====
-- The list of the members in `analyze_sbs`.
use jraid.Common.{
  ℕ, ◌≡◌, Option, ◌>>=◌, Bool, true, false, ◌&&◌, ◌||◌, not, none, some, List, [], ◌∷◌, ◌==◌, arith,
  refl, ap, ◌∙◌, subst, update, if◌then◌else◌, some_inj, get_elem?, sub64, if_both,
}
use jraid.Superblock.{Superblock, scan, jmd_event}
use jraid.Member.{Kernel, Rdev, System, is_some, no_desc, tick}
use jraid.Array.{alloc_array_sb, with_sb, zero_superblock}
use jraid.Errno.{enomem}
use jraid.Joining.Alike.{Alike}
use jraid.Analyze.{
  Stage, after, all_usable, own_sb, held, hold_copies, adopt, move_disk, relocate, relocate_all,
  cull, final_checks, weigh, analyze_sbs,
}

pub Alike-refl : (s : System) → Alike s s
Alike-refl s = record {
  dev = λ id. refl;
  bound = λ id. refl;
  all = refl;
  next = refl;
  disks = refl;
  count = refl;
}

pub Alike-trans : (s t u : System) → Alike s t → Alike t u → Alike s u
Alike-trans s t u p q = record {
  dev = λ id. q.dev id ∙ p.dev id;
  bound = λ id. q.bound id ∙ p.bound id;
  all = q.all ∙ p.all;
  next = q.next ∙ p.next;
  disks = q.disks ∙ p.disks;
  count = q.count ∙ p.count;
}

-- A stage that ends, ends with the same members.
AllAlike : System → Stage → Type 0
AllAlike s m = (s' : System) (b : Bool) → m ≡ some (s', b) → Alike s s'

ends : (s t : System) (b : Bool) → Alike s t → AllAlike s (some (t, b))
unfolding AllAlike
ends s t b l s' c h = subst (Alike s) (ap (λ u. u.0) (some_inj h)) l

if_ends :
    (s : System) (b : Bool) (x y : Stage)
    → AllAlike s x
    → AllAlike s y
    → AllAlike s (if b then x else y)
if_ends s b x y p q = if_both (AllAlike s) b x y p q

after_ends :
    (s : System) (m : Stage) (f : System → Stage)
    → AllAlike s m
    → ((t : System) → AllAlike t (f t))
    → AllAlike s (after m f)
unfolding AllAlike
after_ends s none f p q s' b h = cc
after_ends s (some (t, true)) f p q s' b h = p s' b h
after_ends s (some (t, false)) f p q s' b h = Alike-trans s t s' (p t false refl) (q t s' b h)

bind_ends {ℓ} :
    {A : Type ℓ} (s : System) (o : Option A) (f : A → Stage)
    → ((a : A) → AllAlike s (f a))
    → AllAlike s (o >>= f)
unfolding AllAlike
bind_ends s none f p s' b h = cc
bind_ends s (some a) f p s' b h = p a s' b h

-- A state with the same members, where only other parts were written.
pub unchanged :
    (s t : System)
    → t.rdevs ≡ s.rdevs
    → t.all_jraid_disks ≡ s.all_jraid_disks
    → t.next ≡ s.next
    → t.array.disks ≡ s.array.disks
    → t.array.nb_dev ≡ s.array.nb_dev
    → Alike s t
unchanged s t rdevs all next disks count = record {
  dev = λ id. ap (λ f. (f id).dev) rdevs;
  bound = λ id. ap (λ f. (f id).bound) rdevs;
  all = all;
  next = next;
  disks = disks;
  count = count;
}

pub alloc_array_sb-Alike : (k : Kernel) (s : System) → Alike s (alloc_array_sb k s).0
unfolding alloc_array_sb
alloc_array_sb-Alike k s =
    if_both (λ (t : System × ℕ). Alike s t.0) (is_some s.array.sb) (s, 0) _ (Alike-refl s)
      (if_both (λ (t : System × ℕ). Alike s t.0) (k.allocates s.calls)
        (with_sb (tick s) zero_superblock, 0) (tick s, enomem)
        (unchanged s (with_sb (tick s) zero_superblock) refl refl refl refl refl)
        (unchanged s (tick s) refl refl refl refl refl))

own_sb-ends : (k : Kernel) (s : System) → AllAlike s (own_sb k s)
unfolding own_sb
own_sb-ends k s =
    if_ends s (is_some s.array.sb) _ _ (ends s s false (Alike-refl s))
      (ends s (alloc_array_sb k s).0 _ (alloc_array_sb-Alike k s))

hold_copies-Alike :
    (s : System) (rdevs : ℕ → Rdev) (ids : List ℕ) (sbs : List Superblock)
    → Alike s (record s { rdevs = rdevs })
    → Alike s (record s { rdevs = hold_copies rdevs ids sbs })
unfolding hold_copies
hold_copies-Alike s rdevs [] sbs h = h
hold_copies-Alike s rdevs (x ∷ ids) [] h = h
hold_copies-Alike s rdevs (x ∷ ids) (sb ∷ sbs) h =
    hold_copies-Alike s (update rdevs x (record (rdevs x) { sb = some sb })) ids sbs (record {
      dev = λ id. ground (arith, h.dev id);
      bound = λ id. ground (arith, h.bound id);
      all = refl;
      next = refl;
      disks = refl;
      count = refl;
    })

adopt-ends : (k : Kernel) (s : System) → AllAlike s (adopt k s)
unfolding adopt
adopt-ends k s = bind_ends s (held s.rdevs s.array.disks) _ (λ sbs.
    bind_ends s (scan k.csum_partial none sbs).freshest _ (λ sb.
      let t : System = record s {
        rdevs = hold_copies s.rdevs s.array.disks (scan k.csum_partial none sbs).members;
      } in
      ends s (with_sb t sb) false (
        Alike-trans s t (with_sb t sb) (hold_copies-Alike s s.rdevs s.array.disks _ (Alike-refl s))
          (unchanged t (with_sb t sb) refl refl refl refl refl))))

move_disk-ends :
    (k : Kernel) (s : System) (id : ℕ) (copy sb : Superblock)
    → AllAlike s (move_disk k s id copy sb)
unfolding move_disk
move_disk-ends k s id copy sb =
    let stop = ends s s true (Alike-refl s) in
    if_ends s ((s.rdevs id).desc_nr == no_desc) _ _ stop (
      bind_ends s (get_elem? sb.disks (s.rdevs id).desc_nr) _ (λ desc.
        if_ends s (not ((s.rdevs id).old_dev == k.mkdev desc.major desc.minor)) _ _ stop (
          ends s _ false (record {
            dev = λ i. ground arith;
            bound = λ i. ground arith;
            all = refl;
            next = refl;
            disks = refl;
            count = refl;
          }))))

relocate-ends : (k : Kernel) (s : System) (id : ℕ) → AllAlike s (relocate k s id)
unfolding relocate
relocate-ends k s id = if_ends s (s.rdevs id).faulty _ _ (ends s s true (Alike-refl s)) (
    bind_ends s (s.rdevs id).sb _ (λ copy. bind_ends s s.array.sb _ (λ sb.
      if_ends s
        (not ((s.rdevs id).dev == (s.rdevs id).old_dev)
          && (jmd_event copy == jmd_event sb || jmd_event copy == sub64 (jmd_event sb) 1))
        _ _ (move_disk-ends k s id copy sb) (ends s s false (Alike-refl s)))))

relocate_all-ends : (k : Kernel) (s : System) (ids : List ℕ) → AllAlike s (relocate_all k s ids)
unfolding relocate_all
relocate_all-ends k s [] = ends s s false (Alike-refl s)
relocate_all-ends k s (x ∷ ids) =
    after_ends s (relocate k s x) _ (relocate-ends k s x) (λ t. relocate_all-ends k t ids)

cull-ends : (k : Kernel) (s : System) → AllAlike s (cull k s)
unfolding cull
cull-ends k s =
    bind_ends s s.array.sb _ (λ sb. ends s _ false (unchanged s _ refl refl refl refl refl))

final_checks-ends : (k : Kernel) (s : System) → AllAlike s (final_checks k s)
unfolding final_checks
final_checks-ends k s = bind_ends s s.array.sb _ (λ sb. ends s s _ (Alike-refl s))

pub analyze_sbs-Alike :
    (k : Kernel) (s s' : System) (b : Bool) → analyze_sbs k s ≡ some (s', b) → Alike s s'
unfolding analyze_sbs weigh AllAlike
analyze_sbs-Alike k s s' b h =
    if_ends s (all_usable s.rdevs s.array.disks) _ _
      (after_ends s (own_sb k s) _ (own_sb-ends k s) (λ s1.
        after_ends s1 (adopt k s1) _ (adopt-ends k s1) (λ s2.
          after_ends s2 (relocate_all k s2 s2.array.disks) _ (relocate_all-ends k s2 s2.array.disks)
            (λ s3. after_ends s3 (cull k s3) _ (cull-ends k s3) (λ s4. final_checks-ends k s4)))))
      (ends s s true (Alike-refl s)) s' b h
