-- ===== src/Analyze/Total.antt =====
-- The accesses of `analyze_sbs` to the arrays of the program.
use jraid.Common.{
  ℕ, ◌<◌, ◌≡◌, ◌≢◌, ◌⊎◌, Bool, false, ◌&&◌, ◌||◌, not, none, some, List, [], ◌∷◌, ◌==◌, arith, refl,
  sym, ap, ◌∙◌, subst, occ, Bool-cases, inl, inr, some_inj, length, sub64, none≢some, >>=-eq-some,
  >>=-total, if-total, if-true, if-false, get_elem?, has_result,
}
use jraid.Superblock.{Superblock, jmd_event}
use jraid.Member.{Kernel, System, no_desc, is_some}
use jraid.Start.Slots.{length-modify_at}
use jraid.Analyze.{
  after, all_usable, own_sb, adopt, move_disk, relocate, relocate_all, cull, final_checks, weigh,
  analyze_sbs, readdress,
}
use jraid.Analyze.Stages.{after-eq, not_aborted, own_sb-same, adopt-Keeps, relocate-Keeps}
use jraid.Analyze.Checks.{usable_members}
use jraid.Analyze.Room.{after-total, in_bounds, some_one, HasRoom, IsWide, adopt-total}

module _ (k : Kernel) (s : System) (id : ℕ) where
  move_disk-HasRoom :
      (s' : System) (copy sb : Superblock)
      → length sb.disks ≡ 27
      → move_disk k s id copy sb ≡ some (s', false)
      → HasRoom s'
  unfolding move_disk
  move_disk-HasRoom s' copy sb room h =
      let r = s.rdevs id in
      let rest = if-false _ _ (not_aborted s (r.desc_nr == no_desc) _ h) h in
      let (desc, e, h1) = >>=-eq-some (get_elem? sb.disks r.desc_nr) _ rest in
      let wrong = not (r.old_dev == k.mkdev desc.major desc.minor) in
      let moved = if-false _ _ (not_aborted s wrong _ h1) h1 in
      subst HasRoom (ap (λ t. t.0) (some_inj moved))
        (_, refl, length-modify_at (readdress k r.dev) r.desc_nr sb.disks ∙ room)

  move_disk-total :
      (copy sb : Superblock)
      → length sb.disks ≡ 27
      → ((s.rdevs id).desc_nr ≡ no_desc) ⊎ ((s.rdevs id).desc_nr < 27)
      → move_disk k s id copy sb ≢ none
  unfolding move_disk
  move_disk-total copy sb room place =
      if-total ((s.rdevs id).desc_nr == no_desc) _ _ (λ _. some_one)
        (λ e.
          >>=-total (get_elem? sb.disks (s.rdevs id).desc_nr) _
            (in_bounds sb.disks (s.rdevs id).desc_nr (ground (arith, place, e, room)))
            (λ desc _.
              if-total (not ((s.rdevs id).old_dev == k.mkdev desc.major desc.minor)) _ _
                (λ _. some_one) (λ _. some_one)))

  relocate-HasRoom : (s' : System) → HasRoom s → relocate k s id ≡ some (s', false) → HasRoom s'
  unfolding relocate
  relocate-HasRoom s' (room, own, wide) h =
      let here = if-false _ _ (not_aborted s (s.rdevs id).faulty _ h) h in
      let (copy, e, h1) = >>=-eq-some (s.rdevs id).sb _ here in
      let (sb, f, h2) = >>=-eq-some s.array.sb _ h1 in
      let moves =
        not ((s.rdevs id).dev == (s.rdevs id).old_dev)
        && (jmd_event copy == jmd_event sb || jmd_event copy == sub64 (jmd_event sb) 1) in
      elim (Bool-cases moves) [
        | inl m ↦
            move_disk-HasRoom s' copy sb (ap (λ t. length t.disks) (some_inj (sym f ∙ own)) ∙ wide)
              (if-true _ _ m h2)
        | inr m ↦ subst HasRoom (ap (λ t. t.0) (some_inj (if-false _ _ m h2))) (room, own, wide)
      ]

  relocate-total :
      HasRoom s
      → (s.rdevs id).sb ≢ none
      → ((s.rdevs id).desc_nr ≡ no_desc) ⊎ ((s.rdevs id).desc_nr < 27)
      → relocate k s id ≢ none
  unfolding relocate
  relocate-total (room, own, wide) page place =
      if-total (s.rdevs id).faulty _ _ (λ _. some_one)
        (λ _. >>=-total (s.rdevs id).sb _ page (λ copy _.
          >>=-total s.array.sb _ (λ e. none≢some (sym e ∙ own))
            (λ sb f.
              if-total
                (not ((s.rdevs id).dev == (s.rdevs id).old_dev)
                  && (jmd_event copy == jmd_event sb || jmd_event copy == sub64 (jmd_event sb) 1))
                _ _
                (λ _.
                  move_disk-total copy sb (ap (λ t. length t.disks) (some_inj (sym f ∙ own)) ∙ wide)
                    place)
                (λ _. some_one))))

relocate_all-total :
    (k : Kernel) (s : System) (ids : List ℕ)
    → HasRoom s
    → ((id : ℕ) → 0 < occ id ids → (s.rdevs id).sb ≢ none)
    → ((id : ℕ) → 0 < occ id ids → ((s.rdevs id).desc_nr ≡ no_desc) ⊎ ((s.rdevs id).desc_nr < 27))
    → relocate_all k s ids ≢ none
unfolding relocate_all
relocate_all-total k s [] room pages places = some_one
relocate_all-total k s (x ∷ ids) room pages places =
    after-total (relocate k s x) _
      (relocate-total k s x room (pages x (ground arith)) (places x (ground arith)))
      (λ s1 e.
        let kept = relocate-Keeps k s s1 x e in
        relocate_all-total k s1 ids (relocate-HasRoom k s x s1 room e)
          (λ id m. kept.pages id (pages id (ground (arith, m))))
          (λ id m. ground (arith, kept.desc_nr id, places id, m)))

relocate_all-HasRoom :
    (k : Kernel) (s s' : System) (ids : List ℕ)
    → HasRoom s
    → relocate_all k s ids ≡ some (s', false)
    → HasRoom s'
unfolding relocate_all
relocate_all-HasRoom k s s' [] room h = subst HasRoom (ap (λ t. t.0) (some_inj h)) room
relocate_all-HasRoom k s s' (x ∷ ids) room h =
    let (s1, e, f) = after-eq (relocate k s x) _ h in
    relocate_all-HasRoom k s1 s' ids (relocate-HasRoom k s x s1 room e) f

cull_final-total :
    (k : Kernel) (s : System) → HasRoom s → after (cull k s) (λ t. final_checks k t) ≢ none
unfolding cull final_checks
cull_final-total k s (room, own, wide) =
    after-total (cull k s) _
      (>>=-total s.array.sb _ (λ e. none≢some (sym e ∙ own)) (λ sb _. some_one))
      (λ s1 h.
        let (sb, e, h1) = >>=-eq-some s.array.sb _ h in
        let own1 = ap (λ t. t.0.array.sb) (some_inj h1) in
        >>=-total s1.array.sb _ (λ f. none≢some (sym f ∙ sym own1)) (λ sb _. some_one))

weigh-total :
    (k : Kernel) (s : System)
    → 0 < length s.array.disks
    → IsWide s
    → ((id : ℕ) → 0 < occ id s.array.disks → (s.rdevs id).sb ≢ none)
    → weigh k s ≢ none
unfolding weigh
weigh-total k s l w pages =
    let (s0, e, room) = adopt-total k s l w pages in
    let kept = adopt-Keeps k s s0 e in
    after-total (adopt k s) _ (λ f. none≢some (sym f ∙ e))
      (λ s1 f.
        let same : s0 ≡ s1 = ap (λ t. t.0) (some_inj (sym e ∙ f)) in
        subst
          (λ t.
            after (relocate_all k t t.array.disks)
              (λ s2. after (cull k s2) (λ s3. final_checks k s3))
            ≢ none)
          same
          (after-total (relocate_all k s0 s0.array.disks) _
            (relocate_all-total k s0 s0.array.disks room
              (λ id m. kept.pages id (pages id (subst (λ t. 0 < occ id t) kept.disks m)))
              (λ id m.
                ground
                  (arith, kept.desc_nr id, w.numbers id (subst (λ t. 0 < occ id t) kept.disks m))))
            (λ s2 g. cull_final-total k s2 (relocate_all-HasRoom k s0 s2 s0.array.disks room g))))

own_sb-total : (k : Kernel) (s : System) → own_sb k s ≢ none
unfolding own_sb
own_sb-total k s = if-total (is_some s.array.sb) _ _ (λ _. some_one) (λ _. some_one)

same_IsWide :
    (s s' : System) → s'.rdevs ≡ s.rdevs → s'.array.disks ≡ s.array.disks → IsWide s → IsWide s'
same_IsWide s s' r d w = record {
  copies = λ id copy m h.
      w.copies id copy (subst (λ t. 0 < occ id t) d m) (ap (λ f. (f id).sb) (sym r) ∙ h);
  numbers = λ id m.
      subst (λ f. ((f id).desc_nr ≡ no_desc) ⊎ ((f id).desc_nr < 27)) (sym r)
        (w.numbers id (subst (λ t. 0 < occ id t) d m));
}

-- `analyze_sbs` makes no access outside an array or through NULL on an array with a member, when the
-- copies that the members hold have 27 descriptors, and each member has no descriptor number, or one
-- below 27.
pub analyze_sbs-total :
    (k : Kernel) (s : System)
    → 0 < length s.array.disks
    → IsWide s
    → (s' : System) × (refused : Bool) × (analyze_sbs k s ≡ some (s', refused))
unfolding analyze_sbs
analyze_sbs-total k s l w =
    let total : analyze_sbs k s ≢ none =
      if-total (all_usable s.rdevs s.array.disks) _ _
        (λ u. after-total (own_sb k s) _ (own_sb-total k s) (λ s1 e.
          let (r, d) = own_sb-same k s s1 false e in
          weigh-total k s1 (omega (arith, ap length d, l)) (same_IsWide s s1 r d w) (λ id m.
            subst (λ f. (f id).sb ≢ none) (sym r)
              (usable_members s.rdevs s.array.disks id u (subst (λ t. 0 < occ id t) d m)).1)))
        (λ _. some_one) in
    let (r, e) = has_result _ total in (r.0, r.1, e)
