-- ===== src/Update/Events.antt =====
-- The events of the superblock, and the copies of the members, in an update.
use Prim.Native.Nat.{min}
use jraid.Common.{
  ℕ, zero, suc, ◌+◌, ◌-◌, ◌^◌, ◌≤◌, ◌<◌, ◌≡◌, ◌≢◌, ◌⊎◌, true, false, ◌||◌, not, Option, none, some,
  List, [], ◌∷◌, ◌==◌, ◌>>=◌, arith, refl, sym, ap, ◌∙◌, subst, if◌then◌else◌, occ, Bool-cases, inl,
  inr, some_inj, none≢some, >>=-eq-some, if-true, if-false, if-total, >>=-total, has_result,
}
use jraid.Superblock.{Superblock, jmd_event}
use jraid.Superblock.Events.{IsWords}
use jraid.Member.{Kernel, System, tick}
use jraid.Array.{with_sb, sync_sbs}
use jraid.Array.Total.{HasPages, sync_sbs-total}
use jraid.Array.Sync.{InSync, sync_sbs-InSync}
use jraid.Update.{
  writable, submit_sb, write_disk_sb, write_member, write_sbs, next_event, update_round,
  update_rounds, jmd_update_sb,
}

-- Writing changes no member and not the array.
abbrev pub Kept : System → System → Type 0
Kept s s' = (s'.rdevs ≡ s.rdevs) × (s'.array ≡ s.array)

write_member-Kept : (k : Kernel) (s : System) (id : ℕ) → Kept s (write_member k s id).0
unfolding write_member write_disk_sb submit_sb writable
write_member-Kept k s id = ground arith

pub write_sbs-Kept : (k : Kernel) (s : System) (ids : List ℕ) → Kept s (write_sbs k s ids).0
unfolding write_sbs
write_sbs-Kept k s [] = (refl, refl)
write_sbs-Kept k s (id ∷ ids) =
    let (rdevs, array) = write_member-Kept k s id in
    let (rdevs1, array1) = write_sbs-Kept k (write_member k s id).0 ids in
    (rdevs1 ∙ rdevs, array1 ∙ array)

-- The counter goes up by one.
next_event-up :
    (now : ℕ) (sb : Superblock)
    → IsWords sb
    → IsWords (next_event now sb)
      × (jmd_event (next_event now sb) ≡ min (jmd_event sb + 1) (2 ^ 64 - 1))
unfolding next_event
next_event-up now sb w = ground arith

-- The array has a superblock with these events, the same members, and they have its copies.
pub record HasEvents (k : Kernel) (disks : List ℕ) (events : ℕ) (s : System) : Type 0 where
  pub sb : Superblock
  pub here : s.array.sb ≡ some sb
  pub words : IsWords sb
  pub events_are : jmd_event sb ≡ events
  pub same : s.array.disks ≡ disks
  pub synced : (id : ℕ) → 0 < occ id disks → InSync k sb (s.rdevs id)

Kept-HasEvents :
    (k : Kernel) (disks : List ℕ) (events : ℕ) (s s' : System)
    → Kept s s'
    → HasEvents k disks events s
    → HasEvents k disks events s'
Kept-HasEvents k disks events s s' (rdevs, array) h = record {
  sb = h.sb;
  here = ap (λ a. a.sb) array ∙ h.here;
  words = h.words;
  events_are = h.events_are;
  same = ap (λ a. a.disks) array ∙ h.same;
  synced = λ id p. subst (λ f. InSync k h.sb (f id)) (sym rdevs) (h.synced id p);
}

update_round-HasEvents :
    (k : Kernel) (s : System) (sb : Superblock) (t : System × ℕ)
    → s.array.sb ≡ some sb
    → IsWords sb
    → update_round k s ≡ some t
    → HasEvents k s.array.disks (min (jmd_event sb + 1) (2 ^ 64 - 1)) t.0
unfolding update_round
update_round-HasEvents k s sb t a w h =
    let (sb0, e, h1) = >>=-eq-some s.array.sb _ h in
    let sb1 : Superblock = next_event (k.get_seconds s.calls) sb0 in
    let (s1, f, h2) = >>=-eq-some (sync_sbs k (with_sb (tick s) sb1)) _ h1 in
    let (synced, _, array, _, _) = sync_sbs-InSync k (with_sb (tick s) sb1) s1 sb1 refl f in
    let (words, up) =
      next_event-up (k.get_seconds s.calls) sb0 (subst IsWords (some_inj (sym a ∙ e)) w) in
    let has : HasEvents k s.array.disks (min (jmd_event sb + 1) (2 ^ 64 - 1)) s1 = record {
      sb = sb1;
      here = ap (λ b. b.sb) array;
      words = words;
      events_are = up ∙ ap (λ b. min (jmd_event b + 1) (2 ^ 64 - 1)) (some_inj (sym e ∙ a));
      same = ap (λ b. b.disks) array;
      synced = synced;
    } in
    subst (λ u. HasEvents k s.array.disks (min (jmd_event sb + 1) (2 ^ 64 - 1)) u.0) (some_inj h2)
      (elim (Bool-cases (not (sb1.not_persistent == 0))) [
        | inl z ↦ rw z has
        | inr z ↦ rw z (Kept-HasEvents k _ _ s1 _ (write_sbs-Kept k s1 s1.array.disks) has)
      ])

-- What some rounds come to: the last one gave 0, or there were as many as there may be.
abbrev pub After : Kernel → ℕ → System → Superblock → System × ℕ → Type 0
After k most s sb t =
    (rounds : ℕ) × (1 ≤ rounds)
    × (rounds ≤ most)
    × ((t.1 ≡ 0) ⊎ (rounds ≡ most))
    × HasEvents k s.array.disks (min (jmd_event sb + rounds) (2 ^ 64 - 1)) t.0

pub update_rounds-HasEvents :
    (k : Kernel) (count : ℕ) (s : System) (sb : Superblock) (t : System × ℕ)
    → s.array.sb ≡ some sb
    → IsWords sb
    → update_rounds k (suc count) s ≡ some t
    → After k (suc count) s sb t
unfolding update_rounds
update_rounds-HasEvents k zero s sb t a w h =
    let ((s1, err), e, h1) = >>=-eq-some (update_round k s) _ h in
    let one = update_round-HasEvents k s sb (s1, err) a w e in
    let stop : (err == 0 || 0 == 0) ≡ true = ground arith in
    subst (After k 1 s sb) (some_inj (if-true _ _ stop h1))
      (1, omega arith, omega arith, inr refl, one)
update_rounds-HasEvents k (suc count) s sb t a w h =
    let ((s1, err), e, h1) = >>=-eq-some (update_round k s) _ h in
    let one = update_round-HasEvents k s sb (s1, err) a w e in
    elim (Bool-cases (err == 0)) [
      | inl z ↦
          let stop : (err == 0 || suc count == 0) ≡ true = ground (arith, z) in
          subst (After k (suc (suc count)) s sb) (some_inj (if-true _ _ stop h1))
            (1, omega arith, omega arith, inl (ground (arith, z)), one)
      | inr z ↦
          let go : (err == 0 || suc count == 0) ≡ false = ground (arith, z) in
          let (rounds, low, high, last, has) =
            update_rounds-HasEvents k count s1 one.sb t one.here one.words (if-false _ _ go h1) in
          (
            suc rounds,
            omega arith,
            omega (arith, high),
            elim last [ inl y ↦ inl y | inr y ↦ inr (ap suc y) ],
            subst (λ d. HasEvents k d (min (jmd_event sb + suc rounds) (2 ^ 64 - 1)) t.0) one.same
                (subst (λ n. HasEvents k s1.array.disks n t.0) (omega (arith, one.events_are)) has),
          )
    ]

-- A round ends, and the pages are still there.
update_round-total :
    (k : Kernel) (s : System) (sb : Superblock)
    → s.array.sb ≡ some sb
    → HasPages s
    → (t : System × ℕ) × (update_round k s ≡ some t) × HasPages t.0
unfolding update_round
update_round-total k s sb a h =
    let sb1 : Superblock = next_event (k.get_seconds s.calls) sb in
    let (s1, e, kept) = sync_sbs-total k (with_sb (tick s) sb1) sb1 refl h in
    let (_, _, array, _, _) = sync_sbs-InSync k (with_sb (tick s) sb1) s1 sb1 refl e in
    let pages : HasPages s1 = λ id p. kept id (h id (subst (λ b. 0 < occ id b.disks) array p)) in
    (
      _,
      ap (λ o. o >>= round) a ∙ ap (λ o. o >>= ending sb1) e,
      elim (Bool-cases (not (sb1.not_persistent == 0))) [
        | inl z ↦ rw z pages
        | inr z ↦
            let (rdevs, arr) = write_sbs-Kept k s1 s1.array.disks in
            rw z (λ id p g.
              pages id (subst (λ b. 0 < occ id b.disks) arr p)
                (ap (λ f. (f id).sb) (sym rdevs) ∙ g))
      ],
    )
  where
    ending : Superblock → System → Option (System × ℕ)
    ending sb1 s1 =
        some (if not (sb1.not_persistent == 0) then (s1, 0) else write_sbs k s1 s1.array.disks)

    round : Superblock → Option (System × ℕ)
    round sb =
        let sb1 = next_event (k.get_seconds s.calls) sb in
        sync_sbs k (with_sb (tick s) sb1) >>= ending sb1

update_rounds-total :
    (k : Kernel) (count : ℕ) (s : System) (sb : Superblock)
    → s.array.sb ≡ some sb
    → IsWords sb
    → HasPages s
    → update_rounds k count s ≢ none
unfolding update_rounds
update_rounds-total k zero s sb a w h = λ g. none≢some (sym g)
update_rounds-total k (suc count) s sb a w h =
    let (t, e, pages) = update_round-total k s sb a h in
    let one = update_round-HasEvents k s sb t a w e in
    >>=-total (update_round k s) _ (λ g. none≢some (sym g ∙ e))
      (λ u f.
        let same = some_inj (sym e ∙ f) in
        if-total (u.1 == 0 || count == 0) _ _ (λ _ g. none≢some (sym g))
          (λ _.
            subst (λ v. update_rounds k count v.0 ≢ none) same
              (update_rounds-total k count t.0 one.sb one.here one.words pages)))

-- `jmd_update_sb` of an array with a superblock, whose members have their pages, ends after 1 to 100
-- rounds, less than 100 only if the results of the last one add up to 0. The array has its members,
-- its superblock has as many events more as there were rounds, but at most 2^64 - 1, and each
-- member is faulty or has a copy of it with these events, the array's descriptors and a right
-- checksum.
pub jmd_update_sb-HasEvents :
    (k : Kernel) (s : System) (sb : Superblock)
    → s.array.sb ≡ some sb
    → IsWords sb
    → HasPages s
    → (s' : System) × (err : ℕ) × (jmd_update_sb k s ≡ some (s', err))
      × (rounds : ℕ) × (1 ≤ rounds)
      × (rounds ≤ 100)
      × ((err ≡ 0) ⊎ (rounds ≡ 100))
      × HasEvents k s.array.disks (min (jmd_event sb + rounds) (2 ^ 64 - 1)) s'
unfolding jmd_update_sb
jmd_update_sb-HasEvents k s sb a w h =
    let ((s', err), e) = has_result _ (update_rounds-total k 100 s sb a w h) in
    let (rounds, low, high, last, has) = update_rounds-HasEvents k 99 s sb (s', err) a w e in
    (s', err, e, rounds, low, high, last, has)
