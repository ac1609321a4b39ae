-- ===== src/Analyze/Fresh.antt =====
-- The events of the array's superblock and of its members in `analyze_sbs`.
use jraid.Common.{
  ℕ, suc, ◌<◌, ◌≤◌, ◌≡◌, true, false, none, some, List, [], ◌∷◌, ◌==◌, arith, refl, sym, ap, ◌∙◌,
  subst, occ, update, if◌then◌else◌, Bool-cases, inl, inr, length, some_inj, none≢some, >>=-eq-some,
  ==_iff, ltb,
}
use jraid.Superblock.{Superblock, Scan, scan, jmd_event, distrust}
use jraid.Superblock.Events.{Among, AllOlder, scan-freshest}
use jraid.Member.{Kernel, Rdev, System}
use jraid.Array.{with_sb}
use jraid.Analyze.{held, hold_copies, adopt}

-- The array has a superblock; no member of it has more events, and one has as many.
pub record IsFresh (s : System) : Type 0 where
  pub sb : Superblock
  pub own : s.array.sb ≡ some sb
  pub latest :
      (id : ℕ) (copy : Superblock)
      → 0 < occ id s.array.disks
      → (s.rdevs id).sb ≡ some copy
      → jmd_event copy ≤ jmd_event sb
  pub source : ℕ
  pub member : 0 < occ source s.array.disks
  pub original : Superblock
  pub holds : (s.rdevs source).sb ≡ some original
  pub same : jmd_event original ≡ jmd_event sb

length-scan :
    (csum_partial : Superblock → ℕ) (f : Superblock) (sbs : List Superblock)
    → length (scan csum_partial (some f) sbs).members ≡ length sbs
unfolding scan
length-scan csum_partial f [] = refl
length-scan csum_partial f (sb ∷ sbs) = ap suc (
    length-scan csum_partial
      (if ltb (jmd_event f) (jmd_event (distrust csum_partial sb))
        then distrust csum_partial sb
        else f)
      sbs)

length-held :
    (rdevs : ℕ → Rdev) (ids : List ℕ) (sbs : List Superblock)
    → held rdevs ids ≡ some sbs
    → length sbs ≡ length ids
unfolding held
length-held rdevs [] sbs h = ap length (sym (some_inj h))
length-held rdevs (x ∷ ids) sbs h =
    let (sb, e, h1) = >>=-eq-some (rdevs x).sb _ h in
    let (rest, f, h2) = >>=-eq-some (held rdevs ids) _ h1 in
    ap length (sym (some_inj h2)) ∙ ap suc (length-held rdevs ids rest f)

hold_copies_absent :
    (rdevs : ℕ → Rdev) (ids : List ℕ) (sbs : List Superblock) (id : ℕ)
    → occ id ids ≡ 0
    → (hold_copies rdevs ids sbs id).sb ≡ (rdevs id).sb
unfolding hold_copies
hold_copies_absent rdevs [] sbs id h = refl
hold_copies_absent rdevs (x ∷ ids) [] id h = refl
hold_copies_absent rdevs (x ∷ ids) (sb ∷ sbs) id h =
    ground
      (arith, hold_copies_absent (update rdevs x (record (rdevs x) { sb = some sb })) ids sbs id)

hold_copies_older :
    (f : Superblock) (rdevs : ℕ → Rdev) (ids : List ℕ) (sbs : List Superblock) (id : ℕ)
    (copy : Superblock)
    → AllOlder f sbs
    → length sbs ≡ length ids
    → 0 < occ id ids
    → (hold_copies rdevs ids sbs id).sb ≡ some copy
    → jmd_event copy ≤ jmd_event f
unfolding hold_copies
hold_copies_older f rdevs [] sbs id copy older l m h = absurd (omega arith)
hold_copies_older f rdevs (x ∷ ids) [] id copy older l m h = absurd (omega arith)
hold_copies_older f rdevs (x ∷ ids) (sb ∷ sbs) id copy older l m h =
    let rdevs1 = update rdevs x (record (rdevs x) { sb = some sb }) in
    elim (Bool-cases (occ id ids == 0)) [
      | inl e ↦
          let gone = hold_copies_absent rdevs1 ids sbs id ((==_iff _ _).0 e) in
          let here : (id == x) ≡ true = ground (arith, e, m) in
          let put : (rdevs1 id).sb ≡ some sb = rw here refl in
          subst (λ t. jmd_event t ≤ jmd_event f) (some_inj (sym put ∙ sym gone ∙ h)) older.0
      | inr e ↦
          hold_copies_older f rdevs1 ids sbs id copy older.1 (omega arith) (ground (arith, e)) h
    ]

hold_copies_source :
    (f : Superblock) (rdevs : ℕ → Rdev) (ids : List ℕ) (sbs : List Superblock)
    → Among f sbs
    → length sbs ≡ length ids
    → ((id : ℕ) → occ id ids ≤ 1)
    → (id : ℕ) × (0 < occ id ids) × ((hold_copies rdevs ids sbs id).sb ≡ some f)
unfolding hold_copies
hold_copies_source f rdevs ids [] a l once = absurd a
hold_copies_source f rdevs [] (sb ∷ sbs) a l once = absurd (omega arith)
hold_copies_source f rdevs (x ∷ ids) (sb ∷ sbs) a l once =
    let rdevs1 = update rdevs x (record (rdevs x) { sb = some sb }) in
    elim a [
      | inl e ↦
          let gone = hold_copies_absent rdevs1 ids sbs x (ground (arith, once x)) in
          let put : (rdevs1 x).sb ≡ some sb = ground arith in
          (x, ground arith, gone ∙ put ∙ ap some (sym e))
      | inr e ↦
          let (id, m, q) =
            hold_copies_source f rdevs1 ids sbs e (omega arith) (λ id. ground (arith, once id)) in
          (id, ground (arith, m), q)
    ]

adopted :
    (k : Kernel) (s : System) (sbs : List Superblock) (sb : Superblock)
    → ((id : ℕ) → occ id s.array.disks ≤ 1)
    → length sbs ≡ length s.array.disks
    → (scan k.csum_partial none sbs).freshest ≡ some sb
    → IsFresh (
        with_sb
          (record s {
            rdevs = hold_copies s.rdevs s.array.disks (scan k.csum_partial none sbs).members;
          })
          sb)
unfolding scan
adopted k s [] sb once l e = absurd (none≢some e)
adopted k s (first ∷ rest) sb once l e =
    let (f, g, among, older) = scan-freshest k.csum_partial first rest in
    let same : f ≡ sb = some_inj (sym g ∙ e) in
    let members = (scan k.csum_partial none (first ∷ rest)).members in
    let full : length members ≡ length s.array.disks =
      ap suc (length-scan k.csum_partial (distrust k.csum_partial first) rest) ∙ l in
    let (source, m, holds) = hold_copies_source f s.rdevs s.array.disks members among full once in
    record {
      sb = sb;
      own = refl;
      latest = λ id copy m held.
          hold_copies_older sb s.rdevs s.array.disks members id copy
            (subst (λ t. AllOlder t members) same older) full m held;
      source = source;
      member = m;
      original = f;
      holds = holds;
      same = ap jmd_event same;
    }

pub adopt-IsFresh :
    (k : Kernel) (s s' : System)
    → ((id : ℕ) → occ id s.array.disks ≤ 1)
    → adopt k s ≡ some (s', false)
    → IsFresh s'
unfolding adopt
adopt-IsFresh k s s' once h =
    let (sbs, e, h1) = >>=-eq-some (held s.rdevs s.array.disks) _ h in
    let found : Scan = scan k.csum_partial none sbs in
    let (sb, f, h2) = >>=-eq-some found.freshest _ h1 in
    subst IsFresh (ap (λ t. t.0) (some_inj h2))
      (adopted k s sbs sb once (length-held s.rdevs s.array.disks sbs e) f)
