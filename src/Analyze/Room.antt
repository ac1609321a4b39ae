-- ===== src/Analyze/Room.antt =====
-- The choice of the freshest superblock, and the descriptors that it leaves room for.
use jraid.Common.{
  ℕ, suc, zero, ◌<◌, ◌≡◌, ◌≢◌, ◌⊎◌, true, false, Option, none, some, List, [], ◌∷◌, ◌>>=◌, arith,
  refl, sym, ap, ◌∙◌, subst, occ, if◌then◌else◌, inl, inr, some_inj, length, none≢some, >>=-eq-some,
  >>=-total, get_elem?, ltb, has_result,
}
use jraid.Superblock.{Superblock, Scan, scan, distrust, jmd_event}
use jraid.Superblock.Events.{Among, scan-freshest}
use jraid.Member.{Kernel, Rdev, System, no_desc}
use jraid.Array.{with_sb}
use jraid.Analyze.{Stage, after, held, hold_copies, adopt}

pub after-total :
    (m : Stage) (f : System → Stage)
    → m ≢ none
    → ((s : System) → m ≡ some (s, false) → f s ≢ none)
    → after m f ≢ none
after-total none f h g = λ _. h refl
after-total (some (s, true)) f h g = λ e. none≢some (sym e)
after-total (some (s, false)) f h g = g s refl

module _ {ℓ} {A : Type ℓ} where
  pub in_bounds : (xs : List A) (i : ℕ) → i < length xs → get_elem? xs i ≢ none
  in_bounds [] i h = absurd (omega arith)
  in_bounds (x ∷ xs) zero h = λ e. none≢some (sym e)
  in_bounds (x ∷ xs) (suc i) h = in_bounds xs i (omega arith)

  pub some_one : {a : A} → some a ≢ none
  some_one e = none≢some (sym e)

-- Superblocks with a descriptor for each of the 27 disks.
abbrev AllWide : List Superblock → Type 0
AllWide [] = Unit {0}
AllWide (sb ∷ sbs) = (length sb.disks ≡ 27) × AllWide sbs

-- The array has such a superblock.
abbrev pub HasRoom : System → Type 0
HasRoom s = (sb : Superblock) × (s.array.sb ≡ some sb) × (length sb.disks ≡ 27)

-- The members have a copy with 27 descriptors, and a descriptor number, if any, below 27.
pub record IsWide (s : System) : Type 0 where
  pub copies :
      (id : ℕ) (copy : Superblock)
      → 0 < occ id s.array.disks
      → (s.rdevs id).sb ≡ some copy
      → length copy.disks ≡ 27
  pub numbers :
      (id : ℕ)
      → 0 < occ id s.array.disks
      → ((s.rdevs id).desc_nr ≡ no_desc) ⊎ ((s.rdevs id).desc_nr < 27)

held-total :
    (rdevs : ℕ → Rdev) (ids : List ℕ)
    → ((id : ℕ) → 0 < occ id ids → (rdevs id).sb ≢ none)
    → held rdevs ids ≢ none
unfolding held
held-total rdevs [] h = some_one
held-total rdevs (x ∷ ids) h = >>=-total (rdevs x).sb _ (h x (ground arith)) (λ sb _.
    >>=-total (held rdevs ids) _ (held-total rdevs ids (λ id m. h id (ground (arith, m))))
      (λ sbs _. some_one))

held-AllWide :
    (rdevs : ℕ → Rdev) (ids : List ℕ) (sbs : List Superblock)
    → ((id : ℕ) (copy : Superblock)
        → 0 < occ id ids
        → (rdevs id).sb ≡ some copy
        → length copy.disks ≡ 27)
    → held rdevs ids ≡ some sbs
    → AllWide sbs × (length sbs ≡ length ids)
unfolding held
held-AllWide rdevs [] sbs w h = subst (λ t. AllWide t × (length t ≡ 0)) (some_inj h) (tt, refl)
held-AllWide rdevs (x ∷ ids) sbs w h =
    let (sb, e, h1) = >>=-eq-some (rdevs x).sb _ h in
    let (rest, f, h2) = >>=-eq-some (held rdevs ids) _ h1 in
    let (wide, same) = held-AllWide rdevs ids rest (λ id copy m. w id copy (ground (arith, m))) f in
    subst (λ t. AllWide t × (length t ≡ suc (length ids))) (some_inj h2)
      ((w x sb (ground arith) e, wide), ap suc same)

distrust-disks :
    (csum_partial : Superblock → ℕ) (sb : Superblock) → (distrust csum_partial sb).disks ≡ sb.disks
unfolding distrust
distrust-disks csum_partial sb = ground arith

scan-AllWide :
    (csum_partial : Superblock → ℕ) (sbs : List Superblock) (f : Option Superblock)
    → AllWide sbs
    → AllWide (scan csum_partial f sbs).members
unfolding scan
scan-AllWide csum_partial [] none w = tt
scan-AllWide csum_partial [] (some f) w = tt
scan-AllWide csum_partial (sb ∷ sbs) none w = (
  ap length (distrust-disks csum_partial sb) ∙ w.0,
  scan-AllWide csum_partial sbs (some (distrust csum_partial sb)) w.1,
)
scan-AllWide csum_partial (sb ∷ sbs) (some f) w = (
  ap length (distrust-disks csum_partial sb) ∙ w.0,
  scan-AllWide csum_partial sbs
      (some (
        if ltb (jmd_event f) (jmd_event (distrust csum_partial sb))
        then distrust csum_partial sb
        else f))
      w.1,
)

Among-wide :
    (f : Superblock) (sbs : List Superblock) → AllWide sbs → Among f sbs → length f.disks ≡ 27
Among-wide f [] w a = absurd a
Among-wide f (sb ∷ sbs) w (inl e) = ap (λ t. length t.disks) e ∙ w.0
Among-wide f (sb ∷ sbs) w (inr a) = Among-wide f sbs w.1 a

-- The freshest of some wide superblocks is there, and wide.
scan_wide :
    (csum_partial : Superblock → ℕ) (sbs : List Superblock)
    → AllWide sbs
    → 0 < length sbs
    → (f : Superblock) × ((scan csum_partial none sbs).freshest ≡ some f) × (length f.disks ≡ 27)
scan_wide csum_partial [] w l = absurd (omega arith)
scan_wide csum_partial (sb ∷ sbs) w l =
    let (f, e, among, _) = scan-freshest csum_partial sb sbs in
    (f, e, Among-wide f _ (scan-AllWide csum_partial (sb ∷ sbs) none w) among)

pub adopt-total :
    (k : Kernel) (s : System)
    → 0 < length s.array.disks
    → IsWide s
    → ((id : ℕ) → 0 < occ id s.array.disks → (s.rdevs id).sb ≢ none)
    → (s' : System) × (adopt k s ≡ some (s', false)) × HasRoom s'
unfolding adopt
adopt-total k s l w pages =
    let (sbs, e) = has_result _ (held-total s.rdevs s.array.disks pages) in
    let (wide, same) = held-AllWide s.rdevs s.array.disks sbs w.copies e in
    let (f, g, room) = scan_wide k.csum_partial sbs wide (omega (arith, same)) in
    let found : Scan = scan k.csum_partial none sbs in
    (
      with_sb (record s { rdevs = hold_copies s.rdevs s.array.disks found.members }) f,
      ap
            (λ o. o >>= λ sbs. (scan k.csum_partial none sbs).freshest >>= λ sb. some (
              with_sb
                  (record s {
                    rdevs =
                        hold_copies s.rdevs s.array.disks (scan k.csum_partial none sbs).members;
                  })
                  sb,
              false,
            ))
            e
          ∙ ap
              (λ o. o >>= λ sb. some (
                with_sb (record s { rdevs = hold_copies s.rdevs s.array.disks found.members }) sb,
                false,
              ))
              g,
      (f, refl, room),
    )
