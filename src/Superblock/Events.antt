-- ===== src/Superblock/Events.antt =====
-- The choice of the freshest superblock, and the counts of the disks.
use jraid.Common.{
  ℕ, ◌+◌, ◌-◌, ◌^◌, ◌≤◌, ◌<◌, ◌≡◌, ◌⊎◌, inl, inr, Bool, true, false, ◌||◌, not, none, some, List,
  [], ◌∷◌, ◌==◌, ltb, ltb→lt, ltb→le, if◌then◌else◌, arith, refl, Bool-cases, subst, true≢false,
  ◌↔◌, sym,
}
use jraid.Superblock.{
  Disk, Superblock, disk_active, disk_spare, disk_faulty, disk_removed, remove_descriptor,
  jmd_event, calc_sb_csum, distrust, Scan, scan,
}

-- The two halves of the event counter are 32-bit words.
abbrev pub IsWords : Superblock → Type 0
IsWords sb = (sb.events_lo < 2 ^ 32) × (sb.events_hi < 2 ^ 32)

-- A member with a wrong checksum, whose event counter is of two 32-bit words, counts as one update
-- older than it says, across the border of the two words and down to 0; one with a right checksum
-- counts as it says.
jmd_event-distrust :
    (csum_partial : Superblock → ℕ) (sb : Superblock)
    → IsWords sb
    → jmd_event (distrust csum_partial sb)
      ≡ (if calc_sb_csum csum_partial sb == sb.sb_csum then jmd_event sb else jmd_event sb - 1)
unfolding distrust
jmd_event-distrust csum_partial sb h = ground arith

-- The superblock is one of these.
abbrev pub Among : Superblock → List Superblock → Type 0
Among f [] = ⊥
Among f (sb ∷ sbs) = (f ≡ sb) ⊎ Among f sbs

-- None of these has more events.
abbrev pub AllOlder : Superblock → List Superblock → Type 0
AllOlder f [] = Unit {0}
AllOlder f (sb ∷ sbs) = (jmd_event sb ≤ jmd_event f) × AllOlder f sbs

-- The result of the scan from `g` on.
record Chosen (g : Superblock) (s : Scan) : Type 0 where
  one : Superblock
  chosen : s.freshest ≡ some one
  among : (one ≡ g) ⊎ Among one s.members
  least : jmd_event g ≤ jmd_event one
  older : AllOlder one s.members

scan-Chosen :
    (csum_partial : Superblock → ℕ) (g : Superblock) (sbs : List Superblock)
    → Chosen g (scan csum_partial (some g) sbs)
unfolding scan
scan-Chosen csum_partial g [] = record {
  one = g;
  chosen = refl;
  among = inl refl;
  least = omega arith;
  older = tt;
}
scan-Chosen csum_partial g (sb ∷ sbs) =
    let sb' : Superblock = distrust csum_partial sb in
    elim (Bool-cases (ltb (jmd_event g) (jmd_event sb'))) [
      | inl e ↦
          let c = scan-Chosen csum_partial sb' sbs in
          rw e (record {
            one = c.one;
            chosen = c.chosen;
            among = elim c.among [ inl p ↦ inr (inl p) | inr p ↦ inr (inr p) ];
            least = omega (arith, ltb→lt _ _ e, c.least);
            older = (c.least, c.older);
          })
      | inr e ↦
          let c = scan-Chosen csum_partial g sbs in
          rw e (record {
            one = c.one;
            chosen = c.chosen;
            among = elim c.among [ inl p ↦ inl p | inr p ↦ inr (inr p) ];
            least = c.least;
            older = (omega (arith, ltb→le _ _ e, c.least), c.older);
          })
    ]

-- An array with a member has a freshest superblock: it is that of a member, as the members stand
-- after the scan, and no member has more events.
pub scan-freshest :
    (csum_partial : Superblock → ℕ) (sb : Superblock) (sbs : List Superblock)
    → let s = scan csum_partial none (sb ∷ sbs) in
      (f : Superblock) × (s.freshest ≡ some f) × Among f s.members × AllOlder f s.members
unfolding scan
scan-freshest csum_partial sb sbs =
    let c = scan-Chosen csum_partial (distrust csum_partial sb) sbs in
    (c.one, c.chosen, elim c.among [ inl p ↦ inl p | inr p ↦ inr p ], (c.least, c.older))

-- The counts of a superblock: each disk is working or failed, and spares are working.
pub record IsCounted (sb : Superblock) : Type 0 where
  pub sum : sb.working_disks + sb.failed_disks ≡ sb.nr_disks
  pub spares : sb.spare_disks ≤ sb.working_disks
  pub words : sb.nr_disks < 2 ^ 32

-- The disk is in the counts: an active one is working and no spare.
pub record IsListed (d : Disk) (sb : Superblock) : Type 0 where
  pub active : disk_active d ≡ true → sb.spare_disks < sb.working_disks
  pub spare : disk_active d ≡ false → disk_spare d ≡ true → 0 < sb.spare_disks
  pub failed : disk_active d ≡ false → disk_spare d ≡ false → 0 < sb.failed_disks

-- `remove_descriptor` keeps the counts of the superblock consistent when the disk is in them, with one
-- disk less, and the descriptor is that of a faulty, removed disk that is neither active nor spare.
pub remove_descriptor-IsCounted :
    (d : Disk) (sb : Superblock)
    → IsCounted sb
    → IsListed d sb
    → let (d', sb') = remove_descriptor d sb in
      IsCounted sb'
      × (sb'.nr_disks + 1 ≡ sb.nr_disks)
      × (disk_faulty d' ≡ true)
      × (disk_removed d' ≡ true)
      × (disk_active d' ≡ false)
      × (disk_spare d' ≡ false)
unfolding remove_descriptor
remove_descriptor-IsCounted d sb c l = (
  record {
    sum = ground (arith, c.sum, c.spares, c.words, l.active, l.spare, l.failed);
    spares = ground (arith, c.sum, c.spares, c.words, l.active, l.spare, l.failed);
    words = ground (arith, c.sum, c.spares, c.words, l.active, l.spare, l.failed);
  },
  ground (arith, c.sum, c.spares, c.words, l.active, l.spare, l.failed),
  refl,
  refl,
  refl,
  refl,
)

-- Each of these has as many events.
abbrev pub AllSame : Superblock → List Superblock → Type 0
AllSame f [] = Unit {0}
AllSame f (sb ∷ sbs) = (jmd_event sb ≡ jmd_event f) × AllSame f sbs

or_false : (a b : Bool) → a || b ≡ false → (a ≡ false) × (b ≡ false)
or_false true b h = absurd (true≢false (refl {a = true}) h)
or_false false b h = (refl, h)

-- A step of the scan that changes nothing.
scan_step :
    (csum_partial : Superblock → ℕ) (g sb : Superblock) (sbs : List Superblock)
    → jmd_event (distrust csum_partial sb) ≤ jmd_event g
    → let rest = scan csum_partial (some g) sbs in
      scan csum_partial (some g) (sb ∷ sbs) ≡ record rest {
        members = distrust csum_partial sb ∷ rest.members;
        out_of_date = not (jmd_event (distrust csum_partial sb) == jmd_event g) || rest.out_of_date;
      }
unfolding scan
scan_step csum_partial g sb sbs h =
    let older : ltb (jmd_event g) (jmd_event (distrust csum_partial sb)) ≡ false =
      ground (arith, h) in
    rw older refl

-- No difference is noted in the scan exactly if the members, as they stand after it, have equal event
-- counters.
scan-AllSame :
    (csum_partial : Superblock → ℕ) (g : Superblock) (sbs : List Superblock)
    → ((scan csum_partial (some g) sbs).out_of_date ≡ false)
      ↔ AllSame g (scan csum_partial (some g) sbs).members
unfolding scan
scan-AllSame csum_partial g [] = (λ h. tt, λ h. refl)
scan-AllSame csum_partial g (sb ∷ sbs) =
    let sb' : Superblock = distrust csum_partial sb in
    let rest = scan-AllSame csum_partial g sbs in
    elim (Bool-cases (ltb (jmd_event g) (jmd_event sb'))) [
      | inl e ↦ (
        λ h.
            let p : not (jmd_event sb' == jmd_event g) ≡ false = (or_false _ _ h).0 in
            absurd (ground (arith, p, ltb→lt _ _ e)),
        λ h. absurd (omega (arith, h.0, ltb→lt _ _ e)),
      )
      | inr e ↦
          let same = scan_step csum_partial g sb sbs (ltb→le _ _ e) in
          subst (λ s. (s.out_of_date ≡ false) ↔ AllSame g s.members) (sym same)
            (
              λ h.
                  let p : not (jmd_event sb' == jmd_event g) ≡ false = (or_false _ _ h).0 in
                  (ground (arith, p), rest.0 (or_false _ _ h).1),
              λ h. ground (arith, h.0, rest.1 h.1),
            )
    ]
