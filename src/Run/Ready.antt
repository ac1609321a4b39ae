-- ===== src/Run/Ready.antt =====
-- The first request of an array that `do_jmd_run` started with the personality of src/jraid5.c.
use jraid.Common.{
  ℕ, ◌^◌, ◌≤◌, ◌<◌, ◌≡◌, ◌⊎◌, inl, inr, Bool, true, false, some, arith, sym, ap, ◌∙◌, subst,
  some_inj, List, [], ◌∷◌, occ,
}
use native.Mathlib.Nat.{pow-le-pow_right}
use jraid.Superblock.{Superblock}
use jraid.Member.{Kernel, System}
use jraid.Cache.Invariant.{Inv}
use jraid.Request.{make_request, served}
use jraid.Handle.{Request}
use jraid.Stripe.{Bio, Conf}
use jraid.Start.{Raid, Started, jraid5_run}
use jraid.Start.Outcome.{jraid5_run-outcome}
use jraid.Start.Serving.{IsUsual, jraid5_run-serves}
use jraid.Analyze.{analyze_sbs}
use jraid.Analyze.Sound.{IsSound, analyze_sbs-IsSound}
use jraid.Run.{Personality, Driver, raid5, level_to_pers, do_jmd_run}
use jraid.Run.Chunk.{FindsZero, IsChunk, accepts_chunk_iff}
use jraid.Run.Outcome.{do_jmd_run-outcome}

-- The only personality is that of src/jraid5.c.
abbrev pub OnlyRaid5 : Driver → Type 0
OnlyRaid5 d =
    (pnum : ℕ) (p : Personality) → d.table pnum ≡ some p → (pnum ≡ raid5) × (p ≡ jraid5_run)

-- The numbers of a superblock that the start does not check: 2 to 27 raid disks, a layout and a
-- chunk size below 2^31.
pub record IsPlain (sb : Superblock) : Type 0 where
  pub two_disks : 2 ≤ sb.raid_disks
  pub few_disks : sb.raid_disks ≤ 27
  pub layout_low : sb.layout < 2 ^ 31
  pub chunk_low : sb.chunk_size < 2 ^ 31

level_to_pers-raid5 : (level : ℕ) → level_to_pers level ≡ raid5 → (level ≡ 4) ⊎ (level ≡ 5)
unfolding level_to_pers
level_to_pers-raid5 level h = ground (arith, h)

chunk_bounds : (c : ℕ) → IsChunk c → c < 2 ^ 31 → (4096 ≤ c) × (c ≤ 4194304)
chunk_bounds c (n, e, inl h) low = (
  omega (arith, e, pow-le-pow_right {n = 2} (omega arith) {i = 12} {j = n} (omega (arith, h))),
  omega (arith, e, pow-le-pow_right {n = 2} (omega arith) {i = n} {j = 22} (omega (arith, h))),
)
chunk_bounds c (n, e, inr h) low = absurd (omega (arith, low, e, ap (λ (t : ℕ). 2 ^ t) h))

-- An array that runs, by the start that it came from.
record Runs (k : Kernel) (sb : Superblock) (d' : Driver) : Type 0 where
  level : (sb.level ≡ 4) ⊎ (sb.level ≡ 5)
  chunk : IsChunk sb.chunk_size
  d1 : Driver
  r : Started
  ran :
      jraid5_run k.allocates d1.system.calls d1.system.rdevs d1.system.array.disks
        d1.system.array.nb_dev sb
      ≡ some r
  ok : r.result ≡ 0
  runs : d'.pers ≡ some raid5
  started : d'.started ≡ some r

do_jmd_run-Runs :
    (k : Kernel) (d d' : Driver) (s : System) (sb : Superblock)
    → FindsZero k.ffz
    → OnlyRaid5 d
    → analyze_sbs k d.system ≡ some (s, false)
    → s.array.sb ≡ some sb
    → do_jmd_run k d ≡ some (d', 0)
    → Runs k sb d'
do_jmd_run-Runs k d d' s sb finds only analyzed own h = elim (do_jmd_run-outcome k d d' 0 h) [
  | inr (inl (wrong, _, _)) ↦ absurd (omega (arith, wrong))
  | inr (inr (wrong, _)) ↦ absurd (omega (arith, wrong))
  | inl (_, v) ↦
      let same_s : v.s ≡ s = ap (λ t. t.0) (some_inj (sym v.analyzed ∙ analyzed)) in
      let same : v.sb ≡ sb = some_inj (sym v.own ∙ ap (λ t. t.array.sb) same_s ∙ own) in
      let w = v.rest in
      let (place, jraid5) = only (level_to_pers v.sb.level) w.run w.registered in
      subst (λ t. Runs k t d') same
        (record {
          level = level_to_pers-raid5 v.sb.level place;
          chunk = (accepts_chunk_iff k finds v.sb.chunk_size).0 w.chunk;
          d1 = w.d1;
          r = w.r;
          ran =
              ap
                (λ (run : Personality).
                  run k.allocates w.d1.system.calls w.d1.system.rdevs w.d1.system.array.disks
                    w.d1.system.array.nb_dev v.sb)
                (sym jraid5)
              ∙ w.ran;
          ok = w.ok;
          runs = w.runs ∙ ap some place;
          started = w.started;
        })
]

-- The array has a cache, and `jraid5_make_request` serves the bio from it.
pub record Serves (d : Driver) (bi : Bio) (forwrite : Bool) : Type 0 where
  pub r : Started
  pub started : d.started ≡ some r
  pub raid : Raid
  pub private : r.private ≡ some raid
  pub serves :
      (c : Conf) × (requests : List Request) × (queued : Bool) × (make_request
          (raid.cache ∷ [])
          raid.cache
          bi
          forwrite
        ≡ served c requests queued true)
      × Inv c

running_conf :
    (k : Kernel) (d : Driver) (sb : Superblock) (r : Started)
    → jraid5_run k.allocates d.system.calls d.system.rdevs d.system.array.disks
        d.system.array.nb_dev sb
      ≡ some r
    → r.result ≡ 0
    → (raid : Raid) × (r.private ≡ some raid)
running_conf k d sb r ran ok =
    elim (jraid5_run-outcome k.allocates d.system.calls d.system.rdevs d.system.array.disks
      d.system.array.nb_dev sb r ran) [
        | inl a ↦ absurd (omega (arith, a.failed, ok))
        | inr v ↦ (v.run.raid, v.run.private)
      ]

-- When `do_jmd_run` succeeds, with the personality of src/jraid5.c alone in the table, on an array
-- whose superblock, as `analyze_sbs` leaves it, has 2 to 27 raid disks, and a layout and a chunk size
-- below 2^31, then the level is 4 or 5, the chunk size a power of two from 4096 to 4 MB, the array is
-- sound, the personality is set, and the array serves its first bio, for a sector below 2^64, with a
-- wait, if one is taken, that comes back to the same cache: no BUG() and no fault, the bio is ended,
-- and the cache is again well formed. `ffz` gives the place of the lowest 0, and the list of the
-- array has each member once.
pub do_jmd_run-Serves :
    (k : Kernel) (d d' : Driver) (s : System) (sb : Superblock) (bi : Bio) (forwrite : Bool)
    → FindsZero k.ffz
    → OnlyRaid5 d
    → ((id : ℕ) → occ id d.system.array.disks ≤ 1)
    → analyze_sbs k d.system ≡ some (s, false)
    → s.array.sb ≡ some sb
    → IsPlain sb
    → bi.bi_sector < 2 ^ 64
    → do_jmd_run k d ≡ some (d', 0)
    → ((sb.level ≡ 4) ⊎ (sb.level ≡ 5))
      × IsChunk sb.chunk_size
      × (4096 ≤ sb.chunk_size)
      × (sb.chunk_size ≤ 4194304)
      × IsSound k s
      × (d'.pers ≡ some raid5)
      × Serves d' bi forwrite
do_jmd_run-Serves k d d' s sb bi forwrite finds only once analyzed own plain low h =
    let v = do_jmd_run-Runs k d d' s sb finds only analyzed own h in
    let (above, below) = chunk_bounds sb.chunk_size v.chunk plain.chunk_low in
    let usual : IsUsual sb = record {
      chunk_low = omega (arith, above);
      chunk_high = plain.chunk_low;
      two_disks = plain.two_disks;
      few_disks = plain.few_disks;
      layout_low = plain.layout_low;
    } in
    let (raid, p) = running_conf k v.d1 sb v.r v.ran v.ok in
    (
      v.level,
      v.chunk,
      above,
      below,
      (analyze_sbs-IsSound k d.system s once analyzed).1,
      v.runs,
      record {
        r = v.r;
        started = v.started;
        raid = raid;
        private = p;
        serves =
            jraid5_run-serves k.allocates v.d1.system.calls v.d1.system.rdevs
              v.d1.system.array.disks v.d1.system.array.nb_dev sb v.r raid bi forwrite usual v.ran p
              low;
      },
    )
