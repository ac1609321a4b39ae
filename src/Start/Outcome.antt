-- ===== src/Start/Outcome.antt =====
-- The stages of a start, one by one.
use jraid.Common.{
  ℕ, suc, ◌+◌, ◌^◌, ◌<◌, ◌≡◌, ◌⊎◌, inl, inr, Bool, true, false, ◌&&◌, not, Option, none, some, List,
  ◌==◌, leb, arith, refl, >>=-eq-some, if-true, if-false, map-eq-some, sub32, leb→lt, Bool-cases,
  some_inj, none≢some, sym, ap, ◌∙◌, subst,
}
use jraid.Stripe.{Conf}
use jraid.Grow.{grow_stripes}
use jraid.Superblock.{Disk, Superblock, has_bit, md_sb_clean}
use jraid.Errno.{eio}
use jraid.Member.{Rdev}
use jraid.Start.{
  DiskInfo, Attached, attach_all, fill_failed, sync_descs, nr_stripes, Raid, Started, new_cache,
  refuses, settled, end_start, finish_start, start_threads, jraid5_run, registers, aborted,
  after_attach, start_disks, unattached,
}

-- `conf` is given up: the result is -EIO, and stripes are left only with the thread.
pub record IsAborted (r : Started) : Type 0 where
  pub failed : r.result ≡ eio
  pub no_conf : r.private ≡ none
  pub left : (r.left ≡ none) ⊎ (r.jraid5d ≡ true)

-- The array runs: its stripes were all allocated, and the sync bits set.
pub record IsRunning (ok : ℕ → Bool) (n nb_dev working_disks : ℕ) (slots : List DiskInfo)
    (sb : Superblock) (r : Started) : Type 0 where
  pub raid : Raid
  pub private : r.private ≡ some raid
  pub succeeded : r.result ≡ 0
  pub thread : r.jraid5d ≡ true
  pub kept : r.left ≡ none
  pub low : sb.raid_disks < 2 ^ 31
  pub grown : (grow_stripes ok n nr_stripes (new_cache sb slots)).done ≡ true
  pub cache :
      raid.cache
      ≡ record ((grow_stripes ok n nr_stripes (new_cache sb slots)).conf) { thread_woken = true }
  pub disks : raid.disks ≡ slots
  pub working : raid.working_disks ≡ working_disks
  pub members : raid.jraid_disks ≡ nb_dev
  pub synced : sync_descs sb.raid_disks slots sb.disks ≡ some r.sb.disks
  pub active : r.sb.active_disks ≡ working_disks
  pub events_lo : r.sb.events_lo ≡ sb.events_lo
  pub events_hi : r.sb.events_hi ≡ sb.events_hi
  pub resync : raid.resync_parity ≡ (working_disks == sb.raid_disks)
  pub recovery : r.recovering ≡ not (working_disks == sb.raid_disks)

-- What `end_start` comes to.
record Ended (working_disks : ℕ) (raid0 : Raid) (sb : Superblock) (r : Started) : Type 0 where
  private :
      r.private
      ≡ some (record raid0 {
        cache = record (raid0.cache) { thread_woken = true };
        resync_parity =
            not (not (working_disks == sb.raid_disks)) && not (has_bit sb.state md_sb_clean);
      })
  succeeded : r.result ≡ 0
  thread : r.jraid5d ≡ true
  kept : r.left ≡ none
  super : r.sb ≡ sb
  recovery : r.recovering ≡ not (working_disks == sb.raid_disks)

end_start-outcome :
    (ok : ℕ → Bool) (n working_disks : ℕ) (raid : Raid) (sb : Superblock)
    → let r = end_start ok n working_disks raid sb in IsAborted r ⊎ Ended working_disks raid sb r
unfolding end_start
end_start-outcome ok n working_disks raid sb =
    let resync : Bool =
      not (not (working_disks == sb.raid_disks)) && not (has_bit sb.state md_sb_clean) in
    elim (Bool-cases (resync && not (registers ok n))) [
      | inl e ↦ rw e (inl (record { failed = refl; no_conf = refl; left = inr refl }))
      | inr e ↦ rw e (
          inr (record {
            private = refl;
            succeeded = refl;
            thread = refl;
            kept = refl;
            super = refl;
            recovery = refl;
          }))
    ]

finish_start-outcome :
    (ok : ℕ → Bool) (n working_disks : ℕ) (raid : Raid) (sb : Superblock) (r : Started)
    → finish_start ok n working_disks raid sb ≡ some r
    → IsAborted r
      ⊎ ((descs : List Disk) × (sync_descs sb.raid_disks raid.disks sb.disks ≡ some descs)
          × Ended working_disks raid (record sb { disks = descs; active_disks = working_disks }) r)
unfolding finish_start
finish_start-outcome ok n working_disks raid sb r h =
    let (descs, e, f) = >>=-eq-some (sync_descs sb.raid_disks raid.disks sb.disks) _ h in
    let sb1 = record sb { disks = descs; active_disks = working_disks } in
    elim (subst (λ t. IsAborted t ⊎ Ended working_disks raid sb1 t) (some_inj f)
      (end_start-outcome ok n working_disks raid sb1)) [ inl a ↦ inl a | inr b ↦ inr (descs, e, b) ]

settled_same :
    (working_disks : ℕ) (sb : Superblock)
    → let s = settled working_disks sb in
      (s.raid_disks ≡ sb.raid_disks)
      × (s.disks ≡ sb.disks)
      × ((not (not (working_disks == s.raid_disks)) && not (has_bit s.state md_sb_clean))
          ≡ (working_disks == sb.raid_disks))
      × (s.events_lo ≡ sb.events_lo)
      × (s.events_hi ≡ sb.events_hi)
unfolding settled
settled_same working_disks sb = ground arith

module _ (ok : ℕ → Bool) (n nb_dev working_disks : ℕ) (slots : List DiskInfo)
    (sb : Superblock) where
  abbrev grown_raid : Raid
  grown_raid = record {
    cache = (grow_stripes ok n nr_stripes (new_cache sb slots)).conf;
    disks = slots;
    working_disks = working_disks;
    failed_disks = sub32 sb.raid_disks working_disks;
    jraid_disks = nb_dev;
    resync_parity = false;
  }

  grown-outcome :
      (r : Started)
      → sb.raid_disks < 2 ^ 31
      → (grow_stripes ok n nr_stripes (new_cache sb slots)).done ≡ true
      → finish_start ok
          (grow_stripes ok n nr_stripes (new_cache sb slots)).next
          working_disks
          grown_raid
          (settled working_disks sb)
        ≡ some r
      → IsAborted r ⊎ IsRunning ok n nb_dev working_disks slots sb r
  grown-outcome r low g h =
      let (same, descs_same, dirty, lo, hi) = settled_same working_disks sb in
      elim (finish_start-outcome ok _ working_disks grown_raid (settled working_disks sb) r h) [
        | inl a ↦ inl a
        | inr (descs, e, b) ↦ inr (record {
          raid = record grown_raid {
            cache = record (grown_raid.cache) { thread_woken = true };
            resync_parity = working_disks == sb.raid_disks;
          };
          private =
              b.private
              ∙ ap
                  (λ p. some (record grown_raid {
                    cache = record (grown_raid.cache) { thread_woken = true };
                    resync_parity = p;
                  }))
                  dirty;
          succeeded = b.succeeded;
          thread = b.thread;
          kept = b.kept;
          low = low;
          grown = g;
          cache = refl;
          disks = refl;
          working = refl;
          members = refl;
          synced =
              ap (λ k. sync_descs k slots sb.disks) (sym same)
              ∙ ap (λ ds. sync_descs (settled working_disks sb).raid_disks slots ds)
                  (sym descs_same)
              ∙ e
              ∙ ap (λ t. some t.disks) (sym b.super);
          active = ap (λ t. t.active_disks) b.super;
          events_lo = ap (λ t. t.events_lo) b.super ∙ lo;
          events_hi = ap (λ t. t.events_hi) b.super ∙ hi;
          resync = refl;
          recovery = b.recovery ∙ ap (λ k. not (working_disks == k)) same;
        })
      ]

abort-outcome :
    (sb : Superblock) (n : ℕ) (jraid5d : Bool) (left : Option Conf) (r : Started)
    → (left ≡ none) ⊎ (jraid5d ≡ true)
    → some (aborted sb n jraid5d left) ≡ some r
    → IsAborted r
abort-outcome sb n jraid5d left r l h =
    subst IsAborted (some_inj h) (record { failed = refl; no_conf = refl; left = l })

start_threads-outcome :
    (ok : ℕ → Bool) (n nb_dev working_disks : ℕ) (slots : List DiskInfo) (sb : Superblock)
    (r : Started)
    → start_threads ok n nb_dev working_disks slots sb ≡ some r
    → IsAborted r ⊎ IsRunning ok (n + 2) nb_dev working_disks slots sb r
unfolding start_threads
start_threads-outcome ok n nb_dev working_disks slots sb r = elim (Bool-cases (registers ok n)) [
  | inr e ↦ rw e (λ h. inl (abort-outcome _ _ _ _ r (inl refl) h))
  | inl e ↦ elim (Bool-cases (leb (2 ^ 31) sb.raid_disks)) [
    | inl f ↦ rw (e, f) (λ h. absurd (none≢some h))
    | inr f ↦ elim (Bool-cases ((grow_stripes ok (n + 2) nr_stripes (new_cache sb slots)).done)) [
      | inl g ↦
          rw (e, f, g) (grown-outcome ok (n + 2) nb_dev working_disks slots sb r (leb→lt _ _ f) g)
      | inr g ↦
          rw (e, f, g)
            (λ h.
              let (_, _, i) = map-eq-some _ _ h in
              inl (subst IsAborted i (record { failed = refl; no_conf = refl; left = inr refl })))
    ]
  ]
]

-- What the loops over the disks come to when the array runs: each stage, with what it handed on.
pub record HasStarted (ok : ℕ → Bool) (n : ℕ) (rdevs : ℕ → Rdev) (ids : List ℕ) (nb_dev : ℕ)
    (sb : Superblock) (r : Started) : Type 0 where
  pub a : Attached
  pub slots : List DiskInfo
  pub attached : attach_all sb.raid_disks rdevs (unattached sb) ids ≡ some (a, false)
  pub filled : fill_failed sb.raid_disks a.slots a.descs ≡ some slots
  pub accepted : refuses a.working_disks sb ≡ false
  pub run : IsRunning ok (n + 2) nb_dev a.working_disks slots (record sb { disks = a.descs }) r

after_attach-outcome :
    (ok : ℕ → Bool) (n : ℕ) (rdevs : ℕ → Rdev) (ids : List ℕ) (nb_dev : ℕ) (sb : Superblock)
    (r : Started) (a : Attached) (abort : Bool)
    → attach_all sb.raid_disks rdevs (unattached sb) ids ≡ some (a, abort)
    → after_attach ok n nb_dev sb a abort ≡ some r
    → IsAborted r ⊎ HasStarted ok n rdevs ids nb_dev sb r
unfolding after_attach
after_attach-outcome ok n rdevs ids nb_dev sb r a true e h =
    inl (abort-outcome _ _ _ _ r (inl refl) h)
after_attach-outcome ok n rdevs ids nb_dev sb r a false e h =
    let (slots, f, h1) = >>=-eq-some (fill_failed sb.raid_disks a.slots a.descs) _ h in
    elim (Bool-cases (refuses a.working_disks sb)) [
      | inl g ↦ inl (abort-outcome _ _ _ _ r (inl refl) (if-true _ _ g h1))
      | inr g ↦
          elim (start_threads-outcome ok n nb_dev a.working_disks slots
            (record sb { disks = a.descs }) r (if-false _ _ g h1)) [
              | inl i ↦ inl i
              | inr i ↦
                  inr (record {
                    a = a;
                    slots = slots;
                    attached = e;
                    filled = f;
                    accepted = g;
                    run = i;
                  })
            ]
    ]

start_disks-outcome :
    (ok : ℕ → Bool) (n : ℕ) (rdevs : ℕ → Rdev) (ids : List ℕ) (nb_dev : ℕ) (sb : Superblock)
    (r : Started)
    → start_disks ok n rdevs ids nb_dev sb ≡ some r
    → IsAborted r ⊎ HasStarted ok n rdevs ids nb_dev sb r
unfolding start_disks
start_disks-outcome ok n rdevs ids nb_dev sb r h =
    let ((a, abort), e, h1) =
      >>=-eq-some (attach_all sb.raid_disks rdevs (unattached sb) ids) _ h in
    after_attach-outcome ok n rdevs ids nb_dev sb r a abort e h1

-- `jraid5_run` fails with -EIO, `private` is NULL and a cache is left only with the thread, or it
-- succeeds, and each of its stages did.
pub jraid5_run-outcome :
    (ok : ℕ → Bool) (n : ℕ) (rdevs : ℕ → Rdev) (ids : List ℕ) (nb_dev : ℕ) (sb : Superblock)
    (r : Started)
    → jraid5_run ok n rdevs ids nb_dev sb ≡ some r
    → IsAborted r ⊎ HasStarted ok (n + 2) rdevs ids nb_dev sb r
unfolding jraid5_run
jraid5_run-outcome ok n rdevs ids nb_dev sb r =
    elim (Bool-cases (not (sb.level == 5) && not (sb.level == 4))) [
      | inl e ↦ rw e (λ h. inl (abort-outcome _ _ _ _ r (inl refl) h))
      | inr e ↦ elim (Bool-cases (ok n)) [
        | inr f ↦ rw (e, f) (λ h. inl (abort-outcome _ _ _ _ r (inl refl) h))
        | inl f ↦ elim (Bool-cases (ok (suc n))) [
          | inr g ↦ rw (e, f, g) (λ h. inl (abort-outcome _ _ _ _ r (inl refl) h))
          | inl g ↦ rw (e, f, g) (start_disks-outcome ok (n + 2) rdevs ids nb_dev sb r)
        ]
      ]
    ]
