-- ===== src/Start/Serving.antt =====
-- The cache after a start that succeeded, on a good layout, and its first request.
use jraid.Common.{
  ℕ, ◌+◌, ◌^◌, ◌≤◌, ◌<◌, ◌≡◌, Bool, true, some, List, [], ◌∷◌, arith, refl, sym, ap, ◌∙◌, subst,
  length,
}
use jraid.Geometry.Bounds.{IsGood}
use jraid.Stripe.{Bio, Conf}
use jraid.Cache.Invariant.{Inv}
use jraid.Handle.{Request}
use jraid.Request.{make_request, served}
use jraid.Request.Total.{IsReady, make_request_total}
use jraid.Grow.{grow_stripes}
use jraid.Grow.Stripe.{IsPaged}
use jraid.Grow.Ready.{grow_stripes-IsReady}
use jraid.Superblock.{Superblock}
use jraid.Member.{Rdev}
use jraid.Start.{DiskInfo, Raid, Started, new_cache, nr_stripes, jraid5_run, refuses}
use jraid.Start.Running.{started-only}

-- The cache without stripes is well formed.
pub new_cache-IsReady :
    (sb : Superblock) (slots : List DiskInfo)
    → IsGood ((new_cache sb slots).layout)
    → IsReady (new_cache sb slots)
new_cache-IsReady sb slots g = record {
  inv = record {
    place = λ s. ground arith;
    idle = λ s. ground arith;
    work = λ s. ground arith;
    active = ground arith;
    counted = λ s. ground arith;
    chained = λ s b. ground arith;
    distinct = λ s t. ground arith;
    owned = λ s. ground arith;
    few = omega arith;
  };
  good = g;
  idle = λ s h. absurd (omega arith);
  built = λ s h. absurd (omega arith);
  room = λ s. omega arith;
}

-- Waking the thread is nothing to the cache.
woken-IsReady : (c : Conf) → IsReady c → IsReady (record c { thread_woken = true })
woken-IsReady c r = record {
  inv = record {
    place = r.inv.place;
    idle = r.inv.idle;
    work = r.inv.work;
    active = r.inv.active;
    counted = r.inv.counted;
    chained = r.inv.chained;
    distinct = r.inv.distinct;
    owned = r.inv.owned;
    few = r.inv.few;
  };
  good = r.good;
  idle = r.idle;
  built = r.built;
  room = r.room;
}

-- What the kernel part relies on of a superblock: chunks of a sector at least, two disks at least.
pub record IsUsual (sb : Superblock) : Type 0 where
  pub chunk_low : 512 ≤ sb.chunk_size
  pub chunk_high : sb.chunk_size < 2 ^ 31
  pub two_disks : 2 ≤ sb.raid_disks
  pub few_disks : sb.raid_disks ≤ 27
  pub layout_low : sb.layout < 2 ^ 31

-- When `jraid5_run` succeeds on 2 to 27 raid disks, with chunks of 512 bytes to less than 2^31 and
-- a layout below 2^31, the cache can serve requests, with 1024 stripes, all of them inactive and
-- with their pages; the result is 0, and the thread is there and woken.
pub jraid5_run-IsReady :
    (ok : ℕ → Bool) (n : ℕ) (rdevs : ℕ → Rdev) (ids : List ℕ) (nb_dev : ℕ) (sb : Superblock)
    (r : Started) (raid : Raid)
    → IsUsual sb
    → jraid5_run ok n rdevs ids nb_dev sb ≡ some r
    → r.private ≡ some raid
    → IsReady raid.cache
      × IsPaged raid.cache
      × (raid.cache.nr_stripes ≡ 1024)
      × (length raid.cache.inactive_list ≡ 1024)
      × (raid.cache.thread_woken ≡ true)
      × (r.result ≡ 0)
      × (r.jraid5d ≡ true)
unfolding refuses
jraid5_run-IsReady ok n rdevs ids nb_dev sb r raid u h p =
    let (s, e) = started-only ok n rdevs ids nb_dev sb r raid h p in
    let sb1 : Superblock = record sb { disks = s.a.descs } in
    let good : IsGood ((new_cache sb1 s.slots).layout) = record {
      chunk_low = u.chunk_low;
      chunk_high = u.chunk_high;
      two_disks = u.two_disks;
      few_disks = u.few_disks;
      known = ground (arith, s.accepted, u.layout_low);
    } in
    let (ready, paged, done, _, listed) =
      grow_stripes-IsReady ok (n + 2 + 2) nr_stripes (new_cache sb1 s.slots)
        (new_cache-IsReady sb1 s.slots good) (λ i h. absurd (omega arith)) (omega arith)
        (omega arith) in
    let grown : Conf = (grow_stripes ok (n + 2 + 2) nr_stripes (new_cache sb1 s.slots)).conf in
    let cache : raid.cache ≡ record grown { thread_woken = true } =
      ap (λ t. t.cache) (sym e) ∙ s.run.cache in
    let all : grown.nr_stripes ≡ 1024 = ground (arith, done, s.run.grown) in
    (
      subst IsReady (sym cache) (woken-IsReady grown ready),
      subst IsPaged (sym cache) paged,
      ap (λ c. c.nr_stripes) cache ∙ all,
      ap (λ c. length c.inactive_list) cache ∙ omega (arith, listed, all),
      ap (λ c. c.thread_woken) cache,
      s.run.succeeded,
      s.run.thread,
    )

-- When `jraid5_run` succeeds on 2 to 27 raid disks, with chunks of 512 bytes to less than 2^31 and a
-- layout below 2^31, `jraid5_make_request` serves the first bio, for a sector below 2^64, with a
-- wait, if one is taken, that comes back to the same cache: no BUG() and no fault, the bio is ended,
-- and the cache is again well formed.
pub jraid5_run-serves :
    (ok : ℕ → Bool) (n : ℕ) (rdevs : ℕ → Rdev) (ids : List ℕ) (nb_dev : ℕ) (sb : Superblock)
    (r : Started) (raid : Raid) (bi : Bio) (forwrite : Bool)
    → IsUsual sb
    → jraid5_run ok n rdevs ids nb_dev sb ≡ some r
    → r.private ≡ some raid
    → bi.bi_sector < 2 ^ 64
    → (c' : Conf) × (requests : List Request) × (queued : Bool) × (make_request
          (raid.cache ∷ [])
          raid.cache
          bi
          forwrite
        ≡ served c' requests queued true)
      × Inv c'
jraid5_run-serves ok n rdevs ids nb_dev sb r raid bi forwrite u h p low =
    let (ready, _, _, listed, _, _, _) = jraid5_run-IsReady ok n rdevs ids nb_dev sb r raid u h p in
    let (_, _, _, c', requests, queued, _, _, called, done, inv) =
      make_request_total raid.cache raid.cache bi forwrite ready ready refl
        (λ none_left. absurd (omega (arith, listed, ap length none_left))) low in
    (c', requests, queued, called ∙ done, inv)
