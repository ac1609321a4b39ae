-- ===== src/Start/Stopping.antt =====
-- The end of an array, `jraid5_exit` of src/jraid5.c.
use mathlib.Core.Option
use jraid.Common.{
  ℕ, ◌+◌, ◌≤◌, ◌<◌, ◌≡◌, Bool, Option, none, some, List, [], ◌∷◌, arith, refl, sym, ap, ◌∙◌, subst,
  occ, length, length-append, inl, inr,
}
use jraid.Stripe.{Conf}
use jraid.Grow.{shrink_stripes}
use jraid.Grow.Ready.{grow_stripes-layout}
use jraid.Grow.Shrink.{NoPages, shrink_stripes-Shrunk, IsReady-IsIdleList}
use jraid.Superblock.{Superblock}
use jraid.Member.{Rdev}
use jraid.Start.{Raid, Started, nr_stripes, new_cache, jraid5_run}
use jraid.Start.Running.{started-only}
use jraid.Start.Serving.{IsUsual, jraid5_run-IsReady}

-- `jraid5_exit`, for `jmddev->private`: the cache that is left, and the stripes that were freed. The
-- threads are stopped before, and the hash table and `conf` freed after, which is left out, as is the
-- call of `unregister_jmd_personality`.
unfoldable pub jraid5_exit : Option Raid → Option (Option (Conf × List ℕ))
jraid5_exit none = some none
jraid5_exit (some raid) = Option.map some (shrink_stripes raid.jraid_disks nr_stripes raid.cache)

empty_list : (l : List ℕ) → length l ≡ 0 → l ≡ []
empty_list [] h = refl
empty_list (x ∷ xs) h = absurd (omega (arith, h))

-- On an array that `jraid5_run` has started, with 2 to 27 raid disks, no more members than these,
-- chunks of 512 bytes to less than 2^31 and a layout below 2^31, and whose stripes are all inactive
-- still, `jraid5_exit` makes no access behind a stripe's devices. It frees 1024 stripes, which are
-- all there are, each with the pages of as many devices as there were members at the start.
pub jraid5_exit-frees :
    (ok : ℕ → Bool) (n : ℕ) (rdevs : ℕ → Rdev) (ids : List ℕ) (nb_dev : ℕ) (sb : Superblock)
    (r : Started) (raid : Raid)
    → IsUsual sb
    → nb_dev ≤ sb.raid_disks
    → jraid5_run ok n rdevs ids nb_dev sb ≡ some r
    → r.private ≡ some raid
    → (c' : Conf) × (freed : List ℕ) × (jraid5_exit r.private ≡ some (some (c', freed)))
      × (length freed ≡ 1024)
      × (c'.inactive_list ≡ [])
      × ((s : ℕ) → 0 < occ s freed → NoPages nb_dev (c'.stripes s).devs)
unfolding jraid5_exit
jraid5_exit-frees ok n rdevs ids nb_dev sb r raid u few h p =
    let (ready, _, _, listed, _, _, _) = jraid5_run-IsReady ok n rdevs ids nb_dev sb r raid u h p in
    let (s, e) = started-only ok n rdevs ids nb_dev sb r raid h p in
    let members : raid.jraid_disks ≡ nb_dev = ap (λ t. t.jraid_disks) (sym e) ∙ s.run.members in
    let cache = ap (λ t. t.cache) (sym e) ∙ s.run.cache in
    let wide : raid.cache.layout.raid_disks ≡ sb.raid_disks =
      ap (λ c. c.layout.raid_disks) cache
      ∙ ap (λ l. l.raid_disks)
          (grow_stripes-layout ok (n + 2 + 2) nr_stripes
            (new_cache (record sb { disks = s.a.descs }) s.slots)) in
    let (c', freed, done, shrunk) =
      shrink_stripes-Shrunk raid.jraid_disks nr_stripes raid.cache (
        IsReady-IsIdleList raid.jraid_disks raid.cache ready (omega (arith, members, wide, few))) in
    let split = ap length shrunk.list ∙ length-append freed c'.inactive_list in
    (
      c',
      freed,
      ap jraid5_exit p ∙ ap (Option.map some) done,
      elim shrunk.count [
        | inl all ↦ all
        | inr (_, empty) ↦ omega (arith, split, listed, ap length empty)
      ],
      elim shrunk.count [
        | inl all ↦ empty_list c'.inactive_list (omega (arith, split, listed, all))
        | inr (_, empty) ↦ empty
      ],
      λ i l. subst (λ k. NoPages k (c'.stripes i).devs) members (shrunk.gone i l),
    )
