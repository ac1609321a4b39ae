-- ===== src/Request/Examples.antt =====
-- Runs of requests and of the thread on small caches, and their theorems there.
use jraid.Common.{
  ℕ, ◌+◌, ◌≡◌, true, false, Bool, some, none, List, [], ◌∷◌, map, length, arith, refl, inl, inr,
  subst, sym, ◌∙◌, occ, ◌<◌,
}
use jraid.Stripe.{Bio, Dev, Conf}
use jraid.Cache.{
  init_stripe, get_active_stripe, get_active_stripe_round, find_stripe, walk, get_free_stripe,
  build_blocks, build_block, insert_hash, remove_hash, release_stripe,
}
use jraid.Cache.Invariant.{Inv}
use jraid.Bios.{insert_bio, add_bio, mark_overwrite, covered_to}
use jraid.Handle.{Request, handle_stripe, schedule, scan_dev, take_want}
use jraid.Handle.Plan.{bios}
use jraid.Request.{
  Outcome, blocked, fault, add_stripe_bio, served, serve, make_request, spinning, jraid5d,
}
use jraid.Request.Lifecycle.{complete, serve-balanced}
use jraid.Request.Total.{make_request_total}
use jraid.Request.Loss.{serve-refused, serve-stuck}
use jraid.Request.Thread.{WaitsForLost, jraid5d_spins}
use jraid.Request.Round.{FewDevices}
use jraid.Geometry.{Mapping, compute_sector, place, compute_blocknr, data_index}
use jraid.Samples.{
  layout, dev, fresh, fresh-IsReady, used, used-Inv, write_bio, writing, degraded, degraded-IsReady,
}

-- A read of the page that stripe 0 writes.
abbrev read_bio : Bio
read_bio = record { id = 8; bi_sector = 8; bi_size = 4096 }

-- The device that has the write.
abbrev writer : Dev
writer = record dev { towrite = write_bio ∷ []; sector = 8 }

serve-balanced_example :
    (c' : Conf) × (requests : List Request) × (queued : Bool) × (serve used 0 read_bio 1 false
      ≡ served c' requests queued true)
    × Inv c'
    × Inv (complete (length requests) c' 0)
    × (((complete (length requests) c' 0).stripes 0).count + 1 ≡ 1)
serve-balanced_example =
    serve-balanced used 0 1 read_bio false writer used-Inv refl (omega arith) (omega arith)

make_request_total_example :
    (m : Mapping) × (id : ℕ) × (held c' : Conf) × (requests : List Request) × (queued : Bool)
    × (compute_sector layout 8 4 3 0 ≡ some m)
    × ((held.stripes id).sector ≡ m.new_sector)
    × (make_request (fresh ∷ []) fresh write_bio true ≡ serve held id write_bio m.dd_idx true)
    × (serve held id write_bio m.dd_idx true ≡ served c' requests queued true)
    × Inv c'
make_request_total_example =
    make_request_total fresh fresh write_bio true fresh-IsReady fresh-IsReady refl (λ e. cc)
      (omega arith)

read_first : insert_bio read_bio [] ≡ some (read_bio ∷ [])
unfolding insert_bio
read_first = refl

serve-refused_example :
    (c' : Conf) × (serve used 0 write_bio 1 true ≡ served c' (handle_stripe used 0).1 false true)
    × (map bios (c'.stripes 0).devs ≡ map bios writing)
serve-refused_example =
    serve-refused used 0 1 write_bio true writer refl (omega arith, (omega arith, omega arith), tt)
      (omega arith, omega arith) (inl (omega arith, omega arith))

serve-stuck_example :
    (c' : Conf) × (requests : List Request) × (serve used 0 read_bio 1 false
      ≡ served c' requests true true)
    × (init_stripe (complete 1 c' 0) 0 16 3 ≡ none)
serve-stuck_example =
    serve-stuck used 0 1 read_bio false writer refl (read_bio ∷ []) 1 16 3 read_first

abbrev cache_of : Outcome → Conf
cache_of o = elim o [ served c _ _ _ ↦ c | blocked ↦ degraded | fault ↦ degraded ]

-- The cache of a degraded array after a write to the lost disk.
abbrev reached : Conf
reached = cache_of (make_request (degraded ∷ []) degraded write_bio true)

reached-Inv : Inv reached
reached-Inv =
    let (m, id, held, c', requests, queued, _, _, e, f, inv) =
      make_request_total degraded degraded write_bio true degraded-IsReady degraded-IsReady refl
        (λ e. cc) (omega arith) in
    subst (λ o. Inv (cache_of o)) (sym (e ∙ f)) inv

reached_listed : 0 < occ 0 reached.handle_list
unfolding make_request compute_sector place get_active_stripe get_active_stripe_round find_stripe
    walk get_free_stripe init_stripe build_blocks build_block insert_hash remove_hash serve
    add_stripe_bio add_bio insert_bio handle_stripe schedule scan_dev take_want release_stripe
    compute_blocknr data_index mark_overwrite covered_to
reached_listed = omega arith

reached_lost : WaitsForLost reached.jrdev 0 (reached.stripes 0).devs
unfolding make_request compute_sector place get_active_stripe get_active_stripe_round find_stripe
    walk get_free_stripe init_stripe build_blocks build_block insert_hash remove_hash serve
    add_stripe_bio add_bio insert_bio handle_stripe schedule scan_dev take_want release_stripe
    compute_blocknr data_index mark_overwrite covered_to
reached_lost = (
  inl refl,
  (
    inr (refl, refl, refl, refl),
    (inr (refl, refl, refl, refl), (inr (refl, refl, refl, refl), tt)),
  ),
)

reached-FewDevices : FewDevices reached
unfolding make_request compute_sector place get_active_stripe get_active_stripe_round find_stripe
    walk get_free_stripe init_stripe build_blocks build_block insert_hash remove_hash serve
    add_stripe_bio add_bio insert_bio handle_stripe schedule scan_dev take_want release_stripe
    compute_blocknr data_index mark_overwrite covered_to
reached-FewDevices s = ground arith

jraid5d_spins_example : (c' : Conf) × (jraid5d 1000 reached ≡ spinning c')
jraid5d_spins_example =
    jraid5d_spins 1000 reached 0 reached-Inv reached-FewDevices reached_listed reached_lost
