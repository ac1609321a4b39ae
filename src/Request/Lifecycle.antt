-- ===== src/Request/Lifecycle.antt =====
-- A request of the array from the hand-out of its stripe to the last completion.
use jraid.Common.{
  ℕ, zero, suc, ◌+◌, ◌^◌, ◌≤◌, ◌<◌, ◌≡◌, Bool, true, some, List, length, arith, get_elem?, ==_refl,
}
use jraid.Stripe.{Bio, Dev, Conf}
use jraid.Cache.{release_stripe, put_stripe}
use jraid.Cache.Invariant.{Inv}
use jraid.Cache.Release.{release_stripe-Inv, count-release_stripe}
use jraid.Bios.{add_bio}
use jraid.Handle.{Request, handle_stripe, modify_at}
use jraid.Handle.Plan.{handle_stripe-Inv, count-handle_stripe, length-requests, length-modify_at}
use jraid.Request.{served, end_request, add_stripe_bio, serve}

-- The completions of `n` requests of a stripe.
unfoldable pub complete : ℕ → Conf → ℕ → Conf
complete zero c id = c
complete (suc n) c id = complete n (end_request c id) id

complete-Inv :
    (n : ℕ) (c : Conf) (id : ℕ)
    → Inv c
    → n ≤ (c.stripes id).count
    → Inv (complete n c id) × (((complete n c id).stripes id).count + n ≡ (c.stripes id).count)
unfolding complete end_request
complete-Inv zero c id v h = (v, omega arith)
complete-Inv (suc n) c id v h =
    let fewer = count-release_stripe c id v (omega arith) in
    let (v', e) =
      complete-Inv n (release_stripe c id) id (release_stripe-Inv c id v (omega arith))
        (omega (arith, fewer)) in
    (v', omega (arith, e, fewer))

-- A stripe head whose devices alone changed.
abbrev with_devs : Conf → ℕ → List Dev → Conf
with_devs c id devs = put_stripe c id (record (c.stripes id) { devs = devs })

with_devs-Inv : (c : Conf) (id : ℕ) (devs : List Dev) → Inv c → Inv (with_devs c id devs)
with_devs-Inv c id devs v = record {
  place = λ s. ground (arith, v.place s);
  idle = λ s. ground (arith, v.idle s);
  work = λ s. ground (arith, v.work s);
  active = v.active;
  counted = λ s. ground (arith, v.counted s);
  chained = λ s b. ground (arith, v.chained s b);
  distinct = λ s t. ground (arith, v.distinct s t);
  owned = λ s. ground (arith, v.owned s);
  few = v.few;
}

-- The device `dd` after the bio was offered to it.
unfoldable pub offered : Conf → ℕ → Bio → ℕ → Bool → Dev → Conf
offered c id bi dd forwrite d =
    with_devs c id (modify_at dd (λ _. (add_bio d bi forwrite).1) (c.stripes id).devs)

module _ (c : Conf) (id dd : ℕ) (bi : Bio) (forwrite : Bool) (d : Dev)
    (dev : get_elem? (c.stripes id).devs dd ≡ some d) where
  pub serve_eq :
      let (c', requests) = handle_stripe (offered c id bi dd forwrite d) id in
      serve c id bi dd forwrite
      ≡ served (release_stripe c' id) requests (add_bio d bi forwrite).0 true
  unfolding serve add_stripe_bio offered
  serve_eq = rw (dev, serve, add_stripe_bio)

module _ (c : Conf) (id dd : ℕ) (bi : Bio) (forwrite : Bool) (d : Dev) (v : Inv c)
    (dev : get_elem? (c.stripes id).devs dd ≡ some d) (held : 0 < (c.stripes id).count)
    (room : (c.stripes id).count + length (c.stripes id).devs < 2 ^ 32) where
  length-offered :
      length ((offered c id bi dd forwrite d).stripes id).devs ≡ length (c.stripes id).devs
  unfolding offered
  length-offered = rw (==_refl id) (length-modify_at dd _ (c.stripes id).devs)

  -- Serving a request on a device of a held stripe, whose count has room for a request to each
  -- device, keeps the cache well formed. Once each of the requests to the disks is complete, the
  -- cache is well formed still and the stripe has one user less than when it was handed out: no
  -- hold is lost or left.
  pub serve-balanced :
      (c' : Conf) × (requests : List Request) × (queued : Bool) × (serve c id bi dd forwrite
        ≡ served c' requests queued true)
      × Inv c'
      × Inv (complete (length requests) c' id)
      × (((complete (length requests) c' id).stripes id).count + 1 ≡ (c.stripes id).count)
  unfolding offered
  serve-balanced =
      let o : Conf = offered c id bi dd forwrite d in
      let h : Conf = (handle_stripe o id).0 in
      let reqs : List Request = (handle_stripe o id).1 in
      let vo : Inv o = with_devs-Inv c id _ v in
      let same : (o.stripes id).count ≡ (c.stripes id).count = ground arith in
      let many : length reqs ≤ length (c.stripes id).devs =
        omega (arith, length-requests o id, length-offered) in
      let fits : (o.stripes id).count + length reqs < 2 ^ 32 = omega (arith, same, many) in
      let held' : 0 < (o.stripes id).count = omega (arith, same) in
      let vh : Inv h = handle_stripe-Inv o id vo held' fits in
      let users = count-handle_stripe o id vo held' fits in
      let vr : Inv (release_stripe h id) = release_stripe-Inv h id vh (omega (arith, users)) in
      let fewer = count-release_stripe h id vh (omega (arith, users)) in
      let (vc, e) =
        complete-Inv (length reqs) (release_stripe h id) id vr (omega (arith, users, fewer)) in
      (
        release_stripe h id,
        reqs,
        (add_bio d bi forwrite).0,
        serve_eq c id dd bi forwrite d dev,
        vr,
        vc,
        omega (arith, e, fewer, users, same),
      )
