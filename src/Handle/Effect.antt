-- ===== src/Handle/Effect.antt =====
-- What `handle_stripe` changes in the cache: the count of its stripe, and STRIPE_HANDLE.
use jraid.Common.{
  ℕ, suc, ◌+◌, ◌^◌, ◌<◌, ◌≤◌, ◌≡◌, ◌≢◌, Bool, false, ◌||◌, ◌&&◌, not, Option, List, [], ◌∷◌, map,
  length, arith, refl, ap, ◌∙◌, ==_refl,
}
use jraid.Stripe.{Dev, Conf}
use jraid.Cache.Invariant.{Inv}
use jraid.Member.{is_some}
use jraid.Handle.{scan_dev, mark_parity, modify_at, take_want, schedule, handle_stripe}
use jraid.Handle.Plan.{
  due, wants, wants-mark_parity, wants-scan_dev, AllCalm, handle_stripe-Inv, count-handle_stripe,
  length-requests,
}

-- A device is due a request and has no disk.
abbrev pub lacks : (ℕ → Option ℕ) → ℕ → List (Option Bool) → Bool
lacks jrdev i [] = false
lacks jrdev i (w ∷ ws) = (is_some w && not (is_some (jrdev i))) || lacks jrdev (suc i) ws

schedule-lacks :
    (jrdev : ℕ → Option ℕ) (sector i : ℕ) (ds : List Dev)
    → (schedule jrdev sector i ds).lacking ≡ lacks jrdev i (map wants ds)
unfolding schedule take_want
schedule-lacks jrdev sector i [] = refl
schedule-lacks jrdev sector i (d ∷ ds) = ground (arith, schedule-lacks jrdev sector (suc i) ds)

handle-lacks :
    (c : Conf) (id : ℕ)
    → AllCalm (c.stripes id).devs
    → ((handle_stripe c id).0.stripes id).handle
      ≡ ((c.stripes id).handle || lacks c.jrdev 0 (map due (c.stripes id).devs))
unfolding handle_stripe
handle-lacks c id calm =
    let sh = c.stripes id in
    rw (handle_stripe, ==_refl id)
      (ap (λ b. sh.handle || b)
        (schedule-lacks c.jrdev sh.sector 0 (modify_at sh.pd_idx mark_parity (map scan_dev sh.devs))
          ∙ ap (lacks c.jrdev 0)
              (wants-mark_parity sh.pd_idx (map scan_dev sh.devs) ∙ wants-scan_dev sh.devs calm)))

handle-other : (c : Conf) (id t : ℕ) → t ≢ id → (handle_stripe c id).0.stripes t ≡ c.stripes t
unfolding handle_stripe
handle-other c id t ne = ground arith

-- In a well formed cache, on a stripe with a user, a count that has room for the requests, and
-- devices without wants left over, `handle_stripe` keeps the cache well formed. It holds the stripe
-- once more for each request, of which there is at most one for each device; it sets STRIPE_HANDLE
-- exactly if a device that has a bio waiting has no disk, and never clears it; and it changes no
-- other stripe.
pub handle_stripe_effect :
    (c : Conf) (id : ℕ)
    → Inv c
    → 0 < (c.stripes id).count
    → (c.stripes id).count + length (handle_stripe c id).1 < 2 ^ 32
    → AllCalm (c.stripes id).devs
    → let (c', requests) = handle_stripe c id in
      Inv c'
      × ((c'.stripes id).count ≡ (c.stripes id).count + length requests)
      × (length requests ≤ length (c.stripes id).devs)
      × ((c'.stripes id).handle
          ≡ ((c.stripes id).handle || lacks c.jrdev 0 (map due (c.stripes id).devs)))
      × ((t : ℕ) → t ≢ id → c'.stripes t ≡ c.stripes t)
handle_stripe_effect c id v held room calm = (
  handle_stripe-Inv c id v held room,
  count-handle_stripe c id v held room,
  length-requests c id,
  handle-lacks c id calm,
  handle-other c id,
)
