-- ===== src/Handle/Plan.antt =====
-- `handle_stripe` against a direct account of what it has to submit, and what it leaves alone.
use jraid.Common.{
  ℕ, zero, suc, ◌+◌, ◌^◌, ◌<◌, ◌≡◌, Bool, true, false, Option, none, some, List, [], ◌∷◌, ◌++◌, map,
  length, length-append, ◌≤◌, if◌then◌else◌, arith, refl, ap, ◌∙◌, ==_refl, sym, some_inj,
  get_elem?,
}
use jraid.Stripe.{Bio, Dev, Conf, stripe_size}
use jraid.Cache.{is_null}
use jraid.Cache.Invariant.{Inv}
use jraid.Handle.{Request, scan_dev, mark_parity, modify_at, take_want, schedule, handle_stripe}

-- What a device is due: a write if a write waits, else a read if a read waits.
abbrev pub due : Dev → Option Bool
due d = if is_null d.towrite then (if is_null d.toread then none else some false) else some true

-- One request for each device that is due one and has a disk, the last device first.
abbrev pub planned : (ℕ → Option ℕ) → ℕ → ℕ → List (Option Bool) → List Request
planned jrdev sector i [] = []
planned jrdev sector i (none ∷ ws) = planned jrdev sector (suc i) ws
planned jrdev sector i (some w ∷ ws) = elim (jrdev i) [
  | none ↦ planned jrdev sector (suc i) ws
  | some b ↦
      planned jrdev sector (suc i) ws
      ++ (record { disk = i; bdev = b; write = w; bi_sector = sector; bi_size = stripe_size } ∷ [])
]

-- No device has a want left over from an earlier round.
abbrev pub AllCalm : List Dev → Type 0
AllCalm [] = Unit {0}
AllCalm (d ∷ ds) = (d.flags.wantread ≡ false) × (d.flags.wantwrite ≡ false) × AllCalm ds

abbrev pub wants : Dev → Option Bool
wants d = if d.flags.wantwrite then some true else if d.flags.wantread then some false else none

schedule-planned :
    (jrdev : ℕ → Option ℕ) (sector i : ℕ) (ds : List Dev)
    → (schedule jrdev sector i ds).requests ≡ planned jrdev sector i (map wants ds)
unfolding schedule take_want
schedule-planned jrdev sector i [] = refl
schedule-planned jrdev sector i (d ∷ ds) = ground (arith, schedule-planned jrdev sector (suc i) ds)

pub wants-mark_parity :
    (p : ℕ) (ds : List Dev) → map wants (modify_at p mark_parity ds) ≡ map wants ds
wants-mark_parity p [] = refl
wants-mark_parity zero (d ∷ ds) = refl
wants-mark_parity (suc p) (d ∷ ds) = ap (λ t. wants d ∷ t) (wants-mark_parity p ds)

pub wants-scan_dev : (ds : List Dev) → AllCalm ds → map wants (map scan_dev ds) ≡ map due ds
unfolding scan_dev
wants-scan_dev [] h = refl
wants-scan_dev (d ∷ ds) h = ground (arith, wants-scan_dev ds h.2)

-- `handle_stripe`, on devices without wants left over, submits one request for each device that
-- has a bio waiting and a disk, from the last device to the first: a page at the stripe's sector,
-- a write where a write waits and a read otherwise.
pub handle_stripe-planned :
    (c : Conf) (id : ℕ)
    → AllCalm (c.stripes id).devs
    → (handle_stripe c id).1 ≡ planned c.jrdev (c.stripes id).sector 0 (map due (c.stripes id).devs)
unfolding handle_stripe
handle_stripe-planned c id h =
    let sh = c.stripes id in
    schedule-planned c.jrdev sh.sector 0 (modify_at sh.pd_idx mark_parity (map scan_dev sh.devs))
    ∙ ap (planned c.jrdev sh.sector 0)
        (wants-mark_parity sh.pd_idx (map scan_dev sh.devs) ∙ wants-scan_dev sh.devs h)

-- A device that is given the same bios and wants gets the same request.
module _ (d d' : Dev) (same : (d'.toread ≡ d.toread) × (d'.towrite ≡ d.towrite))
    (wanted : (d'.flags.wantread ≡ d.flags.wantread)
      × (d'.flags.wantwrite ≡ d.flags.wantwrite)) where
  wants-same : wants (scan_dev d') ≡ wants (scan_dev d)
  unfolding scan_dev
  wants-same = rw (same.0, same.1) (ground (arith, wanted.0, wanted.1))

  wants-modify_at :
      (i : ℕ) (ds : List Dev)
      → get_elem? ds i ≡ some d
      → map wants (map scan_dev (modify_at i (λ _. d') ds)) ≡ map wants (map scan_dev ds)
  wants-modify_at i [] h = refl
  wants-modify_at zero (x ∷ ds) h =
      ap (λ w. w ∷ map wants (map scan_dev ds))
        (wants-same ∙ ap (λ t. wants (scan_dev t)) (sym (some_inj h)))
  wants-modify_at (suc i) (x ∷ ds) h = ap (λ t. wants (scan_dev x) ∷ t) (wants-modify_at i ds h)

  -- The requests of a stripe do not change with such a device.
  pub requests-same :
      (c c' : Conf) (id i : ℕ)
      → get_elem? (c.stripes id).devs i ≡ some d
      → c'.jrdev ≡ c.jrdev
      → c'.stripes id ≡ record (c.stripes id) { devs = modify_at i (λ _. d') (c.stripes id).devs }
      → (handle_stripe c' id).1 ≡ (handle_stripe c id).1
  unfolding handle_stripe
  requests-same c c' id i h j e =
      let sh = c.stripes id in
      ap
        (λ t.
          (schedule c'.jrdev t.sector 0
            (modify_at t.pd_idx mark_parity (map scan_dev t.devs))).requests)
        e
      ∙ ap
          (λ r.
            (schedule r sh.sector 0 (
              modify_at sh.pd_idx mark_parity
                (map scan_dev (modify_at i (λ _. d') sh.devs)))).requests)
          j
      ∙ schedule-planned c.jrdev sh.sector 0 _
      ∙ ap (planned c.jrdev sh.sector 0) (
          wants-mark_parity sh.pd_idx _
          ∙ wants-modify_at i sh.devs h
          ∙ sym (wants-mark_parity sh.pd_idx (map scan_dev sh.devs)))
      ∙ sym (schedule-planned c.jrdev sh.sector 0 _)

-- The bios of a device.
abbrev pub bios : Dev → List Bio × List Bio × List Bio
bios d = (d.toread, d.towrite, d.written)

bios-schedule :
    (jrdev : ℕ → Option ℕ) (sector i : ℕ) (ds : List Dev)
    → map bios (schedule jrdev sector i ds).devs ≡ map bios ds
unfolding schedule take_want
bios-schedule jrdev sector i [] = refl
bios-schedule jrdev sector i (d ∷ ds) = ground (arith, bios-schedule jrdev sector (suc i) ds)

bios-mark_parity : (p : ℕ) (ds : List Dev) → map bios (modify_at p mark_parity ds) ≡ map bios ds
bios-mark_parity p [] = refl
bios-mark_parity zero (d ∷ ds) = refl
bios-mark_parity (suc p) (d ∷ ds) = ap (λ t. bios d ∷ t) (bios-mark_parity p ds)

bios-scan_dev : (ds : List Dev) → map bios (map scan_dev ds) ≡ map bios ds
unfolding scan_dev
bios-scan_dev [] = refl
bios-scan_dev (d ∷ ds) = ground (arith, bios-scan_dev ds)

-- `handle_stripe` takes no bio off a device, finished or not.
pub bios-handle_stripe :
    (c : Conf) (id : ℕ)
    → map bios ((handle_stripe c id).0.stripes id).devs ≡ map bios (c.stripes id).devs
unfolding handle_stripe
bios-handle_stripe c id =
    let sh = c.stripes id in
    rw (==_refl id) (
      bios-schedule c.jrdev sh.sector 0 (modify_at sh.pd_idx mark_parity (map scan_dev sh.devs))
      ∙ bios-mark_parity sh.pd_idx (map scan_dev sh.devs)
      ∙ bios-scan_dev sh.devs)

pub length-modify_at :
    (p : ℕ) (f : Dev → Dev) (ds : List Dev) → length (modify_at p f ds) ≡ length ds
length-modify_at p f [] = refl
length-modify_at zero f (d ∷ ds) = refl
length-modify_at (suc p) f (d ∷ ds) = ap suc (length-modify_at p f ds)

length-scan_dev : (ds : List Dev) → length (map scan_dev ds) ≡ length ds
length-scan_dev [] = refl
length-scan_dev (d ∷ ds) = ap suc (length-scan_dev ds)

length-schedule :
    (jrdev : ℕ → Option ℕ) (sector i : ℕ) (ds : List Dev)
    → length (schedule jrdev sector i ds).requests ≤ length ds
unfolding schedule
length-schedule jrdev sector i [] = omega arith
length-schedule jrdev sector i (d ∷ ds) =
    grind (arith, length-schedule jrdev sector (suc i) ds, length-append)

-- There is at most one request for each device.
pub length-requests :
    (c : Conf) (id : ℕ) → length (handle_stripe c id).1 ≤ length (c.stripes id).devs
unfolding handle_stripe
length-requests c id =
    let sh = c.stripes id in
    let ds : List Dev = modify_at sh.pd_idx mark_parity (map scan_dev sh.devs) in
    omega (
      arith,
      length-schedule c.jrdev sh.sector 0 ds,
      length-modify_at sh.pd_idx mark_parity (map scan_dev sh.devs),
      length-scan_dev sh.devs,
    )

module _ (c : Conf) (id : ℕ) (v : Inv c) (h : 0 < (c.stripes id).count)
    (room : (c.stripes id).count + length (handle_stripe c id).1 < 2 ^ 32) where
  -- A held stripe stays held, once more for each request.
  pub count-handle_stripe :
      ((handle_stripe c id).0.stripes id).count
      ≡ (c.stripes id).count + length (handle_stripe c id).1
  unfolding handle_stripe
  count-handle_stripe = ground arith

  -- `handle_stripe` keeps the cache well formed, if the stripe has a user and its count has room
  -- for the requests.
  pub handle_stripe-Inv : Inv (handle_stripe c id).0
  unfolding handle_stripe
  handle_stripe-Inv = record {
    place = λ s. ground (arith, v.place s, v.place id);
    idle = λ s. ground (arith, v.idle s, v.place id);
    work = λ s. ground (arith, v.work s, v.place id);
    active = v.active;
    counted = λ s. ground (arith, v.counted s);
    chained = λ s b. ground (arith, v.chained s b);
    distinct = λ s t. ground (arith, v.distinct s t);
    owned = λ s. ground (arith, v.owned s);
    few = v.few;
  }
