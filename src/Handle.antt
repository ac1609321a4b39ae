-- ===== src/Handle.antt =====
-- `handle_stripe` of src/jraid5.c: what a stripe asks of its disks. Its counters of devices feed
-- messages alone; `written` is set to 0 before its one test, so the branch that would return
-- finished writes is never taken, and no bio leaves a device here.
pub mod Plan
pub mod Effect
mod Examples
use jraid.Common.{
  ℕ, zero, suc, ◌+◌, Bool, true, false, Option, none, some, List, [], ◌∷◌, ◌++◌, map, wrap32,
  length, if◌then◌else◌, ◌||◌, not,
}
use jraid.Stripe.{Bio, Dev, Flags, StripeHead, StripeState, Conf, stripe_size}
use jraid.Cache.{put_stripe, is_null}

-- A bio as it goes to `generic_make_request`: `disk` is the index of the device, whose `jrdev` has
-- the block device `bdev`; `write` is `bi_rw`.
pub record Request : Type 0 where
  pub disk : ℕ
  pub bdev : ℕ
  pub write : Bool
  pub bi_sector : ℕ
  pub bi_size : ℕ

-- The first loop, at one device: what waits is wanted.
unfoldable pub scan_dev : Dev → Dev
scan_dev d =
    let d' =
      (if is_null d.toread then d else record d { flags = record (d.flags) { wantread = true } }) in
    if is_null d.towrite then d' else record d' { flags = record (d'.flags) { wantwrite = true } }

-- The flags that are set on the parity device "for test".
abbrev pub mark_parity : Dev → Dev
mark_parity d = record d {
  flags = record (d.flags) { insync = true; locked = false; uptodate = true };
}

abbrev pub modify_at {ℓ} : {A : Type ℓ} → ℕ → (A → A) → List A → List A
modify_at i f [] = []
modify_at zero f (x ∷ xs) = f x ∷ xs
modify_at (suc i) f (x ∷ xs) = x ∷ modify_at i f xs

-- What the last loop makes of a device: the device, the direction that it takes up, a write first.
unfoldable pub take_want : Dev → Option Bool × Dev
take_want d =
    if d.flags.wantwrite
    then (some true, record d { flags = record (d.flags) { wantwrite = false } })
    else if d.flags.wantread
    then (some false, record d { flags = record (d.flags) { wantread = false } })
    else (none, d)

-- The devices after the last loop, the requests in the order in which they are submitted, and
-- whether a device had no disk, which sets STRIPE_HANDLE.
pub record Scheduled : Type 0 where
  pub devs : List Dev
  pub requests : List Request
  pub lacking : Bool

-- The last loop from the device `i` on. The code counts down, so the requests of the later devices
-- go first.
unfoldable pub schedule : (ℕ → Option ℕ) → ℕ → ℕ → List Dev → Scheduled
schedule jrdev sector i [] = record { devs = []; requests = []; lacking = false }
schedule jrdev sector i (d ∷ ds) =
    let rest = schedule jrdev sector (suc i) ds in
    let (want, d') = take_want d in
    elim want [
      | none ↦ record rest { devs = d' ∷ rest.devs }
      | some w ↦ elim (jrdev i) [
        | some b ↦ record rest {
          devs = d' ∷ rest.devs;
          requests =
              rest.requests
              ++ (record {
                disk = i;
                bdev = b;
                write = w;
                bi_sector = sector;
                bi_size = stripe_size;
              }
                  ∷ []);
        }
        | none ↦ record rest {
          devs = record d' { flags = record (d'.flags) { locked = false } } ∷ rest.devs;
          lacking = true;
        }
      ]
    ]

-- `handle_stripe`: the stripe is held once more for each request.
unfoldable pub handle_stripe : Conf → ℕ → Conf × List Request
handle_stripe c id =
    let sh = c.stripes id in
    let s = schedule c.jrdev sh.sector 0 (modify_at sh.pd_idx mark_parity (map scan_dev sh.devs)) in
    (
      put_stripe c id (record sh {
        devs = s.devs;
        count = wrap32 (sh.count + length s.requests);
        state = record (sh.state) { handle = sh.handle || s.lacking };
      }),
      s.requests,
    )
