-- ===== src/Request.antt =====
-- The life of a request in src/jraid5.c: `jraid5_make_request`, the completions of the requests to
-- the disks, and the thread `jraid5d`.
pub mod Lifecycle
pub mod Total
pub mod Loss
pub mod Round
pub mod Thread
mod Examples
use jraid.Common.{
  ℕ, zero, suc, ◌+◌, ◌-◌, Bool, true, false, Option, none, some, List, [], ◌∷◌, ◌++◌, ◌==◌, add32,
  sub32, if◌then◌else◌, get_elem?,
}
use jraid.Geometry.{Mapping, compute_sector}
use jraid.Stripe.{Bio, Dev, StripeHead, Conf}
use jraid.Cache.{
  Got, got, null, wait, bug, get_active_stripe, release_stripe, put_stripe, hold, list_del,
}
use jraid.Bios.{add_bio}
use jraid.Handle.{Request, handle_stripe, modify_at}

-- `raid5_end_read_request` and `raid5_end_write_request`: whatever the disk says, the completion
-- of a request gives up one hold on the stripe.
unfoldable pub end_request : Conf → ℕ → Conf
end_request c id = release_stripe c id

-- `__add_stripe_bio` on a stripe: `dd` is an index of its devices.
unfoldable pub add_stripe_bio : Conf → ℕ → Bio → ℕ → Bool → Option (Bool × Conf)
add_stripe_bio c id bi dd forwrite = elim (get_elem? (c.stripes id).devs dd) [
  | none ↦ none
  | some d ↦ some (
    (add_bio d bi forwrite).0,
    put_stripe c id (record (c.stripes id) {
      devs = modify_at dd (λ _. (add_bio d bi forwrite).1) (c.stripes id).devs;
    }),
  )
]

-- What `jraid5_make_request` comes to. `served`: the cache, the requests to the disks, whether the
-- bio was queued, and whether `bio_endio(bi, 0)` told the caller that it is done.
pub data Outcome : Type 0 where
  served : Conf → List Request → Bool → Bool → Outcome
  blocked : Outcome
  fault : Outcome

-- The count `bi_phys_segments` of the bio is 1 from the start of the call, and no one else counts
-- it; at 0 the bio is ended.
abbrev pub ends : ℕ → Bool
ends bi_phys_segments = sub32 bi_phys_segments 1 == 0

-- The part that has the stripe: queue the bio, whatever `__add_stripe_bio` answers, handle the
-- stripe, release it, and end the bio.
unfoldable pub serve : Conf → ℕ → Bio → ℕ → Bool → Outcome
serve c id bi dd forwrite = elim (add_stripe_bio c id bi dd forwrite) [
  | none ↦ fault
  | some (queued, c') ↦
      let (c'', requests) = handle_stripe c' id in
      served (release_stripe c'' id) requests queued (ends 1)
]

-- `jraid5_make_request`. `bio_data_dir` is a read or a write, never READA, so the call blocks.
-- `woken` are the states that the waits in `get_active_stripe` come back to.
unfoldable pub make_request : List Conf → Conf → Bio → Bool → Outcome
make_request woken c bi forwrite =
    elim (compute_sector c.layout bi.bi_sector c.layout.raid_disks (c.layout.raid_disks - 1) 0) [
      | none ↦ fault
      | some m ↦ elim (get_active_stripe woken c m.new_sector m.pd_idx false) [
        | got id c' ↦ serve c' id bi m.dd_idx forwrite
        | null ↦ served c [] false (ends 1)
        | wait ↦ blocked
        | bug ↦ fault
      ]
    ]

-- The run of `jraid5d` over `handle_list`, on fuel.
pub data Drain : Type 0 where
  drained : Conf → Drain
  stopped : Drain
  spinning : Conf → Drain

-- One stripe of the list: it is taken off, held, handled and released. `none` is the BUG() on a
-- count that is not 1 then.
unfoldable pub jraid5d_round : Conf → ℕ → Option (Conf × List Request)
jraid5d_round c id =
    let c' = hold (list_del c id) id in
    if (c'.stripes id).count == 1
    then (let (c'', requests) = handle_stripe c' id in some (release_stripe c'' id, requests))
    else none

unfoldable pub jraid5d : ℕ → Conf → Drain
jraid5d zero c = spinning c
jraid5d (suc fuel) c = elim c.handle_list [
  | [] ↦ drained c
  | id ∷ _ ↦ elim (jraid5d_round c id) [ none ↦ stopped | some (c', _) ↦ jraid5d fuel c' ]
]
