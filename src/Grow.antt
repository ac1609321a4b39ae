-- ===== src/Grow.antt =====
-- How the stripe cache is filled when an array starts and emptied when it stops: `grow_stripes`,
-- `grow_buffers`, `shrink_stripes` and `shrink_buffers` of src/jraid5.c. The kernel's allocators are
-- an argument: `ok n` says whether the allocation number `n` succeeds. The allocations of a run are
-- numbered in their order.
pub mod Stripe
pub mod Ready
pub mod Shrink
mod Examples
use mathlib.Core.Option
use jraid.Common.{
  ℕ, zero, suc, ◌+◌, Bool, true, false, Option, none, some, List, [], ◌∷◌, if◌then◌else◌, add32,
  sub32, update,
}
use jraid.Geometry.{Layout}
use jraid.Stripe.{Dev, StripeHead, Conf}
use jraid.Cache.{no_flags, no_state, release_stripe, get_free_stripe, put_stripe}

-- A device of zeros, as `memset` leaves it, with or without a page.
abbrev pub zero_dev : Bool → Dev
zero_dev page = record {
  toread = [];
  towrite = [];
  written = [];
  sector = 0;
  page = page;
  flags = no_flags;
}

-- The devices of a stripe, whether each got its page, and the number of the next allocation.
pub record Grown : Type 0 where
  pub devs : List Dev
  pub complete : Bool
  pub next : ℕ

-- `num` devices without a page.
abbrev pub bare : ℕ → List Dev
bare zero = []
bare (suc num) = zero_dev false ∷ bare num

-- `grow_buffers`, on a stripe head of zeros: it stops at the first page that is refused.
unfoldable pub grow_buffers : (ℕ → Bool) → ℕ → ℕ → Grown
grow_buffers ok n zero = record { devs = []; complete = true; next = n }
grow_buffers ok n (suc num) =
    let rest = grow_buffers ok (suc n) num in
    if ok n
    then record rest { devs = zero_dev true ∷ rest.devs }
    else record { devs = bare (suc num); complete = false; next = suc n }

-- `shrink_buffers`: the pages that are there are given back.
unfoldable pub shrink_buffers : List Dev → List Dev
shrink_buffers [] = []
shrink_buffers (d ∷ ds) = record d { page = false } ∷ shrink_buffers ds

-- The stripe head that is built for the address `nr_stripes`, as an active stripe with one user.
unfoldable pub newborn : Conf → List Dev → Conf
newborn c devs = record c {
  stripes =
      update c.stripes c.nr_stripes (record {
        sector = 0;
        pd_idx = 0;
        state = no_state;
        count = 1;
        hashed = false;
        devs = devs;
      });
  active_stripes = add32 c.active_stripes 1;
  nr_stripes = suc c.nr_stripes;
}

-- What `grow_stripes` leaves: the cache, its result (0 is `true`), the number of the next
-- allocation, and the devices of a head that was given back, after `shrink_buffers`.
pub record Growth : Type 0 where
  pub conf : Conf
  pub done : Bool
  pub next : ℕ
  pub returned : List Dev

-- The loop of `grow_stripes`.
unfoldable pub grow_loop : (ℕ → Bool) → ℕ → ℕ → Conf → Growth
grow_loop ok n zero c = record { conf = c; done = true; next = n; returned = [] }
grow_loop ok n (suc num) c =
    let grown = grow_buffers ok (suc n) c.layout.raid_disks in
    let rest = grow_loop ok grown.next num (release_stripe (newborn c grown.devs) c.nr_stripes) in
    if ok n
    then (if grown.complete then rest else record {
      conf = c;
      done = false;
      next = grown.next;
      returned = shrink_buffers grown.devs;
    })
    else record { conf = c; done = false; next = suc n; returned = [] }

-- `grow_stripes`: the slab cache is created first.
unfoldable pub grow_stripes : (ℕ → Bool) → ℕ → ℕ → Conf → Growth
grow_stripes ok n num c =
    let rest = grow_loop ok (suc n) num c in
    if ok n then rest else record { conf = c; done = false; next = suc n; returned = [] }

-- `shrink_buffers` for `num` devices of an array that may have fewer: `none` is an access behind it.
unfoldable pub shrink_num : ℕ → List Dev → Option (List Dev)
shrink_num zero ds = some ds
shrink_num (suc num) [] = none
shrink_num (suc num) (d ∷ ds) =
    Option.map (λ rest. record d { page = false } ∷ rest) (shrink_num num ds)

-- `shrink_stripes`: the cache, and the stripe heads that were freed, in their order. `jraid_disks` is
-- the number of members when the array started.
unfoldable pub shrink_stripes : ℕ → ℕ → Conf → Option (Conf × List ℕ)
shrink_stripes jraid_disks zero c = some (c, [])
shrink_stripes jraid_disks (suc num) c = elim (get_free_stripe c) [
  | none ↦ some (c, [])
  | some (id, c1) ↦ elim (shrink_num jraid_disks (c1.stripes id).devs) [
    | none ↦ none
    | some ds ↦
        let c2 = put_stripe c1 id (record (c1.stripes id) { devs = ds }) in
        Option.map (λ (c3, freed). (c3, id ∷ freed))
          (shrink_stripes jraid_disks num
            (record c2 { active_stripes = sub32 c1.active_stripes 1 }))
  ]
]
