-- ===== src/Cache.antt =====
-- The stripe cache of src/jraid5.c: the hash table, the two lists and the counts. `none` and `bug`
-- are BUG(), or the division by zero of the address arithmetic; a message alone is no change.
-- Each function runs under `device_lock`, so it is one step.
pub mod Invariant
pub mod Release
pub mod Lookup
pub mod Claim
pub mod Build
pub mod Acquire
mod Examples
use mathlib.Core.Option
use jraid.Common.{
  ℕ, ◌+◌, Bool, true, false, ◌||◌, not, Option, none, some, List, [], ◌∷◌, ◌++◌, ◌>>=◌, ◌==◌,
  if◌then◌else◌, add32, sub32, occ, remove, update,
}
use jraid.Geometry.{Layout, compute_blocknr}
use jraid.Stripe.{Bio, Dev, Flags, StripeHead, StripeState, Conf, stripe_hash}

abbrev pub no_flags : Flags
no_flags = record {
  uptodate = false;
  locked = false;
  overwrite = false;
  insync = false;
  wantread = false;
  wantwrite = false;
  syncio = false;
  overlap = false;
}

abbrev pub no_state : StripeState
no_state = record { handle = false; syncing = false; insync = false }

abbrev pub put_stripe : Conf → ℕ → StripeHead → Conf
put_stripe c id sh = record c { stripes = update c.stripes id sh }

-- `list_empty(&sh->lru)`
abbrev pub lru_empty : Conf → ℕ → Bool
lru_empty c id = occ id c.inactive_list + occ id c.handle_list == 0

-- `list_del_init(&sh->lru)`
abbrev pub list_del : Conf → ℕ → Conf
list_del c id = record c {
  inactive_list = remove id c.inactive_list;
  handle_list = remove id c.handle_list;
}

-- The stripe goes on the list that its STRIPE_HANDLE bit names.
unfoldable pub retire : Conf → ℕ → Conf
retire c id =
    if (c.stripes id).handle
    then record c { handle_list = c.handle_list ++ (id ∷ []); thread_woken = true }
    else record c {
      inactive_list = c.inactive_list ++ (id ∷ []);
      active_stripes = sub32 c.active_stripes 1;
    }

-- `__release_stripe`, and `release_stripe`, which is that under the lock.
unfoldable pub release_stripe : Conf → ℕ → Conf
unfolding retire
release_stripe c id =
    let sh = c.stripes id in
    let c' = put_stripe c id (record sh { count = sub32 sh.count 1 }) in
    if sub32 sh.count 1 == 0 then retire c' id else c'

-- `release_stripe__`: it goes by no bit, and stops on a stripe that is on a list.
unfoldable pub release_stripe_inactive : Conf → ℕ → Option Conf
release_stripe_inactive c id =
    let sh = c.stripes id in
    let c' = put_stripe c id (record sh { count = sub32 sh.count 1 }) in
    if sub32 sh.count 1 == 0
    then (if lru_empty c id
        then (if c.active_stripes == 0
            then none
            else some (record c' {
              inactive_list = c.inactive_list ++ (id ∷ []);
              active_stripes = sub32 c.active_stripes 1;
            }))
        else none)
    else some c'

-- `remove_hash`: a stripe that hangs in a chain is unlinked from that chain.
unfoldable pub remove_hash : Conf → ℕ → Conf
remove_hash c id =
    let sh = c.stripes id in
    if sh.hashed
    then record c {
      stripe_hashtbl = λ b. remove id (c.stripe_hashtbl b);
      stripes = update c.stripes id (record sh { hashed = false });
    }
    else c

-- `insert_hash`: the stripe becomes the head of its sector's chain.
unfoldable pub insert_hash : Conf → ℕ → Conf
insert_hash c id =
    let sh = c.stripes id in
    let b = stripe_hash sh.sector in
    record c {
      stripe_hashtbl = update c.stripe_hashtbl b (id ∷ c.stripe_hashtbl b);
      stripes = update c.stripes id (record sh { hashed = true });
    }

-- The walk of `__find_stripe` along a chain.
unfoldable pub walk : (ℕ → StripeHead) → ℕ → List ℕ → Option ℕ
walk stripes sector [] = none
walk stripes sector (id ∷ chain) =
    if (stripes id).sector == sector then some id else walk stripes sector chain

-- `__find_stripe`
unfoldable pub find_stripe : Conf → ℕ → Option ℕ
find_stripe c sector = walk c.stripes sector (c.stripe_hashtbl (stripe_hash sector))

-- `get_free_stripe` takes the stripe that has been inactive longest.
unfoldable pub get_free_stripe : Conf → Option (ℕ × Conf)
get_free_stripe c = elim c.inactive_list [
  | [] ↦ none
  | id ∷ rest ↦
      let c' = remove_hash (record c { inactive_list = rest }) id in
      some (id, record c' { active_stripes = add32 c.active_stripes 1 })
]

-- A device that still has work: `toread`, `towrite`, `written` or R5_LOCKED.
abbrev pub is_null : List Bio → Bool
is_null [] = true
is_null (b ∷ bs) = false

abbrev pub is_busy : Dev → Bool
is_busy d =
    not (is_null d.toread) || not (is_null d.towrite) || not (is_null d.written) || d.flags.locked

-- `__jraid5_build_block` for the device `i`, with the check of `__init_stripe` before it.
unfoldable pub build_block : Layout → ℕ → ℕ → ℕ → Dev → Option Dev
build_block l sector pd i d =
    if is_busy d
    then none
    else if i == pd
    then some (record d { flags = no_flags })
    else Option.map (λ s. record d { flags = no_flags; sector = s }) (compute_blocknr l sector pd i)

-- The loop of `__init_stripe` over the devices from `i` on. (The code counts down; no device
-- reads another.)
unfoldable pub build_blocks : Layout → ℕ → ℕ → ℕ → List Dev → Option (List Dev)
build_blocks l sector pd i [] = some []
build_blocks l sector pd i (d ∷ ds) = do
  d' ← build_block l sector pd i d
  ds' ← build_blocks l sector pd (i + 1) ds
  some (d' ∷ ds')

-- `__init_stripe`
unfoldable pub init_stripe : Conf → ℕ → ℕ → ℕ → Option Conf
init_stripe c id sector pd =
    let sh = c.stripes id in
    if not (sh.count == 0) || sh.handle then none else do
      let c' = remove_hash c id
      devs ← build_blocks c.layout sector pd 0 sh.devs
      some (
          insert_hash
            (put_stripe c' id (record (c'.stripes id) {
              sector = sector;
              pd_idx = pd;
              state = no_state;
              devs = devs;
            }))
            id)

-- `atomic_inc(&sh->count)`
abbrev pub hold : Conf → ℕ → Conf
hold c id = put_stripe c id (record (c.stripes id) { count = add32 (c.stripes id).count 1 })

-- What one round of the loop of `get_active_stripe` comes to: a stripe, the NULL of a caller that
-- does not block, a wait for an inactive stripe, or BUG().
pub data Got : Type 0 where
  got : ℕ → Conf → Got
  null : Got
  wait : Got
  bug : Got

-- The stripe is in the cache: one with no user leaves its list.
unfoldable pub reuse : Conf → ℕ → Got
reuse c id =
    let sh = c.stripes id in
    if sh.count == 0
    then (let c' =
          (if sh.handle then c else record c { active_stripes = add32 c.active_stripes 1 }) in
        if lru_empty c id then bug else got id (hold (list_del c' id) id))
    else got id (hold c id)

unfoldable pub get_active_stripe_round : Conf → ℕ → ℕ → Bool → Got
get_active_stripe_round c sector pd noblock = elim (find_stripe c sector) [
  | some id ↦ reuse c id
  | none ↦ elim (get_free_stripe c) [
    | none ↦ (if noblock then null else wait)
    | some (id, c') ↦ elim (init_stripe c' id sector pd) [
      | none ↦ bug
      | some c'' ↦ got id (hold c'' id)
    ]
  ]
]

-- `get_active_stripe`. Each wait gives up the lock; `woken` lists the states that the waits come
-- back to, and `wait` is left when they run out.
unfoldable pub get_active_stripe : List Conf → Conf → ℕ → ℕ → Bool → Got
get_active_stripe [] c sector pd noblock = get_active_stripe_round c sector pd noblock
get_active_stripe (w ∷ woken) c sector pd noblock =
    let later = get_active_stripe woken w sector pd noblock in
    elim (get_active_stripe_round c sector pd noblock) [
      | wait ↦ later
      | got id c' ↦ got id c'
      | null ↦ null
      | bug ↦ bug
    ]
