-- ===== src/Stripe.antt =====
-- The data of src/jraid5.h: the devices of a stripe, the stripe head, and `struct jraid5_conf`.
-- Pointers to stripe heads are numbers into the store `stripes`; an intrusive list is a list of
-- such numbers, and so is a chain of the hash table.
use jraid.Common.{ℕ, Bool, Option, List, ◌/◌, ◌%◌}
use jraid.Geometry.{Layout}

-- What the driver reads of a `struct bio`: `id` stands for its address.
pub record Bio : Type 0 where
  pub id : ℕ
  pub bi_sector : ℕ
  pub bi_size : ℕ

-- The bits of `dev->flags`, R5_UPTODATE to R5_Overlap.
pub record Flags : Type 0 where
  pub uptodate : Bool
  pub locked : Bool
  pub overwrite : Bool
  pub insync : Bool
  pub wantread : Bool
  pub wantwrite : Bool
  pub syncio : Bool
  pub overlap : Bool

-- `struct r5dev`. A chain of bios through `bi_next` is a list. `page` says that the page is there.
-- `req` is not kept: `handle_stripe` gives each of its fields anew before it submits it.
pub record Dev : Type 0 where
  pub toread : List Bio
  pub towrite : List Bio
  pub written : List Bio
  pub sector : ℕ
  pub page : Bool
  pub flags : Flags

-- The bits of `sh->state` that the driver sets: STRIPE_HANDLE, STRIPE_SYNCING, STRIPE_INSYNC.
pub record StripeState : Type 0 where
  pub handle : Bool
  pub syncing : Bool
  pub insync : Bool

-- `struct stripe_head`: `hashed` says that `hash_pprev` is not NULL, and `count` is 32 bits.
pub record StripeHead : Type 0 where
  pub sector : ℕ
  pub pd_idx : ℕ
  pub state : StripeState
  pub open state use {handle}
  pub count : ℕ
  pub hashed : Bool
  pub devs : List Dev

-- `struct jraid5_conf`. `nr_stripes` counts the stripe heads that were allocated, at the addresses
-- below it; `jrdev` is `disks[i].jrdev`; `thread_woken` is the THREAD_WAKEUP bit of the thread.
pub record Conf : Type 0 where
  pub layout : Layout
  pub stripes : ℕ → StripeHead
  pub stripe_hashtbl : ℕ → List ℕ
  pub inactive_list : List ℕ
  pub handle_list : List ℕ
  pub active_stripes : ℕ
  pub nr_stripes : ℕ
  pub jrdev : ℕ → Option ℕ
  pub thread_woken : Bool

-- STRIPE_SIZE and STRIPE_SECTORS: a page of 4096 bytes.
abbrev pub stripe_size : ℕ
stripe_size = 4096

abbrev pub stripe_sectors : ℕ
stripe_sectors = 8

-- NR_HASH: a page of 8-byte pointers.
abbrev pub nr_hash : ℕ
nr_hash = 512

-- `stripe_hash`: `buffer_size` is PAGE_SIZE, and HASH_MASK keeps the low nine bits.
abbrev pub stripe_hash : ℕ → ℕ
stripe_hash sect = sect / (4096 / 512) % nr_hash
