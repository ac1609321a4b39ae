-- ===== src/Samples.antt =====
-- Small caches of two stripes on an array of four disks, which the tests of the modules share.
use jraid.Common.{
  ◌+◌, true, false, none, some, List, [], ◌∷◌, ◌==◌, if◌then◌else◌, arith, update, refl,
}
use jraid.Geometry.{Layout}
use jraid.Geometry.Bounds.{IsGood}
use jraid.Stripe.{Bio, Dev, StripeHead, Conf}
use jraid.Cache.{no_flags, no_state}
use jraid.Cache.Invariant.{Inv}
use jraid.Cache.Acquire.{HasRoom, InactiveIdle}
use jraid.Request.Total.{IsReady}

-- Left symmetric, with chunks of 32 KiB.
abbrev pub layout : Layout
layout = record { chunk_size = 32768; level = 5; algorithm = 2; raid_disks = 4 }

pub layout-IsGood : IsGood layout
layout-IsGood = omega arith

abbrev pub dev : Dev
dev = record { toread = []; towrite = []; written = []; sector = 0; page = true; flags = no_flags }

abbrev pub devs : List Dev
devs = dev ∷ dev ∷ dev ∷ dev ∷ []

abbrev pub fresh_head : StripeHead
fresh_head = record {
  sector = 0;
  pd_idx = 0;
  state = no_state;
  count = 0;
  hashed = false;
  devs = devs;
}

-- Both stripes are inactive.
abbrev pub fresh : Conf
fresh = record {
  layout = layout;
  stripes = λ s. fresh_head;
  stripe_hashtbl = λ b. [];
  inactive_list = 0 ∷ 1 ∷ [];
  handle_list = [];
  active_stripes = 0;
  nr_stripes = 2;
  jrdev = λ i. some (100 + i);
  thread_woken = false;
}

pub fresh-Inv : Inv fresh
fresh-Inv = record {
  place = λ s. ground arith;
  idle = λ s. ground arith;
  work = λ s. ground arith;
  active = ground arith;
  counted = λ s. ground arith;
  chained = λ s b. ground arith;
  distinct = λ s t. ground arith;
  owned = λ s. ground arith;
  few = omega arith;
}

pub fresh-HasRoom : HasRoom fresh
fresh-HasRoom s = omega arith

pub fresh-InactiveIdle : InactiveIdle fresh
fresh-InactiveIdle s h = (refl, (refl, (refl, (refl, tt))))

pub fresh-IsReady : IsReady fresh
fresh-IsReady = record {
  inv = fresh-Inv;
  good = layout-IsGood;
  idle = fresh-InactiveIdle;
  built = λ s h. refl;
  room = λ s. omega arith;
}

-- Stripe 0 is that of sector 8, with a write of its whole page waiting, and has `count` users; a
-- user more than none, so it is on no list.
abbrev pub write_bio : Bio
write_bio = record { id = 7; bi_sector = 8; bi_size = 4096 }

abbrev pub writing : List Dev
writing = dev ∷ record dev { towrite = write_bio ∷ []; sector = 8 } ∷ dev ∷ dev ∷ []

abbrev pub used_head : StripeHead
used_head = record {
  sector = 8;
  pd_idx = 3;
  state = no_state;
  count = 1;
  hashed = true;
  devs = writing;
}

abbrev pub used : Conf
used = record fresh {
  stripes = update (λ s. fresh_head) 0 used_head;
  stripe_hashtbl = λ b. if b == 1 then 0 ∷ [] else [];
  inactive_list = 1 ∷ [];
  active_stripes = 1;
}

pub used-Inv : Inv used
used-Inv = record {
  place = λ s. ground arith;
  idle = λ s. ground arith;
  work = λ s. ground arith;
  active = ground arith;
  counted = λ s. ground arith;
  chained = λ s b. ground arith;
  distinct = λ s t. ground arith;
  owned = λ s. ground arith;
  few = omega arith;
}

-- Stripe 0 waits to be handled.
abbrev pub listed : Conf
listed = record used {
  stripes =
      update (λ s. fresh_head) 0
        (record used_head { count = 0; state = record no_state { handle = true } });
  handle_list = 0 ∷ [];
}

pub listed-Inv : Inv listed
listed-Inv = record {
  place = λ s. ground arith;
  idle = λ s. ground arith;
  work = λ s. ground arith;
  active = ground arith;
  counted = λ s. ground arith;
  chained = λ s b. ground arith;
  distinct = λ s t. ground arith;
  owned = λ s. ground arith;
  few = omega arith;
}

-- The fresh cache of an array that has lost its first disk.
abbrev pub degraded : Conf
degraded = record fresh { jrdev = λ i. if i == 0 then none else some (100 + i) }

pub degraded-IsReady : IsReady degraded
degraded-IsReady = record {
  inv = record {
    place = λ s. ground arith;
    idle = λ s. ground arith;
    work = λ s. ground arith;
    active = ground arith;
    counted = λ s. ground arith;
    chained = λ s b. ground arith;
    distinct = λ s t. ground arith;
    owned = λ s. ground arith;
    few = omega arith;
  };
  good = layout-IsGood;
  idle = λ s h. (refl, (refl, (refl, (refl, tt))));
  built = λ s h. refl;
  room = λ s. omega arith;
}
