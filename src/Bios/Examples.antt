-- ===== src/Bios/Examples.antt =====
-- Runs of `__add_stripe_bio` on a device, and its theorems there.
use jraid.Common.{◌≡◌, ◌↔◌, true, some, none, [], ◌∷◌, arith, refl}
use jraid.Stripe.{Bio, Dev}
use jraid.Bios.{insert_bio, mark_overwrite, covered_to, add_bio}
use jraid.Bios.Order.{Inserted, insert_bio-Inserted}
use jraid.Bios.Cover.{CoversRange, mark_overwrite_iff}
use jraid.Samples.{dev}

-- Sectors 8 to 11, 12 to 15, and 10 to 13.
abbrev low : Bio
low = record { id = 1; bi_sector = 8; bi_size = 2048 }

abbrev high : Bio
high = record { id = 2; bi_sector = 12; bi_size = 2048 }

abbrev across : Bio
across = record { id = 3; bi_sector = 10; bi_size = 2048 }

insert_bio_sorted : insert_bio low (high ∷ []) ≡ some (low ∷ high ∷ [])
unfolding insert_bio
insert_bio_sorted = refl

insert_bio_overlap : insert_bio across (low ∷ high ∷ []) ≡ none
unfolding insert_bio
insert_bio_overlap = refl

abbrev half : Dev
half = record dev { sector = 8; towrite = high ∷ [] }

-- The second half makes the write of the page whole.
add_bio_whole : (add_bio half low true).1.flags.overwrite ≡ true
unfolding add_bio insert_bio mark_overwrite covered_to
add_bio_whole = refl

insert_bio-Inserted_example : Inserted 0 low (high ∷ []) (insert_bio low (high ∷ []))
insert_bio-Inserted_example =
    insert_bio-Inserted 0 low (high ∷ []) (omega arith, (omega arith, omega arith), tt)
      (omega arith) (omega arith, omega arith)

mark_overwrite_iff_example :
    ((mark_overwrite half).flags.overwrite ≡ true) ↔ CoversRange (high ∷ []) 8 16
mark_overwrite_iff_example =
    mark_overwrite_iff 0 half (omega arith, (omega arith, omega arith), tt) (omega arith) refl
