-- ===== src/Bios.antt =====
-- The bios that wait on a device of a stripe: `__add_stripe_bio` of src/jraid5.c, on one device.
-- The bio comes with `bi_next` NULL, as its only caller `jraid5_make_request` leaves it, so the
-- BUG() on a foreign `bi_next` cannot be reached.
pub mod Order
pub mod Cover
mod Examples
use mathlib.Core.Option
use jraid.Common.{
  ℕ, ◌+◌, ◌/◌, Bool, true, false, ◌&&◌, Option, none, some, List, [], ◌∷◌, ltb, leb, if◌then◌else◌,
  add64,
}
use jraid.Stripe.{Bio, Dev, Flags, stripe_sectors}

-- `bi_sector + (bi_size >> 9)`, in `sector_t`.
abbrev pub bio_end : Bio → ℕ
bio_end b = add64 b.bi_sector (b.bi_size / 512)

-- The walk along the chain and the insertion; `none` is the jump to `overlap`.
unfoldable pub insert_bio : Bio → List Bio → Option (List Bio)
insert_bio bi [] = some (bi ∷ [])
insert_bio bi (b ∷ bs) =
    if ltb b.bi_sector bi.bi_sector
    then (if ltb bi.bi_sector (bio_end b) then none else Option.map (λ r. b ∷ r) (insert_bio bi bs))
    else if ltb b.bi_sector (bio_end bi)
    then none
    else some (bi ∷ b ∷ bs)

-- The loop that measures how far the chain covers the page of `page_sector`, from `sector` on;
-- `r5_next_bio` ends the chain at a bio that reaches the end of the page.
unfoldable pub covered_to : ℕ → List Bio → ℕ → ℕ
covered_to page_sector [] sector = sector
covered_to page_sector (b ∷ bs) sector =
    let sector' = if leb sector (bio_end b) then bio_end b else sector in
    let rest = covered_to page_sector bs sector' in
    if ltb sector (add64 page_sector stripe_sectors) && leb b.bi_sector sector
    then (if ltb (bio_end b) (add64 page_sector stripe_sectors) then rest else sector')
    else sector

-- `if (sector >= dev.sector + STRIPE_SECTORS) set_bit(R5_OVERWRITE, …)`
unfoldable pub mark_overwrite : Dev → Dev
mark_overwrite d =
    if leb (add64 d.sector stripe_sectors) (covered_to d.sector d.towrite d.sector)
    then record d { flags = record (d.flags) { overwrite = true } }
    else d

-- `__add_stripe_bio`: the result is 1 and the device with the bio, or 0 and R5_Overlap.
unfoldable pub add_bio : Dev → Bio → Bool → Bool × Dev
add_bio d bi forwrite =
    if forwrite
    then elim (insert_bio bi d.towrite) [
      | some bs ↦ (true, mark_overwrite (record d { towrite = bs }))
      | none ↦ (false, record d { flags = record (d.flags) { overlap = true } })
    ]
    else elim (insert_bio bi d.toread) [
      | some bs ↦ (true, record d { toread = bs })
      | none ↦ (false, record d { flags = record (d.flags) { overlap = true } })
    ]
