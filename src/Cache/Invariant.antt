-- ===== src/Cache/Invariant.antt =====
-- What holds of the stripe cache between two calls.
use jraid.Common.{
  ℕ, ◌+◌, ◌^◌, ◌<◌, ◌≡◌, ◌&&◌, true, false, ◌==◌, ltb, if◌then◌else◌, length, occ, Bool,
}
use jraid.Stripe.{Conf, stripe_hash}

-- 1 for a stripe that has users.
abbrev pub in_use : ℕ → ℕ
in_use count = if count == 0 then 0 else 1

abbrev pub bit : Bool → ℕ
bit b = if b then 1 else 0

-- Each stripe head that was allocated is at one place: on the inactive list, on the list of those
-- to handle, or in the hands of its users. An inactive one has no work, one to handle has. The
-- counter `active_stripes` is that of the stripes that are not inactive. A hashed stripe is in the
-- chain of its sector, once, and in no other; it was allocated, and no two of them are for the
-- same sector.
pub record Inv (c : Conf) : Type 0 where
  pub place :
      (s : ℕ)
      → occ s c.inactive_list + occ s c.handle_list + in_use (c.stripes s).count
        ≡ bit (ltb s c.nr_stripes)
  pub idle : (s : ℕ) → 0 < occ s c.inactive_list → (c.stripes s).handle ≡ false
  pub work : (s : ℕ) → 0 < occ s c.handle_list → (c.stripes s).handle ≡ true
  pub active : c.active_stripes + length c.inactive_list ≡ c.nr_stripes
  pub counted : (s : ℕ) → (c.stripes s).count < 2 ^ 32
  pub chained :
      (s b : ℕ)
      → occ s (c.stripe_hashtbl b)
        ≡ bit ((c.stripes s).hashed && stripe_hash (c.stripes s).sector == b)
  pub distinct :
      (s t : ℕ)
      → (c.stripes s).hashed ≡ true
      → (c.stripes t).hashed ≡ true
      → (c.stripes s).sector ≡ (c.stripes t).sector
      → s ≡ t
  pub owned : (s : ℕ) → (c.stripes s).hashed ≡ true → s < c.nr_stripes
  pub few : c.nr_stripes < 2 ^ 31
