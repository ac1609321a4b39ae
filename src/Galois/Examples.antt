-- ===== src/Galois/Examples.antt =====
-- The recovery of a disk from three others, and products with and without a way back.
use jraid.Common.{◌≡◌, ◌≢◌, ◌↔◌, some, none, [], ◌∷◌, arith, refl}
use jraid.Galois.{
  GaloisTables, generate_galois_table, galois_mutipile, galois_division, sum_products, recover,
}
use jraid.Galois.Tables.{tables}
use jraid.Galois.Recovery.{recover-lost}
use jraid.Galois.Quotient.{back, log_sum, galois_division-mutipile}

-- The square of 2 is 1 here, though 2 * 2 is 4 in the field.
squares : galois_mutipile tables 2 2 ≡ some 1
unfolding galois_mutipile
squares = refl

-- The logarithms of 2 and 9 are 1 and 14, of which the exclusive or is 15.
no_way_back : back tables 2 9 ≡ some 9
unfolding galois_mutipile galois_division
no_way_back = refl

-- `main` may draw the number 16, for which there is no logarithm.
draws_outside : recover tables ((3, 5) ∷ []) 16 ≡ none
unfolding recover sum_products galois_mutipile
draws_outside = refl

recover-lost_example :
    (t : GaloisTables) × (generate_galois_table ≡ some t)
    × (recover t ((3, 5) ∷ (7, 2) ∷ (15, 9) ∷ []) 12 ≡ some 12)
recover-lost_example =
    recover-lost ((3, 5) ∷ (7, 2) ∷ (15, 9) ∷ []) 12 (omega arith) (omega arith) (omega arith)

galois_division-mutipile_example :
    (t : GaloisTables) × (generate_galois_table ≡ some t)
    × ((back t 2 9 ≡ some 2) ↔ (log_sum t 2 9 ≢ some 15))
galois_division-mutipile_example =
    galois_division-mutipile 2 9 (omega arith) (omega arith) (omega arith) (omega arith)
