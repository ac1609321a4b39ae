-- ===== src/Galois/Recovery.antt =====
-- The recovery of the lost disk.
use Prim.Native.Nat.{bit_xor}
use jraid.Common.{
  ℕ, ◌+◌, ◌-◌, ◌*◌, ◌/◌, ◌%◌, ◌<◌, ◌≡◌, Bool, true, ◌&&◌, some, List, [], ◌∷◌, ◌==◌, ◌>>=◌, ltb,
  arith, refl, sym, ap, ◌∙◌, subst, ==_iff, ltb→lt,
}
use jraid.Galois.{
  GaloisTables, generate_galois_table, galois_mutipile, galois_division, sum_products, recover,
}
use jraid.Galois.Tables.{
  tables, generate_galois_table-makes, each_below, each_below_sound, reads, reads-some, and_true,
}

-- Pairs of numbers below 16, as one number below 256.
abbrev product_at : GaloisTables → ℕ → Bool
product_at t x = reads (galois_mutipile t (x / 16) (x % 16)) (λ q. ltb q 16)

all_products : each_below 256 (product_at tables) ≡ true
unfolding each_below galois_mutipile
all_products = refl

abbrev cancels_at : ℕ → Bool
cancels_at x =
    ltb (bit_xor (x / 16) (x % 16)) 16 && bit_xor (x / 16) (bit_xor (x / 16) (x % 16)) == x % 16

all_cancel : each_below 256 cancels_at ≡ true
unfolding each_below
all_cancel = refl

abbrev lost_at : GaloisTables → ℕ → Bool
lost_at t x =
    reads (galois_mutipile t (x + 1) 0) (λ q. q == x + 1)
    && reads (galois_division t (x + 1) 0) (λ q. q == x + 1)

all_lost : each_below 15 (lost_at tables) ≡ true
unfolding each_below galois_mutipile galois_division
all_lost = refl

pair_high : (a b : ℕ) → b < 16 → (16 * a + b) / 16 ≡ a
pair_high a b h = omega (arith, h)

pair_low : (a b : ℕ) → b < 16 → (16 * a + b) % 16 ≡ b
pair_low a b h = omega (arith, h)

galois_mutipile-small :
    (a b : ℕ) → a < 16 → b < 16 → (q : ℕ) × (galois_mutipile tables a b ≡ some q) × (q < 16)
galois_mutipile-small a b l m =
    let x = 16 * a + b in
    let (q, e, p) =
      reads-some (galois_mutipile tables (x / 16) (x % 16)) _
        (each_below_sound 256 _ x all_products (omega (arith, l, m))) in
    (
      q,
      ap (λ (c : ℕ). galois_mutipile tables c b) (sym (pair_high a b m))
          ∙ ap (galois_mutipile tables (x / 16)) (sym (pair_low a b m))
          ∙ e,
      ltb→lt q 16 p,
    )

bit_xor-cancels : (a b : ℕ) → a < 16 → b < 16 → (bit_xor a b < 16) × (bit_xor a (bit_xor a b) ≡ b)
bit_xor-cancels a b l m =
    let x = 16 * a + b in
    let (low, back) =
      and_true (ltb (bit_xor (x / 16) (x % 16)) 16) _
        (each_below_sound 256 _ x all_cancel (omega (arith, l, m))) in
    let high : x / 16 ≡ a = pair_high a b m in
    let rest : x % 16 ≡ b = pair_low a b m in
    (
      subst (λ (c : ℕ). bit_xor a c < 16) rest
          (subst (λ (c : ℕ). bit_xor c (x % 16) < 16) high (ltb→lt _ 16 low)),
      subst (λ (c : ℕ). bit_xor a (bit_xor a c) ≡ c) rest
          (subst (λ (c : ℕ). bit_xor c (bit_xor c (x % 16)) ≡ x % 16) high ((==_iff _ _).0 back)),
    )

-- The data and the coefficients of the disks are places of the tables.
abbrev pub AllInTable : List (ℕ × ℕ) → Type 0
AllInTable [] = Unit {0}
AllInTable ((d, k) ∷ rest) = (d < 16) × (k < 16) × AllInTable rest

sum_products-small :
    (sum : ℕ) (left : List (ℕ × ℕ))
    → sum < 16
    → AllInTable left
    → (s : ℕ) × (sum_products tables sum left ≡ some s) × (s < 16)
unfolding sum_products
sum_products-small sum [] l h = (sum, refl, l)
sum_products-small sum ((d, k) ∷ rest) l h =
    let (q, e, m) = galois_mutipile-small d k h.0 h.1 in
    let (s, f, n) = sum_products-small (bit_xor sum q) rest (bit_xor-cancels sum q l m).0 h.2 in
    (s, ap (λ o. o >>= λ q. sum_products tables (bit_xor sum q) rest) e ∙ f, n)

lost_disk :
    (lost : ℕ)
    → 0 < lost
    → lost < 16
    → (galois_mutipile tables lost 0 ≡ some lost) × (galois_division tables lost 0 ≡ some lost)
lost_disk lost low high =
    let whole : lost - 1 + 1 ≡ lost = omega (arith, low) in
    let (times, over) =
      and_true (reads (galois_mutipile tables (lost - 1 + 1) 0) (λ q. q == lost - 1 + 1)) _
        (each_below_sound 15 _ (lost - 1) all_lost (omega (arith, low, high))) in
    let (q, e, p) = reads-some (galois_mutipile tables (lost - 1 + 1) 0) _ times in
    let (r, f, o) = reads-some (galois_division tables (lost - 1 + 1) 0) _ over in
    (
      ap (λ (c : ℕ). galois_mutipile tables c 0) (sym whole)
          ∙ e
          ∙ ap some ((==_iff q _).0 p ∙ whole),
      ap (λ (c : ℕ). galois_division tables c 0) (sym whole)
          ∙ f
          ∙ ap some ((==_iff r _).0 o ∙ whole),
    )

-- With the tables that `generate_Galois_table` makes, the recovery finds a lost disk of 1 to 15
-- again, for any number of other disks, when their data and coefficients are below 16.
pub recover-lost :
    (left : List (ℕ × ℕ)) (lost : ℕ)
    → AllInTable left
    → 0 < lost
    → lost < 16
    → (t : GaloisTables) × (generate_galois_table ≡ some t) × (recover t left lost ≡ some lost)
unfolding recover
recover-lost left lost h low high =
    let (s, e, m) = sum_products-small 0 left (omega arith) h in
    let (times, over) = lost_disk lost low high in
    (
      tables,
      generate_galois_table-makes,
      ap
            (λ o. o >>= λ others. galois_mutipile tables lost 0 >>= λ product.
              galois_division tables (bit_xor others (bit_xor others product)) 0)
            e
          ∙ ap (λ o. o >>= λ product. galois_division tables (bit_xor s (bit_xor s product)) 0)
              times
          ∙ ap (λ (c : ℕ). galois_division tables c 0) (bit_xor-cancels s lost m high).1
          ∙ over,
    )
