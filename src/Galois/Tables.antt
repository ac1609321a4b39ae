-- ===== src/Galois/Tables.antt =====
-- The two tables, one against the other.
use jraid.Common.{
  ℕ, zero, suc, ◌+◌, ◌-◌, ◌<◌, ◌≡◌, Bool, true, false, ◌&&◌, Option, none, some, [], ◌∷◌, ◌==◌, ltb,
  arith, refl, sym, ap, ◌∙◌, get_elem?, ==_iff, ltb→lt,
}
use jraid.Galois.{GaloisTables, generate_galois_table, table_rounds, table_round, put}

-- A test of every number below a bound.
unfoldable pub each_below : ℕ → (ℕ → Bool) → Bool
each_below zero p = true
each_below (suc n) p = p n && each_below n p

pub each_below_sound : (n : ℕ) (p : ℕ → Bool) (x : ℕ) → each_below n p ≡ true → x < n → p x ≡ true
unfolding each_below
each_below_sound zero p x h l = absurd (omega arith)
each_below_sound (suc n) p x h l = ground (arith, each_below_sound n p x)

-- The value read, if it passes a test.
abbrev pub reads : Option ℕ → (ℕ → Bool) → Bool
reads none p = false
reads (some a) p = p a

pub reads-some :
    (o : Option ℕ) (p : ℕ → Bool) → reads o p ≡ true → (a : ℕ) × (o ≡ some a) × (p a ≡ true)
reads-some none p h = cc
reads-some (some a) p h = (a, refl, h)

-- The tables that the loop makes.
abbrev pub tables : GaloisTables
tables = record {
  log = 0 ∷ 0 ∷ 1 ∷ 4 ∷ 2 ∷ 8 ∷ 5 ∷ 10 ∷ 3 ∷ 14 ∷ 9 ∷ 7 ∷ 6 ∷ 13 ∷ 11 ∷ 12 ∷ [];
  alog = 1 ∷ 2 ∷ 4 ∷ 8 ∷ 3 ∷ 6 ∷ 12 ∷ 11 ∷ 5 ∷ 10 ∷ 7 ∷ 14 ∷ 15 ∷ 13 ∷ 9 ∷ 0 ∷ [];
}

pub generate_galois_table-makes : generate_galois_table ≡ some tables
unfolding generate_galois_table table_rounds table_round put
generate_galois_table-makes = refl

-- alog[i] is a number from 1 to 15 of which the logarithm is i.
abbrev inverse_at : GaloisTables → ℕ → Bool
inverse_at t i =
    reads (get_elem? t.alog i) (λ a. ltb 0 a && ltb a 16 && reads (get_elem? t.log a) (λ j. j == i))

abbrev log_at : GaloisTables → ℕ → Bool
log_at t a =
    reads (get_elem? t.log (a + 1)) (λ i. ltb i 15 && reads (get_elem? t.alog i) (λ b. b == a + 1))

all_inverse : (each_below 15 (inverse_at tables) && each_below 15 (log_at tables)) ≡ true
unfolding each_below
all_inverse = refl

pub and_true : (a b : Bool) → a && b ≡ true → (a ≡ true) × (b ≡ true)
and_true true b h = (refl, h)
and_true false b h = cc

-- `generate_Galois_table` ends without an access outside the tables. Each of the numbers 1 to 15 is
-- then at one place of `alog` below 15, and `log` has that place for it: the two tables are inverse
-- to each other.
generate_galois_table-inverse :
    (t : GaloisTables) × (generate_galois_table ≡ some t)
    × ((i : ℕ)
        → i < 15
        → (a : ℕ) × (get_elem? t.alog i ≡ some a)
          × (0 < a)
          × (a < 16)
          × (get_elem? t.log a ≡ some i))
    × ((a : ℕ)
        → 0 < a
        → a < 16
        → (i : ℕ) × (get_elem? t.log a ≡ some i) × (i < 15) × (get_elem? t.alog i ≡ some a))
generate_galois_table-inverse =
    let (places, numbers) = and_true (each_below 15 (inverse_at tables)) _ all_inverse in
    (
      tables,
      generate_galois_table-makes,
      λ i h.
          let (a, e, p) =
            reads-some (get_elem? tables.alog i) _ (each_below_sound 15 _ i places h) in
          let (bounds, back) = and_true (ltb 0 a && ltb a 16) _ p in
          let (low, high) = and_true (ltb 0 a) _ bounds in
          let (j, f, same) = reads-some (get_elem? tables.log a) _ back in
          (a, e, ltb→lt 0 a low, ltb→lt a 16 high, f ∙ ap some ((==_iff j i).0 same)),
      λ a low high.
          let whole : a - 1 + 1 ≡ a = omega (arith, low) in
          let (i, e, p) =
            reads-some (get_elem? tables.log (a - 1 + 1)) _
              (each_below_sound 15 _ (a - 1) numbers (omega (arith, low, high))) in
          let (few, back) = and_true (ltb i 15) _ p in
          let (b, f, same) = reads-some (get_elem? tables.alog i) _ back in
          (
            i,
            ap (get_elem? tables.log) (sym whole) ∙ e,
            ltb→lt i 15 few,
            f ∙ ap some ((==_iff b (a - 1 + 1)).0 same ∙ whole),
          ),
    )
