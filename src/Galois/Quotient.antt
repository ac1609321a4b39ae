-- ===== src/Galois/Quotient.antt =====
-- The quotient of a product.
use Prim.Native.Nat.{bit_xor}
use jraid.Common.{
  ℕ, ◌+◌, ◌*◌, ◌/◌, ◌%◌, ◌<◌, ◌≡◌, ◌≢◌, ◌↔◌, Bool, true, false, not, ◌||◌, Option, none, some, ◌==◌,
  ◌>>=◌, arith, refl, ap, ◌∙◌, subst, get_elem?, ==_iff, inl, inr, Bool-cases, true≢false, some_inj,
}
use jraid.Galois.{GaloisTables, generate_galois_table, galois_mutipile, galois_division}
use jraid.Galois.Tables.{tables, generate_galois_table-makes, each_below, each_below_sound, reads}

-- The quotient of the product by its second factor.
abbrev pub back : GaloisTables → ℕ → ℕ → Option ℕ
back t a b = galois_mutipile t a b >>= λ c. galois_division t c b

-- The exclusive or of the logarithms.
abbrev pub log_sum : GaloisTables → ℕ → ℕ → Option ℕ
log_sum t a b = get_elem? t.log a >>= λ x. get_elem? t.log b >>= λ y. some (bit_xor x y)

same_bool : Bool → Bool → Bool
same_bool true b = b
same_bool false b = not b

same_bool-eq : (a b : Bool) → same_bool a b ≡ true → a ≡ b
unfolding same_bool
same_bool-eq true true h = refl
same_bool-eq true false h = cc
same_bool-eq false true h = cc
same_bool-eq false false h = refl

-- For numbers from 1 to 15, the two tests agree.
abbrev agrees_at : ℕ → Bool
agrees_at x =
    x / 16 == 0
    || x % 16 == 0
    || same_bool (reads (back tables (x / 16) (x % 16)) (λ c. c == x / 16))
        (not (reads (log_sum tables (x / 16) (x % 16)) (λ s. s == 15)))

all_agree : each_below 256 agrees_at ≡ true
unfolding each_below same_bool galois_mutipile galois_division
all_agree = refl

agree :
    (a b : ℕ)
    → 0 < a
    → a < 16
    → 0 < b
    → b < 16
    → reads (back tables a b) (λ c. c == a) ≡ not (reads (log_sum tables a b) (λ s. s == 15))
agree a b la ha lb hb =
    let x = 16 * a + b in
    let high : x / 16 ≡ a = omega (arith, hb) in
    let low : x % 16 ≡ b = omega (arith, hb) in
    let at = each_below_sound 256 _ x all_agree (omega (arith, ha, hb)) in
    subst
      (λ (c : ℕ).
        reads (back tables a c) (λ d. d == a) ≡ not (reads (log_sum tables a c) (λ s. s == 15)))
      low
      (subst
        (λ (c : ℕ).
          reads (back tables c (x % 16)) (λ d. d == c)
          ≡ not (reads (log_sum tables c (x % 16)) (λ s. s == 15)))
        high
        (same_bool-eq _ _
          (neither (x / 16) (x % 16) _ (omega (arith, high, la)) (omega (arith, low, lb)) at)))
  where
    neither : (m n : ℕ) (b : Bool) → 0 < m → 0 < n → m == 0 || n == 0 || b ≡ true → b ≡ true
    neither m n b p q h = ground (arith, p, q, h)

reads_iff : (o : Option ℕ) (n : ℕ) → (reads o (λ c. c == n) ≡ true) ↔ (o ≡ some n)
reads_iff none n = (λ h. cc, λ h. cc)
reads_iff (some c) n = (λ h. ap some ((==_iff c n).0 h), λ h. (==_iff c n).1 (some_inj h))

-- With the tables that `generate_Galois_table` makes, for numbers from 1 to 15,
-- `Galois_division` takes the product that `Galois_mutipile` makes back to the first factor exactly
-- if the exclusive or of the two logarithms is not 15.
pub galois_division-mutipile :
    (a b : ℕ)
    → 0 < a
    → a < 16
    → 0 < b
    → b < 16
    → (t : GaloisTables) × (generate_galois_table ≡ some t)
      × ((back t a b ≡ some a) ↔ (log_sum t a b ≢ some 15))
galois_division-mutipile a b la ha lb hb =
    let same = agree a b la ha lb hb in
    (
      tables,
      generate_galois_table-makes,
      (
        λ h e.
            let bad = (reads_iff (log_sum tables a b) 15).1 e in
            true≢false ((reads_iff (back tables a b) a).1 h) (same ∙ ap not bad),
        λ ne. elim (Bool-cases (reads (log_sum tables a b) (λ s. s == 15))) [
          | inl e ↦ absurd (ne ((reads_iff (log_sum tables a b) 15).0 e))
          | inr e ↦ (reads_iff (back tables a b) a).0 (same ∙ ap not e)
        ],
      ),
    )
