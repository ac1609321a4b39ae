-- ===== src/Galois.antt =====
-- The demonstration of algorithm/raid6_pq/algorithm.c: logarithm tables of a field of 16 elements, a
-- product and a quotient by them, and the recovery of a lost disk. An access outside a table is
-- `none`. What `main` prints is left out; its random numbers are arguments.
pub mod Tables
pub mod Recovery
pub mod Quotient
mod Examples
use Prim.Native.Nat.{bit_xor, bit_and}
use jraid.Common.{
  ℕ, zero, suc, ◌+◌, ◌-◌, ◌*◌, ◌%◌, Option, some, none, List, [], ◌∷◌, ◌==◌, ltb, ◌>>=◌,
  if◌then◌else◌, get_elem?,
}
use jraid.Handle.{modify_at}

-- `log` and `alog`
pub record GaloisTables : Type 0 where
  pub log : List ℕ
  pub alog : List ℕ

abbrev pub zeros : ℕ → List ℕ
zeros zero = []
zeros (suc n) = 0 ∷ zeros n

-- A write `list[i] = v`.
unfoldable pub put : List ℕ → ℕ → ℕ → Option (List ℕ)
put list i v = do _ ← get_elem? list i; some (modify_at i (λ _. v) list)

-- A round of the loop of `generate_Galois_table`.
unfoldable pub table_round : ℕ → GaloisTables → Option GaloisTables
unfolding put
table_round i t = do
  prev ← get_elem? t.alog (i - 1)
  let alog_data = (if bit_and (prev * 2) 16 == 0 then prev * 2 else bit_xor (prev * 2) 19)
  alog ← put t.alog i alog_data
  log ← put t.log alog_data i
  some (record { log = log; alog = alog })

-- The loop, with `count` rounds left.
unfoldable pub table_rounds : ℕ → ℕ → GaloisTables → Option GaloisTables
unfolding table_round
table_rounds zero i t = some t
table_rounds (suc count) i t = do t1 ← table_round i t; table_rounds count (i + 1) t1

-- `generate_Galois_table`
unfoldable pub generate_galois_table : Option GaloisTables
unfolding put table_rounds
generate_galois_table = do
  alog ← put (zeros 16) 0 1
  table_rounds 14 1 (record { log = zeros 16; alog = alog })

-- `Galois_mutipile`: the logarithms are joined by an exclusive or.
unfoldable pub galois_mutipile : GaloisTables → ℕ → ℕ → Option ℕ
galois_mutipile t a b = do
  x ← get_elem? t.log a
  y ← get_elem? t.log b
  get_elem? t.alog (bit_xor x y % 15)

-- `Galois_division`
unfoldable pub galois_division : GaloisTables → ℕ → ℕ → Option ℕ
galois_division t a b = do
  x ← get_elem? t.log a
  y ← get_elem? t.log b
  get_elem? t.alog ((bit_xor x y + 15) % 15)

-- The sum of the products of data and coefficients, from `sum` on: the loops over `Q` and over the
-- disks that are left.
unfoldable pub sum_products : GaloisTables → ℕ → List (ℕ × ℕ) → Option ℕ
sum_products t sum [] = some sum
sum_products t sum ((d, k) ∷ rest) = do
  q ← galois_mutipile t d k
  sum_products t (bit_xor sum q) rest

-- The rest of `main` for the disks `left` and the lost disk, whose coefficient K[T_NUM] is 0: `Q` is
-- made from all disks, and the lost one found again from `Q` and the others.
unfoldable pub recover : GaloisTables → List (ℕ × ℕ) → ℕ → Option ℕ
unfolding sum_products galois_mutipile galois_division
recover t left lost = do
  others ← sum_products t 0 left
  product ← galois_mutipile t lost 0
  let q = bit_xor others product
  galois_division t (bit_xor others q) 0
