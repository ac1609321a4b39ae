-- ===== src/Common/Lists.antt =====
-- Lists measured and indexed by native numbers.
use Prim.Native.Nat.{ℕ, zero, suc, ◌+◌, ◌-◌, ◌≤◌, ◌<◌}
use mathlib.Core.Path.{◌≡◌, refl, ap, fun_ext}
use mathlib.Core.List.{List, [], ◌∷◌, ◌++◌}
use mathlib.Core.Option.{Option, none, some}
use native.Mathlib.Decide.{dec_lt}
use native.Mathlib.Omega.{arith}
use jraid.Common.Tests.{◌==◌, ltb, if◌then◌else◌, ==_refl, Bool-cases}
use mathlib.Core.Logic.{inl, inr}

module _ {ℓ} {A : Type ℓ} where
  abbrev pub length : List A → ℕ
  length [] = 0
  length (x ∷ xs) = suc (length xs)

  abbrev pub get_elem? : List A → ℕ → Option A
  get_elem? [] i = none
  get_elem? (x ∷ xs) zero = some x
  get_elem? (x ∷ xs) (suc i) = get_elem? xs i

  pub length-append : (xs ys : List A) → length (xs ++ ys) ≡ length xs + length ys
  length-append [] ys = omega arith
  length-append (x ∷ xs) ys = omega (arith, length-append xs ys)

-- How often a number stands in a list, and the list less its first occurrence.
abbrev pub occ : ℕ → List ℕ → ℕ
occ s [] = 0
occ s (x ∷ xs) = (if s == x then 1 else 0) + occ s xs

pub remove : ℕ → List ℕ → List ℕ
remove s [] = []
remove s (x ∷ xs) = if s == x then xs else x ∷ remove s xs

pub occ-append : (s : ℕ) (xs ys : List ℕ) → occ s (xs ++ ys) ≡ occ s xs + occ s ys
occ-append s [] ys = omega arith
occ-append s (x ∷ xs) ys = omega (arith, occ-append s xs ys)

pub occ-remove :
    (s t : ℕ) (xs : List ℕ) → occ s (remove t xs) ≡ (if s == t then occ s xs - 1 else occ s xs)
unfolding remove
occ-remove s t [] = ground arith
occ-remove s t (x ∷ xs) = ground (arith, occ-remove s t xs)

pub length-remove : (s : ℕ) (xs : List ℕ) → 0 < occ s xs → length (remove s xs) + 1 ≡ length xs
unfolding remove
length-remove s [] h = absurd (omega arith)
length-remove s (x ∷ xs) h = ground (arith, length-remove s xs)

pub remove-head : (s : ℕ) (xs : List ℕ) → remove s (s ∷ xs) ≡ xs
unfolding remove
remove-head s xs = rw (==_refl s) refl

pub remove-absent : (s : ℕ) (xs : List ℕ) → occ s xs ≡ 0 → remove s xs ≡ xs
unfolding remove
remove-absent s [] h = refl
remove-absent s (x ∷ xs) h = ground (arith, remove-absent s xs)

pub length-remove_absent : (s : ℕ) (xs : List ℕ) → occ s xs ≡ 0 → length (remove s xs) ≡ length xs
length-remove_absent s xs h = ap length (remove-absent s xs h)

length-le-remove : (s : ℕ) (xs : List ℕ) → length xs ≤ length (remove s xs) + 1
length-le-remove s xs = elim (dec_lt 0 (occ s xs)) [
  | yes p ↦ omega (arith, length-remove s xs p)
  | no p ↦ omega (arith, ap length (remove-absent s xs (omega arith)))
]

-- A list without repetition of numbers below `n` has at most `n` of them.
pub length_le_of_occ :
    (n : ℕ) (xs : List ℕ) → ((s : ℕ) → occ s xs ≤ (if ltb s n then 1 else 0)) → length xs ≤ n
length_le_of_occ zero [] h = omega arith
length_le_of_occ zero (x ∷ xs) h = absurd (ground (arith, h x))
length_le_of_occ (suc n) xs h =
    let rest = length_le_of_occ n (remove n xs) (λ s. ground (arith, h s, occ-remove s n xs)) in
    omega (arith, rest, length-le-remove n xs)

-- A store: a total function from addresses, changed at one of them.
abbrev pub update {ℓ} : {A : Type ℓ} → (ℕ → A) → ℕ → A → ℕ → A
update f i a j = if j == i then a else f j

pub update_self {ℓ} : {A : Type ℓ} (f : ℕ → A) (i : ℕ) (a : A) → update f i a i ≡ a
update_self f i a = rw (==_refl i)

pub update-update {ℓ} :
    {A : Type ℓ} (f : ℕ → A) (i : ℕ) (a b : A) → update (update f i a) i b ≡ update f i b
update-update f i a b = fun_ext (λ j. if_same j)
  where
    if_same : (j : ℕ) → update (update f i a) i b j ≡ update f i b j
    if_same j = elim (Bool-cases (j == i)) [ inl e ↦ rw e | inr e ↦ rw e ]
