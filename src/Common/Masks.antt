-- ===== src/Common/Masks.antt =====
-- `bit_and` with a mask of ones above zeros, as the driver rounds sizes with.
use Prim.Native.Nat.{
  ℕ, zero, suc, ◌+◌, ◌-◌, ◌*◌, ◌/◌, ◌%◌, ◌≤◌, ◌<◌, ◌^◌, min, bit_and, digits, bit_and-bitwise,
}
use mathlib.Core.Path.{◌≡◌, refl, sym, ap, ◌∙◌, subst}
use native.Mathlib.Omega.{arith}

-- The mask of `ones` ones before `zeros` zeros, and what it leaves of a number.
mask : ℕ → ℕ → ℕ
mask zero zero = 0
mask zero (suc ones) = 2 * mask zero ones + 1
mask (suc zeros) ones = 2 * mask zeros ones

kept : ℕ → ℕ → ℕ → ℕ
kept zero zero a = 0
kept zero (suc ones) a = 2 * kept zero ones (a / 2) + a % 2
kept (suc zeros) ones a = 2 * kept zeros ones (a / 2)

kept-nothing : (zeros ones : ℕ) → kept zeros ones 0 ≡ 0
unfolding kept
kept-nothing zero zero = refl
kept-nothing zero (suc ones) = omega (arith, kept-nothing zero ones)
kept-nothing (suc zeros) ones = omega (arith, kept-nothing zeros ones)

-- The digits of the mask go with those of the number, of which there are at most `count`.
digits-mask :
    (count zeros ones a : ℕ)
    → a ≤ count
    → digits (λ b. zero) min count a (mask zeros ones) ≡ kept zeros ones a
unfolding mask kept
digits-mask zero zeros ones a h =
    subst (λ x. zero ≡ kept zeros ones x) (omega arith) (sym (kept-nothing zeros ones))
digits-mask (suc count) zeros ones zero h = sym (kept-nothing zeros ones)
digits-mask (suc count) zero zero (suc a) h =
    omega (arith, digits-mask count zero zero (suc a / 2) (omega arith))
digits-mask (suc count) zero (suc ones) (suc a) h =
    let half : (2 * mask zero ones + 1) / 2 ≡ mask zero ones = omega arith in
    let rest = digits-mask count zero ones (suc a / 2) (omega arith) in
    let moved = ap (digits (λ b. zero) min count (suc a / 2)) half in omega (arith, rest, moved)
digits-mask (suc count) (suc zeros) ones (suc a) h =
    let half : 2 * mask zeros ones / 2 ≡ mask zeros ones = omega arith in
    let rest = digits-mask count zeros ones (suc a / 2) (omega arith) in
    let moved = ap (digits (λ b. zero) min count (suc a / 2)) half in omega (arith, rest, moved)

bit_and-mask : (a zeros ones : ℕ) → bit_and a (mask zeros ones) ≡ kept zeros ones a
bit_and-mask a zeros ones =
    (λ i. bit_and-bitwise a (mask zeros ones) i) ∙ digits-mask a zeros ones a (omega arith)

-- The upper 26 of 32 bits, and the upper 50 of 64 bits.
pub mask_64 : (a : ℕ) → bit_and a (2 ^ 32 - 64) ≡ a % 2 ^ 32 - a % 64
unfolding mask kept
mask_64 a = omega (arith, bit_and-mask a 6 26)

pub mask_16384 : (a : ℕ) → a < 2 ^ 64 → bit_and a (2 ^ 64 - 16384) ≡ a - a % 16384
unfolding mask kept
mask_16384 a h = omega (arith, bit_and-mask a 14 50)
