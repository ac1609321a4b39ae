-- ===== src/Common/Words.antt =====
-- C's unsigned words as native numbers: `wrap32` and `wrap64` are the conversions, the operations
-- wrap, and a division or remainder by zero is a fault, `none`.
use Prim.Native.Nat.{ℕ, ◌+◌, ◌-◌, ◌*◌, ◌/◌, ◌%◌, ◌^◌}
use mathlib.Core.Option.{Option, none, some}
use jraid.Common.Tests.{◌==◌, if◌then◌else◌}

abbrev pub wrap32 : ℕ → ℕ
wrap32 a = a % 2 ^ 32

abbrev pub wrap64 : ℕ → ℕ
wrap64 a = a % 2 ^ 64

abbrev pub add32 : ℕ → ℕ → ℕ
add32 a b = wrap32 (a + b)

abbrev pub sub32 : ℕ → ℕ → ℕ
sub32 a b = wrap32 (a + 2 ^ 32 - b)

abbrev pub add64 : ℕ → ℕ → ℕ
add64 a b = wrap64 (a + b)

abbrev pub sub64 : ℕ → ℕ → ℕ
sub64 a b = wrap64 (a + 2 ^ 64 - b)

abbrev pub mul64 : ℕ → ℕ → ℕ
mul64 a b = wrap64 (a * b)

abbrev pub div? : ℕ → ℕ → Option ℕ
div? a b = if b == 0 then none else some (a / b)

abbrev pub mod? : ℕ → ℕ → Option ℕ
mod? a b = if b == 0 then none else some (a % b)
