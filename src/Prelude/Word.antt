-- ===== src/Prelude/Word.antt =====
-- Machine words as native numbers: the ranges of u8, u16, u64, u128 and i64, and the saturating
-- operations of the Rust standard library that the program calls.
use hwal.Prelude.Decide.{leb, ◌==◌, if◌then◌else◌}
use hwal.Prelude.Int.{ℤ, pos, negsuc, ◌+ℤ◌, ◌-ℤ◌, ◌≤ℤ◌, ltb_ℤ, leb_ℤ}
use Prim.Native.Nat.{ℕ, ◌+◌, ◌-◌, ◌*◌, ◌/◌, ◌^◌, ◌<◌}
use mathlib.Core.Option.{Option, none, some}
use mathlib.Core.Path.{◌≡◌}
use mathlib.Core.Logic.{◌↔◌}
use mathlib.Core.Bool.{true}
use native.Mathlib.Omega.{arith}

abbrev pub u64_max : ℕ
u64_max = 2 ^ 64 - 1

abbrev pub u128_max : ℕ
u128_max = 2 ^ 128 - 1

abbrev pub i64_max : ℤ
i64_max = pos (2 ^ 63 - 1)

abbrev pub i64_min : ℤ
i64_min = negsuc (2 ^ 63 - 1)

-- The value fits into 64 signed bits.
abbrev pub IsI64 : ℤ → Type 0
IsI64 t = (i64_min ≤ℤ t) × (t ≤ℤ i64_max)

-- `u64::saturating_add`
abbrev pub saturating_add : ℕ → ℕ → ℕ
saturating_add a b = if leb (a + b) u64_max then a + b else u64_max

-- The nearest value that fits into an `i64`.
abbrev pub clamp_i64 : ℤ → ℤ
clamp_i64 t = if ltb_ℤ t i64_min then i64_min else if ltb_ℤ i64_max t then i64_max else t

-- `i64::saturating_sub`
unfoldable pub saturating_sub : ℤ → ℤ → ℤ
saturating_sub a b = clamp_i64 (a -ℤ b)

-- Saturation does not change the comparison of a difference with a small bound.
pub saturating_sub-le_iff :
    (a b : ℤ) (n : ℕ)
    → n < 2 ^ 63 - 1
    → (leb_ℤ (saturating_sub a b) (pos n) ≡ true) ↔ (a ≤ℤ b +ℤ pos n)
unfolding saturating_sub ◌+ℤ◌ ◌-ℤ◌
saturating_sub-le_iff a b n h = ground arith

-- The same for a difference of at least zero.
pub saturating_sub-nonneg_iff : (a b : ℤ) → (leb_ℤ (pos 0) (saturating_sub a b) ≡ true) ↔ (b ≤ℤ a)
unfolding saturating_sub ◌-ℤ◌
saturating_sub-nonneg_iff a b = ground arith

-- `checked_add`, `checked_sub` and `checked_mul` of an unsigned type with the given largest value.
abbrev pub checked_add : ℕ → ℕ → ℕ → Option ℕ
checked_add top a b = if leb (a + b) top then some (a + b) else none

abbrev pub checked_sub : ℕ → ℕ → Option ℕ
checked_sub a b = if leb b a then some (a - b) else none

abbrev pub checked_mul : ℕ → ℕ → ℕ → Option ℕ
checked_mul top a b = if leb (a * b) top then some (a * b) else none

abbrev pub checked_div : ℕ → ℕ → Option ℕ
checked_div a b = if b == 0 then none else some (a / b)

-- `u64::try_from`
abbrev pub try_u64 : ℕ → Option ℕ
try_u64 a = if leb a u64_max then some a else none

-- `Option::and_then`
abbrev pub and_then : Option ℕ → (ℕ → Option ℕ) → Option ℕ
and_then none f = none
and_then (some a) f = f a
