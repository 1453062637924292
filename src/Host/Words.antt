-- ===== src/Host/Words.antt =====
-- The arithmetic of i128 and u128 that the contracts use: casts, saturating and checked operations.
use swaptrade_contract.Prelude.{
  ℕ, ◌+◌, ◌-◌, ◌*◌, ◌/◌, min, Bool, ◌&&◌, Option, none, some, ltb, if◌then◌else◌,
}
use swaptrade_contract.Prelude.Int.{ℤ, pos, negsuc, ◌+ℤ◌, ◌-ℤ◌, ◌*ℤ◌, leb_ℤ, ltb_ℤ}

abbrev pub u128_max : ℕ
u128_max = 340282366920938463463374607431768211455

abbrev pub i128_max : ℤ
i128_max = pos 170141183460469231731687303715884105727

abbrev pub i128_min : ℤ
i128_min = negsuc 170141183460469231731687303715884105727

-- `x as u128` of an i128, and `n as i128` of a u128: the bits are kept.
abbrev pub as_u128 : ℤ → ℕ
as_u128 (pos n) = n
as_u128 (negsuc n) = u128_max - n

abbrev pub as_i128 : ℕ → ℤ
as_i128 n = if ltb 170141183460469231731687303715884105727 n then negsuc (u128_max - n) else pos n

-- The nearest i128, as the saturating operations answer.
abbrev pub clamp : ℤ → ℤ
clamp z = if ltb_ℤ z i128_min then i128_min else if ltb_ℤ i128_max z then i128_max else z

unfoldable pub saturating_add_i128 : ℤ → ℤ → ℤ
unfolding ◌+ℤ◌
saturating_add_i128 a b = clamp (a +ℤ b)

unfoldable pub saturating_sub_i128 : ℤ → ℤ → ℤ
unfolding ◌-ℤ◌
saturating_sub_i128 a b = clamp (a -ℤ b)

unfoldable pub saturating_mul_i128 : ℤ → ℤ → ℤ
unfolding ◌*ℤ◌
saturating_mul_i128 a b = clamp (a *ℤ b)

unfoldable pub saturating_mul_u128 : ℕ → ℕ → ℕ
saturating_mul_u128 a b = min (a * b) u128_max

-- Is it an i128? A checked operation that leaves the range panics, or is `None`.
abbrev pub is_i128 : ℤ → Bool
is_i128 z = leb_ℤ i128_min z && leb_ℤ z i128_max

abbrev pub checked_i128 : ℤ → Option ℤ
checked_i128 z = if is_i128 z then some z else none

abbrev pub checked_u128 : ℕ → Option ℕ
checked_u128 n = if ltb u128_max n then none else some n

-- `a / b` on i128, rounded towards 0; the divisor is not 0.
abbrev pub quot : ℤ → ℤ → ℤ
quot (pos a) (pos b) = pos (a / b)
quot (pos a) (negsuc b) = pos 0 -ℤ pos (a / (b + 1))
quot (negsuc a) (pos b) = pos 0 -ℤ pos ((a + 1) / b)
quot (negsuc a) (negsuc b) = pos ((a + 1) / (b + 1))
