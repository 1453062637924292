-- ===== src/PoolRegistry/Root.antt =====
-- `PoolRegistry::sqrt` of counter/src/liquidity_pool.rs. The fuel is y: `z` starts there and falls in
-- every round.
use swaptrade_contract.Prelude.{
  ℕ, zero, suc, ◌+◌, ◌-◌, ◌*◌, ◌/◌, ◌≡◌, ◌≤◌, ◌<◌, refl, inl, inr, true, false, Option, none, some,
  ltb, leb, ◌==◌, if◌then◌else◌, arith, Bool-cases,
}
use native.Mathlib.Nat.{le-div_iff_mul-le, mul_comm}

unfoldable pub sqrt_loop : ℕ → ℕ → ℕ → ℕ → Option ℕ
sqrt_loop zero y z x = none
sqrt_loop (suc fuel) y z x = elim (ltb x z) [
  | true ↦ sqrt_loop fuel y x ((y / x + x) / 2)
  | false ↦ some z
]

unfoldable pub sqrt : ℕ → Option ℕ
unfolding sqrt_loop
sqrt y = if ltb y 4 then some (if y == 0 then 0 else 1) else sqrt_loop y y y (y / 2 + 1)

-- (r - e) (r + e) ≤ r r and (x + 2 e) x ≤ (x + e) (x + e): a product against the square of the mean.
below_mean : (d e : ℕ) → d * (d + e + e) ≤ (d + e) * (d + e)
below_mean d e = omega arith

mean_split : (r x d e : ℕ) → x ≡ d + e + e → r ≡ d + e → d * x ≤ r * r
mean_split r x d e h k = rw (h, k) (below_mean d e)

-- In both cases `d` and `x` are as far from r.
mean_le : (r x d : ℕ) → d + x ≡ 2 * r → d * x ≤ r * r
mean_le r x d h = elim (Bool-cases (leb d x)) [
  | inl c ↦ mean_split r x d (x - r) (ground arith) (ground arith)
  | inr c ↦ rw (mul_comm d x) (mean_split r d x (d - r) (ground arith) (ground arith))
]

-- Every number whose square is at most y is at most z.
abbrev pub AtLeastRoot : ℕ → ℕ → Type 0
AtLeastRoot y z = (r : ℕ) → r * r ≤ y → r ≤ z

next-AtLeastRoot : (y x : ℕ) → 0 < x → AtLeastRoot y ((y / x + x) / 2)
next-AtLeastRoot y x p r h = elim (Bool-cases (leb (2 * r) x)) [
  | inl c ↦ let l : 2 * r ≤ x = ground arith in omega arith
  | inr c ↦
      let e : 2 * r - x + x ≡ 2 * r = ground arith in
      let m = mean_le r x (2 * r - x) e in
      let q : 2 * r - x ≤ y / x = (le-div_iff_mul-le p).1 (omega (arith, m, h)) in omega arith
]

-- It is the root once the next number is not smaller.
abbrev IsRoot : ℕ → ℕ → Type 0
IsRoot y r = (r * r ≤ y) × (y < (r + 1) * (r + 1))

stop-IsRoot : (y z : ℕ) → 0 < z → AtLeastRoot y z → z ≤ (y / z + z) / 2 → IsRoot y z
stop-IsRoot y z p a h =
    let q : z ≤ y / z = omega arith in ((le-div_iff_mul-le p).0 q, ground (arith, a (z + 1)))

sqrt_loop-IsRoot :
    (fuel y z : ℕ)
    → 0 < y
    → 0 < z
    → z ≤ fuel
    → AtLeastRoot y z
    → (r : ℕ) × (sqrt_loop fuel y z ((y / z + z) / 2) ≡ some r) × IsRoot y r
unfolding sqrt_loop
sqrt_loop-IsRoot zero y z q p l a = absurd (omega arith)
sqrt_loop-IsRoot (suc fuel) y z q p l a =
    let x = (y / z + z) / 2 in
    let b = next-AtLeastRoot y z p in
    elim (Bool-cases (ltb x z)) [
      | inl c ↦ rw (sqrt_loop, c) (sqrt_loop-IsRoot fuel y x q (b 1 (omega arith)) (ground arith) b)
      | inr c ↦ rw (sqrt_loop, c) (z, refl, stop-IsRoot y z p a (ground arith))
    ]

half-AtLeastRoot : (y : ℕ) → AtLeastRoot y (y / 2 + 1)
half-AtLeastRoot y r h =
    let m = mean_le r 1 (2 * r - 1) in
    elim (Bool-cases (r == 0)) [
      | inl c ↦ ground arith
      | inr c ↦ let l : (2 * r - 1) * 1 ≤ r * r = m (ground arith) in omega (arith, h, l)
    ]

-- For every y, `sqrt` comes to an end with the r that has r * r ≤ y < (r + 1) * (r + 1).
pub sqrt-IsRoot : (y : ℕ) → (r : ℕ) × (sqrt y ≡ some r) × (r * r ≤ y) × (y < (r + 1) * (r + 1))
unfolding sqrt sqrt_loop
sqrt-IsRoot zero = (0, refl, omega arith, omega arith)
sqrt-IsRoot (suc n) = elim (Bool-cases (ltb (suc n) 4)) [
  | inl c ↦ let small : suc n < 4 = ground arith in (1, ground arith, omega arith, omega arith)
  | inr c ↦
      let first : ltb (suc n / 2 + 1) (suc n) ≡ true = ground arith in
      let (r, e, l) =
        sqrt_loop-IsRoot n (suc n) (suc n / 2 + 1) (omega arith) (omega arith) (ground arith)
          (half-AtLeastRoot (suc n)) in
      (r, rw (c, sqrt_loop, first) e, l.0, l.1)
]
