-- ===== src/TradeEngine/Pools/Bounds.antt =====
-- The amounts that a pool gives: `get_amount_out`.
use swaptrade_contract.Prelude.{
  ℕ, ◌+◌, ◌-◌, ◌*◌, ◌/◌, ◌≡◌, ◌≤◌, ◌||◌, none, some, if◌then◌else◌, arith, ap,
}
use native.Mathlib.Nat.{mul-le-mul_left, div-mul-le_self}
use swaptrade_contract.Prelude.Int.{ℤ, pos, leb_ℤ, ltb_ℤ, ◌+ℤ◌, ◌-ℤ◌, ◌*ℤ◌}
use swaptrade_contract.Host.{Result, ok, err, trap}
use swaptrade_contract.Host.Words.{
  saturating_add_i128, saturating_sub_i128, saturating_mul_i128, checked_i128, quot,
}
use swaptrade_contract.TradeEngine.Pools.{is_zero, get_amount_out}
use swaptrade_contract.TradeEngine.Types.{TradeError, insufficient_liquidity}

-- The largest i128.
abbrev max : ℕ
max = 170141183460469231731687303715884105727

mul-pos : (a b : ℕ) → a * b ≤ max → saturating_mul_i128 (pos a) (pos b) ≡ pos (a * b)
unfolding saturating_mul_i128 ◌*ℤ◌
mul-pos a b h = ground arith

add-pos : (a b : ℕ) → a + b ≤ max → saturating_add_i128 (pos a) (pos b) ≡ pos (a + b)
unfolding saturating_add_i128 ◌+ℤ◌
add-pos a b h = ground arith

sub-pos : (a b : ℕ) → b ≤ a → a ≤ max → saturating_sub_i128 (pos a) (pos b) ≡ pos (a - b)
unfolding saturating_sub_i128 ◌-ℤ◌
sub-pos a b h k = ground arith

product_rest :
    (a i d m r : ℕ)
    → m ≤ 10000
    → r * (i * 10000 + a * m) ≤ a * m * (r + d)
    → i * (r + d) ≤ (i + a) * d
product_rest a i d m r h k =
    let l : a * d * m ≤ a * d * 10000 = mul-le-mul_left (a * d) h in
    let c : r * (i * 10000) ≤ a * d * m = omega arith in
    let e : r * i ≤ a * d = omega arith in omega arith

-- The reserves' product does not fall: with m of 10000 parts of the input, the amount r taken out
-- of o against i is at most a m o / (10000 i + a m).
product_lem :
    (a i o m r : ℕ)
    → m ≤ 10000
    → r ≤ o
    → r * (i * 10000 + a * m) ≤ a * m * o
    → i * o ≤ (i + a) * (o - r)
product_lem a i o m r h l k =
    let e : o ≡ r + (o - r) = omega arith in
    let k' : r * (i * 10000 + a * m) ≤ a * m * (r + (o - r)) = rw e at k in
    let g = product_rest a i (o - r) m r h k' in omega (arith, ap (λ (t : ℕ). i * t) e)

-- `get_amount_out` past its saturating operations.
abbrev exact : ℕ → ℕ → ℕ → ℕ → ℕ → Result TradeError ℤ
exact a i o num den =
    if leb_ℤ (pos a) (pos 0) || leb_ℤ (pos i) (pos 0) || leb_ℤ (pos o) (pos 0)
    then err insufficient_liquidity
    else if is_zero (pos den)
    then err insufficient_liquidity
    else elim (checked_i128 (quot (pos num) (pos den))) [
      | none ↦ trap
      | some amount_out ↦
          if leb_ℤ amount_out (pos 0) || ltb_ℤ (pos o) amount_out
          then err insufficient_liquidity
          else ok amount_out
    ]

exact_lem :
    (a i o num den : ℕ) (r : ℤ)
    → exact a i o num den ≡ ok r
    → (r ≡ pos (num / den)) × (1 ≤ num / den) × (num / den ≤ o)
exact_lem a i o num den r h = (ground arith, ground arith, ground arith)

-- Where nothing saturates, the fee is at most 10000 basis points, and an amount is returned, the
-- amount is at least 1 and at most the reserve, and the product of the reserves does not fall
-- when the input is added to the one and the amount taken from the other.
pub get_amount_out_product :
    (a i o fee : ℕ) (r : ℤ)
    → fee ≤ 10000
    → a * (10000 - fee) * o ≤ max
    → i * 10000 + a * (10000 - fee) ≤ max
    → get_amount_out (pos a) (pos i) (pos o) fee ≡ ok r
    → (n : ℕ) × (r ≡ pos n) × (1 ≤ n) × (n ≤ o) × (i * o ≤ (i + a) * (o - n))
unfolding get_amount_out
get_amount_out_product a i o fee r f s t h =
    let m = sub-pos 10000 fee f (omega arith) in
    let p = mul-pos a (10000 - fee) (omega arith) in
    let q = mul-pos (a * (10000 - fee)) o s in
    let u = mul-pos i 10000 (omega arith) in
    let v = add-pos (i * 10000) (a * (10000 - fee)) t in
    let h' : exact a i o (a * (10000 - fee) * o) (i * 10000 + a * (10000 - fee)) ≡ ok r =
      rw (m, p, q, u, v) at h in
    let n = a * (10000 - fee) * o / (i * 10000 + a * (10000 - fee)) in
    let (e, x, y) = exact_lem a i o (a * (10000 - fee) * o) (i * 10000 + a * (10000 - fee)) r h' in
    (
      n,
      e,
      x,
      y,
      product_lem a i o (10000 - fee) n (omega arith) y
          (div-mul-le_self (a * (10000 - fee) * o) (i * 10000 + a * (10000 - fee))),
    )
