-- ===== src/PoolRegistry/Quotes.antt =====
-- The quotes of counter/src/liquidity_pool.rs: `calculate_output`, `calculate_price_impact` and
-- `find_best_route`. They only read the registry, so they are functions into results.
use swaptrade_contract.Prelude.{
  ℕ, zero, suc, ◌+◌, ◌-◌, ◌*◌, ◌/◌, min, Option, none, some, [], ◌∷◌, ltb, ◌==◌, if◌then◌else◌,
}
use swaptrade_contract.Prelude.Int.{ℤ, pos, ltb_ℤ}
use swaptrade_contract.Host.{Result, ok, err, trap, u32_max}
use swaptrade_contract.Host.Words.{as_u128, as_i128, u128_max, checked_u128}
use swaptrade_contract.PoolRegistry.Types.{
  Symbol, LiquidityPool, Registry, Route, ContractError, amount_overflow, normalize_pair, ◌==ℤ◌,
}

abbrev pub Quote : Type 0 → Type 0
Quote A = Result ContractError A

infixl 5 ◌>>=◌
abbrev pub ◌>>=◌ : {A B : Type 0} → Quote A → (A → Quote B) → Quote B
ok a >>= f = f a
err e >>= f = err e
trap >>= f = trap

-- `….ok_or(AmountOverflow)?`, and a division and a subtraction that panic.
abbrev pub or_overflow : Option ℕ → Quote ℕ
or_overflow none = err amount_overflow
or_overflow (some n) = ok n

abbrev pub quotient : ℕ → ℕ → Quote ℕ
quotient a b = if b == 0 then trap else ok (a / b)

abbrev pub difference : ℕ → ℕ → Quote ℕ
difference a b = if ltb a b then trap else ok (a - b)

unfoldable pub calculate_output : LiquidityPool → Symbol → ℤ → Quote ℤ
calculate_output pool token_in amount_in = do
  let reserve_in = if token_in == pool.token_a then pool.reserve_a else pool.reserve_b
  let reserve_out = if token_in == pool.token_a then pool.reserve_b else pool.reserve_a
  kept ← difference 10000 pool.fee_tier
  product ← or_overflow (checked_u128 (as_u128 amount_in * kept))
  let amount_in_with_fee = product / 10000
  numerator ← or_overflow (checked_u128 (as_u128 reserve_out * amount_in_with_fee))
  denominator ← or_overflow (checked_u128 (as_u128 reserve_in + amount_in_with_fee))
  amount_out ← quotient numerator denominator
  ok (as_i128 amount_out)

-- `amount * 10000` panics where it leaves u128.
unfoldable pub calculate_price_impact : LiquidityPool → Symbol → ℤ → Quote ℕ
calculate_price_impact pool token_in amount_in =
    let reserve_in = if token_in == pool.token_a then pool.reserve_a else pool.reserve_b in
    if reserve_in ==ℤ pos 0
    then ok 10000
    else if ltb u128_max (as_u128 amount_in * 10000)
    then trap
    else ok (min (as_u128 amount_in * 10000 / as_u128 reserve_in) 10000)

-- `.ok()?`: an error makes the answer `None`.
abbrev pub or_none : {A : Type 0} → Quote A → (A → Quote (Option Route)) → Quote (Option Route)
or_none (ok a) f = f a
or_none (err e) f = ok none
or_none trap f = trap

-- The pool of a pair, and its id.
abbrev pub pool_of : Registry → Symbol → Symbol → Option (ℕ × LiquidityPool)
pool_of r token_a token_b =
    let (a, b) = normalize_pair token_a token_b in
    elim (r.pair_to_pool a b) [
      | none ↦ none
      | some pool_id ↦ elim (r.pools pool_id) [ none ↦ none | some pool ↦ some (pool_id, pool) ]
    ]

abbrev pub direct_route : Symbol → Symbol → ℤ → ℕ → LiquidityPool → Quote (Option Route)
direct_route token_in token_out amount_in pool_id pool =
    or_none (calculate_output pool token_in amount_in) (λ output.
      calculate_price_impact pool token_in amount_in >>= λ impact. ok (
        some (record {
          pools = pool_id ∷ [];
          tokens = token_in ∷ token_out ∷ [];
          expected_output = output;
          total_price_impact_bps = impact;
        })))

-- The token across from the one that comes in, and whether the pool has it.
abbrev pub across : LiquidityPool → Symbol → Option Symbol
across pool token_in =
    if pool.token_a == token_in
    then some pool.token_b
    else if pool.token_b == token_in
    then some pool.token_a
    else none

-- `best_output` is 0 as long as there is no route.
abbrev pub best_output : Option Route → ℤ
best_output none = pos 0
best_output (some r) = r.expected_output

module _ (registry : Registry) (token_in token_out : Symbol) (amount_in : ℤ) where
  -- A route through two pools, against the best so far; the rest of the loop goes on with it.
  abbrev pub try_pools :
      ℕ
      → LiquidityPool
      → Symbol
      → ℕ
      → LiquidityPool
      → Option Route
      → (Option Route → Quote (Option Route))
      → Quote (Option Route)
  try_pools i pool1 intermediate pool2_id pool2 best rest =
      or_none (calculate_output pool1 token_in amount_in) (λ out1.
        or_none (calculate_output pool2 intermediate out1) (λ out2.
          calculate_price_impact pool1 token_in amount_in >>= λ impact1.
          calculate_price_impact pool2 intermediate out1 >>= λ impact2. rest (
            if ltb_ℤ (best_output best) out2
            then some (record {
              pools = i ∷ pool2_id ∷ [];
              tokens = token_in ∷ intermediate ∷ token_out ∷ [];
              expected_output = out2;
              total_price_impact_bps = min (impact1 + impact2) u32_max;
            })
            else best)))

  abbrev pub try_intermediate :
      ℕ
      → LiquidityPool
      → Option Symbol
      → Option Route
      → (Option Route → Quote (Option Route))
      → Quote (Option Route)
  try_intermediate i pool1 none best rest = rest best
  try_intermediate i pool1 (some intermediate) best rest =
      if intermediate == token_out
      then rest best
      else elim (pool_of registry intermediate token_out) [
        | none ↦ rest best
        | some (pool2_id, pool2) ↦ try_pools i pool1 intermediate pool2_id pool2 best rest
      ]

  abbrev pub try_pool :
      ℕ
      → Option LiquidityPool
      → Option Route
      → (Option Route → Quote (Option Route))
      → Quote (Option Route)
  try_pool i none best rest = rest best
  try_pool i (some pool1) best rest = try_intermediate i pool1 (across pool1 token_in) best rest

  -- The loop over `count` ids from i on.
  unfoldable pub search_routes : ℕ → ℕ → Option Route → Quote (Option Route)
  search_routes zero i best = ok best
  search_routes (suc count) i best =
      try_pool i (registry.pools i) best (search_routes count (i + 1))

  -- `effective_max_hops` is computed and never used.
  unfoldable pub find_best_route : Quote (Option Route)
  unfolding search_routes
  find_best_route = elim (pool_of registry token_in token_out) [
    | some (pool_id, pool) ↦ direct_route token_in token_out amount_in pool_id pool
    | none ↦ search_routes registry.next_pool_id 0 none
  ]
