-- ===== src/TradeEngine/Pools.antt =====
-- `PoolManager`: swaptrade-contracts/trade-engine/src/liquidity_pool.rs.
pub mod Bounds
use swaptrade_contract.Prelude.{ℕ, Bool, false, ◌||◌, Option, none, some, ◌==◌, if◌then◌else◌}
use swaptrade_contract.Prelude.Int.{ℤ, pos, negsuc, leb_ℤ, ltb_ℤ, pos_part, neg_part}
use swaptrade_contract.Prelude.Maps.{set, set_pair}
use swaptrade_contract.Host.{Address, Result, ok, err, trap}
use swaptrade_contract.Host.Words.{
  saturating_add_i128, saturating_sub_i128, saturating_mul_i128, checked_i128, quot,
}
use swaptrade_contract.TradeEngine.Types.{LiquidityPool, TradeError, insufficient_liquidity}
use swaptrade_contract.TradeEngine.Storage.{Store}

abbrev pub save_pool : LiquidityPool → Store → Store
save_pool pool s = record s {
  pools = set s.pools pool.pool_id pool;
  pair_pools = set_pair s.pair_pools pool.asset_a pool.asset_b pool.pool_id;
}

abbrev pub get_pool : ℕ → Store → Option LiquidityPool
get_pool pool_id s = s.pools pool_id

-- The pool of a pair's entry, or of the reversed pair's.
abbrev pub get_pool_by_pair : Address → Address → Store → Option LiquidityPool
get_pool_by_pair asset_a asset_b s = elim (s.pair_pools asset_a asset_b) [
  | some pool_id ↦ get_pool pool_id s
  | none ↦ elim (s.pair_pools asset_b asset_a) [ some pool_id ↦ get_pool pool_id s | none ↦ none ]
]

abbrev pub is_zero : ℤ → Bool
is_zero (pos n) = n == 0
is_zero (negsuc n) = false

unfoldable pub get_amount_out : ℤ → ℤ → ℤ → ℕ → Result TradeError ℤ
unfolding saturating_add_i128 saturating_sub_i128 saturating_mul_i128
get_amount_out amount_in reserve_in reserve_out fee_bps =
    if leb_ℤ amount_in (pos 0) || leb_ℤ reserve_in (pos 0) || leb_ℤ reserve_out (pos 0)
    then err insufficient_liquidity
    else (let fee_multiplier = saturating_sub_i128 (pos 10000) (pos fee_bps) in
        let amount_in_with_fee = saturating_mul_i128 amount_in fee_multiplier in
        let numerator = saturating_mul_i128 amount_in_with_fee reserve_out in
        let denominator =
          saturating_add_i128 (saturating_mul_i128 reserve_in (pos 10000)) amount_in_with_fee in
        if is_zero denominator
        then err insufficient_liquidity
        else elim (checked_i128 (quot numerator denominator)) [
          | none ↦ trap
          | some amount_out ↦
              if leb_ℤ amount_out (pos 0) || ltb_ℤ reserve_out amount_out
              then err insufficient_liquidity
              else ok amount_out
        ])
